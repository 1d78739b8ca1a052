-- ===== src/Policy/Match/Identity.antt =====
-- What of a caller's identity can decide which policy governs it.
use sigillum.Common.{Bool, true, false, ◌≡◌, refl, List, [], ◌∷◌, some, arith, any, All}
use sigillum.Policy.Types.{MailPolicy, PolicySubject, Labels, Caller, Platform}
use sigillum.Policy.Match.{
  is_some, needs_sa_labels, subject_admits, subject_matches, is_candidate, candidates, match,
}
use sigillum.Policy.Match.Best.{match-IsBest}

module _ (env : Platform) (c : Caller) where
  -- A policy that `match` returns for a caller known only by the pod IP has opted in to the pod-IP
  -- fallback.
  pub match-legacy_opt_in :
      (policies : List MailPolicy) {p : MailPolicy}
      → c.legacy_pod_ip ≡ true
      → match env policies c ≡ some p
      → p.spec.legacy_auth ≡ some true
  unfolding is_candidate
  match-legacy_opt_in policies legacy h =
      let best = match-IsBest env policies c h in ground (arith, best.0)

-- Two callers whom every listed policy's subjects treat alike get the same policy.
module _ (env : Platform) (c d : Caller) (ns : c.namespace ≡ d.namespace)
    (ip : c.legacy_pod_ip ≡ d.legacy_pod_ip) where
  candidates-eq :
      (ps : List MailPolicy)
      → All (λ p. subject_matches env p c ≡ subject_matches env p d) ps
      → candidates env c ps ≡ candidates env d ps
  unfolding candidates is_candidate
  candidates-eq [] h = refl
  candidates-eq (p ∷ ps) h = rw (h.0, ns, ip, candidates-eq ps h.1)

  match-eq :
      (ps : List MailPolicy)
      → All (λ p. subject_matches env p c ≡ subject_matches env p d) ps
      → match env ps c ≡ match env ps d
  unfolding match
  match-eq ps h = rw (candidates-eq ps h)

  All-alike :
      ((s : PolicySubject) → subject_admits env c s ≡ subject_admits env d s)
      → (ps : List MailPolicy) → All (λ p. subject_matches env p c ≡ subject_matches env p d) ps
  unfolding subject_matches
  All-alike same [] = tt
  All-alike same (p ∷ ps) = (any-eq p.spec.subjects, All-alike same ps)
    where
      any-eq :
          (ss : List PolicySubject) → any (subject_admits env c) ss ≡ any (subject_admits env d) ss
      any-eq [] = refl
      any-eq (s ∷ ss) = rw (same s, any-eq ss)

-- Without a selector in any policy the labels need not be looked up: known or not, and whatever
-- they are, the outcome is the same.
module _ (env : Platform) (c : Caller) (l : Labels) (known : Bool) where
  abbrev looked_up : Caller
  looked_up = record c { sa_labels = l; sa_labels_known = known }

  subjects-alike :
      (ss : List PolicySubject)
      → any (λ s. is_some s.service_account_selector) ss ≡ false
      → any (subject_admits env looked_up) ss ≡ any (subject_admits env c) ss
  unfolding subject_admits
  subjects-alike [] h = refl
  subjects-alike (s ∷ ss) h = ground (arith, subjects-alike ss)

  policies-alike :
      (ps : List MailPolicy)
      → needs_sa_labels ps ≡ false
      → All (λ p. subject_matches env p looked_up ≡ subject_matches env p c) ps
  unfolding needs_sa_labels subject_matches
  policies-alike [] h = tt
  policies-alike (p ∷ ps) h =
      (subjects-alike p.spec.subjects (ground arith), policies-alike ps (ground arith))

-- If `needs_sa_labels` says that the policies do not need the ServiceAccount's labels, then `match`
-- returns the same policy whatever labels it is given, known or not.
pub match-needs_sa_labels :
    (env : Platform) (policies : List MailPolicy) (c : Caller) (l : Labels) (known : Bool)
    → needs_sa_labels policies ≡ false
    → match env policies (record c { sa_labels = l; sa_labels_known = known })
      ≡ match env policies c
match-needs_sa_labels env policies c l known h =
    match-eq env (looked_up env c l known) c refl refl policies
      (policies-alike env c l known policies h)
