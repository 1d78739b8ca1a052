-- ===== src/Policy/Match.antt =====
-- `Match` and what it calls (internal/policy/engine.go): which policy governs a caller.
pub mod Best
pub mod Identity
use mathlib.Core.List.{head?}
use sigillum.Common.{
  Bytes, Bool, true, false, not, ◌&&◌, ◌||◌, List, [], ◌∷◌, Option, none, some, if◌then◌else◌, any,
  ltb_ℤ, eq_ℤ, bytes_eq, bytes_lt,
}
use sigillum.Policy.Types.{MailPolicy, PolicySubject, LabelSelector, Labels, Caller, Platform}

abbrev is_some {ℓ} : {A : Type ℓ} → Option A → Bool
is_some none = false
is_some (some _) = true

-- Whether the transport has to resolve the labels of the caller's ServiceAccount.
unfoldable pub needs_sa_labels : List MailPolicy → Bool
needs_sa_labels policies =
    any (λ p. any (λ s. is_some s.service_account_selector) p.spec.subjects) policies

abbrev is_nil {ℓ} : {A : Type ℓ} → List A → Bool
is_nil [] = true
is_nil (_ ∷ _) = false

abbrev or_false : Option Bool → Bool
or_false none = false
or_false (some b) = b

abbrev named : Option Bytes → Bytes → Bool
named none sa = false
named (some n) sa = bytes_eq n sa

abbrev opts_in : Option Bool → Bool
opts_in none = false
opts_in (some b) = b

module _ (env : Platform) where
  -- An empty selector never matches, and neither does one that does not convert.
  unfoldable pub selector_matches : LabelSelector → Labels → Bool
  selector_matches sel have =
      if is_nil sel.match_labels && is_nil sel.match_expressions
      then false
      else or_false (env.labels_match sel have)

  abbrev selected : Option LabelSelector → Labels → Bool
  selected none have = false
  selected (some sel) have = selector_matches sel have

  unfoldable pub subject_admits : Caller → PolicySubject → Bool
  subject_admits c s =
      named s.service_account c.service_account
      || c.sa_labels_known && selected s.service_account_selector c.sa_labels
      || c.legacy_pod_ip && selected s.pod_selector c.pod_labels

  unfoldable pub subject_matches : MailPolicy → Caller → Bool
  subject_matches p c = any (subject_admits c) p.spec.subjects

  -- The three `continue` guards of the loop in `Match`.
  unfoldable pub is_candidate : Caller → MailPolicy → Bool
  is_candidate c p =
      if not (bytes_eq p.namespace c.namespace)
      then false
      else if c.legacy_pod_ip && not (opts_in p.spec.legacy_auth)
      then false
      else subject_matches p c

  unfoldable pub candidates : Caller → List MailPolicy → List MailPolicy
  candidates c [] = []
  candidates c (p ∷ ps) = let rest = candidates c ps in if is_candidate c p then p ∷ rest else rest

-- The order that `Match` sorts by: higher priority, then the name.
unfoldable pub less : MailPolicy → MailPolicy → Bool
less a b =
    if not (eq_ℤ a.spec.priority b.spec.priority)
    then ltb_ℤ b.spec.priority a.spec.priority
    else bytes_lt a.name b.name

-- `sort.SliceStable`: of the stable sorts by a strict weak order any gives the same list.
unfoldable pub insert : MailPolicy → List MailPolicy → List MailPolicy
insert p [] = p ∷ []
insert p (q ∷ qs) = let rest = insert p qs in if less q p then q ∷ rest else p ∷ q ∷ qs

unfoldable pub stable_sort : List MailPolicy → List MailPolicy
stable_sort [] = []
stable_sort (p ∷ ps) = insert p (stable_sort ps)

unfoldable pub match : Platform → List MailPolicy → Caller → Option MailPolicy
match env policies c = head? (stable_sort (candidates env c policies))
