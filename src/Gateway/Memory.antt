-- ===== src/Gateway/Memory.antt =====
-- The pipeline on the in-memory limiter: what one call leaves in the log of admitted messages.
use sigillum.Common.{
  Bytes, ℕ, ◌≤◌, Bool, true, false, ap, subst, sym, ◌∙◌, ◌≡◌, refl, inl, inr, List, [], ◌∷◌, ◌++◌,
  some, arith, if◌then◌else◌, all, bytes_eq, bytes_eq_iff, bytes_eq_refl, Bool-cases,
}
use mathlib.Core.List.{append-nil}
use sigillum.Policy.Types.{MailPolicy, Platform}
use sigillum.RateLimit.{
  Limits, Limiter, Reply, windows, uncapped, allow, refund, drop_last, keep, entry,
}
use sigillum.RateLimit.Spec.{Log, has_room, admit, take_back}
use sigillum.RateLimit.Tracked.{Tracked, drop_last-append}
use sigillum.RateLimit.Tracks.{Tracks, Tracks-later, allow-Tracks, refund-Tracks}
use sigillum.Gateway.Types.{
  Request, Status, accepted, denied, rate_limited, backend_not_ready, upstream_error, unavailable,
  policy_invalid, Services, LimiterOps,
}
use sigillum.Gateway.Send.{State, rate_key, rate_limits, matched, send}
use sigillum.Gateway.Send.Charge.{Admits, Net, send-Net, is_uncapped, charge, charge_and_refund}

abbrev pub memory : LimiterOps Limiter
memory = record {
  allow = λ now key limits l. let (l', r) = allow now key limits l in (l', some r);
  refund = refund;
}

-- Whether the message stays charged.
abbrev pub is_spent : Status → Bool → Bool
is_spent accepted permanent = true
is_spent upstream_error permanent = permanent
is_spent denied permanent = false
is_spent rate_limited permanent = false
is_spent backend_not_ready permanent = false
is_spent unavailable permanent = false
is_spent policy_invalid permanent = false

admit-uncapped :
    (now : ℕ) (key : Bytes) (limits : Limits) (log : Log)
    → uncapped limits ≡ true
    → admit now key limits log ≡ (log, true)
unfolding admit
admit-uncapped now key limits log u = rw (admit, u) refl

admit_rejected :
    (now : ℕ) (key : Bytes) (limits : Limits) (log : Log)
    → (admit now key limits log).1 ≡ false
    → (admit now key limits log).0 ≡ log
unfolding admit
admit_rejected now key limits log = elim (Bool-cases (uncapped limits)) [
  | inl u ↦ rw (admit, u) (λ e. refl)
  | inr u ↦
      rw (admit, u)
        (elim (Bool-cases (all (has_room now (log key)) (windows limits))) [
          | inl r ↦ rw r (λ e. absurd (ground arith))
          | inr r ↦ rw r (λ e. refl)
        ])
]

drop_last_new : (xs : List ℕ) (y : ℕ) → drop_last (xs ++ y ∷ []) ≡ xs
drop_last_new xs y = drop_last-append xs y [] ∙ append-nil xs

-- Taking back the message that was just admitted.
take_back-admit :
    (now : ℕ) (key : Bytes) (limits : Limits) (log : Log)
    → uncapped limits ≡ false
    → (admit now key limits log).1 ≡ true
    → (k : Bytes) → take_back key (admit now key limits log).0 k ≡ log k
unfolding admit take_back
take_back-admit now key limits log u =
    elim (Bool-cases (all (has_room now (log key)) (windows limits))) [
      | inl r ↦
          rw (admit, u, take_back, r)
            (λ e k. elim (Bool-cases (bytes_eq key k)) [
              | inl t ↦
                  rw (t, bytes_eq_refl key)
                    (drop_last_new (log key) now ∙ ap log ((bytes_eq_iff key k).0 t))
              | inr t ↦ rw t refl
            ])
      | inr r ↦ rw (admit, u, take_back, r) (λ e. absurd (ground arith))
    ]

module _ (policy : Bytes → Limits) (now : ℕ) (p : MailPolicy)
    (stable : policy (rate_key p) ≡ rate_limits p.spec.rate_limits) where
  -- The log after the call, the message being counted if it stays charged.
  abbrev pub counted : Log → Status → Bool → Log
  counted log status permanent =
      if is_spent status permanent
      then (admit now (rate_key p) (rate_limits p.spec.rate_limits) log).0
      else log

  abbrev admitted : Log → Log × Bool
  admitted log = admit now (rate_key p) (rate_limits p.spec.rate_limits) log

  abbrev reply : Limiter → Limiter × Reply
  reply l = allow now (rate_key p) (rate_limits p.spec.rate_limits) l

  allow-limits :
      (l : Limiter) (log : Log)
      → Tracks policy now l log
      → ((reply l).1.allowed ≡ (admitted log).1) × Tracks policy now (reply l).0 (admitted log).0
  allow-limits l log t =
      subst
        (λ limits.
          ((allow now (rate_key p) limits l).1.allowed ≡ (admit now (rate_key p) limits log).1)
          × Tracks policy now (allow now (rate_key p) limits l).0
              (admit now (rate_key p) limits log).0)
        stable (allow-Tracks policy now now (rate_key p) l log (omega arith) t)

  charge-Tracks :
      (l : Limiter) (log : Log)
      → Tracks policy now l log
      → Tracks policy now (charge memory now p l) (admitted log).0
  charge-Tracks l log t = elim (Bool-cases (is_uncapped memory now p)) [
    | inl u ↦ rw (u, admit-uncapped now (rate_key p) (rate_limits p.spec.rate_limits) log u) t
    | inr u ↦ rw u (allow-limits l log t).1
  ]

  refund-back :
      (l : Limiter) (log : Log)
      → Tracks policy now l log
      → Admits memory now p l
      → Tracks policy now (charge_and_refund memory now p l) log
  refund-back l log t a = elim (Bool-cases (is_uncapped memory now p)) [
    | inl u ↦ rw u t
    | inr u ↦ rw u (λ k.
        let both = allow-limits l log t in
        subst
          (λ ts.
            Tracked now (keep (policy k)) (entry ((refund (rate_key p) (reply l).0).hits k)) ts)
          (take_back-admit now (rate_key p) (rate_limits p.spec.rate_limits) log u
            (sym both.0 ∙ allowed_of a u) k)
          (refund-Tracks policy now (rate_key p) (reply l).0 (admitted log).0 both.1 k))
  ]
    where
      allowed_of :
          Admits memory now p l → is_uncapped memory now p ≡ false → (reply l).1.allowed ≡ true
      allowed_of (inl e) u = absurd (ground arith)
      allowed_of (inr (r, e, h)) u = ground arith

  Net-Tracks :
      (l l' : Limiter) (log : Log) (status : Status) (permanent : Bool)
      → Tracks policy now l log
      → Net memory now p l status permanent l'
      → Tracks policy now l' (counted log status permanent)
  Net-Tracks l l' log accepted permanent t (a, e) =
      subst (λ x. Tracks policy now x (admitted log).0) (sym e) (charge-Tracks l log t)
  Net-Tracks l l' log upstream_error true t (a, e) =
      subst (λ x. Tracks policy now x (admitted log).0) (sym e) (charge-Tracks l log t)
  Net-Tracks l l' log upstream_error false t (a, e) =
      subst (λ x. Tracks policy now x log) (sym e) (refund-back l log t a)
  Net-Tracks l l' log denied permanent t (inl e) = subst (λ x. Tracks policy now x log) (sym e) t
  Net-Tracks l l' log denied permanent t (inr (a, e)) =
      subst (λ x. Tracks policy now x log) (sym e) (refund-back l log t a)
  Net-Tracks l l' log rate_limited permanent t ((r, e, a), c) =
      subst (λ x. Tracks policy now x log) (sym c)
        (subst (λ x. Tracks policy now (charge memory now p l) x)
          (admit_rejected now (rate_key p) (rate_limits p.spec.rate_limits) log
            (sym (allow-limits l log t).0 ∙ ground arith))
          (charge-Tracks l log t))
  Net-Tracks l l' log unavailable permanent t (e, c) = absurd (ground arith)
  Net-Tracks l l' log backend_not_ready permanent t e =
      subst (λ x. Tracks policy now x log) (sym e) t
  Net-Tracks l l' log policy_invalid permanent t e = subst (λ x. Tracks policy now x log) (sym e) t

  -- On the in-memory limiter, if it tracks the log of admitted messages before a call of `send` and
  -- the matching policy has the limits its key always has, then afterwards it tracks the log with
  -- this message counted if the result is accepted or a permanent upstream failure, and the
  -- unchanged log in every other case.
  pub send-Tracks :
      (env : Platform) (services : Services) (req : Request) (before : ℕ) (s : State Limiter)
      (log : Log)
      → matched env services memory now req ≡ some p
      → before ≤ now
      → Tracks policy before s.limiter log
      → let (s', r) = send env services memory now req s in
        Tracks policy now s'.limiter (counted log r.status r.permanent)
  send-Tracks env services req before s log m le t =
      Net-Tracks s.limiter _ log _ _ (Tracks-later policy before now s.limiter log le t)
        (send-Net env services memory now req p s m)
