-- ===== src/Gateway/Send/Charge.antt =====
-- What a call leaves of the rate limit's charge, by the status of its result.
use sigillum.Common.{
  Bytes, ℕ, Bool, true, false, ◌&&◌, ap, ◌≡◌, refl, ◌∙◌, ◌⊎◌, inl, inr, none, some, if◌then◌else◌,
  Bool-cases, Option-cases,
}
use mathlib.Core.Bool.{and-true, and-false}
use sigillum.Policy.Types.{MailPolicy, Decision, Platform}
use sigillum.Policy.Evaluate.{evaluate}
use sigillum.Policy.Evaluate.Named.{evaluate-policy}
use sigillum.RateLimit.{uncapped, Reply}
use sigillum.Gateway.Types.{
  Request, Status, accepted, denied, rate_limited, backend_not_ready, upstream_error, unavailable,
  policy_invalid, Result, Event, Sent, delivered, failed, Driver, Services, LimiterOps,
}
use sigillum.Gateway.Validity.{check}
use sigillum.Gateway.Backend.{Resolved, backend_for_policy, open_driver}
use sigillum.Gateway.Send.{
  State, refunded, opened, rate_limits, rate_key, deliver, finish, charge_and_deliver,
  open_and_send, refused_by, view, resolve_and_send, decide_and_send, matched, send_matched, send,
}
use sigillum.Gateway.Send.Audit.{Fallible-cases}

module _ {S : Type 0} (limiter : LimiterOps S) (now : ℕ) (p : MailPolicy) where
  abbrev pub is_uncapped : Bool
  is_uncapped = uncapped (rate_limits p.spec.rate_limits)

  -- The limiter after the policy's charge, where it caps anything.
  abbrev pub charge : S → S
  charge l =
      if is_uncapped
      then l
      else (limiter.allow now (rate_key p) (rate_limits p.spec.rate_limits) l).0

  abbrev pub charge_and_refund : S → S
  charge_and_refund l =
      if is_uncapped
      then l
      else limiter.refund (rate_key p)
          (limiter.allow now (rate_key p) (rate_limits p.spec.rate_limits) l).0

  -- The limiter lets the message through.
  abbrev pub Admits : S → Type 0
  Admits l =
      (is_uncapped ≡ true)
      ⊎ ((r : Reply) × ((limiter.allow now (rate_key p) (rate_limits p.spec.rate_limits) l).1
            ≡ some r)
          × (r.allowed ≡ true))

  -- The limiter turns the message away.
  abbrev pub Rejects : S → Type 0
  Rejects l =
      (r : Reply) × ((limiter.allow now (rate_key p) (rate_limits p.spec.rate_limits) l).1 ≡ some r)
      × (r.allowed ≡ false)

  -- From the limiter before the call, the status and whether a failure is permanent, to the limiter
  -- after it.
  abbrev pub Net : S → Status → Bool → S → Type 0
  Net l accepted permanent l' = Admits l × (l' ≡ charge l)
  Net l upstream_error true l' = Admits l × (l' ≡ charge l)
  Net l upstream_error false l' = Admits l × (l' ≡ charge_and_refund l)
  Net l denied permanent l' = (l' ≡ l) ⊎ (Admits l × (l' ≡ charge_and_refund l))
  Net l rate_limited permanent l' = Rejects l × (l' ≡ charge l)
  Net l unavailable permanent l' =
      ((limiter.allow now (rate_key p) (rate_limits p.spec.rate_limits) l).1 ≡ none)
      × (l' ≡ charge l)
  Net l backend_not_ready permanent l' = l' ≡ l
  Net l policy_invalid permanent l' = l' ≡ l

  abbrev pub HasNet : S → State S × Result → Type 0
  HasNet l out = Net l out.1.status out.1.permanent out.0.limiter

module _ (env : Platform) (services : Services) {S : Type 0} (limiter : LimiterOps S) (now : ℕ)
    (req : Request) where
  limiter-deliver :
      (d : Driver) (key : Bytes) (s : State S)
      → (deliver env services limiter now req d key s).0.limiter ≡ s.limiter
  unfolding deliver
  limiter-deliver d key s = elim (Option-cases req.raw) [
    | inl e ↦ rw e refl
    | inr (raw, e) ↦
        rw e (elim (Option-cases d.send_raw) [ inl t ↦ rw t refl | inr (f, t) ↦ rw t refl ])
  ]

  limiter-refunded :
      (charged : Bool) (p : MailPolicy) (s : State S)
      → (refunded env services limiter now req charged p s).limiter
        ≡ (if charged then limiter.refund (rate_key p) s.limiter else s.limiter)
  limiter-refunded true p s = refl
  limiter-refunded false p s = refl

  finish-Net :
      (ev : Event) (p : MailPolicy) (key : Bytes) (charged : Bool) (l : S) (s : State S)
      (answer : Sent)
      → Admits limiter now p l
      → s.limiter ≡ charge limiter now p l
      → (if charged then limiter.refund (rate_key p) s.limiter else s.limiter)
        ≡ charge_and_refund limiter now p l
      → HasNet limiter now p l (finish env services limiter now req ev p key charged (s, answer))
  unfolding finish
  finish-Net ev p key charged l s (delivered r) a e g = (a, e)
  finish-Net ev p key charged l s (failed x) a e g = elim (Bool-cases x.recipient_not_in_envelope) [
    | inl t ↦ rw t (inr (a, limiter-refunded charged p s ∙ g))
    | inr t ↦ rw t (elim (Bool-cases x.permanent) [
      | inl k ↦ rw k (a, limiter-refunded (charged && false) p _ ∙ rw (and-false charged) e)
      | inr k ↦ rw k (a, limiter-refunded (charged && true) p _ ∙ rw (and-true charged) g)
    ])
  ]

  deliver-Net :
      (ev : Event) (p : MailPolicy) (key : Bytes) (charged : Bool) (l : S) (d : Driver)
      (s : State S)
      → Admits limiter now p l
      → s.limiter ≡ charge limiter now p l
      → (if charged then limiter.refund (rate_key p) s.limiter else s.limiter)
        ≡ charge_and_refund limiter now p l
      → HasNet limiter now p l (
          finish env services limiter now req ev p key charged
            (deliver env services limiter now req d key s))
  deliver-Net ev p key charged l d s a e g =
      let same = limiter-deliver d key s in
      finish-Net ev p key charged l _ _ a (same ∙ e)
        (ap (λ x. if charged then limiter.refund (rate_key p) x else x) same ∙ g)

  charge_and_deliver-Net :
      (ev : Event) (p : MailPolicy) (key : Bytes) (d : Driver) (s : State S)
      → HasNet limiter now p s.limiter
          (charge_and_deliver env services limiter now req ev p key d s)
  unfolding charge_and_deliver
  charge_and_deliver-Net ev p key d s =
      let reply = (limiter.allow now (rate_key p) (rate_limits p.spec.rate_limits) s.limiter).1 in
      elim (Bool-cases (is_uncapped limiter now p)) [
        | inl t ↦
            rw (charge_and_deliver, t)
              (deliver-Net ev p key false s.limiter d s (inl t) (rw t refl) (rw t refl))
        | inr t ↦
            rw (charge_and_deliver, t)
              (elim (Option-cases reply) [
                | inl e ↦ rw e (e, rw t refl)
                | inr (r, e) ↦ rw e (elim (Bool-cases r.allowed) [
                  | inl a ↦ rw a (
                      deliver-Net ev p key true s.limiter d _ (inr (r, e, a)) (rw t refl)
                        (rw t refl))
                  | inr a ↦ rw a ((r, e, a), rw t refl)
                ])
              ])
      ]

  open_and_send-Net :
      (ev : Event) (p : MailPolicy) (b : Resolved) (s : State S)
      → HasNet limiter now p s.limiter (open_and_send env services limiter now req ev p b s)
  unfolding open_and_send
  open_and_send-Net ev p b s = elim (Fallible-cases (open_driver services b)) [
    | inl (e, t) ↦ rw (open_and_send, t) refl
    | inr (d, t) ↦
        rw (open_and_send, t)
          (charge_and_deliver-Net ev p b.key d (opened env services limiter now req s))
  ]

  resolve_and_send-Net :
      (p : MailPolicy) (s : State S)
      → HasNet limiter now p s.limiter (resolve_and_send env services limiter now req p s)
  unfolding resolve_and_send
  resolve_and_send-Net p s = elim (Fallible-cases (backend_for_policy services p s.validity).1) [
    | inl (e, t) ↦ rw (resolve_and_send, t) refl
    | inr (b, t) ↦
        rw (resolve_and_send, t)
          (elim (Option-cases (refused_by env services limiter now req b.spec.allowed_senders)) [
            | inl k ↦ rw k (open_and_send-Net _ p b _)
            | inr (from, k) ↦ rw k (inl refl)
          ])
  ]

  decide_and_send-Net :
      (p : MailPolicy) (d : Decision) (s : State S)
      → d.policy ≡ some p
      → HasNet limiter now p s.limiter (decide_and_send env services limiter now req d s)
  unfolding decide_and_send
  decide_and_send-Net p d s e = elim (Bool-cases d.allowed) [
    | inl t ↦ rw (decide_and_send, t, e) (resolve_and_send-Net p s)
    | inr t ↦ rw (decide_and_send, t) (inl refl)
  ]

  -- For any limiter, what a call of `send` under a matching policy leaves of it is fixed by the
  -- result: accepted and permanent upstream failures leave the charge, transient ones the charge and
  -- its refund; a denial leaves it untouched or refunded; a rate-limited or unavailable result
  -- leaves what `allow` left, which rejected or failed; a backend not ready and an invalid policy
  -- leave it untouched. Only an admitted message is accepted or fails upstream.
  pub send-Net :
      (p : MailPolicy) (s : State S)
      → matched env services limiter now req ≡ some p
      → HasNet limiter now p s.limiter (send env services limiter now req s)
  unfolding send send_matched
  send-Net p s m =
      elim (Option-cases
        (check p.uid p.generation (services.validate_mail_policy p) s.validity).1) [
          | inl t ↦
              rw (send, m, send_matched, t)
                (decide_and_send-Net p (evaluate env (some p) (view req)) _
                  (evaluate-policy env p (view req)))
          | inr (e, t) ↦ rw (send, m, send_matched, t) refl
        ]
