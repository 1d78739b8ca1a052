-- ===== src/Gateway/Send/Closed.antt =====
-- The drivers that a call of `send` opens and closes (internal/gateway/gateway.go).
use sigillum.Common.{
  Bytes, ℕ, Bool, true, false, not, ◌&&◌, ◌≡◌, refl, ◌∙◌, inl, inr, List, Option, none, some, arith,
  Bool-cases, Option-cases,
}
use sigillum.Policy.Types.{MailPolicy, Decision, Platform}
use sigillum.RateLimit.{uncapped}
use sigillum.Gateway.Types.{Request, Event, Sent, delivered, failed, Driver, Services, LimiterOps}
use sigillum.Gateway.Validity.{check}
use sigillum.Gateway.Backend.{Resolved, backend_for_policy, open_driver}
use sigillum.Gateway.Send.{
  State, refunded, opened, rate_limits, rate_key, relay_raw, deliver_as, deliver, finish,
  charge_and_deliver, open_and_send, refused_by, resolve_and_send, decide_and_send, matched,
  send_matched, send,
}
use sigillum.Gateway.Send.Audit.{Fallible-cases}

module _ (env : Platform) (services : Services) {S : Type 0} (limiter : LimiterOps S) (now : ℕ)
    (req : Request) where
  drivers_open-refunded :
      (charged : Bool) (p : MailPolicy) (s : State S)
      → (refunded env services limiter now req charged p s).drivers_open ≡ s.drivers_open
  drivers_open-refunded true p s = refl
  drivers_open-refunded false p s = refl

  drivers_open-relay_raw :
      (f : Option (Bytes → List Bytes → Bytes → Sent)) (raw key : Bytes) (s : State S)
      → (relay_raw env services limiter now req f raw key s).0.drivers_open ≡ s.drivers_open
  drivers_open-relay_raw none raw key s = refl
  drivers_open-relay_raw (some f) raw key s = refl

  drivers_open-deliver_as :
      (raw : Option Bytes) (d : Driver) (key : Bytes) (s : State S)
      → (deliver_as env services limiter now req raw d key s).0.drivers_open ≡ s.drivers_open
  drivers_open-deliver_as none d key s = refl
  drivers_open-deliver_as (some raw) d key s = drivers_open-relay_raw d.send_raw raw key s

  drivers_open-deliver :
      (d : Driver) (key : Bytes) (s : State S)
      → (deliver env services limiter now req d key s).0.drivers_open ≡ s.drivers_open
  unfolding deliver
  drivers_open-deliver d key s = drivers_open-deliver_as req.raw d key s

  drivers_open-finish :
      (ev : Event) (p : MailPolicy) (key : Bytes) (charged : Bool) (s : State S) (answer : Sent)
      → (finish env services limiter now req ev p key charged (s, answer)).0.drivers_open
        ≡ s.drivers_open
  unfolding finish
  drivers_open-finish ev p key charged s (delivered r) = refl
  drivers_open-finish ev p key charged s (failed x) =
      elim (Bool-cases x.recipient_not_in_envelope) [
        | inl t ↦ rw (finish, t) (drivers_open-refunded charged p s)
        | inr t ↦ rw (finish, t) (drivers_open-refunded (charged && not x.permanent) p _)
      ]

  drivers_open-finish-deliver :
      (ev : Event) (p : MailPolicy) (key : Bytes) (charged : Bool) (d : Driver) (s : State S)
      → (finish env services limiter now req ev p key charged
          (deliver env services limiter now req d key s)).0.drivers_open
        ≡ s.drivers_open
  drivers_open-finish-deliver ev p key charged d s =
      drivers_open-finish ev p key charged _ (deliver env services limiter now req d key s).1
      ∙ drivers_open-deliver d key s

  drivers_open-charge_and_deliver :
      (ev : Event) (p : MailPolicy) (key : Bytes) (d : Driver) (s : State S)
      → (charge_and_deliver env services limiter now req ev p key d s).0.drivers_open
        ≡ s.drivers_open
  unfolding charge_and_deliver
  drivers_open-charge_and_deliver ev p key d s =
      elim (Bool-cases (uncapped (rate_limits p.spec.rate_limits))) [
        | inl t ↦ rw (charge_and_deliver, t) (drivers_open-finish-deliver ev p key false d s)
        | inr t ↦
            rw (charge_and_deliver, t)
              (elim (Option-cases
                (limiter.allow now (rate_key p) (rate_limits p.spec.rate_limits) s.limiter).1) [
                  | inl e ↦ rw e refl
                  | inr (r, e) ↦ rw e (elim (Bool-cases r.allowed) [
                    | inl a ↦ rw a (drivers_open-finish-deliver ev p key true d _)
                    | inr a ↦ rw a refl
                  ])
                ])
      ]

  drivers_open-open_and_send :
      (ev : Event) (p : MailPolicy) (b : Resolved) (s : State S)
      → (open_and_send env services limiter now req ev p b s).0.drivers_open ≡ s.drivers_open
  unfolding open_and_send
  drivers_open-open_and_send ev p b s = elim (Fallible-cases (open_driver services b)) [
    | inl (e, t) ↦ rw (open_and_send, t) refl
    | inr (d, t) ↦
        rw (open_and_send, t)
          (omega (
            arith,
            drivers_open-charge_and_deliver ev p b.key d (opened env services limiter now req s),
          ))
  ]

  drivers_open-resolve_and_send :
      (p : MailPolicy) (s : State S)
      → (resolve_and_send env services limiter now req p s).0.drivers_open ≡ s.drivers_open
  unfolding resolve_and_send
  drivers_open-resolve_and_send p s =
      elim (Fallible-cases (backend_for_policy services p s.validity).1) [
        | inl (e, t) ↦ rw (resolve_and_send, t) refl
        | inr (b, t) ↦
            rw (resolve_and_send, t)
              (elim (Option-cases
                (refused_by env services limiter now req b.spec.allowed_senders)) [
                  | inl k ↦ rw k (drivers_open-open_and_send _ p b _)
                  | inr (from, k) ↦ rw k refl
                ])
      ]

  drivers_open-decide_and_send :
      (d : Decision) (s : State S)
      → (decide_and_send env services limiter now req d s).0.drivers_open ≡ s.drivers_open
  unfolding decide_and_send
  drivers_open-decide_and_send d s = elim (Bool-cases d.allowed) [
    | inl t ↦
        rw (decide_and_send, t)
          (elim (Option-cases d.policy) [
            | inl k ↦ rw k refl
            | inr (p, k) ↦ rw k (drivers_open-resolve_and_send p s)
          ])
    | inr t ↦ rw (decide_and_send, t) refl
  ]

  drivers_open-send_matched :
      (o : Option MailPolicy) (s : State S)
      → (send_matched env services limiter now req o s).0.drivers_open ≡ s.drivers_open
  unfolding send_matched
  drivers_open-send_matched none s = drivers_open-decide_and_send _ s
  drivers_open-send_matched (some p) s =
      elim (Option-cases
        (check p.uid p.generation (services.validate_mail_policy p) s.validity).1) [
          | inl t ↦ rw (send_matched, t) (drivers_open-decide_and_send _ _)
          | inr (e, t) ↦ rw (send_matched, t) refl
        ]

  -- A call of `send` leaves as many drivers open as before: a driver that it opens it closes,
  -- whatever the result.
  pub drivers_open-send :
      (s : State S) → (send env services limiter now req s).0.drivers_open ≡ s.drivers_open
  unfolding send
  drivers_open-send s = drivers_open-send_matched (matched env services limiter now req) s
