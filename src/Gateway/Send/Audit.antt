-- ===== src/Gateway/Send/Audit.antt =====
-- The audit stream: what every call of `Send` appends to it.
use sigillum.Common.{
  Bytes, ℕ, Bool, true, false, not, ◌&&◌, subst, ◌≡◌, refl, ◌⊎◌, inl, inr, List, [], ◌∷◌, ◌++◌,
  Option, none, some, Bool-cases, Option-cases,
}
use sigillum.Policy.Types.{MailPolicy, Decision, Platform}
use sigillum.RateLimit.{uncapped}
use sigillum.Gateway.Types.{
  Fallible, ok, err, Request, Status, accepted, denied, rate_limited, backend_not_ready,
  upstream_error, unavailable, policy_invalid, Result, Verdict, accept, reject, Event, Sent,
  delivered, failed, Driver, Services, LimiterOps,
}
use sigillum.Gateway.Validity.{check}
use sigillum.Gateway.Backend.{Resolved, backend_for_policy, open_driver}
use sigillum.Gateway.Send.{
  State, opened, refunded, new_event, rate_limits, rate_key, deny, deliver, finish,
  charge_and_deliver, open_and_send, refused_by, resolve_and_send, decide_and_send, send_matched,
  send,
}

abbrev pub verdict_of : Status → Verdict
verdict_of accepted = accept
verdict_of denied = reject
verdict_of rate_limited = reject
verdict_of backend_not_ready = reject
verdict_of upstream_error = reject
verdict_of unavailable = reject
verdict_of policy_invalid = reject

-- The fields that identify the request.
abbrev pub request_of : Event → Event
request_of e = record e { policy = []; backend = []; decision = none; reason = [] }

-- One record was appended: of this request, with the result's verdict and policy.
pub record HasRecord (req : Request) {S : Type 0} (old : List Event) (out : State S × Result)
    : Type 0 where
  pub event : Event
  pub appended : out.0.audit ≡ old ++ event ∷ []
  pub verdict : event.decision ≡ some (verdict_of out.1.status)
  pub policy : event.policy ≡ out.1.policy
  pub request : request_of event ≡ new_event req

-- Fallible results and sent messages, split with the equation kept.
pub Fallible-cases :
    {A : Type 0} (x : Fallible A) → ((e : Bytes) × (x ≡ err e)) ⊎ ((a : A) × (x ≡ ok a))
Fallible-cases (err e) = inl (e, refl)
Fallible-cases (ok a) = inr (a, refl)

module _ (env : Platform) (services : Services) {S : Type 0} (limiter : LimiterOps S) (now : ℕ)
    (req : Request) where
  audit-deliver :
      (d : Driver) (key : Bytes) (s : State S)
      → (deliver env services limiter now req d key s).0.audit ≡ s.audit
  unfolding deliver
  audit-deliver d key s = elim (Option-cases req.raw) [
    | inl e ↦ rw e refl
    | inr (raw, e) ↦
        rw e (elim (Option-cases d.send_raw) [ inl t ↦ rw t refl | inr (f, t) ↦ rw t refl ])
  ]

  -- The event at hand is of the request and names the policy.
  abbrev IsFor : Event → MailPolicy → Type 0
  IsFor ev p = (request_of ev ≡ new_event req) × (ev.policy ≡ p.name)

  audit-refunded :
      (charged : Bool) (p : MailPolicy) (s : State S)
      → (refunded env services limiter now req charged p s).audit ≡ s.audit
  audit-refunded true p s = refl
  audit-refunded false p s = refl

  finish-HasRecord :
      (ev : Event) (p : MailPolicy) (key : Bytes) (charged : Bool) (s : State S) (answer : Sent)
      → IsFor ev p
      → HasRecord req s.audit (finish env services limiter now req ev p key charged (s, answer))
  unfolding finish
  finish-HasRecord ev p key charged s (delivered r) (f, n) = record {
    event = _;
    appended = refl;
    verdict = refl;
    policy = n;
    request = f;
  }
  finish-HasRecord ev p key charged s (failed e) (f, n) =
      elim (Bool-cases e.recipient_not_in_envelope) [
        | inl t ↦ rw t (
            subst
              (λ a.
                HasRecord req a
                  (deny ev p.name _ _ key (refunded env services limiter now req charged p s)))
              (audit-refunded charged p s)
              (record { event = _; appended = refl; verdict = refl; policy = refl; request = f }))
        | inr t ↦ rw t (record {
          event = _;
          appended = audit-refunded (charged && not e.permanent) p _;
          verdict = refl;
          policy = n;
          request = f;
        })
      ]

  deliver-HasRecord :
      (ev : Event) (p : MailPolicy) (key : Bytes) (charged : Bool) (d : Driver) (s : State S)
      → IsFor ev p
      → HasRecord req s.audit (
          finish env services limiter now req ev p key charged
            (deliver env services limiter now req d key s))
  deliver-HasRecord ev p key charged d s f =
      subst
        (λ a. HasRecord req a (
          finish env services limiter now req ev p key charged
            (deliver env services limiter now req d key s)))
        (audit-deliver d key s)
        (finish-HasRecord ev p key charged _ (deliver env services limiter now req d key s).1 f)

  charge_and_deliver-HasRecord :
      (ev : Event) (p : MailPolicy) (key : Bytes) (d : Driver) (s : State S)
      → IsFor ev p
      → HasRecord req s.audit (charge_and_deliver env services limiter now req ev p key d s)
  unfolding charge_and_deliver
  charge_and_deliver-HasRecord ev p key d s f =
      let limits = rate_limits p.spec.rate_limits in
      let (l, reply) = limiter.allow now (rate_key p) limits s.limiter in
      elim (Bool-cases (uncapped limits)) [
        | inl t ↦ rw t (deliver-HasRecord ev p key false d s f)
        | inr t ↦ rw t (elim (Option-cases reply) [
          | inl e ↦
              rw e
                (record { event = _; appended = refl; verdict = refl; policy = f.1; request = f.0 })
          | inr (r, e) ↦ rw e (elim (Bool-cases r.allowed) [
            | inl a ↦ rw a (deliver-HasRecord ev p key true d _ f)
            | inr a ↦
                rw a (record {
                  event = _;
                  appended = refl;
                  verdict = refl;
                  policy = f.1;
                  request = f.0;
                })
          ])
        ])
      ]

  open_and_send-HasRecord :
      (ev : Event) (p : MailPolicy) (b : Resolved) (s : State S)
      → IsFor ev p
      → HasRecord req s.audit (open_and_send env services limiter now req ev p b s)
  unfolding open_and_send
  open_and_send-HasRecord ev p b s f = elim (Fallible-cases (open_driver services b)) [
    | inl (e, t) ↦
        rw (open_and_send, t)
          (record { event = _; appended = refl; verdict = refl; policy = f.1; request = f.0 })
    | inr (d, t) ↦
        rw (open_and_send, t)
          (let h =
              charge_and_deliver-HasRecord ev p b.key d (opened env services limiter now req s) f in
            record {
              event = h.event;
              appended = h.appended;
              verdict = h.verdict;
              policy = h.policy;
              request = h.request;
            })
  ]

  resolve_and_send-HasRecord :
      (p : MailPolicy) (s : State S)
      → HasRecord req s.audit (resolve_and_send env services limiter now req p s)
  unfolding resolve_and_send
  resolve_and_send-HasRecord p s =
      let found = backend_for_policy services p s.validity in
      elim (Fallible-cases found.1) [
        | inl (e, t) ↦
            rw (resolve_and_send, t)
              (record { event = _; appended = refl; verdict = refl; policy = refl; request = refl })
        | inr (b, t) ↦
            rw (resolve_and_send, t)
              (elim (Option-cases
                (refused_by env services limiter now req b.spec.allowed_senders)) [
                  | inl k ↦ rw k (open_and_send-HasRecord _ p b _ (refl, refl))
                  | inr (from, k) ↦ rw k (record {
                    event = _;
                    appended = refl;
                    verdict = refl;
                    policy = refl;
                    request = refl;
                  })
                ])
      ]

  decide_and_send-HasRecord :
      (d : Decision) (s : State S)
      → HasRecord req s.audit (decide_and_send env services limiter now req d s)
  unfolding decide_and_send
  decide_and_send-HasRecord d s = elim (Bool-cases d.allowed) [
    | inl t ↦ rw t (elim (Option-cases d.policy) [
      | inl k ↦
          rw k
            (record { event = _; appended = refl; verdict = refl; policy = refl; request = refl })
      | inr (p, k) ↦ rw k (resolve_and_send-HasRecord p s)
    ])
    | inr t ↦
        rw t (record { event = _; appended = refl; verdict = refl; policy = refl; request = refl })
  ]

  send_matched-HasRecord :
      (o : Option MailPolicy) (s : State S)
      → HasRecord req s.audit (send_matched env services limiter now req o s)
  unfolding send_matched
  send_matched-HasRecord none s = decide_and_send-HasRecord _ s
  send_matched-HasRecord (some p) s =
      let found = check p.uid p.generation (services.validate_mail_policy p) s.validity in
      elim (Option-cases found.1) [
        | inl t ↦ rw (send_matched, t) (decide_and_send-HasRecord _ _)
        | inr (e, t) ↦
            rw (send_matched, t)
              (record { event = _; appended = refl; verdict = refl; policy = refl; request = refl })
      ]

  -- Every call of `send` appends exactly one record to the audit stream; its decision is to accept
  -- if the result is accepted and to reject otherwise, it names the result's policy, and its other
  -- identifying fields are those of the request.
  pub send-HasRecord : (s : State S) → HasRecord req s.audit (send env services limiter now req s)
  unfolding send
  send-HasRecord s = send_matched-HasRecord _ s
