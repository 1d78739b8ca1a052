-- ===== src/Gateway/Send/Guards.antt =====
-- What has to hold before a driver is asked to send, and that an accepted message was sent.
use sigillum.Common.{
  Bytes, ℕ, Bool, true, false, not, ◌&&◌, subst, ◌≡◌, ◌≢◌, refl, sym, ◌∙◌, ◌<◌, ◌^◌, ◌⊎◌, inl, inr,
  List, [], ◌∷◌, ◌++◌, Option, none, some, length, Bool-cases, Option-cases,
}
use sigillum.Policy.Types.{MailPolicy, Decision, Platform}
use sigillum.Policy.Evaluate.{evaluate}
use sigillum.Policy.Evaluate.Named.{evaluate-policy}
use sigillum.Policy.Evaluate.Permits.{Permits, evaluate-Permits}
use sigillum.Gateway.Types.{
  ok, SendError, Request, accepted, Event, Result, Sent, delivered, failed, Driver, Delivery,
  Services, LimiterOps,
}
use sigillum.Gateway.Validity.{Cache, check}
use sigillum.Gateway.Backend.{Resolved, backend_for_policy, open_driver}
use sigillum.Gateway.Send.{
  State, refunded, opened, rate_limits, rate_key, delivery, to_deliver, relay_raw, deliver_as,
  deliver, finish, charge_and_deliver, open_and_send, refused_by, view, recipients,
  resolve_and_send, decide_and_send, matched, send_matched, send,
}
use sigillum.Gateway.Send.Audit.{Fallible-cases}
use sigillum.Gateway.Send.Charge.{Admits, is_uncapped}

module _ (env : Platform) (services : Services) {S : Type 0} (limiter : LimiterOps S) (now : ℕ)
    (req : Request) where
  -- No driver was asked, and the message was not accepted.
  abbrev pub Idle : List Delivery → State S × Result → Type 0
  Idle old out = (out.0.deliveries ≡ old) × (out.1.status ≢ accepted)

  -- Drivers were asked once, for this request.
  abbrev pub Asked : List Delivery → State S × Result → Type 0
  Asked old out = out.0.deliveries ≡ old ++ to_deliver env services limiter now req ∷ []

  -- A resolved backend for whose senders the message may go, and a limiter that has room.
  abbrev pub Routed : MailPolicy → Cache → S → Type 0
  Routed p m l =
      (b : Resolved) × ((backend_for_policy services p m).1 ≡ ok b)
      × (refused_by env services limiter now req b.spec.allowed_senders ≡ none)
      × Admits limiter now p l

  with_admission : {A B C : Type 0} → C → A ⊎ B → A ⊎ (C × B)
  with_admission c (inl a) = inl a
  with_admission c (inr b) = inr (c, b)

  with_route : {A B C D : Type 0} → (C → D) → A ⊎ (C × B) → A ⊎ (D × B)
  with_route f (inl a) = inl a
  with_route f (inr (c, b)) = inr (f c, b)

  deliveries-refunded :
      (charged : Bool) (p : MailPolicy) (s : State S)
      → (refunded env services limiter now req charged p s).deliveries ≡ s.deliveries
  deliveries-refunded true p s = refl
  deliveries-refunded false p s = refl

  finish-failed :
      (ev : Event) (p : MailPolicy) (key : Bytes) (charged : Bool) (s : State S) (x : _)
      → Idle s.deliveries (finish env services limiter now req ev p key charged (s, failed x))
  unfolding finish
  finish-failed ev p key charged s x = elim (Bool-cases x.recipient_not_in_envelope) [
    | inl t ↦ rw (finish, t) (deliveries-refunded charged p s, λ e. cc)
    | inr t ↦ rw (finish, t) (deliveries-refunded (charged && not x.permanent) p _, λ e. cc)
  ]

  finish-deliveries :
      (ev : Event) (p : MailPolicy) (key : Bytes) (charged : Bool) (s : State S) (answer : Sent)
      → (finish env services limiter now req ev p key charged (s, answer)).0.deliveries
        ≡ s.deliveries
  unfolding finish
  finish-deliveries ev p key charged s (delivered r) = refl
  finish-deliveries ev p key charged s (failed x) = (finish-failed ev p key charged s x).0

  -- Either no driver could be asked, which counts as a failure, or one was.
  abbrev Answers : State S → Delivery → State S × Sent → Type 0
  Answers s what (s', answer) =
      ((s'.deliveries ≡ s.deliveries) × (x : SendError) × (answer ≡ failed x))
      ⊎ (s'.deliveries ≡ s.deliveries ++ what ∷ [])

  relay_raw-Answers :
      (f : Option (Bytes → List Bytes → Bytes → Sent)) (raw key : Bytes) (s : State S)
      → Answers s
          (delivery env services limiter now req (some raw))
          (relay_raw env services limiter now req f raw key s)
  relay_raw-Answers none raw key s = inl (refl, _, refl)
  relay_raw-Answers (some f) raw key s = inr refl

  deliver_as-Answers :
      (raw : Option Bytes) (d : Driver) (key : Bytes) (s : State S)
      → Answers s
          (delivery env services limiter now req raw)
          (deliver_as env services limiter now req raw d key s)
  deliver_as-Answers none d key s = inr refl
  deliver_as-Answers (some raw) d key s = relay_raw-Answers d.send_raw raw key s

  deliver-Answers :
      (d : Driver) (key : Bytes) (s : State S)
      → Answers s
          (to_deliver env services limiter now req)
          (deliver env services limiter now req d key s)
  unfolding deliver
  deliver-Answers d key s = deliver_as-Answers req.raw d key s

  deliver-Asked :
      (ev : Event) (p : MailPolicy) (key : Bytes) (charged : Bool) (d : Driver) (s : State S)
      → let out =
          finish env services limiter now req ev p key charged
            (deliver env services limiter now req d key s) in
        Idle s.deliveries out ⊎ Asked s.deliveries out
  deliver-Asked ev p key charged d s =
      let (s', answer) = deliver env services limiter now req d key s in
      elim (deliver-Answers d key s) [
        | inl (same, x, e) ↦
            let idle =
              subst
                (λ a.
                  Idle s'.deliveries (finish env services limiter now req ev p key charged (s', a)))
                (sym e) (finish-failed ev p key charged s' x) in
            inl (idle.0 ∙ same, idle.1)
        | inr more ↦ inr (finish-deliveries ev p key charged s' answer ∙ more)
      ]

  charge_and_deliver-Asked :
      (ev : Event) (p : MailPolicy) (key : Bytes) (d : Driver) (s : State S)
      → let out = charge_and_deliver env services limiter now req ev p key d s in
        Idle s.deliveries out ⊎ (Admits limiter now p s.limiter × Asked s.deliveries out)
  unfolding charge_and_deliver
  charge_and_deliver-Asked ev p key d s =
      let reply = (limiter.allow now (rate_key p) (rate_limits p.spec.rate_limits) s.limiter).1 in
      elim (Bool-cases (is_uncapped limiter now p)) [
        | inl t ↦
            rw (charge_and_deliver, t)
              (with_admission (inl refl) (deliver-Asked ev p key false d s))
        | inr t ↦
            rw (charge_and_deliver, t)
              (elim (Option-cases reply) [
                | inl e ↦ rw e (inl (refl, λ x. cc))
                | inr (r, e) ↦ rw e (elim (Bool-cases r.allowed) [
                  | inl a ↦
                      rw a (with_admission (inr (_, refl, refl)) (deliver-Asked ev p key true d _))
                  | inr a ↦ rw a (inl (refl, λ x. cc))
                ])
              ])
      ]

  open_and_send-Asked :
      (ev : Event) (p : MailPolicy) (b : Resolved) (s : State S)
      → let out = open_and_send env services limiter now req ev p b s in
        Idle s.deliveries out ⊎ (Admits limiter now p s.limiter × Asked s.deliveries out)
  unfolding open_and_send
  open_and_send-Asked ev p b s = elim (Fallible-cases (open_driver services b)) [
    | inl (e, t) ↦ rw (open_and_send, t) (inl (refl, λ x. cc))
    | inr (d, t) ↦
        rw (open_and_send, t)
          (charge_and_deliver-Asked ev p b.key d (opened env services limiter now req s))
  ]

  resolve_and_send-Asked :
      (p : MailPolicy) (s : State S)
      → let out = resolve_and_send env services limiter now req p s in
        Idle s.deliveries out ⊎ (Routed p s.validity s.limiter × Asked s.deliveries out)
  unfolding resolve_and_send
  resolve_and_send-Asked p s = elim (Fallible-cases (backend_for_policy services p s.validity).1) [
    | inl (e, t) ↦ rw (resolve_and_send, t) (inl (refl, λ x. cc))
    | inr (b, t) ↦
        rw (resolve_and_send, t)
          (elim (Option-cases (refused_by env services limiter now req b.spec.allowed_senders)) [
            | inl k ↦ rw k (with_route (λ a. (b, refl, k, a)) (open_and_send-Asked _ p b _))
            | inr (from, k) ↦ rw k (inl (refl, λ x. cc))
          ])
  ]

  -- The caller's policy is valid and permits the message, and the message can be routed.
  pub record Cleared (s : State S) : Type 0 where
    pub policy : MailPolicy
    pub is_match : matched env services limiter now req ≡ some policy
    pub is_valid :
        (check policy.uid policy.generation (services.validate_mail_policy policy) s.validity).1
        ≡ none
    pub permitted : Permits env policy (view req)
    pub routed :
        Routed policy
          (check policy.uid policy.generation (services.validate_mail_policy policy) s.validity).0
          s.limiter

  decide_and_send-Asked :
      (p : MailPolicy) (d : Decision) (s : State S)
      → d.policy ≡ some p
      → let out = decide_and_send env services limiter now req d s in
        Idle s.deliveries out
        ⊎ (((d.allowed ≡ true) × Routed p s.validity s.limiter) × Asked s.deliveries out)
  unfolding decide_and_send
  decide_and_send-Asked p d s e = elim (Bool-cases d.allowed) [
    | inl t ↦ rw (decide_and_send, t, e) (with_route (λ r. (refl, r)) (resolve_and_send-Asked p s))
    | inr t ↦ rw (decide_and_send, t) (inl (refl, λ x. cc))
  ]

  decide_none-Idle :
      (s : State S)
      → Idle s.deliveries
          (decide_and_send env services limiter now req (evaluate env none (view req)) s)
  unfolding decide_and_send evaluate
  decide_none-Idle s = (refl, λ x. cc)

  send_matched-Asked :
      (p : MailPolicy) (s : State S)
      → length (recipients req.message) < 2 ^ 31
      → matched env services limiter now req ≡ some p
      → let out = send_matched env services limiter now req (some p) s in
        Idle s.deliveries out ⊎ (Cleared s × Asked s.deliveries out)
  unfolding send_matched
  send_matched-Asked p s few m =
      let verdict = check p.uid p.generation (services.validate_mail_policy p) s.validity in
      elim (Option-cases verdict.1) [
        | inl t ↦
            rw (send_matched, t)
              (with_route
                (λ (allowed, routed). record {
                  policy = p;
                  is_match = m;
                  is_valid = t;
                  permitted = (evaluate-Permits env p (view req) few).0 allowed;
                  routed = routed;
                })
                (decide_and_send-Asked p (evaluate env (some p) (view req))
                  (record s { validity = verdict.0 }) (evaluate-policy env p (view req))))
        | inr (e, t) ↦ rw (send_matched, t) (inl (refl, λ x. cc))
      ]

  -- For a message of fewer than 2^31 recipients, a call of `send` either asks no driver and does not
  -- accept the message, or asks drivers for exactly one delivery, that of this request; in the
  -- second case the policy that matches the caller passes the validity check, permits the message,
  -- refers to a backend that resolves, whose allowed senders the message satisfies, and the limiter
  -- admits it or the policy caps nothing.
  pub send-Cleared :
      (s : State S)
      → length (recipients req.message) < 2 ^ 31
      → let out = send env services limiter now req s in
        Idle s.deliveries out ⊎ (Cleared s × Asked s.deliveries out)
  unfolding send send_matched
  send-Cleared s few = elim (Option-cases (matched env services limiter now req)) [
    | inl m ↦ rw (send, m) (inl (decide_none-Idle s))
    | inr (p, m) ↦ rw (send, m) (send_matched-Asked p s few m)
  ]
