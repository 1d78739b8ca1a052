-- ===== src/Rest/Handler/Audited.antt =====
-- What a request leaves behind: its audit record and the body budget.
use sigillum.Common.{
  Bytes, ℕ, Bool, true, false, ◌≡◌, sym, ap, ◌∙◌, ◌↔◌, refl, [], ◌∷◌, ◌++◌, Option, none, some,
  arith, ◌==◌, if◌then◌else◌, bytes_eq,
}
use sigillum.Policy.Types.{Platform}
use sigillum.Gateway.Types.{Request, Event, Verdict, accept, Services, LimiterOps}
use sigillum.Gateway.Send.{send}
use sigillum.Gateway.Send.Audit.{send-HasRecord}
use sigillum.Rest.Types.{Subject, Answer, HttpRequest, HttpLib}
use sigillum.Rest.Answers.Classes.{IsSuccess, IsSuccess-write_result}
use sigillum.Rest.Handler.{
  World, Surroundings, Refusal, Step, refuse, go, Review, subject, review_unavailable,
  invalid_token, event_of, payload_refusal, unsupported, busy, draining, blank_event, no_subject,
  no_token, bad_token, not_reviewed, reserve_amount, bearer_token, prepare, refused, reserving,
  releasing, conclude, answered, authenticated, with_budget, handle_payload, handle_send_message,
  reviewed, post_message,
}

-- One record was appended, which accepts exactly if the client is told so, and the budget is as
-- before.
pub record Audited {S : Type 0} (old : World S) (out : World S × Answer) : Type 0 where
  pub event : Event
  pub appended : out.0.gateway.audit ≡ old.gateway.audit ++ event ∷ []
  pub told : (event.decision ≡ some accept) ↔ IsSuccess out.1
  pub released : out.0.held ≡ old.held

some_inj : {a b : Verdict} → Path (Option Verdict) (some a) (some b) → a ≡ b
some_inj e = cc

if-Audited :
    {S : Type 0} (w : World S) (b : Bool) (x y : World S × Answer)
    → Audited w x
    → Audited w y
    → Audited w (if b then x else y)
if-Audited w true x y h k = h
if-Audited w false x y h k = k

module _ (env : Platform) (lib : HttpLib) (services : Services) {S : Type 0}
    (limiter : LimiterOps S) (now : ℕ) (around : Surroundings) where
  refused-Audited :
      (f : Refusal) (w : World S) → Audited w (refused env lib services limiter now around f w)
  refused-Audited f w = record {
    event = _;
    appended = refl;
    told = (λ e. cc, λ h. absurd h);
    released = refl;
  }

  answered-Audited :
      (req : Request) (w : World S) → Audited w (answered env lib services limiter now around req w)
  unfolding answered
  answered-Audited req w =
      let r = send-HasRecord env services limiter now req w.gateway in
      let result = (send env services limiter now req w.gateway).1 in
      let said = IsSuccess-write_result req.message_id result in
      record {
        event = r.event;
        appended = r.appended;
        told = (λ x. said.0 (some_inj (sym r.verdict ∙ x)), λ h. r.verdict ∙ ap some (said.1 h));
        released = refl;
      }

  conclude-Audited :
      (p : Step Request) (w : World S)
      → Audited w (conclude env lib services limiter now around p w)
  conclude-Audited (refuse f) w = refused-Audited f w
  conclude-Audited (go req) w = answered-Audited req w

  releasing-Audited :
      (n : ℕ) (w : World S) (out : World S × Answer)
      → Audited (reserving env lib services limiter now around n w) out
      → Audited w (releasing env lib services limiter now around n out)
  releasing-Audited n w (w', a) h = record {
    event = h.event;
    appended = h.appended;
    told = h.told;
    released = omega (arith, h.released);
  }

  with_budget-Audited :
      (ev : Event) (s : Subject) (media : Bytes) (r : HttpRequest) (w : World S)
      → Audited w (with_budget env lib services limiter now around ev s media r w)
  unfolding with_budget
  with_budget-Audited ev s media r w =
      let n = reserve_amount around.body_budget r.content_length in
      if-Audited w (n == 0) _ _ (conclude-Audited (prepare env lib ev s media r) w) (
        if-Audited w around.acquired _ _
          (releasing-Audited n w _ (conclude-Audited (prepare env lib ev s media r) _))
          (refused-Audited (busy env lib ev) w))

  handle_payload-Audited :
      (ev : Event) (s : Subject) (r : HttpRequest) (w : World S)
      → Audited w (handle_payload env lib services limiter now around ev s r w)
  unfolding handle_payload
  handle_payload-Audited ev s r w =
      if-Audited w _ _ _
        (refused-Audited (payload_refusal ev (unsupported env lib r.content_type)) w)
        (with_budget-Audited ev s _ r w)

  authenticated-Audited :
      (who : Option Subject) (r : HttpRequest) (w : World S)
      → Audited w (authenticated env lib services limiter now around who r w)
  authenticated-Audited none r w = refused-Audited (no_subject env lib around.message_id) w
  authenticated-Audited (some s) r w = handle_payload-Audited _ s r w

  handle_send_message-Audited :
      (who : Option Subject) (r : HttpRequest) (w : World S)
      → Audited w (handle_send_message env lib services limiter now around who r w)
  unfolding handle_send_message
  handle_send_message-Audited who r w =
      if-Audited w around.shutting _ _
        (refused-Audited (draining env lib (event_of around.message_id who)) w)
        (authenticated-Audited who r w)

  reviewed-Audited :
      (v : Review) (r : HttpRequest) (w : World S)
      → Audited w (reviewed env lib services limiter now around v r w)
  reviewed-Audited (subject s) r w = handle_send_message-Audited (some s) r w
  reviewed-Audited review_unavailable r w =
      refused-Audited (not_reviewed env lib (blank_event around.middleware_id)) w
  reviewed-Audited (invalid_token e) r w =
      refused-Audited (bad_token env lib around.middleware_id e) w

  -- A POST of a message appends exactly one record to the audit stream, whatever the request and
  -- however it ends; the record accepts exactly if the client is answered with success; and as much
  -- of the body budget is held after as before.
  pub post_message-Audited :
      (r : HttpRequest) (w : World S)
      → Audited w (post_message env lib services limiter now around r w)
  unfolding post_message
  post_message-Audited r w =
      if-Audited w (bytes_eq (bearer_token env r.authorization) []) _ _
        (refused-Audited (no_token env lib around.middleware_id) w) (reviewed-Audited _ r w)
