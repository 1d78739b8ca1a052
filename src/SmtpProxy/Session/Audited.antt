-- ===== src/SmtpProxy/Session/Audited.antt =====
-- The session on the gateway: what DATA leaves in the audit stream.
use sigillum.Common.{ℕ, false, ◌≡◌, sym, ap, subst, ◌∙◌, ◌↔◌, inl, inr, [], ◌∷◌, ◌++◌, Option, some}
use sigillum.Policy.Types.{Platform}
use sigillum.Gateway.Types.{Identity, Event, Verdict, accept, Services, LimiterOps}
use sigillum.Gateway.Send.{State, send, reject_request}
use sigillum.Gateway.Send.Audit.{send-HasRecord}
use sigillum.SmtpProxy.Reply.{Reply, fine}
use sigillum.SmtpProxy.Reply.Classes.{Answers, result_error-Answers, Answers-fine}
use sigillum.SmtpProxy.Session.{Session, Surroundings, Calls, receive_data}
use sigillum.SmtpProxy.Session.Submitted.{Handled, receive_data-Handled}

-- The sender is the gateway. The parsers stay as they are.
abbrev pub on_gateway :
    (env : Platform) (services : Services) {S : Type 0} (limiter : LimiterOps S) (now : ℕ)
    → Calls (State S)
    → Calls (State S)
on_gateway env services limiter now calls = record calls {
  send = send env services limiter now;
  reject = reject_request;
}

-- One record was appended, and it accepts exactly if the client is told so.
abbrev pub Audited : {S : Type 0} → State S → Session × State S × Reply → Type 0
Audited w (s', w', reply) =
    (e : Event) × (w'.audit ≡ w.audit ++ e ∷ []) × ((e.decision ≡ some accept) ↔ (reply ≡ fine))

module _ (env : Platform) (services : Services) {S : Type 0} (limiter : LimiterOps S) (now : ℕ)
    (calls : Calls (State S)) (around : Surroundings) where
  some_inj : {a b : Verdict} → Path (Option Verdict) (some a) (some b) → a ≡ b
  some_inj e = cc

  Handled-Audited :
      (i : Identity) (s : Session) (w : State S) (out : Session × State S × Reply)
      → Handled env (on_gateway env services limiter now calls) around i s w out
      → Audited w out
  Handled-Audited i s w (s', w', reply) (inl (ev, reason, e, n)) =
      (_, ap (λ x. x.audit) e, (λ x. cc, λ x. absurd (n x)))
  Handled-Audited i s w (s', w', reply) (inr h) =
      let r = send-HasRecord env services limiter now h.request w in
      let result = (send env services limiter now h.request w).1 in
      let told = Answers-fine result.status result.permanent reply (
        subst (Answers result.status result.permanent) (sym h.answered)
          (result_error-Answers calls.itoa result around.message_id)) in
      (
        r.event,
        ap (λ x. x.audit) h.handed ∙ r.appended,
        (λ x. told.0 (some_inj (sym r.verdict ∙ x)), λ x. r.verdict ∙ ap some (told.1 x)),
      )

  -- On the gateway, DATA in an identified session that is not revoked appends exactly one record to
  -- the audit stream, whatever the message and however it ends, and that record accepts exactly if
  -- the client is answered without an error.
  pub receive_data-Audited :
      (i : Identity) (s : Session) (w : State S)
      → s.revoked ≡ false
      → s.identity ≡ some i
      → Audited w (receive_data env (on_gateway env services limiter now calls) around s w)
  receive_data-Audited i s w r e =
      Handled-Audited i s w
        (receive_data env (on_gateway env services limiter now calls) around s w)
        (receive_data-Handled env (on_gateway env services limiter now calls) around i s w r e)
