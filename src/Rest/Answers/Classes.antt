-- ===== src/Rest/Answers/Classes.antt =====
-- The answers of the REST server beside the replies of the SMTP proxy to the same result.
use sigillum.Common.{
  Bytes, ℕ, ◌/◌, Bool, true, false, not, ◌&&◌, ◌≡◌, ◌↔◌, refl, inl, inr, Option, none, some,
  Bool-cases, ltb, leb, ◌==◌, if◌then◌else◌,
}
use sigillum.Policy.Types.{
  DenyReason, no_policy, sender_not_allowed, recipient_blocked, message_too_large,
  too_many_recipients,
}
use sigillum.Gateway.Types.{
  Status, accepted, denied, rate_limited, backend_not_ready, upstream_error, unavailable,
  policy_invalid, Result, accept,
}
use sigillum.Gateway.Send.Audit.{verdict_of}
use sigillum.SmtpProxy.Reply.{
  Reply, fine, refused, broken, denial, upstream, failure, answer, result_error,
}
use sigillum.Rest.Types.{Answer, success}
use sigillum.Rest.Types as Rest
use sigillum.Rest.Answers.{deny_problem, deny_answer, upstream_answer, answer_for, write_result}

-- What a client makes of an answer: the message is taken, to be tried again, or given up.
pub data Outcome : Type 0 where
  taken try_again give_up : Outcome

-- A status of 400 to 499 is the client's fault, 429 excepted.
abbrev pub rest_outcome : Answer → Outcome
rest_outcome (success id policy at) = taken
rest_outcome (Rest.failure after p) =
    if leb 400 p.status && leb p.status 499 && not (p.status == 429) then give_up else try_again

-- A code of 500 to 599 is permanent.
abbrev pub smtp_outcome : Reply → Outcome
smtp_outcome fine = taken
smtp_outcome (refused e) = if e.code / 100 == 5 then give_up else try_again
smtp_outcome (broken e) = try_again

module _ (itoa : ℕ → Bytes) (id : Bytes) where
  deny-outcome :
      (r : Result) (reason : Option DenyReason)
      → rest_outcome (Rest.failure none (deny_problem id r reason))
        ≡ smtp_outcome (answer id (some (denial itoa r.policy reason)))
  deny-outcome r none = refl
  deny-outcome r (some no_policy) = refl
  deny-outcome r (some sender_not_allowed) = refl
  deny-outcome r (some recipient_blocked) = refl
  deny-outcome r (some message_too_large) = refl
  deny-outcome r (some too_many_recipients) = refl

  upstream-outcome :
      (r : Result) (permanent : Bool)
      → r.permanent ≡ permanent
      → rest_outcome (answer_for id r upstream_error)
        ≡ smtp_outcome (answer id (some (upstream itoa permanent r.retry_after)))
  unfolding upstream_answer
  upstream-outcome r true e = rw e refl
  upstream-outcome r false e = elim (Bool-cases (ltb 0 r.retry_after)) [
    | inl t ↦ rw (e, t) refl
    | inr t ↦ rw (e, t) refl
  ]

  status-outcome :
      (r : Result) (s : Status)
      → rest_outcome (answer_for id r s) ≡ smtp_outcome (answer id (failure itoa r s))
  unfolding deny_answer
  status-outcome r accepted = refl
  status-outcome r denied = deny-outcome r r.deny_reason
  status-outcome r rate_limited = refl
  status-outcome r upstream_error = upstream-outcome r r.permanent refl
  status-outcome r backend_not_ready = refl
  status-outcome r unavailable = refl
  status-outcome r policy_invalid = refl

  -- The REST server and the SMTP proxy tell their clients the same of every result: that the message
  -- is taken, that it may be tried again, or (by a status of 400 to 499 other than 429, and by a
  -- code of 500 to 599) that it is to be given up.
  pub write_result-result_error :
      (r : Result) → rest_outcome (write_result id r) ≡ smtp_outcome (result_error itoa r id)
  unfolding write_result result_error
  write_result-result_error r = status-outcome r r.status

-- An answer tells the client that the message is taken.
abbrev pub IsSuccess : Answer → Type 0
IsSuccess (success id policy at) = Unit {0}
IsSuccess (Rest.failure after p) = ⊥

IsSuccess-answer_for :
    (id : Bytes) (r : Result) (s : Status) → (verdict_of s ≡ accept) ↔ IsSuccess (answer_for id r s)
unfolding deny_answer upstream_answer
IsSuccess-answer_for id r accepted = (λ e. tt, λ h. refl)
IsSuccess-answer_for id r denied = (λ e. cc, λ h. absurd h)
IsSuccess-answer_for id r rate_limited = (λ e. cc, λ h. absurd h)
IsSuccess-answer_for id r upstream_error = elim (Bool-cases r.permanent) [
  | inl t ↦ rw t (λ e. cc, λ h. absurd h)
  | inr t ↦ rw t (λ e. cc, λ h. absurd h)
]
IsSuccess-answer_for id r backend_not_ready = (λ e. cc, λ h. absurd h)
IsSuccess-answer_for id r unavailable = (λ e. cc, λ h. absurd h)
IsSuccess-answer_for id r policy_invalid = (λ e. cc, λ h. absurd h)

pub IsSuccess-write_result :
    (id : Bytes) (r : Result) → (verdict_of r.status ≡ accept) ↔ IsSuccess (write_result id r)
unfolding write_result
IsSuccess-write_result id r = IsSuccess-answer_for id r r.status
