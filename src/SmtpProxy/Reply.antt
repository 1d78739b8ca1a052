-- ===== src/SmtpProxy/Reply.antt =====
-- SMTP replies, and the mapping of results to them (`resultError` and `withMessageID` of
-- internal/smtpproxy/session.go).
pub mod Classes
use sigillum.Common.{
  Bytes, ℕ, ◌+◌, ◌-◌, ◌/◌, Bool, true, false, ◌++◌, Option, none, some, ltb, if◌then◌else◌, codes,
}
use sigillum.Policy.Types.{
  DenyReason, no_policy, sender_not_allowed, recipient_blocked, message_too_large,
  too_many_recipients,
}
use sigillum.RateLimit.{second}
use sigillum.Gateway.Types.{
  Status, accepted, denied, rate_limited, backend_not_ready, upstream_error, unavailable,
  policy_invalid, Result,
}
use sigillum.Gateway.Send.{reason_of}

-- smtp.SMTPError.
pub record SmtpError : Type 0 where
  pub code : ℕ
  pub enhanced : ℕ × ℕ × ℕ
  pub message : Bytes

abbrev pub smtp_error : ℕ → ℕ × ℕ × ℕ → Bytes → SmtpError
smtp_error code enhanced message = record { code = code; enhanced = enhanced; message = message }

-- A command's error: nil, an SMTP reply, or another one, which go-smtp turns into a reply.
pub data Reply : Type 0 where
  fine : Reply
  refused : SmtpError → Reply
  broken : Bytes → Reply

abbrev pub with_id : Bytes → Bytes → Bytes
with_id message id = message ++ codes " (id " ++ id ++ codes ")"

-- `withMessageID`.
abbrev pub with_message_id : Reply → Bytes → Reply
with_message_id fine id = fine
with_message_id (refused e) id = refused (record e { message = with_id e.message id })
with_message_id (broken e) id = broken e

abbrev pub answer : Bytes → Option SmtpError → Reply
answer id none = fine
answer id (some e) = refused (record e { message = with_id e.message id })

-- `strconv.Itoa` is the parameter.
module _ (itoa : ℕ → Bytes) where
  abbrev seconds_floor : ℕ → ℕ
  seconds_floor d = d / second

  abbrev seconds_ceil : ℕ → ℕ
  seconds_ceil d = (d + (second - 1)) / second

  abbrev pub denial : Bytes → Option DenyReason → SmtpError
  denial policy (some message_too_large) =
      smtp_error 552 (5, 3, 4) (codes "Message exceeds policy size limit")
  denial policy (some too_many_recipients) =
      smtp_error 550 (5, 5, 3) (codes "Too many recipients for policy")
  denial policy (some no_policy) = smtp_error 550 (5, 7, 1) (codes "No matching policy")
  denial policy reason =
      smtp_error 550 (5, 7, 1)
        (codes "Rejected by policy " ++ policy ++ codes ": " ++ reason_of reason)

  abbrev pub upstream : Bool → ℕ → SmtpError
  upstream true after = smtp_error 554 (5, 0, 0) (codes "Upstream relay rejected the message")
  upstream false after =
      if ltb 0 after
      then smtp_error 451 (4, 4, 1)
          (codes "Upstream relay unavailable, retry in " ++ itoa (seconds_ceil after) ++ codes "s")
      else smtp_error 451 (4, 4, 1) (codes "Upstream relay unavailable")

  abbrev temporary : SmtpError
  temporary = smtp_error 451 (4, 3, 0) (codes "Temporarily unavailable")

  abbrev pub failure : Result → Status → Option SmtpError
  failure r accepted = none
  failure r denied = some (denial r.policy r.deny_reason)
  failure r rate_limited = some (
      smtp_error 421 (4, 7, 0)
        (codes "Rate limit exceeded, retry in " ++ itoa (seconds_floor r.retry_after) ++ codes "s"))
  failure r upstream_error = some (upstream r.permanent r.retry_after)
  failure r backend_not_ready = some temporary
  failure r unavailable = some temporary
  failure r policy_invalid = some temporary

  unfoldable pub result_error : Result → Bytes → Reply
  result_error r id = answer id (failure r r.status)
