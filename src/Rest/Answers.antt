-- ===== src/Rest/Answers.antt =====
-- How a result of the gateway is answered (`writeResult`, `writeUpstreamError` and
-- `writePolicyDeny` of internal/apiserver/messages.go). The loss of precision in Go's
-- `Duration.Seconds` is left out: it does not show below 97 days.
pub mod Classes
use sigillum.Common.{
  Bytes, ℕ, ◌+◌, ◌-◌, ◌/◌, Bool, true, false, not, List, [], ◌∷◌, Option, none, some, ltb,
  if◌then◌else◌, codes, bytes_eq,
}
use sigillum.Policy.Types.{
  DenyReason, no_policy, sender_not_allowed, recipient_blocked, message_too_large,
  too_many_recipients,
}
use sigillum.RateLimit.{second}
use sigillum.Gateway.Types.{
  Status, accepted, denied, rate_limited, backend_not_ready, upstream_error, unavailable,
  policy_invalid, Result,
}
use sigillum.Rest.Types.{Problem, Answer, success, failure}

-- `int(d.Seconds())` and `int(math.Ceil(d.Seconds()))`.
abbrev pub whole_seconds : ℕ → ℕ
whole_seconds d = d / second

abbrev pub seconds_up : ℕ → ℕ
seconds_up d = (d + (second - 1)) / second

-- `problem.New`.
abbrev pub new : (type : Bytes) (status : ℕ) (title detail : Bytes) → Problem
new type status title detail = record {
  type = type;
  title = title;
  status = status;
  detail = detail;
  policy = [];
  message_id = [];
}

abbrev pub problem_of :
    (id : Bytes) → Result → (type : Bytes) (status : ℕ) (title : Bytes) → Problem
problem_of id res type status title = record {
  type = type;
  title = title;
  status = status;
  detail = res.detail;
  policy = res.policy;
  message_id = id;
}

-- `writeUpstreamError`.
unfoldable pub upstream_answer : Bytes → Result → Answer
upstream_answer id res =
    failure (if ltb 0 res.retry_after then some (seconds_up res.retry_after) else none)
      (problem_of id res (codes "upstream-error") 502 (codes "Upstream backend error"))

-- The switch of `writePolicyDeny`: type, status and title.
abbrev pub deny_problem : Bytes → Result → Option DenyReason → Problem
deny_problem id res (some no_policy) =
    problem_of id res (codes "no-policy-matched") 403 (codes "No matching policy")
deny_problem id res (some sender_not_allowed) = problem_of id res (codes "sender-not-allowed") 403 (
    if not (bytes_eq res.backend [])
    then codes "Sender address not allowed by backend"
    else codes "Sender address not allowed by policy")
deny_problem id res (some recipient_blocked) =
    problem_of id res (codes "recipient-not-allowed") 403
      (codes "Recipient address not allowed by policy")
deny_problem id res (some message_too_large) =
    problem_of id res (codes "message-too-large") 413 (codes "Message exceeds policy size limit")
deny_problem id res (some too_many_recipients) =
    problem_of id res (codes "too-many-recipients") 403 (codes "Too many recipients for policy")
deny_problem id res none =
    problem_of id res (codes "no-policy-matched") 403 (codes "Request denied")

-- `writePolicyDeny`.
unfoldable pub deny_answer : Bytes → Result → Answer
deny_answer id res = failure none (deny_problem id res res.deny_reason)

abbrev pub rejected_upstream : Bytes → Result → Problem
rejected_upstream id res =
    problem_of id res (codes "upstream-rejected") 422
      (codes "Upstream backend rejected the message")

-- The switch of `writeResult`.
abbrev pub answer_for : Bytes → Result → Status → Answer
answer_for id res accepted = success id res.policy res.accepted_at
answer_for id res denied = deny_answer id res
answer_for id res rate_limited =
    failure (some (whole_seconds res.retry_after))
      (problem_of id res (codes "rate-limited") 429 (codes "Rate limit exceeded"))
answer_for id res unavailable =
    failure (some 5)
      (problem_of id res (codes "unavailable") 503 (codes "Service temporarily unavailable"))
answer_for id res backend_not_ready =
    failure none (problem_of id res (codes "backend-not-ready") 503 (codes "Backend not ready"))
answer_for id res policy_invalid =
    failure none (problem_of id res (codes "policy-invalid") 503 (codes "Policy is invalid"))
answer_for id res upstream_error =
    if not res.permanent then upstream_answer id res else failure none (rejected_upstream id res)

unfoldable pub write_result : Bytes → Result → Answer
write_result id res = answer_for id res res.status
