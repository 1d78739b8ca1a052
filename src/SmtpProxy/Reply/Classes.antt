-- ===== src/SmtpProxy/Reply/Classes.antt =====
-- Which results are worth a retry.
use sigillum.Common.{
  Bytes, ℕ, ◌/◌, Bool, true, false, ◌≡◌, ◌≢◌, ◌↔◌, refl, inl, inr, Option, none, some, Bool-cases,
  ltb, if◌then◌else◌,
}
use sigillum.Policy.Types.{
  DenyReason, no_policy, sender_not_allowed, recipient_blocked, message_too_large,
  too_many_recipients,
}
use sigillum.Gateway.Types.{
  Status, accepted, denied, rate_limited, backend_not_ready, upstream_error, unavailable,
  policy_invalid, Result,
}
use sigillum.Gateway.Types.{accept}
use sigillum.Gateway.Send.Audit.{verdict_of}
use sigillum.SmtpProxy.Reply.{
  Reply, fine, refused, broken, SmtpError, denial, upstream, failure, answer, result_error,
}

-- Retrying cannot help: the policy refused the message, or the upstream did so for good.
abbrev pub is_final : Status → Bool → Bool
is_final denied permanent = true
is_final upstream_error permanent = permanent
is_final accepted permanent = false
is_final rate_limited permanent = false
is_final backend_not_ready permanent = false
is_final unavailable permanent = false
is_final policy_invalid permanent = false

-- The class that a code and an enhanced code share: 5 is permanent, 4 temporary.
abbrev pub HasClass : Bool → SmtpError → Type 0
HasClass final e =
    let class = if final then 5 else 4 in (e.code / 100 ≡ class) × (e.enhanced.0 ≡ class)

-- A reply of that class.
abbrev pub Fails : Bool → Reply → Type 0
Fails final fine = ⊥
Fails final (broken e) = ⊥
Fails final (refused e) = HasClass final e

-- Accepted results are no error, all others a reply of the class that the result calls for.
abbrev pub Answers : Status → Bool → Reply → Type 0
Answers accepted permanent reply = reply ≡ fine
Answers denied permanent reply = Fails (is_final denied permanent) reply
Answers rate_limited permanent reply = Fails (is_final rate_limited permanent) reply
Answers upstream_error permanent reply = Fails (is_final upstream_error permanent) reply
Answers backend_not_ready permanent reply = Fails (is_final backend_not_ready permanent) reply
Answers unavailable permanent reply = Fails (is_final unavailable permanent) reply
Answers policy_invalid permanent reply = Fails (is_final policy_invalid permanent) reply

Fails-fine : (final : Bool) (reply : Reply) → Fails final reply → reply ≢ fine
Fails-fine final fine h = absurd h
Fails-fine final (broken e) h = absurd h
Fails-fine final (refused e) h = λ x. cc

-- Only an accepted result is no error.
pub Answers-fine :
    (s : Status) (permanent : Bool) (reply : Reply)
    → Answers s permanent reply
    → (verdict_of s ≡ accept) ↔ (reply ≡ fine)
Answers-fine accepted p reply h = (λ _. h, λ _. refl)
Answers-fine denied p reply h = (λ e. cc, λ e. absurd (Fails-fine (is_final denied p) reply h e))
Answers-fine rate_limited p reply h =
    (λ e. cc, λ e. absurd (Fails-fine (is_final rate_limited p) reply h e))
Answers-fine upstream_error p reply h =
    (λ e. cc, λ e. absurd (Fails-fine (is_final upstream_error p) reply h e))
Answers-fine backend_not_ready p reply h =
    (λ e. cc, λ e. absurd (Fails-fine (is_final backend_not_ready p) reply h e))
Answers-fine unavailable p reply h =
    (λ e. cc, λ e. absurd (Fails-fine (is_final unavailable p) reply h e))
Answers-fine policy_invalid p reply h =
    (λ e. cc, λ e. absurd (Fails-fine (is_final policy_invalid p) reply h e))

module _ (itoa : ℕ → Bytes) where
  denial-HasClass :
      (policy : Bytes) (reason : Option DenyReason) → HasClass true (denial itoa policy reason)
  denial-HasClass policy none = (refl, refl)
  denial-HasClass policy (some no_policy) = (refl, refl)
  denial-HasClass policy (some sender_not_allowed) = (refl, refl)
  denial-HasClass policy (some recipient_blocked) = (refl, refl)
  denial-HasClass policy (some message_too_large) = (refl, refl)
  denial-HasClass policy (some too_many_recipients) = (refl, refl)

  upstream-HasClass :
      (permanent : Bool) (after : ℕ) → HasClass permanent (upstream itoa permanent after)
  upstream-HasClass true after = (refl, refl)
  upstream-HasClass false after = elim (Bool-cases (ltb 0 after)) [
    | inl e ↦ rw e (refl, refl)
    | inr e ↦ rw e (refl, refl)
  ]

  failure-Answers :
      (r : Result) (s : Status) (id : Bytes) → Answers s r.permanent (answer id (failure itoa r s))
  failure-Answers r accepted id = refl
  failure-Answers r denied id = denial-HasClass r.policy r.deny_reason
  failure-Answers r rate_limited id = (refl, refl)
  failure-Answers r upstream_error id = upstream-HasClass r.permanent r.retry_after
  failure-Answers r backend_not_ready id = (refl, refl)
  failure-Answers r unavailable id = (refl, refl)
  failure-Answers r policy_invalid id = (refl, refl)

  -- `result_error` answers an accepted result without an error, a denial and a permanent upstream
  -- failure with a code and an enhanced code of class 5, and every other result with both of class
  -- 4.
  pub result_error-Answers :
      (r : Result) (id : Bytes) → Answers r.status r.permanent (result_error itoa r id)
  unfolding result_error
  result_error-Answers r id = failure-Answers r r.status id
