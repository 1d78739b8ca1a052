-- ===== src/Policy/Evaluate/Named.antt =====
-- A decision names the policy that it was made under.
use sigillum.Common.{Bytes, ◌≡◌, refl, inl, inr, List, Option, none, some, arith, Option-cases}
use sigillum.Policy.Types.{MailPolicy, MessageView, Decision, MessageLimitsSpec, Platform}
use sigillum.Policy.Evaluate.{
  evaluate, check_limits, check_senders, check_addresses, senders_allowed, first_blocked, ◌or_else◌,
}

-- A decision, if there is one, names the policy.
abbrev Names : MailPolicy → Option Decision → Type 0
Names p none = Unit
Names p (some d) = d.policy ≡ some p

policy-or_else :
    (p : MailPolicy) (o : Option Decision) (rest : Decision)
    → Names p o
    → rest.policy ≡ some p
    → (o or_else rest).policy ≡ some p
policy-or_else p none rest n h = h
policy-or_else p (some d) rest n h = n

Names-check_limits :
    (p : MailPolicy) (l : Option MessageLimitsSpec) (msg : MessageView)
    → Names p (check_limits p l msg)
unfolding check_limits
Names-check_limits p none msg = tt
Names-check_limits p (some l) msg = ground arith

Names-check_senders :
    (env : Platform) (p : MailPolicy) (r : Option (List Bytes)) (msg : MessageView)
    → Names p (check_senders env p r msg)
unfolding check_senders
Names-check_senders env p none msg = tt
Names-check_senders env p (some allowed) msg =
    elim (Option-cases (senders_allowed env msg allowed)) [
      | inl e ↦ rw (check_senders, e) tt
      | inr (a, e) ↦ rw (check_senders, e) refl
    ]

Names-check_addresses :
    (env : Platform) (p : MailPolicy) (what : Bytes) (addrs : List Bytes)
    → Names p (check_addresses env p what addrs)
unfolding check_addresses
Names-check_addresses env p what addrs =
    elim (Option-cases (first_blocked env p.spec.recipient_restrictions addrs)) [
      | inl e ↦ rw (check_addresses, e) tt
      | inr (a, e) ↦ rw (check_addresses, e) refl
    ]

pub evaluate-policy :
    (env : Platform) (p : MailPolicy) (msg : MessageView)
    → (evaluate env (some p) msg).policy ≡ some p
unfolding evaluate
evaluate-policy env p msg = policy-or_else p _ _ (Names-check_limits p p.spec.message_limits msg) (
    policy-or_else p _ _ (Names-check_senders env p p.spec.sender_restrictions msg) (
      policy-or_else p _ _ (Names-check_addresses env p _ msg.recipients)
        (policy-or_else p _ _ (Names-check_addresses env p _ msg.reply_to) refl)))
