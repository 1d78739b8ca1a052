-- ===== src/Policy/Evaluate/Permits.antt =====
-- What a policy permits, said without the order of the checks, and that `evaluate` decides it.
use sigillum.Common.{
  Bytes, ℤ, pos, ltb_ℤ, ℕ, ◌^◌, ◌<◌, true, false, ◌≡◌, refl, ◌⊎◌, ◌↔◌, List, [], ◌∷◌, Option, none,
  some, arith, codes, length, All, Any, any_of_Any,
}
use sigillum.Policy.Types.{
  MailPolicy, MessageView, Decision, RecipientRestrictions, MessageLimitsSpec, Platform,
}
use sigillum.Policy.Address.Sound.{IsMailbox, validate_mailbox_iff}
use sigillum.Policy.Evaluate.{
  int32, senders, address_matches, sender_allowed, first_refused, senders_allowed, domain_of,
  restricted_allows, recipient_allowed, address_ok, first_blocked, check_limits, check_senders,
  check_addresses, evaluate, ◌or_else◌,
}

-- A cap that is not positive is no cap.
abbrev pub Within : ℤ → ℕ → Type 0
Within cap n = (ltb_ℤ (pos 0) cap ≡ true) → (ltb_ℤ cap (pos n) ≡ false)

abbrev pub WithinLimits : Option MessageLimitsSpec → MessageView → Type 0
WithinLimits none msg = Unit
WithinLimits (some l) msg =
    Within l.max_size_bytes msg.size_bytes × Within l.max_recipients (length msg.recipients)

module _ (env : Platform) where
  -- Some entry of the list matches the address.
  abbrev pub Listed : List Bytes → Bytes → Type 0
  Listed entries addr = Any (λ p. address_matches env addr p ≡ true) entries

  abbrev pub InDomains : List Bytes → Bytes → Type 0
  InDomains domains addr = Any (λ d. env.equal_fold d (domain_of env addr) ≡ true) domains

  -- Not in a blocked domain; and in an allowed domain or listed, if either list is given.
  abbrev pub RecipientPermitted : Option RecipientRestrictions → Bytes → Type 0
  RecipientPermitted none addr = Unit
  RecipientPermitted (some r) addr =
      (¬ InDomains r.blocked_domains addr)
      × (((r.allowed_domains ≡ []) × (r.allowed_recipients ≡ []))
          ⊎ (InDomains r.allowed_domains addr ⊎ Listed r.allowed_recipients addr))

  abbrev pub SendersPermitted : Option (List Bytes) → MessageView → Type 0
  SendersPermitted none msg = Unit
  SendersPermitted (some allowed) msg = All (Listed allowed) (senders msg)

  abbrev pub Reachable : MailPolicy → Bytes → Type 0
  Reachable p addr = IsMailbox addr × RecipientPermitted p.spec.recipient_restrictions addr

  pub record Permits (p : MailPolicy) (msg : MessageView) : Type 0 where
    pub limits : WithinLimits p.spec.message_limits msg
    pub senders_ok : SendersPermitted p.spec.sender_restrictions msg
    pub recipients_ok : All (Reachable p) msg.recipients
    pub reply_to_ok : All (Reachable p) msg.reply_to

  sender_allowed_iff :
      (from : Bytes) (allowed : List Bytes)
      → (sender_allowed env from allowed ≡ true) ↔ Listed allowed from
  unfolding sender_allowed
  sender_allowed_iff from allowed =
      any_of_Any _ (address_matches env from) allowed (λ p. (λ e. e, λ e. e))

  first_refused_iff :
      (allowed ss : List Bytes) → (first_refused env allowed ss ≡ none) ↔ All (Listed allowed) ss
  unfolding first_refused
  first_refused_iff allowed [] = (λ _. tt, λ _. refl)
  first_refused_iff allowed (s ∷ ss) =
      ground (arith, sender_allowed_iff s allowed, first_refused_iff allowed ss)

  pub recipient_allowed_iff :
      (addr : Bytes) (r : Option RecipientRestrictions)
      → (recipient_allowed env addr r ≡ true) ↔ RecipientPermitted r addr
  unfolding recipient_allowed restricted_allows
  recipient_allowed_iff addr none = (λ _. tt, λ _. refl)
  recipient_allowed_iff addr (some r) = ground (
    arith,
    any_of_Any (λ d. env.equal_fold d (domain_of env addr) ≡ true)
        (λ d. env.equal_fold d (domain_of env addr)) r.blocked_domains (λ d. (λ e. e, λ e. e)),
    any_of_Any (λ d. env.equal_fold d (domain_of env addr) ≡ true)
        (λ d. env.equal_fold d (domain_of env addr)) r.allowed_domains (λ d. (λ e. e, λ e. e)),
    any_of_Any (λ q. address_matches env addr q ≡ true) (address_matches env addr)
        r.allowed_recipients (λ q. (λ e. e, λ e. e)),
  )

  address_ok_iff :
      (r : Option RecipientRestrictions) (addr : Bytes)
      → (address_ok env r addr ≡ true) ↔ (IsMailbox addr × RecipientPermitted r addr)
  unfolding address_ok
  address_ok_iff r addr = ground (arith, validate_mailbox_iff addr, recipient_allowed_iff addr r)

  first_blocked_iff :
      (r : Option RecipientRestrictions) (addrs : List Bytes)
      → (first_blocked env r addrs ≡ none) ↔ All (λ a. IsMailbox a × RecipientPermitted r a) addrs
  unfolding first_blocked
  first_blocked_iff r [] = (λ _. tt, λ _. refl)
  first_blocked_iff r (a ∷ more) = ground (arith, address_ok_iff r a, first_blocked_iff r more)

  check_limits_iff :
      (p : MailPolicy) (l : Option MessageLimitsSpec) (msg : MessageView)
      → length msg.recipients < 2 ^ 31
      → (check_limits p l msg ≡ none) ↔ WithinLimits l msg
  unfolding check_limits int32
  check_limits_iff p none msg h = (λ _. tt, λ _. refl)
  check_limits_iff p (some l) msg h =
      (λ e. (λ c. ground arith, λ c. ground arith), λ e. ground arith)

-- A check lets the message through, or denies it.
abbrev Denies : Option Decision → Type 0
Denies check = (d : Decision) → check ≡ some d → d.allowed ≡ false

or_else_allowed :
    (check : Option Decision) (rest : Decision)
    → Denies check
    → ((check or_else rest).allowed ≡ true) ↔ ((check ≡ none) × (rest.allowed ≡ true))
or_else_allowed none rest d = (λ e. (refl, e), λ e. e.1)
or_else_allowed (some x) rest d =
    (λ e. absurd (ground (arith, d x refl)), λ e. absurd (ground arith))

check_limits-Denies :
    (p : MailPolicy) (l : Option MessageLimitsSpec) (msg : MessageView)
    → Denies (check_limits p l msg)
unfolding check_limits
check_limits-Denies p none msg d h = cc
check_limits-Denies p (some l) msg d h = ground arith

module _ (env : Platform) (p : MailPolicy) (msg : MessageView) where
  check_senders_iff :
      (allowed : Option (List Bytes))
      → (check_senders env p allowed msg ≡ none) ↔ SendersPermitted env allowed msg
  unfolding check_senders senders_allowed
  check_senders_iff none = (λ _. tt, λ _. refl)
  check_senders_iff (some allowed) = ground (arith, first_refused_iff env allowed (senders msg))

  check_senders-Denies : (allowed : Option (List Bytes)) → Denies (check_senders env p allowed msg)
  unfolding check_senders
  check_senders-Denies none d h = cc
  check_senders-Denies (some allowed) d h = ground arith

  check_addresses_iff :
      (what : Bytes) (addrs : List Bytes)
      → (check_addresses env p what addrs ≡ none) ↔ All (Reachable env p) addrs
  unfolding check_addresses
  check_addresses_iff what addrs =
      ground (arith, first_blocked_iff env p.spec.recipient_restrictions addrs)

  check_addresses-Denies :
      (what : Bytes) (addrs : List Bytes) → Denies (check_addresses env p what addrs)
  unfolding check_addresses
  check_addresses-Denies what addrs d h = ground arith

-- For a message of fewer than 2^31 recipients, `evaluate` allows it under a policy exactly if it is
-- within the size and recipient limits that are positive, every sender address given matches the
-- allowed senders (where they are restricted), and every recipient and Reply-To address is a valid
-- mailbox that the recipient restrictions permit.
pub evaluate-Permits :
    (env : Platform) (p : MailPolicy) (msg : MessageView)
    → length msg.recipients < 2 ^ 31
    → ((evaluate env (some p) msg).allowed ≡ true) ↔ Permits env p msg
unfolding evaluate
evaluate-Permits env p msg h = (allowed, permitted)
  where
    passed : Decision
    passed = record { allowed = true; policy = some p; deny_reason = none; deny_detail = [] }

    to : Bytes
    to = codes "recipient '"

    reply : Bytes
    reply = codes "reply-to '"

    allowed : (evaluate env (some p) msg).allowed ≡ true → Permits env p msg
    allowed e =
        let limits =
          (or_else_allowed (check_limits p p.spec.message_limits msg) _
              (check_limits-Denies p p.spec.message_limits msg)).0
            e in
        let from =
          (or_else_allowed (check_senders env p p.spec.sender_restrictions msg) _
              (check_senders-Denies env p msg p.spec.sender_restrictions)).0
            limits.1 in
        let sent =
          (or_else_allowed (check_addresses env p to msg.recipients) _
              (check_addresses-Denies env p msg to msg.recipients)).0
            from.1 in
        let back =
          (or_else_allowed (check_addresses env p reply msg.reply_to) passed
              (check_addresses-Denies env p msg reply msg.reply_to)).0
            sent.1 in
        record {
          limits = (check_limits_iff env p p.spec.message_limits msg h).0 limits.0;
          senders_ok = (check_senders_iff env p msg p.spec.sender_restrictions).0 from.0;
          recipients_ok = (check_addresses_iff env p msg to msg.recipients).0 sent.0;
          reply_to_ok = (check_addresses_iff env p msg reply msg.reply_to).0 back.0;
        }

    permitted : Permits env p msg → (evaluate env (some p) msg).allowed ≡ true
    permitted m = rw (
      (check_limits_iff env p p.spec.message_limits msg h).1 m.limits,
      (check_senders_iff env p msg p.spec.sender_restrictions).1 m.senders_ok,
      (check_addresses_iff env p msg to msg.recipients).1 m.recipients_ok,
      (check_addresses_iff env p msg reply msg.reply_to).1 m.reply_to_ok,
    )
