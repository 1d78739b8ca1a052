-- ===== src/Policy/Evaluate.antt =====
-- `Evaluate` and the sender and recipient rules that it applies (internal/policy/engine.go).
pub mod Permits
pub mod Named
use sigillum.Common.{
  Bytes, ℤ, pos, negsuc, ltb_ℤ, ℕ, ◌+◌, ◌-◌, ◌%◌, ◌^◌, Bool, true, false, not, ◌&&◌, ◌||◌, List, [],
  ◌∷◌, ◌++◌, map, Option, none, some, ltb, ◌==◌, if◌then◌else◌, length, any, contains_byte, codes,
  cut_last, bytes_eq,
}
use sigillum.Policy.Types.{
  MailPolicy, MessageView, Decision, DenyReason, no_policy, sender_not_allowed, recipient_blocked,
  message_too_large, too_many_recipients, RecipientRestrictions, MessageLimitsSpec, Platform,
}
use sigillum.Policy.Address.{validate_mailbox}

-- The conversion `int32(n)`.
unfoldable pub int32 : ℕ → ℤ
int32 n = let r = n % 2 ^ 32 in if ltb r (2 ^ 31) then pos r else negsuc (2 ^ 32 - 1 - r)

-- `globSlash`: '/' becomes a byte that no address contains.
unfoldable pub glob_slash : Bytes → Bytes
glob_slash s = map (λ c. if c == b'/' then 0 else c) s

abbrev pub has_meta : Bytes → Bool
has_meta p = any (λ c. c == b'*' || c == b'?' || c == b'[') p

-- The sender addresses in the order in which they are checked.
unfoldable pub senders : MessageView → List Bytes
senders msg =
    msg.from ∷ (if bytes_eq msg.envelope_from [] then [] else msg.envelope_from ∷ [])
    ++ (if bytes_eq msg.sender [] then [] else msg.sender ∷ [])

abbrev pub quoted : Bytes → Bytes → Bytes → Bytes
quoted before addr after = before ++ addr ++ after

abbrev is_nil : List Bytes → Bool
is_nil [] = true
is_nil (_ ∷ _) = false

abbrev no_error : {A : Type 0} → Option A → Bool
no_error none = true
no_error (some _) = false

abbrev pub deny : MailPolicy → DenyReason → Bytes → Decision
deny p why detail = record {
  allowed = false;
  policy = some p;
  deny_reason = some why;
  deny_detail = detail;
}

-- The size and count checks; `none` lets the message through.
unfoldable pub check_limits : MailPolicy → Option MessageLimitsSpec → MessageView → Option Decision
check_limits p none msg = none
check_limits p (some l) msg =
    if ltb_ℤ (pos 0) l.max_size_bytes && ltb_ℤ l.max_size_bytes (pos msg.size_bytes)
    then some (deny p message_too_large (codes "message exceeds policy maxSizeBytes"))
    else if ltb_ℤ (pos 0) l.max_recipients && ltb_ℤ l.max_recipients (int32 (length msg.recipients))
    then some (deny p too_many_recipients (codes "message exceeds policy maxRecipients"))
    else none

-- A check that refuses ends `Evaluate`.
infixr 20 ◌or_else◌
abbrev pub ◌or_else◌ : Option Decision → Decision → Decision
some d or_else rest = d
none or_else rest = rest

module _ (env : Platform) where
  unfoldable pub address_matches : Bytes → Bytes → Bool
  address_matches addr pattern =
      let a = env.to_lower (env.trim_space addr) in
      let p = env.to_lower (env.trim_space pattern) in
      if bytes_eq p a
      then true
      else if has_meta p
      then env.path_match (glob_slash p) (glob_slash a)
      else false

  unfoldable pub sender_allowed : Bytes → List Bytes → Bool
  sender_allowed from allowed = any (address_matches from) allowed

  -- The first sender that no entry matches; `none` stands for `"", true`.
  unfoldable pub first_refused : List Bytes → List Bytes → Option Bytes
  first_refused allowed [] = none
  first_refused allowed (s ∷ ss) =
      let rest = first_refused allowed ss in if sender_allowed s allowed then rest else some s

  unfoldable pub senders_allowed : MessageView → List Bytes → Option Bytes
  senders_allowed msg allowed = first_refused allowed (senders msg)

  unfoldable pub domain_of : Bytes → Bytes
  domain_of addr = elim (cut_last b'@' addr) [ none ↦ [] | some (l, d) ↦ env.to_lower d ]

  unfoldable pub restricted_allows : Bytes → RecipientRestrictions → Bool
  restricted_allows addr r =
      if any (λ d. env.equal_fold d (domain_of addr)) r.blocked_domains
      then false
      else if is_nil r.allowed_domains && is_nil r.allowed_recipients
      then true
      else if any (λ d. env.equal_fold d (domain_of addr)) r.allowed_domains
      then true
      else any (address_matches addr) r.allowed_recipients

  unfoldable pub recipient_allowed : Bytes → Option RecipientRestrictions → Bool
  recipient_allowed addr none = true
  recipient_allowed addr (some r) = restricted_allows addr r

  unfoldable pub address_ok : Option RecipientRestrictions → Bytes → Bool
  address_ok r addr = no_error (validate_mailbox addr) && recipient_allowed addr r

  -- The first address of a list that the loop refuses.
  unfoldable pub first_blocked : Option RecipientRestrictions → List Bytes → Option Bytes
  first_blocked r [] = none
  first_blocked r (a ∷ more) =
      let rest = first_blocked r more in if address_ok r a then rest else some a

  unfoldable pub check_senders : MailPolicy → Option (List Bytes) → MessageView → Option Decision
  check_senders p none msg = none
  check_senders p (some allowed) msg = elim (senders_allowed msg allowed) [
    | none ↦ none
    | some from ↦ some (
        deny p sender_not_allowed
          (quoted (codes "sender '") from (codes "' not in allowedSenders")))
  ]

  unfoldable pub check_addresses : MailPolicy → Bytes → List Bytes → Option Decision
  check_addresses p what addrs = elim (first_blocked p.spec.recipient_restrictions addrs) [
    | none ↦ none
    | some a ↦ some (deny p recipient_blocked (quoted what a (codes "' not allowed by policy")))
  ]

  unfoldable pub evaluate : Option MailPolicy → MessageView → Decision
  evaluate none msg = record {
    allowed = false;
    policy = none;
    deny_reason = some no_policy;
    deny_detail = codes "no policy matched the calling subject";
  }
  evaluate (some p) msg =
      check_limits p p.spec.message_limits msg
      or_else check_senders p p.spec.sender_restrictions msg
      or_else check_addresses p (codes "recipient '") msg.recipients
      or_else check_addresses p (codes "reply-to '") msg.reply_to
      or_else record { allowed = true; policy = some p; deny_reason = none; deny_detail = [] }
