-- ===== src/Rest/Checks.antt =====
-- The checks of a payload in internal/apiserver/messages.go: headers, addresses, attachments and
-- content.
pub mod Sound
pub mod Reported
use sigillum.Common.{
  Bytes, ℕ, suc, ◌+◌, Bool, true, false, not, ◌&&◌, ◌||◌, List, [], ◌∷◌, ◌++◌, map, Option, none,
  some, ltb, leb, ◌==◌, if◌then◌else◌, codes, length, any, get_elem?, contains_byte, has_prefix,
  bytes_eq, bytes_lt,
}
use sigillum.Policy.Types.{Platform}
use sigillum.Policy.Address.{validate_mailbox}
use sigillum.Gateway.Types.{Fallible, ok, err, Address, Attachment}
use sigillum.SmtpProxy.Headers.{◌and_then◌, prefixed, validate_address_header, check_mailboxes}
use sigillum.Rest.Types.{RequestBodyContent, RequestAttachment, RequestBody, Entries, HttpLib}

-- `strings.ContainsAny(s, "\r\n\x00")`.
unfoldable pub has_control : Bytes → Bool
has_control s = any (λ c. c == 13 || c == 10 || c == 0) s

abbrev pub max_header_line : ℕ
max_header_line = 998

abbrev pub contains : List Bytes → Bytes → Bool
contains seen k = any (λ s. bytes_eq s k) seen

abbrev pub is_bidi : ℕ → Bool
is_bidi r =
    leb 0x202A r && leb r 0x202E || leb 0x2066 r && leb r 0x2069 || r == 0x200E || r == 0x200F

-- `firstBidiOrFormatControl`, on the runes of the text.
unfoldable pub first_bidi_or_format_control : List ℕ → ℕ
first_bidi_or_format_control [] = 0
first_bidi_or_format_control (r ∷ rs) = if is_bidi r then r else first_bidi_or_format_control rs

-- The cases of the switch in `addressHeaders`.
pub data FieldKind : Type 0 where
  sender_field reply_to_field other_field : FieldKind

abbrev pub sender_key : Bytes
sender_key = codes "Sender"

abbrev pub reply_to_key : Bytes
reply_to_key = codes "Reply-To"

unfoldable pub kind_of : Bytes → FieldKind
kind_of ck =
    if bytes_eq ck sender_key
    then sender_field
    else if bytes_eq ck reply_to_key
    then reply_to_field
    else other_field

module _ (env : Platform) (lib : HttpLib) where
  abbrev long_line : Bytes → Bytes
  long_line k =
      codes "header "
      ++ lib.quote k
      ++ codes " line exceeds 998 characters (field name, \": \" and value)"

  -- The body of the loop of `validateRequestHeaders`.
  unfoldable pub header_error : List Bytes → Bytes → Bytes → Option Bytes
  header_error seen k v =
      let ck = lib.canonical_key k in
      if has_control k
      then some (codes "header key contains CR, LF, or NUL")
      else if has_control v
      then some (codes "header " ++ lib.quote k ++ codes " value contains CR, LF, or NUL")
      else if ltb max_header_line (length k + 2 + length v)
      then some (long_line k)
      else if contains seen ck
      then some (codes "header " ++ lib.quote ck ++ codes " given more than once")
      else if has_prefix ck (codes "Resent-")
      then some (codes "header " ++ lib.quote ck ++ codes " is not allowed")
      else none

  unfoldable pub check_headers : List Bytes → Entries → Option Bytes
  check_headers seen [] = none
  check_headers seen ((k, v) ∷ h) =
      let rest = check_headers (lib.canonical_key k ∷ seen) h in
      elim (header_error seen k v) [ some e ↦ some e | none ↦ rest ]

  unfoldable pub validate_request_headers : Entries → Option Bytes
  validate_request_headers h = check_headers [] h

  abbrev pub as_mailbox : Bytes × Bytes → Fallible Address
  as_mailbox (name, a) = elim (validate_mailbox a) [
    | some e ↦ err (lib.mail.describe a e)
    | none ↦ ok (record { name = name; address = a })
  ]

  -- `parseAddress` and `toDriverAddress`.
  unfoldable pub parse_address : Bytes → Fallible Address
  parse_address s =
      prefixed (lib.quote s ++ codes ": ") (lib.mail.parse_address (env.trim_space s))
      and_then as_mailbox

  abbrev pub cons_address : Address → Fallible (List Address) → Fallible (List Address)
  cons_address a (ok more) = ok (a ∷ more)
  cons_address a (err e) = err e

  -- `parseAddressList` and `toDriverAddresses`.
  unfoldable pub parse_address_list : List Bytes → Fallible (List Address)
  parse_address_list [] = ok []
  parse_address_list (s ∷ ss) =
      let rest = parse_address_list ss in parse_address s and_then (λ a. cons_address a rest)

  abbrev pub keep_address : Address → Bytes → Fallible Address
  keep_address a decoded = ok a

  -- An address whose header also passes `ValidateAddressHeader`.
  unfoldable pub single_address : Bytes → Fallible Address
  single_address s =
      parse_address s and_then (λ a. validate_address_header lib.mail s 1 and_then keep_address a)

  abbrev pub addresses_of : List (Bytes × Bytes) → List Bytes
  addresses_of l = map (λ p. p.1) l

  unfoldable pub reply_to_addresses : Bytes → Fallible (List Bytes)
  reply_to_addresses v = lib.parse_address_list v and_then (λ l.
      validate_address_header lib.mail v (length l)
      and_then (λ d. check_mailboxes lib.mail (addresses_of l)))

  abbrev pub with_sender : List Bytes → Address → Fallible (Bytes × List Bytes)
  with_sender reply_to a = ok (a.address, reply_to)

  abbrev pub with_reply_to : Bytes → List Bytes → List Bytes → Fallible (Bytes × List Bytes)
  with_reply_to sender reply_to l = ok (sender, reply_to ++ l)

  -- The body of the loop of `addressHeaders`.
  abbrev pub address_field : FieldKind → Bytes → Bytes × List Bytes → Fallible (Bytes × List Bytes)
  address_field sender_field v (sender, reply_to) =
      prefixed (codes "header \"Sender\": ") (single_address v) and_then with_sender reply_to
  address_field reply_to_field v (sender, reply_to) =
      prefixed (codes "header \"Reply-To\": ") (reply_to_addresses v)
      and_then with_reply_to sender reply_to
  address_field other_field v found = ok found

  -- `addressHeaders`: the sender and the Reply-To addresses found so far are passed on.
  unfoldable pub address_headers : Bytes × List Bytes → Entries → Fallible (Bytes × List Bytes)
  address_headers found [] = ok found
  address_headers found ((k, v) ∷ h) =
      address_field (kind_of (lib.canonical_key k)) v found
      and_then (λ found'. address_headers found' h)
