-- ===== src/SmtpProxy/Headers.antt =====
-- `ValidateAddressHeader` of internal/policy/address.go, and `parseMessage`, `addressField` and
-- `missingOriginationHeaders` of internal/smtpproxy/session.go: what the policy reads of a message's
-- header, and the fields that are put in front of it.
pub mod Checked
use sigillum.Common.{
  Bytes, ℕ, suc, ◌+◌, Bool, true, false, not, ◌&&◌, ◌||◌, List, [], ◌∷◌, ◌++◌, Option, none, some,
  ltb, ◌==◌, if◌then◌else◌, codes, count, cut_last, has_prefix, length, any, bytes_eq,
}
use sigillum.Policy.Address.{AddressError, validate_mailbox}
use sigillum.Gateway.Types.{Fallible, ok, err}
use sigillum.SmtpProxy.Session.{AddressHeaders, Parsed}

-- mail.Header: the values of each field name, in canonical spelling.
abbrev pub Header : Type 0
Header = List (Bytes × List Bytes)

-- What the standard library does: `mail.ReadMessage` (the header), `Header.AddressList` (the
-- addresses without their names), the decoding of encoded-words by `wordDecoder`, and the texts of
-- errors.
pub record MailLib : Type 0 where
  pub read_message : Bytes → Fallible Header
  pub address_list : Header → Bytes → Fallible (List Bytes)
  pub decode_header : Bytes → Fallible Bytes
  -- `mail.ParseAddress`: the name and the address.
  pub parse_address : Bytes → Fallible (Bytes × Bytes)
  pub describe : Bytes → AddressError → Bytes

abbrev pub values : Header → Bytes → List Bytes
values [] k = []
values ((name, vs) ∷ h) k = if bytes_eq name k then vs else values h k

abbrev first : List Bytes → Bytes
first [] = []
first (v ∷ vs) = v

-- `Header.Get`.
abbrev pub get : Header → Bytes → Bytes
get h k = first (values h k)

-- `strings.Count`, for a text that does not overlap itself.
unfoldable pub count_text : Bytes → Bytes → ℕ
count_text p [] = 0
count_text p (x ∷ s) = (if has_prefix (x ∷ s) p then 1 else 0) + count_text p s

-- '@' and its look-alikes U+FF20 and U+FE6B.
unfoldable pub at_signs : Bytes → ℕ
at_signs s =
    count b'@' s + count_text (239 ∷ 188 ∷ 160 ∷ []) s + count_text (239 ∷ 185 ∷ 171 ∷ []) s

infixl 20 ◌and_then◌
abbrev pub ◌and_then◌ : {A B : Type 0} → Fallible A → (A → Fallible B) → Fallible B
ok a and_then f = f a
err e and_then f = err e

abbrev pub prefixed : {A : Type 0} → Bytes → Fallible A → Fallible A
prefixed text (ok a) = ok a
prefixed text (err e) = err (text ++ e)

-- An early return of an error.
abbrev pub unless_ : {A : Type 0} → Bool → Bytes → Fallible A → Fallible A
unless_ true e rest = err e
unless_ false e rest = rest

abbrev pub cons_ok : Bytes → Fallible (List Bytes) → Fallible (List Bytes)
cons_ok a (ok more) = ok (a ∷ more)
cons_ok a (err e) = err e

module _ (lib : MailLib) where
  unfoldable pub validate_address_header : Bytes → ℕ → Fallible Bytes
  validate_address_header raw n = lib.decode_header raw and_then (λ decoded.
      unless_ (ltb n (at_signs decoded)) (codes "display names and comments must not contain '@'")
        (ok decoded))

  abbrev pub plain : Bytes → Bytes × Bytes → Option Bytes
  plain s (name, a) =
      if not (bytes_eq name []) || not (bytes_eq a s)
      then some (s ++ codes " is not a plain address")
      else elim (validate_mailbox a) [ none ↦ none | some e ↦ some (lib.describe a e) ]

  abbrev pub if_plain : Bytes → Fallible (Bytes × Bytes) → Option Bytes
  if_plain s (err e) = some e
  if_plain s (ok p) = plain s p

  -- `ValidatePlainAddress`, which is also `checkPath`; none where there is no error. Go quotes the
  -- address in the text.
  unfoldable pub validate_plain_address : Bytes → Option Bytes
  validate_plain_address s = if_plain s (lib.parse_address s)

  -- The loop over the addresses.
  unfoldable pub check_mailboxes : List Bytes → Fallible (List Bytes)
  check_mailboxes [] = ok []
  check_mailboxes (a ∷ more) =
      let rest = check_mailboxes more in
      elim (validate_mailbox a) [ some e ↦ err (lib.describe a e) | none ↦ cons_ok a rest ]

  unfoldable pub address_field : Header → Bytes → Fallible (List Bytes)
  address_field h k = lib.address_list h k and_then (λ list.
      validate_address_header (get h k) (length list) and_then (λ decoded. check_mailboxes list))

  unfoldable pub no_resent : Header → Fallible (Unit {0})
  no_resent [] = ok tt
  no_resent ((k, vs) ∷ h) =
      let rest = no_resent h in
      unless_ (has_prefix k (codes "Resent-")) (k ++ codes " header fields are not allowed") rest

  unfoldable pub no_duplicates : Header → List Bytes → Fallible (Unit {0})
  no_duplicates h [] = ok tt
  no_duplicates h (k ∷ ks) =
      let rest = no_duplicates h ks in
      unless_ (ltb 1 (length (values h k)))
        (codes "multiple " ++ k ++ codes " header fields are not allowed") rest

  abbrev no_from : Bytes
  no_from = codes "message has no valid From header"

  abbrev pub only_from : List Bytes → Fallible Bytes
  only_from [] = err no_from
  only_from (a ∷ []) = ok a
  only_from (a ∷ b ∷ more) = err (codes "multiple From addresses are not allowed")

  unfoldable pub parse_from : Header → Fallible Bytes
  parse_from h =
      unless_ (length (values h (codes "From")) == 0) no_from (
        prefixed (codes "invalid From header: ") (address_field h (codes "From"))
        and_then only_from)

  abbrev pub only_sender : List Bytes → Fallible Bytes
  only_sender (a ∷ []) = ok a
  only_sender _ = err (codes "the Sender header must hold exactly one address")

  unfoldable pub parse_sender : Header → Fallible Bytes
  parse_sender h =
      if length (values h (codes "Sender")) == 0
      then ok []
      else prefixed (codes "invalid Sender header: ") (address_field h (codes "Sender"))
        and_then only_sender

  unfoldable pub parse_reply_to : Header → Fallible (List Bytes)
  parse_reply_to h =
      if length (values h (codes "Reply-To")) == 0
      then ok []
      else prefixed (codes "invalid Reply-To header: ") (address_field h (codes "Reply-To"))

  abbrev pub once : List Bytes
  once = codes "From" ∷ codes "Sender" ∷ codes "Reply-To" ∷ []

  -- The rest of `parseMessage` behind each of its steps, the last first.
  abbrev pub with_all :
      Header → (from sender : Bytes) → List Bytes → Fallible (Header × AddressHeaders)
  with_all h from sender reply_to =
      ok (h, record { from = from; sender = sender; reply_to = reply_to })

  abbrev pub with_sender : Header → (from sender : Bytes) → Fallible (Header × AddressHeaders)
  with_sender h from sender = parse_reply_to h and_then with_all h from sender

  abbrev pub with_from : Header → Bytes → Fallible (Header × AddressHeaders)
  with_from h from = parse_sender h and_then with_sender h from

  abbrev pub parse_addresses : Header → Unit {0} → Fallible (Header × AddressHeaders)
  parse_addresses h _ = parse_from h and_then with_from h

  abbrev pub parse_unique : Header → Unit {0} → Fallible (Header × AddressHeaders)
  parse_unique h _ = no_duplicates h once and_then parse_addresses h

  abbrev pub parse_header : Header → Fallible (Header × AddressHeaders)
  parse_header h = no_resent h and_then parse_unique h

  unfoldable pub parse_message : Bytes → Fallible (Header × AddressHeaders)
  parse_message raw =
      prefixed (codes "malformed message header: ") (lib.read_message raw) and_then parse_header

abbrev crlf : Bytes
crlf = 13 ∷ 10 ∷ []

-- The domain behind the last '@', if there is one.
unfoldable pub sender_domain : Bytes → Bytes
sender_domain from =
    let local = codes "sigillum.local" in
    elim (cut_last b'@' from) [ none ↦ local | some (l, d) ↦ if length d == 0 then local else d ]

-- `date` is the current time as RFC 1123 writes it. "Message-Id" is the canonical spelling.
unfoldable pub missing_origination_headers : Header → (date id from : Bytes) → Bytes
missing_origination_headers h date id from =
    (if bytes_eq (get h (codes "Date")) [] then codes "Date: " ++ date ++ crlf else [])
    ++ (if bytes_eq (get h (codes "Message-Id")) []
        then codes "Message-ID: <" ++ id ++ codes "@" ++ sender_domain from ++ codes ">" ++ crlf
        else [])

abbrev pub submission_of :
    (content_size : Header → ℕ → ℕ)
    → (date raw id : Bytes) → Header × AddressHeaders
    → Fallible Parsed
submission_of content_size date raw id (h, hdr) = ok (record {
  headers = hdr;
  size = content_size h (length raw);
  added = missing_origination_headers h date id hdr.from;
})

-- What `Data` makes of a message, for the session's `parse_message`.
unfoldable pub parse_submission :
    MailLib → (content_size : Header → ℕ → ℕ) → (date raw id : Bytes) → Fallible Parsed
parse_submission lib content_size date raw id =
    parse_message lib raw and_then submission_of content_size date raw id
