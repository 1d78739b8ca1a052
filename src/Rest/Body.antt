-- ===== src/Rest/Body.antt =====
-- How internal/apiserver/messages.go reads a request's body: one JSON object, or a multipart form with
-- such an object and file parts.
pub mod Bounded
use sigillum.Common.{
  Bytes, ℕ, suc, ◌+◌, ◌-◌, Bool, true, false, not, ◌&&◌, ◌||◌, List, [], ◌∷◌, ◌++◌, map, Option,
  none, some, ltb, leb, ◌==◌, if◌then◌else◌, codes, length, take, has_prefix, bytes_eq, bytes_lt,
}
use sigillum.Policy.Types.{Platform}
use sigillum.Gateway.Types.{Fallible, ok, err, Attachment}
use sigillum.SmtpProxy.Headers.{◌and_then◌, prefixed}
use sigillum.Rest.Types.{
  RequestBody, RequestAttachment, Entries, empty_body, Stream, Part, Parts, end, bad, part,
  TypeError, Decoded, eof, type_error, syntax_error, value, HttpLib,
}
use sigillum.Rest.Checks.{contains}
use sigillum.Rest.Attachments.{
  lookup, validate_attachment_meta, apply_content_ids, decode_attachments,
}

-- `requestFields` and `misplacedFields`.
abbrev pub request_fields : List Bytes
request_fields =
    codes "from"
    ∷ codes "to"
    ∷ codes "cc"
    ∷ codes "bcc"
    ∷ codes "subject"
    ∷ codes "body"
    ∷ codes "attachments"
    ∷ codes "headers"
    ∷ codes "contentids"
    ∷ []

abbrev pub misplaced_fields : Entries
misplaced_fields =
    (codes "text", codes "body.text")
    ∷ (codes "html", codes "body.html")
    ∷ (codes "replyto", codes "headers[\"Reply-To\"]")
    ∷ (codes "reply_to", codes "headers[\"Reply-To\"]")
    ∷ (codes "sender", codes "headers[\"Sender\"]")
    ∷ []

-- `fieldTypes`.
abbrev field_types : Entries
field_types =
    (codes "to", codes "an array of addresses (strings)")
    ∷ (codes "cc", codes "an array of addresses (strings)")
    ∷ (codes "bcc", codes "an array of addresses (strings)")
    ∷ (codes "to[]", codes "an address (string)")
    ∷ (codes "cc[]", codes "an address (string)")
    ∷ (codes "bcc[]", codes "an address (string)")
    ∷ (codes "body", codes "an object with text and/or html")
    ∷ (codes "attachments", codes "an array of attachment objects")
    ∷ (codes "headers", codes "an object of header names to string values")
    ∷ []

-- `sort.Strings`.
unfoldable pub insert_text : Bytes → List Bytes → List Bytes
insert_text a [] = a ∷ []
insert_text a (b ∷ l) = if bytes_lt b a then b ∷ insert_text a l else a ∷ b ∷ l

unfoldable pub sort_texts : List Bytes → List Bytes
sort_texts [] = []
sort_texts (a ∷ l) = insert_text a (sort_texts l)

-- `strings.Split(s, ".")`.
unfoldable pub segments : Bytes → List Bytes
segments [] = [] ∷ []
segments (c ∷ s) = elim (segments s) [
  | [] ↦ [] ∷ []
  | w ∷ ws ↦ if c == b'.' then [] ∷ w ∷ ws else (c ∷ w) ∷ ws
]

-- `io.ReadAll(io.LimitReader(r, n))`: a fault shows only where fewer than `n` bytes come before it.
abbrev pub fault_or : Bytes → Option Bytes → Fallible Bytes
fault_or bytes none = ok bytes
fault_or bytes (some e) = err e

unfoldable pub read_limited : ℕ → Stream → Fallible Bytes
read_limited n r = if leb n (length r.bytes) then ok (take n r.bytes) else fault_or r.bytes r.fault

abbrev pub max_body : ℕ
max_body = 33_554_432

-- `errBodyTooLarge`, or another error.
pub data BodyError : Type 0 where
  too_large : BodyError
  invalid : Bytes → BodyError

pub data Read (A : Type 0) : Type 0 where
  read : A → Read A
  unreadable : BodyError → Read A

abbrev pub readable : {A : Type 0} → Fallible A → Read A
readable (ok a) = read a
readable (err e) = unreadable (invalid e)

infixl 20 ◌then_read◌
abbrev pub ◌then_read◌ : {A B : Type 0} → Read A → (A → Read B) → Read B
read a then_read f = f a
unreadable e then_read f = unreadable e

-- The variables of the loop of `parseMultipartMessage`.
pub record Form : Type 0 where
  pub req : RequestBody
  pub seen_data : Bool
  pub total : ℕ
  pub atts : List Attachment
  pub form_names : List Bytes

abbrev pub no_form : Form
no_form = record { req = empty_body; seen_data = false; total = 0; atts = []; form_names = [] }

module _ (env : Platform) (lib : HttpLib) where
  -- The loop of `jsonTypeError` over the segments behind the first: the path, and the key.
  unfoldable pub json_path : Bytes → Bytes → List Bytes → Bytes × Bytes
  json_path path key [] = (path, key)
  json_path path key (s ∷ ss) =
      let index = json_path (path ++ codes "[" ++ s ++ codes "]") (key ++ codes "[]") ss in
      let name = json_path (path ++ b'.' ∷ s) (key ++ b'.' ∷ s) ss in
      if lib.is_int s && not (bytes_eq key (codes "headers")) then index else name

  abbrev json_path_of : List Bytes → Bytes × Bytes
  json_path_of [] = ([], [])
  json_path_of (s ∷ ss) = json_path s s ss

  abbrev wanted_kind : Bytes → Bytes
  wanted_kind kind =
      if bytes_eq kind (codes "string")
      then codes "a string"
      else if bytes_eq kind (codes "slice")
      then codes "an array"
      else if bytes_eq kind (codes "map") || bytes_eq kind (codes "struct")
      then codes "an object"
      else codes "a " ++ kind

  abbrev wanted : Bytes → Option Bytes → Bytes
  wanted kind none = wanted_kind kind
  wanted kind (some w) = w

  abbrev found_value : Bytes → Bytes
  found_value got =
      if bytes_eq got (codes "array") || bytes_eq got (codes "object")
      then codes "an " ++ got
      else if not (has_prefix got (codes "number "))
      then codes "a " ++ got
      else got

  unfoldable pub json_type_error : TypeError → Bytes
  json_type_error te =
      let (path, key) = json_path_of (segments te.field) in
      if bytes_eq te.field []
      then codes "the payload must be a JSON object"
      else b'`' ∷ path
        ++ codes "` must be "
        ++ wanted te.kind (lookup key field_types)
        ++ codes ", not "
        ++ found_value te.value

  -- `decodeOneJSON`.
  unfoldable pub decode_one_json : {A : Type 0} → Decoded A → Fallible A
  decode_one_json eof = err (codes "empty JSON payload")
  decode_one_json (type_error te) = err (json_type_error te)
  decode_one_json (syntax_error e) = err e
  decode_one_json (value a true) = ok a
  decode_one_json (value a false) = err (codes "unexpected data after the JSON object")

  abbrev unknown_field : Bytes → Option Bytes → Bytes
  unknown_field k none = codes "unknown field " ++ lib.quote k
  unknown_field k (some want) =
      codes "unknown field " ++ lib.quote k ++ codes "; did you mean " ++ want ++ codes "?"

  -- The loop over the sorted keys.
  unfoldable pub check_keys : List Bytes → Option Bytes
  check_keys [] = none
  check_keys (k ∷ ks) =
      let lower = env.to_lower k in
      if contains request_fields lower
      then check_keys ks
      else some (unknown_field k (lookup lower misplaced_fields))

  abbrev pub check_top : Option (List Bytes) → Fallible (Unit {0})
  check_top none = err (codes "the payload must be a JSON object")
  check_top (some keys) = elim (check_keys (sort_texts keys)) [ some e ↦ err e | none ↦ ok tt ]

  -- `decodeRequestJSON`.
  unfoldable pub decode_request_json : Bytes → Fallible RequestBody
  decode_request_json raw =
      decode_one_json (lib.decode_keys raw)
      and_then (λ top. check_top top and_then (λ u. decode_one_json (lib.decode_body raw)))

  abbrev not_a_file : Bytes → Bytes → Option Bytes
  not_a_file name lower = elim (lookup lower misplaced_fields) [
    | some want ↦ some (
        codes "form field "
        ++ lib.quote name
        ++ codes " is not a file; did you mean "
        ++ want
        ++ codes " in the data part?")
    | none ↦
        if contains request_fields lower
        then some (
            codes "form field "
            ++ lib.quote name
            ++ codes " is not a file; it belongs in the data part")
        else none
  ]

  -- `strings.TrimPrefix(s, "<")` and `strings.TrimSuffix(s, ">")`.
  abbrev trim_angle : Bytes → Bytes
  trim_angle [] = []
  trim_angle (c ∷ s) = if c == b'<' then s else c ∷ s

  unfoldable pub trim_close : Bytes → Bytes
  trim_close [] = []
  trim_close (c ∷ []) = if c == b'>' then [] else c ∷ []
  trim_close (c ∷ d ∷ s) = c ∷ trim_close (d ∷ s)

  abbrev or_default : Bytes → Bytes → Bytes
  or_default s d = if bytes_eq s [] then d else s

  -- The metadata of a file part.
  unfoldable pub part_meta : Part → RequestAttachment
  part_meta p = record {
    filename = or_default p.file_name p.form_name;
    content_type = or_default p.content_type (codes "application/octet-stream");
    disposition = if bytes_eq p.content_id [] then [] else codes "inline";
    content_id = if bytes_eq p.content_id [] then [] else trim_close (trim_angle p.content_id);
    content_base64 = [];
  }

  -- The part as an attachment, or why it is none.
  unfoldable pub file_part : Part → Bytes → Fallible Attachment
  file_part p content =
      let meta = part_meta p in
      let named =
        if bytes_eq p.file_name []
        then not_a_file p.form_name (env.to_lower p.form_name)
        else none in
      elim named [
        | some e ↦ err e
        | none ↦ elim (validate_attachment_meta env lib meta) [
          | some e ↦ err (codes "part " ++ lib.quote p.form_name ++ codes ": " ++ e)
          | none ↦ ok (record {
            filename = meta.filename;
            content_type = meta.content_type;
            disposition = meta.disposition;
            content_id = meta.content_id;
            content = content;
          })
        ]
      ]

  abbrev in_data_part : {A : Type 0} → Fallible A → Fallible A
  in_data_part x = prefixed (codes "data part: ") x

  -- The data part.
  unfoldable pub take_data : Bytes → Form → Fallible Form
  take_data content f =
      if f.seen_data
      then err (codes "more than one data part")
      else in_data_part (decode_request_json content)
        and_then (λ req. ok (record f { req = req; seen_data = true }))

  -- A file part.
  unfoldable pub take_file : Part → Bytes → Form → Fallible Form
  take_file p content f = file_part p content and_then (λ a.
      ok (record f { atts = f.atts ++ a ∷ []; form_names = f.form_names ++ p.form_name ∷ [] }))

  abbrev pub take_content : Part → Bytes → Form → Fallible Form
  take_content p content f =
      if bytes_eq p.form_name (codes "data") then take_data content f else take_file p content f

  -- The body of the loop.
  unfoldable pub take_part : ℕ → Part → Form → Read Form
  take_part max p f =
      readable (
        prefixed (codes "reading part " ++ lib.quote p.form_name ++ codes ": ")
          (read_limited (max - f.total + 1) p.content))
      then_read (λ content.
          let total = f.total + length content in
          if ltb max total
          then unreadable too_large
          else readable (take_content p content (record f { total = total })))

  unfoldable pub take_parts : ℕ → Parts → Form → Read Form
  take_parts max end f = read f
  take_parts max (bad e) f = unreadable (invalid (codes "multipart part: " ++ e))
  take_parts max (part p ps) f = take_part max p f then_read take_parts max ps

  -- The loop over the attachments of the data part, from index `i` on.
  unfoldable pub metas_error : ℕ → List RequestAttachment → Option (ℕ × Bytes)
  metas_error i [] = none
  metas_error i (a ∷ l) =
      let rest = metas_error (suc i) l in
      elim (validate_attachment_meta env lib a) [ some e ↦ some (i, e) | none ↦ rest ]

  abbrev pub inline_attachments : RequestBody → Fallible (List Attachment)
  inline_attachments req = elim (metas_error 0 req.attachments) [
    | some (i, e) ↦ err (codes "data part: attachment[" ++ lib.itoa i ++ codes "]: " ++ e)
    | none ↦ in_data_part (decode_attachments env lib 0 req.attachments)
  ]

  -- The end of `parseMultipartMessage`, behind the loop.
  unfoldable pub close_form : Form → Fallible (RequestBody × List Attachment)
  close_form f =
      in_data_part (apply_content_ids env lib f.req.content_ids f.atts f.form_names)
      and_then (λ atts. inline_attachments f.req and_then (λ inline. ok (f.req, inline ++ atts)))

  abbrev pub closed : Form → Read (RequestBody × List Attachment)
  closed f = readable (close_form f)

  -- `parseMultipartMessage`.
  unfoldable pub parse_multipart_message : ℕ → Fallible Parts → Read (RequestBody × List Attachment)
  parse_multipart_message max (err e) = unreadable (invalid (codes "multipart: " ++ e))
  parse_multipart_message max (ok ps) = take_parts max ps no_form then_read closed
