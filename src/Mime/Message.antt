-- ===== src/Mime/Message.antt =====
-- `AssembleMessage` of internal/driver/smtp/mime.go. Writes to a buffer and to a multipart writer
-- succeed.
pub mod Hidden
use sigillum.Common.{
  Bytes, ℕ, ◌+◌, Bool, true, false, not, ◌&&◌, ◌||◌, List, [], ◌∷◌, ◌++◌, map, Option, none, some,
  ltb, ◌==◌, if◌then◌else◌, codes, length, any, has_prefix, bytes_eq, bytes_lt,
}
use sigillum.Policy.Types.{Platform}
use sigillum.Gateway.Types.{Fallible, ok, err, Address, Attachment, Body, Message}
use sigillum.Gateway.ContentId.{validate_content_id}
use sigillum.SmtpProxy.Headers.{◌and_then◌}
use sigillum.Mime.{crlf, write_all}
use sigillum.Mime.QuotedPrintable.{write_quoted_printable}
use sigillum.Mime.Folding.{
  longest_token, longest_line, max_foldable_token, max_header_line, fold_header_line, chunks, words,
}
use sigillum.Mime.Disposition.{content_disposition_value}

-- textproto.MIMEHeader with one value for each field: the entries in some order.
abbrev pub Fields : Type 0
Fields = List (Bytes × Bytes)

-- The three multipart entities that a message can have, each with a boundary of its own.
pub data Entity : Type 0 where
  mixed alternative related : Entity

-- What the standard library does: the current time, random tokens, encoded-words, `Address.String`,
-- base64 (a text, and the pieces that an encoder gives to its writer), the multipart writer, and the
-- parsing and formatting of media types with their parameters.
pub record MimeLib : Type 0 where
  pub date : Bytes
  pub random_id : Bytes
  pub boundary : Entity → Bytes
  pub encode_q : Bytes → Bytes
  pub encode_b : Bytes → Bytes
  pub address_string : Bytes → Bytes → Bytes
  pub encode_base64 : Bytes → Bytes
  pub encoder_writes : Bytes → List Bytes
  pub multipart : Bytes → List (Fields × Bytes) → Bytes
  pub parse_media_type : Bytes → Fallible (Bytes × Fields)
  pub format_media_type : Bytes → Fields → Bytes
  pub canonical_key : Bytes → Bytes
  pub runes : Bytes → List ℕ
  pub rune_size : Bytes → ℕ
  pub quote : Bytes → Bytes

-- `containsInjectionChars`.
unfoldable pub contains_injection_chars : Bytes → Bool
contains_injection_chars s = any (λ c. c == 13 || c == 10 || c == 0) s

-- The loop of `validateHeaderKey`: a byte beyond ASCII stands for a rune beyond 126.
abbrev pub bad_key_byte : ℕ → Bool
bad_key_byte c = ltb c 33 || ltb 126 c || c == b':'

-- `keys`, sorted.
unfoldable pub insert_field : Bytes × Bytes → Fields → Fields
insert_field f [] = f ∷ []
insert_field f (g ∷ l) = if bytes_lt g.0 f.0 then g ∷ insert_field f l else f ∷ g ∷ l

unfoldable pub sort_fields : Fields → Fields
sort_fields [] = []
sort_fields (f ∷ l) = insert_field f (sort_fields l)

-- The value of a parameter.
abbrev pub param : Bytes → Fields → Bytes
param k [] = []
param k ((j, v) ∷ l) = if bytes_eq j k then v else param k l

-- The field of the canonical name `k`, in place or at the end.
unfoldable pub put : Bytes → Bytes → Fields → Fields
put k v [] = (k, v) ∷ []
put k v ((j, w) ∷ l) = if bytes_eq j k then (k, v) ∷ l else (j, w) ∷ put k v l

abbrev pub reserved_headers : List Bytes
reserved_headers =
    codes "from"
    ∷ codes "to"
    ∷ codes "cc"
    ∷ codes "bcc"
    ∷ codes "subject"
    ∷ codes "date"
    ∷ codes "message-id"
    ∷ codes "mime-version"
    ∷ codes "content-type"
    ∷ codes "content-transfer-encoding"
    ∷ []

abbrev pub is_among : Bytes → List Bytes → Bool
is_among k l = any (λ j. bytes_eq j k) l

module _ (env : Platform) (lib : MimeLib) where
  abbrev pub words_of : Option (List Bytes) → Bytes
  words_of none = []
  words_of (some cs) = words lib.encode_base64 cs

  -- `forceEncodedWords`.
  unfoldable pub force_encoded_words : Bytes → Bytes
  force_encoded_words s = words_of (chunks lib.rune_size (length s) s)

  abbrev pub angle : Bytes → Bytes
  angle a = codes " <" ++ a ++ codes ">"

  abbrev pub unprintable : ℕ → Bool
  unprintable c = ltb c 32 && not (c == 9) || ltb 126 c

  -- `formatAddress`.
  unfoldable pub format_address : Address → Bytes
  format_address a =
      let s = lib.address_string a.name a.address in
      if bytes_eq a.name []
      then a.address
      else if any unprintable a.name
      then lib.encode_b a.name ++ angle a.address
      else if ltb max_foldable_token (longest_token s)
      then force_encoded_words a.name ++ angle a.address
      else s

  -- `formatAddressList`.
  unfoldable pub format_address_list : List Address → Bytes
  format_address_list [] = []
  format_address_list (a ∷ []) = format_address a
  format_address_list (a ∷ b ∷ l) = format_address a ++ codes ", " ++ format_address_list (b ∷ l)

  -- `generateMessageID`.
  abbrev pub generate_message_id : Bytes → Bytes
  generate_message_id domain =
      codes "<"
      ++ lib.random_id
      ++ codes "@"
      ++ (if bytes_eq domain [] then codes "sigillum.local" else domain)
      ++ codes ">"

  -- `MIMEHeader.Set`.
  abbrev pub set : Bytes → Bytes → Fields → Fields
  set k v fields = put (lib.canonical_key k) v fields

  unfoldable pub is_reserved_header : Bytes → Bool
  is_reserved_header k = is_among (env.to_lower k) reserved_headers

  -- `validateHeaderKey`.
  unfoldable pub validate_header_key : Bytes → Option Bytes
  validate_header_key k =
      if bytes_eq k []
      then some (codes "header key must not be empty")
      else if any bad_key_byte k
      then some (codes "header key " ++ lib.quote k ++ codes " contains invalid character")
      else none

  abbrev pub field_error : Bytes → Bytes → Option Bytes
  field_error k v = elim (validate_header_key k) [
    | some e ↦ some e
    | none ↦
        if contains_injection_chars v
        then some (codes "header " ++ lib.quote k ++ codes " value contains CR, LF, or NUL")
        else none
  ]

  -- The loop over the message's own headers.
  unfoldable pub add_headers : Fields → Fields → Fallible Fields
  add_headers [] fields = ok fields
  add_headers ((k, v) ∷ h) fields =
      let skipped = add_headers h fields in
      let added = add_headers h (set k v fields) in
      if is_reserved_header k
      then skipped
      else elim (field_error k v) [ some e ↦ err e | none ↦ added ]

  unfoldable pub encoded_subject : Bytes → Bytes
  encoded_subject s =
      let subject = lib.encode_q s in
      if ltb max_foldable_token (longest_token subject) then force_encoded_words s else subject

  abbrev pub set_if : Bool → Bytes → Bytes → Fields → Fields
  set_if b k v fields = if b then set k v fields else fields

  abbrev pub some_of : List Address → Bool
  some_of l = ltb 0 (length l)

  abbrev pub message_id_of : Message → Bytes → Bytes
  message_id_of m helo = if bytes_eq m.message_id [] then generate_message_id helo else m.message_id

  -- The fields that the driver manages.
  unfoldable pub managed_fields : Message → Bytes → Fields
  managed_fields m helo = set (codes "MIME-Version") (codes "1.0") (
      set_if (not (bytes_eq m.subject [])) (codes "Subject") (encoded_subject m.subject) (
        set_if (some_of m.cc) (codes "Cc") (format_address_list m.cc) (
          set_if (some_of m.to) (codes "To") (format_address_list m.to) (
            set (codes "From") (format_address m.from)
              (set (codes "Message-ID") (message_id_of m helo) (set (codes "Date") lib.date []))))))

  abbrev pub is_blank : Bytes → Bool
  is_blank s = bytes_eq (env.trim_space s) []

  abbrev pub kept_charset : Bytes → Fields → Fields
  kept_charset mt params =
      let cs = param (codes "charset") params in
      if has_prefix mt (codes "text/")
      then if bytes_eq cs [] then [] else (codes "charset", cs) ∷ []
      else []

  abbrev pub formatted : Bytes → Bytes × Fields → Fallible Bytes
  formatted ct (mt, params) =
      let out = lib.format_media_type mt (kept_charset mt params) in
      if bytes_eq out []
      then err
          (codes "attachment contentType " ++ lib.quote ct ++ codes " is not a valid media type")
      else ok out

  -- `sanitizeContentType`.
  unfoldable pub sanitize_content_type : Bytes → Fallible Bytes
  sanitize_content_type ct =
      if is_blank ct
      then ok (codes "application/octet-stream")
      else elim (lib.parse_media_type ct) [
        | err e ↦ err (
            codes "attachment contentType "
            ++ lib.quote ct
            ++ codes " is not a valid media type: "
            ++ e)
        | ok parsed ↦ formatted ct parsed
      ]

  abbrev pub is_inline : Attachment → Bool
  is_inline a = env.equal_fold a.disposition (codes "inline")

  abbrev pub disposition_text : Attachment → Bytes
  disposition_text a = if is_inline a then codes "inline" else codes "attachment"

  abbrev pub disposition_of : Attachment → Fallible Bytes
  disposition_of a =
      let disp = disposition_text a in
      if bytes_eq a.filename []
      then ok disp
      else if contains_injection_chars a.filename
      then err (codes "attachment filename contains CR, LF, or NUL")
      else ok (content_disposition_value disp a.filename (lib.runes a.filename))

  abbrev pub with_id : Attachment → Fields → Fallible Fields
  with_id a fields =
      if bytes_eq a.content_id []
      then ok fields
      else elim (validate_content_id lib.quote a.content_id) [
        | some e ↦ err e
        | none ↦ ok (set (codes "Content-ID") (codes "<" ++ a.content_id ++ codes ">") fields)
      ]

  -- The body of a part in base64, wrapped.
  abbrev pub base64_lines : Bytes → Bytes
  base64_lines content = write_all 76 (lib.encoder_writes content)

  -- `writeAttachment`: the part that is created.
  unfoldable pub write_attachment : Attachment → Fallible (Fields × Bytes)
  write_attachment a = sanitize_content_type a.content_type and_then (λ ct.
      disposition_of a and_then (λ disp.
        with_id a (set (codes "Content-Disposition") disp (set (codes "Content-Type") ct []))
        and_then (λ fields. ok (
          set (codes "Content-Transfer-Encoding") (codes "base64") fields,
          base64_lines a.content,
        ))))

  abbrev pub cons_part :
      Fields × Bytes → Fallible (List (Fields × Bytes)) → Fallible (List (Fields × Bytes))
  cons_part p (ok ps) = ok (p ∷ ps)
  cons_part p (err e) = err e

  unfoldable pub write_attachments : List Attachment → Fallible (List (Fields × Bytes))
  write_attachments [] = ok []
  write_attachments (a ∷ l) =
      let rest = write_attachments l in write_attachment a and_then (λ p. cons_part p rest)

  abbrev pub text_fields : Bytes → Fields → Fields
  text_fields content_type fields =
      set (codes "Content-Transfer-Encoding") (codes "quoted-printable")
        (set (codes "Content-Type") content_type fields)

  abbrev pub text_plain : Bytes
  text_plain = codes "text/plain; charset=utf-8"

  abbrev pub text_html : Bytes
  text_html = codes "text/html; charset=utf-8"

  abbrev pub text_part : Bytes → Bytes → Fields × Bytes
  text_part content_type s = (text_fields content_type [], write_quoted_printable 0 s)

  abbrev pub boundary_text : Entity → Bytes
  boundary_text e = codes "boundary=\"" ++ lib.boundary e ++ codes "\""

  -- `buildRelated`: the header and the body of the entity.
  unfoldable pub build_related : Bytes → List Attachment → Fallible (Fields × Bytes)
  build_related html inline = write_attachments inline and_then (λ parts. ok (
    (codes "Content-Type", codes "multipart/related; type=\"text/html\"; " ++ boundary_text related)
        ∷ [],
    lib.multipart (lib.boundary related) (text_part text_html html ∷ parts),
  ))

  abbrev pub html_parts : Body → List Attachment → Fallible (List (Fields × Bytes))
  html_parts b inline =
      if is_blank b.html
      then ok []
      else if ltb 0 (length inline)
      then build_related b.html inline and_then (λ p. ok (p ∷ []))
      else ok (text_part text_html b.html ∷ [])

  -- `buildAlternative`.
  unfoldable pub build_alternative : Body → List Attachment → Fallible (Fields × Bytes)
  build_alternative b inline = html_parts b inline and_then (λ html.
      let text = if is_blank b.text then [] else text_part text_plain b.text ∷ [] in
      ok (
        (codes "Content-Type", codes "multipart/alternative; " ++ boundary_text alternative) ∷ [],
        lib.multipart (lib.boundary alternative) (text ++ html),
      ))

  abbrev pub set_all : Fields → Fields → Fields
  set_all [] fields = fields
  set_all ((k, v) ∷ l) fields = set_all l (set k v fields)

  abbrev pub as_body : Fields → Fields × Bytes → Fallible (Fields × Bytes)
  as_body fields (part_header, raw) = ok (set_all part_header fields, raw)

  -- `writeAlternative`: the message's fields and its body.
  unfoldable pub write_alternative : Fields → Body → List Attachment → Fallible (Fields × Bytes)
  write_alternative fields b inline =
      if not (is_blank b.text) && not (is_blank b.html)
      then build_alternative b inline and_then as_body fields
      else if not (is_blank b.html) && ltb 0 (length inline)
      then build_related b.html inline and_then as_body fields
      else if not (is_blank b.html)
      then ok (text_fields text_html fields, write_quoted_printable 0 b.html)
      else ok (text_fields text_plain fields, write_quoted_printable 0 b.text)

  abbrev pub goes_inline : Bool → Attachment → Bool
  goes_inline has_html a = has_html && not (bytes_eq a.content_id []) && is_inline a

  -- The attachments that go with the HTML, and the others.
  abbrev pub sort_out : Bool → List Attachment → List Attachment × List Attachment
  sort_out has_html [] = ([], [])
  sort_out has_html (a ∷ l) =
      let (inline, regular) = sort_out has_html l in
      if goes_inline has_html a then (a ∷ inline, regular) else (inline, a ∷ regular)

  abbrev pub first_part : Body → List Attachment → Fallible (List (Fields × Bytes))
  first_part b inline =
      if is_blank b.text && is_blank b.html
      then ok []
      else build_alternative b inline and_then (λ p. ok (p ∷ []))

  unfoldable pub write_mixed :
      Fields → Body → (inline regular : List Attachment) → Fallible (Fields × Bytes)
  write_mixed fields b inline regular = first_part b inline and_then (λ first.
      write_attachments regular and_then (λ parts. ok (
        set (codes "Content-Type") (codes "multipart/mixed; " ++ boundary_text mixed) fields,
        lib.multipart (lib.boundary mixed) (first ++ parts),
      )))

  -- The switch over the message's content.
  unfoldable pub write_body : Fields → Message → Fallible (Fields × Bytes)
  write_body fields m =
      let (inline, regular) = sort_out (not (is_blank m.body.html)) m.attachments in
      if length regular == 0
      then if is_blank m.body.text && is_blank m.body.html
        then ok (
          set (codes "Content-Transfer-Encoding") (codes "7bit")
              (set (codes "Content-Type") text_plain fields),
          [],
        )
        else write_alternative fields m.body inline
      else write_mixed fields m.body inline regular

  -- The lines of the sorted header.
  unfoldable pub header_lines : Fields → Fallible Bytes
  header_lines [] = ok []
  header_lines ((k, v) ∷ l) =
      let rest = header_lines l in
      let line = fold_header_line k v in
      if ltb max_header_line (longest_line line)
      then err (
          codes "header "
          ++ lib.quote k
          ++ codes " cannot be folded within the 998-character line limit")
      else rest and_then (λ lines. ok (line ++ lines))

  abbrev pub put_together : Bytes → Fields × Bytes → Fallible (Bytes × Bytes)
  put_together id (fields, body) =
      header_lines (sort_fields fields) and_then (λ lines. ok (lines ++ (crlf ++ body), id))

  -- Behind the checks: the text and the message ID.
  unfoldable pub assemble : Message → Bytes → Fallible (Bytes × Bytes)
  assemble m helo =
      add_headers m.headers (managed_fields m helo)
      and_then (λ fields. write_body fields m and_then put_together (message_id_of m helo))

  -- `AssembleMessage`. A message is never nil here.
  unfoldable pub assemble_message : Message → Bytes → Fallible (Bytes × Bytes)
  assemble_message m helo =
      if bytes_eq m.from.address []
      then err (codes "from address required")
      else if length m.to + length m.cc + length m.bcc == 0
      then err (codes "at least one recipient required")
      else assemble m helo
