-- ===== src/Rest/Attachments.antt =====
-- The checks of attachments and their content IDs in internal/apiserver/messages.go, and what a
-- message must carry.
pub mod Named
use sigillum.Common.{
  Bytes, ℕ, suc, ◌+◌, Bool, true, false, not, ◌&&◌, ◌||◌, List, [], ◌∷◌, ◌++◌, Option, none, some,
  ltb, ◌==◌, if◌then◌else◌, codes, length, any, bytes_eq, bytes_lt,
}
use sigillum.Policy.Types.{Platform}
use sigillum.Gateway.Types.{Fallible, ok, err, Attachment}
use sigillum.Gateway.ContentId.{validate_content_id}
use sigillum.SmtpProxy.Headers.{◌and_then◌}
use sigillum.Rest.Types.{RequestBodyContent, RequestAttachment, RequestBody, Entries, HttpLib}
use sigillum.Rest.Checks.{has_control, contains, first_bidi_or_format_control}

-- `sum` of the lengths of names and values.
abbrev pub entries_size : Entries → ℕ
entries_size [] = 0
entries_size ((k, v) ∷ h) = length k + length v + entries_size h

abbrev pub contents_size : List Attachment → ℕ
contents_size [] = 0
contents_size (a ∷ l) = length a.content + contents_size l

-- `estimateSize`. Everything stands in a body of at most 32 MiB, far below 2^63.
unfoldable pub estimate_size : RequestBody → List Attachment → ℕ
estimate_size req atts =
    length req.subject
    + entries_size req.headers
    + length req.body.text
    + length req.body.html
    + contents_size atts

-- The value behind a name; `none` where the map has no such key.
abbrev pub lookup : Bytes → Entries → Option Bytes
lookup k [] = none
lookup k ((j, v) ∷ m) = if bytes_eq j k then some v else lookup k m

-- `sort.Strings` on the keys of a map, each with its value.
unfoldable pub insert_sorted : Bytes × Bytes → Entries → Entries
insert_sorted e [] = e ∷ []
insert_sorted e (f ∷ l) = if bytes_lt f.0 e.0 then f ∷ insert_sorted e l else e ∷ f ∷ l

unfoldable pub sort_entries : Entries → Entries
sort_entries [] = []
sort_entries (e ∷ l) = insert_sorted e (sort_entries l)

-- What the search of `applyContentIDs` over the form names finds: nothing, one index, or a second.
pub data Found : Type 0 where
  nowhere twice : Found
  at : ℕ → Found

-- The inner loop of `applyContentIDs`, from index `i` on, with `idx` as found so far.
unfoldable pub find_part : Bytes → (i : ℕ) → (idx : Found) → List Bytes → Found
find_part n i idx [] = idx
find_part n i twice (f ∷ fs) = twice
find_part n i nowhere (f ∷ fs) = find_part n (suc i) (if bytes_eq f n then at i else nowhere) fs
find_part n i (at j) (f ∷ fs) = find_part n (suc i) (if bytes_eq f n then twice else at j) fs

abbrev pub inline_text : Bytes
inline_text = codes "inline"

-- The part at the index, sent inline with the ID.
unfoldable pub name_part : ℕ → Bytes → List Attachment → List Attachment
name_part i id [] = []
name_part ℕ.zero id (a ∷ l) = record a { content_id = id; disposition = inline_text } ∷ l
name_part (suc i) id (a ∷ l) = a ∷ name_part i id l

-- The content ID of the part at the index; Go's index is in range.
abbrev pub id_at : ℕ → List Attachment → Bytes
id_at i [] = []
id_at ℕ.zero (a ∷ l) = a.content_id
id_at (suc i) (a ∷ l) = id_at i l

module _ (env : Platform) (lib : HttpLib) where
  unfoldable pub has_content : RequestBodyContent → List Attachment → Bool
  has_content body atts =
      if not (bytes_eq (env.trim_space body.text) [])
        || not (bytes_eq (env.trim_space body.html) [])
      then true
      else any (λ a. ltb 0 (length a.content)) atts

  abbrev media_type_error : Bytes → Option Bytes
  media_type_error ct = elim (lib.parse_media_type ct).1 [
    | none ↦ none
    | some e ↦
        some (codes "contentType " ++ lib.quote ct ++ codes " is not a valid media type: " ++ e)
  ]

  abbrev disposition_error : RequestAttachment → Option Bytes
  disposition_error a =
      if not (bytes_eq a.disposition [])
        && not (env.equal_fold a.disposition (codes "attachment"))
        && not (env.equal_fold a.disposition inline_text)
      then some (
          codes "disposition "
          ++ lib.quote a.disposition
          ++ codes " must be \"attachment\" or \"inline\"")
      else if bytes_eq a.content_id []
      then none
      else if not (env.equal_fold a.disposition inline_text)
      then some
          (codes "contentId " ++ lib.quote a.content_id ++ codes " needs disposition \"inline\"")
      else validate_content_id lib.quote a.content_id

  -- `validateAttachmentMeta`.
  unfoldable pub validate_attachment_meta : RequestAttachment → Option Bytes
  validate_attachment_meta a =
      let control = first_bidi_or_format_control (lib.runes a.filename) in
      if has_control a.filename
      then some (codes "filename " ++ lib.quote a.filename ++ codes " contains CR, LF, or NUL")
      else if not (control == 0)
      then some (
          codes "filename "
          ++ lib.quote a.filename
          ++ codes " contains the Unicode control U+"
          ++ lib.hex control)
      else if has_control a.content_type
      then some
          (codes "contentType " ++ lib.quote a.content_type ++ codes " contains CR, LF, or NUL")
      else if bytes_eq (env.trim_space a.content_type) []
      then disposition_error a
      else elim (media_type_error a.content_type) [ some e ↦ some e | none ↦ disposition_error a ]

  -- `uniqueContentIDs`, with the IDs seen so far.
  unfoldable pub check_unique : List Bytes → List Attachment → Option Bytes
  check_unique seen [] = none
  check_unique seen (a ∷ l) =
      let id = env.to_lower a.content_id in
      let skipped = check_unique seen l in
      let rest = check_unique (id ∷ seen) l in
      if bytes_eq a.content_id []
      then skipped
      else if contains seen id
      then some (
          codes "content ID "
          ++ lib.quote a.content_id
          ++ codes " is used by more than one attachment")
      else rest

  unfoldable pub unique_content_ids : List Attachment → Option Bytes
  unique_content_ids l = check_unique [] l

  abbrev pub cons_attachment : Attachment → Fallible (List Attachment) → Fallible (List Attachment)
  cons_attachment a (ok more) = ok (a ∷ more)
  cons_attachment a (err e) = err e

  abbrev pub with_content : RequestAttachment → Bytes → Attachment
  with_content a raw = record {
    filename = a.filename;
    content_type = a.content_type;
    disposition = a.disposition;
    content_id = a.content_id;
    content = raw;
  }

  -- `decodeAttachments`, from index `i` on.
  unfoldable pub decode_attachments : ℕ → List RequestAttachment → Fallible (List Attachment)
  decode_attachments i [] = ok []
  decode_attachments i (a ∷ l) =
      let rest = decode_attachments (suc i) l in
      elim (lib.decode_base64 a.content_base64) [
        | err e ↦ err (
            codes "attachment["
            ++ lib.itoa i
            ++ codes "] "
            ++ lib.quote a.filename
            ++ codes ": "
            ++ e)
        | ok raw ↦ cons_attachment (with_content a raw) rest
      ]

  -- The body of the outer loop of `applyContentIDs`.
  unfoldable pub apply_content_id :
      List Bytes → Bytes → Bytes → List Attachment → Fallible (List Attachment)
  apply_content_id form_names n id atts = elim (find_part n 0 nowhere form_names) [
    | twice ↦ err (codes "contentIds: more than one file part is named " ++ lib.quote n)
    | nowhere ↦ err (codes "contentIds: no file part is named " ++ lib.quote n)
    | at i ↦
        if not (bytes_eq (id_at i atts) [])
        then err
            (codes "contentIds: part " ++ lib.quote n ++ codes " already has a Content-ID header")
        else elim (validate_content_id lib.quote id) [
          | some e ↦ err (codes "contentIds[" ++ lib.quote n ++ codes "]: " ++ e)
          | none ↦ ok (name_part i id atts)
        ]
  ]

  -- The outer loop, over the entries in the order of their names.
  unfoldable pub apply_each : List Bytes → Entries → List Attachment → Fallible (List Attachment)
  apply_each form_names [] atts = ok atts
  apply_each form_names ((n, id) ∷ ids) atts =
      apply_content_id form_names n id atts and_then apply_each form_names ids

  unfoldable pub apply_content_ids :
      Entries → List Attachment → List Bytes → Fallible (List Attachment)
  apply_content_ids ids atts form_names = apply_each form_names (sort_entries ids) atts
