-- ===== src/Rest/Types.antt =====
-- The payloads, answers and surroundings of internal/apiserver/messages.go, and the problem documents
-- of internal/apiserver/problem/problem.go.
use sigillum.Common.{Bytes, ℤ, ℕ, Bool, Option, List, []}
use sigillum.Gateway.Types.{Fallible}
use sigillum.SmtpProxy.Headers.{MailLib}

pub record RequestBodyContent : Type 0 where
  pub text : Bytes
  pub html : Bytes

pub record RequestAttachment : Type 0 where
  pub filename : Bytes
  pub content_type : Bytes
  pub disposition : Bytes
  pub content_id : Bytes
  pub content_base64 : Bytes

-- A JSON object of strings is the list of its entries, in the order in which a loop over the map
-- meets them.
abbrev pub Entries : Type 0
Entries = List (Bytes × Bytes)

pub record RequestBody : Type 0 where
  pub from : Bytes
  pub to : List Bytes
  pub cc : List Bytes
  pub bcc : List Bytes
  pub subject : Bytes
  pub body : RequestBodyContent
  pub attachments : List RequestAttachment
  pub headers : Entries
  pub content_ids : Entries

abbrev pub empty_body : RequestBody
empty_body = record {
  from = [];
  to = [];
  cc = [];
  bcc = [];
  subject = [];
  body = record { text = []; html = [] };
  attachments = [];
  headers = [];
  content_ids = [];
}

-- The subject of the token.
pub record Subject : Type 0 where
  pub namespace : Bytes
  pub service_account : Bytes

-- `type` is without the common prefix `TypeBase`.
pub record Problem : Type 0 where
  pub type : Bytes
  pub title : Bytes
  pub status : ℕ
  pub detail : Bytes
  pub policy : Bytes
  pub message_id : Bytes

-- What is written to the client. The success envelope has status 202; `retry_after` is the value of
-- the Retry-After header, in seconds.
pub data Answer : Type 0 where
  success : (message_id policy : Bytes) (accepted_at : ℕ) → Answer
  failure : (retry_after : Option ℕ) → Problem → Answer

-- What can be read from a reader: bytes, and then its end or a fault.
pub record Stream : Type 0 where
  pub bytes : Bytes
  pub fault : Option Bytes

-- A part of a multipart body; the two header fields are those of `Content-Type` and `Content-ID`.
pub record Part : Type 0 where
  pub form_name : Bytes
  pub file_name : Bytes
  pub content_type : Bytes
  pub content_id : Bytes
  pub content : Stream

-- What the calls of `NextPart` return, one after the other.
pub data Parts : Type 0 where
  end : Parts
  bad : Bytes → Parts
  part : Part → Parts → Parts

-- json.UnmarshalTypeError: the path, the kind of the Go type that was wanted, and what was found.
pub record TypeError : Type 0 where
  pub field : Bytes
  pub kind : Bytes
  pub value : Bytes

-- What `Decoder.Decode` does, and whether a `Token` behind the value then finds the end.
pub data Decoded (A : Type 0) : Type 0 where
  eof : Decoded A
  type_error : TypeError → Decoded A
  syntax_error : Bytes → Decoded A
  value : A → (at_end : Bool) → Decoded A

-- The standard library: `mail.ParseAddressList` (names and addresses), `mime.ParseMediaType` (the
-- media type, and the error if there is one), `textproto.CanonicalMIMEHeaderKey`, base64 and JSON
-- decoding (the keys of a JSON object, `none` for null; a request body with no unknown fields),
-- Go's %q and %04X, and `strconv.Itoa`.
pub record HttpLib : Type 0 where
  pub mail : MailLib
  pub parse_address_list : Bytes → Fallible (List (Bytes × Bytes))
  pub parse_media_type : Bytes → Bytes × Option Bytes
  pub canonical_key : Bytes → Bytes
  pub decode_base64 : Bytes → Fallible Bytes
  pub decode_keys : Bytes → Decoded (Option (List Bytes))
  pub decode_body : Bytes → Decoded RequestBody
  pub runes : Bytes → List ℕ
  pub is_int : Bytes → Bool
  pub quote : Bytes → Bytes
  pub hex : ℕ → Bytes
  pub itoa : ℕ → Bytes

-- One request: its headers, its body as a stream, and the same body taken apart by
-- `MultipartReader`. `content_length` is -1 where it is unknown.
pub record HttpRequest : Type 0 where
  pub authorization : Bytes
  pub content_type : Bytes
  pub content_length : ℤ
  pub body : Stream
  pub multipart : Fallible Parts
