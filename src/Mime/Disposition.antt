-- ===== src/Mime/Disposition.antt =====
-- `contentDispositionValue` of internal/driver/smtp/mime.go and what it calls.
pub mod RoundTrip
use sigillum.Common.{
  Bytes, ℕ, ◌+◌, ◌/◌, ◌%◌, Bool, true, false, not, ◌&&◌, ◌||◌, List, [], ◌∷◌, ◌++◌, map, ltb, leb,
  ◌==◌, if◌then◌else◌, codes, all, contains_byte,
}
use sigillum.Policy.Address.{is_alnum}
use sigillum.Mime.QuotedPrintable.{hex_digit}

-- `isASCII`.
unfoldable pub is_ascii : Bytes → Bool
is_ascii s = all (λ c. not (ltb 0x7e c || ltb c 0x20)) s

-- `asciiFilenameFallback`, on the runes of the name.
abbrev pub ascii_or_underscore : ℕ → ℕ
ascii_or_underscore r = if leb 0x20 r && leb r 0x7e then r else b'_'

unfoldable pub ascii_filename_fallback : List ℕ → Bytes
ascii_filename_fallback runes = map ascii_or_underscore runes

abbrev pub attr_char : ℕ → Bool
attr_char c = is_alnum c || contains_byte (codes "!#$&+-.^_`|~") c

abbrev pub attr_encoded : ℕ → Bytes
attr_encoded c = if attr_char c then c ∷ [] else b'%' ∷ hex_digit (c / 16) ∷ hex_digit (c % 16) ∷ []

-- `rfc5987Encode`.
unfoldable pub rfc5987_encode : Bytes → Bytes
rfc5987_encode [] = []
rfc5987_encode (c ∷ s) = attr_encoded c ++ rfc5987_encode s

-- `strings.ReplaceAll` of one byte by itself behind a backslash.
unfoldable pub escape : ℕ → Bytes → Bytes
escape q [] = []
escape q (c ∷ s) = if c == q then b'\\' ∷ c ∷ escape q s else c ∷ escape q s

unfoldable pub escaped : Bytes → Bytes
escaped s = escape b'"' (escape b'\\' s)

-- The runes of the name are those of `filename`.
unfoldable pub content_disposition_value : (disp filename : Bytes) → (runes : List ℕ) → Bytes
content_disposition_value disp filename runes =
    let v =
      disp ++ (codes "; filename=\"" ++ (escaped (ascii_filename_fallback runes) ++ b'"' ∷ [])) in
    if not (is_ascii filename)
    then v ++ (codes "; filename*=UTF-8''" ++ rfc5987_encode filename)
    else v
