-- ===== src/Mime/QuotedPrintable.antt =====
-- `writeQuotedPrintable` of internal/driver/smtp/mime.go: what it gives to its writer.
pub mod RoundTrip
use sigillum.Common.{
  Bytes, ℕ, suc, ◌+◌, ◌/◌, ◌%◌, Bool, true, false, ◌||◌, List, [], ◌∷◌, ◌++◌, ltb, ◌==◌,
  if◌then◌else◌, length,
}
use sigillum.Mime.{crlf}

-- A digit of `%02X`.
abbrev pub hex_digit : ℕ → ℕ
hex_digit n = if ltb n 10 then 48 + n else 55 + n

unfoldable pub encoded : ℕ → Bytes
encoded c =
    if c == b'=' || ltb c 32 || ltb 126 c
    then b'=' ∷ hex_digit (c / 16) ∷ hex_digit (c % 16) ∷ []
    else c ∷ []

abbrev pub soft_break : Bytes
soft_break = b'=' ∷ crlf

-- The loop, with the column of the line.
unfoldable pub write_quoted_printable : ℕ → Bytes → Bytes
write_quoted_printable col [] = []
write_quoted_printable col (c ∷ s) =
    let next_line = crlf ++ write_quoted_printable 0 s in
    let dropped = write_quoted_printable col s in
    let broken = soft_break ++ encoded c ++ write_quoted_printable (length (encoded c)) s in
    let here = encoded c ++ write_quoted_printable (col + length (encoded c)) s in
    if c == 10
    then next_line
    else if c == 13
    then dropped
    else if ltb 75 (col + length (encoded c))
    then broken
    else here
