-- ===== src/Mime/Disposition/RoundTrip.antt =====
-- A reader of the header gets the file name back.
use sigillum.Common.{
  Bytes, ℕ, ◌+◌, ◌*◌, ◌≤◌, Bool, true, false, ◌≡◌, List, [], ◌∷◌, ◌++◌, Option, none, some, All,
  ◌==◌, if◌then◌else◌, codes,
}
use sigillum.Mime.QuotedPrintable.RoundTrip.{Mode, plain, escape, digit, unhex}
use sigillum.Mime.Disposition

abbrev cons_read : ℕ → Option (Bytes × Bytes) → Option (Bytes × Bytes)
cons_read c none = none
cons_read c (some (a, rest)) = some (c ∷ a, rest)

-- A quoted string of RFC 822 behind its first quote, and what follows the last: a backslash quotes
-- the next byte.
abbrev pub read_quoted : (quoted : Bool) → Bytes → Option (Bytes × Bytes)
read_quoted quoted [] = none
read_quoted true (c ∷ s) = cons_read c (read_quoted false s)
read_quoted false (c ∷ s) =
    let next = read_quoted true s in
    let kept = cons_read c (read_quoted false s) in
    if c == b'\\' then next else if c == b'"' then some ([], s) else kept

-- Percent-decoding of an RFC 5987 value.
abbrev pub pct_decode : Mode → Bytes → Bytes
pct_decode mode [] = []
pct_decode plain (c ∷ s) =
    let coded = pct_decode escape s in
    let kept = c ∷ pct_decode plain s in if c == b'%' then coded else kept
pct_decode escape (c ∷ s) = pct_decode (digit c) s
pct_decode (digit a) (b ∷ s) = (unhex a * 16 + unhex b) ∷ pct_decode plain s

abbrev pub legacy_start : Bytes → Bytes
legacy_start disp = disp ++ codes "; filename=\""

abbrev pub extended_start : Bytes
extended_start = codes "; filename*=UTF-8''"

-- A text in printable ASCII that has a printable rune wherever the runes have it, and stands for
-- each of them.
abbrev pub Prints : List ℕ → Bytes → Type 0
Prints [] [] = Unit
Prints [] (c ∷ s) = ⊥
Prints (r ∷ rs) [] = ⊥
Prints (r ∷ rs) (c ∷ s) = (0x20 ≤ c) × (c ≤ 0x7e) × (0x20 ≤ r → r ≤ 0x7e → c ≡ r) × Prints rs s

abbrev pub IsPrintable : Bytes → Type 0
IsPrintable = All (λ c. (0x20 ≤ c) × (c ≤ 0x7e))
