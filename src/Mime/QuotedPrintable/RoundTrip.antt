-- ===== src/Mime/QuotedPrintable/RoundTrip.antt =====
-- Quoted-printable text against a decoder, and the length of its lines.
use sigillum.Common.{
  Bytes, ℕ, suc, ◌+◌, ◌-◌, ◌*◌, ◌/◌, ◌%◌, ◌≤◌, ◌<◌, Bool, true, ◌&&◌, false, ◌≡◌, refl, ap, subst,
  ◌∙◌, inl, inr, [], ◌∷◌, ◌++◌, ltb, ◌==◌, if◌then◌else◌, length, All, arith, Bool-cases, ◌||◌,
}
use sigillum.Mime.Wrapping.{LinesFit, IsInline}
use sigillum.Mime.QuotedPrintable.{hex_digit, encoded, soft_break, write_quoted_printable}

-- Where a decoder stands: in the text, behind a `=`, or behind one and a byte.
pub data Mode : Type 0 where
  plain escape : Mode
  digit : ℕ → Mode

abbrev pub unhex : ℕ → ℕ
unhex h = if ltb h 65 then h - 48 else h - 55

-- RFC 2045: `=` and two digits are a byte, `=` at the end of a line is a soft break.
abbrev pub decode : Mode → Bytes → Bytes
decode mode [] = []
decode plain (c ∷ s) =
    let escaped = decode escape s in
    let kept = c ∷ decode plain s in if c == b'=' then escaped else kept
decode escape (c ∷ s) = decode (digit c) s
decode (digit a) (b ∷ s) =
    let rest = decode plain s in if a == 13 then rest else (unhex a * 16 + unhex b) ∷ rest

abbrev pub decoded : Bytes → Bytes
decoded s = decode plain s

-- The text with CRLF for every line feed and no other carriage return.
abbrev pub canonical : Bytes → Bytes
canonical [] = []
canonical (c ∷ s) =
    let rest = canonical s in if c == 10 then 13 ∷ 10 ∷ rest else if c == 13 then rest else c ∷ rest

decode-encoded : (c : ℕ) (rest : Bytes) → c < 256 → decoded (encoded c ++ rest) ≡ c ∷ decoded rest
unfolding encoded
decode-encoded c rest h = ground arith

decoded-soft_break : (rest : Bytes) → decoded (soft_break ++ rest) ≡ decoded rest
decoded-soft_break rest = refl

decoded-write_quoted_printable :
    (col : ℕ) (s : Bytes)
    → All (λ c. c < 256) s
    → decoded (write_quoted_printable col s) ≡ canonical s
unfolding write_quoted_printable
decoded-write_quoted_printable col [] h = refl
decoded-write_quoted_printable col (c ∷ s) (b, h) = elim (Bool-cases (c == 10)) [
  | inl t ↦
      rw (write_quoted_printable, t) (ap (λ r. 13 ∷ 10 ∷ r) (decoded-write_quoted_printable 0 s h))
  | inr t ↦ elim (Bool-cases (c == 13)) [
    | inl u ↦ rw (write_quoted_printable, t, u) (decoded-write_quoted_printable col s h)
    | inr u ↦ elim (Bool-cases (ltb 75 (col + length (encoded c)))) [
      | inl v ↦
          rw (write_quoted_printable, t, u, v)
            (decode-encoded c (write_quoted_printable (length (encoded c)) s) b
              ∙ ap (λ r. c ∷ r) (decoded-write_quoted_printable (length (encoded c)) s h))
      | inr v ↦
          rw (write_quoted_printable, t, u, v)
            (decode-encoded c (write_quoted_printable (col + length (encoded c)) s) b
              ∙ ap (λ r. c ∷ r) (decoded-write_quoted_printable (col + length (encoded c)) s h))
    ]
  ]
]

IsInline-hex_digit : (n : ℕ) → n < 16 → IsInline (hex_digit n)
IsInline-hex_digit n h = ground arith

LinesFit-inline :
    (col c : ℕ) (p : Bytes) → IsInline c → LinesFit 76 (suc col) p → LinesFit 76 col (c ∷ p)
LinesFit-inline col c p (a, b) h = rw (b, a) h

-- An encoded byte ends no line, and has at most three bytes.
LinesFit-encoded :
    (col c : ℕ) (rest : Bytes)
    → c < 256
    → (c == 10) ≡ false
    → (c == 13) ≡ false
    → LinesFit 76 (col + length (encoded c)) rest
    → LinesFit 76 col (encoded c ++ rest)
unfolding encoded
LinesFit-encoded col c rest h a b k = elim (Bool-cases (c == b'=' || ltb c 32 || ltb 126 c)) [
  | inl t ↦
      let longer = subst (λ n. LinesFit 76 n rest) (omega arith) (rw t at k) in
      let low = IsInline-hex_digit (c % 16) (omega arith) in
      let high = IsInline-hex_digit (c / 16) (omega arith) in
      rw t (
        LinesFit-inline col b'=' (hex_digit (c / 16) ∷ hex_digit (c % 16) ∷ rest) (refl, refl)
          (LinesFit-inline (suc col) (hex_digit (c / 16)) (hex_digit (c % 16) ∷ rest) high
            (LinesFit-inline (suc (suc col)) (hex_digit (c % 16)) rest low longer)))
  | inr t ↦
      let longer = subst (λ n. LinesFit 76 n rest) (omega arith) (rw t at k) in
      rw t (LinesFit-inline col c rest (b, a) longer)
]

length-encoded : (c : ℕ) → length (encoded c) ≤ 3
unfolding encoded
length-encoded c = ground arith

LinesFit-soft_break :
    (col : ℕ) (p : Bytes) → col ≤ 75 → LinesFit 76 0 p → LinesFit 76 col (soft_break ++ p)
LinesFit-soft_break col p h k = (omega arith, k)

LinesFit-write_quoted_printable :
    (col : ℕ) (s : Bytes)
    → col ≤ 75
    → All (λ c. c < 256) s
    → LinesFit 76 col (write_quoted_printable col s)
unfolding write_quoted_printable
LinesFit-write_quoted_printable col [] l h = omega arith
LinesFit-write_quoted_printable col (c ∷ s) l (b, h) = elim (Bool-cases (c == 10)) [
  | inl t ↦
      rw (write_quoted_printable, t)
        (omega arith, LinesFit-write_quoted_printable 0 s (omega arith) h)
  | inr t ↦ elim (Bool-cases (c == 13)) [
    | inl u ↦ rw (write_quoted_printable, t, u) (LinesFit-write_quoted_printable col s l h)
    | inr u ↦ elim (Bool-cases (ltb 75 (col + length (encoded c)))) [
      | inl v ↦
          rw (write_quoted_printable, t, u, v)
            (LinesFit-soft_break col (encoded c ++ write_quoted_printable (length (encoded c)) s) l
              (LinesFit-encoded 0 c (write_quoted_printable (length (encoded c)) s) b t u (
                subst (λ n. LinesFit 76 n (write_quoted_printable (length (encoded c)) s))
                  (omega arith)
                  (LinesFit-write_quoted_printable (length (encoded c)) s
                    (omega (arith, length-encoded c)) h))))
      | inr v ↦
          rw (write_quoted_printable, t, u, v)
            (LinesFit-encoded col c (write_quoted_printable (col + length (encoded c)) s) b t u
              (LinesFit-write_quoted_printable (col + length (encoded c)) s (ground arith) h))
    ]
  ]
]

-- At the end of the text or before a CRLF.
abbrev pub at_line_end : Bytes → Bool
at_line_end [] = true
at_line_end (c ∷ []) = false
at_line_end (c ∷ d ∷ s) = c == 13 && d == 10

-- RFC 2045: white space at the end of a line was added on the way, and is deleted before decoding.
abbrev pub without_padding : Bytes → Bytes
without_padding [] = []
without_padding (c ∷ s) =
    let rest = without_padding s in
    if (c == b' ' || c == b'\t') && at_line_end rest then rest else c ∷ rest

-- The text ends here, or a line feed follows, perhaps behind carriage returns.
abbrev pub ends_line : Bytes → Bool
ends_line [] = true
ends_line (c ∷ s) =
    let rest = ends_line s in if c == 10 then true else if c == 13 then rest else false

-- No line of the text ends in a space.
abbrev pub IsUnpadded : Bytes → Type 0
IsUnpadded [] = Unit
IsUnpadded (c ∷ s) = (c ≡ b' ' → ends_line s ≡ false) × IsUnpadded s

not_at_line_end : (c : ℕ) (t : Bytes) → (c == 13) ≡ false → at_line_end (c ∷ t) ≡ false
not_at_line_end c [] e = refl
not_at_line_end c (d ∷ t) e = ground arith

at_line_end-encoded :
    (c : ℕ) (rest : Bytes) → (c == 13) ≡ false → at_line_end (encoded c ++ rest) ≡ false
unfolding encoded
at_line_end-encoded c rest e = elim (Bool-cases (c == b'=' || ltb c 32 || ltb 126 c)) [
  | inl t ↦ rw t refl
  | inr t ↦ rw t (not_at_line_end c rest e)
]

-- A line of text that goes on has something written on it.
at_line_end-write_quoted_printable :
    (col : ℕ) (s : Bytes) → ends_line s ≡ false → at_line_end (write_quoted_printable col s) ≡ false
unfolding write_quoted_printable
at_line_end-write_quoted_printable col [] e = absurd (ground arith)
at_line_end-write_quoted_printable col (c ∷ s) e = elim (Bool-cases (c == 10)) [
  | inl t ↦ absurd (ground arith)
  | inr t ↦ elim (Bool-cases (c == 13)) [
    | inl u ↦
        rw (write_quoted_printable, t, u) (at_line_end-write_quoted_printable col s (ground arith))
    | inr u ↦ elim (Bool-cases (ltb 75 (col + length (encoded c)))) [
      | inl v ↦ rw (write_quoted_printable, t, u, v) refl
      | inr v ↦ rw (write_quoted_printable, t, u, v) (at_line_end-encoded c _ u)
    ]
  ]
]

without_padding-hex_digit :
    (n : ℕ) (rest : Bytes)
    → without_padding (hex_digit n ∷ rest) ≡ hex_digit n ∷ without_padding rest
without_padding-hex_digit n rest = ground arith

without_padding-encoded :
    (c : ℕ) (rest : Bytes)
    → (c ≡ b' ' → at_line_end rest ≡ false)
    → without_padding rest ≡ rest
    → without_padding (encoded c ++ rest) ≡ encoded c ++ rest
unfolding encoded
without_padding-encoded c rest h e = elim (Bool-cases (c == b'=' || ltb c 32 || ltb 126 c)) [
  | inl t ↦ rw t (
      ap (λ r. b'=' ∷ r)
        (without_padding-hex_digit (c / 16) (hex_digit (c % 16) ∷ rest)
          ∙ ap (λ r. hex_digit (c / 16) ∷ r)
              (without_padding-hex_digit (c % 16) rest ∙ ap (λ r. hex_digit (c % 16) ∷ r) e)))
  | inr t ↦ rw t (elim (Bool-cases (c == b' ')) [
    | inl u ↦ ground (arith, e, h (ground arith))
    | inr u ↦ ground (arith, e)
  ])
]

-- What is written of such lines, deleting white space at the ends of lines leaves as it is.
without_padding-write_quoted_printable :
    (col : ℕ) (s : Bytes)
    → IsUnpadded s
    → without_padding (write_quoted_printable col s) ≡ write_quoted_printable col s
unfolding write_quoted_printable
without_padding-write_quoted_printable col [] h = refl
without_padding-write_quoted_printable col (c ∷ s) (k, h) = elim (Bool-cases (c == 10)) [
  | inl t ↦
      rw (write_quoted_printable, t)
        (ap (λ r. 13 ∷ 10 ∷ r) (without_padding-write_quoted_printable 0 s h))
  | inr t ↦ elim (Bool-cases (c == 13)) [
    | inl u ↦ rw (write_quoted_printable, t, u) (without_padding-write_quoted_printable col s h)
    | inr u ↦ elim (Bool-cases (ltb 75 (col + length (encoded c)))) [
      | inl v ↦
          rw (write_quoted_printable, t, u, v)
            (ap (λ r. b'=' ∷ 13 ∷ 10 ∷ r)
              (written (length (encoded c)) k
                (without_padding-write_quoted_printable (length (encoded c)) s h)))
      | inr v ↦
          rw (write_quoted_printable, t, u, v)
            (written (col + length (encoded c)) k
              (without_padding-write_quoted_printable (col + length (encoded c)) s h))
    ]
  ]
]
  where
    written :
        (col : ℕ)
        → (c ≡ b' ' → ends_line s ≡ false)
        → without_padding (write_quoted_printable col s) ≡ write_quoted_printable col s
        → without_padding (encoded c ++ write_quoted_printable col s)
          ≡ encoded c ++ write_quoted_printable col s
    written col k ih =
        without_padding-encoded c (write_quoted_printable col s)
          (λ e. at_line_end-write_quoted_printable col s (k e)) ih

-- Of bytes of which no line ends in a space, a decoder of RFC 2045, which first deletes white space
-- at the ends of lines, reads from what `write_quoted_printable` writes the text with CRLF for each
-- line feed and no other carriage return; and no line written is longer than 76 bytes.
pub write_quoted_printable-decoded :
    (s : Bytes)
    → All (λ c. c < 256) s
    → IsUnpadded s
    → (decoded (without_padding (write_quoted_printable 0 s)) ≡ canonical s)
      × LinesFit 76 0 (write_quoted_printable 0 s)
write_quoted_printable-decoded s h u = (
  ap decoded (without_padding-write_quoted_printable 0 s u) ∙ decoded-write_quoted_printable 0 s h,
  LinesFit-write_quoted_printable 0 s (omega arith) h,
)
