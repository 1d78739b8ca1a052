-- ===== src/Mime/Wrapping.antt =====
-- What the wrapping guarantees in one write, and what it does not across writes.
use sigillum.Common.{
  join, Bytes, ℕ, suc, ◌+◌, ◌≤◌, false, ◌≡◌, refl, ap, ◌∙◌, inl, inr, List, [], ◌∷◌, arith, leb,
  ◌==◌, if◌then◌else◌, length, All, Bool-cases,
}
use sigillum.Mime.{write_from, write_all}

-- The text without its carriage returns and line feeds.
abbrev pub unwrapped : Bytes → Bytes
unwrapped [] = []
unwrapped (c ∷ p) =
    let rest = unwrapped p in if c == 13 then rest else if c == 10 then rest else c ∷ rest

-- No line, the first one having `col` bytes before the text, is longer than `every`.
abbrev pub LinesFit : ℕ → ℕ → Bytes → Type 0
LinesFit every col [] = col ≤ every
LinesFit every col (c ∷ p) =
    if c == 10
    then (col ≤ every) × LinesFit every 0 p
    else if c == 13
    then LinesFit every col p
    else LinesFit every (suc col) p

-- A byte of base64 text ends no line.
abbrev pub IsInline : ℕ → Type 0
IsInline c = ((c == 13) ≡ false) × ((c == 10) ≡ false)

unwrapped-inline : (c : ℕ) (p : Bytes) → IsInline c → unwrapped (c ∷ p) ≡ c ∷ unwrapped p
unwrapped-inline c p (a, b) = rw (a, b) refl

unwrapped-write_from :
    (every col : ℕ) (p : Bytes) → All IsInline p → unwrapped (write_from every col p) ≡ p
unfolding write_from
unwrapped-write_from every col [] a = refl
unwrapped-write_from every col (c ∷ p) (i, a) = elim (Bool-cases (leb every col)) [
  | inl e ↦
      rw (write_from, e)
        (unwrapped-inline c (write_from every 1 p) i
          ∙ ap (λ t. c ∷ t) (unwrapped-write_from every 1 p a))
  | inr e ↦
      rw (write_from, e)
        (unwrapped-inline c (write_from every (suc col) p) i
          ∙ ap (λ t. c ∷ t) (unwrapped-write_from every (suc col) p a))
]

LinesFit-write_from :
    (every col : ℕ) (p : Bytes)
    → 1 ≤ every
    → col ≤ every
    → All IsInline p
    → LinesFit every col (write_from every col p)
unfolding write_from
LinesFit-write_from every col [] n l a = l
LinesFit-write_from every col (c ∷ p) n l ((i, j), a) = elim (Bool-cases (leb every col)) [
  | inl e ↦ rw (write_from, e, i, j) (l, LinesFit-write_from every 1 p n n a)
  | inr e ↦ rw (write_from, e, i, j) (LinesFit-write_from every (suc col) p n (ground arith) a)
]

write_from-short : (every col : ℕ) (p : Bytes) → col + length p ≤ every → write_from every col p ≡ p
unfolding write_from
write_from-short every col [] l = refl
write_from-short every col (c ∷ p) l = ground (arith, write_from-short every (suc col) p)

-- Successive writes of at most the width each come out without any line break, however long the line
-- gets: the column is not kept from one write to the next.
pub write_all-unbroken :
    (every : ℕ) (ps : List Bytes) → All (λ p. length p ≤ every) ps → write_all every ps ≡ join ps
unfolding write_all
write_all-unbroken every [] a = refl
write_all-unbroken every (p ∷ ps) a =
    rw (write_from-short every 0 p (omega (arith, a.0)), write_all-unbroken every ps a.1) refl
