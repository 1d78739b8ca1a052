-- ===== src/Mime/Folding/Chunks.antt =====
-- The loops of `forceEncodedWords`.
use sigillum.Common.{
  Bytes, ℕ, suc, ◌+◌, ◌≤◌, ◌<◌, ◌&&◌, ◌≡◌, refl, ap, ◌∙◌, inl, inr, List, [], ◌∷◌, ◌++◌, Option,
  some, length, take, drop, join, All, arith, ltb, Bool-cases,
}
use sigillum.Mime.Folding.{max_chunk, chunk_size, chunks}

-- What `utf8.DecodeRuneInString` documents of the size that it returns: for a text that is not empty
-- it is at least 1 and at most 4, and not beyond the text.
abbrev pub IsRuneSize : (Bytes → ℕ) → Type 0
IsRuneSize rune_size =
    (c : ℕ) (s : Bytes)
    → (1 ≤ rune_size (c ∷ s)) × (rune_size (c ∷ s) ≤ 4) × (rune_size (c ∷ s) ≤ suc (length s))

take-drop : (n : ℕ) (s : Bytes) → take n s ++ drop n s ≡ s
take-drop ℕ.zero s = refl
take-drop (suc n) [] = refl
take-drop (suc n) (c ∷ s) = ap (λ t. c ∷ t) (take-drop n s)

length-take : (n : ℕ) (s : Bytes) → n ≤ length s → length (take n s) ≡ n
length-take ℕ.zero s h = refl
length-take (suc n) [] h = absurd (omega arith)
length-take (suc n) (c ∷ s) h = omega (arith, length-take n s (omega arith))

length-drop : (n : ℕ) (s : Bytes) → n ≤ length s → length (drop n s) + n ≡ length s
length-drop ℕ.zero s h = omega arith
length-drop (suc n) [] h = absurd (omega arith)
length-drop (suc n) (c ∷ s) h = omega (arith, length-drop n s (omega arith))

module _ (rune_size : Bytes → ℕ) (sizes : IsRuneSize rune_size) where
  rune_bounds :
      (s : Bytes) → 0 < length s → (1 ≤ rune_size s) × (rune_size s ≤ 4) × (rune_size s ≤ length s)
  rune_bounds [] h = absurd (omega arith)
  rune_bounds (c ∷ s) h = sizes c s

  -- The size that the inner loop finds.
  Sized : ℕ → Bytes → Option ℕ → Type 0
  Sized n s out =
      (m : ℕ) × (out ≡ some m) × (m ≤ length s) × (m ≤ max_chunk) × (n ≤ m) × (0 < length s → 0 < m)

  chunk_size-Sized :
      (fuel n : ℕ) (s : Bytes)
      → n ≤ length s
      → n ≤ max_chunk
      → length s < n + fuel
      → Sized n s (chunk_size rune_size fuel n s)
  unfolding chunk_size Sized
  chunk_size-Sized ℕ.zero n s l k h = absurd (omega arith)
  chunk_size-Sized (suc fuel) n s l k h =
      let size = rune_size (drop n s) in
      elim (Bool-cases (ltb n (length s))) [
        | inr t ↦ (n, rw (chunk_size, t) refl, l, k, omega arith, λ p. ground arith)
        | inl t ↦
            let left = length-drop n s l in
            let (one, four, all) = rune_bounds (drop n s) (ground arith) in
            elim (Bool-cases (ltb max_chunk (n + size) && ltb 0 n)) [
              | inl u ↦ (n, rw (chunk_size, t, u) refl, l, k, omega arith, λ p. ground arith)
              | inr u ↦
                  let (m, e, a, b, c, d) =
                    chunk_size-Sized fuel (n + size) s (omega arith) (ground arith) (omega arith) in
                  (m, rw (chunk_size, t, u) e, a, b, omega arith, d)
            ]
      ]

  chunks-some :
      (fuel : ℕ) (s : Bytes)
      → length s ≤ fuel
      → (cs : List Bytes) × (chunks rune_size fuel s ≡ some cs)
        × (join cs ≡ s)
        × All (λ c. (0 < length c) × (length c ≤ max_chunk)) cs
  unfolding chunks Sized
  chunks-some fuel [] h = ([], ground arith, refl, tt)
  chunks-some ℕ.zero (c ∷ s) h = absurd (omega arith)
  chunks-some (suc fuel) (c ∷ s) h =
      let t = c ∷ s in
      let (n, e, a, b, z, p) =
        chunk_size-Sized (suc (length t)) 0 t (omega arith) (omega arith) (omega arith) in
      let taken = length-take n t a in
      let left = length-drop n t a in
      let (cs, e', joined, short) = chunks-some fuel (drop n t) (omega (arith, p (omega arith))) in
      (
        take n t ∷ cs,
        rw (chunks, e, e') refl,
        ap (λ r. take n t ++ r) joined ∙ take-drop n t,
        ((omega (arith, p (omega arith)), omega arith), short),
      )

  -- If the size of a rune is between 1 and 4 and within the text, then both loops of
  -- `force_encoded_words` end with fuel of the text's length, and the chunks that they find make up
  -- the text, each of 1 to 45 bytes.
  pub chunks_total :
      (s : Bytes)
      → (cs : List Bytes) × (chunks rune_size (length s) s ≡ some cs)
        × (join cs ≡ s)
        × All (λ c. (0 < length c) × (length c ≤ max_chunk)) cs
  chunks_total s = chunks-some (length s) s (omega arith)
