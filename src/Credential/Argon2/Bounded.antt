-- ===== src/Credential/Argon2/Bounded.antt =====
-- What an accepted argon2id hash can cost, and what it looks like.
use sigillum.Common.{
  Bytes, ℕ, ◌*◌, ◌≤◌, true, not, ◌||◌, ◌≡◌, sym, ap, subst, ◌∙◌, inl, inr, List, [], ◌∷◌, ◌++◌,
  Option, none, some, length, codes, bytes_eq, bytes_eq_iff, arith, Bool-cases, ltb,
}
use sigillum.Policy.Address.{split}
use sigillum.Policy.Address.Sound.{join, join-split}
use sigillum.Credential.Argon2.{
  HashLib, Argon2Params, in_bounds, min_memory_kib, max_memory_kib, min_memory_time_kib, max_time,
  max_threads, min_salt_len, min_key_len, max_key_len, with_key, with_salt, checked, decode_b64,
  parse_params, parse_parts, parse_argon2id, no_params,
}

-- The numbers of a hash that a login can be made to compute.
abbrev pub Affordable : Argon2Params → Type 0
Affordable p =
    (min_memory_kib ≤ p.memory_kib)
    × (p.memory_kib ≤ max_memory_kib)
    × (1 ≤ p.time)
    × (p.time ≤ max_time)
    × (min_memory_time_kib ≤ p.memory_kib * p.time)
    × (1 ≤ p.threads)
    × (p.threads ≤ max_threads)

abbrev pub Sized : Argon2Params → Type 0
Sized p =
    (min_salt_len ≤ length p.salt) × (min_key_len ≤ length p.key) × (length p.key ≤ max_key_len)

within :
    (m t n k : ℕ)
    → not (
        ltb m min_memory_kib
        || ltb max_memory_kib m
        || ltb t 1
        || ltb max_time t
        || ltb n min_memory_time_kib
        || ltb k 1
        || ltb max_threads k)
      ≡ true
    → (min_memory_kib ≤ m)
      × (m ≤ max_memory_kib)
      × (1 ≤ t)
      × (t ≤ max_time)
      × (min_memory_time_kib ≤ n)
      × (1 ≤ k)
      × (k ≤ max_threads)
within m t n k e = ground arith

in_bounds-Affordable : (p : Argon2Params) → in_bounds p ≡ true → Affordable p
unfolding in_bounds
in_bounds-Affordable p e = within p.memory_kib p.time (p.memory_kib * p.time) p.threads e

some-injective : {a b : Argon2Params} → some a ≡ some b → a ≡ b
some-injective e = ground arith

module _ (lib : HashLib) where
  with_key-Sized :
      (p q : Argon2Params) (o : Option Bytes)
      → Affordable p
      → min_salt_len ≤ length p.salt
      → with_key lib p o ≡ some q
      → Affordable q × Sized q
  with_key-Sized p q none a s e = absurd (ground arith)
  with_key-Sized p q (some key) a s e =
      elim (Bool-cases (ltb (length key) min_key_len || ltb max_key_len (length key))) [
        | inl t ↦ absurd (ground arith)
        | inr f ↦
            subst (λ x. Affordable x × Sized x) (keyed (ground arith))
              (a, (s, ground arith, ground arith))
      ]
    where
      keyed : with_key lib p (some key) ≡ some (record p { key = key }) → record p { key = key } ≡ q
      keyed k = some-injective (sym k ∙ e)

  with_salt-Sized :
      (p q : Argon2Params) (o : Option Bytes) (key : Bytes)
      → Affordable p
      → with_salt lib p o key ≡ some q
      → Affordable q × Sized q
  with_salt-Sized p q none key a e = absurd (ground arith)
  with_salt-Sized p q (some salt) key a e = elim (Bool-cases (ltb (length salt) min_salt_len)) [
    | inl t ↦ absurd (ground arith)
    | inr f ↦
        with_key-Sized (record p { salt = salt }) q (decode_b64 lib key) a (ground arith)
          (ground arith)
  ]

  checked-Sized :
      (p : Argon2Params) (salt key : Bytes) (o : Option (List Bytes × Argon2Params))
      → checked lib salt key o ≡ some p
      → Affordable p × Sized p
  checked-Sized p salt key none e = absurd (ground arith)
  checked-Sized p salt key (some (seen, q)) e = elim (Bool-cases (in_bounds q)) [
    | inr f ↦ absurd (ground arith)
    | inl t ↦
        with_salt-Sized q p (decode_b64 lib salt) key (in_bounds-Affordable q t) (ground arith)
  ]

  -- The parts of an accepted hash.
  parse_parts-Sized :
      (parts : List Bytes) (p : Argon2Params)
      → parse_parts lib parts ≡ some p
      → (Affordable p × Sized p)
        × (r : Bytes) × (rest : List Bytes) × (parts
            ≡ [] ∷ codes "argon2id" ∷ codes "v=19" ∷ r ∷ rest)
  unfolding parse_parts
  parse_parts-Sized (z ∷ algorithm ∷ version ∷ params ∷ salt ∷ key ∷ []) p e =
      elim (Bool-cases (bytes_eq z [])) [
        | inr f ↦ absurd (ground arith)
        | inl t ↦ elim (Bool-cases (bytes_eq algorithm (codes "argon2id"))) [
          | inr f ↦ absurd (ground arith)
          | inl u ↦ elim (Bool-cases (bytes_eq version (codes "v=19"))) [
            | inr f ↦ absurd (ground arith)
            | inl v ↦ (
              checked-Sized p salt key (parse_params lib (split b',' params) [] no_params)
                  (ground arith),
              params,
              salt ∷ key ∷ [],
              cc (
                (bytes_eq_iff z []).0 t,
                (bytes_eq_iff algorithm (codes "argon2id")).0 u,
                (bytes_eq_iff version (codes "v=19")).0 v,
              ),
            )
          ]
        ]
      ]
  parse_parts-Sized parts p e = absurd (ground arith)

  -- A hash that `parse_argon2id` accepts begins with `$argon2id$v=19$`, asks for 7 to 64 MiB, 1 to
  -- 10 passes, memory times passes of at least 35 MiB and 1 to 16 threads, and has a salt of at
  -- least 8 and a key of 16 to 64 bytes.
  pub parse_argon2id-Bounded :
      (phc : Bytes) (p : Argon2Params)
      → parse_argon2id lib phc ≡ some p
      → (rest : Bytes) × (phc ≡ codes "$argon2id$v=19$" ++ rest) × Affordable p × Sized p
  unfolding parse_argon2id
  parse_argon2id-Bounded phc p e =
      let ((a, z), r, rest, q) = parse_parts-Sized (split b'$' phc) p e in
      (join b'$' (r ∷ rest), join-split b'$' phc ∙ ap (join b'$') q, a, z)
