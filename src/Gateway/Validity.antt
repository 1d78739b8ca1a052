-- ===== src/Gateway/Validity.antt =====
-- internal/gateway/validity.go: the cache of validation results. Each of the two critical sections
-- is a function of its own; between them other calls may run.
use sigillum.Common.{
  Bytes, ℕ, suc, ◌≤◌, ◌||◌, ◌≡◌, refl, inl, inr, List, [], ◌∷◌, Option, none, some, arith, ltb,
  ◌==◌, if◌then◌else◌, length, All, bytes_eq, bytes_eq_iff, Bool-cases, Option-cases, subst, sym,
}

pub record Validity : Type 0 where
  pub generation : ℕ
  pub err : Option Bytes

-- The map, one entry for each UID.
abbrev pub Cache : Type 0
Cache = List (Bytes × Validity)

abbrev pub max_validity_entries : ℕ
max_validity_entries = 4096

abbrev pub lookup : Bytes → Cache → Option Validity
lookup uid [] = none
lookup uid ((u, v) ∷ m) = if bytes_eq u uid then some v else lookup uid m

-- `c.m[uid] = v`.
abbrev pub put : Bytes → Validity → Cache → Cache
put uid v [] = (uid, v) ∷ []
put uid v ((u, w) ∷ m) =
    let rest = put uid v m in if bytes_eq u uid then (u, v) ∷ m else (u, w) ∷ rest

-- The first critical section: the result of a hit.
unfoldable pub cached : Bytes → ℕ → Cache → Option (Option Bytes)
cached uid gen m = elim (lookup uid m) [
  | none ↦ none
  | some v ↦ if v.generation == gen then some v.err else none
]

-- The second one.
unfoldable pub remember : Bytes → ℕ → Option Bytes → Cache → Cache
remember uid gen e m =
    put uid (record { generation = gen; err = e })
      (if ltb (length m) max_validity_entries then m else [])

-- `validate` is the value of the call, which is made where the cache has no answer.
unfoldable pub check : Bytes → ℕ → Option Bytes → Cache → Cache × Option Bytes
check uid gen validate m =
    if bytes_eq uid [] || gen == 0 then (m, validate) else elim (cached uid gen m) [
      | some e ↦ (m, e)
      | none ↦ (remember uid gen validate m, validate)
    ]

-- Every entry holds what the rules say of that UID at that generation.
abbrev pub IsFaithful : (Bytes → ℕ → Option Bytes) → Cache → Type 0
IsFaithful rules = All (λ e. e.1.err ≡ rules e.0 e.1.generation)

module _ (rules : Bytes → ℕ → Option Bytes) where
  lookup-IsFaithful :
      (uid : Bytes) (m : Cache) {v : Validity}
      → IsFaithful rules m
      → lookup uid m ≡ some v
      → v.err ≡ rules uid v.generation
  lookup-IsFaithful uid [] f h = cc
  lookup-IsFaithful uid ((u, w) ∷ m) f h = elim (Bool-cases (bytes_eq u uid)) [
    | inl e ↦ let same = (bytes_eq_iff u uid).0 e in ground (arith, f.0)
    | inr e ↦ lookup-IsFaithful uid m f.1 (ground arith)
  ]

  pub put-IsFaithful :
      (uid : Bytes) (v : Validity) (m : Cache)
      → v.err ≡ rules uid v.generation
      → IsFaithful rules m
      → IsFaithful rules (put uid v m)
  put-IsFaithful uid v [] e f = (e, tt)
  put-IsFaithful uid v ((u, w) ∷ m) e f = elim (Bool-cases (bytes_eq u uid)) [
    | inl t ↦
        rw t (subst (λ x. v.err ≡ rules x v.generation) (sym ((bytes_eq_iff u uid).0 t)) e, f.1)
    | inr t ↦ rw t (f.0, put-IsFaithful uid v m e f.1)
  ]

  pub cached-IsFaithful :
      (uid : Bytes) (gen : ℕ) (m : Cache) {e : Option Bytes}
      → IsFaithful rules m
      → cached uid gen m ≡ some e
      → e ≡ rules uid gen
  unfolding cached
  cached-IsFaithful uid gen m f h = elim (Option-cases (lookup uid m)) [
    | inl t ↦ absurd (ground arith)
    | inr (v, t) ↦ let right = lookup-IsFaithful uid m f t in ground arith
  ]

  pub remember-IsFaithful :
      (uid : Bytes) (gen : ℕ) (m : Cache)
      → IsFaithful rules m
      → IsFaithful rules (remember uid gen (rules uid gen) m)
  unfolding remember
  remember-IsFaithful uid gen m f = elim (Bool-cases (ltb (length m) max_validity_entries)) [
    | inl e ↦ rw e (put-IsFaithful uid _ m refl f)
    | inr e ↦ rw e (refl, tt)
  ]

  -- If every cached result is what the rules say of its UID and generation, then `check` returns
  -- what the rules say, as if it had validated, and the cache keeps that property.
  pub check-IsFaithful :
      (uid : Bytes) (gen : ℕ) (m : Cache)
      → IsFaithful rules m
      → ((check uid gen (rules uid gen) m).1 ≡ rules uid gen)
        × IsFaithful rules (check uid gen (rules uid gen) m).0
  unfolding check
  check-IsFaithful uid gen m f = elim (Bool-cases (bytes_eq uid [] || gen == 0)) [
    | inl e ↦ rw e (refl, f)
    | inr e ↦ rw e (elim (Option-cases (cached uid gen m)) [
      | inl t ↦ rw t (refl, remember-IsFaithful uid gen m f)
      | inr (x, t) ↦ rw t (cached-IsFaithful uid gen m f t, f)
    ])
  ]

length-put : (uid : Bytes) (v : Validity) (m : Cache) → length (put uid v m) ≤ suc (length m)
length-put uid v [] = omega arith
length-put uid v ((u, w) ∷ m) = ground (arith, length-put uid v m)

length-remember :
    (uid : Bytes) (gen : ℕ) (e : Option Bytes) (m : Cache)
    → length (remember uid gen e m) ≤ max_validity_entries
unfolding remember
length-remember uid gen e m =
    ground (arith, length-put uid (record { generation = gen; err = e }) m)
