-- ===== src/Credential/Excluded.antt =====
-- Which namespaces are excluded: the Go check agrees with the lists that the admission policy is
-- made of.
use sigillum.Common.{
  Bytes, true, ◌≡◌, ◌≢◌, refl, ◌↔◌, ◌⊎◌, inl, inr, List, [], ◌∷◌, ◌++◌, Option, none, some, arith,
  any, Any, has_prefix_iff, bytes_eq_iff,
}
use sigillum.Credential.{
  Exclusions, cut_star, pattern_excludes, excluded, add_pattern, split_patterns,
}

-- The namespace is one of the names, or begins with one of the prefixes.
abbrev pub Covered : Bytes → List Bytes × List Bytes → Type 0
Covered ns (exact, prefixes) =
    Any (λ x. ns ≡ x) exact ⊎ Any (λ p. (rest : Bytes) × (ns ≡ p ++ rest)) prefixes

module _ {T P A B : Type 0} (same : T ↔ P) where
  first_iff : (T ⊎ (A ⊎ B)) ↔ ((P ⊎ A) ⊎ B)
  first_iff = (there, back)
    where
      there : T ⊎ (A ⊎ B) → (P ⊎ A) ⊎ B
      there (inl t) = inl (inl (same.0 t))
      there (inr (inl a)) = inl (inr a)
      there (inr (inr b)) = inr b

      back : (P ⊎ A) ⊎ B → T ⊎ (A ⊎ B)
      back (inl (inl p)) = inl (same.1 p)
      back (inl (inr a)) = inr (inl a)
      back (inr b) = inr (inr b)

  second_iff : (T ⊎ (A ⊎ B)) ↔ (A ⊎ (P ⊎ B))
  second_iff = (there, back)
    where
      there : T ⊎ (A ⊎ B) → A ⊎ (P ⊎ B)
      there (inl t) = inr (inl (same.0 t))
      there (inr (inl a)) = inl a
      there (inr (inr b)) = inr (inr b)

      back : A ⊎ (P ⊎ B) → T ⊎ (A ⊎ B)
      back (inl a) = inr (inl a)
      back (inr (inl p)) = inl (same.1 p)
      back (inr (inr b)) = inr (inr b)

Covered-add_pattern :
    (ns p : Bytes) (o : Option Bytes) (lists : List Bytes × List Bytes)
    → cut_star p ≡ o
    → ((pattern_excludes ns p ≡ true) ⊎ Covered ns lists) ↔ Covered ns (add_pattern p o lists)
unfolding pattern_excludes
Covered-add_pattern ns p none lists e = rw (pattern_excludes, e) (first_iff (bytes_eq_iff ns p))
Covered-add_pattern ns p (some prefix) lists e =
    rw (pattern_excludes, e) (second_iff (has_prefix_iff ns prefix))

any-Covered :
    (ns : Bytes) (ps : List Bytes)
    → (any (pattern_excludes ns) ps ≡ true) ↔ Covered ns (split_patterns ps)
unfolding split_patterns
any-Covered ns [] = (λ e. cc, λ h. ground arith)
any-Covered ns (p ∷ ps) =
    ground
      (arith, any-Covered ns ps, Covered-add_pattern ns p (cut_star p) (split_patterns ps) refl)

-- A namespace is excluded exactly if it is the release namespace, where one is set, or is among the
-- exact names or begins with one of the prefixes that `split_patterns` sorts the patterns into; so
-- the check agrees with the lists that the admission policy is built from.
pub excluded_iff :
    (e : Exclusions) (ns : Bytes)
    → (excluded e ns ≡ true) ↔ (
        ((e.release_namespace ≢ []) × (ns ≡ e.release_namespace))
        ⊎ Covered ns (split_patterns e.patterns))
unfolding excluded
excluded_iff e ns = ground (
  arith,
  any-Covered ns e.patterns,
  bytes_eq_iff e.release_namespace [],
  bytes_eq_iff ns e.release_namespace,
)
