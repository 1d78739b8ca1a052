-- ===== src/Common/Text.antt =====
-- Go strings as lists of bytes: equality, order, search and split, as package strings does them.
use Prim.Native.Nat.{ℕ, suc, ◌+◌}
use Prim.Native.Char.{code}
use Prim.Native.String.{String}
use mathlib.Core.Path.{◌≡◌, refl, ap}
use mathlib.Core.Logic.{◌↔◌, inl, inr}
use mathlib.Core.Bool.{Bool, true, false, ◌&&◌, ◌||◌}
use mathlib.Core.List.{List, [], ◌∷◌, ◌++◌}
use mathlib.Core.Option.{Option, none, some}
use native.Mathlib.Omega.{arith}
use sigillum.Common.Tests.{◌==◌, ltb, if◌then◌else◌, Option-cases}
use sigillum.Common.Lists.{any}

abbrev pub Bytes : Type 0
Bytes = List ℕ

-- The code points of a literal: its bytes, if it is ASCII.
abbrev pub codes : String → Bytes
codes String.[] = []
codes (String.◌∷◌ c s) = code c ∷ codes s

-- `==` on strings.
unfoldable pub bytes_eq : Bytes → Bytes → Bool
bytes_eq [] [] = true
bytes_eq (x ∷ xs) (y ∷ ys) = x == y && bytes_eq xs ys
bytes_eq _ _ = false

pub bytes_eq_iff : (a b : Bytes) → (bytes_eq a b ≡ true) ↔ (a ≡ b)
unfolding bytes_eq
bytes_eq_iff (x ∷ a) (y ∷ b) = ground (arith, bytes_eq_iff a b)
bytes_eq_iff _ _ = ground arith

pub bytes_eq_refl : (a : Bytes) → bytes_eq a a ≡ true
bytes_eq_refl a = (bytes_eq_iff a a).1 refl

-- `<` on strings: bytewise, a proper prefix first.
unfoldable pub bytes_lt : Bytes → Bytes → Bool
bytes_lt a [] = false
bytes_lt [] (y ∷ ys) = true
bytes_lt (x ∷ xs) (y ∷ ys) = ltb x y || x == y && bytes_lt xs ys

pub bytes_lt_asymm : (a b : Bytes) → bytes_lt a b ≡ true → bytes_lt b a ≡ false
unfolding bytes_lt
bytes_lt_asymm a [] h = cc
bytes_lt_asymm [] (y ∷ b) h = refl
bytes_lt_asymm (x ∷ a) (y ∷ b) h = ground (arith, bytes_lt_asymm a b)

pub bytes_lt_neg_trans :
    (a b c : Bytes) → bytes_lt a b ≡ false → bytes_lt b c ≡ false → bytes_lt a c ≡ false
unfolding bytes_lt
bytes_lt_neg_trans a b [] h k = ground arith
bytes_lt_neg_trans [] [] (z ∷ c) h k = cc
bytes_lt_neg_trans [] (y ∷ b) (z ∷ c) h k = cc
bytes_lt_neg_trans (x ∷ a) [] (z ∷ c) h k = cc
bytes_lt_neg_trans (x ∷ a) (y ∷ b) (z ∷ c) h k = ground (arith, bytes_lt_neg_trans a b c)

-- `strings.HasPrefix`.
unfoldable pub has_prefix : Bytes → Bytes → Bool
has_prefix s [] = true
has_prefix [] (p ∷ ps) = false
has_prefix (x ∷ xs) (p ∷ ps) = x == p && has_prefix xs ps

pub has_prefix_iff : (s p : Bytes) → (has_prefix s p ≡ true) ↔ ((rest : Bytes) × (s ≡ p ++ rest))
unfolding has_prefix
has_prefix_iff s [] = (λ _. (s, refl), λ _. refl)
has_prefix_iff [] (p ∷ ps) = (λ e. cc, λ (rest, e). cc)
has_prefix_iff (x ∷ xs) (p ∷ ps) = (
  λ e. let (rest, split) = (has_prefix_iff xs ps).0 (ground arith) in (rest, ground arith),
  λ (rest, split). ground (arith, (has_prefix_iff xs ps).1 (rest, ground arith)),
)

-- `strings.IndexByte(s, c) >= 0`.
abbrev pub contains_byte : Bytes → ℕ → Bool
contains_byte s c = any (λ x. x == c) s

-- How often `c` stands in `s`.
abbrev pub count : ℕ → Bytes → ℕ
count c [] = 0
count c (x ∷ xs) = (if x == c then 1 else 0) + count c xs

pub count-append : (c : ℕ) (xs ys : Bytes) → count c (xs ++ ys) ≡ count c xs + count c ys
count-append c [] ys = omega arith
count-append c (x ∷ xs) ys = ground (arith, count-append c xs ys)

count_head : (c : ℕ) (q : Bytes) → count c (c ∷ q) ≡ suc (count c q)
count_head c q = ground arith

-- The text before and behind the last `c`: what `s[:i]` and `s[i+1:]` are at
-- `i = strings.LastIndexByte(s, c)`, and `none` where that is -1.
unfoldable pub cut_last : ℕ → Bytes → Option (Bytes × Bytes)
cut_last c [] = none
cut_last c (x ∷ xs) = elim (cut_last c xs) [
  | some (a, b) ↦ some (x ∷ a, b)
  | none ↦ if x == c then some ([], xs) else none
]

pub cut_last-none : (c : ℕ) (s : Bytes) → cut_last c s ≡ none → count c s ≡ 0
unfolding cut_last
cut_last-none c [] h = refl
cut_last-none c (x ∷ xs) h = ground (arith, cut_last-none c xs)

pub cut_last-some :
    (c : ℕ) (s : Bytes) {a b : Bytes}
    → cut_last c s ≡ some (a, b)
    → (s ≡ a ++ (c ∷ b)) × (count c b ≡ 0)
unfolding cut_last
cut_last-some c [] h = cc
cut_last-some c (x ∷ xs) h = elim (Option-cases (cut_last c xs)) [
  | inl e ↦ ground (arith, cut_last-none c xs e)
  | inr ((p, q), e) ↦ ground (arith, cut_last-some c xs e)
]

pub cut_last-append :
    (c : ℕ) (a b : Bytes) → count c b ≡ 0 → cut_last c (a ++ (c ∷ b)) ≡ some (a, b)
unfolding cut_last
cut_last-append c [] b h = elim (Option-cases (cut_last c b)) [
  | inl e ↦ ground arith
  | inr ((p, q), e) ↦
      let found = cut_last-some c b e in
      absurd (omega (arith, ap (count c) found.0, count-append c p (c ∷ q), count_head c q))
]
cut_last-append c (x ∷ a) b h = ground (arith, cut_last-append c a b h)
