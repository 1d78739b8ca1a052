-- ===== src/Common/Lists.antt =====
-- Lists measured by native numbers, and the Boolean quantifiers that Go's range loops compute.
use Prim.Native.Nat.{ℕ, zero, suc, ◌+◌}
use mathlib.Core.Path.{◌≡◌, refl}
use mathlib.Core.Logic.{◌↔◌, ◌⊎◌}
use mathlib.Core.Bool.{Bool, true, false, ◌&&◌, ◌||◌}
use mathlib.Core.List.{List, [], ◌∷◌, ◌++◌}
use mathlib.Core.Option.{Option, none, some}
use native.Mathlib.Omega.{arith}

module _ {ℓ} {A : Type ℓ} where
  abbrev pub length : List A → ℕ
  length [] = 0
  length (x ∷ xs) = suc (length xs)

  abbrev pub get_elem? : List A → ℕ → Option A
  get_elem? [] i = none
  get_elem? (x ∷ xs) zero = some x
  get_elem? (x ∷ xs) (suc i) = get_elem? xs i

  abbrev pub take : ℕ → List A → List A
  take zero xs = []
  take (suc n) [] = []
  take (suc n) (x ∷ xs) = x ∷ take n xs

  abbrev pub drop : ℕ → List A → List A
  drop zero xs = xs
  drop (suc n) [] = []
  drop (suc n) (x ∷ xs) = drop n xs

  pub length-append : (xs ys : List A) → length (xs ++ ys) ≡ length xs + length ys
  length-append [] ys = omega arith
  length-append (x ∷ xs) ys = omega (arith, length-append xs ys)

  -- A loop that returns true at the first element that passes the test.
  abbrev pub any : (A → Bool) → List A → Bool
  any test [] = false
  any test (x ∷ xs) = test x || any test xs

  abbrev pub all : (A → Bool) → List A → Bool
  all test [] = true
  all test (x ∷ xs) = test x && all test xs

  pub any-append :
      (test : A → Bool) (xs ys : List A) → any test (xs ++ ys) ≡ (any test xs || any test ys)
  any-append test [] ys = refl
  any-append test (x ∷ xs) ys = ground (arith, any-append test xs ys)

-- Every element satisfies `P`.
module _ {ℓ κ} {A : Type ℓ} where
  abbrev pub All : (A → Type κ) → List A → Type κ
  All P [] = Unit
  All P (x ∷ xs) = P x × All P xs

-- Some element satisfies `P`: the first that does, or one behind it.
module _ {ℓ} {A : Type ℓ} where
  abbrev pub Any : (A → Type 0) → List A → Type 0
  Any P [] = ⊥
  Any P (x ∷ xs) = P x ⊎ Any P xs

  pub all_iff : (test : A → Bool) (xs : List A) → (all test xs ≡ true) ↔ All (λ x. test x ≡ true) xs
  all_iff test [] = (λ _. tt, λ _. refl)
  all_iff test (x ∷ xs) = ground (arith, all_iff test xs)

  pub any_iff : (test : A → Bool) (xs : List A) → (any test xs ≡ true) ↔ Any (λ x. test x ≡ true) xs
  any_iff test [] = (λ e. cc, λ h. absurd h)
  any_iff test (x ∷ xs) = ground (arith, any_iff test xs)

  pub all_of_All :
      (P : A → Type 0) (test : A → Bool) (xs : List A)
      → ((x : A) → (test x ≡ true) ↔ P x)
      → (all test xs ≡ true) ↔ All P xs
  all_of_All P test [] h = (λ _. tt, λ _. refl)
  all_of_All P test (x ∷ xs) h = ground (arith, h x, all_of_All P test xs h)

  pub any_of_Any :
      (P : A → Type 0) (test : A → Bool) (xs : List A)
      → ((x : A) → (test x ≡ true) ↔ P x)
      → (any test xs ≡ true) ↔ Any P xs
  any_of_Any P test [] h = (λ e. cc, λ k. absurd k)
  any_of_Any P test (x ∷ xs) h = ground (arith, h x, any_of_Any P test xs h)

abbrev pub join {ℓ} : {A : Type ℓ} → List (List A) → List A
join [] = []
join (l ∷ ls) = l ++ join ls
