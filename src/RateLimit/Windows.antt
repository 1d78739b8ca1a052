-- ===== src/RateLimit/Windows.antt =====
-- Counting the hits of a window, and what the loop over the windows computes.
use Prim.Native.Nat.{max}
use sigillum.Common.{
  ℤ, pos_part, ℕ, zero, suc, ◌+◌, ◌-◌, ◌≤◌, ◌<◌, true, ◌≡◌, refl, ◌⊎◌, inl, inr, ◌↔◌, List, [], ◌∷◌,
  ◌++◌, arith, ltb, if◌then◌else◌, length, drop, take, All, Bool-cases,
}
use sigillum.RateLimit.{Window, is_capped, since, get_or, wait_for, wait}

-- How many of the hits are younger than `size` at `now`, in whatever order they stand.
abbrev pub recent : ℕ → ℕ → List ℕ → ℕ
recent now size [] = 0
recent now size (t ∷ ts) = (if ltb now (t + size) then 1 else 0) + recent now size ts

abbrev pub IsSorted : List ℕ → Type 0
IsSorted [] = Unit
IsSorted (t ∷ ts) = All (λ u. t ≤ u) ts × IsSorted ts

pub recent-append :
    (now size : ℕ) (xs ys : List ℕ)
    → recent now size (xs ++ ys) ≡ recent now size xs + recent now size ys
recent-append now size [] ys = omega arith
recent-append now size (x ∷ xs) ys = ground (arith, recent-append now size xs ys)

-- Hits that are no younger than `size` do not count.
abbrev pub AllOld : ℕ → ℕ → List ℕ → Type 0
AllOld now size = All (λ t. t + size ≤ now)

pub recent-AllOld :
    (now size s : ℕ) (ts : List ℕ) → AllOld now size ts → s ≤ size → recent now s ts ≡ 0
recent-AllOld now size s [] h l = refl
recent-AllOld now size s (t ∷ ts) h l = ground (arith, recent-AllOld now size s ts h.1 l)

pub recent-All :
    (now size t : ℕ) (ts : List ℕ)
    → now < t + size
    → All (λ u. t ≤ u) ts
    → recent now size ts ≡ length ts
recent-All now size t [] n h = refl
recent-All now size t (u ∷ ts) n h = ground (arith, recent-All now size t ts n h.1)

-- Of a sorted history the hits of a window are those from `since` on.
pub since-recent :
    (now size : ℕ) (ts : List ℕ) → IsSorted ts → since now size ts + recent now size ts ≡ length ts
unfolding since
since-recent now size [] h = refl
since-recent now size (t ∷ ts) h = elim (Bool-cases (ltb now (t + size))) [
  | inl e ↦ ground (arith, recent-All now size t ts (ground arith) h.0)
  | inr e ↦ ground (arith, since-recent now size ts h.1)
]

All-get_or : (P : ℕ → Type 0) (ts : List ℕ) (i : ℕ) → All P ts → i < length ts → P (get_or ts i 0)
All-get_or P [] i h l = absurd (omega arith)
All-get_or P (t ∷ ts) zero h l = h.0
All-get_or P (t ∷ ts) (suc i) h l = All-get_or P ts i h.1 (omega arith)

pub recent-le-length : (now size : ℕ) (ts : List ℕ) → recent now size ts ≤ length ts
recent-le-length now size [] = omega arith
recent-le-length now size (t ∷ ts) = ground (arith, recent-le-length now size ts)

-- Time only takes hits out of a window.
pub recent_mono :
    (now later size : ℕ) (ts : List ℕ) → now ≤ later → recent later size ts ≤ recent now size ts
recent_mono now later size [] h = omega arith
recent_mono now later size (t ∷ ts) h = ground (arith, recent_mono now later size ts h)

-- Trimming takes out only hits that no longer count.
module _ {ℓ} (P : ℕ → Type ℓ) where
  pub All-drop : (n : ℕ) (ts : List ℕ) → All P ts → All P (drop n ts)
  All-drop zero ts h = h
  All-drop (suc n) [] h = h
  All-drop (suc n) (t ∷ ts) h = All-drop n ts h.1

  pub All-append : (xs ys : List ℕ) → All P xs → All P ys → All P (xs ++ ys)
  All-append [] ys h k = k
  All-append (x ∷ xs) ys h k = (h.0, All-append xs ys h.1 k)

pub IsSorted-drop : (n : ℕ) (ts : List ℕ) → IsSorted ts → IsSorted (drop n ts)
IsSorted-drop zero ts h = h
IsSorted-drop (suc n) [] h = h
IsSorted-drop (suc n) (t ∷ ts) h = IsSorted-drop n ts h.1

pub recent-drop-le :
    (now size n : ℕ) (ts : List ℕ) → recent now size (drop n ts) ≤ recent now size ts
recent-drop-le now size zero ts = omega arith
recent-drop-le now size (suc n) [] = omega arith
recent-drop-le now size (suc n) (t ∷ ts) = ground (arith, recent-drop-le now size n ts)

pub recent-drop-since :
    (now size s : ℕ) (ts : List ℕ)
    → s ≤ size
    → recent now s (drop (since now size ts) ts) ≡ recent now s ts
unfolding since
recent-drop-since now size s [] h = refl
recent-drop-since now size s (t ∷ ts) h = elim (Bool-cases (ltb now (t + size))) [
  | inl e ↦ rw e
  | inr e ↦ rw e (ground (arith, recent-drop-since now size s ts h))
]

pub take-since-AllOld :
    (now size s : ℕ) (ts : List ℕ) → s ≤ size → AllOld now s (take (since now size ts) ts)
unfolding since
take-since-AllOld now size s [] h = tt
take-since-AllOld now size s (t ∷ ts) h = elim (Bool-cases (ltb now (t + size))) [
  | inl e ↦ rw e tt
  | inr e ↦ rw e (ground arith, take-since-AllOld now size s ts h)
]

-- The hits before index `i` are no younger than the one at `i`.
pub recent-bound :
    (now size i : ℕ) (ts : List ℕ)
    → IsSorted ts
    → i < length ts
    → get_or ts i 0 + size ≤ now
    → recent now size ts + suc i ≤ length ts
recent-bound now size i [] h l o = absurd (omega arith)
recent-bound now size zero (t ∷ ts) h l o = ground (arith, recent-le-length now size ts)
recent-bound now size (suc i) (t ∷ ts) h l o = ground (
  arith,
  recent-bound now size i ts h.1 (omega arith) o,
  All-get_or (λ u. t ≤ u) ts i h.0 (omega arith),
)

-- A hit behind `since` is in the window.
pub get_or-since :
    (now size i : ℕ) (ts : List ℕ)
    → IsSorted ts
    → since now size ts ≤ i
    → i < length ts
    → now < get_or ts i 0 + size
unfolding since
get_or-since now size i [] h f l = absurd (omega arith)
get_or-since now size zero (t ∷ ts) h f l = ground arith
get_or-since now size (suc i) (t ∷ ts) h f l =
    ground (arith, All-get_or (λ u. t ≤ u) ts i h.0 (omega arith), get_or-since now size i ts h.1)

pub is_capped-pos : (l : ℤ) → is_capped l ≡ true → 0 < pos_part l
is_capped-pos l h = ground arith

-- The window has room for one more hit.
abbrev pub HasRoom : ℕ → List ℕ → Window → Type 0
HasRoom now ts w = (is_capped w.limit ≡ true) → recent now w.size ts < pos_part w.limit

-- The window is full: the rest of `wait_for` then reads the history in range.
abbrev pub IsFull : ℕ → List ℕ → Window → Type 0
IsFull now ts w = (is_capped w.limit ≡ true) × (pos_part w.limit ≤ recent now w.size ts)

pub room_or_IsFull : (now : ℕ) (ts : List ℕ) (w : Window) → HasRoom now ts w ⊎ IsFull now ts w
room_or_IsFull now ts w = elim (Bool-cases (is_capped w.limit)) [
  | inl c ↦ elim (Bool-cases (ltb (recent now w.size ts) (pos_part w.limit))) [
    | inl r ↦ inl (λ _. ground arith)
    | inr f ↦ inr (c, ground arith)
  ]
  | inr u ↦ inl (λ c. absurd (cc))
]

module _ (now : ℕ) (ts : List ℕ) (sorted : IsSorted ts) where
  wait_for-room : (r : ℕ) (w : Window) → HasRoom now ts w → wait_for now ts r w ≡ r
  unfolding wait_for
  wait_for-room r w h = ground (arith, since-recent now w.size ts sorted)

  -- The hit whose age frees the window.
  abbrev oldest : Window → ℕ
  oldest w = get_or ts (length ts - pos_part w.limit) 0

  oldest_in_range : (w : Window) → IsFull now ts w → length ts - pos_part w.limit < length ts
  oldest_in_range w f = omega (arith, is_capped-pos w.limit f.0, recent-le-length now w.size ts)

  wait_for-full :
      (r : ℕ) (w : Window)
      → IsFull now ts w
      → (wait_for now ts r w ≡ max r (oldest w + w.size - now)) × (now < oldest w + w.size)
  unfolding wait_for
  wait_for-full r w f =
      let counted = since-recent now w.size ts sorted in
      (
        ground (arith, counted),
        get_or-since now w.size (length ts - pos_part w.limit) ts sorted (omega arith)
            (oldest_in_range w f),
      )

  wait_for-le : (r : ℕ) (w : Window) → r ≤ wait_for now ts r w
  wait_for-le r w = elim (room_or_IsFull now ts w) [
    | inl h ↦ omega (arith, wait_for-room r w h)
    | inr f ↦ omega (arith, (wait_for-full r w f).0)
  ]

  wait-le : (r : ℕ) (ws : List Window) → r ≤ wait now ts r ws
  unfolding wait
  wait-le r [] = omega arith
  wait-le r (w ∷ ws) = omega (arith, wait_for-le r w, wait-le (wait_for now ts r w) ws)

  -- No wait exactly if every window has room.
  pub wait-zero_iff : (ws : List Window) → (wait now ts 0 ws ≡ 0) ↔ All (HasRoom now ts) ws
  unfolding wait
  wait-zero_iff [] = (λ _. tt, λ _. refl)
  wait-zero_iff (w ∷ ws) = elim (room_or_IsFull now ts w) [
    | inl h ↦
        rw (wait_for-room 0 w h) (λ e. (h, (wait-zero_iff ws).0 e), λ a. (wait-zero_iff ws).1 a.1)
    | inr f ↦ (
      λ e. absurd (omega (arith, wait_for-full 0 w f, wait-le (wait_for now ts 0 w) ws)),
      λ a. absurd (omega (arith, a.0 f.0, f.1)),
    )
  ]

  -- Once the wait is over every window has room.
  pub wait-room :
      (later r : ℕ) (ws : List Window) → now + wait now ts r ws ≤ later → All (HasRoom later ts) ws
  unfolding wait
  wait-room later r [] h = tt
  wait-room later r (w ∷ ws) h = (
    λ c. elim (room_or_IsFull now ts w) [
      | inl room ↦ omega (arith, room c, recent_mono now later w.size ts (omega arith))
      | inr f ↦ omega (
        arith,
        wait_for-full r w f,
        wait-le (wait_for now ts r w) ws,
        is_capped-pos w.limit c,
        recent-le-length now w.size ts,
        recent-bound later w.size (length ts - pos_part w.limit) ts sorted (oldest_in_range w f)
            (omega (arith, wait_for-full r w f, wait-le (wait_for now ts r w) ws)),
      )
    ],
    wait-room later (wait_for now ts r w) ws h,
  )
