-- ===== src/RateLimit/Room.antt =====
-- What `allow` decides, and what a rejected caller may rely on.
use sigillum.Common.{
  Bytes, ℕ, ◌+◌, ◌-◌, ◌%◌, ◌≤◌, ◌<◌, true, false, ◌≡◌, refl, ap, ◌⊎◌, inl, inr, ◌↔◌, List, [], ◌∷◌,
  ◌++◌, Option, none, some, arith, ltb, All, Bool-cases, bytes_eq_refl,
}
use sigillum.RateLimit.{
  second, Window, Limits, Limiter, History, windows, is_capped, uncapped, keep, retain, later,
  swept_entry, sweep, ceil_to_second, wait, live, trimmed, store, allow, entry,
}
use sigillum.RateLimit.Windows.{
  recent, IsSorted, HasRoom, wait-zero_iff, wait-room, IsSorted-drop, recent-drop-since,
}

-- Every window that is capped lies within what `keep` and `retain` hold on to.
pub windows-keep : (l : Limits) → All (λ w. is_capped w.limit ≡ true → w.size ≤ keep l) (windows l)
unfolding keep
windows-keep l = (λ c. ground arith, (λ c. ground arith, (λ c. ground arith, tt)))

pub keep-le-retain : (l : Limits) (left : ℕ) → keep l ≤ retain l left
unfolding keep retain
keep-le-retain l left = ground arith

-- Sweeping cannot be seen: what it deletes is read as missing anyway.
pub live-swept_entry : (now : ℕ) (o : Option History) → live now (swept_entry now o) ≡ live now o
unfolding live swept_entry
live-swept_entry now none = refl
live-swept_entry now (some h) = ground arith

pub live-sweep :
    (now : ℕ) (l : Limiter) (key : Bytes)
    → live now ((sweep now l).hits key) ≡ live now (l.hits key)
unfolding sweep
live-sweep now l key = ground (arith, live-swept_entry now (l.hits key))

-- The history that `allow` counts: live, and trimmed to what may still count.
abbrev pub counted : ℕ → Bytes → Limits → Limiter → List ℕ
counted now key limits l = trimmed now limits (live now (l.hits key))

-- The outcome, in terms of the history before the sweep.
pub allow_lem :
    (now : ℕ) (key : Bytes) (limits : Limits) (l : Limiter)
    → uncapped limits ≡ false
    → (wait now (counted now key limits l) 0 (windows limits) ≡ 0)
        × (allow now key limits l ≡ (
          store key
              (record {
                hits = counted now key limits l ++ now ∷ [];
                expires = later (live now (l.hits key)).expires (now + keep limits);
              })
              (sweep now l),
          record { allowed = true; retry_after = 0 },
        ))
      ⊎ (0 < wait now (counted now key limits l) 0 (windows limits))
        × (allow now key limits l ≡ (
          store key
              (record {
                hits = counted now key limits l;
                expires = (live now (l.hits key)).expires;
              })
              (sweep now l),
          record {
            allowed = false;
            retry_after = ceil_to_second (wait now (counted now key limits l) 0 (windows limits));
          },
        ))
unfolding allow
allow_lem now key limits l u =
    elim (Bool-cases (ltb 0 (wait now (counted now key limits l) 0 (windows limits)))) [
      | inl e ↦ inr (ground arith, rw (u, live-sweep now l key, e))
      | inr e ↦ inl (ground arith, rw (u, live-sweep now l key, e))
    ]

live-IsSorted :
    (now : ℕ) (o : Option History) → IsSorted (entry o).hits → IsSorted (live now o).hits
unfolding live
live-IsSorted now none h = tt
live-IsSorted now (some x) h = ground arith

counted-IsSorted :
    (now : ℕ) (key : Bytes) (limits : Limits) (l : Limiter)
    → IsSorted (entry (l.hits key)).hits
    → IsSorted (counted now key limits l)
unfolding trimmed
counted-IsSorted now key limits l h =
    IsSorted-drop _ (live now (l.hits key)).hits (live-IsSorted now (l.hits key) h)

-- A history with no more hits in any window that counts has room where the other has.
pub All-HasRoom :
    (now after : ℕ) (xs ys : List ℕ) (k : ℕ) (ws : List Window)
    → All (λ w. is_capped w.limit ≡ true → w.size ≤ k) ws
    → ((s : ℕ) → s ≤ k → recent after s ys ≤ recent now s xs)
    → All (HasRoom now xs) ws
    → All (HasRoom after ys) ws
All-HasRoom now after xs ys k [] small fewer h = tt
All-HasRoom now after xs ys k (w ∷ ws) small fewer h = (
  λ c. omega (arith, fewer w.size (small.0 c), h.0 c),
  All-HasRoom now after xs ys k ws small.1 fewer h.1,
)

pub recent-counted :
    (now : ℕ) (key : Bytes) (limits : Limits) (l : Limiter) (s : ℕ)
    → s ≤ keep limits
    → recent now s (counted now key limits l) ≡ recent now s (live now (l.hits key)).hits
unfolding trimmed
recent-counted now key limits l s h =
    let left = (live now (l.hits key)).expires - now in
    recent-drop-since now (retain limits left) s (live now (l.hits key)).hits
      (omega (arith, keep-le-retain limits left))

uncapped-HasRoom :
    (now : ℕ) (ts : List ℕ) (limits : Limits)
    → uncapped limits ≡ true
    → All (HasRoom now ts) (windows limits)
unfolding uncapped
uncapped-HasRoom now ts limits u =
    (λ c. absurd (ground arith), (λ c. absurd (ground arith), (λ c. absurd (ground arith), tt)))

pub allow-uncapped :
    (now : ℕ) (key : Bytes) (limits : Limits) (l : Limiter)
    → uncapped limits ≡ true
    → allow now key limits l ≡ (l, record { allowed = true; retry_after = 0 })
unfolding allow
allow-uncapped now key limits l u = rw u

-- For a key whose stored hits are sorted, `allow` admits a message exactly if every capped window
-- holds fewer unexpired hits of the key than its limit.
allow-HasRoom :
    (now : ℕ) (key : Bytes) (limits : Limits) (l : Limiter)
    → IsSorted (entry (l.hits key)).hits
    → ((allow now key limits l).1.allowed ≡ true)
      ↔ All (HasRoom now (live now (l.hits key)).hits) (windows limits)
allow-HasRoom now key limits l h = elim (Bool-cases (uncapped limits)) [
  | inl u ↦ rw (allow-uncapped now key limits l u) (λ _. uncapped-HasRoom now _ limits u, λ _. refl)
  | inr c ↦ elim (allow_lem now key limits l c) [
    | inl (free, e) ↦ rw e (
      λ _.
          All-HasRoom now now _ _ (keep limits) (windows limits) (windows-keep limits)
            (λ s k. omega (arith, recent-counted now key limits l s k)) (roomy.0 free),
      λ _. refl,
    )
    | inr (full, e) ↦ rw e (
      λ t. absurd (cc),
      λ room. absurd (
          omega (
            arith,
            roomy.1 (
                All-HasRoom now now _ _ (keep limits) (windows limits) (windows-keep limits)
                  (λ s k. omega (arith, recent-counted now key limits l s k)) room),
          )),
    )
  ]
]
  where
    roomy :
        (wait now (counted now key limits l) 0 (windows limits) ≡ 0)
        ↔ All (HasRoom now (counted now key limits l)) (windows limits)
    roomy =
        wait-zero_iff now (counted now key limits l) (counted-IsSorted now key limits l h)
          (windows limits)

ceil_to_second-ge : (d : ℕ) → d ≤ ceil_to_second d
unfolding ceil_to_second
ceil_to_second-ge d = ground arith

ceil_to_second_whole : (d : ℕ) → (second ≤ ceil_to_second d) × (ceil_to_second d % second ≡ 0)
unfolding ceil_to_second
ceil_to_second_whole d = (ground arith, ground arith)

recent-live-le :
    (now s : ℕ) (h : History) → recent now s (live now (some h)).hits ≤ recent now s h.hits
unfolding live
recent-live-le now s h = ground arith

pub store-hits : (key : Bytes) (h : History) (l : Limiter) → (store key h l).hits key ≡ some h
store-hits key h l = rw (bytes_eq_refl key)

-- When the wait computed from a stored history is over, the next call is let in.
allow_after_wait :
    (now after : ℕ) (key : Bytes) (limits : Limits) (h : History) (l : Limiter)
    → IsSorted h.hits
    → now + wait now h.hits 0 (windows limits) ≤ after
    → (allow after key limits (store key h l)).1.allowed ≡ true
allow_after_wait now after key limits h l sorted over =
    (allow-HasRoom after key limits (store key h l) (rw (store-hits key h l) sorted)).1 (
      rw (store-hits key h l) (
        All-HasRoom after after h.hits _ (keep limits) (windows limits) (windows-keep limits)
          (λ s k. recent-live-le after s h)
          (wait-room now h.hits sorted after 0 (windows limits) over)))

-- For a key whose stored hits are sorted, a rejected call asks for a wait of at least one second,
-- and a call at that key after the wait (or later) is admitted, if no other call comes between.
pub allow-retry_after :
    (now after : ℕ) (key : Bytes) (limits : Limits) (l : Limiter)
    → IsSorted (entry (l.hits key)).hits
    → (allow now key limits l).1.allowed ≡ false
    → now + (allow now key limits l).1.retry_after ≤ after
    → (second ≤ (allow now key limits l).1.retry_after)
      × ((allow after key limits (allow now key limits l).0).1.allowed ≡ true)
allow-retry_after now after key limits l h rejected over = elim (Bool-cases (uncapped limits)) [
  | inl u ↦ absurd (ground (arith, allow-uncapped now key limits l u))
  | inr c ↦ elim (allow_lem now key limits l c) [
    | inl (free, e) ↦ absurd (ground arith)
    | inr (full, e) ↦ rw e (
      (ceil_to_second_whole (wait now (counted now key limits l) 0 (windows limits))).0,
      allow_after_wait now after key limits
          (record { hits = counted now key limits l; expires = (live now (l.hits key)).expires })
          (sweep now l) (counted-IsSorted now key limits l h)
          (omega (
            arith,
            ap (λ r. r.1.retry_after) e,
            ceil_to_second-ge (wait now (counted now key limits l) 0 (windows limits)),
          )),
    )
  ]
]
