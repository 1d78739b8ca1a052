-- ===== src/RateLimit/Tracks.antt =====
-- One call of the limiter against one of the log, while each key's limits stay what they are.
use sigillum.Common.{
  Bytes, ℕ, ◌-◌, ◌≤◌, true, ◌≡◌, refl, subst, inl, inr, ◌↔◌, List, [], Option, none, some, arith,
  ltb, all, All, Bool-cases, bytes_eq, bytes_eq_iff, all_of_All,
}
use sigillum.RateLimit.{
  minute, Window, Limits, Limiter, History, new_memory_limiter, windows, uncapped, keep,
  swept_entry, sweep, wait, live, store, allow, entry, drop_last, is_empty, refund,
}
use sigillum.RateLimit.Windows.{recent, HasRoom, wait-zero_iff}
use sigillum.RateLimit.Room.{windows-keep, All-HasRoom, counted, allow-uncapped, allow_lem}
use sigillum.RateLimit.Spec.{Log, update, has_room, admit, take_back}
use sigillum.RateLimit.Tracked.{
  Tracked, Tracked-later, Tracked-live, Tracked-trimmed, Tracked-append, Tracked-drop_last,
  recent-Tracked, is_empty-drop_last,
}

entry-swept_entry : (now : ℕ) (o : Option History) → entry (swept_entry now o) ≡ live now o
unfolding swept_entry live
entry-swept_entry now none = refl
entry-swept_entry now (some h) = ground arith

-- The test of the log is the room that the counted history has.
has_room_iff : (now : ℕ) (ts : List ℕ) (w : Window) → (has_room now ts w ≡ true) ↔ HasRoom now ts w
has_room_iff now ts w = (λ e c. ground arith, λ h. ground arith)

-- Each key's limits, which do not change, and a limiter that tracks a log under them.
module _ (policy : Bytes → Limits) where
  abbrev pub Tracks : ℕ → Limiter → Log → Type 0
  Tracks now l log = (k : Bytes) → Tracked now (keep (policy k)) (entry (l.hits k)) (log k)

  pub Tracks-later :
      (now after : ℕ) (l : Limiter) (log : Log)
      → now ≤ after
      → Tracks now l log
      → Tracks after l log
  Tracks-later now after l log le t k = Tracked-later now after _ _ (log k) le (t k)

  Tracks-sweep :
      (now : ℕ) (l : Limiter) (log : Log) → Tracks now l log → Tracks now (sweep now l) log
  unfolding sweep
  Tracks-sweep now l log t k = elim (Bool-cases (ltb (now - l.swept) minute)) [
    | inl e ↦ rw e (t k)
    | inr e ↦ rw e (
        rw (entry-swept_entry now (l.hits k))
          (Tracked-live now (keep (policy k)) (l.hits k) (log k) (t k)))
  ]

  -- Writing one key's history keeps the other keys as they are.
  Tracks-store :
      (now : ℕ) (key : Bytes) (h : History) (ts : List ℕ) (l : Limiter) (log : Log)
      → Tracks now l log
      → Tracked now (keep (policy key)) h ts
      → Tracks now (store key h l) (update key ts log)
  Tracks-store now key h ts l log t u k = elim (Bool-cases (bytes_eq key k)) [
    | inl e ↦ rw e (subst (λ j. Tracked now (keep (policy j)) h ts) ((bytes_eq_iff key k).0 e) u)
    | inr e ↦ rw e (t k)
  ]

  -- Changing the log alone, at a key whose history tracks the new text.
  Tracks-update :
      (now : ℕ) (key : Bytes) (ts : List ℕ) (l : Limiter) (log : Log)
      → Tracks now l log
      → Tracked now (keep (policy key)) (entry (l.hits key)) ts
      → Tracks now l (update key ts log)
  Tracks-update now key ts l log t u k = elim (Bool-cases (bytes_eq key k)) [
    | inl e ↦ rw e (
        subst (λ j. Tracked now (keep (policy j)) (entry (l.hits j)) ts) ((bytes_eq_iff key k).0 e)
          u)
    | inr e ↦ rw e (t k)
  ]

  -- Changing the history alone.
  Tracks-store_same :
      (now : ℕ) (key : Bytes) (h : History) (l : Limiter) (log : Log)
      → Tracks now l log
      → Tracked now (keep (policy key)) h (log key)
      → Tracks now (store key h l) log
  Tracks-store_same now key h l log t u k = elim (Bool-cases (bytes_eq key k)) [
    | inl e ↦
        rw e (subst (λ j. Tracked now (keep (policy j)) h (log j)) ((bytes_eq_iff key k).0 e) u)
    | inr e ↦ rw e (t k)
  ]

  -- The history that is counted tracks the log.
  Tracked-counted :
      (now : ℕ) (key : Bytes) (l : Limiter) (log : Log)
      → Tracks now l log
      → Tracked now
          (keep (policy key))
          (record {
            hits = counted now key (policy key) l;
            expires = (live now (l.hits key)).expires;
          })
          (log key)
  Tracked-counted now key l log t =
      Tracked-trimmed now (policy key) (live now (l.hits key)) (log key)
        (Tracked-live now (keep (policy key)) (l.hits key) (log key) (t key))

  roomy_iff :
      (now : ℕ) (key : Bytes) (l : Limiter) (log : Log)
      → Tracks now l log
      → (wait now (counted now key (policy key) l) 0 (windows (policy key)) ≡ 0)
        ↔ (all (has_room now (log key)) (windows (policy key)) ≡ true)
  roomy_iff now key l log t = (
    λ e. tested.1 (transfer hist (log key) (λ s k. omega (arith, same s k)) (free.0 e)),
    λ a. free.1 (transfer (log key) hist (λ s k. omega (arith, same s k)) (tested.0 a)),
  )
    where
      limits : Limits
      limits = policy key

      hist : List ℕ
      hist = counted now key limits l

      held :
          Tracked now
            (keep limits)
            (record { hits = hist; expires = (live now (l.hits key)).expires })
            (log key)
      held = Tracked-counted now key l log t

      same : (s : ℕ) → s ≤ keep limits → recent now s (log key) ≡ recent now s hist
      same s k = recent-Tracked now (keep limits) s _ (log key) held k

      free : (wait now hist 0 (windows limits) ≡ 0) ↔ All (HasRoom now hist) (windows limits)
      free = wait-zero_iff now hist held.sorted (windows limits)

      tested :
          (all (has_room now (log key)) (windows limits) ≡ true)
          ↔ All (HasRoom now (log key)) (windows limits)
      tested =
          all_of_All (HasRoom now (log key)) (has_room now (log key)) (windows limits)
            (has_room_iff now (log key))

      transfer :
          (xs ys : List ℕ)
          → ((s : ℕ) → s ≤ keep limits → recent now s ys ≤ recent now s xs)
          → All (HasRoom now xs) (windows limits)
          → All (HasRoom now ys) (windows limits)
      transfer xs ys fewer =
          All-HasRoom now now xs ys (keep limits) (windows limits) (windows-keep limits) fewer

  -- If the limiter tracks the log at `now`, then a call of `allow` at the same time or later, with
  -- the limits its key always has, decides as the log does, and the limiter and the log that result
  -- track each other at that time.
  pub allow-Tracks :
      (now after : ℕ) (key : Bytes) (l : Limiter) (log : Log)
      → now ≤ after
      → Tracks now l log
      → ((allow after key (policy key) l).1.allowed ≡ (admit after key (policy key) log).1)
        × Tracks after (allow after key (policy key) l).0 (admit after key (policy key) log).0
  unfolding admit
  allow-Tracks now after key l log le t0 = elim (Bool-cases (uncapped limits)) [
    | inl u ↦ rw (allow-uncapped after key limits l u, u) (refl, t)
    | inr c ↦ elim (allow_lem after key limits l c) [
      | inl (free, e) ↦
          rw (e, c, (roomy_iff after key l log t).0 free)
            (
              refl,
              Tracks-store after key _ _ (sweep after l) log swept
                  (Tracked-append after limits _ (log key) held),
            )
      | inr (full, e) ↦ elim (Bool-cases (all (has_room after (log key)) (windows limits))) [
        | inl a ↦ absurd (omega (arith, (roomy_iff after key l log t).1 a))
        | inr b ↦ rw (e, c, b) (refl, Tracks-store_same after key _ (sweep after l) log swept held)
      ]
    ]
  ]
    where
      limits : Limits
      limits = policy key

      t : Tracks after l log
      t = Tracks-later now after l log le t0

      swept : Tracks after (sweep after l) log
      swept = Tracks-sweep after l log t

      held :
          Tracked after
            (keep limits)
            (record {
              hits = counted after key limits l;
              expires = (live after (l.hits key)).expires;
            })
            (log key)
      held = Tracked-counted after key l log t

  -- If the limiter tracks the log, then after `refund` of a key it tracks the log without that key's
  -- newest message; where nothing is left of the key, both stay as they are.
  pub refund-Tracks :
      (now : ℕ) (key : Bytes) (l : Limiter) (log : Log)
      → Tracks now l log
      → Tracks now (refund key l) (take_back key log)
  unfolding refund take_back
  refund-Tracks now key l log t = elim (Bool-cases (is_empty h.hits)) [
    | inl none_left ↦ rw none_left (
        Tracks-update now key (drop_last (log key)) l log t (
          subst
            (λ ts.
              Tracked now (keep (policy key)) (record { hits = ts; expires = h.expires })
                (drop_last (log key)))
            (is_empty-drop_last h.hits none_left) fewer))
    | inr some_left ↦ rw some_left (Tracks-store now key _ (drop_last (log key)) l log t fewer)
  ]
    where
      h : History
      h = entry (l.hits key)

      fewer :
          Tracked now
            (keep (policy key))
            (record { hits = drop_last h.hits; expires = h.expires })
            (drop_last (log key))
      fewer = Tracked-drop_last now (keep (policy key)) h.expires h.hits (log key) (t key)

  -- Nothing stored tracks an empty log.
  pub new-Tracks : (now : ℕ) → Tracks now new_memory_limiter (λ k. [])
  new-Tracks now k = record {
    forgotten = [];
    splits = refl;
    aged = tt;
    sorted = tt;
    past = tt;
    covered = tt;
  }
