-- ===== src/SmtpProxy/Login/Throttled.antt =====
-- The limiter of failed logins: which attempts are let in, and what they leave.
use sigillum.Common.{
  Bytes, ℕ, suc, ◌+◌, ◌≤◌, ◌<◌, Bool, true, false, ◌≡◌, refl, sym, ap, subst, ◌∙◌, inl, inr, ◌⊎◌,
  ◌↔◌, List, [], ◌∷◌, ◌++◌, Option, none, some, length, All, arith, Bool-cases, leb, ltb, ◌==◌,
  if◌then◌else◌,
}
use sigillum.RateLimit.Windows.{
  recent, recent-append, recent_mono, recent-All, recent-le-length, IsSorted,
}
use sigillum.SmtpProxy.Login.{
  HitsOps, FailureLimiter, pruned, Turn, no_turn, throttled, may_try, count_kept, count_found,
  count_locked, begin, or_empty, done,
}

-- What the cache of golang-lru answers at one key, until it drops it.
pub record Keeps {H : Type 0} (hits : HitsOps H) : Type 0 where
  pub get_again : (k : Bytes) (h : H) → (hits.get k (hits.get k h).1).0 ≡ (hits.get k h).0
  pub get_added : (k : Bytes) (v : List ℕ) (h : H) → (hits.get k (hits.add k v h)).0 ≡ some v
  pub get_removed : (k : Bytes) (h : H) → (hits.get k (hits.remove k h)).0 ≡ none

-- The kept times are those in the window, if the times are sorted.
length-pruned :
    (now window : ℕ) (ts : List ℕ)
    → IsSorted ts
    → length (pruned now window ts) ≡ recent now window ts
unfolding pruned
length-pruned now window [] s = refl
length-pruned now window (t ∷ ts) s = elim (Bool-cases (ltb now (t + window))) [
  | inl e ↦ ground (arith, recent-All now window t ts (ground arith) s.0)
  | inr e ↦ ground (arith, length-pruned now window ts s.1)
]

-- Pruning takes away nothing that counts at the time or later.
recent-pruned :
    (now later window : ℕ) (ts : List ℕ)
    → now ≤ later
    → recent later window (pruned now window ts) ≡ recent later window ts
unfolding pruned
recent-pruned now later window [] l = refl
recent-pruned now later window (t ∷ ts) l = ground (arith, recent-pruned now later window ts l)

pruned-IsSorted : (now window : ℕ) (ts : List ℕ) → IsSorted ts → IsSorted (pruned now window ts)
unfolding pruned
pruned-IsSorted now window [] s = tt
pruned-IsSorted now window (t ∷ ts) s = elim (Bool-cases (ltb now (t + window))) [
  | inl e ↦ rw (e) s
  | inr e ↦ rw (e) (pruned-IsSorted now window ts s.1)
]

pruned-All :
    (now window b : ℕ) (ts : List ℕ) → All (λ t. t ≤ b) ts → All (λ t. t ≤ b) (pruned now window ts)
unfolding pruned
pruned-All now window b [] s = tt
pruned-All now window b (t ∷ ts) s = elim (Bool-cases (ltb now (t + window))) [
  | inl e ↦ rw (e) s
  | inr e ↦ rw (e) (pruned-All now window b ts s.1)
]

-- The times are in order and none is after `now`.
abbrev pub IsHistory : ℕ → List ℕ → Type 0
IsHistory now ts = IsSorted ts × All (λ t. t ≤ now) ts

All-later : (b d : ℕ) (ts : List ℕ) → b ≤ d → All (λ t. t ≤ b) ts → All (λ t. t ≤ d) ts
All-later b d [] l a = tt
All-later b d (t ∷ ts) l a = (omega (arith, a.0, l), All-later b d ts l a.1)

IsHistory-append : (b d : ℕ) (ts : List ℕ) → b ≤ d → IsHistory b ts → IsHistory d (ts ++ d ∷ [])
IsHistory-append b d [] l s = ((tt, tt), (omega arith, tt))
IsHistory-append b d (t ∷ ts) l ((x, y), (z, w)) =
    let (p, q) = IsHistory-append b d ts l (y, w) in
    ((All-append t d ts x (omega (arith, z, l)), p), (omega (arith, z, l), q))
  where
    All-append :
        (t d : ℕ) (ts : List ℕ) → All (λ u. t ≤ u) ts → t ≤ d → All (λ u. t ≤ u) (ts ++ d ∷ [])
    All-append t d [] x l = (l, tt)
    All-append t d (u ∷ ts) x l = (x.0, All-append t d ts x.1 l)

not_zero : (n : ℕ) → 1 ≤ n → (n == 0) ≡ false
not_zero n l = ground arith

-- An attempt that gets its turn, and whether its password turned out wrong.
pub record Attempt : Type 0 where
  pub begun : ℕ
  pub ended : ℕ
  pub failed : Bool

module _ {H : Type 0} (hits : HitsOps H) (keeps : Keeps hits) (f : FailureLimiter)
    (key : Bytes) where
  abbrev pub stored : H → List ℕ
  stored h = or_empty hits f (hits.get key h).0

  -- How many failures of the key count at a time.
  abbrev pub failures : ℕ → H → ℕ
  failures at h = recent at f.window (stored h)

  -- A count leaves what the cache has behind the key, less what no longer counts.
  Same : ℕ → H → H → Type 0
  Same now h h' =
      IsHistory now (stored h') × ((later : ℕ) → now ≤ later → failures later h' ≡ failures later h)

  stored-some : (h : H) (ts : List ℕ) → (hits.get key h).0 ≡ some ts → stored h ≡ ts
  stored-some h ts e = ap (or_empty hits f) e

  -- Where the pruned list stands, or still the whole one.
  Same-stored :
      (now : ℕ) (h h' : H)
      → IsHistory now (stored h)
      → (stored h' ≡ pruned now f.window (stored h)) ⊎ (stored h' ≡ stored h)
      → Same now h h'
  unfolding Same
  Same-stored now h h' (s, a) (inl e) = (
    subst (IsHistory now) (sym e)
        (pruned-IsSorted now f.window (stored h) s, pruned-All now f.window now (stored h) a),
    λ later l. ap (recent later f.window) e ∙ recent-pruned now later f.window (stored h) l,
  )
  Same-stored now h h' s (inr e) =
      (subst (IsHistory now) (sym e) s, λ later l. ap (recent later f.window) e)

  count_kept-stored :
      (g : H) (ts kept : List ℕ)
      → (hits.get key g).0 ≡ some ts
      → ((count_kept hits f key ts kept g).0 ≡ length kept)
        × ((stored (count_kept hits f key ts kept g).1 ≡ kept)
            ⊎ (stored (count_kept hits f key ts kept g).1 ≡ ts))
  count_kept-stored g ts [] e = (refl, inl (ap (or_empty hits f) (keeps.get_removed key g)))
  count_kept-stored g ts (k ∷ ks) e = elim (Bool-cases (ltb (suc (length ks)) (length ts))) [
    | inl t ↦ rw (t) (refl, inl (ap (or_empty hits f) (keeps.get_added key (k ∷ ks) g)))
    | inr t ↦ rw (t) (refl, inr (stored-some g ts e))
  ]

  count_found-Same :
      (now : ℕ) (h : H) (o : Option (List ℕ))
      → (hits.get key h).0 ≡ o
      → IsHistory now (stored h)
      → ((count_found hits f now key (o, (hits.get key h).1)).0 ≡ failures now h)
        × Same now h (count_found hits f now key (o, (hits.get key h).1)).1
  count_found-Same now h none e s = (
    ap (recent now f.window) (sym (ap (or_empty hits f) e)),
    Same-stored now h (hits.get key h).1 s (inr (ap (or_empty hits f) (keeps.get_again key h))),
  )
  count_found-Same now h (some ts) e s =
      let (n, k) =
        count_kept-stored (hits.get key h).1 ts (pruned now f.window ts)
          (keeps.get_again key h ∙ e) in
      let q = stored-some h ts e in
      (
        n
            ∙ ap (λ x. length (pruned now f.window x)) (sym q)
            ∙ length-pruned now f.window (stored h) s.0,
        Same-stored now h _ s (elim k [
          | inl x ↦ inl (x ∙ ap (pruned now f.window) (sym q))
          | inr x ↦ inr (x ∙ sym q)
        ]),
      )

  count_locked-Same :
      (now : ℕ) (h : H)
      → IsHistory now (stored h)
      → ((count_locked hits f now key h).0 ≡ failures now h)
        × Same now h (count_locked hits f now key h).1
  unfolding count_locked
  count_locked-Same now h s = count_found-Same now h (hits.get key h).0 refl s

  -- A limit that is reached refuses, one that is not lets in.
  begin-Same :
      (now : ℕ) (h : H)
      → 1 ≤ f.per_user_ip
      → IsHistory now (stored h)
      → (((begin hits f true now key h).0 ≡ throttled) × (f.per_user_ip ≤ failures now h)
          ⊎ (((begin hits f true now key h).0 ≡ may_try) × (failures now h < f.per_user_ip)))
        × Same now h (begin hits f true now key h).1
  unfolding begin
  begin-Same now h l s =
      let (n, k) = count_locked-Same now h s in
      elim (Bool-cases (leb f.per_user_ip (count_locked hits f now key h).0)) [
        | inl t ↦ rw (not_zero f.per_user_ip l, t) (inl (refl, ground (arith, n)), k)
        | inr t ↦ rw (not_zero f.per_user_ip l, t) (inr (refl, ground (arith, n)), k)
      ]

  -- A failure counts, and stands last.
  done-stored :
      (failed : Bool) (d : ℕ) (h : H)
      → 1 ≤ f.per_user_ip
      → stored (done hits f failed d key h) ≡ (if failed then stored h ++ d ∷ [] else stored h)
  unfolding done
  done-stored false d h l = rw (not_zero f.per_user_ip l) refl
  done-stored true d h l =
      rw (not_zero f.per_user_ip l)
        (ap (or_empty hits f) (keeps.get_added key (stored h ++ d ∷ []) (hits.get key h).1))

  abbrev pub ended_as : Attempt → Turn × H → List ℕ → H × List ℕ
  ended_as a (no_turn, h) log = (h, log)
  ended_as a (throttled, h) log = (h, log)
  ended_as a (may_try, h) log =
      (done hits f a.failed a.ended key h, if a.failed then log ++ a.ended ∷ [] else log)

  -- One attempt, beside the log of all failures.
  unfoldable pub attempt : Attempt → H × List ℕ → H × List ℕ
  attempt a (h, log) = ended_as a (begin hits f true a.begun key h) log

  abbrev pub attempts : List Attempt → H × List ℕ → H × List ℕ
  attempts [] s = s
  attempts (a ∷ rest) s = attempts rest (attempt a s)

  -- The cache counts what the log counts, and that is within the limit.
  abbrev pub CountsIn : ℕ → (times log : List ℕ) → Type 0
  CountsIn now times log =
      IsHistory now times
      × ((later : ℕ) → now ≤ later → recent later f.window times ≡ recent later f.window log)
      × (recent now f.window log ≤ f.per_user_ip)

  abbrev pub Counts : ℕ → H × List ℕ → Type 0
  Counts now (h, log) = CountsIn now (stored h) log

  Counts-later : (b d : ℕ) (s : H × List ℕ) → b ≤ d → Counts b s → Counts d s
  Counts-later b d (h, log) l ((s, a), e, m) = (
    (s, All-later b d (stored h) l a),
    λ t k. e t (omega (arith, l, k)),
    omega (arith, recent_mono b d f.window log l, m),
  )

  Counts-begin :
      (now b : ℕ) (h : H) (log : List ℕ)
      → 1 ≤ f.per_user_ip
      → now ≤ b
      → Counts now (h, log)
      → (((begin hits f true b key h).0 ≡ throttled) × (f.per_user_ip ≤ recent b f.window log)
          ⊎ (((begin hits f true b key h).0 ≡ may_try) × (recent b f.window log < f.per_user_ip)))
        × Counts b ((begin hits f true b key h).1, log)
  unfolding Same
  Counts-begin now b h log p l c =
      let (s, e, m) = Counts-later now b (h, log) l c in
      let (r, (t, k)) = begin-Same b h p s in
      (
        elim r [
          | inl (x, y) ↦ inl (x, ground (arith, e b (omega arith)))
          | inr (x, y) ↦ inr (x, ground (arith, e b (omega arith)))
        ],
        (t, λ u v. k u v ∙ e u v, m),
      )

  Counts-done :
      (b d : ℕ) (failed : Bool) (h : H) (log : List ℕ)
      → 1 ≤ f.per_user_ip
      → b ≤ d
      → recent b f.window log < f.per_user_ip
      → Counts b (h, log)
      → Counts d (done hits f failed d key h, if failed then log ++ d ∷ [] else log)
  Counts-done b d false h log p l r c =
      subst (λ x. CountsIn d x log) (sym (done-stored false d h p)) (Counts-later b d (h, log) l c)
  Counts-done b d true h log p l r (s, e, m) =
      subst (λ x. CountsIn d x (log ++ d ∷ [])) (sym (done-stored true d h p))
        (
          IsHistory-append b d (stored h) l s,
          λ t k. appended t (e t (omega (arith, l, k))),
          omega (
            arith,
            recent-append d f.window log (d ∷ []),
            recent_mono b d f.window log l,
            r,
            recent-le-length d f.window (d ∷ []),
          ),
        )
    where
      appended :
          (t : ℕ)
          → recent t f.window (stored h) ≡ recent t f.window log
          → recent t f.window (stored h ++ d ∷ []) ≡ recent t f.window (log ++ d ∷ [])
      appended t q =
          recent-append t f.window (stored h) (d ∷ [])
          ∙ ap (λ x. x + recent t f.window (d ∷ [])) q
          ∙ sym (recent-append t f.window log (d ∷ []))

  attempt-Counts :
      (now : ℕ) (a : Attempt) (s : H × List ℕ)
      → 1 ≤ f.per_user_ip
      → now ≤ a.begun
      → a.begun ≤ a.ended
      → Counts now s
      → Counts a.ended (attempt a s)
  unfolding attempt
  attempt-Counts now a (h, log) p l k c =
      let (r, d) = Counts-begin now a.begun h log p l c in
      elim r [
        | inl (x, y) ↦
            subst (λ t. Counts a.ended (ended_as a (t, (begin hits f true a.begun key h).1) log))
              (sym x) (Counts-later a.begun a.ended ((begin hits f true a.begun key h).1, log) k d)
        | inr (x, y) ↦
            subst (λ t. Counts a.ended (ended_as a (t, (begin hits f true a.begun key h).1) log))
              (sym x)
              (Counts-done a.begun a.ended a.failed (begin hits f true a.begun key h).1 log p k y d)
      ]

  -- The attempts come one after the other, from `now` to `last`.
  abbrev pub InTurn : (now last : ℕ) → List Attempt → Type 0
  InTurn now last [] = now ≤ last
  InTurn now last (a ∷ rest) = (now ≤ a.begun) × (a.begun ≤ a.ended) × InTurn a.ended last rest

  attempts-Counts :
      (now last : ℕ) (l : List Attempt) (s : H × List ℕ)
      → 1 ≤ f.per_user_ip
      → InTurn now last l
      → Counts now s
      → Counts last (attempts l s)
  attempts-Counts now last [] s p i c = Counts-later now last s i c
  attempts-Counts now last (a ∷ rest) s p (i, j, k) c =
      attempts-Counts a.ended last rest (attempt a s) p k (attempt-Counts now a s p i j c)

  -- If the limit is positive and the cache keeps what it is given, then under any attempts at a key
  -- that it does not hold, one after the other, the failures within the window before the last time
  -- are at most the limit, also those that the limiter has pruned; and `begin` refuses an attempt
  -- then exactly if that many have been reached.
  pub attempts-Bounded :
      (h : H) (l : List Attempt) (last : ℕ)
      → 1 ≤ f.per_user_ip
      → (hits.get key h).0 ≡ none
      → InTurn 0 last l
      → (recent last f.window (attempts l (h, [])).1 ≤ f.per_user_ip)
        × (((begin hits f true last key (attempts l (h, [])).0).0 ≡ throttled)
            ↔ (f.per_user_ip ≤ recent last f.window (attempts l (h, [])).1))
  attempts-Bounded h l last p e i =
      let c =
        attempts-Counts 0 last l (h, []) p i
          (subst (λ x. CountsIn 0 x []) (sym (ap (or_empty hits f) e))
            ((tt, tt), λ t k. refl, omega arith)) in
      let (r, d) =
        Counts-begin last last (attempts l (h, [])).0 (attempts l (h, [])).1 p (omega arith) c in
      (
        c.2,
        elim r [
          | inl (x, y) ↦ (λ u. y, λ u. x)
          | inr (x, y) ↦ (λ u. absurd (ground (arith, x)), λ u. absurd (omega (arith, y, u)))
        ],
      )
