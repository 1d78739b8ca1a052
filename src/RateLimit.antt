-- ===== src/RateLimit.antt =====
-- The in-memory sliding-window limiter (internal/policy/ratelimit/ratelimit.go and memory.go).
-- Times are nanoseconds since Go's zero time, durations nanoseconds; the clock's reading is an
-- argument. A test `hit.After(now.Add(-size))` is written `now < hit + size`, so nothing is
-- subtracted below zero. The mutex makes each call one step. `error` is always nil here.
pub mod Windows
pub mod Room
pub mod Spec
pub mod Tracked
pub mod Tracks
pub mod Refine
mod Tests
use Prim.Native.Nat.{max}
use sigillum.Common.{
  Bytes, ℤ, pos, pos_part, ltb_ℤ, ℕ, zero, suc, ◌+◌, ◌-◌, ◌*◌, ◌%◌, ◌/◌, Bool, true, false, not,
  ◌&&◌, List, [], ◌∷◌, ◌++◌, Option, none, some, ltb, leb, ◌==◌, if◌then◌else◌, length, drop,
  bytes_eq,
}

abbrev pub second : ℕ
second = 1_000_000_000

abbrev pub minute : ℕ
minute = 60 * second

abbrev pub hour : ℕ
hour = 60 * minute

abbrev pub day : ℕ
day = 24 * hour

pub record Limits : Type 0 where
  pub per_minute : ℤ
  pub per_hour : ℤ
  pub per_day : ℤ

pub record Window : Type 0 where
  pub limit : ℤ
  pub size : ℕ

abbrev pub is_capped : ℤ → Bool
is_capped l = ltb_ℤ (pos 0) l

-- `Limits.None`.
unfoldable pub uncapped : Limits → Bool
uncapped l = not (is_capped l.per_minute) && not (is_capped l.per_hour) && not (is_capped l.per_day)

abbrev pub window : ℤ → ℕ → Window
window l s = record { limit = l; size = s }

abbrev pub windows : Limits → List Window
windows l = window l.per_minute minute ∷ window l.per_hour hour ∷ window l.per_day day ∷ []

unfoldable pub keep : Limits → ℕ
keep l = if is_capped l.per_day then day else hour

unfoldable pub retain : Limits → ℕ → ℕ
retain l left = if ltb (keep l) left then day else keep l

-- One key's hits, oldest first, and when they stop counting.
pub record History : Type 0 where
  pub hits : List ℕ
  pub expires : ℕ

-- The zero value that a read of a missing key gives.
abbrev pub no_history : History
no_history = record { hits = []; expires = 0 }

pub record Limiter : Type 0 where
  pub hits : Bytes → Option History
  pub swept : ℕ

abbrev pub new_memory_limiter : Limiter
new_memory_limiter = record { hits = λ k. none; swept = 0 }

-- The index of the first hit younger than `size` at `now`: what `sort.Search` finds in a sorted
-- history, and the length where there is none.
unfoldable pub since : ℕ → ℕ → List ℕ → ℕ
since now size [] = 0
since now size (t ∷ ts) = if ltb now (t + size) then 0 else suc (since now size ts)

unfoldable pub later : ℕ → ℕ → ℕ
later a b = if ltb b a then a else b

-- The deletion test of `sweep`, for one entry.
unfoldable pub swept_entry : ℕ → Option History → Option History
swept_entry now none = none
swept_entry now (some h) = if ltb now h.expires then some h else none

unfoldable pub sweep : ℕ → Limiter → Limiter
sweep now l =
    if ltb (now - l.swept) minute
    then l
    else record { hits = λ k. swept_entry now (l.hits k); swept = now }

-- A positive duration rounded up to whole seconds.
unfoldable pub ceil_to_second : ℕ → ℕ
ceil_to_second d =
    if d == 0 then second else if d % second == 0 then d else d / second * second + second

abbrev pub get_or : List ℕ → ℕ → ℕ → ℕ
get_or [] i d = d
get_or (x ∷ xs) zero d = x
get_or (x ∷ xs) (suc i) d = get_or xs i d

-- One round of the loop over the windows. `hist[len(hist)-limit]` is in range, as the window holds
-- at least `limit` hits (Windows.oldest_in_range).
unfoldable pub wait_for : ℕ → List ℕ → ℕ → Window → ℕ
wait_for now hist retry w =
    if not (is_capped w.limit)
    then retry
    else if ltb (length hist - since now w.size hist) (pos_part w.limit)
    then retry
    else max retry (get_or hist (length hist - pos_part w.limit) 0 + w.size - now)

unfoldable pub wait : ℕ → List ℕ → ℕ → List Window → ℕ
wait now hist retry [] = retry
wait now hist retry (w ∷ ws) = wait now hist (wait_for now hist retry w) ws

-- A read of the map, with an entry that has expired taken for a missing one.
unfoldable pub live : ℕ → Option History → History
live now none = no_history
live now (some h) = if ltb now h.expires then h else no_history

unfoldable pub trimmed : ℕ → Limits → History → List ℕ
trimmed now limits h = drop (since now (retain limits (h.expires - now)) h.hits) h.hits

abbrev pub store : Bytes → History → Limiter → Limiter
store key h l = record l { hits = λ k. if bytes_eq key k then some h else l.hits k }

pub record Reply : Type 0 where
  pub allowed : Bool
  pub retry_after : ℕ

unfoldable pub allow : ℕ → Bytes → Limits → Limiter → Limiter × Reply
allow now key limits l0 =
    let l = sweep now l0 in
    let h = live now (l.hits key) in
    let hist = trimmed now limits h in
    let retry = wait now hist 0 (windows limits) in
    if uncapped limits
    then (l0, record { allowed = true; retry_after = 0 })
    else if ltb 0 retry
    then (
      store key (record { hits = hist; expires = h.expires }) l,
      record { allowed = false; retry_after = ceil_to_second retry },
    )
    else (
      store key (record { hits = hist ++ now ∷ []; expires = later h.expires (now + keep limits) })
          l,
      record { allowed = true; retry_after = 0 },
    )

abbrev pub drop_last : List ℕ → List ℕ
drop_last [] = []
drop_last (x ∷ []) = []
drop_last (x ∷ y ∷ ys) = x ∷ drop_last (y ∷ ys)

-- A read of the map by Go's `l.hits[key]`.
abbrev pub entry : Option History → History
entry none = no_history
entry (some h) = h

abbrev pub is_empty : List ℕ → Bool
is_empty [] = true
is_empty (_ ∷ _) = false

unfoldable pub refund : Bytes → Limiter → Limiter
refund key l =
    let h = entry (l.hits key) in
    if is_empty h.hits
    then l
    else store key (record { hits = drop_last h.hits; expires = h.expires }) l
