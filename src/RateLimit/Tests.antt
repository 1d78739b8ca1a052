-- ===== src/RateLimit/Tests.antt =====
-- Runs of the limiter, and its theorems at concrete inputs.
use sigillum.Common.{
  Bytes, pos, ℕ, ◌+◌, ◌*◌, ◌≤◌, true, false, ◌≡◌, refl, List, [], ◌∷◌, arith, codes, bytes_eq,
}
use sigillum.RateLimit.{
  second, Limits, Limiter, new_memory_limiter, uncapped, keep, retain, since, later, swept_entry,
  sweep, ceil_to_second, wait_for, wait, live, trimmed, allow, entry, refund,
}
use sigillum.RateLimit.Windows.{IsSorted}
use sigillum.RateLimit.Room.{allow-retry_after}
use sigillum.RateLimit.Spec.{Log}
use sigillum.RateLimit.Refine.{Call, send, give_back, outcomes, new-outcomes, promised}

limiter : Unit {0}
unfolding allow uncapped keep retain since later swept_entry sweep ceil_to_second wait_for wait live
    trimmed refund bytes_eq
limiter = tt

abbrev key : Bytes
key = codes "team/app"

abbrev two_a_minute : Limits
two_a_minute = record { per_minute = pos 2; per_hour = pos 0; per_day = pos 100 }

abbrev start : ℕ
start = 1_000_000 * second

abbrev once : Limiter
once = (allow start key two_a_minute new_memory_limiter).0

abbrev twice : Limiter
twice = (allow (start + 10 * second) key two_a_minute once).0

third_rejected :
    (allow (start + 20 * second) key two_a_minute twice).1
    ≡ record { allowed = false; retry_after = 40 * second }
unfolding limiter
third_rejected = refl

twice-IsSorted : IsSorted (entry (twice.hits key)).hits
unfolding limiter
twice-IsSorted = omega arith

allow-retry_after_example :
    (second ≤ (allow (start + 20 * second) key two_a_minute twice).1.retry_after)
    × ((allow
          (start + 60 * second)
          key
          two_a_minute
          (allow (start + 20 * second) key two_a_minute twice).0).1.allowed
        ≡ true)
unfolding limiter
allow-retry_after_example =
    allow-retry_after (start + 20 * second) (start + 60 * second) key two_a_minute twice
      twice-IsSorted refl (omega arith)

abbrev each : Bytes → Limits
each k = two_a_minute

abbrev nothing : Log
nothing k = []

abbrev burst : List Call
burst = send 0 key ∷ send second key ∷ send second key ∷ give_back key ∷ send second key ∷ []

outcomes-burst : outcomes each start new_memory_limiter burst ≡ true ∷ true ∷ false ∷ true ∷ []
unfolding limiter outcomes
outcomes-burst = refl

new-outcomes_example :
    outcomes each start new_memory_limiter burst ≡ promised each start (λ k. []) burst
new-outcomes_example = new-outcomes each start burst
