-- ===== src/RateLimit/Spec.antt =====
-- What a rate limit promises: a log of every admitted message that forgets nothing, and a limit
-- on how many of them lie in any window.
use sigillum.Common.{
  Bytes, pos_part, ℕ, Bool, true, false, not, ◌||◌, List, [], ◌∷◌, ◌++◌, ltb, if◌then◌else◌, all,
  bytes_eq,
}
use sigillum.RateLimit.{Window, Limits, windows, is_capped, uncapped, drop_last}
use sigillum.RateLimit.Windows.{recent}

-- Every key's admitted messages, oldest first.
abbrev pub Log : Type 0
Log = Bytes → List ℕ

abbrev pub update : Bytes → List ℕ → Log → Log
update key ts log k = if bytes_eq key k then ts else log k

abbrev pub has_room : ℕ → List ℕ → Window → Bool
has_room now ts w = not (is_capped w.limit) || ltb (recent now w.size ts) (pos_part w.limit)

unfoldable pub admit : ℕ → Bytes → Limits → Log → Log × Bool
admit now key limits log =
    if uncapped limits
    then (log, true)
    else if all (has_room now (log key)) (windows limits)
    then (update key (log key ++ now ∷ []) log, true)
    else (log, false)

-- Takes back the newest message.
unfoldable pub take_back : Bytes → Log → Log
take_back key log = update key (drop_last (log key)) log
