-- ===== src/RateLimit/Refine.antt =====
-- The limiter, which trims, expires and sweeps what it stores, decides as the log that forgets
-- nothing, while each key's limits stay what they are.
use sigillum.Common.{Bytes, ℕ, ◌+◌, Bool, ◌≡◌, refl, List, [], ◌∷◌, arith}
use sigillum.RateLimit.{Limits, Limiter, new_memory_limiter, allow, refund}
use sigillum.RateLimit.Spec.{Log, admit, take_back}
use sigillum.RateLimit.Tracks.{Tracks, allow-Tracks, refund-Tracks, new-Tracks}

-- A client's calls in order: how long after the last one, and what.
pub data Call : Type 0 where
  send : (elapsed : ℕ) (key : Bytes) → Call
  give_back : (key : Bytes) → Call

module _ (policy : Bytes → Limits) where
  -- The outcomes of the `send` calls: of the limiter, and of the log.
  unfoldable pub outcomes : ℕ → Limiter → List Call → List Bool
  outcomes now l [] = []
  outcomes now l (send d key ∷ calls) =
      let (l', r) = allow (now + d) key (policy key) l in r.allowed ∷ outcomes (now + d) l' calls
  outcomes now l (give_back key ∷ calls) = outcomes now (refund key l) calls

  unfoldable pub promised : ℕ → Log → List Call → List Bool
  promised now log [] = []
  promised now log (send d key ∷ calls) =
      let (log', ok) = admit (now + d) key (policy key) log in ok ∷ promised (now + d) log' calls
  promised now log (give_back key ∷ calls) = promised now (take_back key log) calls

  outcomes-eq-promised :
      (calls : List Call) (now : ℕ) (l : Limiter) (log : Log)
      → Tracks policy now l log
      → outcomes now l calls ≡ promised now log calls
  unfolding outcomes promised
  outcomes-eq-promised [] now l log t = refl
  outcomes-eq-promised (send d key ∷ calls) now l log t =
      let (same, t') = allow-Tracks policy now (now + d) key l log (omega arith) t in
      rw (
        same,
        outcomes-eq-promised calls (now + d) (allow (now + d) key (policy key) l).0
            (admit (now + d) key (policy key) log).0 t',
      )
  outcomes-eq-promised (give_back key ∷ calls) now l log t =
      outcomes-eq-promised calls now _ _ (refund-Tracks policy now key l log t)

-- From a new limiter, any sequence of sends and refunds, at any keys and with any time between them,
-- has the outcomes that a log of all admitted messages gives which is never trimmed, expired or
-- swept and in which a refund deletes the newest message; every key keeps its limits throughout, and
-- the clock does not run backwards.
pub new-outcomes :
    (policy : Bytes → Limits) (now : ℕ) (calls : List Call)
    → outcomes policy now new_memory_limiter calls ≡ promised policy now (λ k. []) calls
new-outcomes policy now calls =
    outcomes-eq-promised policy calls now new_memory_limiter (λ k. []) (new-Tracks policy now)
