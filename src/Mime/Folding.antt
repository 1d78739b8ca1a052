-- ===== src/Mime/Folding.antt =====
-- Header lines of internal/driver/smtp/mime.go: folding (`foldHeaderLine`), the longest token and
-- line, and the encoded-words of `forceEncodedWords`.
pub mod Unfolded
pub mod Chunks
use sigillum.Common.{
  Bytes, ℕ, suc, ◌+◌, ◌-◌, Bool, true, false, not, ◌&&◌, List, [], ◌∷◌, ◌++◌, map, Option, none,
  some, ltb, ◌==◌, if◌then◌else◌, codes, length, take, drop,
}
use sigillum.Policy.Address.{split}
use sigillum.Mime.{crlf}

abbrev pub fold_header_max : ℕ
fold_header_max = 78

abbrev pub max_header_line : ℕ
max_header_line = 998

-- `maxHeaderLine - len("Content-Transfer-Encoding: ")`.
abbrev pub max_foldable_token : ℕ
max_foldable_token = 971

abbrev pub larger : ℕ → ℕ → ℕ
larger a b = if ltb b a then a else b

abbrev pub longest : List Bytes → ℕ
longest [] = 0
longest (t ∷ ts) = larger (length t) (longest ts)

-- `longestToken`.
unfoldable pub longest_token : Bytes → ℕ
longest_token s = longest (split b' ' s)

-- `strings.Split(s, "\r\n")`. Where the text has a CR behind a CR, the second one counts.
abbrev pub before_first : ℕ → List Bytes → List Bytes
before_first c [] = (c ∷ []) ∷ []
before_first c (w ∷ ws) = (c ∷ w) ∷ ws

unfoldable pub split_crlf : Bytes → List Bytes
split_crlf [] = [] ∷ []
split_crlf (c ∷ []) = (c ∷ []) ∷ []
split_crlf (c ∷ d ∷ s) =
    let broken = [] ∷ split_crlf s in
    let on = before_first c (split_crlf (d ∷ s)) in if c == 13 && d == 10 then broken else on

-- `longestLine`.
unfoldable pub longest_line : Bytes → ℕ
longest_line s = longest (split_crlf s)

-- The loop over the tokens behind the first; what is written stands before `cur`.
unfoldable pub fold_from : Bytes → List Bytes → Bytes
fold_from cur [] = cur ++ crlf
fold_from cur (tok ∷ toks) =
    let next_line = cur ++ (crlf ++ fold_from (b' ' ∷ tok) toks) in
    let same_line = fold_from (cur ++ b' ' ∷ tok) toks in
    if ltb fold_header_max (length cur + 1 + length tok) then next_line else same_line

abbrev pub fold_tokens : Bytes → List Bytes → Bytes
fold_tokens key [] = fold_from (key ++ b':' ∷ []) []
fold_tokens key (tok ∷ toks) = fold_from ((key ++ b':' ∷ []) ++ b' ' ∷ tok) toks

unfoldable pub fold_header_line : (key value : Bytes) → Bytes
fold_header_line key value = fold_tokens key (split b' ' value)

abbrev pub max_chunk : ℕ
max_chunk = 45

-- `utf8.DecodeRuneInString` is the parameter: the size of the first rune.
module _ (rune_size : Bytes → ℕ) where
  -- The inner loop of `forceEncodedWords`: how many bytes the next word takes, from `n` on. Every
  -- round takes at least a byte, so the length of the text is fuel enough.
  unfoldable pub chunk_size : (fuel n : ℕ) → Bytes → Option ℕ
  chunk_size ℕ.zero n s = none
  chunk_size (suc fuel) n s =
      let size = rune_size (drop n s) in
      let more = chunk_size fuel (n + size) s in
      if ltb n (length s)
      then if ltb max_chunk (n + size) && ltb 0 n then some n else more
      else some n

  abbrev pub cons_chunk : Bytes → Option (List Bytes) → Option (List Bytes)
  cons_chunk c none = none
  cons_chunk c (some cs) = some (c ∷ cs)

  -- The outer loop: the texts of the words.
  unfoldable pub chunks : (fuel : ℕ) → Bytes → Option (List Bytes)
  chunks fuel [] = some []
  chunks ℕ.zero (c ∷ s) = none
  chunks (suc fuel) (c ∷ s) = elim (chunk_size (suc (length (c ∷ s))) 0 (c ∷ s)) [
    | none ↦ none
    | some n ↦ cons_chunk (take n (c ∷ s)) (chunks fuel (drop n (c ∷ s)))
  ]

-- The words, joined by spaces.
module _ (encode_base64 : Bytes → Bytes) where
  abbrev pub word : Bytes → Bytes
  word c = codes "=?utf-8?b?" ++ encode_base64 c ++ codes "?="

  abbrev pub words : List Bytes → Bytes
  words [] = []
  words (c ∷ []) = word c
  words (c ∷ d ∷ cs) = word c ++ b' ' ∷ words (d ∷ cs)
