-- ===== src/SmtpProxy/Bcc.antt =====
-- internal/smtpproxy/bcc.go: the removal of Bcc fields. The message is read as the list of its
-- lines, each with its line feed; the last one may have none. Go's offsets are the places between
-- two lines.
pub mod Lines
pub mod Fields
use sigillum.Common.{
  join, Bytes, ℕ, Bool, true, false, not, ◌&&◌, ◌||◌, List, [], ◌∷◌, ◌++◌, Option, none, some, ◌==◌,
  if◌then◌else◌, codes, bytes_eq,
}
use sigillum.Policy.Types.{Platform}

abbrev pub line_feed : Bytes
line_feed = 10 ∷ []

abbrev pub cons_byte : ℕ → List Bytes → List Bytes
cons_byte c [] = (c ∷ []) ∷ []
cons_byte c (l ∷ ls) = if c == 10 then line_feed ∷ l ∷ ls else (c ∷ l) ∷ ls

unfoldable pub split_lines : Bytes → List Bytes
split_lines [] = []
split_lines (c ∷ s) = cons_byte c (split_lines s)

-- The line that ends the header section.
abbrev pub is_blank : Bytes → Bool
is_blank l = bytes_eq l line_feed || bytes_eq l (13 ∷ line_feed)

abbrev pub cons_header : Bytes → Option (List Bytes × List Bytes) → Option (List Bytes × List Bytes)
cons_header l none = none
cons_header l (some (h, b)) = some (l ∷ h, b)

-- `headerEnd`: the lines before and from the first blank one; `none` where Go returns -1.
unfoldable pub header_end : List Bytes → Option (List Bytes × List Bytes)
header_end [] = none
header_end (l ∷ ls) =
    let rest = cons_header l (header_end ls) in if is_blank l then some ([], l ∷ ls) else rest

abbrev pub is_continuation : Bytes → Bool
is_continuation [] = false
is_continuation (c ∷ l) = c == b' ' || c == b'\t'

abbrev cons_text : ℕ → Option Bytes → Option Bytes
cons_text c none = none
cons_text c (some n) = some (c ∷ n)

-- The text before the first colon.
unfoldable pub before_colon : Bytes → Option Bytes
before_colon [] = none
before_colon (c ∷ l) =
    let rest = cons_text c (before_colon l) in if c == b':' then some [] else rest

module _ (env : Platform) where
  unfoldable pub is_bcc_field : Bytes → Bool
  is_bcc_field l = elim (before_colon l) [
    | none ↦ false
    | some n ↦
        let name = env.trim_space n in
        env.equal_fold name (codes "Bcc") || env.equal_fold name (codes "Resent-Bcc")
  ]

  -- The loop over the header's lines.
  unfoldable pub strip_lines : (skipping : Bool) → List Bytes → List Bytes
  strip_lines skipping [] = []
  strip_lines skipping (l ∷ ls) =
      let kept = strip_lines false ls in
      let dropped = strip_lines true ls in
      if is_continuation l
      then if skipping then dropped else l ∷ kept
      else if is_bcc_field l
      then dropped
      else l ∷ kept

  unfoldable pub strip_bcc : Bytes → Bytes
  strip_bcc raw = elim (header_end (split_lines raw)) [
    | none ↦ raw
    | some (h, b) ↦ join (strip_lines false h) ++ join b
  ]
