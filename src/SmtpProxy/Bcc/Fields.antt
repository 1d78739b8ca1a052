-- ===== src/SmtpProxy/Bcc/Fields.antt =====
-- Fields: what `stripBcc` leaves of a header's fields.
use sigillum.Common.{join, Bytes, true, false, ◌≡◌, ◌⊎◌, List, [], ◌∷◌, ◌++◌, All, codes, count}
use sigillum.Policy.Types.{Platform}
use sigillum.SmtpProxy.Bcc.{is_blank, strip_lines}
use sigillum.SmtpProxy.Bcc.Lines.{AreLines}

-- A line feed alone, or behind a carriage return.
abbrev pub IsBlank : Bytes → Type 0
IsBlank l = (l ≡ 10 ∷ []) ⊎ (l ≡ 13 ∷ 10 ∷ [])

-- A line that goes on with the field above it.
abbrev pub IsFolded : Bytes → Type 0
IsFolded [] = ⊥
IsFolded (c ∷ l) = (c ≡ b' ') ⊎ (c ≡ b'\t')

abbrev pub StartsField : List Bytes → Type 0
StartsField [] = Unit
StartsField (l ∷ ls) = ¬ IsFolded l

abbrev At : Bytes → Bytes → Type 0
At l n = (behind : Bytes) × (l ≡ n ++ b':' ∷ behind) × (count b':' n ≡ 0)

module _ (env : Platform) where
  -- The text before the first colon, without white space around it, is `Bcc` or `Resent-Bcc` in any
  -- case.
  abbrev pub NamesBcc : Bytes → Type 0
  NamesBcc l =
      (n : Bytes) × (behind : Bytes) × (l ≡ n ++ b':' ∷ behind)
      × (count b':' n ≡ 0)
      × ((env.equal_fold (env.trim_space n) (codes "Bcc") ≡ true)
          ⊎ (env.equal_fold (env.trim_space n) (codes "Resent-Bcc") ≡ true))

  -- The lines of fields, and those of them that are left: a field is a line with the folded lines
  -- behind it.
  pub data Fields : List Bytes → List Bytes → Type 0 where
    no_more : Fields [] []
    kept :
        (l : Bytes) (folded rest left : List Bytes)
        → ¬ IsFolded l
        → All IsFolded folded
        → StartsField rest
        → ¬ NamesBcc l
        → Fields rest left
        → Fields (l ∷ (folded ++ rest)) (l ∷ (folded ++ left))
    removed :
        (l : Bytes) (folded rest left : List Bytes)
        → ¬ IsFolded l
        → All IsFolded folded
        → StartsField rest
        → NamesBcc l
        → Fields rest left
        → Fields (l ∷ (folded ++ rest)) left

  -- Lines from somewhere within a header: folded ones of a field above, then fields.
  record Grouped (h : List Bytes) : Type 0 where
    folded : List Bytes
    rest : List Bytes
    left : List Bytes
    whole : h ≡ folded ++ rest
    all_folded : All IsFolded folded
    starts : StartsField rest
    fields : Fields rest left
    after_kept : strip_lines env false h ≡ folded ++ left
    after_removed : strip_lines env true h ≡ left

  -- No line is blank, and the message is left as it is.
  pub record Whole (raw out : Bytes) : Type 0 where
    pub lines : List Bytes
    pub are_lines : AreLines lines
    pub whole : raw ≡ join lines
    pub no_blank : All (λ l. ¬ IsBlank l) lines
    pub same : out ≡ raw

  -- The first blank line ends the header, of which the fields are left that do not name Bcc or
  -- Resent-Bcc, with their folded lines, and everything from the blank line on. Folded lines at the
  -- top, which continue nothing, are left too.
  pub record WithoutBcc (raw out : Bytes) : Type 0 where
    pub folded : List Bytes
    pub rest : List Bytes
    pub left : List Bytes
    pub blank : Bytes
    pub body : List Bytes
    pub are_lines : AreLines ((folded ++ rest) ++ blank ∷ body)
    pub whole : raw ≡ join (folded ++ rest) ++ join (blank ∷ body)
    pub no_blank : All (λ l. ¬ IsBlank l) (folded ++ rest)
    pub is_blank : IsBlank blank
    pub all_folded : All IsFolded folded
    pub starts : StartsField rest
    pub fields : Fields rest left
    pub kept_text : out ≡ join (folded ++ left) ++ join (blank ∷ body)

  abbrev pub Stripped : Bytes → Bytes → Type 0
  Stripped raw out = Whole raw out ⊎ WithoutBcc raw out
