-- ===== src/Mime/Folding/Unfolded.antt =====
-- Where a header line is folded.
use mathlib.Core.List.{append-nil, append_assoc}
use sigillum.Common.{
  Bytes, ◌+◌, ◌≤◌, ◌≡◌, ◌⊎◌, inl, inr, refl, sym, ap, ◌∙◌, List, [], ◌∷◌, ◌++◌, length, join, All,
  arith, ltb, Bool-cases, length-append, count, ◌==◌, subst,
}
use sigillum.Policy.Address.{split}
use sigillum.Policy.Address.Sound.{join as joined, split-cons, join-split}
use sigillum.Mime.{crlf}
use sigillum.Mime.Folding.{fold_from, fold_header_max, fold_tokens, fold_header_line}

-- The text between the first token and the end, and the lines as they are written.
abbrev pub spaced : List Bytes → Bytes
spaced [] = []
spaced (t ∷ ts) = (b' ' ∷ t) ++ spaced ts

abbrev pub written : List Bytes → Bytes
written [] = []
written (l ∷ ls) = l ++ (crlf ++ written ls)

abbrev NoSpace : Bytes → Type 0
NoSpace t = count b' ' t ≡ 0

split-NoSpace : (s : Bytes) → All NoSpace (split b' ' s)
unfolding split
split-NoSpace [] = (refl, tt)
split-NoSpace (c ∷ s) =
    let (w, ws, e) = split-cons b' ' s in
    let (n, more) = subst (All NoSpace) e (split-NoSpace s) in
    elim (Bool-cases (c == b' ')) [
      | inl t ↦ rw (split, e, t) (refl, (n, more))
      | inr t ↦ rw (split, e, t) (ground (arith, t, n), more)
    ]

-- A line that has no place to fold: one token behind the space, or behind the name.
abbrev pub IsUnfoldable : Bytes → Bytes → Type 0
IsUnfoldable key l =
    (tok : Bytes) × (count b' ' tok ≡ 0)
    × ((l ≡ b' ' ∷ tok) ⊎ (l ≡ (key ++ b':' ∷ []) ++ b' ' ∷ tok))

-- A line is within the limit, or cannot be folded.
abbrev pub IsFolded : Bytes → Bytes → Type 0
IsFolded key l = (length l ≤ fold_header_max) ⊎ IsUnfoldable key l

-- The line `whole`, in parts.
abbrev pub Folds : (key whole out : Bytes) → Type 0
Folds key whole out =
    (ls : List Bytes) × (out ≡ written ls) × (join ls ≡ whole) × All (IsFolded key) ls

fold_from-Folds :
    (key cur : Bytes) (toks : List Bytes)
    → IsFolded key cur
    → All NoSpace toks
    → Folds key (cur ++ spaced toks) (fold_from cur toks)
unfolding fold_from
fold_from-Folds key cur [] f n =
    (cur ∷ [], ap (λ t. cur ++ t) (sym (append-nil crlf)), refl, (f, tt))
fold_from-Folds key cur (tok ∷ toks) f (n, ns) =
    elim (Bool-cases (ltb fold_header_max (length cur + 1 + length tok))) [
      | inl t ↦
          let (ls, out, all, fs) =
            fold_from-Folds key (b' ' ∷ tok) toks (inr (tok, n, inl refl)) ns in
          (
            cur ∷ ls,
            rw (fold_from, t) (ap (λ x. cur ++ (crlf ++ x)) out),
            ap (λ x. cur ++ x) all,
            (f, fs),
          )
      | inr t ↦
          let fits : length (cur ++ b' ' ∷ tok) ≤ fold_header_max =
            ground (arith, length-append cur (b' ' ∷ tok)) in
          let (ls, out, all, fs) = fold_from-Folds key (cur ++ b' ' ∷ tok) toks (inl fits) ns in
          (ls, rw (fold_from, t) out, all ∙ append_assoc cur (b' ' ∷ tok) (spaced toks), fs)
    ]

joined-spaced : (w : Bytes) (ws : List Bytes) → joined b' ' (w ∷ ws) ≡ w ++ spaced ws
joined-spaced w [] = sym (append-nil w)
joined-spaced w (v ∷ vs) = ap (λ t. w ++ b' ' ∷ t) (joined-spaced v vs)

-- `fold_header_line` writes lines that put together are the name, a colon, a space and the value;
-- each has at most 78 bytes or is one token, behind a space or behind the name, that has no space to
-- fold at.
pub fold_header_line-Folds :
    (key value : Bytes)
    → Folds key ((key ++ b':' ∷ []) ++ b' ' ∷ value) (fold_header_line key value)
unfolding fold_header_line
fold_header_line-Folds key value =
    let (w, ws, e) = split-cons b' ' value in
    let (n, ns) = subst (All NoSpace) e (split-NoSpace value) in
    let start = (key ++ b':' ∷ []) ++ b' ' ∷ w in
    let (ls, out, all, fs) = fold_from-Folds key start ws (inr (w, n, inr refl)) ns in
    let value_eq : value ≡ w ++ spaced ws =
      join-split b' ' value ∙ ap (joined b' ') e ∙ joined-spaced w ws in
    (
      ls,
      ap (fold_tokens key) e ∙ out,
      all
          ∙ append_assoc (key ++ b':' ∷ []) (b' ' ∷ w) (spaced ws)
          ∙ ap (λ t. (key ++ b':' ∷ []) ++ b' ' ∷ t) (sym value_eq),
      fs,
    )
