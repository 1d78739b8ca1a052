-- ===== src/SmtpProxy/Bcc/Lines.antt =====
-- Lines: splitting a message into them, putting them together, and the header's part.
use mathlib.Core.List.{append_assoc}
use sigillum.Common.{
  join, Bytes, ℕ, true, false, ◌≡◌, refl, sym, ap, ◌∙◌, inl, inr, List, [], ◌∷◌, ◌++◌, Option, none,
  some, arith, ◌==◌, count, All, Bool-cases, Option-cases,
}
use sigillum.SmtpProxy.Bcc.{cons_byte, cons_header, line_feed, split_lines, is_blank, header_end}

pub join-append : (xs ys : List Bytes) → join (xs ++ ys) ≡ join xs ++ join ys
join-append [] ys = refl
join-append (x ∷ xs) ys =
    ap (λ t. x ++ t) (join-append xs ys) ∙ sym (append_assoc x (join xs) (join ys))

join-cons_byte : (c : ℕ) (ls : List Bytes) → join (cons_byte c ls) ≡ c ∷ join ls
join-cons_byte c [] = refl
join-cons_byte c (l ∷ ls) = elim (Bool-cases (c == 10)) [
  | inl e ↦ rw e (ap (λ x. x ∷ (l ++ join ls)) (ground arith))
  | inr e ↦ rw e refl
]

pub join-split_lines : (s : Bytes) → join (split_lines s) ≡ s
unfolding split_lines
join-split_lines [] = refl
join-split_lines (c ∷ s) = join-cons_byte c (split_lines s) ∙ ap (λ t. c ∷ t) (join-split_lines s)

-- A line that ends in its only line feed.
pub record IsTerminated (l : Bytes) : Type 0 where
  pub text : Bytes
  pub ends : l ≡ text ++ line_feed
  pub one_feed : count 10 text ≡ 0

-- All lines but the last are terminated.
abbrev pub AreLines : List Bytes → Type 0
AreLines [] = Unit
AreLines (l ∷ []) = Unit
AreLines (l ∷ m ∷ ls) = IsTerminated l × AreLines (m ∷ ls)

AreLines-cons_byte : (c : ℕ) (ls : List Bytes) → AreLines ls → AreLines (cons_byte c ls)
AreLines-cons_byte c [] t = tt
AreLines-cons_byte c (l ∷ []) t = elim (Bool-cases (c == 10)) [
  | inl e ↦ rw e (record { text = []; ends = refl; one_feed = refl }, tt)
  | inr e ↦ rw e tt
]
AreLines-cons_byte c (l ∷ m ∷ ls) t = elim (Bool-cases (c == 10)) [
  | inl e ↦ rw e (record { text = []; ends = refl; one_feed = refl }, t)
  | inr e ↦ rw e (
    record {
      text = c ∷ t.0.text;
      ends = ap (λ x. c ∷ x) t.0.ends;
      one_feed = ground (arith, t.0.one_feed);
    },
    t.1,
  )
]

pub AreLines-split_lines : (s : Bytes) → AreLines (split_lines s)
unfolding split_lines
AreLines-split_lines [] = tt
AreLines-split_lines (c ∷ s) = AreLines-cons_byte c (split_lines s) (AreLines-split_lines s)

-- What `header_end` finds: the lines before the first blank one.
pub record Splits (ls h b : List Bytes) : Type 0 where
  pub whole : ls ≡ h ++ b
  pub no_blank : All (λ l. is_blank l ≡ false) h
  pub blank : Bytes
  pub rest : List Bytes
  pub from_blank : b ≡ blank ∷ rest
  pub at_blank : is_blank blank ≡ true

abbrev pub Found : List Bytes → Option (List Bytes × List Bytes) → Type 0
Found ls none = Unit
Found ls (some (h, b)) = Splits ls h b

cons_header-Found :
    (l : Bytes) (ls : List Bytes) (o : Option (List Bytes × List Bytes))
    → is_blank l ≡ false
    → Found ls o
    → Found (l ∷ ls) (cons_header l o)
cons_header-Found l ls none t f = tt
cons_header-Found l ls (some (h, b)) t f = record {
  whole = ap (λ x. l ∷ x) f.whole;
  no_blank = (t, f.no_blank);
  blank = f.blank;
  rest = f.rest;
  from_blank = f.from_blank;
  at_blank = f.at_blank;
}

pub header_end-Found : (ls : List Bytes) → Found ls (header_end ls)
unfolding header_end
header_end-Found [] = tt
header_end-Found (l ∷ ls) = elim (Bool-cases (is_blank l)) [
  | inl t ↦
      rw (header_end, t)
        (record {
          whole = refl;
          no_blank = tt;
          blank = l;
          rest = ls;
          from_blank = refl;
          at_blank = t;
        })
  | inr t ↦ rw (header_end, t) (cons_header-Found l ls (header_end ls) t (header_end-Found ls))
]

pub header_end-none : (ls : List Bytes) → header_end ls ≡ none → All (λ l. is_blank l ≡ false) ls
unfolding header_end
header_end-none [] e = tt
header_end-none (l ∷ ls) e = elim (Bool-cases (is_blank l)) [
  | inl t ↦ absurd (ground arith)
  | inr t ↦ elim (Option-cases (header_end ls)) [
    | inl n ↦ (t, header_end-none ls n)
    | inr (x, n) ↦ absurd (ground arith)
  ]
]

pub Splits-join :
    (raw : Bytes) (h b : List Bytes) → Splits (split_lines raw) h b → raw ≡ join h ++ join b
Splits-join raw h b s = sym (join-split_lines raw) ∙ ap join s.whole ∙ join-append h b
