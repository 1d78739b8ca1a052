-- ===== src/Policy/Match/Best.antt =====
-- The policy that `match` returns is the best of the candidates.
use mathlib.Core.List.{head?, Memᴰ, append_assoc}
use mathlib.Core.List.Memᴰ
use sigillum.Common.{
  true, false, ◌≡◌, refl, ap, List, [], ◌∷◌, some, arith, All, ◌++◌, subst, Bool-cases,
  bytes_lt_neg_trans, bytes_lt_asymm, inl, inr,
}
use sigillum.Policy.Types.{MailPolicy, Caller, Platform}
use sigillum.Policy.Match.{is_candidate, candidates, less, insert, stable_sort, match}

less_neg_trans : (a b c : MailPolicy) → less a b ≡ false → less b c ≡ false → less a c ≡ false
unfolding less
less_neg_trans a b c h k = ground (arith, bytes_lt_neg_trans a.name b.name c.name)

less_asymm : (a b : MailPolicy) → less a b ≡ true → less b a ≡ false
unfolding less
less_asymm a b h = ground (arith, bytes_lt_asymm a.name b.name)

less_irrefl : (a : MailPolicy) → less a a ≡ false
less_irrefl a = elim (Bool-cases (less a a)) [ inl e ↦ less_asymm a a e | inr e ↦ e ]

-- No element of the list goes before `p`.
abbrev pub IsLeast : MailPolicy → List MailPolicy → Type 0
IsLeast p = All (λ q. less q p ≡ false)

IsLeast-trans :
    (p q : MailPolicy) (qs : List MailPolicy) → less q p ≡ false → IsLeast q qs → IsLeast p qs
IsLeast-trans p q [] h l = tt
IsLeast-trans p q (r ∷ qs) h l = (less_neg_trans r q p l.0 h, IsLeast-trans p q qs h l.1)

abbrev HeadLeast : List MailPolicy → Type 0
HeadLeast [] = Unit
HeadLeast (p ∷ ps) = IsLeast p ps

IsLeast-insert :
    (r p : MailPolicy) (ps : List MailPolicy)
    → less p r ≡ false
    → IsLeast r ps
    → IsLeast r (insert p ps)
unfolding insert
IsLeast-insert r p [] h l = (h, tt)
IsLeast-insert r p (q ∷ qs) h l = elim (Bool-cases (less q p)) [
  | inl e ↦ rw e (l.0, IsLeast-insert r p qs h l.1)
  | inr e ↦ rw e (h, l)
]

insert-HeadLeast : (p : MailPolicy) (ps : List MailPolicy) → HeadLeast ps → HeadLeast (insert p ps)
unfolding insert
insert-HeadLeast p [] h = tt
insert-HeadLeast p (q ∷ qs) h = elim (Bool-cases (less q p)) [
  | inl e ↦ rw e (IsLeast-insert q p qs (less_asymm q p e) h)
  | inr e ↦ rw e (e, IsLeast-trans p q qs e h)
]

stable_sort-HeadLeast : (ps : List MailPolicy) → HeadLeast (stable_sort ps)
unfolding stable_sort
stable_sort-HeadLeast [] = tt
stable_sort-HeadLeast (p ∷ ps) = insert-HeadLeast p (stable_sort ps) (stable_sort-HeadLeast ps)

-- `All` of a predicate carries over to and from the sorted list.
module _ (P : MailPolicy → Type 0) where
  All-insert : (p : MailPolicy) (ps : List MailPolicy) → P p → All P ps → All P (insert p ps)
  unfolding insert
  All-insert p [] h l = (h, tt)
  All-insert p (q ∷ qs) h l = elim (Bool-cases (less q p)) [
    | inl e ↦ rw e (l.0, All-insert p qs h l.1)
    | inr e ↦ rw e (h, l)
  ]

  All-stable_sort : (ps : List MailPolicy) → All P ps → All P (stable_sort ps)
  unfolding stable_sort
  All-stable_sort [] l = tt
  All-stable_sort (p ∷ ps) l = All-insert p (stable_sort ps) l.0 (All-stable_sort ps l.1)

  All-of_insert : (p : MailPolicy) (ps : List MailPolicy) → All P (insert p ps) → P p × All P ps
  unfolding insert
  All-of_insert p [] l = l
  All-of_insert p (q ∷ qs) l = elim (Bool-cases (less q p)) [
    | inl e ↦
        let m : P q × All P (insert p qs) = rw e at l in
        let (hp, hqs) = All-of_insert p qs m.1 in (hp, (m.0, hqs))
    | inr e ↦ rw e at l
  ]

  All-of_stable_sort : (ps : List MailPolicy) → All P (stable_sort ps) → All P ps
  unfolding stable_sort
  All-of_stable_sort [] l = tt
  All-of_stable_sort (p ∷ ps) l =
      let (h, r) = All-of_insert p (stable_sort ps) l in (h, All-of_stable_sort ps r)

module _ (env : Platform) (c : Caller) where
  -- The candidates are the listed policies that pass the three guards.
  candidates-All :
      (P : MailPolicy → Type 0) (ps : List MailPolicy)
      → All P ps
      → All (λ q. P q × (is_candidate env c q ≡ true)) (candidates env c ps)
  unfolding candidates
  candidates-All P [] l = tt
  candidates-All P (p ∷ ps) l = elim (Bool-cases (is_candidate env c p)) [
    | inl e ↦ rw e ((l.0, e), candidates-All P ps l.1)
    | inr e ↦ rw e (candidates-All P ps l.1)
  ]

  All-of_candidates :
      (P : MailPolicy → Type 0) (ps : List MailPolicy)
      → All P (candidates env c ps)
      → All (λ q. is_candidate env c q ≡ true → P q) ps
  unfolding candidates
  All-of_candidates P [] l = tt
  All-of_candidates P (p ∷ ps) l = elim (Bool-cases (is_candidate env c p)) [
    | inl e ↦
        let m : P p × All P (candidates env c ps) = rw e at l in
        (λ _. m.0, All-of_candidates P ps m.1)
    | inr e ↦ (λ t. absurd (cc), All-of_candidates P ps (rw e at l))
  ]

All-mem : (ps qs : List MailPolicy) → All (λ q. Memᴰ q (ps ++ qs)) qs
All-mem ps [] = tt
All-mem ps (q ∷ qs) = (
  Memᴰ.append_right ps (Memᴰ.head refl),
  rw (append_assoc ps (q ∷ []) qs) at (All-mem (ps ++ q ∷ []) qs),
)

-- `p` is a candidate and stands in the list where every candidate listed earlier comes after it, so
-- none of them ties; and no candidate of the list goes before it.
abbrev pub IsBest : Platform → Caller → List MailPolicy → MailPolicy → Type 0
IsBest env c ps p =
    (is_candidate env c p ≡ true)
    × All (λ q. is_candidate env c q ≡ true → less q p ≡ false) ps
    × (before : List MailPolicy) × (after : List MailPolicy) × (ps ≡ before ++ p ∷ after)
    × All (λ q. is_candidate env c q ≡ true → less p q ≡ true) before

head-IsLeast :
    (p : MailPolicy) (ps : List MailPolicy) → head? ps ≡ some p → HeadLeast ps → IsLeast p ps
head-IsLeast p [] h l = cc
head-IsLeast p (q ∷ qs) h l =
    let e : q ≡ p = cc in subst (λ r. IsLeast r (q ∷ qs)) e (less_irrefl q, l)

-- The head of a sorted list is the first of the list among those that tie with it.
IsFirst : MailPolicy → List MailPolicy → Type 0
IsFirst p ps =
    (before : List MailPolicy) × (after : List MailPolicy) × (ps ≡ before ++ p ∷ after)
    × All (λ q. less p q ≡ true) before

insert-IsFirst :
    (p x : MailPolicy) (sorted xs : List MailPolicy)
    → ((q : MailPolicy) → head? sorted ≡ some q → IsFirst q xs)
    → head? (insert x sorted) ≡ some p
    → IsFirst p (x ∷ xs)
unfolding insert IsFirst
insert-IsFirst p x [] xs first h = ([], xs, cc, tt)
insert-IsFirst p x (q ∷ qs) xs first h = elim (Bool-cases (less q x)) [
  | inr e ↦ let k : some x ≡ some p = rw e at h in ([], xs, cc, tt)
  | inl e ↦
      let k : some q ≡ some p = rw e at h in
      let l : q ≡ p = cc in
      let (before, after, s, a) = first p k in
      (x ∷ before, after, cc, (subst (λ r. less r x ≡ true) l e, a))
]

stable_sort-IsFirst :
    (p : MailPolicy) (ps : List MailPolicy) → head? (stable_sort ps) ≡ some p → IsFirst p ps
unfolding stable_sort
stable_sort-IsFirst p [] h = cc
stable_sort-IsFirst p (x ∷ xs) h =
    insert-IsFirst p x (stable_sort xs) xs (λ q k. stable_sort-IsFirst q xs k) h

module _ (env : Platform) (c : Caller) where
  -- The first candidate of the kind stands in the list behind others and candidates that it beats.
  candidates-IsFirst :
      (p : MailPolicy) (ps : List MailPolicy)
      → IsFirst p (candidates env c ps)
      → (is_candidate env c p ≡ true)
        × (before : List MailPolicy) × (after : List MailPolicy) × (ps ≡ before ++ p ∷ after)
        × All (λ q. is_candidate env c q ≡ true → less p q ≡ true) before
  unfolding candidates IsFirst
  candidates-IsFirst p [] ([], after, e, a) = cc
  candidates-IsFirst p [] (x ∷ before, after, e, a) = cc
  candidates-IsFirst p (x ∷ xs) first = elim (Bool-cases (is_candidate env c x)) [
    | inr t ↦
        let (k, before, after, s, a) = candidates-IsFirst p xs (rw t at first) in
        (k, x ∷ before, after, ap (λ l. x ∷ l) s, (λ u. absurd (cc), a))
    | inl t ↦ passed x xs t (rw t at first) (candidates-IsFirst p xs)
  ]
    where
      passed :
          (x : MailPolicy) (xs : List MailPolicy)
          → is_candidate env c x ≡ true
          → IsFirst p (x ∷ candidates env c xs)
          → (IsFirst p (candidates env c xs)
              → (is_candidate env c p ≡ true)
                × (before : List MailPolicy) × (after : List MailPolicy) × (xs
                    ≡ before ++ p ∷ after)
                × All (λ q. is_candidate env c q ≡ true → less p q ≡ true) before)
          → (is_candidate env c p ≡ true)
            × (before : List MailPolicy) × (after : List MailPolicy) × (x ∷ xs
                ≡ before ++ p ∷ after)
            × All (λ q. is_candidate env c q ≡ true → less p q ≡ true) before
      passed x xs t ([], after, e, a) rest =
          let l : x ≡ p = cc in
          (subst (λ r. is_candidate env c r ≡ true) l t, [], xs, ap (λ r. r ∷ xs) l, tt)
      passed x xs t (y ∷ before, after, e, a) rest =
          let l : y ≡ x = cc in
          let m : candidates env c xs ≡ before ++ p ∷ after = cc in
          let (k, b, f, s, d) = rest (before, after, m, a.1) in
          (k, x ∷ b, f, ap (λ r. x ∷ r) s, (λ u. subst (λ r. less p r ≡ true) l a.0, d))

-- The policy that `match` returns is a candidate for the caller, no candidate of the list goes
-- before it by priority and name, and it stands in the list where every candidate listed earlier
-- comes after it, so that none of those ties with it.
pub match-IsBest :
    (env : Platform) (policies : List MailPolicy) (c : Caller) {p : MailPolicy}
    → match env policies c ≡ some p
    → IsBest env c policies p
unfolding match
match-IsBest env policies c {p} h =
    let chosen = candidates env c policies in
    let least = head-IsLeast p (stable_sort chosen) h (stable_sort-HeadLeast chosen) in
    let (is, before, after, s, a) =
      candidates-IsFirst env c p policies (stable_sort-IsFirst p chosen h) in
    (
      is,
      All-of_candidates env c (λ q. less q p ≡ false) policies (All-of_stable_sort _ chosen least),
      before,
      after,
      s,
      a,
    )
