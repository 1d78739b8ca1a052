-- ===== src/RateLimit/Tracked.antt =====
-- One key's stored history against the log of its admitted messages.
use sigillum.Common.{
  ℕ, zero, suc, ◌+◌, ◌-◌, ◌≤◌, true, ◌≡◌, refl, sym, ap, subst, ◌∙◌, inl, inr, List, [], ◌∷◌, ◌++◌,
  Option, none, some, arith, ltb, All, take, drop, Bool-cases,
}
use mathlib.Core.List.{append_assoc, append-nil}
use sigillum.RateLimit.{
  Limits, History, no_history, keep, retain, since, later, live, trimmed, entry, drop_last,
  is_empty,
}
use sigillum.RateLimit.Windows.{
  recent, recent-append, recent-AllOld, AllOld, IsSorted, IsSorted-drop, All-drop, All-append,
  take-since-AllOld,
}
use sigillum.RateLimit.Room.{keep-le-retain}

-- A stored history against the log of its key, where `kept` is how long hits count: the log is
-- hits that no longer count, and then those stored.
pub record Tracked (now kept : ℕ) (h : History) (log : List ℕ) : Type 0 where
  pub forgotten : List ℕ
  pub splits : log ≡ forgotten ++ h.hits
  pub aged : AllOld now kept forgotten
  pub sorted : IsSorted h.hits
  pub past : All (λ t. t ≤ now) h.hits
  pub covered : All (λ t. t + kept ≤ h.expires) h.hits

All-le_trans : (a b k : ℕ) (ts : List ℕ) → a ≤ b → All (λ t. t + k ≤ a) ts → All (λ t. t + k ≤ b) ts
All-le_trans a b k [] h l = tt
All-le_trans a b k (t ∷ ts) h l = (omega arith, All-le_trans a b k ts h l.1)

All-past : (a b : ℕ) (ts : List ℕ) → a ≤ b → All (λ t. t ≤ a) ts → All (λ t. t ≤ b) ts
All-past a b [] h l = tt
All-past a b (t ∷ ts) h l = (omega arith, All-past a b ts h l.1)

pub Tracked-later :
    (now after kept : ℕ) (h : History) (log : List ℕ)
    → now ≤ after
    → Tracked now kept h log
    → Tracked after kept h log
Tracked-later now after kept h log le t = record {
  forgotten = t.forgotten;
  splits = t.splits;
  aged = All-le_trans now after kept t.forgotten le t.aged;
  sorted = t.sorted;
  past = All-past now after h.hits le t.past;
  covered = t.covered;
}

-- A history whose expiry has passed tracks the log by nothing at all.
Tracked-expired :
    (now kept : ℕ) (h : History) (log : List ℕ)
    → h.expires ≤ now
    → Tracked now kept h log
    → Tracked now kept no_history log
Tracked-expired now kept h log gone t = record {
  forgotten = log;
  splits = sym (append-nil log);
  aged = subst (AllOld now kept) (sym t.splits) (
      All-append (λ u. u + kept ≤ now) t.forgotten h.hits t.aged
        (All-le_trans h.expires now kept h.hits gone t.covered));
  sorted = tt;
  past = tt;
  covered = tt;
}

pub Tracked-live :
    (now kept : ℕ) (o : Option History) (log : List ℕ)
    → Tracked now kept (entry o) log
    → Tracked now kept (live now o) log
unfolding live
Tracked-live now kept none log t = t
Tracked-live now kept (some h) log t = elim (Bool-cases (ltb now h.expires)) [
  | inl e ↦ rw e t
  | inr e ↦ rw e (Tracked-expired now kept h log (ground arith) t)
]

take-append-drop : (n : ℕ) (xs : List ℕ) → xs ≡ take n xs ++ drop n xs
take-append-drop zero xs = refl
take-append-drop (suc n) [] = refl
take-append-drop (suc n) (x ∷ xs) = ap (λ t. x ∷ t) (take-append-drop n xs)

pub Tracked-trimmed :
    (now : ℕ) (limits : Limits) (h : History) (log : List ℕ)
    → Tracked now (keep limits) h log
    → Tracked now (keep limits) (record { hits = trimmed now limits h; expires = h.expires }) log
unfolding trimmed
Tracked-trimmed now limits h log t =
    let reach = retain limits (h.expires - now) in
    let cut = since now reach h.hits in
    record {
      forgotten = t.forgotten ++ take cut h.hits;
      splits =
          t.splits
          ∙ ap (λ u. t.forgotten ++ u) (take-append-drop cut h.hits)
          ∙ sym (append_assoc t.forgotten (take cut h.hits) (drop cut h.hits));
      aged = All-append _ t.forgotten (take cut h.hits) t.aged (
          take-since-AllOld now reach (keep limits) h.hits
            (keep-le-retain limits (h.expires - now)));
      sorted = IsSorted-drop cut h.hits t.sorted;
      past = All-drop _ cut h.hits t.past;
      covered = All-drop _ cut h.hits t.covered;
    }

IsSorted-append_now :
    (now : ℕ) (ts : List ℕ) → IsSorted ts → All (λ t. t ≤ now) ts → IsSorted (ts ++ now ∷ [])
IsSorted-append_now now [] h p = (tt, tt)
IsSorted-append_now now (t ∷ ts) h p =
    (All-append _ ts (now ∷ []) h.0 (p.0, tt), IsSorted-append_now now ts h.1 p.1)

pub Tracked-append :
    (now : ℕ) (limits : Limits) (h : History) (log : List ℕ)
    → Tracked now (keep limits) h log
    → Tracked now
        (keep limits)
        (record { hits = h.hits ++ now ∷ []; expires = later h.expires (now + keep limits) })
        (log ++ now ∷ [])
unfolding later
Tracked-append now limits h log t = record {
  forgotten = t.forgotten;
  splits = ap (λ u. u ++ now ∷ []) t.splits ∙ append_assoc t.forgotten h.hits (now ∷ []);
  aged = t.aged;
  sorted = IsSorted-append_now now h.hits t.sorted t.past;
  past = All-append _ h.hits (now ∷ []) t.past (omega arith, tt);
  covered =
      All-append _ h.hits (now ∷ [])
        (All-le_trans h.expires _ (keep limits) h.hits (ground arith) t.covered) (ground arith, tt);
}

All-drop_last : (P : ℕ → Type 0) (ts : List ℕ) → All P ts → All P (drop_last ts)
All-drop_last P [] h = tt
All-drop_last P (t ∷ []) h = tt
All-drop_last P (t ∷ u ∷ ts) h = (h.0, All-drop_last P (u ∷ ts) h.1)

IsSorted-drop_last : (ts : List ℕ) → IsSorted ts → IsSorted (drop_last ts)
IsSorted-drop_last [] h = tt
IsSorted-drop_last (t ∷ []) h = tt
IsSorted-drop_last (t ∷ u ∷ ts) h =
    (All-drop_last (λ v. t ≤ v) (u ∷ ts) h.0, IsSorted-drop_last (u ∷ ts) h.1)

pub drop_last-append :
    (xs : List ℕ) (y : ℕ) (ys : List ℕ) → drop_last (xs ++ (y ∷ ys)) ≡ xs ++ drop_last (y ∷ ys)
drop_last-append [] y ys = refl
drop_last-append (x ∷ []) y ys = refl
drop_last-append (x ∷ z ∷ xs) y ys = ap (λ t. x ∷ t) (drop_last-append (z ∷ xs) y ys)

-- An empty history stays as it is: what the log then loses no longer counts.
Tracked-no_hits :
    (now kept e : ℕ) (log : List ℕ)
    → Tracked now kept (record { hits = []; expires = e }) log
    → Tracked now kept (record { hits = []; expires = e }) (drop_last log)
Tracked-no_hits now kept e log t = record {
  forgotten = drop_last t.forgotten;
  splits =
      ap drop_last (t.splits ∙ append-nil t.forgotten) ∙ sym (append-nil (drop_last t.forgotten));
  aged = All-drop_last _ t.forgotten t.aged;
  sorted = tt;
  past = tt;
  covered = tt;
}

pub Tracked-drop_last :
    (now kept e : ℕ) (hits log : List ℕ)
    → Tracked now kept (record { hits = hits; expires = e }) log
    → Tracked now kept (record { hits = drop_last hits; expires = e }) (drop_last log)
Tracked-drop_last now kept e [] log t = Tracked-no_hits now kept e log t
Tracked-drop_last now kept e (x ∷ xs) log t = record {
  forgotten = t.forgotten;
  splits = ap drop_last t.splits ∙ drop_last-append t.forgotten x xs;
  aged = t.aged;
  sorted = IsSorted-drop_last (x ∷ xs) t.sorted;
  past = All-drop_last _ (x ∷ xs) t.past;
  covered = All-drop_last _ (x ∷ xs) t.covered;
}

-- What the log says of a window is what the stored history says.
pub recent-Tracked :
    (now kept s : ℕ) (h : History) (log : List ℕ)
    → Tracked now kept h log
    → s ≤ kept
    → recent now s log ≡ recent now s h.hits
recent-Tracked now kept s h log t le = rw t.splits (
    omega (
      arith,
      recent-append now s t.forgotten h.hits,
      recent-AllOld now kept s t.forgotten t.aged le,
    ))

pub is_empty-drop_last : (ts : List ℕ) → is_empty ts ≡ true → drop_last ts ≡ ts
is_empty-drop_last [] h = refl
is_empty-drop_last (t ∷ ts) h = cc
