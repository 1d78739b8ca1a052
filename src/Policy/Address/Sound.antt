-- ===== src/Policy/Address/Sound.antt =====
-- What an accepted address looks like.
use sigillum.Common.{
  Bytes, ℕ, ◌≤◌, true, false, ◌≡◌, refl, ◌∙◌, ap, inl, inr, ◌↔◌, List, [], ◌∷◌, ◌++◌, none, arith,
  ◌==◌, length, all, All, count, cut_last, cut_last-some, cut_last-append, Option-cases, Bool-cases,
  count-append, all_of_All,
}
use sigillum.Policy.Address.{
  local_part_byte, host_byte, first_is, last_is, split, validate_label, validate_labels,
  validate_domain, has_double_dot, validate_local_bytes, validate_local, validate_mailbox,
}

-- `strings.Join(words, sep)`.
abbrev pub join : ℕ → List Bytes → Bytes
join sep [] = []
join sep (w ∷ []) = w
join sep (w ∷ v ∷ ws) = w ++ (sep ∷ join sep (v ∷ ws))

-- A host name label: letters, digits and inner hyphens, 1 to 63 bytes.
pub record IsLabel (l : Bytes) : Type 0 where
  pub nonempty : 1 ≤ length l
  pub short : length l ≤ 63
  pub no_hyphen_first : first_is b'-' l ≡ false
  pub no_hyphen_last : last_is b'-' l ≡ false
  pub bytes : All (λ c. host_byte c ≡ true) l

-- A host name: labels joined by dots, 1 to 253 bytes.
pub record IsHostName (d : Bytes) : Type 0 where
  pub labels : List Bytes
  pub joined : d ≡ join b'.' labels
  pub all_labels : All IsLabel labels
  pub nonempty : 1 ≤ length d
  pub short : length d ≤ 253

All-host : (l : Bytes) → (all host_byte l ≡ true) → All (λ c. host_byte c ≡ true) l
All-host [] h = tt
All-host (c ∷ l) h = (ground arith, All-host l (ground arith))

validate_label-IsLabel : (l : Bytes) → validate_label l ≡ none → IsLabel l
unfolding validate_label
validate_label-IsLabel l h = record {
  nonempty = ground arith;
  short = ground arith;
  no_hyphen_first = ground arith;
  no_hyphen_last = ground arith;
  bytes = All-host l (ground arith);
}

validate_labels-All : (ls : List Bytes) → validate_labels ls ≡ none → All IsLabel ls
unfolding validate_labels
validate_labels-All [] h = tt
validate_labels-All (l ∷ ls) h = elim (Option-cases (validate_label l)) [
  | inl e ↦ (validate_label-IsLabel l e, validate_labels-All ls (ground arith))
  | inr (x, e) ↦ absurd (ground arith)
]

pub split-cons : (sep : ℕ) (s : Bytes) → (w : Bytes) × (ws : List Bytes) × (split sep s ≡ w ∷ ws)
unfolding split
split-cons sep [] = ([], [], refl)
split-cons sep (x ∷ xs) =
    let (w, ws, e) = split-cons sep xs in
    elim (Bool-cases (x == sep)) [
      | inl t ↦ ([], w ∷ ws, ground arith)
      | inr f ↦ (x ∷ w, ws, ground arith)
    ]

join-cons :
    (sep x : ℕ) (w : Bytes) (ws : List Bytes) → join sep ((x ∷ w) ∷ ws) ≡ x ∷ join sep (w ∷ ws)
join-cons sep x w [] = refl
join-cons sep x w (v ∷ vs) = refl

pub join-split : (sep : ℕ) (s : Bytes) → s ≡ join sep (split sep s)
unfolding split
join-split sep [] = refl
join-split sep (x ∷ xs) =
    let (w, ws, e) = split-cons sep xs in ground (arith, join-split sep xs, join-cons sep x w ws)

split-join :
    (sep : ℕ) (w : Bytes) (ws : List Bytes)
    → All (λ l. count sep l ≡ 0) (w ∷ ws)
    → split sep (join sep (w ∷ ws)) ≡ w ∷ ws
unfolding split
split-join sep [] [] h = refl
split-join sep [] (v ∷ vs) h = ground (arith, split-join sep v vs h.1)
split-join sep (x ∷ w) ws h =
    rw (join-cons sep x w ws) (ground (arith, split-join sep w ws (ground arith, h.1)))

IsLabel-validate_label : (l : Bytes) → IsLabel l → validate_label l ≡ none
unfolding validate_label
IsLabel-validate_label l h =
    ground
      (arith, (all_of_All (λ c. host_byte c ≡ true) host_byte l (λ c. (λ e. e, λ e. e))).1 h.bytes)

All-validate_labels : (ls : List Bytes) → All IsLabel ls → validate_labels ls ≡ none
unfolding validate_labels
All-validate_labels [] h = refl
All-validate_labels (l ∷ ls) h =
    ground (arith, IsLabel-validate_label l h.0, All-validate_labels ls h.1)

count-host :
    (c : ℕ) (l : Bytes) → host_byte c ≡ false → All (λ x. host_byte x ≡ true) l → count c l ≡ 0
count-host c [] n h = refl
count-host c (x ∷ l) n h = ground (arith, count-host c l n h.1)

All-no_dot : (ls : List Bytes) → All IsLabel ls → All (λ l. count b'.' l ≡ 0) ls
All-no_dot [] h = tt
All-no_dot (l ∷ ls) h = (count-host b'.' l refl h.0.bytes, All-no_dot ls h.1)

split-host :
    (ls : List Bytes) (d : Bytes)
    → d ≡ join b'.' ls
    → 1 ≤ length d
    → All IsLabel ls
    → split b'.' d ≡ ls
split-host [] d e n h = absurd (omega (arith, ap length e))
split-host (l ∷ ls) d e n h = rw e (split-join b'.' l ls (All-no_dot (l ∷ ls) h))

-- `validate_domain` accepts exactly the texts of 1 to 253 bytes that are labels joined by dots, each
-- 1 to 63 letters, digits and hyphens with no hyphen at either end.
pub validate_domain_iff : (d : Bytes) → (validate_domain d ≡ none) ↔ IsHostName d
unfolding validate_domain
validate_domain_iff d = (accepted, complete)
  where
    accepted : validate_domain d ≡ none → IsHostName d
    accepted h = record {
      labels = split b'.' d;
      joined = join-split b'.' d;
      all_labels = validate_labels-All (split b'.' d) (ground arith);
      nonempty = ground arith;
      short = ground arith;
    }

    complete : IsHostName d → validate_domain d ≡ none
    complete h = ground (
      arith,
      split-host h.labels d h.joined h.nonempty h.all_labels,
      All-validate_labels h.labels h.all_labels,
    )

-- A local part: a dot-atom of bytes that carry no routing of their own.
pub record IsLocal (l : Bytes) : Type 0 where
  pub nonempty : 1 ≤ length l
  pub no_dot_first : first_is b'.' l ≡ false
  pub no_dot_last : last_is b'.' l ≡ false
  pub no_double_dot : has_double_dot l ≡ false
  pub bytes : All (λ c. local_part_byte c ≡ true) l

-- An addr-spec that policies can be applied to: a local part, one '@', a host name.
pub record IsMailbox (addr : Bytes) : Type 0 where
  pub local : Bytes
  pub domain : Bytes
  pub splits : addr ≡ local ++ (b'@' ∷ domain)
  pub local_ok : IsLocal local
  pub domain_ok : IsHostName domain

validate_local_bytes_iff :
    (l : Bytes) → (validate_local_bytes l ≡ none) ↔ All (λ c. local_part_byte c ≡ true) l
unfolding validate_local_bytes
validate_local_bytes_iff [] = (λ _. tt, λ _. refl)
validate_local_bytes_iff (c ∷ l) = ground (arith, validate_local_bytes_iff l)

validate_local-IsLocal : (l : Bytes) → 1 ≤ length l → validate_local l ≡ none → IsLocal l
unfolding validate_local
validate_local-IsLocal l n h = record {
  nonempty = n;
  no_dot_first = ground arith;
  no_dot_last = ground arith;
  no_double_dot = ground arith;
  bytes = (validate_local_bytes_iff l).0 (ground arith);
}

IsLocal-validate_local : (l : Bytes) → IsLocal l → validate_local l ≡ none
unfolding validate_local
IsLocal-validate_local l h = ground (arith, (validate_local_bytes_iff l).1 h.bytes)

validate_mailbox-IsMailbox : (addr : Bytes) → validate_mailbox addr ≡ none → IsMailbox addr
unfolding validate_mailbox
validate_mailbox-IsMailbox addr h = elim (Option-cases (cut_last b'@' addr)) [
  | inl e ↦ absurd (ground arith)
  | inr ((l, d), e) ↦ elim (Option-cases (validate_domain d)) [
    | inl ok ↦ record {
      local = l;
      domain = d;
      splits = (cut_last-some b'@' addr e).0;
      local_ok = validate_local-IsLocal l (ground arith) (ground arith);
      domain_ok = (validate_domain_iff d).0 ok;
    }
    | inr (x, bad) ↦ absurd (ground arith)
  ]
]

-- A byte that no label holds stands in no host name, but for the dots that join the labels.
count-join :
    (c : ℕ) (ls : List Bytes)
    → host_byte c ≡ false
    → (b'.' == c) ≡ false
    → All IsLabel ls
    → count c (join b'.' ls) ≡ 0
count-join c [] n m h = refl
count-join c (l ∷ []) n m h = count-host c l n h.0.bytes
count-join c (l ∷ v ∷ ls) n m h = ground (
  arith,
  count-append c l (b'.' ∷ join b'.' (v ∷ ls)),
  count-host c l n h.0.bytes,
  count-join c (v ∷ ls) n m h.1,
)

count-host_name :
    (c : ℕ) (d : Bytes) → host_byte c ≡ false → (b'.' == c) ≡ false → IsHostName d → count c d ≡ 0
count-host_name c d n m h = ap (count c) h.joined ∙ count-join c h.labels n m h.all_labels

IsMailbox-validate_mailbox : (addr : Bytes) → IsMailbox addr → validate_mailbox addr ≡ none
unfolding validate_mailbox
IsMailbox-validate_mailbox addr m =
    let at =
      cut_last-append b'@' m.local m.domain (count-host_name b'@' m.domain refl refl m.domain_ok) in
    rw (m.splits, at, validate_mailbox)
      (ground (
        arith,
        (validate_domain_iff m.domain).1 m.domain_ok,
        IsLocal-validate_local m.local m.local_ok,
      ))

-- `validate_mailbox` accepts exactly the texts that are a nonempty dot-atom of allowed bytes, an `@`
-- and a host name.
pub validate_mailbox_iff : (addr : Bytes) → (validate_mailbox addr ≡ none) ↔ IsMailbox addr
validate_mailbox_iff addr = (validate_mailbox-IsMailbox addr, IsMailbox-validate_mailbox addr)

count-local :
    (c : ℕ) (l : Bytes)
    → local_part_byte c ≡ false
    → All (λ x. local_part_byte x ≡ true) l
    → count c l ≡ 0
count-local c [] n h = refl
count-local c (x ∷ l) n h = ground (arith, count-local c l n h.1)
