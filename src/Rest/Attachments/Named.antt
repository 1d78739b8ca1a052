-- ===== src/Rest/Attachments/Named.antt =====
-- What naming the parts of a form by content IDs leaves as it was, and which IDs are distinct.
use sigillum.Common.{
  Bytes, ℕ, suc, false, ◌≡◌, ◌≢◌, ◌↔◌, ◌⊎◌, inl, inr, refl, ap, ◌∙◌, List, [], ◌∷◌, map, none,
  arith, All, bytes_eq, Bool-cases, Option-cases, if◌then◌else◌,
}
use sigillum.Policy.Types.{Platform}
use sigillum.Gateway.Types.{ok, Attachment}
use sigillum.Gateway.ContentId.{validate_content_id}
use sigillum.Rest.Types.{Entries, HttpLib}
use sigillum.Rest.Checks.{contains}
use sigillum.Rest.Checks.Sound.{
  NotIn, Distinct, contains-false, All-pair, All-NotIn_nil, and_then-ok,
}
use sigillum.Rest.Attachments.{
  Found, nowhere, twice, at, find_part, name_part, id_at, sort_entries, check_unique,
  unique_content_ids, apply_content_id, apply_each, apply_content_ids,
}

abbrev pub contents : List Attachment → List Bytes
contents l = map (λ a. a.content) l

contents-name_part :
    (i : ℕ) (id : Bytes) (l : List Attachment) → contents (name_part i id l) ≡ contents l
unfolding name_part
contents-name_part i id [] = refl
contents-name_part ℕ.zero id (a ∷ l) = refl
contents-name_part (suc i) id (a ∷ l) = ap (λ t. a.content ∷ t) (contents-name_part i id l)

-- The content IDs that are set, in lower case.
abbrev pub ids : Platform → List Attachment → List Bytes
ids env [] = []
ids env (a ∷ l) =
    let rest = ids env l in
    if bytes_eq a.content_id [] then rest else env.to_lower a.content_id ∷ rest

Found-cases : (f : Found) → (f ≡ nowhere) ⊎ ((f ≡ twice) ⊎ ((i : ℕ) × (f ≡ at i)))
Found-cases nowhere = inl refl
Found-cases twice = inr (inl refl)
Found-cases (at i) = inr (inr (i, refl))

module _ (env : Platform) (lib : HttpLib) where
  contents-apply_content_id :
      (names : List Bytes) (n id : Bytes) (l : List Attachment) {out : List Attachment}
      → apply_content_id env lib names n id l ≡ ok out
      → contents out ≡ contents l
  unfolding apply_content_id
  contents-apply_content_id names n id l {out} e =
      elim (Found-cases (find_part n 0 nowhere names)) [
        | inl t ↦ ground (arith, t, e)
        | inr (inl t) ↦ ground (arith, t, e)
        | inr (inr (i, t)) ↦ elim (Bool-cases (bytes_eq (id_at i l) [])) [
          | inr s ↦ ground (arith, t, s, e)
          | inl s ↦ elim (Option-cases (validate_content_id lib.quote id)) [
            | inr (x, v) ↦ ground (arith, t, s, v, e)
            | inl v ↦
                let made : out ≡ name_part i id l = ground (arith, t, s, v, e) in
                rw made (contents-name_part i id l)
          ]
        ]
      ]

  contents-apply_each :
      (names : List Bytes) (ids : Entries) (l : List Attachment) {out : List Attachment}
      → apply_each env lib names ids l ≡ ok out
      → contents out ≡ contents l
  unfolding apply_each
  contents-apply_each names [] l e = cc
  contents-apply_each names ((n, id) ∷ ids) l e =
      let (next, got, rest) = and_then-ok _ (apply_each env lib names ids) e in
      contents-apply_each names ids next rest ∙ contents-apply_content_id names n id l got

  pub contents-apply_content_ids :
      (ids : Entries) (l : List Attachment) (names : List Bytes) {out : List Attachment}
      → apply_content_ids env lib ids l names ≡ ok out
      → contents out ≡ contents l
  unfolding apply_content_ids
  contents-apply_content_ids ids l names e = contents-apply_each names (sort_entries ids) l e

  check_unique_iff :
      (seen : List Bytes) (l : List Attachment)
      → (check_unique env lib seen l ≡ none) ↔ (All (NotIn seen) (ids env l) × Distinct (ids env l))
  unfolding check_unique
  check_unique_iff seen [] = (λ _. (tt, tt), λ _. refl)
  check_unique_iff seen (a ∷ l) =
      let id = env.to_lower a.content_id in
      let split = All-pair (λ j. id ≢ j) (NotIn seen) (ids env l) in
      elim (Bool-cases (bytes_eq a.content_id [])) [
        | inl t ↦ rw (check_unique, t) (check_unique_iff seen l)
        | inr t ↦
            rw (check_unique, t)
              (
                λ e.
                    let fresh : contains seen id ≡ false = ground arith in
                    let (more, d) = (check_unique_iff (id ∷ seen) l).0 (ground arith) in
                    let (apart, old) = split.0 more in
                    (((contains-false seen id).0 fresh, old), (apart, d)),
                λ ((n, old), (apart, d)).
                    rw ((contains-false seen id).1 n)
                      ((check_unique_iff (id ∷ seen) l).1 (split.1 (apart, old), d)),
              )
      ]

  pub unique_content_ids_iff :
      (l : List Attachment) → (unique_content_ids env lib l ≡ none) ↔ Distinct (ids env l)
  unfolding unique_content_ids
  unique_content_ids_iff l = (
    λ e. ((check_unique_iff [] l).0 e).1,
    λ d. (check_unique_iff [] l).1 (All-NotIn_nil (ids env l), d),
  )
