-- ===== src/Rest/Checks/Sound.antt =====
-- What the checks of headers and addresses let through.
use sigillum.Common.{
  Bytes, ◌+◌, ◌≤◌, false, ◌≡◌, ◌≢◌, ◌↔◌, inl, inr, refl, List, [], ◌∷◌, ◌++◌, map, none, arith,
  codes, length, All, has_prefix, bytes_eq, bytes_eq_iff, Bool-cases, Option-cases,
}
use sigillum.Policy.Types.{Platform}
use sigillum.Policy.Address.{validate_mailbox}
use sigillum.Gateway.Types.{Fallible, ok, err, Address}
use sigillum.Gateway.Send.Audit.{Fallible-cases}
use sigillum.SmtpProxy.Headers.{◌and_then◌, prefixed, validate_address_header}
use sigillum.Rest.Types.{Entries, HttpLib}
use sigillum.Rest.Checks.{
  has_control, max_header_line, contains, header_error, check_headers, validate_request_headers,
  as_mailbox, keep_address, parse_address, parse_address_list, single_address,
}

-- No text of the list is `k`, and no text stands in it twice.
abbrev pub NotIn : List Bytes → Bytes → Type 0
NotIn seen k = All (λ s. s ≢ k) seen

abbrev pub Distinct : List Bytes → Type 0
Distinct [] = Unit {0}
Distinct (k ∷ ks) = All (λ j. k ≢ j) ks × Distinct ks

pub contains-false : (seen : List Bytes) (k : Bytes) → (contains seen k ≡ false) ↔ NotIn seen k
contains-false [] k = (λ _. tt, λ _. refl)
contains-false (s ∷ seen) k = (
  λ e. (λ x. ground (arith, bytes_eq_iff s k), (contains-false seen k).0 (ground arith)),
  λ (n, more). elim (Bool-cases (bytes_eq s k)) [
    | inl t ↦ absurd (n ((bytes_eq_iff s k).0 t))
    | inr t ↦ rw t ((contains-false seen k).1 more)
  ],
)

pub All-pair :
    {A : Type 0} (P Q : A → Type 0) (l : List A) → All (λ x. P x × Q x) l ↔ (All P l × All Q l)
All-pair P Q [] = (λ _. (tt, tt), λ _. tt)
All-pair P Q (x ∷ l) = (
  λ ((p, q), h). let (ps, qs) = (All-pair P Q l).0 h in ((p, ps), (q, qs)),
  λ ((p, ps), (q, qs)). ((p, q), (All-pair P Q l).1 (ps, qs)),
)

pub All-NotIn_nil : (ks : List Bytes) → All (NotIn []) ks
All-NotIn_nil [] = tt
All-NotIn_nil (k ∷ ks) = (tt, All-NotIn_nil ks)

pub All-append :
    {A : Type 0} (P : A → Type 0) (xs ys : List A) → All P xs → All P ys → All P (xs ++ ys)
All-append P [] ys h k = k
All-append P (x ∷ xs) ys (p, h) k = (p, All-append P xs ys h k)

-- A field that can be written as one header line: no line break or NUL, within the limit, and no
-- Resent- field.
pub record IsSafe (lib : HttpLib) (field : Bytes × Bytes) : Type 0 where
  pub key : has_control field.0 ≡ false
  pub value : has_control field.1 ≡ false
  pub fits : length field.0 + 2 + length field.1 ≤ max_header_line
  pub submitted : has_prefix (lib.canonical_key field.0) (codes "Resent-") ≡ false

abbrev pub keys : HttpLib → Entries → List Bytes
keys lib h = map (λ f. lib.canonical_key f.0) h

abbrev pub IsMailbox : Bytes → Type 0
IsMailbox a = validate_mailbox a ≡ none

pub and_then-ok :
    {A B : Type 0} (m : Fallible A) (f : A → Fallible B) {b : B}
    → (m and_then f) ≡ ok b
    → (a : A) × (m ≡ ok a) × (f a ≡ ok b)
and_then-ok (ok a) f e = (a, refl, e)
and_then-ok (err t) f e = cc

pub prefixed-ok :
    {A : Type 0} (text : Bytes) (m : Fallible A) {a : A} → prefixed text m ≡ ok a → m ≡ ok a
prefixed-ok text (ok a) e = e
prefixed-ok text (err t) e = cc

module _ (env : Platform) (lib : HttpLib) where
  header_error_iff :
      (seen : List Bytes) (k v : Bytes)
      → (header_error env lib seen k v ≡ none)
        ↔ (IsSafe lib (k, v) × (contains seen (lib.canonical_key k) ≡ false))
  unfolding header_error
  header_error_iff seen k v = (
    λ e. (
      record {
        key = ground arith;
        value = ground arith;
        fits = ground arith;
        submitted = ground arith;
      },
      ground arith,
    ),
    λ (s, n). ground (arith, s.key, s.value, s.fits, s.submitted),
  )

  check_headers_iff :
      (seen : List Bytes) (h : Entries)
      → (check_headers env lib seen h ≡ none)
        ↔ (All (IsSafe lib) h × All (NotIn seen) (keys lib h) × Distinct (keys lib h))
  unfolding check_headers
  check_headers_iff seen [] = (λ _. (tt, tt, tt), λ _. refl)
  check_headers_iff seen ((k, v) ∷ h) =
      let ck = lib.canonical_key k in
      let split = All-pair (λ j. ck ≢ j) (NotIn seen) (keys lib h) in
      (
        λ e.
            let here = (header_error_iff seen k v).0 (ground arith) in
            let (safe, fresh, distinct) = (check_headers_iff (ck ∷ seen) h).0 (ground arith) in
            let (apart, old) = split.0 fresh in
            ((here.0, safe), ((contains-false seen ck).0 here.1, old), (apart, distinct)),
        λ ((s, safe), (n, old), (apart, distinct)).
            rw (check_headers, (header_error_iff seen k v).1 (s, (contains-false seen ck).1 n))
              ((check_headers_iff (ck ∷ seen) h).1 (safe, split.1 (apart, old), distinct)),
      )

  -- `validate_request_headers` accepts exactly the headers whose fields have no CR, LF or NUL in
  -- name or value, fit a line of 998 bytes with `: ` between, are no Resent- fields, and have
  -- distinct canonical names.
  pub validate_request_headers_iff :
      (h : Entries)
      → (validate_request_headers env lib h ≡ none) ↔ (All (IsSafe lib) h × Distinct (keys lib h))
  unfolding validate_request_headers
  validate_request_headers_iff h = (
    λ e. let (s, n, d) = (check_headers_iff [] h).0 e in (s, d),
    λ (s, d). (check_headers_iff [] h).1 (s, All-NotIn_nil (keys lib h), d),
  )

  pub parse_address-IsMailbox :
      (s : Bytes) {a : Address} → parse_address env lib s ≡ ok a → IsMailbox a.address
  unfolding parse_address
  parse_address-IsMailbox s e =
      let ((name, a), got, made) = and_then-ok _ (as_mailbox env lib) e in
      elim (Option-cases (validate_mailbox a)) [
        | inl t ↦ ground (arith, t, made)
        | inr (x, t) ↦ ground (arith, t, made)
      ]

  pub single_address-IsMailbox :
      (s : Bytes) {a : Address} → single_address env lib s ≡ ok a → IsMailbox a.address
  unfolding single_address
  single_address-IsMailbox s {a} e =
      let (b, got, kept) = and_then-ok (parse_address env lib s) _ e in
      let (d, read, same) =
        and_then-ok (validate_address_header lib.mail s 1) (keep_address env lib b) kept in
      let eq : b ≡ a = cc in rw (← eq) (parse_address-IsMailbox s got)

  pub parse_address_list-IsMailbox :
      (l : List Bytes) {found : List Address}
      → parse_address_list env lib l ≡ ok found
      → All (λ a. IsMailbox a.address) found
  unfolding parse_address_list
  parse_address_list-IsMailbox [] {found} e = let eq : found ≡ [] = cc in rw eq tt
  parse_address_list-IsMailbox (s ∷ l) {found} e =
      let (a, got, kept) = and_then-ok (parse_address env lib s) _ e in
      elim (Fallible-cases (parse_address_list env lib l)) [
        | inl (x, t) ↦ ground (arith, t, kept)
        | inr (more, t) ↦
            let eq : found ≡ a ∷ more = ground (arith, t, kept) in
            rw eq (parse_address-IsMailbox s got, parse_address_list-IsMailbox l t)
      ]
