-- ===== src/Credential/Verifier/Agrees.antt =====
-- An open session and a new login: `still_valid` and `verify`.
use sigillum.Common.{
  Bytes, ℕ, Bool, true, false, ◌&&◌, ◌≡◌, refl, sym, ap, subst, ◌∙◌, inl, inr, [], ◌∷◌, ◌++◌,
  Option, none, some, length, bytes_eq, bytes_eq_iff, has_prefix_iff, Bool-cases, Option-cases,
  arith, ltb,
}
use sigillum.Credential.{Lookup, valid, invalid, lookup_failed, parse_username}
use sigillum.Credential.Argon2.{HashLib}
use sigillum.Credential.Verifier.{
  MailCredential, PreviousCredentialHash, Reader, LruOps, Result, generated, is_generated_hash,
  sha256_prefix, trim_prefix, hash_generated, verify_generated, usable, still_valid, still_valid_of,
  check_generated, check, verify, lookup, result_of, verifies, previous_verifies, hash_is,
  if_usable, found_valid, name_of, check_found, previous_is, text_of, previous_text,
}

-- Whether a new login used the previous password.
abbrev pub previous_of : Lookup Result → Lookup Bool
previous_of (valid r) = valid r.previous
previous_of invalid = invalid
previous_of lookup_failed = lookup_failed

both_comm : (a b : Bool) → (a && b) ≡ (b && a)
both_comm true true = refl
both_comm true false = refl
both_comm false true = refl
both_comm false false = refl

trim_prefix-append : (p s : Bytes) → trim_prefix (p ++ s) p ≡ s
unfolding trim_prefix
trim_prefix-append [] [] = refl
trim_prefix-append [] (x ∷ s) = refl
trim_prefix-append (c ∷ p) s = trim_prefix-append p s

if_usable-found :
    (user : Bytes) (l : Lookup MailCredential) (mc : MailCredential)
    → if_usable user l ≡ valid mc
    → (l ≡ valid mc) × (usable mc ≡ true) × (mc.status.username ≡ user)
if_usable-found user (valid m) mc e = elim (Bool-cases (usable m)) [
  | inr f ↦ absurd (ground arith)
  | inl u ↦ elim (Bool-cases (bytes_eq m.status.username user)) [
    | inr f ↦ absurd (ground arith)
    | inl v ↦ found (ground arith) u ((bytes_eq_iff m.status.username user).0 v)
  ]
]
  where
    found :
        valid m ≡ valid mc
        → usable m ≡ true
        → m.status.username ≡ user
        → (valid m ≡ valid mc) × (usable mc ≡ true) × (mc.status.username ≡ user)
    found q u v = (q, ground arith, ground arith)
if_usable-found user invalid mc e = absurd (ground arith)
if_usable-found user lookup_failed mc e = absurd (ground arith)

name_of-parsed :
    (u user : Bytes) {ns name : Bytes}
    → u ≡ user
    → parse_username user ≡ some (ns, name)
    → name_of u ≡ name
name_of-parsed u user e p = ground arith

pub lookup-parsed :
    (reader : Reader) (user : Bytes) {ns name : Bytes}
    → parse_username user ≡ some (ns, name)
    → lookup reader user ≡ if_usable user (reader ns name)
unfolding lookup
lookup-parsed reader user p = ground arith

still_valid_of-unusable :
    (now : ℕ) (r : Result) (mc : MailCredential)
    → usable mc ≡ false
    → still_valid_of now r mc ≡ invalid
unfolding still_valid_of
still_valid_of-unusable now r mc f = ground arith

pub lookup-found :
    (reader : Reader) (user : Bytes) (mc : MailCredential)
    → lookup reader user ≡ valid mc
    → (ns : Bytes) × (name : Bytes) × (parse_username user ≡ some (ns, name))
      × (reader ns name ≡ valid mc)
      × (usable mc ≡ true)
      × (mc.status.username ≡ user)
unfolding lookup
lookup-found reader user mc e = elim (Option-cases (parse_username user)) [
  | inl n ↦ absurd (ground arith)
  | inr ((ns, name), p) ↦
      let (q, u, v) = if_usable-found user (reader ns name) mc (ground arith) in
      (ns, name, p, q, u, v)
]

module _ (lib : HashLib) (hex : (x : Bytes) → lib.hex_decode (lib.hex_encode x) ≡ some x)
    (size : (x : Bytes) → length (lib.sum256 x) ≡ 32) where
  hash_generated-is : (p : Bytes) → is_generated_hash (hash_generated lib p) ≡ true
  unfolding hash_generated is_generated_hash
  hash_generated-is p =
      (has_prefix_iff (sha256_prefix ++ lib.hex_encode (lib.sum256 p)) sha256_prefix).1
        (lib.hex_encode (lib.sum256 p), refl)

  -- A hash that was written for a password stands for its SHA-256 sum.
  verify_generated-sum :
      (p pw : Bytes)
      → verify_generated lib (hash_generated lib p) pw ≡ bytes_eq (lib.sum256 p) (lib.sum256 pw)
  unfolding verify_generated hash_generated
  verify_generated-sum p pw =
      rw
        (
          hash_generated-is p,
          trim_prefix-append sha256_prefix (lib.hex_encode (lib.sum256 p)),
          hex,
          size,
        )
        refl

  sum-injective :
      (p q : Bytes) → hash_generated lib p ≡ hash_generated lib q → lib.sum256 p ≡ lib.sum256 q
  unfolding hash_generated
  sum-injective p q e =
      cc (hex (lib.sum256 p), hex (lib.sum256 q), trim (lib.sum256 p), trim (lib.sum256 q), e)
    where
      trim :
          (x : Bytes)
          → trim_prefix (sha256_prefix ++ lib.hex_encode x) sha256_prefix ≡ lib.hex_encode x
      trim x = trim_prefix-append sha256_prefix (lib.hex_encode x)

  hash_generated-sum :
      (p q : Bytes) → lib.sum256 p ≡ lib.sum256 q → hash_generated lib p ≡ hash_generated lib q
  unfolding hash_generated
  hash_generated-sum p q e = ap (λ x. sha256_prefix ++ lib.hex_encode x) e

  pub verify_generated-hash :
      (p pw : Bytes)
      → verify_generated lib (hash_generated lib p) pw
        ≡ bytes_eq (hash_generated lib p) (hash_generated lib pw)
  verify_generated-hash p pw =
      rw (verify_generated-sum p pw)
        (elim (Bool-cases (bytes_eq (hash_generated lib p) (hash_generated lib pw))) [
          | inl e ↦
              cc (e, same-sums ((bytes_eq_iff (hash_generated lib p) (hash_generated lib pw)).0 e))
          | inr e ↦ elim (Bool-cases (bytes_eq (lib.sum256 p) (lib.sum256 pw))) [
            | inl t ↦ cc (e, t, same-hashes ((bytes_eq_iff (lib.sum256 p) (lib.sum256 pw)).0 t))
            | inr f ↦ cc (e, f)
          ]
        ])
    where
      same-sums :
          hash_generated lib p ≡ hash_generated lib pw
          → bytes_eq (lib.sum256 p) (lib.sum256 pw) ≡ true
      same-sums e = (bytes_eq_iff (lib.sum256 p) (lib.sum256 pw)).1 (sum-injective p pw e)

      same-hashes :
          lib.sum256 p ≡ lib.sum256 pw
          → bytes_eq (hash_generated lib p) (hash_generated lib pw) ≡ true
      same-hashes e =
          (bytes_eq_iff (hash_generated lib p) (hash_generated lib pw)).1
            (hash_generated-sum p pw e)

  -- Every hash of a generated password was written for some password.
  abbrev pub Issued : MailCredential → Type 0
  Issued mc =
      (generated mc ≡ true)
      × ((h : Bytes) → mc.status.current ≡ some h → (p : Bytes) × (h ≡ hash_generated lib p))
      × ((q : PreviousCredentialHash)
          → mc.status.previous ≡ some q
          → (p : Bytes) × (q.hash ≡ hash_generated lib p))

  hash-verifies :
      (h pw : Bytes)
      → ((p : Bytes) × (h ≡ hash_generated lib p))
      → verify_generated lib h pw ≡ bytes_eq h (hash_generated lib pw)
  hash-verifies h pw (p, e) = rw (e) (verify_generated-hash p pw)

  verifies-hash_is :
      (o : Option Bytes) (pw : Bytes)
      → ((h : Bytes) → o ≡ some h → (p : Bytes) × (h ≡ hash_generated lib p))
      → verifies lib o pw ≡ hash_is o (hash_generated lib pw)
  verifies-hash_is none pw issued = refl
  verifies-hash_is (some h) pw issued = hash-verifies h pw (issued h refl)

  previous_verifies-previous_is :
      (now : ℕ) (o : Option PreviousCredentialHash) (pw : Bytes) (r : Result)
      → ((q : PreviousCredentialHash) → o ≡ some q → (p : Bytes) × (q.hash ≡ hash_generated lib p))
      → r.hash ≡ hash_generated lib pw
      → previous_verifies lib now o pw ≡ previous_is now r o
  previous_verifies-previous_is now none pw r issued e = refl
  previous_verifies-previous_is now (some q) pw r issued e =
      rw (hash-verifies q.hash pw (issued q refl), e)
        (both_comm (ltb now q.valid_until) (bytes_eq q.hash (hash_generated lib pw)))

  text_of-hash_is : (o : Option Bytes) (h : Bytes) → hash_is o h ≡ true → text_of lib o ≡ h
  text_of-hash_is none h e = absurd (ground arith)
  text_of-hash_is (some c) h e = (bytes_eq_iff c h).0 e

  previous_text-hash :
      (now : ℕ) (o : Option PreviousCredentialHash) (pw : Bytes)
      → ((q : PreviousCredentialHash) → o ≡ some q → (p : Bytes) × (q.hash ≡ hash_generated lib p))
      → previous_verifies lib now o pw ≡ true
      → previous_text lib o ≡ hash_generated lib pw
  previous_text-hash now none pw issued e = absurd (ground arith)
  previous_text-hash now (some q) pw issued e =
      (bytes_eq_iff q.hash (hash_generated lib pw)).0
        (ground (arith, hash-verifies q.hash pw (issued q refl)))

  stands :
      (mc : MailCredential) (r : Result) (pw h : Bytes) (p : Bool)
      → h ≡ hash_generated lib pw
      → result_of mc h p ≡ r
      → (r.hash ≡ hash_generated lib pw)
        × (r.namespace ≡ mc.namespace)
        × (r.username ≡ mc.status.username)
  unfolding result_of
  stands mc r pw h p e f =
      (sym (ap (λ x. x.hash) f) ∙ e, sym (ap (λ x. x.namespace) f), sym (ap (λ x. x.username) f))

  -- A generated credential opens to a password only with the hash that is written for it.
  check_generated-hash :
      (now : ℕ) (mc : MailCredential) (pw : Bytes) (r : Result)
      → Issued mc
      → check_generated lib now mc pw ≡ valid r
      → (r.hash ≡ hash_generated lib pw)
        × (r.namespace ≡ mc.namespace)
        × (r.username ≡ mc.status.username)
  unfolding check_generated
  check_generated-hash now mc pw r (g, cur, prev) e =
      elim (Bool-cases (verifies lib mc.status.current pw)) [
        | inl t ↦
            stands mc r pw (text_of lib mc.status.current) false
              (text_of-hash_is mc.status.current (hash_generated lib pw)
                (sym (verifies-hash_is mc.status.current pw cur) ∙ t))
              (ground arith)
        | inr f ↦ elim (Bool-cases (previous_verifies lib now mc.status.previous pw)) [
          | inl t ↦
              stands mc r pw (previous_text lib mc.status.previous) true
                (previous_text-hash now mc.status.previous pw prev t) (ground arith)
          | inr h ↦ absurd (ground arith)
        ]
      ]

  -- On the same password, the two checks of a credential agree.
  still_valid_of-check_generated :
      (now : ℕ) (mc : MailCredential) (pw : Bytes) (r : Result)
      → Issued mc
      → r.hash ≡ hash_generated lib pw
      → mc.uid ≡ r.uid
      → mc.spec.service_account_name ≡ r.service_account
      → usable mc ≡ true
      → still_valid_of now r mc ≡ previous_of (check_generated lib now mc pw)
  unfolding still_valid_of check_generated result_of
  still_valid_of-check_generated now mc pw r (g, cur, prev) e u a ok =
      rw
        (
          (bytes_eq_iff mc.uid r.uid).1 u,
          ok,
          (bytes_eq_iff mc.spec.service_account_name r.service_account).1 a,
          g,
          subst (λ h. is_generated_hash h ≡ true) (sym e) (hash_generated-is pw),
          subst (λ h. verifies lib mc.status.current pw ≡ hash_is mc.status.current h) (sym e)
              (verifies-hash_is mc.status.current pw cur),
          previous_verifies-previous_is now mc.status.previous pw r prev e,
        )
        (elim (Bool-cases (hash_is mc.status.current r.hash)) [
          | inl t ↦ rw (t) refl
          | inr f ↦ elim (Bool-cases (previous_is now r mc.status.previous)) [
            | inl t ↦ rw (f, t) refl
            | inr h ↦ rw (f, h) refl
          ]
        ])

  -- The reader's answers: what stands under a namespace is of that namespace, and every credential
  -- is a generated one.
  abbrev pub Answers : Reader → Type 0
  Answers reader =
      (ns n : Bytes) (mc : MailCredential)
      → reader ns n ≡ valid mc
      → Issued mc × (mc.namespace ≡ ns)

  -- What the reader has of a credential now is the object of the login, for the same
  -- ServiceAccount and under the same user name.
  abbrev pub Kept : Reader → Result → Type 0
  Kept reader r =
      (ns n : Bytes) (mc : MailCredential)
      → reader ns n ≡ valid mc
      → (mc.uid ≡ r.uid)
        × (mc.spec.service_account_name ≡ r.service_account)
        × (mc.status.username ≡ r.username)

  module _ {C : Type 0} (lru : LruOps C) where
    check-opened :
        (now : ℕ) (slot : Bool) (mc : MailCredential) (pw : Bytes) (c : C) (r : Result)
        → Issued mc
        → (check lib lru now slot mc pw c).0 ≡ valid r
        → (bytes_eq pw [] ≡ false)
          × (r.hash ≡ hash_generated lib pw)
          × (r.namespace ≡ mc.namespace)
          × (r.username ≡ mc.status.username)
    unfolding check
    check-opened now slot mc pw c r issued e = elim (Bool-cases (bytes_eq pw [])) [
      | inl t ↦ absurd (ground arith)
      | inr f ↦
          let (h, n, u) = check_generated-hash now mc pw r issued (ground (arith, issued.0)) in
          (f, h, n, u)
    ]

    check_found-opened :
        (now : ℕ) (slot : Bool) (l : Lookup MailCredential) (pw : Bytes) (c : C) (r : Result)
        → (check_found lib lru now slot l pw c).0 ≡ valid r
        → (mc : MailCredential) × (l ≡ valid mc) × ((check lib lru now slot mc pw c).0 ≡ valid r)
    check_found-opened now slot (valid mc) pw c r e = (mc, refl, e)
    check_found-opened now slot invalid pw c r e = absurd (ground arith)
    check_found-opened now slot lookup_failed pw c r e = absurd (ground arith)

    -- A login: the password is not empty, the user name parses, and the result carries the hash
    -- written for the password.
    verify-opened :
        (reader : Reader) (now : ℕ) (slot : Bool) (user pw : Bytes) (c c' : C) (r : Result)
        → Answers reader
        → verify lib lru reader now slot user pw c ≡ (valid r, c')
        → (bytes_eq pw [] ≡ false)
          × (r.hash ≡ hash_generated lib pw)
          × (r.username ≡ user)
          × (name : Bytes) × (parse_username user ≡ some (r.namespace, name))
    unfolding verify
    verify-opened reader now slot user pw c c' r answers e =
        let (mc, l, h) =
          check_found-opened now slot (lookup reader user) pw c r (ap (λ x. x.0) e) in
        let (ns, name, p, q, _, v) = lookup-found reader user mc l in
        let (issued, is_ns) = answers ns name mc q in
        let (w, x, y, z) = check-opened now slot mc pw c r issued h in
        (w, x, z ∙ v, name, p ∙ ap (λ n. some (n, name)) (sym (y ∙ is_ns)))

    -- With what a lookup finds.
    found_valid-check_found :
        (now : ℕ) (slot : Bool) (user pw : Bytes) (r : Result) (c : C) (l : Lookup MailCredential)
        → ((mc : MailCredential)
            → l ≡ valid mc
            → Issued mc
              × (mc.uid ≡ r.uid)
              × (mc.spec.service_account_name ≡ r.service_account)
              × (mc.status.username ≡ user))
        → bytes_eq pw [] ≡ false
        → r.hash ≡ hash_generated lib pw
        → found_valid now r l ≡ previous_of (check_found lib lru now slot (if_usable user l) pw c).0
    unfolding check
    found_valid-check_found now slot user pw r c (valid mc) facts w e =
        let (issued, u, a, n) = facts mc refl in
        elim (Bool-cases (usable mc)) [
          | inl t ↦
              rw (t, (bytes_eq_iff mc.status.username user).1 n, w, issued.0)
                (still_valid_of-check_generated now mc pw r issued e u a t)
          | inr f ↦ rw (f) (still_valid_of-unusable now r mc f)
        ]
    found_valid-check_found now slot user pw r c invalid facts w e = refl
    found_valid-check_found now slot user pw r c lookup_failed facts w e = refl

    -- For generated passwords, whose hashes were written by `hash_generated`, an open session holds
    -- exactly as long as a new login with its password would succeed: after a login, `still_valid`
    -- answers at any later state of the API as `verify` does there on the same user name and
    -- password (valid, with the mark of a previous password; invalid; or a failed lookup), if what
    -- the reader has then is the same object, for the same ServiceAccount and user name.
    pub still_valid-verify :
        (first later : Reader) (now now' : ℕ) (slot slot' : Bool) (user pw : Bytes) (c c' c'' : C)
        (r : Result)
        → Answers first
        → Answers later
        → Kept later r
        → verify lib lru first now slot user pw c ≡ (valid r, c')
        → still_valid later now' r ≡ previous_of (verify lib lru later now' slot' user pw c'').0
    unfolding still_valid verify
    still_valid-verify first later now now' slot slot' user pw c c' c'' r a b k e =
        let (w, x, u, name, p) = verify-opened first now slot user pw c c' r a e in
        ap (λ n. found_valid now' r (later r.namespace n)) (name_of-parsed r.username user u p)
        ∙ found_valid-check_found now' slot' user pw r c'' (later r.namespace name) (facts u name) w
            x
        ∙ ap (λ l. previous_of (check_found lib lru now' slot' l pw c'').0)
            (sym (lookup-parsed later user p))
      where
        facts :
            r.username ≡ user
            → (name : Bytes) (mc : MailCredential) → later r.namespace name ≡ valid mc
            → Issued mc
              × (mc.uid ≡ r.uid)
              × (mc.spec.service_account_name ≡ r.service_account)
              × (mc.status.username ≡ user)
        facts u name mc q =
            let (i, s, n) = k r.namespace name mc q in ((b r.namespace name mc q).0, i, s, n ∙ u)
