-- ===== src/Credential/Verifier/Opens.antt =====
-- What a login takes, for both kinds of credentials, and the cache of argon2id successes.
use sigillum.Common.{
  ◌+◌, Bytes, ℕ, Bool, true, false, ◌≡◌, ◌≢◌, ◌<◌, refl, sym, ap, subst, inl, inr, ◌⊎◌, [], ◌∷◌,
  ◌++◌, Option, none, some, count, bytes_eq, bytes_eq_iff, Bool-cases, arith,
}
use sigillum.Credential.{Lookup, valid, invalid, lookup_failed, parse_username}
use sigillum.Credential.Argon2.{HashLib, verify_argon2id_hash}
use sigillum.Credential.Verifier.{
  MailCredential, PreviousCredentialHash, Reader, LruOps, Result, generated, usable,
  check_generated, verify_generated, cache_key, is_fresh, remember, verify_argon2id, own_hash,
  check, check_found, verify, lookup, result_of, verifies, previous_verifies, text_of,
  previous_text, condition_true, is_true, argon_cache_ttl,
}
use sigillum.Credential.Verifier.Agrees.{lookup-found}

-- A separator that does not occur before it takes a text apart.
apart :
    (a b x y : Bytes) → count 0 a ≡ 0 → count 0 b ≡ 0 → a ++ 0 ∷ x ≡ b ++ 0 ∷ y → (a ≡ b) × (x ≡ y)
apart [] [] x y m n e = ground arith
apart [] (d ∷ b) x y m n e = absurd (ground arith)
apart (c ∷ a) [] x y m n e = absurd (ground arith)
apart (c ∷ a) (d ∷ b) x y m n e =
    let (q, r) = apart a b x y (ground arith) (ground arith) (ground arith) in (ground arith, r)

-- What the cache of golang-lru answers was added before.
abbrev pub OnlyAdded : {C : Type 0} → LruOps C → Type 0
OnlyAdded {C = C} lru =
    ((j k : Bytes) (v : ℕ) (c : C)
      → (lru.get k (lru.get j c).1).0 ≡ some v
      → (lru.get k c).0 ≡ some v)
    × ((j k : Bytes) (v w : ℕ) (c : C)
        → (lru.get k (lru.add j w c)).0 ≡ some v
        → (k ≡ j) ⊎ ((lru.get k c).0 ≡ some v))

is_true-condition : (o : Option Bytes) → is_true o ≡ true → o ≡ some condition_true
is_true-condition none e = absurd (ground arith)
is_true-condition (some x) e = ap some ((bytes_eq_iff x condition_true).0 e)

usable-accepted :
    (mc : MailCredential)
    → usable mc ≡ true
    → (mc.status.ready ≡ some condition_true)
      × (mc.status.service_account_name ≡ mc.spec.service_account_name)
unfolding usable
usable-accepted mc u = (
  is_true-condition mc.status.ready (ground arith),
  (bytes_eq_iff mc.status.service_account_name mc.spec.service_account_name).0 (ground arith),
)

module _ (lib : HashLib) {C : Type 0} (lru : LruOps C) where
  -- The text of which the sum is the key of the cache.
  abbrev pub key_text : (user phc pw : Bytes) → Bytes
  key_text user phc pw = user ++ 0 ∷ (phc ++ 0 ∷ pw)

  -- A user, a hash and a password that argon2id accepts for it.
  abbrev pub Accepted : (user phc pw : Bytes) → Type 0
  Accepted user phc pw =
      (count 0 user ≡ 0) × (count 0 phc ≡ 0) × (verify_argon2id_hash lib phc pw ≡ some true)

  -- Every key in the cache is that of an accepted password.
  abbrev pub Sound : C → Type 0
  Sound c =
      (key : Bytes) (exp : ℕ)
      → (lru.get key c).0 ≡ some exp
      → (user : Bytes) × (phc : Bytes) × (pw : Bytes) × Accepted user phc pw
        × (key ≡ lib.sum256 (key_text user phc pw))

  -- The text of this password has the SHA-256 sum of another text, that of an accepted password.
  abbrev pub Collides : (user phc pw : Bytes) → Type 0
  Collides user phc pw =
      (user' : Bytes) × (phc' : Bytes) × (pw' : Bytes) × Accepted user' phc' pw'
      × (key_text user' phc' pw' ≢ key_text user phc pw)
      × (lib.sum256 (key_text user' phc' pw') ≡ lib.sum256 (key_text user phc pw))

  -- The credential opens to the password, and the result is that.
  pub data Opens (now : ℕ) (mc : MailCredential) (pw : Bytes) (r : Result) : Type 0 where
    to_current :
        (h : Bytes)
        → generated mc ≡ true
        → mc.status.current ≡ some h
        → verify_generated lib h pw ≡ true
        → result_of mc h false ≡ r
        → Opens now mc pw r
    to_previous :
        (q : PreviousCredentialHash)
        → generated mc ≡ true
        → mc.status.previous ≡ some q
        → now < q.valid_until
        → verify_generated lib q.hash pw ≡ true
        → result_of mc q.hash true ≡ r
        → Opens now mc pw r
    to_own :
        generated mc ≡ false
        → (verify_argon2id_hash lib mc.spec.password_hash pw ≡ some true)
          ⊎ Collides mc.status.username mc.spec.password_hash pw
        → result_of mc mc.spec.password_hash false ≡ r
        → Opens now mc pw r

  verifies-some :
      (o : Option Bytes) (pw : Bytes)
      → verifies lib o pw ≡ true
      → (h : Bytes) × (o ≡ some h) × (verify_generated lib h pw ≡ true)
  verifies-some none pw e = absurd (ground arith)
  verifies-some (some h) pw e = (h, refl, e)

  previous_verifies-some :
      (now : ℕ) (o : Option PreviousCredentialHash) (pw : Bytes)
      → previous_verifies lib now o pw ≡ true
      → (q : PreviousCredentialHash) × (o ≡ some q)
        × (now < q.valid_until)
        × (verify_generated lib q.hash pw ≡ true)
  previous_verifies-some now none pw e = absurd (ground arith)
  previous_verifies-some now (some q) pw e = (q, refl, ground arith, ground arith)

  check_generated-Opens :
      (now : ℕ) (mc : MailCredential) (pw : Bytes) (r : Result)
      → generated mc ≡ true
      → check_generated lib now mc pw ≡ valid r
      → Opens now mc pw r
  unfolding check_generated
  check_generated-Opens now mc pw r g e = elim (Bool-cases (verifies lib mc.status.current pw)) [
    | inl t ↦
        let (h, q, v) = verifies-some mc.status.current pw t in
        to_current h g q v (ground (arith, ap (text_of lib) q))
    | inr f ↦ elim (Bool-cases (previous_verifies lib now mc.status.previous pw)) [
      | inl t ↦
          let (p, q, l, v) = previous_verifies-some now mc.status.previous pw t in
          to_previous p g q l v (ground (arith, ap (previous_text lib) q))
      | inr h ↦ absurd (ground arith)
    ]
  ]

  module _ (only : OnlyAdded lru) where
    -- A key that two texts share is that of the same hash and password, if the texts do not collide.
    shared_key :
        (user phc pw v h q : Bytes)
        → count 0 user ≡ 0
        → count 0 phc ≡ 0
        → Accepted v h q
        → cache_key lib lru user phc pw ≡ lib.sum256 (key_text v h q)
        → (verify_argon2id_hash lib phc pw ≡ some true) ⊎ Collides user phc pw
    unfolding cache_key
    shared_key user phc pw v h q a b (m, n, ok) e =
        elim (Bool-cases (bytes_eq (key_text v h q) (key_text user phc pw))) [
          | inr f ↦ inr (
            v,
            h,
            q,
            (m, n, ok),
            λ t.
                absurd
                  (ground (arith, f, (bytes_eq_iff (key_text v h q) (key_text user phc pw)).1 t)),
            sym e,
          )
          | inl t ↦
              let (_, r) =
                apart v user (h ++ 0 ∷ q) (phc ++ 0 ∷ pw) m a
                  ((bytes_eq_iff (key_text v h q) (key_text user phc pw)).0 t) in
              let (x, y) = apart h phc q pw n b r in
              inl (
                subst (λ z. verify_argon2id_hash lib z pw ≡ some true) x
                  (subst (λ z. verify_argon2id_hash lib h z ≡ some true) y ok))
        ]

    Sound-get : (key : Bytes) (c : C) → Sound c → Sound (lru.get key c).1
    Sound-get key c s k exp e = s k exp (only.0 key k exp c e)

    Sound-remember :
        (now : ℕ) (user phc pw : Bytes) (c : C)
        → count 0 user ≡ 0
        → count 0 phc ≡ 0
        → Sound c
        → Sound
            (remember lib lru now
              (cache_key lib lru user phc pw)
              (verify_argon2id_hash lib phc pw)
              c).1
    unfolding cache_key
    Sound-remember now user phc pw c a b s = remembered (verify_argon2id_hash lib phc pw) refl
      where
        remembered :
            (o : Option Bool)
            → verify_argon2id_hash lib phc pw ≡ o
            → Sound (remember lib lru now (cache_key lib lru user phc pw) o c).1
        remembered none q = s
        remembered (some false) q = s
        remembered (some true) q = λ key exp e.
            elim (only.1 (cache_key lib lru user phc pw) key exp (now + argon_cache_ttl) c e) [
              | inr o ↦ s key exp o
              | inl k ↦ (user, phc, pw, (a, b, q), k)
            ]

    -- A bring-your-own hash: the answer is true only if argon2id accepts the password.
    verify_argon2id-Sound :
        (now : ℕ) (slot : Bool) (user phc pw : Bytes) (c : C)
        → count 0 user ≡ 0
        → count 0 phc ≡ 0
        → Sound c
        → Sound (verify_argon2id lib lru now slot user phc pw c).1
          × ((verify_argon2id lib lru now slot user phc pw c).0 ≡ valid true
              → (verify_argon2id_hash lib phc pw ≡ some true) ⊎ Collides user phc pw)
    unfolding verify_argon2id
    verify_argon2id-Sound now slot user phc pw c a b s =
        elim (Bool-cases (is_fresh lib lru now (lru.get (cache_key lib lru user phc pw) c).0)) [
          | inl t ↦ rw (t) (kept, λ e. held (lru.get (cache_key lib lru user phc pw) c).0 refl t)
          | inr f ↦ elim (Bool-cases slot) [
            | inr k ↦ rw (f, k) (kept, λ e. absurd (ground arith))
            | inl k ↦
                rw (f, k)
                  (
                    Sound-remember now user phc pw _ a b kept,
                    λ e. inl (answered (verify_argon2id_hash lib phc pw) refl e),
                  )
          ]
        ]
      where
        kept : Sound (lru.get (cache_key lib lru user phc pw) c).1
        kept = Sound-get (cache_key lib lru user phc pw) c s

        held :
            (o : Option ℕ)
            → (lru.get (cache_key lib lru user phc pw) c).0 ≡ o
            → is_fresh lib lru now o ≡ true
            → (verify_argon2id_hash lib phc pw ≡ some true) ⊎ Collides user phc pw
        held none e t = absurd (ground arith)
        held (some exp) e t =
            let (v, h, q, ok, k) = s (cache_key lib lru user phc pw) exp e in
            shared_key user phc pw v h q a b ok k

        answered :
            (o : Option Bool)
            → verify_argon2id_hash lib phc pw ≡ o
            → (remember lib lru now
                (cache_key lib lru user phc pw)
                o
                (lru.get (cache_key lib lru user phc pw) c).1).0
              ≡ valid true
            → verify_argon2id_hash lib phc pw ≡ some true
        answered none q e = absurd (ground arith)
        answered (some false) q e = absurd (ground arith)
        answered (some true) q e = q

    own_hash-valid :
        (mc : MailCredential) (l : Lookup Bool) (c : C) (r : Result)
        → (own_hash lib lru mc (l, c)).0 ≡ valid r
        → (l ≡ valid true) × (result_of mc mc.spec.password_hash false ≡ r)
    own_hash-valid mc (valid true) c r e = (refl, ground arith)
    own_hash-valid mc (valid false) c r e = absurd (ground arith)
    own_hash-valid mc invalid c r e = absurd (ground arith)
    own_hash-valid mc lookup_failed c r e = absurd (ground arith)

    own_hash-cache :
        (mc : MailCredential) (l : Lookup Bool) (c : C) → (own_hash lib lru mc (l, c)).1 ≡ c
    own_hash-cache mc (valid true) c = refl
    own_hash-cache mc (valid false) c = refl
    own_hash-cache mc invalid c = refl
    own_hash-cache mc lookup_failed c = refl

    -- No user name and no hash of the credential holds a zero byte.
    abbrev pub Plain : MailCredential → Type 0
    Plain mc = (count 0 mc.status.username ≡ 0) × (count 0 mc.spec.password_hash ≡ 0)

    check-Opens :
        (now : ℕ) (slot : Bool) (mc : MailCredential) (pw : Bytes) (c : C)
        → Plain mc
        → Sound c
        → Sound (check lib lru now slot mc pw c).1
          × ((r : Result)
              → (check lib lru now slot mc pw c).0 ≡ valid r
              → (pw ≢ []) × Opens now mc pw r)
    unfolding check
    check-Opens now slot mc pw c (a, b) s = elim (Bool-cases (bytes_eq pw [])) [
      | inl t ↦ rw (t) (s, λ r e. absurd (ground arith))
      | inr f ↦ elim (Bool-cases (generated mc)) [
        | inl g ↦ rw (f, g) (s, λ r e. (filled f, check_generated-Opens now mc pw r g e))
        | inr g ↦
            let (k, v) =
              verify_argon2id-Sound now slot mc.status.username mc.spec.password_hash pw c a b s in
            rw (f, g) (own (filled f) g _ k v)
      ]
    ]
      where
        filled : bytes_eq pw [] ≡ false → pw ≢ []
        filled f e = absurd (ground (arith, (bytes_eq_iff pw []).1 e))

        own :
            pw ≢ []
            → generated mc ≡ false
            → (a : Lookup Bool × C) → Sound a.1
            → (a.0 ≡ valid true
                → (verify_argon2id_hash lib mc.spec.password_hash pw ≡ some true)
                  ⊎ Collides mc.status.username mc.spec.password_hash pw)
            → Sound (own_hash lib lru mc a).1
              × ((r : Result) → (own_hash lib lru mc a).0 ≡ valid r → (pw ≢ []) × Opens now mc pw r)
        own n g (l, d) k v = (
          subst Sound (sym (own_hash-cache mc l d)) k,
          λ r e. let (x, y) = own_hash-valid mc l d r e in (n, to_own g (v x) y),
        )

    check_found-Opens :
        (now : ℕ) (slot : Bool) (l : Lookup MailCredential) (pw : Bytes) (c : C)
        → ((mc : MailCredential) → l ≡ valid mc → Plain mc)
        → Sound c
        → Sound (check_found lib lru now slot l pw c).1
          × ((r : Result)
              → (check_found lib lru now slot l pw c).0 ≡ valid r
              → (mc : MailCredential) × (l ≡ valid mc) × (pw ≢ []) × Opens now mc pw r)
    check_found-Opens now slot (valid mc) pw c plain s =
        let (k, v) = check-Opens now slot mc pw c (plain mc refl) s in
        (k, λ r e. let (n, o) = v r e in (mc, refl, n, o))
    check_found-Opens now slot invalid pw c plain s = (s, λ r e. absurd (ground arith))
    check_found-Opens now slot lookup_failed pw c plain s = (s, λ r e. absurd (ground arith))

    -- If no user name and no hash that the reader has holds a zero byte, the cache gives only what
    -- was added, and every key in it is that of a password that argon2id accepts, then `verify`
    -- leaves a cache of that kind; and it accepts a password only if it is not empty and the object
    -- that the user name parses to has that user name, is Ready, for the ServiceAccount that the
    -- controller accepted, and opens to it: by the current hash, by the previous one before its end,
    -- or by the own hash, with argon2id, unless the text that is looked up in the cache has the
    -- SHA-256 sum of another text, that of an accepted password. The result names that object, the
    -- account, the hash and whether it was the previous one.
    pub verify-Opens :
        (reader : Reader) (now : ℕ) (slot : Bool) (user pw : Bytes) (c : C)
        → ((ns name : Bytes) (mc : MailCredential) → reader ns name ≡ valid mc → Plain mc)
        → Sound c
        → Sound (verify lib lru reader now slot user pw c).1
          × ((r : Result)
              → (verify lib lru reader now slot user pw c).0 ≡ valid r
              → (ns : Bytes) × (name : Bytes) × (mc : MailCredential) × (parse_username user
                  ≡ some (ns, name))
                × (reader ns name ≡ valid mc)
                × (mc.status.username ≡ user)
                × (mc.status.ready ≡ some condition_true)
                × (mc.status.service_account_name ≡ mc.spec.service_account_name)
                × (pw ≢ [])
                × Opens now mc pw r)
    unfolding verify
    verify-Opens reader now slot user pw c plain s =
        let (k, v) =
          check_found-Opens now slot (lookup reader user) pw c
            (λ mc l.
              let (ns, name, p, q, u, n) = lookup-found reader user mc l in plain ns name mc q)
            s in
        (
          k,
          λ r e.
              let (mc, l, n, o) = v r e in
              let (ns, name, p, q, u, w) = lookup-found reader user mc l in
              let (x, y) = usable-accepted mc u in (ns, name, mc, p, q, w, x, y, n, o),
        )
