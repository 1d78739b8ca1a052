-- ===== src/Credential/Rotation/Grace.antt =====
-- Logins across a rotation.
use sigillum.Common.{
  Bytes, ℕ, ◌+◌, ◌≤◌, ◌<◌, Bool, true, false, ◌≡◌, ◌≢◌, ◌&&◌, not, bytes_eq_iff, if◌then◌else◌,
  codes, refl, sym, ap, subst, ◌∙◌, inl, inr, ◌⊎◌, bytes_eq_refl, length, Option, none, some, [],
  bytes_eq, ltb, arith, Bool-cases,
}
use sigillum.Credential.{valid, parse_username}
use sigillum.Credential.Argon2.{HashLib}
use sigillum.Credential.Verifier.{
  MailCredential, Result, check_generated, verifies, previous_verifies, hash_generated, result_of,
  text_of, previous_text, Reader, LruOps, generated, usable, verify, check, if_usable, check_found,
}
use sigillum.Credential.Verifier.Agrees.{verify_generated-hash, lookup-parsed}
use sigillum.Credential.Rotation.{
  CredentialHash, Issued, Wanted, Write, written, conflict, failed, Rotated, Reason, ready,
  guard_missing, secret_conflict, secret_write_failed, keep, keep_or_fail, expire_previous,
  rotation_due, replaced, issue, on_password, rotate_kept, rotate, hash_text, concluded,
  has_current, still_usable, ready_status,
}

rotated-injective : {a b : Rotated} → some a ≡ some b → a ≡ b
rotated-injective e = ground arith

module _ (lib : HashLib) where
  -- The password opens the credential at a time.
  abbrev pub Accepts : ℕ → MailCredential → Bytes → Type 0
  Accepts at mc password = (r : Result) × (check_generated lib at mc password ≡ valid r)

  check_generated-current :
      (at : ℕ) (mc : MailCredential) (pw : Bytes)
      → verifies lib mc.status.current pw ≡ true
      → Accepts at mc pw
  unfolding check_generated
  check_generated-current at mc pw e =
      (result_of mc (text_of lib mc.status.current) false, rw (e) refl)

  check_generated-previous :
      (at : ℕ) (mc : MailCredential) (pw : Bytes)
      → previous_verifies lib at mc.status.previous pw ≡ true
      → Accepts at mc pw
  unfolding check_generated
  check_generated-previous at mc pw e = elim (Bool-cases (verifies lib mc.status.current pw)) [
    | inl t ↦ (result_of mc (text_of lib mc.status.current) false, rw (t) refl)
    | inr f ↦ (result_of mc (previous_text lib mc.status.previous) true, rw (f, e) refl)
  ]

  module _ (hex : (x : Bytes) → lib.hex_decode (lib.hex_encode x) ≡ some x)
      (size : (x : Bytes) → length (lib.sum256 x) ≡ 32) (mc : MailCredential) (now at : ℕ)
      (want : Wanted) (st : Issued) where
    -- A password that was written to the Secret, or the one that was current: if it was replaced,
    -- within the grace period.
    abbrev pub Known : Option Bytes → Rotated → Bytes → Type 0
    Known new out pw =
        ((new ≡ some pw) × (out.secret_written ≡ true))
        ⊎ ((verifies lib (hash_text st.current) pw ≡ true)
            × (st.secret_name ≢ [])
            × ((out.secret_written ≡ false) ⊎ (at < now + want.grace)))

    Stands : Rotated → Bytes → Type 0
    Stands out pw = (out.reason ≡ ready) × Accepts at (concluded mc out) pw

    still_usable-current :
        (pw : Bytes)
        → verifies lib (hash_text st.current) pw ≡ true
        → st.secret_name ≢ []
        → still_usable (expire_previous now st) ≡ true
    unfolding expire_previous
    still_usable-current pw v n = by_current st.current v
      where
        by_current :
            (o : Option CredentialHash)
            → verifies lib (hash_text o) pw ≡ true
            → (has_current o && not (bytes_eq st.secret_name [])) ≡ true
        by_current none v = absurd (ground arith)
        by_current (some cur) v = elim (Bool-cases (bytes_eq st.secret_name [])) [
          | inl t ↦ absurd (n ((bytes_eq_iff st.secret_name []).0 t))
          | inr t ↦ rw t refl
        ]

    -- Where nothing was written, if that is no reason against an earlier password.
    untouched :
        (new : Option Bytes) (why : Reason) (retry : Bool) (pw : Bytes)
        → (still_usable (expire_previous now st) ≡ true → why ≡ ready)
        → Known new (keep lib now want (expire_previous now st) why retry) pw
        → Stands (keep lib now want (expire_previous now st) why retry) pw
    unfolding Stands expire_previous concluded
    untouched new why retry pw ok (inl (e, w)) = absurd (ground arith)
    untouched new why retry pw ok (inr (v, n, c)) = (
      ok (still_usable-current pw v n),
      check_generated-current at
          (concluded mc (keep lib now want (expire_previous now st) why retry)) pw v,
    )

    untouched_or_failed :
        (new : Option Bytes) (why : Reason) (retry : Bool) (pw : Bytes)
        → Known new
            (keep lib now want
              (expire_previous now st)
              (keep_or_fail (expire_previous now st) why)
              retry)
            pw
        → Stands
            (keep lib now want
              (expire_previous now st)
              (keep_or_fail (expire_previous now st) why)
              retry)
            pw
    untouched_or_failed new why retry pw k =
        untouched new (keep_or_fail (expire_previous now st) why) retry pw
          (λ e. ap (λ b. if b then ready else why) e) k

    replaced-verifies :
        (o : Option CredentialHash) (password : Bytes)
        → now ≤ at
        → at < now + want.grace
        → verifies lib (hash_text o) password ≡ true
        → previous_verifies lib at (replaced now want.grace o) password ≡ true
    replaced-verifies none password l m v = absurd (ground arith)
    replaced-verifies (some cur) password l m v = elim (Bool-cases (ltb 0 want.grace)) [
      | inl t ↦ ground (arith, t)
      | inr f ↦ absurd (ground arith)
    ]

    abbrev rewritten : Bytes → Rotated
    rewritten password = record {
      status = issue lib now want password (expire_previous now st);
      reason = ready;
      secret_written = true;
      retry = false;
    }

    issue-Stands :
        (password pw : Bytes)
        → now ≤ at
        → Known (some password) (rewritten password) pw
        → Stands (rewritten password) pw
    unfolding Stands issue expire_previous concluded
    issue-Stands password pw l (inl (e, w)) = (
      refl,
      check_generated-current at (concluded mc (rewritten password)) pw (
          subst (λ p. verifies lib (some (hash_generated lib password)) p ≡ true)
            (ap (text_of lib) e)
            (verify_generated-hash lib hex size password password
              ∙ bytes_eq_refl (hash_generated lib password))),
    )
    issue-Stands password pw l (inr (v, n, inl w)) = absurd (ground arith)
    issue-Stands password pw l (inr (v, n, inr m)) = (
      refl,
      check_generated-previous at (concluded mc (rewritten password)) pw
          (replaced-verifies st.current pw l m v),
    )

    abbrev Stand : Option Bytes → Rotated → Type 0
    Stand new out = (pw : Bytes) → Known new out pw → Stands out pw

    on_password-Stands :
        (w : Write) (new : Option Bytes) (out : Rotated)
        → now ≤ at
        → on_password lib now want w new (expire_previous now st) ≡ some out
        → Stand new out
    on_password-Stands w none out l e = absurd (ground arith)
    on_password-Stands written (some password) out l e =
        subst (Stand (some password)) (rotated-injective e) (λ pw k. issue-Stands password pw l k)
    on_password-Stands conflict (some password) out l e =
        subst (Stand (some password)) (rotated-injective e)
          (untouched_or_failed (some password) secret_conflict false)
    on_password-Stands failed (some password) out l e =
        subst (Stand (some password)) (rotated-injective e)
          (untouched_or_failed (some password) secret_write_failed true)

    rotate-Stands :
        (guard_ok : Bool) (new : Option Bytes) (w : Write) (out : Rotated)
        → now ≤ at
        → rotate lib now want true guard_ok new w st ≡ some out
        → Stand new out
    unfolding rotate
    rotate-Stands guard_ok new w out l e =
        elim (Bool-cases (bytes_eq (rotation_due now want (expire_previous now st)) [])) [
          | inl t ↦
              subst (Stand new) (rotated-injective (sym (skipped t) ∙ e))
                (λ pw. untouched new ready false pw (λ u. refl))
          | inr f ↦ elim (Bool-cases guard_ok) [
            | inr g ↦
                subst (Stand new) (rotated-injective (sym (unguarded f g) ∙ e))
                  (untouched_or_failed new guard_missing false)
            | inl g ↦ on_password-Stands w new out l (ground (arith, f, g))
          ]
        ]
      where
        skipped :
            bytes_eq (rotation_due now want (expire_previous now st)) [] ≡ true
            → rotate_kept lib now want true guard_ok new w (expire_previous now st)
              ≡ some (keep lib now want (expire_previous now st) ready false)
        skipped t = rw (t) refl

        unguarded :
            bytes_eq (rotation_due now want (expire_previous now st)) [] ≡ false
            → guard_ok ≡ false
            → rotate_kept lib now want true guard_ok new w (expire_previous now st)
              ≡ some (
                  keep lib now want
                    (expire_previous now st)
                    (keep_or_fail (expire_previous now st) guard_missing)
                    false)
        unguarded f g = rw (f, g) refl

    concluded-usable :
        (out : Rotated)
        → out.reason ≡ ready
        → generated mc ≡ true
        → usable (concluded mc out) ≡ true
    unfolding concluded usable generated bytes_eq
    concluded-usable out e g =
        let t : ready_status out.reason ≡ codes "True" = ap ready_status e in
        rw (t, bytes_eq_refl mc.spec.service_account_name, g) refl

    concluded-username : (out : Rotated) → (concluded mc out).status.username ≡ mc.status.username
    unfolding concluded
    concluded-username out = refl

    concluded-generated : (out : Rotated) → generated (concluded mc out) ≡ generated mc
    unfolding concluded generated
    concluded-generated out = refl

    check-check_generated :
        {C : Type 0} (lru : LruOps C) (slot : Bool) (c : C) (pw : Bytes) (found : MailCredential)
        → generated found ≡ true
        → pw ≢ []
        → (check lib lru at slot found pw c).0 ≡ check_generated lib at found pw
    unfolding check
    check-check_generated lru slot c pw found g n = elim (Bool-cases (bytes_eq pw [])) [
      | inl t ↦ absurd (n ((bytes_eq_iff pw []).0 t))
      | inr t ↦ rw (t, g) refl
    ]

    verify-check_generated :
        {C : Type 0} (lru : LruOps C) (slot : Bool) (c : C) (reader : Reader)
        (user ns name pw : Bytes) (found : MailCredential)
        → parse_username user ≡ some (ns, name)
        → reader ns name ≡ valid found
        → found.status.username ≡ user
        → usable found ≡ true
        → generated found ≡ true
        → pw ≢ []
        → (verify lib lru reader at slot user pw c).0 ≡ check_generated lib at found pw
    unfolding verify
    verify-check_generated lru slot c reader user ns name pw found p q u ok g n =
        ap (λ l. (check_found lib lru at slot l pw c).0)
          (lookup-parsed reader user p ∙ ap (if_usable user) q ∙ passes)
        ∙ check-check_generated lru slot c pw found g n
      where
        passes : if_usable user (valid found) ≡ valid found
        passes = rw (ok, (bytes_eq_iff found.status.username user).1 u) refl

    -- For a credential with a generated password, where those are enabled, and whatever the guard,
    -- the generator and the write of the Secret do, if hexadecimal decodes what it encodes and a sum
    -- has 32 bytes: once the reader has the status that `Reconcile` concludes after `rotate`,
    -- `verify` accepts under the credential's user name, at any time from then on, a new password
    -- that was written to the Secret, if it is not empty; and, if an earlier password is in a
    -- Secret, the one that was current before, within the grace period where it was replaced, and
    -- without such an end where none was written.
    pub rotate-LocksNobodyOut :
        {C : Type 0} (lru : LruOps C) (slot : Bool) (c : C) (reader : Reader)
        (user ns name pw : Bytes) (guard_ok : Bool) (new : Option Bytes) (w : Write) (out : Rotated)
        → now ≤ at
        → rotate lib now want true guard_ok new w st ≡ some out
        → generated mc ≡ true
        → parse_username user ≡ some (ns, name)
        → mc.status.username ≡ user
        → reader ns name ≡ valid (concluded mc out)
        → pw ≢ []
        → Known new out pw
        → (r : Result) × ((verify lib lru reader at slot user pw c).0 ≡ valid r)
    unfolding Stands
    rotate-LocksNobodyOut lru slot c reader user ns name pw guard_ok new w out l e g p u q n k =
        let (is_ready, (r, v)) = rotate-Stands guard_ok new w out l e pw k in
        (
          r,
          verify-check_generated lru slot c reader user ns name pw (concluded mc out) p q
                (concluded-username out ∙ u) (concluded-usable out is_ready g)
                (concluded-generated out ∙ g) n
              ∙ v,
        )
