-- ===== src/Credential/Tests.antt =====
-- Runs of the functions on credentials, and their theorems at concrete inputs.
use sigillum.Common.{
  inr, Bytes, ◌≤◌, true, ◌≡◌, ◌≢◌, refl, sym, ap, subst, ◌∙◌, false, none, Option, ◌++◌, arith, ◌↔◌,
  ◌⊎◌, [], ◌∷◌, some, codes, length, count, cut_last, has_prefix, bytes_eq,
}
use sigillum.Credential.{
  username, parse_username, Exclusions, cut_star, pattern_excludes, excluded, split_patterns,
}
use sigillum.Policy.Address.{split}
use sigillum.Credential.{valid, invalid}
use sigillum.Credential.Argon2.{
  Argon2Params, cut, trim_right, set_param, in_bounds, parse_params, parse_parts, parse_argon2id,
  decode_b64, verify_argon2id_hash,
}
use sigillum.Credential.Argon2.Bounded.{Affordable, Sized, parse_argon2id-Bounded}
use sigillum.Credential.Verifier.{
  Reader, verifies, verify_generated, is_generated_hash, trim_prefix, generated, MailCredential,
  PreviousCredentialHash, Result, generated, is_generated_hash, trim_prefix, hash_generated,
  verify_generated, usable, still_valid, still_valid_of, check_generated, check, verify, lookup,
  result_of, verify_argon2id, condition_true,
}
use sigillum.Credential.Verifier.Agrees.{Issued, Answers, Kept, previous_of, still_valid-verify}
use sigillum.Credential.Verifier.Opens.{Sound, Plain, Opens, verify-Opens}
use sigillum.Credential.Rotation.{
  concluded, hash_text, Issued as RotationState, Wanted, written, Rotated, rotate, issue,
  expire_previous, rotation_due, ready,
}
use sigillum.Credential.Rotation.Grace.{rotate-LocksNobodyOut}
use sigillum.Credential.Samples.{
  length-pad, lib, cache, cache-OnlyAdded, credential, reader_of, reader_of-valid,
}
use sigillum.Credential.Names.{parse_username_iff}
use sigillum.Credential.Excluded.{Covered, excluded_iff}

abbrev user : Bytes
user = codes "printer.v2.team"

user-parsed : parse_username user ≡ some (codes "team", codes "printer.v2")
unfolding parse_username cut_last
user-parsed = refl

parse_username_iff_example : (parse_username user ≡ some (codes "team", codes "printer.v2")) ↔ (
    (user ≡ username (codes "printer.v2") (codes "team"))
    × (1 ≤ length (codes "printer.v2"))
    × (1 ≤ length (codes "team"))
    × (count b'.' (codes "team") ≡ 0))
parse_username_iff_example = parse_username_iff user (codes "team") (codes "printer.v2")

abbrev system : Exclusions
system = record {
  patterns = codes "kube-*" ∷ codes "default" ∷ [];
  release_namespace = codes "sigillum";
}

dns_excluded : excluded system (codes "kube-dns") ≡ true
unfolding excluded pattern_excludes cut_star has_prefix bytes_eq
dns_excluded = refl

excluded_iff_example : (excluded system (codes "kube-dns") ≡ true) ↔ (
    ((system.release_namespace ≢ []) × (codes "kube-dns" ≡ system.release_namespace))
    ⊎ Covered (codes "kube-dns") (split_patterns system.patterns))
excluded_iff_example = excluded_iff system (codes "kube-dns")

abbrev password : Bytes
password = codes "secret"

abbrev before : MailCredential
before = credential [] (some (hash_generated lib password)) none

-- After a rotation, with the old password for the grace period.
abbrev after : MailCredential
after =
    credential [] (some (hash_generated lib (codes "newer")))
      (some (record { hash = hash_generated lib password; valid_until = 100 }))

abbrev logged_in : Result
logged_in = result_of before (hash_generated lib password) false

login :
    verify lib cache (reader_of before) 0 true (codes "p.team") password [] ≡ (valid logged_in, [])
unfolding verify lookup check check_generated usable generated verify_generated hash_generated
    result_of parse_username cut_last bytes_eq has_prefix is_generated_hash trim_prefix
login = refl

answers :
    (mc : MailCredential)
    → Issued lib (λ x. refl) (length-pad 32) mc
    → mc.namespace ≡ codes "team"
    → Answers lib (λ x. refl) (length-pad 32) (reader_of mc)
answers mc issued is_team ns n found e =
    let (p, q) = reader_of-valid mc found ns n e in
    (
      subst (Issued lib (λ x. refl) (length-pad 32)) p issued,
      sym (ap (λ x. x.namespace) p) ∙ is_team ∙ sym q,
    )

before-Issued : Issued lib (λ x. refl) (length-pad 32) before
unfolding generated bytes_eq
before-Issued = (refl, λ h e. (password, ground (arith, e)), λ q e. absurd (ground arith))

after-Issued : Issued lib (λ x. refl) (length-pad 32) after
unfolding generated bytes_eq
after-Issued = (refl, λ h e. (codes "newer", ground (arith, e)), λ q e. (password, sym (hash_of e)))
  where
    hash_of :
        {q : PreviousCredentialHash}
        → after.status.previous ≡ some q
        → hash_generated lib password ≡ q.hash
    hash_of e = ap hash_or_none e
      where
        hash_or_none : Option PreviousCredentialHash → Bytes
        hash_or_none none = []
        hash_or_none (some q) = q.hash

after-Kept : Kept lib (λ x. refl) (length-pad 32) (reader_of after) logged_in
unfolding result_of
after-Kept ns n mc e =
    let (p, q) = reader_of-valid after mc ns n e in
    (
      sym (ap (λ x. x.uid) p),
      sym (ap (λ x. x.spec.service_account_name) p),
      sym (ap (λ x. x.status.username) p),
    )

still_valid-verify_example :
    still_valid (reader_of after) 50 logged_in
    ≡ previous_of (verify lib cache (reader_of after) 50 true (codes "p.team") password []).0
still_valid-verify_example =
    still_valid-verify lib (λ x. refl) (length-pad 32) cache (reader_of before) (reader_of after) 0
      50 true true (codes "p.team") password [] [] [] logged_in (answers before before-Issued refl)
      (answers after after-Issued refl) after-Kept login

-- Within the grace period the session goes on, on the previous password; then it is cut off.
in_grace : still_valid (reader_of after) 50 logged_in ≡ valid true
unfolding still_valid still_valid_of usable generated hash_generated result_of parse_username
    cut_last bytes_eq has_prefix is_generated_hash
in_grace = refl

after_grace : still_valid (reader_of after) 100 logged_in ≡ invalid
unfolding still_valid still_valid_of usable generated hash_generated result_of parse_username
    cut_last bytes_eq has_prefix is_generated_hash
after_grace = refl

-- A hash of 20 MiB and two passes; `lib` reads a number of one digit as 20480 and another one as 2.
abbrev own_password : Bytes
own_password = codes "secretsecretsecr"

abbrev phc : Bytes
phc = codes "$argon2id$v=19$m=9,t=10,p=10$saltsalt$secretsecretsecr"

abbrev parsed_phc : Argon2Params
parsed_phc = record {
  memory_kib = 20480;
  time = 2;
  threads = 2;
  salt = codes "saltsalt";
  key = own_password;
}

phc-parsed : parse_argon2id lib phc ≡ some parsed_phc
unfolding parse_argon2id parse_parts parse_params set_param in_bounds decode_b64 trim_right cut
    split bytes_eq
phc-parsed = refl

parse_argon2id-Bounded_example :
    (rest : Bytes) × (phc ≡ codes "$argon2id$v=19$" ++ rest)
    × Affordable parsed_phc
    × Sized parsed_phc
parse_argon2id-Bounded_example = parse_argon2id-Bounded lib phc parsed_phc phc-parsed

abbrev own : MailCredential
own = credential phc (some phc) none

own-Plain :
    (ns name : Bytes) (mc : MailCredential)
    → reader_of own ns name ≡ valid mc
    → Plain lib cache cache-OnlyAdded mc
own-Plain ns name mc e =
    let (p, q) = reader_of-valid own mc ns name e in
    subst (Plain lib cache cache-OnlyAdded) p (refl, refl)

empty-Sound : Sound lib cache []
empty-Sound key exp e = absurd (ground arith)

own_login :
    (verify lib cache (reader_of own) 0 true (codes "p.team") own_password []).0
    ≡ valid (result_of own phc false)
unfolding verify lookup check usable generated result_of verify_argon2id verify_argon2id_hash
    parse_argon2id parse_parts parse_params set_param in_bounds decode_b64 trim_right cut split
    parse_username cut_last bytes_eq
own_login = refl

verify-Opens_example :
    Sound lib cache (verify lib cache (reader_of own) 0 true (codes "p.team") own_password []).1
    × ((r : Result)
        → (verify lib cache (reader_of own) 0 true (codes "p.team") own_password []).0 ≡ valid r
        → (ns : Bytes) × (name : Bytes) × (mc : MailCredential) × (parse_username (codes "p.team")
            ≡ some (ns, name))
          × (reader_of own ns name ≡ valid mc)
          × (mc.status.username ≡ codes "p.team")
          × (mc.status.ready ≡ some condition_true)
          × (mc.status.service_account_name ≡ mc.spec.service_account_name)
          × (own_password ≢ [])
          × Opens lib cache 0 mc own_password r)
verify-Opens_example =
    verify-Opens lib cache cache-OnlyAdded (reader_of own) 0 true (codes "p.team") own_password []
      own-Plain empty-Sound

-- A scheduled rotation at time 20, with a grace period of 100.
abbrev wanted : Wanted
wanted = record { secret_name = codes "s"; rotate_annotation = []; interval = 10; grace = 100 }

abbrev first_issued : RotationState
first_issued = record {
  secret_name = codes "s";
  current = some (record { hash = hash_generated lib password; created_at = 0 });
  previous = none;
  last_rotate_request = [];
}

abbrev rotated : Rotated
rotated = record {
  status = issue lib 20 wanted (codes "newer") (expire_previous 20 first_issued);
  reason = ready;
  secret_written = true;
  retry = false;
}

rotation : rotate lib 20 wanted true true (some (codes "newer")) written first_issued ≡ some rotated
unfolding rotate rotation_due issue expire_previous bytes_eq
rotation = refl

-- The reader after the rotation.
abbrev renewed : Reader
renewed = reader_of (concluded before rotated)

renewed_found : renewed (codes "team") (codes "p") ≡ valid (concluded before rotated)
unfolding bytes_eq
renewed_found = refl

before-is_generated : generated before ≡ true
unfolding generated bytes_eq
before-is_generated = refl

user_of_before : parse_username (codes "p.team") ≡ some (codes "team", codes "p")
unfolding parse_username cut_last
user_of_before = refl

current_password : verifies lib (hash_text first_issued.current) password ≡ true
unfolding verify_generated hash_generated is_generated_hash trim_prefix has_prefix bytes_eq
current_password = refl

rotate-LocksNobodyOut_example :
    (r : Result) × ((verify lib cache renewed 50 true (codes "p.team") password []).0 ≡ valid r)
rotate-LocksNobodyOut_example =
    rotate-LocksNobodyOut lib (λ x. refl) (length-pad 32) before 20 50 wanted first_issued cache
      true [] renewed (codes "p.team") (codes "team") (codes "p") password true
      (some (codes "newer")) written rotated (omega arith) rotation before-is_generated
      user_of_before refl renewed_found (λ e. absurd (ground arith))
      (inr (current_password, λ e. absurd (ground arith), inr (omega arith)))
