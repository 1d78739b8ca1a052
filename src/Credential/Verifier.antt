-- ===== src/Credential/Verifier.antt =====
-- The verification of credentials in internal/credential: the hashes of generated passwords
-- (credential.go) and the verifier (verifier.go) over a MailCredential of
-- api/v1alpha1/mailcredential_types.go. Times are natural numbers; the slots for argon2id are an
-- answer of the surroundings.
pub mod Agrees
pub mod Opens
use sigillum.Common.{
  Bytes, ℕ, Bool, true, false, not, ◌&&◌, ◌||◌, List, [], ◌∷◌, ◌++◌, Option, none, some, ◌==◌,
  if◌then◌else◌, length, codes, ◌+◌, ◌*◌, has_prefix, bytes_eq, ltb,
}
use sigillum.Credential.{Lookup, valid, invalid, lookup_failed, parse_username}
use sigillum.Credential.Argon2.{HashLib, verify_argon2id_hash}

pub record MailCredentialSpec : Type 0 where
  pub service_account_name : Bytes
  pub password_hash : Bytes

pub record PreviousCredentialHash : Type 0 where
  pub hash : Bytes
  pub valid_until : ℕ

-- `current` is the text of `Current.Hash`. `ready` is the status of the condition Ready, if there
-- is one.
pub record MailCredentialStatus : Type 0 where
  pub username : Bytes
  pub service_account_name : Bytes
  pub current : Option Bytes
  pub previous : Option PreviousCredentialHash
  pub ready : Option Bytes

pub record MailCredential : Type 0 where
  pub namespace : Bytes
  pub uid : Bytes
  pub spec : MailCredentialSpec
  pub status : MailCredentialStatus

-- `MailCredential.Generated`.
unfoldable pub generated : MailCredential → Bool
generated mc = bytes_eq mc.spec.password_hash []

pub record Result : Type 0 where
  pub namespace : Bytes
  pub service_account : Bytes
  pub username : Bytes
  pub previous : Bool
  pub uid : Bytes
  pub hash : Bytes

abbrev pub sha256_prefix : Bytes
sha256_prefix = codes "sha256:"

abbrev pub sha256_size : ℕ
sha256_size = 32

unfoldable pub is_generated_hash : Bytes → Bool
is_generated_hash hash = has_prefix hash sha256_prefix

-- `strings.TrimPrefix`.
unfoldable pub trim_prefix : Bytes → Bytes → Bytes
trim_prefix s [] = s
trim_prefix [] (p ∷ ps) = []
trim_prefix (c ∷ s) (p ∷ ps) = trim_prefix s ps

module _ (lib : HashLib) where
  unfoldable pub hash_generated : Bytes → Bytes
  hash_generated password = sha256_prefix ++ lib.hex_encode (lib.sum256 password)

  -- The comparison of the bytes that the hash stands for.
  abbrev pub same_sum : Option Bytes → Bytes → Bool
  same_sum none password = false
  same_sum (some want) password =
      (length want == sha256_size) && bytes_eq want (lib.sum256 password)

  unfoldable pub verify_generated : (hash password : Bytes) → Bool
  verify_generated hash password =
      is_generated_hash hash && same_sum (lib.hex_decode (trim_prefix hash sha256_prefix)) password

-- `lru.Cache` of hashicorp/golang-lru, here with times as its values.
pub record LruOps (C : Type 0) : Type 0 where
  pub get : Bytes → C → Option ℕ × C
  pub add : Bytes → ℕ → C → C

-- How `Reader.Get` answers for a namespace and a name; `invalid` stands for NotFound.
abbrev pub Reader : Type 0
Reader = (namespace name : Bytes) → Lookup MailCredential

abbrev pub condition_true : Bytes
condition_true = codes "True"

abbrev pub is_true : Option Bytes → Bool
is_true none = false
is_true (some status) = bytes_eq status condition_true

abbrev pub hash_is : Option Bytes → Bytes → Bool
hash_is none hash = false
hash_is (some current) hash = bytes_eq current hash

unfoldable pub usable : MailCredential → Bool
usable mc =
    is_true mc.status.ready
    && bytes_eq mc.status.service_account_name mc.spec.service_account_name
    && (generated mc || hash_is mc.status.current mc.spec.password_hash)

abbrev pub if_usable : Bytes → Lookup MailCredential → Lookup MailCredential
if_usable user (valid mc) =
    if not (usable mc) || not (bytes_eq mc.status.username user) then invalid else valid mc
if_usable user invalid = invalid
if_usable user lookup_failed = lookup_failed

unfoldable pub lookup : Reader → Bytes → Lookup MailCredential
lookup reader user = elim (parse_username user) [
  | none ↦ invalid
  | some (ns, name) ↦ if_usable user (reader ns name)
]

unfoldable pub result_of : MailCredential → Bytes → Bool → Result
result_of mc hash previous = record {
  namespace = mc.namespace;
  service_account = mc.spec.service_account_name;
  username = mc.status.username;
  previous = previous;
  uid = mc.uid;
  hash = hash;
}

abbrev pub name_of : Bytes → Bytes
name_of user = elim (parse_username user) [ none ↦ [] | some (ns, name) ↦ name ]

-- Five minutes, in nanoseconds.
abbrev pub argon_cache_ttl : ℕ
argon_cache_ttl = 300 * 1000000000

abbrev pub previous_is : (now : ℕ) → Result → Option PreviousCredentialHash → Bool
previous_is now r none = false
previous_is now r (some prev) = bytes_eq prev.hash r.hash && ltb now prev.valid_until

-- What `StillValid` makes of a found credential.
unfoldable pub still_valid_of : (now : ℕ) → Result → MailCredential → Lookup Bool
still_valid_of now r mc =
    if not (bytes_eq mc.uid r.uid)
      || not (usable mc)
      || not (bytes_eq mc.spec.service_account_name r.service_account)
    then invalid
    else if not (generated mc)
    then if bytes_eq mc.spec.password_hash r.hash then valid false else invalid
    else if not (is_generated_hash r.hash)
    then invalid
    else if hash_is mc.status.current r.hash
    then valid false
    else if previous_is now r mc.status.previous
    then valid true
    else invalid

abbrev pub found_valid : ℕ → Result → Lookup MailCredential → Lookup Bool
found_valid now r (valid mc) = still_valid_of now r mc
found_valid now r invalid = invalid
found_valid now r lookup_failed = lookup_failed

unfoldable pub still_valid : Reader → (now : ℕ) → Result → Lookup Bool
still_valid reader now r = found_valid now r (reader r.namespace (name_of r.username))

module _ (lib : HashLib) where
  abbrev pub verifies : Option Bytes → Bytes → Bool
  verifies none password = false
  verifies (some current) password = verify_generated lib current password

  abbrev pub previous_verifies : (now : ℕ) → Option PreviousCredentialHash → Bytes → Bool
  previous_verifies now none password = false
  previous_verifies now (some prev) password =
      ltb now prev.valid_until && verify_generated lib prev.hash password

  abbrev pub text_of : Option Bytes → Bytes
  text_of none = []
  text_of (some hash) = hash

  abbrev pub previous_text : Option PreviousCredentialHash → Bytes
  previous_text none = []
  previous_text (some prev) = prev.hash

  -- The part of `Check` for a generated password.
  unfoldable pub check_generated : (now : ℕ) → MailCredential → Bytes → Lookup Result
  check_generated now mc password =
      if verifies mc.status.current password
      then valid (result_of mc (text_of mc.status.current) false)
      else if previous_verifies now mc.status.previous password
      then valid (result_of mc (previous_text mc.status.previous) true)
      else invalid

  module _ {C : Type 0} (lru : LruOps C) where
    abbrev pub is_fresh : ℕ → Option ℕ → Bool
    is_fresh now none = false
    is_fresh now (some exp) = ltb now exp

    abbrev pub remember : (now : ℕ) → Bytes → Option Bool → C → Lookup Bool × C
    remember now key none c = (valid false, c)
    remember now key (some false) c = (valid false, c)
    remember now key (some true) c = (valid true, lru.add key (now + argon_cache_ttl) c)

    unfoldable pub cache_key : (user phc password : Bytes) → Bytes
    cache_key user phc password = lib.sum256 (user ++ 0 ∷ (phc ++ 0 ∷ password))

    -- `slot` says whether a slot becomes free before the context ends.
    unfoldable pub verify_argon2id :
        (now : ℕ) (slot : Bool) (user phc password : Bytes) → C → Lookup Bool × C
    verify_argon2id now slot user phc password c =
        let key = cache_key user phc password in
        let found = lru.get key c in
        if is_fresh now found.0
        then (valid true, found.1)
        else if not slot
        then (lookup_failed, found.1)
        else remember now key (verify_argon2id_hash lib phc password) found.1

    abbrev pub own_hash : MailCredential → Lookup Bool × C → Lookup Result × C
    own_hash mc (valid true, c) = (valid (result_of mc mc.spec.password_hash false), c)
    own_hash mc (valid false, c) = (invalid, c)
    own_hash mc (invalid, c) = (invalid, c)
    own_hash mc (lookup_failed, c) = (lookup_failed, c)

    unfoldable pub check : (now : ℕ) (slot : Bool) → MailCredential → Bytes → C → Lookup Result × C
    check now slot mc password c =
        if bytes_eq password []
        then (invalid, c)
        else if not (generated mc)
        then own_hash mc
            (verify_argon2id now slot mc.status.username mc.spec.password_hash password c)
        else (check_generated now mc password, c)

    abbrev pub check_found :
        (now : ℕ) (slot : Bool) → Lookup MailCredential → Bytes → C → Lookup Result × C
    check_found now slot (valid mc) password c = check now slot mc password c
    check_found now slot invalid password c = (invalid, c)
    check_found now slot lookup_failed password c = (lookup_failed, c)

    unfoldable pub verify :
        Reader → (now : ℕ) (slot : Bool) (user password : Bytes) → C → Lookup Result × C
    verify reader now slot user password c = check_found now slot (lookup reader user) password c
