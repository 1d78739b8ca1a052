-- ===== src/Credential/Samples.antt =====
-- A library of hashes, a cache and a MailCredential before and after a rotation, for the tests.
use sigillum.Common.{
  Bytes, ℕ, zero, suc, ◌*◌, ◌&&◌, ◌≡◌, refl, ap, inl, inr, ◌⊎◌, List, [], ◌∷◌, Option, none, some,
  codes, bytes_eq, bytes_eq_iff, length, if◌then◌else◌, Bool-cases, arith,
}
use sigillum.Credential.{valid, invalid}
use sigillum.Credential.Argon2.{HashLib}
use sigillum.Credential.Verifier.{MailCredential, PreviousCredentialHash, Reader, LruOps}
use sigillum.Credential.Verifier.Opens.{OnlyAdded}

-- The first `n` bytes, with zero bytes where there are fewer.
abbrev pub pad : ℕ → Bytes → Bytes
pad zero x = []
pad (suc n) [] = 0 ∷ pad n []
pad (suc n) (c ∷ x) = c ∷ pad n x

pub length-pad : (n : ℕ) (x : Bytes) → length (pad n x) ≡ n
length-pad zero x = refl
length-pad (suc n) [] = ap suc (length-pad n [])
length-pad (suc n) (c ∷ x) = ap suc (length-pad n x)

abbrev number : Bytes → Option ℕ
number (c ∷ []) = some (1024 * 20)
number x = some 2

-- With `sum` for SHA-256.
abbrev pub lib_of : (Bytes → Bytes) → HashLib
lib_of sum = record {
  sum256 = sum;
  hex_encode = λ x. x;
  hex_decode = λ x. some x;
  decode_base64 = λ x. some x;
  parse_uint = number;
  id_key = λ password salt time memory threads key_len. pad key_len password;
}

abbrev pub lib : HashLib
lib = lib_of (pad 32)

abbrev pub CacheEntries : Type 0
CacheEntries = List (Bytes × ℕ)

abbrev pub find : Bytes → CacheEntries → Option ℕ
find k [] = none
find k ((j, v) ∷ c) = if bytes_eq k j then some v else find k c

abbrev pub cache : LruOps CacheEntries
cache = record { get = λ k c. (find k c, c); add = λ k v c. (k, v) ∷ c }

pub cache-OnlyAdded : OnlyAdded cache
cache-OnlyAdded = (λ j k v c e. e, added)
  where
    added :
        (j k : Bytes) (v w : ℕ) (c : CacheEntries)
        → find k ((j, w) ∷ c) ≡ some v
        → (k ≡ j) ⊎ (find k c ≡ some v)
    added j k v w c e = elim (Bool-cases (bytes_eq k j)) [
      | inl t ↦ inl ((bytes_eq_iff k j).0 t)
      | inr f ↦ inr (ground arith)
    ]

abbrev pub credential : Bytes → Option Bytes → Option PreviousCredentialHash → MailCredential
credential own current previous = record {
  namespace = codes "team";
  uid = codes "u1";
  spec = record { service_account_name = codes "printer"; password_hash = own };
  status = record {
    username = codes "p.team";
    service_account_name = codes "printer";
    current = current;
    previous = previous;
    ready = some (codes "True");
  };
}

abbrev pub reader_of : MailCredential → Reader
reader_of mc ns name =
    if bytes_eq ns (codes "team") && bytes_eq name (codes "p") then valid mc else invalid

pub reader_of-valid :
    (mc found : MailCredential) (ns name : Bytes)
    → reader_of mc ns name ≡ valid found
    → (mc ≡ found) × (ns ≡ codes "team")
reader_of-valid mc found ns name e =
    elim (Bool-cases (bytes_eq ns (codes "team") && bytes_eq name (codes "p"))) [
      | inl t ↦ (ground arith, (bytes_eq_iff ns (codes "team")).0 (ground arith))
      | inr f ↦ absurd (ground arith)
    ]
