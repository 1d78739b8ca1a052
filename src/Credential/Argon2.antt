-- ===== src/Credential/Argon2.antt =====
-- The argon2id hashes that users bring along (`ParseArgon2id` and `VerifyArgon2id` of
-- internal/credential/credential.go). An error is `none`: the verifier asks only whether there is
-- one.
pub mod Bounded
use sigillum.Common.{
  Bytes, ℕ, Bool, true, false, not, ◌&&◌, ◌||◌, ◌*◌, List, [], ◌∷◌, Option, none, some, ◌==◌,
  if◌then◌else◌, length, codes, any, bytes_eq, ltb,
}
use sigillum.Policy.Address.{split}

-- What the standard library and golang.org/x/crypto compute: SHA-256, hexadecimal, unpadded base64,
-- `strconv.ParseUint` in base 10 at 32 bits, and `argon2.IDKey`.
pub record HashLib : Type 0 where
  pub sum256 : Bytes → Bytes
  pub hex_encode : Bytes → Bytes
  pub hex_decode : Bytes → Option Bytes
  pub decode_base64 : Bytes → Option Bytes
  pub parse_uint : Bytes → Option ℕ
  pub id_key : (password salt : Bytes) (time memory threads key_len : ℕ) → Bytes

pub record Argon2Params : Type 0 where
  pub memory_kib : ℕ
  pub time : ℕ
  pub threads : ℕ
  pub salt : Bytes
  pub key : Bytes

abbrev pub min_memory_kib : ℕ
min_memory_kib = 7 * 1024

abbrev pub max_memory_kib : ℕ
max_memory_kib = 64 * 1024

abbrev pub min_memory_time_kib : ℕ
min_memory_time_kib = 35 * 1024

abbrev pub max_time : ℕ
max_time = 10

abbrev pub max_threads : ℕ
max_threads = 16

abbrev pub min_salt_len : ℕ
min_salt_len = 8

abbrev pub min_key_len : ℕ
min_key_len = 16

abbrev pub max_key_len : ℕ
max_key_len = 64

abbrev pub no_params : Argon2Params
no_params = record { memory_kib = 0; time = 0; threads = 0; salt = []; key = [] }

abbrev pub cons_key : ℕ → Option (Bytes × Bytes) → Option (Bytes × Bytes)
cons_key c none = none
cons_key c (some (k, v)) = some (c ∷ k, v)

-- `strings.Cut` at a byte.
unfoldable pub cut : ℕ → Bytes → Option (Bytes × Bytes)
cut sep [] = none
cut sep (c ∷ s) = let rest = cut sep s in if c == sep then some ([], s) else cons_key c rest

-- `strings.TrimRight` of one byte.
unfoldable pub trim_right : ℕ → Bytes → Bytes
trim_right c [] = []
trim_right c (x ∷ s) = elim (trim_right c s) [
  | [] ↦ if x == c then [] else x ∷ []
  | y ∷ t ↦ x ∷ y ∷ t
]

unfoldable pub set_param : Bytes → ℕ → Argon2Params → Option Argon2Params
set_param k n p =
    if bytes_eq k (codes "m")
    then some (record p { memory_kib = n })
    else if bytes_eq k (codes "t")
    then some (record p { time = n })
    else if bytes_eq k (codes "p")
    then if ltb 255 n then none else some (record p { threads = n })
    else none

-- The checks of the numbers. The product is below 2^20 where it is formed.
unfoldable pub in_bounds : Argon2Params → Bool
in_bounds p = not (
    ltb p.memory_kib min_memory_kib
    || ltb max_memory_kib p.memory_kib
    || ltb p.time 1
    || ltb max_time p.time
    || ltb (p.memory_kib * p.time) min_memory_time_kib
    || ltb p.threads 1
    || ltb max_threads p.threads)

module _ (lib : HashLib) where
  abbrev pub in_turn :
      List Bytes
      → Bytes
      → Option Argon2Params
      → (List Bytes → Argon2Params → Option (List Bytes × Argon2Params))
      → Option (List Bytes × Argon2Params)
  in_turn seen k none then_parse = none
  in_turn seen k (some p) then_parse = then_parse (k ∷ seen) p

  -- The loop over the parameters, with the keys seen.
  unfoldable pub parse_params :
      List Bytes → List Bytes → Argon2Params → Option (List Bytes × Argon2Params)
  parse_params [] seen p = some (seen, p)
  parse_params (kv ∷ kvs) seen p = elim (cut b'=' kv) [
    | none ↦ none
    | some (k, v) ↦ if any (bytes_eq k) seen then none else elim (lib.parse_uint v) [
      | none ↦ none
      | some n ↦ in_turn seen k (set_param k n p) (parse_params kvs)
    ]
  ]

  unfoldable pub decode_b64 : Bytes → Option Bytes
  decode_b64 s = lib.decode_base64 (trim_right b'=' s)

  abbrev pub with_key : Argon2Params → Option Bytes → Option Argon2Params
  with_key p none = none
  with_key p (some key) =
      if ltb (length key) min_key_len || ltb max_key_len (length key)
      then none
      else some (record p { key = key })

  abbrev pub with_salt : Argon2Params → Option Bytes → Bytes → Option Argon2Params
  with_salt p none key = none
  with_salt p (some salt) key =
      if ltb (length salt) min_salt_len
      then none
      else with_key (record p { salt = salt }) (decode_b64 key)

  -- From the loop's end on.
  abbrev pub checked : Bytes → Bytes → Option (List Bytes × Argon2Params) → Option Argon2Params
  checked salt key none = none
  checked salt key (some (seen, p)) =
      if not (
        any (bytes_eq (codes "m")) seen
        && any (bytes_eq (codes "t")) seen
        && any (bytes_eq (codes "p")) seen)
      then none
      else if in_bounds p
      then with_salt p (decode_b64 salt) key
      else none

  unfoldable pub parse_parts : List Bytes → Option Argon2Params
  parse_parts (empty ∷ algorithm ∷ version ∷ params ∷ salt ∷ key ∷ []) =
      if not (bytes_eq empty [])
        || not (bytes_eq algorithm (codes "argon2id"))
        || not (bytes_eq version (codes "v=19"))
      then none
      else checked salt key (parse_params (split b',' params) [] no_params)
  parse_parts parts = none

  unfoldable pub parse_argon2id : Bytes → Option Argon2Params
  parse_argon2id phc = parse_parts (split b'$' phc)

  -- `VerifyArgon2id`.
  unfoldable pub verify_argon2id_hash : (phc password : Bytes) → Option Bool
  verify_argon2id_hash phc password = elim (parse_argon2id phc) [
    | none ↦ none
    | some p ↦
        some
          (bytes_eq (lib.id_key password p.salt p.time p.memory_kib p.threads (length p.key)) p.key)
  ]
