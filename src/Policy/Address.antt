-- ===== src/Policy/Address.antt =====
-- internal/policy/address.go: the addresses and domains that are accepted before any policy is
-- applied. `none` stands for a nil error; the error says which check refused.
-- `ValidatePlainAddress` and `ValidateAddressHeader` begin with parsers of net/mail and mime; they
-- are in SmtpProxy/Headers.antt, with the parsers as parameters.
pub mod Sound
use sigillum.Common.{
  Bytes, ℕ, ◌+◌, ◌-◌, Bool, true, false, not, ◌&&◌, ◌||◌, List, [], ◌∷◌, Option, none, some, ltb,
  leb, ◌==◌, if◌then◌else◌, length, any, all, contains_byte, codes, cut_last, has_prefix,
}

pub data AddressError : Type 0 where
  not_a_mailbox domain_length label_length label_hyphen not_a_host_name not_a_dot_atom :
      AddressError
  bad_local_byte : ℕ → AddressError

abbrev pub is_alnum : ℕ → Bool
is_alnum c = leb b'a' c && leb c b'z' || leb b'A' c && leb c b'Z' || leb b'0' c && leb c b'9'

abbrev pub specials : Bytes
specials = codes "#$&'*+-/=?^_`{|}~."

unfoldable pub local_part_byte : ℕ → Bool
local_part_byte c = leb 128 c || is_alnum c || contains_byte specials c

abbrev pub host_byte : ℕ → Bool
host_byte c = is_alnum c || c == b'-'

abbrev pub last_is : ℕ → Bytes → Bool
last_is c [] = false
last_is c (x ∷ []) = x == c
last_is c (x ∷ y ∷ s) = last_is c (y ∷ s)

abbrev pub first_is : ℕ → Bytes → Bool
first_is c [] = false
first_is c (x ∷ s) = x == c

-- `strings.Split(s, sep)` at a one-byte separator.
unfoldable pub split : ℕ → Bytes → List Bytes
split sep [] = [] ∷ []
split sep (x ∷ xs) = elim (split sep xs) [
  | [] ↦ [] ∷ []
  | w ∷ ws ↦ if x == sep then [] ∷ w ∷ ws else (x ∷ w) ∷ ws
]

unfoldable pub validate_label : Bytes → Option AddressError
validate_label l =
    if length l == 0 || ltb 63 (length l)
    then some label_length
    else if first_is b'-' l || last_is b'-' l
    then some label_hyphen
    else if all host_byte l
    then none
    else some not_a_host_name

-- The loop over the labels: the first refusal is returned.
unfoldable pub validate_labels : List Bytes → Option AddressError
validate_labels [] = none
validate_labels (l ∷ ls) =
    let rest = validate_labels ls in elim (validate_label l) [ some e ↦ some e | none ↦ rest ]

unfoldable pub validate_domain : Bytes → Option AddressError
validate_domain d =
    if length d == 0 || ltb 253 (length d)
    then some domain_length
    else validate_labels (split b'.' d)

-- `strings.Contains(s, "..")`.
unfoldable pub has_double_dot : Bytes → Bool
has_double_dot [] = false
has_double_dot (x ∷ xs) = x == b'.' && first_is b'.' xs || has_double_dot xs

-- The loop over the local part's bytes.
unfoldable pub validate_local_bytes : Bytes → Option AddressError
validate_local_bytes [] = none
validate_local_bytes (c ∷ cs) =
    let rest = validate_local_bytes cs in
    if local_part_byte c then rest else some (bad_local_byte c)

unfoldable pub validate_local : Bytes → Option AddressError
validate_local l =
    if first_is b'.' l || last_is b'.' l || has_double_dot l
    then some not_a_dot_atom
    else validate_local_bytes l

-- `at <= 0 || at == len(addr)-1`: no '@', nothing before it, or nothing behind it.
unfoldable pub validate_mailbox : Bytes → Option AddressError
validate_mailbox addr = elim (cut_last b'@' addr) [
  | none ↦ some not_a_mailbox
  | some (l, d) ↦
      if length l == 0 || length d == 0
      then some not_a_mailbox
      else elim (validate_domain d) [ some e ↦ some e | none ↦ validate_local l ]
]
