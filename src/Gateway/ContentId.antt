-- ===== src/Gateway/ContentId.antt =====
-- `ValidateContentID` and `isDotAtom` of internal/driver/driver.go.
use sigillum.Common.{
  Bytes, ℕ, Bool, true, false, not, ◌||◌, [], ◌∷◌, ◌++◌, Option, none, some, ltb, ◌==◌,
  if◌then◌else◌, codes, length, all, contains_byte,
}
use sigillum.Policy.Address.{is_alnum, first_is, last_is, has_double_dot}

-- `strings.Cut(s, "@")`.
unfoldable pub cut_at : Bytes → Option (Bytes × Bytes)
cut_at [] = none
cut_at (c ∷ s) = elim (c == b'@') [
  | true ↦ some ([], s)
  | false ↦ elim (cut_at s) [ none ↦ none | some (a, b) ↦ some (c ∷ a, b) ]
]

abbrev pub atom_byte : ℕ → Bool
atom_byte c = is_alnum c || c == b'.' || contains_byte (codes "!#$%&'*+-/=?^_`{|}~") c

unfoldable pub is_dot_atom : Bytes → Bool
is_dot_atom s =
    if length s == 0 || first_is b'.' s || last_is b'.' s || has_double_dot s
    then false
    else all atom_byte s

abbrev pub max_content_id : ℕ
max_content_id = 250

-- The text that `quote` makes of the ID stands in the error; `none` is no error.
unfoldable pub validate_content_id : (Bytes → Bytes) → Bytes → Option Bytes
validate_content_id quote id =
    let malformed = some (
      codes "content ID "
      ++ quote id
      ++ codes
          " must look like id-left@id-right (letters, digits, dots and !#$%&'*+-/=?^_`{|}~), without <>") in
    if length id == 0 || ltb max_content_id (length id)
    then some (codes "content ID must be 1 to 250 characters")
    else elim (cut_at id) [
      | none ↦ malformed
      | some (left, right) ↦
          if not (is_dot_atom left) || not (is_dot_atom right) then malformed else none
    ]
