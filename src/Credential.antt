-- ===== src/Credential.antt =====
-- The names of MailCredentials and the namespaces that may hold generated ones
-- (internal/credential/credential.go).
pub mod Names
pub mod Excluded
pub mod Argon2
pub mod Verifier
pub mod Rotation
pub mod Samples
mod Tests
use sigillum.Common.{
  Bytes, ℕ, Bool, true, false, not, ◌&&◌, ◌||◌, List, [], ◌∷◌, ◌++◌, Option, none, some, ◌==◌,
  if◌then◌else◌, length, any, cut_last, has_prefix, bytes_eq,
}

-- `StillValid` and `Check`, by the errors that their callers tell apart: ErrInvalid and any other.
pub data Lookup {ℓ} (A : Type ℓ) : Type ℓ where
  valid : A → Lookup A
  invalid : Lookup A
  lookup_failed : Lookup A

unfoldable pub username : (name namespace : Bytes) → Bytes
username name namespace = name ++ b'.' ∷ namespace

-- The namespace and the name.
unfoldable pub parse_username : Bytes → Option (Bytes × Bytes)
parse_username u = elim (cut_last b'.' u) [
  | none ↦ none
  | some (name, namespace) ↦
      if length name == 0 || length namespace == 0 then none else some (namespace, name)
]

pub record Exclusions : Type 0 where
  pub patterns : List Bytes
  pub release_namespace : Bytes

abbrev pub cons_prefix : ℕ → Option Bytes → Option Bytes
cons_prefix c none = none
cons_prefix c (some p) = some (c ∷ p)

-- `strings.CutSuffix(p, "*")`.
unfoldable pub cut_star : Bytes → Option Bytes
cut_star [] = none
cut_star (c ∷ []) = if c == b'*' then some [] else none
cut_star (c ∷ d ∷ p) = cons_prefix c (cut_star (d ∷ p))

unfoldable pub pattern_excludes : Bytes → Bytes → Bool
pattern_excludes ns p = elim (cut_star p) [
  | some prefix ↦ has_prefix ns prefix
  | none ↦ bytes_eq ns p
]

-- `Exclusions.Excluded`.
unfoldable pub excluded : Exclusions → Bytes → Bool
excluded e ns =
    if not (bytes_eq e.release_namespace []) && bytes_eq ns e.release_namespace
    then true
    else any (pattern_excludes ns) e.patterns

abbrev pub add_pattern : Bytes → Option Bytes → List Bytes × List Bytes → List Bytes × List Bytes
add_pattern p none (exact, prefixes) = (p ∷ exact, prefixes)
add_pattern p (some prefix) (exact, prefixes) = (exact, prefix ∷ prefixes)

-- `Exclusions.split`: the exact names, and the prefixes without their '*'.
unfoldable pub split_patterns : List Bytes → List Bytes × List Bytes
split_patterns [] = ([], [])
split_patterns (p ∷ ps) = add_pattern p (cut_star p) (split_patterns ps)
