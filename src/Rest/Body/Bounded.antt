-- ===== src/Rest/Body/Bounded.antt =====
-- The size of a multipart body, and what becomes of its file parts.
use sigillum.Common.{
  Bytes, ℕ, ◌+◌, ◌≡◌, List, [], ◌∷◌, ◌++◌, length, codes, bytes_eq, if◌then◌else◌,
}
use sigillum.Policy.Types.{Platform}
use sigillum.Rest.Types.{Part, Parts, end, bad, part, HttpLib}
use sigillum.Rest.Attachments.Named.{contents}
use sigillum.Rest.Body.{Form}

-- All bytes of the parts, and the contents of those that are files.
abbrev pub total_bytes : Parts → ℕ
total_bytes end = 0
total_bytes (bad e) = 0
total_bytes (part p ps) = length p.content.bytes + total_bytes ps

abbrev file_bytes : Part → List Bytes
file_bytes p = if bytes_eq p.form_name (codes "data") then [] else p.content.bytes ∷ []

abbrev pub file_contents : Parts → List Bytes
file_contents end = []
file_contents (bad e) = []
file_contents (part p ps) = file_bytes p ++ file_contents ps

module _ (env : Platform) (lib : HttpLib) where
  -- What one part adds.
  record Added (p : Part) (c : Bytes) (f f' : Form) : Type 0 where
    size : f'.total ≡ f.total
    files :
        contents f'.atts
        ≡ contents f.atts ++ (if bytes_eq p.form_name (codes "data") then [] else c ∷ [])
