-- ===== src/Mime/Message/Hidden.antt =====
-- What of a message does not show in its text, and what its own headers cannot change.
use sigillum.Common.{
  Bytes, ◌+◌, ◌<◌, true, false, ◌≡◌, refl, subst, ◌∙◌, inl, inr, List, [], ◌∷◌, none, All, arith,
  length, bytes_eq, bytes_eq_iff, Bool-cases, Option-cases, if◌then◌else◌, ◌==◌,
}
use sigillum.Policy.Types.{Platform}
use sigillum.Gateway.Types.{ok, Address, Message}
use sigillum.Mime.Message.{
  Fields, MimeLib, contains_injection_chars, put, param, set, is_reserved_header,
  validate_header_key, field_error, add_headers, managed_fields, write_body, assemble,
  assemble_message,
}

-- Field names that are spelled alike canonically are alike in lower case.
abbrev pub KeepsCase : Platform → MimeLib → Type 0
KeepsCase env lib =
    (a b : Bytes) → lib.canonical_key a ≡ lib.canonical_key b → env.to_lower a ≡ env.to_lower b

param-put :
    (k j v : Bytes) (l : Fields) → param k (put j v l) ≡ (if bytes_eq j k then v else param k l)
unfolding put
param-put k j v [] = refl
param-put k j v ((i, w) ∷ l) =
    ground (arith, bytes_eq_iff i j, bytes_eq_iff j k, bytes_eq_iff i k, param-put k j v l)

-- Every value is free of line breaks and NUL.
abbrev pub IsClean : Fields → Type 0
IsClean l = All (λ f. contains_injection_chars f.1 ≡ false) l

IsClean-put :
    (k v : Bytes) (l : Fields)
    → contains_injection_chars v ≡ false
    → IsClean l
    → IsClean (put k v l)
unfolding put
IsClean-put k v [] c h = (c, tt)
IsClean-put k v ((j, w) ∷ l) c (d, h) = elim (Bool-cases (bytes_eq j k)) [
  | inl t ↦ rw (put, t) (c, h)
  | inr t ↦ rw (put, t) (d, IsClean-put k v l c h)
]

module _ (env : Platform) (lib : MimeLib) where
  field_error-none :
      (k v : Bytes) → field_error env lib k v ≡ none → contains_injection_chars v ≡ false
  field_error-none k v e = elim (Option-cases (validate_header_key env lib k)) [
    | inl t ↦ ground (arith, t, e)
    | inr (x, t) ↦ ground (arith, t, e)
  ]

  kept_by_set :
      (k j v : Bytes) (fields : Fields)
      → KeepsCase env lib
      → is_reserved_header env lib k ≡ true
      → is_reserved_header env lib j ≡ false
      → param (lib.canonical_key k) (set env lib j v fields) ≡ param (lib.canonical_key k) fields
  unfolding is_reserved_header
  kept_by_set k j v fields same r n =
      elim (Bool-cases (bytes_eq (lib.canonical_key j) (lib.canonical_key k))) [
        | inr t ↦ param-put (lib.canonical_key k) (lib.canonical_key j) v fields ∙ rw t refl
        | inl t ↦
            cc (r, n, same j k ((bytes_eq_iff (lib.canonical_key j) (lib.canonical_key k)).0 t))
      ]

  -- If names that are canonically alike are alike in lower case, then the headers of a message leave
  -- the fields that the driver manages as they were, and where the values of those had no CR, LF or
  -- NUL, no field has any after.
  pub add_headers-managed :
      (h fields out : Fields) (k : Bytes)
      → KeepsCase env lib
      → IsClean fields
      → add_headers env lib h fields ≡ ok out
      → is_reserved_header env lib k ≡ true
      → (param (lib.canonical_key k) out ≡ param (lib.canonical_key k) fields) × IsClean out
  unfolding add_headers
  add_headers-managed [] fields out k same c e r = (cc, subst IsClean (cc) c)
  add_headers-managed ((j, v) ∷ h) fields out k same c e r =
      elim (Bool-cases (is_reserved_header env lib j)) [
        | inl t ↦ add_headers-managed h fields out k same c (rw (add_headers, t) at e) r
        | inr t ↦ elim (Option-cases (field_error env lib j v)) [
          | inr (x, u) ↦ ground (arith, t, u, e)
          | inl u ↦
              let next = set env lib j v fields in
              let clean = IsClean-put (lib.canonical_key j) v fields (field_error-none j v u) c in
              let (kept, d) =
                add_headers-managed h next out k same clean (rw (add_headers, t, u) at e) r in
              (kept ∙ kept_by_set k j v fields same r t, d)
        ]
      ]

  -- The text that `assemble_message` makes, the message ID and the errors do not depend on the Bcc
  -- recipients, as long as there is a recipient.
  pub assemble_message-hidden :
      (m : Message) (helo : Bytes) (bcc : List Address)
      → 0 < length m.to + length m.cc + length m.bcc
      → 0 < length m.to + length m.cc + length bcc
      → assemble_message env lib (record m { bcc = bcc }) helo ≡ assemble_message env lib m helo
  unfolding assemble_message assemble managed_fields write_body
  assemble_message-hidden m helo bcc h k =
      let a : (length m.to + length m.cc + length m.bcc == 0) ≡ false = ground arith in
      let b : (length m.to + length m.cc + length bcc == 0) ≡ false = ground arith in rw (a, b) refl
