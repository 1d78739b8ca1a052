-- ===== src/Credential/Names.antt =====
-- User names: what parses, and that it is what was put together.
use sigillum.Common.{
  Bytes, ◌≤◌, ◌≡◌, ◌↔◌, inl, inr, some, arith, length, count, cut_last, cut_last-some,
  cut_last-append, Option-cases,
}
use sigillum.Credential.{username, parse_username}

-- `parse_username` reads a text as a namespace and a name exactly if it is what `username` makes of
-- them, both are nonempty, and the namespace has no dot; so the two are inverse on such pairs,
-- whatever dots the name has.
pub parse_username_iff :
    (u namespace name : Bytes)
    → (parse_username u ≡ some (namespace, name)) ↔ (
        (u ≡ username name namespace)
        × (1 ≤ length name)
        × (1 ≤ length namespace)
        × (count b'.' namespace ≡ 0))
unfolding username parse_username
parse_username_iff u namespace name = (parsed u namespace name, printed u namespace name)
  where
    parsed :
        (u ns n : Bytes)
        → parse_username u ≡ some (ns, n)
        → (u ≡ username n ns) × (1 ≤ length n) × (1 ≤ length ns) × (count b'.' ns ≡ 0)
    parsed u ns n e = elim (Option-cases (cut_last b'.' u)) [
      | inl c ↦ absurd (ground arith)
      | inr ((a, b), c) ↦ ground (arith, cut_last-some b'.' u c)
    ]

    printed :
        (u ns n : Bytes)
        → (u ≡ username n ns) × (1 ≤ length n) × (1 ≤ length ns) × (count b'.' ns ≡ 0)
        → parse_username u ≡ some (ns, n)
    printed u ns n (e, l, m, c) = rw (e, parse_username, cut_last-append b'.' n ns c) (ground arith)
