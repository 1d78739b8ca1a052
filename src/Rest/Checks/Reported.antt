-- ===== src/Rest/Checks/Reported.antt =====
-- The Sender and the Reply-To addresses that are reported to the policy, against the header fields.
use sigillum.Common.{
  Bytes, ◌≡◌, ◌≢◌, ◌⊎◌, inl, inr, refl, sym, ap, ◌∙◌, subst, List, [], ◌∷◌, codes, All, bytes_eq,
  bytes_eq_iff, Bool-cases,
}
use sigillum.Policy.Types.{Platform}
use sigillum.Gateway.Types.{ok, Address}
use sigillum.SmtpProxy.Headers.{prefixed}
use sigillum.Rest.Types.{Entries, HttpLib}
use sigillum.Rest.Checks.{
  FieldKind, sender_field, reply_to_field, other_field, sender_key, reply_to_key, kind_of,
  single_address, reply_to_addresses, with_sender, with_reply_to, address_field, address_headers,
}
use sigillum.Rest.Checks.Sound.{Distinct, keys, and_then-ok, prefixed-ok}

-- What a kind says of a canonical field name.
abbrev HasKind : FieldKind → Bytes → Type 0
HasKind sender_field k = k ≡ sender_key
HasKind reply_to_field k = k ≡ reply_to_key
HasKind other_field k = (k ≢ sender_key) × (k ≢ reply_to_key)

kind_of-HasKind : (k : Bytes) → HasKind (kind_of k) k
unfolding kind_of
kind_of-HasKind k = elim (Bool-cases (bytes_eq k sender_key)) [
  | inl s ↦ rw s ((bytes_eq_iff k sender_key).0 s)
  | inr s ↦ rw s (elim (Bool-cases (bytes_eq k reply_to_key)) [
    | inl r ↦ rw r ((bytes_eq_iff k reply_to_key).0 r)
    | inr r ↦ rw r (
      λ e. cc (s, (bytes_eq_iff k sender_key).1 e),
      λ e. cc (r, (bytes_eq_iff k reply_to_key).1 e),
    )
  ])
]

keys_apart : sender_key ≢ reply_to_key
keys_apart e = cc

module _ (env : Platform) (lib : HttpLib) where
  -- A Sender field has the reported address, and where there is no such field none is reported.
  abbrev pub IsSender : Entries → Bytes → Type 0
  IsSender h sender =
      All
        (λ f.
          lib.canonical_key f.0 ≡ sender_key
          → (a : Address) × (single_address env lib f.1 ≡ ok a) × (a.address ≡ sender))
        h
      × (All (λ k. sender_key ≢ k) (keys lib h) → sender ≡ [])

  -- Likewise for Reply-To.
  abbrev pub IsReplyTo : Entries → List Bytes → Type 0
  IsReplyTo h reply_to =
      All (λ f. lib.canonical_key f.0 ≡ reply_to_key → reply_to_addresses env lib f.1 ≡ ok reply_to)
        h
      × (All (λ k. reply_to_key ≢ k) (keys lib h) → reply_to ≡ [])

  unchanged_sender :
      (kind : FieldKind) (k v : Bytes) (found found' : Bytes × List Bytes)
      → HasKind kind k
      → sender_key ≢ k
      → address_field env lib kind v found ≡ ok found'
      → found'.0 ≡ found.0
  unchanged_sender sender_field k v found found' h n e = absurd (n (sym h))
  unchanged_sender reply_to_field k v (s, r) found' h n e =
      let (l, got, same) = and_then-ok _ (with_reply_to env lib s r) e in cc
  unchanged_sender other_field k v found found' h n e = cc

  kept_sender :
      (found found' : Bytes × List Bytes) (h : Entries)
      → All (λ k. sender_key ≢ k) (keys lib h)
      → address_headers env lib found h ≡ ok found'
      → found'.0 ≡ found.0
  unfolding address_headers
  kept_sender found found' [] n e = cc
  kept_sender found found' ((k, v) ∷ h) (n, more) e =
      let (next, got, rest) = and_then-ok _ (λ f. address_headers env lib f h) e in
      kept_sender next found' h more rest
      ∙ unchanged_sender (kind_of (lib.canonical_key k)) (lib.canonical_key k) v found next
          (kind_of-HasKind (lib.canonical_key k)) n got

  SenderClaim : Bytes → Bytes × Bytes → Type 0
  SenderClaim sender f =
      lib.canonical_key f.0 ≡ sender_key
      → (a : Address) × (single_address env lib f.1 ≡ ok a) × (a.address ≡ sender)

  found_sender :
      (kind : FieldKind) (k v : Bytes) (found next found' : Bytes × List Bytes) (h : Entries)
      → HasKind kind (lib.canonical_key k)
      → address_field env lib kind v found ≡ ok next
      → address_headers env lib next h ≡ ok found'
      → All (λ j. lib.canonical_key k ≢ j) (keys lib h)
      → SenderClaim found'.0 (k, v)
  unfolding SenderClaim
  found_sender sender_field k v (s, r) next found' h is got rest n e =
      let (a, parsed, kept) =
        and_then-ok (prefixed (codes "header \"Sender\": ") (single_address env lib v))
          (with_sender env lib r) got in
      let same : next.0 ≡ a.address = cc in
      (
        a,
        prefixed-ok (codes "header \"Sender\": ") (single_address env lib v) parsed,
        sym same
            ∙ sym (
                kept_sender next found' h (subst (λ k'. All (λ j. k' ≢ j) (keys lib h)) is n) rest),
      )
  found_sender reply_to_field k v found next found' h is got rest n e =
      absurd (keys_apart (sym e ∙ is))
  found_sender other_field k v found next found' h is got rest n e = absurd (is.0 e)

  senders_found :
      (found found' : Bytes × List Bytes) (h : Entries)
      → Distinct (keys lib h)
      → address_headers env lib found h ≡ ok found'
      → All (SenderClaim found'.0) h
  unfolding address_headers
  senders_found found found' [] d e = tt
  senders_found found found' ((k, v) ∷ h) (n, d) e =
      let (next, got, rest) = and_then-ok _ (λ f. address_headers env lib f h) e in
      (
        found_sender (kind_of (lib.canonical_key k)) k v found next found' h
            (kind_of-HasKind (lib.canonical_key k)) got rest n,
        senders_found next found' h d rest,
      )

  pub address_headers-IsSender :
      (found' : Bytes × List Bytes) (h : Entries)
      → Distinct (keys lib h)
      → address_headers env lib ([], []) h ≡ ok found'
      → IsSender h found'.0
  unfolding SenderClaim
  address_headers-IsSender found' h d e =
      (senders_found ([], []) found' h d e, λ n. kept_sender ([], []) found' h n e)

  unchanged_reply_to :
      (kind : FieldKind) (k v : Bytes) (found found' : Bytes × List Bytes)
      → HasKind kind k
      → reply_to_key ≢ k
      → address_field env lib kind v found ≡ ok found'
      → found'.1 ≡ found.1
  unchanged_reply_to reply_to_field k v found found' h n e = absurd (n (sym h))
  unchanged_reply_to sender_field k v (s, r) found' h n e =
      let (l, got, same) = and_then-ok _ (with_sender env lib r) e in cc
  unchanged_reply_to other_field k v found found' h n e = cc

  kept_reply_to :
      (found found' : Bytes × List Bytes) (h : Entries)
      → All (λ k. reply_to_key ≢ k) (keys lib h)
      → address_headers env lib found h ≡ ok found'
      → found'.1 ≡ found.1
  unfolding address_headers
  kept_reply_to found found' [] n e = cc
  kept_reply_to found found' ((k, v) ∷ h) (n, more) e =
      let (next, got, rest) = and_then-ok _ (λ f. address_headers env lib f h) e in
      kept_reply_to next found' h more rest
      ∙ unchanged_reply_to (kind_of (lib.canonical_key k)) (lib.canonical_key k) v found next
          (kind_of-HasKind (lib.canonical_key k)) n got

  ReplyToClaim : List Bytes → Bytes × Bytes → Type 0
  ReplyToClaim reply_to f =
      lib.canonical_key f.0 ≡ reply_to_key → reply_to_addresses env lib f.1 ≡ ok reply_to

  -- Behind the one Reply-To field, no other makes a claim.
  no_claims :
      (l : List Bytes) (h : Entries)
      → All (λ k. reply_to_key ≢ k) (keys lib h)
      → All (ReplyToClaim l) h
  unfolding ReplyToClaim
  no_claims l [] n = tt
  no_claims l ((k, v) ∷ h) (n, more) = (λ e. absurd (n (sym e)), no_claims l h more)

  -- What is known of a step from a list that is still empty: it holds the field's claim, and the
  -- list is still empty behind it or no later field is a Reply-To.
  found_reply_to :
      (kind : FieldKind) (k v : Bytes) (s : Bytes) (next found' : Bytes × List Bytes) (h : Entries)
      → HasKind kind (lib.canonical_key k)
      → address_field env lib kind v (s, []) ≡ ok next
      → address_headers env lib next h ≡ ok found'
      → All (λ j. lib.canonical_key k ≢ j) (keys lib h)
      → ReplyToClaim found'.1 (k, v) × ((next.1 ≡ []) ⊎ All (λ j. reply_to_key ≢ j) (keys lib h))
  unfolding ReplyToClaim
  found_reply_to reply_to_field k v s next found' h is got rest n =
      let (l, parsed, kept) =
        and_then-ok (prefixed (codes "header \"Reply-To\": ") (reply_to_addresses env lib v))
          (with_reply_to env lib s []) got in
      let same : next.1 ≡ l = cc in
      let none_left = subst (λ k'. All (λ j. k' ≢ j) (keys lib h)) is n in
      (
        λ e.
            prefixed-ok (codes "header \"Reply-To\": ") (reply_to_addresses env lib v) parsed
            ∙ ap ok (sym same ∙ sym (kept_reply_to next found' h none_left rest)),
        inr none_left,
      )
  found_reply_to sender_field k v s next found' h is got rest n = (
    λ e. absurd (keys_apart (sym is ∙ e)),
    inl (
        unchanged_reply_to sender_field (lib.canonical_key k) v (s, []) next is
          (λ e. keys_apart (sym is ∙ sym e)) got),
  )
  found_reply_to other_field k v s next found' h is got rest n = (λ e. absurd (is.1 e), inl (cc))

  reply_tos_found :
      (s : Bytes) (r : List Bytes) (found' : Bytes × List Bytes) (h : Entries)
      → r ≡ []
      → Distinct (keys lib h)
      → address_headers env lib (s, r) h ≡ ok found'
      → All (ReplyToClaim found'.1) h
  unfolding address_headers
  reply_tos_found s r found' [] z d e = tt
  reply_tos_found s r found' ((k, v) ∷ h) z (n, d) e =
      let ((s', r'), got, rest) = and_then-ok _ (λ f. address_headers env lib f h) e in
      let (claim, left) =
        found_reply_to (kind_of (lib.canonical_key k)) k v s (s', r') found' h
          (kind_of-HasKind (lib.canonical_key k))
          (subst
            (λ r''. address_field env lib (kind_of (lib.canonical_key k)) v (s, r'') ≡ ok (s', r'))
            z got)
          rest n in
      (
        claim,
        elim left [
          | inl empty ↦ reply_tos_found s' r' found' h empty d rest
          | inr over ↦ no_claims found'.1 h over
        ],
      )

  pub address_headers-IsReplyTo :
      (found' : Bytes × List Bytes) (h : Entries)
      → Distinct (keys lib h)
      → address_headers env lib ([], []) h ≡ ok found'
      → IsReplyTo h found'.1
  unfolding ReplyToClaim
  address_headers-IsReplyTo found' h d e =
      (reply_tos_found [] [] found' h refl d e, λ n. kept_reply_to ([], []) found' h n e)
