-- ===== src/SmtpProxy/Headers/Checked.antt =====
-- What a message that is accepted guarantees of its address headers.
use sigillum.Common.{
  Bytes, ℕ, ◌≤◌, ◌↔◌, bytes_eq_iff, Bool, true, false, ◌≡◌, refl, sym, ap, subst, ◌⊎◌, inl, inr,
  List, [], ◌∷◌, none, arith, ltb, ◌==◌, codes, has_prefix, length, All, Bool-cases, Option-cases,
}
use sigillum.Policy.Address.{validate_mailbox}
use sigillum.Policy.Address.Sound.{IsMailbox, validate_mailbox_iff}
use sigillum.Gateway.Types.{Fallible, ok, err}
use sigillum.SmtpProxy.Session.{AddressHeaders}
use sigillum.SmtpProxy.Headers.{
  Header, MailLib, values, get, at_signs, ◌and_then◌, prefixed, unless_, cons_ok,
  validate_address_header, check_mailboxes, address_field, plain, if_plain, no_resent,
  no_duplicates, only_from, parse_from, only_sender, parse_sender, parse_reply_to, once, with_all,
  with_sender, with_from, parse_addresses, parse_unique, parse_header, parse_message,
}

-- What is said of the value, where there is no error.
abbrev pub Holds : {A : Type 0} → (A → Type 0) → Fallible A → Type 0
Holds P (ok a) = P a
Holds P (err e) = Unit

Holds-self : {A : Type 0} (x : Fallible A) → Holds (λ a. x ≡ ok a) x
Holds-self (ok a) = refl
Holds-self (err e) = tt

Holds-and_then :
    {A B : Type 0} (P : A → Type 0) (Q : B → Type 0) (x : Fallible A) (f : A → Fallible B)
    → Holds P x
    → ((a : A) → P a → Holds Q (f a))
    → Holds Q (x and_then f)
Holds-and_then P Q (ok a) f p q = q a p
Holds-and_then P Q (err e) f p q = tt

Holds-prefixed :
    {A : Type 0} (P : A → Type 0) (text : Bytes) (x : Fallible A)
    → Holds P x
    → Holds P (prefixed text x)
Holds-prefixed P text (ok a) p = p
Holds-prefixed P text (err e) p = tt

Holds-unless :
    {A : Type 0} (P : A → Type 0) (t : Bool) (e : Bytes) (x : Fallible A)
    → (t ≡ false → Holds P x)
    → Holds P (unless_ t e x)
Holds-unless P true e x p = tt
Holds-unless P false e x p = p refl

module _ (lib : MailLib) where
  and_head :
      {P : Type 0} (Q : Type 0) (x : Fallible (Unit {0}))
      → P
      → Holds (λ _. Q) x
      → Holds (λ _. P × Q) x
  and_head Q (ok u) p q = (p, q)
  and_head Q (err e) p q = tt

  -- The header field lists these addresses, each a mailbox, and shows no other '@'.
  pub record IsField (h : Header) (k : Bytes) (addrs : List Bytes) : Type 0 where
    pub listed : lib.address_list h k ≡ ok addrs
    pub mailboxes : All IsMailbox addrs
    pub shown : Bytes
    pub decoded : lib.decode_header (get h k) ≡ ok shown
    pub no_other_at : at_signs shown ≤ length addrs

  cons_ok-Holds :
      (a : Bytes) (addrs : List Bytes) (x : Fallible (List Bytes))
      → IsMailbox a
      → Holds (λ out. (out ≡ addrs) × All IsMailbox addrs) x
      → Holds (λ out. (out ≡ a ∷ addrs) × All IsMailbox (a ∷ addrs)) (cons_ok a x)
  cons_ok-Holds a addrs (ok out) m (e, all) = (ap (λ t. a ∷ t) e, (m, all))
  cons_ok-Holds a addrs (err e) m p = tt

  check_mailboxes-Holds :
      (addrs : List Bytes)
      → Holds (λ out. (out ≡ addrs) × All IsMailbox addrs) (check_mailboxes lib addrs)
  unfolding check_mailboxes
  check_mailboxes-Holds [] = (refl, tt)
  check_mailboxes-Holds (a ∷ addrs) = elim (Option-cases (validate_mailbox a)) [
    | inl e ↦
        rw (check_mailboxes, e)
          (cons_ok-Holds a addrs (check_mailboxes lib addrs) ((validate_mailbox_iff a).0 e)
            (check_mailboxes-Holds addrs))
    | inr (x, e) ↦ rw (check_mailboxes, e) tt
  ]

  abbrev Decodes : Bytes → ℕ → Bytes → Type 0
  Decodes raw n shown = (lib.decode_header raw ≡ ok shown) × (at_signs shown ≤ n)

  validate_address_header-Holds :
      (raw : Bytes) (n : ℕ) → Holds (Decodes raw n) (validate_address_header lib raw n)
  unfolding validate_address_header
  validate_address_header-Holds raw n =
      Holds-and_then (λ d. lib.decode_header raw ≡ ok d) (Decodes raw n) (lib.decode_header raw) _
        (Holds-self (lib.decode_header raw))
        (λ d e. Holds-unless (Decodes raw n) (ltb n (at_signs d)) _ (ok d) (λ t. (e, ground arith)))

  address_field-Holds : (h : Header) (k : Bytes) → Holds (IsField h k) (address_field lib h k)
  unfolding address_field
  address_field-Holds h k =
      Holds-and_then (λ l. lib.address_list h k ≡ ok l) (IsField h k) (lib.address_list h k) _
        (Holds-self (lib.address_list h k))
        (λ l e.
          Holds-and_then (Decodes (get h k) (length l)) (IsField h k)
            (validate_address_header lib (get h k) (length l)) _
            (validate_address_header-Holds (get h k) (length l))
            (λ d (dec, few).
              checked_list h k l d e dec few (check_mailboxes lib l) (check_mailboxes-Holds l)))
    where
      checked_list :
          (h : Header) (k : Bytes) (l : List Bytes) (d : Bytes)
          → lib.address_list h k ≡ ok l
          → lib.decode_header (get h k) ≡ ok d
          → at_signs d ≤ length l
          → (x : Fallible (List Bytes)) → Holds (λ out. (out ≡ l) × All IsMailbox l) x
          → Holds (IsField h k) x
      checked_list h k l d e dec few (err x) p = tt
      checked_list h k l d e dec few (ok out) (same, all) =
          subst (IsField h k) (sym same)
            (record { listed = e; mailboxes = all; shown = d; decoded = dec; no_other_at = few })

  -- The one From address of a header that has the field.
  abbrev pub HasFrom : Header → Bytes → Type 0
  HasFrom h a = (1 ≤ length (values h (codes "From"))) × IsField h (codes "From") (a ∷ [])

  -- A field that is missing, or lists these addresses.
  abbrev pub HasSender : Header → Bytes → Type 0
  HasSender h a =
      ((length (values h (codes "Sender")) ≡ 0) × (a ≡ [])) ⊎ IsField h (codes "Sender") (a ∷ [])

  abbrev pub HasReplyTo : Header → List Bytes → Type 0
  HasReplyTo h l =
      ((length (values h (codes "Reply-To")) ≡ 0) × (l ≡ [])) ⊎ IsField h (codes "Reply-To") l

  only_from-Holds :
      (h : Header) (l : List Bytes)
      → 1 ≤ length (values h (codes "From"))
      → IsField h (codes "From") l
      → Holds (HasFrom h) (only_from lib l)
  only_from-Holds h [] n f = tt
  only_from-Holds h (a ∷ []) n f = (n, f)
  only_from-Holds h (a ∷ b ∷ l) n f = tt

  only_sender-Holds :
      (h : Header) (l : List Bytes)
      → IsField h (codes "Sender") l
      → Holds (HasSender h) (only_sender lib l)
  only_sender-Holds h [] f = tt
  only_sender-Holds h (a ∷ []) f = inr f
  only_sender-Holds h (a ∷ b ∷ l) f = tt

  IsField-prefixed :
      (h : Header) (k text : Bytes) → Holds (IsField h k) (prefixed text (address_field lib h k))
  IsField-prefixed h k text =
      Holds-prefixed (IsField h k) text (address_field lib h k) (address_field-Holds h k)

  parse_from-Holds : (h : Header) → Holds (HasFrom h) (parse_from lib h)
  unfolding parse_from
  parse_from-Holds h = Holds-unless (HasFrom h) (length (values h (codes "From")) == 0) _ _ (λ t.
      Holds-and_then (IsField h (codes "From")) (HasFrom h) _ (only_from lib)
        (IsField-prefixed h (codes "From") (codes "invalid From header: "))
        (λ l f. only_from-Holds h l (ground arith) f))

  parse_sender-Holds : (h : Header) → Holds (HasSender h) (parse_sender lib h)
  unfolding parse_sender
  parse_sender-Holds h = elim (Bool-cases (length (values h (codes "Sender")) == 0)) [
    | inl t ↦ rw (parse_sender, t) (inl (ground arith, refl))
    | inr t ↦
        rw (parse_sender, t)
          (Holds-and_then (IsField h (codes "Sender")) (HasSender h) _ (only_sender lib)
            (IsField-prefixed h (codes "Sender") (codes "invalid Sender header: "))
            (only_sender-Holds h))
  ]

  reply_to-Holds :
      (h : Header) (x : Fallible (List Bytes))
      → Holds (IsField h (codes "Reply-To")) x
      → Holds (HasReplyTo h) x
  reply_to-Holds h (ok l) f = inr f
  reply_to-Holds h (err e) f = tt

  parse_reply_to-Holds : (h : Header) → Holds (HasReplyTo h) (parse_reply_to lib h)
  unfolding parse_reply_to
  parse_reply_to-Holds h = elim (Bool-cases (length (values h (codes "Reply-To")) == 0)) [
    | inl t ↦ rw (parse_reply_to, t) (inl (ground arith, refl))
    | inr t ↦
        rw (parse_reply_to, t)
          (reply_to-Holds h _
            (IsField-prefixed h (codes "Reply-To") (codes "invalid Reply-To header: ")))
  ]

  abbrev pub NoResent : Header → Type 0
  NoResent = All (λ f. has_prefix f.0 (codes "Resent-") ≡ false)

  no_resent-Holds : (h : Header) → Holds (λ _. NoResent h) (no_resent lib h)
  unfolding no_resent
  no_resent-Holds [] = tt
  no_resent-Holds ((k, vs) ∷ h) =
      Holds-unless (λ _. NoResent ((k, vs) ∷ h)) (has_prefix k (codes "Resent-")) _
        (no_resent lib h) (λ t. and_head (NoResent h) (no_resent lib h) t (no_resent-Holds h))

  abbrev pub AtMostOnce : Header → List Bytes → Type 0
  AtMostOnce h = All (λ k. length (values h k) ≤ 1)

  no_duplicates-Holds :
      (h : Header) (ks : List Bytes) → Holds (λ _. AtMostOnce h ks) (no_duplicates lib h ks)
  unfolding no_duplicates
  no_duplicates-Holds h [] = tt
  no_duplicates-Holds h (k ∷ ks) =
      Holds-unless (λ _. AtMostOnce h (k ∷ ks)) (ltb 1 (length (values h k))) _
        (no_duplicates lib h ks)
        (λ t.
          and_head (AtMostOnce h ks) (no_duplicates lib h ks) (ground arith)
            (no_duplicates-Holds h ks))

  -- What is known of an accepted message.
  pub record IsChecked (raw : Bytes) (h : Header) (hdr : AddressHeaders) : Type 0 where
    pub parsed : lib.read_message raw ≡ ok h
    pub not_resent : NoResent h
    pub at_most_once : AtMostOnce h (once lib)
    pub has_from : HasFrom h hdr.from
    pub has_sender : HasSender h hdr.sender
    pub has_reply_to : HasReplyTo h hdr.reply_to

  abbrev Good : Bytes → Header × AddressHeaders → Type 0
  Good raw (h, hdr) = IsChecked raw h hdr

  parse_header-Holds :
      (raw : Bytes) (h : Header)
      → lib.read_message raw ≡ ok h
      → Holds (Good raw) (parse_header lib h)
  parse_header-Holds raw h p =
      Holds-and_then (λ _. NoResent h) (Good raw) (no_resent lib h) (parse_unique lib h)
        (no_resent-Holds h)
        (λ _ n.
          Holds-and_then (λ _. AtMostOnce h (once lib)) (Good raw) (no_duplicates lib h (once lib))
            (parse_addresses lib h) (no_duplicates-Holds h (once lib))
            (λ _ d.
              Holds-and_then (HasFrom h) (Good raw) (parse_from lib h) (with_from lib h)
                (parse_from-Holds h)
                (λ a f.
                  Holds-and_then (HasSender h) (Good raw) (parse_sender lib h) (with_sender lib h a)
                    (parse_sender-Holds h)
                    (λ b s.
                      Holds-and_then (HasReplyTo h) (Good raw) (parse_reply_to lib h)
                        (with_all lib h a b) (parse_reply_to-Holds h)
                        (λ c r. record {
                          parsed = p;
                          not_resent = n;
                          at_most_once = d;
                          has_from = f;
                          has_sender = s;
                          has_reply_to = r;
                        })))))

  -- A message that `parse_message` accepts has a header that reads, no Resent- field, From, Sender
  -- and Reply-To at most once each, and a From field of exactly one address; the Sender address is
  -- empty where the field is missing and the field's only address otherwise, the Reply-To addresses
  -- likewise all of the field; every address taken from a field is a mailbox, and the field,
  -- decoded, shows no more @ signs or look-alikes than it has addresses.
  pub parse_message-IsChecked :
      (raw : Bytes) → Holds (λ (h, hdr). IsChecked raw h hdr) (parse_message lib raw)
  unfolding parse_message
  parse_message-IsChecked raw =
      Holds-and_then (λ h. lib.read_message raw ≡ ok h) (Good raw) _ (parse_header lib)
        (Holds-prefixed (λ h. lib.read_message raw ≡ ok h) (codes "malformed message header: ")
          (lib.read_message raw) (Holds-self (lib.read_message raw)))
        (parse_header-Holds raw)

  plain_iff :
      (s name a : Bytes)
      → (plain lib s (name, a) ≡ none) ↔ ((name ≡ []) × (a ≡ s) × (validate_mailbox a ≡ none))
  plain_iff s name a = elim (Option-cases (validate_mailbox a)) [
    | inl e ↦ ground (arith, bytes_eq_iff name [], bytes_eq_iff a s)
    | inr (x, e) ↦ ground (arith, bytes_eq_iff name [], bytes_eq_iff a s)
  ]

  if_plain_iff :
      (s : Bytes) (x : Fallible (Bytes × Bytes))
      → (if_plain lib s x ≡ none) ↔ ((x ≡ ok ([], s)) × IsMailbox s)
  if_plain_iff s (err e) = (λ h. cc, λ h. absurd (ok-neq-err h.0))
    where
      ok-neq-err : Path (Fallible (Bytes × Bytes)) (err e) (ok ([], s)) → ⊥
      ok-neq-err p = cc
  if_plain_iff s (ok (name, a)) = (
    λ h.
        let (n, same, valid) = (plain_iff s name a).0 h in
        (
          rw (n, same) refl,
          (validate_mailbox_iff s).0 (subst (λ x. validate_mailbox x ≡ none) same valid),
        ),
    λ (e, m). (plain_iff s name a).1 (
      ap first_of e,
      ap second_of e,
      subst (λ x. validate_mailbox x ≡ none) (sym (ap second_of e)) ((validate_mailbox_iff s).1 m),
    ),
  )
    where
      first_of : Fallible (Bytes × Bytes) → Bytes
      first_of (ok p) = p.0
      first_of (err e) = []

      second_of : Fallible (Bytes × Bytes) → Bytes
      second_of (ok p) = p.1
      second_of (err e) = []
