-- ===== src/SmtpProxy/Session/Submitted.antt =====
-- What DATA does with the sender: one call, a refusal or the message.
use sigillum.Common.{
  Bytes, Bool, true, false, ◌≡◌, ◌≢◌, refl, sym, ap, subst, ◌∙◌, ◌⊎◌, inl, inr, List, [], ◌∷◌, ◌++◌,
  map, Option, none, some, Option-cases,
}
use sigillum.Policy.Types.{Platform}
use sigillum.Gateway.Types.{Identity, Address, Event, Request, ok}
use sigillum.Gateway.Send.Audit.{Fallible-cases}
use sigillum.SmtpProxy.Bcc.{strip_bcc}
use sigillum.SmtpProxy.Reply.{Reply, fine, refused, SmtpError, with_message_id, result_error}
use sigillum.Credential.{Lookup, valid, invalid, lookup_failed}
use sigillum.SmtpProxy.Session.{
  Session, Login, Surroundings, Reading, complete, timed_out, line_too_long, too_large, read_error,
  Calls, Parsed, check_as, check_credential, with_slots, after_lookup, mark_previous, submission,
  hand_over, submit, receive, receive_data, data_as,
}

abbrev pub addresses : List Address → List Bytes
addresses [] = []
addresses (a ∷ l) = a.address ∷ addresses l

module _ (env : Platform) {W : Type 0} (calls : Calls W) (now : Surroundings) where
  -- The login still holds, if there was one by credential.
  abbrev pub Trusted : Option Login → Type 0
  Trusted none = Unit
  Trusted (some l) = (p : Bool) × (now.still_valid l ≡ valid p)

  -- One refusal was recorded, and the client is told of an error.
  abbrev pub Refused : W → W → Reply → Type 0
  Refused w w' reply =
      (ev : Event) × (reason : Bytes) × (w' ≡ calls.reject ev reason w) × (reply ≢ fine)

  -- One message was handed over: as the session's caller, with its envelope and the message that was
  -- read, without its Bcc fields and behind what is added; and the reply is that of the result.
  pub record Sent (i : Identity) (s : Session) (w w' : W) (reply : Reply) : Type 0 where
    pub request : Request
    pub body : Bytes
    pub parsed : Parsed
    pub trusted : Trusted s.cred
    pub was_read : now.reading ≡ complete body
    pub was_parsed : calls.parse_message (strip_bcc env body) now.message_id ≡ ok parsed
    pub same_namespace : request.identity.namespace ≡ i.namespace
    pub same_account : request.identity.service_account ≡ i.service_account
    pub same_method : request.identity.auth_method ≡ i.auth_method
    pub same_labels : request.identity.pod_labels ≡ i.pod_labels
    pub same_credential : request.identity.credential ≡ i.credential
    pub same_sender : request.envelope_from ≡ s.from
    pub same_recipients : addresses request.message.to ≡ s.rcpts
    pub no_more_recipients : (request.message.cc ≡ []) × (request.message.bcc ≡ [])
    pub same_text :
        request.raw ≡ some (now.received i.auth_method ++ parsed.added ++ strip_bcc env body)
    pub same_from : request.message.from.address ≡ parsed.headers.from
    pub same_headers :
        (request.sender ≡ parsed.headers.sender) × (request.reply_to ≡ parsed.headers.reply_to)
    pub same_size : request.size_bytes ≡ parsed.size
    pub same_id : request.message_id ≡ now.message_id
    pub handed : w' ≡ (calls.send request w).0
    pub answered : reply ≡ result_error calls.itoa (calls.send request w).1 now.message_id

  abbrev pub Handled : Identity → Session → W → Session × W × Reply → Type 0
  Handled i s w (s', w', reply) = Refused w w' reply ⊎ Sent i s w w' reply

  -- What `check_credential` comes to in a session that is not revoked.
  abbrev Checked : Identity → Session → W → Session × W × Option SmtpError → Type 0
  Checked i s w out =
      ((c : Identity) × (out ≡ (record s { identity = some c }, w, none))
        × Trusted s.cred
        × (c.namespace ≡ i.namespace)
        × (c.service_account ≡ i.service_account)
        × (c.auth_method ≡ i.auth_method)
        × (c.pod_labels ≡ i.pod_labels)
        × (c.credential ≡ i.credential))
      ⊎ ((ev : Event) × (reason : Bytes) × (e : SmtpError) × (out.1 ≡ calls.reject ev reason w)
          × (out.2 ≡ some e))

  after_lookup-Checked :
      (found : Lookup Bool) (from : Bytes) (to : List Bytes) (i : Identity) (s : Session) (w : W)
      → s.identity ≡ some i
      → ((p : Bool) → found ≡ valid p → Trusted s.cred)
      → Checked i s w (after_lookup env calls now found from to s w)
  after_lookup-Checked (valid p) from to i s w e t = inl (
    record i { credential_previous = p },
    ap (λ x. (record s { identity = mark_previous p x }, w, none)) e,
    t p refl,
    refl,
    refl,
    refl,
    refl,
    refl,
  )
  after_lookup-Checked invalid from to i s w e t = inr (_, _, _, refl, refl)
  after_lookup-Checked lookup_failed from to i s w e t = inr (_, _, _, refl, refl)

  check_credential-none :
      (from : Bytes) (to : List Bytes) (s : Session) (w : W)
      → s.revoked ≡ false
      → s.cred ≡ none
      → check_credential env calls now from to s w ≡ (s, w, none)
  unfolding check_credential
  check_credential-none from to s w r e =
      ap (λ b. check_as env calls now b s.cred from to s w) r
      ∙ ap (λ c. check_as env calls now false c from to s w) e

  check_credential-some :
      (from : Bytes) (to : List Bytes) (s : Session) (w : W) (l : Login)
      → s.revoked ≡ false
      → s.cred ≡ some l
      → check_credential env calls now from to s w
        ≡ after_lookup env calls now (now.still_valid l) from to s w
  unfolding check_credential
  check_credential-some from to s w l r e =
      ap (λ b. check_as env calls now b s.cred from to s w) r
      ∙ ap (λ c. check_as env calls now false c from to s w) e

  check_credential-Checked :
      (from : Bytes) (to : List Bytes) (i : Identity) (s : Session) (w : W)
      → s.revoked ≡ false
      → s.identity ≡ some i
      → Checked i s w (check_credential env calls now from to s w)
  check_credential-Checked from to i s w r e = elim (Option-cases s.cred) [
    | inl c ↦ inl (
      i,
      check_credential-none from to s w r c ∙ ap (λ x. (record s { identity = x }, w, none)) e,
      subst Trusted (sym c) tt,
      refl,
      refl,
      refl,
      refl,
      refl,
    )
    | inr (l, c) ↦ subst (Checked i s w) (sym (check_credential-some from to s w l r c)) (
        after_lookup-Checked (now.still_valid l) from to i s w e
          (λ p v. subst Trusted (sym c) (p, v)))
  ]

  -- The rest of `submit`, by what the check came to.
  abbrev resume :
      (raw trace : Bytes) → Parsed → Session × W × Option SmtpError → Session × W × Reply
  resume raw trace p checked = elim checked.2 [
    | some e ↦ (checked.0, checked.1, with_message_id (refused e) now.message_id)
    | none ↦ hand_over env calls now checked.0.identity raw trace p checked.0 checked.1
  ]

  addresses-nameless :
      (l : List Bytes) → addresses (map (λ x. record { name = []; address = x }) l) ≡ l
  addresses-nameless [] = refl
  addresses-nameless (x ∷ l) = ap (λ t. x ∷ t) (addresses-nameless l)

  resume-Handled :
      (body : Bytes) (p : Parsed) (i : Identity) (s : Session) (w : W)
      (checked : Session × W × Option SmtpError)
      → now.reading ≡ complete body
      → calls.parse_message (strip_bcc env body) now.message_id ≡ ok p
      → Checked i s w checked
      → Handled i s w (resume (strip_bcc env body) (now.received i.auth_method) p checked)
  resume-Handled body p i s w checked r k (inl (c, e, t, n, a, m, l, d)) =
      subst (λ x. Handled i s w (resume (strip_bcc env body) (now.received i.auth_method) p x))
        (sym e)
        (inr (record {
          request =
              submission env calls now c s (strip_bcc env body) (now.received i.auth_method) p;
          body = body;
          parsed = p;
          trusted = t;
          was_read = r;
          was_parsed = k;
          same_namespace = n;
          same_account = a;
          same_method = m;
          same_labels = l;
          same_credential = d;
          same_sender = refl;
          same_recipients = addresses-nameless s.rcpts;
          no_more_recipients = (refl, refl);
          same_text = refl;
          same_from = refl;
          same_headers = (refl, refl);
          same_size = refl;
          same_id = refl;
          handed = refl;
          answered = refl;
        }))
  resume-Handled body p i s w (s', w', o) r k (inr (ev, reason, e, at, f)) =
      rw f (inl (ev, reason, at, λ x. cc))

  submit-Handled :
      (body : Bytes) (p : Parsed) (i : Identity) (s : Session) (w : W)
      → now.reading ≡ complete body
      → calls.parse_message (strip_bcc env body) now.message_id ≡ ok p
      → s.revoked ≡ false
      → s.identity ≡ some i
      → Handled i s w (submit env calls now (strip_bcc env body) (now.received i.auth_method) p s w)
  unfolding submit
  submit-Handled body p i s w k l r e =
      resume-Handled body p i s w _ k l (check_credential-Checked s.from s.rcpts i s w r e)

  receive-Handled :
      (base : Event) (reading : Reading) (i : Identity) (s : Session) (w : W)
      → now.reading ≡ reading
      → s.revoked ≡ false
      → s.identity ≡ some i
      → Handled i s w (receive env calls now base i.auth_method reading s w)
  unfolding receive
  receive-Handled base (too_large x) i s w q r e = inl (_, _, refl, λ t. cc)
  receive-Handled base (read_error x) i s w q r e = inl (_, _, refl, λ t. cc)
  receive-Handled base timed_out i s w q r e = inl (_, _, refl, λ t. cc)
  receive-Handled base line_too_long i s w q r e = inl (_, _, refl, λ t. cc)
  receive-Handled base (complete body) i s w q r e =
      elim (Fallible-cases (calls.parse_message (strip_bcc env body) now.message_id)) [
        | inl (x, k) ↦ rw (receive, k) (inl (_, _, refl, λ t. cc))
        | inr (p, k) ↦ rw (receive, k) (submit-Handled body p i s w q k r e)
      ]

  with_slots-Handled :
      (tenant all : Bool) (i : Identity) (s : Session) (w : W)
      → s.revoked ≡ false
      → s.identity ≡ some i
      → Handled i s w (with_slots env calls now tenant all i s w)
  with_slots-Handled false all i s w r e = inl (_, _, refl, λ x. cc)
  with_slots-Handled true false i s w r e = inl (_, _, refl, λ x. cc)
  with_slots-Handled true true i s w r e = receive-Handled _ now.reading i s w refl r e

  -- In an identified session that is not revoked, DATA calls the sender once: either it records one
  -- refusal and answers with an error; or the message was read and parses without its Bcc fields, a
  -- credential login still holds, and one request is handed over and its result answered: of the
  -- session's namespace, ServiceAccount, method, labels and credential, with the session's sender
  -- and exactly its recipients, the text that was read less its Bcc fields behind the trace and the
  -- added fields, and the parsed From, Sender, Reply-To and size.
  pub receive_data-Handled :
      (i : Identity) (s : Session) (w : W)
      → s.revoked ≡ false
      → s.identity ≡ some i
      → Handled i s w (receive_data env calls now s w)
  unfolding receive_data
  receive_data-Handled i s w r e =
      subst (λ x. Handled i s w (data_as env calls now x s w)) (sym e)
        (with_slots-Handled now.tenant_slot now.slot i s w r e)
