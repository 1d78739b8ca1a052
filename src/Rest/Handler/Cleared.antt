-- ===== src/Rest/Handler/Cleared.antt =====
-- What reaches the pipeline.
use sigillum.Common.{
  Bytes, ℕ, Bool, true, false, ◌≡◌, ◌≢◌, ◌⊎◌, inl, inr, refl, sym, ap, subst, List, [], ◌∷◌, Option,
  none, some, arith, All, Bool-cases, ◌==◌, if◌then◌else◌, codes, bytes_eq, bytes_eq_iff,
}
use sigillum.Policy.Types.{Platform}
use sigillum.Gateway.Types.{
  Fallible, ok, err, Address, Attachment, Request, Event, Services, LimiterOps,
}
use sigillum.Gateway.Send.{send, recipients, reject_request}
use sigillum.Rest.Types.{RequestBody, Subject, Answer, failure, HttpRequest, HttpLib}
use sigillum.Rest.Answers.{write_result}
use sigillum.Rest.Checks.{address_headers}
use sigillum.Rest.Checks.Sound.{
  IsSafe, Distinct, keys, IsMailbox, validate_request_headers_iff, single_address-IsMailbox,
  parse_address_list-IsMailbox,
}
use sigillum.Rest.Checks.Reported.{
  IsSender, IsReplyTo, address_headers-IsSender, address_headers-IsReplyTo,
}
use sigillum.Rest.Attachments.Named.{ids, unique_content_ids_iff}
use sigillum.Rest.Attachments.{has_content, unique_content_ids}
use sigillum.Rest.Handler.{
  World, Surroundings, Refusal, Step, refuse, go, ◌then◌, checked, passed, Review, subject,
  review_unavailable, invalid_token, event_of, blank_event, payload_refusal, unsupported, busy,
  draining, no_token, bad_token, not_reviewed, reserve_amount, bearer_token, distinct_ids,
  request_of, message_of, finish_request, with_message, with_addresses, prepare, refused, reserving,
  releasing, conclude, answered, with_budget, handle_payload, handle_send_message, reviewed,
  post_message,
}

then-go :
    {A B : Type 0} (m : Step A) (f : A → Step B) {b : B}
    → (m then f) ≡ go b
    → (a : A) × (m ≡ go a) × (f a ≡ go b)
then-go (go a) f e = (a, refl, e)
then-go (refuse r) f e = cc

go_inj : {A : Type 0} {a b : A} → Path (Step A) (go a) (go b) → a ≡ b
go_inj e = cc

List-cases : {A : Type 0} (l : List A) → (l ≡ []) ⊎ ((x : A) × (xs : List A) × (l ≡ x ∷ xs))
List-cases [] = inl refl
List-cases (x ∷ xs) = inr (x, xs, refl)

checked-go :
    {A : Type 0} (ev : Event) (title : Bytes) (x : Fallible A) {a : A}
    → checked ev title x ≡ go a
    → x ≡ ok a
checked-go ev title (ok a) e = cc
checked-go ev title (err t) e = cc

passed-go :
    (ev : Event) (title : Bytes) (o : Option Bytes) {u : Unit {0}}
    → passed ev title o ≡ go u
    → o ≡ none
passed-go ev title none e = refl
passed-go ev title (some t) e = cc

-- A request of the REST server that its policies can be applied to: it has recipients, every address
-- of it is a mailbox, its header fields are safe lines with distinct names, the Sender and Reply-To
-- fields are reported as they stand, its content IDs are distinct, and it carries something.
pub record IsCleared (env : Platform) (lib : HttpLib) (req : Request) : Type 0 where
  pub recipient : recipients req.message ≢ []
  pub from : IsMailbox req.message.from.address
  pub to : All (λ a. IsMailbox a.address) req.message.to
  pub cc_ : All (λ a. IsMailbox a.address) req.message.cc
  pub bcc : All (λ a. IsMailbox a.address) req.message.bcc
  pub safe : All (IsSafe lib) req.message.headers
  pub once : Distinct (keys lib req.message.headers)
  pub sender : IsSender env lib req.message.headers req.sender
  pub reply_to : IsReplyTo env lib req.message.headers req.reply_to
  pub ids : Distinct (ids env req.message.attachments)
  pub content :
      has_content env lib
        (record { text = req.message.body.text; html = req.message.body.html })
        req.message.attachments
      ≡ true

-- The request is the caller's.
abbrev pub IsFrom : Subject → Request → Type 0
IsFrom s req =
    (req.identity.namespace ≡ s.namespace) × (req.identity.service_account ≡ s.service_account)

module _ (env : Platform) (lib : HttpLib) where
  abbrev pub Good : Subject → Request → Type 0
  Good s req = IsCleared env lib req × IsFrom s req

  finish_request-Good :
      (ev : Event) (s : Subject) (body : RequestBody) (atts : List Attachment) (id : Bytes)
      (from : Address) (to cc_ bcc : List Address) {req : Request}
      → IsMailbox from.address
      → All (λ a. IsMailbox a.address) to
      → All (λ a. IsMailbox a.address) cc_
      → All (λ a. IsMailbox a.address) bcc
      → unique_content_ids env lib atts ≡ none
      → recipients (message_of env lib id body atts from to cc_ bcc) ≢ []
      → finish_request env lib ev s body atts (message_of env lib id body atts from to cc_ bcc)
        ≡ go req
      → Good s req
  unfolding finish_request
  finish_request-Good ev s body atts id from to cc_ bcc {req} f t c b i n e =
      let msg = message_of env lib id body atts from to cc_ bcc in
      let (found, got, last) = then-go _ _ e in
      let (u, safe, read) = then-go _ _ got in
      let headers =
        (validate_request_headers_iff env lib body.headers).0
          (passed-go ev (codes "Invalid header") _ safe) in
      let reported =
        checked-go ev (codes "Invalid header") (address_headers env lib ([], []) body.headers)
          read in
      elim (Bool-cases (has_content env lib body.body atts)) [
        | inl k ↦
            let made : request_of env lib ev.message_id s body atts msg found ≡ req =
              ground (arith, k, last) in
            subst (Good s) made (
              record {
                recipient = n;
                from = f;
                to = t;
                cc_ = c;
                bcc = b;
                safe = headers.0;
                once = headers.1;
                sender = address_headers-IsSender env lib found body.headers headers.1 reported;
                reply_to = address_headers-IsReplyTo env lib found body.headers headers.1 reported;
                ids = (unique_content_ids_iff env lib atts).0 i;
                content = k;
              },
              (refl, refl),
            )
        | inr k ↦ ground (arith, k, last)
      ]

  with_message-Good :
      (ev : Event) (s : Subject) (body : RequestBody) (atts : List Attachment) (id : Bytes)
      (from : Address) (to cc_ bcc : List Address) {req : Request}
      → IsMailbox from.address
      → All (λ a. IsMailbox a.address) to
      → All (λ a. IsMailbox a.address) cc_
      → All (λ a. IsMailbox a.address) bcc
      → unique_content_ids env lib atts ≡ none
      → with_message env lib ev s body atts (message_of env lib id body atts from to cc_ bcc)
        ≡ go req
      → Good s req
  unfolding with_message
  with_message-Good ev s body atts id from to cc_ bcc f t c b i e =
      let msg = message_of env lib id body atts from to cc_ bcc in
      elim (List-cases (recipients msg)) [
        | inl z ↦ ground (arith, z, e)
        | inr (a, more, z) ↦
            let e' = rw (with_message, z) at e in
            finish_request-Good _ s body atts id from to cc_ bcc f t c b i (λ n. cc (z, n)) e'
      ]

  with_addresses-Good :
      (ev : Event) (s : Subject) (body : RequestBody) (atts : List Attachment) {req : Request}
      → unique_content_ids env lib atts ≡ none
      → with_addresses env lib ev s (body, atts) ≡ go req
      → Good s req
  unfolding with_addresses
  with_addresses-Good ev s body atts i e =
      let ev' = record ev { from = body.from } in
      let (from, f, e1) = then-go _ _ e in
      let (to, t, e2) = then-go _ _ e1 in
      let (cc_, c, e3) = then-go _ _ e2 in
      let (bcc, b, e4) = then-go _ _ e3 in
      with_message-Good ev' s body atts ev.message_id from to cc_ bcc
        (single_address-IsMailbox env lib body.from
          (checked-go ev' (codes "Invalid 'from' address") _ f))
        (parse_address_list-IsMailbox env lib body.to
          (checked-go ev' (codes "Invalid 'to' address") _ t))
        (parse_address_list-IsMailbox env lib body.cc
          (checked-go ev' (codes "Invalid 'cc' address") _ c))
        (parse_address_list-IsMailbox env lib body.bcc
          (checked-go ev' (codes "Invalid 'bcc' address") _ b))
        i e4

  prepare-Good :
      (ev : Event) (s : Subject) (media : Bytes) (r : HttpRequest) {req : Request}
      → prepare env lib ev s media r ≡ go req
      → Good s req
  unfolding prepare
  prepare-Good ev s media r {req} e =
      let (read, kept, e1) = then-go _ (with_addresses env lib ev s) e in
      let ((body, atts), got, e2) = then-go _ (distinct_ids env lib ev) kept in
      let (u, unique, same) = then-go _ _ e2 in
      with_addresses-Good ev s body atts
        (passed-go ev (codes "Invalid attachment") (unique_content_ids env lib atts) unique)
        (subst (λ p. with_addresses env lib ev s p ≡ go req) (sym (go_inj same)) e1)

-- The ways in which a request can end: refused, with the gateway told so and no delivery asked for,
-- or handed to the pipeline as a cleared request of the token's subject.
abbrev pub IsRefused : {S : Type 0} → World S → World S × Answer → Type 0
IsRefused w (w', a) =
    (f : Refusal) × (w'.gateway ≡ reject_request f.event f.reason w.gateway)
    × (a ≡ failure f.retry_after f.problem)

module _ (env : Platform) (lib : HttpLib) (services : Services) {S : Type 0}
    (limiter : LimiterOps S) (now : ℕ) (around : Surroundings) where
  abbrev pub IsHanded : Subject → World S → World S × Answer → Type 0
  IsHanded s w (w', a) =
      let sent = λ (req : Request). send env services limiter now req w.gateway in
      (req : Request) × Good env lib s req
      × (w'.gateway ≡ (sent req).0)
      × (a ≡ write_result req.message_id (sent req).1)

  abbrev Ends : Subject → World S → World S × Answer → Type 0
  Ends s w out = IsRefused w out ⊎ IsHanded s w out

  conclude-Ends :
      (s : Subject) (p : Step Request) (v w : World S)
      → ((req : Request) → p ≡ go req → Good env lib s req)
      → v.gateway ≡ w.gateway
      → Ends s w (conclude env lib services limiter now around p v)
  unfolding answered
  conclude-Ends s (refuse f) v w g e = inl (f, ap (reject_request f.event f.reason) e, refl)
  conclude-Ends s (go req) v w g e = inr (
    req,
    g req refl,
    ap (λ x. (send env services limiter now req x).0) e,
    ap (λ x. write_result req.message_id (send env services limiter now req x).1) e,
  )

  releasing-Ends :
      (s : Subject) (n : ℕ) (w : World S) (out : World S × Answer)
      → Ends s w out
      → Ends s w (releasing env lib services limiter now around n out)
  releasing-Ends s n w (w', a) (inl h) = inl h
  releasing-Ends s n w (w', a) (inr h) = inr h

  refused-Ends :
      (s : Subject) (f : Refusal) (w : World S)
      → Ends s w (refused env lib services limiter now around f w)
  refused-Ends s f w = inl (f, refl, refl)

  if-Ends :
      (s : Subject) (w : World S) (b : Bool) (x y : World S × Answer)
      → Ends s w x
      → Ends s w y
      → Ends s w (if b then x else y)
  if-Ends s w true x y h k = h
  if-Ends s w false x y h k = k

  with_budget-Ends :
      (ev : Event) (s : Subject) (media : Bytes) (r : HttpRequest) (w : World S)
      → Ends s w (with_budget env lib services limiter now around ev s media r w)
  unfolding with_budget
  with_budget-Ends ev s media r w =
      let n = reserve_amount around.body_budget r.content_length in
      let good = λ (req : Request) (e : prepare env lib ev s media r ≡ go req).
        prepare-Good env lib ev s media r e in
      if-Ends s w (n == 0) _ _ (conclude-Ends s _ w w good refl) (
        if-Ends s w around.acquired _ _
          (releasing-Ends s n w
            (conclude env lib services limiter now around (prepare env lib ev s media r)
              (reserving env lib services limiter now around n w))
            (conclude-Ends s (prepare env lib ev s media r)
              (reserving env lib services limiter now around n w) w good refl))
          (refused-Ends s (busy env lib ev) w))

  handle_payload-Ends :
      (ev : Event) (s : Subject) (r : HttpRequest) (w : World S)
      → Ends s w (handle_payload env lib services limiter now around ev s r w)
  unfolding handle_payload
  handle_payload-Ends ev s r w =
      if-Ends s w _ _ _ (refused-Ends s (payload_refusal ev (unsupported env lib r.content_type)) w)
        (with_budget-Ends ev s _ r w)

  -- Refused; or handed over, which takes a token that the review accepts and a server that does not
  -- drain.
  abbrev pub Admitted : HttpRequest → World S → World S × Answer → Type 0
  Admitted r w out =
      IsRefused w out
      ⊎ ((s : Subject) × (around.review (bearer_token env r.authorization) ≡ subject s)
          × (bearer_token env r.authorization ≢ [])
          × (around.shutting ≡ false)
          × IsHanded s w out)

  if-Admitted :
      (r : HttpRequest) (w : World S) (b : Bool) (x y : World S × Answer)
      → (b ≡ true → Admitted r w x)
      → (b ≡ false → Admitted r w y)
      → Admitted r w (if b then x else y)
  if-Admitted r w true x y h k = h refl
  if-Admitted r w false x y h k = k refl

  reviewed-Admitted :
      (v : Review) (r : HttpRequest) (w : World S)
      → around.review (bearer_token env r.authorization) ≡ v
      → bytes_eq (bearer_token env r.authorization) [] ≡ false
      → Admitted r w (reviewed env lib services limiter now around v r w)
  unfolding handle_send_message
  reviewed-Admitted review_unavailable r w v n =
      inl (not_reviewed env lib (blank_event around.middleware_id), refl, refl)
  reviewed-Admitted (invalid_token e) r w v n =
      inl (bad_token env lib around.middleware_id e, refl, refl)
  reviewed-Admitted (subject s) r w v n =
      if-Admitted r w around.shutting _ _
        (λ t. inl (draining env lib (event_of around.message_id (some s)), refl, refl))
        (λ t. elim (handle_payload-Ends (event_of around.message_id (some s)) s r w) [
          | inl h ↦ inl h
          | inr h ↦
              inr
                (s, v, λ e. cc (n, (bytes_eq_iff (bearer_token env r.authorization) []).1 e), t, h)
        ])

  -- A POST of a message is either refused, with one call of `Reject` and a problem as the answer, or
  -- handed to the pipeline and answered by its result; that takes a token that is not empty and that
  -- the review accepts, a server that does not drain, and a request of the token's subject with at
  -- least one recipient, valid mailboxes only, safe and distinct header fields, the Sender and
  -- Reply-To fields reported as they stand, distinct content IDs and some content.
  pub post_message-Admitted :
      (r : HttpRequest) (w : World S)
      → Admitted r w (post_message env lib services limiter now around r w)
  unfolding post_message
  post_message-Admitted r w =
      if-Admitted r w (bytes_eq (bearer_token env r.authorization) []) _ _
        (λ t. inl (no_token env lib around.middleware_id, refl, refl))
        (reviewed-Admitted (around.review (bearer_token env r.authorization)) r w refl)
