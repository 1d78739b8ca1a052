-- ===== src/Rest/Handler.antt =====
-- `handleSendMessage` of internal/apiserver/messages.go with the middleware that authenticates its
-- callers (`authMiddleware` of internal/apiserver/server.go) and the reservation of
-- internal/apiserver/bodybudget.go. Logs, metrics and spans are left out.
pub mod Audited
pub mod Cleared
use sigillum.Common.{
  Bytes, ℤ, pos, negsuc, ℕ, suc, ◌+◌, ◌-◌, Bool, true, false, not, ◌&&◌, ◌||◌, List, [], ◌∷◌, ◌++◌,
  Option, none, some, ltb, leb, ◌==◌, if◌then◌else◌, codes, length, take, drop, bytes_eq,
}
use sigillum.Policy.Types.{Platform}
use sigillum.Gateway.Types.{
  Fallible, ok, err, Address, Attachment, Message, oauth_bearer, unauthenticated, rest, Request,
  Event, Services, LimiterOps, Result,
}
use sigillum.Gateway.Send.{State, send, reject_request, recipients}
use sigillum.Rest.Types.{
  RequestBody, RequestAttachment, Subject, Problem, Answer, success, failure, HttpRequest, HttpLib,
}
use sigillum.Rest.Answers.{new, write_result}
use sigillum.Rest.Checks.{
  validate_request_headers, single_address, parse_address_list, address_headers,
}
use sigillum.Rest.Attachments.{
  estimate_size, has_content, validate_attachment_meta, unique_content_ids, decode_attachments,
}
use sigillum.Rest.Body.{
  BodyError, too_large, invalid, Read, read, unreadable, readable, ◌then_read◌, max_body,
  read_limited, decode_request_json, metas_error, parse_multipart_message,
}

-- What `Authenticate` says of a token.
pub data Review : Type 0 where
  subject : Subject → Review
  review_unavailable : Review
  invalid_token : Bytes → Review

-- What a request finds: the two UUIDs, the drain flag, the token review, the size of the body budget
-- (none where it is nil) and whether the semaphore grants the reservation in time.
pub record Surroundings : Type 0 where
  pub middleware_id : Bytes
  pub message_id : Bytes
  pub shutting : Bool
  pub review : Bytes → Review
  pub body_budget : Option ℕ
  pub acquired : Bool

-- The state of the gateway, and the bytes of the body budget that are taken.
pub record World (S : Type 0) : Type 0 where
  pub gateway : State S
  pub held : ℕ

-- A request that is answered before the pipeline: its audit record and the answer.
pub record Refusal : Type 0 where
  pub event : Event
  pub reason : Bytes
  pub retry_after : Option ℕ
  pub problem : Problem

pub data Step (A : Type 0) : Type 0 where
  refuse : Refusal → Step A
  go : A → Step A

infixl 20 ◌then◌
abbrev pub ◌then◌ : {A B : Type 0} → Step A → (A → Step B) → Step B
refuse r then f = refuse r
go a then f = f a

abbrev pub blank_event : Bytes → Event
blank_event id = record {
  message_id = id;
  namespace = [];
  service_account = [];
  auth_method = unauthenticated;
  credential = [];
  credential_previous = false;
  transport = rest;
  from = [];
  to = [];
  policy = [];
  backend = [];
  decision = none;
  reason = [];
}

-- `ev` at the start of `handleSendMessage`.
abbrev pub event_of : Bytes → Option Subject → Event
event_of id none = blank_event id
event_of id (some s) = record (blank_event id) {
  namespace = s.namespace;
  service_account = s.service_account;
  auth_method = oauth_bearer;
}

-- The closure `rejectPayload`.
unfoldable pub payload_refusal : Event → Problem → Refusal
payload_refusal ev p = record {
  event = ev;
  reason =
      if bytes_eq p.type (codes "message-too-large")
      then codes "message_too_large"
      else codes "invalid_payload";
  retry_after = none;
  problem = record p { message_id = ev.message_id };
}

abbrev pub bad_payload : Event → (title detail : Bytes) → Refusal
bad_payload ev title detail = payload_refusal ev (new (codes "invalid-payload") 400 title detail)

abbrev pub too_large_refusal : Event → Refusal
too_large_refusal ev = payload_refusal ev (
    new (codes "message-too-large") 413 (codes "Request body exceeds 32MiB ceiling")
      (codes "use a smaller message or split attachments"))

abbrev pub checked : {A : Type 0} → Event → (title : Bytes) → Fallible A → Step A
checked ev title (err e) = refuse (bad_payload ev title e)
checked ev title (ok a) = go a

abbrev pub passed : Event → (title : Bytes) → Option Bytes → Step (Unit {0})
passed ev title (some e) = refuse (bad_payload ev title e)
passed ev title none = go tt

abbrev pub body_refusal : Event → (title : Bytes) → BodyError → Refusal
body_refusal ev title too_large = too_large_refusal ev
body_refusal ev title (invalid e) = bad_payload ev title e

abbrev pub body_read : {A : Type 0} → Event → (title : Bytes) → Read A → Step A
body_read ev title (read a) = go a
body_read ev title (unreadable e) = refuse (body_refusal ev title e)

abbrev pub is_multipart : Bytes → Bool
is_multipart media = bytes_eq media (codes "multipart/form-data")

-- What `reserve` asks of the semaphore: 0 for nothing.
unfoldable pub reserve_amount : Option ℕ → ℤ → ℕ
reserve_amount none n = 0
reserve_amount (some size) (negsuc n) = size
reserve_amount (some size) (pos n) = if ltb size n then size else n

-- `bearerToken`, with `equal_fold` for Go's function.
unfoldable pub bearer_token : Platform → Bytes → Bytes
bearer_token env h =
    if leb (length h) 7 || not (env.equal_fold (take 7 h) (codes "Bearer "))
    then []
    else env.trim_space (drop 7 h)

module _ (env : Platform) (lib : HttpLib) where
  -- The JSON branch behind the reading of the body.
  unfoldable pub json_attachments : Event → RequestBody → Step (RequestBody × List Attachment)
  json_attachments ev req = elim (metas_error env lib 0 req.attachments) [
    | some (i, e) ↦
        refuse (bad_payload ev (codes "Invalid attachment[" ++ lib.itoa i ++ codes "]") e)
    | none ↦ elim req.content_ids [
      | [] ↦
          checked ev (codes "Invalid attachment") (decode_attachments env lib 0 req.attachments)
          then (λ atts. go (req, atts))
      | e ∷ more ↦ refuse (
          bad_payload ev (codes "Malformed JSON payload") (
            codes
              "contentIds names multipart file parts; in a JSON request, set contentId on the attachment"))
    ]
  ]

  abbrev pub within_ceiling : Event → Bytes → Step Bytes
  within_ceiling ev body =
      if ltb max_body (length body) then refuse (too_large_refusal ev) else go body

  unfoldable pub json_request : Event → HttpRequest → Step (RequestBody × List Attachment)
  json_request ev r =
      checked ev (codes "Failed to read request body") (read_limited (max_body + 1) r.body)
      then within_ceiling ev
      then (λ body. checked ev (codes "Malformed JSON payload") (decode_request_json env lib body))
      then json_attachments ev

  unfoldable pub multipart_request : Event → HttpRequest → Step (RequestBody × List Attachment)
  multipart_request ev r =
      body_read ev (codes "Failed to parse multipart body")
        (parse_multipart_message env lib max_body r.multipart)

  abbrev pub message_of :
      Bytes → RequestBody → List Attachment → Address → (to cc bcc : List Address) → Message
  message_of id req atts from to cc bcc = record {
    message_id = codes "<" ++ id ++ codes "@sigillum.local>";
    from = from;
    to = to;
    cc = cc;
    bcc = bcc;
    subject = req.subject;
    body = record { text = req.body.text; html = req.body.html };
    attachments = atts;
    headers = req.headers;
  }

  abbrev pub request_of :
      Bytes → Subject → RequestBody → List Attachment → Message → Bytes × List Bytes → Request
  request_of id s req atts msg (sender, reply_to) = record {
    identity = record {
      namespace = s.namespace;
      service_account = s.service_account;
      auth_method = oauth_bearer;
      pod_labels = [];
      credential = [];
      credential_previous = false;
    };
    transport = rest;
    message_id = id;
    message = msg;
    raw = none;
    envelope_from = [];
    sender = sender;
    reply_to = reply_to;
    size_bytes = estimate_size req atts;
  }

  -- From the check of the headers on.
  unfoldable pub finish_request :
      Event → Subject → RequestBody → List Attachment → Message → Step Request
  finish_request ev s req atts msg =
      passed ev (codes "Invalid header") (validate_request_headers env lib req.headers)
      then (λ u. checked ev (codes "Invalid header") (address_headers env lib ([], []) req.headers))
      then (λ found.
          if has_content env lib req.body atts
          then go (request_of ev.message_id s req atts msg found)
          else refuse (
              bad_payload ev (codes "Message has no content")
                (codes "set body.text or body.html, or add a non-empty attachment")))

  -- From the assembled message on.
  unfoldable pub with_message :
      Event → Subject → RequestBody → List Attachment → Message → Step Request
  with_message ev s req atts msg =
      let ev' = record ev { from = msg.from.address; to = recipients msg } in
      elim (recipients msg) [
        | [] ↦ refuse (
            bad_payload ev' (codes "At least one recipient required")
              (codes "provide one of to, cc or bcc"))
        | a ∷ more ↦ finish_request ev' s req atts msg
      ]

  -- From the addresses on; `ev` has the raw sender.
  unfoldable pub with_addresses : Event → Subject → RequestBody × List Attachment → Step Request
  with_addresses ev s (req, atts) =
      let ev' = record ev { from = req.from } in
      checked ev' (codes "Invalid 'from' address") (single_address env lib req.from) then (λ from.
        checked ev' (codes "Invalid 'to' address") (parse_address_list env lib req.to) then (λ to.
          checked ev' (codes "Invalid 'cc' address") (parse_address_list env lib req.cc) then (λ cc.
            checked ev' (codes "Invalid 'bcc' address") (parse_address_list env lib req.bcc)
            then (λ bcc.
                with_message ev' s req atts (message_of ev.message_id req atts from to cc bcc)))))

  abbrev pub distinct_ids :
      Event → RequestBody × List Attachment → Step (RequestBody × List Attachment)
  distinct_ids ev (req, atts) =
      passed ev (codes "Invalid attachment") (unique_content_ids env lib atts)
      then (λ u. go (req, atts))

  -- Everything between the reservation and the call of `Send`.
  unfoldable pub prepare : Event → Subject → (media : Bytes) → HttpRequest → Step Request
  prepare ev s media r =
      (if is_multipart media then multipart_request ev r else json_request ev r)
      then distinct_ids ev
      then with_addresses ev s

  abbrev pub unsupported : Bytes → Problem
  unsupported content_type =
      new (codes "unsupported-media-type") 415 (codes "Unsupported Content-Type") (
        (if bytes_eq content_type [] then codes "the Content-Type header is missing; " else [])
        ++ codes "send Content-Type: application/json, or multipart/form-data with attachments")

  abbrev pub busy : Event → Refusal
  busy ev = record {
    event = ev;
    reason = codes "busy";
    retry_after = some 5;
    problem = record {
      type = codes "unavailable";
      title = codes "Too many large requests in progress";
      status = 503;
      detail = codes "the api-server is already holding its limit of request bodies; retry later";
      policy = [];
      message_id = ev.message_id;
    };
  }

  abbrev pub draining : Event → Refusal
  draining ev = record {
    event = ev;
    reason = codes "shutting_down";
    retry_after = none;
    problem =
        new (codes "shutting-down") 503 (codes "Service draining")
          (codes "the api-server is terminating; retry on a different replica");
  }

  abbrev pub unauthorized : Event → (reason title detail : Bytes) → Refusal
  unauthorized ev reason title detail = record {
    event = ev;
    reason = reason;
    retry_after = none;
    problem = new (codes "invalid-token") 401 title detail;
  }

  abbrev pub no_subject : Bytes → Refusal
  no_subject id =
      unauthorized (event_of id none) (codes "missing_token") (codes "Authentication required")
        (codes "missing or invalid Bearer token")

  abbrev pub no_token : Bytes → Refusal
  no_token id =
      unauthorized (blank_event id) (codes "missing_token") (codes "Missing Bearer token")
        (codes "set Authorization: Bearer <token>")

  abbrev pub bad_token : Bytes → Bytes → Refusal
  bad_token id e = unauthorized (blank_event id) (codes "invalid_token") (codes "Invalid token") e

  abbrev pub not_reviewed : Event → Refusal
  not_reviewed ev = record {
    event = ev;
    reason = codes "auth_unavailable";
    retry_after = some 5;
    problem =
        new (codes "unavailable") 503 (codes "Service temporarily unavailable")
          (codes "the token could not be reviewed, try again later");
  }

  module _ (services : Services) {S : Type 0} (limiter : LimiterOps S) (now : ℕ)
      (around : Surroundings) where
    abbrev pub refused : Refusal → World S → World S × Answer
    refused f w = (
      record w { gateway = reject_request f.event f.reason w.gateway },
      failure f.retry_after f.problem,
    )

    -- `Send`, and the answer to its result.
    unfoldable pub answered : Request → World S → World S × Answer
    answered req w =
        let (g, result) = send env services limiter now req w.gateway in
        (record w { gateway = g }, write_result req.message_id result)

    abbrev pub conclude : Step Request → World S → World S × Answer
    conclude (refuse f) w = refused f w
    conclude (go req) w = answered req w

    -- `defer release()`.
    abbrev pub releasing : ℕ → World S × Answer → World S × Answer
    releasing n (w, a) = (record w { held = w.held - n }, a)

    abbrev pub reserving : ℕ → World S → World S
    reserving n w = record w { held = w.held + n }

    -- From the reservation on.
    unfoldable pub with_budget :
        Event → Subject → (media : Bytes) → HttpRequest → World S → World S × Answer
    with_budget ev s media r w =
        let n = reserve_amount around.body_budget r.content_length in
        if n == 0
        then conclude (prepare ev s media r) w
        else if around.acquired
        then releasing n (conclude (prepare ev s media r) (reserving n w))
        else refused (busy ev) w

    -- From the check of the media type on.
    unfoldable pub handle_payload : Event → Subject → HttpRequest → World S → World S × Answer
    handle_payload ev s r w =
        let media = (lib.parse_media_type r.content_type).0 in
        if not (bytes_eq media (codes "application/json")) && not (is_multipart media)
        then refused (payload_refusal ev (unsupported r.content_type)) w
        else with_budget ev s media r w

    abbrev pub authenticated : Option Subject → HttpRequest → World S → World S × Answer
    authenticated none r w = refused (no_subject around.message_id) w
    authenticated (some s) r w = handle_payload (event_of around.message_id (some s)) s r w

    -- `handleSendMessage`.
    unfoldable pub handle_send_message : Option Subject → HttpRequest → World S → World S × Answer
    handle_send_message who r w =
        if around.shutting
        then refused (draining (event_of around.message_id who)) w
        else authenticated who r w

    abbrev pub reviewed : Review → HttpRequest → World S → World S × Answer
    reviewed (subject s) r w = handle_send_message (some s) r w
    reviewed review_unavailable r w = refused (not_reviewed (blank_event around.middleware_id)) w
    reviewed (invalid_token e) r w = refused (bad_token around.middleware_id e) w

    -- `authMiddleware` around it.
    unfoldable pub post_message : HttpRequest → World S → World S × Answer
    post_message r w =
        let token = bearer_token env r.authorization in
        if bytes_eq token []
        then refused (no_token around.middleware_id) w
        else reviewed (around.review token) r w
