-- ===== src/SmtpProxy/Session.antt =====
-- The session of internal/smtpproxy/session.go: MAIL, RCPT, DATA and RSET, and the logins. What a
-- command finds outside the session is its argument.
pub mod Revoked
pub mod Submitted
pub mod Audited
use sigillum.Common.{
  Bytes, ℕ, Bool, true, false, not, ◌&&◌, List, [], ◌∷◌, ◌++◌, map, Option, none, some,
  if◌then◌else◌, codes, bytes_eq, length,
}
use sigillum.Policy.Types.{Labels, Platform}
use sigillum.Gateway.Types.{
  Fallible, ok, err, Address, Message, AuthMethod, oauth_bearer, pod_ip_legacy, smtp_credential,
  unauthenticated, Identity, Request, Transport, smtp, Result, Event,
}
use sigillum.Credential.{Lookup, valid, invalid, lookup_failed}
use sigillum.SmtpProxy.Bcc.{strip_bcc}
use sigillum.SmtpProxy.Reply.{
  SmtpError, smtp_error, Reply, fine, refused, broken, with_message_id, with_id, result_error,
}

-- credential.Result: whom a verified login stands for.
pub record Login : Type 0 where
  pub username : Bytes
  pub namespace : Bytes
  pub service_account : Bytes
  pub previous : Bool

pub record Session : Type 0 where
  pub identity : Option Identity
  pub cred : Option Login
  pub from : Bytes
  pub rcpts : List Bytes
  pub revoked : Bool
  -- `closeAfterReply` was called.
  pub closing : Bool

abbrev pub new_session : Session
new_session = record {
  identity = none;
  cred = none;
  from = [];
  rcpts = [];
  revoked = false;
  closing = false;
}

-- The addresses that the policy checks.
pub record AddressHeaders : Type 0 where
  pub from : Bytes
  pub sender : Bytes
  pub reply_to : List Bytes

-- What `parseMessage` and `contentSize` make of a message that they accept; `added` is what
-- `missingOriginationHeaders` puts in front of it.
pub record Parsed : Type 0 where
  pub headers : AddressHeaders
  pub size : ℕ
  pub added : Bytes

-- Reading the message to its end, or the errors that `Data` tells apart.
pub data Reading : Type 0 where
  complete : Bytes → Reading
  timed_out line_too_long : Reading
  too_large read_error : Bytes → Reading

-- What one command finds. `resolve_pod` is none without the fallback, and `some none` where the
-- lookup fails; `slot` and `tenant_slot` say whether a place came free in time.
pub record Surroundings : Type 0 where
  pub message_id : Bytes
  pub still_valid : Login → Lookup Bool
  pub resolve_pod : Option (Option (Bytes × Bytes × Labels))
  pub tenant_slot : Bool
  pub slot : Bool
  pub reading : Reading
  pub received : AuthMethod → Bytes

-- What the session calls: the sender, and the parsers of net/mail through `checkPath` and
-- `parseMessage`. A path or message that is refused gives the error's text.
pub record Calls (W : Type 0) : Type 0 where
  pub send : Request → W → W × Result
  pub reject : Event → Bytes → W → W
  pub check_path : Bytes → Option Bytes
  pub parse_message : (raw id : Bytes) → Fallible Parsed
  pub itoa : ℕ → Bytes
  pub max_line_length : ℕ

abbrev pub auth_required : SmtpError
auth_required = smtp_error 530 (5, 7, 0) (codes "Authentication required")

abbrev pub credential_revoked : SmtpError
credential_revoked =
    smtp_error 454 (4, 7, 0) (codes "Credential no longer valid; reconnect and authenticate again")

abbrev pub auth_unavailable : SmtpError
auth_unavailable = smtp_error 454 (4, 7, 0) (codes "Temporary authentication failure")

abbrev no_event : Bytes → Event
no_event id = record {
  message_id = id;
  namespace = [];
  service_account = [];
  auth_method = unauthenticated;
  credential = [];
  credential_previous = false;
  transport = smtp;
  from = [];
  to = [];
  policy = [];
  backend = [];
  decision = none;
  reason = [];
}

-- `session.event`.
abbrev pub event : Option Identity → (id from : Bytes) → List Bytes → Event
event none id from to = record (no_event id) { from = from; to = to }
event (some i) id from to = record (no_event id) {
  from = from;
  to = to;
  namespace = i.namespace;
  service_account = i.service_account;
  auth_method = i.auth_method;
  credential = i.credential;
  credential_previous = i.credential_previous;
}

-- A login by token, which the OAUTHBEARER exchange ends with.
unfoldable pub login_token : (namespace service_account : Bytes) → Session → Session
login_token ns sa s = record s {
  identity = some (record {
    namespace = ns;
    service_account = sa;
    auth_method = oauth_bearer;
    pod_labels = [];
    credential = [];
    credential_previous = false;
  });
}

-- The end of `credentialLogin` where the password was right.
unfoldable pub login_credential : Login → Session → Session
login_credential l s = record s {
  cred = some l;
  identity = some (record {
    namespace = l.namespace;
    service_account = l.service_account;
    auth_method = smtp_credential;
    pod_labels = [];
    credential = l.username;
    credential_previous = l.previous;
  });
}

abbrev pub mark_previous : Bool → Option Identity → Option Identity
mark_previous p none = none
mark_previous p (some i) = some (record i { credential_previous = p })

-- `Reset`.
unfoldable pub reset : Session → Session
reset s = record s { from = []; rcpts = [] }

module _ (env : Platform) {W : Type 0} (calls : Calls W) (now : Surroundings) where
  abbrev reject_message : Session → (reason from : Bytes) → List Bytes → W → W
  reject_message s reason from to w =
      calls.reject (event s.identity now.message_id from to) reason w

  -- `checkCredential`: none where the command may go on.
  abbrev pub after_lookup :
      Lookup Bool → (from : Bytes) → List Bytes → Session → W → Session × W × Option SmtpError
  after_lookup (valid p) from to s w = (record s { identity = mark_previous p s.identity }, w, none)
  after_lookup invalid from to s w = (
    record s { identity = none; cred = none; revoked = true },
    reject_message s (codes "invalid_credentials") from to w,
    some credential_revoked,
  )
  after_lookup lookup_failed from to s w =
      (s, reject_message s (codes "auth_unavailable") from to w, some auth_unavailable)

  abbrev pub check_as :
      (revoked : Bool)
      → Option Login
      → Bytes
      → List Bytes
      → Session
      → W
      → Session × W × Option SmtpError
  check_as true cred from to s w = (s, w, some credential_revoked)
  check_as false none from to s w = (s, w, none)
  check_as false (some l) from to s w = after_lookup (now.still_valid l) from to s w

  unfoldable pub check_credential :
      Bytes → List Bytes → Session → W → Session × W × Option SmtpError
  check_credential from to s w = check_as s.revoked s.cred from to s w

  abbrev pod_identity : Bytes × Bytes × Labels → Identity
  pod_identity (ns, sa, labels) = record {
    namespace = ns;
    service_account = sa;
    auth_method = pod_ip_legacy;
    pod_labels = labels;
    credential = [];
    credential_previous = false;
  }

  -- `identifyByPodIP`.
  abbrev pub identify_by_pod_ip :
      Option (Option (Bytes × Bytes × Labels)) → Session → W → Session × W × Option SmtpError
  identify_by_pod_ip none s w =
      (s, calls.reject (no_event now.message_id) (codes "auth_required") w, some auth_required)
  identify_by_pod_ip (some none) s w =
      (s, calls.reject (no_event now.message_id) (codes "pod_ip_unresolved") w, some auth_required)
  identify_by_pod_ip (some (some pod)) s w =
      (record s { identity = some (pod_identity pod) }, w, none)

  abbrev pub identify : Option Identity → Session → W → Session × W × Option SmtpError
  identify (some i) s w = (s, w, none)
  identify none s w = identify_by_pod_ip now.resolve_pod s w

  -- The end of `Mail`, for an identified caller.
  unfoldable pub accept_sender : Bytes → Session → W → Session × W × Reply
  accept_sender from s w =
      if bytes_eq from []
      then (
        s,
        reject_message s (codes "null_sender") [] [] w,
        refused (smtp_error 550 (5, 7, 1) (codes "Null sender <> is not accepted for submission")),
      )
      else elim (calls.check_path from) [
        | some e ↦ (
          s,
          reject_message s (codes "invalid_payload") from [] w,
          refused (smtp_error 553 (5, 1, 7) (codes "Malformed sender address")),
        )
        | none ↦ (record s { from = from }, w, fine)
      ]

  abbrev pub go_on :
      (Session → W → Session × W × Reply) → Session × W × Option SmtpError → Session × W × Reply
  go_on rest (s, w, some e) = (s, w, refused e)
  go_on rest (s, w, none) = rest s w

  unfoldable pub mail : Bytes → Session → W → Session × W × Reply
  mail from s w =
      go_on (λ s w. go_on (accept_sender from) (identify s.identity s w))
        (check_credential from [] s w)

  unfoldable pub rcpt : Bytes → Session → W → Session × W × Reply
  rcpt to s w = elim (calls.check_path to) [
    | some e ↦ (
      s,
      reject_message s (codes "invalid_payload") s.from (to ∷ []) w,
      refused (smtp_error 553 (5, 1, 3) (codes "Malformed recipient address")),
    )
    | none ↦ (record s { rcpts = s.rcpts ++ to ∷ [] }, w, fine)
  ]

  abbrev nobody : Bytes → Address
  nobody a = record { name = []; address = a }

  -- The request that `Data` hands to the sender.
  abbrev pub submission : Identity → Session → (raw trace : Bytes) → Parsed → Request
  submission i s raw trace p = record {
    identity = i;
    transport = smtp;
    message_id = now.message_id;
    message = record {
      message_id = [];
      from = nobody p.headers.from;
      to = map nobody s.rcpts;
      cc = [];
      bcc = [];
      subject = [];
      body = record { text = []; html = [] };
      attachments = [];
      headers = [];
    };
    raw = some (trace ++ p.added ++ raw);
    envelope_from = s.from;
    sender = p.headers.sender;
    reply_to = p.headers.reply_to;
    size_bytes = p.size;
  }

  abbrev pub hand_over :
      Option Identity → (raw trace : Bytes) → Parsed → Session → W → Session × W × Reply
  hand_over none raw trace p s w = (s, w, refused auth_required)
  hand_over (some i) raw trace p s w =
      let (w', r) = calls.send (submission i s raw trace p) w in
      (s, w', result_error calls.itoa r now.message_id)

  -- From the parsed message on; the credential may have been revoked since MAIL.
  unfoldable pub submit : (raw trace : Bytes) → Parsed → Session → W → Session × W × Reply
  submit raw trace p s w =
      let checked = check_credential s.from s.rcpts s w in
      elim checked.2 [
        | some e ↦ (checked.0, checked.1, with_message_id (refused e) now.message_id)
        | none ↦ hand_over checked.0.identity raw trace p checked.0 checked.1
      ]

  -- From the read message on. `base` is the event of every refusal.
  unfoldable pub receive : (base : Event) → AuthMethod → Reading → Session → W → Session × W × Reply
  receive base method (too_large e) s w =
      (s, calls.reject base (codes "message_too_large") w, broken e)
  receive base method (read_error e) s w =
      (s, calls.reject base (codes "invalid_payload") w, broken e)
  receive base method timed_out s w = (
    record s { closing = true },
    calls.reject base (codes "data_timeout") w,
    refused
        (smtp_error 451 (4, 4, 2) (with_id (codes "Timeout during data transfer") now.message_id)),
  )
  receive base method line_too_long s w = (
    record s { closing = true },
    calls.reject base (codes "invalid_payload") w,
    with_message_id
        (refused (
          smtp_error 550 (5, 6, 0)
            (codes "Line longer than "
              ++ calls.itoa calls.max_line_length
              ++ codes " bytes; use quoted-printable or base64")))
        now.message_id,
  )
  receive base method (complete body) s w =
      let raw = strip_bcc env body in
      elim (calls.parse_message raw now.message_id) [
        | err e ↦
            (s, calls.reject base (codes "invalid_payload") w, refused (smtp_error 550 (5, 6, 0) e))
        | ok p ↦ submit raw (now.received method) p s w
      ]

  abbrev busy : Bytes → SmtpError
  busy what = smtp_error 451 (4, 3, 2) (with_id what now.message_id)

  -- The waits for a place of the tenant and for one of all.
  abbrev pub with_slots : (tenant all : Bool) → Identity → Session → W → Session × W × Reply
  with_slots false all i s w = (
    s,
    calls.reject (event (some i) now.message_id s.from s.rcpts) (codes "busy") w,
    refused (busy (codes "Too many concurrent messages for this tenant, try again later")),
  )
  with_slots true false i s w = (
    s,
    calls.reject (event (some i) now.message_id s.from s.rcpts) (codes "busy") w,
    refused (busy (codes "Too many concurrent messages, try again later")),
  )
  with_slots true true i s w =
      receive (event (some i) now.message_id s.from s.rcpts) i.auth_method now.reading s w

  abbrev pub data_as : Option Identity → Session → W → Session × W × Reply
  data_as none s w = (s, w, refused auth_required)
  data_as (some i) s w = with_slots now.tenant_slot now.slot i s w

  -- `Data`.
  unfoldable pub receive_data : Session → W → Session × W × Reply
  receive_data s w = data_as s.identity s w
