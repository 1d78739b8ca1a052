-- ===== src/Gateway/Send.antt =====
-- `Gateway.Send` of internal/gateway/gateway.go, one function for each stretch between two of its
-- returns. Spans, log lines and metrics are left out.
pub mod Audit
pub mod Charge
pub mod Guards
pub mod Closed
use sigillum.Common.{
  Bytes, pos, ℕ, suc, ◌+◌, ◌-◌, Bool, true, false, not, ◌&&◌, List, [], ◌∷◌, ◌++◌, map, Option,
  none, some, if◌then◌else◌, codes, has_prefix, length, drop,
}
use sigillum.Policy.Types.{
  MailPolicy, Caller, MessageView, Decision, DenyReason, no_policy, sender_not_allowed,
  recipient_blocked, message_too_large, too_many_recipients, Labels, Platform, RateLimitsSpec,
}
use sigillum.Policy.Match.{match, needs_sa_labels}
use sigillum.Policy.Evaluate.{evaluate, senders_allowed}
use sigillum.RateLimit.{Limits, Reply, uncapped}
use sigillum.Gateway.Types.{
  ok, err, Address, Message, AuthMethod, oauth_bearer, pod_ip_legacy, smtp_credential,
  unauthenticated, Request, Status, accepted, denied, rate_limited, backend_not_ready,
  upstream_error, unavailable, policy_invalid, Result, accept, reject, Event, Sent, delivered,
  failed, SendError, SendResult, Driver, Delivery, message, relay, Services, LimiterOps,
}
use sigillum.Gateway.Validity.{Cache, check}
use sigillum.Gateway.Backend.{Resolved, backend_for_policy, open_driver, slash}

-- What a call changes: the audit stream, oldest record first; the rate limiter; the cache of
-- validation results; what drivers were asked to send; and how many drivers are open.
pub record State (S : Type 0) : Type 0 where
  pub audit : List Event
  pub limiter : S
  pub validity : Cache
  pub deliveries : List Delivery
  pub drivers_open : ℕ

-- `Recipients`.
unfoldable pub recipients : Message → List Bytes
recipients m = map (λ a. a.address) m.to ++ map (λ a. a.address) m.cc ++ map (λ a. a.address) m.bcc

abbrev pub view : Request → MessageView
view req = record {
  from = req.message.from.address;
  envelope_from = req.envelope_from;
  sender = req.sender;
  recipients = recipients req.message;
  reply_to = req.reply_to;
  size_bytes = req.size_bytes;
}

abbrev pub new_event : Request → Event
new_event req = record {
  message_id = req.message_id;
  namespace = req.identity.namespace;
  service_account = req.identity.service_account;
  auth_method = req.identity.auth_method;
  credential = req.identity.credential;
  credential_previous = req.identity.credential_previous;
  transport = req.transport;
  from = req.message.from.address;
  to = recipients req.message;
  policy = [];
  backend = [];
  decision = none;
  reason = [];
}

abbrev pub is_legacy : AuthMethod → Bool
is_legacy pod_ip_legacy = true
is_legacy oauth_bearer = false
is_legacy smtp_credential = false
is_legacy unauthenticated = false

abbrev pub reason_text : DenyReason → Bytes
reason_text no_policy = codes "no_policy_matched"
reason_text sender_not_allowed = codes "sender_not_allowed"
reason_text recipient_blocked = codes "recipient_not_allowed"
reason_text message_too_large = codes "message_too_large"
reason_text too_many_recipients = codes "too_many_recipients"

abbrev pub reason_of : Option DenyReason → Bytes
reason_of none = []
reason_of (some r) = reason_text r

-- `nameOf`.
abbrev pub name_of : Option MailPolicy → Bytes
name_of none = []
name_of (some p) = p.name

abbrev pub rate_limits : Option RateLimitsSpec → Limits
rate_limits none = record { per_minute = pos 0; per_hour = pos 0; per_day = pos 0 }
rate_limits (some r) = record {
  per_minute = r.messages_per_minute;
  per_hour = r.messages_per_hour;
  per_day = r.messages_per_day;
}

-- A result with the zero value in every field.
abbrev pub blank : Status → Result
blank s = record {
  status = s;
  policy = [];
  backend = [];
  deny_reason = none;
  detail = [];
  retry_after = 0;
  permanent = false;
  upstream_id = [];
  accepted_at = 0;
}

abbrev pub after_or_zero : Option ℕ → ℕ
after_or_zero none = 0
after_or_zero (some d) = d

-- `strings.TrimPrefix(err.Error(), driver.ErrUpstreamPermanent.Error()+": ")`.
abbrev without_sentinel : Bytes → Bytes
without_sentinel s =
    let sentinel = codes "upstream permanent error: " in
    if has_prefix s sentinel then drop (length sentinel) s else s

abbrev pub rate_key : MailPolicy → Bytes
rate_key p = p.namespace ++ slash ++ p.name

module _ {S : Type 0} where
  abbrev pub recorded : Event → State S → State S
  recorded ev s = record s { audit = s.audit ++ ev ∷ [] }

  -- The closure `deny`.
  abbrev pub deny :
      Event
      → (policy : Bytes) → Option DenyReason
      → (detail backend : Bytes) → State S
      → State S × Result
  deny ev policy reason detail backend s = (
    recorded
        (record ev {
          policy = policy;
          backend = backend;
          decision = some reject;
          reason = reason_of reason;
        })
        s,
    record (blank denied) {
      policy = policy;
      backend = backend;
      deny_reason = reason;
      detail = detail;
    },
  )

  abbrev pub rejected : Event → Bytes → Result → State S → State S × Result
  rejected ev reason r s = (recorded (record ev { decision = some reject; reason = reason }) s, r)

  -- `Gateway.Reject`.
  abbrev pub reject_request : Event → Bytes → State S → State S
  reject_request ev reason s = recorded (record ev { decision = some reject; reason = reason }) s

  -- The closure `notReady`.
  abbrev pub not_ready : Event → MailPolicy → Bytes → State S → State S × Result
  not_ready ev p e s =
      rejected ev (codes "backend_not_ready")
        (record (blank backend_not_ready) { policy = p.name; detail = e }) s

module _ (env : Platform) (services : Services) {S : Type 0} (limiter : LimiterOps S) (now : ℕ)
    (req : Request) where
  -- What the driver is asked for.
  abbrev pub delivery : Option Bytes → Delivery
  delivery (some raw) = relay req.envelope_from (recipients req.message) raw
  delivery none = message req.message

  abbrev pub to_deliver : Delivery
  to_deliver = delivery req.raw

  abbrev pub asked : Delivery → State S → State S
  asked what s = record s { deliveries = s.deliveries ++ what ∷ [] }

  abbrev pub cannot_relay : Bytes → SendError
  cannot_relay key = record {
    recipient_not_in_envelope = false;
    permanent = true;
    after = none;
    text = codes "upstream permanent error: backend " ++ key ++ codes " cannot relay raw messages";
  }

  abbrev pub relay_raw :
      Option (Bytes → List Bytes → Bytes → Sent) → Bytes → Bytes → State S → State S × Sent
  relay_raw (some send_raw) raw key s =
      (asked (delivery (some raw)) s, send_raw req.envelope_from (recipients req.message) raw)
  relay_raw none raw key s = (s, failed (cannot_relay key))

  abbrev pub deliver_as : Option Bytes → Driver → Bytes → State S → State S × Sent
  deliver_as none d key s = (asked (delivery none) s, d.send req.message)
  deliver_as (some raw) d key s = relay_raw d.send_raw raw key s

  unfoldable pub deliver : Driver → Bytes → State S → State S × Sent
  deliver d key s = deliver_as req.raw d key s

  abbrev pub refunded : Bool → MailPolicy → State S → State S
  refunded charged p s =
      if charged then record s { limiter = limiter.refund (rate_key p) s.limiter } else s

  -- The end of `Send`, once the driver has answered.
  unfoldable pub finish :
      Event → MailPolicy → Bytes → (charged : Bool) → State S × Sent → State S × Result
  finish ev p key charged (s, delivered r) = (
    recorded (record ev { decision = some accept }) s,
    record (blank accepted) {
      policy = p.name;
      backend = key;
      upstream_id = r.upstream_id;
      accepted_at = r.accepted_at;
    },
  )
  finish ev p key charged (s, failed e) =
      if e.recipient_not_in_envelope
      then deny ev p.name (some recipient_blocked) (without_sentinel e.text) key
          (refunded charged p s)
      else let label = if e.permanent then codes "upstream_rejected" else codes "upstream_error" in
        let (s', r) =
          rejected ev label
            (record (blank upstream_error) {
              policy = p.name;
              backend = key;
              detail = e.text;
              permanent = e.permanent;
              retry_after = if e.permanent then 0 else after_or_zero e.after;
            })
            s in
        (refunded (charged && not e.permanent) p s', r)

  -- From the charge of the rate limit on.
  unfoldable pub charge_and_deliver :
      Event → MailPolicy → Bytes → Driver → State S → State S × Result
  charge_and_deliver ev p key d s =
      let limits = rate_limits p.spec.rate_limits in
      if uncapped limits
      then finish ev p key false (deliver d key s)
      else let (l, reply) = limiter.allow now (rate_key p) limits s.limiter in
        let s' = record s { limiter = l } in
        elim reply [
          | none ↦
              rejected ev (codes "ratelimit_unavailable")
                (record (blank unavailable) {
                  policy = p.name;
                  detail = codes "rate limiter unavailable; retry later";
                })
                s'
          | some r ↦
              if r.allowed
              then finish ev p key true (deliver d key s')
              else rejected ev (codes "rate_limited")
                  (record (blank rate_limited) {
                    policy = p.name;
                    retry_after = r.retry_after;
                    detail = codes "policy '" ++ p.name ++ codes "' rate limit exceeded";
                  })
                  s'
        ]

  -- `defer d.Close()`.
  abbrev pub closing : State S × Result → State S × Result
  closing (s, r) = (record s { drivers_open = s.drivers_open - 1 }, r)

  abbrev pub opened : State S → State S
  opened s = record s { drivers_open = suc s.drivers_open }

  -- From the opening of the driver on.
  unfoldable pub open_and_send : Event → MailPolicy → Resolved → State S → State S × Result
  open_and_send ev p b s = elim (open_driver services b) [
    | err e ↦ not_ready ev p e s
    | ok d ↦ closing (charge_and_deliver ev p b.key d (opened s))
  ]

  abbrev pub refused_by : Option (List Bytes) → Option Bytes
  refused_by none = none
  refused_by (some allowed) = senders_allowed env (view req) allowed

  -- From the resolution of the backend on.
  unfoldable pub resolve_and_send : MailPolicy → State S → State S × Result
  resolve_and_send p s =
      let (m, found) = backend_for_policy services p s.validity in
      let s' = record s { validity = m } in
      let ev = record (new_event req) { policy = p.name } in
      elim found [
        | err e ↦ not_ready ev p e s'
        | ok b ↦
            let ev' = record ev { backend = b.key } in
            elim (refused_by b.spec.allowed_senders) [
              | some from ↦
                  deny ev' p.name (some sender_not_allowed)
                    (codes "sender '" ++ from ++ codes "' not in the backend's allowedSenders")
                    b.key s'
              | none ↦ open_and_send ev' p b s'
            ]
      ]

  -- From the decision on. Go would panic in the second case.
  unfoldable pub decide_and_send : Decision → State S → State S × Result
  decide_and_send d s =
      if d.allowed
      then elim d.policy [
        | some p ↦ resolve_and_send p s
        | none ↦ deny (new_event req) [] d.deny_reason d.deny_detail [] s
      ]
      else deny (new_event req) (name_of d.policy) d.deny_reason d.deny_detail [] s

  abbrev known : Option Labels → Labels × Bool
  known none = ([], false)
  known (some l) = (l, true)

  abbrev pub policies : List MailPolicy
  policies = services.list_in_namespace req.identity.namespace

  unfoldable pub caller : Caller
  caller =
      let id = req.identity in
      let (labels, found) =
        if needs_sa_labels policies
        then known (services.get_service_account id.namespace id.service_account)
        else ([], false) in
      record {
        namespace = id.namespace;
        service_account = id.service_account;
        sa_labels = labels;
        sa_labels_known = found;
        legacy_pod_ip = is_legacy id.auth_method;
        pod_labels = id.pod_labels;
      }

  abbrev pub matched : Option MailPolicy
  matched = match env policies caller

  unfoldable pub send_matched : Option MailPolicy → State S → State S × Result
  send_matched none s = decide_and_send (evaluate env none (view req)) s
  send_matched (some p) s =
      let (m, verr) = check p.uid p.generation (services.validate_mail_policy p) s.validity in
      let s' = record s { validity = m } in
      elim verr [
        | some e ↦
            rejected (record (new_event req) { policy = p.name }) (codes "policy_invalid")
              (record (blank policy_invalid) {
                policy = p.name;
                detail =
                    codes "MailPolicy "
                    ++ services.quote p.name
                    ++ codes " is invalid; its Ready condition names the problem";
              })
              s'
        | none ↦ decide_and_send (evaluate env (some p) (view req)) s'
      ]

  unfoldable pub send : State S → State S × Result
  send s = send_matched matched s
