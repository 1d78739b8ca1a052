-- ===== src/SmtpDriver.antt =====
-- The SMTP backend driver, internal/driver/smtp/smtp.go: sending over one endpoint, failover between
-- endpoints, and the classes of errors. Deadlines, metrics and the probe are left out; how a relay
-- answers is a parameter.
pub mod Trace
pub mod Once
mod Tests
use sigillum.Common.{
  Bytes, ℕ, suc, ◌+◌, ◌*◌, Bool, true, false, not, ◌&&◌, ◌||◌, List, [], ◌∷◌, ◌++◌, map, Option,
  none, some, ltb, ◌==◌, if◌then◌else◌, codes, length, has_prefix, bytes_eq,
}
use sigillum.Policy.Types.{Platform}
use sigillum.RateLimit.{second}
use sigillum.Gateway.Types.{
  Fallible, ok, err, Address, Message, Endpoint, SendError, SendResult, Sent, delivered, failed,
  Driver,
}
use sigillum.Mime.Message.{MimeLib, assemble_message}

-- textproto.Error, or any other error.
pub record Failure : Type 0 where
  pub reply : Option (ℕ × Bytes)
  pub text : Bytes

-- An error of `sendVia`: bare, or wrapped in `configError` or `deliveryError`.
pub data SendViaError : Type 0 where
  bare config delivery : Failure → SendViaError

abbrev pub failure_of : SendViaError → Failure
failure_of (bare f) = f
failure_of (config f) = f
failure_of (delivery f) = f

-- What a relay is asked for in one conversation, in order.
pub data Call : Type 0 where
  dial banner hello starttls auth data_command close : Call
  write : Bytes → Call
  mail_from : Bytes → Call
  rcpt_to : Bytes → Call

-- How an endpoint answers a call, and whether it offers STARTTLS. `alive` is what the context and the
-- deadlines allow before the message is sent.
pub record Relay : Type 0 where
  pub answer : Endpoint → Call → Option Failure
  pub offers_starttls : Endpoint → Bool
  pub alive : Endpoint → Option Failure

pub record SmtpConfig : Type 0 where
  pub endpoints : List Endpoint
  pub auth_type : Bytes
  pub helo : Bytes

-- The calls that were made, oldest first.
abbrev pub Calls : Type 0
Calls = List (Endpoint × Call)

-- A conversation that goes on, or has failed.
abbrev pub Run : Type 0
Run = Calls × Option SendViaError

abbrev pub plain : Bytes → Failure
plain text = record { reply = none; text = text }

-- `driverHelo`.
abbrev pub helo_of : SmtpConfig → Bytes
helo_of cfg = if bytes_eq cfg.helo [] then codes "sigillum" else cfg.helo

abbrev pub known_mechanism : Bytes → Bool
known_mechanism mech =
    bytes_eq mech (codes "PLAIN")
    || bytes_eq mech (codes "LOGIN")
    || bytes_eq mech (codes "CRAM-MD5")

abbrev pub wants_auth : SmtpConfig → Bool
wants_auth cfg = not (bytes_eq cfg.auth_type []) && not (bytes_eq cfg.auth_type (codes "NONE"))

infixl 20 ◌and_on◌
-- The next part of a conversation, if it has not failed.
abbrev pub ◌and_on◌ : Run → (Calls → Run) → Run
(calls, some e) and_on next = (calls, some e)
(calls, none) and_on next = next calls

module _ (relay : Relay) where
  abbrev pub wrapped : (Failure → SendViaError) → Option Failure → Option SendViaError
  wrapped kind none = none
  wrapped kind (some f) = some (kind f)

  -- One call, an error of which is of the given kind.
  abbrev pub ask : (Failure → SendViaError) → Endpoint → Call → Calls → Run
  ask kind ep call calls = (calls ++ (ep, call) ∷ [], wrapped kind (relay.answer ep call))

  unfoldable pub start_tls : Endpoint → Calls → Run
  start_tls ep calls =
      if not (bytes_eq ep.tls (codes "starttls"))
      then (calls, none)
      else if not (relay.offers_starttls ep)
      then (calls, some (bare (plain (codes "server does not advertise STARTTLS"))))
      else ask bare ep starttls calls

  abbrev pub cleartext : SmtpConfig → Endpoint → Failure
  cleartext cfg ep = plain (
      codes "authType "
      ++ cfg.auth_type
      ++ codes " requires TLS; endpoint "
      ++ ep.host
      ++ codes " uses tls: none, which would send the relay password in cleartext")

  -- AUTH, with `buildAuth`.
  unfoldable pub log_in : SmtpConfig → Endpoint → Calls → Run
  log_in cfg ep calls =
      if not (wants_auth cfg)
      then (calls, none)
      else if bytes_eq ep.tls (codes "none")
      then (calls, some (config (cleartext cfg ep)))
      else if not (known_mechanism cfg.auth_type)
      then (calls, some (bare (plain (codes "unsupported auth type " ++ cfg.auth_type))))
      else ask bare ep auth calls

  unfoldable pub recipients : Endpoint → List Bytes → Calls → Run
  recipients ep [] calls = (calls, none)
  recipients ep (r ∷ rs) calls = ask delivery ep (rcpt_to r) calls and_on recipients ep rs

  unfoldable pub handshake : SmtpConfig → Endpoint → Calls → Run
  handshake cfg ep calls =
      ask bare ep dial calls
      and_on ask bare ep banner
      and_on ask bare ep hello
      and_on start_tls ep
      and_on log_in cfg ep
      and_on (λ calls'. (calls', wrapped bare (relay.alive ep)))

  unfoldable pub deliver : Endpoint → (from : Bytes) → List Bytes → (body : Bytes) → Calls → Run
  deliver ep from rcpts body calls =
      ask delivery ep (mail_from from) calls
      and_on recipients ep rcpts
      and_on ask delivery ep data_command
      and_on ask delivery ep (write body)
      and_on ask delivery ep close

  -- `sendVia`.
  unfoldable pub send_via :
      SmtpConfig → (from : Bytes) → List Bytes → (body : Bytes) → Endpoint → Calls → Run
  send_via cfg from rcpts body ep calls = handshake cfg ep calls and_on deliver ep from rcpts body

-- `isTooManyRecipients`, with `contains` for `strings.Contains`.
unfoldable pub contains_text : Bytes → Bytes → Bool
contains_text p [] = has_prefix [] p
contains_text p (c ∷ s) = has_prefix (c ∷ s) p || contains_text p s

module _ (env : Platform) where
  unfoldable pub is_too_many_recipients : Bytes → Bool
  is_too_many_recipients msg =
      has_prefix (env.trim_space msg) (codes "4.5.3")
      || contains_text (codes "too many recipient") (env.to_lower (env.trim_space msg))

  abbrev pub is_transient_reply : Option (ℕ × Bytes) → Bool
  is_transient_reply none = true
  is_transient_reply (some (code, msg)) =
      if code == 452 && is_too_many_recipients msg then false else ltb code 500

  -- `isTransient`.
  unfoldable pub is_transient : SendViaError → Bool
  is_transient (config f) = false
  is_transient (bare f) = true
  is_transient (delivery f) = is_transient_reply f.reply

  abbrev pub is_delivery : SendViaError → Bool
  is_delivery (delivery f) = true
  is_delivery (bare f) = false
  is_delivery (config f) = false

  -- `retryDelay.FindStringSubmatch`: the number of the delay, and whether it counts minutes.
  abbrev pub hint_of : (Bytes → Option (ℕ × Bool)) → Option (ℕ × Bytes) → ℕ
  hint_of find_delay none = 0
  hint_of find_delay (some (code, msg)) =
      if not (code == 421) && not (code == 451) then 0 else elim (find_delay msg) [
        | none ↦ 0
        | some (n, minutes) ↦ if minutes then n * 60 * second else n * second
      ]

  -- `retryHint`.
  unfoldable pub retry_hint : (Bytes → Option (ℕ × Bool)) → SendViaError → ℕ
  retry_hint find_delay e = hint_of find_delay (failure_of e).reply

  abbrev pub error_text : Option SendViaError → Bytes
  error_text none = codes "no ready endpoint"
  error_text (some e) = (failure_of e).text

  abbrev pub max_retry_after : ℕ
  max_retry_after = 600 * second

  -- `WithRetryAfter`.
  abbrev pub capped_delay : ℕ → Option ℕ
  capped_delay d =
      if ltb 0 d then some (if ltb max_retry_after d then max_retry_after else d) else none

  abbrev pub delay_of : (Bytes → Option (ℕ × Bool)) → Option SendViaError → Option ℕ
  delay_of find_delay none = none
  delay_of find_delay (some e) = capped_delay (retry_hint find_delay e)

  -- The end of a failed `sendBody`.
  unfoldable pub gave_up :
      (Bytes → Option (ℕ × Bool)) → (transient : Bool) → Option SendViaError → SendError
  gave_up find_delay true last = record {
    recipient_not_in_envelope = false;
    permanent = false;
    after = delay_of find_delay last;
    text = codes "upstream transient error: " ++ error_text last;
  }
  gave_up find_delay false last = record {
    recipient_not_in_envelope = false;
    permanent = true;
    after = none;
    text = codes "upstream permanent error: " ++ error_text last;
  }

module _ (env : Platform) (find_delay : Bytes → Option (ℕ × Bool)) (relay : Relay)
    (cfg : SmtpConfig) (now : ℕ) (from : Bytes) (rcpts : List Bytes) (body id : Bytes) where
  abbrev pub gave_up_with : (transient : Bool) → Option SendViaError → Calls → Calls × Sent
  gave_up_with transient last calls = (calls, failed (gave_up env find_delay transient last))

  -- The loop of `sendBody`, with the last error and whether all were transient.
  unfoldable pub send_over :
      (transient : Bool) → Option SendViaError → List Endpoint → Calls → Calls × Sent
  send_over transient last [] calls = gave_up_with transient last calls
  send_over transient last (ep ∷ eps) calls =
      let (calls', result) = send_via relay cfg from rcpts body ep calls in
      elim result [
        | none ↦ (calls', delivered (record { upstream_id = id; accepted_at = now }))
        | some e ↦
            let transient' = transient && is_transient env e in
            let next = send_over transient' (some e) eps calls' in
            if is_delivery env e then gave_up_with transient' (some e) calls' else next
      ]

  -- `sendBody`.
  unfoldable pub send_body : Calls × Sent
  send_body = send_over true none cfg.endpoints []

-- `Send` and `SendRaw`.
module _ (env : Platform) (find_delay : Bytes → Option (ℕ × Bool)) (relay : Relay)
    (cfg : SmtpConfig) (now : ℕ) where
  abbrev pub permanent_error : Bytes → SendError
  permanent_error text = record {
    recipient_not_in_envelope = false;
    permanent = true;
    after = none;
    text = codes "upstream permanent error: " ++ text;
  }

  unfoldable pub send_raw : Bytes → List Bytes → Bytes → Calls × Sent
  send_raw from [] raw = ([], failed (permanent_error (codes "at least one recipient required")))
  send_raw from (r ∷ rs) raw = send_body env find_delay relay cfg now from (r ∷ rs) raw []

  abbrev pub addresses : List Address → List Bytes
  addresses l = map (λ a. a.address) l

  unfoldable pub send_message : MimeLib → Message → Calls × Sent
  send_message lib m = elim (assemble_message env lib m (helo_of cfg)) [
    | err e ↦ ([], failed (permanent_error e))
    | ok (body, id) ↦
        send_body env find_delay relay cfg now m.from.address
          (addresses m.to ++ addresses m.cc ++ addresses m.bcc) body id
  ]

  -- The driver that the registry makes, for the gateway.
  abbrev pub as_driver : MimeLib → Driver
  as_driver lib = record {
    send = λ m. (send_message lib m).1;
    send_raw = some (λ from to raw. (send_raw from to raw).1);
  }
