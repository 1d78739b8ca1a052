-- ===== src/SmtpDriver/Tests.antt =====
-- A message over two relays, the first of which is down.
use sigillum.Common.{
  Bytes, pos, false, if◌then◌else◌, ◌≡◌, refl, [], ◌∷◌, Option, none, some, codes, bytes_eq,
}
use sigillum.Policy.Samples.{ascii}
use sigillum.Gateway.Types.{Endpoint, delivered}
use sigillum.SmtpDriver.{
  Failure, Call, dial, Relay, SmtpConfig, plain, start_tls, log_in, recipients, handshake, deliver,
  send_via, send_over, send_body, is_transient,
}
use sigillum.SmtpDriver.Once.{IsOnce, send_body-IsOnce}

abbrev host : Bytes → Endpoint
host name = record { host = name; port = pos 25; tls = codes "tls"; insecure_skip_verify = false }

abbrev refusing : Bytes → Call → Option Failure
refusing h dial = if bytes_eq h (codes "a") then some (plain (codes "refused")) else none
refusing h c = none

abbrev relay : Relay
relay = record {
  answer = λ ep c. refusing ep.host c;
  offers_starttls = λ ep. false;
  alive = λ ep. none;
}

abbrev two : SmtpConfig
two = record {
  endpoints = host (codes "a") ∷ host (codes "b") ∷ [];
  auth_type = codes "PLAIN";
  helo = [];
}

-- The second relay takes the message.
failed_over :
    (send_body ascii (λ s. none) relay two 5 (codes "f") (codes "t" ∷ []) (codes "x") (codes "m")).1
    ≡ delivered (record { upstream_id = codes "m"; accepted_at = 5 })
unfolding send_body send_over send_via handshake start_tls log_in deliver recipients is_transient
    bytes_eq
failed_over = refl

send_body-IsOnce_example :
    IsOnce relay
      (send_body ascii (λ s. none) relay two 5 (codes "f") (codes "t" ∷ []) (codes "x") (codes "m"))
send_body-IsOnce_example =
    send_body-IsOnce ascii (λ s. none) relay two 5 (codes "f") (codes "t" ∷ []) (codes "x")
      (codes "m")
