-- ===== src/Gateway/Samples.antt =====
-- A caller, a policy, a backend and drivers for the tests.
use sigillum.Common.{Bytes, pos, ℕ, ◌*◌, false, [], ◌∷◌, none, some, codes}
use sigillum.Policy.Types.{MailPolicy}
use sigillum.Policy.Samples.{policy}
use sigillum.RateLimit.{second, Limiter, new_memory_limiter}
use sigillum.Gateway.Types.{
  ok, err, Address, Message, Request, oauth_bearer, rest, Services, MailBackend, Sent, delivered,
  failed,
}
use sigillum.Gateway.Send.{State}

abbrev pub address : Bytes → Address
address a = record { name = []; address = a }

abbrev pub letter : Message
letter = record {
  message_id = codes "m1";
  from = address (codes "news@example.com");
  to = address (codes "a.b@example.org") ∷ [];
  cc = [];
  bcc = address (codes "c@example.org") ∷ [];
  subject = codes "hello";
  body = record { text = codes "hi"; html = [] };
  attachments = [];
  headers = [];
}

abbrev pub request : Request
request = record {
  identity = record {
    namespace = codes "team";
    service_account = codes "app";
    auth_method = oauth_bearer;
    pod_labels = [];
    credential = [];
    credential_previous = false;
  };
  transport = rest;
  message_id = codes "m1";
  message = letter;
  raw = none;
  envelope_from = [];
  sender = [];
  reply_to = [];
  size_bytes = 500;
}

abbrev pub capped : MailPolicy
capped =
    let p = policy "a" 7 in
    record p {
      spec = record p.spec {
        rate_limits = some (record {
          messages_per_minute = pos 1;
          messages_per_hour = pos 0;
          messages_per_day = pos 0;
        });
      };
    }

abbrev pub backend : MailBackend
backend = record {
  namespace = [];
  name = codes "relay";
  uid = codes "b1";
  generation = 1;
  spec = record { settings = []; allowed_senders = some (codes "*@example.com" ∷ []) };
  status = record {
    endpoint_status = [];
    conditions = record { type = codes "Ready"; status = codes "True" } ∷ [];
  };
}

abbrev pub answering : Sent → Services
answering answer = record {
  list_in_namespace = λ ns. capped ∷ policy "b" 1 ∷ [];
  get_service_account = λ ns name. none;
  get_mail_backend = λ ns name. err (codes "not found");
  get_cluster_mail_backend = λ name. ok backend;
  validate_mail_policy = λ p. none;
  validate_backend = λ b. none;
  resolve_backend_config = λ key spec ns. ok (record { settings = []; smtp_endpoints = none });
  new_driver = λ cfg. ok (record { send = λ m. answer; send_raw = none });
  quote = λ s. s;
}

abbrev pub up : Services
up = answering (delivered (record { upstream_id = codes "q1"; accepted_at = 5 }))

abbrev pub down : Services
down = answering (
    failed (record {
      recipient_not_in_envelope = false;
      permanent = false;
      after = none;
      text = codes "421";
    }))

abbrev pub start : State Limiter
start = record {
  audit = [];
  limiter = new_memory_limiter;
  validity = [];
  deliveries = [];
  drivers_open = 0;
}

abbrev pub now : ℕ
now = 1_000_000 * second
