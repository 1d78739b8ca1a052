-- ===== src/Gateway/Types.antt =====
-- The requests, results and records of internal/gateway/gateway.go, with what they take from
-- internal/driver/driver.go, internal/driver/registry.go, internal/audit/audit.go and
-- api/v1alpha1/backend_common.go. Fields that no modelled code reads are left out.
use sigillum.Common.{Bytes, ℤ, ℕ, Bool, Option, List}
use sigillum.Policy.Types.{MailPolicy, Labels, DenyReason}
use sigillum.RateLimit.{Limits, Reply}

-- Go's pair of a value and an error; the error is the text that `Error` gives.
pub data Fallible {ℓ} (A : Type ℓ) : Type ℓ where
  ok : A → Fallible A
  err : Bytes → Fallible A

pub record Address : Type 0 where
  pub name : Bytes
  pub address : Bytes

pub record Attachment : Type 0 where
  pub filename : Bytes
  pub content_type : Bytes
  pub disposition : Bytes
  pub content_id : Bytes
  pub content : Bytes

pub record Body : Type 0 where
  pub text : Bytes
  pub html : Bytes

pub record Message : Type 0 where
  pub message_id : Bytes
  pub from : Address
  pub to : List Address
  pub cc : List Address
  pub bcc : List Address
  pub subject : Bytes
  pub body : Body
  pub attachments : List Attachment
  pub headers : List (Bytes × Bytes)

-- How a caller authenticated: `AuthOAuthBearer`, `AuthPodIPLegacy`, `AuthSMTPCredential`, and the
-- empty string of a caller that did not.
pub data AuthMethod : Type 0 where
  oauth_bearer pod_ip_legacy smtp_credential unauthenticated : AuthMethod

pub record Identity : Type 0 where
  pub namespace : Bytes
  pub service_account : Bytes
  pub auth_method : AuthMethod
  pub pod_labels : Labels
  pub credential : Bytes
  pub credential_previous : Bool

pub data Transport : Type 0 where
  rest smtp : Transport

-- `raw` is `none` where Go has a nil slice.
pub record Request : Type 0 where
  pub identity : Identity
  pub transport : Transport
  pub message_id : Bytes
  pub message : Message
  pub raw : Option Bytes
  pub envelope_from : Bytes
  pub sender : Bytes
  pub reply_to : List Bytes
  pub size_bytes : ℕ

pub data Status : Type 0 where
  accepted denied rate_limited backend_not_ready upstream_error unavailable policy_invalid : Status

pub record Result : Type 0 where
  pub status : Status
  pub policy : Bytes
  pub backend : Bytes
  pub deny_reason : Option DenyReason
  pub detail : Bytes
  pub retry_after : ℕ
  pub permanent : Bool
  pub upstream_id : Bytes
  pub accepted_at : ℕ

pub data Verdict : Type 0 where
  accept reject : Verdict

-- One audit record. `decision` is `none` until the pipeline sets it; the stream, the time and the
-- cluster are added by the logger.
pub record Event : Type 0 where
  pub message_id : Bytes
  pub namespace : Bytes
  pub service_account : Bytes
  pub auth_method : AuthMethod
  pub credential : Bytes
  pub credential_previous : Bool
  pub transport : Transport
  pub from : Bytes
  pub to : List Bytes
  pub policy : Bytes
  pub backend : Bytes
  pub decision : Option Verdict
  pub reason : Bytes

pub record Endpoint : Type 0 where
  pub host : Bytes
  pub port : ℤ
  pub tls : Bytes
  pub insecure_skip_verify : Bool

pub record EndpointStatus : Type 0 where
  pub host : Bytes
  pub port : ℤ
  pub ready : Bool

-- metav1.Condition.
pub record Condition : Type 0 where
  pub type : Bytes
  pub status : Bytes

pub record BackendStatus : Type 0 where
  pub endpoint_status : List EndpointStatus
  pub conditions : List Condition

-- `allowed_senders` is `none` where Go has a nil slice. `settings` stands for the blocks of the
-- backend's type (SMTP, MicrosoftGraph), which only the config resolver reads.
pub record BackendSpec : Type 0 where
  pub settings : Bytes
  pub allowed_senders : Option (List Bytes)

-- MailBackend and, with an empty namespace, ClusterMailBackend.
pub record MailBackend : Type 0 where
  pub namespace : Bytes
  pub name : Bytes
  pub uid : Bytes
  pub generation : ℕ
  pub spec : BackendSpec
  pub status : BackendStatus

-- A driver's config: the SMTP block's endpoints, if it has one, and the rest.
pub record Config : Type 0 where
  pub settings : Bytes
  pub smtp_endpoints : Option (List Endpoint)

-- An error of a driver, by what the pipeline asks of it: `errors.Is` of the two sentinels, the
-- delay that `WithRetryAfter` attached, and the text.
pub record SendError : Type 0 where
  pub recipient_not_in_envelope : Bool
  pub permanent : Bool
  pub after : Option ℕ
  pub text : Bytes

pub record SendResult : Type 0 where
  pub upstream_id : Bytes
  pub accepted_at : ℕ

pub data Sent : Type 0 where
  delivered : SendResult → Sent
  failed : SendError → Sent

-- A driver: `send_raw` is `none` for one that is no RawSender.
pub record Driver : Type 0 where
  pub send : Message → Sent
  pub send_raw : Option (Bytes → List Bytes → Bytes → Sent)

-- What a driver was asked to do.
pub data Delivery : Type 0 where
  message : Message → Delivery
  relay : (from : Bytes) (to : List Bytes) (raw : Bytes) → Delivery

-- What the pipeline calls and is modelled elsewhere or not at all: the Kubernetes reader, the
-- admission rules of internal/webhook (the text of the error, if any), the config resolver of
-- internal/controller, the driver registry, and Go's %q.
pub record Services : Type 0 where
  pub list_in_namespace : Bytes → List MailPolicy
  pub get_service_account : Bytes → Bytes → Option Labels
  pub get_mail_backend : Bytes → Bytes → Fallible MailBackend
  pub get_cluster_mail_backend : Bytes → Fallible MailBackend
  pub validate_mail_policy : MailPolicy → Option Bytes
  pub validate_backend : MailBackend → Option Bytes
  pub resolve_backend_config : Bytes → BackendSpec → Bytes → Fallible Config
  pub new_driver : Config → Fallible Driver
  pub quote : Bytes → Bytes

-- `ratelimit.Limiter`: a reply of `none` stands for an error. That of `refund` is only logged.
pub record LimiterOps (S : Type 0) : Type 0 where
  pub allow : ℕ → Bytes → Limits → S → S × Option Reply
  pub refund : Bytes → S → S
