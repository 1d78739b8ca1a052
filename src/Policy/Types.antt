-- ===== src/Policy/Types.antt =====
-- api/v1alpha1/mailpolicy_types.go and the inputs of internal/policy/engine.go.
-- A pointer field is an `Option`, a slice a list, a map the list of its entries. Fields that no
-- modelled code reads (TypeMeta, the informational namespace of a ServiceAccount subject, status)
-- are left out.
use sigillum.Common.{Bytes, ℤ, ℕ, Bool, Option, List}

-- metav1.LabelSelectorRequirement.
pub record Requirement : Type 0 where
  pub key : Bytes
  pub operator : Bytes
  pub values : List Bytes

pub record LabelSelector : Type 0 where
  pub match_labels : List (Bytes × Bytes)
  pub match_expressions : List Requirement

abbrev pub Labels : Type 0
Labels = List (Bytes × Bytes)

pub record PolicySubject : Type 0 where
  pub service_account : Option Bytes
  pub service_account_selector : Option LabelSelector
  pub pod_selector : Option LabelSelector

pub record RecipientRestrictions : Type 0 where
  pub allowed_domains : List Bytes
  pub allowed_recipients : List Bytes
  pub blocked_domains : List Bytes

pub record RateLimitsSpec : Type 0 where
  pub messages_per_minute : ℤ
  pub messages_per_hour : ℤ
  pub messages_per_day : ℤ

pub record MessageLimitsSpec : Type 0 where
  pub max_size_bytes : ℤ
  pub max_recipients : ℤ

pub record BackendRef : Type 0 where
  pub name : Bytes
  pub kind : Bytes

pub record MailPolicySpec : Type 0 where
  pub priority : ℤ
  pub subjects : List PolicySubject
  pub backend_ref : BackendRef
  -- SenderRestrictions has the one field AllowedSenders.
  pub sender_restrictions : Option (List Bytes)
  pub recipient_restrictions : Option RecipientRestrictions
  pub rate_limits : Option RateLimitsSpec
  pub message_limits : Option MessageLimitsSpec
  -- LegacyAuthSpec has the one field PodIPFallback.
  pub legacy_auth : Option Bool

pub record MailPolicy : Type 0 where
  pub namespace : Bytes
  pub name : Bytes
  pub uid : Bytes
  pub generation : ℕ
  pub spec : MailPolicySpec

pub record Caller : Type 0 where
  pub namespace : Bytes
  pub service_account : Bytes
  pub sa_labels : Labels
  pub sa_labels_known : Bool
  pub legacy_pod_ip : Bool
  pub pod_labels : Labels

pub record MessageView : Type 0 where
  pub from : Bytes
  pub envelope_from : Bytes
  pub sender : Bytes
  pub recipients : List Bytes
  pub reply_to : List Bytes
  pub size_bytes : ℕ

pub data DenyReason : Type 0 where
  no_policy sender_not_allowed recipient_blocked message_too_large too_many_recipients : DenyReason

-- `deny_reason` is `none` where Go leaves the empty string.
pub record Decision : Type 0 where
  pub allowed : Bool
  pub policy : Option MailPolicy
  pub deny_reason : Option DenyReason
  pub deny_detail : Bytes

-- What the engine calls and this repository does not hold: Go's functions on Unicode text and
-- `path.Match`, and the label selectors of k8s.io/apimachinery. `labels_match` is `none` where
-- `LabelSelectorAsSelector` returns an error; `path_match` is false where `Match` returns one.
pub record Platform : Type 0 where
  pub to_lower : Bytes → Bytes
  pub trim_space : Bytes → Bytes
  pub equal_fold : Bytes → Bytes → Bool
  pub path_match : Bytes → Bytes → Bool
  pub labels_match : LabelSelector → Labels → Option Bool
