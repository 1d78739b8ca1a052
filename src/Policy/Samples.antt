-- ===== src/Policy/Samples.antt =====
-- A small platform over ASCII text, and policies and messages for the tests.
use Prim.Native.String.{String}
use sigillum.Common.{
  Bytes, pos, ℕ, ◌+◌, Bool, true, false, ◌&&◌, ◌||◌, [], ◌∷◌, map, none, some, leb, ◌==◌,
  if◌then◌else◌, any, all, codes, bytes_eq,
}
use sigillum.Policy.Types.{Labels, MailPolicy, MailPolicySpec, Caller, MessageView, Platform}

abbrev lower_byte : ℕ → ℕ
lower_byte c = if leb b'A' c && leb c b'Z' then c + 32 else c

abbrev pub lower : Bytes → Bytes
lower s = map lower_byte s

unfoldable pub ends_in : Bytes → Bytes → Bool
ends_in s [] = bytes_eq s []
ends_in s (x ∷ a) = bytes_eq (x ∷ a) s || ends_in s a

-- '*' before literal text, or literal text alone.
abbrev pub glob : Bytes → Bytes → Bool
glob [] a = bytes_eq [] a
glob (c ∷ s) a = if c == b'*' then ends_in s a else bytes_eq (c ∷ s) a

abbrev has_label : Labels → Bytes × Bytes → Bool
has_label have (k, v) = any (λ l. bytes_eq l.0 k && bytes_eq l.1 v) have

abbrev pub ascii : Platform
ascii = record {
  to_lower = lower;
  trim_space = λ s. s;
  equal_fold = λ a b. bytes_eq (lower a) (lower b);
  path_match = glob;
  labels_match = λ sel have. some (all (has_label have) sel.match_labels);
}

abbrev pub no_restrictions : MailPolicySpec
no_restrictions = record {
  priority = pos 0;
  subjects =
      record {
        service_account = some (codes "app");
        service_account_selector = none;
        pod_selector = none;
      }
      ∷ [];
  backend_ref = record { name = codes "relay"; kind = [] };
  sender_restrictions = some (codes "*@example.com" ∷ []);
  recipient_restrictions = some (record {
    allowed_domains = codes "example.org" ∷ [];
    allowed_recipients = [];
    blocked_domains = codes "evil.example" ∷ [];
  });
  rate_limits = none;
  message_limits = some (record { max_size_bytes = pos 1000; max_recipients = pos 2 });
  legacy_auth = none;
}

abbrev pub policy : String → ℕ → MailPolicy
policy name priority = record {
  namespace = codes "team";
  name = codes name;
  uid = codes name;
  generation = 1;
  spec = record no_restrictions { priority = pos priority };
}

abbrev pub legacy_policy : MailPolicy
legacy_policy = record {
  namespace = codes "team";
  name = codes "legacy";
  uid = codes "legacy";
  generation = 1;
  spec = record no_restrictions { legacy_auth = some true };
}

abbrev pub app : Caller
app = record {
  namespace = codes "team";
  service_account = codes "app";
  sa_labels = [];
  sa_labels_known = false;
  legacy_pod_ip = false;
  pod_labels = [];
}

abbrev pub pod : Caller
pod = record app { legacy_pod_ip = true }

abbrev pub greeting : MessageView
greeting = record {
  from = codes "News@Example.com";
  envelope_from = codes "bounce@example.com";
  sender = [];
  recipients = codes "a.b@example.org" ∷ codes "c@EXAMPLE.org" ∷ [];
  reply_to = codes "d@example.org" ∷ [];
  size_bytes = 900;
}
