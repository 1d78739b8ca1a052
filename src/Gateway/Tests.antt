-- ===== src/Gateway/Tests.antt =====
-- Runs of the pipeline, and its theorems at concrete inputs.
use sigillum.Common.{
  Bytes, pos, ℕ, ◌+◌, ◌<◌, ◌^◌, false, ◌≡◌, refl, ◌⊎◌, List, [], ◌∷◌, Option, none, some, arith,
  length, codes, cut_last, bytes_eq, bytes_lt,
}
use sigillum.Policy.Address.{
  validate_domain, validate_mailbox, split, validate_labels, validate_label, validate_local,
  validate_local_bytes, local_part_byte, has_double_dot,
}
use sigillum.Policy.Match.{
  match, candidates, is_candidate, subject_matches, subject_admits, selector_matches, less, insert,
  stable_sort, needs_sa_labels,
}
use sigillum.Policy.Evaluate.{
  evaluate, address_matches, glob_slash, check_limits, int32, check_senders, senders_allowed,
  first_refused, senders, sender_allowed, check_addresses, first_blocked, address_ok,
  recipient_allowed, restricted_allows, domain_of,
}
use sigillum.Policy.Samples.{ascii, ends_in}
use sigillum.RateLimit.{
  second, Limits, new_memory_limiter, uncapped, keep, retain, since, later, swept_entry, sweep,
  ceil_to_second, wait_for, wait, live, trimmed, allow, refund,
}
use sigillum.RateLimit.Spec.{Log}
use sigillum.RateLimit.Tracks.{Tracks, new-Tracks}
use sigillum.Gateway.Types.{accepted, rate_limited, Endpoint, EndpointStatus}
use sigillum.Gateway.Samples.{letter, request, capped, up, down, start, now}
use sigillum.Gateway.Validity.{IsFaithful, check, cached, remember, check-IsFaithful}
use sigillum.Gateway.Endpoints.{is_unready, prefer_ready_endpoints}
use sigillum.Gateway.Backend.{
  first_ready, admit_backend, namespaced_backend, cluster_backend, backend_for_policy, open_driver,
}
use sigillum.Gateway.Send.{
  recipients, deliver, finish, charge_and_deliver, open_and_send, resolve_and_send, decide_and_send,
  caller, matched, send_matched, send, rate_limits,
}
use sigillum.Gateway.Send.Audit.{HasRecord, send-HasRecord}
use sigillum.Gateway.Send.Charge.{HasNet, send-Net}
use sigillum.Gateway.Send.Guards.{Idle, Asked, Cleared, send-Cleared}
use sigillum.Gateway.Send.Closed.{drivers_open-send}
use sigillum.Gateway.Memory.{memory, counted, send-Tracks}

limiter : Unit {0}
unfolding allow uncapped keep retain since later swept_entry sweep ceil_to_second wait_for wait live
    trimmed refund
limiter = tt

engine : Unit {0}
unfolding match candidates is_candidate subject_matches subject_admits selector_matches less insert
    stable_sort needs_sa_labels bytes_eq bytes_lt validate_mailbox validate_domain validate_labels
    validate_label validate_local validate_local_bytes local_part_byte has_double_dot split cut_last
    evaluate address_matches glob_slash check_limits int32 check_senders senders_allowed
    first_refused senders sender_allowed check_addresses first_blocked address_ok recipient_allowed
    restricted_allows domain_of ends_in
engine = tt

pipeline : Unit {0}
unfolding limiter engine check cached remember first_ready admit_backend namespaced_backend
    cluster_backend backend_for_policy open_driver recipients deliver finish charge_and_deliver
    open_and_send resolve_and_send decide_and_send caller send_matched send is_unready
    prefer_ready_endpoints
pipeline = tt

accepted_once : (send ascii up memory now request start).1.status ≡ accepted
unfolding pipeline
accepted_once = refl

limited_twice :
    (send ascii up memory
      (now + second)
      request
      (send ascii up memory now request start).0).1.status
    ≡ rate_limited
unfolding pipeline
limited_twice = refl

failure_refunded :
    (send ascii up memory
      (now + second)
      request
      (send ascii down memory now request start).0).1.status
    ≡ accepted
unfolding pipeline
failure_refunded = refl

matched-capped : matched ascii down memory now request ≡ some capped
unfolding pipeline
matched-capped = refl

send-HasRecord_example : HasRecord request [] (send ascii down memory now request start)
send-HasRecord_example = send-HasRecord ascii down memory now request start

send-Net_example :
    HasNet memory now capped new_memory_limiter (send ascii down memory now request start)
send-Net_example = send-Net ascii down memory now request capped start matched-capped

few : length (recipients letter) < 2 ^ 31
unfolding pipeline
few = omega arith

send-Cleared_example :
    let out = send ascii up memory now request start in
    Idle ascii up memory now request [] out
    ⊎ (Cleared ascii up memory now request start × Asked ascii up memory now request [] out)
send-Cleared_example = send-Cleared ascii up memory now request start few

abbrev limits : Bytes → Limits
limits k = rate_limits capped.spec.rate_limits

abbrev empty : Log
empty k = []

send-Tracks_example :
    let (s', r) = send ascii down memory now request start in
    Tracks limits now s'.limiter (counted limits now capped refl empty r.status r.permanent)
send-Tracks_example =
    send-Tracks limits now capped refl ascii down request 0 start empty matched-capped (omega arith)
      (new-Tracks limits 0)

abbrev rules : Bytes → ℕ → Option Bytes
rules uid gen = none

check-IsFaithful_example :
    ((check (codes "u") 3 none []).1 ≡ none) × IsFaithful rules (check (codes "u") 3 none []).0
check-IsFaithful_example = check-IsFaithful rules (codes "u") 3 [] tt

abbrev endpoint : Bytes → Endpoint
endpoint host = record {
  host = host;
  port = pos 587;
  tls = codes "tls";
  insecure_skip_verify = false;
}

abbrev both : List Endpoint
both = endpoint (codes "a") ∷ endpoint (codes "b") ∷ []

abbrev first_down : List EndpointStatus
first_down = record { host = codes "a"; port = pos 587; ready = false } ∷ []

second_first :
    prefer_ready_endpoints both first_down ≡ endpoint (codes "b") ∷ endpoint (codes "a") ∷ []
unfolding pipeline
second_first = refl

drivers_open-send_example : (send ascii up memory now request start).0.drivers_open ≡ 0
drivers_open-send_example = drivers_open-send ascii up memory now request start
