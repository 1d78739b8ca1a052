-- ===== src/Policy/Tests.antt =====
-- Runs of the policy engine, and its theorems at concrete inputs.
use sigillum.Common.{
  true, ◌≡◌, refl, ◌↔◌, List, [], ◌∷◌, none, some, arith, codes, cut_last, bytes_eq, bytes_lt,
}
use sigillum.Policy.Types.{MailPolicy}
use sigillum.Policy.Address.{
  validate_domain, validate_mailbox, split, validate_labels, validate_label, validate_local,
  validate_local_bytes, local_part_byte, has_double_dot,
}
use sigillum.Policy.Address.Sound.{IsMailbox, validate_mailbox_iff}
use sigillum.Policy.Match.{
  match, candidates, is_candidate, subject_matches, subject_admits, selector_matches, less, insert,
  stable_sort, needs_sa_labels,
}
use sigillum.Policy.Match.Best.{IsBest, match-IsBest}
use sigillum.Policy.Match.Identity.{match-legacy_opt_in, match-needs_sa_labels}
use sigillum.Policy.Evaluate.{
  evaluate, address_matches, glob_slash, check_limits, int32, check_senders, senders_allowed,
  first_refused, senders, sender_allowed, check_addresses, first_blocked, address_ok,
  recipient_allowed, restricted_allows, domain_of,
}
use sigillum.Policy.Evaluate.Permits.{Permits, evaluate-Permits}
use sigillum.Policy.Samples.{ascii, ends_in, policy, legacy_policy, app, pod, greeting}

-- What a run of the address checks unfolds.
addresses : Unit {0}
unfolding validate_mailbox validate_domain validate_labels validate_label validate_local
    validate_local_bytes local_part_byte has_double_dot split cut_last
addresses = tt

matching : Unit {0}
unfolding match candidates is_candidate subject_matches subject_admits selector_matches less insert
    stable_sort needs_sa_labels bytes_eq bytes_lt
matching = tt

evaluation : Unit {0}
unfolding addresses evaluate address_matches glob_slash check_limits int32 check_senders
    senders_allowed first_refused senders sender_allowed check_addresses first_blocked address_ok
    recipient_allowed restricted_allows domain_of ends_in bytes_eq
evaluation = tt

domain_accepted : validate_domain (codes "mx-1.example.org") ≡ none
unfolding addresses
domain_accepted = refl

mailbox_accepted : validate_mailbox (codes "a.b@example.org") ≡ none
unfolding addresses
mailbox_accepted = refl

abbrev policies : List MailPolicy
policies = policy "b" 1 ∷ policy "z" 7 ∷ policy "a" 7 ∷ legacy_policy ∷ []

match-policies : match ascii policies app ≡ some (policy "a" 7)
unfolding matching
match-policies = refl

match-pod : match ascii policies pod ≡ some legacy_policy
unfolding matching
match-pod = refl

greeting_allowed : (evaluate ascii (some (policy "a" 7)) greeting).allowed ≡ true
unfolding evaluation
greeting_allowed = refl

validate_mailbox_iff_example :
    (validate_mailbox (codes "a.b@example.org") ≡ none) ↔ IsMailbox (codes "a.b@example.org")
validate_mailbox_iff_example = validate_mailbox_iff (codes "a.b@example.org")

match-IsBest_example : IsBest ascii app policies (policy "a" 7)
match-IsBest_example = match-IsBest ascii policies app match-policies

match-legacy_opt_in_example : legacy_policy.spec.legacy_auth ≡ some true
match-legacy_opt_in_example = match-legacy_opt_in ascii pod policies refl match-pod

match-needs_sa_labels_example :
    match ascii policies
      (record app { sa_labels = (codes "a", codes "b") ∷ []; sa_labels_known = true })
    ≡ match ascii policies app
unfolding needs_sa_labels
match-needs_sa_labels_example =
    match-needs_sa_labels ascii policies app ((codes "a", codes "b") ∷ []) true refl

evaluate-Permits_example :
    ((evaluate ascii (some (policy "a" 7)) greeting).allowed ≡ true)
    ↔ Permits ascii (policy "a" 7) greeting
evaluate-Permits_example = evaluate-Permits ascii (policy "a" 7) greeting (omega arith)
