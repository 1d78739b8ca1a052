-- ===== src/SmtpProxy/Tests.antt =====
-- Runs of the SMTP proxy's functions, and their theorems at concrete inputs.
use sigillum.Common.{
  ℕ, Option, ◌+◌, ◌≤◌, ◌<◌, arith, bytes_eq, bytes_eq_refl, if◌then◌else◌, ap, cut_last, has_prefix,
  Bytes, Bool, true, false, ◌≡◌, ◌≢◌, ◌↔◌, refl, List, [], ◌∷◌, ◌++◌, none, some, codes,
}
use sigillum.Policy.Samples.{ascii}
use sigillum.RateLimit.{Limiter}
use sigillum.Gateway.Types.{ok, Identity, smtp_credential}
use sigillum.Gateway.Memory.{memory}
use sigillum.Gateway.Samples.{up, start, now}
use sigillum.Gateway.Send.{State, send, reject_request}
use sigillum.Credential.{Lookup, valid}
use sigillum.SmtpProxy.Session.{
  Calls, Surroundings, complete, Login, Session, new_session, receive_data,
}
use sigillum.SmtpProxy.Session.Submitted.{Handled, receive_data-Handled}
use sigillum.SmtpProxy.Session.Audited.{Audited, on_gateway, receive_data-Audited}
use sigillum.SmtpProxy.Session.Revoked.{
  Command, mail_from, data_end, rset, IsRevoked, run, run-IsRevoked,
}
use sigillum.Policy.Address.{
  validate_domain, validate_mailbox, split, validate_labels, validate_label, validate_local,
  validate_local_bytes, local_part_byte, has_double_dot,
}
use sigillum.SmtpProxy.Headers.{
  MailLib, count_text, at_signs, validate_address_header, check_mailboxes, address_field, no_resent,
  no_duplicates, parse_from, parse_sender, parse_reply_to, parse_message,
}
use sigillum.SmtpProxy.Headers.Checked.{Holds, IsChecked, parse_message-IsChecked}
use sigillum.Credential.Verifier.{Reader, hash_generated}
use sigillum.Credential.Samples.{lib as hash_lib, credential, reader_of}
use sigillum.SmtpProxy.Login.{HitsOps, FailureLimiter, AttemptTimes, throttled, begin}
use sigillum.SmtpProxy.Login.Throttled.{Keeps, Attempt, attempts-Bounded, InTurn}
use sigillum.SmtpProxy.Login.Throttled
use sigillum.RateLimit.Windows.{recent}
use sigillum.SmtpProxy.Bcc.{
  split_lines, header_end, before_colon, is_bcc_field, strip_lines, strip_bcc,
}

-- A parser that takes every message for one from news@example.com.
abbrev calls : Calls (State Limiter)
calls = record {
  send = send ascii up memory now;
  reject = reject_request;
  check_path = λ p. none;
  parse_message = λ raw id. ok (record {
    headers = record { from = codes "news@example.com"; sender = []; reply_to = [] };
    size = 10;
    added = [];
  });
  itoa = λ n. codes "1";
  max_line_length = 2000;
}

abbrev around : Lookup Bool → Surroundings
around found = record {
  message_id = codes "m1";
  still_valid = λ l. found;
  resolve_pod = none;
  tenant_slot = true;
  slot = true;
  reading = complete (codes "From: news@example.com");
  received = λ m. [];
}

abbrev login : Login
login = record {
  username = codes "u";
  namespace = codes "team";
  service_account = codes "app";
  previous = false;
}

abbrev caller : Identity
caller = record {
  namespace = codes "team";
  service_account = codes "app";
  auth_method = smtp_credential;
  pod_labels = [];
  credential = codes "u";
  credential_previous = false;
}

-- After a login, MAIL and RCPT.
abbrev ready : Session
ready = record {
  identity = some caller;
  cred = some login;
  from = codes "news@example.com";
  rcpts = codes "a@example.org" ∷ [];
  revoked = false;
  closing = false;
}

receive_data-Handled_example :
    Handled ascii calls
      (around (valid false))
      caller
      ready
      start
      (receive_data ascii calls (around (valid false)) ready start)
receive_data-Handled_example =
    receive_data-Handled ascii calls (around (valid false)) caller ready start refl refl

receive_data-Audited_example :
    Audited start
      (receive_data ascii (on_gateway ascii up memory now calls) (around (valid true)) ready start)
receive_data-Audited_example =
    receive_data-Audited ascii up memory now calls (around (valid true)) caller ready start refl
      refl

abbrev revoked : Session
revoked = record new_session { revoked = true }

abbrev attempts : List Command
attempts =
    mail_from (around (valid false)) (codes "news@example.com")
    ∷ rset
    ∷ data_end (around (valid false))
    ∷ []

run-IsRevoked_example :
    let (s', w') = run ascii calls attempts revoked start in IsRevoked s' × (w'.deliveries ≡ [])
run-IsRevoked_example =
    run-IsRevoked ascii calls (λ w. w.deliveries ≡ []) (λ ev reason w p. p) attempts revoked start
      (refl, refl) refl

stripping : Unit {0}
unfolding split_lines header_end before_colon is_bcc_field strip_lines strip_bcc
    sigillum.Common.bytes_eq
stripping = tt

abbrev end : Bytes
end = 13 ∷ 10 ∷ []

abbrev kept : Bytes
kept = codes "To: a" ++ end

abbrev body : Bytes
body = end ++ codes "Bcc: not a field" ++ end

abbrev letter : Bytes
letter = codes "bCC: x," ++ end ++ codes " y" ++ end ++ kept ++ body

bcc_removed : strip_bcc ascii letter ≡ kept ++ body
unfolding stripping
bcc_removed = refl

-- A library that finds one From address in every message.
abbrev lib : MailLib
lib = record {
  read_message = λ raw. ok ((codes "From", codes "news@example.com" ∷ []) ∷ []);
  address_list = λ h k. ok (codes "news@example.com" ∷ []);
  decode_header = λ s. ok s;
  parse_address = λ s. ok ([], s);
  describe = λ a e. [];
}

reading : Unit {0}
unfolding stripping parse_message no_resent no_duplicates parse_from parse_sender parse_reply_to
    address_field validate_address_header check_mailboxes at_signs count_text
    sigillum.Common.has_prefix sigillum.Common.cut_last validate_mailbox validate_domain
    validate_labels validate_label validate_local validate_local_bytes local_part_byte
    has_double_dot split
reading = tt

message_accepted :
    parse_message lib letter
    ≡ ok (
      (codes "From", codes "news@example.com" ∷ []) ∷ [],
      record { from = codes "news@example.com"; sender = []; reply_to = [] },
    )
unfolding reading
message_accepted = refl

parse_message-IsChecked_example :
    Holds (λ (h, hdr). IsChecked lib letter h hdr) (parse_message lib letter)
parse_message-IsChecked_example = parse_message-IsChecked lib letter

-- A cache without a bound.
abbrev hits : HitsOps (Bytes → Option (List ℕ))
hits = record {
  get = λ k h. (h k, h);
  add = λ k v h j. if bytes_eq j k then some v else h j;
  remove = λ k h j. if bytes_eq j k then none else h j;
}

hits-Keeps : Keeps hits
hits-Keeps = record {
  get_again = λ k h. refl;
  get_added = λ k v h. rw (bytes_eq_refl k) refl;
  get_removed = λ k h. rw (bytes_eq_refl k) refl;
}

abbrev twice : FailureLimiter
twice = record { window = 10; per_user_ip = 2 }

-- Two wrong passwords, and an attempt that is refused.
abbrev guesses : List Attempt
guesses =
    record { begun = 1; ended = 2; failed = true }
    ∷ record { begun = 2; ended = 3; failed = true }
    ∷ record { begun = 4; ended = 5; failed = true }
    ∷ []

attempts-Bounded_example :
    let (h, log) = Throttled.attempts hits hits-Keeps twice (codes "k") guesses ((λ j. none), []) in
    (recent 6 10 log ≤ 2)
    × (((begin hits twice true 6 (codes "k") h).0 ≡ throttled) ↔ (2 ≤ recent 6 10 log))
attempts-Bounded_example =
    attempts-Bounded hits hits-Keeps twice (codes "k") (λ j. none) guesses 6 (omega arith) refl
      (
        omega arith,
        omega arith,
        (omega arith, omega arith, (omega arith, omega arith, omega arith)),
      )

abbrev times : AttemptTimes
times = record { begun = 1; checked = 2; ended = 3; turn = true; slot = true }

abbrev issued : Reader
issued = reader_of (credential [] (some (hash_generated hash_lib (codes "secret"))) none)
