-- ===== src/Rest/Tests.antt =====
-- Runs of the REST server, and its theorems at concrete inputs.
use sigillum.Common.{◌≡◌, ◌↔◌, [], none, codes, All}
use sigillum.Policy.Samples.{ascii}
use sigillum.Gateway.Types.{Attachment, rate_limited}
use sigillum.Gateway.Samples.{up, now}
use sigillum.Gateway.Send.{blank}
use sigillum.Gateway.Memory.{memory}
use sigillum.SmtpProxy.Reply.{result_error}
use sigillum.Rest.Answers.{write_result}
use sigillum.Rest.Answers.Classes.{rest_outcome, smtp_outcome, write_result-result_error}
use sigillum.Rest.Checks.{validate_request_headers}
use sigillum.Rest.Checks.Sound.{IsSafe, Distinct, keys, validate_request_headers_iff}
use sigillum.Rest.Handler.{post_message}
use sigillum.Rest.Handler.Audited.{Audited, post_message-Audited}
use sigillum.Rest.Handler.Cleared.{Admitted, post_message-Admitted}
use sigillum.Rest.Samples.{lib, body, json_post, around, world}

post_message-Audited_example :
    Audited world (post_message ascii lib up memory now around json_post world)
post_message-Audited_example = post_message-Audited ascii lib up memory now around json_post world

post_message-Admitted_example :
    Admitted ascii lib up memory now around json_post world
      (post_message ascii lib up memory now around json_post world)
post_message-Admitted_example = post_message-Admitted ascii lib up memory now around json_post world

write_result-result_error_example :
    rest_outcome (write_result (codes "m1") (blank rate_limited))
    ≡ smtp_outcome (result_error (λ n. []) (blank rate_limited) (codes "m1"))
write_result-result_error_example =
    write_result-result_error (λ n. []) (codes "m1") (blank rate_limited)

validate_request_headers_iff_example :
    (validate_request_headers ascii lib body.headers ≡ none)
    ↔ (All (IsSafe lib) body.headers × Distinct (keys lib body.headers))
validate_request_headers_iff_example = validate_request_headers_iff ascii lib body.headers

abbrev report : Attachment
report = record {
  filename = codes "r.txt";
  content_type = codes "application/octet-stream";
  disposition = codes "inline";
  content_id = codes "r@x";
  content = codes "abc";
}
