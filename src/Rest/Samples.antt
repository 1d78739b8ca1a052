-- ===== src/Rest/Samples.antt =====
-- A library, a request and its surroundings for the tests.
use sigillum.Common.{pos, true, false, [], ◌∷◌, none, some, codes}
use sigillum.Gateway.Types.{ok, err}
use sigillum.Gateway.Samples.{start}
use sigillum.RateLimit.{Limiter}
use sigillum.SmtpProxy.Headers.{MailLib}
use sigillum.Rest.Types.{
  RequestBody, empty_body, Part, Parts, end, part, value, HttpLib, HttpRequest,
}
use sigillum.Rest.Handler.{Surroundings, World, subject}

abbrev pub mail_lib : MailLib
mail_lib = record {
  read_message = λ raw. ok [];
  address_list = λ h k. ok [];
  decode_header = λ s. ok s;
  parse_address = λ s. ok ([], s);
  describe = λ a e. [];
}

abbrev pub body : RequestBody
body = record empty_body {
  from = codes "news@example.com";
  to = codes "a.b@example.org" ∷ [];
  body = record { text = codes "hi"; html = [] };
  headers = (codes "Sender", codes "news@example.com") ∷ [];
}

abbrev pub lib : HttpLib
lib = record {
  mail = mail_lib;
  parse_address_list = λ s. ok (([], s) ∷ []);
  parse_media_type = λ s. (s, none);
  canonical_key = λ k. k;
  decode_base64 = λ s. ok s;
  decode_keys = λ s. value (some (codes "from" ∷ [])) true;
  decode_body = λ s. value body true;
  runes = λ s. s;
  is_int = λ s. false;
  quote = λ s. s;
  hex = λ n. [];
  itoa = λ n. [];
}

abbrev pub file : Part
file = record {
  form_name = codes "report";
  file_name = codes "r.txt";
  content_type = [];
  content_id = codes "<r@x>";
  content = record { bytes = codes "abc"; fault = none };
}

abbrev pub form : Parts
form = part (record file { form_name = codes "data" }) (part file end)

abbrev pub json_post : HttpRequest
json_post = record {
  authorization = codes "Bearer t";
  content_type = codes "application/json";
  content_length = pos 2;
  body = record { bytes = codes "{}"; fault = none };
  multipart = err [];
}

abbrev pub around : Surroundings
around = record {
  middleware_id = codes "m0";
  message_id = codes "m1";
  shutting = false;
  review = λ t. subject (record { namespace = codes "team"; service_account = codes "app" });
  body_budget = some 100;
  acquired = true;
}

abbrev pub world : World Limiter
world = record { gateway = start; held = 0 }
