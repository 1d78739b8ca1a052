-- ===== src/Mime/Samples.antt =====
-- A library and a message for the tests.
use sigillum.Common.{Bytes, [], ◌∷◌, codes}
use sigillum.Gateway.Types.{ok}
use sigillum.Mime.Message.{MimeLib, Entity, mixed, alternative, related}

abbrev boundary_of : Entity → Bytes
boundary_of mixed = codes "b0"
boundary_of alternative = codes "b1"
boundary_of related = codes "b2"

abbrev pub lib : MimeLib
lib = record {
  date = codes "Thu, 01 Jan 1970 00:00:00 +0000";
  random_id = codes "r";
  boundary = boundary_of;
  encode_q = λ s. s;
  encode_b = λ s. s;
  address_string = λ n a. a;
  encode_base64 = λ s. s;
  encoder_writes = λ s. s ∷ [];
  multipart = λ b ps. b;
  parse_media_type = λ s. ok (s, []);
  format_media_type = λ s ps. s;
  canonical_key = λ k. k;
  runes = λ s. s;
  rune_size = λ s. 1;
  quote = λ s. s;
}
