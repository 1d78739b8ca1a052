-- ===== src/Mime/Tests.antt =====
-- The theorems on the wrapping at concrete inputs.
use sigillum.Common.{
  Bytes, ◌≤◌, ◌<◌, true, ◌≡◌, refl, ap, List, [], ◌∷◌, some, arith, codes, length, join, All,
  bytes_eq,
}
use sigillum.Policy.Address.{split}
use sigillum.Policy.Samples.{ascii, lower}
use sigillum.Gateway.Types.{ok}
use sigillum.Gateway.Samples.{letter}
use sigillum.Mime.{write_from, write_all}
use sigillum.Mime.Wrapping.{LinesFit, write_all-unbroken}
use sigillum.Mime.QuotedPrintable.{encoded, write_quoted_printable}
use sigillum.Mime.QuotedPrintable.RoundTrip.{
  decoded, canonical, without_padding, write_quoted_printable-decoded,
}
use sigillum.Mime.Folding.{fold_header_line, fold_from, chunks, max_chunk}
use sigillum.Mime.Folding.Unfolded.{Folds, fold_header_line-Folds}
use sigillum.Mime.Folding.Chunks.{IsRuneSize, chunks_total}
use sigillum.Mime.Message.{
  Fields, contains_injection_chars, param, put, is_reserved_header, validate_header_key,
  add_headers, assemble_message,
}
use sigillum.Mime.Message.Hidden.{IsClean, add_headers-managed, assemble_message-hidden}
use sigillum.Mime.Samples.{lib}

abbrev some_text : Bytes
some_text = codes "QUJDREVG"

wrapped_at_four : write_from 4 0 some_text ≡ codes "QUJD\r\nREVG"
unfolding write_from
wrapped_at_four = refl

-- Two writes of eight bytes come out as a line of sixteen, where lines are to have ten at most.
write_all-unbroken_example : write_all 10 (some_text ∷ some_text ∷ []) ≡ codes "QUJDREVGQUJDREVG"
write_all-unbroken_example =
    write_all-unbroken 10 (some_text ∷ some_text ∷ []) (omega arith, (omega arith, tt))

abbrev sum_text : Bytes
sum_text = codes "1 = 1\nok"

write_quoted_printable_sum : write_quoted_printable 0 sum_text ≡ codes "1 =3D 1\r\nok"
unfolding write_quoted_printable encoded
write_quoted_printable_sum = refl

write_quoted_printable-decoded_example :
    (decoded (without_padding (write_quoted_printable 0 sum_text)) ≡ canonical sum_text)
    × LinesFit 76 0 (write_quoted_printable 0 sum_text)
write_quoted_printable-decoded_example =
    write_quoted_printable-decoded sum_text (omega arith) (ground arith)

folded_subject : fold_header_line (codes "Subject") (codes "a b") ≡ codes "Subject: a b\r\n"
unfolding fold_header_line fold_from split
folded_subject = refl

fold_header_line-Folds_example :
    Folds
      (codes "Subject")
      (codes "Subject: a b")
      (fold_header_line (codes "Subject") (codes "a b"))
fold_header_line-Folds_example = fold_header_line-Folds (codes "Subject") (codes "a b")

one_byte_runes : IsRuneSize (λ s. 1)
one_byte_runes c s = (omega arith, omega arith, omega arith)

chunks_total_example :
    (cs : List Bytes) × (chunks (λ s. 1) (length (codes "abc")) (codes "abc") ≡ some cs)
    × (join cs ≡ codes "abc")
    × All (λ c. (0 < length c) × (length c ≤ max_chunk)) cs
chunks_total_example = chunks_total (λ s. 1) one_byte_runes (codes "abc")

abbrev quoted_name : Bytes
quoted_name = codes "a\"b"

abbrev own_headers : Fields
own_headers = (codes "From", codes "x") ∷ (codes "X-Tag", codes "t") ∷ []

abbrev managed : Fields
managed = (codes "From", codes "news@example.com") ∷ []

abbrev with_own : Fields
with_own = (codes "From", codes "news@example.com") ∷ (codes "X-Tag", codes "t") ∷ []

added_headers : add_headers ascii lib own_headers managed ≡ ok with_own
unfolding add_headers is_reserved_header validate_header_key contains_injection_chars put bytes_eq
added_headers = refl

managed-IsClean : IsClean managed
unfolding contains_injection_chars
managed-IsClean = (refl, tt)

from_reserved : is_reserved_header ascii lib (codes "From") ≡ true
unfolding is_reserved_header bytes_eq
from_reserved = refl

add_headers-managed_example :
    (param (codes "From") with_own ≡ param (codes "From") managed) × IsClean with_own
add_headers-managed_example =
    add_headers-managed ascii lib own_headers managed with_own (codes "From") (λ a b e. ap lower e)
      managed-IsClean added_headers from_reserved

assemble_message-hidden_example :
    assemble_message ascii lib (record letter { bcc = [] }) (codes "h")
    ≡ assemble_message ascii lib letter (codes "h")
assemble_message-hidden_example =
    assemble_message-hidden ascii lib letter (codes "h") [] (omega arith) (omega arith)
