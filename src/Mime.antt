-- ===== src/Mime.antt =====
-- `lineBreakWriter` of internal/driver/smtp/mime.go, which wraps base64 text. The underlying writer
-- is taken to accept every write; what it was given is the result.
pub mod Wrapping
pub mod QuotedPrintable
pub mod Folding
pub mod Disposition
pub mod Message
pub mod Samples
mod Tests
use sigillum.Common.{Bytes, ℕ, suc, ◌+◌, Bool, true, false, List, [], ◌∷◌, ◌++◌, leb, if◌then◌else◌}

abbrev pub crlf : Bytes
crlf = 13 ∷ 10 ∷ []

-- The loop of one `Write`, byte by byte: `room <= 0` is `every <= col`. The column is that of the
-- writer's copy.
unfoldable pub write_from : (every col : ℕ) → Bytes → Bytes
write_from every col [] = []
write_from every col (c ∷ p) =
    let wrapped = write_from every 1 p in
    let same = write_from every (suc col) p in
    if leb every col then crlf ++ c ∷ wrapped else c ∷ same

-- Successive calls of `Write`. The method has a value receiver, so that every call begins with the
-- column of the writer that was built, 0.
unfoldable pub write_all : ℕ → List Bytes → Bytes
write_all every [] = []
write_all every (p ∷ ps) = write_from every 0 p ++ write_all every ps
