-- ===== src/Core/Printer.antt =====
-- `JsonDoc::dumpStr` (src/core/json-doc.cc): a string as JSON text.
pub mod Escapes
use residue.Prelude.{ℕ, ◌+◌, [], ◌∷◌, ◌++◌, ◌==◌, if◌then◌else◌, Text}

-- One byte, in the cases of the `switch`: \b, \f, \n, \r, \t, the backslash and the quote.
unfoldable pub escape : ℕ → Text
escape c =
    if c == 8
    then b'\\' ∷ b'b' ∷ []
    else if c == 12
    then b'\\' ∷ b'f' ∷ []
    else if c == 10
    then b'\\' ∷ b'n' ∷ []
    else if c == 13
    then b'\\' ∷ b'r' ∷ []
    else if c == 9
    then b'\\' ∷ b't' ∷ []
    else if c == 92
    then b'\\' ∷ b'\\' ∷ []
    else if c == 34
    then b'\\' ∷ b'"' ∷ []
    else c ∷ []

-- The loop, up to the null byte at the end of the string.
unfoldable pub dump_body : Text → Text
unfolding escape
dump_body [] = []
dump_body (c ∷ cs) = if c == 0 then [] else escape c ++ dump_body cs

unfoldable pub dump_str : Text → Text
unfolding dump_body
dump_str s = b'"' ∷ (dump_body s ++ b'"' ∷ [])
