-- ===== src/Lexer/Escapes/RoundTrip.antt =====
-- Code points that are written as escapes, in front of the tokenizer (src/sparql-parser/Lexer.cpp).
use sql2rdf.Base.{ℕ, zero, suc, ◌*◌, ◌/◌, ◌%◌, Bool, true, false, [], ◌∷◌, ◌++◌, Bytes}
use sql2rdf.Percent.{hex_digit}

-- A number in so many hexadecimal digits.
unfoldable pub hex_digits : ℕ → ℕ → Bytes
hex_digits zero k = []
hex_digits (suc n) k = hex_digits n (k / 16) ++ hex_digit (k % 16) ∷ []

-- The numbers below this one have so many digits.
unfoldable pub hex_bound : ℕ → ℕ
hex_bound zero = 1
hex_bound (suc n) = hex_bound n * 16

-- How many digits an escape of the short and of the long form has.
abbrev pub width : Bool → ℕ
width false = 4
width true = 8

abbrev letter : Bool → ℕ
letter false = b'u'
letter true = b'U'

-- A code point as an escape, of the long form or the short one.
unfoldable pub codepoint_escape : Bool → ℕ → Bytes
unfolding hex_digits
codepoint_escape long k = b'\\' ∷ letter long ∷ hex_digits (width long) k
