-- ===== src/Percent.antt =====
-- Percent-encoding of template values, src/r2rml/AbstractMap.cpp (`percentEncode`), and its
-- inverse, src/sparql2sql/TemplateUtil.cpp (`percentDecode` with `isHexDigit` and `hexVal`).
pub mod RoundTrip
pub mod Alphabet
use sql2rdf.Base.{
  ℕ, zero, suc, ◌+◌, ◌-◌, ◌*◌, ◌/◌, ◌%◌, Bool, true, false, ◌&&◌, ◌||◌, List, [], ◌∷◌, ◌++◌, ltb,
  ◌==◌, within, if◌then◌else◌, Bytes, codes, contains,
}

-- The array `unreserved`, less its closing NUL.
unfoldable pub unreserved : Bytes
unreserved = codes "ABCDEFGHIJKLMNOPQRSTUVWXYZabcdefghijklmnopqrstuvwxyz0123456789-_.~"

-- `std::strchr(s, c) != nullptr`: the terminator of the array belongs to the text searched.
unfoldable pub strchr : Bytes → ℕ → Bool
unfolding contains
strchr s c = contains s c || c == 0

-- One digit of the conversion `%02X`.
unfoldable pub hex_digit : ℕ → ℕ
hex_digit n = if ltb n 10 then b'0' + n else b'A' + (n - 10)

-- What one round of the loop appends.
unfoldable pub encode_byte : ℕ → Bytes
encode_byte c =
    if strchr unreserved c then c ∷ [] else b'%' ∷ hex_digit (c / 16) ∷ hex_digit (c % 16) ∷ []

unfoldable pub percent_encode : Bytes → Bytes
percent_encode [] = []
percent_encode (c ∷ s) = encode_byte c ++ percent_encode s

unfoldable pub is_hex_digit : ℕ → Bool
is_hex_digit c = within b'0' b'9' c || within b'a' b'f' c || within b'A' b'F' c

unfoldable pub hex_val : ℕ → ℕ
hex_val c =
    if within b'0' b'9' c
    then c - b'0'
    else if within b'a' b'f' c
    then 10 + (c - b'a')
    else 10 + (c - b'A')

unfoldable pub percent_decode : Bytes → Bytes
percent_decode (c ∷ h ∷ l ∷ s) =
    let escape = (hex_val h * 16 + hex_val l) ∷ percent_decode s in
    let plain = c ∷ percent_decode (h ∷ l ∷ s) in
    if c == b'%' && (is_hex_digit h && is_hex_digit l) then escape else plain
percent_decode (c ∷ s) = c ∷ percent_decode s
percent_decode [] = []
