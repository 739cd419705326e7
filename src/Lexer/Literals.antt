-- ===== src/Lexer/Literals.antt =====
-- Numbers and strings (src/sparql-parser/Lexer.cpp).
use sql2rdf.Base.{
  ℕ, zero, suc, Bool, true, false, not, ◌&&◌, ◌||◌, [], ◌∷◌, ◌++◌, Option, none, some,
  if◌then◌else◌, ◌==◌, is_empty, Bytes, codes,
}
use sql2rdf.Lexer.Cursor.{
  Cursor, Lexed, ok, ◌>>=◌, byte_at, peek, step, advance, advance_by, error, consume,
}
use sql2rdf.Lexer.Token.{TokenType, Token, make_token}
use sql2rdf.Lexer.Scan.{is_digit}

abbrev pub digit_next : Bytes → Bool
digit_next s = is_digit (byte_at s 0)

-- The part behind the integer digits: the text so far, whether there is a fraction, the cursor.
unfoldable pub lex_fraction : Bytes → Bool → Cursor → Lexed ((Bytes × Bool) × Cursor)
unfolding consume advance error
lex_fraction text saw_digits cur =
    let dot = peek cur 0 == b'.' in
    let (digits, end) = consume digit_next (advance cur) in
    if dot && is_digit (peek cur 1)
    then ok ((text ++ (b'.' ∷ digits), true), end)
    else if dot && not saw_digits
    then error (codes "invalid numeric literal") cur
    else ok ((text, false), cur)

-- The part behind the fraction.
unfoldable pub lex_exponent : Bytes → Cursor → Lexed ((Bytes × Bool) × Cursor)
unfolding consume advance error
lex_exponent text cur =
    let marker = peek cur 0 in
    let behind = advance cur in
    let sign = peek behind 0 in
    let signed = sign == b'+' || sign == b'-' in
    let digits_start = if signed then advance behind else behind in
    let (digits, end) = consume digit_next digits_start in
    let head = if signed then marker ∷ sign ∷ [] else marker ∷ [] in
    if marker == b'e' || marker == b'E'
    then (if not (is_digit (peek digits_start 0))
        then error (codes "invalid exponent in numeric literal") digits_start
        else ok ((text ++ (head ++ digits), true), end))
    else ok ((text, false), cur)

abbrev number_type : Bool → Bool → TokenType
number_type is_double is_decimal =
    if is_double
    then TokenType.double
    else if is_decimal
    then TokenType.decimal
    else TokenType.integer

-- `lexNumber` behind the integer digits.
unfoldable pub lex_number_tail : Bytes → Bool → ℕ → ℕ → Cursor → Lexed (Token × Cursor)
unfolding lex_fraction lex_exponent
lex_number_tail text saw_digits line column cur = do
  (fraction, point) ← lex_fraction text saw_digits cur
  (exponent, last) ← lex_exponent fraction.0 point
  ok (make_token (number_type exponent.1 fraction.1) exponent.0 line column, last)

unfoldable pub lex_number : Bool → Bool → Cursor → Lexed (Token × Cursor)
unfolding consume lex_number_tail
lex_number negative consumed_sign cur =
    let sign = if negative then b'-' ∷ [] else if consumed_sign then b'+' ∷ [] else [] in
    let (digits, end) = consume digit_next cur in
    lex_number_tail (sign ++ digits) (not (is_empty digits)) cur.line cur.column end

unfoldable pub lex_number_or_sign : Cursor → Lexed (Token × Cursor)
unfolding lex_number advance
lex_number_or_sign cur =
    if peek cur 0 == b'+' || peek cur 0 == b'-'
    then lex_number (peek cur 0 == b'-') true (advance cur)
    else lex_number false false cur

-- The switch over the byte behind a backslash.
unfoldable pub unescape : ℕ → Option ℕ
unescape e =
    if e == b't'
    then some 9
    else if e == b'n'
    then some 10
    else if e == b'r'
    then some 13
    else if e == b'b'
    then some 8
    else if e == b'f'
    then some 12
    else if e == b'"'
    then some b'"'
    else if e == b'\''
    then some b'\''
    else if e == b'\\'
    then some b'\\'
    else none

-- The run of quotes that ends a long string, or the quote that ends a short one.
abbrev pub closes : ℕ → Bool → Bytes → Bool
closes quote long_form s =
    if long_form
    then byte_at s 0 == quote
      && (byte_at s 1 == quote && (byte_at s 2 == quote && not (byte_at s 3 == quote)))
    else byte_at s 0 == quote

unfoldable pub string_loop : ℕ → Bool → Bytes → ℕ → Cursor → Bytes → Lexed (Bytes × Cursor)
unfolding advance advance_by unescape error
string_loop quote long_form [] skip cur value = error (codes "unterminated string literal") cur
string_loop quote long_form (c ∷ s) (suc skip) cur value =
    string_loop quote long_form s skip cur value
string_loop quote long_form (c ∷ s) zero cur value =
    let plain = string_loop quote long_form s 0 (step c s cur) (value ++ c ∷ []) in
    let behind = advance_by 2 cur in
    let escape : Lexed (Bytes × Cursor) = elim (unescape (byte_at s 0)) [
      | none ↦ error (codes "invalid escape sequence in string literal") behind
      | some e ↦ string_loop quote long_form s 1 behind (value ++ e ∷ [])
    ] in
    if c == 0
    then error (codes "unterminated string literal") cur
    else if closes quote long_form (c ∷ s)
    then ok (value, advance_by (if long_form then 3 else 1) cur)
    else if not long_form && (c == b'\n' || c == b'\r')
    then error (codes "unterminated string literal") cur
    else if c == b'\\'
    then escape
    else plain

unfoldable pub lex_string : Cursor → Lexed (Token × Cursor)
unfolding string_loop advance_by
lex_string cur =
    let quote = peek cur 0 in
    let long_form = peek cur 1 == quote && peek cur 2 == quote in
    let inside = advance_by (if long_form then 3 else 1) cur in
    do
      (value, end) ← string_loop quote long_form inside.rest 0 inside []
      ok (make_token TokenType.string_literal value cur.line cur.column, end)
