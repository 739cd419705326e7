-- ===== src/Lexer/Next.antt =====
-- The next token, and all of them (src/sparql-parser/Lexer.cpp, `Lexer::next`).
use sql2rdf.Base.{ℕ, Bool, ◌&&◌, ◌||◌, [], ◌∷◌, ◌++◌, if◌then◌else◌, ◌==◌, Bytes, codes}
use sql2rdf.Lexer.Cursor.{Cursor, Lexed, ok, peek, advance, error}
use sql2rdf.Lexer.Token.{TokenType, Token, make_token}
use sql2rdf.Lexer.Scan.{
  is_digit, is_name_start_char, skip_whitespace_and_comments, looks_like_iriref, lex_iriref,
}
use sql2rdf.Lexer.Names.{
  lex_prefixed_name_or_keyword, lex_var, lex_blank_node_label, lex_lang_tag_or_caret,
}
use sql2rdf.Lexer.Literals.{lex_number_or_sign, lex_string}

-- `advance(); return makeToken(type, text, …);`
unfoldable pub single : TokenType → Bytes → Cursor → Lexed (Token × Cursor)
unfolding advance
single type text cur = ok (make_token type text cur.line cur.column, advance cur)

-- `advance(); if (match(second)) return makeToken(…); …`
unfoldable pub double :
    ℕ → TokenType → Bytes → Lexed (Token × Cursor) → Cursor → Lexed (Token × Cursor)
unfolding advance
double second type text otherwise cur =
    if peek (advance cur) 0 == second
    then ok (make_token type text cur.line cur.column, advance (advance cur))
    else otherwise

-- An opening bracket, and the token for it with its closing one, which may follow after a gap.
unfoldable pub bracketed :
    ℕ → TokenType → Bytes → TokenType → Bytes → Cursor → Lexed (Token × Cursor)
unfolding advance skip_whitespace_and_comments
bracketed close empty_type empty_text type text cur =
    let behind = skip_whitespace_and_comments (advance cur) in
    if peek behind 0 == close
    then ok (make_token empty_type empty_text cur.line cur.column, advance behind)
    else ok (make_token type text cur.line cur.column, advance cur)

-- The tests behind the switch.
unfoldable pub lex_default : ℕ → Cursor → Lexed (Token × Cursor)
unfolding lex_string lex_number_or_sign lex_prefixed_name_or_keyword error
lex_default c cur =
    if c == b'\'' || c == b'"'
    then lex_string cur
    else if is_digit c
    then lex_number_or_sign cur
    else if is_name_start_char c
    then lex_prefixed_name_or_keyword cur
    else error (codes "unexpected character '" ++ (c ∷ codes "'")) cur

-- The cases of the switch for operators that may have a second byte, and `@`, `:`.
unfoldable pub lex_operator : ℕ → Cursor → Lexed (Token × Cursor)
unfolding single double lex_lang_tag_or_caret lex_prefixed_name_or_keyword lex_default advance error
lex_operator c cur =
    if c == b'|'
    then double b'|' TokenType.or_or (codes "||") (single TokenType.pipe (codes "|") cur) cur
    else if c == b'^'
    then double b'^' TokenType.caret (codes "^^") (single TokenType.caret (codes "^") cur) cur
    else if c == b'!'
    then double b'=' TokenType.not_equals (codes "!=") (single TokenType.bang (codes "!") cur) cur
    else if c == b'>'
    then double b'=' TokenType.greater_equals (codes ">=")
        (single TokenType.greater (codes ">") cur) cur
    else if c == b'&'
    then double b'&' TokenType.and_and (codes "&&")
        (error (codes "unexpected character '&'") (advance cur)) cur
    else if c == b'@'
    then lex_lang_tag_or_caret cur
    else if c == b':'
    then lex_prefixed_name_or_keyword cur
    else lex_default c cur

-- The cases of the switch for single bytes.
unfoldable pub lex_punctuation : ℕ → Cursor → Lexed (Token × Cursor)
unfolding single lex_operator
lex_punctuation c cur =
    if c == b')'
    then single TokenType.r_paren (codes ")") cur
    else if c == b'{'
    then single TokenType.l_brace (codes "{") cur
    else if c == b'}'
    then single TokenType.r_brace (codes "}") cur
    else if c == b']'
    then single TokenType.r_bracket (codes "]") cur
    else if c == b','
    then single TokenType.comma (codes ",") cur
    else if c == b';'
    then single TokenType.semicolon (codes ";") cur
    else if c == b'/'
    then single TokenType.slash (codes "/") cur
    else if c == b'*'
    then single TokenType.star (codes "*") cur
    else if c == b'='
    then single TokenType.equals (codes "=") cur
    else lex_operator c cur

abbrev pub starts_number : Cursor → Bool
starts_number cur = is_digit (peek cur 1) || peek cur 1 == b'.'

-- `next()` behind the whitespace, at a byte that is not NUL.
unfoldable pub lex_at : ℕ → Cursor → Lexed (Token × Cursor)
unfolding single double bracketed lex_punctuation looks_like_iriref lex_iriref lex_var
    lex_blank_node_label lex_number_or_sign
lex_at c cur =
    if c == b'<'
    then (if looks_like_iriref cur
        then lex_iriref cur
        else double b'=' TokenType.less_equals (codes "<=") (single TokenType.less (codes "<") cur)
            cur)
    else if c == b'?'
    then (if is_name_start_char (peek cur 1) || is_digit (peek cur 1)
        then lex_var cur
        else single TokenType.question (codes "?") cur)
    else if c == b'$'
    then lex_var cur
    else if c == b'_' && peek cur 1 == b':'
    then lex_blank_node_label cur
    else if c == b'('
    then bracketed b')' TokenType.nil (codes "()") TokenType.l_paren (codes "(") cur
    else if c == b'['
    then bracketed b']' TokenType.anon (codes "[]") TokenType.l_bracket (codes "[") cur
    else if c == b'.'
    then (if is_digit (peek cur 1)
        then lex_number_or_sign cur
        else single TokenType.dot (codes ".") cur)
    else if c == b'+'
    then (if starts_number cur
        then lex_number_or_sign cur
        else single TokenType.plus (codes "+") cur)
    else if c == b'-'
    then (if starts_number cur
        then lex_number_or_sign cur
        else single TokenType.minus (codes "-") cur)
    else lex_punctuation c cur

unfoldable pub next : Cursor → Lexed (Token × Cursor)
unfolding skip_whitespace_and_comments lex_at
next cur =
    let gap = skip_whitespace_and_comments cur in
    if peek gap 0 == 0
    then ok (make_token TokenType.eof [] gap.line gap.column, gap)
    else lex_at (peek gap 0) gap
