-- ===== src/Lexer/Scan.antt =====
-- Classes of bytes, whitespace and comments, IRI references (src/sparql-parser/Lexer.cpp). The
-- functions of <cctype> are those of the C locale.
use sql2rdf.Base.{
  ℕ, Bool, true, false, ◌||◌, [], ◌∷◌, ◌++◌, if◌then◌else◌, ◌==◌, leb, within, Bytes, codes,
}
use sql2rdf.Lexer.Cursor.{Cursor, Lexed, ok, step, advance, error, ◌>>=◌}
use sql2rdf.Lexer.Token.{TokenType, Token, make_token}

abbrev pub is_alpha : ℕ → Bool
is_alpha c = within b'a' b'z' c || within b'A' b'Z' c

abbrev pub is_digit : ℕ → Bool
is_digit c = within b'0' b'9' c

abbrev pub is_alnum : ℕ → Bool
is_alnum c = is_alpha c || is_digit c

abbrev pub is_name_start_char : ℕ → Bool
is_name_start_char c = is_alpha c || (c == b'_' || leb 0x80 c)

abbrev pub is_name_char : ℕ → Bool
is_name_char c = is_name_start_char c || (is_digit c || (c == b'-' || c == 0xb7))

abbrev pub is_var_name_char : ℕ → Bool
is_var_name_char c = is_name_start_char c || (is_digit c || c == 0xb7)

abbrev pub is_space : ℕ → Bool
is_space c = c == b' ' || (c == b'\t' || (c == b'\r' || c == b'\n'))

-- Both loops of `skipWhitespaceAndComments`; the flag says that the inner one runs.
unfoldable pub skip_loop : Bool → Bytes → Cursor → Cursor
skip_loop in_comment [] cur = cur
skip_loop false (c ∷ s) cur =
    let space = skip_loop false s (step c s cur) in
    let comment = skip_loop true s (step c s cur) in
    if is_space c then space else if c == b'#' then comment else cur
skip_loop true (c ∷ s) cur =
    let outer = skip_loop false s (step c s cur) in
    let inner = skip_loop true s (step c s cur) in
    if c == 0 then cur else if c == b'\n' || c == b'\r' then outer else inner

unfoldable pub skip_whitespace_and_comments : Cursor → Cursor
unfolding skip_loop
skip_whitespace_and_comments cur = skip_loop false cur.rest cur

abbrev pub ends_iriref : ℕ → Bool
ends_iriref c =
    c == b'<'
    || (c == b'"'
        || (c == b'{' || (c == b'}' || (c == b'|' || (c == b'^' || (c == b'`' || leb c 0x20))))))

-- The loop of `looksLikeIriref`, behind the current byte.
unfoldable pub reaches_iri_end : Bytes → Bool
reaches_iri_end [] = false
reaches_iri_end (c ∷ s) =
    let rest = reaches_iri_end s in
    if c == b'>' then true else if ends_iriref c then false else rest

looks_like_iriref_in : Bytes → Bool
looks_like_iriref_in [] = false
looks_like_iriref_in (c ∷ s) = reaches_iri_end s

unfoldable pub looks_like_iriref : Cursor → Bool
unfolding reaches_iri_end looks_like_iriref_in
looks_like_iriref cur = looks_like_iriref_in cur.rest

unfoldable pub iriref_loop : Bytes → Cursor → Bytes → Lexed (Bytes × Cursor)
iriref_loop [] cur value = error (codes "unterminated IRIREF") cur
iriref_loop (c ∷ s) cur value =
    let rest = iriref_loop s (step c s cur) (value ++ c ∷ []) in
    if c == 0
    then error (codes "unterminated IRIREF") cur
    else if c == b'>'
    then ok (value, step c s cur)
    else if ends_iriref c
    then error (codes "invalid character in IRIREF") cur
    else rest

unfoldable pub lex_iriref : Cursor → Lexed (Token × Cursor)
unfolding iriref_loop advance error
lex_iriref cur =
    let inside = advance cur in
    do
      (value, end) ← iriref_loop inside.rest inside []
      ok (make_token TokenType.iriref value cur.line cur.column, end)
