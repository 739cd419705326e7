-- ===== src/Lexer/Names.antt =====
-- Names, keywords, variables, blank node labels and language tags (src/sparql-parser/Lexer.cpp).
use mathlib.Core.List.{reverse}
use sql2rdf.Base.{
  ℕ, zero, suc, Bool, not, ◌&&◌, ◌||◌, [], ◌∷◌, ◌++◌, if◌then◌else◌, ◌==◌, is_empty, length, Bytes,
  codes, contains, equal,
}
use sql2rdf.Percent.{is_hex_digit}
use sql2rdf.Catalog.{to_upper}
use sql2rdf.Lexer.Cursor.{
  Cursor, Lexed, ok, ◌>>=◌, byte_at, peek, step, advance, advance_by, step_back, error, consume,
}
use sql2rdf.Lexer.Token.{TokenType, Token, make_token}
use sql2rdf.Lexer.Scan.{
  is_alpha, is_digit, is_alnum, is_name_start_char, is_name_char, is_var_name_char,
}

-- `allowed` of `lexPercentOrLocalEscape`.
unfoldable pub local_escapes : Bytes
local_escapes = codes "_~.-!$&'()*+,;=/?#@%"

unfoldable pub lex_percent_or_local_escape : Cursor → Lexed (Bytes × Cursor)
unfolding advance error contains local_escapes is_hex_digit
lex_percent_or_local_escape cur =
    let first = advance cur in
    let second = advance first in
    if peek cur 0 == b'%'
    then (if not (is_hex_digit (peek first 0))
        then error (codes "invalid %-escape in local name") first
        else if not (is_hex_digit (peek second 0))
        then error (codes "invalid %-escape in local name") second
        else ok (b'%' ∷ peek first 0 ∷ peek second 0 ∷ [], advance second))
    else if peek cur 0 == b'\\'
    then (if contains local_escapes (peek first 0)
        then ok (peek first 0 ∷ [], second)
        else error (codes "invalid escape in local name") first)
    else ok ([], cur)

-- The main loop of `lexPnLocal`.
unfoldable pub pn_local_loop : Bytes → ℕ → Cursor → Bytes → Lexed (Bytes × Cursor)
unfolding lex_percent_or_local_escape
pn_local_loop [] skip cur out = ok (out, cur)
pn_local_loop (c ∷ s) (suc skip) cur out = pn_local_loop s skip cur out
pn_local_loop (c ∷ s) zero cur out =
    let plain = pn_local_loop s 0 (step c s cur) (out ++ c ∷ []) in
    let escape : Lexed (Bytes × Cursor) = (do
      (text, next) ← lex_percent_or_local_escape cur
      pn_local_loop s (if c == b'%' then 2 else 1) next (out ++ text)) in
    if c == b'%' || c == b'\\'
    then escape
    else if is_name_char c || (c == b':' || c == b'.')
    then plain
    else ok (out, cur)

-- The last loop, on the reversed text.
unfoldable pub trim_dots : Bytes → Cursor → Bytes × Cursor
unfolding step_back
trim_dots [] cur = ([], cur)
trim_dots (c ∷ out) cur =
    let shorter = trim_dots out (step_back cur) in
    if c == b'.' then shorter else (reverse (c ∷ out), cur)

unfoldable pub trimmed : Bytes × Cursor → Bytes × Cursor
trimmed (out, cur) = trim_dots (reverse out) cur

unfoldable pub lex_pn_local : Cursor → Lexed (Bytes × Cursor)
unfolding lex_percent_or_local_escape pn_local_loop trim_dots trimmed advance
lex_pn_local cur =
    let c = peek cur 0 in
    if c == b'%' || c == b'\\'
    then (do
      (text, next) ← lex_percent_or_local_escape cur
      result ← pn_local_loop next.rest 0 next text
      ok (trimmed result))
    else if is_name_start_char c || (c == b':' || is_digit c)
    then (do
      result ← pn_local_loop (advance cur).rest 0 (advance cur) (c ∷ [])
      ok (trimmed result))
    else ok ([], cur)

-- `isNameChar(peek()) || (peek() == '.' && isNameChar(peek(1)))`.
abbrev pub continues_name : Bytes → Bool
continues_name s = is_name_char (byte_at s 0) || (byte_at s 0 == b'.' && is_name_char (byte_at s 1))

unfoldable pub upper : Bytes → Bytes
unfolding to_upper
upper [] = []
upper (c ∷ s) = to_upper c ∷ upper s

unfoldable pub pname_token : Bytes → Bytes → ℕ → ℕ → Token
pname_token prefix local line column =
    if is_empty local
    then make_token TokenType.pname_ns (prefix ++ b':' ∷ []) line column
    else make_token TokenType.pname_ln (prefix ++ (b':' ∷ local)) line column

unfoldable pub word_token : Bytes → ℕ → ℕ → Token
unfolding equal upper
word_token word line column =
    if equal word (codes "a")
    then make_token TokenType.a (codes "a") line column
    else record (make_token TokenType.keyword word line column) { keyword = upper word }

unfoldable pub lex_prefixed_name_or_keyword : Cursor → Lexed (Token × Cursor)
unfolding consume lex_pn_local advance pname_token word_token
lex_prefixed_name_or_keyword cur =
    let (prefix, end) = consume continues_name cur in
    if peek end 0 == b':'
    then (do
      (local, last) ← lex_pn_local (advance end)
      ok (pname_token prefix local cur.line cur.column, last))
    else ok (word_token prefix cur.line cur.column, end)

unfoldable pub lex_var : Cursor → Lexed (Token × Cursor)
unfolding consume advance error
lex_var cur =
    let type = if peek cur 0 == b'?' then TokenType.var1 else TokenType.var2 in
    let name_start = advance cur in
    let c = peek name_start 0 in
    let (name, end) = consume (λ s. is_var_name_char (byte_at s 0)) (advance name_start) in
    if not (is_name_start_char c) && not (is_digit c)
    then error (codes "expected variable name after '?'/'$'") name_start
    else ok (make_token type (c ∷ name) cur.line cur.column, end)

unfoldable pub lex_blank_node_label : Cursor → Lexed (Token × Cursor)
unfolding consume advance advance_by error
lex_blank_node_label cur =
    let label_start = advance_by 2 cur in
    let c = peek label_start 0 in
    let (label, end) = consume continues_name (advance label_start) in
    if not (is_name_start_char c) && not (is_digit c)
    then error (codes "expected blank node label after '_:'") label_start
    else ok (make_token TokenType.blank_node_label (c ∷ label) cur.line cur.column, end)

-- The loop over the subtags behind a `-`.
unfoldable pub lang_tag_loop : Bytes → ℕ → Cursor → Bytes → Lexed (Bytes × Cursor)
unfolding consume error
lang_tag_loop [] skip cur tag = ok (tag, cur)
lang_tag_loop (c ∷ s) (suc skip) cur tag = lang_tag_loop s skip cur tag
lang_tag_loop (c ∷ s) zero cur tag =
    let (text, end) = consume (λ r. is_alnum (byte_at r 0)) (step c s cur) in
    let rest = lang_tag_loop s (length text) end (tag ++ (c ∷ text)) in
    if c == b'-'
    then (if not (is_alnum (byte_at s 0))
        then error (codes "invalid language tag") (step c s cur)
        else rest)
    else ok (tag, cur)

unfoldable pub lex_lang_tag_or_caret : Cursor → Lexed (Token × Cursor)
unfolding consume lang_tag_loop advance error
lex_lang_tag_or_caret cur =
    let tag_start = advance cur in
    let (primary, end) = consume (λ s. is_alpha (byte_at s 0)) tag_start in
    if not (is_alpha (peek tag_start 0))
    then error (codes "expected language tag after '@'") tag_start
    else (do
      (tag, last) ← lang_tag_loop end.rest 0 end primary
      ok (make_token TokenType.lang_tag tag cur.line cur.column, last))
