-- ===== src/Tests/Lexers.antt =====
-- The tokenizer on concrete sources: Lexer.cpp.
use sql2rdf.Base.{
  ◌++◌, false, suc, List, [], ◌∷◌, ◌++◌, Option, some, Bytes, codes, length, map, ◌≡◌, refl, arith,
}
use sql2rdf.Lexer.Cursor.{Cursor, start, Lexed, ok, out_of_range}
use sql2rdf.Lexer.Token.{Token, TokenType, make_token}
use sql2rdf.Lexer.Literals.{lex_string}
use sql2rdf.Lexer.Next.{next}
use sql2rdf.Lexer.Progress.Next.{NextGood, next-NextGood}
use sql2rdf.Lexer.Total.{all_tokens, all_tokens-total}
use sql2rdf.Lexer.Strings.RoundTrip.{spell, lex_string-spell}
use sql2rdf.Percent.{hex_digit}
use sql2rdf.Lexer.Escapes.RoundTrip.{codepoint_escape}
use sql2rdf.Lexer.Escapes.{
  append_utf8, preprocess_codepoint_escapes, decode_utf8, decode_utf8-append_utf8,
}
use sql2rdf.Lexer.Strings.Cut.{lex_string-out_of_range}

abbrev query : Bytes
query = codes "?s <=1 a:b.."

abbrev types : Option (Lexed (List Token)) → List TokenType
types (some (ok tokens)) = map (λ t. t.type) tokens
types _ = []

token_sorts :
    types (all_tokens 9 (start query))
    ≡ TokenType.var1 ∷ TokenType.less_equals ∷ TokenType.integer ∷ TokenType.pname_ln
      ∷ TokenType.dot ∷ TokenType.dot ∷ TokenType.eof ∷ []
unfolding all_tokens
token_sorts = refl

after_next : Lexed (Token × Cursor) → Bytes
after_next (ok (token, d)) = d.rest
after_next _ = codes "error"

iriref_or_less :
    types (all_tokens 9 (start (codes "<a><b c")))
    ≡ TokenType.iriref ∷ TokenType.less ∷ TokenType.keyword ∷ TokenType.keyword ∷ TokenType.eof ∷ []
unfolding all_tokens
iriref_or_less = refl

-- The escaped dot is trimmed like one that is not escaped, but its backslash is read again.
escaped_dot : after_next (next (start (codes "a:b\\."))) ≡ codes "."
unfolding next after_next
escaped_dot = refl

two_escaped_dots : after_next (next (start (codes "a:b\\.\\."))) ≡ codes "\\."
unfolding next after_next
two_escaped_dots = refl

next-NextGood_example : NextGood (start query) (next (start query))
next-NextGood_example = next-NextGood (start query)

all_tokens-total_example :
    (r : Lexed (List Token)) × (all_tokens (suc (length query)) (start query) ≡ some r)
all_tokens-total_example = all_tokens-total (suc (length query)) (start query) (omega arith)

abbrev text : Bytes
text = codes "a\"\n\\"

abbrev quoted : Cursor
quoted = start (b'"' ∷ (spell b'"' text ++ b'"' ∷ codes " ."))

lex_string-spell_example :
    (d : Cursor) × (lex_string quoted ≡ ok (make_token TokenType.string_literal text 1 1, d))
    × (d.rest ≡ codes " .")
lex_string-spell_example =
    lex_string-spell b'"' text (codes " .") quoted refl
      (λ h. cc, (λ h. cc, (λ h. cc, (λ h. cc, tt)))) refl refl

abbrev cut : Cursor
cut = start (b'"' ∷ (codes "ab" ++ b'\\' ∷ []))

lex_string-out_of_range_example : lex_string cut ≡ out_of_range
lex_string-out_of_range_example =
    lex_string-out_of_range b'"' (codes "ab") cut refl (refl, (refl, tt)) refl

abbrev escaped : Bytes
escaped = codes "\\u00e9 \\u12 \\U0001F600"

resolved :
    preprocess_codepoint_escapes escaped
    ≡ 0xc3 ∷ 0xa9 ∷ (codes " \\u12 " ++ 0xf0 ∷ 0x9f ∷ 0x98 ∷ 0x80 ∷ [])
unfolding preprocess_codepoint_escapes
resolved = refl

-- A surrogate is encoded like any other code point.
surrogate : preprocess_codepoint_escapes (codes "\\uD800") ≡ 0xed ∷ 0xa0 ∷ 0x80 ∷ []
unfolding preprocess_codepoint_escapes
surrogate = refl

escape_e9 : codepoint_escape false 0xe9 ≡ codes "\\u00E9"
unfolding codepoint_escape hex_digit
escape_e9 = refl

decode_utf8-append_utf8_example :
    decode_utf8 (append_utf8 0x1f600 ++ codes "a") ≡ some (0x1f600, codes "a")
decode_utf8-append_utf8_example = decode_utf8-append_utf8 0x1f600 (codes "a") (omega arith)
