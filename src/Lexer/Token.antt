-- ===== src/Lexer/Token.antt =====
-- Tokens, include/sparql-parser/Token.h, and `makeToken` (src/sparql-parser/Lexer.cpp).
use sql2rdf.Base.{ℕ, Bytes, []}

pub data TokenType : Type 0 where
  iriref pname_ns pname_ln blank_node_label var1 var2 integer decimal double : TokenType
  string_literal lang_tag l_paren r_paren l_brace r_brace l_bracket r_bracket : TokenType
  dot comma semicolon pipe slash caret question star plus minus equals not_equals : TokenType
  less greater less_equals greater_equals bang and_and or_or nil anon a keyword eof : TokenType

pub record Token : Type 0 where
  pub type : TokenType
  pub text : Bytes
  pub keyword : Bytes
  pub line : ℕ
  pub column : ℕ

abbrev pub make_token : TokenType → Bytes → ℕ → ℕ → Token
make_token type text line column = record {
  type = type;
  text = text;
  keyword = [];
  line = line;
  column = column;
}
