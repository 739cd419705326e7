-- ===== src/Parser/Literals.antt =====
-- Literals (src/sparql-parser/ParserGraphPatterns.cpp).
use Prim.Native.String.{String}
use sql2rdf.Base.{Bool, ◌&&◌, ◌||◌, [], Bytes, none, some, equal, codes, ◌++◌}
use sql2rdf.Lexer.Token.{TokenType, Token}
use sql2rdf.Ast.{RdfLiteral}
use sql2rdf.Parser.State.{
  Action, ◌>>=◌, ◌>>◌, pure, error, advance, check, check_keyword, if_current, current, expect,
}
use sql2rdf.Parser.Iris.{make_iri, parse_iri}

abbrev pub xsd : String → Bytes
xsd local = codes "http://www.w3.org/2001/XMLSchema#" ++ codes local

abbrev pub typed : Bytes → String → RdfLiteral
typed lexical_form local = record {
  lexical_form = lexical_form;
  language_tag = [];
  datatype = some (make_iri (xsd local) []);
}

-- `check(Caret) && current_.text == "^^"`.
unfoldable pub is_carets : Token → Bool
is_carets t = check TokenType.caret t && equal t.text (codes "^^")

unfoldable pub is_number : Token → Bool
is_number t = check TokenType.integer t || check TokenType.decimal t || check TokenType.double t

unfoldable pub is_boolean : Token → Bool
is_boolean t = check_keyword "TRUE" t || check_keyword "FALSE" t

unfoldable pub parse_rdf_literal : Action RdfLiteral
parse_rdf_literal = do
  str ← expect TokenType.string_literal "a string literal"
  if_current (check TokenType.lang_tag)
      (do
        tag ← current
        advance
        pure record { lexical_form = str.text; language_tag = tag.text; datatype = none })
      (if_current is_carets
        (do
          advance
          iri ← parse_iri
          pure record { lexical_form = str.text; language_tag = []; datatype = some iri })
        (pure record { lexical_form = str.text; language_tag = []; datatype = none }))

-- The datatype of a numeral's token.
abbrev pub number_datatype : TokenType → String
number_datatype TokenType.integer = "integer"
number_datatype TokenType.decimal = "decimal"
number_datatype _ = "double"

unfoldable pub parse_numeric_literal : Action RdfLiteral
parse_numeric_literal = do t ← current; advance; pure (typed t.text (number_datatype t.type))

unfoldable pub parse_boolean_literal : Action RdfLiteral
parse_boolean_literal =
    if_current (check_keyword "TRUE") (do advance; pure (typed (codes "true") "boolean"))
      (if_current (check_keyword "FALSE") (do advance; pure (typed (codes "false") "boolean"))
        (error (codes "expected 'true' or 'false'")))
