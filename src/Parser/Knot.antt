-- ===== src/Parser/Knot.antt =====
-- The recursion of the parser, and `parseString` (src/sparql-parser/Parser.cpp).
use sql2rdf.Base.{ℕ, zero, suc, [], length, Bytes}
use sql2rdf.Lexer.Cursor.{start}
use sql2rdf.Lexer.Token.{TokenType, make_token}
use sql2rdf.Lexer.Escapes.{preprocess_codepoint_escapes}
use sql2rdf.Ast.{Query}
use sql2rdf.Parser.State.{Parser, Outcome, ◌>>◌, advance, run_out}
use sql2rdf.Parser.Calls.{Calls}
use sql2rdf.Parser.Paths.{parse_path_alternative}
use sql2rdf.Parser.Operators.{parse_conditional_or_expression}
use sql2rdf.Parser.Triples.{parse_graph_node}
use sql2rdf.Parser.Patterns.{parse_group_graph_pattern_with}
use sql2rdf.Parser.Queries.{parse_sub_select, parse_query}

-- The methods, with so many calls inside one another.
unfoldable pub calls_within : ℕ → Calls
calls_within zero = record {
  fuel = 1;
  parse_path = run_out;
  parse_expression = run_out;
  parse_group_graph_pattern = run_out;
  parse_graph_node = λ path_mode out. run_out;
}
calls_within (suc n) =
    let calls = calls_within n in
    record {
      fuel = suc (suc n);
      parse_path = parse_path_alternative calls;
      parse_expression = parse_conditional_or_expression calls;
      parse_group_graph_pattern = parse_group_graph_pattern_with calls (parse_sub_select calls);
      parse_graph_node = λ path_mode out. parse_graph_node calls path_mode out;
    }

-- The parser in front of the first token.
abbrev pub new_parser : Bytes → Bytes → Parser
new_parser source base_iri = record {
  lexer = start source;
  current = make_token TokenType.eof [] 1 1;
  prologue = record { base_iri = base_iri; prefixes = [] };
  blank_node_counter = 0;
}

unfoldable pub parse_string : Bytes → Bytes → Outcome (Query × Parser)
parse_string query_text base_iri =
    let source = preprocess_codepoint_escapes query_text in
    (advance >> parse_query (calls_within (suc (length source)))) (new_parser source base_iri)
