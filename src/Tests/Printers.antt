-- ===== src/Tests/Printers.antt =====
-- The pretty printer on concrete trees: PrettyPrinter.cpp.
use Prim.Native.String.{String}
use sql2rdf.Base.{[], ◌∷◌, codes, inl, inr, ◌≡◌, refl}
use sql2rdf.Expr.{BinaryOp, BuiltinFunction}
use sql2rdf.Ast.{
  PropertyPathExpr, predicate, sequence, zero_or_more, Expression, var_expr, binary_expr,
  built_in_call_expr, no_more, filter, element, end_of_group, pack,
}
use sql2rdf.Lexer.Token.{TokenType}
use sql2rdf.Parser.State.{Parser, Action, pure}
use sql2rdf.Parser.Iris.{make_iri}
use sql2rdf.Parser.Builtins.{one_arg_builtins}
use sql2rdf.Parser.Knot.{calls_within, new_parser}
use sql2rdf.Printer.{path_str, expr_str}
use sql2rdf.Printer.Trees.{print_group_graph_pattern}
use sql2rdf.Printer.Keywords.{Dispatches, builtin_tables-Dispatches}

abbrev hop : String → PropertyPathExpr
hop name = predicate (make_iri [] (codes name))

-- two paths that print alike: a/b*, with the star over both steps or over the second
starred_sequence : path_str (zero_or_more (sequence (hop "a") (hop "b"))) ≡ codes "a/b*"
unfolding path_str
starred_sequence = refl

starred_step : path_str (sequence (hop "a") (zero_or_more (hop "b"))) ≡ codes "a/b*"
unfolding path_str
starred_step = refl

abbrev x : Expression
x = var_expr record { name = codes "x"; line = 1; column = 1 }

abbrev condition : Expression
condition = binary_expr BinaryOp.and (built_in_call_expr BuiltinFunction.is_iri (pack (x ∷ []))) x

condition_printed : expr_str condition ≡ codes "(isIRI(?x) && ?x)"
unfolding expr_str pack
condition_printed = refl

filter_printed :
    print_group_graph_pattern 1 (element (filter condition) end_of_group)
    ≡ codes "  GroupGraphPattern\n    Filter (isIRI(?x) && ?x)\n"
unfolding print_group_graph_pattern pack
filter_printed = refl

abbrev at_text : Parser
at_text = record (new_parser (codes "(?x)") []) {
  current = record {
    type = TokenType.keyword;
    text = codes "strlen";
    keyword = codes "STRLEN";
    line = 1;
    column = 1;
  };
}

abbrev call : BuiltinFunction → Action Expression
call fn = pure (built_in_call_expr fn no_more)

builtin_tables-Dispatches_example :
    Dispatches (calls_within 3) one_arg_builtins call (pure x) at_text
builtin_tables-Dispatches_example =
    builtin_tables-Dispatches (calls_within 3) call (pure x) at_text one_arg_builtins
      (inr (inl refl))
