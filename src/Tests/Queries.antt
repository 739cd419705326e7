-- ===== src/Tests/Queries.antt =====
-- The parser on concrete queries: Parser.cpp and its siblings.
use sql2rdf.Base.{
  ℕ, List, [], ◌∷◌, ◌++◌, Option, none, some, if◌then◌else◌, equal, Bytes, codes, ◌≡◌, ◌≢◌, refl,
}
use sql2rdf.Ast.{
  PropertyPathExpr, predicate, inverse, sequence, zero_or_more, Query, query, PrefixDecl, QueryForm,
  Expression, binary_expr, ℤ, negsuc, SelectItems, select_item, an_expression,
}
use sql2rdf.Expr.{BinaryOp}
use sql2rdf.Parser.State.{Parser, Outcome, ok, out_of_fuel, advance}
use sql2rdf.Parser.Iris.{make_iri, prefix_iri, declare_prefix}
use sql2rdf.Parser.Patterns.{parse_inline_data}
use sql2rdf.Parser.Clone.{clone_path}
use sql2rdf.Parser.Knot.{new_parser, parse_string}
use sql2rdf.Parser.Total.Queries.{parse_string-total}
use sql2rdf.Parser.Prologue.{prefix_iri-declare_prefix}
use sql2rdf.Parser.Yields.{Holds}
use sql2rdf.Parser.Yields.Values.{IsRectangular, parse_inline_data-IsRectangular}
use sql2rdf.Parser.Yields.Template.Queries.{HasSimpleTemplate, parse_string-HasSimpleTemplate}

abbrev construct_text : Bytes
construct_text = codes "CONSTRUCT { ?s <p> (1 [?q ?s]) } { ?s <a>/<b>* ?q }"

parse_string-total_example : parse_string construct_text (codes "http://x/") ≢ out_of_fuel
parse_string-total_example = parse_string-total construct_text (codes "http://x/")

parse_string-HasSimpleTemplate_example : Holds HasSimpleTemplate (parse_string construct_text [])
parse_string-HasSimpleTemplate_example = parse_string-HasSimpleTemplate construct_text []

abbrev reset : Outcome (Unit {0} × Parser) → Parser → Parser
reset (ok (x, t)) s = t
reset _ s = s

abbrev rows_text : Parser
rows_text = new_parser (codes "(?a ?b) { (1 UNDEF) (\"x\"@en <u>) }") []

abbrev at_rows : Parser
at_rows = reset (advance rows_text) rows_text

parse_inline_data-IsRectangular_example : Holds IsRectangular (parse_inline_data 40 at_rows)
parse_inline_data-IsRectangular_example = parse_inline_data-IsRectangular 40 at_rows

abbrev declared : List PrefixDecl
declared =
    record { prefix = codes "a"; iri = codes "http://a/" }
    ∷ record { prefix = codes "b"; iri = codes "http://b/" }
    ∷ []

abbrev again_a : PrefixDecl
again_a = record { prefix = codes "a"; iri = codes "http://c/" }

prefix_iri-declare_prefix_example : prefix_iri (declare_prefix again_a declared) (codes "b") ≡ (
    if equal (codes "a") (codes "b")
    then some (codes "http://c/")
    else prefix_iri declared (codes "b"))
prefix_iri-declare_prefix_example = prefix_iri-declare_prefix again_a declared (codes "b")

-- A run of the whole parser, which computes.
unfoldable parsed : Bytes → Outcome (Query × Parser)
unfolding sql2rdf.Parser.State.pure sql2rdf.Parser.State.◌>>=◌ sql2rdf.Parser.State.◌>>◌
    sql2rdf.Parser.State.get sql2rdf.Parser.State.put_prologue sql2rdf.Parser.State.run_out
    sql2rdf.Parser.State.error sql2rdf.Parser.State.received sql2rdf.Parser.State.advance
    sql2rdf.Parser.State.ordinal sql2rdf.Parser.State.check sql2rdf.Parser.State.check_keyword
    sql2rdf.Parser.State.if_current sql2rdf.Parser.State.if_match sql2rdf.Parser.State.matched
    sql2rdf.Parser.State.current sql2rdf.Parser.State.expect sql2rdf.Parser.State.expect_keyword
    sql2rdf.Parser.State.turned sql2rdf.Parser.State.repeat sql2rdf.Parser.State.at_least_one
    sql2rdf.Parser.State.while_current sql2rdf.Parser.State.while_match
    sql2rdf.Parser.Iris.rfind_byte sql2rdf.Parser.Iris.has_scheme sql2rdf.Parser.Iris.authority
    sql2rdf.Parser.Iris.directory sql2rdf.Parser.Iris.resolve_against
    sql2rdf.Parser.Iris.resolve_relative_iri sql2rdf.Parser.Iris.prefix_iri
    sql2rdf.Parser.Iris.found_prefix sql2rdf.Parser.Iris.lookup_prefix
    sql2rdf.Parser.Iris.split_name sql2rdf.Parser.Iris.resolve_iri_value
    sql2rdf.Parser.Iris.is_pname sql2rdf.Parser.Iris.is_iri sql2rdf.Parser.Iris.is_var
    sql2rdf.Parser.Iris.parse_iri sql2rdf.Parser.Iris.parse_var sql2rdf.Parser.Iris.parse_base_decl
    sql2rdf.Parser.Iris.declare_prefix sql2rdf.Parser.Iris.parse_prefix_decl
    sql2rdf.Parser.Iris.parse_prologue sql2rdf.Parser.Paths.add_iri
    sql2rdf.Parser.Paths.parse_negated_iri sql2rdf.Parser.Paths.parse_path_negated_property_set
    sql2rdf.Parser.Paths.parse_path_primary sql2rdf.Parser.Paths.parse_path_elt
    sql2rdf.Parser.Paths.parse_path_elt_or_inverse sql2rdf.Parser.Paths.parse_path_sequence
    sql2rdf.Parser.Paths.parse_path_alternative sql2rdf.Parser.Literals.is_carets
    sql2rdf.Parser.Literals.is_number sql2rdf.Parser.Literals.is_boolean
    sql2rdf.Parser.Literals.parse_rdf_literal sql2rdf.Parser.Literals.parse_numeric_literal
    sql2rdf.Parser.Literals.parse_boolean_literal sql2rdf.Parser.Builtins.any_keyword
    sql2rdf.Parser.Builtins.starts_expression sql2rdf.Parser.Expressions.parse_expression_list
    sql2rdf.Parser.Expressions.parse_arg_list sql2rdf.Parser.Expressions.parse_builtin_args_n
    sql2rdf.Parser.Expressions.parse_separator sql2rdf.Parser.Expressions.plain_aggregate
    sql2rdf.Parser.Expressions.aggregate_of sql2rdf.Parser.Expressions.parse_aggregate
    sql2rdf.Parser.Expressions.parse_bound sql2rdf.Parser.Expressions.parse_if
    sql2rdf.Parser.Expressions.parse_bnode sql2rdf.Parser.Expressions.parse_list_call
    sql2rdf.Parser.Expressions.parse_exists sql2rdf.Parser.Expressions.among
    sql2rdf.Parser.Expressions.parse_zero_arg_call sql2rdf.Parser.Expressions.parse_table_call
    sql2rdf.Parser.Expressions.parse_call
    sql2rdf.Parser.Expressions.parse_built_in_call_or_aggregate_or_exists
    sql2rdf.Parser.Expressions.parse_iri_or_function_call sql2rdf.Parser.Operators.is_signed_number
    sql2rdf.Parser.Operators.parse_primary_expression sql2rdf.Parser.Operators.parse_unary_operand
    sql2rdf.Parser.Operators.parse_unary_expression sql2rdf.Parser.Operators.grow
    sql2rdf.Parser.Operators.continue_multiplicative_from
    sql2rdf.Parser.Operators.parse_multiplicative_expression
    sql2rdf.Parser.Operators.parse_signed_operand sql2rdf.Parser.Operators.parse_additive_expression
    sql2rdf.Parser.Operators.compare sql2rdf.Parser.Operators.parse_in_list
    sql2rdf.Parser.Operators.parse_relational_expression
    sql2rdf.Parser.Operators.parse_conditional_and_expression
    sql2rdf.Parser.Operators.parse_conditional_or_expression sql2rdf.Parser.Numbers.digits_loop
    sql2rdf.Parser.Numbers.to_string sql2rdf.Parser.Numbers.digits_value
    sql2rdf.Parser.Numbers.clamp_positive sql2rdf.Parser.Numbers.clamp_negative
    sql2rdf.Parser.Numbers.strtol sql2rdf.Parser.Triples.starts_triple
    sql2rdf.Parser.Triples.starts_verb sql2rdf.Parser.Triples.starts_triples_node
    sql2rdf.Parser.Triples.fresh_blank_node_label sql2rdf.Parser.Triples.fresh_node
    sql2rdf.Parser.Triples.parse_graph_term sql2rdf.Parser.Triples.parse_var_or_term
    sql2rdf.Parser.Triples.parse_verb_simple sql2rdf.Parser.Triples.link_from
    sql2rdf.Parser.Triples.link_elements sql2rdf.Parser.Triples.parse_predicate
    sql2rdf.Parser.Triples.parse_object_list sql2rdf.Parser.Triples.parse_predicate_and_objects
    sql2rdf.Parser.Triples.parse_property_list_not_empty sql2rdf.Parser.Triples.parse_collection
    sql2rdf.Parser.Triples.parse_blank_node_property_list sql2rdf.Parser.Triples.parse_triples_node
    sql2rdf.Parser.Triples.parse_graph_node sql2rdf.Parser.Triples.parse_triples_same_subject
    sql2rdf.Parser.Triples.parse_triples_block sql2rdf.Parser.Triples.parse_construct_triples
    sql2rdf.Parser.Patterns.starts_graph_pattern_not_triples
    sql2rdf.Parser.Patterns.parse_data_block_value sql2rdf.Parser.Patterns.until_current
    sql2rdf.Parser.Patterns.parse_inline_data_one_var sql2rdf.Parser.Patterns.parse_row
    sql2rdf.Parser.Patterns.parse_inline_data_full sql2rdf.Parser.Patterns.parse_inline_data
    sql2rdf.Parser.Patterns.parse_var_or_iri
    sql2rdf.Parser.Patterns.parse_group_or_union_graph_pattern
    sql2rdf.Parser.Patterns.parse_optional_graph_pattern
    sql2rdf.Parser.Patterns.parse_minus_graph_pattern
    sql2rdf.Parser.Patterns.parse_graph_graph_pattern
    sql2rdf.Parser.Patterns.parse_service_graph_pattern sql2rdf.Parser.Patterns.parse_filter_element
    sql2rdf.Parser.Patterns.parse_bind_element sql2rdf.Parser.Patterns.parse_inline_data_element
    sql2rdf.Parser.Patterns.parse_graph_pattern_not_triples
    sql2rdf.Parser.Patterns.parse_triples_element
    sql2rdf.Parser.Patterns.parse_group_graph_pattern_sub
    sql2rdf.Parser.Patterns.parse_group_graph_pattern_with
    sql2rdf.Parser.Clauses.parse_dataset_clause sql2rdf.Parser.Clauses.parse_dataset_clauses
    sql2rdf.Parser.Clauses.parse_values_clause_optional
    sql2rdf.Parser.Clauses.parse_limit_offset_clauses sql2rdf.Parser.Clauses.parse_select_item
    sql2rdf.Parser.Clauses.parse_select_modifier sql2rdf.Parser.Clauses.parse_select_clause
    sql2rdf.Parser.Clauses.parse_group_condition sql2rdf.Parser.Clauses.parse_group_clause
    sql2rdf.Parser.Clauses.parse_having_clause sql2rdf.Parser.Clauses.parse_directed
    sql2rdf.Parser.Clauses.parse_order_condition sql2rdf.Parser.Clauses.parse_order_clause
    sql2rdf.Parser.Clauses.parse_solution_modifier sql2rdf.Parser.Queries.make_query
    sql2rdf.Parser.Queries.with_values sql2rdf.Parser.Queries.with_prologue
    sql2rdf.Parser.Queries.clone_triple sql2rdf.Parser.Queries.parse_construct_template
    sql2rdf.Parser.Queries.parse_where_clause sql2rdf.Parser.Queries.parse_sub_select
    sql2rdf.Parser.Queries.parse_select_query sql2rdf.Parser.Queries.parse_construct_where
    sql2rdf.Parser.Queries.parse_construct_query sql2rdf.Parser.Queries.parse_describe_targets
    sql2rdf.Parser.Queries.parse_describe_query sql2rdf.Parser.Queries.parse_ask_query
    sql2rdf.Parser.Queries.parse_query_form sql2rdf.Parser.Queries.parse_query
    sql2rdf.Parser.Knot.calls_within sql2rdf.Parser.Knot.parse_string sql2rdf.Parser.Clone.clone_iri
    sql2rdf.Parser.Clone.clone_var sql2rdf.Parser.Clone.clone_datatype
    sql2rdf.Parser.Clone.clone_term sql2rdf.Parser.Clone.clone_path sql2rdf.Lexer.Next.next
    sql2rdf.Lexer.Escapes.preprocess_codepoint_escapes sql2rdf.Base.equal sql2rdf.Ast.pack_elements
    sql2rdf.Ast.pack_group_by sql2rdf.Ast.pack sql2rdf.Ast.pack_order_by sql2rdf.Ast.pack_items
    sql2rdf.Ast.pack_groups
parsed text = parse_string text []

abbrev form : Outcome (Query × Parser) → Option QueryForm
form (ok (query head items where_ conditions having order, s)) = some head.form
form _ = none

abbrev limit : Outcome (Query × Parser) → Option ℤ
limit (ok (query head items where_ conditions having order, s)) = head.limit
limit _ = none

abbrev operators : Expression → List BinaryOp
operators (binary_expr op l r) = op ∷ (operators l ++ operators r)
operators _ = []

abbrev first_item : Outcome (Query × Parser) → List BinaryOp
first_item
      (ok (query head (select_item v (an_expression e) items) where_ conditions having order, s)) =
    operators e
first_item _ = []

ask_parsed : form (parsed (codes "ASK {?s a <b>}")) ≡ some QueryForm.ask
unfolding parsed
ask_parsed = refl

path_in_template : form (parsed (codes "CONSTRUCT {?s <a>/<b> ?o} {}")) ≡ none
unfolding parsed
path_in_template = refl

-- 1 -2*3 is 1 - (2*3), and 1-2-3 is (1-2)-3
signed_operand :
    first_item (parsed (codes "SELECT (1 -2*3 AS ?x) {}")) ≡ BinaryOp.sub ∷ BinaryOp.mul ∷ []
unfolding parsed
signed_operand = refl

-- a sign is taken behind LIMIT
negative_limit : limit (parsed (codes "SELECT * {} LIMIT -5")) ≡ some (negsuc 4)
unfolding parsed
negative_limit = refl
