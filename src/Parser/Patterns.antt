-- ===== src/Parser/Patterns.antt =====
-- Graph patterns and VALUES blocks (src/sparql-parser/ParserGraphPatterns.cpp). The parser of a
-- subquery is an argument here; `Parser.Queries` has it.
use sql2rdf.Base.{
  ℕ, Bool, ◌||◌, List, [], ◌∷◌, ◌++◌, Option, none, some, if◌then◌else◌, ◌==◌, length, map, codes,
}
use sql2rdf.Lexer.Token.{TokenType, Token}
use sql2rdf.Ast.{
  Term, iri, var, literal, InlineData, GroupElement, basic_graph_pattern, group_graph_pattern,
  union_graph_pattern, optional_graph_pattern, minus_graph_pattern, graph_graph_pattern,
  service_graph_pattern, filter, bind, inline_data, sub_select, GroupElements, Query, pack_elements,
  pack_groups,
}
use sql2rdf.Parser.State.{
  Action, ◌>>=◌, ◌>>◌, pure, error, advance, check, check_keyword, if_current, if_match, matched,
  expect, expect_keyword, again, done, repeat, while_current, while_match,
}
use sql2rdf.Parser.Iris.{is_var, is_iri, parse_iri, parse_var}
use sql2rdf.Parser.Numbers.{to_string}
use sql2rdf.Parser.Calls.{Calls}
use sql2rdf.Parser.Literals.{
  is_number, is_boolean, parse_rdf_literal, parse_numeric_literal, parse_boolean_literal,
}
use sql2rdf.Parser.Operators.{parse_primary_expression}
use sql2rdf.Parser.Triples.{starts_triple, parse_triples_block}

unfoldable pub starts_graph_pattern_not_triples : Token → Bool
starts_graph_pattern_not_triples t =
    check TokenType.l_brace t
    || check_keyword "OPTIONAL" t
    || check_keyword "MINUS" t
    || check_keyword "GRAPH" t
    || check_keyword "SERVICE" t
    || check_keyword "FILTER" t
    || check_keyword "BIND" t
    || check_keyword "VALUES" t

unfoldable pub parse_data_block_value : Action (Option Term)
parse_data_block_value = if_match (check_keyword "UNDEF") (pure none) (
    if_current is_iri (do i ← parse_iri; pure (some (iri i)))
      (if_current (check TokenType.string_literal)
        (do l ← parse_rdf_literal; pure (some (literal l)))
        (if_current is_number (do l ← parse_numeric_literal; pure (some (literal l)))
          (if_current is_boolean (do l ← parse_boolean_literal; pure (some (literal l)))
            (error (codes "expected a VALUES data block value (IRI, literal, or UNDEF)"))))))

-- `while (!check(close)) items.push_back(item);`.
unfoldable pub until_current {ℓ} : {A : Type ℓ} → ℕ → TokenType → Action A → Action (List A)
until_current fuel close item =
    repeat fuel
      (λ items.
        if_current (check close) (pure (done items))
          (do x ← item; pure (again (items ++ (x ∷ [])))))
      []

unfoldable pub parse_inline_data_one_var : ℕ → Action InlineData
parse_inline_data_one_var fuel = do
  v ← parse_var
  expect TokenType.l_brace "'{' after VALUES variable"
  values ← until_current fuel TokenType.r_brace parse_data_block_value
  expect TokenType.r_brace "'}' closing VALUES block"
  pure record { vars = v ∷ []; rows = map (λ value. value ∷ []) values }

-- A row of as many values as there are variables.
unfoldable pub parse_row : ℕ → ℕ → Action (List (Option Term))
parse_row fuel width = do
  row ← if_match (check TokenType.nil) (pure []) (do
    expect TokenType.l_paren "'(' to start a VALUES row"
    row ← until_current fuel TokenType.r_paren parse_data_block_value
    expect TokenType.r_paren "')' closing a VALUES row"
    pure row)
  if length row == width
      then pure row
      else error (
          codes "VALUES row has "
          ++ to_string (length row)
          ++ codes " value(s) but "
          ++ to_string width
          ++ codes " variable(s) were declared")

unfoldable pub parse_inline_data_full : ℕ → Action InlineData
parse_inline_data_full fuel = do
  vars ← if_match (check TokenType.nil) (pure []) (do
    expect TokenType.l_paren "'(' to start a VALUES variable list"
    vars ← while_current fuel is_var parse_var []
    expect TokenType.r_paren "')' closing a VALUES variable list"
    pure vars)
  expect TokenType.l_brace "'{' after VALUES variable list"
  rows ← until_current fuel TokenType.r_brace (parse_row fuel (length vars))
  expect TokenType.r_brace "'}' closing VALUES block"
  pure record { vars = vars; rows = rows }

-- `parseInlineDataElement` and the end of `parseValuesClauseOptional`, behind VALUES.
unfoldable pub parse_inline_data : ℕ → Action InlineData
parse_inline_data fuel =
    if_current is_var (parse_inline_data_one_var fuel) (parse_inline_data_full fuel)

-- A variable or an IRI.
unfoldable pub parse_var_or_iri : Action Term
parse_var_or_iri =
    if_current is_var (do v ← parse_var; pure (var v)) (do i ← parse_iri; pure (iri i))

module _ (calls : Calls) where
  unfoldable pub parse_group_or_union_graph_pattern : Action GroupElement
  parse_group_or_union_graph_pattern = do
    first ← calls.parse_group_graph_pattern
    if_current (check_keyword "UNION")
        (do
          branches ←
              while_match calls.fuel (check_keyword "UNION") calls.parse_group_graph_pattern
                (first ∷ [])
          pure (union_graph_pattern (pack_groups branches)))
        (pure (group_graph_pattern first))

  unfoldable pub parse_optional_graph_pattern : Action GroupElement
  parse_optional_graph_pattern = do
    advance
    g ← calls.parse_group_graph_pattern
    pure (optional_graph_pattern g)

  unfoldable pub parse_minus_graph_pattern : Action GroupElement
  parse_minus_graph_pattern = do
    advance
    g ← calls.parse_group_graph_pattern
    pure (minus_graph_pattern g)

  unfoldable pub parse_graph_graph_pattern : Action GroupElement
  parse_graph_graph_pattern = do
    advance
    name ← parse_var_or_iri
    g ← calls.parse_group_graph_pattern
    pure (graph_graph_pattern name g)

  unfoldable pub parse_service_graph_pattern : Action GroupElement
  parse_service_graph_pattern = do
    advance
    silent ← matched (check_keyword "SILENT")
    endpoint ← parse_var_or_iri
    g ← calls.parse_group_graph_pattern
    pure (service_graph_pattern silent endpoint g)

  unfoldable pub parse_filter_element : Action GroupElement
  parse_filter_element = do advance; e ← parse_primary_expression calls; pure (filter e)

  unfoldable pub parse_bind_element : Action GroupElement
  parse_bind_element = do
    advance
    expect TokenType.l_paren "'(' after BIND"
    e ← calls.parse_expression
    expect_keyword "AS"
    v ← parse_var
    expect TokenType.r_paren "')' closing BIND(... AS ?var)"
    pure (bind v e)

  unfoldable pub parse_inline_data_element : Action GroupElement
  parse_inline_data_element = do
    advance
    values ← parse_inline_data calls.fuel
    pure (inline_data values)

  unfoldable pub parse_graph_pattern_not_triples : Action GroupElement
  parse_graph_pattern_not_triples =
      if_current (check TokenType.l_brace) parse_group_or_union_graph_pattern (
        if_current (check_keyword "OPTIONAL") parse_optional_graph_pattern (
          if_current (check_keyword "MINUS") parse_minus_graph_pattern (
            if_current (check_keyword "GRAPH") parse_graph_graph_pattern (
              if_current (check_keyword "SERVICE") parse_service_graph_pattern (
                if_current (check_keyword "FILTER") parse_filter_element (
                  if_current (check_keyword "BIND") parse_bind_element (
                    if_current (check_keyword "VALUES") parse_inline_data_element (
                      error (
                        codes
                          "expected OPTIONAL, MINUS, GRAPH, SERVICE, FILTER, BIND, VALUES, or '{'")))))))))

  -- A block of triples, if the token at hand starts one, behind the elements so far.
  unfoldable pub parse_triples_element : List GroupElement → Action (List GroupElement)
  parse_triples_element elements =
      if_current starts_triple
        (do
          triples ← parse_triples_block calls
          pure (elements ++ (basic_graph_pattern triples ∷ [])))
        (pure elements)

  unfoldable pub parse_group_graph_pattern_sub : Action (List GroupElement)
  parse_group_graph_pattern_sub = do
    first ← parse_triples_element []
    repeat calls.fuel
        (λ elements.
          if_current starts_graph_pattern_not_triples
            (do
              e ← parse_graph_pattern_not_triples
              matched (check TokenType.dot)
              elements' ← parse_triples_element (elements ++ (e ∷ []))
              pure (again elements'))
            (pure (done elements)))
        first

  unfoldable pub parse_group_graph_pattern_with : Action Query → Action GroupElements
  parse_group_graph_pattern_with parse_sub_select = do
    expect TokenType.l_brace "'{' to start a graph pattern"
    elements ←
        if_current (check_keyword "SELECT") (do q ← parse_sub_select; pure (sub_select q ∷ []))
          parse_group_graph_pattern_sub
    expect TokenType.r_brace "'}' closing a graph pattern"
    pure (pack_elements elements)
