-- ===== src/Parser/Queries.antt =====
-- The query forms and subqueries (src/sparql-parser/Parser.cpp).
use sql2rdf.Base.{map, Bool, true, false, ◌||◌, List, [], ◌∷◌, Option, none, codes}
use sql2rdf.Lexer.Token.{TokenType}
use sql2rdf.Ast.{
  Term, TriplePattern, InlineData, QueryForm, Prologue, QueryHead, basic_graph_pattern,
  GroupElements, MaybeGroup, no_group, a_group, Query, query, SelectItems, no_items, pack_elements,
}
use sql2rdf.Parser.State.{
  Action, ◌>>=◌, ◌>>◌, pure, get, error, advance, check, check_keyword, if_current, if_match,
  matched, expect, at_least_one,
}
use sql2rdf.Parser.Iris.{is_var, is_iri, parse_prologue}
use sql2rdf.Parser.Clone.{clone_term, clone_path}
use sql2rdf.Parser.Calls.{Calls}
use sql2rdf.Parser.Triples.{parse_construct_triples}
use sql2rdf.Parser.Patterns.{parse_var_or_iri}
use sql2rdf.Parser.Clauses.{
  SelectClause, SolutionModifier, parse_dataset_clauses, parse_values_clause_optional,
  parse_select_clause, parse_solution_modifier,
}

-- A new `Query` of a form.
abbrev pub new_head : QueryForm → QueryHead
new_head form = record {
  form = form;
  prologue = record { base_iri = []; prefixes = [] };
  dataset_clauses = [];
  distinct = false;
  reduced = false;
  select_star = false;
  construct_template = [];
  has_construct_template = false;
  describe_star = false;
  describe_targets = [];
  limit = none;
  offset = none;
  values_clause = none;
}

unfoldable pub make_query : QueryHead → SelectItems → MaybeGroup → SolutionModifier → Query
make_query head items where_ modifier =
    query (record head { limit = modifier.limit; offset = modifier.offset }) items where_
      modifier.group_by modifier.having modifier.order_by

abbrev pub select_head : SelectClause → QueryHead
select_head clause = record (new_head QueryForm.select) {
  distinct = clause.distinct;
  reduced = clause.reduced;
  select_star = clause.select_star;
}

unfoldable pub with_values : Option InlineData → Query → Query
with_values values (query head items where_ group_by having order_by) =
    query (record head { values_clause = values }) items where_ group_by having order_by

unfoldable pub with_prologue : Prologue → Query → Query
with_prologue prologue (query head items where_ group_by having order_by) =
    query (record head { prologue = prologue }) items where_ group_by having order_by

-- The copy of a triple in the short form of CONSTRUCT.
unfoldable pub clone_triple : TriplePattern → TriplePattern
unfolding clone_term clone_path
clone_triple tp = record {
  subject = clone_term tp.subject;
  predicate = clone_path tp.predicate;
  object = clone_term tp.object;
}

unfoldable pub parse_construct_template : Calls → Action (List TriplePattern)
parse_construct_template calls = do
  expect TokenType.l_brace "'{' to start a CONSTRUCT template"
  triples ← if_current (check TokenType.r_brace) (pure []) (parse_construct_triples calls)
  expect TokenType.r_brace "'}' closing CONSTRUCT template"
  pure triples

module _ (calls : Calls) where
  unfoldable pub parse_where_clause : Action GroupElements
  parse_where_clause = do matched (check_keyword "WHERE"); calls.parse_group_graph_pattern

  unfoldable pub parse_sub_select : Action Query
  parse_sub_select = do
    clause ← parse_select_clause calls
    group ← parse_where_clause
    modifier ← parse_solution_modifier calls
    values ← parse_values_clause_optional calls.fuel
    pure
        (with_values values (make_query (select_head clause) clause.items (a_group group) modifier))

  unfoldable pub parse_select_query : Action Query
  parse_select_query = do
    clause ← parse_select_clause calls
    datasets ← parse_dataset_clauses calls.fuel
    group ← parse_where_clause
    modifier ← parse_solution_modifier calls
    pure (
        make_query (record (select_head clause) { dataset_clauses = datasets }) clause.items
          (a_group group) modifier)

  -- CONSTRUCT WHERE { … }: the template is the pattern.
  unfoldable pub parse_construct_where : Action Query
  parse_construct_where = do
    expect TokenType.l_brace "'{' after CONSTRUCT WHERE"
    triples ← if_current (check TokenType.r_brace) (pure []) (parse_construct_triples calls)
    expect TokenType.r_brace "'}' closing CONSTRUCT WHERE"
    datasets ← parse_dataset_clauses calls.fuel
    modifier ← parse_solution_modifier calls
    pure (
        make_query
          (record (new_head QueryForm.construct) {
            dataset_clauses = datasets;
            construct_template = map clone_triple triples;
            has_construct_template = true;
          })
          no_items (a_group (pack_elements (basic_graph_pattern triples ∷ []))) modifier)

  unfoldable pub parse_construct_query : Action Query
  parse_construct_query = do
    advance
    if_match (check_keyword "WHERE") parse_construct_where (do
      triples ← parse_construct_template calls
      datasets ← parse_dataset_clauses calls.fuel
      group ← parse_where_clause
      modifier ← parse_solution_modifier calls
      pure (
          make_query
            (record (new_head QueryForm.construct) {
              dataset_clauses = datasets;
              construct_template = triples;
              has_construct_template = true;
            })
            no_items (a_group group) modifier))

  -- `*`, or the variables and IRIs.
  unfoldable pub parse_describe_targets : Action (Bool × List Term)
  parse_describe_targets = if_match (check TokenType.star) (pure (true, [])) (do
    targets ← at_least_one calls.fuel (λ t. is_var t || is_iri t) parse_var_or_iri
    pure (false, targets))

  unfoldable pub parse_describe_query : Action Query
  parse_describe_query = do
    advance
    (star, targets) ← parse_describe_targets
    datasets ← parse_dataset_clauses calls.fuel
    group ←
        if_current (λ t. check_keyword "WHERE" t || check TokenType.l_brace t)
          (do g ← parse_where_clause; pure (a_group g)) (pure no_group)
    modifier ← parse_solution_modifier calls
    pure (
        make_query
          (record (new_head QueryForm.describe) {
            dataset_clauses = datasets;
            describe_star = star;
            describe_targets = targets;
          })
          no_items group modifier)

  unfoldable pub parse_ask_query : Action Query
  parse_ask_query = do
    advance
    datasets ← parse_dataset_clauses calls.fuel
    group ← parse_where_clause
    modifier ← parse_solution_modifier calls
    pure (
        make_query (record (new_head QueryForm.ask) { dataset_clauses = datasets }) no_items
          (a_group group) modifier)

  unfoldable pub parse_query_form : Action Query
  parse_query_form = if_current (check_keyword "SELECT") parse_select_query (
      if_current (check_keyword "CONSTRUCT") parse_construct_query (
        if_current (check_keyword "DESCRIBE") parse_describe_query (
          if_current (check_keyword "ASK") parse_ask_query
            (error (codes "expected SELECT, CONSTRUCT, DESCRIBE or ASK")))))

  -- `parseString` behind the first token.
  unfoldable pub parse_query : Action Query
  parse_query = do
    parse_prologue calls.fuel
    q ← parse_query_form
    values ← parse_values_clause_optional calls.fuel
    s ← get
    if_current (check TokenType.eof) (pure (with_prologue s.prologue (with_values values q)))
        (error (codes "unexpected trailing input after query"))
