-- ===== src/Parser/Total/Queries.antt =====
-- Query forms and whole queries.
use sql2rdf.Base.{ℕ, zero, suc, refl, length, Bytes, ◌≢◌, arith}
use sql2rdf.Lexer.Next.{next}
use sql2rdf.Lexer.Progress.Next.{next-NextGood}
use sql2rdf.Lexer.Escapes.{preprocess_codepoint_escapes}
use sql2rdf.Ast.{Query}
use sql2rdf.Parser.State.{
  Parser, Outcome, ok, parse_error, out_of_range, out_of_fuel, ordinal, Action, ◌>>◌, advance,
  then_run, received,
}
use sql2rdf.Parser.Calls.{Calls}
use sql2rdf.Parser.Queries.{
  parse_construct_template, parse_where_clause, parse_sub_select, parse_select_query,
  parse_construct_where, parse_construct_query, parse_describe_targets, parse_describe_query,
  parse_ask_query, parse_query_form, parse_query,
}
use sql2rdf.Parser.Clauses.{parse_dataset_clauses, parse_solution_modifier}
use sql2rdf.Parser.Knot.{calls_within, new_parser, parse_string}
use sql2rdf.Parser.Total.Paths.{parse_path_alternative-Eats}
use sql2rdf.Parser.Total.Operators.{parse_conditional_or_expression-Eats}
use sql2rdf.Parser.Total.Triples.{parse_construct_triples-Eats, parse_graph_node-Eats}
use sql2rdf.Parser.Total.Patterns.{parse_var_or_iri-Eats, parse_group_graph_pattern-Eats}
use sql2rdf.Parser.Total.Clauses.{
  parse_prologue-Runs, parse_dataset_clauses-Runs, parse_values_clause-Runs,
  parse_select_clause-Eats, parse_solution_modifier-Runs,
}
use sql2rdf.Parser.Total.{
  size, Ends, Runs, Eats, Takes, Eats-Runs, Eats-Takes, Eats-lower, Runs-lower, pure-Runs,
  error-Eats, if-Eats, branch-Runs, check-Live, check_keyword-Live, bind-Runs, bind-Eats, seq-Runs,
  seq-Takes,
}
use sql2rdf.Parser.Total.Steps.{
  received-Ends, get-Runs, advance-Takes, match-Runs_within, matched-Runs, expect-Eats,
}
use sql2rdf.Parser.Total.Loops.{at_least_one-Eats}
use sql2rdf.Parser.Total.Rules.{Fit}

module _ (n : ℕ) (calls : Calls) (h : Fit n calls) where
  datasets-Runs : Runs n (parse_dataset_clauses calls.fuel)
  datasets-Runs = parse_dataset_clauses-Runs n calls.fuel h.loops_inside

  modifier-Runs : Runs n (parse_solution_modifier calls)
  modifier-Runs = parse_solution_modifier-Runs n calls h

  template-Runs : Runs n (parse_construct_template calls)
  unfolding parse_construct_template ordinal
  template-Runs = seq-Runs (Eats-Runs (expect-Eats _ _ refl)) (
      bind-Runs
        (branch-Runs _ (pure-Runs _)
          (Eats-Runs (Eats-lower (parse_construct_triples-Eats n calls h))))
        λ triples. seq-Runs (Eats-Runs (expect-Eats _ _ refl)) (pure-Runs _))

  where-Runs : Runs n (parse_where_clause calls)
  unfolding parse_where_clause
  where-Runs = seq-Runs (matched-Runs (check_keyword-Live _)) (Eats-Runs h.group)

  sub_select-Runs : Runs n (parse_sub_select calls)
  unfolding parse_sub_select
  sub_select-Runs =
      bind-Runs (Eats-Runs (Eats-lower (parse_select_clause-Eats n calls h))) λ clause.
        bind-Runs where-Runs λ g. bind-Runs modifier-Runs λ modifier.
          bind-Runs (parse_values_clause-Runs n calls.fuel h.loops_inside) λ values. pure-Runs _

  select_query-Eats : Eats (suc n) (parse_select_query calls)
  unfolding parse_select_query
  select_query-Eats = bind-Eats (parse_select_clause-Eats n calls h) λ clause.
      bind-Runs datasets-Runs
        λ datasets. bind-Runs where-Runs λ g. bind-Runs modifier-Runs λ modifier. pure-Runs _

  construct_where-Runs : Runs n (parse_construct_where calls)
  unfolding parse_construct_where ordinal
  construct_where-Runs = seq-Runs (Eats-Runs (expect-Eats _ _ refl)) (
      bind-Runs
        (branch-Runs _ (pure-Runs _)
          (Eats-Runs (Eats-lower (parse_construct_triples-Eats n calls h))))
        λ triples.
          seq-Runs (Eats-Runs (expect-Eats _ _ refl))
            (bind-Runs datasets-Runs λ datasets. bind-Runs modifier-Runs λ modifier. pure-Runs _))

  construct_query-Takes : Takes (suc n) (parse_construct_query calls)
  unfolding parse_construct_query
  construct_query-Takes = seq-Takes advance-Takes (
      match-Runs_within (check_keyword-Live _) construct_where-Runs (
        bind-Runs template-Runs λ triples.
          bind-Runs datasets-Runs
            λ datasets. bind-Runs where-Runs λ g. bind-Runs modifier-Runs λ modifier. pure-Runs _))

  describe_targets-Runs : Runs n (parse_describe_targets calls)
  unfolding parse_describe_targets ordinal
  describe_targets-Runs = match-Runs_within (check-Live _ refl) (pure-Runs _) (
      bind-Runs (Eats-Runs (at_least_one-Eats _ h.loops_inside (parse_var_or_iri-Eats n)))
        λ _. pure-Runs _)

  describe_query-Takes : Takes (suc n) (parse_describe_query calls)
  unfolding parse_describe_query
  describe_query-Takes = seq-Takes advance-Takes (
      bind-Runs describe_targets-Runs λ _. bind-Runs datasets-Runs λ datasets.
        bind-Runs (branch-Runs _ (bind-Runs where-Runs λ g. pure-Runs _) (pure-Runs _))
          λ g. bind-Runs modifier-Runs λ modifier. pure-Runs _)

  ask_query-Takes : Takes (suc n) (parse_ask_query calls)
  unfolding parse_ask_query
  ask_query-Takes = seq-Takes advance-Takes (
      bind-Runs datasets-Runs
        λ datasets. bind-Runs where-Runs λ g. bind-Runs modifier-Runs λ modifier. pure-Runs _)

  query_form-Eats : Eats (suc n) (parse_query_form calls)
  unfolding parse_query_form
  query_form-Eats = if-Eats (check_keyword-Live _) (Eats-Takes select_query-Eats) (
      if-Eats (check_keyword-Live _) construct_query-Takes (
        if-Eats (check_keyword-Live _) describe_query-Takes
          (if-Eats (check_keyword-Live _) ask_query-Takes (error-Eats _))))

  parse_query-Runs : Runs (suc n) (parse_query calls)
  unfolding parse_query
  parse_query-Runs = seq-Runs (parse_prologue-Runs (suc n) calls.fuel h.loops) (
      bind-Runs (Eats-Runs query_form-Eats) λ q.
        bind-Runs (parse_values_clause-Runs (suc n) calls.fuel h.loops) λ values.
          bind-Runs (get-Runs (suc n)) λ s. branch-Runs _ (pure-Runs _) (Eats-Runs (error-Eats _)))

nothing-Eats {ℓ} : {A : Type ℓ} (m : Action A) → Eats 0 m
nothing-Eats m = record { ends = λ s h. absurd (omega arith) }

-- So many calls inside one another are enough for fewer bytes.
calls_within-Fit : (n : ℕ) → Fit n (calls_within n)
unfolding calls_within
calls_within-Fit zero = record {
  loops = omega arith;
  loops_inside = omega arith;
  path = nothing-Eats _;
  expression = nothing-Eats _;
  group = nothing-Eats _;
  node = λ path_mode out. nothing-Eats _;
}
calls_within-Fit (suc n) =
    let calls = calls_within n in
    let h = calls_within-Fit n in
    record {
      loops = omega arith;
      loops_inside = omega arith;
      path = parse_path_alternative-Eats n calls h;
      expression = parse_conditional_or_expression-Eats n calls h;
      group = parse_group_graph_pattern-Eats n calls h _ (sub_select-Runs n calls h);
      node = λ path_mode out. parse_graph_node-Eats n calls h path_mode out;
    }

answered : {A : Type 0} (n : ℕ) (o : Outcome (A × Parser)) → Ends n o → o ≢ out_of_fuel
answered n (ok _) e = cc
answered n (parse_error message line column near) e = cc
answered n out_of_range e = cc
answered n out_of_fuel e = absurd e

started-answered :
    (n : ℕ) (m : Action Query) (o : Outcome (Unit {0} × Parser))
    → Ends n o
    → Runs n m
    → then_run o (λ _. m) ≢ out_of_fuel
started-answered n m (ok (x, s)) h hm = answered (suc (size s)) (m s) (hm.ends s h)
started-answered n m (parse_error message line column near) h hm = cc
started-answered n m out_of_range h hm = cc
started-answered n m out_of_fuel h hm = absurd h

-- Parsing a text comes to an end, with a query or an error: calls inside one another as many as
-- there are bytes and one more, and loops of so many rounds, are enough for any text and base IRI.
pub parse_string-total :
    (query_text base_iri : Bytes) → parse_string query_text base_iri ≢ out_of_fuel
unfolding parse_string advance ◌>>◌
parse_string-total query_text base_iri =
    let source = preprocess_codepoint_escapes query_text in
    let s = new_parser source base_iri in
    let n = suc (length source) in
    started-answered n (parse_query (calls_within n)) (received s (next s.lexer))
      (received-Ends s (next s.lexer) (next-NextGood s.lexer))
      (Runs-lower (parse_query-Runs n (calls_within n) (calls_within-Fit n)))
