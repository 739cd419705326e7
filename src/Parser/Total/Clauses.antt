-- ===== src/Parser/Total/Clauses.antt =====
-- The clauses of a query and its prologue.
use Prim.Native.String.{String}
use sql2rdf.Base.{ℕ, suc, ◌≤◌, [], refl}
use sql2rdf.Ast.{OrderDirection}
use sql2rdf.Parser.State.{ordinal}
use sql2rdf.Parser.Calls.{Calls}
use sql2rdf.Parser.Iris.{parse_base_decl, parse_prefix_decl, parse_prologue}
use sql2rdf.Parser.Clauses.{
  parse_dataset_clause, parse_dataset_clauses, parse_values_clause_optional,
  parse_limit_offset_clauses, parse_select_item, parse_select_modifier, parse_select_clause,
  parse_group_condition, parse_group_clause, parse_having_clause, parse_directed,
  parse_order_condition, parse_order_clause, parse_solution_modifier,
}
use sql2rdf.Parser.Total.Paths.{is_var-Live, is_iri-Live, parse_iri-Eats, parse_var-Eats}
use sql2rdf.Parser.Total.Expressions.{parse_built_in-Eats, parse_iri_or_function_call-Eats}
use sql2rdf.Parser.Total.Patterns.{parse_inline_data-Eats}
use sql2rdf.Parser.Total.{
  Runs, Eats, Takes, Eats-Runs, Eats-Takes, Eats-lower, pure-Runs, error-Eats, if-Runs, if-Eats,
  check-Live, check_keyword-Live, bind-Runs, bind-Eats_within, seq-Runs, seq-Eats, seq-Takes_within,
}
use sql2rdf.Parser.Total.Steps.{
  get-Runs, put_prologue-Runs, advance-Takes, match-Runs_within, match-Eats_within, matched-Runs,
  expect-Eats, expect_keyword-Eats,
}
use sql2rdf.Parser.Total.Loops.{
  done-Turns, if-Turns, match-Turns, repeat-Runs, while_current-Runs, at_least_one-Eats,
}
use sql2rdf.Parser.Total.Rules.{Fit}

parse_base_decl-Takes : (n : ℕ) → Takes n parse_base_decl
unfolding parse_base_decl ordinal
parse_base_decl-Takes n = seq-Takes_within advance-Takes (
    bind-Runs (Eats-Runs (expect-Eats _ _ refl))
      λ t. bind-Runs (get-Runs n) λ s. put_prologue-Runs _)

parse_prefix_decl-Takes : (n : ℕ) → Takes n parse_prefix_decl
unfolding parse_prefix_decl ordinal
parse_prefix_decl-Takes n = seq-Takes_within advance-Takes (
    bind-Runs (Eats-Runs (expect-Eats _ _ refl)) λ ns.
      bind-Runs (Eats-Runs (expect-Eats _ _ refl))
        λ iri. bind-Runs (get-Runs n) λ s. put_prologue-Runs _)

-- Clauses without an expression.
module _ (n fuel : ℕ) (h : n ≤ fuel) where
  pub parse_prologue-Runs : Runs n (parse_prologue fuel)
  unfolding parse_prologue
  parse_prologue-Runs = repeat-Runs tt h λ _.
      if-Turns (check_keyword-Live _) (seq-Takes_within (parse_base_decl-Takes n) (pure-Runs _)) (
        if-Turns (check_keyword-Live _) (seq-Takes_within (parse_prefix_decl-Takes n) (pure-Runs _))
          (done-Turns tt))

  dataset_clause-Takes : Takes n parse_dataset_clause
  unfolding parse_dataset_clause
  dataset_clause-Takes = seq-Takes_within advance-Takes (
      bind-Runs (matched-Runs (check_keyword-Live _))
        λ named. bind-Runs (Eats-Runs (parse_iri-Eats n)) λ iri. pure-Runs _)

  pub parse_dataset_clauses-Runs : Runs n (parse_dataset_clauses fuel)
  unfolding parse_dataset_clauses
  parse_dataset_clauses-Runs = while_current-Runs [] h (check_keyword-Live _) dataset_clause-Takes

  pub parse_values_clause-Runs : Runs n (parse_values_clause_optional fuel)
  unfolding parse_values_clause_optional
  parse_values_clause-Runs =
      match-Runs_within (check_keyword-Live _)
        (bind-Runs (Eats-Runs (parse_inline_data-Eats n fuel h)) λ values. pure-Runs _)
        (pure-Runs _)

  limit_offset-Runs : Runs n (parse_limit_offset_clauses fuel)
  unfolding parse_limit_offset_clauses ordinal
  limit_offset-Runs = repeat-Runs _ h λ (limit, offset).
      match-Turns (check_keyword-Live _)
        (bind-Runs (Eats-Runs (expect-Eats _ _ refl)) λ n. pure-Runs _)
        (match-Turns (check_keyword-Live _)
          (bind-Runs (Eats-Runs (expect-Eats _ _ refl)) λ n. pure-Runs _) (done-Turns _))

module _ (n : ℕ) (calls : Calls) (h : Fit n calls) where
  select_item-Eats : Eats n (parse_select_item calls)
  unfolding parse_select_item ordinal
  select_item-Eats =
      if-Eats is_var-Live (Eats-Takes (bind-Eats_within (parse_var-Eats n) λ v. pure-Runs _)) (
        match-Eats_within (check-Live _ refl)
          (bind-Runs (Eats-Runs h.expression) λ e. seq-Runs (Eats-Runs (expect_keyword-Eats _)) (
            bind-Runs (Eats-Runs (parse_var-Eats n))
              λ v. seq-Runs (Eats-Runs (expect-Eats _ _ refl)) (pure-Runs _)))
          (error-Eats _))

  select_modifier-Runs : Runs n (parse_select_modifier calls)
  unfolding parse_select_modifier
  select_modifier-Runs =
      match-Runs_within (check_keyword-Live _) (pure-Runs _)
        (match-Runs_within (check_keyword-Live _) (pure-Runs _) (pure-Runs _))

  pub parse_select_clause-Eats : Eats (suc n) (parse_select_clause calls)
  unfolding parse_select_clause ordinal
  parse_select_clause-Eats = seq-Eats (expect_keyword-Eats _) (
      bind-Runs select_modifier-Runs λ _. match-Runs_within (check-Live _ refl) (pure-Runs _) (
        bind-Runs (Eats-Runs (at_least_one-Eats _ h.loops_inside select_item-Eats))
          λ items. pure-Runs _))

  group_condition-Eats : Eats n (parse_group_condition calls)
  unfolding parse_group_condition ordinal
  group_condition-Eats =
      if-Eats is_var-Live (Eats-Takes (bind-Eats_within (parse_var-Eats n) λ v. pure-Runs _)) (
        match-Eats_within (check-Live _ refl)
          (bind-Runs (Eats-Runs h.expression) λ e.
            bind-Runs
              (match-Runs_within (check_keyword-Live _)
                (bind-Runs (Eats-Runs (parse_var-Eats n)) λ v. pure-Runs _) (pure-Runs _))
              λ as_var. seq-Runs (Eats-Runs (expect-Eats _ _ refl)) (pure-Runs _))
          (if-Eats is_iri-Live
            (Eats-Takes (
              bind-Eats_within (Eats-lower (parse_iri_or_function_call-Eats n calls h))
                λ e. pure-Runs _))
            (bind-Eats_within (Eats-lower (parse_built_in-Eats n calls h)) λ e. pure-Runs _)))

  group_clause-Takes : Takes n (parse_group_clause calls)
  unfolding parse_group_clause
  group_clause-Takes = seq-Takes_within advance-Takes (
      seq-Runs (Eats-Runs (expect_keyword-Eats _)) (
        bind-Runs (Eats-Runs (at_least_one-Eats _ h.loops_inside group_condition-Eats))
          λ _. pure-Runs _))

  having_clause-Takes : Takes n (parse_having_clause calls)
  unfolding parse_having_clause
  having_clause-Takes =
      seq-Takes_within advance-Takes
        (bind-Runs (Eats-Runs (at_least_one-Eats _ h.loops_inside h.expression)) λ _. pure-Runs _)

  directed-Runs :
      (direction : OrderDirection) (opening closing : String)
      → Runs n (parse_directed calls direction opening closing)
  unfolding parse_directed ordinal
  directed-Runs direction opening closing = seq-Runs (Eats-Runs (expect-Eats _ _ refl)) (
      bind-Runs (Eats-Runs h.expression)
        λ e. seq-Runs (Eats-Runs (expect-Eats _ _ refl)) (pure-Runs _))

  order_condition-Eats : Eats n (parse_order_condition calls)
  unfolding parse_order_condition
  order_condition-Eats = match-Eats_within (check_keyword-Live _) (directed-Runs _ _ _) (
      match-Eats_within (check_keyword-Live _) (directed-Runs _ _ _) (
        if-Eats is_var-Live (Eats-Takes (bind-Eats_within (parse_var-Eats n) λ v. pure-Runs _))
          (bind-Eats_within h.expression λ e. pure-Runs _)))

  order_clause-Takes : Takes n (parse_order_clause calls)
  unfolding parse_order_clause
  order_clause-Takes = seq-Takes_within advance-Takes (
      seq-Runs (Eats-Runs (expect_keyword-Eats _)) (
        bind-Runs (Eats-Runs (at_least_one-Eats _ h.loops_inside order_condition-Eats))
          λ _. pure-Runs _))

  pub parse_solution_modifier-Runs : Runs n (parse_solution_modifier calls)
  unfolding parse_solution_modifier
  parse_solution_modifier-Runs =
      bind-Runs (if-Runs (check_keyword-Live _) group_clause-Takes (pure-Runs _)) λ _.
        bind-Runs (if-Runs (check_keyword-Live _) having_clause-Takes (pure-Runs _)) λ _.
          bind-Runs (if-Runs (check_keyword-Live _) order_clause-Takes (pure-Runs _))
            λ _. bind-Runs (limit_offset-Runs n calls.fuel h.loops_inside) λ _. pure-Runs _
