-- ===== src/Parser/Total/Expressions.antt =====
-- Literals and calls.
use Prim.Native.String.{String}
use sql2rdf.Base.{ℕ, suc, Bool, true, false, List, refl, [], ◌∷◌, ltb, length}
use sql2rdf.Expr.{AggregateKind, BuiltinFunction}
use sql2rdf.Lexer.Token.{TokenType}
use sql2rdf.Ast.{Expression}
use sql2rdf.Parser.State.{ordinal, check, Action, while_match}
use sql2rdf.Parser.Calls.{Calls}
use sql2rdf.Parser.Literals.{
  is_number, is_boolean, is_carets, parse_rdf_literal, parse_numeric_literal, parse_boolean_literal,
}
use sql2rdf.Parser.Builtins.{any_keyword, starts_expression}
use sql2rdf.Parser.Expressions.{
  parse_expression_list, parse_arg_list, parse_builtin_args_n, parse_separator, aggregate_of,
  plain_aggregate, lone, parse_aggregate, parse_bound, parse_if, parse_bnode, parse_list_call,
  parse_exists, among, parse_zero_arg_call, parse_table_call, parse_call,
  parse_built_in_call_or_aggregate_or_exists, parse_iri_or_function_call,
}
use sql2rdf.Parser.Total.Paths.{is_var-Live, is_iri-Live, parse_iri-Eats, parse_var-Eats}
use sql2rdf.Parser.Total.{
  Runs, Eats, Takes, Live, Eats-Runs, Eats-lower, pure-Runs, error-Eats, if-Runs, if-Eats,
  branch-Runs, check-Live, check_keyword-Live, or-Live, and-Live, bind-Runs, bind-Eats,
  unchanged-Takes, bind-Eats_within, seq-Runs, seq-Eats, seq-Takes, seq-Takes_within,
}
use sql2rdf.Parser.Total.Steps.{
  current-Keeps, advance-Takes, match-Eats, match-Runs_within, matched-Runs, expect-Eats,
  expect_keyword-Eats,
}
use sql2rdf.Parser.Total.Loops.{
  done-Turns, match-Turns, repeat-Runs, while_match-Runs, Turns-if, Runs-if,
}
use sql2rdf.Parser.Total.Rules.{Fit}

pub is_number-Live : Live is_number
unfolding is_number ordinal
is_number-Live = or-Live (or-Live (check-Live _ refl) (check-Live _ refl)) (check-Live _ refl)

pub is_boolean-Live : Live is_boolean
unfolding is_boolean
is_boolean-Live = or-Live (check_keyword-Live _) (check_keyword-Live _)

is_carets-Live : Live is_carets
unfolding is_carets ordinal
is_carets-Live = and-Live _ (check-Live _ refl)

pub parse_rdf_literal-Eats : (n : ℕ) → Eats n parse_rdf_literal
unfolding parse_rdf_literal ordinal
parse_rdf_literal-Eats n = bind-Eats_within (expect-Eats _ _ refl) λ str.
    if-Runs (check-Live _ refl)
      (unchanged-Takes current-Keeps λ tag. seq-Takes_within advance-Takes (pure-Runs _))
      (if-Runs is_carets-Live
        (seq-Takes_within advance-Takes
          (bind-Runs (Eats-Runs (parse_iri-Eats n)) λ iri. pure-Runs _))
        (pure-Runs _))

pub parse_numeric_literal-Takes : (n : ℕ) → Takes n parse_numeric_literal
unfolding parse_numeric_literal
parse_numeric_literal-Takes n =
    unchanged-Takes current-Keeps λ t. seq-Takes_within advance-Takes (pure-Runs _)

pub parse_boolean_literal-Eats : (n : ℕ) → Eats n parse_boolean_literal
unfolding parse_boolean_literal
parse_boolean_literal-Eats n =
    if-Eats (check_keyword-Live _) (seq-Takes_within advance-Takes (pure-Runs _))
      (if-Eats (check_keyword-Live _) (seq-Takes_within advance-Takes (pure-Runs _)) (error-Eats _))

any_keyword-Live : (kws : List String) → Live (any_keyword kws)
unfolding any_keyword
any_keyword-Live [] = record { fails = λ t e. refl }
any_keyword-Live (kw ∷ kws) = or-Live (check_keyword-Live kw) (any_keyword-Live kws)

pub starts_expression-Live : Live starts_expression
unfolding starts_expression ordinal
starts_expression-Live =
    or-Live
      (or-Live
        (or-Live
          (or-Live
            (or-Live
              (or-Live (or-Live (or-Live is_var-Live (check-Live _ refl)) (check-Live _ refl))
                is_number-Live)
              is_iri-Live)
            (check-Live _ refl))
          (check-Live _ refl))
        (check-Live _ refl))
      (any_keyword-Live _)

-- A call in parentheses.
module _ (n : ℕ) (calls : Calls) (h : Fit n calls) where
  list_tail-Runs :
      (e : Expression)
      → Runs n (while_match calls.fuel (check TokenType.comma) calls.parse_expression (lone e))
  unfolding ordinal
  list_tail-Runs e =
      while_match-Runs (lone e) h.loops_inside (check-Live _ refl) (Eats-Runs h.expression)

  pub parse_expression_list-Eats : Eats (suc n) (parse_expression_list calls)
  unfolding parse_expression_list ordinal
  parse_expression_list-Eats = match-Eats (check-Live _ refl) (pure-Runs _) (
      seq-Eats (expect-Eats _ _ refl) (
        bind-Runs (Eats-Runs h.expression) λ e.
          bind-Runs (list_tail-Runs e)
            λ list. seq-Runs (Eats-Runs (expect-Eats _ _ refl)) (pure-Runs _)))

  parse_arg_list-Eats : Eats (suc n) (parse_arg_list calls)
  unfolding parse_arg_list ordinal
  parse_arg_list-Eats = match-Eats (check-Live _ refl) (pure-Runs _) (
      seq-Eats (expect-Eats _ _ refl) (
        bind-Runs (matched-Runs (check_keyword-Live _)) λ distinct.
          bind-Runs
            (branch-Runs _ (pure-Runs _) (bind-Runs (Eats-Runs h.expression) λ e. list_tail-Runs e))
            λ args. seq-Runs (Eats-Runs (expect-Eats _ _ refl)) (pure-Runs _)))

  parse_builtin_args_n-Takes :
      (fn : BuiltinFunction) (min_args max_args : ℕ)
      → Takes (suc n) (parse_builtin_args_n calls fn min_args max_args)
  unfolding parse_builtin_args_n ordinal
  parse_builtin_args_n-Takes fn min_args max_args = seq-Takes advance-Takes (
      seq-Runs (Eats-Runs (expect-Eats _ _ refl)) (
        bind-Runs (Eats-Runs h.expression) λ e.
          bind-Runs
            (repeat-Runs _ h.loops_inside λ args.
              Turns-if (ltb (length args) max_args)
                (match-Turns (check-Live _ refl)
                  (bind-Runs (Eats-Runs h.expression) λ arg. pure-Runs _) (done-Turns _))
                (done-Turns _))
            λ args.
              seq-Runs (Eats-Runs (expect-Eats _ _ refl))
                (Runs-if (ltb (length args) min_args) (Eats-Runs (error-Eats _)) (pure-Runs _))))

  parse_separator-Runs : Runs n (parse_separator calls)
  unfolding parse_separator ordinal
  parse_separator-Runs =
      match-Runs_within (check-Live _ refl)
        (seq-Runs (Eats-Runs (expect_keyword-Eats _)) (
          seq-Runs (Eats-Runs (expect-Eats _ _ refl))
            (bind-Runs (Eats-Runs (expect-Eats _ _ refl)) λ sep. pure-Runs _)))
        (pure-Runs _)

  plain-Runs :
      (kind : AggregateKind) (distinct : Bool) → Runs n (plain_aggregate calls kind distinct)
  unfolding plain_aggregate
  plain-Runs kind distinct = bind-Runs (Eats-Runs h.expression) λ e. pure-Runs _

  aggregate_of-Runs :
      (kind : AggregateKind) (distinct : Bool) → Runs n (aggregate_of calls kind distinct)
  unfolding aggregate_of ordinal
  aggregate_of-Runs AggregateKind.group_concat distinct =
      bind-Runs (Eats-Runs h.expression)
        λ e. bind-Runs parse_separator-Runs λ separator. pure-Runs _
  aggregate_of-Runs AggregateKind.count distinct =
      match-Runs_within (check-Live _ refl) (pure-Runs _) (plain-Runs AggregateKind.count distinct)
  aggregate_of-Runs AggregateKind.sum distinct = plain-Runs AggregateKind.sum distinct
  aggregate_of-Runs AggregateKind.min distinct = plain-Runs AggregateKind.min distinct
  aggregate_of-Runs AggregateKind.max distinct = plain-Runs AggregateKind.max distinct
  aggregate_of-Runs AggregateKind.avg distinct = plain-Runs AggregateKind.avg distinct
  aggregate_of-Runs AggregateKind.sample distinct = plain-Runs AggregateKind.sample distinct

  parse_aggregate-Takes : (kind : AggregateKind) → Takes (suc n) (parse_aggregate calls kind)
  unfolding parse_aggregate ordinal
  parse_aggregate-Takes kind = seq-Takes advance-Takes (
      seq-Runs (Eats-Runs (expect-Eats _ _ refl)) (
        bind-Runs (matched-Runs (check_keyword-Live _)) λ distinct.
          bind-Runs (aggregate_of-Runs kind distinct)
            λ e. seq-Runs (Eats-Runs (expect-Eats _ _ refl)) (pure-Runs _)))

  parse_bound-Takes : Takes (suc n) (parse_bound calls)
  unfolding parse_bound ordinal
  parse_bound-Takes = seq-Takes advance-Takes (
      seq-Runs (Eats-Runs (expect-Eats _ _ refl)) (
        bind-Runs (Eats-Runs (parse_var-Eats n))
          λ v. seq-Runs (Eats-Runs (expect-Eats _ _ refl)) (pure-Runs _)))

  parse_if-Takes : Takes (suc n) (parse_if calls)
  unfolding parse_if ordinal
  parse_if-Takes = seq-Takes advance-Takes (
      seq-Runs (Eats-Runs (expect-Eats _ _ refl)) (
        bind-Runs (Eats-Runs h.expression) λ condition.
          seq-Runs (Eats-Runs (expect-Eats _ _ refl)) (
            bind-Runs (Eats-Runs h.expression) λ x. seq-Runs (Eats-Runs (expect-Eats _ _ refl)) (
              bind-Runs (Eats-Runs h.expression)
                λ y. seq-Runs (Eats-Runs (expect-Eats _ _ refl)) (pure-Runs _)))))

  parse_bnode-Takes : Takes (suc n) (parse_bnode calls)
  unfolding parse_bnode ordinal
  parse_bnode-Takes = seq-Takes advance-Takes (
      bind-Runs
        (match-Runs_within (check-Live _ refl) (pure-Runs _) (
          seq-Runs (Eats-Runs (expect-Eats _ _ refl)) (
            bind-Runs (Eats-Runs h.expression)
              λ e. seq-Runs (Eats-Runs (expect-Eats _ _ refl)) (pure-Runs _))))
        λ args. pure-Runs _)

  parse_list_call-Takes : (fn : BuiltinFunction) → Takes (suc n) (parse_list_call calls fn)
  unfolding parse_list_call
  parse_list_call-Takes fn =
      seq-Takes advance-Takes
        (bind-Runs (Eats-Runs (Eats-lower parse_expression_list-Eats)) λ args. pure-Runs _)

  parse_exists-Eats : (negated : Bool) → Runs n (parse_exists calls negated)
  unfolding parse_exists
  parse_exists-Eats negated = bind-Runs (Eats-Runs h.group) λ g. pure-Runs _

  among-Eats :
      (table : List (String × BuiltinFunction)) {call : BuiltinFunction → Action Expression}
      {otherwise : Action Expression}
      → ((fn : BuiltinFunction) → Takes (suc n) (call fn))
      → Eats (suc n) otherwise
      → Eats (suc n) (among calls table call otherwise)
  unfolding among
  among-Eats [] hc ho = ho
  among-Eats ((kw, fn) ∷ table) hc ho =
      if-Eats (check_keyword-Live kw) (hc fn) (among-Eats table hc ho)

  parse_zero_arg_call-Takes : (fn : BuiltinFunction) → Takes (suc n) (parse_zero_arg_call calls fn)
  unfolding parse_zero_arg_call ordinal
  parse_zero_arg_call-Takes fn =
      seq-Takes advance-Takes (seq-Runs (matched-Runs (check-Live _ refl)) (pure-Runs _))

  parse_table_call-Eats : Eats (suc n) (parse_table_call calls)
  unfolding parse_table_call
  parse_table_call-Eats = among-Eats _ parse_zero_arg_call-Takes (
      among-Eats _ (λ fn. parse_builtin_args_n-Takes fn 1 1)
        (among-Eats _ (λ fn. parse_builtin_args_n-Takes fn 2 2)
          (if-Eats (check_keyword-Live _) (parse_builtin_args_n-Takes _ 2 3) (
            if-Eats (check_keyword-Live _) (parse_builtin_args_n-Takes _ 2 3)
              (if-Eats (check_keyword-Live _) (parse_builtin_args_n-Takes _ 3 4) (error-Eats _))))))

  parse_call-Eats : Eats (suc n) (parse_call calls)
  unfolding parse_call
  parse_call-Eats =
      match-Eats (check_keyword-Live _)
        (seq-Runs (Eats-Runs (expect_keyword-Eats _)) (parse_exists-Eats true))
        (match-Eats (check_keyword-Live _) (parse_exists-Eats false) (
          if-Eats (check_keyword-Live _) parse_bound-Takes (
            if-Eats (check_keyword-Live _) parse_if-Takes (
              if-Eats (check_keyword-Live _) (parse_list_call-Takes _) (
                if-Eats (check_keyword-Live _) (parse_list_call-Takes _)
                  (if-Eats (check_keyword-Live _) parse_bnode-Takes parse_table_call-Eats))))))

  pub parse_built_in-Eats : Eats (suc n) (parse_built_in_call_or_aggregate_or_exists calls)
  unfolding parse_built_in_call_or_aggregate_or_exists
  parse_built_in-Eats = if-Eats (check_keyword-Live _) (parse_aggregate-Takes _) (
      if-Eats (check_keyword-Live _) (parse_aggregate-Takes _) (
        if-Eats (check_keyword-Live _) (parse_aggregate-Takes _) (
          if-Eats (check_keyword-Live _) (parse_aggregate-Takes _) (
            if-Eats (check_keyword-Live _) (parse_aggregate-Takes _) (
              if-Eats (check_keyword-Live _) (parse_aggregate-Takes _)
                (if-Eats (check_keyword-Live _) (parse_aggregate-Takes _) parse_call-Eats))))))

  pub parse_iri_or_function_call-Eats : Eats (suc n) (parse_iri_or_function_call calls)
  unfolding parse_iri_or_function_call
  parse_iri_or_function_call-Eats = bind-Eats (parse_iri-Eats (suc n)) λ iri.
      branch-Runs _ (bind-Runs (Eats-Runs (Eats-lower parse_arg_list-Eats)) λ _. pure-Runs _)
        (pure-Runs _)
