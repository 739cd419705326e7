-- ===== src/Parser/Clauses.antt =====
-- The clauses of a query but its pattern: SELECT, FROM, the solution modifiers and VALUES
-- (src/sparql-parser/Parser.cpp).
use Prim.Native.String.{String}
use sql2rdf.Base.{ℕ, Bool, true, false, ◌||◌, List, [], Option, none, some, codes}
use sql2rdf.Lexer.Token.{TokenType}
use sql2rdf.Ast.{
  Var, DatasetClause, InlineData, ℤ, OrderDirection, Expression, var_expr, Expressions,
  MaybeExpression, null_expression, an_expression, SelectItems, GroupConditions, OrderConditions,
  pack, pack_items, pack_group_by, pack_order_by, no_items,
}
use sql2rdf.Parser.State.{
  Action, ◌>>=◌, ◌>>◌, pure, error, advance, check, check_keyword, if_current, if_match, matched,
  expect, expect_keyword, again, done, repeat, while_current, at_least_one,
}
use sql2rdf.Parser.Iris.{is_var, is_iri, parse_iri, parse_var}
use sql2rdf.Parser.Numbers.{strtol}
use sql2rdf.Parser.Calls.{Calls}
use sql2rdf.Parser.Builtins.{starts_expression}
use sql2rdf.Parser.Expressions.{
  parse_built_in_call_or_aggregate_or_exists, parse_iri_or_function_call,
}
use sql2rdf.Parser.Patterns.{parse_inline_data}

-- What `parseSelectClause` sets in the query.
pub record SelectClause : Type 0 where
  pub distinct : Bool
  pub reduced : Bool
  pub select_star : Bool
  pub items : SelectItems

-- `SolutionModifier`; a flag with a number is an option.
pub record SolutionModifier : Type 0 where
  pub group_by : GroupConditions
  pub having : Expressions
  pub order_by : OrderConditions
  pub limit : Option ℤ
  pub offset : Option ℤ

unfoldable pub parse_dataset_clause : Action DatasetClause
parse_dataset_clause = do
  advance
  named ← matched (check_keyword "NAMED")
  iri ← parse_iri
  pure record { named = named; iri = iri }

unfoldable pub parse_dataset_clauses : ℕ → Action (List DatasetClause)
parse_dataset_clauses fuel = while_current fuel (check_keyword "FROM") parse_dataset_clause []

unfoldable pub parse_values_clause_optional : ℕ → Action (Option InlineData)
parse_values_clause_optional fuel =
    if_match (check_keyword "VALUES") (do values ← parse_inline_data fuel; pure (some values))
      (pure none)

-- The two numbers so far, and the integer behind LIMIT or OFFSET.
unfoldable pub parse_limit_offset_clauses : ℕ → Action (Option ℤ × Option ℤ)
parse_limit_offset_clauses fuel =
    repeat fuel
      (λ (limit, offset).
        if_match (check_keyword "LIMIT")
          (do
            n ← expect TokenType.integer "an integer after LIMIT"
            pure (again (some (strtol n.text), offset)))
          (if_match (check_keyword "OFFSET")
            (do
              n ← expect TokenType.integer "an integer after OFFSET"
              pure (again (limit, some (strtol n.text))))
            (pure (done (limit, offset)))))
      (none, none)

module _ (calls : Calls) where
  unfoldable pub parse_select_item : Action (Var × MaybeExpression)
  parse_select_item =
      if_current is_var (do v ← parse_var; pure (v, null_expression))
        (if_match (check TokenType.l_paren)
          (do
            e ← calls.parse_expression
            expect_keyword "AS"
            v ← parse_var
            expect TokenType.r_paren "')' after select expression"
            pure (v, an_expression e))
          (error (codes "expected a variable or '(' expression AS variable ')' in SELECT clause")))

  -- DISTINCT or REDUCED.
  unfoldable pub parse_select_modifier : Action (Bool × Bool)
  parse_select_modifier =
      if_match (check_keyword "DISTINCT") (pure (true, false))
        (if_match (check_keyword "REDUCED") (pure (false, true)) (pure (false, false)))

  unfoldable pub parse_select_clause : Action SelectClause
  parse_select_clause = do
    expect_keyword "SELECT"
    (distinct, reduced) ← parse_select_modifier
    if_match (check TokenType.star)
        (pure
          record { distinct = distinct; reduced = reduced; select_star = true; items = no_items })
        (do
          items ←
              at_least_one calls.fuel (λ t. is_var t || check TokenType.l_paren t) parse_select_item
          pure record {
            distinct = distinct;
            reduced = reduced;
            select_star = false;
            items = pack_items items;
          })

  unfoldable pub parse_group_condition : Action (Expression × Option Var)
  parse_group_condition =
      if_current is_var (do v ← parse_var; pure (var_expr v, none))
        (if_match (check TokenType.l_paren)
          (do
            e ← calls.parse_expression
            as_var ← if_match (check_keyword "AS") (do v ← parse_var; pure (some v)) (pure none)
            expect TokenType.r_paren "')' closing GROUP BY condition"
            pure (e, as_var))
          (if_current is_iri (do e ← parse_iri_or_function_call calls; pure (e, none))
            (do e ← parse_built_in_call_or_aggregate_or_exists calls; pure (e, none))))

  unfoldable pub parse_group_clause : Action GroupConditions
  parse_group_clause = do
    advance
    expect_keyword "BY"
    conditions ← at_least_one calls.fuel starts_expression parse_group_condition
    pure (pack_group_by conditions)

  unfoldable pub parse_having_clause : Action Expressions
  parse_having_clause = do
    advance
    conditions ← at_least_one calls.fuel starts_expression calls.parse_expression
    pure (pack conditions)

  -- The condition behind ASC or DESC.
  unfoldable pub parse_directed :
      OrderDirection → String → String → Action (OrderDirection × Expression)
  parse_directed direction opening closing = do
    expect TokenType.l_paren opening
    e ← calls.parse_expression
    expect TokenType.r_paren closing
    pure (direction, e)

  unfoldable pub parse_order_condition : Action (OrderDirection × Expression)
  parse_order_condition =
      if_match (check_keyword "ASC")
        (parse_directed OrderDirection.asc "'(' after ASC" "')' closing ASC(...)")
        (if_match (check_keyword "DESC")
          (parse_directed OrderDirection.desc "'(' after DESC" "')' closing DESC(...)")
          (if_current is_var (do v ← parse_var; pure (OrderDirection.asc, var_expr v))
            (do e ← calls.parse_expression; pure (OrderDirection.asc, e))))

  unfoldable pub parse_order_clause : Action OrderConditions
  parse_order_clause = do
    advance
    expect_keyword "BY"
    conditions ←
        at_least_one calls.fuel
          (λ t. starts_expression t || check_keyword "ASC" t || check_keyword "DESC" t)
          parse_order_condition
    pure (pack_order_by conditions)

  unfoldable pub parse_solution_modifier : Action SolutionModifier
  parse_solution_modifier = do
    group_by ← if_current (check_keyword "GROUP") parse_group_clause (pure (pack_group_by []))
    having ← if_current (check_keyword "HAVING") parse_having_clause (pure (pack []))
    order_by ← if_current (check_keyword "ORDER") parse_order_clause (pure (pack_order_by []))
    (limit, offset) ← parse_limit_offset_clauses calls.fuel
    pure record {
      group_by = group_by;
      having = having;
      order_by = order_by;
      limit = limit;
      offset = offset;
    }
