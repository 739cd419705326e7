-- ===== src/Parser/Expressions.antt =====
-- Expressions, from the operators of lowest precedence to the primary ones
-- (src/sparql-parser/ParserExpressions.cpp).
use Prim.Native.String.{String}
use sql2rdf.Base.{
  ℕ, Bool, true, false, ◌||◌, List, [], ◌∷◌, ◌++◌, Option, none, some, if◌then◌else◌, ltb, length,
  Bytes, codes,
}
use sql2rdf.Expr.{AggregateKind, BuiltinFunction}
use sql2rdf.Lexer.Token.{TokenType}
use sql2rdf.Ast.{
  Expression, var_expr, iri_expr, function_call_expr, built_in_call_expr, aggregate_expr,
  exists_expr, null_expression, an_expression, pack,
}
use sql2rdf.Parser.State.{
  Action, ◌>>=◌, ◌>>◌, pure, error, advance, check, check_keyword, if_current, if_match, matched,
  expect, expect_keyword, again, done, repeat, while_match,
}
use sql2rdf.Parser.Iris.{parse_iri, parse_var}
use sql2rdf.Parser.Calls.{Calls}
use sql2rdf.Parser.Builtins.{zero_arg_builtins, one_arg_builtins, two_arg_builtins}

abbrev pub lone : Expression → List Expression
lone e = e ∷ []

module _ (calls : Calls) where
  -- `parseExpressionList()` and `parseArgList(&distinct)`.
  unfoldable pub parse_expression_list : Action (List Expression)
  parse_expression_list = if_match (check TokenType.nil) (pure []) (do
    expect TokenType.l_paren "'(' to start an expression list"
    e ← calls.parse_expression
    list ← while_match calls.fuel (check TokenType.comma) calls.parse_expression (lone e)
    expect TokenType.r_paren "')' closing an expression list"
    pure list)

  unfoldable pub parse_arg_list : Action (List Expression × Bool)
  parse_arg_list = if_match (check TokenType.nil) (pure ([], false)) (do
    expect TokenType.l_paren "'(' to start an argument list"
    distinct ← matched (check_keyword "DISTINCT")
    args ← if_current (check TokenType.r_paren) (pure []) (do
      e ← calls.parse_expression
      while_match calls.fuel (check TokenType.comma) calls.parse_expression (lone e))
    expect TokenType.r_paren "')' closing an argument list"
    pure (args, distinct))

  unfoldable pub parse_builtin_args_n : BuiltinFunction → ℕ → ℕ → Action Expression
  parse_builtin_args_n fn min_args max_args = do
    advance
    expect TokenType.l_paren "'(' to start this function's argument list"
    e ← calls.parse_expression
    args ←
        repeat calls.fuel
          (λ args.
            if ltb (length args) max_args
            then if_match (check TokenType.comma)
                (do arg ← calls.parse_expression; pure (again (args ++ lone arg)))
                (pure (done args))
            else pure (done args))
          (lone e)
    expect TokenType.r_paren "')' closing this function's argument list"
    if ltb (length args) min_args
        then error (codes "too few arguments to function call")
        else pure (built_in_call_expr fn (pack args))

  -- The separator of GROUP_CONCAT.
  unfoldable pub parse_separator : Action (Option Bytes)
  parse_separator =
      if_match (check TokenType.semicolon)
        (do
          expect_keyword "SEPARATOR"
          expect TokenType.equals "'=' after SEPARATOR"
          sep ← expect TokenType.string_literal "a string literal for SEPARATOR"
          pure (some sep.text))
        (pure none)

  unfoldable pub plain_aggregate : AggregateKind → Bool → Action Expression
  plain_aggregate kind distinct = do
    e ← calls.parse_expression
    pure (aggregate_expr kind distinct false (an_expression e) none)

  unfoldable pub aggregate_of : AggregateKind → Bool → Action Expression
  aggregate_of AggregateKind.group_concat distinct = do
    e ← calls.parse_expression
    separator ← parse_separator
    pure (aggregate_expr AggregateKind.group_concat distinct false (an_expression e) separator)
  aggregate_of AggregateKind.count distinct =
      if_match (check TokenType.star)
        (pure (aggregate_expr AggregateKind.count distinct true null_expression none))
        (plain_aggregate AggregateKind.count distinct)
  aggregate_of kind distinct = plain_aggregate kind distinct

  unfoldable pub parse_aggregate : AggregateKind → Action Expression
  parse_aggregate kind = do
    advance
    expect TokenType.l_paren "'(' after aggregate name"
    distinct ← matched (check_keyword "DISTINCT")
    e ← aggregate_of kind distinct
    expect TokenType.r_paren "')' closing aggregate call"
    pure e

  unfoldable pub parse_bound : Action Expression
  parse_bound = do
    advance
    expect TokenType.l_paren "'(' after BOUND"
    v ← parse_var
    expect TokenType.r_paren "')' closing BOUND(...)"
    pure (built_in_call_expr BuiltinFunction.bound (pack (lone (var_expr v))))

  unfoldable pub parse_if : Action Expression
  parse_if = do
    advance
    expect TokenType.l_paren "'(' after IF"
    condition ← calls.parse_expression
    expect TokenType.comma "',' in IF(...)"
    x ← calls.parse_expression
    expect TokenType.comma "',' in IF(...)"
    y ← calls.parse_expression
    expect TokenType.r_paren "')' closing IF(...)"
    pure (built_in_call_expr BuiltinFunction.if_fn (pack (condition ∷ x ∷ y ∷ [])))

  unfoldable pub parse_bnode : Action Expression
  parse_bnode = do
    advance
    args ← if_match (check TokenType.nil) (pure []) (do
      expect TokenType.l_paren "'(' after BNODE"
      e ← calls.parse_expression
      expect TokenType.r_paren "')' closing BNODE(...)"
      pure (lone e))
    pure (built_in_call_expr BuiltinFunction.bnode (pack args))

  -- `advance()`, then the arguments of COALESCE or CONCAT.
  unfoldable pub parse_list_call : BuiltinFunction → Action Expression
  parse_list_call fn = do
    advance
    args ← parse_expression_list
    pure (built_in_call_expr fn (pack args))

  unfoldable pub parse_exists : Bool → Action Expression
  parse_exists negated = do
    pattern_ ← calls.parse_group_graph_pattern
    pure (exists_expr negated pattern_)

  -- The loops over the tables.
  unfoldable pub among :
      List (String × BuiltinFunction)
      → (BuiltinFunction → Action Expression)
      → Action Expression
      → Action Expression
  among [] call otherwise = otherwise
  among ((kw, fn) ∷ table) call otherwise =
      if_current (check_keyword kw) (call fn) (among table call otherwise)

  unfoldable pub parse_zero_arg_call : BuiltinFunction → Action Expression
  parse_zero_arg_call fn = do
    advance
    matched (check TokenType.nil)
    pure (built_in_call_expr fn (pack []))

  -- The tests behind BNODE.
  unfoldable pub parse_table_call : Action Expression
  parse_table_call = among zero_arg_builtins parse_zero_arg_call (
      among one_arg_builtins (λ fn. parse_builtin_args_n fn 1 1)
        (among two_arg_builtins (λ fn. parse_builtin_args_n fn 2 2)
          (if_current (check_keyword "SUBSTR") (parse_builtin_args_n BuiltinFunction.substr 2 3) (
            if_current (check_keyword "REGEX") (parse_builtin_args_n BuiltinFunction.regex 2 3) (
              if_current (check_keyword "REPLACE")
                (parse_builtin_args_n BuiltinFunction.replace 3 4)
                (error
                  (codes "expected a built-in function call, aggregate, or EXISTS/NOT EXISTS")))))))

  -- The tests behind the aggregates.
  unfoldable pub parse_call : Action Expression
  parse_call =
      if_match (check_keyword "NOT") (do expect_keyword "EXISTS"; parse_exists true)
        (if_match (check_keyword "EXISTS") (parse_exists false) (
          if_current (check_keyword "BOUND") parse_bound (
            if_current (check_keyword "IF") parse_if (
              if_current (check_keyword "COALESCE") (parse_list_call BuiltinFunction.coalesce) (
                if_current (check_keyword "CONCAT") (parse_list_call BuiltinFunction.concat)
                  (if_current (check_keyword "BNODE") parse_bnode parse_table_call))))))

  unfoldable pub parse_built_in_call_or_aggregate_or_exists : Action Expression
  parse_built_in_call_or_aggregate_or_exists =
      if_current (check_keyword "COUNT") (parse_aggregate AggregateKind.count) (
        if_current (check_keyword "SUM") (parse_aggregate AggregateKind.sum) (
          if_current (check_keyword "MIN") (parse_aggregate AggregateKind.min) (
            if_current (check_keyword "MAX") (parse_aggregate AggregateKind.max) (
              if_current (check_keyword "AVG") (parse_aggregate AggregateKind.avg) (
                if_current (check_keyword "SAMPLE") (parse_aggregate AggregateKind.sample) (
                  if_current (check_keyword "GROUP_CONCAT")
                    (parse_aggregate AggregateKind.group_concat) parse_call))))))

  unfoldable pub parse_iri_or_function_call : Action Expression
  parse_iri_or_function_call = do
    iri ← parse_iri
    if_current (λ t. check TokenType.l_paren t || check TokenType.nil t)
        (do (args, distinct) ← parse_arg_list; pure (function_call_expr iri (pack args) distinct))
        (pure (iri_expr iri))
