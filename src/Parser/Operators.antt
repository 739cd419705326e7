-- ===== src/Parser/Operators.antt =====
-- Primary expressions and the operators over them (src/sparql-parser/ParserExpressions.cpp).
use sql2rdf.Base.{Bool, true, false, ◌&&◌, ◌||◌, if◌then◌else◌, ◌==◌, drop, Bytes}
use sql2rdf.Expr.{UnaryOp, BinaryOp}
use sql2rdf.Lexer.Cursor.{byte_at}
use sql2rdf.Lexer.Token.{TokenType, Token}
use sql2rdf.Ast.{Expression, literal_expr, var_expr, unary_expr, binary_expr, in_expr, pack}
use sql2rdf.Parser.State.{
  Action, ◌>>=◌, ◌>>◌, pure, advance, check, check_keyword, current, if_current, if_match, expect,
  expect_keyword, Turn, again, done, repeat,
}
use sql2rdf.Parser.Iris.{is_var, is_iri, parse_var}
use sql2rdf.Parser.Calls.{Calls}
use sql2rdf.Parser.Literals.{
  typed, number_datatype, is_number, is_boolean, parse_rdf_literal, parse_numeric_literal,
  parse_boolean_literal,
}
use sql2rdf.Parser.Expressions.{
  parse_expression_list, parse_built_in_call_or_aggregate_or_exists, parse_iri_or_function_call,
}

-- A numeral with a sign in front.
unfoldable pub is_signed_number : Token → Bool
is_signed_number t = is_number t && (byte_at t.text 0 == b'+' || byte_at t.text 0 == b'-')

abbrev pub sign_op : Bytes → BinaryOp
sign_op text = if byte_at text 0 == b'-' then BinaryOp.sub else BinaryOp.add

module _ (calls : Calls) where
  unfoldable pub parse_primary_expression : Action Expression
  parse_primary_expression =
      if_match (check TokenType.l_paren)
        (do
          e ← calls.parse_expression
          expect TokenType.r_paren "')' closing a parenthesized expression"
          pure e)
        (if_current is_var (do v ← parse_var; pure (var_expr v))
          (if_current (check TokenType.string_literal)
            (do literal ← parse_rdf_literal; pure (literal_expr literal))
            (if_current is_number (do literal ← parse_numeric_literal; pure (literal_expr literal))
              (if_current is_boolean
                (do literal ← parse_boolean_literal; pure (literal_expr literal))
                (if_current is_iri (parse_iri_or_function_call calls)
                  (parse_built_in_call_or_aggregate_or_exists calls))))))

  unfoldable pub parse_unary_operand : UnaryOp → Action Expression
  parse_unary_operand op = do e ← parse_primary_expression; pure (unary_expr op e)

  unfoldable pub parse_unary_expression : Action Expression
  parse_unary_expression = if_match (check TokenType.bang) (parse_unary_operand UnaryOp.not) (
      if_match (check TokenType.plus) (parse_unary_operand UnaryOp.plus) (
        if_match (check TokenType.minus) (parse_unary_operand UnaryOp.minus)
          parse_primary_expression))

  -- A round of a loop over left-associative operators: `left` becomes the left operand.
  unfoldable pub grow : BinaryOp → Expression → Action Expression → Action (Turn Expression)
  grow op left operand = do right ← operand; pure (again (binary_expr op left right))

  unfoldable pub continue_multiplicative_from : Expression → Action Expression
  continue_multiplicative_from = repeat calls.fuel λ left.
      if_match (check TokenType.star) (grow BinaryOp.mul left parse_unary_expression) (
        if_match (check TokenType.slash) (grow BinaryOp.div left parse_unary_expression)
          (pure (done left)))

  unfoldable pub parse_multiplicative_expression : Action Expression
  parse_multiplicative_expression = do
    left ← parse_unary_expression
    continue_multiplicative_from left

  -- A signed numeral behind an operand: its sign is the operator.
  unfoldable pub parse_signed_operand : Expression → Action (Turn Expression)
  parse_signed_operand left = do
    t ← current
    advance
    grow (sign_op t.text) left (
        continue_multiplicative_from
          (literal_expr (typed (drop 1 t.text) (number_datatype t.type))))

  unfoldable pub parse_additive_expression : Action Expression
  parse_additive_expression = do
    first ← parse_multiplicative_expression
    repeat calls.fuel
        (λ left.
          if_match (check TokenType.plus) (grow BinaryOp.add left parse_multiplicative_expression) (
            if_match (check TokenType.minus)
              (grow BinaryOp.sub left parse_multiplicative_expression)
              (if_current is_signed_number (parse_signed_operand left) (pure (done left)))))
        first

  unfoldable pub compare : BinaryOp → Expression → Action Expression
  compare op left = do right ← parse_additive_expression; pure (binary_expr op left right)

  unfoldable pub parse_in_list : Expression → Bool → Action Expression
  parse_in_list left negated = do
    list ← parse_expression_list calls
    pure (in_expr left (pack list) negated)

  unfoldable pub parse_relational_expression : Action Expression
  parse_relational_expression = do
    left ← parse_additive_expression
    if_match (check TokenType.equals) (compare BinaryOp.eq left) (
        if_match (check TokenType.not_equals) (compare BinaryOp.ne left) (
          if_match (check TokenType.less) (compare BinaryOp.lt left) (
            if_match (check TokenType.greater) (compare BinaryOp.gt left) (
              if_match (check TokenType.less_equals) (compare BinaryOp.le left) (
                if_match (check TokenType.greater_equals) (compare BinaryOp.ge left) (
                  if_match (check_keyword "IN") (parse_in_list left false) (
                    if_match (check_keyword "NOT") (do expect_keyword "IN"; parse_in_list left true)
                      (pure left))))))))

  unfoldable pub parse_conditional_and_expression : Action Expression
  parse_conditional_and_expression = do
    first ← parse_relational_expression
    repeat calls.fuel
        (λ left.
          if_match (check TokenType.and_and) (grow BinaryOp.and left parse_relational_expression)
            (pure (done left)))
        first

  unfoldable pub parse_conditional_or_expression : Action Expression
  parse_conditional_or_expression = do
    first ← parse_conditional_and_expression
    repeat calls.fuel
        (λ left.
          if_match (check TokenType.or_or) (grow BinaryOp.or left parse_conditional_and_expression)
            (pure (done left)))
        first
