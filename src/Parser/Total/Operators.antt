-- ===== src/Parser/Total/Operators.antt =====
-- Primary expressions and operators.
use sql2rdf.Base.{ℕ, suc, Bool, true, false, refl}
use sql2rdf.Expr.{UnaryOp, BinaryOp}
use sql2rdf.Ast.{Expression}
use sql2rdf.Parser.State.{ordinal, Action}
use sql2rdf.Parser.Calls.{Calls}
use sql2rdf.Parser.Operators.{
  is_signed_number, parse_primary_expression, parse_unary_operand, parse_unary_expression, grow,
  continue_multiplicative_from, parse_multiplicative_expression, parse_signed_operand,
  parse_additive_expression, compare, parse_in_list, parse_relational_expression,
  parse_conditional_and_expression, parse_conditional_or_expression,
}
use sql2rdf.Parser.Total.Paths.{is_var-Live, is_iri-Live, parse_var-Eats}
use sql2rdf.Parser.Total.Expressions.{
  is_number-Live, is_boolean-Live, parse_rdf_literal-Eats, parse_numeric_literal-Takes,
  parse_boolean_literal-Eats, parse_expression_list-Eats, parse_built_in-Eats,
  parse_iri_or_function_call-Eats,
}
use sql2rdf.Parser.Total.{
  Runs, Eats, Takes, Live, Eats-Runs, Eats-Takes, Eats-lower, pure-Runs, if-Eats, check-Live,
  check_keyword-Live, and-Live, bind-Runs, bind-Eats, bind-Takes, unchanged-Takes, seq-Runs,
  seq-Takes_within,
}
use sql2rdf.Parser.Total.Steps.{
  current-Keeps, advance-Takes, match-Eats, match-Runs_within, expect-Eats, expect_keyword-Eats,
}
use sql2rdf.Parser.Total.Loops.{done-Turns, if-Turns, match-Turns, repeat-Runs}
use sql2rdf.Parser.Total.Rules.{Fit}

is_signed_number-Live : Live is_signed_number
unfolding is_signed_number
is_signed_number-Live = and-Live _ is_number-Live

module _ (n : ℕ) (calls : Calls) (h : Fit n calls) where
  pub parse_primary_expression-Eats : Eats (suc n) (parse_primary_expression calls)
  unfolding parse_primary_expression ordinal
  parse_primary_expression-Eats =
      match-Eats (check-Live _ refl)
        (bind-Runs (Eats-Runs h.expression)
          λ e. seq-Runs (Eats-Runs (expect-Eats _ _ refl)) (pure-Runs _))
        (if-Eats is_var-Live (Eats-Takes (bind-Eats (parse_var-Eats (suc n)) λ v. pure-Runs _)) (
          if-Eats (check-Live _ refl)
            (Eats-Takes (bind-Eats (parse_rdf_literal-Eats (suc n)) λ literal. pure-Runs _))
            (if-Eats is_number-Live
              (bind-Takes (parse_numeric_literal-Takes (suc n)) λ literal. pure-Runs _)
              (if-Eats is_boolean-Live
                (Eats-Takes (bind-Eats (parse_boolean_literal-Eats (suc n)) λ literal. pure-Runs _))
                (if-Eats is_iri-Live (Eats-Takes (parse_iri_or_function_call-Eats n calls h))
                  (parse_built_in-Eats n calls h))))))

  primary-Runs : Runs n (parse_primary_expression calls)
  primary-Runs = Eats-Runs (Eats-lower parse_primary_expression-Eats)

  parse_unary_operand-Runs : (op : UnaryOp) → Runs n (parse_unary_operand calls op)
  unfolding parse_unary_operand
  parse_unary_operand-Runs op = bind-Runs primary-Runs λ e. pure-Runs _

  parse_unary_expression-Eats : Eats (suc n) (parse_unary_expression calls)
  unfolding parse_unary_expression ordinal
  parse_unary_expression-Eats = match-Eats (check-Live _ refl) (parse_unary_operand-Runs _) (
      match-Eats (check-Live _ refl) (parse_unary_operand-Runs _)
        (match-Eats (check-Live _ refl) (parse_unary_operand-Runs _) parse_primary_expression-Eats))

  grow-Runs :
      (op : BinaryOp) (left : Expression) {operand : Action Expression}
      → Runs n operand
      → Runs n (grow calls op left operand)
  unfolding grow
  grow-Runs op left hr = bind-Runs hr λ right. pure-Runs _

  unary-Runs : Runs n (parse_unary_expression calls)
  unary-Runs = Eats-Runs (Eats-lower parse_unary_expression-Eats)

  continue_multiplicative_from-Runs :
      (left : Expression) → Runs n (continue_multiplicative_from calls left)
  unfolding continue_multiplicative_from ordinal
  continue_multiplicative_from-Runs left = repeat-Runs left h.loops_inside λ left.
      match-Turns (check-Live _ refl) (grow-Runs _ left unary-Runs)
        (match-Turns (check-Live _ refl) (grow-Runs _ left unary-Runs) (done-Turns left))

  parse_multiplicative_expression-Eats : Eats (suc n) (parse_multiplicative_expression calls)
  unfolding parse_multiplicative_expression
  parse_multiplicative_expression-Eats =
      bind-Eats parse_unary_expression-Eats continue_multiplicative_from-Runs

  multiplicative-Runs : Runs n (parse_multiplicative_expression calls)
  multiplicative-Runs = Eats-Runs (Eats-lower parse_multiplicative_expression-Eats)

  parse_signed_operand-Takes : (left : Expression) → Takes n (parse_signed_operand calls left)
  unfolding parse_signed_operand
  parse_signed_operand-Takes left =
      unchanged-Takes current-Keeps
        λ t. seq-Takes_within advance-Takes (grow-Runs _ left (continue_multiplicative_from-Runs _))

  parse_additive_expression-Eats : Eats (suc n) (parse_additive_expression calls)
  unfolding parse_additive_expression ordinal
  parse_additive_expression-Eats = bind-Eats parse_multiplicative_expression-Eats λ first.
      repeat-Runs first h.loops_inside λ left.
        match-Turns (check-Live _ refl) (grow-Runs _ left multiplicative-Runs) (
          match-Turns (check-Live _ refl) (grow-Runs _ left multiplicative-Runs)
            (if-Turns is_signed_number-Live (parse_signed_operand-Takes left) (done-Turns left)))

  compare-Runs : (op : BinaryOp) (left : Expression) → Runs n (compare calls op left)
  unfolding compare
  compare-Runs op left =
      bind-Runs (Eats-Runs (Eats-lower parse_additive_expression-Eats)) λ right. pure-Runs _

  parse_in_list-Runs :
      (left : Expression) (negated : Bool) → Runs n (parse_in_list calls left negated)
  unfolding parse_in_list
  parse_in_list-Runs left negated =
      bind-Runs (Eats-Runs (Eats-lower (parse_expression_list-Eats n calls h))) λ list. pure-Runs _

  parse_relational_expression-Eats : Eats (suc n) (parse_relational_expression calls)
  unfolding parse_relational_expression ordinal
  parse_relational_expression-Eats = bind-Eats parse_additive_expression-Eats λ left.
      match-Runs_within (check-Live _ refl) (compare-Runs _ left) (
        match-Runs_within (check-Live _ refl) (compare-Runs _ left) (
          match-Runs_within (check-Live _ refl) (compare-Runs _ left) (
            match-Runs_within (check-Live _ refl) (compare-Runs _ left) (
              match-Runs_within (check-Live _ refl) (compare-Runs _ left) (
                match-Runs_within (check-Live _ refl) (compare-Runs _ left) (
                  match-Runs_within (check_keyword-Live _) (parse_in_list-Runs left false) (
                    match-Runs_within (check_keyword-Live _)
                      (seq-Runs (Eats-Runs (expect_keyword-Eats _)) (parse_in_list-Runs left true))
                      (pure-Runs left))))))))

  parse_conditional_and_expression-Eats : Eats (suc n) (parse_conditional_and_expression calls)
  unfolding parse_conditional_and_expression ordinal
  parse_conditional_and_expression-Eats = bind-Eats parse_relational_expression-Eats λ first.
      repeat-Runs first h.loops_inside λ left.
        match-Turns (check-Live _ refl)
          (grow-Runs _ left (Eats-Runs (Eats-lower parse_relational_expression-Eats)))
          (done-Turns left)

  pub parse_conditional_or_expression-Eats : Eats (suc n) (parse_conditional_or_expression calls)
  unfolding parse_conditional_or_expression ordinal
  parse_conditional_or_expression-Eats = bind-Eats parse_conditional_and_expression-Eats λ first.
      repeat-Runs first h.loops_inside λ left.
        match-Turns (check-Live _ refl)
          (grow-Runs _ left (Eats-Runs (Eats-lower parse_conditional_and_expression-Eats)))
          (done-Turns left)
