-- ===== src/Parser/Total/Patterns.antt =====
-- Graph patterns and VALUES blocks.
use sql2rdf.Base.{ℕ, suc, ◌≤◌, List, [], refl, length, ◌==◌}
use sql2rdf.Lexer.Token.{TokenType}
use sql2rdf.Ast.{GroupElement, Query}
use sql2rdf.Parser.State.{ordinal, Action}
use sql2rdf.Parser.Calls.{Calls}
use sql2rdf.Parser.Patterns.{
  starts_graph_pattern_not_triples, parse_data_block_value, until_current,
  parse_inline_data_one_var, parse_row, parse_inline_data_full, parse_inline_data, parse_var_or_iri,
  parse_group_or_union_graph_pattern, parse_optional_graph_pattern, parse_minus_graph_pattern,
  parse_graph_graph_pattern, parse_service_graph_pattern, parse_filter_element, parse_bind_element,
  parse_inline_data_element, parse_graph_pattern_not_triples, parse_triples_element,
  parse_group_graph_pattern_sub, parse_group_graph_pattern_with,
}
use sql2rdf.Parser.Total.Paths.{is_var-Live, is_iri-Live, parse_iri-Eats, parse_var-Eats}
use sql2rdf.Parser.Total.Expressions.{
  is_number-Live, is_boolean-Live, parse_rdf_literal-Eats, parse_numeric_literal-Takes,
  parse_boolean_literal-Eats,
}
use sql2rdf.Parser.Total.Operators.{parse_primary_expression-Eats}
use sql2rdf.Parser.Total.Triples.{parse_triples_block-Eats}
use sql2rdf.Parser.Total.{
  Runs, Eats, Takes, Live, Eats-Runs, Eats-Takes, Eats-lower, Takes-lower, pure-Runs, error-Eats,
  if-Eats, branch-Runs, check-Live, check_keyword-Live, or-Live, bind-Runs, bind-Eats_within,
  bind-Takes_within, seq-Runs, seq-Eats, seq-Takes, seq-Eats_within, seq-Takes_within,
}
use sql2rdf.Parser.Total.Steps.{
  advance-Takes, match-Eats_within, matched-Runs, expect-Eats, expect_keyword-Eats,
}
use sql2rdf.Parser.Total.Loops.{
  Eats-Turns, done-Turns, repeat-Runs, while_current-Runs, while_match-Runs, branch-Turns, Runs-if,
}
use sql2rdf.Parser.Total.Rules.{Fit}

starts_not_triples-Live : Live starts_graph_pattern_not_triples
unfolding starts_graph_pattern_not_triples ordinal
starts_not_triples-Live =
    or-Live
      (or-Live
        (or-Live
          (or-Live
            (or-Live
              (or-Live (or-Live (check-Live _ refl) (check_keyword-Live _)) (check_keyword-Live _))
              (check_keyword-Live _))
            (check_keyword-Live _))
          (check_keyword-Live _))
        (check_keyword-Live _))
      (check_keyword-Live _)

parse_data_block_value-Eats : (n : ℕ) → Eats n parse_data_block_value
unfolding parse_data_block_value ordinal
parse_data_block_value-Eats n = match-Eats_within (check_keyword-Live _) (pure-Runs _) (
    if-Eats is_iri-Live (Eats-Takes (bind-Eats_within (parse_iri-Eats n) λ _. pure-Runs _)) (
      if-Eats (check-Live _ refl)
        (Eats-Takes (bind-Eats_within (parse_rdf_literal-Eats n) λ _. pure-Runs _))
        (if-Eats is_number-Live (bind-Takes_within (parse_numeric_literal-Takes n) λ _. pure-Runs _)
          (if-Eats is_boolean-Live
            (Eats-Takes (bind-Eats_within (parse_boolean_literal-Eats n) λ _. pure-Runs _))
            (error-Eats _)))))

until_current-Runs {ℓ} :
    {A : Type ℓ} {n fuel : ℕ} (close : TokenType) {item : Action A}
    → n ≤ fuel
    → Eats n item
    → Runs n (until_current fuel close item)
unfolding until_current
until_current-Runs close h hi =
    repeat-Runs [] h
      λ items. branch-Turns _ (done-Turns items) (Eats-Turns (bind-Eats_within hi λ x. pure-Runs _))

-- VALUES.
module _ (n fuel : ℕ) (h : n ≤ fuel) where
  parse_inline_data_one_var-Eats : Eats n (parse_inline_data_one_var fuel)
  unfolding parse_inline_data_one_var ordinal
  parse_inline_data_one_var-Eats = bind-Eats_within (parse_var-Eats n) λ v.
      seq-Runs (Eats-Runs (expect-Eats _ _ refl)) (
        bind-Runs (until_current-Runs _ h (parse_data_block_value-Eats n))
          λ values. seq-Runs (Eats-Runs (expect-Eats _ _ refl)) (pure-Runs _))

  parse_row-Eats : (width : ℕ) → Eats n (parse_row fuel width)
  unfolding parse_row ordinal
  parse_row-Eats width =
      bind-Eats_within
        (match-Eats_within (check-Live _ refl) (pure-Runs _) (
          seq-Eats_within (expect-Eats _ _ refl) (
            bind-Runs (until_current-Runs _ h (parse_data_block_value-Eats n))
              λ row. seq-Runs (Eats-Runs (expect-Eats _ _ refl)) (pure-Runs _))))
        λ row. Runs-if (length row == width) (pure-Runs _) (Eats-Runs (error-Eats _))

  parse_inline_data_full-Eats : Eats n (parse_inline_data_full fuel)
  unfolding parse_inline_data_full ordinal
  parse_inline_data_full-Eats =
      bind-Eats_within
        (match-Eats_within (check-Live _ refl) (pure-Runs _) (
          seq-Eats_within (expect-Eats _ _ refl) (
            bind-Runs (while_current-Runs [] h is_var-Live (Eats-Takes (parse_var-Eats n)))
              λ vars. seq-Runs (Eats-Runs (expect-Eats _ _ refl)) (pure-Runs _))))
        λ vars. seq-Runs (Eats-Runs (expect-Eats _ _ refl)) (
          bind-Runs (until_current-Runs _ h (parse_row-Eats (length vars)))
            λ rows. seq-Runs (Eats-Runs (expect-Eats _ _ refl)) (pure-Runs _))

  pub parse_inline_data-Eats : Eats n (parse_inline_data fuel)
  unfolding parse_inline_data
  parse_inline_data-Eats =
      if-Eats is_var-Live (Eats-Takes parse_inline_data_one_var-Eats) parse_inline_data_full-Eats

pub parse_var_or_iri-Eats : (n : ℕ) → Eats n parse_var_or_iri
unfolding parse_var_or_iri
parse_var_or_iri-Eats n =
    if-Eats is_var-Live (Eats-Takes (bind-Eats_within (parse_var-Eats n) λ _. pure-Runs _))
      (bind-Eats_within (parse_iri-Eats n) λ _. pure-Runs _)

module _ (n : ℕ) (calls : Calls) (h : Fit n calls) where
  group_or_union-Eats : Eats n (parse_group_or_union_graph_pattern calls)
  unfolding parse_group_or_union_graph_pattern
  group_or_union-Eats = bind-Eats_within h.group λ first.
      branch-Runs _
        (bind-Runs (while_match-Runs _ h.loops_inside (check_keyword-Live _) (Eats-Runs h.group))
          λ branches. pure-Runs _)
        (pure-Runs _)

  optional-Takes : Takes n (parse_optional_graph_pattern calls)
  unfolding parse_optional_graph_pattern
  optional-Takes = seq-Takes_within advance-Takes (bind-Runs (Eats-Runs h.group) λ g. pure-Runs _)

  minus-Takes : Takes n (parse_minus_graph_pattern calls)
  unfolding parse_minus_graph_pattern
  minus-Takes = seq-Takes_within advance-Takes (bind-Runs (Eats-Runs h.group) λ g. pure-Runs _)

  graph-Takes : Takes n (parse_graph_graph_pattern calls)
  unfolding parse_graph_graph_pattern
  graph-Takes = seq-Takes_within advance-Takes (
      bind-Runs (Eats-Runs (parse_var_or_iri-Eats n))
        λ name. bind-Runs (Eats-Runs h.group) λ g. pure-Runs _)

  service-Takes : Takes n (parse_service_graph_pattern calls)
  unfolding parse_service_graph_pattern
  service-Takes = seq-Takes_within advance-Takes (
      bind-Runs (matched-Runs (check_keyword-Live _)) λ silent.
        bind-Runs (Eats-Runs (parse_var_or_iri-Eats n))
          λ endpoint. bind-Runs (Eats-Runs h.group) λ g. pure-Runs _)

  filter-Takes : Takes (suc n) (parse_filter_element calls)
  unfolding parse_filter_element
  filter-Takes = seq-Takes advance-Takes (
      bind-Runs (Eats-Runs (Eats-lower (parse_primary_expression-Eats n calls h))) λ e. pure-Runs _)

  bind_element-Takes : Takes n (parse_bind_element calls)
  unfolding parse_bind_element ordinal
  bind_element-Takes = seq-Takes_within advance-Takes (
      seq-Runs (Eats-Runs (expect-Eats _ _ refl)) (
        bind-Runs (Eats-Runs h.expression) λ e. seq-Runs (Eats-Runs (expect_keyword-Eats _)) (
          bind-Runs (Eats-Runs (parse_var-Eats n))
            λ v. seq-Runs (Eats-Runs (expect-Eats _ _ refl)) (pure-Runs _))))

  inline_data_element-Takes : Takes n (parse_inline_data_element calls)
  unfolding parse_inline_data_element
  inline_data_element-Takes = seq-Takes_within advance-Takes (
      bind-Runs (Eats-Runs (parse_inline_data-Eats n calls.fuel h.loops_inside))
        λ values. pure-Runs _)

  not_triples-Eats : Eats n (parse_graph_pattern_not_triples calls)
  unfolding parse_graph_pattern_not_triples ordinal
  not_triples-Eats = if-Eats (check-Live _ refl) (Eats-Takes group_or_union-Eats) (
      if-Eats (check_keyword-Live _) optional-Takes (
        if-Eats (check_keyword-Live _) minus-Takes (
          if-Eats (check_keyword-Live _) graph-Takes (
            if-Eats (check_keyword-Live _) service-Takes (
              if-Eats (check_keyword-Live _) (Takes-lower filter-Takes) (
                if-Eats (check_keyword-Live _) bind_element-Takes
                  (if-Eats (check_keyword-Live _) inline_data_element-Takes (error-Eats _))))))))

  triples_element-Runs :
      (elements : List GroupElement) → Runs n (parse_triples_element calls elements)
  unfolding parse_triples_element
  triples_element-Runs elements =
      branch-Runs _
        (bind-Runs (Eats-Runs (Eats-lower (parse_triples_block-Eats n calls h)))
          λ triples. pure-Runs _)
        (pure-Runs _)

  group_sub-Runs : Runs n (parse_group_graph_pattern_sub calls)
  unfolding parse_group_graph_pattern_sub ordinal
  group_sub-Runs = bind-Runs (triples_element-Runs []) λ first.
      repeat-Runs first h.loops_inside λ elements.
        branch-Turns _
          (Eats-Turns (
            bind-Eats_within not_triples-Eats λ e.
              seq-Runs (matched-Runs (check-Live _ refl))
                (bind-Runs (triples_element-Runs _) λ _. pure-Runs _)))
          (done-Turns elements)

  pub parse_group_graph_pattern-Eats :
      (parse_sub_select : Action Query)
      → Runs n parse_sub_select
      → Eats (suc n) (parse_group_graph_pattern_with calls parse_sub_select)
  unfolding parse_group_graph_pattern_with ordinal
  parse_group_graph_pattern-Eats parse_sub_select hs = seq-Eats (expect-Eats _ _ refl) (
      bind-Runs (branch-Runs _ (bind-Runs hs λ q. pure-Runs _) group_sub-Runs)
        λ elements. seq-Runs (Eats-Runs (expect-Eats _ _ refl)) (pure-Runs _))
