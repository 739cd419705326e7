-- ===== src/Parser/Total/Triples.antt =====
-- Triples, collections and blank node property lists.
use sql2rdf.Base.{ℕ, suc, Bool, true, false, List, [], ◌∷◌, refl, arith}
use sql2rdf.Ast.{Term, PropertyPathExpr, TriplePattern}
use sql2rdf.Parser.State.{ordinal}
use sql2rdf.Parser.Calls.{Calls}
use sql2rdf.Parser.Paths.{parse_path_alternative}
use sql2rdf.Parser.Triples.{
  starts_triple, starts_triples_node, fresh_blank_node_label, fresh_node, parse_graph_term,
  parse_var_or_term, parse_verb_simple, link_from, link_elements, parse_predicate,
  parse_object_list, parse_predicate_and_objects, parse_property_list_not_empty, parse_collection,
  parse_blank_node_property_list, parse_triples_node, parse_graph_node, parse_triples_same_subject,
  parse_triples_block, parse_construct_triples,
}
use sql2rdf.Parser.Total.Paths.{
  is_var-Live, is_iri-Live, parse_iri-Eats, parse_var-Eats, parse_path_alternative-Eats,
}
use sql2rdf.Parser.Total.Expressions.{
  is_number-Live, is_boolean-Live, parse_rdf_literal-Eats, parse_numeric_literal-Takes,
  parse_boolean_literal-Eats,
}
use sql2rdf.Parser.Total.{
  Runs, Eats, Live, Eats-Runs, Eats-Takes, Eats-lower, pure-Runs, error-Eats, if-Eats, branch-Runs,
  check-Live, or-Live, bind-Runs, bind-Eats, unchanged-Takes, bind-Eats_within, bind-Takes_within,
  seq-Runs, seq-Eats, seq-Takes_within,
}
use sql2rdf.Parser.Total.Steps.{
  current-Keeps, advance-Takes, match-Eats, match-Runs_within, match-Eats_within, expect-Eats,
}
use sql2rdf.Parser.Total.Loops.{Eats-Turns, done-Turns, match-Turns, repeat-Runs, branch-Turns}
use sql2rdf.Parser.Total.Rules.{Fit}

pub starts_triple-Live : Live starts_triple
unfolding starts_triple ordinal
starts_triple-Live =
    or-Live
      (or-Live
        (or-Live
          (or-Live
            (or-Live
              (or-Live
                (or-Live
                  (or-Live (or-Live (or-Live is_var-Live is_iri-Live) (check-Live _ refl))
                    (check-Live _ refl))
                  (check-Live _ refl))
                (check-Live _ refl))
              (check-Live _ refl))
            (check-Live _ refl))
          (check-Live _ refl))
        is_number-Live)
      is_boolean-Live

starts_triples_node-Live : Live starts_triples_node
unfolding starts_triples_node ordinal
starts_triples_node-Live =
    or-Live (or-Live (or-Live (check-Live _ refl) (check-Live _ refl)) (check-Live _ refl))
      (check-Live _ refl)

label-Runs : (n : ℕ) → Runs n fresh_blank_node_label
unfolding fresh_blank_node_label
label-Runs n = record { ends = λ s h. omega arith }

fresh_node-Runs : (n : ℕ) → Runs n fresh_node
unfolding fresh_node
fresh_node-Runs n = bind-Runs (label-Runs n) λ label. pure-Runs _

parse_graph_term-Eats : (n : ℕ) → Eats n parse_graph_term
unfolding parse_graph_term ordinal
parse_graph_term-Eats n =
    if-Eats is_iri-Live (Eats-Takes (bind-Eats_within (parse_iri-Eats n) λ _. pure-Runs _)) (
      if-Eats (check-Live _ refl)
        (Eats-Takes (bind-Eats_within (parse_rdf_literal-Eats n) λ _. pure-Runs _))
        (if-Eats is_number-Live (bind-Takes_within (parse_numeric_literal-Takes n) λ _. pure-Runs _)
          (if-Eats is_boolean-Live
            (Eats-Takes (bind-Eats_within (parse_boolean_literal-Eats n) λ _. pure-Runs _))
            (if-Eats (check-Live _ refl)
              (unchanged-Takes current-Keeps λ t. seq-Takes_within advance-Takes (pure-Runs _))
              (match-Eats_within (check-Live _ refl) (fresh_node-Runs n)
                (match-Eats_within (check-Live _ refl) (pure-Runs _) (error-Eats _)))))))

parse_var_or_term-Eats : (n : ℕ) → Eats n parse_var_or_term
unfolding parse_var_or_term
parse_var_or_term-Eats n =
    if-Eats is_var-Live (Eats-Takes (bind-Eats_within (parse_var-Eats n) λ _. pure-Runs _))
      (parse_graph_term-Eats n)

parse_verb_simple-Eats : (n : ℕ) → Eats n parse_verb_simple
unfolding parse_verb_simple ordinal
parse_verb_simple-Eats n = match-Eats_within (check-Live _ refl) (pure-Runs _) (
    if-Eats is_var-Live (Eats-Takes (bind-Eats_within (parse_var-Eats n) λ _. pure-Runs _))
      (bind-Eats_within (parse_iri-Eats n) λ _. pure-Runs _))

link_from-Runs :
    (n : ℕ) (previous : Term) (elements : List Term) (out : List TriplePattern)
    → Runs n (link_from previous elements out)
unfolding link_from
link_from-Runs n previous [] out = pure-Runs _
link_from-Runs n previous (element ∷ elements) out =
    bind-Runs (fresh_node-Runs n) λ node. link_from-Runs n node elements _

link_elements-Runs :
    (n : ℕ) (element : Term) (elements : List Term) (out : List TriplePattern)
    → Runs n (link_elements element elements out)
unfolding link_elements
link_elements-Runs n element elements out =
    bind-Runs (fresh_node-Runs n)
      λ head. bind-Runs (link_from-Runs n head elements _) λ _. pure-Runs _

module _ (n : ℕ) (calls : Calls) (h : Fit n calls) where
  predicate_mode-Eats :
      (path_mode : Bool)
      → Eats
          (suc n)
          (elim path_mode [ true ↦ parse_path_alternative calls | false ↦ parse_verb_simple ])
  predicate_mode-Eats true = parse_path_alternative-Eats n calls h
  predicate_mode-Eats false = parse_verb_simple-Eats (suc n)

  module _ (path_mode : Bool) where
    parse_predicate-Eats : Eats (suc n) (parse_predicate calls path_mode)
    unfolding parse_predicate
    parse_predicate-Eats =
        if-Eats is_var-Live (Eats-Takes (bind-Eats (parse_var-Eats (suc n)) λ _. pure-Runs _))
          (predicate_mode-Eats path_mode)

    parse_object_list-Runs :
        (subject : Term) (path : PropertyPathExpr) (out : List TriplePattern)
        → Runs n (parse_object_list calls path_mode subject path out)
    unfolding parse_object_list ordinal
    parse_object_list-Runs subject path out = repeat-Runs out h.loops_inside λ out. Eats-Turns (
        bind-Eats_within (h.node path_mode out)
          λ _. match-Runs_within (check-Live _ refl) (pure-Runs _) (pure-Runs _))

    predicate_and_objects-Eats :
        (subject : Term) (out : List TriplePattern)
        → Eats (suc n) (parse_predicate_and_objects calls path_mode subject out)
    unfolding parse_predicate_and_objects
    predicate_and_objects-Eats subject out =
        bind-Eats parse_predicate-Eats λ path. parse_object_list-Runs subject path out

    parse_property_list-Eats :
        (subject : Term) (out : List TriplePattern)
        → Eats (suc n) (parse_property_list_not_empty calls path_mode subject out)
    unfolding parse_property_list_not_empty ordinal
    parse_property_list-Eats subject out =
        bind-Eats (predicate_and_objects-Eats subject out) λ first.
          repeat-Runs first h.loops_inside λ out.
            match-Turns (check-Live _ refl)
              (branch-Runs _
                (bind-Runs (Eats-Runs (Eats-lower (predicate_and_objects-Eats subject out)))
                  λ _. pure-Runs _)
                (pure-Runs _))
              (done-Turns out)

    parse_collection-Eats :
        (out : List TriplePattern) → Eats (suc n) (parse_collection calls path_mode out)
    unfolding parse_collection ordinal
    parse_collection-Eats out = match-Eats (check-Live _ refl) (pure-Runs _) (
        seq-Eats (expect-Eats _ _ refl) (
          bind-Runs (Eats-Runs (h.node path_mode out)) λ _.
            bind-Runs
              (repeat-Runs _ h.loops_inside λ (elements, out).
                branch-Turns _ (done-Turns _)
                  (Eats-Turns (bind-Eats_within (h.node path_mode out) λ _. pure-Runs _)))
              λ _. seq-Runs (Eats-Runs (expect-Eats _ _ refl)) (link_elements-Runs n _ _ _)))

    parse_blank_node_property_list-Eats :
        (out : List TriplePattern)
        → Eats (suc n) (parse_blank_node_property_list calls path_mode out)
    unfolding parse_blank_node_property_list ordinal
    parse_blank_node_property_list-Eats out =
        match-Eats (check-Live _ refl) (bind-Runs (fresh_node-Runs n) λ _. pure-Runs _) (
          seq-Eats (expect-Eats _ _ refl) (
            bind-Runs (fresh_node-Runs n) λ subject.
              bind-Runs (Eats-Runs (Eats-lower (parse_property_list-Eats subject out)))
                λ _. seq-Runs (Eats-Runs (expect-Eats _ _ refl)) (pure-Runs _)))

    parse_triples_node-Eats :
        (out : List TriplePattern) → Eats (suc n) (parse_triples_node calls path_mode out)
    unfolding parse_triples_node ordinal
    parse_triples_node-Eats out =
        if-Eats (or-Live (check-Live _ refl) (check-Live _ refl))
          (Eats-Takes (parse_blank_node_property_list-Eats out)) (parse_collection-Eats out)

    pub parse_graph_node-Eats :
        (out : List TriplePattern) → Eats (suc n) (parse_graph_node calls path_mode out)
    unfolding parse_graph_node
    parse_graph_node-Eats out =
        if-Eats starts_triples_node-Live (Eats-Takes (parse_triples_node-Eats out))
          (bind-Eats (parse_var_or_term-Eats (suc n)) λ _. pure-Runs _)

    pub parse_triples_same_subject-Eats :
        (out : List TriplePattern) → Eats (suc n) (parse_triples_same_subject calls path_mode out)
    unfolding parse_triples_same_subject
    parse_triples_same_subject-Eats out =
        if-Eats starts_triples_node-Live
          (Eats-Takes (
            bind-Eats (parse_triples_node-Eats out) λ _.
              branch-Runs _ (Eats-Runs (Eats-lower (parse_property_list-Eats _ _))) (pure-Runs _)))
          (bind-Eats (parse_var_or_term-Eats (suc n))
            λ subject. Eats-Runs (Eats-lower (parse_property_list-Eats subject out)))

  same_subject-Runs :
      (path_mode : Bool) (out : List TriplePattern)
      → Runs n (parse_triples_same_subject calls path_mode out)
  same_subject-Runs path_mode out =
      Eats-Runs (Eats-lower (parse_triples_same_subject-Eats path_mode out))

  pub parse_triples_block-Eats : Eats (suc n) (parse_triples_block calls)
  unfolding parse_triples_block ordinal
  parse_triples_block-Eats = bind-Eats (parse_triples_same_subject-Eats true []) λ first.
      repeat-Runs first h.loops_inside λ out.
        match-Turns (check-Live _ refl)
          (branch-Runs _ (bind-Runs (same_subject-Runs true out) λ _. pure-Runs _) (pure-Runs _))
          (done-Turns out)

  pub parse_construct_triples-Eats : Eats (suc n) (parse_construct_triples calls)
  unfolding parse_construct_triples ordinal
  parse_construct_triples-Eats = bind-Eats (parse_triples_same_subject-Eats false []) λ first.
      repeat-Runs first h.loops_inside λ out.
        match-Turns (check-Live _ refl)
          (branch-Runs _ (pure-Runs _) (bind-Runs (same_subject-Runs false out) λ _. pure-Runs _))
          (done-Turns out)
