-- ===== src/Parser/Yields/Template.antt =====
-- The predicates of CONSTRUCT templates.
pub mod Queries
use sql2rdf.Base.{ℕ, zero, suc, Bool, false, List, [], ◌∷◌, ◌++◌, map, All, All-append, Bytes, ◌≡◌}
use sql2rdf.Lexer.Token.{TokenType}
use sql2rdf.Ast.{
  Term, PropertyPathExpr, predicate, variable, TriplePattern, QueryHead, Query, query,
}
use sql2rdf.Parser.State.{
  Parser, Outcome, ok, Action, ◌>>=◌, ◌>>◌, pure, error, if_current, if_match,
}
use sql2rdf.Parser.Calls.{Calls}
use sql2rdf.Parser.Clone.{clone_path}
use sql2rdf.Parser.Clone.Same.{clone_path-same}
use sql2rdf.Parser.Triples.{
  parse_verb_simple, parse_predicate, parse_object_list, parse_predicate_and_objects,
  parse_property_list_not_empty, link_from, link_elements, parse_collection,
  parse_blank_node_property_list, parse_triples_node, parse_graph_node, parse_triples_same_subject,
  parse_construct_triples,
}
use sql2rdf.Parser.Queries.{
  clone_triple, parse_construct_template, parse_construct_where, parse_construct_query,
  parse_select_query, parse_describe_query, parse_ask_query, parse_query_form, parse_query,
  make_query, with_values, with_prologue,
}
use sql2rdf.Parser.Knot.{calls_within, parse_string}
use sql2rdf.Parser.Yields.{
  Yields, Holds, pure-Yields, error-Yields, run_out-Yields, if-Yields, bind-Yields, then-Yields,
  seq-Yields, match-Yields, repeat-Yields,
}

-- An IRI or a variable.
abbrev pub IsSimple : PropertyPathExpr → Type 0
IsSimple (predicate iri) = Unit
IsSimple (variable var) = Unit
IsSimple _ = ⊥

abbrev pub IsSimpleTriple : TriplePattern → Type 0
IsSimpleTriple tp = IsSimple tp.predicate

abbrev pub Simple : List TriplePattern → Type 0
Simple out = All IsSimpleTriple out

parse_verb_simple-Yields : Yields IsSimple parse_verb_simple
unfolding parse_verb_simple
parse_verb_simple-Yields =
    match-Yields _ (pure-Yields _ tt)
      (if-Yields _ (then-Yields _ λ v. pure-Yields _ tt) (then-Yields _ λ i. pure-Yields _ tt))

parse_predicate-Yields : (calls : Calls) → Yields IsSimple (parse_predicate calls false)
unfolding parse_predicate
parse_predicate-Yields calls =
    if-Yields _ (then-Yields _ λ v. pure-Yields _ tt) parse_verb_simple-Yields

pub clone-IsSimple : (path : PropertyPathExpr) → IsSimple path → IsSimple (clone_path path)
clone-IsSimple path h = rw (clone_path-same path) h

link_from-Yields :
    (previous : Term) (elements : List Term) (out : List TriplePattern)
    → Simple out
    → Yields Simple (link_from previous elements out)
unfolding link_from
link_from-Yields previous [] out h = pure-Yields _ (All-append IsSimpleTriple out _ h (tt, tt))
link_from-Yields previous (element ∷ elements) out h =
    then-Yields _
      λ node. link_from-Yields node elements _ (All-append IsSimpleTriple out _ h (tt, (tt, tt)))

link_elements-Yields :
    (element : Term) (elements : List Term) (out : List TriplePattern)
    → Simple out
    → Yields (λ r. Simple r.1) (link_elements element elements out)
unfolding link_elements
link_elements-Yields element elements out h = then-Yields _ λ head.
    bind-Yields (link_from-Yields head elements _ (All-append IsSimpleTriple out _ h (tt, tt)))
      λ out' h'. pure-Yields _ h'

-- Outside of path mode, if the recursive calls keep to it.
module _ (calls : Calls)
    (node : (out : List TriplePattern)
      → Simple out
      → Yields (λ r. Simple r.1) (calls.parse_graph_node false out)) where
  parse_object_list-Yields :
      (subject : Term) (path : PropertyPathExpr) (out : List TriplePattern)
      → IsSimple path
      → Simple out
      → Yields Simple (parse_object_list calls false subject path out)
  unfolding parse_object_list
  parse_object_list-Yields subject path out p h = repeat-Yields calls.fuel _ h λ out h.
      bind-Yields (node out h) λ (object, out') h'.
        match-Yields _
          (pure-Yields _ (All-append IsSimpleTriple out' _ h' (clone-IsSimple path p, tt)))
          (pure-Yields _ (All-append IsSimpleTriple out' _ h' (clone-IsSimple path p, tt)))

  objects-Yields :
      (subject : Term) (out : List TriplePattern)
      → Simple out
      → Yields Simple (parse_predicate_and_objects calls false subject out)
  unfolding parse_predicate_and_objects
  objects-Yields subject out h =
      bind-Yields (parse_predicate-Yields calls)
        λ path p. parse_object_list-Yields subject path out p h

  property_list-Yields :
      (subject : Term) (out : List TriplePattern)
      → Simple out
      → Yields Simple (parse_property_list_not_empty calls false subject out)
  unfolding parse_property_list_not_empty
  property_list-Yields subject out h = bind-Yields (objects-Yields subject out h) λ first h'.
      repeat-Yields calls.fuel _ h' λ out h.
        match-Yields _
          (if-Yields _ (bind-Yields (objects-Yields subject out h) λ out' h'. pure-Yields _ h')
            (pure-Yields _ h))
          (pure-Yields _ h)

  collection-Yields :
      (out : List TriplePattern)
      → Simple out
      → Yields (λ r. Simple r.1) (parse_collection calls false out)
  unfolding parse_collection
  collection-Yields out h = match-Yields _ (pure-Yields _ h) (
      seq-Yields _ (
        bind-Yields (node out h) λ (element, out') h'.
          bind-Yields
            (repeat-Yields {P = λ r. Simple r.1} calls.fuel _ h' λ (elements, out) h.
              if-Yields _ (pure-Yields _ h)
                (bind-Yields (node out h) λ (x, out') h'. pure-Yields _ h'))
            λ (elements, out'') h''.
              seq-Yields _ (link_elements-Yields element elements out'' h'')))

  bnode_list-Yields :
      (out : List TriplePattern)
      → Simple out
      → Yields (λ r. Simple r.1) (parse_blank_node_property_list calls false out)
  unfolding parse_blank_node_property_list
  bnode_list-Yields out h = match-Yields _ (then-Yields _ λ node. pure-Yields _ h) (
      seq-Yields _ (
        then-Yields _ λ subject.
          bind-Yields (property_list-Yields subject out h)
            λ out' h'. seq-Yields _ (pure-Yields _ h')))

  triples_node-Yields :
      (out : List TriplePattern)
      → Simple out
      → Yields (λ r. Simple r.1) (parse_triples_node calls false out)
  unfolding parse_triples_node
  triples_node-Yields out h = if-Yields _ (bnode_list-Yields out h) (collection-Yields out h)

  pub graph_node-Yields :
      (out : List TriplePattern)
      → Simple out
      → Yields (λ r. Simple r.1) (parse_graph_node calls false out)
  unfolding parse_graph_node
  graph_node-Yields out h =
      if-Yields _ (triples_node-Yields out h) (then-Yields _ λ term. pure-Yields _ h)

  same_subject-Yields :
      (out : List TriplePattern)
      → Simple out
      → Yields Simple (parse_triples_same_subject calls false out)
  unfolding parse_triples_same_subject
  same_subject-Yields out h =
      if-Yields _
        (bind-Yields (triples_node-Yields out h) λ (subject, out') h'.
          if-Yields _ (property_list-Yields subject out' h') (pure-Yields _ h'))
        (then-Yields _ λ subject. property_list-Yields subject out h)

  pub construct_triples-Yields : Yields Simple (parse_construct_triples calls)
  unfolding parse_construct_triples
  construct_triples-Yields = bind-Yields (same_subject-Yields [] tt) λ first h.
      repeat-Yields calls.fuel _ h λ out h.
        match-Yields _
          (if-Yields _ (pure-Yields _ h)
            (bind-Yields (same_subject-Yields out h) λ out' h'. pure-Yields _ h'))
          (pure-Yields _ h)
