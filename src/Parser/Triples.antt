-- ===== src/Parser/Triples.antt =====
-- Triples, collections and blank node property lists (src/sparql-parser/ParserGraphPatterns.cpp).
-- The vector `out`, to which a method adds triples, goes in and comes back.
use Prim.Native.String.{String}
use sql2rdf.Base.{◌+◌, ◌%◌, Bool, true, false, ◌&&◌, ◌||◌, List, [], ◌∷◌, ◌++◌, Bytes, codes}
use sql2rdf.Lexer.Token.{TokenType, Token}
use sql2rdf.Ast.{
  Iri, Term, iri, var, blank_node, literal, PropertyPathExpr, predicate, variable, TriplePattern,
}
use sql2rdf.Parser.State.{
  ok, Action, ◌>>=◌, ◌>>◌, pure, error, advance, check, current, if_current, if_match, expect,
  again, done, repeat,
}
use sql2rdf.Parser.Iris.{make_iri, is_var, is_iri, parse_iri, parse_var}
use sql2rdf.Parser.Numbers.{to_string}
use sql2rdf.Parser.Clone.{clone_term, clone_path}
use sql2rdf.Parser.Calls.{Calls}
use sql2rdf.Parser.Literals.{
  is_number, is_boolean, parse_rdf_literal, parse_numeric_literal, parse_boolean_literal,
}
use sql2rdf.Parser.Paths.{a_iri, parse_path_alternative}

abbrev Triples : Type 0
Triples = List TriplePattern

abbrev pub rdf : String → String → Iri
rdf local lexical_form =
    make_iri (codes "http://www.w3.org/1999/02/22-rdf-syntax-ns#" ++ codes local)
      (codes lexical_form)

abbrev pub triple : Term → PropertyPathExpr → Term → TriplePattern
triple subject path object = record { subject = subject; predicate = path; object = object }

-- `startsTriple()`, `startsVerb(pathMode)` and `startsTriplesNode()`.
unfoldable pub starts_triple : Token → Bool
starts_triple t =
    is_var t
    || is_iri t
    || check TokenType.a t
    || check TokenType.blank_node_label t
    || check TokenType.anon t
    || check TokenType.l_bracket t
    || check TokenType.l_paren t
    || check TokenType.nil t
    || check TokenType.string_literal t
    || is_number t
    || is_boolean t

unfoldable pub starts_verb : Bool → Token → Bool
starts_verb path_mode t =
    check TokenType.a t
    || is_var t
    || is_iri t
    || (path_mode
        && (check TokenType.caret t || check TokenType.bang t || check TokenType.l_paren t))

unfoldable pub starts_triples_node : Token → Bool
starts_triples_node t =
    check TokenType.l_paren t
    || check TokenType.nil t
    || check TokenType.l_bracket t
    || check TokenType.anon t

-- `blankNodeCounter_++`, of 64 bits.
unfoldable pub fresh_blank_node_label : Action Bytes
unfolding to_string
fresh_blank_node_label s = ok (
  codes "__gen" ++ to_string s.blank_node_counter,
  record s { blank_node_counter = (s.blank_node_counter + 1) % 18446744073709551616 },
)

unfoldable pub fresh_node : Action Term
fresh_node = do label ← fresh_blank_node_label; pure (blank_node label true)

abbrev pub rdf_nil : Term
rdf_nil = iri (rdf "nil" "()")

unfoldable pub parse_graph_term : Action Term
parse_graph_term =
    if_current is_iri (do i ← parse_iri; pure (iri i))
      (if_current (check TokenType.string_literal) (do l ← parse_rdf_literal; pure (literal l))
        (if_current is_number (do l ← parse_numeric_literal; pure (literal l))
          (if_current is_boolean (do l ← parse_boolean_literal; pure (literal l))
            (if_current (check TokenType.blank_node_label)
              (do t ← current; advance; pure (blank_node t.text false))
              (if_match (check TokenType.anon) fresh_node (
                if_match (check TokenType.nil) (pure rdf_nil)
                  (error (codes "expected an IRI, literal, blank node, or '()'"))))))))

unfoldable pub parse_var_or_term : Action Term
parse_var_or_term = if_current is_var (do v ← parse_var; pure (var v)) parse_graph_term

unfoldable pub parse_verb_simple : Action PropertyPathExpr
parse_verb_simple =
    if_match (check TokenType.a) (pure (predicate a_iri)) (
      if_current is_var (do v ← parse_var; pure (variable v))
        (do i ← parse_iri; pure (predicate i)))

-- The triples of a collection, from its second element on.
unfoldable pub link_from : Term → List Term → Triples → Action Triples
link_from previous [] out = pure (
    out
    ++ (triple (clone_term previous) (predicate (rdf "rest" "rdf:rest")) (iri (rdf "nil" "rdf:nil"))
        ∷ []))
link_from previous (element ∷ elements) out = do
  node ← fresh_node
  link_from node elements (
      out
      ++ (triple (clone_term previous) (predicate (rdf "rest" "rdf:rest")) (clone_term node)
          ∷ triple (clone_term node) (predicate (rdf "first" "rdf:first")) element
          ∷ []))

-- The chain of rdf:first and rdf:rest, and its head.
unfoldable pub link_elements : Term → List Term → Triples → Action (Term × Triples)
link_elements element elements out = do
  head ← fresh_node
  out' ←
      link_from head elements
        (out ++ (triple (clone_term head) (predicate (rdf "first" "rdf:first")) element ∷ []))
  pure (clone_term head, out')

module _ (calls : Calls) (path_mode : Bool) where
  unfoldable pub parse_predicate : Action PropertyPathExpr
  parse_predicate =
      if_current is_var (do v ← parse_var; pure (variable v))
        (elim path_mode [ true ↦ parse_path_alternative calls | false ↦ parse_verb_simple ])

  unfoldable pub parse_object_list : Term → PropertyPathExpr → Triples → Action Triples
  parse_object_list subject path = repeat calls.fuel λ out. do
    (object, out') ← calls.parse_graph_node path_mode out
    let out'' : Triples = out' ++ (triple (clone_term subject) (clone_path path) object ∷ [])
    if_match (check TokenType.comma) (pure (again out'')) (pure (done out''))

  unfoldable pub parse_predicate_and_objects : Term → Triples → Action Triples
  parse_predicate_and_objects subject out = do
    path ← parse_predicate
    parse_object_list subject path out

  unfoldable pub parse_property_list_not_empty : Term → Triples → Action Triples
  parse_property_list_not_empty subject out = do
    first ← parse_predicate_and_objects subject out
    repeat calls.fuel
        (λ out.
          if_match (check TokenType.semicolon)
            (if_current (starts_verb path_mode)
              (do out' ← parse_predicate_and_objects subject out; pure (again out'))
              (pure (again out)))
            (pure (done out)))
        first

  unfoldable pub parse_collection : Triples → Action (Term × Triples)
  parse_collection out = if_match (check TokenType.nil) (pure (rdf_nil, out)) (do
    expect TokenType.l_paren "'(' to start a collection"
    (element, out') ← calls.parse_graph_node path_mode out
    (elements, out'') ←
        repeat calls.fuel
          (λ (elements, out). if_current (check TokenType.r_paren) (pure (done (elements, out))) (do
            (x, out') ← calls.parse_graph_node path_mode out
            pure (again (elements ++ (x ∷ []), out'))))
          ([], out')
    expect TokenType.r_paren "')' closing a collection"
    link_elements element elements out'')

  unfoldable pub parse_blank_node_property_list : Triples → Action (Term × Triples)
  parse_blank_node_property_list out =
      if_match (check TokenType.anon) (do node ← fresh_node; pure (node, out))
        (do
          expect TokenType.l_bracket "'[' to start a blank node property list"
          subject ← fresh_node
          out' ← parse_property_list_not_empty subject out
          expect TokenType.r_bracket "']' closing a blank node property list"
          pure (subject, out'))

  unfoldable pub parse_triples_node : Triples → Action (Term × Triples)
  parse_triples_node out =
      if_current (λ t. check TokenType.l_bracket t || check TokenType.anon t)
        (parse_blank_node_property_list out) (parse_collection out)

  unfoldable pub parse_graph_node : Triples → Action (Term × Triples)
  parse_graph_node out =
      if_current starts_triples_node (parse_triples_node out)
        (do term ← parse_var_or_term; pure (term, out))

  unfoldable pub parse_triples_same_subject : Triples → Action Triples
  parse_triples_same_subject out =
      if_current starts_triples_node
        (do
          (subject, out') ← parse_triples_node out
          if_current (starts_verb path_mode) (parse_property_list_not_empty subject out')
              (pure out'))
        (do subject ← parse_var_or_term; parse_property_list_not_empty subject out)

-- `parseTriplesBlock`, and `parseConstructTriples` of Parser.cpp: they differ in the test behind a dot.
unfoldable pub parse_triples_block : Calls → Action Triples
parse_triples_block calls = do
  first ← parse_triples_same_subject calls true []
  repeat calls.fuel
      (λ out.
        if_match (check TokenType.dot)
          (if_current starts_triple
            (do out' ← parse_triples_same_subject calls true out; pure (again out'))
            (pure (done out)))
          (pure (done out)))
      first

unfoldable pub parse_construct_triples : Calls → Action Triples
parse_construct_triples calls = do
  first ← parse_triples_same_subject calls false []
  repeat calls.fuel
      (λ out.
        if_match (check TokenType.dot)
          (if_current (λ t. check TokenType.r_brace t || check TokenType.eof t) (pure (done out))
            (do out' ← parse_triples_same_subject calls false out; pure (again out')))
          (pure (done out)))
      first
