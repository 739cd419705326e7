-- ===== src/Parser/Paths.antt =====
-- Property paths, src/sparql-parser/ParserPaths.cpp.
use sql2rdf.Base.{ℕ, Bool, List, [], ◌∷◌, ◌++◌, if◌then◌else◌, codes}
use sql2rdf.Lexer.Token.{TokenType}
use sql2rdf.Ast.{
  Iri, PropertyPathExpr, predicate, inverse, sequence, alternative, zero_or_more, one_or_more,
  zero_or_one, negated_property_set,
}
use sql2rdf.Parser.State.{
  Action, ◌>>=◌, ◌>>◌, pure, check, if_current, if_match, matched, expect, repeat, again, done,
}
use sql2rdf.Parser.Iris.{make_iri, parse_iri}
use sql2rdf.Parser.Calls.{Calls}

-- `RDF_TYPE_PATH`, lexically `a`.
abbrev pub a_iri : Iri
a_iri = make_iri (codes "http://www.w3.org/1999/02/22-rdf-syntax-ns#type") (codes "a")

unfoldable pub add_iri : Bool → Iri → List Iri × List Iri → List Iri × List Iri
add_iri inv iri (forward, inverted) =
    if inv then (forward, inverted ++ (iri ∷ [])) else (forward ++ (iri ∷ []), inverted)

-- `matchType(Caret)`, then `a` or an IRI.
unfoldable pub parse_negated_iri : List Iri × List Iri → Action (List Iri × List Iri)
parse_negated_iri sets = do
  inv ← matched (check TokenType.caret)
  iri ← if_match (check TokenType.a) (pure a_iri) parse_iri
  pure (add_iri inv iri sets)

unfoldable pub parse_path_negated_property_set : ℕ → Action PropertyPathExpr
parse_path_negated_property_set fuel = do
  (forward, inverted) ←
      if_match (check TokenType.l_paren)
        (do
          sets ← if_current (check TokenType.r_paren) (pure ([], [])) (
              repeat fuel
                (λ sets. do
                  sets' ← parse_negated_iri sets
                  if_match (check TokenType.pipe) (pure (again sets')) (pure (done sets')))
                ([], []))
          expect TokenType.r_paren "')' closing a negated property set"
          pure sets)
        (parse_negated_iri ([], []))
  pure (negated_property_set forward inverted)

module _ (calls : Calls) where
  unfoldable pub parse_path_primary : Action PropertyPathExpr
  parse_path_primary = if_match (check TokenType.a) (pure (predicate a_iri)) (
      if_match (check TokenType.bang) (parse_path_negated_property_set calls.fuel) (
        if_match (check TokenType.l_paren)
          (do
            inner ← calls.parse_path
            expect TokenType.r_paren "')' closing a grouped property path"
            pure inner)
          (do iri ← parse_iri; pure (predicate iri))))

  unfoldable pub parse_path_elt : Action PropertyPathExpr
  parse_path_elt = do
    p ← parse_path_primary
    if_match (check TokenType.question) (pure (zero_or_one p)) (
        if_match (check TokenType.star) (pure (zero_or_more p))
          (if_match (check TokenType.plus) (pure (one_or_more p)) (pure p)))

  unfoldable pub parse_path_elt_or_inverse : Action PropertyPathExpr
  parse_path_elt_or_inverse =
      if_match (check TokenType.caret) (do p ← parse_path_elt; pure (inverse p)) parse_path_elt

  unfoldable pub parse_path_sequence : Action PropertyPathExpr
  parse_path_sequence = do
    first ← parse_path_elt_or_inverse
    repeat calls.fuel
        (λ left.
          if_match (check TokenType.slash)
            (do right ← parse_path_elt_or_inverse; pure (again (sequence left right)))
            (pure (done left)))
        first

  unfoldable pub parse_path_alternative : Action PropertyPathExpr
  parse_path_alternative = do
    first ← parse_path_sequence
    repeat calls.fuel
        (λ left.
          if_match (check TokenType.pipe)
            (do right ← parse_path_sequence; pure (again (alternative left right)))
            (pure (done left)))
        first
