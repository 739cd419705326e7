-- ===== src/Parser/Clone/Same.antt =====
-- The copies are the originals.
use sql2rdf.Base.{List, [], ◌∷◌, map, Option, none, some, ◌≡◌, refl, ap}
use sql2rdf.Ast.{
  Iri, Term, iri, var, blank_node, literal, PropertyPathExpr, predicate, variable, inverse,
  sequence, alternative, zero_or_more, one_or_more, zero_or_one, negated_property_set,
}
use sql2rdf.Parser.Clone.{clone_iri, clone_datatype, clone_term, clone_path}

map-clone_iri : (is : List Iri) → map clone_iri is ≡ is
unfolding clone_iri
map-clone_iri [] = refl
map-clone_iri (i ∷ is) = ap (λ js. i ∷ js) (map-clone_iri is)

clone_datatype-same : (o : Option Iri) → clone_datatype o ≡ o
unfolding clone_datatype
clone_datatype-same none = refl
clone_datatype-same (some i) = refl

clone_term-same : (t : Term) → clone_term t ≡ t
unfolding clone_term
clone_term-same (iri i) = refl
clone_term-same (var v) = refl
clone_term-same (blank_node label anonymous) = refl
clone_term-same (literal l) =
    ap
      (λ d.
        literal
          record { lexical_form = l.lexical_form; language_tag = l.language_tag; datatype = d })
      (clone_datatype-same l.datatype)

-- The copy of a property path is equal to the path, with every operator, IRI and position in it.
pub clone_path-same : (p : PropertyPathExpr) → clone_path p ≡ p
unfolding clone_path
clone_path-same (predicate i) = refl
clone_path-same (variable v) = refl
clone_path-same (inverse p) = ap inverse (clone_path-same p)
clone_path-same (sequence l r) = rw (clone_path-same l, clone_path-same r) refl
clone_path-same (alternative l r) = rw (clone_path-same l, clone_path-same r) refl
clone_path-same (zero_or_more p) = ap zero_or_more (clone_path-same p)
clone_path-same (one_or_more p) = ap one_or_more (clone_path-same p)
clone_path-same (zero_or_one p) = ap zero_or_one (clone_path-same p)
clone_path-same (negated_property_set forward inverted) =
    rw (map-clone_iri forward, map-clone_iri inverted) refl
