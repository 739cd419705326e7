-- ===== src/Parser/Clone.antt =====
-- `cloneIri`, `cloneTerm` and `clonePath` (src/sparql-parser/Parser.cpp), the copies that each
-- triple of an object list gets of its subject and its predicate.
pub mod Same
use sql2rdf.Base.{List, [], ◌∷◌, map, Option, none, some, ◌≡◌, refl, ap}
use sql2rdf.Ast.{
  Iri, Var, RdfLiteral, Term, iri, var, blank_node, literal, PropertyPathExpr, predicate, variable,
  inverse, sequence, alternative, zero_or_more, one_or_more, zero_or_one, negated_property_set,
}

unfoldable pub clone_iri : Iri → Iri
clone_iri i = record { value = i.value; lexical_form = i.lexical_form }

unfoldable pub clone_var : Var → Var
clone_var v = record { name = v.name; line = v.line; column = v.column }

unfoldable pub clone_datatype : Option Iri → Option Iri
unfolding clone_iri
clone_datatype none = none
clone_datatype (some i) = some (clone_iri i)

unfoldable pub clone_term : Term → Term
unfolding clone_iri clone_var clone_datatype
clone_term (iri i) = iri (clone_iri i)
clone_term (var v) = var (clone_var v)
clone_term (blank_node label anonymous) = blank_node label anonymous
clone_term (literal l) = literal record {
  lexical_form = l.lexical_form;
  language_tag = l.language_tag;
  datatype = clone_datatype l.datatype;
}

unfoldable pub clone_path : PropertyPathExpr → PropertyPathExpr
unfolding clone_iri clone_var
clone_path (predicate i) = predicate (clone_iri i)
clone_path (variable v) = variable (clone_var v)
clone_path (inverse p) = inverse (clone_path p)
clone_path (sequence l r) = sequence (clone_path l) (clone_path r)
clone_path (alternative l r) = alternative (clone_path l) (clone_path r)
clone_path (zero_or_more p) = zero_or_more (clone_path p)
clone_path (one_or_more p) = one_or_more (clone_path p)
clone_path (zero_or_one p) = zero_or_one (clone_path p)
clone_path (negated_property_set forward inverted) =
    negated_property_set (map clone_iri forward) (map clone_iri inverted)
