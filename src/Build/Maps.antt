-- ===== src/Build/Maps.antt =====
-- Graph maps, subject maps and predicate-object maps of an R2RML document, src/r2rml/R2RMLParser.cpp
-- (`buildGraphMaps`, `buildSubjectMap`, `buildPOM`).
use sql2rdf.Base.{
  not, List, [], ◌∷◌, ◌++◌, Option, none, some, if◌then◌else◌, map, is_empty, Bytes, codes,
}
use sql2rdf.Node.{TermType}
use sql2rdf.Mapping.{
  TermMap, template, column, constant, referencing, GraphMap, SubjectMap, PredicateObjectMap,
}
use sql2rdf.Build.{
  ObjValue, TripleStore, rr, objects, get_first_literal, get_first_uri, obj_key, uri_values, plain,
  make_constant_uri, Log, add_error, about, apply_explicit_term_type, build_term_map,
}

abbrev pub graph_of : TermMap → Option GraphMap
graph_of tm = some (record { value_map = some tm })

-- A literal subject becomes an IRI, with an error.
unfoldable pub no_literal : Bytes → TermType → Log → TermType × Log
no_literal key TermType.literal log = (
  TermType.iri,
  add_error
      (about (codes "R2RML parser: rr:termType rr:Literal is not allowed on a subject map") key
        ++ codes "; using rr:IRI")
      log,
)
no_literal key t log = (t, log)

unfoldable pub with_term_type : TermType → TermMap → TermMap
with_term_type t (template a s) = template (record a { term_type = t }) s
with_term_type t (column a s) = column (record a { term_type = t }) s
with_term_type t (constant a v) = constant (record a { term_type = t }) v
with_term_type t (referencing parent joins) = referencing parent joins

-- The object maps' default for a column.
unfoldable pub default_literal : Bytes → TermMap → TermMap
unfolding with_term_type
default_literal explicit (column a name) =
    if is_empty explicit then with_term_type TermType.literal (column a name) else column a name
default_literal explicit om = om

module _ (ts : TripleStore) (ids : List Bytes) where
  -- The loop over `rr:graphMap`.
  unfoldable pub graph_map_loop : List ObjValue → Log → List (Option GraphMap) × Log
  unfolding build_term_map
  graph_map_loop [] log = ([], log)
  graph_map_loop (o ∷ os) log =
      let key = obj_key o in
      let built = build_term_map ts ids key log in
      let unknown : List (Option GraphMap) × Log =
        graph_map_loop os
          (add_error (about (codes "R2RML parser: unknown graph map type for") key) built.1) in
      let (maps, rest_log) = graph_map_loop os built.1 in
      let skipped = graph_map_loop os log in
      if is_empty key
      then skipped
      else elim built.0 [ none ↦ unknown | some tm ↦ (graph_of tm ∷ maps, rest_log) ]

  unfoldable pub build_graph_maps : Bytes → Log → List (Option GraphMap) × Log
  unfolding uri_values make_constant_uri graph_map_loop objects rr
  build_graph_maps key log =
      let shortcuts =
        map (λ iri. graph_of (make_constant_uri iri))
          (uri_values (objects ts key (rr (codes "graph")))) in
      let (maps, out) = graph_map_loop (objects ts key (rr (codes "graphMap"))) log in
      (shortcuts ++ maps, out)

  -- The value map of a subject, less its term type.
  unfoldable pub subject_value : Bytes → Option TermMap
  unfolding get_first_literal get_first_uri make_constant_uri rr
  subject_value key =
      let templ = get_first_literal ts key (rr (codes "template")) in
      let name = get_first_literal ts key (rr (codes "column")) in
      let iri = get_first_uri ts key (rr (codes "constant")) in
      if not (is_empty templ)
      then some (template (plain TermType.iri) templ)
      else if not (is_empty name)
      then some (column (plain TermType.iri) name)
      else if not (is_empty iri)
      then some (make_constant_uri iri)
      else none

  unfoldable pub typed_subject : Bytes → Option TermMap → Log → Option TermMap × Log
  unfolding apply_explicit_term_type no_literal with_term_type
  typed_subject key none log = (none, log)
  typed_subject key (some tm) log =
      let (t, out) = no_literal key (apply_explicit_term_type ts key TermType.iri) log in
      (some (with_term_type t tm), out)

  unfoldable pub build_subject_map : Bytes → Log → SubjectMap × Log
  unfolding subject_value typed_subject uri_values build_graph_maps objects rr
  build_subject_map key log =
      let (value, typed_log) = typed_subject key (subject_value key) log in
      let (maps, out) = build_graph_maps key typed_log in
      (
        record {
          value_map = value;
          class_iris = uri_values (objects ts key (rr (codes "class")));
          graph_maps = maps;
        },
        out,
      )

  -- The loop over `rr:predicateMap`, where an unknown term map is left out.
  unfoldable pub predicate_map_loop : List ObjValue → Log → List (Option TermMap) × Log
  unfolding build_term_map
  predicate_map_loop [] log = ([], log)
  predicate_map_loop (o ∷ os) log =
      let built = build_term_map ts ids (obj_key o) log in
      let (maps, out) = predicate_map_loop os built.1 in
      let skipped = predicate_map_loop os log in
      if is_empty (obj_key o)
      then skipped
      else elim built.0 [ none ↦ (maps, out) | some tm ↦ (some tm ∷ maps, out) ]

  -- The loop over `rr:objectMap`.
  unfoldable pub object_map_loop : List ObjValue → Log → List (Option TermMap) × Log
  unfolding build_term_map default_literal get_first_uri rr
  object_map_loop [] log = ([], log)
  object_map_loop (o ∷ os) log =
      let key = obj_key o in
      let built = build_term_map ts ids key log in
      let unknown : List (Option TermMap) × Log =
        object_map_loop os
          (add_error (about (codes "R2RML parser: unknown object map type for") key) built.1) in
      let (maps, out) = object_map_loop os built.1 in
      let skipped = object_map_loop os log in
      let explicit = get_first_uri ts key (rr (codes "termType")) in
      if is_empty key then skipped else elim built.0 [
        | none ↦ unknown
        | some tm ↦ (some (default_literal explicit tm) ∷ maps, out)
      ]

  unfoldable pub build_pom : Bytes → Log → PredicateObjectMap × Log
  unfolding uri_values make_constant_uri predicate_map_loop object_map_loop build_graph_maps objects
      rr
  build_pom key log =
      let constants = λ (name : Bytes).
        map (λ iri. some (make_constant_uri iri)) (uri_values (objects ts key (rr name))) in
      let (predicates, p) = predicate_map_loop (objects ts key (rr (codes "predicateMap"))) log in
      let (object_maps, o) = object_map_loop (objects ts key (rr (codes "objectMap"))) p in
      let (graphs, out) = build_graph_maps key o in
      (
        record {
          predicate_maps = constants (codes "predicate") ++ predicates;
          object_maps = constants (codes "object") ++ object_maps;
          graph_maps = graphs;
        },
        out,
      )
