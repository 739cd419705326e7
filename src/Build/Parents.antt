-- ===== src/Build/Parents.antt =====
-- The parents that the maps of a document name, once it was read without an error.
pub mod Document
use sql2rdf.Base.{
  ℕ, suc, Bool, true, false, not, List, [], ◌∷◌, ◌++◌, Option, none, some, if◌then◌else◌, map,
  is_empty, Bytes, codes, equal, All, All-append, ◌≡◌, refl, sym, ap, ◌∙◌, Bool-cases, Option-cases,
  inl, inr,
}
use sql2rdf.Node.{TermType}
use sql2rdf.Mapping.{
  TermMap, template, column, constant, referencing, GraphMap, SubjectMap, PredicateObjectMap,
  TriplesMap, is_some,
}
use sql2rdf.Build.{
  ObjValue, TripleStore, rr, objects, get_first_literal, get_first_uri, get_first_obj_key, obj_key,
  uri_values, make_constant_uri, make_constant_literal, Log, add_error, about, place_from,
  build_logical_table, build_constant, build_referencing, build_term_map, first_value, is_uri,
  is_literal,
}
use sql2rdf.Build.Maps.{
  graph_of, no_literal, default_literal, graph_map_loop, build_graph_maps, subject_value,
  typed_subject, build_subject_map, predicate_map_loop, object_map_loop, build_pom,
}
use sql2rdf.Build.Document.{
  is_triples_map, triples_map_ids, table_of, subject_map_of, pom_loop, build_triples_map,
  build_loop, unresolved, Parsed, mapping, runtime_error, build_mapping,
}

-- A term map that refers to a parent has one.
abbrev pub HasParent : Option TermMap → Type 0
HasParent (some (referencing none joins)) = ⊥
HasParent _ = Unit

abbrev pub GraphHasParent : Option GraphMap → Type 0
GraphHasParent none = Unit
GraphHasParent (some gm) = HasParent gm.value_map

abbrev pub PomHasParents : Option PredicateObjectMap → Type 0
PomHasParents none = Unit
PomHasParents (some pom) =
    All HasParent pom.predicate_maps
    × All HasParent pom.object_maps
    × All GraphHasParent pom.graph_maps

abbrev pub SubjectHasParents : Option SubjectMap → Type 0
SubjectHasParents none = Unit
SubjectHasParents (some sm) = All GraphHasParent sm.graph_maps

abbrev pub TriplesHaveParents : Option TriplesMap → Type 0
TriplesHaveParents none = Unit
TriplesHaveParents (some tm) =
    SubjectHasParents tm.subject_map × All PomHasParents tm.predicate_object_maps

abbrev pub StrictlyParsed : Parsed → Type 0
StrictlyParsed (mapping maps errors) = All TriplesHaveParents maps
StrictlyParsed (runtime_error errors) = Unit

constant_uris-HasParent :
    (iris : List Bytes) → All HasParent (map (λ iri. some (make_constant_uri iri)) iris)
unfolding make_constant_uri
constant_uris-HasParent [] = tt
constant_uris-HasParent (iri ∷ iris) = (tt, constant_uris-HasParent iris)

constant_graphs-HasParent :
    (iris : List Bytes) → All GraphHasParent (map (λ iri. graph_of (make_constant_uri iri)) iris)
unfolding make_constant_uri
constant_graphs-HasParent [] = tt
constant_graphs-HasParent (iri ∷ iris) = (tt, constant_graphs-HasParent iris)

constant-HasParent : (ts : TripleStore) (os : List ObjValue) → HasParent (build_constant ts os)
unfolding build_constant make_constant_uri make_constant_literal
constant-HasParent ts os = elim (Option-cases (first_value is_uri os)) [
  | inr (iri, e) ↦ rw e tt
  | inl e ↦ elim (Option-cases (first_value is_literal os)) [
    | inr (text, f) ↦ rw (e, f) tt
    | inl f ↦ rw (e, f) tt
  ]
]

default_literal-HasParent :
    (explicit : Bytes) (tm : TermMap)
    → HasParent (some tm)
    → HasParent (some (default_literal explicit tm))
unfolding default_literal
default_literal-HasParent [] (column a name) h = tt
default_literal-HasParent (c ∷ s) (column a name) h = tt
default_literal-HasParent s (template a t) h = tt
default_literal-HasParent s (constant a v) h = tt
default_literal-HasParent s (referencing (some n) joins) h = tt
default_literal-HasParent s (referencing none joins) h = absurd h

module _ (ids : List Bytes) where
  -- All parents that a log asks for are there.
  abbrev pub Ok : Log → Type 0
  Ok log = unresolved ids log.parent_refs ≡ []

  unresolved_first :
      (parent : Bytes) (refs : List Bytes)
      → unresolved ids (parent ∷ refs) ≡ []
      → (is_some (place_from 0 ids parent) ≡ true) × (unresolved ids refs ≡ [])
  unfolding unresolved
  unresolved_first parent refs h = elim (Bool-cases (is_some (place_from 0 ids parent))) [
    | inl e ↦ (e, rw e at h)
    | inr e ↦ cc (rw e at h)
  ]

  unresolved_last :
      (refs : List Bytes) (parent : Bytes)
      → unresolved ids (refs ++ parent ∷ []) ≡ []
      → (unresolved ids refs ≡ []) × (is_some (place_from 0 ids parent) ≡ true)
  unfolding unresolved
  unresolved_last [] parent h = (refl, (unresolved_first parent [] h).0)
  unresolved_last (r ∷ refs) parent h =
      let (e, more) = unresolved_first r (refs ++ parent ∷ []) h in
      let (rest, last) = unresolved_last refs parent more in (rw e rest, last)

  some_place :
      (o : Option ℕ) (joins : _) → is_some o ≡ true → HasParent (some (referencing o joins))
  some_place none joins h = cc
  some_place (some n) joins h = tt

  module _ (ts : TripleStore) where
    build_referencing-HasParent :
        (key : Bytes) (log : Log)
        → Ok (build_referencing ts ids key log).1
        → Ok log × HasParent (build_referencing ts ids key log).0
    unfolding build_referencing
    build_referencing-HasParent key log =
        let parent = get_first_uri ts key (rr (codes "parentTriplesMap")) in
        elim (Bool-cases (is_empty parent)) [
          | inl e ↦ rw e (λ h. (h, tt))
          | inr e ↦ rw e (λ h.
              let (ok, found) = unresolved_last log.parent_refs parent h in
              (ok, some_place (place_from 0 ids parent) _ found))
        ]

    build_term_map-HasParent :
        (key : Bytes) (log : Log)
        → Ok (build_term_map ts ids key log).1
        → Ok log × HasParent (build_term_map ts ids key log).0
    unfolding build_term_map
    build_term_map-HasParent key log =
        let name = get_first_literal ts key (rr (codes "column")) in
        let templ = get_first_literal ts key (rr (codes "template")) in
        let os = objects ts key (rr (codes "constant")) in
        elim (Bool-cases (is_empty name)) [
          | inr e ↦ rw e (λ h. (h, tt))
          | inl e ↦ elim (Bool-cases (is_empty templ)) [
            | inr f ↦ rw (e, f) (λ h. (h, tt))
            | inl f ↦ elim (Option-cases (build_constant ts os)) [
              | inl g ↦ rw (e, f, g) (build_referencing-HasParent key log)
              | inr (tm, g) ↦
                  rw (e, f, g) (λ h. (h, (let c = constant-HasParent ts os in rw g at c)))
            ]
          ]
        ]

    graph_map_loop-HasParent :
        (os : List ObjValue) (log : Log)
        → Ok (graph_map_loop ts ids os log).1
        → Ok log × All GraphHasParent (graph_map_loop ts ids os log).0
    unfolding graph_map_loop
    graph_map_loop-HasParent [] log = λ h. (h, tt)
    graph_map_loop-HasParent (o ∷ os) log = elim (Bool-cases (is_empty (obj_key o))) [
      | inl e ↦ rw e (graph_map_loop-HasParent os log)
      | inr e ↦
          let key = obj_key o in
          let first = build_term_map-HasParent key log in
          elim (Option-cases (build_term_map ts ids key log).0) [
            | inl g ↦
                rw (e, g)
                  (λ h.
                    let (ok, maps) =
                      graph_map_loop-HasParent os
                        (add_error (about (codes "R2RML parser: unknown graph map type for") key)
                          (build_term_map ts ids key log).1)
                        h in
                    ((first ok).0, maps))
            | inr (tm, g) ↦
                rw (e, g)
                  (λ h.
                    let (ok, maps) =
                      graph_map_loop-HasParent os (build_term_map ts ids key log).1 h in
                    let (before, fits) = first ok in (before, ((rw g at fits), maps)))
          ]
    ]

    predicate_map_loop-HasParent :
        (os : List ObjValue) (log : Log)
        → Ok (predicate_map_loop ts ids os log).1
        → Ok log × All HasParent (predicate_map_loop ts ids os log).0
    unfolding predicate_map_loop
    predicate_map_loop-HasParent [] log = λ h. (h, tt)
    predicate_map_loop-HasParent (o ∷ os) log = elim (Bool-cases (is_empty (obj_key o))) [
      | inl e ↦ rw e (predicate_map_loop-HasParent os log)
      | inr e ↦
          let key = obj_key o in
          let out = (build_term_map ts ids key log).1 in
          let first = build_term_map-HasParent key log in
          elim (Option-cases (build_term_map ts ids key log).0) [
            | inl g ↦
                rw (e, g)
                  (λ h.
                    let (ok, maps) = predicate_map_loop-HasParent os out h in ((first ok).0, maps))
            | inr (tm, g) ↦
                rw (e, g)
                  (λ h.
                    let (ok, maps) = predicate_map_loop-HasParent os out h in
                    let (before, fits) = first ok in (before, ((rw g at fits), maps)))
          ]
    ]

    object_map_loop-HasParent :
        (os : List ObjValue) (log : Log)
        → Ok (object_map_loop ts ids os log).1
        → Ok log × All HasParent (object_map_loop ts ids os log).0
    unfolding object_map_loop
    object_map_loop-HasParent [] log = λ h. (h, tt)
    object_map_loop-HasParent (o ∷ os) log = elim (Bool-cases (is_empty (obj_key o))) [
      | inl e ↦ rw e (object_map_loop-HasParent os log)
      | inr e ↦
          let key = obj_key o in
          let out = (build_term_map ts ids key log).1 in
          let first = build_term_map-HasParent key log in
          elim (Option-cases (build_term_map ts ids key log).0) [
            | inl g ↦
                rw (e, g)
                  (λ h.
                    let (ok, maps) =
                      object_map_loop-HasParent os
                        (add_error (about (codes "R2RML parser: unknown object map type for") key)
                          out)
                        h in
                    ((first ok).0, maps))
            | inr (tm, g) ↦
                rw (e, g)
                  (λ h.
                    let (ok, maps) = object_map_loop-HasParent os out h in
                    let (before, fits) = first ok in
                    (before, (default_literal-HasParent _ tm (rw g at fits), maps)))
          ]
    ]

    pub build_graph_maps-HasParent :
        (key : Bytes) (log : Log)
        → Ok (build_graph_maps ts ids key log).1
        → Ok log × All GraphHasParent (build_graph_maps ts ids key log).0
    unfolding build_graph_maps
    build_graph_maps-HasParent key log h =
        let (ok, maps) = graph_map_loop-HasParent (objects ts key (rr (codes "graphMap"))) log h in
        (ok, All-append GraphHasParent _ _ (constant_graphs-HasParent _) maps)

    pub build_pom-HasParents :
        (key : Bytes) (log : Log)
        → Ok (build_pom ts ids key log).1
        → Ok log × PomHasParents (some (build_pom ts ids key log).0)
    unfolding build_pom
    build_pom-HasParents key log h =
        let (graph_ok, graphs) = build_graph_maps-HasParent key _ h in
        let (object_ok, object_maps) =
          object_map_loop-HasParent (objects ts key (rr (codes "objectMap"))) _ graph_ok in
        let (ok, predicates) =
          predicate_map_loop-HasParent (objects ts key (rr (codes "predicateMap"))) log object_ok in
        (
          ok,
          (
            All-append HasParent _ _ (constant_uris-HasParent _) predicates,
            All-append HasParent _ _ (constant_uris-HasParent _) object_maps,
            graphs,
          ),
        )
