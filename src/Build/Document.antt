-- ===== src/Build/Document.antt =====
-- The triples maps of an R2RML document, the parents that they name, and the errors,
-- src/r2rml/R2RMLParser.cpp (`buildMappingFromTriples`).
use sql2rdf.Base.{
  Bool, false, not, ◌&&◌, ◌||◌, List, [], ◌∷◌, ◌++◌, Option, none, some, if◌then◌else◌, is_empty,
  Bytes, codes, ◌==◌,
}
use sql2rdf.Mapping.{LogicalTable, SubjectMap, PredicateObjectMap, TriplesMap, is_some}
use sql2rdf.Build.{
  ObjValue, PredMap, TripleStore, rr, find, objects, get_first_obj_key, obj_key, Log, about,
  place_from, build_logical_table,
}
use sql2rdf.Build.Maps.{build_subject_map, build_pom}

-- `subj[0] == '_' && subj[1] == ':'`.
abbrev pub is_blank_key : Bytes → Bool
is_blank_key (c ∷ d ∷ s) = c == b'_' && d == b':'
is_blank_key _ = false

unfoldable pub has_predicate : PredMap → Bytes → Bool
unfolding find rr
has_predicate preds name = is_some (find preds (rr name))

unfoldable pub is_triples_map : Bytes → PredMap → Bool
unfolding has_predicate
is_triples_map subj preds =
    not (is_blank_key subj)
    && (has_predicate preds (codes "logicalTable")
        || (has_predicate preds (codes "subjectMap")
            || (has_predicate preds (codes "predicateObjectMap")
                || has_predicate preds (codes "subject"))))

unfoldable pub triples_map_ids : TripleStore → List Bytes
unfolding is_triples_map
triples_map_ids [] = []
triples_map_ids (entry ∷ entries) =
    let rest = triples_map_ids entries in
    if is_triples_map entry.0 entry.1 then entry.0 ∷ rest else rest

module _ (ts : TripleStore) (ids : List Bytes) where
  unfoldable pub table_of : Bytes → Log → Option LogicalTable × Log
  unfolding get_first_obj_key build_logical_table rr
  table_of subj log =
      let key = get_first_obj_key ts subj (rr (codes "logicalTable")) in
      if is_empty key then (none, log) else build_logical_table ts key log

  unfoldable pub subject_map_of : Bytes → Log → Option SubjectMap × Log
  unfolding get_first_obj_key build_subject_map rr
  subject_map_of subj log =
      let key = get_first_obj_key ts subj (rr (codes "subjectMap")) in
      let (sm, out) = build_subject_map ts ids key log in
      if is_empty key then (none, log) else (some sm, out)

  unfoldable pub pom_loop : List ObjValue → Log → List (Option PredicateObjectMap) × Log
  unfolding build_pom
  pom_loop [] log = ([], log)
  pom_loop (o ∷ os) log =
      let (pom, pom_log) = build_pom ts ids (obj_key o) log in
      let (poms, out) = pom_loop os pom_log in
      let skipped = pom_loop os log in
      if is_empty (obj_key o) then skipped else (some pom ∷ poms, out)

  unfoldable pub build_triples_map : Bytes → Log → TriplesMap × Log
  unfolding table_of subject_map_of pom_loop objects rr
  build_triples_map subj log =
      let (lt, table_log) = table_of subj log in
      let (sm, subject_log) = subject_map_of subj table_log in
      let (poms, out) = pom_loop (objects ts subj (rr (codes "predicateObjectMap"))) subject_log in
      (
        record { id = subj; logical_table = lt; subject_map = sm; predicate_object_maps = poms },
        out,
      )

  -- Phase 2, over the entries of the store.
  unfoldable pub build_loop : TripleStore → Log → List (Option TriplesMap) × Log
  unfolding is_triples_map build_triples_map
  build_loop [] log = ([], log)
  build_loop (entry ∷ entries) log =
      let (tm, tm_log) = build_triples_map entry.0 log in
      let (tms, out) = build_loop entries tm_log in
      let skipped = build_loop entries log in
      if is_triples_map entry.0 entry.1 then (some tm ∷ tms, out) else skipped

-- Phase 3: the errors for parents that there are not.
unfoldable pub unresolved : List Bytes → List Bytes → List Bytes
unfolding place_from
unresolved ids [] = []
unresolved ids (parent ∷ refs) =
    let rest = unresolved ids refs in
    if is_some (place_from 0 ids parent)
    then rest
    else about (codes "R2RML parser: unresolved parentTriplesMap") parent ∷ rest

-- A mapping with the errors that were ignored, or a `std::runtime_error` with all of them.
pub data Parsed : Type 0 where
  mapping : List (Option TriplesMap) → List Bytes → Parsed
  runtime_error : List Bytes → Parsed

unfoldable pub build_mapping : TripleStore → List Bytes → Bool → Parsed
unfolding triples_map_ids build_loop unresolved
build_mapping ts pre_errors ignore_non_fatal_errors =
    let ids = triples_map_ids ts in
    let (maps, log) = build_loop ts ids ts (record { errors = pre_errors; parent_refs = [] }) in
    let errors = log.errors ++ unresolved ids log.parent_refs in
    if is_empty errors
    then mapping maps []
    else if ignore_non_fatal_errors
    then mapping maps errors
    else runtime_error errors
