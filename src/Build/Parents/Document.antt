-- ===== src/Build/Parents/Document.antt =====
-- The parents that a document names, once it was read without an error.
use sql2rdf.Base.{
  true, false, List, [], ◌∷◌, ◌++◌, Option, none, some, is_empty, Bytes, codes, All, ◌≡◌, refl,
  Bool-cases, inl, inr,
}
use sql2rdf.Node.{TermType}
use sql2rdf.Mapping.{TermMap}
use sql2rdf.Build.{
  ObjValue, TripleStore, rr, objects, get_first_literal, get_first_obj_key, obj_key, Log,
  build_logical_table,
}
use sql2rdf.Build.Maps.{no_literal, subject_value, typed_subject, build_subject_map, build_pom}
use sql2rdf.Build.Document.{
  is_triples_map, triples_map_ids, table_of, subject_map_of, pom_loop, build_triples_map,
  build_loop, unresolved, build_mapping,
}
use sql2rdf.Build.Parents.{
  PomHasParents, SubjectHasParents, TriplesHaveParents, StrictlyParsed, Ok, build_pom-HasParents,
  build_graph_maps-HasParent,
}

module _ (ids : List Bytes) (ts : TripleStore) where
  pom_loop-HasParents :
      (os : List ObjValue) (log : Log)
      → Ok ids (pom_loop ts ids os log).1
      → Ok ids log × All PomHasParents (pom_loop ts ids os log).0
  unfolding pom_loop
  pom_loop-HasParents [] log = λ h. (h, tt)
  pom_loop-HasParents (o ∷ os) log = elim (Bool-cases (is_empty (obj_key o))) [
    | inl e ↦ rw e (pom_loop-HasParents os log)
    | inr e ↦ rw e (λ h.
        let (pom_ok, poms) = pom_loop-HasParents os (build_pom ts ids (obj_key o) log).1 h in
        let (ok, pom) = build_pom-HasParents ids ts (obj_key o) log pom_ok in (ok, (pom, poms)))
  ]

  table_of-Ok : (subj : Bytes) (log : Log) → Ok ids (table_of ts ids subj log).1 → Ok ids log
  unfolding table_of build_logical_table
  table_of-Ok subj log =
      let key = get_first_obj_key ts subj (rr (codes "logicalTable")) in
      elim (Bool-cases (is_empty key)) [
        | inl e ↦ rw e (λ h. h)
        | inr e ↦ elim (Bool-cases (is_empty (get_first_literal ts key (rr (codes "tableName"))))) [
          | inr f ↦ rw (e, f) (λ h. h)
          | inl f ↦
              elim (Bool-cases (is_empty (get_first_literal ts key (rr (codes "sqlQuery"))))) [
                | inr g ↦ rw (e, f, g) (λ h. h)
                | inl g ↦ rw (e, f, g) (λ h. h)
              ]
        ]
      ]

  no_literal-Ok : (key : Bytes) (t : _) (log : Log) → Ok ids (no_literal key t log).1 → Ok ids log
  unfolding no_literal
  no_literal-Ok key TermType.iri log h = h
  no_literal-Ok key TermType.blank_node log h = h
  no_literal-Ok key TermType.literal log h = h

  typed_subject-Ok :
      (key : Bytes) (o : Option TermMap) (log : Log)
      → Ok ids (typed_subject ts ids key o log).1
      → Ok ids log
  unfolding typed_subject
  typed_subject-Ok key none log h = h
  typed_subject-Ok key (some tm) log h = no_literal-Ok key _ log h

  subject_map_of-HasParents :
      (subj : Bytes) (log : Log)
      → Ok ids (subject_map_of ts ids subj log).1
      → Ok ids log × SubjectHasParents (subject_map_of ts ids subj log).0
  unfolding subject_map_of build_subject_map
  subject_map_of-HasParents subj log =
      let key = get_first_obj_key ts subj (rr (codes "subjectMap")) in
      elim (Bool-cases (is_empty key)) [
        | inl e ↦ rw e (λ h. (h, tt))
        | inr e ↦ rw e (λ h.
            let (ok, graphs) = build_graph_maps-HasParent ids ts key _ h in
            (typed_subject-Ok key (subject_value ts ids key) log ok, graphs))
      ]

  build_triples_map-HaveParents :
      (subj : Bytes) (log : Log)
      → Ok ids (build_triples_map ts ids subj log).1
      → Ok ids log × TriplesHaveParents (some (build_triples_map ts ids subj log).0)
  unfolding build_triples_map
  build_triples_map-HaveParents subj log h =
      let (pom_ok, poms) =
        pom_loop-HasParents (objects ts subj (rr (codes "predicateObjectMap"))) _ h in
      let (subject_ok, subject) = subject_map_of-HasParents subj _ pom_ok in
      (table_of-Ok subj log subject_ok, (subject, poms))

  build_loop-HaveParents :
      (entries : TripleStore) (log : Log)
      → Ok ids (build_loop ts ids entries log).1
      → Ok ids log × All TriplesHaveParents (build_loop ts ids entries log).0
  unfolding build_loop
  build_loop-HaveParents [] log = λ h. (h, tt)
  build_loop-HaveParents (entry ∷ entries) log =
      elim (Bool-cases (is_triples_map entry.0 entry.1)) [
        | inl e ↦ rw e (λ h.
            let (tm_ok, tms) =
              build_loop-HaveParents entries (build_triples_map ts ids entry.0 log).1 h in
            let (ok, tm) = build_triples_map-HaveParents entry.0 log tm_ok in (ok, (tm, tms)))
        | inr e ↦ rw e (build_loop-HaveParents entries log)
      ]

no_errors : (a b : List Bytes) → is_empty (a ++ b) ≡ true → b ≡ []
no_errors [] [] h = refl
no_errors [] (x ∷ b) h = cc
no_errors (x ∷ a) b h = cc

-- If errors are not ignored and a mapping is read all the same, then every predicate, object and
-- graph map in it that refers to a parent has one.
pub build_mapping-StrictlyParsed :
    (ts : TripleStore) (pre_errors : List Bytes)
    → StrictlyParsed (build_mapping ts pre_errors false)
unfolding build_mapping
build_mapping-StrictlyParsed ts pre_errors =
    let ids = triples_map_ids ts in
    let first : Log = record { errors = pre_errors; parent_refs = [] } in
    let built = build_loop ts ids ts first in
    let missing = unresolved ids built.1.parent_refs in
    elim (Bool-cases (is_empty (built.1.errors ++ missing))) [
      | inl e ↦ rw e (build_loop-HaveParents ids ts ts first (no_errors built.1.errors missing e)).1
      | inr e ↦ rw e tt
    ]
