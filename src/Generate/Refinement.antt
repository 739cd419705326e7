-- ===== src/Generate/Refinement.antt =====
-- The run writes the statements of the description, in their order.
use sql2rdf.Base.{
  ℕ, suc, Bool, false, List, [], ◌∷◌, Option, none, some, if◌then◌else◌, Bytes, All, ◌≡◌, refl,
  Bool-cases, inl, inr,
}
use sql2rdf.Node.{NodeType, Node, node_from_string}
use sql2rdf.SqlRow.{Columns}
use sql2rdf.Graph.{is_nothing}
use sql2rdf.Mapping.{
  TermMap, template, column, constant, referencing, GraphMap, SubjectMap, PredicateObjectMap,
  TriplesMap, generate, generate_subject, triples_map_is_valid,
}
use sql2rdf.Generate.{
  Statement, Answer, Run, running, with_rows, rdf_type, literal_tags, table_rows, joined_rows,
  tagged, parent_at, is_self, write_to_graphs,
}
use sql2rdf.Generate.Process.{
  process_parent_rows, process_object, process_objects, process_predicates, process_row,
  process_predicate_object_maps, process_classes, generate_with, generate_triples, process_rows,
  process_triples_map, process_from, process_database,
}
use sql2rdf.Generate.Statements.{
  concat_map, each, for_term, targets, parent_events, answer_events, regular_event, regular_events,
  object_events, objects_events, predicate_events, class_event, subject_events,
  predicate_object_events, class_events, row_events, triples_map_events, database_events,
  is_own_parent, IsApart, HasNoSelfJoin,
}
use sql2rdf.Generate.Writing.{
  write_all, write_all-then, with_rows-write_all, for_term-write_all, write_to_graphs-write_all,
  process_parent_rows-write_all,
}

module _ (accepts : List Statement → Statement → Bool) (execute : Bytes → Answer)
    (maps : List (Option TriplesMap)) (index : ℕ) where
  module _ (subject : Node) (sgs : List (Option GraphMap)) (row : Columns) where
    module _ (predicate : Node) (pgs : List (Option GraphMap)) where
      regular-write_all :
          (om : TermMap) (run : Run)
          → (if is_nothing (generate om row)
              then run
              else write_to_graphs accepts sgs pgs row
                  (tagged subject predicate
                    (generate om row)
                    (literal_tags om row (generate om row)))
                  run)
            ≡ write_all accepts
                (regular_events execute maps subject predicate (targets sgs pgs row) row om)
                run
      regular-write_all om run =
          for_term-write_all accepts (generate om row)
            (regular_event subject predicate (targets sgs pgs row) row om) run _
            (write_to_graphs-write_all accepts sgs pgs row
              (tagged subject predicate (generate om row) (literal_tags om row (generate om row)))
              run)

      joined-write_all :
          (parent : Option ℕ) (self : Bool) (answer : Answer) (run : Run)
          → self ≡ false
          → let statement = λ (object : Node). tagged subject predicate object (none, none) in
            with_rows answer
              (process_parent_rows accepts self (parent_at maps parent) statement sgs pgs row)
              run
            ≡ write_all accepts
                (answer_events answer
                  (parent_events (parent_at maps parent) statement (targets sgs pgs row)))
                run
      joined-write_all parent self answer run apart =
          with_rows-write_all accepts answer _ _ run (λ rows r. rw apart (
            process_parent_rows-write_all accepts (parent_at maps parent)
              (λ object. tagged subject predicate object (none, none)) sgs pgs row rows r))

      process_object-write_all :
          (om : TermMap) (run : Run)
          → is_own_parent index (some om) ≡ false
          → process_object accepts execute maps index subject predicate sgs pgs row (some om) run
            ≡ write_all accepts
                (object_events execute maps subject predicate (targets sgs pgs row) row om)
                run
      unfolding process_object object_events
      process_object-write_all (template a t) run apart = regular-write_all (template a t) run
      process_object-write_all (column a name) run apart = regular-write_all (column a name) run
      process_object-write_all (constant a v) run apart = regular-write_all (constant a v) run
      process_object-write_all (referencing parent joins) run apart =
          joined-write_all parent (is_self index parent)
            (joined_rows execute (parent_at maps parent) joins row) run apart

      process_objects-write_all :
          (oms : List (Option TermMap)) (run : Run)
          → All (λ om. is_own_parent index om ≡ false) oms
          → process_objects accepts execute maps index subject predicate sgs pgs row oms run
            ≡ write_all accepts
                (each (object_events execute maps subject predicate (targets sgs pgs row) row) oms)
                run
      unfolding process_objects process_object each write_all
      process_objects-write_all [] run apart = refl
      process_objects-write_all (none ∷ oms) run apart = process_objects-write_all oms run apart.1
      process_objects-write_all (some om ∷ oms) run apart =
          write_all-then accepts
            (process_objects accepts execute maps index subject predicate sgs pgs row oms)
            (object_events execute maps subject predicate (targets sgs pgs row) row om)
            (each (object_events execute maps subject predicate (targets sgs pgs row) row) oms) run
            _ (process_object-write_all om run apart.0)
            (λ r. process_objects-write_all oms r apart.1)

    process_predicates-write_all :
        (pom : PredicateObjectMap) (pms : List (Option TermMap)) (run : Run)
        → All (λ om. is_own_parent index om ≡ false) pom.object_maps
        → process_predicates accepts execute maps index subject sgs pom row pms run
          ≡ write_all accepts (each (predicate_events execute maps row subject sgs pom) pms) run
    unfolding process_predicates each write_all
    process_predicates-write_all pom [] run apart = refl
    process_predicates-write_all pom (none ∷ pms) run apart =
        process_predicates-write_all pom pms run apart
    process_predicates-write_all pom (some pm ∷ pms) run apart =
        write_all-then accepts
          (process_predicates accepts execute maps index subject sgs pom row pms)
          (predicate_events execute maps row subject sgs pom pm)
          (each (predicate_events execute maps row subject sgs pom) pms) run _
          (for_term-write_all accepts (generate pm row)
            (objects_events execute maps row subject sgs pom) run _
            (process_objects-write_all (generate pm row) pom.graph_maps pom.object_maps run apart))
          (λ r. process_predicates-write_all pom pms r apart)

    process_poms-write_all :
        (poms : List (Option PredicateObjectMap)) (run : Run)
        → IsApart index poms
        → process_predicate_object_maps accepts execute maps index row subject sgs poms run
          ≡ write_all accepts (each (predicate_object_events execute maps row subject sgs) poms) run
    unfolding process_predicate_object_maps process_row predicate_object_events each write_all
    process_poms-write_all [] run apart = refl
    process_poms-write_all (none ∷ poms) run apart = process_poms-write_all poms run apart.1
    process_poms-write_all (some pom ∷ poms) run apart =
        write_all-then accepts
          (process_predicate_object_maps accepts execute maps index row subject sgs poms)
          (predicate_object_events execute maps row subject sgs pom)
          (each (predicate_object_events execute maps row subject sgs) poms) run _
          (process_predicates-write_all pom pom.predicate_maps run apart.0)
          (λ r. process_poms-write_all poms r apart.1)

    process_classes-write_all :
        (iris : List Bytes) (run : Run)
        → process_classes accepts execute maps index row subject sgs iris run
          ≡ write_all accepts (class_events execute maps row subject sgs iris) run
    unfolding process_classes class_events concat_map write_all
    process_classes-write_all [] run = refl
    process_classes-write_all (iri ∷ iris) run =
        write_all-then accepts (process_classes accepts execute maps index row subject sgs iris)
          (class_event execute maps row subject sgs iri)
          (class_events execute maps row subject sgs iris) run _
          (write_to_graphs-write_all accepts sgs [] row
            (tagged subject rdf_type (node_from_string NodeType.uri iri) (none, none)) run)
          (process_classes-write_all iris)

  generate_with-write_all :
      (sm : SubjectMap) (tm : TriplesMap) (row : Columns) (run : Run)
      → IsApart index tm.predicate_object_maps
      → generate_with accepts execute maps index sm tm row run
        ≡ write_all accepts
            (for_term (generate_subject sm row) (subject_events execute maps sm tm row))
            run
  unfolding generate_with subject_events
  generate_with-write_all sm tm row run apart =
      let subject = generate_subject sm row in
      for_term-write_all accepts subject (subject_events execute maps sm tm row) run _ (
        write_all-then accepts
          (process_predicate_object_maps accepts execute maps index row subject sm.graph_maps
            tm.predicate_object_maps)
          (class_events execute maps row subject sm.graph_maps sm.class_iris)
          (each (predicate_object_events execute maps row subject sm.graph_maps)
            tm.predicate_object_maps)
          run _ (process_classes-write_all subject sm.graph_maps row sm.class_iris run)
          (λ r. process_poms-write_all subject sm.graph_maps row tm.predicate_object_maps r apart))

  with_subject-write_all :
      (o : Option SubjectMap) (tm : TriplesMap) (row : Columns) (run : Run)
      → IsApart index tm.predicate_object_maps
      → (elim o [ none ↦ run | some sm ↦ generate_with accepts execute maps index sm tm row run ])
        ≡ write_all accepts
            (elim o [
              | none ↦ []
              | some sm ↦ for_term (generate_subject sm row) (subject_events execute maps sm tm row)
            ])
            run
  unfolding write_all
  with_subject-write_all none tm row run apart = refl
  with_subject-write_all (some sm) tm row run apart = generate_with-write_all sm tm row run apart

  generate_triples-write_all :
      (tm : TriplesMap) (row : Columns) (run : Run)
      → IsApart index tm.predicate_object_maps
      → generate_triples accepts execute maps index tm row run
        ≡ write_all accepts (row_events execute maps tm row) run
  unfolding generate_triples row_events
  generate_triples-write_all tm row run apart =
      with_subject-write_all tm.subject_map tm row run apart

  process_rows-write_all :
      (tm : TriplesMap) (rows : List Columns) (run : Run)
      → IsApart index tm.predicate_object_maps
      → process_rows accepts execute maps index tm rows run
        ≡ write_all accepts (concat_map (row_events execute maps tm) rows) run
  unfolding process_rows concat_map write_all
  process_rows-write_all tm [] run apart = refl
  process_rows-write_all tm (row ∷ rows) run apart =
      write_all-then accepts (process_rows accepts execute maps index tm rows)
        (row_events execute maps tm row) (concat_map (row_events execute maps tm) rows) run _
        (generate_triples-write_all tm row run apart) (λ r. process_rows-write_all tm rows r apart)

  process_triples_map-write_all :
      (tm : TriplesMap) (run : Run)
      → IsApart index tm.predicate_object_maps
      → process_triples_map accepts execute maps index (some tm) run
        ≡ write_all accepts (triples_map_events execute maps tm) run
  unfolding process_triples_map triples_map_events write_all
  process_triples_map-write_all tm run apart = elim (Bool-cases (triples_map_is_valid tm)) [
    | inl e ↦ rw e (
        with_rows-write_all accepts (table_rows execute tm.logical_table) _ _ run
          (λ rows r. process_rows-write_all tm rows r apart))
    | inr e ↦ rw e refl
  ]

module _ (accepts : List Statement → Statement → Bool) (execute : Bytes → Answer)
    (maps : List (Option TriplesMap)) where
  process_from-write_all :
      (index : ℕ) (tms : List (Option TriplesMap)) (run : Run)
      → HasNoSelfJoin index tms
      → process_from accepts execute maps index tms run
        ≡ write_all accepts (each (triples_map_events execute maps) tms) run
  unfolding process_from process_triples_map each write_all
  process_from-write_all index [] run h = refl
  process_from-write_all index (none ∷ tms) run h = process_from-write_all (suc index) tms run h.1
  process_from-write_all index (some tm ∷ tms) run h =
      write_all-then accepts (process_from accepts execute maps (suc index) tms)
        (triples_map_events execute maps tm) (each (triples_map_events execute maps) tms) run _
        (process_triples_map-write_all accepts execute maps index tm run h.0)
        (λ r. process_from-write_all (suc index) tms r h.1)

  -- Without a triples map that is its own parent, a run over the database writes the statements that
  -- the mapping describes, in their order, until the writer refuses one or a query fails.
  pub process_database-write_all :
      HasNoSelfJoin 0 maps
      → process_database accepts execute maps
        ≡ write_all accepts (database_events execute maps) (running [])
  unfolding process_database database_events
  process_database-write_all h = process_from-write_all 0 maps (running []) h
