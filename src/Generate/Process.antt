-- ===== src/Generate/Process.antt =====
-- The loops over rows and maps: src/r2rml/PredicateObjectMap.cpp (`processRow`), TriplesMap.cpp
-- (`generateTriples`), R2RMLMapping.cpp (`processDatabase`).
use sql2rdf.Base.{ℕ, suc, Bool, not, ◌&&◌, List, [], ◌∷◌, Option, none, some, if◌then◌else◌, Bytes}
use sql2rdf.Node.{NodeType, Node, node_from_string}
use sql2rdf.SqlRow.{Columns}
use sql2rdf.Graph.{is_nothing}
use sql2rdf.Mapping.{
  TermMap, referencing, GraphMap, SubjectMap, PredicateObjectMap, TriplesMap, generate,
  generate_subject, triples_map_is_valid,
}
use sql2rdf.Generate.{
  Statement, Answer, Run, running, with_rows, rdf_type, clobber, generate_parent, parent_refills,
  literal_tags, table_rows, joined_rows, write, write_to_graphs, tagged, parent_at, is_self,
}

module _ (accepts : List Statement → Statement → Bool) where
  -- The loop over the joined rows. The flag says that the parent is the triples map of the subject.
  unfoldable pub process_parent_rows :
      Bool
      → Option TriplesMap
      → (Node → Option Node → Statement)
      → List (Option GraphMap)
      → List (Option GraphMap)
      → Columns
      → List Columns
      → Run
      → Run
  unfolding generate_parent parent_refills write
  process_parent_rows self parent statement sgs pgs row [] run = run
  process_parent_rows self parent statement sgs pgs row (parent_row ∷ rows) run =
      let object = generate_parent parent parent_row in
      let here = if self && parent_refills parent parent_row then clobber run else run in
      let done =
        if is_nothing object
        then here
        else write_to_graphs accepts sgs pgs row (statement object) here in
      process_parent_rows self parent statement sgs pgs row rows done

module _ (accepts : List Statement → Statement → Bool) (execute : Bytes → Answer)
    (maps : List (Option TriplesMap)) (index : ℕ) where
  -- The body of the loop over the object maps.
  unfoldable pub process_object :
      Node
      → Node
      → List (Option GraphMap)
      → List (Option GraphMap)
      → Columns
      → Option TermMap
      → Run
      → Run
  unfolding generate process_parent_rows joined_rows literal_tags write with_rows
  process_object subject predicate sgs pgs row none run = run
  process_object subject predicate sgs pgs row (some (referencing parent joins)) run =
      with_rows (joined_rows execute (parent_at maps parent) joins row)
        (process_parent_rows accepts (is_self index parent) (parent_at maps parent)
          (λ object. tagged subject predicate object (none, none)) sgs pgs row)
        run
  process_object subject predicate sgs pgs row (some om) run =
      let object = generate om row in
      if is_nothing object
      then run
      else write_to_graphs accepts sgs pgs row
          (tagged subject predicate object (literal_tags om row object)) run

  unfoldable pub process_objects :
      Node
      → Node
      → List (Option GraphMap)
      → List (Option GraphMap)
      → Columns
      → List (Option TermMap)
      → Run
      → Run
  unfolding process_object
  process_objects subject predicate sgs pgs row [] run = run
  process_objects subject predicate sgs pgs row (om ∷ oms) run =
      process_objects subject predicate sgs pgs row oms
        (process_object subject predicate sgs pgs row om run)

  unfoldable pub process_predicates :
      Node
      → List (Option GraphMap)
      → PredicateObjectMap
      → Columns
      → List (Option TermMap)
      → Run
      → Run
  unfolding generate process_objects
  process_predicates subject sgs pom row [] run = run
  process_predicates subject sgs pom row (none ∷ pms) run =
      process_predicates subject sgs pom row pms run
  process_predicates subject sgs pom row (some pm ∷ pms) run =
      let predicate = generate pm row in
      process_predicates subject sgs pom row pms (
        if is_nothing predicate
        then run
        else process_objects subject predicate sgs pom.graph_maps row pom.object_maps run)

  -- `processRow`.
  unfoldable pub process_row :
      Columns → Node → List (Option GraphMap) → PredicateObjectMap → Run → Run
  unfolding process_predicates
  process_row row subject sgs pom run =
      process_predicates subject sgs pom row pom.predicate_maps run

  unfoldable pub process_predicate_object_maps :
      Columns → Node → List (Option GraphMap) → List (Option PredicateObjectMap) → Run → Run
  unfolding process_row
  process_predicate_object_maps row subject sgs [] run = run
  process_predicate_object_maps row subject sgs (none ∷ poms) run =
      process_predicate_object_maps row subject sgs poms run
  process_predicate_object_maps row subject sgs (some pom ∷ poms) run =
      process_predicate_object_maps row subject sgs poms (process_row row subject sgs pom run)

  -- The loop over `classIRIs`.
  unfoldable pub process_classes : Columns → Node → List (Option GraphMap) → List Bytes → Run → Run
  unfolding write
  process_classes row subject sgs [] run = run
  process_classes row subject sgs (iri ∷ iris) run = process_classes row subject sgs iris (
      write_to_graphs accepts sgs [] row
        (tagged subject rdf_type (node_from_string NodeType.uri iri) (none, none)) run)

  -- `generateTriples`, with a subject map.
  unfoldable pub generate_with : SubjectMap → TriplesMap → Columns → Run → Run
  unfolding generate_subject process_classes process_predicate_object_maps
  generate_with sm tm row run =
      let subject = generate_subject sm row in
      if is_nothing subject
      then run
      else process_predicate_object_maps row subject sm.graph_maps tm.predicate_object_maps
          (process_classes row subject sm.graph_maps sm.class_iris run)

  unfoldable pub generate_triples : TriplesMap → Columns → Run → Run
  unfolding generate_with
  generate_triples tm row run = elim tm.subject_map [
    | none ↦ run
    | some sm ↦ generate_with sm tm row run
  ]

  unfoldable pub process_rows : TriplesMap → List Columns → Run → Run
  unfolding generate_triples
  process_rows tm [] run = run
  process_rows tm (row ∷ rows) run = process_rows tm rows (generate_triples tm row run)

  -- The body of the loop of `processDatabase`.
  unfoldable pub process_triples_map : Option TriplesMap → Run → Run
  unfolding triples_map_is_valid table_rows process_rows with_rows
  process_triples_map none run = run
  process_triples_map (some tm) run =
      let rows = with_rows (table_rows execute tm.logical_table) (process_rows tm) run in
      if not (triples_map_is_valid tm) then run else rows

module _ (accepts : List Statement → Statement → Bool) (execute : Bytes → Answer)
    (maps : List (Option TriplesMap)) where
  -- From the triples map at a place of the mapping on.
  unfoldable pub process_from : ℕ → List (Option TriplesMap) → Run → Run
  unfolding process_triples_map
  process_from index [] run = run
  process_from index (tm ∷ tms) run =
      process_from (suc index) tms (process_triples_map accepts execute maps index tm run)

  unfoldable pub process_database : Run
  unfolding process_from
  process_database = process_from 0 maps (running [])
