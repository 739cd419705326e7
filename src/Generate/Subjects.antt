-- ===== src/Generate/Subjects.antt =====
-- The subjects of the statements of a mapping that was read from a document.
use sql2rdf.Base.{
  Bool, false, List, [], ◌∷◌, Option, none, some, Bytes, All, All-append, ◌≡◌, Bool-cases, inl, inr,
}
use sql2rdf.Node.{NodeType, Node, node_from_string}
use sql2rdf.SqlRow.{Columns}
use sql2rdf.Mapping.{
  TermMap, template, column, constant, referencing, GraphMap, SubjectMap, PredicateObjectMap,
  TriplesMap, generate, generate_subject, triples_map_is_valid,
}
use sql2rdf.Generate.{Answer, rdf_type, generate_parent, table_rows, joined_rows, tagged, parent_at}
use sql2rdf.Generate.Statements.{
  Event, writes, fails, writing, each, for_term, targets, regular_event, parent_events,
  regular_events, object_events, objects_events, predicate_object_events, class_events,
  subject_events, row_events, triples_map_events, database_events,
}
use sql2rdf.Generate.Every.{All-concat_map, All-each, All-for_term, All-answer_events}
use sql2rdf.Build.{TripleStore}
use sql2rdf.Build.Document.{Parsed, mapping, runtime_error, build_mapping}
use sql2rdf.Build.Subjects.{
  is_literal_node, HasNoLiteral, TripleSubject, ParsedSubjects, build_mapping-ParsedSubjects,
}

-- The subject of a statement to be written.
abbrev pub SubjectIsNoLiteral : Event → Type 0
SubjectIsNoLiteral (writes s) = is_literal_node s.subject ≡ false
SubjectIsNoLiteral (fails message) = Unit

-- The statements of a mapping that could be read, over any database.
abbrev pub WrittenSubjects : (Bytes → Answer) → Parsed → Type 0
WrittenSubjects execute (mapping maps errors) =
    All SubjectIsNoLiteral (database_events execute maps)
WrittenSubjects execute (runtime_error errors) = Unit

tagged-NoLiteral :
    (subject predicate object : Node) (tags : Option Node × Option Node)
    → is_literal_node subject ≡ false
    → (graphs : List (Option Node))
    → All SubjectIsNoLiteral (writing (tagged subject predicate object tags) graphs)
tagged-NoLiteral subject predicate object tags s [] = tt
tagged-NoLiteral subject predicate object tags s (g ∷ gs) =
    (s, tagged-NoLiteral subject predicate object tags s gs)

module _ (execute : Bytes → Answer) (maps : List (Option TriplesMap)) where
  module _ (subject : Node) (s : is_literal_node subject ≡ false) (row : Columns) where
    regular-NoLiteral :
        (predicate : Node) (graphs : List (Option Node)) (om : TermMap)
        → All SubjectIsNoLiteral (regular_events execute maps subject predicate graphs row om)
    regular-NoLiteral predicate graphs om =
        All-for_term SubjectIsNoLiteral (generate om row)
          (regular_event subject predicate graphs row om)
          (λ o. tagged-NoLiteral subject predicate (generate om row) _ s graphs)

    object-NoLiteral :
        (predicate : Node) (graphs : List (Option Node)) (om : TermMap)
        → All SubjectIsNoLiteral (object_events execute maps subject predicate graphs row om)
    unfolding object_events parent_events
    object-NoLiteral predicate graphs (template a t) =
        regular-NoLiteral predicate graphs (template a t)
    object-NoLiteral predicate graphs (column a name) =
        regular-NoLiteral predicate graphs (column a name)
    object-NoLiteral predicate graphs (constant a v) =
        regular-NoLiteral predicate graphs (constant a v)
    object-NoLiteral predicate graphs (referencing parent joins) =
        All-answer_events SubjectIsNoLiteral (joined_rows execute (parent_at maps parent) joins row)
          _
          (All-concat_map SubjectIsNoLiteral _ (λ parent_row.
            let object = generate_parent (parent_at maps parent) parent_row in
            All-for_term SubjectIsNoLiteral object
              (λ object. writing (tagged subject predicate object (none, none)) graphs)
              (λ o. tagged-NoLiteral subject predicate object (none, none) s graphs)))
          (λ message. tt)

    predicate_object-NoLiteral :
        (sgs : List (Option GraphMap)) (pom : PredicateObjectMap)
        → All SubjectIsNoLiteral (predicate_object_events execute maps row subject sgs pom)
    unfolding predicate_object_events
    predicate_object-NoLiteral sgs pom =
        All-each SubjectIsNoLiteral _
          (λ pm.
            All-for_term SubjectIsNoLiteral (generate pm row)
              (objects_events execute maps row subject sgs pom)
              (λ p.
                All-each SubjectIsNoLiteral _
                  (λ om. object-NoLiteral (generate pm row) (targets sgs pom.graph_maps row) om)
                  pom.object_maps))
          pom.predicate_maps

    classes-NoLiteral :
        (sgs : List (Option GraphMap)) (iris : List Bytes)
        → All SubjectIsNoLiteral (class_events execute maps row subject sgs iris)
    unfolding class_events
    classes-NoLiteral sgs iris =
        All-concat_map SubjectIsNoLiteral _
          (λ iri.
            tagged-NoLiteral subject rdf_type (node_from_string NodeType.uri iri) (none, none) s
              (targets sgs [] row))
          iris

  with_subject-NoLiteral :
      (o : Option SubjectMap) (tm : TriplesMap) (row : Columns)
      → HasNoLiteral o
      → All SubjectIsNoLiteral (elim o [
        | none ↦ []
        | some sm ↦ for_term (generate_subject sm row) (subject_events execute maps sm tm row)
      ])
  unfolding subject_events
  with_subject-NoLiteral none tm row h = tt
  with_subject-NoLiteral (some sm) tm row h =
      let subject = generate_subject sm row in
      All-for_term SubjectIsNoLiteral subject (subject_events execute maps sm tm row) (λ there.
        All-append SubjectIsNoLiteral
          (class_events execute maps row subject sm.graph_maps sm.class_iris)
          (each (predicate_object_events execute maps row subject sm.graph_maps)
            tm.predicate_object_maps)
          (classes-NoLiteral subject (h row) row sm.graph_maps sm.class_iris)
          (All-each SubjectIsNoLiteral _
            (predicate_object-NoLiteral subject (h row) row sm.graph_maps)
            tm.predicate_object_maps))

  triples_map-NoLiteral :
      (tm : TriplesMap)
      → HasNoLiteral tm.subject_map
      → All SubjectIsNoLiteral (triples_map_events execute maps tm)
  unfolding triples_map_events row_events
  triples_map-NoLiteral tm h = elim (Bool-cases (triples_map_is_valid tm)) [
    | inl e ↦ rw e (
        All-answer_events SubjectIsNoLiteral (table_rows execute tm.logical_table) _
          (All-concat_map SubjectIsNoLiteral _
            (λ row. with_subject-NoLiteral tm.subject_map tm row h))
          (λ message. tt))
    | inr e ↦ rw e tt
  ]

  each-NoLiteral :
      (tms : List (Option TriplesMap))
      → All TripleSubject tms
      → All SubjectIsNoLiteral (each (triples_map_events execute maps) tms)
  unfolding each
  each-NoLiteral [] h = tt
  each-NoLiteral (none ∷ tms) h = each-NoLiteral tms h.1
  each-NoLiteral (some tm ∷ tms) h =
      All-append SubjectIsNoLiteral (triples_map_events execute maps tm) _
        (triples_map-NoLiteral tm h.0) (each-NoLiteral tms h.1)

written_subjects :
    (execute : Bytes → Answer) (parsed : Parsed)
    → ParsedSubjects parsed
    → WrittenSubjects execute parsed
unfolding database_events
written_subjects execute (mapping maps errors) h = each-NoLiteral execute maps maps h
written_subjects execute (runtime_error errors) h = tt

-- No statement that a mapping describes has a literal as subject, over any database, if the mapping
-- was read from the triples of a document.
pub build_mapping-WrittenSubjects :
    (execute : Bytes → Answer) (ts : TripleStore) (pre_errors : List Bytes)
    (ignore_non_fatal_errors : Bool)
    → WrittenSubjects execute (build_mapping ts pre_errors ignore_non_fatal_errors)
build_mapping-WrittenSubjects execute ts pre_errors ignore =
    written_subjects execute (build_mapping ts pre_errors ignore)
      (build_mapping-ParsedSubjects ts pre_errors ignore)
