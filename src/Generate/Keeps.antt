-- ===== src/Generate/Keeps.antt =====
-- What every step of a run keeps, a run keeps: the loops of PredicateObjectMap.cpp, TriplesMap.cpp
-- and R2RMLMapping.cpp, whatever becomes of the run.
use sql2rdf.Base.{
  ℕ, zero, suc, Bool, true, false, ◌&&◌, List, [], ◌∷◌, Option, none, some, if◌then◌else◌, Bytes,
  All, ◌≡◌, refl, sym, Bool-cases, Option-cases, inl, inr,
}
use mathlib.Core.Path.{subst}
use sql2rdf.Node.{NodeType, Node, node_from_string}
use sql2rdf.SqlRow.{Columns}
use sql2rdf.Graph.{is_nothing}
use sql2rdf.Mapping.{
  JoinCondition, TermMap, template, column, constant, referencing, GraphMap, SubjectMap,
  PredicateObjectMap, TriplesMap, generate, generate_subject, triples_map_is_valid,
}
use sql2rdf.Generate.{
  Statement, Answer, result_set, no_result, exception, Run, running, rdf_type, clobber, raise,
  with_rows, generate_parent, parent_refills, literal_tags, matching_answer, table_rows,
  joined_rows, write, write_to_graphs, tagged, triples_map_at, parent_at, is_self,
}
use sql2rdf.Generate.Process.{
  process_parent_rows, process_object, process_objects, process_predicates, process_row,
  process_predicate_object_maps, process_classes, generate_with, generate_triples, process_rows,
  process_triples_map, process_from, process_database,
}
use sql2rdf.Generate.Statements.{writing, targets}
use sql2rdf.Generate.Writing.{write_all, write_to_graphs-write_all}
use sql2rdf.Generate.Complete.{
  IsComplete, Fits, targets-Fits, tagged-IsComplete, tags_fit, tags_fit-literal_tags, no_tags_fit,
}

-- What is known of the triples maps of a mapping, where the pointer is not null.
abbrev pub Known : (TriplesMap → Type 0) → Option TriplesMap → Type 0
Known K none = Unit
Known K (some tm) = K tm

triples_map_at-Known :
    (K : TriplesMap → Type 0) (maps : List (Option TriplesMap)) (n : ℕ)
    → All (Known K) maps
    → Known K (triples_map_at maps n)
triples_map_at-Known K [] n h = tt
triples_map_at-Known K (tm ∷ tms) zero h = h.0
triples_map_at-Known K (tm ∷ tms) (suc n) h = triples_map_at-Known K tms n h.1

parent_at-Known :
    (K : TriplesMap → Type 0) (maps : List (Option TriplesMap)) (parent : Option ℕ)
    → All (Known K) maps
    → Known K (parent_at maps parent)
parent_at-Known K maps none h = tt
parent_at-Known K maps (some n) h = triples_map_at-Known K maps n h

-- An exception of a join is one of the parent's query.
matching_answer-exception :
    (joins : List JoinCondition) (row : Columns) (answer : Answer) (message : Bytes)
    → matching_answer joins row answer ≡ exception message
    → answer ≡ exception message
unfolding matching_answer
matching_answer-exception joins row (result_set rows) message h = cc
matching_answer-exception joins row no_result message h = h
matching_answer-exception joins row (exception m) message h = h

module _ (accepts : List Statement → Statement → Bool) (execute : Bytes → Answer)
    (maps : List (Option TriplesMap)) (K : TriplesMap → Type 0) (known : All (Known K) maps)
    (I : Run → Type 0)
    (keeps_write : (s : Statement) (run : Run) → IsComplete s → I run → I (write accepts s run))
    (keeps_clobber : (run : Run) → I run → I (clobber run))
    (keeps_raise : (tm : TriplesMap) (message : Bytes) (run : Run)
      → K tm
      → table_rows execute tm.logical_table ≡ exception message
      → I run
      → I (raise message run)) where
  -- A step that is taken only with a term.
  needs_term-Keeps :
      (n : Node) (run done : Run)
      → I run
      → (is_nothing n ≡ false → I done)
      → I (if is_nothing n then run else done)
  needs_term-Keeps n run done i h = elim (Bool-cases (is_nothing n)) [
    | inl e ↦ rw e i
    | inr e ↦ rw e (h e)
  ]

  with_rows-Keeps :
      (answer : Answer) (loop : List Columns → Run → Run) (run : Run)
      → I run
      → ((rows : List Columns) → I (loop rows run))
      → ((message : Bytes) → answer ≡ exception message → I (raise message run))
      → I (with_rows answer loop run)
  unfolding with_rows
  with_rows-Keeps (result_set rows) loop run i h k = h rows
  with_rows-Keeps no_result loop run i h k = i
  with_rows-Keeps (exception message) loop run i h k = k message refl

  module _ (subject : Node) (s : is_nothing subject ≡ false) (sgs : List (Option GraphMap))
      (row : Columns) where
    writing-Keeps :
        (predicate object : Node) (tags : Option Node × Option Node)
        → is_nothing predicate ≡ false
        → is_nothing object ≡ false
        → tags_fit object tags ≡ true
        → (graphs : List (Option Node)) (run : Run) → All Fits graphs
        → I run
        → I (write_all accepts (writing (tagged subject predicate object tags) graphs) run)
    unfolding write_all
    writing-Keeps predicate object tags p o t [] run h i = i
    writing-Keeps predicate object tags p o t (g ∷ gs) run h i =
        writing-Keeps predicate object tags p o t gs _ h.1 (
          keeps_write (tagged subject predicate object tags g) run
            (tagged-IsComplete subject predicate object tags g s p o t h.0) i)

    write_to_graphs-Keeps :
        (predicate object : Node) (tags : Option Node × Option Node)
        → is_nothing predicate ≡ false
        → is_nothing object ≡ false
        → tags_fit object tags ≡ true
        → (pgs : List (Option GraphMap)) (run : Run) → I run
        → I (write_to_graphs accepts sgs pgs row (tagged subject predicate object tags) run)
    write_to_graphs-Keeps predicate object tags p o t pgs run i =
        subst I
          (sym (
            write_to_graphs-write_all accepts sgs pgs row (tagged subject predicate object tags)
              run))
          (writing-Keeps predicate object tags p o t (targets sgs pgs row) run
            (targets-Fits sgs pgs row) i)

    clobbered-Keeps :
        (refilled : Bool) (run : Run) → I run → I (if refilled then clobber run else run)
    clobbered-Keeps true run i = keeps_clobber run i
    clobbered-Keeps false run i = i

    module _ (predicate : Node) (p : is_nothing predicate ≡ false)
        (pgs : List (Option GraphMap)) where
      process_parent_rows-Keeps :
          (self : Bool) (parent : Option TriplesMap) (rows : List Columns) (run : Run)
          → I run
          → I (
              process_parent_rows accepts self parent
                (λ object. tagged subject predicate object (none, none))
                sgs
                pgs
                row
                rows
                run)
      unfolding process_parent_rows
      process_parent_rows-Keeps self parent [] run i = i
      process_parent_rows-Keeps self parent (r ∷ rows) run i =
          let object = generate_parent parent r in
          let here = clobbered-Keeps (self && parent_refills parent r) run i in
          process_parent_rows-Keeps self parent rows _ (
            needs_term-Keeps object _ _ here (λ o.
              write_to_graphs-Keeps predicate object (none, none) p o (no_tags_fit object) pgs _
                here))

      regular-Keeps :
          (om : TermMap) (run : Run)
          → I run
          → I (
              if is_nothing (generate om row)
              then run
              else write_to_graphs accepts sgs pgs row
                  (tagged subject predicate
                    (generate om row)
                    (literal_tags om row (generate om row)))
                  run)
      regular-Keeps om run i = needs_term-Keeps (generate om row) _ _ i (λ o.
          write_to_graphs-Keeps predicate (generate om row) _ p o
            (tags_fit-literal_tags om row (generate om row)) pgs run i)

      joined-Keeps :
          (parent : Option TriplesMap) (joins : List JoinCondition)
          (loop : List Columns → Run → Run) (run : Run)
          → Known K parent
          → I run
          → ((rows : List Columns) → I (loop rows run))
          → I (with_rows (joined_rows execute parent joins row) loop run)
      unfolding joined_rows with_rows
      joined-Keeps none joins loop run k i h = i
      joined-Keeps (some tm) joins loop run k i h = with_rows-Keeps _ loop run i h (λ message e.
          keeps_raise tm message run k
            (matching_answer-exception joins row (table_rows execute tm.logical_table) message e) i)

      process_object-Keeps :
          (index : ℕ) (om : Option TermMap) (run : Run)
          → I run
          → I (process_object accepts execute maps index subject predicate sgs pgs row om run)
      unfolding process_object
      process_object-Keeps index none run i = i
      process_object-Keeps index (some (template a t)) run i = regular-Keeps (template a t) run i
      process_object-Keeps index (some (column a name)) run i = regular-Keeps (column a name) run i
      process_object-Keeps index (some (constant a v)) run i = regular-Keeps (constant a v) run i
      process_object-Keeps index (some (referencing parent joins)) run i =
          joined-Keeps (parent_at maps parent) joins _ run (parent_at-Known K maps parent known) i
            (λ rows.
              process_parent_rows-Keeps (is_self index parent) (parent_at maps parent) rows run i)

      process_objects-Keeps :
          (index : ℕ) (oms : List (Option TermMap)) (run : Run)
          → I run
          → I (process_objects accepts execute maps index subject predicate sgs pgs row oms run)
      unfolding process_objects
      process_objects-Keeps index [] run i = i
      process_objects-Keeps index (om ∷ oms) run i =
          process_objects-Keeps index oms _ (process_object-Keeps index om run i)

    process_predicates-Keeps :
        (index : ℕ) (pom : PredicateObjectMap) (pms : List (Option TermMap)) (run : Run)
        → I run
        → I (process_predicates accepts execute maps index subject sgs pom row pms run)
    unfolding process_predicates
    process_predicates-Keeps index pom [] run i = i
    process_predicates-Keeps index pom (none ∷ pms) run i =
        process_predicates-Keeps index pom pms run i
    process_predicates-Keeps index pom (some pm ∷ pms) run i =
        process_predicates-Keeps index pom pms _ (
          needs_term-Keeps (generate pm row) _ _ i (λ p.
            process_objects-Keeps (generate pm row) p pom.graph_maps index pom.object_maps run i))

    process_poms-Keeps :
        (index : ℕ) (poms : List (Option PredicateObjectMap)) (run : Run)
        → I run
        → I (process_predicate_object_maps accepts execute maps index row subject sgs poms run)
    unfolding process_predicate_object_maps process_row
    process_poms-Keeps index [] run i = i
    process_poms-Keeps index (none ∷ poms) run i = process_poms-Keeps index poms run i
    process_poms-Keeps index (some pom ∷ poms) run i =
        process_poms-Keeps index poms _
          (process_predicates-Keeps index pom pom.predicate_maps run i)

    process_classes-Keeps :
        (index : ℕ) (iris : List Bytes) (run : Run)
        → I run
        → I (process_classes accepts execute maps index row subject sgs iris run)
    unfolding process_classes
    process_classes-Keeps index [] run i = i
    process_classes-Keeps index (iri ∷ iris) run i = process_classes-Keeps index iris _ (
        write_to_graphs-Keeps rdf_type (node_from_string NodeType.uri iri) (none, none) refl refl
          refl [] run i)

  generate_with-Keeps :
      (index : ℕ) (sm : SubjectMap) (tm : TriplesMap) (row : Columns) (run : Run)
      → I run
      → I (generate_with accepts execute maps index sm tm row run)
  unfolding generate_with
  generate_with-Keeps index sm tm row run i =
      let subject = generate_subject sm row in
      needs_term-Keeps subject _ _ i (λ s.
        process_poms-Keeps subject s sm.graph_maps row index tm.predicate_object_maps _
          (process_classes-Keeps subject s sm.graph_maps row index sm.class_iris run i))

  process_rows-Keeps :
      (index : ℕ) (tm : TriplesMap) (rows : List Columns) (run : Run)
      → I run
      → I (process_rows accepts execute maps index tm rows run)
  unfolding process_rows generate_triples
  process_rows-Keeps index tm [] run i = i
  process_rows-Keeps index tm (row ∷ rows) run i =
      process_rows-Keeps index tm rows _ (elim (Option-cases tm.subject_map) [
        | inl e ↦ rw e i
        | inr (sm, e) ↦ rw e (generate_with-Keeps index sm tm row run i)
      ])

  process_triples_map-Keeps :
      (index : ℕ) (o : Option TriplesMap) (run : Run)
      → Known K o
      → I run
      → I (process_triples_map accepts execute maps index o run)
  unfolding process_triples_map
  process_triples_map-Keeps index none run k i = i
  process_triples_map-Keeps index (some tm) run k i = elim (Bool-cases (triples_map_is_valid tm)) [
    | inl e ↦ rw e (
        with_rows-Keeps (table_rows execute tm.logical_table) _ run i
          (λ rows. process_rows-Keeps index tm rows run i)
          (λ message e. keeps_raise tm message run k e i))
    | inr e ↦ rw e i
  ]

  process_from-Keeps :
      (index : ℕ) (tms : List (Option TriplesMap)) (run : Run)
      → All (Known K) tms
      → I run
      → I (process_from accepts execute maps index tms run)
  unfolding process_from
  process_from-Keeps index [] run k i = i
  process_from-Keeps index (o ∷ tms) run k i =
      process_from-Keeps (suc index) tms _ k.1 (process_triples_map-Keeps index o run k.0 i)

  -- What the steps keep, and the run without statements has, a whole run has.
  pub process_database-Keeps : I (running []) → I (process_database accepts execute maps)
  unfolding process_database
  process_database-Keeps i = process_from-Keeps 0 maps (running []) known i
