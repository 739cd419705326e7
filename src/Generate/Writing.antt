-- ===== src/Generate/Writing.antt =====
-- Writing a list of statements, and the loops of one object map.
use sql2rdf.Base.{
  Bool, false, List, [], ◌∷◌, ◌++◌, Option, some, if◌then◌else◌, map, ◌≡◌, refl, sym, ap, ◌∙◌,
  Bool-cases, inl, inr,
}
use sql2rdf.Node.{Node}
use sql2rdf.SqlRow.{Columns, texts}
use sql2rdf.Graph.{is_nothing}
use sql2rdf.Graph.Order.{emit_targets, emit_all, for_each_graph_node-named_graphs}
use sql2rdf.Mapping.{GraphMap, TriplesMap, generate_graph}
use sql2rdf.Generate.{
  Statement, Answer, result_set, no_result, exception, Run, raise, with_rows, generate_parent,
  write, write_to_graphs,
}
use sql2rdf.Generate.Process.{process_parent_rows}
use sql2rdf.Generate.Statements.{
  Event, writes, fails, writing, concat_map, for_term, or_default, targets, parent_events,
  answer_events,
}

module _ (accepts : List Statement → Statement → Bool) where
  -- Writing the statements of a list one by one, up to the first exception.
  unfoldable pub write_all : List Event → Run → Run
  unfolding write raise
  write_all [] run = run
  write_all (writes s ∷ es) run = write_all es (write accepts s run)
  write_all (fails message ∷ es) run = write_all es (raise message run)

  pub write_all-append :
      (ss ts : List Event) (run : Run) → write_all (ss ++ ts) run ≡ write_all ts (write_all ss run)
  unfolding write_all
  write_all-append [] ts run = refl
  write_all-append (writes s ∷ ss) ts run = write_all-append ss ts (write accepts s run)
  write_all-append (fails m ∷ ss) ts run = write_all-append ss ts (raise m run)

  emit_all-write_all :
      (statement : Option Node → Statement) (gs : List Node) (run : Run)
      → emit_all (λ g. write accepts (statement g)) gs run
        ≡ write_all (writing statement (map some gs)) run
  unfolding emit_all write_all
  emit_all-write_all statement [] run = refl
  emit_all-write_all statement (g ∷ gs) run =
      emit_all-write_all statement gs (write accepts (statement (some g)) run)

  emit_targets-write_all :
      (statement : Option Node → Statement) (gs : List Node) (run : Run)
      → emit_targets (λ g. write accepts (statement g)) gs run
        ≡ write_all (writing statement (or_default gs)) run
  unfolding emit_targets or_default write_all
  emit_targets-write_all statement [] run = refl
  emit_targets-write_all statement (g ∷ gs) run = emit_all-write_all statement (g ∷ gs) run

  pub write_to_graphs-write_all :
      (sgs pgs : List (Option GraphMap)) (row : Columns) (statement : Option Node → Statement)
      (run : Run)
      → write_to_graphs accepts sgs pgs row statement run
        ≡ write_all (writing statement (targets sgs pgs row)) run
  unfolding targets
  write_to_graphs-write_all sgs pgs row statement run =
      for_each_graph_node-named_graphs (λ gm r. generate_graph gm row) (texts row)
        (λ g. write accepts (statement g)) sgs pgs run
      ∙ emit_targets-write_all statement _ run

  -- One more round of a loop.
  pub write_all-then :
      (loop : Run → Run) (ss ts : List Event) (run here : Run)
      → here ≡ write_all ss run
      → ((r : Run) → loop r ≡ write_all ts r)
      → loop here ≡ write_all (ss ++ ts) run
  write_all-then loop ss ts run here h more =
      more here ∙ ap (write_all ts) h ∙ sym (write_all-append ss ts run)

  -- A term that is needed for anything to be written.
  pub for_term-write_all :
      (n : Node) (f : Node → List Event) (run done : Run)
      → done ≡ write_all (f n) run
      → (if is_nothing n then run else done) ≡ write_all (for_term n f) run
  unfolding for_term write_all
  for_term-write_all n f run done h = elim (Bool-cases (is_nothing n)) [
    | inl e ↦ rw e refl
    | inr e ↦ rw e h
  ]

  pub process_parent_rows-write_all :
      (parent : Option TriplesMap) (statement : Node → Option Node → Statement)
      (sgs pgs : List (Option GraphMap)) (row : Columns) (rows : List Columns) (run : Run)
      → process_parent_rows accepts false parent statement sgs pgs row rows run
        ≡ write_all (parent_events parent statement (targets sgs pgs row) rows) run
  unfolding process_parent_rows parent_events concat_map write_all
  process_parent_rows-write_all parent statement sgs pgs row [] run = refl
  process_parent_rows-write_all parent statement sgs pgs row (p ∷ rows) run =
      let object = generate_parent parent p in
      write_all-then (process_parent_rows accepts false parent statement sgs pgs row rows)
        (for_term object (λ object. writing (statement object) (targets sgs pgs row)))
        (parent_events parent statement (targets sgs pgs row) rows) run _
        (for_term-write_all object (λ object. writing (statement object) (targets sgs pgs row)) run
          _ (write_to_graphs-write_all sgs pgs row (statement object) run))
        (process_parent_rows-write_all parent statement sgs pgs row rows)

  -- The rows of an answer, or its exception.
  pub with_rows-write_all :
      (answer : Answer) (loop : List Columns → Run → Run) (f : List Columns → List Event)
      (run : Run)
      → ((rows : List Columns) (r : Run) → loop rows r ≡ write_all (f rows) r)
      → with_rows answer loop run ≡ write_all (answer_events answer f) run
  unfolding with_rows answer_events write_all
  with_rows-write_all (result_set rows) loop f run h = h rows run
  with_rows-write_all no_result loop f run h = refl
  with_rows-write_all (exception message) loop f run h = refl
