-- ===== src/Generate.antt =====
-- Writing the statements of a database: the writer, the connection, joined rows and the tags of a
-- literal, src/r2rml/ReferencingObjectMap.cpp, AbstractMap.cpp, PredicateObjectMap.cpp. The writer is
-- Serd: `accepts` tells, from the statements written so far, whether it takes another one. The
-- connection is `execute`, from the text of a query to its answer.
pub mod Process
pub mod Statements
pub mod Writing
pub mod Refinement
pub mod Outcome
pub mod Joins
pub mod Every
pub mod Complete
pub mod Keeps
pub mod Written
pub mod Subjects
use sql2rdf.Base.{
  ℕ, zero, suc, Bool, true, false, not, ◌&&◌, ◌||◌, List, [], ◌∷◌, ◌++◌, Option, none, some,
  if◌then◌else◌, ◌==◌, is_empty, Bytes, codes, equal,
}
use sql2rdf.Node.{NodeType, Node, nothing, node, node_from_string}
use sql2rdf.SqlRow.{Columns, texts}
use sql2rdf.Graph.{is_nothing, for_each_graph_node}
use sql2rdf.Mapping.{
  JoinCondition, TermMap, template, column, constant, referencing, GraphMap, SubjectMap,
  PredicateObjectMap, LogicalTable, table, view, TriplesMap, generate, generate_graph,
  generate_subject, compute_datatype_iri, language_tag, is_some, triples_map_is_valid,
}

pub record Statement : Type 0 where
  pub graph : Option Node
  pub subject : Node
  pub predicate : Node
  pub object : Node
  pub datatype : Option Node
  pub lang : Option Node

-- What `SQLConnection::execute` does (include/r2rml/SQLConnection.h): it returns a result set or the
-- null pointer, or it throws, as DuckDBConnection.cpp does on an error of the query.
pub data Answer : Type 0 where
  result_set : List Columns → Answer
  no_result : Answer
  exception : Bytes → Answer

-- The state of a run: it goes on, the writer has made it throw (`checkWriteStatus`), the connection
-- has thrown with a message, or the buffer that the subject node points into has been refilled: from
-- there on the run is not described.
pub data Run : Type 0 where
  running : List Statement → Run
  threw : List Statement → Run
  failed : Bytes → List Statement → Run
  clobbered : List Statement → Run

abbrev pub rdf_type : Node
rdf_type = node NodeType.uri (codes "http://www.w3.org/1999/02/22-rdf-syntax-ns#type")

-- An exception of the connection, which nothing catches.
unfoldable pub raise : Bytes → Run → Run
raise message (running written) = failed message written
raise message run = run

-- A loop over the rows of an answer.
unfoldable pub with_rows : Answer → (List Columns → Run → Run) → Run → Run
unfolding raise
with_rows (result_set rows) loop run = loop rows run
with_rows no_result loop run = run
with_rows (exception message) loop run = raise message run

abbrev pub clobber : Run → Run
clobber (running written) = clobbered written
clobber run = run

-- If the call `generateRDFTerm(row)` refills the buffer of the term map.
unfoldable pub refills : Option TermMap → Columns → Bool
unfolding texts
refills (some (template a t)) row = true
refills (some (column a name)) row = is_some (texts row name)
refills _ row = false

abbrev pub subject_of : Option TriplesMap → Option SubjectMap
subject_of none = none
subject_of (some tm) = tm.subject_map

-- `ReferencingObjectMap::generateRDFTerm`.
unfoldable pub generate_parent : Option TriplesMap → Columns → Node
unfolding generate_subject
generate_parent parent row = elim (subject_of parent) [
  | none ↦ nothing
  | some sm ↦ generate_subject sm row
]

unfoldable pub parent_refills : Option TriplesMap → Columns → Bool
unfolding refills
parent_refills parent row = elim (subject_of parent) [
  | none ↦ false
  | some sm ↦ refills sm.value_map row
]

abbrev pub triples_map_at : List (Option TriplesMap) → ℕ → Option TriplesMap
triples_map_at [] n = none
triples_map_at (tm ∷ tms) zero = tm
triples_map_at (tm ∷ tms) (suc n) = triples_map_at tms n

-- The test of one join condition.
unfoldable pub values_match : Option Bytes → Option Bytes → Bool
values_match (some v) (some w) = equal v w
values_match _ _ = false

unfoldable pub joins_match : List JoinCondition → Columns → Columns → Bool
unfolding texts values_match
joins_match [] child parent = true
joins_match (jc ∷ jcs) child parent =
    let rest = joins_match jcs child parent in
    if values_match (texts child jc.child_column) (texts parent jc.parent_column)
    then rest
    else false

unfoldable pub matching_rows : List JoinCondition → Columns → List Columns → List Columns
unfolding joins_match
matching_rows joins child [] = []
matching_rows joins child (parent ∷ rows) =
    let rest = matching_rows joins child rows in
    if joins_match joins child parent then parent ∷ rest else rest

-- The datatype and the language of an object.
unfoldable pub literal_tags : TermMap → Columns → Node → Option Node × Option Node
unfolding compute_datatype_iri
literal_tags om row (node NodeType.literal s) = elim (language_tag om) [
  | some lang ↦ (none, some (node_from_string NodeType.literal lang))
  | none ↦
      let iri = compute_datatype_iri om row in
      (if is_empty iri then none else some (node_from_string NodeType.uri iri), none)
]
literal_tags om row _ = (none, none)

-- The rows of the parent's answer that match, in a result set of their own.
unfoldable pub matching_answer : List JoinCondition → Columns → Answer → Answer
unfolding matching_rows
matching_answer joins child (result_set rows) = result_set (matching_rows joins child rows)
matching_answer joins child answer = answer

module _ (execute : Bytes → Answer) where
  unfoldable pub get_rows : LogicalTable → Answer
  get_rows (table name) = execute (codes "SELECT * FROM \"" ++ (name ++ b'"' ∷ []))
  get_rows (view query) = execute query

  unfoldable pub table_rows : Option LogicalTable → Answer
  unfolding get_rows
  table_rows none = no_result
  table_rows (some t) = get_rows t

  -- `getJoinedRows`.
  unfoldable pub joined_rows : Option TriplesMap → List JoinCondition → Columns → Answer
  unfolding table_rows matching_answer
  joined_rows none joins child = no_result
  joined_rows (some tm) joins child = matching_answer joins child (table_rows tm.logical_table)

module _ (accepts : List Statement → Statement → Bool) where
  -- `checkWriteStatus(serd_writer_write_statement(…))`.
  unfoldable pub write : Statement → Run → Run
  write statement (running written) =
      if accepts written statement then running (written ++ statement ∷ []) else threw written
  write statement run = run

  abbrev pub write_to_graphs :
      List (Option GraphMap)
      → List (Option GraphMap)
      → Columns
      → (Option Node → Statement)
      → Run
      → Run
  write_to_graphs subject_graphs pom_graphs row statement =
      for_each_graph_node (λ gm r. generate_graph gm row) (texts row)
        (λ graph. write (statement graph)) subject_graphs pom_graphs

abbrev pub tagged : Node → Node → Node → Option Node × Option Node → Option Node → Statement
tagged subject predicate object tags graph = record {
  graph = graph;
  subject = subject;
  predicate = predicate;
  object = object;
  datatype = tags.0;
  lang = tags.1;
}

abbrev pub parent_at : List (Option TriplesMap) → Option ℕ → Option TriplesMap
parent_at maps none = none
parent_at maps (some n) = triples_map_at maps n

abbrev pub is_self : ℕ → Option ℕ → Bool
is_self index none = false
is_self index (some n) = n == index
