-- ===== src/Tests/Generation.antt =====
-- Writing the statements of a small database: TriplesMap.cpp, PredicateObjectMap.cpp,
-- ReferencingObjectMap.cpp, R2RMLMapping.cpp.
use sql2rdf.Base.{
  ℕ, ◌+◌, Bool, true, List, [], ◌∷◌, ◌++◌, map, take, Option, none, some, if◌then◌else◌, Bytes,
  codes, equal, find_byte, All, length, ltb, ◌↔◌, ◌≡◌, refl,
}
use sql2rdf.Node.{TermType, NodeType, Node, node}
use sql2rdf.Term.Xsd
use sql2rdf.Percent.{percent_encode, encode_byte, strchr, unreserved}
use sql2rdf.Graph.{for_each_graph_node}
use sql2rdf.SqlRow.{Columns, SqlType, SqlValue}
use sql2rdf.Mapping.{
  JoinCondition, Annotations, TermMap, template, column, constant, referencing, SubjectMap,
  PredicateObjectMap, table, view, TriplesMap, mapping_is_valid,
}
use sql2rdf.Generate.{
  Statement, Run, running, threw, failed, clobbered, Answer, result_set, no_result, exception,
  rdf_type, joins_match, tagged,
}
use sql2rdf.Generate.Process.{process_database}
use sql2rdf.Generate.Statements.{writes, fails, database_events, HasNoSelfJoin}
use sql2rdf.Generate.Writing.{write_all}
use sql2rdf.Generate.Refinement.{process_database-write_all}
use sql2rdf.Generate.Outcome.{IsOutcome, HasCause, process_database-IsOutcome}
use sql2rdf.Generate.Joins.{HaveOneValue, joins_match-HaveOneValue}

abbrev plain : TermType → Annotations
plain t = record { term_type = t; language_tag = none; datatype_iri = none }

abbrev iri : Bytes → Node
iri s = node NodeType.uri s

abbrev iri_constant : Bytes → TermMap
iri_constant s = constant (plain TermType.iri) (iri s)

abbrev join : JoinCondition
join = record { child_column = codes "dept"; parent_column = codes "no" }

abbrev subject : Bytes → List Bytes → SubjectMap
subject t classes = record {
  value_map = some (template (plain TermType.iri) t);
  class_iris = classes;
  graph_maps = [];
}

abbrev property : Bytes → TermMap → Option PredicateObjectMap
property p om = some (record {
  predicate_maps = some (iri_constant p) ∷ [];
  object_maps = some om ∷ [];
  graph_maps = [];
})

abbrev employees : ℕ → TriplesMap
employees parent = record {
  id = codes "#emp";
  logical_table = some (table (codes "emp"));
  subject_map = some (subject (codes "e/{id}") (codes "Emp" ∷ []));
  predicate_object_maps =
      property (codes "id") (column (plain TermType.literal) (codes "id"))
      ∷ property (codes "in") (referencing (some parent) (join ∷ []))
      ∷ [];
}

abbrev departments : TriplesMap
departments = record {
  id = codes "#dept";
  logical_table = some (view (codes "q"));
  subject_map = some (subject (codes "d/{no}") []);
  predicate_object_maps = [];
}

abbrev mapping : List (Option TriplesMap)
mapping = some (employees 1) ∷ some departments ∷ []

abbrev integer : Bytes → SqlValue
integer s = record { type = SqlType.integer; text = s }

abbrev employee : Columns
employee = (codes "id", integer (codes "7")) ∷ (codes "dept", integer (codes "2")) ∷ []

abbrev department : Bytes → Columns
department number = (codes "no", integer number) ∷ []

abbrev execute : Bytes → Answer
execute query =
    if equal query (codes "SELECT * FROM \"emp\"")
    then result_set (employee ∷ [])
    else if equal query (codes "q")
    then result_set (department (codes "1") ∷ department (codes "2") ∷ [])
    else no_result

-- The query of the departments fails.
abbrev breaking : Bytes → Answer
breaking query = if equal query (codes "q") then exception (codes "no table") else execute query

abbrev open_writer : List Statement → Statement → Bool
open_writer written s = true

abbrev full_writer : List Statement → Statement → Bool
full_writer written s = ltb (length written) 2

abbrev statements : List Statement
statements =
    tagged (iri (codes "e/7")) rdf_type (iri (codes "Emp")) (none, none) none
    ∷ tagged (iri (codes "e/7")) (iri (codes "id")) (node NodeType.literal (codes "7"))
        (some (iri Xsd.integer), none) none
    ∷ tagged (iri (codes "e/7")) (iri (codes "in")) (iri (codes "d/2")) (none, none) none
    ∷ []

all_written : process_database open_writer execute mapping ≡ running statements
unfolding process_database find_byte for_each_graph_node percent_encode Xsd.integer encode_byte
    strchr unreserved
all_written = refl

described : database_events execute mapping ≡ map writes statements
unfolding database_events find_byte percent_encode Xsd.integer encode_byte strchr unreserved
described = refl

abbrev outcome : Run → ℕ
outcome (running written) = length written
outcome (threw written) = 10 + length written
outcome (failed message written) = 30 + length written
outcome (clobbered written) = 20 + length written

third_refused : outcome (process_database full_writer execute mapping) ≡ 12
unfolding process_database find_byte for_each_graph_node percent_encode Xsd.integer encode_byte
    strchr unreserved
third_refused = refl

-- A query that fails in a join ends the run behind the statements in front of it.
query_fails :
    process_database open_writer breaking mapping ≡ failed (codes "no table") (take 2 statements)
unfolding process_database find_byte for_each_graph_node percent_encode Xsd.integer encode_byte
    strchr unreserved
query_fails = refl

failure_described :
    database_events breaking mapping
    ≡ map writes (take 2 statements) ++ fails (codes "no table") ∷ fails (codes "no table") ∷ []
unfolding database_events find_byte percent_encode Xsd.integer encode_byte strchr unreserved
failure_described = refl

-- The subject's buffer is refilled by the parent's rows.
abbrev reflexive : List (Option TriplesMap)
reflexive =
    some (record (employees 0) {
      predicate_object_maps = property (codes "in") (referencing (some 0) []) ∷ [];
    })
    ∷ []

own_parent : outcome (process_database open_writer execute reflexive) ≡ 21
unfolding process_database find_byte for_each_graph_node percent_encode Xsd.integer encode_byte
    strchr unreserved
own_parent = refl

valid_mapping : mapping_is_valid mapping ≡ true
unfolding mapping_is_valid
valid_mapping = refl

apart : HasNoSelfJoin 0 mapping
apart = (((refl, tt), ((refl, tt), tt)), (tt, tt))

process_database-write_all_example :
    process_database full_writer execute mapping
    ≡ write_all full_writer (database_events execute mapping) (running [])
process_database-write_all_example = process_database-write_all full_writer execute mapping apart

process_database-IsOutcome_example :
    IsOutcome full_writer
      (database_events breaking mapping)
      (process_database full_writer breaking mapping)
    × HasCause breaking mapping (process_database full_writer breaking mapping)
process_database-IsOutcome_example = process_database-IsOutcome full_writer breaking mapping apart

joins_match-HaveOneValue_example :
    (joins_match (join ∷ []) employee (department (codes "2")) ≡ true)
    ↔ All (HaveOneValue employee (department (codes "2"))) (join ∷ [])
joins_match-HaveOneValue_example =
    joins_match-HaveOneValue (join ∷ []) employee (department (codes "2"))
