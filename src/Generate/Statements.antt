-- ===== src/Generate/Statements.antt =====
-- The statements of a database as a list, without a writer: what a mapping says row by row, and
-- which of its queries fail in between.
use sql2rdf.Base.{
  ℕ, suc, Bool, false, not, List, [], ◌∷◌, ◌++◌, Option, none, some, if◌then◌else◌, map, Bytes, All,
  ◌≡◌,
}
use sql2rdf.Node.{NodeType, Node, node_from_string}
use sql2rdf.SqlRow.{Columns, texts}
use sql2rdf.Graph.{is_nothing}
use sql2rdf.Graph.Order.{named_graphs}
use sql2rdf.Mapping.{
  TermMap, referencing, GraphMap, SubjectMap, PredicateObjectMap, TriplesMap, generate,
  generate_graph, generate_subject, triples_map_is_valid,
}
use sql2rdf.Generate.{
  Statement, Answer, result_set, no_result, exception, rdf_type, generate_parent, literal_tags,
  table_rows, joined_rows, tagged, parent_at, is_self,
}

-- A statement to be written, or an exception of the connection.
pub data Event : Type 0 where
  writes : Statement → Event
  fails : Bytes → Event

-- One statement in each of some graphs.
abbrev pub writing : (Option Node → Statement) → List (Option Node) → List Event
writing statement graphs = map (λ g. writes (statement g)) graphs

unfoldable pub concat_map {ℓ κ} : {A : Type ℓ} {B : Type κ} → (A → List B) → List A → List B
concat_map f [] = []
concat_map f (x ∷ xs) = f x ++ concat_map f xs

-- What a list of pointers gives, null pointers left out.
unfoldable pub each {ℓ κ} : {A : Type ℓ} {B : Type κ} → (A → List B) → List (Option A) → List B
each f [] = []
each f (none ∷ xs) = each f xs
each f (some x ∷ xs) = f x ++ each f xs

-- What a term gives, if it is one.
unfoldable pub for_term {ℓ} : {A : Type ℓ} → Node → (Node → List A) → List A
for_term n f = if is_nothing n then [] else f n

unfoldable pub or_default : List Node → List (Option Node)
or_default [] = none ∷ []
or_default (g ∷ gs) = map some (g ∷ gs)

-- The graphs of a statement.
unfoldable pub targets :
    List (Option GraphMap) → List (Option GraphMap) → Columns → List (Option Node)
unfolding or_default named_graphs
targets sgs pgs row =
    or_default (named_graphs (λ gm r. generate_graph gm row) (texts row) (sgs ++ pgs))

unfoldable pub parent_events :
    Option TriplesMap
    → (Node → Option Node → Statement)
    → List (Option Node)
    → List Columns
    → List Event
unfolding concat_map for_term generate_parent
parent_events parent statement graphs =
    concat_map
      (λ row. for_term (generate_parent parent row) (λ object. writing (statement object) graphs))

unfoldable pub answer_events : Answer → (List Columns → List Event) → List Event
answer_events (result_set rows) f = f rows
answer_events no_result f = []
answer_events (exception message) f = fails message ∷ []

abbrev pub regular_event : Node → Node → List (Option Node) → Columns → TermMap → Node → List Event
regular_event subject predicate graphs row om object =
    writing (tagged subject predicate object (literal_tags om row object)) graphs

module _ (execute : Bytes → Answer) (maps : List (Option TriplesMap)) where
  abbrev pub regular_events : Node → Node → List (Option Node) → Columns → TermMap → List Event
  regular_events subject predicate graphs row om =
      for_term (generate om row) (regular_event subject predicate graphs row om)

  unfoldable pub object_events : Node → Node → List (Option Node) → Columns → TermMap → List Event
  unfolding parent_events answer_events for_term joined_rows literal_tags generate
  object_events subject predicate graphs row (referencing parent joins) =
      answer_events (joined_rows execute (parent_at maps parent) joins row) (
        parent_events (parent_at maps parent)
          (λ object. tagged subject predicate object (none, none)) graphs)
  object_events subject predicate graphs row om = regular_events subject predicate graphs row om

  abbrev pub objects_events :
      Columns → Node → List (Option GraphMap) → PredicateObjectMap → Node → List Event
  objects_events row subject sgs pom predicate =
      each (object_events subject predicate (targets sgs pom.graph_maps row) row) pom.object_maps

  abbrev pub predicate_events :
      Columns → Node → List (Option GraphMap) → PredicateObjectMap → TermMap → List Event
  predicate_events row subject sgs pom pm =
      for_term (generate pm row) (objects_events row subject sgs pom)

  unfoldable pub predicate_object_events :
      Columns → Node → List (Option GraphMap) → PredicateObjectMap → List Event
  unfolding object_events each for_term targets
  predicate_object_events row subject sgs pom =
      each (predicate_events row subject sgs pom) pom.predicate_maps

  abbrev pub class_event : Columns → Node → List (Option GraphMap) → Bytes → List Event
  class_event row subject sgs iri =
      writing (tagged subject rdf_type (node_from_string NodeType.uri iri) (none, none))
        (targets sgs [] row)

  unfoldable pub class_events : Columns → Node → List (Option GraphMap) → List Bytes → List Event
  unfolding concat_map targets
  class_events row subject sgs = concat_map (class_event row subject sgs)

  unfoldable pub subject_events : SubjectMap → TriplesMap → Columns → Node → List Event
  unfolding predicate_object_events class_events each
  subject_events sm tm row subject =
      class_events row subject sm.graph_maps sm.class_iris
      ++ each (predicate_object_events row subject sm.graph_maps) tm.predicate_object_maps

  unfoldable pub row_events : TriplesMap → Columns → List Event
  unfolding subject_events for_term generate_subject
  row_events tm row = elim tm.subject_map [
    | none ↦ []
    | some sm ↦ for_term (generate_subject sm row) (subject_events sm tm row)
  ]

  unfoldable pub triples_map_events : TriplesMap → List Event
  unfolding row_events concat_map answer_events table_rows triples_map_is_valid
  triples_map_events tm =
      if not (triples_map_is_valid tm)
      then []
      else answer_events (table_rows execute tm.logical_table) (concat_map (row_events tm))

  unfoldable pub database_events : List Event
  unfolding triples_map_events each
  database_events = each triples_map_events maps

-- No object map at this place of the mapping has its own triples map as parent.
abbrev pub is_own_parent : ℕ → Option TermMap → Bool
is_own_parent index (some (referencing parent joins)) = is_self index parent
is_own_parent index _ = false

abbrev pub objects_of : Option PredicateObjectMap → List (Option TermMap)
objects_of none = []
objects_of (some pom) = pom.object_maps

abbrev pub poms_of : Option TriplesMap → List (Option PredicateObjectMap)
poms_of none = []
poms_of (some tm) = tm.predicate_object_maps

abbrev pub IsApart : ℕ → List (Option PredicateObjectMap) → Type 0
IsApart index = All (λ pom. All (λ om. is_own_parent index om ≡ false) (objects_of pom))

-- No triples map of the mapping is its own parent.
abbrev pub HasNoSelfJoin : ℕ → List (Option TriplesMap) → Type 0
HasNoSelfJoin index [] = Unit
HasNoSelfJoin index (tm ∷ tms) = IsApart index (poms_of tm) × HasNoSelfJoin (suc index) tms
