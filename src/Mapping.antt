-- ===== src/Mapping.antt =====
-- The objects of an R2RML mapping, include/r2rml/TermMap.h, SubjectMap.h, GraphMap.h,
-- PredicateObjectMap.h, ReferencingObjectMap.h, TriplesMap.h, R2RMLMapping.h and their .cpp files:
-- their terms and `isValid`. A null pointer is `none`; the pointer to a parent triples map is its
-- place in the mapping's list. `inverseExpression` is not used by the code modelled here.
use sql2rdf.Base.{
  ℕ, Bool, true, false, not, ◌&&◌, List, [], ◌∷◌, Option, none, some, is_empty, Bytes,
}
use sql2rdf.Node.{TermType, Node, nothing, node}
use sql2rdf.SqlRow.{Columns, texts, generate_column, column_datatype_iri, static_datatype_iri}
use sql2rdf.Template.Expand.{generate_template}
use sql2rdf.Graph.{is_nothing}

pub record JoinCondition : Type 0 where
  pub child_column : Bytes
  pub parent_column : Bytes

-- The fields of the base class `TermMap`.
pub record Annotations : Type 0 where
  pub term_type : TermType
  pub language_tag : Option Bytes
  pub datatype_iri : Option Bytes

pub data TermMap : Type 0 where
  template : Annotations → Bytes → TermMap
  column : Annotations → Bytes → TermMap
  constant : Annotations → Node → TermMap
  referencing : (parent : Option ℕ) → List JoinCondition → TermMap

-- `ConcreteGraphMap`.
pub record GraphMap : Type 0 where
  pub value_map : Option TermMap

-- `ConcreteSubjectMap`.
pub record SubjectMap : Type 0 where
  pub value_map : Option TermMap
  pub class_iris : List Bytes
  pub graph_maps : List (Option GraphMap)

pub record PredicateObjectMap : Type 0 where
  pub predicate_maps : List (Option TermMap)
  pub object_maps : List (Option TermMap)
  pub graph_maps : List (Option GraphMap)

-- `BaseTableOrView` and `R2RMLView`.
pub data LogicalTable : Type 0 where
  table : Bytes → LogicalTable
  view : Bytes → LogicalTable

pub record TriplesMap : Type 0 where
  pub id : Bytes
  pub logical_table : Option LogicalTable
  pub subject_map : Option SubjectMap
  pub predicate_object_maps : List (Option PredicateObjectMap)

-- The constructor of `ConstantTermMap`.
unfoldable pub constant_value : Node → Node
constant_value (node t (c ∷ s)) = node t (c ∷ s)
constant_value _ = nothing

-- `generateRDFTerm(row, env)`.
unfoldable pub generate : TermMap → Columns → Node
unfolding generate_template generate_column texts
generate (template a t) row = generate_template a.term_type t (texts row)
generate (column a name) row = generate_column a.term_type name row
generate (constant a value) row = value
generate (referencing parent joins) row = nothing

unfoldable pub generate_value : Option TermMap → Columns → Node
unfolding generate
generate_value none row = nothing
generate_value (some m) row = generate m row

unfoldable pub generate_graph : GraphMap → Columns → Node
unfolding generate_value
generate_graph gm row = generate_value gm.value_map row

unfoldable pub generate_subject : SubjectMap → Columns → Node
unfolding generate_value
generate_subject sm row = generate_value sm.value_map row

-- `computeDatatypeIRI`.
unfoldable pub compute_datatype_iri : TermMap → Columns → Bytes
unfolding column_datatype_iri static_datatype_iri
compute_datatype_iri (column a name) row = column_datatype_iri a.datatype_iri name row
compute_datatype_iri (template a t) row = static_datatype_iri a.datatype_iri
compute_datatype_iri (constant a value) row = static_datatype_iri a.datatype_iri
compute_datatype_iri (referencing parent joins) row = []

abbrev pub language_tag : TermMap → Option Bytes
language_tag (template a t) = a.language_tag
language_tag (column a name) = a.language_tag
language_tag (constant a value) = a.language_tag
language_tag (referencing parent joins) = none

abbrev pub is_some {ℓ} : {A : Type ℓ} → Option A → Bool
is_some none = false
is_some (some a) = true

-- `std::all_of` over pointers, where a null pointer fails the test.
unfoldable pub all_valid {ℓ} : {A : Type ℓ} → (A → Bool) → List (Option A) → Bool
all_valid p [] = true
all_valid p (none ∷ xs) = false
all_valid p (some x ∷ xs) = p x && all_valid p xs

unfoldable pub join_is_valid : JoinCondition → Bool
join_is_valid jc = not (is_empty jc.child_column) && not (is_empty jc.parent_column)

unfoldable pub joins_are_valid : List JoinCondition → Bool
unfolding join_is_valid
joins_are_valid [] = true
joins_are_valid (jc ∷ jcs) = join_is_valid jc && joins_are_valid jcs

unfoldable pub term_map_is_valid : TermMap → Bool
unfolding joins_are_valid
term_map_is_valid (template a t) = not (is_empty t)
term_map_is_valid (column a name) = not (is_empty name)
term_map_is_valid (constant a value) = not (is_nothing value)
term_map_is_valid (referencing parent joins) = is_some parent && joins_are_valid joins

-- A graph map keeps the `isValid` of `TermMap`.
abbrev pub graph_map_is_valid : GraphMap → Bool
graph_map_is_valid gm = true

unfoldable pub subject_map_is_valid : SubjectMap → Bool
unfolding all_valid
subject_map_is_valid sm = all_valid graph_map_is_valid sm.graph_maps

unfoldable pub predicate_object_map_is_valid : PredicateObjectMap → Bool
unfolding all_valid term_map_is_valid
predicate_object_map_is_valid pom =
    not (is_empty pom.predicate_maps)
    && (not (is_empty pom.object_maps)
        && (all_valid term_map_is_valid pom.predicate_maps
            && all_valid term_map_is_valid pom.object_maps))

abbrev is_referencing : TermMap → Bool
is_referencing (referencing parent joins) = true
is_referencing _ = false

unfoldable pub predicate_object_map_is_valid_inside_out : PredicateObjectMap → Bool
unfolding all_valid term_map_is_valid
predicate_object_map_is_valid_inside_out pom =
    not (is_empty pom.predicate_maps)
    && (not (is_empty pom.object_maps)
        && (all_valid term_map_is_valid pom.predicate_maps
            && all_valid (λ om. term_map_is_valid om && not (is_referencing om)) pom.object_maps))

unfoldable pub logical_table_is_valid : LogicalTable → Bool
logical_table_is_valid (table name) = not (is_empty name)
logical_table_is_valid (view query) = not (is_empty query)

unfoldable pub valid_subject : Option SubjectMap → Bool
unfolding subject_map_is_valid
valid_subject none = false
valid_subject (some sm) = subject_map_is_valid sm

unfoldable pub valid_table : Option LogicalTable → Bool
unfolding logical_table_is_valid
valid_table none = false
valid_table (some t) = logical_table_is_valid t

unfoldable pub triples_map_is_valid : TriplesMap → Bool
unfolding all_valid valid_table valid_subject predicate_object_map_is_valid
triples_map_is_valid tm =
    valid_table tm.logical_table
    && (valid_subject tm.subject_map
        && all_valid predicate_object_map_is_valid tm.predicate_object_maps)

unfoldable pub triples_map_is_valid_inside_out : TriplesMap → Bool
unfolding all_valid valid_subject predicate_object_map_is_valid_inside_out
triples_map_is_valid_inside_out tm =
    not (is_some tm.logical_table)
    && (valid_subject tm.subject_map
        && all_valid predicate_object_map_is_valid_inside_out tm.predicate_object_maps)

-- `R2RMLMapping::isValid` and `isValidInsideOut`.
unfoldable pub mapping_is_valid : List (Option TriplesMap) → Bool
unfolding all_valid triples_map_is_valid
mapping_is_valid = all_valid triples_map_is_valid

unfoldable pub mapping_is_valid_inside_out : List (Option TriplesMap) → Bool
unfolding all_valid triples_map_is_valid_inside_out
mapping_is_valid_inside_out = all_valid triples_map_is_valid_inside_out
