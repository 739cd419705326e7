-- ===== src/Build.antt =====
-- Building a mapping from the triples of an R2RML document, src/r2rml/R2RMLParser.cpp
-- (`ParseContext`, `buildMappingFromTriples`). A `std::map` is the list of its entries in order. A
-- parent pointer, which the source sets at the end, is set when the term map is made: the ids of the
-- triples maps, `ids`, are known from the triples alone. `Log` is what the builders write to.
pub mod Maps
pub mod Document
pub mod Subjects
pub mod Parents
use sql2rdf.Base.{
  ℕ, zero, suc, ◌+◌, Bool, true, false, not, ◌&&◌, ◌||◌, List, [], ◌∷◌, ◌++◌, Option, none, some,
  if◌then◌else◌, ◌==◌, ◌>>=◌, is_empty, Bytes, codes, equal,
}
use sql2rdf.Node.{TermType, NodeType, node, node_from_string}
use sql2rdf.Mapping.{
  JoinCondition, Annotations, TermMap, template, column, constant, referencing, LogicalTable, table,
  view, constant_value,
}

pub data ObjType : Type 0 where
  uri blank literal : ObjType

pub record ObjValue : Type 0 where
  pub type : ObjType
  pub value : Bytes
  pub datatype : Bytes
  pub lang : Bytes

abbrev pub PredMap : Type 0
PredMap = List (Bytes × List ObjValue)

abbrev pub TripleStore : Type 0
TripleStore = List (Bytes × PredMap)

-- The vocabulary, include/r2rml/MappingParser.h.
unfoldable pub rr : Bytes → Bytes
rr name = codes "http://www.w3.org/ns/r2rml#" ++ name

unfoldable pub find {ℓ} : {A : Type ℓ} → List (Bytes × A) → Bytes → Option A
unfolding equal
find [] key = none
find (entry ∷ entries) key =
    let rest = find entries key in if equal entry.0 key then some entry.1 else rest

unfoldable pub get_objects : TripleStore → Bytes → Bytes → Option (List ObjValue)
unfolding find
get_objects ts subj pred = do preds ← find ts subj; find preds pred

-- A null pointer is read like an empty list.
unfoldable pub objects : TripleStore → Bytes → Bytes → List ObjValue
unfolding get_objects
objects ts subj pred = elim (get_objects ts subj pred) [ none ↦ [] | some os ↦ os ]

abbrev pub is_uri : ObjType → Bool
is_uri ObjType.uri = true
is_uri _ = false

abbrev pub is_literal : ObjType → Bool
is_literal ObjType.literal = true
is_literal _ = false

-- The value of the first object of a sort.
unfoldable pub first_value : (ObjType → Bool) → List ObjValue → Option Bytes
first_value p [] = none
first_value p (o ∷ os) = let rest = first_value p os in if p o.type then some o.value else rest

abbrev or_empty : Option Bytes → Bytes
or_empty none = []
or_empty (some s) = s

unfoldable pub get_first_literal : TripleStore → Bytes → Bytes → Bytes
unfolding objects first_value
get_first_literal ts subj pred = or_empty (first_value is_literal (objects ts subj pred))

unfoldable pub get_first_uri : TripleStore → Bytes → Bytes → Bytes
unfolding objects first_value
get_first_uri ts subj pred = or_empty (first_value is_uri (objects ts subj pred))

abbrev pub key_of : ObjType → Bytes → Bytes
key_of ObjType.blank value = codes "_:" ++ value
key_of ObjType.uri value = value
key_of ObjType.literal value = []

abbrev pub obj_key : ObjValue → Bytes
obj_key o = key_of o.type o.value

abbrev first_key : List ObjValue → Bytes
first_key [] = []
first_key (o ∷ os) = obj_key o

unfoldable pub get_first_obj_key : TripleStore → Bytes → Bytes → Bytes
unfolding objects
get_first_obj_key ts subj pred = first_key (objects ts subj pred)

-- The values of the URIs among some objects.
unfoldable pub uri_values : List ObjValue → List Bytes
uri_values [] = []
uri_values (o ∷ os) = let rest = uri_values os in if is_uri o.type then o.value ∷ rest else rest

abbrev pub plain : TermType → Annotations
plain t = record { term_type = t; language_tag = none; datatype_iri = none }

unfoldable pub make_constant_uri : Bytes → TermMap
unfolding constant_value
make_constant_uri iri =
    constant (plain TermType.iri) (constant_value (node_from_string NodeType.uri iri))

unfoldable pub make_constant_literal : Bytes → TermMap
unfolding constant_value
make_constant_literal text =
    constant (plain TermType.literal) (constant_value (node_from_string NodeType.literal text))

-- What the builders collect: error messages, and the ids of parents that are asked for.
pub record Log : Type 0 where
  pub errors : List Bytes
  pub parent_refs : List Bytes

abbrev pub add_error : Bytes → Log → Log
add_error message log = record log { errors = log.errors ++ message ∷ [] }

abbrev pub about : Bytes → Bytes → Bytes
about text key = text ++ (codes " <" ++ (key ++ codes ">"))

-- The place of the first triples map with an id.
unfoldable pub place_from : ℕ → List Bytes → Bytes → Option ℕ
unfolding equal
place_from n [] id = none
place_from n (x ∷ ids) id =
    let rest = place_from (suc n) ids id in if equal x id then some n else rest

module _ (ts : TripleStore) where
  unfoldable pub apply_explicit_term_type : Bytes → TermType → TermType
  unfolding get_first_uri equal rr
  apply_explicit_term_type key t =
      let tt = get_first_uri ts key (rr (codes "termType")) in
      if equal tt (rr (codes "IRI"))
      then TermType.iri
      else if equal tt (rr (codes "Literal"))
      then TermType.literal
      else if equal tt (rr (codes "BlankNode"))
      then TermType.blank_node
      else t

  unfoldable pub unless_empty : Bytes → Option Bytes
  unless_empty [] = none
  unless_empty (c ∷ s) = some (c ∷ s)

  -- The annotations of a column or a template.
  unfoldable pub annotations : Bytes → Annotations
  unfolding get_first_uri get_first_literal apply_explicit_term_type unless_empty rr
  annotations key = record {
    term_type = apply_explicit_term_type key TermType.iri;
    language_tag = unless_empty (get_first_literal ts key (rr (codes "language")));
    datatype_iri = unless_empty (get_first_uri ts key (rr (codes "datatype")));
  }

  unfoldable pub build_logical_table : Bytes → Log → Option LogicalTable × Log
  unfolding get_first_literal rr
  build_logical_table key log =
      let table_name = get_first_literal ts key (rr (codes "tableName")) in
      let sql_query = get_first_literal ts key (rr (codes "sqlQuery")) in
      if not (is_empty table_name)
      then (some (table table_name), log)
      else if not (is_empty sql_query)
      then (some (view sql_query), log)
      else (none, add_error (about (codes "R2RML parser: unrecognised logical table") key) log)

  unfoldable pub join_conditions : List ObjValue → List JoinCondition
  unfolding get_first_literal rr
  join_conditions [] = []
  join_conditions (o ∷ os) =
      let rest = join_conditions os in
      let jc : JoinCondition = record {
        child_column = get_first_literal ts (obj_key o) (rr (codes "child"));
        parent_column = get_first_literal ts (obj_key o) (rr (codes "parent"));
      } in
      if is_empty (obj_key o) then rest else jc ∷ rest

  abbrev or_literal : Option Bytes → Option Bytes → Option TermMap
  or_literal (some iri) text = some (make_constant_uri iri)
  or_literal none (some text) = some (make_constant_literal text)
  or_literal none none = none

  -- The constant of a term map: a URI, or else a literal.
  unfoldable pub build_constant : List ObjValue → Option TermMap
  unfolding first_value make_constant_uri make_constant_literal
  build_constant os = or_literal (first_value is_uri os) (first_value is_literal os)

  module _ (ids : List Bytes) where
    unfoldable pub build_referencing : Bytes → Log → Option TermMap × Log
    unfolding get_first_uri join_conditions objects place_from rr
    build_referencing key log =
        let parent = get_first_uri ts key (rr (codes "parentTriplesMap")) in
        if not (is_empty parent)
        then (
          some (
              referencing (place_from 0 ids parent)
                (join_conditions (objects ts key (rr (codes "joinCondition"))))),
          record log { parent_refs = log.parent_refs ++ parent ∷ [] },
        )
        else (none, log)

    unfoldable pub build_term_map : Bytes → Log → Option TermMap × Log
    unfolding get_first_literal annotations build_constant build_referencing objects rr
    build_term_map key log =
        let name = get_first_literal ts key (rr (codes "column")) in
        let templ = get_first_literal ts key (rr (codes "template")) in
        if not (is_empty name)
        then (some (column (annotations key) name), log)
        else if not (is_empty templ)
        then (some (template (annotations key) templ), log)
        else elim (build_constant (objects ts key (rr (codes "constant")))) [
          | some tm ↦ (some tm, log)
          | none ↦ build_referencing key log
        ]
