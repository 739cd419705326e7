-- ===== src/Build/Subjects.antt =====
-- The subjects of a mapping that was read from a document.
use sql2rdf.Base.{
  Bool, true, false, List, [], ◌∷◌, ◌++◌, Option, none, some, is_empty, Bytes, codes, All, ◌≡◌,
  refl, Bool-cases, inl, inr,
}
use sql2rdf.Node.{TermType, NodeType, Node, nothing, node, node_from_string, c_string}
use sql2rdf.SqlRow.{Columns, texts, generate_column, get_value, is_null_value}
use sql2rdf.Template.Expand.{generate_template, expand, node_type}
use sql2rdf.Mapping.{
  constant_value, TermMap, template, column, constant, referencing, SubjectMap, TriplesMap,
  generate, generate_value, generate_subject,
}
use sql2rdf.Build.{
  TripleStore, rr, get_first_literal, get_first_uri, get_first_obj_key, make_constant_uri, Log,
  apply_explicit_term_type,
}
use sql2rdf.Build.Maps.{no_literal, with_term_type, subject_value, typed_subject, build_subject_map}
use sql2rdf.Build.Document.{
  is_triples_map, triples_map_ids, subject_map_of, build_triples_map, build_loop, Parsed, mapping,
  runtime_error, unresolved, build_mapping,
}

abbrev pub is_literal_node : Node → Bool
is_literal_node (node NodeType.literal s) = true
is_literal_node _ = false

abbrev pub is_literal_type : TermType → Bool
is_literal_type TermType.literal = true
is_literal_type _ = false

-- No row gives the term map a literal, once its term type is not one.
abbrev IsSubjectValue : TermMap → Type 0
IsSubjectValue (constant a value) = is_literal_node value ≡ false
IsSubjectValue _ = Unit

-- No row gives a literal as subject.
abbrev pub HasNoLiteral : Option SubjectMap → Type 0
HasNoLiteral none = Unit
HasNoLiteral (some sm) = (row : Columns) → is_literal_node (generate_subject sm row) ≡ false

abbrev pub TripleSubject : Option TriplesMap → Type 0
TripleSubject none = Unit
TripleSubject (some tm) = HasNoLiteral tm.subject_map

abbrev pub ParsedSubjects : Parsed → Type 0
ParsedSubjects (mapping maps errors) = All TripleSubject maps
ParsedSubjects (runtime_error errors) = Unit

node_no_literal :
    (t : TermType) (o : Option Bytes)
    → is_literal_type t ≡ false
    → is_literal_node (elim o [ none ↦ nothing | some s ↦ node_from_string (node_type t) s ])
      ≡ false
unfolding node_type
node_no_literal t none h = refl
node_no_literal TermType.iri (some s) h = refl
node_no_literal TermType.blank_node (some s) h = refl
node_no_literal TermType.literal (some s) h = cc

template_no_literal :
    (t : TermType) (s : Bytes) (row : Bytes → Option Bytes)
    → is_literal_type t ≡ false
    → is_literal_node (generate_template t s row) ≡ false
unfolding generate_template
template_no_literal t s row h = node_no_literal t (expand t s row) h

column_no_literal :
    (t : TermType) (name : Bytes) (row : Columns)
    → is_literal_type t ≡ false
    → is_literal_node (generate_column t name row) ≡ false
unfolding generate_column
column_no_literal TermType.literal name row h = cc
column_no_literal TermType.iri name row h = elim (Bool-cases (is_null_value (get_value row name))) [
  | inl e ↦ rw e refl
  | inr e ↦ rw e refl
]
column_no_literal TermType.blank_node name row h =
    elim (Bool-cases (is_null_value (get_value row name))) [ inl e ↦ rw e refl | inr e ↦ rw e refl ]

typed_no_literal :
    (t : TermType) (tm : TermMap) (row : Columns)
    → is_literal_type t ≡ false
    → IsSubjectValue tm
    → is_literal_node (generate (with_term_type t tm) row) ≡ false
unfolding generate with_term_type
typed_no_literal t (template a s) row h v = template_no_literal t s (texts row) h
typed_no_literal t (column a name) row h v = column_no_literal t name row h
typed_no_literal t (constant a value) row h v = v
typed_no_literal t (referencing parent joins) row h v = refl

no_literal_type :
    (key : Bytes) (t : TermType) (log : Log) → is_literal_type (no_literal key t log).0 ≡ false
unfolding no_literal
no_literal_type key TermType.iri log = refl
no_literal_type key TermType.blank_node log = refl
no_literal_type key TermType.literal log = refl

abbrev MaybeSubjectValue : Option TermMap → Type 0
MaybeSubjectValue none = Unit
MaybeSubjectValue (some tm) = IsSubjectValue tm

constant_uri_node :
    (text : Bytes) → is_literal_node (constant_value (node NodeType.uri text)) ≡ false
unfolding constant_value
constant_uri_node [] = refl
constant_uri_node (c ∷ text) = refl

constant_uri_value : (iri : Bytes) → IsSubjectValue (make_constant_uri iri)
unfolding make_constant_uri
constant_uri_value iri = constant_uri_node (c_string iri)

module _ (ts : TripleStore) (ids : List Bytes) where
  subject_value_lem : (key : Bytes) → MaybeSubjectValue (subject_value ts ids key)
  unfolding subject_value
  subject_value_lem key =
      let templ = get_first_literal ts key (rr (codes "template")) in
      let name = get_first_literal ts key (rr (codes "column")) in
      let iri = get_first_uri ts key (rr (codes "constant")) in
      elim (Bool-cases (is_empty templ)) [
        | inr e ↦ rw e tt
        | inl e ↦ elim (Bool-cases (is_empty name)) [
          | inr k ↦ rw (e, k) tt
          | inl k ↦ elim (Bool-cases (is_empty iri)) [
            | inr l ↦ rw (e, k, l) (constant_uri_value iri)
            | inl l ↦ rw (e, k, l) tt
          ]
        ]
      ]

  typed_value_lem :
      (key : Bytes) (o : Option TermMap) (log : Log) (row : Columns)
      → MaybeSubjectValue o
      → is_literal_node (generate_value (typed_subject ts ids key o log).0 row) ≡ false
  unfolding typed_subject generate_value
  typed_value_lem key none log row h = refl
  typed_value_lem key (some tm) log row h =
      typed_no_literal _ tm row
        (no_literal_type key (apply_explicit_term_type ts key TermType.iri) log) h

  build_subject_map-HasNoLiteral :
      (key : Bytes) (log : Log) → HasNoLiteral (some (build_subject_map ts ids key log).0)
  unfolding build_subject_map generate_subject
  build_subject_map-HasNoLiteral key log row =
      typed_value_lem key (subject_value ts ids key) log row (subject_value_lem key)

  subject_map_of-HasNoLiteral :
      (subj : Bytes) (log : Log) → HasNoLiteral (subject_map_of ts ids subj log).0
  unfolding subject_map_of
  subject_map_of-HasNoLiteral subj log =
      let key = get_first_obj_key ts subj (rr (codes "subjectMap")) in
      elim (Bool-cases (is_empty key)) [
        | inl e ↦ rw e tt
        | inr e ↦ rw e (build_subject_map-HasNoLiteral key log)
      ]

  build_triples_map-TripleSubject :
      (subj : Bytes) (log : Log) → TripleSubject (some (build_triples_map ts ids subj log).0)
  unfolding build_triples_map
  build_triples_map-TripleSubject subj log = subject_map_of-HasNoLiteral subj _

  build_loop-TripleSubject :
      (entries : TripleStore) (log : Log) → All TripleSubject (build_loop ts ids entries log).0
  unfolding build_loop
  build_loop-TripleSubject [] log = tt
  build_loop-TripleSubject (entry ∷ entries) log =
      elim (Bool-cases (is_triples_map entry.0 entry.1)) [
        | inl e ↦
            rw e (build_triples_map-TripleSubject entry.0 log, build_loop-TripleSubject entries _)
        | inr e ↦ rw e (build_loop-TripleSubject entries log)
      ]

-- In a mapping that is read from the triples of a document, no subject map gives a literal for any
-- row, whatever term type the document asks for.
pub build_mapping-ParsedSubjects :
    (ts : TripleStore) (pre_errors : List Bytes) (ignore_non_fatal_errors : Bool)
    → ParsedSubjects (build_mapping ts pre_errors ignore_non_fatal_errors)
unfolding build_mapping
build_mapping-ParsedSubjects ts pre_errors ignore =
    let ids = triples_map_ids ts in
    let first : Log = record { errors = pre_errors; parent_refs = [] } in
    let built = build_loop ts ids ts first in
    let fit = build_loop-TripleSubject ts ids ts first in
    elim (Bool-cases (is_empty (built.1.errors ++ unresolved ids built.1.parent_refs))) [
      | inl e ↦ rw e fit
      | inr e ↦ elim (Bool-cases ignore) [ inl k ↦ rw (e, k) fit | inr k ↦ rw (e, k) tt ]
    ]
