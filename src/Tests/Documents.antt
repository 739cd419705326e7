-- ===== src/Tests/Documents.antt =====
-- Building a mapping from a few triples: R2RMLParser.cpp.
use sql2rdf.Base.{true, false, List, [], ◌∷◌, Option, some, none, Bytes, codes, ◌≡◌, refl}
use sql2rdf.Node.{TermType, NodeType, node}
use sql2rdf.Mapping.{
  TermMap, template, column, constant, referencing, PredicateObjectMap, TriplesMap, table,
}
use sql2rdf.Build.{ObjType, ObjValue, PredMap, TripleStore, rr, plain}
use sql2rdf.Build.Document.{Parsed, mapping, runtime_error, build_mapping}
use sql2rdf.Build.Parents.{StrictlyParsed}
use sql2rdf.Build.Parents.Document.{build_mapping-StrictlyParsed}
use sql2rdf.SqlRow.{SqlType}
use sql2rdf.Generate.{Answer, result_set}
use sql2rdf.Generate.Subjects.{WrittenSubjects, build_mapping-WrittenSubjects}

abbrev uri_value : Bytes → ObjValue
uri_value s = record { type = ObjType.uri; value = s; datatype = []; lang = [] }

abbrev blank_value : Bytes → ObjValue
blank_value s = record { type = ObjType.blank; value = s; datatype = []; lang = [] }

abbrev literal_value : Bytes → ObjValue
literal_value s = record { type = ObjType.literal; value = s; datatype = []; lang = [] }

abbrev entry : Bytes → ObjValue → Bytes × List ObjValue
entry name o = (rr name, o ∷ [])

abbrev subject_map : PredMap
subject_map =
    entry (codes "template") (literal_value (codes "e/{id}"))
    ∷ entry (codes "termType") (uri_value (rr (codes "Literal")))
    ∷ []

abbrev store : TripleStore
store =
    (
      codes "#e",
      entry (codes "logicalTable") (blank_value (codes "t"))
          ∷ entry (codes "predicateObjectMap") (blank_value (codes "p"))
          ∷ entry (codes "subjectMap") (blank_value (codes "s"))
          ∷ [],
    )
    ∷ (codes "_:o", entry (codes "column") (literal_value (codes "id")) ∷ [])
    ∷ (
      codes "_:p",
      entry (codes "objectMap") (blank_value (codes "o"))
          ∷ entry (codes "predicate") (uri_value (codes "id"))
          ∷ [],
    )
    ∷ (codes "_:s", subject_map)
    ∷ (codes "_:t", entry (codes "tableName") (literal_value (codes "emp")) ∷ [])
    ∷ []

abbrev employees : TriplesMap
employees = record {
  id = codes "#e";
  logical_table = some (table (codes "emp"));
  subject_map = some (record {
    value_map = some (template (plain TermType.iri) (codes "e/{id}"));
    class_iris = [];
    graph_maps = [];
  });
  predicate_object_maps =
      some (record {
        predicate_maps = some (constant (plain TermType.iri) (node NodeType.uri (codes "id"))) ∷ [];
        object_maps = some (column (plain TermType.literal) (codes "id")) ∷ [];
        graph_maps = [];
      })
      ∷ [];
}

abbrev literal_subject : Bytes
literal_subject =
    codes "R2RML parser: rr:termType rr:Literal is not allowed on a subject map <_:s>; using rr:IRI"

built : build_mapping store [] true ≡ mapping (some employees ∷ []) (literal_subject ∷ [])
unfolding build_mapping
built = refl

strict : build_mapping store [] false ≡ runtime_error (literal_subject ∷ [])
unfolding build_mapping
strict = refl

-- The shortcut `rr:subject` makes a triples map, without a subject map and without an error.
shortcut :
    build_mapping ((codes "#e", entry (codes "subject") (uri_value (codes "s")) ∷ []) ∷ []) [] false
    ≡ mapping
        (some (record {
          id = codes "#e";
          logical_table = none;
          subject_map = none;
          predicate_object_maps = [];
        })
          ∷ [])
        []
unfolding build_mapping
shortcut = refl

abbrev one_row : Bytes → Answer
one_row query =
    result_set (((codes "id", record { type = SqlType.integer; text = codes "7" }) ∷ []) ∷ [])

build_mapping-WrittenSubjects_example : WrittenSubjects one_row (build_mapping store [] true)
build_mapping-WrittenSubjects_example = build_mapping-WrittenSubjects one_row store [] true

abbrev parent_store : Bytes → TripleStore
parent_store parent =
    (
      codes "#e",
      entry (codes "logicalTable") (blank_value (codes "t"))
          ∷ entry (codes "predicateObjectMap") (blank_value (codes "p"))
          ∷ [],
    )
    ∷ (codes "_:o", entry (codes "parentTriplesMap") (uri_value parent) ∷ [])
    ∷ (
      codes "_:p",
      entry (codes "objectMap") (blank_value (codes "o"))
          ∷ entry (codes "predicate") (uri_value (codes "id"))
          ∷ [],
    )
    ∷ (codes "_:t", entry (codes "tableName") (literal_value (codes "emp")) ∷ [])
    ∷ []

dangling :
    build_mapping (parent_store (codes "#d")) [] false
    ≡ runtime_error (codes "R2RML parser: unresolved parentTriplesMap <#d>" ∷ [])
unfolding build_mapping
dangling = refl

abbrev pom_objects : List (Option PredicateObjectMap) → List (Option TermMap)
pom_objects (some pom ∷ []) = pom.object_maps
pom_objects _ = []

abbrev object_maps_of : Parsed → List (Option TermMap)
object_maps_of (mapping (some tm ∷ []) []) = pom_objects tm.predicate_object_maps
object_maps_of _ = []

found :
    object_maps_of (build_mapping (parent_store (codes "#e")) [] false)
    ≡ some (referencing (some 0) []) ∷ []
unfolding build_mapping
found = refl

build_mapping-StrictlyParsed_example :
    StrictlyParsed (build_mapping (parent_store (codes "#e")) [] false)
build_mapping-StrictlyParsed_example = build_mapping-StrictlyParsed (parent_store (codes "#e")) []
