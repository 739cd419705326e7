-- ===== src/SqlRow.antt =====
-- Values and rows of a result set in memory, src/r2rml/StringSQLValue.cpp and MapSQLRow.cpp, and
-- the terms of a column, src/r2rml/ColumnTermMap.cpp and TermMap.cpp (`computeDatatypeIRI`). A
-- `std::map` is the list of its entries; a clone of a value is the value.
use sql2rdf.Base.{
  Bool, true, false, List, [], ◌∷◌, Option, none, some, if◌then◌else◌, map, ◌≡◌, refl, Bool-cases,
  inl, inr, Bytes, equal,
}
use sql2rdf.Node.{TermType, NodeType, Node, nothing, Row, node_from_string}
use sql2rdf.Term.Xsd

pub data SqlType : Type 0 where
  null integer double string boolean : SqlType

-- `StringSQLValue`, with `type_` and `string_`.
pub record SqlValue : Type 0 where
  pub type : SqlType
  pub text : Bytes

abbrev pub null_value : SqlValue
null_value = record { type = SqlType.null; text = [] }

abbrev is_null_type : SqlType → Bool
is_null_type SqlType.null = true
is_null_type _ = false

unfoldable pub is_null_value : SqlValue → Bool
is_null_value v = is_null_type v.type

datatype_of : SqlType → Bytes
datatype_of SqlType.integer = Xsd.integer
datatype_of SqlType.double = Xsd.double
datatype_of SqlType.boolean = Xsd.boolean
datatype_of _ = []

unfoldable pub value_datatype : SqlValue → Bytes
unfolding datatype_of
value_datatype v = datatype_of v.type

-- `MapSQLRow`.
abbrev pub Columns : Type 0
Columns = List (Bytes × SqlValue)

unfoldable pub get_value : Columns → Bytes → SqlValue
unfolding equal
get_value [] name = null_value
get_value (c ∷ cs) name = let rest = get_value cs name in if equal c.0 name then c.1 else rest

unfoldable pub column_is_null : Columns → Bytes → Bool
unfolding equal is_null_value
column_is_null [] name = true
column_is_null (c ∷ cs) name =
    let rest = column_is_null cs name in if equal c.0 name then is_null_value c.1 else rest

unfoldable pub column_names : Columns → List Bytes
column_names = map (λ c. c.0)

-- The row as template term maps read it: `isNull()` and `asString()` of `getValue`.
unfoldable pub texts : Columns → Row
unfolding get_value is_null_value
texts columns name = let v = get_value columns name in if is_null_value v then none else some v.text

-- A column is null exactly if the value that `getValue` returns for it is null, a missing column
-- included.
column_is_null-get_value :
    (columns : Columns) (name : Bytes)
    → column_is_null columns name ≡ is_null_value (get_value columns name)
unfolding column_is_null get_value
column_is_null-get_value [] name = refl
column_is_null-get_value (c ∷ cs) name = elim (Bool-cases (equal c.0 name)) [
  | inl e ↦ rw e refl
  | inr e ↦ rw e (column_is_null-get_value cs name)
]

column_node_type : TermType → NodeType
column_node_type TermType.iri = NodeType.uri
column_node_type TermType.blank_node = NodeType.blank
column_node_type TermType.literal = NodeType.literal

unfoldable pub generate_column : TermType → Bytes → Columns → Node
unfolding get_value is_null_value column_node_type
generate_column t name columns =
    let v = get_value columns name in
    if is_null_value v then nothing else node_from_string (column_node_type t) v.text

-- `computeDatatypeIRI` of a column term map, and of any other.
unfoldable pub column_datatype_iri : Option Bytes → Bytes → Columns → Bytes
unfolding get_value is_null_value value_datatype
column_datatype_iri (some iri) name columns = iri
column_datatype_iri none name columns =
    let v = get_value columns name in if is_null_value v then [] else value_datatype v

unfoldable pub static_datatype_iri : Option Bytes → Bytes
static_datatype_iri (some iri) = iri
static_datatype_iri none = []
