-- ===== src/Catalog.antt =====
-- What the translator knows of the columns of the database, include/sparql2sql/TypeCatalog.h and
-- src/sparql2sql/TypeCatalog.cpp. A map or a set is the list of its entries in the order in which
-- it is walked; `toupper` and `tolower` are those of the C locale.
pub mod Laws
use sql2rdf.Base.{
  ℕ, ◌+◌, ◌-◌, Bool, true, false, not, ◌&&◌, List, [], ◌∷◌, Option, none, some, ◌==◌, within,
  if◌then◌else◌, length, is_empty, any_of, all_of, Bytes, codes, equal,
}
use sql2rdf.Term.Xsd

-- `TypeCatalog`.
pub record TypeCatalog : Type 0 where
  pub column_types : List (Bytes × List (Bytes × Bytes))
  pub not_null_columns : List (Bytes × List Bytes)
  pub unique_keys : List (Bytes × List (List Bytes))

unfoldable pub to_upper : ℕ → ℕ
to_upper c = if within b'a' b'z' c then c - 32 else c

unfoldable pub to_lower : ℕ → ℕ
to_lower c = if within b'A' b'Z' c then c + 32 else c

-- The first loop of `normalizeType`, up to a parenthesis, and the second, from the end.
unfoldable pub upper_base : Bytes → Bytes
upper_base [] = []
upper_base (c ∷ s) = let rest = upper_base s in if c == b'(' then [] else to_upper c ∷ rest

unfoldable pub trim_end : Bytes → Bytes
trim_end [] = []
trim_end (c ∷ s) = let rest = trim_end s in if c == 32 && is_empty rest then [] else c ∷ rest

unfoldable pub normalize_type : Bytes → Bytes
unfolding upper_base trim_end to_upper
normalize_type raw = trim_end (upper_base raw)

pub data TypeCategory : Type 0 where
  integer float string other : TypeCategory

-- Whether a text is one of a list of texts.
unfoldable pub is_one_of : List Bytes → Bytes → Bool
unfolding any_of equal
is_one_of names s = any_of (λ n. equal s n) names

abbrev pub integer_types : List Bytes
integer_types =
    codes "TINYINT"
    ∷ codes "SMALLINT"
    ∷ codes "INTEGER"
    ∷ codes "INT"
    ∷ codes "BIGINT"
    ∷ codes "HUGEINT"
    ∷ codes "UTINYINT"
    ∷ codes "USMALLINT"
    ∷ codes "UINTEGER"
    ∷ codes "UBIGINT"
    ∷ codes "UHUGEINT"
    ∷ codes "INT4"
    ∷ codes "INT8"
    ∷ codes "INT2"
    ∷ codes "INT1"
    ∷ []

abbrev pub float_types : List Bytes
float_types =
    codes "DOUBLE"
    ∷ codes "REAL"
    ∷ codes "FLOAT"
    ∷ codes "FLOAT4"
    ∷ codes "FLOAT8"
    ∷ codes "DECIMAL"
    ∷ codes "NUMERIC"
    ∷ []

abbrev pub string_types : List Bytes
string_types = codes "VARCHAR" ∷ codes "CHAR" ∷ codes "TEXT" ∷ codes "STRING" ∷ codes "BPCHAR" ∷ []

unfoldable pub category_of : Bytes → TypeCategory
unfolding is_one_of
category_of s =
    if is_one_of integer_types s
    then TypeCategory.integer
    else if is_one_of float_types s
    then TypeCategory.float
    else if is_one_of string_types s
    then TypeCategory.string
    else TypeCategory.other

unfoldable pub same_letters : Bytes → Bytes → Bool
same_letters (x ∷ a) (y ∷ b) = to_lower x == to_lower y && same_letters a b
same_letters _ _ = true

unfoldable pub iequals : Bytes → Bytes → Bool
unfolding same_letters to_lower
iequals a b = if length a == length b then same_letters a b else false

-- The inner and the outer loop of `typeOf`. A table without the column does not end the search.
unfoldable pub type_in : List (Bytes × Bytes) → Bytes → Option Bytes
type_in [] column = none
type_in (c ∷ cs) column =
    let rest = type_in cs column in if iequals c.0 column then some c.1 else rest

unfoldable pub type_loop : List (Bytes × List (Bytes × Bytes)) → Bytes → Bytes → Bytes
type_loop [] table column = []
type_loop (t ∷ ts) table column =
    let rest = type_loop ts table column in
    if iequals t.0 table then elim (type_in t.1 column) [ none ↦ rest | some s ↦ s ] else rest

unfoldable pub type_of : TypeCatalog → Bytes → Bytes → Bytes
unfolding type_loop type_in iequals
type_of catalog table column = type_loop catalog.column_types table column

unfoldable pub is_not_null : TypeCatalog → Bytes → Bytes → Bool
unfolding any_of iequals
is_not_null catalog table column =
    any_of (λ t. iequals t.0 table && any_of (λ c. iequals c column) t.1) catalog.not_null_columns

-- Whether every column of a key is among the columns.
unfoldable pub contained : List Bytes → List Bytes → Bool
unfolding any_of all_of iequals
contained key columns = all_of (λ k. any_of (λ have. iequals have k) columns) key

unfoldable pub covers_unique_key : TypeCatalog → Bytes → List Bytes → Bool
unfolding any_of contained
covers_unique_key catalog table columns =
    any_of
      (λ t. iequals t.0 table && any_of (λ key. not (is_empty key) && contained key columns) t.1)
      catalog.unique_keys

abbrev pub same_category : TypeCategory → TypeCategory → Bool
same_category TypeCategory.integer TypeCategory.integer = true
same_category TypeCategory.float TypeCategory.float = true
same_category TypeCategory.string TypeCategory.string = true
same_category TypeCategory.other TypeCategory.other = true
same_category _ _ = false

abbrev pub comparable_categories : TypeCategory → TypeCategory → Bool
comparable_categories a b =
    if same_category a TypeCategory.other
    then false
    else if same_category b TypeCategory.other
    then false
    else same_category a b

-- The tests on the two type names.
unfoldable pub comparable_types : Bytes → Bytes → Bool
unfolding category_of normalize_type
comparable_types a b =
    if is_empty a
    then false
    else if is_empty b
    then false
    else comparable_categories (category_of (normalize_type a)) (category_of (normalize_type b))

unfoldable pub comparable : TypeCatalog → Bytes → Bytes → Bytes → Bytes → Bool
unfolding type_of comparable_types
comparable catalog table_a column_a table_b column_b =
    comparable_types (type_of catalog table_a column_a) (type_of catalog table_b column_b)

unfoldable pub is_string_type : TypeCatalog → Bytes → Bytes → Bool
unfolding type_of category_of normalize_type
is_string_type catalog table column =
    let type_name = type_of catalog table column in
    if is_empty type_name
    then false
    else same_category (category_of (normalize_type type_name)) TypeCategory.string

-- `kTable`, with the type names of one datatype together.
abbrev pub natural_table : List (List Bytes × Bytes)
natural_table =
    (
      codes "CHARACTER"
          ∷ codes "CHAR"
          ∷ codes "BPCHAR"
          ∷ codes "VARCHAR"
          ∷ codes "CHARACTER VARYING"
          ∷ codes "NCHAR"
          ∷ codes "NVARCHAR"
          ∷ codes "TEXT"
          ∷ codes "STRING"
          ∷ codes "CLOB"
          ∷ [],
      Xsd.string,
    )
    ∷ (codes "BINARY" ∷ codes "VARBINARY" ∷ codes "BLOB" ∷ codes "BYTEA" ∷ [], Xsd.hex_binary)
    ∷ (
      codes "TINYINT"
          ∷ codes "SMALLINT"
          ∷ codes "INT1"
          ∷ codes "INT2"
          ∷ codes "UTINYINT"
          ∷ codes "USMALLINT"
          ∷ codes "INTEGER"
          ∷ codes "INT"
          ∷ codes "INT4"
          ∷ codes "UINTEGER"
          ∷ codes "BIGINT"
          ∷ codes "INT8"
          ∷ codes "HUGEINT"
          ∷ codes "UBIGINT"
          ∷ codes "UHUGEINT"
          ∷ [],
      Xsd.integer,
    )
    ∷ (codes "DECIMAL" ∷ codes "NUMERIC" ∷ [], Xsd.decimal)
    ∷ (
      codes "FLOAT"
          ∷ codes "REAL"
          ∷ codes "FLOAT4"
          ∷ codes "DOUBLE"
          ∷ codes "DOUBLE PRECISION"
          ∷ codes "FLOAT8"
          ∷ [],
      Xsd.double,
    )
    ∷ (codes "BOOLEAN" ∷ codes "BOOL" ∷ [], Xsd.boolean)
    ∷ (codes "DATE" ∷ [], Xsd.date)
    ∷ (codes "TIME" ∷ codes "TIME WITHOUT TIME ZONE" ∷ [], Xsd.time)
    ∷ (
      codes "TIMESTAMP" ∷ codes "DATETIME" ∷ codes "TIMESTAMP WITHOUT TIME ZONE" ∷ [],
      Xsd.date_time,
    )
    ∷ []

unfoldable pub find_natural : List (List Bytes × Bytes) → Bytes → Bytes
find_natural [] s = []
find_natural (row ∷ rows) s =
    let rest = find_natural rows s in if is_one_of row.0 s then row.1 else rest

unfoldable pub natural_xsd_datatype : Bytes → Bytes
unfolding normalize_type find_natural is_one_of
natural_xsd_datatype sql_type_name =
    let normalized = normalize_type sql_type_name in
    if is_empty normalized then [] else find_natural natural_table normalized
