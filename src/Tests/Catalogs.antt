-- ===== src/Tests/Catalogs.antt =====
-- The catalog and native join keys: TypeCatalog.cpp, ir/NativeKey.cpp.
use sql2rdf.Base.{
  Bytes, All, Option, none, if◌then◌else◌, equal, true, false, [], ◌∷◌, some, codes, ◌≡◌, ◌≢◌, refl,
}
use sql2rdf.Node.{TermType, Row}
use sql2rdf.Catalog.{TypeCatalog, comparable, covers_unique_key, natural_xsd_datatype}
use sql2rdf.Term.Xsd
use sql2rdf.Template.{parse_template, referenced_columns}
use sql2rdf.Template.Expand.{expand}
use sql2rdf.Template.Shape.{same_template_shape}
use sql2rdf.NativeKey.{Provenance, ColumnInfo, native_key_pairs}
use sql2rdf.NativeKey.Sound.{names, ComparesRows, native_key_pairs-expand}

abbrev catalog : TypeCatalog
catalog = record {
  column_types =
      (codes "emp", (codes "id", codes "INTEGER") ∷ (codes "dept", codes "decimal(18,2)  ") ∷ [])
      ∷ (codes "dept", (codes "no", codes "bigint") ∷ (codes "boss", codes "Tinyint") ∷ [])
      ∷ [];
  not_null_columns = [];
  unique_keys = (codes "emp", [] ∷ (codes "id" ∷ []) ∷ []) ∷ [];
}

id_no : comparable catalog (codes "EMP") (codes "Id") (codes "dept") (codes "no") ≡ true
unfolding comparable
id_no = refl

no_boss : comparable catalog (codes "dept") (codes "no") (codes "DEPT") (codes "boss") ≡ true
unfolding comparable
no_boss = refl

id_dept : comparable catalog (codes "emp") (codes "id") (codes "emp") (codes "dept") ≡ false
unfolding comparable
id_dept = refl

natural_decimal : natural_xsd_datatype (codes "decimal(18,2)  ") ≡ Xsd.decimal
unfolding natural_xsd_datatype
natural_decimal = refl

id_key : covers_unique_key catalog (codes "emp") (codes "ID" ∷ []) ≡ true
unfolding covers_unique_key
id_key = refl

abbrev emp_column : ColumnInfo
emp_column = record {
  prov = Provenance.template_expr;
  column_name = [];
  native_column_ref = [];
  table_identity = codes "emp";
  template_string = codes "e/{id}";
  template_columns = (codes "id", codes "t1.id") ∷ [];
  template_invertible = true;
}

abbrev dept_column : ColumnInfo
dept_column = record emp_column {
  table_identity = codes "dept";
  template_string = codes "e/{no}";
  template_columns = (codes "no", codes "t2.no") ∷ [];
}

emp_dept :
    native_key_pairs (some catalog) emp_column dept_column ≡ (codes "t1.id", codes "t2.no") ∷ []
unfolding native_key_pairs same_template_shape
emp_dept = refl

emp_dept_found : native_key_pairs (some catalog) emp_column dept_column ≢ []
emp_dept_found e = cc (emp_dept, e)

-- A joined row, by references, and its two parts, by names of columns.
abbrev joined : Bytes → Option Bytes
joined reference =
    if equal reference (codes "t1.id")
    then some (codes "7")
    else if equal reference (codes "t2.no")
    then some (codes "7")
    else none

abbrev emp_row : Row
emp_row name = if equal name (codes "id") then joined (codes "t1.id") else none

abbrev dept_row : Row
dept_row name = if equal name (codes "no") then joined (codes "t2.no") else none

emp_names : names emp_column.template_columns ≡ referenced_columns (parse_template (codes "e/{id}"))
unfolding referenced_columns parse_template
emp_names = refl

dept_names :
    names dept_column.template_columns ≡ referenced_columns (parse_template (codes "e/{no}"))
unfolding referenced_columns parse_template
dept_names = refl

compares :
    ComparesRows
      (λ c d. comparable catalog (codes "emp") c (codes "dept") d)
      (λ a b. joined a ≡ joined b)
      emp_row
      dept_row
      emp_column.template_columns
      dept_column.template_columns
unfolding equal
compares = (((λ may e. e), tt), tt)

same : All (λ p. joined p.0 ≡ joined p.1) (native_key_pairs (some catalog) emp_column dept_column)
unfolding equal
same = rw emp_dept (refl, tt)

native_key_pairs-expand_example :
    expand TermType.iri (codes "e/{id}") emp_row ≡ expand TermType.iri (codes "e/{no}") dept_row
native_key_pairs-expand_example =
    native_key_pairs-expand catalog emp_column dept_column refl emp_dept_found TermType.iri emp_row
      dept_row (λ a b. joined a ≡ joined b) emp_names dept_names compares same
