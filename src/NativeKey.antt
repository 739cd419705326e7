-- ===== src/NativeKey.antt =====
-- Whether a join of two columns of terms can compare the database's own columns instead,
-- src/sparql2sql/ir/NativeKey.cpp, on the fields of `ColumnInfo` (include/sparql2sql/ir/RelNode.h)
-- that it reads. The parallel vectors `templateColumnNames` and `templateColumnRefs` are one list
-- of pairs.
pub mod Sound
use sql2rdf.Base.{
  Bool, true, false, not, ◌&&◌, ◌||◌, List, [], ◌∷◌, Option, none, some, ◌>>=◌, ◌==◌, if◌then◌else◌,
  length, is_empty, Bytes,
}
use sql2rdf.Catalog.{TypeCatalog, comparable}
use sql2rdf.Template.Shape.{same_template_shape}

pub data Provenance : Type 0 where
  pure_column template_expr constant_expr coalesced computed : Provenance

pub record ColumnInfo : Type 0 where
  pub prov : Provenance
  pub column_name : Bytes
  pub native_column_ref : Bytes
  pub table_identity : Bytes
  pub template_string : Bytes
  pub template_columns : List (Bytes × Bytes)
  pub template_invertible : Bool

abbrev pub is_pure_column : Provenance → Bool
is_pure_column Provenance.pure_column = true
is_pure_column _ = false

abbrev pub is_template_expr : Provenance → Bool
is_template_expr Provenance.template_expr = true
is_template_expr _ = false

-- The last loop; `none` is its early return of no pairs at all.
unfoldable pub template_pairs :
    TypeCatalog
    → Bytes
    → Bytes
    → List (Bytes × Bytes)
    → List (Bytes × Bytes)
    → Option (List (Bytes × Bytes))
template_pairs catalog table table' (c ∷ cs) (d ∷ ds) =
    let rest = template_pairs catalog table table' cs ds in
    if comparable catalog table c.0 table' d.0 then (do ps ← rest; some ((c.1, d.1) ∷ ps)) else none
template_pairs catalog table table' _ _ = some []

-- The tests of the template case, before the loop.
unfoldable pub templates_line_up : ColumnInfo → ColumnInfo → Bool
templates_line_up l r =
    if is_empty l.template_string
      || (is_empty r.template_string
          || not (same_template_shape l.template_string r.template_string))
    then false
    else if not l.template_invertible || not r.template_invertible
    then false
    else not (
        is_empty l.template_columns || not (length l.template_columns == length r.template_columns))

unfoldable pub native_template_pairs : TypeCatalog → ColumnInfo → ColumnInfo → List (Bytes × Bytes)
unfolding template_pairs templates_line_up
native_template_pairs catalog l r =
    if templates_line_up l r
    then elim (template_pairs catalog l.table_identity r.table_identity l.template_columns
        r.template_columns) [ none ↦ [] | some ps ↦ ps ]
    else []

unfoldable pub native_key_pairs :
    Option TypeCatalog → ColumnInfo → ColumnInfo → List (Bytes × Bytes)
unfolding native_template_pairs comparable
native_key_pairs none l r = []
native_key_pairs (some catalog) l r =
    if is_pure_column l.prov
      && (is_pure_column r.prov
          && (not (is_empty l.native_column_ref) && not (is_empty r.native_column_ref)))
    then if comparable catalog l.table_identity l.column_name r.table_identity r.column_name
      then (l.native_column_ref, r.native_column_ref) ∷ []
      else []
    else if not (is_template_expr l.prov) || not (is_template_expr r.prov)
    then []
    else native_template_pairs catalog l r
