-- ===== src/Template/Projection.antt =====
-- The SQL expression that makes a template's value, src/sparql2sql/TemplateUtil.cpp
-- (`buildProjectionSql`), with the DuckDB dialect for its `SqlDialect`.
use sql2rdf.Base.{Bool, List, [], ◌∷◌, ◌++◌, if◌then◌else◌, map, Bytes, codes}
use sql2rdf.Template.{Segment}
use sql2rdf.Dialect.{quote_identifier, string_literal, percent_encode_sql, concat}

-- What the loop appends for one segment.
unfoldable pub part_of : Bytes → Bool → Segment → Bytes
unfolding quote_identifier string_literal percent_encode_sql
part_of source_alias percent_encode_values seg =
    let column_expr =
      codes "CAST("
      ++ (source_alias ++ (codes "." ++ (quote_identifier seg.text ++ codes " AS VARCHAR)"))) in
    if seg.is_placeholder
    then (if percent_encode_values then percent_encode_sql column_expr else column_expr)
    else string_literal seg.text

unfoldable pub build_projection_sql : List Segment → Bytes → Bool → Bytes
unfolding part_of string_literal concat
build_projection_sql [] source_alias percent_encode_values = string_literal []
build_projection_sql (seg ∷ segs) source_alias percent_encode_values =
    concat (map (part_of source_alias percent_encode_values) (seg ∷ segs))
