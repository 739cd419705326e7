-- ===== src/Tests/Templates.antt =====
-- Percent-encoding and templates: AbstractMap.cpp, TemplateTermMap.cpp, TemplateUtil.cpp.
use sql2rdf.Base.{
  ℕ, true, false, List, [], ◌∷◌, some, if◌then◌else◌, Bytes, codes, equal, contains, ◌≡◌, ◌≢◌, refl,
  arith,
}
use sql2rdf.Node.{Row, TermType}
use sql2rdf.Percent.{
  unreserved, strchr, percent_encode, percent_decode, encode_byte, hex_digit, is_hex_digit, hex_val,
}
use sql2rdf.Percent.RoundTrip.{percent_decode-percent_encode}
use sql2rdf.Percent.Alphabet.{is_reserved}
use sql2rdf.Template.{Segment, literal, placeholder, parse_template}
use sql2rdf.Template.Expand.{expand, fill, expand-parse_template, node_type, should_percent_encode}
use sql2rdf.Template.Normal.{IsNormal, parse_template-IsNormal, render, parse_template-render}
use sql2rdf.Template.Invert.{never_matches, can_split, whole, per_column, invert_template}
use sql2rdf.Template.Invert.Complete.{
  begins_reserved, delimits, is_separable, values, HasBytes, invert_template-expand,
}
use sql2rdf.Template.Ends.{invert_template-anchors}
use sql2rdf.Template.Anchors.{templates_can_ever_match, IsClosed, templates_can_ever_match_sound}
use sql2rdf.Template.Flaws.{unclosed_brace_ruled_out, repeated_delimiter_ruled_out, delimited_pair}
use sql2rdf.Template.Shape.{
  same_template_shape, canon, same_segments, same_segment, same_number, index_of,
}
use sql2rdf.Template.Projection.{build_projection_sql}
use sql2rdf.Template.Shape.Same.{expand-same_template_shape}
use sql2rdf.Template.{referenced_columns}
use sql2rdf.Base.{map}

abbrev sample_text : Bytes
sample_text = codes "a b/~"

encode_sample : percent_encode sample_text ≡ codes "a%20b%2F~"
unfolding percent_encode encode_byte strchr contains unreserved hex_digit
encode_sample = refl

percent_decode-percent_encode_example : percent_decode (percent_encode sample_text) ≡ sample_text
percent_decode-percent_encode_example = percent_decode-percent_encode sample_text (omega arith)

abbrev templ : Bytes
templ = codes "http://ex.org/{dept}/{id}"

abbrev columns : Row
columns name = if equal name (codes "dept") then some (codes "R & D") else some (codes "7")

abbrev value : Bytes
value = codes "http://ex.org/R%20%26%20D/7"

expand-templ : expand TermType.iri templ columns ≡ some value
unfolding expand parse_template percent_encode encode_byte strchr contains unreserved hex_digit
    equal
expand-templ = refl

parse_templ :
    parse_template templ
    ≡ literal (codes "http://ex.org/")
      ∷ placeholder (codes "dept")
      ∷ literal (codes "/")
      ∷ placeholder (codes "id")
      ∷ []
unfolding parse_template
parse_templ = refl

invert-templ :
    invert_template (parse_template templ) value true
    ≡ per_column ((codes "dept", codes "R & D") ∷ (codes "id", codes "7") ∷ [])
unfolding invert_template parse_template percent_decode is_hex_digit hex_val
invert-templ = refl

columns-HasBytes : HasBytes columns
columns-HasBytes name v h = ground arith

separable_templ : is_separable (parse_template templ) ≡ true
unfolding is_separable delimits begins_reserved is_reserved strchr contains unreserved
    parse_template
separable_templ = refl

parse_templ_ne_nil : parse_template templ ≢ []
unfolding parse_template
parse_templ_ne_nil e = cc

invert_template-expand_example :
    invert_template (parse_template templ) value true
    ≡ per_column (values columns (parse_template templ))
invert_template-expand_example =
    invert_template-expand templ columns value columns-HasBytes parse_templ_ne_nil separable_templ
      expand-templ

expand-parse_template_example :
    expand TermType.iri templ columns
    ≡ fill (should_percent_encode (node_type TermType.iri)) columns (parse_template templ)
expand-parse_template_example = expand-parse_template TermType.iri templ columns

parse_template-IsNormal_example : IsNormal (parse_template (codes "a{b}c{d"))
parse_template-IsNormal_example = parse_template-IsNormal (codes "a{b}c{d")

abbrev adjacent : List Segment
adjacent = literal (codes "x:") ∷ placeholder (codes "a") ∷ placeholder (codes "b") ∷ []

adjacent-IsNormal : IsNormal adjacent
unfolding contains
adjacent-IsNormal = ((refl, (λ e. cc), refl), (refl, (refl, tt)))

parse_template-render_example : parse_template (render adjacent) ≡ adjacent
parse_template-render_example = parse_template-render adjacent adjacent-IsNormal

adjacent_made : fill false columns adjacent ≡ some (codes "x:77")
unfolding fill equal
adjacent_made = refl

adjacent_joined : can_split adjacent ≡ false
unfolding can_split
adjacent_joined = refl

invert_template-anchors_example : invert_template adjacent (codes "x:77") false ≡ whole
invert_template-anchors_example =
    invert_template-anchors false false columns adjacent (codes "x:77") adjacent_joined
      adjacent_made

abbrev product_templ : Bytes
product_templ = codes "ex:PROD{id}"

abbrev category_templ : Bytes
category_templ = codes "ex:CAT{id}"

product-IsClosed : IsClosed product_templ
unfolding render parse_template
product-IsClosed = refl

category-IsClosed : IsClosed category_templ
unfolding render parse_template
category-IsClosed = refl

ruled_out_pair : templates_can_ever_match product_templ category_templ ≡ false
unfolding templates_can_ever_match
ruled_out_pair = refl

product_made : expand TermType.blank_node product_templ columns ≡ some (codes "ex:PROD7")
unfolding expand equal parse_template
product_made = refl

category_made : expand TermType.blank_node category_templ columns ≡ some (codes "ex:CAT7")
unfolding expand equal parse_template
category_made = refl

templates_can_ever_match_sound_example : ◌≢◌ {A = Bytes} (codes "ex:PROD7") (codes "ex:CAT7")
templates_can_ever_match_sound_example =
    templates_can_ever_match_sound product_templ category_templ TermType.blank_node
      TermType.blank_node columns columns (codes "ex:PROD7") (codes "ex:CAT7") product-IsClosed
      category-IsClosed ruled_out_pair product_made category_made

no_open_brace : contains (codes "ab") b'{' ≡ false
unfolding contains
no_open_brace = refl

no_close_brace : contains (codes "id") b'}' ≡ false
unfolding contains
no_close_brace = refl

unclosed_brace_ruled_out_example :
    (templates_can_ever_match (codes "ab") (codes "ab{id") ≡ false)
    × (expand TermType.literal (codes "ab") columns ≡ some (codes "ab"))
    × (expand TermType.literal (codes "ab{id") columns ≡ some (codes "ab"))
unclosed_brace_ruled_out_example =
    unclosed_brace_ruled_out b'a' (codes "b") (codes "id") TermType.literal columns no_open_brace
      no_close_brace

abbrev dashed : Row
dashed name = if equal name (codes "a") then some (codes "1-2") else some (codes "3")

dashed_a : dashed (codes "a") ≡ some (codes "1-2")
unfolding equal
dashed_a = refl

dashed_b : dashed (codes "b") ≡ some (codes "3")
unfolding equal
dashed_b = refl

no_dash : (c : ℕ) → c ≢ b'-' → contains (c ∷ []) b'-' ≡ false
unfolding contains
no_dash c h = ground arith

repeated_delimiter_ruled_out_example :
    (fill false dashed (delimited_pair (codes "a") (codes "b") b'-') ≡ some (codes "1-2-3-"))
    × ((invert_template (delimited_pair (codes "a") (codes "b") b'-') (codes "1-2-3-") false).kind
        ≡ never_matches)
repeated_delimiter_ruled_out_example =
    repeated_delimiter_ruled_out (codes "a") (codes "b") b'-' dashed (codes "1") (codes "2")
      (codes "3") dashed_a dashed_b (no_dash b'1' (omega arith)) (no_dash b'2' (omega arith))

-- Two spellings of one shape: the column names differ, the repetition does not.
abbrev shape_left : Bytes
shape_left = codes "p{a}/{b}/{a}"

abbrev shape_right : Bytes
shape_right = codes "p{c}/{d}/{c}"

shape_pair : same_template_shape shape_left shape_right ≡ true
unfolding same_template_shape canon same_segments same_segment same_number index_of parse_template
    equal
shape_pair = refl

shape_other : same_template_shape shape_left (codes "p{c}/{d}/{d}") ≡ false
unfolding same_template_shape canon same_segments same_segment same_number index_of parse_template
    equal
shape_other = refl

abbrev row_left : Row
row_left name = if equal name (codes "a") then some (codes "1") else some (codes "2")

abbrev row_right : Row
row_right name = if equal name (codes "c") then some (codes "1") else some (codes "2")

rows_agree :
    map row_left (referenced_columns (parse_template shape_left))
    ≡ map row_right (referenced_columns (parse_template shape_right))
unfolding referenced_columns parse_template equal
rows_agree = refl

expand-same_template_shape_example :
    expand TermType.iri shape_left row_left ≡ expand TermType.iri shape_right row_right
expand-same_template_shape_example =
    expand-same_template_shape shape_left shape_right TermType.iri row_left row_right shape_pair
      rows_agree

projection :
    build_projection_sql (parse_template (codes "p/{id}")) (codes "t1") true
    ≡ codes "('p/' || url_encode(CAST(t1.\"id\" AS VARCHAR)))"
unfolding build_projection_sql parse_template
projection = refl
