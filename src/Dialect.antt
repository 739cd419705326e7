-- ===== src/Dialect.antt =====
-- The SQL text that the DuckDB dialect writes, src/sparql2sql/DuckDbDialect.cpp.
pub mod Quote
use sql2rdf.Base.{
  ℕ, Bool, true, false, not, List, [], ◌∷◌, ◌++◌, ◌==◌, if◌then◌else◌, is_empty, Bytes, codes,
}

-- What the loop of `escapeAndWrap` appends for the bytes of the value.
unfoldable pub escape : ℕ → Bytes → Bytes
escape q [] = []
escape q (c ∷ v) = (if c == q then q ∷ c ∷ [] else c ∷ []) ++ escape q v

unfoldable pub escape_and_wrap : Bytes → ℕ → Bytes
unfolding escape
escape_and_wrap v q = q ∷ (escape q v ++ q ∷ [])

unfoldable pub quote_identifier : Bytes → Bytes
unfolding escape_and_wrap
quote_identifier v = escape_and_wrap v b'"'

unfoldable pub string_literal : Bytes → Bytes
unfolding escape_and_wrap
string_literal v = escape_and_wrap v 39

-- The parts, with a separator in front of each but the first.
unfoldable pub join : Bytes → List Bytes → Bytes
join sep [] = []
join sep (part ∷ []) = part
join sep (part ∷ rest) = part ++ (sep ++ join sep rest)

unfoldable pub concat : List Bytes → Bytes
unfolding join
concat [] = string_literal []
concat parts = codes "(" ++ (join (codes " || ") parts ++ codes ")")

unfoldable pub percent_encode_sql : Bytes → Bytes
percent_encode_sql expr = codes "url_encode(" ++ (expr ++ codes ")")

unfoldable pub boolean_literal : Bool → Bytes
boolean_literal value = if value then codes "TRUE" else codes "FALSE"

unfoldable pub exists_clause : Bool → Bytes → Bytes
exists_clause negated subquery =
    (if negated then codes "NOT EXISTS (" else codes "EXISTS (") ++ (subquery ++ codes ")")

-- `tryCastToDouble` and its five siblings, which differ in the type's name.
unfoldable pub try_cast : Bytes → Bytes → Bytes
try_cast type_name expr = codes "TRY_CAST(" ++ (expr ++ (codes " AS " ++ (type_name ++ codes ")")))

unfoldable pub try_cast_to_double : Bytes → Bytes
unfolding try_cast
try_cast_to_double = try_cast (codes "DOUBLE")

unfoldable pub try_cast_to_big_int : Bytes → Bytes
unfolding try_cast
try_cast_to_big_int = try_cast (codes "BIGINT")

unfoldable pub try_cast_to_timestamp : Bytes → Bytes
unfolding try_cast
try_cast_to_timestamp = try_cast (codes "TIMESTAMP")

unfoldable pub try_cast_to_boolean : Bytes → Bytes
unfolding try_cast
try_cast_to_boolean = try_cast (codes "BOOLEAN")

unfoldable pub try_cast_to_date : Bytes → Bytes
unfolding try_cast
try_cast_to_date = try_cast (codes "DATE")

unfoldable pub try_cast_to_decimal : Bytes → Bytes
unfolding try_cast
try_cast_to_decimal = try_cast (codes "DECIMAL(38,18)")

unfoldable pub regex_match : Bytes → Bytes → Bytes → Bool → Bytes
unfolding string_literal
regex_match text pattern_ flags negated =
    let options = if is_empty flags then [] else codes ", " ++ string_literal flags in
    let call =
      codes "regexp_matches(" ++ (text ++ (codes ", " ++ (pattern_ ++ (options ++ codes ")")))) in
    if negated then codes "(NOT " ++ (call ++ codes ")") else call

unfoldable pub string_agg : Bytes → Bytes → Bool → Bytes
string_agg expr separator distinct =
    codes "string_agg("
    ++ ((if distinct then codes "DISTINCT " else [])
        ++ (expr ++ (codes ", " ++ (separator ++ codes ")"))))

unfoldable pub any_value_agg : Bytes → Bytes
any_value_agg expr = codes "any_value(" ++ (expr ++ codes ")")

unfoldable pub arg_min_max_by : Bytes → Bytes → Bool → Bytes
arg_min_max_by expr order_by want_max =
    (if want_max then codes "arg_max(" else codes "arg_min(")
    ++ (expr ++ (codes ", " ++ (order_by ++ codes ")")))

bracket : List Bytes → List Bytes
bracket [] = []
bracket (arm ∷ arms) = (codes "(" ++ (arm ++ codes ")")) ∷ bracket arms

unfoldable pub combine_by_name : Bool → List Bytes → Bytes
unfolding join bracket
combine_by_name all arms =
    join (if all then codes " UNION ALL BY NAME " else codes " UNION BY NAME ") (bracket arms)
