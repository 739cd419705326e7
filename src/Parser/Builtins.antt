-- ===== src/Parser/Builtins.antt =====
-- The keywords of the built-in functions (src/sparql-parser/ParserExpressions.cpp).
use Prim.Native.String.{String}
use sql2rdf.Base.{Bool, false, ◌||◌, List, [], ◌∷◌}
use sql2rdf.Expr.{BuiltinFunction}
use sql2rdf.Lexer.Token.{TokenType, Token}
use sql2rdf.Parser.State.{check, check_keyword}
use sql2rdf.Parser.Iris.{is_var, is_iri}
use sql2rdf.Parser.Literals.{is_number}

-- `kZeroArgKeywords` with `kZeroArgFns`.
abbrev pub zero_arg_builtins : List (String × BuiltinFunction)
zero_arg_builtins =
    ("RAND", BuiltinFunction.rand)
    ∷ ("NOW", BuiltinFunction.now)
    ∷ ("UUID", BuiltinFunction.uuid)
    ∷ ("STRUUID", BuiltinFunction.struuid)
    ∷ []

abbrev pub one_arg_builtins : List (String × BuiltinFunction)
one_arg_builtins =
    ("STR", BuiltinFunction.str)
    ∷ ("LANG", BuiltinFunction.lang)
    ∷ ("DATATYPE", BuiltinFunction.datatype)
    ∷ ("IRI", BuiltinFunction.iri_fn)
    ∷ ("URI", BuiltinFunction.uri_fn)
    ∷ ("ABS", BuiltinFunction.abs)
    ∷ ("CEIL", BuiltinFunction.ceil)
    ∷ ("FLOOR", BuiltinFunction.floor)
    ∷ ("ROUND", BuiltinFunction.round)
    ∷ ("STRLEN", BuiltinFunction.strlen)
    ∷ ("UCASE", BuiltinFunction.ucase)
    ∷ ("LCASE", BuiltinFunction.lcase)
    ∷ ("ENCODE_FOR_URI", BuiltinFunction.encode_for_uri)
    ∷ ("YEAR", BuiltinFunction.year)
    ∷ ("MONTH", BuiltinFunction.month)
    ∷ ("DAY", BuiltinFunction.day)
    ∷ ("HOURS", BuiltinFunction.hours)
    ∷ ("MINUTES", BuiltinFunction.minutes)
    ∷ ("SECONDS", BuiltinFunction.seconds)
    ∷ ("TIMEZONE", BuiltinFunction.timezone)
    ∷ ("TZ", BuiltinFunction.tz)
    ∷ ("MD5", BuiltinFunction.md5)
    ∷ ("SHA1", BuiltinFunction.sha1)
    ∷ ("SHA256", BuiltinFunction.sha256)
    ∷ ("SHA384", BuiltinFunction.sha384)
    ∷ ("SHA512", BuiltinFunction.sha512)
    ∷ ("ISIRI", BuiltinFunction.is_iri)
    ∷ ("ISURI", BuiltinFunction.is_uri)
    ∷ ("ISBLANK", BuiltinFunction.is_blank)
    ∷ ("ISLITERAL", BuiltinFunction.is_literal)
    ∷ ("ISNUMERIC", BuiltinFunction.is_numeric)
    ∷ []

abbrev pub two_arg_builtins : List (String × BuiltinFunction)
two_arg_builtins =
    ("LANGMATCHES", BuiltinFunction.lang_matches)
    ∷ ("CONTAINS", BuiltinFunction.contains)
    ∷ ("STRSTARTS", BuiltinFunction.strstarts)
    ∷ ("STRENDS", BuiltinFunction.strends)
    ∷ ("STRBEFORE", BuiltinFunction.strbefore)
    ∷ ("STRAFTER", BuiltinFunction.strafter)
    ∷ ("STRLANG", BuiltinFunction.strlang)
    ∷ ("STRDT", BuiltinFunction.strdt)
    ∷ ("SAMETERM", BuiltinFunction.same_term)
    ∷ []

-- `kExpressionStartKeywords`.
abbrev pub expression_start_keywords : List String
expression_start_keywords =
    "TRUE" ∷ "FALSE" ∷ "COUNT" ∷ "SUM" ∷ "MIN" ∷ "MAX" ∷ "AVG" ∷ "SAMPLE" ∷ "GROUP_CONCAT" ∷ "NOT"
    ∷ "EXISTS" ∷ "BOUND" ∷ "IF" ∷ "COALESCE" ∷ "CONCAT" ∷ "BNODE" ∷ "RAND" ∷ "NOW" ∷ "UUID"
    ∷ "STRUUID" ∷ "STR" ∷ "LANG" ∷ "DATATYPE" ∷ "IRI" ∷ "URI" ∷ "ABS" ∷ "CEIL" ∷ "FLOOR" ∷ "ROUND"
    ∷ "STRLEN" ∷ "UCASE" ∷ "LCASE" ∷ "ENCODE_FOR_URI" ∷ "YEAR" ∷ "MONTH" ∷ "DAY" ∷ "HOURS"
    ∷ "MINUTES" ∷ "SECONDS" ∷ "TIMEZONE" ∷ "TZ" ∷ "MD5" ∷ "SHA1" ∷ "SHA256" ∷ "SHA384" ∷ "SHA512"
    ∷ "ISIRI" ∷ "ISURI" ∷ "ISBLANK" ∷ "ISLITERAL" ∷ "ISNUMERIC" ∷ "LANGMATCHES" ∷ "CONTAINS"
    ∷ "STRSTARTS" ∷ "STRENDS" ∷ "STRBEFORE" ∷ "STRAFTER" ∷ "STRLANG" ∷ "STRDT" ∷ "SAMETERM"
    ∷ "SUBSTR" ∷ "REGEX" ∷ "REPLACE" ∷ []

unfoldable pub any_keyword : List String → Token → Bool
any_keyword [] t = false
any_keyword (kw ∷ kws) t = check_keyword kw t || any_keyword kws t

unfoldable pub starts_expression : Token → Bool
starts_expression t =
    (is_var t
      || check TokenType.l_paren t
      || check TokenType.string_literal t
      || is_number t
      || is_iri t
      || check TokenType.bang t
      || check TokenType.plus t
      || check TokenType.minus t)
    || any_keyword expression_start_keywords t
