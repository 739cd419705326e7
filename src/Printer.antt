-- ===== src/Printer.antt =====
-- The indented tree of a query, src/sparql-parser/PrettyPrinter.cpp: its names and its expressions.
-- What goes to the stream comes back as text.
pub mod Trees
pub mod Keywords
use sql2rdf.Base.{
  ℕ, zero, suc, Bool, true, false, List, [], ◌∷◌, ◌++◌, Option, none, some, if◌then◌else◌, equal,
  Bytes, codes, is_empty,
}
use sql2rdf.Expr.{UnaryOp, BinaryOp, AggregateKind, BuiltinFunction}
use sql2rdf.Ast.{
  Iri, Var, RdfLiteral, Term, iri, var, blank_node, literal, PropertyPathExpr, predicate, variable,
  inverse, sequence, alternative, zero_or_more, one_or_more, zero_or_one, negated_property_set,
  Expression, literal_expr, var_expr, iri_expr, unary_expr, binary_expr, in_expr,
  function_call_expr, built_in_call_expr, aggregate_expr, exists_expr, Expressions, no_more, more,
  MaybeExpression, null_expression, an_expression,
}

unfoldable pub literal_str : RdfLiteral → Bytes
unfolding equal
literal_str l =
    let s : Bytes = codes "\"" ++ (l.lexical_form ++ codes "\"") in
    if equal l.language_tag []
    then elim l.datatype [ none ↦ s | some i ↦ s ++ (codes "^^<" ++ (i.value ++ codes ">")) ]
    else s ++ (codes "@" ++ l.language_tag)

unfoldable pub term_str : Term → Bytes
unfolding literal_str equal
term_str (iri i) =
    if equal i.lexical_form [] then codes "<" ++ (i.value ++ codes ">") else i.lexical_form
term_str (var v) = codes "?" ++ v.name
term_str (blank_node label anonymous) = codes "_:" ++ label
term_str (literal l) = literal_str l

-- The elements of a negated property set, each behind a `|` but the first.
unfoldable pub set_str : Bytes → Bool → List Iri → Bytes
set_str mark first [] = []
set_str mark first (i ∷ is) =
    (if first then [] else codes "|") ++ (mark ++ (i.lexical_form ++ set_str mark false is))

unfoldable pub path_str : PropertyPathExpr → Bytes
unfolding set_str
path_str (predicate i) = i.lexical_form
path_str (variable v) = codes "?" ++ v.name
path_str (inverse p) = codes "^" ++ path_str p
path_str (sequence l r) = path_str l ++ (codes "/" ++ path_str r)
path_str (alternative l r) = path_str l ++ (codes "|" ++ path_str r)
path_str (zero_or_more p) = path_str p ++ codes "*"
path_str (one_or_more p) = path_str p ++ codes "+"
path_str (zero_or_one p) = path_str p ++ codes "?"
path_str (negated_property_set forward inverted) =
    codes "!("
    ++ (set_str [] true forward ++ (set_str (codes "^") (is_empty forward) inverted ++ codes ")"))

abbrev pub unary_op_symbol : UnaryOp → Bytes
unary_op_symbol UnaryOp.not = codes "!"
unary_op_symbol UnaryOp.plus = codes "+"
unary_op_symbol UnaryOp.minus = codes "-"

unfoldable pub binary_op_symbol : BinaryOp → Bytes
binary_op_symbol BinaryOp.or = codes "||"
binary_op_symbol BinaryOp.and = codes "&&"
binary_op_symbol BinaryOp.eq = codes "="
binary_op_symbol BinaryOp.ne = codes "!="
binary_op_symbol BinaryOp.lt = codes "<"
binary_op_symbol BinaryOp.gt = codes ">"
binary_op_symbol BinaryOp.le = codes "<="
binary_op_symbol BinaryOp.ge = codes ">="
binary_op_symbol BinaryOp.add = codes "+"
binary_op_symbol BinaryOp.sub = codes "-"
binary_op_symbol BinaryOp.mul = codes "*"
binary_op_symbol BinaryOp.div = codes "/"

unfoldable pub aggregate_name : AggregateKind → Bytes
aggregate_name AggregateKind.count = codes "COUNT"
aggregate_name AggregateKind.sum = codes "SUM"
aggregate_name AggregateKind.min = codes "MIN"
aggregate_name AggregateKind.max = codes "MAX"
aggregate_name AggregateKind.avg = codes "AVG"
aggregate_name AggregateKind.sample = codes "SAMPLE"
aggregate_name AggregateKind.group_concat = codes "GROUP_CONCAT"

unfoldable pub builtin_name : BuiltinFunction → Bytes
builtin_name BuiltinFunction.str = codes "STR"
builtin_name BuiltinFunction.lang = codes "LANG"
builtin_name BuiltinFunction.lang_matches = codes "LANGMATCHES"
builtin_name BuiltinFunction.datatype = codes "DATATYPE"
builtin_name BuiltinFunction.bound = codes "BOUND"
builtin_name BuiltinFunction.iri_fn = codes "IRI"
builtin_name BuiltinFunction.uri_fn = codes "URI"
builtin_name BuiltinFunction.bnode = codes "BNODE"
builtin_name BuiltinFunction.rand = codes "RAND"
builtin_name BuiltinFunction.abs = codes "ABS"
builtin_name BuiltinFunction.ceil = codes "CEIL"
builtin_name BuiltinFunction.floor = codes "FLOOR"
builtin_name BuiltinFunction.round = codes "ROUND"
builtin_name BuiltinFunction.concat = codes "CONCAT"
builtin_name BuiltinFunction.strlen = codes "STRLEN"
builtin_name BuiltinFunction.substr = codes "SUBSTR"
builtin_name BuiltinFunction.ucase = codes "UCASE"
builtin_name BuiltinFunction.lcase = codes "LCASE"
builtin_name BuiltinFunction.encode_for_uri = codes "ENCODE_FOR_URI"
builtin_name BuiltinFunction.contains = codes "CONTAINS"
builtin_name BuiltinFunction.strstarts = codes "STRSTARTS"
builtin_name BuiltinFunction.strends = codes "STRENDS"
builtin_name BuiltinFunction.strbefore = codes "STRBEFORE"
builtin_name BuiltinFunction.strafter = codes "STRAFTER"
builtin_name BuiltinFunction.replace = codes "REPLACE"
builtin_name BuiltinFunction.regex = codes "REGEX"
builtin_name BuiltinFunction.year = codes "YEAR"
builtin_name BuiltinFunction.month = codes "MONTH"
builtin_name BuiltinFunction.day = codes "DAY"
builtin_name BuiltinFunction.hours = codes "HOURS"
builtin_name BuiltinFunction.minutes = codes "MINUTES"
builtin_name BuiltinFunction.seconds = codes "SECONDS"
builtin_name BuiltinFunction.timezone = codes "TIMEZONE"
builtin_name BuiltinFunction.tz = codes "TZ"
builtin_name BuiltinFunction.now = codes "NOW"
builtin_name BuiltinFunction.uuid = codes "UUID"
builtin_name BuiltinFunction.struuid = codes "STRUUID"
builtin_name BuiltinFunction.md5 = codes "MD5"
builtin_name BuiltinFunction.sha1 = codes "SHA1"
builtin_name BuiltinFunction.sha256 = codes "SHA256"
builtin_name BuiltinFunction.sha384 = codes "SHA384"
builtin_name BuiltinFunction.sha512 = codes "SHA512"
builtin_name BuiltinFunction.coalesce = codes "COALESCE"
builtin_name BuiltinFunction.if_fn = codes "IF"
builtin_name BuiltinFunction.strlang = codes "STRLANG"
builtin_name BuiltinFunction.strdt = codes "STRDT"
builtin_name BuiltinFunction.same_term = codes "sameTerm"
builtin_name BuiltinFunction.is_iri = codes "isIRI"
builtin_name BuiltinFunction.is_uri = codes "isURI"
builtin_name BuiltinFunction.is_blank = codes "isBLANK"
builtin_name BuiltinFunction.is_literal = codes "isLITERAL"
builtin_name BuiltinFunction.is_numeric = codes "isNUMERIC"

unfoldable pub separator_str : Option Bytes → Bytes
separator_str none = []
separator_str (some s) = codes "; SEPARATOR=\"" ++ (s ++ codes "\"")

unfoldable mutual
  unfolding term_str binary_op_symbol aggregate_name builtin_name

  pub expr_str : Expression → Bytes
  expr_str (literal_expr l) = term_str (literal l)
  expr_str (var_expr v) = codes "?" ++ v.name
  expr_str (iri_expr i) = i.lexical_form
  expr_str (unary_expr op e) = unary_op_symbol op ++ expr_str e
  expr_str (binary_expr op l r) =
      codes "("
      ++ (expr_str l
          ++ (codes " " ++ (binary_op_symbol op ++ (codes " " ++ (expr_str r ++ codes ")")))))
  expr_str (in_expr e list negated) =
      expr_str e
      ++ ((if negated then codes " NOT IN (" else codes " IN (")
          ++ (list_str true list ++ codes ")"))
  expr_str (function_call_expr i args distinct) =
      i.lexical_form
      ++ (codes "("
          ++ ((if distinct then codes "DISTINCT " else []) ++ (list_str true args ++ codes ")")))
  expr_str (built_in_call_expr fn args) =
      builtin_name fn ++ (codes "(" ++ (list_str true args ++ codes ")"))
  expr_str (aggregate_expr kind distinct star e separator) =
      let arg = maybe_str e in
      aggregate_name kind
      ++ (codes "("
          ++ ((if distinct then codes "DISTINCT " else [])
              ++ ((if star then codes "*" else arg) ++ (separator_str separator ++ codes ")"))))
  expr_str (exists_expr negated g) =
      if negated then codes "NOT EXISTS {...}" else codes "EXISTS {...}"

  -- The loop over a list: each element behind a comma but the first.
  pub list_str : Bool → Expressions → Bytes
  list_str first no_more = []
  list_str first (more e es) =
      (if first then [] else codes ", ") ++ (expr_str e ++ list_str false es)

  pub maybe_str : MaybeExpression → Bytes
  maybe_str null_expression = []
  maybe_str (an_expression e) = expr_str e
