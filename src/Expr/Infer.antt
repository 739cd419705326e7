-- ===== src/Expr/Infer.antt =====
-- The static term annotation of an expression, src/sparql2sql/TermInference.cpp, with
-- `termInfoOfTerm` for literals (src/sparql2sql/TermMapSql.cpp). `scope` is
-- `TranslatedPattern::termInfoOf`.
pub mod Sound
use sql2rdf.Base.{
  ℕ, zero, suc, Bool, true, false, ◌&&◌, List, [], ◌∷◌, Option, none, some, if◌then◌else◌, not,
  is_empty, Bytes,
}
use sql2rdf.Term
use sql2rdf.Term.{TermInfo, default, is_integral, is_numeric, meet}
use sql2rdf.Term.Xsd
use sql2rdf.Term.Xsd.{rdf_lang_string, is_cast_iri}
use sql2rdf.Expr.{
  UnaryOp, BinaryOp, AggregateKind, BuiltinFunction, RdfLiteral, Expression, var_ref, literal_expr,
  iri_ref, exists, unary, binary, in_list, function_call, built_in, aggregate, Expressions,
  none_left, arg, MaybeExpression, null_expr, just_expr,
}

unfoldable pub literal_of : Bytes → TermInfo
literal_of datatype = record default { kind = Term.literal; datatype_iri = datatype }

unfoldable pub iri_term : TermInfo
iri_term = record default { kind = Term.iri }

unfoldable pub blank_term : TermInfo
blank_term = record default { kind = Term.blank_node }

-- The case of `termInfoOfTerm` for a literal.
unfoldable pub info_of_literal : RdfLiteral → TermInfo
info_of_literal l =
    if not (is_empty l.language_tag)
    then record default {
      kind = Term.literal;
      lang = l.language_tag;
      datatype_iri = rdf_lang_string;
      maybe_lang_tagged = true;
    }
    else elim l.datatype [
      | some d ↦ record default { kind = Term.literal; datatype_iri = d }
      | none ↦ record default { kind = Term.literal; datatype_iri = Xsd.string }
    ]

unfoldable pub arithmetic_result : TermInfo → TermInfo → TermInfo
unfolding literal_of
arithmetic_result l r =
    if is_integral l && is_integral r
    then literal_of Xsd.integer
    else if is_numeric l && is_numeric r
    then literal_of Xsd.double
    else default

-- `inferBinary`, on the annotations of the operands.
unfoldable pub infer_binary : BinaryOp → TermInfo → TermInfo → TermInfo
unfolding literal_of arithmetic_result
infer_binary BinaryOp.add l r = arithmetic_result l r
infer_binary BinaryOp.sub l r = arithmetic_result l r
infer_binary BinaryOp.mul l r = arithmetic_result l r
infer_binary BinaryOp.div l r =
    if is_numeric l && is_numeric r then literal_of Xsd.double else default
infer_binary _ l r = literal_of Xsd.boolean

unfoldable pub infer_unary : UnaryOp → TermInfo → TermInfo
unfolding literal_of arithmetic_result
infer_unary UnaryOp.not i = literal_of Xsd.boolean
infer_unary _ i = arithmetic_result i i

-- `inferAggregate`; the argument's annotation is the default for `*`, and where there is none.
unfoldable pub infer_aggregate : AggregateKind → TermInfo → TermInfo
unfolding literal_of arithmetic_result
infer_aggregate AggregateKind.count i = literal_of Xsd.integer
infer_aggregate AggregateKind.sum i = arithmetic_result i i
infer_aggregate AggregateKind.avg i = literal_of Xsd.double
infer_aggregate AggregateKind.group_concat i = literal_of Xsd.string
infer_aggregate _ i = i

abbrev pub info_at : List TermInfo → ℕ → TermInfo
info_at [] i = default
info_at (x ∷ xs) zero = x
info_at (x ∷ xs) (suc i) = info_at xs i

-- STRDT() and STRLANG(): two arguments, the second a constant.
unfoldable pub infer_strdt : {P : Type 0} → Expressions P → TermInfo
infer_strdt (arg _ (arg (iri_ref d) none_left)) = record default {
  kind = Term.literal;
  datatype_iri = d;
}
infer_strdt _ = default

unfoldable pub infer_strlang : {P : Type 0} → Expressions P → TermInfo
infer_strlang (arg _ (arg (literal_expr l) none_left)) = record default {
  kind = Term.literal;
  datatype_iri = rdf_lang_string;
  lang = l.lexical_form;
  maybe_lang_tagged = true;
}
infer_strlang _ = default

-- The loop of COALESCE().
unfoldable pub meet_all : TermInfo → List TermInfo → TermInfo
meet_all out [] = out
meet_all out (i ∷ rest) = meet_all (meet out i) rest

unfoldable pub infer_coalesce : List TermInfo → TermInfo
unfolding meet_all
infer_coalesce [] = default
infer_coalesce (i ∷ rest) = meet_all i rest

unfoldable pub infer_if : List TermInfo → TermInfo
infer_if (_ ∷ i ∷ j ∷ []) = meet i j
infer_if _ = default

-- The result types that the cases of `inferBuiltIn` share.
pub data Shape : Type 0 where
  stringy boolean_valued integer_valued numeric_valued double_valued date_time_valued : Shape
  iri_valued blank_valued retyped relanged coalesced chosen unsupported : Shape

unfoldable pub shape : BuiltinFunction → Shape
shape BuiltinFunction.str = stringy
shape BuiltinFunction.lang = stringy
shape BuiltinFunction.concat = stringy
shape BuiltinFunction.substr = stringy
shape BuiltinFunction.ucase = stringy
shape BuiltinFunction.lcase = stringy
shape BuiltinFunction.encode_for_uri = stringy
shape BuiltinFunction.strbefore = stringy
shape BuiltinFunction.strafter = stringy
shape BuiltinFunction.replace = stringy
shape BuiltinFunction.md5 = stringy
shape BuiltinFunction.sha1 = stringy
shape BuiltinFunction.sha256 = stringy
shape BuiltinFunction.sha384 = stringy
shape BuiltinFunction.sha512 = stringy
shape BuiltinFunction.struuid = stringy
shape BuiltinFunction.bound = boolean_valued
shape BuiltinFunction.contains = boolean_valued
shape BuiltinFunction.strstarts = boolean_valued
shape BuiltinFunction.strends = boolean_valued
shape BuiltinFunction.regex = boolean_valued
shape BuiltinFunction.lang_matches = boolean_valued
shape BuiltinFunction.same_term = boolean_valued
shape BuiltinFunction.is_iri = boolean_valued
shape BuiltinFunction.is_uri = boolean_valued
shape BuiltinFunction.is_blank = boolean_valued
shape BuiltinFunction.is_literal = boolean_valued
shape BuiltinFunction.is_numeric = boolean_valued
shape BuiltinFunction.strlen = integer_valued
shape BuiltinFunction.year = integer_valued
shape BuiltinFunction.month = integer_valued
shape BuiltinFunction.day = integer_valued
shape BuiltinFunction.hours = integer_valued
shape BuiltinFunction.minutes = integer_valued
shape BuiltinFunction.seconds = integer_valued
shape BuiltinFunction.abs = numeric_valued
shape BuiltinFunction.ceil = numeric_valued
shape BuiltinFunction.floor = numeric_valued
shape BuiltinFunction.round = numeric_valued
shape BuiltinFunction.rand = double_valued
shape BuiltinFunction.now = date_time_valued
shape BuiltinFunction.datatype = iri_valued
shape BuiltinFunction.uuid = iri_valued
shape BuiltinFunction.iri_fn = iri_valued
shape BuiltinFunction.uri_fn = iri_valued
shape BuiltinFunction.bnode = blank_valued
shape BuiltinFunction.strdt = retyped
shape BuiltinFunction.strlang = relanged
shape BuiltinFunction.coalesce = coalesced
shape BuiltinFunction.if_fn = chosen
shape BuiltinFunction.timezone = unsupported
shape BuiltinFunction.tz = unsupported

unfoldable pub infer_shape : {P : Type 0} → Shape → Expressions P → List TermInfo → TermInfo
infer_shape stringy args infos = literal_of Xsd.string
infer_shape boolean_valued args infos = literal_of Xsd.boolean
infer_shape integer_valued args infos = literal_of Xsd.integer
infer_shape numeric_valued args infos = arithmetic_result (info_at infos 0) (info_at infos 0)
infer_shape double_valued args infos = literal_of Xsd.double
infer_shape date_time_valued args infos = literal_of Xsd.date_time
infer_shape iri_valued args infos = iri_term
infer_shape blank_valued args infos = blank_term
infer_shape retyped args infos = infer_strdt args
infer_shape relanged args infos = infer_strlang args
infer_shape coalesced args infos = infer_coalesce infos
infer_shape chosen args infos = infer_if infos
infer_shape unsupported args infos = default

-- `inferBuiltIn`, on the arguments and their annotations.
unfoldable pub infer_built_in :
    {P : Type 0} → BuiltinFunction → Expressions P → List TermInfo → TermInfo
unfolding shape infer_shape literal_of iri_term blank_term infer_strdt infer_strlang infer_coalesce
    infer_if
infer_built_in fn args infos = infer_shape (shape fn) args infos

unfoldable pub infer_function_call : Bytes → TermInfo
infer_function_call iri =
    if is_cast_iri iri then record default { kind = Term.literal; datatype_iri = iri } else default

unfoldable mutual
  pub infer : {P : Type 0} → (Bytes → TermInfo) → Expression P → TermInfo
  infer scope (literal_expr l) = info_of_literal l
  infer scope (var_ref name) = scope name
  infer scope (iri_ref _) = iri_term
  infer scope (binary op l r) = infer_binary op (infer scope l) (infer scope r)
  infer scope (unary op e) = infer_unary op (infer scope e)
  infer scope (in_list _ _ _) = literal_of Xsd.boolean
  infer scope (exists _ _) = literal_of Xsd.boolean
  infer scope (function_call iri _ _) = infer_function_call iri
  infer scope (built_in fn args) = infer_built_in fn args (infer_all scope args)
  infer scope (aggregate kind _ star a) =
      infer_aggregate kind (if star then default else infer_maybe scope a)

  pub infer_all : {P : Type 0} → (Bytes → TermInfo) → Expressions P → List TermInfo
  infer_all scope none_left = []
  infer_all scope (arg e es) = infer scope e ∷ infer_all scope es

  pub infer_maybe : {P : Type 0} → (Bytes → TermInfo) → MaybeExpression P → TermInfo
  infer_maybe scope null_expr = default
  infer_maybe scope (just_expr e) = infer scope e
