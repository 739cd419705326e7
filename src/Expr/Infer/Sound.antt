-- ===== src/Expr/Infer/Sound.antt =====
-- Well-formed and determined annotations under inference.
use mathlib.Core.Path.{subst}
use sql2rdf.Base.{
  Bool, true, false, ◌&&◌, List, [], ◌∷◌, if◌then◌else◌, Bytes, All, ◌≡◌, inl, inr, refl, sym, ◌∙◌,
  arith,
}
use sql2rdf.Term.{TermInfo, default, is_integral, is_numeric, meet, is_fully_determined}
use sql2rdf.Term.Xsd
use sql2rdf.Term.Lattice.{IsWellFormed, meet-IsWellFormed, meet-determined}
use sql2rdf.Expr.{
  UnaryOp, BinaryOp, AggregateKind, BuiltinFunction, RdfLiteral, Expression, var_ref, literal_expr,
  iri_ref, exists, unary, binary, in_list, function_call, built_in, aggregate, Expressions,
  none_left, arg, MaybeExpression, null_expr, just_expr,
}
use sql2rdf.Expr.Infer.{
  literal_of, iri_term, blank_term, info_of_literal, arithmetic_result, infer_binary, infer_unary,
  infer_aggregate, infer_strdt, infer_strlang, meet_all, infer_coalesce, infer_if, infer_shape,
  shape, infer_built_in, infer_function_call, infer, infer_all, infer_maybe, info_at, Shape,
}

default-IsWellFormed : IsWellFormed default
default-IsWellFormed = record {
  literal_only = inr (refl, refl, refl);
  tagged = inl refl;
  sticky = inl refl;
}

literal_of-IsWellFormed : (d : Bytes) → IsWellFormed (literal_of d)
unfolding literal_of
literal_of-IsWellFormed d = record { literal_only = inl refl; tagged = inl refl; sticky = inl refl }

info_of_literal-IsWellFormed : (l : RdfLiteral) → IsWellFormed (info_of_literal l)
unfolding info_of_literal
info_of_literal-IsWellFormed l = ground arith

iri_term-IsWellFormed : IsWellFormed iri_term
unfolding iri_term
iri_term-IsWellFormed = record {
  literal_only = inr (refl, refl, refl);
  tagged = inl refl;
  sticky = inl refl;
}

blank_term-IsWellFormed : IsWellFormed blank_term
unfolding blank_term
blank_term-IsWellFormed = record {
  literal_only = inr (refl, refl, refl);
  tagged = inl refl;
  sticky = inl refl;
}

if-IsWellFormed :
    (b : Bool) (i j : TermInfo)
    → IsWellFormed i
    → IsWellFormed j
    → IsWellFormed (if b then i else j)
if-IsWellFormed true i j h k = h
if-IsWellFormed false i j h k = k

arithmetic_result-IsWellFormed : (l r : TermInfo) → IsWellFormed (arithmetic_result l r)
unfolding arithmetic_result
arithmetic_result-IsWellFormed l r =
    if-IsWellFormed (is_integral l && is_integral r) _ _ (literal_of-IsWellFormed Xsd.integer) (
      if-IsWellFormed (is_numeric l && is_numeric r) _ _ (literal_of-IsWellFormed Xsd.double)
        default-IsWellFormed)

infer_binary-IsWellFormed : (op : BinaryOp) (l r : TermInfo) → IsWellFormed (infer_binary op l r)
unfolding infer_binary
infer_binary-IsWellFormed BinaryOp.add l r = arithmetic_result-IsWellFormed l r
infer_binary-IsWellFormed BinaryOp.sub l r = arithmetic_result-IsWellFormed l r
infer_binary-IsWellFormed BinaryOp.mul l r = arithmetic_result-IsWellFormed l r
infer_binary-IsWellFormed BinaryOp.div l r =
    if-IsWellFormed (is_numeric l && is_numeric r) _ _ (literal_of-IsWellFormed Xsd.double)
      default-IsWellFormed
infer_binary-IsWellFormed _ l r = literal_of-IsWellFormed Xsd.boolean

infer_unary-IsWellFormed : (op : UnaryOp) (i : TermInfo) → IsWellFormed (infer_unary op i)
unfolding infer_unary
infer_unary-IsWellFormed UnaryOp.not i = literal_of-IsWellFormed Xsd.boolean
infer_unary-IsWellFormed _ i = arithmetic_result-IsWellFormed i i

infer_aggregate-IsWellFormed :
    (kind : AggregateKind) (i : TermInfo) → IsWellFormed i → IsWellFormed (infer_aggregate kind i)
unfolding infer_aggregate
infer_aggregate-IsWellFormed AggregateKind.count i h = literal_of-IsWellFormed Xsd.integer
infer_aggregate-IsWellFormed AggregateKind.sum i h = arithmetic_result-IsWellFormed i i
infer_aggregate-IsWellFormed AggregateKind.avg i h = literal_of-IsWellFormed Xsd.double
infer_aggregate-IsWellFormed AggregateKind.group_concat i h = literal_of-IsWellFormed Xsd.string
infer_aggregate-IsWellFormed _ i h = h

infer_strdt-IsWellFormed : {P : Type 0} (args : Expressions P) → IsWellFormed (infer_strdt args)
unfolding infer_strdt
infer_strdt-IsWellFormed (arg _ (arg (iri_ref d) none_left)) = record {
  literal_only = inl refl;
  tagged = inl refl;
  sticky = inl refl;
}
infer_strdt-IsWellFormed _ = default-IsWellFormed

infer_strlang-IsWellFormed : {P : Type 0} (args : Expressions P) → IsWellFormed (infer_strlang args)
unfolding infer_strlang
infer_strlang-IsWellFormed (arg _ (arg (literal_expr l) none_left)) = record {
  literal_only = inl refl;
  tagged = inr (refl, refl);
  sticky = inr (inr refl);
}
infer_strlang-IsWellFormed _ = default-IsWellFormed

infer_function_call-IsWellFormed : (iri : Bytes) → IsWellFormed (infer_function_call iri)
unfolding infer_function_call
infer_function_call-IsWellFormed iri =
    if-IsWellFormed _ _ _ (record { literal_only = inl refl; tagged = inl refl; sticky = inl refl })
      default-IsWellFormed

meet_all-IsWellFormed :
    (out : TermInfo) (infos : List TermInfo)
    → IsWellFormed out
    → All IsWellFormed infos
    → IsWellFormed (meet_all out infos)
unfolding meet_all
meet_all-IsWellFormed out [] h k = h
meet_all-IsWellFormed out (i ∷ infos) h k =
    meet_all-IsWellFormed (meet out i) infos (meet-IsWellFormed out i h k.0) k.1

infer_coalesce-IsWellFormed :
    (infos : List TermInfo) → All IsWellFormed infos → IsWellFormed (infer_coalesce infos)
unfolding infer_coalesce
infer_coalesce-IsWellFormed [] h = default-IsWellFormed
infer_coalesce-IsWellFormed (i ∷ infos) h = meet_all-IsWellFormed i infos h.0 h.1

infer_if-IsWellFormed :
    (infos : List TermInfo) → All IsWellFormed infos → IsWellFormed (infer_if infos)
unfolding infer_if
infer_if-IsWellFormed (_ ∷ i ∷ j ∷ []) h = meet-IsWellFormed i j h.1.0 h.1.1.0
infer_if-IsWellFormed _ h = default-IsWellFormed

infer_shape-IsWellFormed :
    {P : Type 0} (s : Shape) (args : Expressions P) (infos : List TermInfo)
    → All IsWellFormed infos
    → IsWellFormed (infer_shape s args infos)
unfolding infer_shape
infer_shape-IsWellFormed Shape.numeric_valued args infos h =
    arithmetic_result-IsWellFormed (info_at infos 0) (info_at infos 0)
infer_shape-IsWellFormed Shape.iri_valued args infos h = iri_term-IsWellFormed
infer_shape-IsWellFormed Shape.blank_valued args infos h = blank_term-IsWellFormed
infer_shape-IsWellFormed Shape.retyped args infos h = infer_strdt-IsWellFormed args
infer_shape-IsWellFormed Shape.relanged args infos h = infer_strlang-IsWellFormed args
infer_shape-IsWellFormed Shape.coalesced args infos h = infer_coalesce-IsWellFormed infos h
infer_shape-IsWellFormed Shape.chosen args infos h = infer_if-IsWellFormed infos h
infer_shape-IsWellFormed Shape.unsupported args infos h = default-IsWellFormed
infer_shape-IsWellFormed Shape.boolean_valued args infos h = literal_of-IsWellFormed Xsd.boolean
infer_shape-IsWellFormed Shape.integer_valued args infos h = literal_of-IsWellFormed Xsd.integer
infer_shape-IsWellFormed Shape.double_valued args infos h = literal_of-IsWellFormed Xsd.double
infer_shape-IsWellFormed Shape.date_time_valued args infos h = literal_of-IsWellFormed Xsd.date_time
infer_shape-IsWellFormed Shape.stringy args infos h = literal_of-IsWellFormed Xsd.string

-- Every variable of the scope has a well-formed annotation.
abbrev pub ScopeIsWellFormed : (Bytes → TermInfo) → Type 0
ScopeIsWellFormed scope = (name : Bytes) → IsWellFormed (scope name)

mutual
  unfolding infer infer_built_in

  go :
      {P : Type 0} (scope : Bytes → TermInfo) (e : Expression P)
      → ScopeIsWellFormed scope
      → IsWellFormed (infer scope e)
  go scope (literal_expr l) h = info_of_literal-IsWellFormed l
  go scope (var_ref name) h = h name
  go scope (iri_ref _) h = iri_term-IsWellFormed
  go scope (binary op l r) h = infer_binary-IsWellFormed op (infer scope l) (infer scope r)
  go scope (unary op e) h = infer_unary-IsWellFormed op (infer scope e)
  go scope (in_list _ _ _) h = literal_of-IsWellFormed Xsd.boolean
  go scope (exists _ _) h = literal_of-IsWellFormed Xsd.boolean
  go scope (function_call iri _ _) h = infer_function_call-IsWellFormed iri
  go scope (built_in fn args) h =
      infer_shape-IsWellFormed (shape fn) args (infer_all scope args) (go_each scope args h)
  go scope (aggregate kind _ star a) h =
      infer_aggregate-IsWellFormed kind (if star then default else infer_maybe scope a) (
        if-IsWellFormed star default (infer_maybe scope a) default-IsWellFormed
          (go_maybe scope a h))

  go_each :
      {P : Type 0} (scope : Bytes → TermInfo) (es : Expressions P)
      → ScopeIsWellFormed scope
      → All IsWellFormed (infer_all scope es)
  go_each scope none_left h = tt
  go_each scope (arg e es) h = (go scope e h, go_each scope es h)

  go_maybe :
      {P : Type 0} (scope : Bytes → TermInfo) (a : MaybeExpression P)
      → ScopeIsWellFormed scope
      → IsWellFormed (infer_maybe scope a)
  go_maybe scope null_expr h = default-IsWellFormed
  go_maybe scope (just_expr e) h = go scope e h

-- Over a well-formed scope the annotation of every expression is well formed.
pub infer-IsWellFormed :
    {P : Type 0} (scope : Bytes → TermInfo) (e : Expression P)
    → ScopeIsWellFormed scope
    → IsWellFormed (infer scope e)
infer-IsWellFormed = go

-- A determined COALESCE has one annotation for all.
meet_all-determined :
    (out : TermInfo) (infos : List TermInfo)
    → IsWellFormed out
    → All IsWellFormed infos
    → is_fully_determined (meet_all out infos) ≡ true
    → (meet_all out infos ≡ out) × All (λ i. i ≡ out) infos
unfolding meet_all
meet_all-determined out [] h k d = (refl, tt)
meet_all-determined out (i ∷ infos) h k d =
    let (whole, rest) =
      meet_all-determined (meet out i) infos (meet-IsWellFormed out i h k.0) k.1 d in
    let (left, same) = meet-determined out i h k.0 (rw whole at d) in
    (whole ∙ left, (sym same, rw left at rest))

infer_coalesce-determined :
    (infos : List TermInfo)
    → All IsWellFormed infos
    → is_fully_determined (infer_coalesce infos) ≡ true
    → All (λ i. i ≡ infer_coalesce infos) infos
unfolding infer_coalesce
infer_coalesce-determined [] h d = tt
infer_coalesce-determined (i ∷ infos) h d =
    let (whole, rest) = meet_all-determined i infos h.0 h.1 d in
    subst (λ t. All (λ j. j ≡ t) (i ∷ infos)) (sym whole) (refl, rest)

infer_all-IsWellFormed :
    {P : Type 0} (scope : Bytes → TermInfo) (es : Expressions P)
    → ScopeIsWellFormed scope
    → All IsWellFormed (infer_all scope es)
unfolding infer
infer_all-IsWellFormed scope none_left h = tt
infer_all-IsWellFormed scope (arg e es) h =
    (infer-IsWellFormed scope e h, infer_all-IsWellFormed scope es h)

-- If every variable in scope has a well-formed annotation, and the annotation of a COALESCE is fully
-- determined, then every argument has that annotation.
pub infer-coalesce_determined :
    {P : Type 0} (scope : Bytes → TermInfo) (args : Expressions P)
    → ScopeIsWellFormed scope
    → is_fully_determined (infer scope (built_in BuiltinFunction.coalesce args)) ≡ true
    → All (λ i. i ≡ infer scope (built_in BuiltinFunction.coalesce args)) (infer_all scope args)
unfolding infer infer_built_in
infer-coalesce_determined scope args h d =
    infer_coalesce-determined (infer_all scope args) (infer_all-IsWellFormed scope args h) d
