-- ===== src/Expr.antt =====
-- The expression trees of SPARQL, include/sparql-parser/ast/Expression.h and Term.h, and the
-- traversals of src/sparql2sql/ExprAnalysis.cpp. `P` stands for the group graph patterns inside
-- EXISTS, into which these traversals do not go.
pub mod Conjuncts
pub mod Infer
use sql2rdf.Base.{Bool, true, false, ◌||◌, List, [], ◌∷◌, ◌++◌, Option, Bytes}

pub data UnaryOp : Type 0 where
  not plus minus : UnaryOp

pub data BinaryOp : Type 0 where
  or and eq ne lt gt le ge add sub mul div : BinaryOp

pub data AggregateKind : Type 0 where
  count sum min max avg sample group_concat : AggregateKind

pub data BuiltinFunction : Type 0 where
  str lang lang_matches datatype bound iri_fn uri_fn bnode rand abs : BuiltinFunction
  ceil floor round concat strlen substr ucase lcase encode_for_uri : BuiltinFunction
  contains strstarts strends strbefore strafter replace regex : BuiltinFunction
  year month day hours minutes seconds timezone tz now uuid struuid : BuiltinFunction
  md5 sha1 sha256 sha384 sha512 coalesce if_fn strlang strdt same_term : BuiltinFunction
  is_iri is_uri is_blank is_literal is_numeric : BuiltinFunction

-- `RdfLiteral`; the IRI of a datatype by its resolved value.
pub record RdfLiteral : Type 0 where
  pub lexical_form : Bytes
  pub language_tag : Bytes
  pub datatype : Option Bytes

mutual
  pub data Expression (P : Type 0) : Type 0 where
    var_ref : Bytes → Expression P
    literal_expr : RdfLiteral → Expression P
    iri_ref : Bytes → Expression P
    exists : Bool → P → Expression P
    unary : UnaryOp → Expression P → Expression P
    binary : BinaryOp → Expression P → Expression P → Expression P
    in_list : Expression P → Expressions P → Bool → Expression P
    function_call : Bytes → Expressions P → Bool → Expression P
    built_in : BuiltinFunction → Expressions P → Expression P
    aggregate : AggregateKind → Bool → Bool → MaybeExpression P → Expression P

  -- `std::vector<std::unique_ptr<Expression>>`.
  pub data Expressions (P : Type 0) : Type 0 where
    none_left : Expressions P
    arg : Expression P → Expressions P → Expressions P

  -- The pointer `AggregateExpr::arg`, which may be null.
  pub data MaybeExpression (P : Type 0) : Type 0 where
    null_expr : MaybeExpression P
    just_expr : Expression P → MaybeExpression P

-- `collectVarRefs`: the names that the call appends to `out`.
unfoldable mutual
  pub collect_var_refs : {P : Type 0} → Expression P → List Bytes
  collect_var_refs (var_ref name) = name ∷ []
  collect_var_refs (literal_expr _) = []
  collect_var_refs (iri_ref _) = []
  collect_var_refs (exists _ _) = []
  collect_var_refs (unary _ e) = collect_var_refs e
  collect_var_refs (binary _ l r) = collect_var_refs l ++ collect_var_refs r
  collect_var_refs (in_list e list _) = collect_var_refs e ++ collect_all list
  collect_var_refs (function_call _ args _) = collect_all args
  collect_var_refs (built_in _ args) = collect_all args
  collect_var_refs (aggregate _ _ _ a) = collect_maybe a

  pub collect_all : {P : Type 0} → Expressions P → List Bytes
  collect_all none_left = []
  collect_all (arg e es) = collect_var_refs e ++ collect_all es

  pub collect_maybe : {P : Type 0} → MaybeExpression P → List Bytes
  collect_maybe null_expr = []
  collect_maybe (just_expr e) = collect_var_refs e

unfoldable mutual
  pub contains_exists : {P : Type 0} → Expression P → Bool
  contains_exists (exists _ _) = true
  contains_exists (var_ref _) = false
  contains_exists (literal_expr _) = false
  contains_exists (iri_ref _) = false
  contains_exists (unary _ e) = contains_exists e
  contains_exists (binary _ l r) = contains_exists l || contains_exists r
  contains_exists (in_list e list _) = contains_exists e || any_contains_exists list
  contains_exists (function_call _ args _) = any_contains_exists args
  contains_exists (built_in _ args) = any_contains_exists args
  contains_exists (aggregate _ _ _ a) = maybe_contains_exists a

  pub any_contains_exists : {P : Type 0} → Expressions P → Bool
  any_contains_exists none_left = false
  any_contains_exists (arg e es) = contains_exists e || any_contains_exists es

  pub maybe_contains_exists : {P : Type 0} → MaybeExpression P → Bool
  maybe_contains_exists null_expr = false
  maybe_contains_exists (just_expr e) = contains_exists e

unfoldable pub split_conjuncts : {P : Type 0} → Expression P → List (Expression P)
split_conjuncts (binary and l r) = split_conjuncts l ++ split_conjuncts r
split_conjuncts e = e ∷ []
