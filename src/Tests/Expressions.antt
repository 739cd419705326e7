-- ===== src/Tests/Expressions.antt =====
-- Expression traversals and term inference: ExprAnalysis.cpp, TermInference.cpp.
use sql2rdf.Base.{true, false, [], ◌∷◌, Bytes, codes, equal, all_of, All, ◌≡◌, refl, inl}
use sql2rdf.Term
use sql2rdf.Term.{TermInfo, default, meet, is_fully_determined}
use sql2rdf.Term.Xsd
use sql2rdf.Term.Xsd.{rdf_lang_string}
use sql2rdf.Term.Lattice.{IsWellFormed}
use sql2rdf.Expr
use sql2rdf.Expr.{
  Expression, var_ref, literal_expr, exists, unary, binary, built_in, arg, none_left, UnaryOp,
  BinaryOp, BuiltinFunction, collect_var_refs, contains_exists, split_conjuncts,
}
use sql2rdf.Expr.Conjuncts.{
  Truth, holds, error, truth, keeps, IsConjunct, keeps-split_conjuncts, split_conjuncts-IsConjunct,
}
use sql2rdf.Expr.Infer.{infer, infer_all, literal_of}
use sql2rdf.Expr.Infer.Sound.{ScopeIsWellFormed, infer-IsWellFormed, infer-coalesce_determined}

-- `?a && (EXISTS {…} && ?b || ?a)`, without its patterns.
abbrev filter_expr : Expression (Unit {0})
filter_expr = binary BinaryOp.and (var_ref (codes "a")) (
    binary BinaryOp.and (exists false tt)
      (binary BinaryOp.or (var_ref (codes "b")) (var_ref (codes "a"))))

abbrev leaf : Expression (Unit {0}) → Truth
leaf (exists _ _) = error
leaf _ = holds

keeps-split_conjuncts_example :
    all_of (λ c. keeps (truth leaf c)) (split_conjuncts filter_expr)
    ≡ keeps (truth leaf filter_expr)
keeps-split_conjuncts_example = keeps-split_conjuncts leaf filter_expr

vars_of_filter : collect_var_refs filter_expr ≡ codes "a" ∷ codes "b" ∷ codes "a" ∷ []
unfolding collect_var_refs
vars_of_filter = refl

split_conjuncts-IsConjunct_example : All IsConjunct (split_conjuncts filter_expr)
split_conjuncts-IsConjunct_example = split_conjuncts-IsConjunct filter_expr

abbrev integers : Bytes → TermInfo
integers name = record default { kind = Term.literal; datatype_iri = Xsd.integer }

integers-IsWellFormed : ScopeIsWellFormed integers
integers-IsWellFormed name = record {
  literal_only = inl refl;
  tagged = inl refl;
  sticky = inl refl;
}

infer-IsWellFormed_example : IsWellFormed (infer integers filter_expr)
infer-IsWellFormed_example = infer-IsWellFormed integers filter_expr integers-IsWellFormed

abbrev coalesce_args : Expr.Expressions (Unit {0})
coalesce_args = arg (var_ref (codes "a")) (arg (var_ref (codes "b")) none_left)

coalesce_integer :
    is_fully_determined (infer integers (built_in BuiltinFunction.coalesce coalesce_args)) ≡ true
unfolding infer is_fully_determined meet equal Xsd.integer rdf_lang_string Expr.Infer.infer_built_in
coalesce_integer = refl

infer-coalesce_determined_example :
    All
      (λ i. i ≡ infer integers (built_in BuiltinFunction.coalesce coalesce_args))
      (infer_all integers coalesce_args)
infer-coalesce_determined_example =
    infer-coalesce_determined integers coalesce_args integers-IsWellFormed coalesce_integer
