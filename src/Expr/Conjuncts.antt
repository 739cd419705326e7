-- ===== src/Expr/Conjuncts.antt =====
-- Splitting a filter at its top-level conjunctions.
use sql2rdf.Base.{
  Bool, true, false, ◌||◌, ◌&&◌, List, [], ◌∷◌, ◌++◌, Bytes, any_of, all_of, All, All-append, ◌≡◌,
  refl, sym, ◌∙◌, arith, append_assoc, append-nil,
}
use sql2rdf.Expr.{Expression, binary, and, collect_var_refs, contains_exists, split_conjuncts}

-- The effective value of a filter in SPARQL: an evaluation may also end in an error.
pub data Truth : Type 0 where
  holds fails error : Truth

-- The table of `&&` in SPARQL 17.2.
abbrev pub and_truth : Truth → Truth → Truth
and_truth holds t = t
and_truth fails t = fails
and_truth error fails = fails
and_truth error _ = error

-- A filter keeps a solution only if it holds.
abbrev pub keeps : Truth → Bool
keeps holds = true
keeps _ = false

-- The value of an expression whose operands of `&&` evaluate by `leaf`.
unfoldable pub truth : {P : Type 0} → (Expression P → Truth) → Expression P → Truth
truth leaf (binary and l r) = and_truth (truth leaf l) (truth leaf r)
truth leaf e = leaf e

abbrev pub all_vars : {P : Type 0} → List (Expression P) → List Bytes
all_vars [] = []
all_vars (e ∷ es) = collect_var_refs e ++ all_vars es

-- No conjunction at the top.
abbrev pub IsConjunct : {P : Type 0} → Expression P → Type 0
IsConjunct (binary and l r) = ⊥
IsConjunct _ = Unit

module _ {A : Type 0} where
  any_of-append :
      (p : A → Bool) (xs ys : List A) → any_of p (xs ++ ys) ≡ (any_of p xs || any_of p ys)
  unfolding any_of
  any_of-append p [] ys = refl
  any_of-append p (x ∷ xs) ys = ground (arith, any_of-append p xs ys)

  all_of-append :
      (p : A → Bool) (xs ys : List A) → all_of p (xs ++ ys) ≡ (all_of p xs && all_of p ys)
  unfolding all_of
  all_of-append p [] ys = refl
  all_of-append p (x ∷ xs) ys = ground (arith, all_of-append p xs ys)

keeps-and_truth : (s t : Truth) → keeps (and_truth s t) ≡ (keeps s && keeps t)
keeps-and_truth s t = ground arith

||_false : (b : Bool) → (b || false) ≡ b
||_false b = ground arith

&&_true : (b : Bool) → (b && true) ≡ b
&&_true b = ground arith

module _ {P : Type 0} where
  all_vars-append : (xs ys : List (Expression P)) → all_vars (xs ++ ys) ≡ all_vars xs ++ all_vars ys
  all_vars-append [] ys = refl
  all_vars-append (x ∷ xs) ys =
      rw (all_vars-append xs ys)
        (sym (append_assoc (collect_var_refs x) (all_vars xs) (all_vars ys)))

  -- A solution passes a filter exactly if it passes every conjunct on its own, errors included.
  pub keeps-split_conjuncts :
      (leaf : Expression P → Truth) (e : Expression P)
      → all_of (λ c. keeps (truth leaf c)) (split_conjuncts e) ≡ keeps (truth leaf e)
  unfolding split_conjuncts truth all_of
  keeps-split_conjuncts leaf (binary and l r) =
      all_of-append (λ c. keeps (truth leaf c)) (split_conjuncts l) (split_conjuncts r)
      ∙ rw (keeps-split_conjuncts leaf l, keeps-split_conjuncts leaf r)
          (sym (keeps-and_truth (truth leaf l) (truth leaf r)))
  keeps-split_conjuncts leaf e = &&_true (keeps (leaf e))

  -- The conjuncts together read the variables that the expression reads, in the same order.
  pub collect_var_refs-split_conjuncts :
      (e : Expression P) → all_vars (split_conjuncts e) ≡ collect_var_refs e
  unfolding split_conjuncts collect_var_refs
  collect_var_refs-split_conjuncts (binary and l r) =
      all_vars-append (split_conjuncts l) (split_conjuncts r)
      ∙ rw (collect_var_refs-split_conjuncts l, collect_var_refs-split_conjuncts r)
  collect_var_refs-split_conjuncts e = append-nil (collect_var_refs e)

  -- An expression contains EXISTS exactly if one of its conjuncts does.
  pub contains_exists-split_conjuncts :
      (e : Expression P) → any_of contains_exists (split_conjuncts e) ≡ contains_exists e
  unfolding split_conjuncts contains_exists any_of
  contains_exists-split_conjuncts (binary and l r) =
      any_of-append contains_exists (split_conjuncts l) (split_conjuncts r)
      ∙ rw (contains_exists-split_conjuncts l, contains_exists-split_conjuncts r)
  contains_exists-split_conjuncts e = ||_false (contains_exists e)

  -- No conjunct is itself a conjunction.
  pub split_conjuncts-IsConjunct : (e : Expression P) → All IsConjunct (split_conjuncts e)
  unfolding split_conjuncts
  split_conjuncts-IsConjunct (binary and l r) =
      All-append IsConjunct (split_conjuncts l) (split_conjuncts r) (split_conjuncts-IsConjunct l)
        (split_conjuncts-IsConjunct r)
  split_conjuncts-IsConjunct _ = (tt, tt)
