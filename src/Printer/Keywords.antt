-- ===== src/Printer/Keywords.antt =====
-- The names of built-in functions, as they are printed and as the parser looks for them.
use Prim.Native.String.{String}
use sql2rdf.Base.{
  true, List, [], ◌∷◌, codes, All, equal_iff, Bool-cases, inl, inr, ◌⊎◌, ◌≡◌, refl, sym, ◌∙◌,
  &&_elim,
}
use sql2rdf.Expr.{BuiltinFunction}
use sql2rdf.Lexer.Token.{Token}
use sql2rdf.Lexer.Names.{upper}
use sql2rdf.Ast.{Expression}
use sql2rdf.Parser.State.{Parser, Action, check_keyword, if_current}
use sql2rdf.Parser.Calls.{Calls}
use sql2rdf.Parser.Builtins.{zero_arg_builtins, one_arg_builtins, two_arg_builtins}
use sql2rdf.Parser.Expressions.{among}
use sql2rdf.Printer.{builtin_name}

-- The printer's name is the keyword, but for the case of its letters.
abbrev IsPrinted : String × BuiltinFunction → Type 0
IsPrinted (kw, fn) = upper (builtin_name fn) ≡ codes kw

zero_arg-IsPrinted : All IsPrinted zero_arg_builtins
unfolding upper builtin_name
zero_arg-IsPrinted = (refl, (refl, (refl, (refl, tt))))

one_arg-IsPrinted : All IsPrinted one_arg_builtins
unfolding upper builtin_name
one_arg-IsPrinted = (
  refl,
  (
    refl,
    (
      refl,
      (
        refl,
        (
          refl,
          (
            refl,
            (
              refl,
              (
                refl,
                (
                  refl,
                  (
                    refl,
                    (
                      refl,
                      (
                        refl,
                        (
                          refl,
                          (
                            refl,
                            (
                              refl,
                              (
                                refl,
                                (
                                  refl,
                                  (
                                    refl,
                                    (
                                      refl,
                                      (
                                        refl,
                                        (
                                          refl,
                                          (
                                            refl,
                                            (
                                              refl,
                                              (
                                                refl,
                                                (
                                                  refl,
                                                  (
                                                    refl,
                                                    (refl, (refl, (refl, (refl, (refl, tt))))),
                                                  ),
                                                ),
                                              ),
                                            ),
                                          ),
                                        ),
                                      ),
                                    ),
                                  ),
                                ),
                              ),
                            ),
                          ),
                        ),
                      ),
                    ),
                  ),
                ),
              ),
            ),
          ),
        ),
      ),
    ),
  ),
)

two_arg-IsPrinted : All IsPrinted two_arg_builtins
unfolding upper builtin_name
two_arg-IsPrinted = (refl, (refl, (refl, (refl, (refl, (refl, (refl, (refl, (refl, tt)))))))))

check_keyword→eq : (kw : String) (t : Token) → check_keyword kw t ≡ true → t.keyword ≡ codes kw
unfolding check_keyword
check_keyword→eq kw t h = (equal_iff t.keyword (codes kw)).0 (&&_elim _ _ h).1

-- The search came to its end, or to a function whose printed name is the keyword at hand.
abbrev pub Dispatches :
    Calls
    → List (String × BuiltinFunction)
    → (BuiltinFunction → Action Expression)
    → Action Expression
    → Parser
    → Type 0
Dispatches calls table call otherwise s =
    (among calls table call otherwise s ≡ otherwise s)
    ⊎ ((fn : BuiltinFunction) × ((upper (builtin_name fn) ≡ s.current.keyword)
          × (among calls table call otherwise s ≡ call fn s)))

module _ (calls : Calls) (call : BuiltinFunction → Action Expression)
    (otherwise : Action Expression) (s : Parser) where
  among-Dispatches :
      (table : List (String × BuiltinFunction))
      → All IsPrinted table
      → Dispatches calls table call otherwise s
  unfolding among if_current
  among-Dispatches [] h = inl refl
  among-Dispatches ((kw, fn) ∷ table) h = elim (Bool-cases (check_keyword kw s.current)) [
    | inl e ↦ rw e (inr (fn, (h.0 ∙ sym (check_keyword→eq kw s.current e), refl)))
    | inr e ↦ rw e (among-Dispatches table h.1)
  ]

  -- Where one of the parser's tables of built-in functions leads to a function, the name that is
  -- printed for that function is the keyword at hand, but for the case of its letters.
  pub builtin_tables-Dispatches :
      (table : List (String × BuiltinFunction))
      → (table ≡ zero_arg_builtins) ⊎ ((table ≡ one_arg_builtins) ⊎ (table ≡ two_arg_builtins))
      → Dispatches calls table call otherwise s
  builtin_tables-Dispatches table (inl e) = rw e (among-Dispatches _ zero_arg-IsPrinted)
  builtin_tables-Dispatches table (inr (inl e)) = rw e (among-Dispatches _ one_arg-IsPrinted)
  builtin_tables-Dispatches table (inr (inr e)) = rw e (among-Dispatches _ two_arg-IsPrinted)
