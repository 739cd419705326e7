-- ===== src/Parser/Yields/Values.antt =====
-- The rows of VALUES blocks.
use sql2rdf.Base.{
  ℕ, if◌then◌else◌, List, [], ◌∷◌, map, Option, length, ◌==◌, ==_iff, All, All-append, Bool-cases,
  inl, inr, ◌≡◌, refl,
}
use sql2rdf.Lexer.Token.{TokenType}
use sql2rdf.Ast.{Term, InlineData}
use sql2rdf.Parser.State.{Parser, Action, pure}
use sql2rdf.Parser.Patterns.{
  until_current, parse_inline_data_one_var, parse_row, parse_inline_data_full, parse_inline_data,
}
use sql2rdf.Parser.Yields.{
  Yields, Holds, pure-Yields, error-Yields, if-Yields, bind-Yields, then-Yields, seq-Yields,
  repeat-Yields,
}

-- Each row has as many values as there are variables.
abbrev pub IsRectangular : InlineData → Type 0
IsRectangular data_ = All (λ row. length row ≡ length data_.vars) data_.rows

until_current-Yields :
    {A : Type 0} {P : A → Type 0} (fuel : ℕ) (close : TokenType) {item : Action A}
    → Yields P item
    → Yields (All P) (until_current fuel close item)
unfolding until_current
until_current-Yields {P = P} fuel close hi = repeat-Yields fuel [] tt λ items h.
    if-Yields _ (pure-Yields _ h)
      (bind-Yields hi λ x q. pure-Yields _ (All-append P items (x ∷ []) h (q, tt)))

row_checked :
    (width : ℕ) (row : List (Option Term)) {message : Action (List (Option Term))}
    → Yields (λ r. length r ≡ width) message
    → Yields (λ r. length r ≡ width) (if length row == width then pure row else message)
row_checked width row hm = elim (Bool-cases (length row == width)) [
  | inl e ↦ rw e (pure-Yields _ ((==_iff (length row) width).0 e))
  | inr e ↦ rw e hm
]

parse_row-Yields : (fuel width : ℕ) → Yields (λ r. length r ≡ width) (parse_row fuel width)
unfolding parse_row
parse_row-Yields fuel width = then-Yields _ λ row. row_checked width row (error-Yields _)

single_rows :
    (values : List (Option Term)) → All (λ row. length row ≡ 1) (map (λ value. value ∷ []) values)
single_rows [] = tt
single_rows (value ∷ values) = (refl, single_rows values)

parse_inline_data-Yields : (fuel : ℕ) → Yields IsRectangular (parse_inline_data fuel)
unfolding parse_inline_data parse_inline_data_one_var parse_inline_data_full
parse_inline_data-Yields fuel =
    if-Yields _
      (then-Yields _ λ v.
        seq-Yields _ (then-Yields _ λ values. seq-Yields _ (pure-Yields _ (single_rows values))))
      (then-Yields _ λ vars. seq-Yields _ (
        bind-Yields (until_current-Yields fuel _ (parse_row-Yields fuel (length vars)))
          λ rows h. seq-Yields _ (pure-Yields _ h)))

-- A VALUES block that is read without an error has in each of its rows as many values as it has
-- variables, in both of its forms.
pub parse_inline_data-IsRectangular :
    (fuel : ℕ) (s : Parser) → Holds IsRectangular (parse_inline_data fuel s)
parse_inline_data-IsRectangular fuel s = (parse_inline_data-Yields fuel).ends s
