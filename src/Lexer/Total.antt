-- ===== src/Lexer/Total.antt =====
-- All tokens of a source, as a client that calls `next()` up to Eof meets them.
use sql2rdf.Base.{
  ℕ, zero, suc, ◌+◌, ◌≤◌, List, [], ◌∷◌, length, Bytes, Option, none, some, if◌then◌else◌,
  Bool-cases, inl, inr, ◌≡◌, refl, sym, ap, ◌∙◌, arith,
}
use sql2rdf.Lexer.Cursor.{Cursor, Lexed, ok, parse_error, out_of_range}
use sql2rdf.Lexer.Token.{Token}
use sql2rdf.Lexer.Next.{next}
use sql2rdf.Lexer.Progress.{Past, rewind}
use sql2rdf.Lexer.Progress.Next.{is_eof, NextGood, next-NextGood}

abbrev prepend : Token → Lexed (List Token) → Lexed (List Token)
prepend token (ok tokens) = ok (token ∷ tokens)
prepend token (parse_error message line column near) = parse_error message line column near
prepend token out_of_range = out_of_range

-- `none` stands for a client that is still calling when the fuel has run out.
abbrev pub continue_with :
    (Cursor → Option (Lexed (List Token))) → Lexed (Token × Cursor) → Option (Lexed (List Token))
continue_with rest (ok (token, d)) =
    let tail = rest d in
    if is_eof token.type
    then some (ok (token ∷ []))
    else elim tail [ none ↦ none | some ts ↦ some (prepend token ts) ]
continue_with rest (parse_error message line column near) =
    some (parse_error message line column near)
continue_with rest out_of_range = some out_of_range

unfoldable pub all_tokens : ℕ → Cursor → Option (Lexed (List Token))
unfolding next
all_tokens zero c = none
all_tokens (suc fuel) c = continue_with (all_tokens fuel) (next c)

length-rewind : (before rest : Bytes) → length (rewind before rest) ≡ length before + length rest
length-rewind [] rest = omega arith
length-rewind (b ∷ before) rest = length-rewind before (b ∷ rest) ∙ omega arith

pub left_over : (c d : Cursor) → Past 1 c d → suc (length d.rest) ≤ length c.rest
left_over c d p =
    let e =
      sym (length-rewind d.before d.rest) ∙ ap length p.same ∙ length-rewind c.before c.rest in
    omega (arith, p.far)

pub left_over_or_same : (c d : Cursor) → Past 0 c d → length d.rest ≤ length c.rest
left_over_or_same c d p =
    let e =
      sym (length-rewind d.before d.rest) ∙ ap length p.same ∙ length-rewind c.before c.rest in
    omega (arith, p.far)

continue-total :
    (fuel : ℕ) (c : Cursor) (x : Lexed (Token × Cursor))
    → NextGood c x
    → ((d : Cursor) → Past 1 c d → (r : Lexed (List Token)) × (all_tokens fuel d ≡ some r))
    → (r : Lexed (List Token)) × (continue_with (all_tokens fuel) x ≡ some r)
continue-total fuel c (ok (token, d)) g more = elim (Bool-cases (is_eof token.type)) [
  | inl e ↦ (ok (token ∷ []), rw e refl)
  | inr e ↦ let (r, h) = more d (g.1 e) in (prepend token r, rw (e, h) refl)
]
continue-total fuel c (parse_error message line column near) g more =
    (parse_error message line column near, refl)
continue-total fuel c out_of_range g more = (out_of_range, refl)

-- A client that calls `next()` up to Eof or an error comes to an end: one call more than there are
-- bytes left is enough.
pub all_tokens-total :
    (fuel : ℕ) (c : Cursor)
    → suc (length c.rest) ≤ fuel
    → (r : Lexed (List Token)) × (all_tokens fuel c ≡ some r)
unfolding all_tokens
all_tokens-total zero c h = absurd (omega arith)
all_tokens-total (suc fuel) c h =
    continue-total fuel c (next c) (next-NextGood c)
      (λ d p. all_tokens-total fuel d (omega (arith, left_over c d p)))
