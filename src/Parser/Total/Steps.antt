-- ===== src/Parser/Total/Steps.antt =====
-- How the steps of the parser end: `advance` and what stands on it, and the loops.
use sql2rdf.Base.{
  ℕ, suc, ◌+◌, ◌≤◌, ◌<◌, Bool, true, false, length, if◌then◌else◌, ◌==◌, ◌≡◌, refl, arith,
}
use Prim.Native.String.{String}
use sql2rdf.Lexer.Cursor.{Cursor, Lexed}
use sql2rdf.Lexer.Token.{TokenType, Token}
use sql2rdf.Lexer.Next.{next}
use sql2rdf.Lexer.Total.{left_over, left_over_or_same}
use sql2rdf.Lexer.Progress.Next.{is_eof, NextGood, next-NextGood}
use sql2rdf.Ast.{Prologue}
use sql2rdf.Parser.State.{
  Parser, Action, get, current, if_match, put_prologue, received, advance, ordinal, matched, expect,
  expect_keyword,
}
use sql2rdf.Parser.Total.{
  Ends, Ends-mono, Runs, Eats, Takes, Live, Keeps, pure-Runs, error-Eats, if-Runs, if-Eats,
  check-Live, check_keyword-Live, unchanged-Takes, seq-Takes, seq-Takes_within,
}

pub get-Keeps : Keeps get
unfolding get
get-Keeps = record { ends = λ s. refl }

pub get-Runs : (n : ℕ) → Runs n get
unfolding get
get-Runs n = record { ends = λ s h. omega arith }

pub current-Keeps : Keeps current
unfolding current
current-Keeps = record { ends = λ s. refl }

pub put_prologue-Runs : {n : ℕ} (prologue : Prologue) → Runs n (put_prologue prologue)
unfolding put_prologue
put_prologue-Runs prologue = record { ends = λ s h. omega arith }

-- The bytes left of a token and the token together.
size-eof :
    (b : Bool) (m n : ℕ) → m ≤ n → ((b ≡ false) → suc m ≤ n) → m + (if b then 0 else 1) < suc n
size-eof true m n h g = omega arith
size-eof false m n h g = omega (arith, g refl)

pub received-Ends :
    (s : Parser) (x : Lexed (Token × Cursor))
    → NextGood s.lexer x
    → Ends (suc (length s.lexer.rest)) (received s x)
unfolding received
received-Ends s (Lexed.ok (token, d)) (p, far) =
    size-eof (is_eof token.type) (length d.rest) (length s.lexer.rest)
      (left_over_or_same s.lexer d p) (λ e. left_over s.lexer d (far e))
received-Ends s (Lexed.parse_error message line column near) g = tt
received-Ends s Lexed.out_of_range g = tt

pub advance-Takes : {n : ℕ} → Takes n advance
unfolding advance
advance-Takes = record {
  ends = λ s h live. rw live (
      Ends-mono (suc (length s.lexer.rest)) (length s.lexer.rest + 1) (received s (next s.lexer))
        (omega arith) (received-Ends s (next s.lexer) (next-NextGood s.lexer)));
}

module _ {ℓ} {A : Type ℓ} {n : ℕ} {p : Token → Bool} {x y : Action A} where
  pub match-Runs : Live p → Runs n x → Runs (suc n) y → Runs (suc n) (if_match p x y)
  unfolding if_match
  match-Runs l hx hy = if-Runs l (seq-Takes advance-Takes hx) hy

  pub match-Eats : Live p → Runs n x → Eats (suc n) y → Eats (suc n) (if_match p x y)
  unfolding if_match
  match-Eats l hx hy = if-Eats l (seq-Takes advance-Takes hx) hy

  pub match-Runs_within : Live p → Runs n x → Runs n y → Runs n (if_match p x y)
  unfolding if_match
  match-Runs_within l hx hy = if-Runs l (seq-Takes_within advance-Takes hx) hy

  pub match-Eats_within : Live p → Runs n x → Eats n y → Eats n (if_match p x y)
  unfolding if_match
  match-Eats_within l hx hy = if-Eats l (seq-Takes_within advance-Takes hx) hy

pub matched-Runs : {n : ℕ} {p : Token → Bool} → Live p → Runs n (matched p)
unfolding matched
matched-Runs l = match-Runs_within l (pure-Runs true) (pure-Runs false)

pub expect-Eats :
    {n : ℕ} (type : TokenType) (what : String)
    → (40 == ordinal type) ≡ false
    → Eats n (expect type what)
unfolding expect
expect-Eats type what h =
    if-Eats (check-Live type h)
      (unchanged-Takes current-Keeps λ t. seq-Takes_within advance-Takes (pure-Runs t))
      (error-Eats _)

pub expect_keyword-Eats : {n : ℕ} (kw : String) → Eats n (expect_keyword kw)
unfolding expect_keyword
expect_keyword-Eats kw = if-Eats (check_keyword-Live kw) advance-Takes (error-Eats _)
