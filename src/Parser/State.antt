-- ===== src/Parser/State.antt =====
-- The state of the parser, include/sparql-parser/Parser.h, and its token-stream plumbing
-- (src/sparql-parser/Parser.cpp): `advance`, `check`, `matchType`, `expectType`, `error`.
-- `lexer_` is the cursor of the tokenizer. An unbounded loop is a bounded `repeat`.
use Prim.Native.String.{String}
use sql2rdf.Base.{
  ℕ, zero, suc, Bool, true, false, ◌&&◌, List, [], ◌∷◌, ◌++◌, if◌then◌else◌, ◌==◌, equal, Bytes,
  codes,
}
use sql2rdf.Lexer.Cursor.{Cursor, Lexed}
use sql2rdf.Lexer.Token.{TokenType, Token}
use sql2rdf.Lexer.Next.{next}
use sql2rdf.Ast.{Prologue}

pub record Parser : Type 0 where
  pub lexer : Cursor
  pub current : Token
  pub prologue : Prologue
  pub blank_node_counter : ℕ

-- A result of the parser; `out_of_fuel` stands for a loop or a call that is still going on.
pub data Outcome {ℓ} (A : Type ℓ) : Type ℓ where
  ok : A → Outcome A
  parse_error : (message : Bytes) (line column : ℕ) (near : Bytes) → Outcome A
  out_of_range out_of_fuel : Outcome A

abbrev pub Action {ℓ} : Type ℓ → Type ℓ
Action A = Parser → Outcome (A × Parser)

unfoldable pub pure {ℓ} : {A : Type ℓ} → A → Action A
pure a s = ok (a, s)

abbrev pub then_run {ℓ κ} :
    {A : Type ℓ} {B : Type κ} → Outcome (A × Parser) → (A → Action B) → Outcome (B × Parser)
then_run (ok (a, s)) f = f a s
then_run (parse_error message line column near) f = parse_error message line column near
then_run out_of_range f = out_of_range
then_run out_of_fuel f = out_of_fuel

infixl 1 ◌>>=◌ ◌>>◌
unfoldable pub ◌>>=◌ {ℓ κ} : {A : Type ℓ} {B : Type κ} → Action A → (A → Action B) → Action B
m >>= f = λ s. then_run (m s) f

unfoldable pub ◌>>◌ {ℓ κ} : {A : Type ℓ} {B : Type κ} → Action A → Action B → Action B
unfolding ◌>>=◌
m >> n = m >>= λ _. n

unfoldable pub get : Action Parser
get s = ok (s, s)

unfoldable pub put_prologue : Prologue → Action (Unit {0})
put_prologue prologue s = ok (tt, record s { prologue = prologue })

unfoldable pub run_out {ℓ} : {A : Type ℓ} → Action A
run_out s = out_of_fuel

unfoldable pub error {ℓ} : {A : Type ℓ} → Bytes → Action A
error message s =
    let t = s.current in
    parse_error message t.line t.column (if equal t.text [] then t.keyword else t.text)

unfoldable pub received : Parser → Lexed (Token × Cursor) → Outcome (Unit {0} × Parser)
received s (Lexed.ok (token, lexer)) = ok (tt, record s { lexer = lexer; current = token })
received s (Lexed.parse_error message line column near) = parse_error message line column near
received s Lexed.out_of_range = out_of_range

unfoldable pub advance : Action (Unit {0})
unfolding received
advance s = received s (next s.lexer)

-- The place of a token type in its enumeration.
unfoldable pub ordinal : TokenType → ℕ
ordinal TokenType.iriref = 0
ordinal TokenType.pname_ns = 1
ordinal TokenType.pname_ln = 2
ordinal TokenType.blank_node_label = 3
ordinal TokenType.var1 = 4
ordinal TokenType.var2 = 5
ordinal TokenType.integer = 6
ordinal TokenType.decimal = 7
ordinal TokenType.double = 8
ordinal TokenType.string_literal = 9
ordinal TokenType.lang_tag = 10
ordinal TokenType.l_paren = 11
ordinal TokenType.r_paren = 12
ordinal TokenType.l_brace = 13
ordinal TokenType.r_brace = 14
ordinal TokenType.l_bracket = 15
ordinal TokenType.r_bracket = 16
ordinal TokenType.dot = 17
ordinal TokenType.comma = 18
ordinal TokenType.semicolon = 19
ordinal TokenType.pipe = 20
ordinal TokenType.slash = 21
ordinal TokenType.caret = 22
ordinal TokenType.question = 23
ordinal TokenType.star = 24
ordinal TokenType.plus = 25
ordinal TokenType.minus = 26
ordinal TokenType.equals = 27
ordinal TokenType.not_equals = 28
ordinal TokenType.less = 29
ordinal TokenType.greater = 30
ordinal TokenType.less_equals = 31
ordinal TokenType.greater_equals = 32
ordinal TokenType.bang = 33
ordinal TokenType.and_and = 34
ordinal TokenType.or_or = 35
ordinal TokenType.nil = 36
ordinal TokenType.anon = 37
ordinal TokenType.a = 38
ordinal TokenType.keyword = 39
ordinal TokenType.eof = 40

-- `check(type)` and `checkKeyword(kw)`, of the current token.
unfoldable pub check : TokenType → Token → Bool
unfolding ordinal
check type t = ordinal t.type == ordinal type

unfoldable pub check_keyword : String → Token → Bool
unfolding check
check_keyword kw t = check TokenType.keyword t && equal t.keyword (codes kw)

-- `if (check(…)) …; else …`.
unfoldable pub if_current {ℓ} : {A : Type ℓ} → (Token → Bool) → Action A → Action A → Action A
if_current p x y s = if p s.current then x s else y s

-- `if (matchType(…)) …; else …`, and of a keyword.
unfoldable pub if_match {ℓ} : {A : Type ℓ} → (Token → Bool) → Action A → Action A → Action A
unfolding if_current ◌>>◌ advance
if_match p x y = if_current p (advance >> x) y

-- `matchType(type)` and `matchKeyword(kw)` for their effect and their result.
unfoldable pub matched : (Token → Bool) → Action Bool
unfolding if_match
matched p = if_match p (pure true) (pure false)

unfoldable pub current : Action Token
current s = ok (s.current, s)

-- `expectType(type, what)` and `expectKeyword(kw)`.
unfoldable pub expect : TokenType → String → Action Token
expect type what =
    if_current (check type) (do t ← current; advance; pure t)
      (error (codes "expected " ++ codes what))

unfoldable pub expect_keyword : String → Action (Unit {0})
expect_keyword kw =
    if_current (check_keyword kw) advance
      (error (codes "expected keyword '" ++ (codes kw ++ codes "'")))

-- What a round of a loop decides.
pub data Turn {ℓ} (A : Type ℓ) : Type ℓ where
  again done : A → Turn A

unfoldable pub turned {ℓ} : {A : Type ℓ} → (A → Action A) → Turn A → Action A
turned loop (again a) = loop a
turned loop (done a) = pure a

unfoldable pub repeat {ℓ} : {A : Type ℓ} → ℕ → (A → Action (Turn A)) → A → Action A
repeat zero body a = run_out
repeat (suc fuel) body a = body a >>= turned (repeat fuel body)

-- `do items.push_back(item); while (condition)`.
unfoldable pub at_least_one {ℓ} : {A : Type ℓ} → ℕ → (Token → Bool) → Action A → Action (List A)
at_least_one fuel condition item =
    repeat fuel
      (λ items. do
        x ← item
        if_current condition (pure (again (items ++ (x ∷ [])))) (pure (done (items ++ (x ∷ [])))))
      []

-- `while (condition) items.push_back(item);`.
unfoldable pub while_current {ℓ} :
    {A : Type ℓ} → ℕ → (Token → Bool) → Action A → List A → Action (List A)
while_current fuel condition item = repeat fuel λ items.
    if_current condition (do x ← item; pure (again (items ++ (x ∷ [])))) (pure (done items))

-- `while (matchType(…)) items.push_back(item);`.
unfoldable pub while_match {ℓ} :
    {A : Type ℓ} → ℕ → (Token → Bool) → Action A → List A → Action (List A)
while_match fuel separator item =
    repeat fuel λ items.
      if_match separator (do x ← item; pure (again (items ++ (x ∷ [])))) (pure (done items))
