-- ===== src/Lexer/Cursor.antt =====
-- The state of the tokenizer, include/sparql-parser/Lexer.h, and its steps `peek`, `advance`,
-- `match`, `error` (src/sparql-parser/Lexer.cpp). The source is held in two halves: `before`, which
-- ends at `pos_` and is reversed, and `rest`. `beyond` counts how far `pos_` has run past the end.
use sql2rdf.Base.{ℕ, zero, suc, ◌+◌, ◌-◌, Bool, [], ◌∷◌, if◌then◌else◌, ◌==◌, take, Bytes}

pub record Cursor : Type 0 where
  pub before : Bytes
  pub rest : Bytes
  pub beyond : ℕ
  pub line : ℕ
  pub column : ℕ

-- `Lexer(source)`.
abbrev pub start : Bytes → Cursor
start source = record { before = []; rest = source; beyond = 0; line = 1; column = 1 }

-- A `ParseError`, or the `std::out_of_range` that `substr` throws at a position behind the end.
pub data Lexed {ℓ} (A : Type ℓ) : Type ℓ where
  ok : A → Lexed A
  parse_error : (message : Bytes) (line column : ℕ) (near : Bytes) → Lexed A
  out_of_range : Lexed A

infixl 5 ◌>>=◌
abbrev pub ◌>>=◌ {ℓ κ} : {A : Type ℓ} {B : Type κ} → Lexed A → (A → Lexed B) → Lexed B
ok a >>= f = f a
parse_error message line column near >>= f = parse_error message line column near
out_of_range >>= f = out_of_range

-- `source_[idx]`, and NUL behind the end.
abbrev pub byte_at : Bytes → ℕ → ℕ
byte_at [] n = 0
byte_at (c ∷ s) zero = c
byte_at (c ∷ s) (suc n) = byte_at s n

abbrev pub peek : Cursor → ℕ → ℕ
peek cur offset = byte_at cur.rest offset

-- `advance()` over a byte of the source, which the rest begins with.
abbrev pub step : ℕ → Bytes → Cursor → Cursor
step c s cur = record cur {
  before = c ∷ cur.before;
  rest = s;
  line = if c == b'\n' then cur.line + 1 else cur.line;
  column = if c == b'\n' then 1 else cur.column + 1;
}

unfoldable pub move : Bytes → Cursor → Cursor
move [] cur = record cur { beyond = cur.beyond + 1; column = cur.column + 1 }
move (c ∷ s) cur = step c s cur

-- The cursor behind `advance()`.
unfoldable pub advance : Cursor → Cursor
unfolding move
advance cur = move cur.rest cur

unfoldable pub advance_by : ℕ → Cursor → Cursor
unfolding advance
advance_by zero cur = cur
advance_by (suc n) cur = advance_by n (advance cur)

-- `--pos_; --column_`, at a position that is not the first.
unfoldable pub back : Bytes → Cursor → Cursor
back [] cur = cur
back (c ∷ before) cur = record cur { before = before; rest = c ∷ cur.rest; column = cur.column - 1 }

unfoldable pub step_back : Cursor → Cursor
unfolding back
step_back cur = back cur.before cur

unfoldable pub error {ℓ} : {A : Type ℓ} → Bytes → Cursor → Lexed A
error message cur =
    if cur.beyond == 0
    then parse_error message cur.line cur.column (take 16 cur.rest)
    else out_of_range

-- The loop `while (p) text.push_back(advance())`, where `p` looks at what is left.
unfoldable pub consume_loop : (Bytes → Bool) → Bytes → Cursor → Bytes × Cursor
consume_loop p [] cur = ([], cur)
consume_loop p (c ∷ s) cur =
    let (text, end) = consume_loop p s (step c s cur) in
    if p (c ∷ s) then (c ∷ text, end) else ([], cur)

unfoldable pub consume : (Bytes → Bool) → Cursor → Bytes × Cursor
unfolding consume_loop
consume p cur = consume_loop p cur.rest cur
