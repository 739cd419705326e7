-- ===== src/Lexer/Strings/Cut.antt =====
-- String literals that the end of the source cuts off behind a backslash.
use sql2rdf.Base.{
  ℕ, ◌+◌, Bool, true, false, not, ◌||◌, [], ◌∷◌, ◌++◌, ◌==◌, Bytes, codes, All, ◌≡◌, ◌≢◌, refl, ap,
  ◌∙◌, arith,
}
use sql2rdf.Lexer.Cursor.{
  Cursor, out_of_range, byte_at, peek, step, move, advance, advance_by, error,
}
use sql2rdf.Lexer.Literals.{unescape, string_loop, lex_string}
use sql2rdf.Lexer.Strings.{is_quote, string_loop_plain, one_step}

-- A byte that stands for itself in a short string.
abbrev pub is_plain : ℕ → ℕ → Bool
is_plain quote x = not (x == 0 || (x == quote || (x == b'\\' || (x == b'\n' || x == b'\r'))))

error_beyond :
    (message : Bytes) (d : Cursor)
    → d.beyond ≢ 0
    → error {A = Bytes × Cursor} message d ≡ out_of_range
unfolding error
error_beyond message d n = let z : (d.beyond == 0) ≡ false = ground arith in rw z refl

last_two : (d : Cursor) (x : ℕ) → d.rest ≡ x ∷ [] → (advance_by 2 d).beyond ≡ d.beyond + 1
unfolding advance_by advance move
last_two d x at = rw at refl

-- The escape that the end of the source cuts off.
string_loop_cut :
    (quote : ℕ) (d : Cursor) (value : Bytes)
    → is_quote quote ≡ true
    → d.rest ≡ b'\\' ∷ []
    → string_loop quote false (b'\\' ∷ []) 0 d value ≡ out_of_range
unfolding string_loop unescape
string_loop_cut quote d value q at =
    let z : (b'\\' == quote) ≡ false = ground arith in
    let late : (advance_by 2 d).beyond ≢ 0 = λ e. (let h = last_two d b'\\' at in omega arith) in
    rw z (error_beyond (codes "invalid escape sequence in string literal") (advance_by 2 d) late)

string_loop_backslash :
    (quote : ℕ) (t : Bytes) (d : Cursor) (value : Bytes)
    → is_quote quote ≡ true
    → All (λ x. is_plain quote x ≡ true) t
    → d.rest ≡ t ++ b'\\' ∷ []
    → string_loop quote false (t ++ b'\\' ∷ []) 0 d value ≡ out_of_range
string_loop_backslash quote [] d value q p at = string_loop_cut quote d value q at
string_loop_backslash quote (x ∷ t) d value q p at =
    let h = p.0 in
    let s = t ++ b'\\' ∷ [] in
    string_loop_plain quote q x s d value (ground arith) (ground arith) (ground arith)
      (ground arith) (ground arith)
    ∙ string_loop_backslash quote t (step x s d) (value ++ x ∷ []) q p.1 refl

plain_first :
    (quote : ℕ) (t : Bytes)
    → is_quote quote ≡ true
    → All (λ x. is_plain quote x ≡ true) t
    → (byte_at (t ++ b'\\' ∷ []) 0 == quote) ≡ false
plain_first quote [] q p = ground arith
plain_first quote (x ∷ t) q p = let h = p.0 in ground arith

-- At a quote with bytes behind it that stand for themselves, and a backslash as the last byte of the
-- source, the tokenizer throws a `std::out_of_range`, which is not a `ParseError`.
pub lex_string-out_of_range :
    (quote : ℕ) (t : Bytes) (c : Cursor)
    → is_quote quote ≡ true
    → All (λ x. is_plain quote x ≡ true) t
    → c.rest ≡ quote ∷ (t ++ b'\\' ∷ [])
    → lex_string c ≡ out_of_range
unfolding lex_string
lex_string-out_of_range quote t c q p at =
    let first : peek c 0 ≡ quote = ap (λ r. byte_at r 0) at in
    let apart : (peek c 1 == peek c 0) ≡ false = rw at (plain_first quote t q p) in
    let inside = one_step c quote (t ++ b'\\' ∷ []) at in
    rw (apart, first, inside, string_loop_backslash quote t (advance_by 1 c) [] q p inside) refl
