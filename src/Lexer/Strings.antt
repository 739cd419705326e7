-- ===== src/Lexer/Strings.antt =====
-- One round of the loop over a short string.
pub mod RoundTrip
pub mod Cut
use sql2rdf.Base.{
  ℕ, ◌+◌, Bool, true, false, not, ◌&&◌, ◌||◌, [], ◌∷◌, ◌++◌, if◌then◌else◌, ◌==◌, ==_iff, Bytes,
  codes, All, some, append_assoc, append-nil, Bool-cases, inl, inr, ◌≡◌, ◌≢◌, refl, sym, ap, ◌∙◌,
  arith,
}
use sql2rdf.Dialect.Quote.{begins_with}
use sql2rdf.Lexer.Cursor.{
  Cursor, ok, out_of_range, byte_at, peek, step, move, advance, advance_by, error,
}
use sql2rdf.Lexer.Token.{TokenType, make_token}
use sql2rdf.Lexer.Literals.{unescape, string_loop, lex_string}

abbrev pub is_quote : ℕ → Bool
is_quote c = c == b'"' || c == b'\''

module _ (quote : ℕ) (q : is_quote quote ≡ true) where
  pub string_loop_plain :
      (x : ℕ) (s : Bytes) (d : Cursor) (value : Bytes)
      → x ≢ 0
      → (x == quote) ≡ false
      → (x == b'\\') ≡ false
      → (x == b'\n') ≡ false
      → (x == b'\r') ≡ false
      → string_loop quote false (x ∷ s) 0 d value
        ≡ string_loop quote false s 0 (step x s d) (value ++ x ∷ [])
  unfolding string_loop
  string_loop_plain x s d value n a b e f =
      let z : (x == 0) ≡ false = ground arith in rw (z, a, b, e, f) refl

  pub string_loop_escape :
      (e u : ℕ) (s : Bytes) (d : Cursor) (value : Bytes)
      → unescape e ≡ some u
      → string_loop quote false (b'\\' ∷ e ∷ s) 0 d value
        ≡ string_loop quote false s 0 (advance_by 2 d) (value ++ u ∷ [])
  unfolding string_loop
  string_loop_escape e u s d value h =
      let z : (b'\\' == quote) ≡ false = ground arith in rw (z, h) refl

  pub string_loop_end :
      (s : Bytes) (d : Cursor) (value : Bytes)
      → string_loop quote false (quote ∷ s) 0 d value ≡ ok (value, advance_by 1 d)
  unfolding string_loop
  string_loop_end s d value =
      let z : (quote == 0) ≡ false = ground arith in
      let y : (quote == quote) ≡ true = ground arith in rw (z, y) refl

pub advance-rest : (d : Cursor) (x : ℕ) (s : Bytes) → d.rest ≡ x ∷ s → (advance d).rest ≡ s
unfolding advance move
advance-rest d x s h = ap (λ r. (move r d).rest) h

pub advance_by-rest :
    (d : Cursor) (x y : ℕ) (s : Bytes) → d.rest ≡ x ∷ y ∷ s → (advance_by 2 d).rest ≡ s
unfolding advance_by
advance_by-rest d x y s h = advance-rest (advance d) y s (advance-rest d x (y ∷ s) h)

pub one_step : (d : Cursor) (x : ℕ) (s : Bytes) → d.rest ≡ x ∷ s → (advance_by 1 d).rest ≡ s
unfolding advance_by
one_step d x s h = advance-rest d x s h
