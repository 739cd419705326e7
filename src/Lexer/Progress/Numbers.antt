-- ===== src/Lexer/Progress/Numbers.antt =====
-- Progress of numbers.
use sql2rdf.Base.{
  ℕ, suc, ◌+◌, ◌≤◌, Bool, true, false, not, ◌&&◌, ◌||◌, if◌then◌else◌, ◌==◌, length, Bytes,
  Bool-cases, inl, inr, ◌≡◌, ◌≢◌, refl, arith,
}
use sql2rdf.Lexer.Cursor.{Cursor, Lexed, ok, parse_error, out_of_range, peek, advance, consume}
use sql2rdf.Lexer.Token.{Token}
use sql2rdf.Lexer.Scan.{is_digit}
use sql2rdf.Lexer.Literals.{
  digit_next, lex_fraction, lex_exponent, lex_number_tail, lex_number, lex_number_or_sign,
}
use sql2rdf.Lexer.Progress.{
  Past, Past-refl, Past-trans, Good, error-Good, if-Good, Exact-Past, advance-Exact, consume-Exact,
  consume-first, consume-stops, then-Good,
}
use sql2rdf.Lexer.Progress.Names.{advance-consume-Past}

ne-zero : (x k : ℕ) → (x == suc k) ≡ true → x ≢ 0
ne-zero x k h = ground arith

no_progress :
    (n : ℕ) (dot saw : Bool)
    → (dot ≡ false → n ≡ 0)
    → (saw ≡ true → n ≡ 0)
    → (dot && not saw) ≡ false
    → n ≡ 0
no_progress n false saw p q h = p refl
no_progress n true true p q h = q refl
no_progress n true false p q h = cc

fraction-Good :
    (n : ℕ) (text : Bytes) (saw : Bool) (c : Cursor)
    → n ≤ 1
    → ((peek c 0 == b'.') ≡ false → n ≡ 0)
    → (saw ≡ true → n ≡ 0)
    → Good n c (lex_fraction text saw c)
unfolding lex_fraction
fraction-Good n text saw c h plain digits =
    if-Good n c (peek c 0 == b'.' && is_digit (peek c 1)) _ _
      (λ e.
        Past-trans 1 0 n c (consume digit_next (advance c)).1 _ (omega arith)
          (advance-consume-Past digit_next c (ground arith)) (Past-refl _))
      (λ e.
        if-Good n c (peek c 0 == b'.' && not saw) _ _ (λ k. error-Good (Bytes × Bool) n c _ c)
          (λ k. rw (no_progress n (peek c 0 == b'.') saw plain digits k) (Past-refl c)))

if-Past :
    (n : ℕ) (c : Cursor) (b : Bool) (d e : Cursor)
    → (b ≡ true → Past n c d)
    → Past n c e
    → Past n c (if b then d else e)
if-Past n c true d e p q = p refl
if-Past n c false d e p q = q

exponent-Good : (text : Bytes) (c : Cursor) → Good 0 c (lex_exponent text c)
unfolding lex_exponent
exponent-Good text c =
    let behind = advance c in
    let sign = peek behind 0 in
    let signed = sign == b'+' || sign == b'-' in
    let digits_start = if signed then advance behind else behind in
    if-Good 0 c (peek c 0 == b'e' || peek c 0 == b'E') _ _
      (λ e.
        let one = Exact-Past 1 0 c behind (omega arith) (advance-Exact c (ground arith)) in
        let more =
          if-Past 0 c signed (advance behind) behind
            (λ s. Past-trans 0 1 0 c behind (advance behind) (omega arith) one (
              Exact-Past 1 1 behind (advance behind) (omega arith)
                (advance-Exact behind (ground arith))))
            one in
        if-Good 0 c (not (is_digit (peek digits_start 0))) _ _
          (λ k. error-Good (Bytes × Bool) 0 c _ digits_start)
          (λ k.
            Past-trans 0 0 0 c digits_start (consume digit_next digits_start).1 (omega arith) more (
              Exact-Past _ 0 digits_start (consume digit_next digits_start).1 (omega arith)
                (consume-Exact digit_next digits_start))))
      (λ e. Past-refl c)

tail-Good :
    (n : ℕ) (text : Bytes) (saw : Bool) (line column : ℕ) (c : Cursor)
    → n ≤ 1
    → ((peek c 0 == b'.') ≡ false → n ≡ 0)
    → (saw ≡ true → n ≡ 0)
    → Good n c (lex_number_tail text saw line column c)
unfolding lex_number_tail
tail-Good n text saw line column c h plain digits =
    then-Good 0 n n c c (lex_fraction text saw c) _ (Past-refl c)
      (fraction-Good n text saw c h plain digits)
      (λ fraction point p.
        then-Good n 0 n c point (lex_exponent fraction.0 point) _
          (Past-trans (0 + n) 0 n c point point (omega arith) p (Past-refl point))
          (exponent-Good fraction.0 point)
          (λ exponent last q. Past-trans (n + 0) 0 n c last last (omega arith) q (Past-refl last)))

then_tail-Good :
    (m n : ℕ) (c d : Cursor) (x : Lexed (Token × Cursor))
    → Past m c d
    → Good 0 d x
    → n ≤ m
    → Good n c x
then_tail-Good m n c d (ok (token, e)) p q h = Past-trans m 0 n c d e (omega arith) p q
then_tail-Good m n c d (parse_error message line column near) p q h = tt
then_tail-Good m n c d out_of_range p q h = tt

digits-Good :
    (n : ℕ) (text : Bytes) (saw : Bool) (line column : ℕ) (c d : Cursor)
    → Past n c d
    → Good n c (lex_number_tail text saw line column d)
digits-Good n text saw line column c d p =
    then_tail-Good n n c d (lex_number_tail text saw line column d) p
      (tail-Good 0 text saw line column d (omega arith) (λ _. refl) (λ _. refl)) (omega arith)

-- A number that begins with a digit or a point moves on; any other keeps the place.
lex_number-Good :
    (n : ℕ) (negative signed : Bool) (c : Cursor)
    → n ≤ 1
    → ((is_digit (peek c 0) || peek c 0 == b'.') ≡ false → n ≡ 0)
    → Good n c (lex_number negative signed c)
unfolding lex_number
lex_number-Good n negative signed c h plain = elim (Bool-cases (is_digit (peek c 0))) [
  | inl e ↦ digits-Good n _ _ c.line c.column c (consume digit_next c).1 (
      Exact-Past (length (consume digit_next c).0) n c (consume digit_next c).1
        (omega (arith, consume-first digit_next c (ground arith) e)) (consume-Exact digit_next c))
  | inr e ↦
      rw (consume-stops digit_next c e)
        (tail-Good n _ false c.line c.column c h (λ k. plain (rw (e, k) refl)) (λ k. cc))
]

true-ne-false : ◌≢◌ {A = Bool} false true
true-ne-false e = cc

number_start :
    (digit point sign : Bool)
    → (digit || point) ≡ false
    → sign ≡ false
    → (digit || (point || sign)) ≡ true
    → ◌≡◌ {A = Bool} false true
number_start digit point sign k s h = ground arith

-- A number moves on.
pub lex_number_or_sign-Good :
    (c : Cursor)
    → (is_digit (peek c 0) || (peek c 0 == b'.' || (peek c 0 == b'+' || peek c 0 == b'-'))) ≡ true
    → Good 1 c (lex_number_or_sign c)
unfolding lex_number_or_sign
lex_number_or_sign-Good c h =
    if-Good 1 c (peek c 0 == b'+' || peek c 0 == b'-') _ _
      (λ s.
        then_tail-Good 1 1 c (advance c) (lex_number (peek c 0 == b'-') true (advance c))
          (Exact-Past 1 1 c (advance c) (omega arith) (advance-Exact c (ground arith)))
          (lex_number-Good 0 (peek c 0 == b'-') true (advance c) (omega arith) (λ _. refl))
          (omega arith))
      (λ s. lex_number-Good 1 false false c (omega arith) (λ k.
        absurd (true-ne-false (number_start (is_digit (peek c 0)) (peek c 0 == b'.') _ k s h))))
