-- ===== src/Lexer/Progress/Next.antt =====
-- Progress of whole tokens.
use sql2rdf.Base.{
  ℕ, suc, Bool, true, false, ◌&&◌, ◌||◌, &&_elim, ◌==◌, Bytes, codes, Bool-cases, inl, inr, ◌≡◌,
  ◌≢◌, arith,
}
use sql2rdf.Lexer.Cursor.{Cursor, Lexed, ok, parse_error, out_of_range, peek, advance}
use sql2rdf.Lexer.Token.{TokenType, Token}
use sql2rdf.Lexer.Scan.{
  is_digit, is_name_start_char, skip_whitespace_and_comments, looks_like_iriref,
}
use sql2rdf.Lexer.Next.{
  single, double, bracketed, lex_default, lex_operator, lex_punctuation, starts_number, lex_at,
  next,
}
use sql2rdf.Lexer.Progress.{Past, Past-trans, Good, error-Good, if-Good, Exact-Past, advance-Exact}
use sql2rdf.Lexer.Progress.Names.{
  lex_prefixed_name_or_keyword-Good, lex_var-Good, lex_blank_node_label-Good,
  lex_lang_tag_or_caret-Good,
}
use sql2rdf.Lexer.Progress.Numbers.{lex_number_or_sign-Good}
use sql2rdf.Lexer.Progress.Strings.{lex_string-Good}
use sql2rdf.Lexer.Progress.Scan.{skip-Past, lex_iriref-Good}

nonzero : (x k : ℕ) → (x == suc k) ≡ true → x ≢ 0
nonzero x k h = ground arith

-- The parts of `next`, at a byte that is not NUL.
module _ (c : Cursor) (n : peek c 0 ≢ 0) where
  moved : Past 1 c (advance c)
  moved = Exact-Past 1 1 c (advance c) (omega arith) (advance-Exact c n)

  single-Good : (type : TokenType) (text : Bytes) → Good 1 c (single type text c)
  unfolding single
  single-Good type text = moved

  double-Good :
      (k : ℕ) (type : TokenType) (text : Bytes) (otherwise : Lexed (Token × Cursor))
      → Good 1 c otherwise
      → Good 1 c (double (suc k) type text otherwise c)
  unfolding double
  double-Good k type text otherwise g =
      if-Good 1 c (peek (advance c) 0 == suc k) _ _
        (λ e. Past-trans 1 1 1 c (advance c) (advance (advance c)) (omega arith) moved (
          Exact-Past 1 1 (advance c) (advance (advance c)) (omega arith)
            (advance-Exact (advance c) (nonzero (peek (advance c) 0) k e))))
        (λ _. g)

  bracketed-Good :
      (k : ℕ) (empty_type : TokenType) (empty_text : Bytes) (type : TokenType) (text : Bytes)
      → Good 1 c (bracketed (suc k) empty_type empty_text type text c)
  unfolding bracketed
  bracketed-Good k empty_type empty_text type text =
      let behind = skip_whitespace_and_comments (advance c) in
      if-Good 1 c (peek behind 0 == suc k) _ _
        (λ e.
          Past-trans 1 1 1 c behind (advance behind) (omega arith)
            (Past-trans 1 0 1 c (advance c) behind (omega arith) moved (skip-Past (advance c)))
            (Exact-Past 1 1 behind (advance behind) (omega arith)
              (advance-Exact behind (nonzero (peek behind 0) k e))))
        (λ _. moved)

  lex_default-Good : Good 1 c (lex_default (peek c 0) c)
  unfolding lex_default
  lex_default-Good =
      if-Good 1 c (peek c 0 == b'\'' || peek c 0 == b'"') _ _ (λ _. lex_string-Good c n)
        (λ _.
          if-Good 1 c (is_digit (peek c 0)) _ _ (λ e. lex_number_or_sign-Good c (ground arith))
            (λ _.
              if-Good 1 c (is_name_start_char (peek c 0)) _ _
                (λ e. lex_prefixed_name_or_keyword-Good c (ground arith))
                (λ _. error-Good Token 1 c _ c)))

  lex_operator-Good : Good 1 c (lex_operator (peek c 0) c)
  unfolding lex_operator
  lex_operator-Good =
      if-Good 1 c (peek c 0 == b'|') _ _
        (λ e.
          (double-Good 123 TokenType.or_or (codes "||") _ (single-Good TokenType.pipe (codes "|"))))
        (λ _.
          if-Good 1 c (peek c 0 == b'^') _ _
            (λ e.
              (double-Good 93 TokenType.caret (codes "^^") _
                (single-Good TokenType.caret (codes "^"))))
            (λ _.
              if-Good 1 c (peek c 0 == b'!') _ _
                (λ e.
                  (double-Good 60 TokenType.not_equals (codes "!=") _
                    (single-Good TokenType.bang (codes "!"))))
                (λ _.
                  if-Good 1 c (peek c 0 == b'>') _ _
                    (λ e.
                      (double-Good 60 TokenType.greater_equals (codes ">=") _
                        (single-Good TokenType.greater (codes ">"))))
                    (λ _.
                      if-Good 1 c (peek c 0 == b'&') _ _
                        (λ e.
                          (double-Good 37 TokenType.and_and (codes "&&") _
                            (error-Good Token 1 c _ (advance c))))
                        (λ _.
                          if-Good 1 c (peek c 0 == b'@') _ _ (λ e. (lex_lang_tag_or_caret-Good c n))
                            (λ _.
                              if-Good 1 c (peek c 0 == b':') _ _
                                (λ e. (lex_prefixed_name_or_keyword-Good c (ground arith)))
                                (λ _. lex_default-Good)))))))

  lex_punctuation-Good : Good 1 c (lex_punctuation (peek c 0) c)
  unfolding lex_punctuation
  lex_punctuation-Good =
      if-Good 1 c (peek c 0 == b')') _ _ (λ e. (single-Good TokenType.r_paren (codes ")")))
        (λ _.
          if-Good 1 c (peek c 0 == b'{') _ _ (λ e. (single-Good TokenType.l_brace (codes "{")))
            (λ _.
              if-Good 1 c (peek c 0 == b'}') _ _ (λ e. (single-Good TokenType.r_brace (codes "}")))
                (λ _.
                  if-Good 1 c (peek c 0 == b']') _ _
                    (λ e. (single-Good TokenType.r_bracket (codes "]")))
                    (λ _.
                      if-Good 1 c (peek c 0 == b',') _ _
                        (λ e. (single-Good TokenType.comma (codes ",")))
                        (λ _.
                          if-Good 1 c (peek c 0 == b';') _ _
                            (λ e. (single-Good TokenType.semicolon (codes ";")))
                            (λ _.
                              if-Good 1 c (peek c 0 == b'/') _ _
                                (λ e. (single-Good TokenType.slash (codes "/")))
                                (λ _.
                                  if-Good 1 c (peek c 0 == b'*') _ _
                                    (λ e. (single-Good TokenType.star (codes "*")))
                                    (λ _.
                                      if-Good 1 c (peek c 0 == b'=') _ _
                                        (λ e. (single-Good TokenType.equals (codes "=")))
                                        (λ _. lex_operator-Good)))))))))

  lex_at-Good : Good 1 c (lex_at (peek c 0) c)
  unfolding lex_at
  lex_at-Good =
      if-Good 1 c (peek c 0 == b'<') _ _
        (λ _.
          if-Good 1 c (looks_like_iriref c) _ _ (λ _. lex_iriref-Good c n)
            (λ _.
              double-Good 60 TokenType.less_equals (codes "<=") _
                (single-Good TokenType.less (codes "<"))))
        (λ _.
          if-Good 1 c (peek c 0 == b'?') _ _
            (λ _.
              if-Good 1 c (is_name_start_char (peek c 1) || is_digit (peek c 1)) _ _
                (λ _. lex_var-Good c n) (λ _. single-Good TokenType.question (codes "?")))
            (λ _.
              if-Good 1 c (peek c 0 == b'$') _ _ (λ _. lex_var-Good c n)
                (λ _.
                  if-Good 1 c (peek c 0 == b'_' && peek c 1 == b':') _ _
                    (λ e.
                      lex_blank_node_label-Good c n
                        (nonzero (peek c 1) 57 (&&_elim (peek c 0 == b'_') (peek c 1 == b':') e).1))
                    (λ _.
                      if-Good 1 c (peek c 0 == b'(') _ _
                        (λ _.
                          bracketed-Good 40 TokenType.nil (codes "()") TokenType.l_paren
                            (codes "("))
                        (λ _.
                          if-Good 1 c (peek c 0 == b'[') _ _
                            (λ _.
                              bracketed-Good 92 TokenType.anon (codes "[]") TokenType.l_bracket
                                (codes "["))
                            (λ _.
                              if-Good 1 c (peek c 0 == b'.') _ _
                                (λ dot.
                                  if-Good 1 c (is_digit (peek c 1)) _ _
                                    (λ _. lex_number_or_sign-Good c (ground arith))
                                    (λ _. single-Good TokenType.dot (codes ".")))
                                (λ _.
                                  if-Good 1 c (peek c 0 == b'+') _ _
                                    (λ plus.
                                      if-Good 1 c (starts_number c) _ _
                                        (λ _. lex_number_or_sign-Good c (ground arith))
                                        (λ _. single-Good TokenType.plus (codes "+")))
                                    (λ _.
                                      if-Good 1 c (peek c 0 == b'-') _ _
                                        (λ minus.
                                          if-Good 1 c (starts_number c) _ _
                                            (λ _. lex_number_or_sign-Good c (ground arith))
                                            (λ _. single-Good TokenType.minus (codes "-")))
                                        (λ _. lex_punctuation-Good)))))))))

-- The sort of a token that is not the end of the input is not Eof.
abbrev pub is_eof : TokenType → Bool
is_eof TokenType.eof = true
is_eof _ = false

-- After a token the cursor stands on the same source, and further on if the token is not Eof.
abbrev pub NextGood : Cursor → Lexed (Token × Cursor) → Type 0
NextGood c (ok (token, d)) = Past 0 c d × ((is_eof token.type ≡ false) → Past 1 c d)
NextGood c (parse_error message line column near) = Unit
NextGood c out_of_range = Unit

not_nul : (x : ℕ) → (x == 0) ≡ false → x ≢ 0
not_nul x h = ground arith

behind_gap : (c d : Cursor) (x : Lexed (Token × Cursor)) → Past 0 c d → Good 1 d x → NextGood c x
behind_gap c d (ok (token, e)) p g =
    (Past-trans 0 1 0 c d e (omega arith) p g, λ _. Past-trans 0 1 1 c d e (omega arith) p g)
behind_gap c d (parse_error message line column near) p g = tt
behind_gap c d out_of_range p g = tt

-- A token leaves the cursor on the same source, not behind its end, and past where it was; only
-- Eof may leave it in its place.
pub next-NextGood : (c : Cursor) → NextGood c (next c)
unfolding next
next-NextGood c =
    let gap = skip_whitespace_and_comments c in
    elim (Bool-cases (peek gap 0 == 0)) [
      | inl e ↦ rw e (skip-Past c, λ h. cc)
      | inr e ↦ rw e (
          behind_gap c gap (lex_at (peek gap 0) gap) (skip-Past c)
            (lex_at-Good gap (not_nul (peek gap 0) e)))
    ]
