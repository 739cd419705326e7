-- ===== src/Lexer/Progress/Names.antt =====
-- Progress of names, variables, labels and language tags.
use sql2rdf.Base.{
  ℕ, zero, suc, ◌≤◌, Bool, true, false, not, ◌&&◌, ◌||◌, [], ◌∷◌, ◌++◌, ◌==◌, length, drop, Bytes,
  Bool-cases, ◌⊎◌, inl, inr, ◌≡◌, ◌≢◌, refl, sym, ap, ◌∙◌, arith,
}
use sql2rdf.Lexer.Cursor.{Cursor, byte_at, peek, step, advance, advance_by, consume}
use sql2rdf.Lexer.Token.{Token}
use sql2rdf.Lexer.Scan.{is_alpha, is_digit, is_alnum, is_name_start_char, is_var_name_char}
use sql2rdf.Lexer.Names.{
  lex_pn_local, continues_name, lex_prefixed_name_or_keyword, lex_var, lex_blank_node_label,
  lang_tag_loop, lex_lang_tag_or_caret,
}
use sql2rdf.Lexer.Progress.{
  Past, Past-refl, Past-trans, Good, error-Good, if-Good, Exact-trans, Exact-Past, Exact-rest,
  step-Exact, advance-Exact, consume-Exact, consume-first, consume-stops, peek-Exact, then-Good,
}
use sql2rdf.Lexer.Progress.Local.{lex_pn_local-Good}

-- One byte, and then a loop.
pub advance-consume-Past :
    (p : Bytes → Bool) (c : Cursor) → peek c 0 ≢ 0 → Past 1 c (consume p (advance c)).1
advance-consume-Past p c n =
    Past-trans 1 0 1 c (advance c) _ (omega arith)
      (Exact-Past 1 1 c (advance c) (omega arith) (advance-Exact c n))
      (Exact-Past _ 0 (advance c) (consume p (advance c)).1 (omega arith)
        (consume-Exact p (advance c)))

pub lex_var-Good : (c : Cursor) → peek c 0 ≢ 0 → Good 1 c (lex_var c)
unfolding lex_var
lex_var-Good c n =
    if-Good 1 c
      (not (is_name_start_char (peek (advance c) 0)) && not (is_digit (peek (advance c) 0))) _ _
      (λ e. error-Good Token 1 c _ (advance c))
      (λ e.
        Past-trans 1 1 1 c (advance c) _ (omega arith)
          (Exact-Past 1 1 c (advance c) (omega arith) (advance-Exact c n))
          (advance-consume-Past (λ s. is_var_name_char (byte_at s 0)) (advance c) (ground arith)))

pub lex_blank_node_label-Good :
    (c : Cursor) → peek c 0 ≢ 0 → peek c 1 ≢ 0 → Good 1 c (lex_blank_node_label c)
unfolding lex_blank_node_label advance_by
lex_blank_node_label-Good c n m =
    let one = advance-Exact c n in
    let two = advance-Exact (advance c) (λ e. m (sym (peek-Exact 1 c (advance c) one) ∙ e)) in
    if-Good 1 c
      (not (is_name_start_char (peek (advance (advance c)) 0))
        && not (is_digit (peek (advance (advance c)) 0)))
      _ _ (λ e. error-Good Token 1 c _ (advance (advance c)))
      (λ e.
        Past-trans 2 1 1 c (advance (advance c)) _ (omega arith)
          (Exact-Past 2 2 c (advance (advance c)) (omega arith)
            (Exact-trans 1 1 2 c (advance c) (advance (advance c)) (omega arith) one two))
          (advance-consume-Past continues_name (advance (advance c)) (ground arith)))

lang_tag_loop-Good :
    (r : Bytes) (skip : ℕ) (c d : Cursor) (tag : Bytes)
    → d.rest ≡ drop skip r
    → Past 1 c d
    → Good 1 c (lang_tag_loop r skip d tag)
unfolding lang_tag_loop
lang_tag_loop-Good [] skip c d tag at p = p
lang_tag_loop-Good (x ∷ s) (suc skip) c d tag at p = lang_tag_loop-Good s skip c d tag at p
lang_tag_loop-Good (x ∷ s) zero c d tag at p =
    let next = step x s d in
    let (text, end) = consume (λ r. is_alnum (byte_at r 0)) next in
    let moved = consume-Exact (λ r. is_alnum (byte_at r 0)) next in
    elim (Bool-cases (x == b'-')) [
      | inr e ↦ rw e p
      | inl e ↦ elim (Bool-cases (is_alnum (byte_at s 0))) [
        | inr k ↦ rw (e, k) (error-Good Bytes 1 c _ next)
        | inl k ↦
            rw (e, k)
              (lang_tag_loop-Good s (length text) c end (tag ++ (x ∷ text))
                (Exact-rest (length text) next end moved)
                (Past-trans 1 0 1 c d end (omega arith) p (
                  Past-trans 1 0 0 d next end (omega arith)
                    (Exact-Past 1 1 d next (omega arith) (step-Exact x s d at))
                    (Exact-Past (length text) 0 next end (omega arith) moved))))
      ]
    ]

pub lex_lang_tag_or_caret-Good : (c : Cursor) → peek c 0 ≢ 0 → Good 1 c (lex_lang_tag_or_caret c)
unfolding lex_lang_tag_or_caret
lex_lang_tag_or_caret-Good c n =
    let letters = λ (s : Bytes). is_alpha (byte_at s 0) in
    let end = (consume letters (advance c)).1 in
    if-Good 1 c (not (is_alpha (peek (advance c) 0))) _ _ (λ e. error-Good Token 1 c _ (advance c))
      (λ e.
        then-Good 0 1 1 c c (lang_tag_loop end.rest 0 end (consume letters (advance c)).0) _
          (Past-refl c)
          (lang_tag_loop-Good end.rest 0 c end (consume letters (advance c)).0 refl
            (advance-consume-Past letters c n))
          (λ tag last p. p))

-- A name, or the colon of a prefixed name without prefix.
abbrev pub starts_name : ℕ → Bool
starts_name c = is_name_start_char c || c == b':'

name_or_colon :
    (c : Cursor)
    → starts_name (peek c 0) ≡ true
    → (1 ≤ length (consume continues_name c).0)
      ⊎ ((peek c 0 ≡ b':') × (consume continues_name c ≡ ([], c)))
name_or_colon c h = elim (Bool-cases (is_name_start_char (peek c 0))) [
  | inl e ↦ inl (consume-first continues_name c (ground arith) (ground arith))
  | inr e ↦ inr (ground arith, consume-stops continues_name c (ground arith))
]

ne-colon : (x : ℕ) → (x == b':') ≡ false → x ≢ b':'
ne-colon x h e = ground arith

pub lex_prefixed_name_or_keyword-Good :
    (c : Cursor) → starts_name (peek c 0) ≡ true → Good 1 c (lex_prefixed_name_or_keyword c)
unfolding lex_prefixed_name_or_keyword
lex_prefixed_name_or_keyword-Good c h =
    let end = (consume continues_name c).1 in
    let n = length (consume continues_name c).0 in
    let moved = consume-Exact continues_name c in
    if-Good 1 c (peek end 0 == b':') _ _
      (λ colon.
        let one = advance-Exact end (ground arith) in
        then-Good 1 0 1 c (advance end) (lex_pn_local (advance end)) _
          (Past-trans 0 1 1 c end (advance end) (omega arith)
            (Exact-Past n 0 c end (omega arith) moved)
            (Exact-Past 1 1 end (advance end) (omega arith) one))
          (lex_pn_local-Good (advance end)) (λ local last p. p))
      (λ other. elim (name_or_colon c h) [
        | inl some_letters ↦ Exact-Past n 1 c end some_letters moved
        | inr (colon, stops) ↦
            let stuck : end ≡ c = ap (λ x. x.1) stops in
            let found : peek end 0 ≡ b':' = ap (λ d. peek d 0) stuck ∙ colon in
            absurd (ne-colon (peek end 0) other found)
      ])
