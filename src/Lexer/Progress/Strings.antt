-- ===== src/Lexer/Progress/Strings.antt =====
-- Progress of strings.
use sql2rdf.Base.{
  ℕ, zero, suc, Bool, true, false, not, ◌&&◌, &&_elim, ◌||◌, [], ◌∷◌, ◌++◌, if◌then◌else◌, ◌==◌,
  ==_refl, drop, Bytes, some, Option-cases, inl, inr, ◌≡◌, ◌≢◌, refl, sym, ap, ◌∙◌, arith,
}
use sql2rdf.Lexer.Cursor.{Cursor, byte_at, peek, step, advance, advance_by}
use sql2rdf.Lexer.Literals.{unescape, closes, string_loop, lex_string}
use sql2rdf.Lexer.Progress.{
  Past, Past-refl, Past-trans, Good, error-Good, if-Good, Exact, Exact-trans, Exact-Past,
  Exact-rest, step-Exact, advance-Exact, peek-Exact, then-Good,
}

quote_here : (quote x : ℕ) → quote ≢ 0 → (x == quote) ≡ true → x ≢ 0
quote_here quote x n h = ground arith

unescape-ne-zero : (x e : ℕ) → unescape x ≡ some e → x ≢ 0
unfolding unescape
unescape-ne-zero x e h z = cc (rw z at h)

at_next : (k : ℕ) (d e : Cursor) → Exact k d e → peek d k ≢ 0 → peek e 0 ≢ 0
at_next k d e p n h = n (sym (peek-Exact k d e p) ∙ h)

escaped-Exact :
    (d : Cursor) (e : ℕ) → peek d 0 ≢ 0 → unescape (peek d 1) ≡ some e → Exact 2 d (advance_by 2 d)
unfolding advance_by
escaped-Exact d e n h =
    let one = advance-Exact d n in
    Exact-trans 1 1 2 d (advance d) (advance (advance d)) (omega arith) one
      (advance-Exact (advance d) (at_next 1 d (advance d) one (unescape-ne-zero (peek d 1) e h)))

three-Past :
    (quote : ℕ) (d : Cursor)
    → quote ≢ 0
    → (peek d 0 == quote) ≡ true
    → (peek d 1 == quote) ≡ true
    → (peek d 2 == quote) ≡ true
    → Past 1 d (advance_by 3 d)
unfolding advance_by
three-Past quote d n first second third =
    let one = advance-Exact d (quote_here quote (peek d 0) n first) in
    let next =
      advance-Exact (advance d)
        (at_next 1 d (advance d) one (quote_here quote (peek d 1) n second)) in
    let two = Exact-trans 1 1 2 d (advance d) (advance (advance d)) (omega arith) one next in
    let last =
      advance-Exact (advance (advance d))
        (at_next 2 d (advance (advance d)) two (quote_here quote (peek d 2) n third)) in
    Past-trans 2 1 1 d (advance (advance d)) (advance (advance (advance d))) (omega arith)
      (Exact-Past 2 2 d (advance (advance d)) (omega arith) two)
      (Exact-Past 1 1 (advance (advance d)) (advance (advance (advance d))) (omega arith) last)

quotes-Past :
    (quote : ℕ) (long_form : Bool) (d : Cursor)
    → quote ≢ 0
    → closes quote long_form d.rest ≡ true
    → Past 1 d (advance_by (if long_form then 3 else 1) d)
unfolding advance_by
quotes-Past quote false d n h =
    Exact-Past 1 1 d (advance d) (omega arith) (advance-Exact d (quote_here quote (peek d 0) n h))
quotes-Past quote true d n h =
    let (first, tests) = &&_elim (peek d 0 == quote) _ h in
    let (second, others) = &&_elim (peek d 1 == quote) _ tests in
    three-Past quote d n first second (&&_elim (peek d 2 == quote) _ others).0

first_byte : (d : Cursor) (x : ℕ) (s : Bytes) → d.rest ≡ x ∷ s → (x == 0) ≡ false → peek d 0 ≢ 0
first_byte d x s at h z = let e : x ≡ 0 = ap (λ r. byte_at r 0) (sym at) ∙ z in ground arith

second_byte :
    (d : Cursor) (x : ℕ) (s : Bytes) → d.rest ≡ x ∷ s → unescape (peek d 1) ≡ unescape (byte_at s 0)
second_byte d x s at = ap (λ r. unescape (byte_at r 1)) at

module _ (quote : ℕ) (long_form : Bool) (n : quote ≢ 0) (c : Cursor) where
  string_loop-Good :
      (r : Bytes) (skip : ℕ) (d : Cursor) (value : Bytes)
      → d.rest ≡ drop skip r
      → Past 0 c d
      → Good 1 c (string_loop quote long_form r skip d value)
  unfolding string_loop
  string_loop-Good [] skip d value at p = error-Good Bytes 1 c _ d
  string_loop-Good (x ∷ s) (suc skip) d value at p = string_loop-Good s skip d value at p
  string_loop-Good (x ∷ s) zero d value at p =
      if-Good 1 c (x == 0) _ _ (λ _. error-Good Bytes 1 c _ d)
        (λ nul.
          if-Good 1 c (closes quote long_form (x ∷ s)) _ _
            (λ e.
              Past-trans 0 1 1 c d _ (omega arith) p (quotes-Past quote long_form d n (rw at e)))
            (λ e.
              if-Good 1 c (not long_form && (x == b'\n' || x == b'\r')) _ _
                (λ _. error-Good Bytes 1 c _ d)
                (λ newline.
                  if-Good 1 c (x == b'\\') _ _
                    (λ slash. elim (Option-cases (unescape (byte_at s 0))) [
                      | inl o ↦ rw o (error-Good Bytes 1 c _ (advance_by 2 d))
                      | inr (e, o) ↦
                          let two =
                            escaped-Exact d e (first_byte d x s at nul)
                              (second_byte d x s at ∙ o) in
                          rw o (
                            string_loop-Good s 1 (advance_by 2 d) (value ++ e ∷ [])
                              (Exact-rest 2 d (advance_by 2 d) two ∙ ap (drop 2) at)
                              (Past-trans 0 2 0 c d (advance_by 2 d) (omega arith) p
                                (Exact-Past 2 2 d (advance_by 2 d) (omega arith) two)))
                    ])
                    (λ slash. string_loop-Good s 0 (step x s d) (value ++ x ∷ []) refl (
                      Past-trans 0 1 0 c d (step x s d) (omega arith) p
                        (Exact-Past 1 1 d (step x s d) (omega arith) (step-Exact x s d at)))))))

opening-Past :
    (c : Cursor) (long_form : Bool)
    → peek c 0 ≢ 0
    → long_form ≡ (peek c 1 == peek c 0 && peek c 2 == peek c 0)
    → Past 1 c (advance_by (if long_form then 3 else 1) c)
unfolding advance_by
opening-Past c false n e = Exact-Past 1 1 c (advance c) (omega arith) (advance-Exact c n)
opening-Past c true n e =
    let (second, third) = &&_elim (peek c 1 == peek c 0) (peek c 2 == peek c 0) (sym e) in
    three-Past (peek c 0) c n (==_refl (peek c 0)) second third

-- A string literal moves on.
pub lex_string-Good : (c : Cursor) → peek c 0 ≢ 0 → Good 1 c (lex_string c)
unfolding lex_string
lex_string-Good c n =
    let long_form = peek c 1 == peek c 0 && peek c 2 == peek c 0 in
    let inside = advance_by (if long_form then 3 else 1) c in
    then-Good 1 1 1 c inside (string_loop (peek c 0) long_form inside.rest 0 inside []) _
      (opening-Past c long_form n refl)
      (string_loop-Good (peek c 0) long_form n inside inside.rest 0 inside [] refl
        (Past-refl inside))
      (λ value end p. Past-trans 2 0 1 c end end (omega arith) p (Past-refl end))
