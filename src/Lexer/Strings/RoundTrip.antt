-- ===== src/Lexer/Strings/RoundTrip.antt =====
-- Spelling a text as a string literal, and reading it back.
use sql2rdf.Base.{
  ℕ, Bool, true, false, ◌&&◌, ◌||◌, [], ◌∷◌, ◌++◌, if◌then◌else◌, ◌==◌, ==_iff, Bytes, All, some,
  append_assoc, append-nil, Bool-cases, inl, inr, ◌≡◌, ◌≢◌, refl, sym, ap, ◌∙◌, arith,
}
use sql2rdf.Dialect.Quote.{begins_with}
use sql2rdf.Lexer.Cursor.{Cursor, ok, byte_at, peek, step, advance_by}
use sql2rdf.Lexer.Token.{TokenType, make_token}
use sql2rdf.Lexer.Literals.{unescape, string_loop, lex_string}
use sql2rdf.Lexer.Strings.{
  is_quote, string_loop_plain, string_loop_escape, string_loop_end, advance_by-rest, one_step,
}

-- One byte as it is written between quotes.
unfoldable pub spell_byte : ℕ → ℕ → Bytes
spell_byte quote c =
    if c == quote || c == b'\\'
    then b'\\' ∷ c ∷ []
    else if c == b'\n'
    then b'\\' ∷ b'n' ∷ []
    else if c == b'\r'
    then b'\\' ∷ b'r' ∷ []
    else c ∷ []

unfoldable pub spell : ℕ → Bytes → Bytes
unfolding spell_byte
spell quote [] = []
spell quote (c ∷ v) = spell_byte quote c ++ spell quote v

unescape_quote :
    (quote x : ℕ) → is_quote quote ≡ true → (x == quote || x == b'\\') ≡ true → unescape x ≡ some x
unfolding unescape
unescape_quote quote x q h = ground arith

plain_quote : (p r : Bool) → (p || r) ≡ false → (p ≡ false) × (r ≡ false)
plain_quote p r h = ground arith

spell_byte_quote :
    (quote x : ℕ) → (x == quote || x == b'\\') ≡ true → spell_byte quote x ≡ b'\\' ∷ x ∷ []
unfolding spell_byte
spell_byte_quote quote x e = rw e refl

spell_byte_newline :
    (quote x : ℕ)
    → (x == quote || x == b'\\') ≡ false
    → (x == b'\n') ≡ true
    → spell_byte quote x ≡ b'\\' ∷ b'n' ∷ []
unfolding spell_byte
spell_byte_newline quote x e k = rw (e, k) refl

spell_byte_return :
    (quote x : ℕ)
    → (x == quote || x == b'\\') ≡ false
    → (x == b'\n') ≡ false
    → (x == b'\r') ≡ true
    → spell_byte quote x ≡ b'\\' ∷ b'r' ∷ []
unfolding spell_byte
spell_byte_return quote x e k l = rw (e, k, l) refl

spell_byte_plain :
    (quote x : ℕ)
    → (x == quote || x == b'\\') ≡ false
    → (x == b'\n') ≡ false
    → (x == b'\r') ≡ false
    → spell_byte quote x ≡ x ∷ []
unfolding spell_byte
spell_byte_plain quote x e k l = rw (e, k, l) refl

-- What the loop reads: the text behind what was read before, up to the closing quote.
abbrev Reads : ℕ → Bytes → Bytes → Cursor → Bytes → Type 0
Reads quote v rest d value =
    (e : Cursor) × (string_loop quote false (spell quote v ++ quote ∷ rest) 0 d value
      ≡ ok (value ++ v, e))
    × (e.rest ≡ rest)

-- The spelling of a text as the bytes for its first one and what follows.
spell-cons :
    (quote x : ℕ) (v rest w : Bytes)
    → spell_byte quote x ≡ w
    → spell quote (x ∷ v) ++ quote ∷ rest ≡ w ++ (spell quote v ++ quote ∷ rest)
unfolding spell
spell-cons quote x v rest w h =
    append_assoc (spell_byte quote x) (spell quote v) (quote ∷ rest)
    ∙ ap (λ p. p ++ (spell quote v ++ quote ∷ rest)) h

module _ (quote : ℕ) (q : is_quote quote ≡ true) (rest : Bytes) where
  Reads-next :
      (x : ℕ) (v : Bytes) (d e : Cursor) (value : Bytes)
      → (string_loop quote false (spell quote (x ∷ v) ++ quote ∷ rest) 0 d value
          ≡ string_loop quote false (spell quote v ++ quote ∷ rest) 0 e (value ++ x ∷ []))
      → Reads quote v rest e (value ++ x ∷ [])
      → Reads quote (x ∷ v) rest d value
  Reads-next x v d e value h (end, r, s) =
      (end, h ∙ r ∙ ap (λ t. ok (t, end)) (append_assoc value (x ∷ []) v), s)

  Reads-escape :
      (x e : ℕ) (v : Bytes) (d : Cursor) (value : Bytes)
      → spell_byte quote x ≡ b'\\' ∷ e ∷ []
      → unescape e ≡ some x
      → d.rest ≡ spell quote (x ∷ v) ++ quote ∷ rest
      → ((d' : Cursor)
          → d'.rest ≡ spell quote v ++ quote ∷ rest
          → Reads quote v rest d' (value ++ x ∷ []))
      → Reads quote (x ∷ v) rest d value
  Reads-escape x e v d value h u at more =
      let later = spell quote v ++ quote ∷ rest in
      let spelled = spell-cons quote x v rest (b'\\' ∷ e ∷ []) h in
      Reads-next x v d (advance_by 2 d) value
        (ap (λ s. string_loop quote false s 0 d value) spelled
          ∙ string_loop_escape quote q e x later d value u)
        (more (advance_by 2 d) (advance_by-rest d b'\\' e later (at ∙ spelled)))

  Reads-plain :
      (x : ℕ) (v : Bytes) (d : Cursor) (value : Bytes)
      → spell_byte quote x ≡ x ∷ []
      → x ≢ 0
      → (x == quote || x == b'\\') ≡ false
      → (x == b'\n') ≡ false
      → (x == b'\r') ≡ false
      → ((d' : Cursor)
          → d'.rest ≡ spell quote v ++ quote ∷ rest
          → Reads quote v rest d' (value ++ x ∷ []))
      → Reads quote (x ∷ v) rest d value
  Reads-plain x v d value h n e k l more =
      let later = spell quote v ++ quote ∷ rest in
      let spelled = spell-cons quote x v rest (x ∷ []) h in
      let (a, b) = plain_quote (x == quote) (x == b'\\') e in
      Reads-next x v d (step x later d) value
        (ap (λ s. string_loop quote false s 0 d value) spelled
          ∙ string_loop_plain quote q x later d value n a b k l)
        (more (step x later d) refl)

  string_loop-spell :
      (v : Bytes) (d : Cursor) (value : Bytes)
      → All (λ x. x ≢ 0) v
      → d.rest ≡ spell quote v ++ quote ∷ rest
      → Reads quote v rest d value
  unfolding unescape
  string_loop-spell [] d value n at =
      unfold spell in
      (
        advance_by 1 d,
        string_loop_end quote q rest d value
            ∙ ap (λ t. ok (t, advance_by 1 d)) (sym (append-nil value)),
        one_step d quote rest at,
      )
  string_loop-spell (x ∷ v) d value n at =
      let more = λ (d' : Cursor) (h : d'.rest ≡ spell quote v ++ quote ∷ rest).
        string_loop-spell v d' (value ++ x ∷ []) n.1 h in
      elim (Bool-cases (x == quote || x == b'\\')) [
        | inl e ↦
            Reads-escape x x v d value (spell_byte_quote quote x e) (unescape_quote quote x q e) at
              more
        | inr e ↦ elim (Bool-cases (x == b'\n')) [
          | inl k ↦
              Reads-escape x b'n' v d value (spell_byte_newline quote x e k)
                (ap some (sym ((==_iff x b'\n').0 k))) at more
          | inr k ↦ elim (Bool-cases (x == b'\r')) [
            | inl l ↦
                Reads-escape x b'r' v d value (spell_byte_return quote x e k l)
                  (ap some (sym ((==_iff x b'\r').0 l))) at more
            | inr l ↦ Reads-plain x v d value (spell_byte_plain quote x e k l) n.0 e k l more
          ]
        ]
      ]

spell_byte-first :
    (quote x : ℕ) (s : Bytes)
    → is_quote quote ≡ true
    → (byte_at (spell_byte quote x ++ s) 0 == quote) ≡ false
unfolding spell_byte
spell_byte-first quote x s q = elim (Bool-cases (x == quote || x == b'\\')) [
  | inl e ↦ rw e (ground arith)
  | inr e ↦ elim (Bool-cases (x == b'\n')) [
    | inl k ↦ rw (e, k) (ground arith)
    | inr k ↦ elim (Bool-cases (x == b'\r')) [
      | inl l ↦ rw (e, k, l) (ground arith)
      | inr l ↦ rw (e, k, l) ((plain_quote (x == quote) (x == b'\\') e).0)
    ]
  ]
]

opens_short :
    (quote : ℕ) (v rest : Bytes)
    → is_quote quote ≡ true
    → begins_with quote rest ≡ false
    → let s = spell quote v ++ quote ∷ rest in
      (byte_at s 0 == quote && byte_at s 1 == quote) ≡ false
unfolding spell
opens_short quote [] [] q h = ground arith
opens_short quote [] (r ∷ rest) q h = ground arith
opens_short quote (x ∷ v) rest q h =
    let first = spell_byte-first quote x (spell quote v ++ quote ∷ rest) q in
    let at = spell-cons quote x v rest (spell_byte quote x) refl in rw (at, first) refl

-- A text without NUL, spelled between quotes, is read back as a string literal with that text, and
-- what follows the closing quote is left, if it does not begin with a quote.
pub lex_string-spell :
    (quote : ℕ) (v rest : Bytes) (c : Cursor)
    → is_quote quote ≡ true
    → All (λ x. x ≢ 0) v
    → begins_with quote rest ≡ false
    → c.rest ≡ quote ∷ (spell quote v ++ quote ∷ rest)
    → (d : Cursor) × (lex_string c ≡ ok (make_token TokenType.string_literal v c.line c.column, d))
      × (d.rest ≡ rest)
unfolding lex_string
lex_string-spell quote v rest c q n h at =
    let first : peek c 0 ≡ quote = ap (λ r. byte_at r 0) at in
    let short : (peek c 1 == peek c 0 && peek c 2 == peek c 0) ≡ false =
      rw at (opens_short quote v rest q h) in
    let inside = one_step c quote (spell quote v ++ quote ∷ rest) at in
    let (d, r, left) = string_loop-spell quote q rest v (advance_by 1 c) [] n inside in
    (d, rw (short, first, inside, r) refl, left)
