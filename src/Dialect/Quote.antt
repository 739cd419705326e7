-- ===== src/Dialect/Quote.antt =====
-- A scanner of quoted SQL tokens, and escaping (`escapeAndWrap`).
use sql2rdf.Base.{
  ℕ, Bool, false, [], ◌∷◌, ◌++◌, ◌==◌, ==_refl, ==_iff, if◌then◌else◌, Option, none, some, Bytes,
  ◌>>=◌, ◌≡◌, append_assoc, Bool-cases, inl, inr,
}
use sql2rdf.Dialect.{escape, escape_and_wrap}

-- How SQL reads a quoted token behind its opening quote: a doubled quote stands for one, and a
-- single one ends the token. The result is the value and the text behind the token.
unfoldable pub scan_quoted : ℕ → Bytes → Option (Bytes × Bytes)
scan_quoted q [] = none
scan_quoted q (c ∷ []) = if c == q then some ([], []) else none
scan_quoted q (c ∷ d ∷ s) =
    let doubled = (do (v, rest) ← scan_quoted q s; some (q ∷ v, rest)) in
    let plain = (do (v, rest) ← scan_quoted q (d ∷ s); some (c ∷ v, rest)) in
    if c == q then (if d == q then doubled else some ([], d ∷ s)) else plain

unfoldable pub read_quoted : ℕ → Bytes → Option (Bytes × Bytes)
unfolding scan_quoted
read_quoted q [] = none
read_quoted q (c ∷ s) = if c == q then scan_quoted q s else none

-- The text behind a token does not begin with the quote.
abbrev pub begins_with : ℕ → Bytes → Bool
begins_with q [] = false
begins_with q (c ∷ _) = c == q

scan_quoted_end :
    (q : ℕ) (rest : Bytes) → begins_with q rest ≡ false → scan_quoted q (q ∷ rest) ≡ some ([], rest)
unfolding scan_quoted
scan_quoted_end q [] h = rw (==_refl q)
scan_quoted_end q (d ∷ rest) h = rw (==_refl q, h)

scan_quoted_double :
    (q : ℕ) (s : Bytes)
    → scan_quoted q (q ∷ q ∷ s) ≡ (scan_quoted q s >>= λ (v, rest). some (q ∷ v, rest))
unfolding scan_quoted
scan_quoted_double q s = rw (==_refl q)

scan_quoted_plain :
    (q c : ℕ) (s : Bytes)
    → (c == q) ≡ false
    → scan_quoted q (c ∷ s) ≡ (scan_quoted q s >>= λ (v, rest). some (c ∷ v, rest))
unfolding scan_quoted
scan_quoted_plain q c [] h = rw h
scan_quoted_plain q c (d ∷ s) h = rw h

scan_quoted-escape :
    (q : ℕ) (v rest : Bytes)
    → begins_with q rest ≡ false
    → scan_quoted q (escape q v ++ q ∷ rest) ≡ some (v, rest)
unfolding escape
scan_quoted-escape q [] rest h = scan_quoted_end q rest h
scan_quoted-escape q (c ∷ v) rest h = elim (Bool-cases (c == q)) [
  | inl e ↦
      let same : c ≡ q = (==_iff c q).0 e in
      rw e (rw (same, scan_quoted_double q (escape q v ++ q ∷ rest), scan_quoted-escape q v rest h))
  | inr e ↦
      rw e (rw (scan_quoted_plain q c (escape q v ++ q ∷ rest) e, scan_quoted-escape q v rest h))
]

-- A quoted value reads back, whatever it holds, in front of any text that does not begin with the
-- quote.
pub read_quoted-escape_and_wrap :
    (q : ℕ) (v rest : Bytes)
    → begins_with q rest ≡ false
    → read_quoted q (escape_and_wrap v q ++ rest) ≡ some (v, rest)
unfolding read_quoted escape_and_wrap
read_quoted-escape_and_wrap q v rest h =
    rw (==_refl q, append_assoc (escape q v) (q ∷ []) rest) (scan_quoted-escape q v rest h)
