-- ===== src/Lexer/Progress/Scan.antt =====
-- Progress of whitespace and IRI references.
use sql2rdf.Base.{
  ℕ, Bool, true, false, ◌||◌, [], ◌∷◌, ◌++◌, ◌==◌, Bytes, Bool-cases, inl, inr, ◌≡◌, ◌≢◌, refl,
  arith,
}
use sql2rdf.Lexer.Cursor.{Cursor, peek, step, advance}
use sql2rdf.Lexer.Scan.{
  is_space, skip_loop, skip_whitespace_and_comments, ends_iriref, iriref_loop, lex_iriref,
}
use sql2rdf.Lexer.Progress.{
  Past, Past-refl, Past-trans, Good, error-Good, if-Good, Exact-Past, step-Exact, advance-Exact,
  then-Good,
}

skip_then : (c d : Cursor) (x : ℕ) (s : Bytes) → c.rest ≡ x ∷ s → Past 0 (step x s c) d → Past 0 c d
skip_then c d x s at p =
    Past-trans 1 0 0 c (step x s c) d (omega arith)
      (Exact-Past 1 1 c (step x s c) (omega arith) (step-Exact x s c at)) p

skip_loop-Past :
    (in_comment : Bool) (r : Bytes) (c : Cursor) → c.rest ≡ r → Past 0 c (skip_loop in_comment r c)
unfolding skip_loop
skip_loop-Past b [] c at = Past-refl c
skip_loop-Past false (x ∷ s) c at = elim (Bool-cases (is_space x)) [
  | inl e ↦ rw e (skip_then c _ x s at (skip_loop-Past false s (step x s c) refl))
  | inr e ↦ elim (Bool-cases (x == b'#')) [
    | inl k ↦ rw (e, k) (skip_then c _ x s at (skip_loop-Past true s (step x s c) refl))
    | inr k ↦ rw (e, k) (Past-refl c)
  ]
]
skip_loop-Past true (x ∷ s) c at = elim (Bool-cases (x == 0)) [
  | inl e ↦ rw e (Past-refl c)
  | inr e ↦ elim (Bool-cases (x == b'\n' || x == b'\r')) [
    | inl k ↦ rw (e, k) (skip_then c _ x s at (skip_loop-Past false s (step x s c) refl))
    | inr k ↦ rw (e, k) (skip_then c _ x s at (skip_loop-Past true s (step x s c) refl))
  ]
]

pub skip-Past : (c : Cursor) → Past 0 c (skip_whitespace_and_comments c)
unfolding skip_whitespace_and_comments
skip-Past c = skip_loop-Past false c.rest c refl

iriref_loop-Good :
    (r : Bytes) (c d : Cursor) (value : Bytes)
    → d.rest ≡ r
    → Past 0 c d
    → Good 0 c (iriref_loop r d value)
unfolding iriref_loop
iriref_loop-Good [] c d value at p = error-Good Bytes 0 c _ d
iriref_loop-Good (x ∷ s) c d value at p =
    let stepped =
      Past-trans 0 1 0 c d (step x s d) (omega arith) p
        (Exact-Past 1 1 d (step x s d) (omega arith) (step-Exact x s d at)) in
    if-Good 0 c (x == 0) _ _ (λ _. error-Good Bytes 0 c _ d)
      (λ _.
        if-Good 0 c (x == b'>') _ _ (λ _. stepped)
          (λ _.
            if-Good 0 c (ends_iriref x) _ _ (λ _. error-Good Bytes 0 c _ d)
              (λ _. iriref_loop-Good s c (step x s d) (value ++ x ∷ []) refl stepped)))

pub lex_iriref-Good : (c : Cursor) → peek c 0 ≢ 0 → Good 1 c (lex_iriref c)
unfolding lex_iriref
lex_iriref-Good c n =
    then-Good 1 0 1 c (advance c) (iriref_loop (advance c).rest (advance c) []) _
      (Exact-Past 1 1 c (advance c) (omega arith) (advance-Exact c n))
      (iriref_loop-Good (advance c).rest (advance c) (advance c) [] refl (Past-refl (advance c)))
      (λ value end p. Past-trans 1 0 1 c end end (omega arith) p (Past-refl end))
