-- ===== src/NativeKey/Sound.antt =====
-- Joins on native columns and the terms of their rows.
use mathlib.Core.Path.{subst}
use sql2rdf.Base.{
  All, Bool, true, false, not, ◌||◌, List, [], ◌∷◌, some, ◌==◌, ==_iff, if◌then◌else◌, length,
  is_empty, Bytes, map, ◌≡◌, ◌≢◌, refl, sym, ap, ◌∙◌, arith, Bool-cases, Option-cases, inl, inr,
}
use sql2rdf.Node.{TermType, Row}
use sql2rdf.Catalog.{TypeCatalog, comparable}
use sql2rdf.Template.{parse_template, referenced_columns}
use sql2rdf.Template.Expand.{expand}
use sql2rdf.Template.Shape.{same_template_shape}
use sql2rdf.Template.Shape.Same.{expand-same_template_shape}
use sql2rdf.NativeKey.{
  Provenance, ColumnInfo, template_pairs, templates_line_up, native_template_pairs,
  native_key_pairs, is_template_expr,
}

length-template_pairs :
    (catalog : TypeCatalog) (s t : Bytes) (cs ds : List (Bytes × Bytes)) (ps : List (Bytes × Bytes))
    → length cs ≡ length ds
    → template_pairs catalog s t cs ds ≡ some ps
    → length ps ≡ length cs
unfolding template_pairs
length-template_pairs catalog s t [] [] ps n h = let e : [] ≡ ps = cc in ap length (sym e)
length-template_pairs catalog s t [] (d ∷ ds) ps n h = absurd (omega arith)
length-template_pairs catalog s t (c ∷ cs) [] ps n h = absurd (omega arith)
length-template_pairs catalog s t (c ∷ cs) (d ∷ ds) ps n h =
    elim (Bool-cases (comparable catalog s c.0 t d.0)) [
      | inr e ↦ absurd (cc (rw e at h))
      | inl e ↦ elim (Option-cases (template_pairs catalog s t cs ds)) [
        | inl o ↦ absurd (cc (rw (e, o) at h))
        | inr (rest, o) ↦
            let whole : (c.1, d.1) ∷ rest ≡ ps = cc (rw (e, o) at h) in
            let tail = length-template_pairs catalog s t cs ds rest (omega arith) o in
            ap length (sym whole) ∙ omega arith
      ]
    ]

abbrev pub names : List (Bytes × Bytes) → List Bytes
names cs = map (λ c. c.0) cs

-- What a native comparison says: for columns that may be compared, if the database finds the two
-- references equal, then the columns have one value in the two rows.
abbrev pub ComparesRows :
    (Bytes → Bytes → Bool)
    → (Bytes → Bytes → Type 0)
    → Row
    → Row
    → List (Bytes × Bytes)
    → List (Bytes × Bytes)
    → Type 0
ComparesRows may Same row row' cs ds =
    All (λ c. All (λ d. may c.0 d.0 ≡ true → Same c.1 d.1 → row c.0 ≡ row' d.0) ds) cs

All-tails :
    (P : Bytes × Bytes → Bytes × Bytes → Type 0) (d : Bytes × Bytes) (cs ds : List (Bytes × Bytes))
    → All (λ c. All (P c) (d ∷ ds)) cs
    → All (λ c. All (P c) ds) cs
All-tails P d [] ds h = tt
All-tails P d (c ∷ cs) ds h = (h.0.1, All-tails P d cs ds h.1)

-- If the database finds both sides of every pair equal, then the columns have the same values.
template_pairs-agree :
    (catalog : TypeCatalog) (s t : Bytes) (Same : Bytes → Bytes → Type 0) (row row' : Row)
    (cs ds : List (Bytes × Bytes)) (ps : List (Bytes × Bytes))
    → length cs ≡ length ds
    → template_pairs catalog s t cs ds ≡ some ps
    → ComparesRows (λ c d. comparable catalog s c t d) Same row row' cs ds
    → All (λ p. Same p.0 p.1) ps
    → map row (names cs) ≡ map row' (names ds)
unfolding template_pairs
template_pairs-agree catalog s t Same row row' [] [] ps n h compares same = refl
template_pairs-agree catalog s t Same row row' [] (d ∷ ds) ps n h compares same =
    absurd (omega arith)
template_pairs-agree catalog s t Same row row' (c ∷ cs) [] ps n h compares same =
    absurd (omega arith)
template_pairs-agree catalog s t Same row row' (c ∷ cs) (d ∷ ds) ps n h compares same =
    elim (Bool-cases (comparable catalog s c.0 t d.0)) [
      | inr e ↦ absurd (cc (rw e at h))
      | inl e ↦ elim (Option-cases (template_pairs catalog s t cs ds)) [
        | inl o ↦ absurd (cc (rw (e, o) at h))
        | inr (rest, o) ↦
            let whole : ps ≡ (c.1, d.1) ∷ rest = cc (rw (e, o) at h) in
            let (first, more) = subst (All (λ p. Same p.0 p.1)) whole same in
            let tail =
              template_pairs-agree catalog s t Same row row' cs ds rest (omega arith) o
                (All-tails
                  (λ c d. comparable catalog s c.0 t d.0 ≡ true → Same c.1 d.1 → row c.0 ≡ row' d.0)
                  d cs ds compares.1)
                more in
            rw (compares.0.0 e first, tail) refl
      ]
    ]

-- The template case is reached.
native_key_pairs-template :
    (catalog : TypeCatalog) (l r : ColumnInfo)
    → l.prov ≡ Provenance.template_expr
    → native_key_pairs (some catalog) l r ≢ []
    → native_key_pairs (some catalog) l r ≡ native_template_pairs catalog l r
unfolding native_key_pairs
native_key_pairs-template catalog l r p ne = elim (Bool-cases (is_template_expr r.prov)) [
  | inl e ↦ rw (p, e) refl
  | inr e ↦ absurd (ne (rw (p, e) refl))
]

line_up_flags :
    (a b shape i j none_left lengths : Bool)
    → (if a || (b || not shape)
        then false
        else if not i || not j
        then false
        else not (none_left || not lengths))
      ≡ true
    → (shape ≡ true) × (lengths ≡ true)
line_up_flags a b shape i j none_left lengths h = ground arith

templates_line_up_lem :
    (l r : ColumnInfo)
    → templates_line_up l r ≡ true
    → (same_template_shape l.template_string r.template_string ≡ true)
      × ((length l.template_columns == length r.template_columns) ≡ true)
unfolding templates_line_up
templates_line_up_lem l r h =
    line_up_flags (is_empty l.template_string) (is_empty r.template_string)
      (same_template_shape l.template_string r.template_string) l.template_invertible
      r.template_invertible (is_empty l.template_columns)
      (length l.template_columns == length r.template_columns) h

native_template_pairs_lem :
    (catalog : TypeCatalog) (l r : ColumnInfo)
    → native_template_pairs catalog l r ≢ []
    → (templates_line_up l r ≡ true)
      × ((ps : List (Bytes × Bytes)) × (template_pairs catalog l.table_identity r.table_identity
              l.template_columns r.template_columns
            ≡ some ps)
          × (native_template_pairs catalog l r ≡ ps))
unfolding native_template_pairs
native_template_pairs_lem catalog l r ne = elim (Bool-cases (templates_line_up l r)) [
  | inr e ↦ absurd (ne (rw e refl))
  | inl e ↦
      elim (Option-cases (
        template_pairs catalog l.table_identity r.table_identity l.template_columns
          r.template_columns)) [
            | inl o ↦ absurd (ne (rw (e, o) refl))
            | inr (ps, o) ↦ (e, (ps, o, rw (e, o) refl))
          ]
]

module _ (catalog : TypeCatalog) (l r : ColumnInfo)
    (of_template : l.prov ≡ Provenance.template_expr)
    (found : native_key_pairs (some catalog) l r ≢ []) where
  facts :
      (templates_line_up l r ≡ true)
      × ((ps : List (Bytes × Bytes)) × (template_pairs catalog l.table_identity r.table_identity
              l.template_columns r.template_columns
            ≡ some ps)
          × (native_template_pairs catalog l r ≡ ps))
  facts =
      native_template_pairs_lem catalog l r
        (λ e. found (native_key_pairs-template catalog l r of_template found ∙ e))

  -- If native pairs are found for a column of templates, then there is one pair for each column of
  -- its template.
  length-native_key_pairs : length (native_key_pairs (some catalog) l r) ≡ length l.template_columns
  length-native_key_pairs =
      let (up, (ps, pairs, whole)) = facts in
      let lengths = (==_iff _ _).0 (templates_line_up_lem l r up).1 in
      ap length (native_key_pairs-template catalog l r of_template found ∙ whole)
      ∙ length-template_pairs catalog l.table_identity r.table_identity l.template_columns
          r.template_columns ps lengths pairs

  -- Let native pairs be found for two columns, the left one of a template; let each have the columns
  -- that its template names; and let two columns that may be compared have one value in the two rows
  -- if the database finds their references equal. If it finds the two sides of every pair equal, then
  -- the two rows make one term, or neither makes a term.
  pub native_key_pairs-expand :
      (t : TermType) (row row' : Row) (Same : Bytes → Bytes → Type 0)
      → names l.template_columns ≡ referenced_columns (parse_template l.template_string)
      → names r.template_columns ≡ referenced_columns (parse_template r.template_string)
      → ComparesRows
          (λ c d. comparable catalog l.table_identity c r.table_identity d)
          Same
          row
          row'
          l.template_columns
          r.template_columns
      → All (λ p. Same p.0 p.1) (native_key_pairs (some catalog) l r)
      → expand t l.template_string row ≡ expand t r.template_string row'
  native_key_pairs-expand t row row' Same left right compares same =
      let (up, (ps, pairs, whole)) = facts in
      let lengths = (==_iff _ _).0 (templates_line_up_lem l r up).1 in
      let e = native_key_pairs-template catalog l r of_template found ∙ whole in
      let values =
        template_pairs-agree catalog l.table_identity r.table_identity Same row row'
          l.template_columns r.template_columns ps lengths pairs compares
          (subst (All (λ p. Same p.0 p.1)) e same) in
      expand-same_template_shape l.template_string r.template_string t row row'
        (templates_line_up_lem l r up).0 (ap (map row) (sym left) ∙ (values ∙ ap (map row') right))
