-- ===== src/Template/Flaws.antt =====
-- Pruning and inversion of src/sparql2sql/TemplateUtil.cpp against forward generation, on templates
-- with an unclosed brace and on values that hold the delimiter.
use sql2rdf.Base.{
  ℕ, false, List, [], ◌∷◌, ◌++◌, none, some, length, Bytes, equal, contains, find-append, find_byte,
  ◌≡◌, refl, sym, ap, ◌∙◌, arith, append-nil, append_assoc,
}
use sql2rdf.Node.{Row, TermType}
use sql2rdf.Template.{Segment, literal, placeholder, flush, parse_loop, parse_template}
use sql2rdf.Template.Expand.{fill, expand, node_type, should_percent_encode, expand-parse_template}
use sql2rdf.Template.Normal.{parse_loop-literal}
use sql2rdf.Template.Invert.{
  never_matches, never, can_split, invert_loop, invert_template, span_length,
}
use sql2rdf.Template.Invert.Complete.{
  invert_loop-placeholder, invert_loop-literal, invert_template_split,
}
use sql2rdf.Template.Anchors.{templates_can_ever_match, literals_ruled_out}

find_byte-none : (d : ℕ) (s : Bytes) → contains s d ≡ false → find_byte d s ≡ none
unfolding contains find_byte
find_byte-none d [] h = refl
find_byte-none d (x ∷ s) h = ground (arith, find_byte-none d s)

parse_template_start : (s : Bytes) → parse_template s ≡ parse_loop s 0 [] []
unfolding parse_template
parse_template_start s = refl

-- A brace that is never closed cuts the template off there.
parse_template_cut :
    (c : ℕ) (t u : Bytes)
    → contains (c ∷ t) b'{' ≡ false
    → contains u b'}' ≡ false
    → parse_template ((c ∷ t) ++ b'{' ∷ u) ≡ literal (c ∷ t) ∷ []
parse_template_cut c t u h k =
    parse_template_start ((c ∷ t) ++ b'{' ∷ u)
    ∙ parse_loop-literal (c ∷ t) (b'{' ∷ u) [] [] h
    ∙ unfold parse_loop flush in rw (find_byte-none b'}' u k)

parse_template_plain :
    (c : ℕ) (t : Bytes)
    → contains (c ∷ t) b'{' ≡ false
    → parse_template (c ∷ t) ≡ literal (c ∷ t) ∷ []
parse_template_plain c t h =
    parse_template_start (c ∷ t)
    ∙ ap (λ s. parse_loop s 0 [] []) (sym (append-nil (c ∷ t)))
    ∙ parse_loop-literal (c ∷ t) [] [] [] h
    ∙ unfold parse_loop flush in refl

expand_text :
    (k : TermType) (row : Row) (templ : Bytes) (t : Bytes)
    → parse_template templ ≡ literal t ∷ []
    → expand k templ row ≡ some t
expand_text k row templ t h =
    expand-parse_template k templ row
    ∙ ap (fill (should_percent_encode (node_type k)) row) h
    ∙ unfold fill in ap some (append-nil t)

equal-append_cons : (t : Bytes) (d : ℕ) (u : Bytes) → equal t (t ++ d ∷ u) ≡ false
unfolding equal
equal-append_cons [] d u = refl
equal-append_cons (x ∷ t) d u = ground (arith, equal-append_cons t d u)

-- A constant template and the same text with an opening brace that is never closed make the same
-- value in every row, and yet `templatesCanEverMatch` rules the pair out.
pub unclosed_brace_ruled_out :
    (c : ℕ) (t u : Bytes) (k : TermType) (row : Row)
    → contains (c ∷ t) b'{' ≡ false
    → contains u b'}' ≡ false
    → let templ = c ∷ t in
      (templates_can_ever_match templ (templ ++ b'{' ∷ u) ≡ false)
      × (expand k templ row ≡ some templ)
      × (expand k (templ ++ b'{' ∷ u) row ≡ some templ)
unclosed_brace_ruled_out c t u k row h h' =
    let plain = parse_template_plain c t h in
    let cut = parse_template_cut c t u h h' in
    (
      literals_ruled_out (c ∷ t) ((c ∷ t) ++ b'{' ∷ u) (c ∷ t) (equal-append_cons (c ∷ t) b'{' u)
          plain cut,
      expand_text k row (c ∷ t) (c ∷ t) plain,
      expand_text k row ((c ∷ t) ++ b'{' ∷ u) (c ∷ t) cut,
    )

-- The segments of the template `{a}d{b}d`.
abbrev pub delimited_pair : Bytes → Bytes → ℕ → List Segment
delimited_pair a b d = placeholder a ∷ literal (d ∷ []) ∷ placeholder b ∷ literal (d ∷ []) ∷ []

fill-delimited_pair :
    (a b : Bytes) (d : ℕ) (row : Row) (x y : Bytes)
    → row a ≡ some x
    → row b ≡ some y
    → fill false row (delimited_pair a b d) ≡ some (x ++ (d ∷ (y ++ d ∷ [])))
unfolding fill
fill-delimited_pair a b d row x y p q = rw p (rw q refl)

span_length-literal :
    (d : ℕ) (segs : List Segment) (u rest : Bytes)
    → contains u d ≡ false
    → span_length (literal (d ∷ []) ∷ segs) (u ++ (d ∷ rest)) ≡ some (length u)
unfolding span_length
span_length-literal d segs u rest h = find-append d [] u rest h

leftover :
    (w : Bytes) (d : ℕ) (found : List (Bytes × Bytes))
    → invert_loop false [] (w ++ d ∷ []) found ≡ never []
unfolding invert_loop
leftover [] d found = refl
leftover (x ∷ w) d found = refl

invert-delimited_pair :
    (a b : Bytes) (d : ℕ) (u v w : Bytes)
    → contains u d ≡ false
    → contains v d ≡ false
    → (invert_template (delimited_pair a b d) (u ++ (d ∷ (v ++ (d ∷ (w ++ d ∷ []))))) false).kind
      ≡ never_matches
invert-delimited_pair a b d u v w h k =
    let rest = w ++ d ∷ [] in
    let mark = literal (d ∷ []) in
    let after_b = mark ∷ [] in
    let after_a = mark ∷ placeholder b ∷ after_b in
    let found = ([] ++ (a, u) ∷ []) in
    let taken = span_length-literal d (placeholder b ∷ after_b) u (v ++ (d ∷ rest)) h in
    let taken' = span_length-literal d [] v rest k in
    ap (λ o. o.kind)
      (invert_template_split (placeholder a) after_a _ false (unfold can_split in refl)
        ∙ invert_loop-placeholder false a u (d ∷ (v ++ (d ∷ rest))) after_a [] taken
        ∙ invert_loop-literal false (d ∷ []) (v ++ (d ∷ rest)) (placeholder b ∷ after_b) found
        ∙ invert_loop-placeholder false b v (d ∷ rest) after_b found taken'
        ∙ invert_loop-literal false (d ∷ []) rest [] (found ++ (b, v) ∷ [])
        ∙ leftover w d (found ++ (b, v) ∷ []))

-- If the delimiter of the template `{a}d{b}d` occurs in the value of its first column (and once
-- only), then inversion rules out the very value that forward generation makes.
pub repeated_delimiter_ruled_out :
    (a b : Bytes) (d : ℕ) (row : Row) (u v w : Bytes)
    → row a ≡ some (u ++ d ∷ v)
    → row b ≡ some w
    → contains u d ≡ false
    → contains v d ≡ false
    → let made = u ++ (d ∷ (v ++ (d ∷ (w ++ d ∷ [])))) in
      (fill false row (delimited_pair a b d) ≡ some made)
      × ((invert_template (delimited_pair a b d) made false).kind ≡ never_matches)
repeated_delimiter_ruled_out a b d row u v w p q h k = (
  fill-delimited_pair a b d row (u ++ d ∷ v) w p q ∙ ap some (append_assoc u (d ∷ v) _),
  invert-delimited_pair a b d u v w h k,
)
