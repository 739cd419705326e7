-- ===== src/Template/Shape.antt =====
-- Templates that differ in their column names only, src/sparql2sql/TemplateUtil.cpp
-- (`sameTemplateShape`). The two vectors of seen names are arguments of the numbering loop.
pub mod Columns
pub mod Same
use sql2rdf.Base.{
  ℕ, zero, suc, ◌<◌, ◌≤◌, Bool, true, false, not, ◌||◌, ◌&&◌, List, [], ◌∷◌, ◌++◌, map, Option,
  none, some, ◌==◌, ==_iff, if◌then◌else◌, length, length-append, Bytes, equal, equal_iff, &&_elim,
  any_of, ◌⊎◌, Bool-cases, Option-cases, ◌≡◌, refl, sym, ap, ◌∙◌, arith, append_assoc, append-nil,
  inl, inr,
}
use mathlib.Core.List.{map-append}
use mathlib.Core.Path.{subst}
use sql2rdf.Node.{TermType, Row}
use sql2rdf.Template.{
  Segment, literal, placeholder, parse_template, referenced_loop, referenced_columns,
}
use sql2rdf.Template.Expand.{
  expand, piece, fill, node_type, should_percent_encode, expand-parse_template, encode_if,
}

-- `std::find(seen.begin(), seen.end(), name)`, as an index.
unfoldable pub index_of : Bytes → List Bytes → Option ℕ
index_of name [] = none
index_of name (c ∷ seen) =
    if equal c name
    then some 0
    else elim (index_of name seen) [ none ↦ none | some k ↦ some (suc k) ]

-- The numbering of a segment list: `none` is the −1 of a literal.
unfoldable pub canon : List Segment → List Bytes → List (Option ℕ)
canon [] seen = []
canon (seg ∷ segs) seen =
    let first = canon segs (seen ++ seg.text ∷ []) in
    let again = canon segs seen in
    if seg.is_placeholder
    then elim (index_of seg.text seen) [
      | none ↦ some (length seen) ∷ first
      | some k ↦ some k ∷ again
    ]
    else none ∷ again

-- `a == b` on the numbers of the numbering.
unfoldable pub same_number : Option ℕ → Option ℕ → Bool
same_number none none = true
same_number (some j) (some k) = j == k
same_number _ _ = false

-- The tests on one position of both lists.
unfoldable pub same_segment : Segment → Option ℕ → Segment → Option ℕ → Bool
same_segment a i b j =
    if a.is_placeholder
    then b.is_placeholder && same_number i j
    else not b.is_placeholder && equal a.text b.text

unfoldable pub same_segments :
    List Segment → List (Option ℕ) → List Segment → List (Option ℕ) → Bool
same_segments (a ∷ as_) (i ∷ is) (b ∷ bs) (j ∷ js) =
    same_segment a i b j && same_segments as_ is bs js
same_segments _ _ _ _ = true

unfoldable pub same_template_shape : Bytes → Bytes → Bool
unfolding equal parse_template canon index_of same_segments same_segment same_number
same_template_shape a b =
    if equal a b
    then true
    else let as_ = parse_template a in
      let bs = parse_template b in
      if length as_ == length bs then same_segments as_ (canon as_ []) bs (canon bs []) else false
