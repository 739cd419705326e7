-- ===== src/Template/Shape/Same.antt =====
-- Templates of one shape: their columns and their terms.
use sql2rdf.Base.{
  ℕ, Bool, true, false, List, [], ◌∷◌, ◌++◌, map, Option, none, some, ◌==◌, ==_iff, length, Bytes,
  equal, equal_iff, &&_elim, ◌⊎◌, Bool-cases, ◌≡◌, refl, sym, ap, ◌∙◌, arith, inl, inr,
}
use mathlib.Core.List.{map-append}
use mathlib.Core.Path.{subst}
use sql2rdf.Node.{TermType, Row}
use sql2rdf.Template.{Segment, parse_template, referenced_loop, referenced_columns}
use sql2rdf.Template.Expand.{
  expand, piece, fill, node_type, should_percent_encode, expand-parse_template,
}
use sql2rdf.Template.Shape.{
  index_of, canon, same_number, same_segment, same_segments, same_template_shape,
}
use sql2rdf.Template.Shape.Columns.{
  nth-append, nth-index_of, mark, grow, referenced_loop-grow, canon-mark, index_of-grow,
  length-grow, referenced_loop_extends,
}

-- What two segments at one position have in common, by the columns seen up to them.
abbrev Alike : Segment → List Bytes → Segment → List Bytes → Type 0
Alike a seen b seen' =
    (a.is_placeholder ≡ false × (b.is_placeholder ≡ false × (a.text ≡ b.text)))
    ⊎ (a.is_placeholder ≡ true
        × (b.is_placeholder ≡ true
            × ((k : ℕ) × (index_of a.text seen ≡ some k) × (index_of b.text seen' ≡ some k))))

-- The columns seen behind the first segments, when the rest is still of one shape.
record Next (a : Segment) (as_ : List Segment) (seen : List Bytes) (b : Segment) (bs : List Segment)
    (seen' : List Bytes) : Type 0 where
  left : List Bytes
  right : List Bytes
  left_columns : referenced_loop (a ∷ as_) seen ≡ referenced_loop as_ left
  right_columns : referenced_loop (b ∷ bs) seen' ≡ referenced_loop bs right
  same_length : length left ≡ length right
  same_rest : same_segments as_ (canon as_ left) bs (canon bs right) ≡ true
  alike : Alike a left b right

advance :
    (p q : Bool) (s t : Bytes) (as_ bs : List Segment) (seen seen' : List Bytes)
    → let a : Segment = record { is_placeholder = p; text = s } in
      let b : Segment = record { is_placeholder = q; text = t } in
      same_segments (a ∷ as_) (canon (a ∷ as_) seen) (b ∷ bs) (canon (b ∷ bs) seen') ≡ true
      → length seen ≡ length seen'
      → Next a as_ seen b bs seen'
advance false false s t as_ bs seen seen' h n =
    let both : (equal s t ≡ true)
        × (same_segments as_ (canon as_ seen) bs (canon bs seen') ≡ true) =
      unfold canon same_segments same_segment in &&_elim _ _ h in
    record {
      left = seen;
      right = seen';
      left_columns = unfold referenced_loop in refl;
      right_columns = unfold referenced_loop in refl;
      same_length = n;
      same_rest = both.1;
      alike = inl (refl, (refl, (equal_iff s t).0 both.0));
    }
advance false true s t as_ bs seen seen' h n =
    unfold canon same_segments same_segment in cc (rw (canon-mark t bs seen') at h)
advance true false s t as_ bs seen seen' h n =
    unfold canon same_segments same_segment in cc (rw (canon-mark s as_ seen) at h)
advance true true s t as_ bs seen seen' h n =
    let both : ((mark s seen == mark t seen') ≡ true)
        × (same_segments as_ (canon as_ (grow s seen)) bs (canon bs (grow t seen')) ≡ true) =
      unfold same_segments same_segment same_number in
      &&_elim _ _ (rw (canon-mark s as_ seen, canon-mark t bs seen') at h) in
    let e = (==_iff (mark s seen) (mark t seen')).0 both.0 in
    record {
      left = grow s seen;
      right = grow t seen';
      left_columns = referenced_loop-grow s as_ seen;
      right_columns = referenced_loop-grow t bs seen';
      same_length = length-grow s t seen seen' n e;
      same_rest = both.1;
      alike = inr (refl, (refl, (mark s seen, index_of-grow s seen, rw e (index_of-grow t seen'))));
    }

piece-Alike :
    (enc : Bool) (row row' : Row) (a b : Segment) (left right : List Bytes)
    (more more' : List Bytes)
    → Alike a left b right
    → map row (left ++ more) ≡ map row' (right ++ more')
    → piece enc row a ≡ piece enc row' b
unfolding piece
piece-Alike enc row row' a b left right more more' (inl (p, (q, e))) h = rw (p, q, e) refl
piece-Alike enc row row' a b left right more more' (inr (p, (q, (k, i, j)))) h =
    let x = nth-append (map row left) (map row more) k _ (nth-index_of row a.text left k i) in
    let y = nth-append (map row' right) (map row' more') k _ (nth-index_of row' b.text right k j) in
    let same : row a.text ≡ row' b.text =
      cc (x, y, map-append row left more, map-append row' right more', h) in
    rw (p, q, same) refl

module _ (enc : Bool) (row row' : Row) where
  fill-same_segments :
      (as_ bs : List Segment) (seen seen' : List Bytes)
      → length as_ ≡ length bs
      → same_segments as_ (canon as_ seen) bs (canon bs seen') ≡ true
      → length seen ≡ length seen'
      → map row (referenced_loop as_ seen) ≡ map row' (referenced_loop bs seen')
      → fill enc row as_ ≡ fill enc row' bs
  unfolding fill
  fill-same_segments [] [] seen seen' l h n m = refl
  fill-same_segments [] (b ∷ bs) seen seen' l h n m = absurd (omega arith)
  fill-same_segments (a ∷ as_) [] seen seen' l h n m = absurd (omega arith)
  fill-same_segments (a ∷ as_) (b ∷ bs) seen seen' l h n m =
      let next = advance a.is_placeholder b.is_placeholder a.text b.text as_ bs seen seen' h n in
      let agree : map row (referenced_loop as_ next.left)
          ≡ map row' (referenced_loop bs next.right) =
        ap (map row) (sym next.left_columns) ∙ m ∙ ap (map row') next.right_columns in
      let (more, x) = referenced_loop_extends as_ next.left in
      let (more', y) = referenced_loop_extends bs next.right in
      let front =
        piece-Alike enc row row' a b next.left next.right more more' next.alike
          (ap (map row) (sym x) ∙ agree ∙ ap (map row') y) in
      let rest =
        fill-same_segments as_ bs next.left next.right (omega arith) next.same_rest next.same_length
          agree in
      rw (front, rest) refl

length-same_segments :
    (as_ bs : List Segment) (seen seen' : List Bytes)
    → length as_ ≡ length bs
    → same_segments as_ (canon as_ seen) bs (canon bs seen') ≡ true
    → length seen ≡ length seen'
    → length (referenced_loop as_ seen) ≡ length (referenced_loop bs seen')
length-same_segments [] [] seen seen' l h n = unfold referenced_loop in n
length-same_segments [] (b ∷ bs) seen seen' l h n = absurd (omega arith)
length-same_segments (a ∷ as_) [] seen seen' l h n = absurd (omega arith)
length-same_segments (a ∷ as_) (b ∷ bs) seen seen' l h n =
    let next = advance a.is_placeholder b.is_placeholder a.text b.text as_ bs seen seen' h n in
    let rest =
      length-same_segments as_ bs next.left next.right (omega arith) next.same_rest
        next.same_length in
    ap length next.left_columns ∙ rest ∙ ap length (sym next.right_columns)

same_segments_refl :
    (segs : List Segment) (is : List (Option ℕ)) → same_segments segs is segs is ≡ true
unfolding same_segments same_segment same_number
same_segments_refl [] is = refl
same_segments_refl (seg ∷ segs) [] = refl
same_segments_refl (seg ∷ segs) (none ∷ is) =
    ground (arith, same_segments_refl segs is, (equal_iff seg.text seg.text).1 refl)
same_segments_refl (seg ∷ segs) (some k ∷ is) =
    ground
      (arith, same_segments_refl segs is, (equal_iff seg.text seg.text).1 refl, (==_iff k k).1 refl)

same_template_shape_lem :
    (a b : Bytes)
    → same_template_shape a b ≡ true
    → (length (parse_template a) ≡ length (parse_template b))
      × (same_segments
            (parse_template a)
            (canon (parse_template a) [])
            (parse_template b)
            (canon (parse_template b) [])
          ≡ true)
unfolding same_template_shape
same_template_shape_lem a b h = elim (Bool-cases (equal a b)) [
  | inl e ↦
      let path = (equal_iff a b).0 e in
      let same : Bytes → Type 0 = (λ x.
        same_segments (parse_template a) (canon (parse_template a) []) (parse_template x)
          (canon (parse_template x) [])
        ≡ true) in
      (
        ap (λ x. length (parse_template x)) path,
        subst same path (same_segments_refl (parse_template a) (canon (parse_template a) [])),
      )
  | inr e ↦ elim (Bool-cases (length (parse_template a) == length (parse_template b))) [
    | inl l ↦ ((==_iff (length (parse_template a)) (length (parse_template b))).0 l, rw (e, l) at h)
    | inr l ↦ absurd (cc (rw (e, l) at h))
  ]
]

-- Two templates of one shape refer to equally many columns.
length-same_template_shape :
    (a b : Bytes)
    → same_template_shape a b ≡ true
    → length (referenced_columns (parse_template a))
      ≡ length (referenced_columns (parse_template b))
unfolding referenced_columns
length-same_template_shape a b h =
    let (l, s) = same_template_shape_lem a b h in
    length-same_segments (parse_template a) (parse_template b) [] [] l s refl

-- If two templates have one shape, and two rows agree on the columns that they refer to, place by
-- place, then both templates make the same term, or neither makes one.
pub expand-same_template_shape :
    (a b : Bytes) (t : TermType) (row row' : Row)
    → same_template_shape a b ≡ true
    → map row (referenced_columns (parse_template a))
      ≡ map row' (referenced_columns (parse_template b))
    → expand t a row ≡ expand t b row'
unfolding referenced_columns
expand-same_template_shape a b t row row' h m =
    let (l, s) = same_template_shape_lem a b h in
    expand-parse_template t a row
    ∙ fill-same_segments (should_percent_encode (node_type t)) row row' (parse_template a)
        (parse_template b) [] [] l s refl m
    ∙ sym (expand-parse_template t b row')
