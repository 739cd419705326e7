-- ===== src/Template/Anchors.antt =====
-- Pruning of candidate pairs by their templates, src/sparql2sql/TemplateUtil.cpp
-- (`templatesCanEverMatch`, `literalPrefixesCompatible`, `literalSuffixesCompatible`).
use sql2rdf.Base.{
  ℕ, ◌+◌, ◌-◌, ◌≤◌, Bool, true, false, not, ◌&&◌, List, [], ◌∷◌, ◌++◌, some, leb, if◌then◌else◌,
  length, length-append, take, drop, take_all, take_append_self, drop_append_self, all_of, Bytes,
  leb→le, leb→ge, ◌⊎◌, equal, equal_refl, equal-ne, Bool-cases, ◌≡◌, ◌≢◌, refl, sym, ap, ◌∙◌, arith,
  inl, inr,
}
use sql2rdf.Node.{Row, TermType}
use sql2rdf.Template.{Segment, literal, parse_template}
use sql2rdf.Template.Expand.{fill, expand, node_type, should_percent_encode, expand-parse_template}
use sql2rdf.Template.Normal.{render}
use sql2rdf.Template.Invert.{last_segment}
use sql2rdf.Template.Ends.{fill-front, fill-back, drop-append_add, take-append_le}

abbrev shorter : Bytes → Bytes → ℕ
shorter a b = if leb (length a) (length b) then length a else length b

unfoldable pub prefixes_compatible : Bytes → Bytes → Bool
prefixes_compatible a b = equal (take (shorter a b) a) (take (shorter a b) b)

unfoldable pub suffixes_compatible : Bytes → Bytes → Bool
suffixes_compatible a b =
    let n = shorter a b in equal (drop (length a - n) a) (drop (length b - n) b)

unfoldable pub literal_only : List Segment → Bool
unfolding all_of
literal_only = all_of (λ seg. not seg.is_placeholder)

-- The tests behind the two parses, for segment lists that are not empty.
unfoldable pub anchors_compatible : Segment → List Segment → Segment → List Segment → Bool
anchors_compatible a as_ b bs =
    if literal_only (a ∷ as_) && literal_only (b ∷ bs)
    then false
    else if not a.is_placeholder
        && (not b.is_placeholder && not (prefixes_compatible a.text b.text))
    then false
    else let last_a = last_segment a as_ in
      let last_b = last_segment b bs in
      not (
        not last_a.is_placeholder
        && (not last_b.is_placeholder && not (suffixes_compatible last_a.text last_b.text)))

segments_can_ever_match : List Segment → List Segment → Bool
segments_can_ever_match (a ∷ as_) (b ∷ bs) = anchors_compatible a as_ b bs
segments_can_ever_match _ _ = true

unfoldable pub templates_can_ever_match : Bytes → Bytes → Bool
unfolding equal parse_template segments_can_ever_match anchors_compatible literal_only
    prefixes_compatible suffixes_compatible last_segment
templates_can_ever_match a b =
    if equal a b then true else segments_can_ever_match (parse_template a) (parse_template b)

take-prefix : (a b r q : Bytes) → length a ≤ length b → a ++ r ≡ b ++ q → take (length a) b ≡ a
take-prefix a b r q le h =
    sym (take-append_le (length a) b q le) ∙ ap (take (length a)) (sym h) ∙ take_append_self a r

prefixes_compatible-append : (a b r q : Bytes) → a ++ r ≡ b ++ q → prefixes_compatible a b ≡ true
unfolding prefixes_compatible
prefixes_compatible-append a b r q h = elim (Bool-cases (leb (length a) (length b))) [
  | inl e ↦
      rw e (rw (take_all a, take-prefix a b r q (leb→le (length a) (length b) e) h, equal_refl a))
  | inr e ↦
      rw e (
        rw (take_all b, take-prefix b a q r (leb→ge (length a) (length b) e) (sym h), equal_refl b))
]

drop-suffix :
    (a b r q : Bytes) → length a ≤ length b → r ++ a ≡ q ++ b → drop (length b - length a) b ≡ a
drop-suffix a b r q le h =
    let lengths = ap length h in
    let n : length q + (length b - length a) ≡ length r =
      omega (arith, lengths, length-append r a, length-append q b) in
    sym (drop-append_add (length b - length a) q b)
    ∙ ap (λ k. drop k (q ++ b)) n
    ∙ ap (drop (length r)) (sym h)
    ∙ drop_append_self r a

drop-sub_self : (a : Bytes) → drop (length a - length a) a ≡ a
drop-sub_self a = ap (λ k. drop k a) {x = length a - length a} {y = 0} (omega arith)

suffixes_compatible-append : (a b r q : Bytes) → r ++ a ≡ q ++ b → suffixes_compatible a b ≡ true
unfolding suffixes_compatible
suffixes_compatible-append a b r q h = elim (Bool-cases (leb (length a) (length b))) [
  | inl e ↦
      rw e
        (rw (drop-sub_self a, drop-suffix a b r q (leb→le (length a) (length b) e) h, equal_refl a))
  | inr e ↦ rw e (
      rw (
        drop-sub_self b,
        drop-suffix b a q r (leb→ge (length a) (length b) e) (sym h),
        equal_refl b,
      ))
]

literal_only_tail :
    (seg : Segment) (segs : List Segment)
    → literal_only (seg ∷ segs) ≡ true
    → (seg.is_placeholder ≡ false) × (literal_only segs ≡ true)
unfolding literal_only
literal_only_tail seg segs h = ground arith

-- A template without placeholders makes its own text.
fill-literal_only :
    (enc : Bool) (row : Row) (segs : List Segment)
    → literal_only segs ≡ true
    → fill enc row segs ≡ some (render segs)
unfolding fill render
fill-literal_only enc row [] h = refl
fill-literal_only enc row (seg ∷ segs) h =
    let (plain, rest) = literal_only_tail seg segs h in
    rw (fill-literal_only enc row segs rest) (ground arith)

-- Three tests that say why a pair was ruled out.
Conflict : Segment → Segment → Bool → Type 0
Conflict a b compatible =
    (a.is_placeholder ≡ false) × (b.is_placeholder ≡ false) × (compatible ≡ false)

conflict :
    (a b : Segment) (compatible : Bool)
    → (not a.is_placeholder && (not b.is_placeholder && not compatible)) ≡ true
    → Conflict a b compatible
unfolding Conflict
conflict a b compatible h = ground arith

anchors_compatible-false :
    (a : Segment) (as_ : List Segment) (b : Segment) (bs : List Segment)
    → anchors_compatible a as_ b bs ≡ false
    → ((literal_only (a ∷ as_) ≡ true) × (literal_only (b ∷ bs) ≡ true))
      ⊎ (Conflict a b (prefixes_compatible a.text b.text)
          ⊎ Conflict
              (last_segment a as_)
              (last_segment b bs)
              (suffixes_compatible (last_segment a as_).text (last_segment b bs).text))
unfolding anchors_compatible Conflict
anchors_compatible-false a as_ b bs h = ground arith

module _ (e e' : Bool) (row row' : Row) where
  fronts_differ :
      (a : Segment) (as_ : List Segment) (b : Segment) (bs : List Segment) (s s' : Bytes)
      → fill e row (a ∷ as_) ≡ some s
      → fill e' row' (b ∷ bs) ≡ some s'
      → Conflict a b (prefixes_compatible a.text b.text)
      → s ≢ s'
  unfolding Conflict
  fronts_differ a as_ b bs s s' f f' (plain, plain', clash) same =
      let (r, joined) = fill-front e row a as_ s plain f in
      let (r', joined') = fill-front e' row' b bs s' plain' f' in
      let compatible =
        prefixes_compatible-append a.text b.text r r' (sym joined ∙ same ∙ joined') in
      cc

  backs_differ :
      (a : Segment) (as_ : List Segment) (b : Segment) (bs : List Segment) (s s' : Bytes)
      → fill e row (a ∷ as_) ≡ some s
      → fill e' row' (b ∷ bs) ≡ some s'
      → Conflict
          (last_segment a as_)
          (last_segment b bs)
          (suffixes_compatible (last_segment a as_).text (last_segment b bs).text)
      → s ≢ s'
  unfolding Conflict
  backs_differ a as_ b bs s s' f f' (plain, plain', clash) same =
      let (r, joined) = fill-back e row a as_ s plain f in
      let (r', joined') = fill-back e' row' b bs s' plain' f' in
      let compatible =
        suffixes_compatible-append (last_segment a as_).text (last_segment b bs).text r r'
          (sym joined ∙ same ∙ joined') in
      cc

  segments_differ :
      (as_ bs : List Segment) (s s' : Bytes)
      → segments_can_ever_match as_ bs ≡ false
      → render as_ ≢ render bs
      → fill e row as_ ≡ some s
      → fill e' row' bs ≡ some s'
      → s ≢ s'
  unfolding segments_can_ever_match
  segments_differ (a ∷ as_) (b ∷ bs) s s' h ne f f' same =
      elim (anchors_compatible-false a as_ b bs h) [
        | inl (plain, plain') ↦
            let made = fill-literal_only e row (a ∷ as_) plain in
            let made' = fill-literal_only e' row' (b ∷ bs) plain' in ne cc
        | inr (inl clash) ↦ fronts_differ a as_ b bs s s' f f' clash same
        | inr (inr clash) ↦ backs_differ a as_ b bs s s' f f' clash same
      ]
  segments_differ _ _ s s' h ne f f' same = cc

ruled_out :
    (a b : Bytes)
    → templates_can_ever_match a b ≡ false
    → (equal a b ≡ false) × (segments_can_ever_match (parse_template a) (parse_template b) ≡ false)
unfolding templates_can_ever_match
ruled_out a b h = elim (Bool-cases (equal a b)) [
  | inl e ↦ absurd (cc (rw e at h))
  | inr e ↦ (e, rw e at h)
]

segments_compared :
    (a b : Bytes)
    → equal a b ≡ false
    → templates_can_ever_match a b ≡ segments_can_ever_match (parse_template a) (parse_template b)
unfolding templates_can_ever_match
segments_compared a b h = rw h

-- Two different texts that both parse to one literal are ruled out.
pub literals_ruled_out :
    (a b t : Bytes)
    → equal a b ≡ false
    → parse_template a ≡ literal t ∷ []
    → parse_template b ≡ literal t ∷ []
    → templates_can_ever_match a b ≡ false
literals_ruled_out a b t h p q =
    segments_compared a b h
    ∙ rw (p, q) (unfold segments_can_ever_match anchors_compatible literal_only in refl)

-- Every brace of the template is closed, so that nothing is cut off.
abbrev pub IsClosed : Bytes → Type 0
IsClosed templ = render (parse_template templ) ≡ templ

-- Pruning is safe: of two templates whose braces are all closed and that `templatesCanEverMatch`
-- rules out, no two rows make equal values, whatever term types the two maps have.
pub templates_can_ever_match_sound :
    (a b : Bytes) (t t' : TermType) (row row' : Row) (s s' : Bytes)
    → IsClosed a
    → IsClosed b
    → templates_can_ever_match a b ≡ false
    → expand t a row ≡ some s
    → expand t' b row' ≡ some s'
    → s ≢ s'
templates_can_ever_match_sound a b t t' row row' s s' closed closed' h f f' =
    let (differ, apart) = ruled_out a b h in
    segments_differ (should_percent_encode (node_type t)) (should_percent_encode (node_type t')) row
      row' (parse_template a) (parse_template b) s s' apart
      (λ same. equal-ne a b differ (sym closed ∙ same ∙ closed'))
      (sym (expand-parse_template t a row) ∙ f) (sym (expand-parse_template t' b row') ∙ f')
