-- ===== src/Template/Invert.antt =====
-- Running a template backwards, src/sparql2sql/TemplateUtil.cpp (`invertTemplate`,
-- `startsWithAt`). `pos` in the bound value is the suffix that is left.
pub mod Complete
use sql2rdf.Base.{
  ℕ, zero, suc, ◌-◌, Bool, true, false, not, ◌&&◌, List, [], ◌∷◌, ◌++◌, Option, none, some, leb,
  if◌then◌else◌, length, take, drop, is_empty, Bytes, starts_with, find, equal,
}
use sql2rdf.Percent.{percent_decode}
use sql2rdf.Template.{Segment}

pub data InversionKind : Type 0 where
  never_matches per_column_match whole_template_match : InversionKind

-- `InversionOutcome`.
pub record Outcome : Type 0 where
  pub kind : InversionKind
  pub column_values : List (Bytes × Bytes)

abbrev pub never : List (Bytes × Bytes) → Outcome
never values = record { kind = never_matches; column_values = values }

abbrev pub whole : Outcome
whole = record { kind = whole_template_match; column_values = [] }

abbrev pub per_column : List (Bytes × Bytes) → Outcome
per_column values = record { kind = per_column_match; column_values = values }

-- No two placeholders touch.
unfoldable pub can_split : List Segment → Bool
can_split (a ∷ b ∷ segs) =
    if a.is_placeholder && b.is_placeholder then false else can_split (b ∷ segs)
can_split _ = true

-- `boundValue.compare(size - n, n, suffix) == 0`, behind the test of the sizes.
unfoldable pub ends_with : Bytes → Bytes → Bool
ends_with s t = leb (length t) (length s) && equal (drop (length s - length t) s) t

-- `segments.front()` and `segments.back()` of `seg ∷ segs`.
unfoldable pub last_segment : Segment → List Segment → Segment
last_segment seg [] = seg
last_segment seg (next ∷ segs) = last_segment next segs

-- The branch for segments that cannot be split: only the anchors at both ends are tested.
unfoldable pub match_anchors : Segment → List Segment → Bytes → Outcome
match_anchors seg segs bound =
    let back = last_segment seg segs in
    if not seg.is_placeholder && not (starts_with bound seg.text)
    then never []
    else if not back.is_placeholder && not (ends_with bound back.text)
    then never []
    else whole

-- The length of the text that a placeholder takes, up to the next literal or the end.
unfoldable pub span_length : List Segment → Bytes → Option ℕ
span_length [] rest = some (length rest)
span_length (next ∷ _) rest = find next.text rest

abbrev pub decode_if : Bool → Bytes → Bytes
decode_if decode v = if decode then percent_decode v else v

-- The main loop. A return in its middle leaves the values found so far in the outcome.
unfoldable pub invert_loop : Bool → List Segment → Bytes → List (Bytes × Bytes) → Outcome
invert_loop decode [] rest values = if is_empty rest then per_column values else never []
invert_loop decode (seg ∷ segs) rest values =
    let text : Outcome = elim (starts_with rest seg.text) [
      | false ↦ never values
      | true ↦ invert_loop decode segs (drop (length seg.text) rest) values
    ] in
    let column : Outcome = elim (span_length segs rest) [
      | none ↦ never values
      | some n ↦
          invert_loop decode segs (drop n rest)
            (values ++ (seg.text, decode_if decode (take n rest)) ∷ [])
    ] in
    if seg.is_placeholder then column else text

unfoldable pub invert_template : List Segment → Bytes → Bool → Outcome
unfolding can_split match_anchors last_segment ends_with invert_loop span_length starts_with find
    equal
invert_template [] bound decode = if is_empty bound then whole else never []
invert_template (seg ∷ segs) bound decode =
    if can_split (seg ∷ segs)
    then invert_loop decode (seg ∷ segs) bound []
    else match_anchors seg segs bound
