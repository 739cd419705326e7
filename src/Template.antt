-- ===== src/Template.antt =====
-- rr:template strings, src/sparql2sql/TemplateUtil.cpp: `parseTemplate`, `referencedColumns`. The
-- index of the scanning loop is the suffix that is left, and `skip` counts the bytes that the
-- assignment `i = end + 1` still has to jump over.
pub mod Expand
pub mod Normal
pub mod Invert
pub mod Ends
pub mod Anchors
pub mod Flaws
pub mod Shape
pub mod Projection
use sql2rdf.Base.{
  ℕ, zero, suc, Bool, true, false, List, [], ◌∷◌, ◌++◌, Option, none, some, ◌==◌, if◌then◌else◌,
  take, Bytes, find_byte, equal, any_of,
}

-- `TemplateSegment`.
pub record Segment : Type 0 where
  pub is_placeholder : Bool
  pub text : Bytes

abbrev pub literal : Bytes → Segment
literal t = record { is_placeholder = false; text = t }

abbrev pub placeholder : Bytes → Segment
placeholder t = record { is_placeholder = true; text = t }

-- `if (!literalBuf.empty()) segments.push_back(…)`.
unfoldable pub flush : Bytes → List Segment → List Segment
flush [] out = out
flush (c ∷ buf) out = out ++ literal (c ∷ buf) ∷ []

unfoldable pub parse_loop : Bytes → ℕ → Bytes → List Segment → List Segment
parse_loop [] skip buf out = flush buf out
parse_loop (c ∷ s) (suc skip) buf out = parse_loop s skip buf out
parse_loop (c ∷ s) zero buf out =
    let plain = parse_loop s 0 (buf ++ c ∷ []) out in
    let brace : List Segment = elim (find_byte b'}' s) [
      | none ↦ flush buf out
      | some e ↦ parse_loop s (suc e) [] (flush buf out ++ placeholder (take e s) ∷ [])
    ] in
    if c == b'{' then brace else plain

unfoldable pub parse_template : Bytes → List Segment
unfolding parse_loop flush find_byte
parse_template s = parse_loop s 0 [] []

-- `referencedColumns`: `out` holds the columns seen so far.
unfoldable pub referenced_loop : List Segment → List Bytes → List Bytes
referenced_loop [] out = out
referenced_loop (seg ∷ segs) out = referenced_loop segs (
    if seg.is_placeholder
    then (if any_of (λ c. equal c seg.text) out then out else out ++ seg.text ∷ [])
    else out)

unfoldable pub referenced_columns : List Segment → List Bytes
unfolding referenced_loop any_of equal
referenced_columns segs = referenced_loop segs []
