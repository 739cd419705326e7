-- ===== src/Template/Expand.antt =====
-- Forward generation, src/r2rml/TemplateTermMap.cpp (`generateRDFTerm`), and its relation to the
-- segments that `parseTemplate` finds.
use sql2rdf.Base.{
  ℕ, zero, suc, Bool, true, false, List, [], ◌∷◌, ◌++◌, Option, none, some, ◌==◌, if◌then◌else◌,
  take, Bytes, find_byte, ◌>>=◌, ◌≡◌, refl, sym, ap, ◌∙◌, append_assoc, append-nil, Bool-cases,
  Option-cases, inl, inr,
}
use sql2rdf.Node.{TermType, NodeType, Node, nothing, node_from_string, Row}
use sql2rdf.Percent.{percent_encode}
use sql2rdf.Template.{Segment, literal, placeholder, flush, parse_loop, parse_template}

-- The value substituted for a placeholder.
abbrev pub encode_if : Bool → Bytes → Bytes
encode_if enc v = if enc then percent_encode v else v

-- The loop of `generateRDFTerm`; `none` is the early return of `SERD_NODE_NULL`.
unfoldable pub expand_loop : Bool → Row → Bytes → ℕ → Bytes → Option Bytes
expand_loop enc row [] skip acc = some acc
expand_loop enc row (c ∷ s) (suc skip) acc = expand_loop enc row s skip acc
expand_loop enc row (c ∷ s) zero acc =
    let plain = expand_loop enc row s 0 (acc ++ c ∷ []) in
    let brace : Option Bytes = elim (find_byte b'}' s) [
      | none ↦ some acc
      | some e ↦ do v ← row (take e s); expand_loop enc row s (suc e) (acc ++ encode_if enc v)
    ] in
    if c == b'{' then brace else plain

unfoldable pub node_type : TermType → NodeType
node_type TermType.iri = NodeType.uri
node_type TermType.blank_node = NodeType.blank
node_type TermType.literal = NodeType.literal

abbrev pub should_percent_encode : NodeType → Bool
should_percent_encode NodeType.uri = true
should_percent_encode _ = false

unfoldable pub expand : TermType → Bytes → Row → Option Bytes
unfolding expand_loop node_type
expand t templ row = expand_loop (should_percent_encode (node_type t)) row templ 0 []

unfoldable pub generate_template : TermType → Bytes → Row → Node
unfolding expand
generate_template t templ row = elim (expand t templ row) [
  | none ↦ nothing
  | some s ↦ node_from_string (node_type t) s
]

-- What a segment stands for in a row, and a list of segments: the pieces, joined.
unfoldable pub piece : Bool → Row → Segment → Option Bytes
piece enc row seg =
    if seg.is_placeholder then (do v ← row seg.text; some (encode_if enc v)) else some seg.text

unfoldable pub fill : Bool → Row → List Segment → Option Bytes
unfolding piece
fill enc row [] = some []
fill enc row (seg ∷ segs) = do v ← piece enc row seg; rest ← fill enc row segs; some (v ++ rest)

abbrev join : Option Bytes → Option Bytes → Option Bytes
join o p = do a ← o; b ← p; some (a ++ b)

join_assoc : (o p q : Option Bytes) → join (join o p) q ≡ join o (join p q)
join_assoc (some a) (some b) (some c) = ap some (append_assoc a b c)
join_assoc (some a) (some b) none = refl
join_assoc (some a) none q = refl
join_assoc none p q = refl

join-none : (o : Option Bytes) → join o none ≡ none
join-none none = refl
join-none (some a) = refl

join-nil : (o : Option Bytes) → join o (some []) ≡ o
join-nil none = refl
join-nil (some a) = ap some (append-nil a)

nil-join : (o : Option Bytes) → join (some []) o ≡ o
nil-join none = refl
nil-join (some a) = refl

module _ (enc : Bool) (row : Row) where
  expand_loop-brace :
      (c : ℕ) (s acc : Bytes) (e : ℕ)
      → (c == b'{') ≡ true
      → find_byte b'}' s ≡ some e
      → expand_loop enc row (c ∷ s) 0 acc
        ≡ (row (take e s) >>= λ v. expand_loop enc row s (suc e) (acc ++ encode_if enc v))
  unfolding expand_loop
  expand_loop-brace c s acc e h f = rw (h, f)

  expand_loop_open :
      (c : ℕ) (s acc : Bytes)
      → (c == b'{') ≡ true
      → find_byte b'}' s ≡ none
      → expand_loop enc row (c ∷ s) 0 acc ≡ some acc
  unfolding expand_loop
  expand_loop_open c s acc h f = rw (h, f)

  expand_loop-plain :
      (c : ℕ) (s acc : Bytes)
      → (c == b'{') ≡ false
      → expand_loop enc row (c ∷ s) 0 acc ≡ expand_loop enc row s 0 (acc ++ c ∷ [])
  unfolding expand_loop
  expand_loop-plain c s acc h = rw h

  expand_loop-skip :
      (c : ℕ) (s acc : Bytes) (skip : ℕ)
      → expand_loop enc row (c ∷ s) (suc skip) acc ≡ expand_loop enc row s skip acc
  unfolding expand_loop
  expand_loop-skip c s acc skip = refl

  pub expand_loop-append :
      (s : Bytes) (skip : ℕ) (a b : Bytes)
      → expand_loop enc row s skip (a ++ b) ≡ join (some a) (expand_loop enc row s skip b)
  expand_loop-append [] skip a b = unfold expand_loop in refl
  expand_loop-append (c ∷ s) (suc skip) a b =
      rw (expand_loop-skip c s (a ++ b) skip, expand_loop-skip c s b skip)
        (expand_loop-append s skip a b)
  expand_loop-append (c ∷ s) zero a b = elim (Bool-cases (c == b'{')) [
    | inr plain ↦
        rw (expand_loop-plain c s (a ++ b) plain, expand_loop-plain c s b plain, append_assoc)
          (expand_loop-append s 0 a (b ++ c ∷ []))
    | inl brace ↦ elim (Option-cases (find_byte b'}' s)) [
      | inl unclosed ↦
          rw (expand_loop_open c s (a ++ b) brace unclosed, expand_loop_open c s b brace unclosed)
      | inr (e, closed) ↦
          rw (expand_loop-brace c s (a ++ b) e brace closed, expand_loop-brace c s b e brace closed)
            (elim (Option-cases (row (take e s))) [
              | inl null ↦ rw null
              | inr (v, value) ↦
                  rw (value, append_assoc) (expand_loop-append s (suc e) a (b ++ encode_if enc v))
            ])
    ]
  ]

  -- The text gathered so far stands in front of what the rest of the loop adds.
  expand_loop-nil :
      (s : Bytes) (skip : ℕ) (a : Bytes)
      → expand_loop enc row s skip a ≡ join (some a) (expand_loop enc row s skip [])
  expand_loop-nil s skip a =
      ap (expand_loop enc row s skip) (sym (append-nil a)) ∙ expand_loop-append s skip a []

  pub fill-append :
      (xs ys : List Segment) → fill enc row (xs ++ ys) ≡ join (fill enc row xs) (fill enc row ys)
  unfolding fill
  fill-append [] ys = sym (nil-join (fill enc row ys))
  fill-append (x ∷ xs) ys =
      rw (fill-append xs ys)
        (sym (join_assoc (piece enc row x) (fill enc row xs) (fill enc row ys)))

  fill-flush :
      (buf : Bytes) (out : List Segment)
      → fill enc row (flush buf out) ≡ join (fill enc row out) (some buf)
  unfolding flush
  fill-flush [] out = sym (join-nil (fill enc row out))
  fill-flush (c ∷ buf) out =
      fill-append out (literal (c ∷ buf) ∷ [])
      ∙ unfold fill in ap (λ t. join (fill enc row out) (some t)) (append-nil (c ∷ buf))

  fill-placeholder :
      (name : Bytes)
      → fill enc row (placeholder name ∷ []) ≡ (row name >>= λ v. some (encode_if enc v))
  unfolding fill
  fill-placeholder name = elim (Option-cases (row name)) [
    | inl null ↦ rw null
    | inr (v, value) ↦ rw value (ap some (append-nil (encode_if enc v)))
  ]

  -- The text before a placeholder, its value, and what follows, joined either way.
  regroup :
      (o : Option Bytes) (buf name s : Bytes) (skip : ℕ)
      → join
          (join (join o (some buf)) (row name >>= λ v. some (encode_if enc v)))
          (expand_loop enc row s skip [])
        ≡ join o (row name >>= λ v. expand_loop enc row s skip (buf ++ encode_if enc v))
  regroup o buf name s skip = elim (Option-cases (row name)) [
    | inl null ↦ rw (null, join-none (join o (some buf)), join-none o)
    | inr (v, value) ↦ rw value (
        ap (λ t. join t (expand_loop enc row s skip []))
          (join_assoc o (some buf) (some (encode_if enc v)))
        ∙ join_assoc o (some (buf ++ encode_if enc v)) (expand_loop enc row s skip [])
        ∙ ap (join o) (sym (expand_loop-nil s skip (buf ++ encode_if enc v))))
  ]

  fill-parse_loop :
      (s : Bytes) (skip : ℕ) (buf : Bytes) (out : List Segment)
      → fill enc row (parse_loop s skip buf out)
        ≡ join (fill enc row out) (expand_loop enc row s skip buf)
  unfolding parse_loop
  fill-parse_loop [] skip buf out = unfold expand_loop in fill-flush buf out
  fill-parse_loop (c ∷ s) (suc skip) buf out =
      rw (expand_loop-skip c s buf skip) (fill-parse_loop s skip buf out)
  fill-parse_loop (c ∷ s) zero buf out = elim (Bool-cases (c == b'{')) [
    | inr plain ↦
        rw (expand_loop-plain c s buf plain, plain) (fill-parse_loop s 0 (buf ++ c ∷ []) out)
    | inl brace ↦ elim (Option-cases (find_byte b'}' s)) [
      | inl unclosed ↦
          rw (expand_loop_open c s buf brace unclosed, brace, unclosed) (fill-flush buf out)
      | inr (e, closed) ↦
          rw
            (
              expand_loop-brace c s buf e brace closed,
              brace,
              closed,
              fill-parse_loop s (suc e) [] (flush buf out ++ placeholder (take e s) ∷ []),
              fill-append (flush buf out) (placeholder (take e s) ∷ []),
              fill-flush buf out,
              fill-placeholder (take e s),
            )
            (regroup (fill enc row out) buf (take e s) s (suc e))
    ]
  ]

pub fill-cons :
    (enc : Bool) (row : Row) (seg : Segment) (segs : List Segment) (s : Bytes)
    → fill enc row (seg ∷ segs) ≡ some s
    → (p : Bytes) × (r : Bytes) × (piece enc row seg ≡ some p)
      × (fill enc row segs ≡ some r)
      × (s ≡ p ++ r)
unfolding fill
fill-cons enc row seg segs s h = elim (Option-cases (piece enc row seg)) [
  | inl e ↦ absurd (cc (rw e at h))
  | inr (p, e) ↦ elim (Option-cases (fill enc row segs)) [
    | inl f ↦ absurd (cc (rw (e, f) at h))
    | inr (r, f) ↦ (p, r, e, f, cc (rw (e, f) at h))
  ]
]

-- Forward generation of a template term is the join of the segments that `parseTemplate` finds, each
-- placeholder replaced by its column's value (percent-encoded for an IRI); a null column gives no
-- term, and a brace that is never closed cuts the template off in both.
pub expand-parse_template :
    (t : TermType) (templ : Bytes) (row : Row)
    → expand t templ row ≡ fill (should_percent_encode (node_type t)) row (parse_template templ)
unfolding expand parse_template fill
expand-parse_template t templ row =
    let enc = should_percent_encode (node_type t) in
    sym (fill-parse_loop enc row templ 0 [] [] ∙ nil-join (expand_loop enc row templ 0 []))
