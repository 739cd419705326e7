-- ===== src/Template/Invert/Complete.antt =====
-- What inversion finds in a value that the template has produced.
use sql2rdf.Base.{
  ℕ, Bool, true, false, not, ◌&&◌, ◌||◌, List, [], ◌∷◌, ◌++◌, none, some, if◌then◌else◌, length,
  take_append_self, drop_append_self, Bytes, starts_with-append, find, find-append, contains, ◌≡◌,
  ◌≢◌, refl, sym, ap, ◌∙◌, arith, append_assoc, append-nil, &&_elim, Option-cases, inl, inr,
}
use sql2rdf.Node.{Row, TermType}
use sql2rdf.Percent.{percent_encode}
use sql2rdf.Percent.RoundTrip.{IsByteString, percent_decode-percent_encode}
use sql2rdf.Percent.Alphabet.{is_reserved, contains-percent_encode}
use sql2rdf.Template.{parse_template, Segment, literal, placeholder}
use sql2rdf.Template.Expand.{
  encode_if, piece, fill, fill-cons, expand, node_type, expand-parse_template,
}
use sql2rdf.Template.Invert.{
  per_column, can_split, span_length, decode_if, invert_loop, invert_template,
}

unfoldable pub begins_reserved : Bytes → Bool
begins_reserved [] = false
begins_reserved (c ∷ _) = is_reserved c

-- What stands behind a placeholder: nothing, or a literal that begins with a reserved byte.
unfoldable pub delimits : List Segment → Bool
delimits [] = true
delimits (next ∷ _) = not next.is_placeholder && begins_reserved next.text

unfoldable pub is_separable : List Segment → Bool
is_separable [] = true
is_separable (seg ∷ segs) = (not seg.is_placeholder || delimits segs) && is_separable segs

-- The column and the value of each placeholder, in order.
unfoldable pub values : Row → List Segment → List (Bytes × Bytes)
values row [] = []
values row (seg ∷ segs) =
    (if seg.is_placeholder
      then elim (row seg.text) [ none ↦ [] | some v ↦ (seg.text, v) ∷ [] ]
      else [])
    ++ values row segs

abbrev pub HasBytes : Row → Type 0
HasBytes row = (name v : Bytes) → row name ≡ some v → IsByteString v

abbrev NoReserved : Bytes → Type 0
NoReserved p = (c : ℕ) → is_reserved c ≡ true → contains p c ≡ false

fill-literal :
    (enc : Bool) (row : Row) (t : Bytes) (segs : List Segment) (s : Bytes)
    → fill enc row (literal t ∷ segs) ≡ some s
    → (r : Bytes) × (fill enc row segs ≡ some r) × (s ≡ t ++ r)
fill-literal enc row t segs s h =
    let (p, r, e, f, g) = fill-cons enc row (literal t) segs s h in (r, f, unfold piece in cc)

fill-placeholder :
    (enc : Bool) (row : Row) (name : Bytes) (segs : List Segment) (s : Bytes)
    → fill enc row (placeholder name ∷ segs) ≡ some s
    → (v : Bytes) × (r : Bytes) × (row name ≡ some v)
      × (fill enc row segs ≡ some r)
      × (s ≡ encode_if enc v ++ r)
fill-placeholder enc row name segs s h =
    let (p, r, e, f, g) = fill-cons enc row (placeholder name) segs s h in
    elim (Option-cases (row name)) [
      | inl null ↦ absurd (unfold piece in cc (rw null at e))
      | inr (v, value) ↦ (v, r, value, f, unfold piece in cc (rw value at e))
    ]

-- The text in front of a reserved delimiter, or of the end, is what a placeholder takes.
span_length-delimiter :
    (enc : Bool) (row : Row) (is_placeholder : Bool) (t : Bytes) (segs : List Segment) (p r : Bytes)
    → delimits (record { is_placeholder = is_placeholder; text = t } ∷ segs) ≡ true
    → NoReserved p
    → fill enc row (record { is_placeholder = is_placeholder; text = t } ∷ segs) ≡ some r
    → find t (p ++ r) ≡ some (length p)
unfolding delimits begins_reserved
span_length-delimiter enc row true t segs p r h k f = cc
span_length-delimiter enc row false [] segs p r h k f = cc
span_length-delimiter enc row false (c ∷ t) segs p r h k f =
    let (rest, _, joined) = fill-literal enc row (c ∷ t) segs r f in
    rw joined (find-append c t p rest (k c h))

span_length-append :
    (enc : Bool) (row : Row) (segs : List Segment) (p r : Bytes)
    → delimits segs ≡ true
    → NoReserved p
    → fill enc row segs ≡ some r
    → span_length segs (p ++ r) ≡ some (length p)
unfolding span_length
span_length-append enc row [] p r h k f =
    let ends : r ≡ [] = unfold fill in cc in rw (ends, append-nil)
span_length-append enc row (next ∷ segs) p r h k f =
    span_length-delimiter enc row next.is_placeholder next.text segs p r h k f

-- Inversion of what `segs` make finds exactly the columns' values.
abbrev Inverts : Row → List Segment → Type 0
Inverts row segs =
    (s : Bytes) (found : List (Bytes × Bytes))
    → is_separable segs ≡ true
    → fill true row segs ≡ some s
    → invert_loop true segs s found ≡ per_column (found ++ values row segs)

pub invert_loop-literal :
    (decode : Bool) (t r : Bytes) (segs : List Segment) (found : List (Bytes × Bytes))
    → invert_loop decode (literal t ∷ segs) (t ++ r) found ≡ invert_loop decode segs r found
unfolding invert_loop
invert_loop-literal decode t r segs found = rw (starts_with-append t r) (rw (drop_append_self t r))

pub invert_loop-placeholder :
    (decode : Bool) (name p r : Bytes) (segs : List Segment) (found : List (Bytes × Bytes))
    → span_length segs (p ++ r) ≡ some (length p)
    → invert_loop decode (placeholder name ∷ segs) (p ++ r) found
      ≡ invert_loop decode segs r (found ++ (name, decode_if decode p) ∷ [])
unfolding invert_loop
invert_loop-placeholder decode name p r segs found h =
    rw h (rw (take_append_self p r, drop_append_self p r))

module _ (row : Row) (bytes : HasBytes row) where
  Inverts-cons :
      (is_placeholder : Bool) (t : Bytes) (segs : List Segment)
      → Inverts row segs
      → Inverts row (record { is_placeholder = is_placeholder; text = t } ∷ segs)
  unfolding is_separable values
  Inverts-cons false t segs ih s found h f =
      let (r, rest, joined) = fill-literal true row t segs s f in
      rw joined (invert_loop-literal true t r segs found ∙ ih r found h rest)
  Inverts-cons true name segs ih s found h f =
      let (v, r, value, rest, joined) = fill-placeholder true row name segs s f in
      let (delimited, separable) = &&_elim _ _ h in
      let v_bytes = bytes name v value in
      let taken =
        span_length-append true row segs (percent_encode v) r delimited
          (λ c k. contains-percent_encode c v v_bytes k) rest in
      rw (joined, value)
        (invert_loop-placeholder true name (percent_encode v) r segs found taken
          ∙ rw (percent_decode-percent_encode v v_bytes) (
              ih r (found ++ (name, v) ∷ []) separable rest
              ∙ ap per_column (append_assoc found ((name, v) ∷ []) (values row segs))))

  fill-Inverts : (segs : List Segment) → Inverts row segs
  fill-Inverts [] s found h f =
      let ends : s ≡ [] = unfold fill in cc in unfold invert_loop values in rw (ends, append-nil)
  fill-Inverts (seg ∷ segs) s found h f =
      Inverts-cons seg.is_placeholder seg.text segs (fill-Inverts segs) s found h f

separable-can_split :
    (a : Bool) (t : Bytes) (b : Bool) (u : Bytes) (segs : List Segment)
    → is_separable
        (record { is_placeholder = a; text = t } ∷ record { is_placeholder = b; text = u } ∷ segs)
      ≡ true
    → (a && b) ≡ false
unfolding is_separable delimits
separable-can_split a t b u segs h = ground arith

is_separable_tail :
    (seg : Segment) (segs : List Segment)
    → is_separable (seg ∷ segs) ≡ true
    → is_separable segs ≡ true
unfolding is_separable
is_separable_tail seg segs h =
    (&&_elim (not seg.is_placeholder || delimits segs) (is_separable segs) h).1

is_separable-can_split : (segs : List Segment) → is_separable segs ≡ true → can_split segs ≡ true
unfolding can_split
is_separable-can_split [] h = refl
is_separable-can_split (a ∷ []) h = refl
is_separable-can_split (a ∷ b ∷ segs) h =
    rw (separable-can_split a.is_placeholder a.text b.is_placeholder b.text segs h)
      (is_separable-can_split (b ∷ segs) (is_separable_tail a (b ∷ segs) h))

pub invert_template_split :
    (seg : Segment) (segs : List Segment) (s : Bytes) (decode : Bool)
    → can_split (seg ∷ segs) ≡ true
    → invert_template (seg ∷ segs) s decode ≡ invert_loop decode (seg ∷ segs) s []
unfolding invert_template
invert_template_split seg segs s decode h = rw h

invert_template-fill :
    (segs : List Segment) (row : Row) (s : Bytes)
    → HasBytes row
    → segs ≢ []
    → is_separable segs ≡ true
    → fill true row segs ≡ some s
    → invert_template segs s true ≡ per_column (values row segs)
invert_template-fill [] row s b ne h f = absurd (ne refl)
invert_template-fill (seg ∷ segs) row s b ne h f =
    invert_template_split seg segs s true (is_separable-can_split (seg ∷ segs) h)
    ∙ fill-Inverts row b (seg ∷ segs) s [] h f

-- If every placeholder of an IRI template stands at the end or in front of a literal that begins
-- with a reserved byte, then inverting a value that the template makes from a row gives back each
-- column's value in that row, percent-decoded, in the order of the placeholders.
pub invert_template-expand :
    (templ : Bytes) (row : Row) (s : Bytes)
    → HasBytes row
    → parse_template templ ≢ []
    → is_separable (parse_template templ) ≡ true
    → expand TermType.iri templ row ≡ some s
    → invert_template (parse_template templ) s true ≡ per_column (values row (parse_template templ))
invert_template-expand templ row s b ne h f =
    invert_template-fill (parse_template templ) row s b ne h
      (unfold node_type in (sym (expand-parse_template TermType.iri templ row) ∙ f))
