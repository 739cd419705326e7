-- ===== src/Template/Normal.antt =====
-- The segment lists that `parseTemplate` can return, and the templates that spell them.
use sql2rdf.Base.{
  ℕ, zero, suc, Bool, true, false, not, List, [], ◌∷◌, ◌++◌, some, ◌==◌, if◌then◌else◌, take,
  take_append_self, length, is_empty, Bytes, contains, find_byte, ◌≡◌, ◌≢◌, refl, sym, ap, ◌∙◌,
  arith, append_assoc, append-nil, Bool-cases, Option-cases, inl, inr,
}
use sql2rdf.Template.{Segment, literal, placeholder, flush, parse_loop, parse_template}

-- A literal is not empty, holds no opening brace, and follows no other literal; a column name
-- holds no closing brace.
abbrev Fits : Bool → Bool → Bytes → Type 0
Fits after true name = contains name b'}' ≡ false
Fits after false text = (after ≡ false) × (text ≢ []) × (contains text b'{' ≡ false)

-- `after` tells whether a literal stands in front.
abbrev pub IsNormalAfter : Bool → List Segment → Type 0
IsNormalAfter after [] = Unit
IsNormalAfter after (seg ∷ segs) =
    Fits after seg.is_placeholder seg.text × IsNormalAfter (not seg.is_placeholder) segs

abbrev pub IsNormal : List Segment → Type 0
IsNormal = IsNormalAfter false

abbrev ends_literal : Bool → List Segment → Bool
ends_literal after [] = after
ends_literal after (seg ∷ segs) = ends_literal (not seg.is_placeholder) segs

IsNormalAfter-append :
    (after : Bool) (xs ys : List Segment)
    → IsNormalAfter after xs
    → IsNormalAfter (ends_literal after xs) ys
    → IsNormalAfter after (xs ++ ys)
IsNormalAfter-append after [] ys h k = k
IsNormalAfter-append after (x ∷ xs) ys h k =
    (h.0, IsNormalAfter-append (not x.is_placeholder) xs ys h.1 k)

ends_literal-append :
    (after : Bool) (xs ys : List Segment)
    → ends_literal after (xs ++ ys) ≡ ends_literal (ends_literal after xs) ys
ends_literal-append after [] ys = refl
ends_literal-append after (x ∷ xs) ys = ends_literal-append (not x.is_placeholder) xs ys

contains-concat :
    (d c : ℕ) (s : Bytes)
    → contains s d ≡ false
    → (c == d) ≡ false
    → contains (s ++ c ∷ []) d ≡ false
unfolding contains
contains-concat d c [] h k = ground arith
contains-concat d c (x ∷ s) h k = ground (arith, contains-concat d c s)

-- The name cut out in front of the first closing brace holds none.
contains-take_find :
    (d : ℕ) (s : Bytes) (e : ℕ) → find_byte d s ≡ some e → contains (take e s) d ≡ false
unfolding find_byte contains
contains-take_find d [] e h = cc
contains-take_find d (x ∷ s) zero h = refl
contains-take_find d (x ∷ s) (suc e) h = ground (arith, contains-take_find d s e)

-- What the loop knows of `segments`: normal, and not ending in a literal.
record Inv (buf : Bytes) (out : List Segment) : Type 0 where
  normal : IsNormal out
  no_literal : ends_literal false out ≡ false
  no_brace : contains buf b'{' ≡ false

flush-IsNormal : (buf : Bytes) (out : List Segment) → Inv buf out → IsNormal (flush buf out)
unfolding flush
flush-IsNormal [] out i = i.normal
flush-IsNormal (c ∷ buf) out i =
    IsNormalAfter-append false out (literal (c ∷ buf) ∷ []) i.normal
      ((i.no_literal, (λ e. cc), i.no_brace), tt)

flush-placeholder-Inv :
    (buf name : Bytes) (out : List Segment)
    → Inv buf out
    → contains name b'}' ≡ false
    → Inv [] (flush buf out ++ placeholder name ∷ [])
flush-placeholder-Inv buf name out i h = record {
  normal =
      IsNormalAfter-append false (flush buf out) (placeholder name ∷ []) (flush-IsNormal buf out i)
        (h, tt);
  no_literal = ends_literal-append false (flush buf out) (placeholder name ∷ []);
  no_brace = unfold contains in refl;
}

parse_loop-IsNormal :
    (s : Bytes) (skip : ℕ) (buf : Bytes) (out : List Segment)
    → Inv buf out
    → IsNormal (parse_loop s skip buf out)
unfolding parse_loop
parse_loop-IsNormal [] skip buf out i = flush-IsNormal buf out i
parse_loop-IsNormal (c ∷ s) (suc skip) buf out i = parse_loop-IsNormal s skip buf out i
parse_loop-IsNormal (c ∷ s) zero buf out i = elim (Bool-cases (c == b'{')) [
  | inr plain ↦ rw plain (
      parse_loop-IsNormal s 0 (buf ++ c ∷ []) out (record {
        normal = i.normal;
        no_literal = i.no_literal;
        no_brace = contains-concat b'{' c buf i.no_brace plain;
      }))
  | inl brace ↦ elim (Option-cases (find_byte b'}' s)) [
    | inl unclosed ↦ rw (brace, unclosed) (flush-IsNormal buf out i)
    | inr (e, closed) ↦
        rw (brace, closed)
          (parse_loop-IsNormal s (suc e) [] (flush buf out ++ placeholder (take e s) ∷ [])
            (flush-placeholder-Inv buf (take e s) out i (contains-take_find b'}' s e closed)))
  ]
]

-- Every segment list that `parseTemplate` returns is normal: literals are not empty, do not touch
-- and hold no opening brace, and column names hold no closing brace.
pub parse_template-IsNormal : (s : Bytes) → IsNormal (parse_template s)
unfolding parse_template contains
parse_template-IsNormal s =
    parse_loop-IsNormal s 0 [] [] (record { normal = tt; no_literal = refl; no_brace = refl })

-- The template text of a segment list.
unfoldable pub render : List Segment → Bytes
render [] = []
render (seg ∷ segs) =
    if seg.is_placeholder
    then b'{' ∷ (seg.text ++ (b'}' ∷ render segs))
    else seg.text ++ render segs

pub parse_loop-literal :
    (t r buf : Bytes) (out : List Segment)
    → contains t b'{' ≡ false
    → parse_loop (t ++ r) 0 buf out ≡ parse_loop r 0 (buf ++ t) out
unfolding parse_loop contains
parse_loop-literal [] r buf out h = rw append-nil
parse_loop-literal (c ∷ t) r buf out h = elim (Bool-cases (c == b'{')) [
  | inl brace ↦ ground arith
  | inr plain ↦ rw plain (
      parse_loop-literal t r (buf ++ c ∷ []) out (ground arith)
      ∙ ap (λ b. parse_loop r 0 b out) (append_assoc buf (c ∷ []) t))
]

parse_loop_skip :
    (t r buf : Bytes) (out : List Segment)
    → parse_loop (t ++ b'}' ∷ r) (suc (length t)) buf out ≡ parse_loop r 0 buf out
unfolding parse_loop
parse_loop_skip [] r buf out = refl
parse_loop_skip (c ∷ t) r buf out = parse_loop_skip t r buf out

find_byte_first :
    (d : ℕ) (t r : Bytes) → contains t d ≡ false → find_byte d (t ++ d ∷ r) ≡ some (length t)
unfolding find_byte contains
find_byte_first d [] r h = ground arith
find_byte_first d (x ∷ t) r h = ground (arith, find_byte_first d t r)

parse_loop-placeholder :
    (name r buf : Bytes) (out : List Segment)
    → contains name b'}' ≡ false
    → parse_loop (b'{' ∷ (name ++ b'}' ∷ r)) 0 buf out
      ≡ parse_loop r 0 [] (flush buf out ++ placeholder name ∷ [])
parse_loop-placeholder name r buf out h =
    let found = find_byte_first b'}' name r h in
    unfold parse_loop in
    rw (found, take_append_self name (b'}' ∷ r))
      (parse_loop_skip name r [] (flush buf out ++ placeholder name ∷ []))

flush-literal :
    (c : ℕ) (t : Bytes) (out : List Segment) → flush (c ∷ t) out ≡ out ++ literal (c ∷ t) ∷ []
unfolding flush
flush-literal c t out = refl

abbrev Reads : List Segment → Type 0
Reads segs =
    (buf : Bytes) (out : List Segment)
    → IsNormalAfter (not (is_empty buf)) segs
    → parse_loop (render segs) 0 buf out ≡ flush buf out ++ segs

Reads-cons :
    (is_placeholder : Bool) (text : Bytes) (segs : List Segment)
    → Reads segs
    → Reads (record { is_placeholder = is_placeholder; text = text } ∷ segs)
unfolding render flush
Reads-cons true name segs ih buf out h =
    parse_loop-placeholder name (render segs) buf out h.0
    ∙ ih [] (flush buf out ++ placeholder name ∷ []) h.1
    ∙ append_assoc (flush buf out) (placeholder name ∷ []) segs
Reads-cons false text segs ih (c ∷ buf) out ((after, _, _), _) = cc
Reads-cons false [] segs ih [] out ((_, ne, _), _) = absurd (ne refl)
Reads-cons false (c ∷ text) segs ih [] out ((_, _, no_brace), h) =
    parse_loop-literal (c ∷ text) (render segs) [] out no_brace
    ∙ ih (c ∷ text) out h
    ∙ append_assoc out (literal (c ∷ text) ∷ []) segs

render-Reads : (segs : List Segment) → Reads segs
render-Reads [] buf out h = unfold render parse_loop in sym (append-nil (flush buf out))
render-Reads (seg ∷ segs) buf out h =
    Reads-cons seg.is_placeholder seg.text segs (render-Reads segs) buf out h

-- Parsing the text of a normal segment list gives the list back.
pub parse_template-render :
    (segs : List Segment) → IsNormal segs → parse_template (render segs) ≡ segs
unfolding parse_template
parse_template-render segs h = render-Reads segs [] [] h
