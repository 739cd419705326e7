-- ===== src/Template/Ends.antt =====
-- The literals at both ends of a template, and the values that it makes.
use sql2rdf.Base.{
  ℕ, zero, suc, ◌+◌, ◌-◌, ◌≤◌, Bool, true, false, not, ◌&&◌, List, [], ◌∷◌, ◌++◌, some, length,
  length-append, take, drop, drop_append_self, Bytes, equal_refl, starts_with, starts_with-append,
  Bool-cases, ◌≡◌, refl, sym, ap, ◌∙◌, arith, append_assoc, append-nil, inl, inr,
}
use sql2rdf.Node.{Row}
use sql2rdf.Template.{Segment}
use sql2rdf.Template.Expand.{piece, fill, fill-cons}
use sql2rdf.Template.Invert.{
  can_split, whole, invert_template, match_anchors, ends_with, last_segment,
}

pub drop-append_add {ℓ} :
    {A : Type ℓ} (k : ℕ) (xs ys : List A) → drop (length xs + k) (xs ++ ys) ≡ drop k ys
drop-append_add k [] ys = ap (λ n. drop n ys) (omega arith)
drop-append_add k (x ∷ xs) ys =
    ap (λ n. drop n (x ∷ (xs ++ ys))) {x = length (x ∷ xs) + k} {y = suc (length xs + k)}
      (omega arith)
    ∙ drop-append_add k xs ys

pub take-append_le {ℓ} :
    {A : Type ℓ} (n : ℕ) (xs ys : List A) → n ≤ length xs → take n (xs ++ ys) ≡ take n xs
take-append_le zero xs ys h = refl
take-append_le (suc n) [] ys h = absurd (omega arith)
take-append_le (suc n) (x ∷ xs) ys h = ap (◌∷◌ x) (take-append_le n xs ys (omega arith))

pub ends_with-append : (p t : Bytes) → ends_with (p ++ t) t ≡ true
unfolding ends_with
ends_with-append p t =
    let n : length (p ++ t) - length t ≡ length p = omega (arith, length-append p t) in
    rw (n, drop_append_self p t, equal_refl t) (ground (arith, length-append p t))

-- A value begins with the template's first segment, if that is a literal.
pub fill-front :
    (enc : Bool) (row : Row) (seg : Segment) (segs : List Segment) (s : Bytes)
    → seg.is_placeholder ≡ false
    → fill enc row (seg ∷ segs) ≡ some s
    → (r : Bytes) × (s ≡ seg.text ++ r)
fill-front enc row seg segs s h f =
    let (p, r, e, _, joined) = fill-cons enc row seg segs s f in (r, unfold piece in cc (rw h at e))

-- It ends with the last one, if that is a literal.
pub fill-back :
    (enc : Bool) (row : Row) (seg : Segment) (segs : List Segment) (s : Bytes)
    → (last_segment seg segs).is_placeholder ≡ false
    → fill enc row (seg ∷ segs) ≡ some s
    → (p : Bytes) × (s ≡ p ++ (last_segment seg segs).text)
unfolding last_segment
fill-back enc row seg [] s h f =
    let (p, r, e, g, joined) = fill-cons enc row seg [] s f in
    let front : p ≡ seg.text = unfold piece in cc (rw h at e) in
    let nothing_left : r ≡ [] = unfold fill in cc in
    ([], joined ∙ rw (front, nothing_left) (append-nil seg.text))
fill-back enc row seg (next ∷ segs) s h f =
    let (p, r, _, g, joined) = fill-cons enc row seg (next ∷ segs) s f in
    let (q, tail) = fill-back enc row next segs r h g in
    (p ++ q, joined ∙ ap (λ t. p ++ t) tail ∙ sym (append_assoc p q _))

front_passes :
    (enc : Bool) (row : Row) (seg : Segment) (segs : List Segment) (s : Bytes)
    → fill enc row (seg ∷ segs) ≡ some s
    → (not seg.is_placeholder && not (starts_with s seg.text)) ≡ false
front_passes enc row seg segs s f = elim (Bool-cases seg.is_placeholder) [
  | inl e ↦ ground arith
  | inr e ↦
      let (r, joined) = fill-front enc row seg segs s e f in
      rw joined (ground (arith, starts_with-append seg.text r))
]

back_passes :
    (enc : Bool) (row : Row) (seg : Segment) (segs : List Segment) (s : Bytes)
    → fill enc row (seg ∷ segs) ≡ some s
    → let back = last_segment seg segs in
      (not back.is_placeholder && not (ends_with s back.text)) ≡ false
back_passes enc row seg segs s f = elim (Bool-cases (last_segment seg segs).is_placeholder) [
  | inl e ↦ ground arith
  | inr e ↦
      let (p, joined) = fill-back enc row seg segs s e f in
      rw joined (ground (arith, ends_with-append p (last_segment seg segs).text))
]

invert_template_whole :
    (seg : Segment) (segs : List Segment) (s : Bytes) (decode : Bool)
    → can_split (seg ∷ segs) ≡ false
    → invert_template (seg ∷ segs) s decode ≡ match_anchors seg segs s
unfolding invert_template
invert_template_whole seg segs s decode h = rw h

match_anchors_pass :
    (seg : Segment) (segs : List Segment) (s : Bytes)
    → (not seg.is_placeholder && not (starts_with s seg.text)) ≡ false
    → (not (last_segment seg segs).is_placeholder && not (ends_with s (last_segment seg segs).text))
      ≡ false
    → match_anchors seg segs s ≡ whole
unfolding match_anchors
match_anchors_pass seg segs s h k = rw (h, k)

-- Inverting a template with touching placeholders never rules out a value that the template makes:
-- both anchors pass, and the whole value is compared instead.
pub invert_template-anchors :
    (enc decode : Bool) (row : Row) (segs : List Segment) (s : Bytes)
    → can_split segs ≡ false
    → fill enc row segs ≡ some s
    → invert_template segs s decode ≡ whole
invert_template-anchors enc decode row [] s h f = unfold can_split in cc
invert_template-anchors enc decode row (seg ∷ segs) s h f =
    invert_template_whole seg segs s decode h
    ∙ match_anchors_pass seg segs s (front_passes enc row seg segs s f)
        (back_passes enc row seg segs s f)
