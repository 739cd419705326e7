-- ===== src/Term/Lattice.antt =====
-- Laws of the meet of annotations.
use sql2rdf.Base.{
  Bool, true, false, not, ◌||◌, [], ◌≡◌, ◌⊎◌, inl, inr, refl, sym, ap, ◌∙◌, arith, if◌then◌else◌,
  Bytes, equal, equal_iff, equal_refl, Bool-cases,
}
use sql2rdf.Term.{
  RdfTermKind, unknown, literal, kind_eq, TermInfo, meet, disagree, is_fully_determined,
}
use sql2rdf.Term.Xsd.{rdf_lang_string}

-- Only a literal has a datatype or a language; a language tag comes with rdf:langString, and the
-- sticky flag with that datatype or with none.
pub record IsWellFormed (i : TermInfo) : Type 0 where
  pub literal_only :
      (i.kind ≡ literal) ⊎ ((i.datatype_iri ≡ []) × (i.lang ≡ []) × (i.maybe_lang_tagged ≡ false))
  pub tagged : (i.lang ≡ []) ⊎ ((i.datatype_iri ≡ rdf_lang_string) × (i.maybe_lang_tagged ≡ true))
  pub sticky :
      (i.maybe_lang_tagged ≡ false) ⊎ ((i.datatype_iri ≡ []) ⊎ (i.datatype_iri ≡ rdf_lang_string))

kind_eq_iff : (a b : RdfTermKind) → kind_eq a b ≡ true → a ≡ b
kind_eq_iff a b h = ground arith

-- The meet does not depend on the order of its arguments.
meet_comm : (a b : TermInfo) → meet a b ≡ meet b a
unfolding meet
meet_comm a b = ground (
  arith,
  equal_iff a.datatype_iri b.datatype_iri,
  equal_iff b.datatype_iri a.datatype_iri,
  equal_iff a.lang b.lang,
  equal_iff b.lang a.lang,
)

-- The meet of a well-formed annotation with itself is that annotation.
meet_idem : (a : TermInfo) → IsWellFormed a → meet a a ≡ a
unfolding meet
meet_idem a w = ground (arith, equal_refl a.datatype_iri, equal_refl a.lang)

-- The meet of two well-formed annotations is well formed.
pub meet-IsWellFormed : (a b : TermInfo) → IsWellFormed a → IsWellFormed b → IsWellFormed (meet a b)
unfolding meet
meet-IsWellFormed a b w v =
    ground (arith, equal_iff a.datatype_iri b.datatype_iri, equal_iff a.lang b.lang)

-- The meet of two texts: the text where they agree, and none where they do not.
abbrev glb : Bytes → Bytes → Bytes
glb x y = if equal x y then x else []

glb_assoc : (x y z : Bytes) → glb (glb x y) z ≡ glb x (glb y z)
glb_assoc x y z =
    ground (arith, equal_iff x y, equal_iff y z, equal_iff x z, equal_iff x [], equal_iff [] z)

abbrev kind_meet : RdfTermKind → RdfTermKind → RdfTermKind
kind_meet x y = if kind_eq x y then x else unknown

kind_meet_assoc : (x y z : RdfTermKind) → kind_meet (kind_meet x y) z ≡ kind_meet x (kind_meet y z)
kind_meet_assoc x y z = ground arith

-- The annotation without its mark of disagreement.
-- Each field of the meet on its own.
record Fields (a b : TermInfo) : Type 0 where
  kind : (meet a b).kind ≡ kind_meet a.kind b.kind
  datatype : (meet a b).datatype_iri ≡ glb a.datatype_iri b.datatype_iri
  lang : (meet a b).lang ≡ glb a.lang b.lang
  sticky :
      (meet a b).maybe_lang_tagged
      ≡ (if kind_eq a.kind b.kind then a.maybe_lang_tagged || b.maybe_lang_tagged else false)
  mark : (meet a b).degraded ≡ disagree a b

fields : (a b : TermInfo) → IsWellFormed a → IsWellFormed b → Fields a b
unfolding meet
fields a b w v = record {
  kind = ground arith;
  datatype = ground (arith, equal_iff a.datatype_iri b.datatype_iri, equal_iff [] b.datatype_iri);
  lang = ground (arith, equal_iff a.lang b.lang);
  sticky = ground arith;
  mark = ground arith;
}

kind_mark :
    (x y z : RdfTermKind)
    → (not (kind_eq x y) || not (kind_eq (kind_meet x y) z))
      ≡ (not (kind_eq y z) || not (kind_eq x (kind_meet y z)))
kind_mark x y z = ground arith

text_mark :
    (x y z : Bytes)
    → (not (equal x y) || not (equal (glb x y) z)) ≡ (not (equal y z) || not (equal x (glb y z)))
text_mark x y z = elim (Bool-cases (equal x y)) [
  | inl e ↦
      let same : x ≡ y = (equal_iff x y).0 e in
      rw same (elim (Bool-cases (equal y z)) [
        | inl f ↦ rw (equal_refl y, f) (rw (equal_refl y))
        | inr f ↦ rw (equal_refl y, f)
      ])
  | inr e ↦ rw e (elim (Bool-cases (equal y z)) [ inl f ↦ rw f (rw e) | inr f ↦ rw f ])
]

-- Gathering the marks of three annotations, whichever two are joined first.
regroup_marks :
    (a b c k k' l l' d d' e e' t t' v v' : Bool)
    → (k || k') ≡ (l || l')
    → (d || d') ≡ (e || e')
    → (t || t') ≡ (v || v')
    → ((a || (b || (k || (d || t)))) || (c || (k' || (d' || t'))))
      ≡ (a || ((b || (c || (l || (e || v)))) || (l' || (e' || v'))))
regroup_marks true b c k k' l l' d d' e e' t t' v v' p q r = refl
regroup_marks false true c k k' l l' d d' e e' t t' v v' p q r = refl
regroup_marks false false c k k' l l' d d' e e' t t' v v' p q r = ground arith

module _ (a b c : TermInfo) (u : IsWellFormed a) (v : IsWellFormed b) (w : IsWellFormed c) where
  ab : Fields a b
  ab = fields a b u v

  bc : Fields b c
  bc = fields b c v w

  left : Fields (meet a b) c
  left = fields (meet a b) c (meet-IsWellFormed a b u v) w

  right : Fields a (meet b c)
  right = fields a (meet b c) u (meet-IsWellFormed b c v w)

  assoc-kind : (meet (meet a b) c).kind ≡ (meet a (meet b c)).kind
  assoc-kind =
      left.kind
      ∙ ap (λ t. kind_meet t c.kind) ab.kind
      ∙ kind_meet_assoc a.kind b.kind c.kind
      ∙ ap (kind_meet a.kind) (sym bc.kind)
      ∙ sym right.kind

  assoc-datatype : (meet (meet a b) c).datatype_iri ≡ (meet a (meet b c)).datatype_iri
  assoc-datatype =
      left.datatype
      ∙ ap (λ t. glb t c.datatype_iri) ab.datatype
      ∙ glb_assoc a.datatype_iri b.datatype_iri c.datatype_iri
      ∙ ap (glb a.datatype_iri) (sym bc.datatype)
      ∙ sym right.datatype

  assoc-lang : (meet (meet a b) c).lang ≡ (meet a (meet b c)).lang
  assoc-lang =
      left.lang
      ∙ ap (λ t. glb t c.lang) ab.lang
      ∙ glb_assoc a.lang b.lang c.lang
      ∙ ap (glb a.lang) (sym bc.lang)
      ∙ sym right.lang

  assoc-sticky : (meet (meet a b) c).maybe_lang_tagged ≡ (meet a (meet b c)).maybe_lang_tagged
  assoc-sticky = ground (arith, left.sticky, right.sticky, ab.sticky, bc.sticky, ab.kind, bc.kind)

  assoc-mark : (meet (meet a b) c).degraded ≡ (meet a (meet b c)).degraded
  unfolding disagree
  assoc-mark =
      rw
        (
          left.mark, right.mark, ab.mark, bc.mark, ab.kind, bc.kind, ab.datatype, bc.datatype,
          ab.lang, bc.lang,
        )
        (let k = not (kind_eq a.kind b.kind) in
          let k' = not (kind_eq (kind_meet a.kind b.kind) c.kind) in
          let l = not (kind_eq b.kind c.kind) in
          let l' = not (kind_eq a.kind (kind_meet b.kind c.kind)) in
          let x = a.datatype_iri in
          let y = b.datatype_iri in
          let z = c.datatype_iri in
          regroup_marks a.degraded b.degraded c.degraded k k' l l' (not (equal x y))
            (not (equal (glb x y) z)) (not (equal y z)) (not (equal x (glb y z)))
            (not (equal a.lang b.lang)) (not (equal (glb a.lang b.lang) c.lang))
            (not (equal b.lang c.lang)) (not (equal a.lang (glb b.lang c.lang)))
            (kind_mark a.kind b.kind c.kind) (text_mark x y z) (text_mark a.lang b.lang c.lang))

-- The meet of three well-formed annotations does not depend on how they are grouped.
pub meet_assoc :
    (a b c : TermInfo)
    → IsWellFormed a
    → IsWellFormed b
    → IsWellFormed c
    → meet (meet a b) c ≡ meet a (meet b c)
meet_assoc a b c u v w = cc (
  assoc-kind a b c u v w,
  assoc-datatype a b c u v w,
  assoc-lang a b c u v w,
  assoc-sticky a b c u v w,
  assoc-mark a b c u v w,
)

-- If the meet pins a term down, then the two annotations were one and the same.
pub meet-determined :
    (a b : TermInfo)
    → IsWellFormed a
    → IsWellFormed b
    → is_fully_determined (meet a b) ≡ true
    → (meet a b ≡ a) × (a ≡ b)
unfolding meet is_fully_determined
meet-determined a b w v h = ground (
  arith,
  equal_iff a.datatype_iri b.datatype_iri,
  equal_iff a.lang b.lang,
  equal_iff a.datatype_iri rdf_lang_string,
)
