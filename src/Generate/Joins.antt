-- ===== src/Generate/Joins.antt =====
-- Join conditions.
use sql2rdf.Base.{
  true, List, [], ◌∷◌, Option, none, some, Bytes, All, equal_iff, equal_refl, ◌↔◌, ◌≡◌, refl, sym,
  ap, Bool-cases, inl, inr,
}
use sql2rdf.SqlRow.{Columns, texts}
use sql2rdf.Mapping.{JoinCondition}
use sql2rdf.Generate.{values_match, joins_match}

-- Two columns that are not null and have one value.
abbrev pub HaveOneValue : Columns → Columns → JoinCondition → Type 0
HaveOneValue child parent jc =
    (v : Bytes) × (texts child jc.child_column ≡ some v) × (texts parent jc.parent_column ≡ some v)

values_match_lem :
    (o p : Option Bytes) → values_match o p ≡ true → (v : Bytes) × (o ≡ some v) × (p ≡ some v)
unfolding values_match
values_match_lem none p h = cc
values_match_lem (some v) none h = cc
values_match_lem (some v) (some w) h = (v, refl, ap some (sym ((equal_iff v w).0 h)))

have_one_value :
    (o p : Option Bytes) (v : Bytes) → o ≡ some v → p ≡ some v → values_match o p ≡ true
unfolding values_match
have_one_value o p v h k = rw (h, k) (equal_refl v)

-- A parent row is joined to a child row exactly if at every join condition both columns are not null
-- and have one value.
pub joins_match-HaveOneValue :
    (joins : List JoinCondition) (child parent : Columns)
    → (joins_match joins child parent ≡ true) ↔ All (HaveOneValue child parent) joins
unfolding joins_match
joins_match-HaveOneValue [] child parent = (λ h. tt, λ h. refl)
joins_match-HaveOneValue (jc ∷ jcs) child parent =
    let o = texts child jc.child_column in
    let p = texts parent jc.parent_column in
    let more = joins_match-HaveOneValue jcs child parent in
    (
      λ h. elim (Bool-cases (values_match o p)) [
        | inl e ↦ (values_match_lem o p e, more.0 (rw e at h))
        | inr e ↦ cc (rw e at h)
      ],
      λ h. let (v, a, b) = h.0 in rw (have_one_value o p v a b) (more.1 h.1),
    )
