-- ===== src/Catalog/Laws.antt =====
-- Laws of comparisons and lookups in the catalog.
use sql2rdf.Base.{
  Bool, true, false, not, ◌&&◌, &&_elim, List, [], ◌∷◌, ◌++◌, if◌then◌else◌, is_empty, any_of,
  all_of, Bytes, ◌≡◌, refl, arith, Bool-cases, inl, inr,
}
use sql2rdf.Catalog.{
  TypeCatalog, TypeCategory, to_lower, normalize_type, category_of, iequals, type_of, contained,
  covers_unique_key, comparable_types, comparable, comparable_categories,
}

abbrev both : Bool → Bool → TypeCategory → TypeCategory → Bool
both p q x y = if p then false else if q then false else comparable_categories x y

both_comm : (p q : Bool) (x y : TypeCategory) → both p q x y ≡ both q p y x
both_comm p q x y = ground arith

both_trans :
    (p q r : Bool) (x y z : TypeCategory)
    → both p q x y ≡ true
    → both q r y z ≡ true
    → both p r x z ≡ true
both_trans p q r x y z h k = ground arith

-- Comparability does not depend on the order of the two columns.
comparable_comm :
    (catalog : TypeCatalog) (s c t d : Bytes)
    → comparable catalog s c t d ≡ comparable catalog t d s c
unfolding comparable comparable_types
comparable_comm catalog s c t d =
    let a = type_of catalog s c in
    let b = type_of catalog t d in
    both_comm (is_empty a) (is_empty b) (category_of (normalize_type a))
      (category_of (normalize_type b))

-- If a first column is comparable to a second one and the second to a third, then the first is
-- comparable to the third.
pub comparable_trans :
    (catalog : TypeCatalog) (s c t d u e : Bytes)
    → comparable catalog s c t d ≡ true
    → comparable catalog t d u e ≡ true
    → comparable catalog s c u e ≡ true
unfolding comparable comparable_types
comparable_trans catalog s c t d u e h k =
    let a = type_of catalog s c in
    let b = type_of catalog t d in
    let z = type_of catalog u e in
    both_trans (is_empty a) (is_empty b) (is_empty z) (category_of (normalize_type a))
      (category_of (normalize_type b)) (category_of (normalize_type z)) h k

and_false : (b : Bool) → (b && false) ≡ false
and_false b = ground arith

lower : Bytes → Bytes
lower [] = []
lower (c ∷ s) = to_lower c ∷ lower s

any_of-append_right {ℓ} :
    {A : Type ℓ} (p : A → Bool) (xs ys : List A) → any_of p xs ≡ true → any_of p (xs ++ ys) ≡ true
unfolding any_of
any_of-append_right p [] ys h = cc
any_of-append_right p (x ∷ xs) ys h = elim (Bool-cases (p x)) [
  | inl e ↦ rw e refl
  | inr e ↦ rw e (any_of-append_right p xs ys (rw e at h))
]

any_of_mono {ℓ} :
    {A : Type ℓ} (p q : A → Bool) (xs : List A)
    → ((x : A) → p x ≡ true → q x ≡ true)
    → any_of p xs ≡ true
    → any_of q xs ≡ true
unfolding any_of
any_of_mono p q [] f h = cc
any_of_mono p q (x ∷ xs) f h = elim (Bool-cases (p x)) [
  | inl e ↦ rw (f x e) refl
  | inr e ↦ elim (Bool-cases (q x)) [
    | inl e' ↦ rw e' refl
    | inr e' ↦ rw e' (any_of_mono p q xs f (rw e at h))
  ]
]

contained-append :
    (key columns more : List Bytes)
    → contained key columns ≡ true
    → contained key (columns ++ more) ≡ true
unfolding contained all_of
contained-append [] columns more h = refl
contained-append (k ∷ key) columns more h =
    let (first, rest) = &&_elim _ _ h in
    rw (any_of-append_right (λ have. iequals have k) columns more first)
      (contained-append key columns more rest)

abbrev covered_by : List Bytes → List Bytes → Bool
covered_by columns key = not (is_empty key) && contained key columns

&&_mono : (p q r : Bool) → (q ≡ true → r ≡ true) → (p && q) ≡ true → (p && r) ≡ true
&&_mono p q r f h = let (left, right) = &&_elim p q h in rw (left, f right) refl

-- A unique key that is covered by some columns is covered by more columns.
covers_unique_key-append :
    (catalog : TypeCatalog) (table : Bytes) (columns more : List Bytes)
    → covers_unique_key catalog table columns ≡ true
    → covers_unique_key catalog table (columns ++ more) ≡ true
unfolding covers_unique_key
covers_unique_key-append catalog table columns more h =
    any_of_mono (λ t. iequals t.0 table && any_of (covered_by columns) t.1)
      (λ t. iequals t.0 table && any_of (covered_by (columns ++ more)) t.1) catalog.unique_keys
      (λ t e.
        &&_mono (iequals t.0 table) (any_of (covered_by columns) t.1)
          (any_of (covered_by (columns ++ more)) t.1)
          (any_of_mono (covered_by columns) (covered_by (columns ++ more)) t.1 (λ key.
            &&_mono (not (is_empty key)) (contained key columns) (contained key (columns ++ more))
              (contained-append key columns more)))
          e)
      h

contained-nil : (key : List Bytes) → (not (is_empty key) && contained key []) ≡ false
unfolding contained any_of all_of
contained-nil [] = refl
contained-nil (k ∷ key) = refl

any_of-false {ℓ} :
    {A : Type ℓ} (p : A → Bool) (xs : List A) → ((x : A) → p x ≡ false) → any_of p xs ≡ false
unfolding any_of
any_of-false p [] f = refl
any_of-false p (x ∷ xs) f = rw (f x) (any_of-false p xs f)

-- No columns cover no unique key, not even a key that is listed without columns.
covers_unique_key-nil :
    (catalog : TypeCatalog) (table : Bytes) → covers_unique_key catalog table [] ≡ false
unfolding covers_unique_key
covers_unique_key-nil catalog table = any_of-false _ catalog.unique_keys (λ t.
    rw (any_of-false (λ key. not (is_empty key) && contained key []) t.1 contained-nil)
      (and_false (iequals t.0 table)))
