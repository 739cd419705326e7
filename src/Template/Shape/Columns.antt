-- ===== src/Template/Shape/Columns.antt =====
-- The numbers that `sameTemplateShape` gives to the columns of a template, and the columns that
-- `referencedColumns` lists.
use sql2rdf.Base.{
  ℕ, zero, suc, ◌<◌, true, false, List, [], ◌∷◌, ◌++◌, map, Option, none, some, length,
  length-append, Bytes, equal, equal_iff, any_of, Bool-cases, Option-cases, ◌≡◌, refl, sym, ap, ◌∙◌,
  arith, append_assoc, append-nil, inl, inr,
}
use sql2rdf.Node.{Row}
use sql2rdf.Template.{Segment, placeholder, referenced_loop}
use sql2rdf.Template.Shape.{index_of, canon}

pub nth {ℓ} : {A : Type ℓ} → List A → ℕ → Option A
nth [] k = none
nth (x ∷ xs) zero = some x
nth (x ∷ xs) (suc k) = nth xs k

pub nth-append {ℓ} :
    {A : Type ℓ} (xs ys : List A) (k : ℕ) (v : A) → nth xs k ≡ some v → nth (xs ++ ys) k ≡ some v
unfolding nth
nth-append [] ys k v h = cc
nth-append (x ∷ xs) ys zero v h = h
nth-append (x ∷ xs) ys (suc k) v h = nth-append xs ys k v h

pub nth-index_of :
    (row : Row) (name : Bytes) (seen : List Bytes) (k : ℕ)
    → index_of name seen ≡ some k
    → nth (map row seen) k ≡ some (row name)
unfolding index_of nth
nth-index_of row name [] k h = cc
nth-index_of row name (c ∷ seen) k h = elim (Bool-cases (equal c name)) [
  | inl e ↦ let z : k ≡ 0 = cc (rw e at h) in rw z (ap (λ x. some (row x)) ((equal_iff c name).0 e))
  | inr e ↦ elim (Option-cases (index_of name seen)) [
    | inl o ↦ cc (rw (e, o) at h)
    | inr (j, o) ↦ let s : k ≡ suc j = cc (rw (e, o) at h) in rw s (nth-index_of row name seen j o)
  ]
]

pub any_of-index_of :
    (name : Bytes) (seen : List Bytes)
    → any_of (λ c. equal c name) seen ≡ elim (index_of name seen) [ none ↦ false | some k ↦ true ]
unfolding any_of index_of
any_of-index_of name [] = refl
any_of-index_of name (c ∷ seen) = elim (Bool-cases (equal c name)) [
  | inl e ↦ rw e refl
  | inr e ↦ elim (Option-cases (index_of name seen)) [
    | inl o ↦ rw (e, o) (any_of-index_of name seen ∙ rw o refl)
    | inr (j, o) ↦ rw (e, o) (any_of-index_of name seen ∙ rw o refl)
  ]
]

pub index_of_last :
    (name : Bytes) (seen : List Bytes)
    → index_of name seen ≡ none
    → index_of name (seen ++ name ∷ []) ≡ some (length seen)
unfolding index_of
index_of_last name [] h = rw ((equal_iff name name).1 refl) refl
index_of_last name (c ∷ seen) h = elim (Bool-cases (equal c name)) [
  | inl e ↦ cc (rw e at h)
  | inr e ↦ elim (Option-cases (index_of name seen)) [
    | inl o ↦ rw (e, index_of_last name seen o) refl
    | inr (j, o) ↦ cc (rw (e, o) at h)
  ]
]

pub index_of_below :
    (name : Bytes) (seen : List Bytes) (k : ℕ) → index_of name seen ≡ some k → k < length seen
unfolding index_of
index_of_below name [] k h = cc
index_of_below name (c ∷ seen) k h = elim (Bool-cases (equal c name)) [
  | inl e ↦ let z : 0 ≡ k = cc (rw e at h) in omega arith
  | inr e ↦ elim (Option-cases (index_of name seen)) [
    | inl o ↦ cc (rw (e, o) at h)
    | inr (j, o) ↦
        let s : suc j ≡ k = cc (rw (e, o) at h) in
        let below = index_of_below name seen j o in omega arith
  ]
]

-- The number that a placeholder gets, and the columns seen behind it.
pub mark : Bytes → List Bytes → ℕ
mark name seen = elim (index_of name seen) [ none ↦ length seen | some k ↦ k ]

pub grow : Bytes → List Bytes → List Bytes
grow name seen = elim (index_of name seen) [ none ↦ seen ++ name ∷ [] | some k ↦ seen ]

pub mark-first :
    (name : Bytes) (seen : List Bytes) → index_of name seen ≡ none → mark name seen ≡ length seen
unfolding mark
mark-first name seen o = rw (o, mark) refl

pub mark-again :
    (name : Bytes) (seen : List Bytes) (k : ℕ) → index_of name seen ≡ some k → mark name seen ≡ k
unfolding mark
mark-again name seen k o = rw (o, mark) refl

pub grow-first :
    (name : Bytes) (seen : List Bytes)
    → index_of name seen ≡ none
    → grow name seen ≡ seen ++ name ∷ []
unfolding grow
grow-first name seen o = rw (o, grow) refl

pub grow-again :
    (name : Bytes) (seen : List Bytes) (k : ℕ) → index_of name seen ≡ some k → grow name seen ≡ seen
unfolding grow
grow-again name seen k o = rw (o, grow) refl

pub referenced_loop-grow :
    (name : Bytes) (segs : List Segment) (seen : List Bytes)
    → referenced_loop (placeholder name ∷ segs) seen ≡ referenced_loop segs (grow name seen)
unfolding referenced_loop
referenced_loop-grow name segs seen = elim (Option-cases (index_of name seen)) [
  | inl o ↦ rw (grow-first name seen o) (rw (any_of-index_of name seen) (rw o refl))
  | inr (k, o) ↦ rw (grow-again name seen k o) (rw (any_of-index_of name seen) (rw o refl))
]

pub canon-mark :
    (name : Bytes) (segs : List Segment) (seen : List Bytes)
    → canon (placeholder name ∷ segs) seen ≡ some (mark name seen) ∷ canon segs (grow name seen)
unfolding canon
canon-mark name segs seen = elim (Option-cases (index_of name seen)) [
  | inl o ↦ rw (grow-first name seen o, mark-first name seen o) (rw o refl)
  | inr (k, o) ↦ rw (grow-again name seen k o, mark-again name seen k o) (rw o refl)
]

pub index_of-grow :
    (name : Bytes) (seen : List Bytes) → index_of name (grow name seen) ≡ some (mark name seen)
index_of-grow name seen = elim (Option-cases (index_of name seen)) [
  | inl o ↦ rw (grow-first name seen o, mark-first name seen o) (index_of_last name seen o)
  | inr (k, o) ↦ rw (grow-again name seen k o, mark-again name seen k o) o
]

pub length-grow :
    (s t : Bytes) (seen seen' : List Bytes)
    → length seen ≡ length seen'
    → mark s seen ≡ mark t seen'
    → length (grow s seen) ≡ length (grow t seen')
length-grow s t seen seen' n m = elim (Option-cases (index_of s seen)) [
  | inl o ↦ elim (Option-cases (index_of t seen')) [
    | inl o' ↦
        rw (grow-first s seen o, grow-first t seen' o')
          (omega (arith, n, length-append seen (s ∷ []), length-append seen' (t ∷ [])))
    | inr (k, o') ↦
        let e : length seen ≡ k = rw (mark-first s seen o, mark-again t seen' k o') at m in
        let below = index_of_below t seen' k o' in absurd (omega arith)
  ]
  | inr (k, o) ↦ elim (Option-cases (index_of t seen')) [
    | inl o' ↦
        let e : k ≡ length seen' = rw (mark-again s seen k o, mark-first t seen' o') at m in
        let below = index_of_below s seen k o in absurd (omega arith)
    | inr (j, o') ↦ rw (grow-again s seen k o, grow-again t seen' j o') n
  ]
]

pub referenced_loop_extends :
    (segs : List Segment) (seen : List Bytes)
    → (more : List Bytes) × (referenced_loop segs seen ≡ seen ++ more)
unfolding referenced_loop
referenced_loop_extends [] seen = ([], sym (append-nil seen))
referenced_loop_extends (seg ∷ segs) seen = elim (Bool-cases seg.is_placeholder) [
  | inr p ↦ rw p (referenced_loop_extends segs seen)
  | inl p ↦ elim (Bool-cases (any_of (λ c. equal c seg.text) seen)) [
    | inl e ↦ rw p (rw e (referenced_loop_extends segs seen))
    | inr e ↦
        let (more, h) = referenced_loop_extends segs (seen ++ seg.text ∷ []) in
        rw p (rw e (seg.text ∷ more, h ∙ append_assoc seen (seg.text ∷ []) more))
  ]
]
