-- ===== src/Parser/Prologue.antt =====
-- Declarations of prefixes and their lookup (src/sparql-parser/Parser.cpp).
use sql2rdf.Base.{
  Bool, true, false, List, [], ◌∷◌, some, if◌then◌else◌, Bytes, equal, equal_iff, equal-ne,
  Bool-cases, inl, inr, ◌≡◌, refl, sym, ◌∙◌,
}
use sql2rdf.Ast.{PrefixDecl}
use sql2rdf.Parser.Iris.{prefix_iri, declare_prefix}

if-same :
    {A : Type 0} (b : Bool) (x y z : A)
    → (if b then x else y) ≡ (if b then x else (if b then z else y))
if-same true x y z = refl
if-same false x y z = refl

if-swap :
    {A : Type 0} (b c : Bool) (x y z : A)
    → (b ≡ true → c ≡ false)
    → (if b then x else (if c then y else z)) ≡ (if c then y else (if b then x else z))
if-swap true true x y z h = cc (h refl)
if-swap true false x y z h = refl
if-swap false c x y z h = refl

apart : (a b c : Bytes) → equal a b ≡ false → equal a c ≡ true → equal b c ≡ false
apart a b c h k = elim (Bool-cases (equal b c)) [
  | inl e ↦ absurd (equal-ne a b h ((equal_iff a c).0 k ∙ sym ((equal_iff b c).0 e)))
  | inr e ↦ e
]

-- The lookup by a first match, and what a declaration makes of it: its IRI for its own prefix, and
-- for any other prefix what was found before.
pub prefix_iri-declare_prefix :
    (decl : PrefixDecl) (prefixes : List PrefixDecl) (prefix : Bytes)
    → prefix_iri (declare_prefix decl prefixes) prefix
      ≡ (if equal decl.prefix prefix then some decl.iri else prefix_iri prefixes prefix)
unfolding prefix_iri declare_prefix
prefix_iri-declare_prefix decl [] prefix = refl
prefix_iri-declare_prefix decl (p ∷ prefixes) prefix =
    let ih = prefix_iri-declare_prefix decl prefixes prefix in
    elim (Bool-cases (equal p.prefix decl.prefix)) [
      | inl e ↦
          rw (e, (equal_iff p.prefix decl.prefix).0 e)
            (if-same (equal decl.prefix prefix) (some decl.iri) (prefix_iri prefixes prefix)
              (some p.iri))
      | inr e ↦
          rw (e, ih)
            (if-swap (equal p.prefix prefix) (equal decl.prefix prefix) (some p.iri) (some decl.iri)
              (prefix_iri prefixes prefix) (apart p.prefix decl.prefix prefix e))
    ]
