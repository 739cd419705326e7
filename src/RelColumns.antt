-- ===== src/RelColumns.antt =====
-- The columns of a relation and the annotation of a variable over several of them,
-- src/sparql2sql/ir/RelNode.cpp (`column`, `meetColumns`, `meetAcrossArms`). Of `ColumnInfo` the
-- fields that this file reads. A null pointer is `none`.
use mathlib.Core.Path.{subst}
use sql2rdf.Base.{
  Bool, true, false, List, [], ◌∷◌, Option, none, some, if◌then◌else◌, Bytes, equal, All, ◌≡◌, refl,
  sym, ◌∙◌,
}
use sql2rdf.Term.{TermInfo, default, meet, is_fully_determined}
use sql2rdf.Term.Lattice.{IsWellFormed, meet-determined, meet-IsWellFormed}

pub record SchemaColumn : Type 0 where
  pub var : Bytes
  pub term : TermInfo

unfoldable pub schema_column : List SchemaColumn → Bytes → Option SchemaColumn
unfolding equal
schema_column [] var = none
schema_column (c ∷ schema) var =
    let rest = schema_column schema var in if equal c.var var then some c else rest

-- The loop of `meetColumns`, with `seeded` and `acc`.
unfoldable pub meet_loop : Bool → TermInfo → List (Option SchemaColumn) → TermInfo
unfolding meet
meet_loop seeded acc [] = acc
meet_loop seeded acc (none ∷ sources) = meet_loop seeded acc sources
meet_loop false acc (some src ∷ sources) = meet_loop true src.term sources
meet_loop true acc (some src ∷ sources) = meet_loop true (meet acc src.term) sources

unfoldable pub meet_columns : List (Option SchemaColumn) → TermInfo
unfolding meet_loop
meet_columns sources = meet_loop false default sources

-- What each arm has for a variable.
unfoldable pub sources_of : Bytes → List (Option (List SchemaColumn)) → List (Option SchemaColumn)
unfolding schema_column
sources_of var [] = []
sources_of var (none ∷ arms) = none ∷ sources_of var arms
sources_of var (some schema ∷ arms) = schema_column schema var ∷ sources_of var arms

unfoldable pub meet_across_arms : Bytes → List (Option (List SchemaColumn)) → TermInfo
unfolding meet_columns sources_of
meet_across_arms var arms = meet_columns (sources_of var arms)

-- A source that is there is annotated well, or in one way.
abbrev pub SourceIsWellFormed : Option SchemaColumn → Type 0
SourceIsWellFormed none = Unit
SourceIsWellFormed (some src) = IsWellFormed src.term

abbrev pub HasTerm : TermInfo → Option SchemaColumn → Type 0
HasTerm t none = Unit
HasTerm t (some src) = src.term ≡ t

meet_loop-seeded :
    (acc : TermInfo) (sources : List (Option SchemaColumn))
    → IsWellFormed acc
    → All SourceIsWellFormed sources
    → is_fully_determined (meet_loop true acc sources) ≡ true
    → (meet_loop true acc sources ≡ acc) × All (HasTerm acc) sources
unfolding meet_loop
meet_loop-seeded acc [] h k d = (refl, tt)
meet_loop-seeded acc (none ∷ sources) h k d =
    let (whole, rest) = meet_loop-seeded acc sources h k.1 d in (whole, (tt, rest))
meet_loop-seeded acc (some src ∷ sources) h k d =
    let (whole, rest) =
      meet_loop-seeded (meet acc src.term) sources (meet-IsWellFormed acc src.term h k.0) k.1 d in
    let (left, same) = meet-determined acc src.term h k.0 (rw whole at d) in
    (whole ∙ left, (sym same, rw left at rest))

meet_loop-unseeded :
    (acc : TermInfo) (sources : List (Option SchemaColumn))
    → All SourceIsWellFormed sources
    → is_fully_determined (meet_loop false acc sources) ≡ true
    → All (HasTerm (meet_loop false acc sources)) sources
unfolding meet_loop
meet_loop-unseeded acc [] k d = tt
meet_loop-unseeded acc (none ∷ sources) k d = (tt, meet_loop-unseeded acc sources k.1 d)
meet_loop-unseeded acc (some src ∷ sources) k d =
    let (whole, rest) = meet_loop-seeded src.term sources k.0 k.1 d in
    (sym whole, subst (λ t. All (HasTerm t) sources) (sym whole) rest)

-- If the annotation of a variable across the arms of a union is fully determined, then every arm that
-- has the variable annotates it in that way; the annotations of the arms are well formed.
pub meet_across_arms-HasTerm :
    (var : Bytes) (arms : List (Option (List SchemaColumn)))
    → All SourceIsWellFormed (sources_of var arms)
    → is_fully_determined (meet_across_arms var arms) ≡ true
    → All (HasTerm (meet_across_arms var arms)) (sources_of var arms)
unfolding meet_across_arms meet_columns
meet_across_arms-HasTerm var arms k d = meet_loop-unseeded default (sources_of var arms) k d
