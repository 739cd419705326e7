-- ===== src/Generate/Outcome.antt =====
-- How a run ends.
use mathlib.Core.Path.{subst}
use sql2rdf.Base.{
  ℕ, suc, Bool, false, List, [], ◌∷◌, ◌++◌, map, Option, none, some, Bytes, All, ◌≡◌, refl, sym,
  append_assoc, append-nil, Bool-cases, inl, inr,
}
use sql2rdf.Mapping.{TriplesMap}
use sql2rdf.Generate.{
  Statement, Answer, exception, Run, running, threw, failed, clobbered, write, raise, clobber,
  table_rows, triples_map_at,
}
use sql2rdf.Generate.Process.{process_database}
use sql2rdf.Generate.Statements.{Event, writes, fails, database_events, HasNoSelfJoin}
use sql2rdf.Generate.Writing.{write_all}
use sql2rdf.Generate.Refinement.{process_database-write_all}
use sql2rdf.Generate.Complete.{IsComplete}
use sql2rdf.Generate.Keeps.{Known, process_database-Keeps}

-- A triples map of the mapping.
abbrev pub IsListed : List (Option TriplesMap) → TriplesMap → Type 0
IsListed maps tm = (n : ℕ) × (triples_map_at maps n ≡ some tm)

-- The query of the logical table of some triples map of the mapping throws with this message.
abbrev pub IsQueryError : (Bytes → Answer) → List (Option TriplesMap) → Bytes → Type 0
IsQueryError execute maps message =
    (tm : TriplesMap) × IsListed maps tm × (table_rows execute tm.logical_table ≡ exception message)

-- The run has written all statements and no query has failed; or those in front of one that the
-- writer refused after them; or those in front of a failed query, whose message it carries.
abbrev pub IsOutcome : (List Statement → Statement → Bool) → List Event → Run → Type 0
IsOutcome accepts es (running written) = map writes written ≡ es
IsOutcome accepts es (threw written) =
    (s : Statement) × (rest : List Event) × (map writes written ++ writes s ∷ rest ≡ es)
    × (accepts written s ≡ false)
IsOutcome accepts es (failed message written) =
    (rest : List Event) × (map writes written ++ fails message ∷ rest ≡ es)
IsOutcome accepts es (clobbered written) = ⊥

-- A failure has one of the queries of the mapping as its cause.
abbrev pub HasCause : (Bytes → Answer) → List (Option TriplesMap) → Run → Type 0
HasCause execute maps (failed message written) = IsQueryError execute maps message
HasCause execute maps _ = Unit

map-append_one :
    (f : Statement → Event) (ss : List Statement) (s : Statement)
    → map f (ss ++ s ∷ []) ≡ map f ss ++ f s ∷ []
map-append_one f [] s = refl
map-append_one f (t ∷ ss) s = rw (map-append_one f ss s) refl

module _ (accepts : List Statement → Statement → Bool) where
  write_all-threw :
      (es : List Event) (written : List Statement)
      → write_all accepts es (threw written) ≡ threw written
  unfolding write_all write raise
  write_all-threw [] written = refl
  write_all-threw (writes s ∷ es) written = write_all-threw es written
  write_all-threw (fails m ∷ es) written = write_all-threw es written

  write_all-failed :
      (es : List Event) (message : Bytes) (written : List Statement)
      → write_all accepts es (failed message written) ≡ failed message written
  unfolding write_all write raise
  write_all-failed [] message written = refl
  write_all-failed (writes s ∷ es) message written = write_all-failed es message written
  write_all-failed (fails m ∷ es) message written = write_all-failed es message written

  write_all-IsOutcome :
      (es : List Event) (written : List Statement)
      → IsOutcome accepts (map writes written ++ es) (write_all accepts es (running written))
  unfolding write_all write raise
  write_all-IsOutcome [] written = sym (append-nil (map writes written))
  write_all-IsOutcome (fails m ∷ es) written = rw (write_all-failed es m written) (es, refl)
  write_all-IsOutcome (writes s ∷ es) written = elim (Bool-cases (accepts written s)) [
    | inl e ↦ rw e (
        subst (λ all. IsOutcome accepts all (write_all accepts es (running (written ++ s ∷ []))))
          (rw (map-append_one writes written s)
            (append_assoc (map writes written) (writes s ∷ []) es))
          (write_all-IsOutcome es (written ++ s ∷ [])))
    | inr e ↦ rw (e, write_all-threw es written) (s, es, refl, e)
  ]

-- What holds of the places of a list holds of its entries.
All-places :
    (K : TriplesMap → Type 0) (maps : List (Option TriplesMap))
    → ((n : ℕ) (tm : TriplesMap) → triples_map_at maps n ≡ some tm → K tm)
    → All (Known K) maps
All-places K [] h = tt
All-places K (none ∷ maps) h = (tt, All-places K maps (λ n. h (suc n)))
All-places K (some tm ∷ maps) h = (h 0 tm refl, All-places K maps (λ n. h (suc n)))

module _ (accepts : List Statement → Statement → Bool) (execute : Bytes → Answer)
    (maps : List (Option TriplesMap)) where
  write-HasCause :
      (s : Statement) (run : Run)
      → IsComplete s
      → HasCause execute maps run
      → HasCause execute maps (write accepts s run)
  unfolding write
  write-HasCause s (running written) c h = elim (Bool-cases (accepts written s)) [
    | inl e ↦ rw e tt
    | inr e ↦ rw e tt
  ]
  write-HasCause s (threw written) c h = h
  write-HasCause s (failed message written) c h = h
  write-HasCause s (clobbered written) c h = h

  clobber-HasCause : (run : Run) → HasCause execute maps run → HasCause execute maps (clobber run)
  clobber-HasCause (running written) h = tt
  clobber-HasCause (threw written) h = h
  clobber-HasCause (failed message written) h = h
  clobber-HasCause (clobbered written) h = h

  raise-HasCause :
      (tm : TriplesMap) (message : Bytes) (run : Run)
      → IsListed maps tm
      → table_rows execute tm.logical_table ≡ exception message
      → HasCause execute maps run
      → HasCause execute maps (raise message run)
  unfolding raise
  raise-HasCause tm message (running written) l e h = (tm, l, e)
  raise-HasCause tm message (threw written) l e h = h
  raise-HasCause tm message (failed m written) l e h = h
  raise-HasCause tm message (clobbered written) l e h = h

  process_database-HasCause : HasCause execute maps (process_database accepts execute maps)
  process_database-HasCause =
      process_database-Keeps accepts execute maps (IsListed maps)
        (All-places (IsListed maps) maps (λ n tm e. (n, e))) (HasCause execute maps) write-HasCause
        clobber-HasCause raise-HasCause tt

  -- Without a triples map that is its own parent, a run over the database ends in one of three ways:
  -- it has written all statements of the mapping in their order, and no query that it made has
  -- failed; or it has thrown, has written those in front of one of them, and the writer refused that
  -- one; or it has thrown with the message of a query of one of the mapping's logical tables that
  -- failed, and has written the statements in front of that failure.
  pub process_database-IsOutcome :
      HasNoSelfJoin 0 maps
      → IsOutcome accepts (database_events execute maps) (process_database accepts execute maps)
        × HasCause execute maps (process_database accepts execute maps)
  process_database-IsOutcome h = (
    rw (process_database-write_all accepts execute maps h)
        (write_all-IsOutcome accepts (database_events execute maps) []),
    process_database-HasCause,
  )
