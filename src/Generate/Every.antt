-- ===== src/Generate/Every.antt =====
-- What holds of every statement of a description.
use sql2rdf.Base.{
  Bytes, false, List, [], ◌∷◌, Option, none, some, All, All-append, ◌≡◌, Bool-cases, inl, inr,
}
use sql2rdf.Node.{Node}
use sql2rdf.Graph.{is_nothing}
use sql2rdf.SqlRow.{Columns}
use sql2rdf.Generate.{Answer, result_set, no_result, exception}
use sql2rdf.Generate.Statements.{Event, fails, answer_events, concat_map, each, for_term}

module _ (Q : Event → Type 0) where
  pub All-concat_map :
      {A : Type 0} (f : A → List Event)
      → ((x : A) → All Q (f x))
      → (xs : List A) → All Q (concat_map f xs)
  unfolding concat_map
  All-concat_map f h [] = tt
  All-concat_map f h (x ∷ xs) = All-append Q (f x) (concat_map f xs) (h x) (All-concat_map f h xs)

  pub All-each :
      {A : Type 0} (f : A → List Event)
      → ((x : A) → All Q (f x))
      → (xs : List (Option A)) → All Q (each f xs)
  unfolding each
  All-each f h [] = tt
  All-each f h (none ∷ xs) = All-each f h xs
  All-each f h (some x ∷ xs) = All-append Q (f x) (each f xs) (h x) (All-each f h xs)

  pub All-for_term :
      (n : Node) (f : Node → List Event)
      → ((is_nothing n ≡ false) → All Q (f n))
      → All Q (for_term n f)
  unfolding for_term
  All-for_term n f h = elim (Bool-cases (is_nothing n)) [ inl e ↦ rw e tt | inr e ↦ rw e (h e) ]

  pub All-answer_events :
      (answer : Answer) (f : List Columns → List Event)
      → ((rows : List Columns) → All Q (f rows))
      → ((message : Bytes) → Q (fails message))
      → All Q (answer_events answer f)
  unfolding answer_events
  All-answer_events (result_set rows) f h k = h rows
  All-answer_events no_result f h k = tt
  All-answer_events (exception message) f h k = (k message, tt)
