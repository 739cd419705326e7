-- ===== src/Parser/Total/Paths.antt =====
-- Names and property paths.
use sql2rdf.Base.{ℕ, suc, List, ◌≤◌, refl, none, some, Bytes, Option}
use sql2rdf.Lexer.Token.{TokenType}
use sql2rdf.Ast.{Iri}
use sql2rdf.Parser.State.{ordinal}
use sql2rdf.Parser.Calls.{Calls}
use sql2rdf.Parser.Iris.{
  parse_iri, is_pname, is_var, is_iri, parse_var, resolve_iri_value, lookup_prefix, found_prefix,
}
use sql2rdf.Parser.Paths.{
  parse_negated_iri, parse_path_negated_property_set, parse_path_primary, parse_path_elt,
  parse_path_elt_or_inverse, parse_path_sequence, parse_path_alternative,
}
use sql2rdf.Parser.Total.{
  Runs, Eats, Live, Keeps, Eats-Runs, Eats-lower, pure-Runs, error-Eats, if-Eats, branch-Runs,
  check-Live, or-Live, bind-Runs, bind-Eats, late-Eats, unchanged-Takes, bind-Eats_within, seq-Runs,
  seq-Takes_within, pure-Keeps, error-Keeps, bind-Keeps,
}
use sql2rdf.Parser.Total.Steps.{
  get-Keeps, current-Keeps, advance-Takes, match-Eats, match-Runs_within, match-Eats_within,
  matched-Runs, expect-Eats,
}
use sql2rdf.Parser.Total.Loops.{Eats-Turns, done-Turns, match-Turns, repeat-Runs}
use sql2rdf.Parser.Total.Rules.{Fit}

pub is_var-Live : Live is_var
unfolding is_var ordinal
is_var-Live = or-Live (check-Live _ refl) (check-Live _ refl)

pub is_pname-Live : Live is_pname
unfolding is_pname ordinal
is_pname-Live = or-Live (check-Live _ refl) (check-Live _ refl)

pub is_iri-Live : Live is_iri
unfolding is_iri ordinal
is_iri-Live = or-Live (check-Live _ refl) is_pname-Live

found_prefix-Keeps : (prefix : Bytes) (o : Option Bytes) → Keeps (found_prefix prefix o)
unfolding found_prefix
found_prefix-Keeps prefix none = error-Keeps _
found_prefix-Keeps prefix (some iri) = pure-Keeps iri

lookup_prefix-Keeps : (prefix : Bytes) → Keeps (lookup_prefix prefix)
unfolding lookup_prefix
lookup_prefix-Keeps prefix = bind-Keeps get-Keeps λ s. found_prefix-Keeps prefix _

resolve_iri_value-Keeps : (type : TokenType) (text : Bytes) → Keeps (resolve_iri_value type text)
unfolding resolve_iri_value
resolve_iri_value-Keeps TokenType.iriref text = bind-Keeps get-Keeps λ s. pure-Keeps _
resolve_iri_value-Keeps _ text = bind-Keeps (lookup_prefix-Keeps _) λ iri. pure-Keeps _

pub parse_iri-Eats : (n : ℕ) → Eats n parse_iri
unfolding parse_iri ordinal
parse_iri-Eats n =
    if-Eats (check-Live _ refl)
      (unchanged-Takes current-Keeps λ t.
        unchanged-Takes (resolve_iri_value-Keeps _ _)
          λ value. seq-Takes_within advance-Takes (pure-Runs _))
      (if-Eats is_pname-Live
        (unchanged-Takes current-Keeps λ t.
          unchanged-Takes (resolve_iri_value-Keeps _ _)
            λ value. seq-Takes_within advance-Takes (pure-Runs _))
        (error-Eats _))

pub parse_var-Eats : (n : ℕ) → Eats n parse_var
unfolding parse_var ordinal
parse_var-Eats n =
    if-Eats is_var-Live
      (unchanged-Takes current-Keeps λ _. seq-Takes_within advance-Takes (pure-Runs _))
      (error-Eats _)

parse_negated_iri-Eats : (n : ℕ) (sets : List Iri × List Iri) → Eats n (parse_negated_iri sets)
unfolding parse_negated_iri ordinal
parse_negated_iri-Eats n sets = late-Eats (matched-Runs (check-Live _ refl)) λ inv.
    bind-Eats_within (match-Eats_within (check-Live _ refl) (pure-Runs _) (parse_iri-Eats n))
      λ _. pure-Runs _

parse_negated-Runs : (n fuel : ℕ) → n ≤ fuel → Runs n (parse_path_negated_property_set fuel)
unfolding parse_path_negated_property_set ordinal
parse_negated-Runs n fuel l =
    bind-Runs
      (match-Runs_within (check-Live _ refl)
        (bind-Runs
          (branch-Runs _ (pure-Runs _) (
            repeat-Runs _ l λ sets. Eats-Turns (
              bind-Eats_within (parse_negated_iri-Eats n sets)
                λ _. match-Runs_within (check-Live _ refl) (pure-Runs _) (pure-Runs _))))
          λ _. seq-Runs (Eats-Runs (expect-Eats _ _ refl)) (pure-Runs _))
        (Eats-Runs (parse_negated_iri-Eats n _)))
      λ _. pure-Runs _

module _ (n : ℕ) (calls : Calls) (h : Fit n calls) where
  parse_path_primary-Eats : Eats (suc n) (parse_path_primary calls)
  unfolding parse_path_primary ordinal
  parse_path_primary-Eats = match-Eats (check-Live _ refl) (pure-Runs _) (
      match-Eats (check-Live _ refl) (parse_negated-Runs n calls.fuel h.loops_inside) (
        match-Eats (check-Live _ refl)
          (bind-Runs (Eats-Runs h.path)
            λ _. seq-Runs (Eats-Runs (expect-Eats _ _ refl)) (pure-Runs _))
          (bind-Eats (parse_iri-Eats (suc n)) λ _. pure-Runs _)))

  parse_path_elt-Eats : Eats (suc n) (parse_path_elt calls)
  unfolding parse_path_elt ordinal
  parse_path_elt-Eats = bind-Eats parse_path_primary-Eats λ p.
      match-Runs_within (check-Live _ refl) (pure-Runs _) (
        match-Runs_within (check-Live _ refl) (pure-Runs _)
          (match-Runs_within (check-Live _ refl) (pure-Runs _) (pure-Runs _)))

  parse_path_elt_or_inverse-Eats : Eats (suc n) (parse_path_elt_or_inverse calls)
  unfolding parse_path_elt_or_inverse ordinal
  parse_path_elt_or_inverse-Eats =
      match-Eats (check-Live _ refl)
        (bind-Runs (Eats-Runs (Eats-lower parse_path_elt-Eats)) λ _. pure-Runs _)
        parse_path_elt-Eats

  parse_path_sequence-Eats : Eats (suc n) (parse_path_sequence calls)
  unfolding parse_path_sequence ordinal
  parse_path_sequence-Eats = bind-Eats parse_path_elt_or_inverse-Eats λ first.
      repeat-Runs first h.loops_inside λ left.
        match-Turns (check-Live _ refl)
          (bind-Runs (Eats-Runs (Eats-lower parse_path_elt_or_inverse-Eats)) λ _. pure-Runs _)
          (done-Turns left)

  pub parse_path_alternative-Eats : Eats (suc n) (parse_path_alternative calls)
  unfolding parse_path_alternative ordinal
  parse_path_alternative-Eats = bind-Eats parse_path_sequence-Eats λ first.
      repeat-Runs first h.loops_inside λ left.
        match-Turns (check-Live _ refl)
          (bind-Runs (Eats-Runs (Eats-lower parse_path_sequence-Eats)) λ _. pure-Runs _)
          (done-Turns left)
