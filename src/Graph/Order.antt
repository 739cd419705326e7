-- ===== src/Graph/Order.antt =====
-- The graphs of a statement as a list.
use sql2rdf.Base.{
  Bool, true, false, not, ◌||◌, List, [], ◌∷◌, ◌++◌, Option, none, some, if◌then◌else◌, is_empty,
  ◌≡◌, refl, sym, ap, ◌∙◌, arith, Bool-cases, inl, inr,
}
use sql2rdf.Node.{Node, Row}
use sql2rdf.Graph.{is_default_graph_node, is_nothing, try_emit, try_all, for_each_graph_node}

||_false : (b : Bool) → (b || false) ≡ b
||_false b = ground arith

||_true : (b : Bool) → (b || true) ≡ true
||_true b = ground arith

module _ {M : Type 0} (generate : M → Row → Node) (row : Row) where
  -- The named graphs: the nodes of the maps that are there, make a term, and do not name the default
  -- graph.
  unfoldable pub named_graphs : List (Option M) → List Node
  named_graphs [] = []
  named_graphs (none ∷ gms) = named_graphs gms
  named_graphs (some gm ∷ gms) =
      let rest = named_graphs gms in
      if is_nothing (generate gm row) || is_default_graph_node (generate gm row)
      then rest
      else generate gm row ∷ rest

  named_graphs-append :
      (gms hms : List (Option M)) → named_graphs (gms ++ hms) ≡ named_graphs gms ++ named_graphs hms
  unfolding named_graphs
  named_graphs-append [] hms = refl
  named_graphs-append (none ∷ gms) hms = named_graphs-append gms hms
  named_graphs-append (some gm ∷ gms) hms =
      elim (Bool-cases (is_nothing (generate gm row) || is_default_graph_node (generate gm row))) [
        | inl e ↦ rw e (named_graphs-append gms hms)
        | inr e ↦ rw e (ap (◌∷◌ (generate gm row)) (named_graphs-append gms hms))
      ]

module _ {S : Type 0} (emit : Option Node → S → S) where
  unfoldable pub emit_all : List Node → S → S
  emit_all [] s = s
  emit_all (g ∷ gs) s = emit_all gs (emit (some g) s)

  emit_all-append :
      (gs hs : List Node) (s : S) → emit_all (gs ++ hs) s ≡ emit_all hs (emit_all gs s)
  unfolding emit_all
  emit_all-append [] hs s = refl
  emit_all-append (g ∷ gs) hs s = emit_all-append gs hs (emit (some g) s)

  -- The default graph alone, if there is no named graph.
  unfoldable pub emit_targets : List Node → S → S
  unfolding emit_all
  emit_targets [] s = emit none s
  emit_targets (g ∷ gs) s = emit_all (g ∷ gs) s

  emit_targets-append :
      (gs hs : List Node) (s : S)
      → (if not (is_empty gs) || not (is_empty hs)
          then emit_all hs (emit_all gs s)
          else emit none (emit_all hs (emit_all gs s)))
        ≡ emit_targets (gs ++ hs) s
  unfolding emit_targets emit_all
  emit_targets-append [] [] s = refl
  emit_targets-append [] (h ∷ hs) s = refl
  emit_targets-append (g ∷ gs) hs s = sym (emit_all-append gs hs (emit (some g) s))

module _ {M S : Type 0} (generate : M → Row → Node) (row : Row) (emit : Option Node → S → S) where
  try_all-named_graphs :
      (gms : List (Option M)) (s : S) (emitted : Bool)
      → try_all generate row emit gms (s, emitted) ≡ (
        emit_all emit (named_graphs generate row gms) s,
        emitted || not (is_empty (named_graphs generate row gms)),
      )
  unfolding try_all try_emit named_graphs emit_all
  try_all-named_graphs [] s emitted = ap (λ b. (s, b)) (sym (||_false emitted))
  try_all-named_graphs (none ∷ gms) s emitted = try_all-named_graphs gms s emitted
  try_all-named_graphs (some gm ∷ gms) s emitted =
      elim (Bool-cases (is_nothing (generate gm row) || is_default_graph_node (generate gm row))) [
        | inl e ↦ rw e (try_all-named_graphs gms s emitted)
        | inr e ↦ rw e (
            try_all-named_graphs gms (emit (some (generate gm row)) s) true
            ∙ ap
                (λ b. (
                  emit_all emit (named_graphs generate row gms) (emit (some (generate gm row)) s),
                  b,
                ))
                (sym (||_true emitted)))
      ]

  -- A statement is written to the named graphs of the subject's graph maps and then to those of the
  -- predicate-object map's, in order, and to the default graph exactly if there is none of them.
  pub for_each_graph_node-named_graphs :
      (gms hms : List (Option M)) (s : S)
      → for_each_graph_node generate row emit gms hms s
        ≡ emit_targets emit (named_graphs generate row (gms ++ hms)) s
  unfolding for_each_graph_node
  for_each_graph_node-named_graphs gms hms s =
      rw (try_all-named_graphs gms s false, named_graphs-append generate row gms hms)
        (rw
          (try_all-named_graphs hms (emit_all emit (named_graphs generate row gms) s)
            (not (is_empty (named_graphs generate row gms))))
          (emit_targets-append emit (named_graphs generate row gms) (named_graphs generate row hms)
            s))
