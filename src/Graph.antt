-- ===== src/Graph.antt =====
-- The graphs that a statement is written to, src/r2rml/GraphMap.cpp (`forEachGraphNode`). A graph
-- map is an abstract class of the source: `M` stands for the objects and `generate` for their
-- `generateRDFTerm`. A null pointer is `none`, in the list of graph maps and as the argument of
-- the callback `emit`, which changes a state.
pub mod Order
use sql2rdf.Base.{
  Bool, true, false, not, ◌&&◌, ◌||◌, List, [], ◌∷◌, Option, none, some, if◌then◌else◌, Bytes,
  codes, equal,
}
use sql2rdf.Node.{Node, nothing, node, NodeType, Row}

abbrev pub default_graph_iri : Bytes
default_graph_iri = codes "http://www.w3.org/ns/r2rml#defaultGraph"

unfoldable pub is_default_graph_node : Node → Bool
unfolding equal
is_default_graph_node (node NodeType.uri s) = equal s default_graph_iri
is_default_graph_node _ = false

abbrev pub is_nothing : Node → Bool
is_nothing nothing = true
is_nothing (node t s) = false

module _ {M S : Type 0} (generate : M → Row → Node) (row : Row) (emit : Option Node → S → S) where
  -- The lambda `tryEmit`, on the state and the flag `emitted`.
  unfoldable pub try_emit : Option M → S × Bool → S × Bool
  unfolding is_default_graph_node
  try_emit none (s, emitted) = (s, emitted)
  try_emit (some gm) (s, emitted) =
      let graph = generate gm row in
      if is_nothing graph || is_default_graph_node graph
      then (s, emitted)
      else (emit (some graph) s, true)

  unfoldable pub try_all : List (Option M) → S × Bool → S × Bool
  unfolding try_emit
  try_all [] state = state
  try_all (gm ∷ gms) state = try_all gms (try_emit gm state)

  unfoldable pub for_each_graph_node : List (Option M) → List (Option M) → S → S
  unfolding try_all
  for_each_graph_node subject_graph_maps pom_graph_maps s =
      let (out, emitted) = try_all pom_graph_maps (try_all subject_graph_maps (s, false)) in
      if emitted then out else emit none out
