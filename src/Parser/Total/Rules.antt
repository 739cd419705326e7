-- ===== src/Parser/Total/Rules.antt =====
-- What the methods of the parser are told of their recursive calls.
use sql2rdf.Base.{ℕ, suc, Bool, List, ◌≤◌}
use sql2rdf.Ast.{TriplePattern}
use sql2rdf.Parser.Calls.{Calls}
use sql2rdf.Parser.Total.{Eats}

-- The recursive calls read a token and end, from less than `n`.
pub record Fit (n : ℕ) (calls : Calls) : Type 0 where
  pub loops : suc n ≤ calls.fuel
  pub loops_inside : n ≤ calls.fuel
  pub path : Eats n calls.parse_path
  pub expression : Eats n calls.parse_expression
  pub group : Eats n calls.parse_group_graph_pattern
  pub node :
      (path_mode : Bool) (out : List TriplePattern) → Eats n (calls.parse_graph_node path_mode out)
