-- ===== src/Parser/Calls.antt =====
-- The recursive calls of the parser. Its methods take them as an argument; `Parser.Knot` fills it.
use sql2rdf.Base.{ℕ, Bool, List}
use sql2rdf.Ast.{Term, PropertyPathExpr, TriplePattern, Expression, GroupElements}
use sql2rdf.Parser.State.{Action}

pub record Calls : Type 0 where
  -- the bound of the loops
  pub fuel : ℕ
  pub parse_path : Action PropertyPathExpr
  pub parse_expression : Action Expression
  pub parse_group_graph_pattern : Action GroupElements
  -- the triples that a call adds to `out` come back beside its term
  pub parse_graph_node : Bool → List TriplePattern → Action (Term × List TriplePattern)
