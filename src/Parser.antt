-- ===== src/Parser.antt =====
-- The parser of SPARQL queries, src/sparql-parser/Parser.cpp and its siblings.
pub mod State
pub mod Iris
pub mod Calls
pub mod Paths
pub mod Literals
pub mod Builtins
pub mod Expressions
pub mod Operators
pub mod Numbers
pub mod Clone
pub mod Triples
pub mod Patterns
pub mod Clauses
pub mod Queries
pub mod Knot
pub mod Total
pub mod Yields
pub mod Prologue
