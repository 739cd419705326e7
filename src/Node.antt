-- ===== src/Node.antt =====
-- The RDF nodes that the term maps make, include/r2rml/TermMap.h (`TermType`). Serd is a library
-- that the source calls: `node t s` is a node of that type over the bytes of `s`, and `nothing` is
-- `SERD_NODE_NULL`.
use sql2rdf.Base.{[], ◌∷◌, ◌==◌, if◌then◌else◌, Bytes, Option}

pub data TermType : Type 0 where
  iri blank_node literal : TermType

-- `SerdType`, as far as term maps set it.
pub data NodeType : Type 0 where
  uri blank literal : NodeType

pub data Node : Type 0 where
  nothing : Node
  node : NodeType → Bytes → Node

-- What a C string says of the bytes it points to: it ends in front of the first NUL.
abbrev pub c_string : Bytes → Bytes
c_string [] = []
c_string (c ∷ s) = let rest = c_string s in if c == 0 then [] else c ∷ rest

-- `serd_node_from_string(t, s.c_str())`.
abbrev pub node_from_string : NodeType → Bytes → Node
node_from_string t s = node t (c_string s)

-- `SQLRow::getValue`, an interface that the database adapter implements: `none` is a value for
-- which `isNull()` holds, `some s` one with `asString() == s`.
abbrev pub Row : Type 0
Row = Bytes → Option Bytes
