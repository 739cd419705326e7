-- ===== src/Tests/Graphs.antt =====
-- The graphs of a statement and the columns of a row: GraphMap.cpp, MapSQLRow.cpp, ColumnTermMap.cpp.
use sql2rdf.Base.{List, [], ◌∷◌, ◌++◌, Option, none, some, Bytes, codes, ◌≡◌, refl}
use sql2rdf.Node.{Node, node, NodeType, Row, TermType}
use sql2rdf.Term.Xsd
use sql2rdf.SqlRow.{Columns, SqlType, generate_column, column_datatype_iri}
use sql2rdf.Graph.{for_each_graph_node, default_graph_iri}
use sql2rdf.Graph.Order.{emit_targets, named_graphs, for_each_graph_node-named_graphs}

abbrev constant_graph : Bytes → Row → Node
constant_graph iri row = node NodeType.uri iri

abbrev no_columns : Row
no_columns name = none

abbrev append : Option Node → List (Option Node) → List (Option Node)
append graph written = written ++ graph ∷ []

abbrev subject_maps : List (Option Bytes)
subject_maps = some default_graph_iri ∷ some (codes "g1") ∷ []

abbrev pom_maps : List (Option Bytes)
pom_maps = none ∷ some (codes "g2") ∷ []

two_graphs :
    for_each_graph_node constant_graph no_columns append subject_maps pom_maps []
    ≡ some (node NodeType.uri (codes "g1")) ∷ some (node NodeType.uri (codes "g2")) ∷ []
unfolding for_each_graph_node
two_graphs = refl

default_only :
    for_each_graph_node constant_graph no_columns append (some default_graph_iri ∷ []) [] []
    ≡ none ∷ []
unfolding for_each_graph_node
default_only = refl

for_each_graph_node-named_graphs_example :
    for_each_graph_node constant_graph no_columns append subject_maps pom_maps []
    ≡ emit_targets append (named_graphs constant_graph no_columns (subject_maps ++ pom_maps)) []
for_each_graph_node-named_graphs_example =
    for_each_graph_node-named_graphs constant_graph no_columns append subject_maps pom_maps []

abbrev sample_row : Columns
sample_row = (codes "id", record { type = SqlType.integer; text = codes "7" }) ∷ []

id_datatype : column_datatype_iri none (codes "id") sample_row ≡ Xsd.integer
unfolding column_datatype_iri
id_datatype = refl

id_column :
    generate_column TermType.blank_node (codes "id") sample_row ≡ node NodeType.blank (codes "7")
unfolding generate_column
id_column = refl

-- A value is handed to Serd up to its first NUL.
cut_column :
    generate_column TermType.literal
      (codes "id")
      ((codes "id", record { type = SqlType.string; text = b'7' ∷ 0 ∷ b'8' ∷ [] }) ∷ [])
    ≡ node NodeType.literal (codes "7")
unfolding generate_column
cut_column = refl
