-- ===== src/Generate/Complete.antt =====
-- What a complete statement is, and the parts that make one.
use sql2rdf.Base.{
  Bool, true, false, not, ◌||◌, List, [], ◌∷◌, ◌++◌, Option, none, some, if◌then◌else◌, map, Bytes,
  is_empty, All, ◌≡◌, refl, ap, Bool-cases, inl, inr,
}
use sql2rdf.Node.{NodeType, Node, nothing, node, node_from_string}
use sql2rdf.SqlRow.{Columns, texts}
use sql2rdf.Graph.{is_nothing, is_default_graph_node}
use sql2rdf.Graph.Order.{named_graphs}
use sql2rdf.Mapping.{TermMap, GraphMap, generate_graph, compute_datatype_iri, language_tag}
use sql2rdf.Generate.{Statement, literal_tags, tagged}
use sql2rdf.Generate.Statements.{or_default, targets}

-- The default graph, or a term that does not name it.
abbrev pub graph_fits : Option Node → Bool
graph_fits none = true
graph_fits (some g) = not (is_nothing g || is_default_graph_node g)

-- A datatype or a language, never both, and only on a literal.
abbrev pub tags_fit : Node → Option Node × Option Node → Bool
tags_fit object (none, none) = true
tags_fit (node NodeType.literal s) (some d, none) = true
tags_fit (node NodeType.literal s) (none, some l) = true
tags_fit object _ = false

abbrev pub IsComplete : Statement → Type 0
IsComplete s =
    (is_nothing s.subject ≡ false)
    × (is_nothing s.predicate ≡ false)
    × (is_nothing s.object ≡ false)
    × (graph_fits s.graph ≡ true)
    × (tags_fit s.object (s.datatype, s.lang) ≡ true)

abbrev pub Fits : Option Node → Type 0
Fits g = graph_fits g ≡ true

All-some : (gs : List Node) → All (λ g. Fits (some g)) gs → All Fits (map some gs)
All-some [] h = tt
All-some (g ∷ gs) h = (h.0, All-some gs h.1)

named_graphs-Fits :
    {M : Type 0} (make : M → (Bytes → Option Bytes) → Node) (row : Bytes → Option Bytes)
    (gms : List (Option M))
    → All (λ g. Fits (some g)) (named_graphs make row gms)
unfolding named_graphs
named_graphs-Fits make row [] = tt
named_graphs-Fits make row (none ∷ gms) = named_graphs-Fits make row gms
named_graphs-Fits make row (some gm ∷ gms) =
    elim (Bool-cases (is_nothing (make gm row) || is_default_graph_node (make gm row))) [
      | inl e ↦ rw e (named_graphs-Fits make row gms)
      | inr e ↦ rw e (ap not e, named_graphs-Fits make row gms)
    ]

or_default-Fits : (gs : List Node) → All (λ g. Fits (some g)) gs → All Fits (or_default gs)
unfolding or_default
or_default-Fits [] h = (refl, tt)
or_default-Fits (g ∷ gs) h = All-some (g ∷ gs) h

pub targets-Fits :
    (sgs pgs : List (Option GraphMap)) (row : Columns) → All Fits (targets sgs pgs row)
unfolding targets
targets-Fits sgs pgs row =
    or_default-Fits _ (named_graphs-Fits (λ gm r. generate_graph gm row) (texts row) (sgs ++ pgs))

pub tagged-IsComplete :
    (subject predicate object : Node) (tags : Option Node × Option Node) (graph : Option Node)
    → is_nothing subject ≡ false
    → is_nothing predicate ≡ false
    → is_nothing object ≡ false
    → tags_fit object tags ≡ true
    → Fits graph
    → IsComplete (tagged subject predicate object tags graph)
tagged-IsComplete subject predicate object tags graph s p o t g = (s, p, o, g, t)

tags_fit-datatype :
    (s iri : Bytes)
    → tags_fit
        (node NodeType.literal s)
        (if is_empty iri then none else some (node_from_string NodeType.uri iri), none)
      ≡ true
tags_fit-datatype s [] = refl
tags_fit-datatype s (c ∷ iri) = refl

tags_fit-language :
    (s iri : Bytes) (lang : Option Bytes)
    → tags_fit (node NodeType.literal s) (elim lang [
      | some l ↦ (none, some (node_from_string NodeType.literal l))
      | none ↦ (if is_empty iri then none else some (node_from_string NodeType.uri iri), none)
    ])
      ≡ true
tags_fit-language s iri none = tags_fit-datatype s iri
tags_fit-language s iri (some l) = refl

pub tags_fit-literal_tags :
    (om : TermMap) (row : Columns) (object : Node)
    → tags_fit object (literal_tags om row object) ≡ true
unfolding literal_tags
tags_fit-literal_tags om row nothing = refl
tags_fit-literal_tags om row (node NodeType.uri s) = refl
tags_fit-literal_tags om row (node NodeType.blank s) = refl
tags_fit-literal_tags om row (node NodeType.literal s) =
    tags_fit-language s (compute_datatype_iri om row) (language_tag om)

pub no_tags_fit : (object : Node) → tags_fit object (none, none) ≡ true
no_tags_fit nothing = refl
no_tags_fit (node NodeType.uri s) = refl
no_tags_fit (node NodeType.blank s) = refl
no_tags_fit (node NodeType.literal s) = refl
