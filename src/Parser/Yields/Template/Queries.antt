-- ===== src/Parser/Yields/Template/Queries.antt =====
-- The templates of whole queries.
use sql2rdf.Base.{ℕ, zero, suc, false, List, [], ◌∷◌, map, All, Bytes, Option}
use sql2rdf.Ast.{TriplePattern, Query, query, InlineData, Prologue}
use sql2rdf.Parser.State.{◌>>◌, advance}
use sql2rdf.Parser.Calls.{Calls}
use sql2rdf.Parser.Queries.{
  clone_triple, parse_construct_template, parse_construct_where, parse_construct_query,
  parse_select_query, parse_describe_query, parse_ask_query, parse_query_form, parse_query,
  make_query, with_values, with_prologue,
}
use sql2rdf.Parser.Knot.{calls_within, new_parser, parse_string}
use sql2rdf.Parser.Yields.{
  Yields, pure-Yields, error-Yields, run_out-Yields, if-Yields, bind-Yields, then-Yields,
  seq-Yields, match-Yields, Holds,
}
use sql2rdf.Parser.Yields.Template.{
  IsSimpleTriple, Simple, clone-IsSimple, graph_node-Yields, construct_triples-Yields,
}

-- The template of a query has only IRIs and variables as predicates.
abbrev pub HasSimpleTemplate : Query → Type 0
HasSimpleTemplate (query head items where_ group_by having order_by) =
    All IsSimpleTriple head.construct_template

clones-Simple : (triples : List TriplePattern) → Simple triples → Simple (map clone_triple triples)
unfolding clone_triple
clones-Simple [] h = tt
clones-Simple (tp ∷ triples) h = (clone-IsSimple tp.predicate h.0, clones-Simple triples h.1)

abbrev KeepsSimple : Calls → Type 0
KeepsSimple calls =
    (out : List TriplePattern)
    → Simple out
    → Yields (λ r. Simple r.1) (calls.parse_graph_node false out)

calls_within-KeepsSimple : (n : ℕ) → KeepsSimple (calls_within n)
unfolding calls_within
calls_within-KeepsSimple zero = λ out h. run_out-Yields
calls_within-KeepsSimple (suc n) = graph_node-Yields (calls_within n) (calls_within-KeepsSimple n)

module _ (calls : Calls) (node : KeepsSimple calls) where
  template-Yields : Yields Simple (parse_construct_template calls)
  unfolding parse_construct_template
  template-Yields = seq-Yields _ (
      bind-Yields (if-Yields _ (pure-Yields _ tt) (construct_triples-Yields calls node))
        λ triples h. seq-Yields _ (pure-Yields _ h))

  construct_where-Yields : Yields HasSimpleTemplate (parse_construct_where calls)
  unfolding parse_construct_where make_query
  construct_where-Yields = seq-Yields _ (
      bind-Yields (if-Yields _ (pure-Yields _ tt) (construct_triples-Yields calls node))
        λ triples h. seq-Yields _ (
          then-Yields _
            λ datasets. then-Yields _ λ modifier. pure-Yields _ (clones-Simple triples h)))

  construct_query-Yields : Yields HasSimpleTemplate (parse_construct_query calls)
  unfolding parse_construct_query make_query
  construct_query-Yields = seq-Yields _ (
      match-Yields _ construct_where-Yields (
        bind-Yields template-Yields λ triples h.
          then-Yields _ λ datasets. then-Yields _ λ g. then-Yields _ λ modifier. pure-Yields _ h))

  query_form-Yields : Yields HasSimpleTemplate (parse_query_form calls)
  unfolding parse_query_form parse_select_query parse_describe_query parse_ask_query make_query
  query_form-Yields =
      if-Yields _
        (then-Yields _ λ clause.
          then-Yields _ λ datasets. then-Yields _ λ g. then-Yields _ λ modifier. pure-Yields _ tt)
        (if-Yields _ construct_query-Yields (
          if-Yields _
            (seq-Yields _ (
              then-Yields _ λ targets.
                then-Yields _
                  λ datasets. then-Yields _ λ g. then-Yields _ λ modifier. pure-Yields _ tt))
            (if-Yields _
              (seq-Yields _ (
                then-Yields _
                  λ datasets. then-Yields _ λ g. then-Yields _ λ modifier. pure-Yields _ tt))
              (error-Yields _))))

  completed :
      (prologue : Prologue) (values : Option InlineData) (q : Query)
      → HasSimpleTemplate q
      → HasSimpleTemplate (with_prologue prologue (with_values values q))
  unfolding with_prologue with_values
  completed prologue values (query head items where_ group_by having order_by) h = h

  parse_query-Yields : Yields HasSimpleTemplate (parse_query calls)
  unfolding parse_query
  parse_query-Yields = seq-Yields _ (
      bind-Yields query_form-Yields λ q h. then-Yields _ λ values.
        then-Yields _
          λ s. if-Yields _ (pure-Yields _ (completed s.prologue values q h)) (error-Yields _))

parse_string-Yields : (n : ℕ) → Yields HasSimpleTemplate (advance >> parse_query (calls_within n))
parse_string-Yields n =
    seq-Yields _ (parse_query-Yields (calls_within n) (calls_within-KeepsSimple n))

-- The template of any query that is parsed has only IRIs and variables as predicates: no property
-- path gets into a CONSTRUCT template, nested collections and blank nodes included.
pub parse_string-HasSimpleTemplate :
    (query_text base_iri : Bytes) → Holds HasSimpleTemplate (parse_string query_text base_iri)
unfolding parse_string
parse_string-HasSimpleTemplate query_text base_iri =
    (parse_string-Yields _).ends (new_parser _ base_iri)
