-- ===== src/Ast.antt =====
-- The syntax trees of queries, include/sparql-parser/ast/Term.h, Path.h, Expression.h,
-- GraphPattern.h and Query.h. A class with a list of its own kind has the list beside it in the
-- mutual block; `pack` and its like make that list from an ordinary one.
use sql2rdf.Base.{ℕ, Bool, List, [], ◌∷◌, Option, Bytes}
use sql2rdf.Expr.{UnaryOp, BinaryOp, AggregateKind, BuiltinFunction}

pub record Iri : Type 0 where
  pub value : Bytes
  pub lexical_form : Bytes

pub record Var : Type 0 where
  pub name : Bytes
  pub line : ℕ
  pub column : ℕ

pub record RdfLiteral : Type 0 where
  pub lexical_form : Bytes
  pub language_tag : Bytes
  pub datatype : Option Iri

pub data Term : Type 0 where
  iri : Iri → Term
  var : Var → Term
  blank_node : (label : Bytes) (anonymous : Bool) → Term
  literal : RdfLiteral → Term

pub data PropertyPathExpr : Type 0 where
  predicate : Iri → PropertyPathExpr
  variable : Var → PropertyPathExpr
  inverse : PropertyPathExpr → PropertyPathExpr
  sequence alternative : PropertyPathExpr → PropertyPathExpr → PropertyPathExpr
  zero_or_more one_or_more zero_or_one : PropertyPathExpr → PropertyPathExpr
  negated_property_set : (forward inverted : List Iri) → PropertyPathExpr

pub record TriplePattern : Type 0 where
  pub subject : Term
  pub predicate : PropertyPathExpr
  pub object : Term

-- A null entry of a row is UNDEF.
pub record InlineData : Type 0 where
  pub vars : List Var
  pub rows : List (List (Option Term))

pub data QueryForm : Type 0 where
  select construct describe ask : QueryForm

pub data OrderDirection : Type 0 where
  asc desc : OrderDirection

pub record PrefixDecl : Type 0 where
  pub prefix : Bytes
  pub iri : Bytes

pub record Prologue : Type 0 where
  pub base_iri : Bytes
  pub prefixes : List PrefixDecl

-- `DatasetClause`; its kind is Named or Default.
pub record DatasetClause : Type 0 where
  pub named : Bool
  pub iri : Iri

-- `int64_t`, by the constructors of the library's integers.
pub data ℤ : Type 0 where
  pos negsuc : ℕ → ℤ

-- The parts of a query that hold no expression and no pattern.
pub record QueryHead : Type 0 where
  pub form : QueryForm
  pub prologue : Prologue
  pub dataset_clauses : List DatasetClause
  pub distinct : Bool
  pub reduced : Bool
  pub select_star : Bool
  pub construct_template : List TriplePattern
  pub has_construct_template : Bool
  pub describe_star : Bool
  pub describe_targets : List Term
  pub limit : Option ℤ
  pub offset : Option ℤ
  pub values_clause : Option InlineData

mutual
  pub data Expression : Type 0 where
    literal_expr : RdfLiteral → Expression
    var_expr : Var → Expression
    iri_expr : Iri → Expression
    unary_expr : UnaryOp → Expression → Expression
    binary_expr : BinaryOp → Expression → Expression → Expression
    in_expr : Expression → Expressions → (negated : Bool) → Expression
    function_call_expr : Iri → Expressions → (distinct : Bool) → Expression
    built_in_call_expr : BuiltinFunction → Expressions → Expression
    aggregate_expr :
        AggregateKind
        → (distinct star : Bool) → MaybeExpression
        → (separator : Option Bytes) → Expression
    exists_expr : (negated : Bool) → GroupElements → Expression

  pub data Expressions : Type 0 where
    no_more : Expressions
    more : Expression → Expressions → Expressions

  pub data MaybeExpression : Type 0 where
    null_expression : MaybeExpression
    an_expression : Expression → MaybeExpression

  -- `GroupElement`; a `GroupGraphPattern` is the list of its elements.
  pub data GroupElement : Type 0 where
    basic_graph_pattern : List TriplePattern → GroupElement
    group_graph_pattern : GroupElements → GroupElement
    union_graph_pattern : Groups → GroupElement
    optional_graph_pattern : GroupElements → GroupElement
    minus_graph_pattern : GroupElements → GroupElement
    graph_graph_pattern : Term → GroupElements → GroupElement
    service_graph_pattern : (silent : Bool) → Term → GroupElements → GroupElement
    filter : Expression → GroupElement
    bind : Var → Expression → GroupElement
    inline_data : InlineData → GroupElement
    sub_select : Query → GroupElement

  pub data GroupElements : Type 0 where
    end_of_group : GroupElements
    element : GroupElement → GroupElements → GroupElements

  pub data Groups : Type 0 where
    no_groups : Groups
    group : GroupElements → Groups → Groups

  pub data MaybeGroup : Type 0 where
    no_group : MaybeGroup
    a_group : GroupElements → MaybeGroup

  -- `Query`: its head, `selectItems`, `where`, and the `solutionModifier` without its numbers.
  pub data Query : Type 0 where
    query :
        QueryHead
        → SelectItems
        → MaybeGroup
        → GroupConditions
        → (having : Expressions) → OrderConditions
        → Query

  pub data SelectItems : Type 0 where
    no_items : SelectItems
    select_item : Var → MaybeExpression → SelectItems → SelectItems

  pub data GroupConditions : Type 0 where
    ungrouped : GroupConditions
    group_condition : Expression → Option Var → GroupConditions → GroupConditions

  pub data OrderConditions : Type 0 where
    unordered : OrderConditions
    order_condition : OrderDirection → Expression → OrderConditions → OrderConditions

unfoldable pub pack : List Expression → Expressions
pack [] = no_more
pack (e ∷ es) = more e (pack es)

unfoldable pub pack_elements : List GroupElement → GroupElements
pack_elements [] = end_of_group
pack_elements (e ∷ es) = element e (pack_elements es)

unfoldable pub pack_groups : List GroupElements → Groups
pack_groups [] = no_groups
pack_groups (g ∷ gs) = group g (pack_groups gs)

unfoldable pub pack_items : List (Var × MaybeExpression) → SelectItems
pack_items [] = no_items
pack_items ((v, e) ∷ items) = select_item v e (pack_items items)

unfoldable pub pack_group_by : List (Expression × Option Var) → GroupConditions
pack_group_by [] = ungrouped
pack_group_by ((e, v) ∷ conditions) = group_condition e v (pack_group_by conditions)

unfoldable pub pack_order_by : List (OrderDirection × Expression) → OrderConditions
pack_order_by [] = unordered
pack_order_by ((d, e) ∷ conditions) = order_condition d e (pack_order_by conditions)
