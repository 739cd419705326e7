-- ===== src/Printer/Trees.antt =====
-- The lines of the tree (src/sparql-parser/PrettyPrinter.cpp).
use Prim.Native.String.{String}
use sql2rdf.Base.{
  ℕ, zero, suc, ◌+◌, Bool, true, false, not, ◌||◌, List, [], ◌∷◌, ◌++◌, Option, none, some,
  if◌then◌else◌, equal, length, is_empty, Bytes, codes,
}
use sql2rdf.Ast.{
  Var, TriplePattern, InlineData, QueryForm, OrderDirection, Prologue, ℤ, pos, negsuc, QueryHead,
  Expression, exists_expr, Expressions, no_more, more, null_expression, an_expression, GroupElement,
  basic_graph_pattern, group_graph_pattern, union_graph_pattern, optional_graph_pattern,
  minus_graph_pattern, graph_graph_pattern, service_graph_pattern, filter, bind, inline_data,
  sub_select, GroupElements, end_of_group, element, Groups, no_groups, group, MaybeGroup, no_group,
  a_group, Query, query, SelectItems, no_items, select_item, GroupConditions, ungrouped,
  group_condition, OrderConditions, unordered, order_condition,
}
use sql2rdf.Parser.Numbers.{to_string}
use sql2rdf.Printer.{term_str, path_str, expr_str}

unfoldable pub print_indent : ℕ → Bytes
print_indent zero = []
print_indent (suc indent) = codes "  " ++ print_indent indent

-- A line at an indentation.
unfoldable pub line_at : ℕ → Bytes → Bytes
unfolding print_indent
line_at indent text = print_indent indent ++ (text ++ codes "\n")

-- A line for each item.
unfoldable pub each_line {ℓ} : {A : Type ℓ} → ℕ → (A → Bytes) → List A → Bytes
unfolding line_at
each_line indent text [] = []
each_line indent text (x ∷ xs) = line_at indent (text x) ++ each_line indent text xs

unfoldable pub print_triple_pattern : ℕ → TriplePattern → Bytes
unfolding line_at term_str path_str
print_triple_pattern indent tp = line_at indent (
    codes "TriplePattern "
    ++ (term_str tp.subject
        ++ (codes " " ++ (path_str tp.predicate ++ (codes " " ++ term_str tp.object)))))

unfoldable pub print_triple_patterns : ℕ → List TriplePattern → Bytes
unfolding print_triple_pattern
print_triple_patterns indent [] = []
print_triple_patterns indent (tp ∷ tps) =
    print_triple_pattern indent tp ++ print_triple_patterns indent tps

unfoldable pub vars_str : Bool → List Var → Bytes
vars_str first [] = []
vars_str first (v ∷ vs) =
    (if first then [] else codes " ") ++ (codes "?" ++ (v.name ++ vars_str false vs))

unfoldable pub print_values : ℕ → InlineData → Bytes
unfolding line_at vars_str to_string
print_values indent v = line_at indent (
    codes "Values ("
    ++ (vars_str true v.vars ++ (codes ") " ++ (to_string (length v.rows) ++ codes " row(s)"))))

abbrev pub form_name : QueryForm → Bytes
form_name QueryForm.select = codes "SELECT"
form_name QueryForm.construct = codes "CONSTRUCT"
form_name QueryForm.describe = codes "DESCRIBE"
form_name QueryForm.ask = codes "ASK"

abbrev pub when : Bool → Bytes → Bytes
when b text = if b then text else []

-- `os << n` for an `int64_t`.
abbrev pub signed_str : ℤ → Bytes
signed_str (pos n) = to_string n
signed_str (negsuc n) = codes "-" ++ to_string (suc n)

abbrev pub number_line : ℕ → String → Option ℤ → Bytes
number_line indent name none = []
number_line indent name (some n) = line_at indent (codes name ++ (codes " " ++ signed_str n))

unfoldable pub print_prologue : ℕ → Prologue → Bytes
unfolding line_at each_line
print_prologue indent prologue =
    when (not (equal prologue.base_iri []) || not (is_empty prologue.prefixes)) (
      line_at (indent + 1) (codes "Prologue")
      ++ (when (not (equal prologue.base_iri []))
            (line_at (indent + 2) (codes "Base <" ++ (prologue.base_iri ++ codes ">")))
          ++ each_line (indent + 2) (λ p. codes "Prefix " ++ (p.prefix ++ (codes " -> " ++ p.iri)))
              prologue.prefixes))

unfoldable pub print_select_items : ℕ → SelectItems → Bytes
unfolding line_at expr_str
print_select_items indent no_items = []
print_select_items indent (select_item v null_expression items) =
    line_at indent (codes "?" ++ v.name) ++ print_select_items indent items
print_select_items indent (select_item v (an_expression e) items) =
    line_at indent (codes "(" ++ (expr_str e ++ (codes " AS ?" ++ (v.name ++ codes ")"))))
    ++ print_select_items indent items

-- The part for the form of the query; ASK has none.
unfoldable pub print_form : ℕ → QueryHead → SelectItems → QueryForm → Bytes
unfolding line_at each_line print_triple_patterns print_select_items term_str
print_form indent head items QueryForm.select =
    line_at (indent + 1) (codes "Select")
    ++ (when head.select_star (line_at (indent + 2) (codes "*"))
        ++ print_select_items (indent + 2) items)
print_form indent head items QueryForm.construct =
    line_at (indent + 1) (codes "ConstructTemplate")
    ++ print_triple_patterns (indent + 2) head.construct_template
print_form indent head items QueryForm.describe =
    line_at (indent + 1) (codes "Describe" ++ when head.describe_star (codes " *"))
    ++ each_line (indent + 2) term_str head.describe_targets
print_form indent head items QueryForm.ask = []

abbrev pub as_str : Option Var → Bytes
as_str none = []
as_str (some v) = codes " AS ?" ++ v.name

unfoldable pub print_group_by_loop : ℕ → GroupConditions → Bytes
unfolding line_at expr_str
print_group_by_loop indent ungrouped = []
print_group_by_loop indent (group_condition e v rest) =
    line_at indent (expr_str e ++ as_str v) ++ print_group_by_loop indent rest

unfoldable pub print_group_by : ℕ → GroupConditions → Bytes
unfolding line_at print_group_by_loop
print_group_by indent ungrouped = []
print_group_by indent (group_condition e v rest) =
    line_at (indent + 1) (codes "GroupBy")
    ++ print_group_by_loop (indent + 2) (group_condition e v rest)

unfoldable pub print_having_loop : ℕ → Expressions → Bytes
unfolding line_at expr_str
print_having_loop indent no_more = []
print_having_loop indent (more e rest) =
    line_at indent (expr_str e) ++ print_having_loop indent rest

unfoldable pub print_having : ℕ → Expressions → Bytes
unfolding line_at print_having_loop
print_having indent no_more = []
print_having indent (more e rest) =
    line_at (indent + 1) (codes "Having") ++ print_having_loop (indent + 2) (more e rest)

abbrev pub direction_str : OrderDirection → Bytes
direction_str OrderDirection.desc = codes "DESC "
direction_str OrderDirection.asc = codes "ASC "

unfoldable pub print_order_by_loop : ℕ → OrderConditions → Bytes
unfolding line_at expr_str
print_order_by_loop indent unordered = []
print_order_by_loop indent (order_condition d e rest) =
    line_at indent (direction_str d ++ expr_str e) ++ print_order_by_loop indent rest

unfoldable pub print_order_by : ℕ → OrderConditions → Bytes
unfolding line_at print_order_by_loop
print_order_by indent unordered = []
print_order_by indent (order_condition d e rest) =
    line_at (indent + 1) (codes "OrderBy")
    ++ print_order_by_loop (indent + 2) (order_condition d e rest)

abbrev pub values_line : ℕ → Option InlineData → Bytes
values_line indent none = []
values_line indent (some v) = print_values indent v

unfoldable mutual
  unfolding line_at print_triple_patterns print_values print_prologue print_form print_group_by
      print_having print_order_by each_line expr_str term_str

  -- The loop over the elements of a group.
  pub print_elements : ℕ → GroupElements → Bytes
  print_elements indent end_of_group = []
  print_elements indent (element e es) = print_element indent e ++ print_elements indent es

  pub print_group_graph_pattern : ℕ → GroupElements → Bytes
  print_group_graph_pattern indent end_of_group = line_at indent (codes "GroupGraphPattern")
  print_group_graph_pattern indent (element e es) =
      line_at indent (codes "GroupGraphPattern")
      ++ (print_element indent e ++ print_elements indent es)

  -- The cases of the switch.
  pub print_element : ℕ → GroupElement → Bytes
  print_element indent (basic_graph_pattern triples) =
      line_at (indent + 1) (codes "BasicGraphPattern") ++ print_triple_patterns (indent + 2) triples
  print_element indent (group_graph_pattern g) = print_group_graph_pattern (indent + 1) g
  print_element indent (union_graph_pattern gs) =
      line_at (indent + 1) (codes "Union") ++ print_branches (indent + 2) gs
  print_element indent (optional_graph_pattern g) =
      line_at (indent + 1) (codes "Optional") ++ print_group_graph_pattern (indent + 2) g
  print_element indent (minus_graph_pattern g) =
      line_at (indent + 1) (codes "Minus") ++ print_group_graph_pattern (indent + 2) g
  print_element indent (graph_graph_pattern name g) =
      line_at (indent + 1) (codes "Graph " ++ term_str name)
      ++ print_group_graph_pattern (indent + 2) g
  print_element indent (service_graph_pattern silent endpoint g) =
      line_at (indent + 1)
        (codes "Service" ++ (when silent (codes " SILENT") ++ (codes " " ++ term_str endpoint)))
      ++ print_group_graph_pattern (indent + 2) g
  print_element indent (filter e) =
      line_at (indent + 1) (codes "Filter " ++ expr_str e) ++ print_exists (indent + 2) e
  print_element indent (bind v e) =
      line_at (indent + 1) (codes "Bind ?" ++ (v.name ++ (codes " = " ++ expr_str e)))
  print_element indent (inline_data v) = print_values (indent + 1) v
  print_element indent (sub_select q) =
      line_at (indent + 1) (codes "SubSelect") ++ print_query (indent + 2) q

  -- The pattern of a filter that is an EXISTS.
  pub print_exists : ℕ → Expression → Bytes
  print_exists indent (exists_expr negated g) = print_group_graph_pattern indent g
  print_exists indent _ = []

  pub print_branches : ℕ → Groups → Bytes
  print_branches indent no_groups = []
  print_branches indent (group g gs) =
      print_group_graph_pattern indent g ++ print_branches indent gs

  pub print_where : ℕ → MaybeGroup → Bytes
  print_where indent no_group = []
  print_where indent (a_group g) =
      line_at (indent + 1) (codes "Where:") ++ print_group_graph_pattern (indent + 2) g

  pub print_query : ℕ → Query → Bytes
  print_query indent (query head items where_ conditions having order) =
      line_at indent (
        codes "Query ["
        ++ (form_name head.form
            ++ (when head.distinct (codes " DISTINCT")
                ++ (when head.reduced (codes " REDUCED") ++ codes "]"))))
      ++ (print_prologue indent head.prologue
          ++ (each_line (indent + 1)
                (λ dc.
                  (if dc.named then codes "FromNamed " else codes "From ") ++ dc.iri.lexical_form)
                head.dataset_clauses
              ++ (print_form indent head items head.form
                  ++ (print_where indent where_
                      ++ (print_group_by indent conditions
                          ++ (print_having indent having
                              ++ (print_order_by indent order
                                  ++ (number_line (indent + 1) "Limit" head.limit
                                      ++ (number_line (indent + 1) "Offset" head.offset
                                          ++ values_line (indent + 1) head.values_clause)))))))))
