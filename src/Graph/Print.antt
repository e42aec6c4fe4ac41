-- ===== src/Graph/Print.antt =====
-- lib/Graph.h: the printed forms of a graph.
use fsracer.Prelude.{Option, none, some, [], ◌∷◌, ◌++◌, Text, codes, Ord, text_ord, pair_ord}
use fsracer.Collections.Set.{Set}
use fsracer.Collections.Map.{Map, emplace}
use fsracer.Graph.{Node, Graph, GraphFormat, get_node_info}

-- The members of a `GraphPrinter` that the printing of a graph calls.
pub record Printer (T L : Type 0) : Type 0 where
  pub print_node_dot : Text → Node T L → Text
  pub print_edge_dot : Node T L → Node T L → Text
  pub print_edge_csv : Node T L → Node T L → Text
  pub print_edge_label : L → Text

-- `GraphPrinterDefault`
unfoldable pub printer_default : {T L : Type 0} → Printer T L
printer_default = record {
  print_node_dot = λ node_id node. node_id;
  print_edge_dot = λ source target. source.node_id ++ codes "->" ++ target.node_id;
  print_edge_csv = λ source target. source.node_id ++ codes "," ++ target.node_id;
  print_edge_label = λ label. [];
}

-- A text is printed with what follows it, but for the empty one.
abbrev pub unless_empty : Text → Text → Text
unless_empty [] rest = []
unless_empty (c ∷ str) rest = (c ∷ str) ++ rest

module _ {T L : Type 0} (printer : Printer T L) (g : Graph T L) where
  abbrev pub edge_dot : Node T L → L → Option (Node T L) → Text
  edge_dot source label none = []
  edge_dot source label (some target) =
      unless_empty (printer.print_edge_dot source target)
        (codes "[label=\"" ++ printer.print_edge_label label ++ codes "\"];\n")

  unfoldable pub edges_dot : Node T L → Set (Text × L) → Text
  unfolding get_node_info
  edges_dot source [] = []
  edges_dot source ((target, label) ∷ dependents) =
      edge_dot source label (get_node_info target g) ++ edges_dot source dependents

  unfoldable pub nodes_dot : Graph T L → Text
  unfolding edges_dot
  nodes_dot [] = []
  nodes_dot ((_, node) ∷ rest) =
      unless_empty (printer.print_node_dot node.node_id node) (codes ";\n")
      ++ edges_dot node node.dependents
      ++ nodes_dot rest

  unfoldable pub print_dot : Text
  unfolding nodes_dot
  print_dot = codes "digraph {\n" ++ nodes_dot g ++ codes "}\n"

-- The set of edges that `PrintCSV` builds: nodes are compared by their names.
abbrev pub EdgeSet : Type 0 → Type 0 → Type 0
EdgeSet T L = Map ((Text × Text) × L) (Node T L × Node T L)

module _ {T L : Type 0} ⦃q : Ord L⦄ (g : Graph T L) where
  abbrev pub insert_edge : Node T L → L → Option (Node T L) → EdgeSet T L → EdgeSet T L
  insert_edge source label none edges = edges
  insert_edge source label (some target) edges =
      emplace ((source.node_id, target.node_id), label) (source, target) edges

  unfoldable pub insert_edges : Node T L → Set (Text × L) → EdgeSet T L → EdgeSet T L
  unfolding get_node_info
  insert_edges source [] edges = edges
  insert_edges source ((target, label) ∷ dependents) edges =
      insert_edges source dependents (insert_edge source label (get_node_info target g) edges)

  unfoldable pub edge_set : Graph T L → EdgeSet T L → EdgeSet T L
  unfolding insert_edges
  edge_set [] edges = edges
  edge_set ((_, node) ∷ rest) edges = edge_set rest (insert_edges node node.dependents edges)

module _ {T L : Type 0} ⦃q : Ord L⦄ (printer : Printer T L) where
  unfoldable pub edges_csv : EdgeSet T L → Text
  edges_csv [] = []
  edges_csv (((_, label), (source, target)) ∷ rest) =
      unless_empty (printer.print_edge_csv source target)
        (codes "," ++ printer.print_edge_label label ++ codes "\n")
      ++ edges_csv rest

  unfoldable pub print_csv : Graph T L → Text
  unfolding edge_set edges_csv
  print_csv g = edges_csv (edge_set g g [])

  unfoldable pub print_graph : GraphFormat → Graph T L → Text
  unfolding print_dot print_csv
  print_graph GraphFormat.dot g = print_dot printer g
  print_graph GraphFormat.csv g = print_csv g
