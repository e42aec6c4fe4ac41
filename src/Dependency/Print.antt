-- ===== src/Dependency/Print.antt =====
-- lib/DependencyInferenceAnalyzer.h: how the nodes and edges of the dependency graph are printed.
use fsracer.Prelude.{Bool, not, ◌||◌, [], ◌++◌, Text, codes, text_ord, if◌then◌else◌}
use fsracer.Trace.{Event, EventType, event_to_string}
use fsracer.Graph.{GraphFormat, has_attribute}
use fsracer.Graph.Print.{Printer, printer_default, print_graph}
use fsracer.Dependency.{
  EdgeLabel, creates, happens_before, label_ord, EventInfo, executed_attr, DepState,
}

-- The nodes and edges of events that were not executed are not printed.
unfoldable pub ignore_edge : EventInfo → EventInfo → Bool
ignore_edge source target =
    not (has_attribute executed_attr source) || not (has_attribute executed_attr target)

unfoldable pub print_node_dot : Text → EventInfo → Text
unfolding event_to_string
print_node_dot node_id info =
    if not (has_attribute executed_attr info) then [] else elim info.node_obj.event_type [
      | EventType.main ↦ node_id ++ codes "[label=\"" ++ node_id ++ codes "\"]"
      | _ ↦
          node_id
          ++ codes "[label=\""
          ++ node_id
          ++ codes "["
          ++ event_to_string info.node_obj
          ++ codes "]\"]"
    ]

unfoldable pub print_node_csv : Text → EventInfo → Text
print_node_csv node_id info = if not (has_attribute executed_attr info) then [] else info.node_id

unfoldable pub print_edge_label : EdgeLabel → Text
print_edge_label creates = codes "creates"
print_edge_label happens_before = codes "before"

unfoldable pub print_edge_dot : EventInfo → EventInfo → Text
unfolding ignore_edge printer_default
print_edge_dot source target =
    if ignore_edge source target then [] else printer_default.print_edge_dot source target

unfoldable pub print_edge_csv : EventInfo → EventInfo → Text
unfolding ignore_edge printer_default
print_edge_csv source target =
    if ignore_edge source target then [] else printer_default.print_edge_csv source target

unfoldable pub printer : Printer Event EdgeLabel
unfolding print_node_dot print_edge_dot print_edge_csv print_edge_label
printer = record {
  print_node_dot = print_node_dot;
  print_edge_dot = print_edge_dot;
  print_edge_csv = print_edge_csv;
  print_edge_label = print_edge_label;
}

-- What `DumpOutput` writes.
unfoldable pub dump_output : GraphFormat → DepState → Text
unfolding printer print_graph
dump_output format st = print_graph printer format st.dep_graph
