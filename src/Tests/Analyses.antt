-- ===== src/Tests/Analyses.antt =====
-- A main block that creates two weak events, and the blocks of the events.
use fsracer.Prelude.{ℕ, ◌≡◌, refl, List, [], ◌∷◌, codes, text_ord, pair_ord}
use fsracer.Utils.{to_string, to_string_in}
use fsracer.Utils.Decimal.{to_string_inj}
use fsracer.Trace.{
  Event, EventType, Construct, new_event, link, Expr, Block, BlockType, Trace, get_pretty_block_id,
}
use fsracer.Graph.{make_node, add_node_attr, has_attribute}
use fsracer.Graph.Edges.{dependents_of}
use fsracer.Dependency.{
  EventInfo, initial, happens, happens_before, label_ord, proceed_event, add_dependencies,
  add_dependencies_loop, add_alive_event, remove_alive_event, connect_with_w_events, connect_loop,
  proceed_s_event, proceed_m_event, proceed_w_event, proceed_ext_event,
}
use fsracer.Dependency.Blocks.{
  analyze_trace, analyze_link, analyze_trigger, analyze_new_event, analyze_construct, analyze_exprs,
  analyze_block, analyze_blocks, enter_main, enter_event, run_block, connect_sinks,
}
use fsracer.Dependency.Priority.{direction, apply_direction, proceed_event-direction}
use fsracer.Dependency.Context.{analyze_link-analyze_trigger}
use fsracer.Dependency.Edges.{IsGood}
use fsracer.Dependency.Links.{BlocksLinked}
use fsracer.Dependency.Invariant.{analyze_trace-IsGood}
use fsracer.Tests.Graphs
use fsracer.Tests.Graphs.{weak}

unfoldable pub program : Unit {0}
unfolding Graphs.program to_string_in to_string get_pretty_block_id add_alive_event
    remove_alive_event add_dependencies_loop add_dependencies connect_loop connect_with_w_events
    has_attribute add_node_attr analyze_link analyze_trigger analyze_new_event analyze_construct
    analyze_exprs connect_sinks enter_main enter_event run_block analyze_block analyze_blocks
    analyze_trace proceed_s_event proceed_m_event proceed_w_event proceed_ext_event proceed_event
program = tt

abbrev pub expr : Construct → Expr
expr c = record { construct = c; debug_info = [] }

abbrev pub block_of : ℕ → List Construct → Block
block_of id cs = record { block_id = id; block_type = BlockType.reg; exprs = exprs cs }
  where
    exprs : List Construct → List Expr
    exprs [] = []
    exprs (c ∷ cs) = expr c ∷ exprs cs

abbrev pub main_block : List Construct → Block
main_block cs = record (block_of 1 cs) { block_type = BlockType.main }

abbrev pub trace_of : List Construct → Trace
trace_of cs = record {
  blocks = main_block cs ∷ block_of 2 [] ∷ block_of 3 [] ∷ [];
  exec_ops = [];
  thread_id = 7;
  cwd = codes "/home";
}

abbrev pub weaker : Event
weaker = record { event_type = EventType.w; event_value = 1 }

-- Two events that nothing orders, and the same two with a link.
abbrev pub free : Trace
free = trace_of (new_event 2 weak ∷ new_event 3 weaker ∷ [])

abbrev pub linked : Trace
linked = trace_of (new_event 2 weak ∷ new_event 3 weaker ∷ link 2 3 ∷ [])

pub free-linked : BlocksLinked free.blocks initial
free-linked = ((tt, (tt, tt)), (tt, (tt, tt)))

pub linked-linked : BlocksLinked linked.blocks initial
unfolding program
linked-linked = ((tt, (tt, (refl, tt))), (tt, (tt, tt)))

edges :
    (dependents_of (analyze_trace free initial).dep_graph (codes "2") ≡ [])
    × (dependents_of (analyze_trace linked initial).dep_graph (codes "2")
        ≡ (codes "3", happens_before) ∷ [])
unfolding program
edges = (refl, refl)

analyze_trace-IsGood_example : IsGood (analyze_trace linked initial).dep_graph
analyze_trace-IsGood_example = analyze_trace-IsGood linked linked-linked

abbrev strong_node : EventInfo
strong_node = make_node (codes "2") (record { event_type = EventType.s; event_value = 0 })

abbrev weak_node : EventInfo
weak_node = make_node (codes "3") weak

proceed_event-direction_example :
    proceed_event strong_node weak_node Graphs.nodes
    ≡ apply_direction (direction weak strong_node.node_obj) strong_node weak_node Graphs.nodes
proceed_event-direction_example = proceed_event-direction strong_node weak_node Graphs.nodes

analyze_link-analyze_trigger_example :
    (analyze_link 2 3 (analyze_trigger 2 (record initial { dep_graph = Graphs.nodes }))).dep_graph
    ≡ happens (to_string 2) (to_string 3) Graphs.nodes
unfolding program
analyze_link-analyze_trigger_example =
    analyze_link-analyze_trigger 2 3 (record initial { dep_graph = Graphs.nodes }) (λ q. cc)

abbrev numbers : List ℕ
numbers = 1 ∷ 2 ∷ 3 ∷ []

to_string_inj_example : ◌≡◌ {A = ℕ} 12 12
to_string_inj_example = to_string_inj 12 12 refl
