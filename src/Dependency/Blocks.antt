-- ===== src/Dependency/Blocks.antt =====
-- lib/DependencyInferenceAnalyzer.cpp: constructs, blocks and traces.
use fsracer.Prelude.{
  ℕ, ◌%◌, Bool, true, false, ◌&&◌, ◌||◌, none, some, List, [], ◌∷◌, Text, text_ord, pair_ord, same,
  if◌then◌else◌,
}
use fsracer.Collections.Set.{Set}
use fsracer.Utils.{to_string}
use fsracer.Trace.{
  Event, EventType, Expr, Construct, new_event, link, trigger, submit_op, Block, Trace, is_main,
  get_pretty_block_id,
}
use fsracer.Graph.{has_attribute, add_node, add_node_attr, get_node_info, add_edge, get_sinks}
use fsracer.Dependency.{
  label_ord, creates, DepGraph, EventInfo, executed_attr, DepState, current_block_id,
  add_alive_event, remove_alive_event, happens, add_dependencies, connect_with_w_events,
  prune_edges,
}

-- The pending event, if there is one, happens before the event just created.
abbrev pub connect_pending : Text → DepState → DepState
connect_pending event_id st =
    if same st.pending_ev []
    then st
    else record st { dep_graph = happens st.pending_ev event_id st.dep_graph; pending_ev = [] }

unfoldable pub analyze_new_event : ℕ → Event → DepState → DepState
unfolding add_dependencies add_alive_event
analyze_new_event id event st =
    let event_id = to_string id in
    let st1 = record st { dep_graph = add_node event_id event st.dep_graph } in
    let st2 = connect_pending event_id st1 in
    let st3 = record st2 {
      dep_graph = add_edge (current_block_id st) event_id creates st2.dep_graph;
    } in
    add_alive_event event_id (add_dependencies event_id event st3)

unfoldable pub analyze_link : ℕ → ℕ → DepState → DepState
analyze_link source target st =
    let source_ev = to_string source in
    if same source_ev (current_block_id st) || same source_ev st.current_context
    then st
    else record st { dep_graph = happens source_ev (to_string target) st.dep_graph }

-- The assignment of a `size_t` to a `string` converts it to a `char`: one byte is assigned.
unfoldable pub analyze_trigger : ℕ → DepState → DepState
analyze_trigger event_id st = record st { current_context = event_id % 256 ∷ [] }

unfoldable pub analyze_construct : Construct → DepState → DepState
unfolding analyze_new_event analyze_link analyze_trigger
analyze_construct (submit_op _ _ _) st = st
analyze_construct (new_event id event) st = analyze_new_event id event st
analyze_construct (link source target) st = analyze_link source target st
analyze_construct (trigger id) st = analyze_trigger id st

unfoldable pub analyze_exprs : List Expr → DepState → DepState
analyze_exprs [] st = st
analyze_exprs (e ∷ es) st = analyze_exprs es (analyze_construct e.construct st)

-- Every sink happens before the main block.
unfoldable pub connect_sinks : Set Text → Text → DepGraph → DepGraph
connect_sinks [] block_id g = g
connect_sinks (sink ∷ sinks) block_id g = connect_sinks sinks block_id (happens sink block_id g)

-- `IsMain()`: the block gets a node of its own.
unfoldable pub enter_main : Block → DepState → DepState
unfolding connect_sinks
enter_main b st =
    let id = get_pretty_block_id b in
    let g = add_node id (record { event_type = EventType.main; event_value = 0 }) st.dep_graph in
    let g' : DepGraph = elim st.prev_main_block [
      | none ↦ g
      | some _ ↦ connect_sinks (get_sinks g) id g
    ] in
    record st { dep_graph = g'; prev_main_block = some b }

-- The event was executed before: the first event created now is tied to the previous block.
abbrev pub set_pending : EventInfo → DepState → DepState
set_pending info st =
    if has_attribute executed_attr info
    then elim st.current_block [
      | none ↦ st
      | some b ↦ record st { pending_ev = get_pretty_block_id b }
    ]
    else st

-- A block that is not main and whose event is in the graph.
unfoldable pub enter_event : Text → EventInfo → DepState → DepState
unfolding connect_with_w_events prune_edges
enter_event block_id info st =
    set_pending info (prune_edges block_id (connect_with_w_events info st))

-- The end of `AnalyzeBlock`, which every block that is not skipped comes to.
unfoldable pub run_block : Block → DepState → DepState
unfolding analyze_exprs remove_alive_event
run_block b st =
    let id = get_pretty_block_id b in
    let st' =
      remove_alive_event id (analyze_exprs b.exprs (record st { current_block = some b })) in
    record st' { dep_graph = add_node_attr id executed_attr st'.dep_graph }

abbrev pub is_nil {ℓ} : {A : Type ℓ} → List A → Bool
is_nil [] = true
is_nil (_ ∷ _) = false

unfoldable pub analyze_block : Block → DepState → DepState
unfolding enter_main enter_event run_block
analyze_block b st =
    let id = get_pretty_block_id b in
    let st' = record st { current_context = id } in
    if is_nil b.exprs && is_main b
    then st
    else if is_main b
    then run_block b (enter_main b st')
    else elim (get_node_info id st.dep_graph) [
      | none ↦ st'
      | some info ↦ run_block b (enter_event id info st')
    ]

unfoldable pub analyze_blocks : List Block → DepState → DepState
unfolding analyze_block
analyze_blocks [] st = st
analyze_blocks (b ∷ bs) st = analyze_blocks bs (analyze_block b st)

unfoldable pub analyze_trace : Trace → DepState → DepState
unfolding analyze_blocks
analyze_trace t st = analyze_blocks t.blocks st
