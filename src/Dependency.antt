-- ===== src/Dependency.antt =====
-- lib/DependencyInferenceAnalyzer.h and lib/DependencyInferenceAnalyzer.cpp: the happens-before
-- graph of the events of a trace.
pub mod Blocks
pub mod Priority
pub mod Context
pub mod Edges
pub mod Links
pub mod Invariant
pub mod Detour
pub mod Prune
pub mod Print
use fsracer.Prelude.{
  ℕ, ◌%◌, ◌≡◌, ◌↔◌, Bool, true, false, ◌&&◌, ◌||◌, not, Option, none, some, List, [], ◌∷◌, ◌++◌,
  Text, codes, Ord, Ordering, text_ord, pair_ord, same, ltb, ◌==◌, if◌then◌else◌, arith, foldl,
}
use fsracer.Collections.Set
use fsracer.Collections.Set.{Set, member}
use fsracer.Utils.{to_string}
use fsracer.Trace.{
  Event, EventType, Expr, Construct, new_event, link, trigger, submit_op, Block, BlockType, Trace,
  is_main, get_pretty_block_id,
}
use fsracer.Graph.{
  Node, Graph, make_node, has_attribute, add_node, add_node_attr, get_node_info, add_edge,
  remove_edge, get_sinks,
}

pub data EdgeLabel : Type 0 where
  creates happens_before : EdgeLabel

abbrev pub label_cmp : EdgeLabel → EdgeLabel → Ordering
label_cmp creates creates = Ordering.eq
label_cmp creates happens_before = Ordering.lt
label_cmp happens_before creates = Ordering.gt
label_cmp happens_before happens_before = Ordering.eq

pub label_cmp_iff : (a b : EdgeLabel) → (label_cmp a b ≡ Ordering.eq) ↔ (a ≡ b)
label_cmp_iff a b = ground arith

instance abbrev pub label_ord : Ord EdgeLabel
label_ord = record { cmp = label_cmp; cmp_iff = label_cmp_iff }

abbrev pub DepGraph : Type 0
DepGraph = Graph Event EdgeLabel

abbrev pub EventInfo : Type 0
EventInfo = Node Event EdgeLabel

-- `EXECUTED_ATTR`.
abbrev pub executed_attr : Text
executed_attr = codes "EXECUTED"

-- The fields of the analyzer. A null pointer to a block is `none`.
pub record DepState : Type 0 where
  pub dep_graph : DepGraph
  pub alive_events : Set Text
  pub current_block : Option Block
  pub prev_main_block : Option Block
  pub pending_ev : Text
  pub current_context : Text

abbrev pub initial : DepState
initial = record {
  dep_graph = [];
  alive_events = [];
  current_block = none;
  prev_main_block = none;
  pending_ev = [];
  current_context = codes "MAIN_1";
}

-- `current_block->GetPrettyBlockId()`: an expression is analyzed inside a block only, where the
-- pointer is set.
abbrev pub current_block_id : DepState → Text
current_block_id st = elim st.current_block [ none ↦ [] | some b ↦ get_pretty_block_id b ]

unfoldable pub add_alive_event : Text → DepState → DepState
add_alive_event id st = record st { alive_events = Set.insert id st.alive_events }

unfoldable pub remove_alive_event : Text → DepState → DepState
remove_alive_event id st = record st { alive_events = Set.erase id st.alive_events }

abbrev pub happens : Text → Text → DepGraph → DepGraph
happens source target g = add_edge source target happens_before g

unfoldable pub proceed_s_event : EventInfo → EventInfo → DepGraph → DepGraph
proceed_s_event new old g = happens old.node_id new.node_id g

unfoldable pub proceed_m_event : EventInfo → EventInfo → DepGraph → DepGraph
proceed_m_event new old g = elim new.node_obj.event_type [
  | EventType.s ↦ happens new.node_id old.node_id g
  | EventType.main ↦ happens new.node_id old.node_id g
  | EventType.m ↦
      if ltb new.node_obj.event_value old.node_obj.event_value
      then happens new.node_id old.node_id g
      else happens old.node_id new.node_id g
  | EventType.w ↦ happens old.node_id new.node_id g
  | EventType.ext ↦ happens old.node_id new.node_id g
]

unfoldable pub proceed_w_event : EventInfo → EventInfo → DepGraph → DepGraph
proceed_w_event new old g = elim new.node_obj.event_type [
  | EventType.s ↦ happens new.node_id old.node_id g
  | EventType.main ↦ happens new.node_id old.node_id g
  | EventType.m ↦ happens new.node_id old.node_id g
  | EventType.ext ↦ if old.node_obj.event_value == 0 then g else happens old.node_id new.node_id g
  | EventType.w ↦ g
]

unfoldable pub proceed_ext_event : EventInfo → EventInfo → DepGraph → DepGraph
proceed_ext_event new old g = elim new.node_obj.event_type [
  | EventType.s ↦ happens new.node_id old.node_id g
  | EventType.main ↦ happens new.node_id old.node_id g
  | EventType.m ↦ happens new.node_id old.node_id g
  | EventType.w ↦ g
  | EventType.ext ↦ g
]

-- The `switch` of `AddDependencies`.
unfoldable pub proceed_event : EventInfo → EventInfo → DepGraph → DepGraph
unfolding proceed_s_event proceed_m_event proceed_w_event proceed_ext_event
proceed_event new old g = elim old.node_obj.event_type [
  | EventType.s ↦ proceed_s_event new old g
  | EventType.main ↦ proceed_s_event new old g
  | EventType.m ↦ proceed_m_event new old g
  | EventType.w ↦ proceed_w_event new old g
  | EventType.ext ↦ proceed_ext_event new old g
]

-- What a round of the loop does with the node that it found.
abbrev pub relate : Text → EventInfo → Option EventInfo → DepGraph → DepGraph
relate block_id new none g = g
relate block_id new (some old) g = if same block_id old.node_id then g else proceed_event new old g

unfoldable pub add_dependencies_loop : Text → EventInfo → Set Text → DepGraph → DepGraph
add_dependencies_loop block_id new [] g = g
add_dependencies_loop block_id new (id ∷ alive) g =
    add_dependencies_loop block_id new alive (relate block_id new (get_node_info id g) g)

unfoldable pub add_dependencies : Text → Event → DepState → DepState
add_dependencies event_id event st = record st {
  dep_graph =
      add_dependencies_loop (current_block_id st) (make_node event_id event) st.alive_events
        st.dep_graph;
}

-- What a round of `ConnectWithWEvents` does with the node that it found.
abbrev pub connect_w : EventInfo → Option EventInfo → DepGraph → DepGraph
connect_w info none g = g
connect_w info (some ei) g = elim ei.node_obj.event_type [
  | EventType.w ↦
      if ei.node_obj.event_value == info.node_obj.event_value
      then happens info.node_id ei.node_id g
      else g
  | _ ↦ g
]

unfoldable pub connect_loop : EventInfo → Set Text → DepGraph → DepGraph
connect_loop info [] g = g
connect_loop info (id ∷ alive) g = connect_loop info alive (connect_w info (get_node_info id g) g)

unfoldable pub connect_with_w_events : EventInfo → DepState → DepState
connect_with_w_events info st = elim info.node_obj.event_type [
  | EventType.w ↦ record st { dep_graph = connect_loop info st.alive_events st.dep_graph }
  | _ ↦ st
]

-- The inner loop of `PruneEdges`, over the previous nodes of the event.
unfoldable pub prune_next : Text → Set Text → Set Text → DepGraph → DepGraph
prune_next next next_after [] g = g
prune_next next next_after (prev ∷ after) g =
    prune_next next next_after after
      (if member prev next_after then remove_edge prev next happens_before g else g)

abbrev pub prune_with : Text → Set Text → Option EventInfo → DepGraph → DepGraph
prune_with next after none g = g
prune_with next after (some next_info) g = prune_next next next_info.after after g

-- The outer loop of `PruneEdges`, over the next nodes of the event.
unfoldable pub prune_loop : Set Text → Set Text → DepGraph → DepGraph
prune_loop after [] g = g
prune_loop after (next ∷ before) g =
    prune_loop after before (prune_with next after (get_node_info next g) g)

unfoldable pub prune_edges : Text → DepState → DepState
prune_edges event_id st = elim (get_node_info event_id st.dep_graph) [
  | none ↦ st
  | some info ↦ record st { dep_graph = prune_loop info.after info.before st.dep_graph }
]
