-- ===== src/Dependency/Invariant.antt =====
-- The graph of a trace stays good, if every link leads to an event that was created before.
use fsracer.Prelude.{
  ◌≡◌, refl, inl, inr, Bool, true, ◌||◌, ◌&&◌, Option, none, some, List, [], ◌∷◌, Text, text_ord,
  same, arith, Bool-cases, Option-cases,
}
use fsracer.Collections.Map.{find}
use fsracer.Trace.{Event, EventType, Block, Trace, is_main, get_pretty_block_id}
use fsracer.Graph.{add_node, get_node_info, has_attribute, get_sinks}
use fsracer.Graph.Edges.{has_node}
use fsracer.Dependency.{
  DepGraph, DepState, EventInfo, label_ord, initial, executed_attr, remove_alive_event,
  connect_with_w_events, prune_edges,
}
use fsracer.Dependency.Blocks.{
  is_nil, analyze_exprs, enter_main, enter_event, set_pending, run_block, analyze_block,
  analyze_blocks, analyze_trace,
}
use fsracer.Dependency.Edges.{
  IsGood, Extends, Extends-refl, Extends-trans, Extends-connect_loop, Extends-prune_loop,
  Extends-connect_sinks,
}
use fsracer.Dependency.Links.{
  BlocksLinked, LinksKnown, Holds, all_nodes, Holds-Extends, Holds-add_node, Holds-add_node_attr,
  analyze_exprs-IsGood,
}

run_block-IsGood :
    {known : Text → Bool} (b : Block) (st : DepState)
    → LinksKnown known b.exprs
    → Holds known st.dep_graph
    → IsGood (run_block b st).dep_graph
unfolding run_block remove_alive_event
run_block-IsGood b st l k =
    let st' = record st { current_block = some b } in
    let good = analyze_exprs-IsGood b.exprs st' l k in
    let g = (analyze_exprs b.exprs st').dep_graph in
    (Holds-add_node_attr g (get_pretty_block_id b) executed_attr (all_nodes g good)).good

abbrev main_event : Event
main_event = record { event_type = EventType.main; event_value = 0 }

-- The node of a main block, and the edges from the sinks to it.
Holds-enter_main :
    {known : Text → Bool} (b : Block) (st : DepState)
    → Holds known st.dep_graph
    → Holds known (enter_main b st).dep_graph
unfolding enter_main
Holds-enter_main {known} b st k = by_previous st.prev_main_block refl
  where
    id : Text
    id = get_pretty_block_id b

    g : DepGraph
    g = add_node id main_event st.dep_graph

    k1 : Holds (λ u. same u id || known u) g
    k1 = Holds-add_node st.dep_graph id main_event k

    self : (same id id || known id) ≡ true
    self = ground (arith, text_ord.cmp_iff id id)

    weaken : {h : DepGraph} → Holds (λ u. same u id || known u) h → Holds known h
    weaken k = record { good = k.good; has = λ u p. k.has u (ground arith) }

    by_previous :
        (o : Option Block) → st.prev_main_block ≡ o → Holds known (enter_main b st).dep_graph
    by_previous none p = rw (p, enter_main) (weaken k1)
    by_previous (some b') p =
        rw (p, enter_main)
          (weaken
            (Holds-Extends k1 (Extends-connect_sinks (get_sinks g) id g k1.good (k1.has id self))))

Extends-connect_with_w_events :
    (info : EventInfo) (st : DepState)
    → IsGood st.dep_graph
    → Extends st.dep_graph (connect_with_w_events info st).dep_graph
unfolding connect_with_w_events
Extends-connect_with_w_events info st good = by_type info.node_obj.event_type refl
  where
    by_type :
        (t : EventType)
        → info.node_obj.event_type ≡ t
        → Extends st.dep_graph (connect_with_w_events info st).dep_graph
    by_type EventType.w p =
        rw (p, connect_with_w_events) (Extends-connect_loop info st.alive_events st.dep_graph good)
    by_type EventType.s p = rw (p, connect_with_w_events) (Extends-refl good)
    by_type EventType.m p = rw (p, connect_with_w_events) (Extends-refl good)
    by_type EventType.ext p = rw (p, connect_with_w_events) (Extends-refl good)
    by_type EventType.main p = rw (p, connect_with_w_events) (Extends-refl good)

Extends-prune_edges :
    (id : Text) (st : DepState)
    → IsGood st.dep_graph
    → Extends st.dep_graph (prune_edges id st).dep_graph
unfolding prune_edges
Extends-prune_edges id st good = elim (Option-cases (get_node_info id st.dep_graph)) [
  | inl e ↦ rw (e, prune_edges) (Extends-refl good)
  | inr (n, e) ↦ rw (e, prune_edges) (Extends-prune_loop n.after n.before st.dep_graph good)
]

dep_graph-set_pending :
    (info : EventInfo) (st : DepState) → (set_pending info st).dep_graph ≡ st.dep_graph
unfolding has_attribute
dep_graph-set_pending info st = ground arith

Extends-enter_event :
    (id : Text) (info : EventInfo) (st : DepState)
    → IsGood st.dep_graph
    → Extends st.dep_graph (enter_event id info st).dep_graph
unfolding enter_event
Extends-enter_event id info st good =
    let first = Extends-connect_with_w_events info st good in
    rw dep_graph-set_pending
      (Extends-trans first (Extends-prune_edges id (connect_with_w_events info st) first.good))

analyze_block-IsGood :
    (b : Block) (st : DepState)
    → LinksKnown (has_node st.dep_graph) b.exprs
    → IsGood st.dep_graph
    → IsGood (analyze_block b st).dep_graph
unfolding analyze_block
analyze_block-IsGood b st l good =
    let id = get_pretty_block_id b in
    let st' = record st { current_context = id } in
    let k = all_nodes st.dep_graph good in
    elim (Bool-cases (is_nil b.exprs && is_main b)) [
      | inl skipped ↦ rw skipped good
      | inr ran ↦ elim (Bool-cases (is_main b)) [
        | inl main ↦
            rw (ran, main) (run_block-IsGood b (enter_main b st') l (Holds-enter_main b st' k))
        | inr event ↦ elim (Option-cases (get_node_info id st.dep_graph)) [
          | inl e ↦ rw (ran, event, e) good
          | inr (info, e) ↦
              rw (ran, event, e)
                (run_block-IsGood b (enter_event id info st') l
                  (Holds-Extends k (Extends-enter_event id info st' good)))
        ]
      ]
    ]

analyze_blocks-IsGood :
    (bs : List Block) (st : DepState)
    → BlocksLinked bs st
    → IsGood st.dep_graph
    → IsGood (analyze_blocks bs st).dep_graph
unfolding analyze_blocks
analyze_blocks-IsGood [] st l good = good
analyze_blocks-IsGood (b ∷ bs) st l good =
    analyze_blocks-IsGood bs (analyze_block b st) l.1 (analyze_block-IsGood b st l.0 good)

IsGood-nil : IsGood []
unfolding find
IsGood-nil = record { closed = λ u v (n, e, t). cc; named = λ u. refl }

-- After the analysis of a trace whose links lead to nodes, every dependent in the graph is a node, and
-- every node carries the name that it is found by.
pub analyze_trace-IsGood :
    (t : Trace) → BlocksLinked t.blocks initial → IsGood (analyze_trace t initial).dep_graph
unfolding analyze_trace
analyze_trace-IsGood t l = analyze_blocks-IsGood t.blocks initial l IsGood-nil
