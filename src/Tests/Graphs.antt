-- ===== src/Tests/Graphs.antt =====
-- Three events: "1" before "22", "22" before "333", and "1" before "333".
use fsracer.Prelude.{
  ◌<◌, ◌≡◌, ◌≢◌, refl, ◌⊎◌, inl, inr, ◌↔◌, true, false, none, [], ◌∷◌, Text, codes, text_ord,
  pair_ord, arith, ok, fail, assertion, out_of_fuel, length, ap,
}
use fsracer.Collections.Set
use fsracer.Collections.Set.{Set, member}
use fsracer.Collections.Map.{find, assign, emplace}
use fsracer.Trace.{Event, EventType}
use fsracer.Graph.{
  add_node, add_edge, dfs, get_sinks, has_path, remove_edge, update_node, get_node_info,
  push_dependents, edge_count, dfs_loop,
}
use fsracer.Graph.Reach.{IsNode, IsClosed, Edge, Reach}
use fsracer.Graph.Search.{dfs_decides, dfs_assertion}
use fsracer.Graph.Edges.{Edge-HasTarget, dependents_of, has_node_iff, dependents_of-add_node}
use fsracer.Graph.Closed.{
  add_edge-Edge, add_edge-IsClosed, add_node-IsClosed, dfs-add_edge_dangling,
}
use fsracer.Graph.Mirror.{IsMirrored, add_node-IsMirrored, add_edge-IsMirrored}
use fsracer.Dependency.{
  DepGraph, EdgeLabel, happens_before, label_ord, DepState, initial, prune_edges, prune_next,
  prune_loop,
}
use fsracer.Dependency.Detour.{IsRanked}
use fsracer.Dependency.Prune.{prune_edges-Reach}

abbrev pub weak : Event
weak = record { event_type = EventType.w; event_value = 0 }

abbrev pub first : Text
first = codes "1"

abbrev pub second : Text
second = codes "22"

abbrev pub third : Text
third = codes "333"

abbrev pub nodes : DepGraph
nodes = add_node first weak (add_node second weak (add_node third weak []))

abbrev pub chain : DepGraph
chain = add_edge second third happens_before (add_edge first second happens_before nodes)

abbrev pub triangle : DepGraph
triangle = add_edge first third happens_before chain

unfoldable pub program : Unit {0}
unfolding find assign emplace member Set.insert Set.erase add_node add_edge remove_edge update_node
    get_node_info push_dependents edge_count dfs_loop dfs has_path get_sinks prune_next prune_loop
    prune_edges
program = tt

empty-IsClosed : IsClosed {T = Event} {L = EdgeLabel} []
unfolding program
empty-IsClosed u v (n, e, _) = cc

nodes-IsClosed : IsClosed nodes
nodes-IsClosed =
    add_node-IsClosed _ first weak
      (add_node-IsClosed _ second weak (add_node-IsClosed _ third weak empty-IsClosed))

pub chain-IsClosed : IsClosed chain
unfolding program
chain-IsClosed =
    let half = add_edge first second happens_before nodes in
    let target = (has_node_iff nodes second).0 refl in
    let target' = (has_node_iff half third).0 refl in
    add_edge-IsClosed half second third happens_before target'
      (add_edge-IsClosed nodes first second happens_before target nodes-IsClosed)

pub triangle-IsClosed : IsClosed triangle
unfolding program
triangle-IsClosed =
    add_edge-IsClosed chain first third happens_before ((has_node_iff chain third).0 refl)
      chain-IsClosed

-- A search, an absent dependent and the sinks.
searches :
    (dfs chain second ≡ ok (second ∷ third ∷ []))
    × (has_path chain third first ≡ ok false)
    × (dfs (add_edge third (codes "4") happens_before chain) first ≡ fail assertion)
    × (get_sinks triangle ≡ third ∷ [])
unfolding program
searches = (refl, refl, refl, refl)

-- The edge that the walk over "22" makes superfluous.
pruned : (prune_edges second (record initial { dep_graph = triangle })).dep_graph ≢ triangle
unfolding program
pruned h = let less = ap (λ g. length (dependents_of g first)) h in omega (arith, less)

dfs_decides_example :
    (visited : Set Text) × (dfs triangle first ≡ ok visited)
    × ((v : Text) → (member v visited ≡ true) ↔ ∥ Reach triangle first v ∥₁)
unfolding program
dfs_decides_example = dfs_decides triangle first triangle-IsClosed (_, refl)

dfs_assertion_example :
    (dfs triangle first ≢ fail out_of_fuel)
    × ((dfs triangle first ≡ fail assertion)
        ↔ ∥ ((v : Text) × Reach triangle first v × (find v triangle ≡ none)) ∥₁)
dfs_assertion_example = dfs_assertion triangle first

add_edge-Edge_example : Edge triangle second third ↔ (
    Edge chain second third
    ⊎ (second ≡ first) × (third ≡ third) × (first ≢ third) × IsNode chain first)
add_edge-Edge_example = add_edge-Edge chain first third happens_before second third

dfs-add_edge_dangling_example :
    dfs (add_edge third (codes "4") happens_before chain) third ≡ fail assertion
unfolding program
dfs-add_edge_dangling_example =
    dfs-add_edge_dangling chain third (codes "4") happens_before (_, refl) refl

nodes-IsRanked : IsRanked (λ u. length u) nodes
unfolding program
nodes-IsRanked =
    IsRanked-add_node (add_node second weak (add_node third weak [])) first
      (IsRanked-add_node (add_node third weak []) second (IsRanked-add_node [] third none_ranked))
  where
    IsRanked-add_node :
        (g : DepGraph) (id : Text)
        → IsRanked (λ u. length u) g
        → IsRanked (λ u. length u) (add_node id weak g)
    IsRanked-add_node g id ranked u v e =
        let old =
          rw (dependents_of-add_node g id u weak) at
            ((Edge-HasTarget (add_node id weak g) u v).0 e) in
        ranked u v ((Edge-HasTarget g u v).1 old)

    none_ranked : IsRanked (λ u. length u) []
    none_ranked u v e = absurd ((Edge-HasTarget {T = Event} {L = EdgeLabel} [] u v).0 e)

IsRanked-add_edge :
    (g : DepGraph) (s t : Text)
    → length s < length t
    → IsRanked (λ u. length u) g
    → IsRanked (λ u. length u) (add_edge s t happens_before g)
IsRanked-add_edge g s t lt ranked u v e = elim ((add_edge-Edge g s t happens_before u v).0 e) [
  | inl old ↦ ranked u v old
  | inr (at_s, at_t, _, _) ↦ rw (at_s, at_t) lt
]

triangle-IsRanked : IsRanked (λ u. length u) triangle
triangle-IsRanked = IsRanked-add_edge _ first third (omega arith) (
    IsRanked-add_edge _ second third (omega arith)
      (IsRanked-add_edge _ first second (omega arith) nodes-IsRanked))

empty-IsMirrored : IsMirrored {T = Event} {L = EdgeLabel} []
unfolding program
empty-IsMirrored = record { after = λ s t h. cc; before = λ s t h. cc }

chain-IsMirrored : IsMirrored chain
chain-IsMirrored =
    let three = add_node-IsMirrored (add_node second weak (add_node third weak [])) first weak (
      add_node-IsMirrored (add_node third weak []) second weak
        (add_node-IsMirrored [] third weak empty-IsMirrored)) in
    add_edge-IsMirrored (add_edge first second happens_before nodes) second third happens_before
      (add_edge-IsMirrored nodes first second happens_before three)

add_edge-IsMirrored_example : IsMirrored triangle
add_edge-IsMirrored_example = add_edge-IsMirrored chain first third happens_before chain-IsMirrored

triangle-IsMirrored : IsMirrored triangle
triangle-IsMirrored = add_edge-IsMirrored chain first third happens_before chain-IsMirrored

abbrev triangle_state : DepState
triangle_state = record initial { dep_graph = triangle }

prune_edges-Reach_example :
    ((u v : Text) → Reach (prune_edges second triangle_state).dep_graph u v ↔ Reach triangle u v)
    × IsRanked (λ u. length u) (prune_edges second triangle_state).dep_graph
    × IsMirrored (prune_edges second triangle_state).dep_graph
prune_edges-Reach_example =
    prune_edges-Reach (λ u. length u) second triangle_state triangle-IsRanked triangle-IsMirrored
