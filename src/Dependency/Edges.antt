-- ===== src/Dependency/Edges.antt =====
-- What the loops of the analyzer keep of a graph: its dependents are nodes, its nodes carry their
-- names, and what was a node stays one.
use fsracer.Prelude.{
  ◌≡◌, refl, inl, inr, Bool, true, false, Option, none, some, [], ◌∷◌, Text, text_ord, same, arith,
  Bool-cases, if◌then◌else◌, ◌==◌,
}
use fsracer.Collections.Set.{Set, member}
use fsracer.Graph.{add_edge, remove_edge, get_node_info}
use fsracer.Graph.Reach.{IsClosed}
use fsracer.Graph.Edges.{has_node, has_node_iff, has_node-add_edge, has_node-remove_edge}
use fsracer.Graph.Closed.{add_edge-IsClosed, remove_edge-IsClosed}
use fsracer.Graph.Names.{IsNamed, add_edge-IsNamed, remove_edge-IsNamed}
use fsracer.Trace.{EventType}
use fsracer.Dependency.{
  DepGraph, EventInfo, EdgeLabel, happens_before, label_ord, happens, proceed_event, relate,
  add_dependencies_loop, connect_w, connect_loop, prune_next, prune_with, prune_loop,
}
use fsracer.Dependency.Blocks.{connect_sinks}
use fsracer.Dependency.Priority.{
  Direction, direction, apply_direction, proceed_event-direction, old_first, new_first, unordered,
}

pub record IsGood (g : DepGraph) : Type 0 where
  pub closed : IsClosed g
  pub named : IsNamed g

-- `h` is a good graph with the nodes of `g`.
pub record Extends (g h : DepGraph) : Type 0 where
  pub good : IsGood h
  pub nodes : (u : Text) → has_node h u ≡ has_node g u

pub Extends-refl : {g : DepGraph} → IsGood g → Extends g g
Extends-refl h = record { good = h; nodes = λ u. refl }

pub Extends-trans : {f g h : DepGraph} → Extends f g → Extends g h → Extends f h
Extends-trans p q = record { good = q.good; nodes = λ u. ground (arith, p.nodes u, q.nodes u) }

module _ (g : DepGraph) (s t : Text) (l : EdgeLabel) (good : IsGood g) where
  pub Extends-add_edge : has_node g t ≡ true → Extends g (add_edge s t l g)
  Extends-add_edge target = record {
    good = record {
      closed = add_edge-IsClosed g s t l ((has_node_iff g t).0 target) good.closed;
      named = add_edge-IsNamed g s t l good.named;
    };
    nodes = λ u. has_node-add_edge g s t u l;
  }

  pub Extends-remove_edge : Extends g (remove_edge s t l g)
  Extends-remove_edge = record {
    good = record {
      closed = remove_edge-IsClosed g s t l good.closed;
      named = remove_edge-IsNamed g s t l good.named;
    };
    nodes = λ u. has_node-remove_edge g s t u l;
  }

Extends-apply_direction :
    (d : Direction) (g : DepGraph) (new old : EventInfo)
    → IsGood g
    → has_node g new.node_id ≡ true
    → has_node g old.node_id ≡ true
    → Extends g (apply_direction d new old g)
unfolding apply_direction
Extends-apply_direction old_first g new old good n o = Extends-add_edge g _ _ happens_before good n
Extends-apply_direction new_first g new old good n o = Extends-add_edge g _ _ happens_before good o
Extends-apply_direction unordered g new old good n o = Extends-refl good

Extends-proceed_event :
    (g : DepGraph) (new old : EventInfo)
    → IsGood g
    → has_node g new.node_id ≡ true
    → has_node g old.node_id ≡ true
    → Extends g (proceed_event new old g)
Extends-proceed_event g new old good n o =
    rw proceed_event-direction
      (Extends-apply_direction (direction old.node_obj new.node_obj) g new old good n o)

-- A node that is found is a node under the name that it carries.
found-has_node :
    (g : DepGraph) (id : Text) (n : EventInfo)
    → IsNamed g
    → get_node_info id g ≡ some n
    → has_node g n.node_id ≡ true
unfolding get_node_info
found-has_node g id n named e =
    let carried : n.node_id ≡ id = rw e at (named id) in rw carried (rw e refl)

module _ (block_id : Text) (new : EventInfo) where
  Extends-relate :
      (id : Text) (g : DepGraph) (o : Option EventInfo)
      → get_node_info id g ≡ o
      → IsGood g
      → has_node g new.node_id ≡ true
      → Extends g (relate block_id new o g)
  Extends-relate id g none e good n = Extends-refl good
  Extends-relate id g (some old) e good n = elim (Bool-cases (same block_id old.node_id)) [
    | inl own ↦ rw own (Extends-refl good)
    | inr other ↦
        rw other (Extends-proceed_event g new old good n (found-has_node g id old good.named e))
  ]

  pub Extends-add_dependencies_loop :
      (alive : Set Text) (g : DepGraph)
      → IsGood g
      → has_node g new.node_id ≡ true
      → Extends g (add_dependencies_loop block_id new alive g)
  unfolding add_dependencies_loop
  Extends-add_dependencies_loop [] g good n = Extends-refl good
  Extends-add_dependencies_loop (id ∷ alive) g good n =
      let first = Extends-relate id g (get_node_info id g) refl good n in
      Extends-trans first (
        Extends-add_dependencies_loop alive (relate block_id new (get_node_info id g) g) first.good
          (ground (arith, first.nodes new.node_id)))

module _ (info : EventInfo) where
  Extends-connect_w :
      (id : Text) (g : DepGraph) (o : Option EventInfo)
      → get_node_info id g ≡ o
      → IsGood g
      → Extends g (connect_w info o g)
  Extends-connect_w id g none e good = Extends-refl good
  Extends-connect_w id g (some ei) e good = by_type ei.node_obj.event_type refl
    where
      edge : Extends g (happens info.node_id ei.node_id g)
      edge = Extends-add_edge g _ _ happens_before good (found-has_node g id ei good.named e)

      by_value : (b : Bool) → Extends g (if b then happens info.node_id ei.node_id g else g)
      by_value true = edge
      by_value false = Extends-refl good

      by_type :
          (t : EventType) → ei.node_obj.event_type ≡ t → Extends g (connect_w info (some ei) g)
      by_type EventType.w p =
          rw (p, connect_w) (by_value (ei.node_obj.event_value == info.node_obj.event_value))
      by_type EventType.s p = rw (p, connect_w) (Extends-refl good)
      by_type EventType.m p = rw (p, connect_w) (Extends-refl good)
      by_type EventType.ext p = rw (p, connect_w) (Extends-refl good)
      by_type EventType.main p = rw (p, connect_w) (Extends-refl good)

  pub Extends-connect_loop :
      (alive : Set Text) (g : DepGraph) → IsGood g → Extends g (connect_loop info alive g)
  unfolding connect_loop
  Extends-connect_loop [] g good = Extends-refl good
  Extends-connect_loop (id ∷ alive) g good =
      let first = Extends-connect_w id g (get_node_info id g) refl good in
      Extends-trans first
        (Extends-connect_loop alive (connect_w info (get_node_info id g) g) first.good)

Extends-prune_next :
    (next : Text) (next_after after : Set Text) (g : DepGraph)
    → IsGood g
    → Extends g (prune_next next next_after after g)
unfolding prune_next
Extends-prune_next next next_after [] g good = Extends-refl good
Extends-prune_next next next_after (prev ∷ after) g good =
    elim (Bool-cases (member prev next_after)) [
      | inl both ↦
          let first = Extends-remove_edge g prev next happens_before good in
          rw both (
            Extends-trans first (
              Extends-prune_next next next_after after (remove_edge prev next happens_before g)
                first.good))
      | inr one ↦ rw one (Extends-prune_next next next_after after g good)
    ]

Extends-prune_with :
    (next : Text) (after : Set Text) (o : Option EventInfo) (g : DepGraph)
    → IsGood g
    → Extends g (prune_with next after o g)
Extends-prune_with next after none g good = Extends-refl good
Extends-prune_with next after (some n) g good = Extends-prune_next next n.after after g good

pub Extends-prune_loop :
    (after before : Set Text) (g : DepGraph) → IsGood g → Extends g (prune_loop after before g)
unfolding prune_loop
Extends-prune_loop after [] g good = Extends-refl good
Extends-prune_loop after (next ∷ before) g good =
    let first = Extends-prune_with next after (get_node_info next g) g good in
    Extends-trans first
      (Extends-prune_loop after before (prune_with next after (get_node_info next g) g) first.good)

pub Extends-connect_sinks :
    (sinks : Set Text) (block_id : Text) (g : DepGraph)
    → IsGood g
    → has_node g block_id ≡ true
    → Extends g (connect_sinks sinks block_id g)
unfolding connect_sinks
Extends-connect_sinks [] block_id g good n = Extends-refl good
Extends-connect_sinks (sink ∷ sinks) block_id g good n =
    let first = Extends-add_edge g sink block_id happens_before good n in
    Extends-trans first (
      Extends-connect_sinks sinks block_id (happens sink block_id g) first.good
        (ground (arith, first.nodes block_id)))
