-- ===== src/Graph/Mirror.antt =====
-- The sets `before` and `after` of the nodes: they name other nodes that walks lead to, and from.
use fsracer.Prelude.{
  ◌≡◌, ◌≢◌, refl, inl, inr, Bool, true, false, ◌&&◌, not, Text, Ord, text_ord, pair_ord, same,
  same_iff, arith, Bool-cases,
}
use fsracer.Collections.Set.{member, member-insert}
use fsracer.Collections.Map.{emplace, find-assign}
use fsracer.Graph.{Graph, make_node, add_node, add_edge, remove_edge, remove_dependent}
use fsracer.Graph.Reach.{Edge, Reach, here, step}
use fsracer.Graph.Edges.{
  before_of, after_of, has_node, has_node_iff, before_of-add_edge, after_of-add_edge,
  find-update_node, Edge-HasTarget, dependents_of-add_node,
}
use fsracer.Graph.Closed.{add_edge-Edge}

linking :
    (s t : Text) (a b c : Bool)
    → (a && b && c && not (same s t)) ≡ true
    → (a ≡ true) × (b ≡ true) × (s ≢ t)
linking s t a b c h =
    let ne : same s t ≡ false = ground arith in
    (ground arith, ground arith, λ e. ground (arith, text_ord.cmp_iff s t))

module _ {T L : Type 0} where
  abbrev pub Apart : Graph T L → Text → Text → Type 0
  Apart g s t = (s ≢ t) × Reach g s t

  -- What `after` of a node names leads to it, and it leads to what its `before` names.
  pub record IsMirrored (g : Graph T L) : Type 0 where
    pub after : (s t : Text) → member s (after_of g t) ≡ true → Apart g s t
    pub before : (s t : Text) → member t (before_of g s) ≡ true → Apart g s t

  pub Reach-edges :
      {g h : Graph T L}
      → ((u v : Text) → Edge g u v → Edge h u v)
      → {s t : Text} → Reach g s t
      → Reach h s t
  Reach-edges f here = here
  Reach-edges f (step {u} {v} r e) = step (Reach-edges f r) (f u v e)

module _ {T L : Type 0} (g : Graph T L) (id : Text) (obj : T) where
  after_of-add_node : (u : Text) → after_of (add_node id obj g) u ≡ after_of g u
  unfolding add_node emplace
  after_of-add_node u =
      ground (arith, find-assign u id (make_node {L = L} id obj) g, text_ord.cmp_iff u id)

  before_of-add_node : (u : Text) → before_of (add_node id obj g) u ≡ before_of g u
  unfolding add_node emplace
  before_of-add_node u =
      ground (arith, find-assign u id (make_node {L = L} id obj) g, text_ord.cmp_iff u id)

  add_node-old_edges : (u v : Text) → Edge g u v → Edge (add_node id obj g) u v
  add_node-old_edges u v e =
      (Edge-HasTarget (add_node id obj g) u v).1
        (rw (dependents_of-add_node g id u obj) ((Edge-HasTarget g u v).0 e))

  -- `AddNode` keeps the graph mirrored.
  pub add_node-IsMirrored : IsMirrored g → IsMirrored (add_node id obj g)
  add_node-IsMirrored m = record {
    after = λ x y h.
        let (ne, r) = m.after x y (rw (after_of-add_node y) at h) in
        (ne, Reach-edges add_node-old_edges r);
    before = λ x y h.
        let (ne, r) = m.before x y (rw (before_of-add_node x) at h) in
        (ne, Reach-edges add_node-old_edges r);
  }

module _ {T L : Type 0} ⦃q : Ord L⦄ where
  module _ (g : Graph T L) (s t u : Text) (l : L) where
    pub after_of-remove_edge : after_of (remove_edge s t l g) u ≡ after_of g u
    unfolding remove_edge
    after_of-remove_edge = ground (arith, find-update_node s u (remove_dependent (t, l)) g)

    pub before_of-remove_edge : before_of (remove_edge s t l g) u ≡ before_of g u
    unfolding remove_edge
    before_of-remove_edge = ground (arith, find-update_node s u (remove_dependent (t, l)) g)

  module _ (g : Graph T L) (s t : Text) (l : L) where
    old_edges : (u v : Text) → Edge g u v → Edge (add_edge s t l g) u v
    old_edges u v e = (add_edge-Edge g s t l u v).1 (inl e)

    still : {x y : Text} → Apart g x y → Apart (add_edge s t l g) x y
    still (ne, r) = (ne, Reach-edges old_edges r)

    new_edge : has_node g s ≡ true → s ≢ t → Apart (add_edge s t l g) s t
    new_edge node ne = (
      ne,
      step here ((add_edge-Edge g s t l s t).1 (inr (refl, refl, ne, (has_node_iff g s).0 node))),
    )

    -- `AddEdge` keeps the graph mirrored: a new name in `before` or `after` is that of the new edge.
    pub add_edge-IsMirrored : IsMirrored g → IsMirrored (add_edge s t l g)
    add_edge-IsMirrored m = record {
      after = λ x y h.
          elim (Bool-cases (same y t && has_node g s && has_node g t && not (same s t))) [
            | inl new ↦
                let (at_t, node, ne) = linking s t (same y t) (has_node g s) (has_node g t) new in
                let h' =
                  rw (after_of-add_edge g s t y l, new, member-insert x s (after_of g y)) at h in
                elim (Bool-cases (same x s)) [
                  | inl at_s ↦ rw ((same_iff x s).0 at_s, (same_iff y t).0 at_t) (new_edge node ne)
                  | inr other ↦ still (m.after x y (rw other at h'))
                ]
            | inr old ↦ still (m.after x y (rw (after_of-add_edge g s t y l, old) at h))
          ];
      before = λ x y h.
          elim (Bool-cases (same x s && has_node g s && has_node g t && not (same s t))) [
            | inl new ↦
                let (at_s, node, ne) = linking s t (same x s) (has_node g s) (has_node g t) new in
                let h' =
                  rw (before_of-add_edge g s t x l, new, member-insert y t (before_of g x)) at h in
                elim (Bool-cases (same y t)) [
                  | inl at_t ↦ rw ((same_iff x s).0 at_s, (same_iff y t).0 at_t) (new_edge node ne)
                  | inr other ↦ still (m.before x y (rw other at h'))
                ]
            | inr old ↦ still (m.before x y (rw (before_of-add_edge g s t x l, old) at h))
          ];
    }
