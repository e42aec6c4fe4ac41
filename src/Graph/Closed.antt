-- ===== src/Graph/Closed.antt =====
-- The edges that `AddEdge` and `RemoveEdge` leave, and graphs whose dependents are all nodes.
use fsracer.Prelude.{
  ◌≡◌, ◌≢◌, refl, ◌⊎◌, inl, inr, ◌↔◌, true, false, ◌&&◌, not, none, [], ◌∷◌, Text, Ord, text_ord,
  pair_ord, same, arith, Bool-cases, fail, assertion, ap,
}
use fsracer.Collections.Set
use fsracer.Collections.Set.{Set}
use fsracer.Collections.Map.{find}
use fsracer.Graph.{Graph, add_node, add_node_attr, add_edge, remove_edge, dfs}
use fsracer.Graph.Reach.{HasTarget, IsNode, Edge, IsClosed, here, step}
use fsracer.Graph.Search.{dfs_assertion}
use fsracer.Graph.Edges.{
  has_node, dependents_of, has_node_iff, Edge-HasTarget, has_node-add_node, dependents_of-add_node,
  has_node-add_node_attr, dependents_of-add_node_attr, has_node-remove_edge,
  dependents_of-remove_edge, has_node-add_edge, dependents_of-add_edge,
}

module _ {L : Type 0} ⦃q : Ord L⦄ (v t : Text) (l : L) where
  pub HasTarget-insert :
      (ds : Set (Text × L)) → HasTarget v (Set.insert (t, l) ds) ↔ ((v ≡ t) ⊎ HasTarget v ds)
  unfolding Set.insert
  HasTarget-insert [] = ground arith
  HasTarget-insert ((w, k) ∷ ds) =
      ground (arith, text_ord.cmp_iff t w, q.cmp_iff l k, HasTarget-insert ds)

  pub HasTarget-erase : (ds : Set (Text × L)) → HasTarget v (Set.erase (t, l) ds) → HasTarget v ds
  unfolding Set.erase
  HasTarget-erase [] h = h
  HasTarget-erase ((w, k) ∷ ds) h =
      ground (arith, text_ord.cmp_iff t w, q.cmp_iff l k, HasTarget-erase ds)

  -- Only an edge to `t` is lost.
  pub HasTarget-erase_ne :
      (ds : Set (Text × L)) → v ≢ t → HasTarget v ds → HasTarget v (Set.erase (t, l) ds)
  unfolding Set.erase
  HasTarget-erase_ne [] ne h = h
  HasTarget-erase_ne ((w, k) ∷ ds) ne h =
      ground (arith, text_ord.cmp_iff t w, q.cmp_iff l k, HasTarget-erase_ne ds ne)

module _ {T L : Type 0} ⦃q : Ord L⦄ (g : Graph T L) (s t : Text) (l : L) where
  pub targets-add_edge :
      (u v : Text)
      → HasTarget v (dependents_of (add_edge s t l g) u)
        ↔ (HasTarget v (dependents_of g u) ⊎ (u ≡ s) × (v ≡ t) × (s ≢ t) × (has_node g s ≡ true))
  targets-add_edge u v =
      let new = HasTarget-insert v t l (dependents_of g u) in
      elim (Bool-cases (same u s && has_node g s && not (same s t))) [
        | inl e ↦
            rw (dependents_of-add_edge, e)
              (ground (arith, new, text_ord.cmp_iff u s, text_ord.cmp_iff s t))
        | inr e ↦
            rw (dependents_of-add_edge, e)
              (ground (arith, text_ord.cmp_iff u s, text_ord.cmp_iff s t))
      ]

  -- `AddEdge` adds one edge and no other, from a source that is a node and to another name.
  pub add_edge-Edge :
      (u v : Text)
      → Edge (add_edge s t l g) u v ↔ (Edge g u v ⊎ (u ≡ s) × (v ≡ t) × (s ≢ t) × IsNode g s)
  add_edge-Edge u v =
      let iff = targets-add_edge u v in
      let after = Edge-HasTarget (add_edge s t l g) u v in
      let before = Edge-HasTarget g u v in
      (
        λ e. elim (iff.0 (after.0 e)) [
          | inl h ↦ inl (before.1 h)
          | inr (a, b, c, d) ↦ inr (a, b, c, (has_node_iff g s).0 d)
        ],
        λ e. after.1 (iff.1 (edge_cases e)),
      )
    where
      edge_cases :
          Edge g u v ⊎ (u ≡ s) × (v ≡ t) × (s ≢ t) × IsNode g s
          → HasTarget v (dependents_of g u) ⊎ (u ≡ s) × (v ≡ t) × (s ≢ t) × (has_node g s ≡ true)
      edge_cases (inl h) = inl ((Edge-HasTarget g u v).0 h)
      edge_cases (inr (a, b, c, n)) = inr (a, b, c, (has_node_iff g s).1 n)

  -- An edge between two nodes keeps every dependent a node.
  pub add_edge-IsClosed : IsNode g t → IsClosed g → IsClosed (add_edge s t l g)
  add_edge-IsClosed node closed u v e =
      (has_node_iff (add_edge s t l g) v).0
        (rw has_node-add_edge ((has_node_iff g v).1 (target_node ((add_edge-Edge u v).0 e))))
    where
      target_node : Edge g u v ⊎ (u ≡ s) × (v ≡ t) × (s ≢ t) × IsNode g s → IsNode g v
      target_node (inl h) = closed u v h
      target_node (inr (_, at_t, _, _)) = rw at_t node

  pub remove_edge-IsClosed : IsClosed g → IsClosed (remove_edge s t l g)
  remove_edge-IsClosed closed u v e = (has_node_iff (remove_edge s t l g) v).0 (
      rw has_node-remove_edge (
        (has_node_iff g v).1
          (closed u v ((Edge-HasTarget g u v).1 (kept (Bool-cases (same u s)))))))
    where
      kept : (same u s ≡ true) ⊎ (same u s ≡ false) → HasTarget v (dependents_of g u)
      kept (inl at_s) =
          HasTarget-erase v t l (dependents_of g u) (
            rw (dependents_of-remove_edge, at_s) at
              ((Edge-HasTarget (remove_edge s t l g) u v).0 e))
      kept (inr other) =
          rw (dependents_of-remove_edge, other) at ((Edge-HasTarget (remove_edge s t l g) u v).0 e)

  node_ne_absent : IsNode g s → find t g ≡ none → s ≢ t
  node_ne_absent (n, e) absent p = let same_find = ap (λ (w : Text). find w g) p in ground arith

  -- After `AddEdge` to a name that is no node, the assertion of `DFS` fails from the source.
  pub dfs-add_edge_dangling :
      IsNode g s → find t g ≡ none → dfs (add_edge s t l g) s ≡ fail assertion
  dfs-add_edge_dangling node absent =
      let edge = (add_edge-Edge s t).1 (inr (refl, refl, node_ne_absent node absent, node)) in
      let still : find t (add_edge s t l g) ≡ none = ground (arith, has_node-add_edge g s t t l) in
      (dfs_assertion (add_edge s t l g) s).1.1 ∣ (t, step here edge, still) ∣₁

module _ {T L : Type 0} (g : Graph T L) (id : Text) where
  pub add_node-IsClosed : (obj : T) → IsClosed g → IsClosed (add_node id obj g)
  add_node-IsClosed obj closed u v e =
      let old = closed u v (
        (Edge-HasTarget g u v).1
          (rw dependents_of-add_node at ((Edge-HasTarget (add_node id obj g) u v).0 e))) in
      let m = (has_node_iff g v).1 old in
      (has_node_iff (add_node id obj g) v).0 (ground (arith, has_node-add_node g id v obj))

  pub add_node_attr-IsClosed : (attr : Text) → IsClosed g → IsClosed (add_node_attr id attr g)
  add_node_attr-IsClosed attr closed u v e = (has_node_iff (add_node_attr id attr g) v).0 (
      rw has_node-add_node_attr (
        (has_node_iff g v).1 (
          closed u v (
            (Edge-HasTarget g u v).1 (
              rw dependents_of-add_node_attr at
                ((Edge-HasTarget (add_node_attr id attr g) u v).0 e))))))
