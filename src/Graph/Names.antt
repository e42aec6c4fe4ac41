-- ===== src/Graph/Names.antt =====
-- The name that a node carries is the name that it is found by.
use fsracer.Prelude.{◌≡◌, refl, Option, none, some, Text, Ord, text_ord, pair_ord, arith}
use fsracer.Collections.Set
use fsracer.Collections.Map.{find, assign, emplace, find-assign}
use fsracer.Graph.{
  Node, Graph, make_node, add_attribute, remove_dependent, connect, add_node, add_node_attr,
  add_edge, remove_edge,
}
use fsracer.Graph.Edges.{find-update_node}

module _ {T L : Type 0} where
  abbrev pub name_in : Text → Option (Node T L) → Text
  name_in u none = u
  name_in u (some n) = n.node_id

  abbrev pub IsNamed : Graph T L → Type 0
  IsNamed g = (u : Text) → name_in u (find u g) ≡ u

  module _ (g : Graph T L) (id : Text) (named : IsNamed g) where
    pub add_node-IsNamed : (obj : T) → IsNamed (add_node id obj g)
    unfolding add_node emplace
    add_node-IsNamed obj u =
        ground
          (arith, find-assign u id (make_node {L = L} id obj) g, text_ord.cmp_iff u id, named u)

    pub add_node_attr-IsNamed : (attr : Text) → IsNamed (add_node_attr id attr g)
    unfolding add_node_attr
    add_node_attr-IsNamed attr u =
        ground (arith, find-update_node id u (add_attribute attr) g, named u)

module _ {T L : Type 0} ⦃q : Ord L⦄ (g : Graph T L) (s t : Text) (l : L) (named : IsNamed g) where
  pub remove_edge-IsNamed : IsNamed (remove_edge s t l g)
  unfolding remove_edge
  remove_edge-IsNamed u = ground (arith, find-update_node s u (remove_dependent (t, l)) g, named u)

  connect-IsNamed :
      (o p : Option (Node T L)) → find s g ≡ o → find t g ≡ p → IsNamed (connect s t l g o p)
  connect-IsNamed none p e h u = named u
  connect-IsNamed (some n) none e h u =
      let n' = record n { dependents = Set.insert (t, l) n.dependents } in
      ground (arith, find-assign u s n' g, text_ord.cmp_iff u s, named u)
  connect-IsNamed (some n) (some m) e h u =
      let n' = record n {
        dependents = Set.insert (t, l) n.dependents;
        before = Set.insert t n.before;
      } in
      let m' = record m { after = Set.insert s m.after } in
      ground (
        arith,
        find-assign u t m' (assign s n' g),
        find-assign u s n' g,
        text_ord.cmp_iff u s,
        text_ord.cmp_iff u t,
        named u,
      )

  pub add_edge-IsNamed : IsNamed (add_edge s t l g)
  unfolding add_edge
  add_edge-IsNamed u = ground (arith, connect-IsNamed (find s g) (find t g) refl refl u, named u)
