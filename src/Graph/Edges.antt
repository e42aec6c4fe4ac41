-- ===== src/Graph/Edges.antt =====
-- What the operations of the graph do to its nodes and edges.
use fsracer.Prelude.{
  ◌≡◌, refl, ◌↔◌, Bool, true, false, ◌&&◌, ◌||◌, not, Option, none, some, [], Text, Ord, text_ord,
  pair_ord, same, arith, if◌then◌else◌, subst,
}
use fsracer.Collections.Set
use fsracer.Collections.Set.{Set, member, member-insert, member-erase}
use fsracer.Collections.Map.{find, emplace, find-assign, assign}
use fsracer.Graph.{
  Node, Graph, make_node, add_attribute, remove_dependent, put_back, update_node, connect, add_node,
  add_node_attr, add_edge, remove_edge,
}
use fsracer.Graph.Reach.{HasTarget, IsNode, Edge}

module _ {T L : Type 0} where
  abbrev pub is_some : Option (Node T L) → Bool
  is_some none = false
  is_some (some _) = true

  abbrev pub dependents_in : Option (Node T L) → Set (Text × L)
  dependents_in none = []
  dependents_in (some n) = n.dependents

  abbrev pub before_in : Option (Node T L) → Set Text
  before_in none = []
  before_in (some n) = n.before

  abbrev pub after_in : Option (Node T L) → Set Text
  after_in none = []
  after_in (some n) = n.after

  abbrev pub has_node : Graph T L → Text → Bool
  has_node g u = is_some (find u g)

  abbrev pub dependents_of : Graph T L → Text → Set (Text × L)
  dependents_of g u = dependents_in (find u g)

  abbrev pub before_of : Graph T L → Text → Set Text
  before_of g u = before_in (find u g)

  abbrev pub after_of : Graph T L → Text → Set Text
  after_of g u = after_in (find u g)

  is_some_iff : (o : Option (Node T L)) → (is_some o ≡ true) ↔ ((n : Node T L) × (o ≡ some n))
  is_some_iff none = (λ h. cc, λ (n, e). cc)
  is_some_iff (some n) = (λ _. (n, refl), λ _. refl)

  target_iff :
      (o : Option (Node T L)) (v : Text)
      → ((n : Node T L) × (o ≡ some n) × HasTarget v n.dependents) ↔ HasTarget v (dependents_in o)
  target_iff none v = (λ (n, e, _). cc, λ h. absurd h)
  target_iff (some n) v = (
    λ (i, e, t). let one : i ≡ n = cc in subst (λ (k : Node T L). HasTarget v k.dependents) one t,
    λ h. (n, refl, h),
  )

  pub has_node_iff : (g : Graph T L) (u : Text) → (has_node g u ≡ true) ↔ IsNode g u
  has_node_iff g u = is_some_iff (find u g)

  pub Edge-HasTarget : (g : Graph T L) (u v : Text) → Edge g u v ↔ HasTarget v (dependents_of g u)
  Edge-HasTarget g u v = target_iff (find u g) v

  module _ (g : Graph T L) (id u : Text) where
    pub has_node-add_node : (obj : T) → has_node (add_node id obj g) u ≡ (same u id || has_node g u)
    unfolding add_node emplace
    has_node-add_node obj =
        ground (arith, find-assign u id (make_node {L = L} id obj) g, text_ord.cmp_iff u id)

    pub dependents_of-add_node : (obj : T) → dependents_of (add_node id obj g) u ≡ dependents_of g u
    unfolding add_node emplace
    dependents_of-add_node obj =
        ground (arith, find-assign u id (make_node {L = L} id obj) g, text_ord.cmp_iff u id)

  abbrev pub map_node : (Node T L → Node T L) → Option (Node T L) → Option (Node T L)
  map_node f none = none
  map_node f (some n) = some (f n)

  find-put_back :
      (id u : Text) (f : Node T L → Node T L) (g : Graph T L) (o : Option (Node T L))
      → find id g ≡ o
      → find u (put_back id f g o) ≡ (if same u id then map_node f o else find u g)
  find-put_back id u f g none e = ground (arith, text_ord.cmp_iff u id)
  find-put_back id u f g (some n) e = find-assign u id (f n) g

  pub find-update_node :
      (id u : Text) (f : Node T L → Node T L) (g : Graph T L)
      → find u (update_node id f g) ≡ (if same u id then map_node f (find u g) else find u g)
  unfolding update_node
  find-update_node id u f g =
      ground (arith, find-put_back id u f g (find id g) refl, text_ord.cmp_iff u id)

  module _ (g : Graph T L) (id u attr : Text) where
    pub has_node-add_node_attr : has_node (add_node_attr id attr g) u ≡ has_node g u
    unfolding add_node_attr
    has_node-add_node_attr = ground (arith, find-update_node id u (add_attribute attr) g)

    pub dependents_of-add_node_attr : dependents_of (add_node_attr id attr g) u ≡ dependents_of g u
    unfolding add_node_attr
    dependents_of-add_node_attr = ground (arith, find-update_node id u (add_attribute attr) g)

module _ {T L : Type 0} ⦃q : Ord L⦄ where
  module _ (g : Graph T L) (s t u : Text) (l : L) where
    pub has_node-remove_edge : has_node (remove_edge s t l g) u ≡ has_node g u
    unfolding remove_edge
    has_node-remove_edge = ground (arith, find-update_node s u (remove_dependent (t, l)) g)

    pub dependents_of-remove_edge :
        dependents_of (remove_edge s t l g) u
        ≡ (if same u s then Set.erase (t, l) (dependents_of g u) else dependents_of g u)
    unfolding remove_edge Set.erase
    dependents_of-remove_edge = ground (arith, find-update_node s u (remove_dependent (t, l)) g)

module _ {T L : Type 0} ⦃q : Ord L⦄ (g : Graph T L) (s t u : Text) (l : L) where
  abbrev linked : Node T L → Node T L
  linked n = record n {
    dependents = Set.insert (t, l) n.dependents;
    before = Set.insert t n.before;
  }

  abbrev dangling : Node T L → Node T L
  dangling n = record n { dependents = Set.insert (t, l) n.dependents }

  abbrev reached : Node T L → Node T L
  reached m = record m { after = Set.insert s m.after }

  has_node-connect :
      (o p : Option (Node T L))
      → find s g ≡ o
      → find t g ≡ p
      → same s t ≡ false
      → is_some (find u (connect s t l g o p)) ≡ has_node g u
  has_node-connect none p e h ne = refl
  has_node-connect (some n) none e h ne =
      ground (arith, find-assign u s (dangling n) g, text_ord.cmp_iff u s)
  has_node-connect (some n) (some m) e h ne = ground (
    arith,
    find-assign u t (reached m) (assign s (linked n) g),
    find-assign u s (linked n) g,
    text_ord.cmp_iff u s,
    text_ord.cmp_iff u t,
  )

  dependents_of-connect :
      (o p : Option (Node T L))
      → find s g ≡ o
      → find t g ≡ p
      → same s t ≡ false
      → dependents_in (find u (connect s t l g o p)) ≡ (
          if same u s && has_node g s
          then Set.insert (t, l) (dependents_of g u)
          else dependents_of g u)
  dependents_of-connect none p e h ne = ground (arith)
  dependents_of-connect (some n) none e h ne =
      ground (arith, find-assign u s (dangling n) g, text_ord.cmp_iff u s)
  dependents_of-connect (some n) (some m) e h ne = ground (
    arith,
    find-assign u t (reached m) (assign s (linked n) g),
    find-assign u s (linked n) g,
    text_ord.cmp_iff u s,
    text_ord.cmp_iff u t,
    text_ord.cmp_iff s t,
  )

  before_of-connect :
      (o p : Option (Node T L))
      → find s g ≡ o
      → find t g ≡ p
      → same s t ≡ false
      → before_in (find u (connect s t l g o p)) ≡ (
          if same u s && has_node g s && has_node g t
          then Set.insert t (before_of g u)
          else before_of g u)
  before_of-connect none p e h ne = ground arith
  before_of-connect (some n) none e h ne =
      ground (arith, find-assign u s (dangling n) g, text_ord.cmp_iff u s)
  before_of-connect (some n) (some m) e h ne = ground (
    arith,
    find-assign u t (reached m) (assign s (linked n) g),
    find-assign u s (linked n) g,
    text_ord.cmp_iff u s,
    text_ord.cmp_iff u t,
    text_ord.cmp_iff s t,
  )

  after_of-connect :
      (o p : Option (Node T L))
      → find s g ≡ o
      → find t g ≡ p
      → same s t ≡ false
      → after_in (find u (connect s t l g o p)) ≡ (
          if same u t && has_node g s && has_node g t
          then Set.insert s (after_of g u)
          else after_of g u)
  after_of-connect none p e h ne = ground arith
  after_of-connect (some n) none e h ne =
      ground (arith, find-assign u s (dangling n) g, text_ord.cmp_iff u s)
  after_of-connect (some n) (some m) e h ne = ground (
    arith,
    find-assign u t (reached m) (assign s (linked n) g),
    find-assign u s (linked n) g,
    text_ord.cmp_iff u s,
    text_ord.cmp_iff u t,
    text_ord.cmp_iff s t,
  )

  pub has_node-add_edge : has_node (add_edge s t l g) u ≡ has_node g u
  unfolding add_edge
  has_node-add_edge = ground (arith, has_node-connect (find s g) (find t g) refl refl)

  pub dependents_of-add_edge : dependents_of (add_edge s t l g) u ≡ (
      if same u s && has_node g s && not (same s t)
      then Set.insert (t, l) (dependents_of g u)
      else dependents_of g u)
  unfolding add_edge
  dependents_of-add_edge = ground (arith, dependents_of-connect (find s g) (find t g) refl refl)

  pub before_of-add_edge : before_of (add_edge s t l g) u ≡ (
      if same u s && has_node g s && has_node g t && not (same s t)
      then Set.insert t (before_of g u)
      else before_of g u)
  unfolding add_edge
  before_of-add_edge = ground (arith, before_of-connect (find s g) (find t g) refl refl)

  pub after_of-add_edge : after_of (add_edge s t l g) u ≡ (
      if same u t && has_node g s && has_node g t && not (same s t)
      then Set.insert s (after_of g u)
      else after_of g u)
  unfolding add_edge
  after_of-add_edge = ground (arith, after_of-connect (find s g) (find t g) refl refl)
