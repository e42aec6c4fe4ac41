-- ===== src/Graph/Search.antt =====
-- `DFS` finds the nodes that some walk leads to, or meets a name that is no node.
use fsracer.Prelude.{
  ℕ, zero, suc, ◌+◌, ◌≤◌, ◌≡◌, refl, ◌⊎◌, inl, inr, ◌↔◌, Bool, true, false, none, some, List, [],
  ◌∷◌, Text, text_ord, same, same_iff, arith, length, Bool-cases, Option-cases, In, Result, ok,
  fail, assertion, out_of_fuel, ◌≢◌, ∥∥₁_elim, So-prop, ⊎_elim, subst,
}
use mathlib.Core.HLevel.{⊥_prop}
use fsracer.Collections.Set
use fsracer.Collections.Set.{Set, member, member-insert}
use fsracer.Collections.Map.{find}
use fsracer.Graph.{Node, Graph, push_dependents, dfs_loop, dfs, edge_count, has_path}
use fsracer.Graph.Reach.{HasTarget, IsNode, Edge, IsClosed, Reach, here, step, Reach-IsNode}
use fsracer.Graph.Work.{work, work-nil, work-insert, length-push_dependents}

-- The names on the stack after the loop over the dependents.
pub In-push_dependents :
    {L : Type 0} (visited : Set Text) (ds : Set (Text × L)) (pool : List Text) (w : Text)
    → In w (push_dependents visited ds pool)
      ↔ (In w pool ⊎ HasTarget w ds × (member w visited ≡ false))
unfolding push_dependents
In-push_dependents visited [] pool w = ground arith
In-push_dependents visited ((n, l) ∷ ds) pool w = elim (Bool-cases (member n visited)) [
  | inl old ↦ ground (arith, In-push_dependents visited ds pool w)
  | inr new ↦ ground (arith, In-push_dependents visited ds (n ∷ pool) w)
]

module _ {T L : Type 0} (g : Graph T L) (source : Text) where
  record Inv (visited : Set Text) (pool : List Text) : Type 0 where
    start : (member source visited ≡ true) ⊎ In source pool
    nodes : (v : Text) → member v visited ≡ true → IsNode g v
    sound : (v : Text) → member v visited ≡ true → Reach g source v
    queued : (v : Text) → In v pool → Reach g source v
    closed :
        (u v : Text) → member u visited ≡ true → Edge g u v → (member v visited ≡ true) ⊎ In v pool

  Inv-start : Inv [] (source ∷ [])
  unfolding member
  Inv-start = record {
    start = inr (inl refl);
    nodes = λ v m. cc;
    sound = λ v m. cc;
    queued = λ v q. ⊎_elim (λ e. rw e here) (λ n. absurd n) q;
    closed = λ u v m e. cc;
  }

  -- The top of the stack was visited before.
  Inv-skip :
      (visited : Set Text) (node : Text) (pool : List Text)
      → member node visited ≡ true
      → Inv visited (node ∷ pool)
      → Inv visited pool
  Inv-skip visited node pool old h = record {
    start = ground (arith, h.start);
    nodes = h.nodes;
    sound = h.sound;
    queued = λ v q. h.queued v (inr q);
    closed = λ u v m e. ground (arith, h.closed u v m e);
  }

  to_target :
      (u v : Text) {node : Text} (n : Node T L)
      → find node g ≡ some n
      → u ≡ node
      → Edge g u v
      → HasTarget v n.dependents
  to_target u v n found e (i, at_u, target) =
      let one_node : i ≡ n = cc in
      subst (λ (k : Node T L). HasTarget v k.dependents) one_node target

  -- The top of the stack is a node that was not visited.
  Inv-visit :
      (visited : Set Text) (node : Text) (pool : List Text) (n : Node T L)
      → find node g ≡ some n
      → Inv visited (node ∷ pool)
      → Inv (Set.insert node visited) (push_dependents (Set.insert node visited) n.dependents pool)
  Inv-visit visited node pool n found h =
      let seen = Set.insert node visited in
      let mem = λ (v : Text). member-insert v node visited in
      let eq = λ (v : Text). text_ord.cmp_iff v node in
      let queue = λ (v : Text). In-push_dependents seen n.dependents pool v in
      let to_node : Reach g source node = h.queued node (inl refl) in
      record {
        start = ground (arith, h.start, mem source, eq source, queue source);
        nodes = λ v m. elim (Bool-cases (same v node)) [
          | inl e ↦ rw ((same_iff v node).0 e) (n, found)
          | inr e ↦ h.nodes v (ground (arith, mem v))
        ];
        sound = λ v m. elim (Bool-cases (same v node)) [
          | inl e ↦ rw ((same_iff v node).0 e) to_node
          | inr e ↦ h.sound v (ground (arith, mem v))
        ];
        queued = λ v q. elim ((queue v).0 q) [
          | inl old ↦ h.queued v (inr old)
          | inr new ↦ step to_node (n, found, new.0)
        ];
        closed = λ u v m e. elim (Bool-cases (same u node)) [
          | inl at_node ↦
              let target = to_target u v n found ((same_iff u node).0 at_node) e in
              ground (arith, queue v)
          | inr other ↦ ground (arith, h.closed u v (ground (arith, mem u)) e, mem v, eq v, queue v)
        ];
      }

  -- The outcome of a search that has ended.
  data Finds : Result (Set Text) → Type 0 where
    found :
        {r : Result (Set Text)} (visited : Set Text)
        → r ≡ ok visited
        → ((v : Text) → (member v visited ≡ true) ↔ ∥ Reach g source v ∥₁)
        → ((v : Text) → Reach g source v → IsNode g v)
        → Finds r
    dangling :
        {r : Result (Set Text)} (v : Text)
        → r ≡ fail assertion
        → Reach g source v
        → find v g ≡ none
        → Finds r

  -- With an empty stack the visited names are closed under edges.
  complete :
      (visited : Set Text)
      → Inv visited []
      → {v : Text} → Reach g source v
      → member v visited ≡ true
  complete visited h here = ground (arith, h.start)
  complete visited h (step {u} {v} p e) = ground (arith, h.closed u v (complete visited h p) e)

  dfs_loop-Finds :
      (fuel : ℕ) (visited : Set Text) (pool : List Text)
      → work g visited + length pool ≤ fuel
      → Inv visited pool
      → Finds (dfs_loop g fuel visited pool)
  unfolding dfs_loop
  dfs_loop-Finds fuel visited [] w h =
      found visited refl
        (λ v. (λ m. ∣ h.sound v m ∣₁, λ r. ∥∥₁_elim r (So-prop _) (complete visited h)))
        (λ v r. h.nodes v (complete visited h r))
  dfs_loop-Finds zero visited (node ∷ pool) w h = absurd (omega arith)
  dfs_loop-Finds (suc fuel) visited (node ∷ pool) w h = elim (Bool-cases (member node visited)) [
    | inl old ↦
        rw (old, dfs_loop)
          (dfs_loop-Finds fuel visited pool (omega arith) (Inv-skip visited node pool old h))
    | inr new ↦ elim (Option-cases (find node g)) [
      | inl no_node ↦ dangling node (rw (new, no_node, dfs_loop)) (h.queued node (inl refl)) no_node
      | inr (n, e) ↦
          let seen = Set.insert node visited in
          rw (new, dfs_loop, e)
            (dfs_loop-Finds fuel seen (push_dependents seen n.dependents pool)
              (omega (
                arith,
                work-insert g visited node n e new,
                length-push_dependents seen n.dependents pool,
              ))
              (Inv-visit visited node pool n e h))
    ]
  ]

  -- `DFS` ends. It returns exactly the names that a walk from the source leads to, or its assertion
  -- fails because some walk leads to a name that is no node.
  dfs-Finds : Finds (dfs g source)
  unfolding dfs
  dfs-Finds =
      dfs_loop-Finds (suc (edge_count g)) [] (source ∷ []) (omega (arith, work-nil g)) Inv-start

module _ {T L : Type 0} (g : Graph T L) (source : Text) where
  no_node_absurd : (v : Text) → find v g ≡ none → IsNode g v → ⊥
  no_node_absurd v no_node (i, at_v) = ground arith

  -- From a node of a graph whose dependents are all nodes `DFS` returns, and the returned set holds a
  -- name exactly if some walk leads from the source to it.
  pub dfs_decides :
      IsClosed g
      → IsNode g source
      → (visited : Set Text) × (dfs g source ≡ ok visited)
        × ((v : Text) → (member v visited ≡ true) ↔ ∥ Reach g source v ∥₁)
  dfs_decides closed n = elim (dfs-Finds g source) [
    | found visited e exact _ ↦ (visited, e, exact)
    | dangling v e walk no_node ↦ absurd (no_node_absurd v no_node (Reach-IsNode closed n walk))
  ]

  -- `DFS` never stops for want of fuel, and its assertion fails exactly if some walk leads to a name
  -- that is no node.
  pub dfs_assertion :
      (dfs g source ≢ fail out_of_fuel)
      × ((dfs g source ≡ fail assertion) ↔ ∥ ((v : Text) × Reach g source v × (find v g ≡ none)) ∥₁)
  dfs_assertion = elim (dfs-Finds g source) [
    | found visited e _ nodes ↦ (
      λ p. ground arith,
      (
        λ p. absurd (ground arith),
        λ p.
            absurd
              (∥∥₁_elim p ⊥_prop (λ (v, walk, no_node). no_node_absurd v no_node (nodes v walk))),
      ),
    )
    | dangling v e walk no_node ↦ (λ p. ground arith, (λ p. ∣ (v, walk, no_node) ∣₁, λ p. e))
  ]

  -- `HasPath` answers whether a walk leads from the source to the target.
  has_path-Reach :
      (target : Text)
      → IsClosed g
      → IsNode g source
      → (b : Bool) × (has_path g source target ≡ ok b) × ((b ≡ true) ↔ ∥ Reach g source target ∥₁)
  unfolding has_path
  has_path-Reach target closed n =
      let (visited, e, exact) = dfs_decides closed n in (member target visited, rw e, exact target)
