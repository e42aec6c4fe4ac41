-- ===== src/Graph/Work.antt =====
-- The edges that `DFS` has still to look at, which bound its rounds.
use fsracer.Prelude.{
  ℕ, ◌+◌, ◌≤◌, ◌≡◌, refl, false, some, List, [], ◌∷◌, Text, text_ord, arith, length, if◌then◌else◌,
}
use fsracer.Collections.Set
use fsracer.Collections.Set.{Set, member, member-insert}
use fsracer.Collections.Map.{find}
use fsracer.Graph.{Node, Graph, push_dependents, edge_count}

pub length-push_dependents :
    {L : Type 0} (visited : Set Text) (ds : Set (Text × L)) (pool : List Text)
    → length (push_dependents visited ds pool) ≤ length pool + length ds
unfolding push_dependents
length-push_dependents visited [] pool = omega arith
length-push_dependents visited ((n, l) ∷ ds) pool =
    ground (arith, length-push_dependents visited ds (if member n visited then pool else n ∷ pool))

module _ {T L : Type 0} where
  -- The edges out of the nodes that are not visited.
  pub work : Graph T L → Set Text → ℕ
  work [] visited = 0
  work ((id, n) ∷ g) visited =
      (if member id visited then 0 else length n.dependents) + work g visited

  pub work-nil : (g : Graph T L) → work g [] ≡ edge_count g
  unfolding work edge_count member
  work-nil [] = refl
  work-nil ((id, n) ∷ g) = ground (arith, work-nil g)

  work-insert-le :
      (g : Graph T L) (visited : Set Text) (u : Text)
      → work g (Set.insert u visited) ≤ work g visited
  unfolding work
  work-insert-le [] visited u = omega arith
  work-insert-le ((id, n) ∷ g) visited u =
      ground (arith, work-insert-le g visited u, member-insert id u visited)

  -- A visit takes the edges of the node away.
  pub work-insert :
      (g : Graph T L) (visited : Set Text) (u : Text) (n : Node T L)
      → find u g ≡ some n
      → member u visited ≡ false
      → work g (Set.insert u visited) + length n.dependents ≤ work g visited
  unfolding work find
  work-insert [] visited u n h m = cc
  work-insert ((id, i) ∷ g) visited u n h m = ground (
    arith,
    text_ord.cmp_iff u id,
    text_ord.cmp_iff id u,
    member-insert id u visited,
    work-insert-le g visited u,
    work-insert g visited u n,
  )
