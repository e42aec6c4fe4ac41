-- ===== src/Dependency/Detour.antt =====
-- Walks that do without an edge, in a graph whose edges lead up.
use fsracer.Prelude.{
  ℕ, ◌≤◌, ◌<◌, ◌≡◌, ◌≢◌, refl, ◌⊎◌, inl, inr, Text, text_ord, pair_ord, same, same_iff, arith,
  Bool-cases, subst,
}
use fsracer.Graph.{remove_edge}
use fsracer.Graph.Reach.{Edge, Reach, here, step}
use fsracer.Graph.Edges.{Edge-HasTarget, dependents_of, dependents_of-remove_edge}
use fsracer.Graph.Closed.{HasTarget-erase, HasTarget-erase_ne}
use fsracer.Dependency.{DepGraph, happens_before, label_ord}

-- Each edge leads up.
abbrev pub IsRanked : (Text → ℕ) → DepGraph → Type 0
IsRanked rank g = (u v : Text) → Edge g u v → rank u < rank v

pub remove_edge-Edge :
    (g : DepGraph) (s t u v : Text) → Edge (remove_edge s t happens_before g) u v → Edge g u v
remove_edge-Edge g s t u v e =
    let kept = (Edge-HasTarget (remove_edge s t happens_before g) u v).0 e in
    (Edge-HasTarget g u v).1 (elim (Bool-cases (same u s)) [
      | inl at_s ↦
          HasTarget-erase v t happens_before (dependents_of g u)
            (rw (dependents_of-remove_edge g s t u happens_before, at_s) at kept)
      | inr other ↦ rw (dependents_of-remove_edge g s t u happens_before, other) at kept
    ])

pub remove_edge-kept :
    (g : DepGraph) (s t u v : Text)
    → Edge g u v
    → ((u ≡ s) × (v ≡ t)) ⊎ Edge (remove_edge s t happens_before g) u v
remove_edge-kept g s t u v e = elim (Bool-cases (same u s)) [
  | inl at_s ↦ elim (Bool-cases (same v t)) [
    | inl at_t ↦ inl ((same_iff u s).0 at_s, (same_iff v t).0 at_t)
    | inr other ↦ inr (
        (Edge-HasTarget (remove_edge s t happens_before g) u v).1 (
          rw (dependents_of-remove_edge g s t u happens_before, at_s)
            (HasTarget-erase_ne v t happens_before (dependents_of g u)
              (λ q. ground (arith, text_ord.cmp_iff v t)) ((Edge-HasTarget g u v).0 e))))
  ]
  | inr other ↦ inr (
      (Edge-HasTarget (remove_edge s t happens_before g) u v).1
        (rw (dependents_of-remove_edge g s t u happens_before, other) ((Edge-HasTarget g u v).0 e)))
]

pub Reach-rank :
    (rank : Text → ℕ) (g : DepGraph)
    → IsRanked rank g
    → (u v : Text) → Reach g u v
    → rank u ≤ rank v
Reach-rank rank g ranked u v here = omega arith
Reach-rank rank g ranked u v (step {u = w} r e) =
    omega (arith, Reach-rank rank g ranked u w r, ranked w v e)

module _ (rank : Text → ℕ) (g : DepGraph) (ranked : IsRanked rank g) (s m t : Text) where
  -- A walk that ends at `m` or starts there does not take the edge from `s` to `t`, where `m` lies
  -- between the two.
  pub up_to :
      rank m < rank t
      → (u v : Text) → Reach g u v
      → rank v ≤ rank m
      → Reach (remove_edge s t happens_before g) u v
  up_to lt u v here h = here
  up_to lt u v (step {u = w} r e) h =
      let below = ranked w v e in
      let rest = up_to lt u w r (omega arith) in
      elim (remove_edge-kept g s t w v e) [
        | inl (_, at_t) ↦ absurd (omega (arith, lt, subst (λ x. rank x ≤ rank m) at_t h))
        | inr kept ↦ step rest kept
      ]

  pub from :
      rank s < rank m
      → (u v : Text) → Reach g u v
      → rank m ≤ rank u
      → Reach (remove_edge s t happens_before g) u v
  from lt u v here h = here
  from lt u v (step {u = w} r e) h =
      let above = Reach-rank rank g ranked u w r in
      elim (remove_edge-kept g s t w v e) [
        | inl (at_s, _) ↦
            let back : rank u ≤ rank s = subst (λ x. rank u ≤ rank x) at_s above in
            absurd (omega (arith, lt, back, h))
        | inr kept ↦ step (from lt u w r h) kept
      ]

pub Reach-lt :
    (rank : Text → ℕ) (g : DepGraph)
    → IsRanked rank g
    → (u v : Text) → u ≢ v
    → Reach g u v
    → rank u < rank v
Reach-lt rank g ranked u v ne here = absurd (ne refl)
Reach-lt rank g ranked u v ne (step {u = w} r e) =
    omega (arith, Reach-rank rank g ranked u w r, ranked w v e)
