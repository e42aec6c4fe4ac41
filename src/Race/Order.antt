-- ===== src/Race/Order.antt =====
-- `HappensBefore` with its cache of searches decides whether the graph orders two events.
use fsracer.Prelude.{
  ◌≡◌, ◌≢◌, refl, ◌⊎◌, inl, inr, ◌↔◌, Bool, true, false, ◌&&◌, Option, none, some, Text, text_ord,
  same, same_iff, arith, Bool-cases, Option-cases, Result, ok,
}
use mathlib.Core.Logic.{∥∥₁_map}
use fsracer.Collections.Set.{Set, member}
use fsracer.Collections.Map.{find, assign, find-assign}
use fsracer.Graph.{get_node_info}
use fsracer.Graph.Reach.{IsNode, IsClosed, Reach}
use fsracer.Graph.Search.{dfs_decides}
use fsracer.Dependency.{DepGraph, EventInfo}
use fsracer.Race.{
  Cache, is_main_event, search_from, happens_between, happens_before, has_dependency,
}

-- Two main blocks, which the detector takes to be ordered.
abbrev pub BothMain : DepGraph → Text → Text → Type 0
BothMain g s t =
    (i : EventInfo) × (j : EventInfo) × (find s g ≡ some i)
    × (find t g ≡ some j)
    × (is_main_event i ≡ true)
    × (is_main_event j ≡ true)

-- The first event happens before the second: both are in the graph, and both are main blocks or a
-- walk leads from the one to the other.
abbrev pub Ordered : DepGraph → Text → Text → Type 0
Ordered g s t = IsNode g s × IsNode g t × (BothMain g s t ⊎ Reach g s t)

-- Each search in the cache is the search of the graph.
abbrev pub IsCached : DepGraph → Cache → Type 0
IsCached g cache =
    (s : Text) (visited : Set Text)
    → find s cache ≡ some visited
    → (v : Text) → (member v visited ≡ true) ↔ ∥ Reach g s v ∥₁

-- A call that returns, keeps the cache right, and decides `P`.
pub record Decides (g : DepGraph) (P : Type 0) (r : Result (Bool × Cache)) : Type 0 where
  pub answer : Bool
  pub cache : Cache
  pub returns : r ≡ ok (answer, cache)
  pub cached : IsCached g cache
  pub holds : answer ≡ true → ∥ P ∥₁
  pub fails : answer ≡ false → ¬ P

IsCached-assign :
    (g : DepGraph) (s : Text) (visited : Set Text) (cache : Cache)
    → ((v : Text) → (member v visited ≡ true) ↔ ∥ Reach g s v ∥₁)
    → IsCached g cache
    → IsCached g (assign s visited cache)
IsCached-assign g s visited cache exact cached u seen e v = elim (Bool-cases (same u s)) [
  | inl here ↦
      let at_s : u ≡ s = (same_iff u s).0 here in
      let one : seen ≡ visited = ground (arith, find-assign u s visited cache) in
      rw (one, at_s) (exact v)
  | inr other ↦ cached u seen (ground (arith, find-assign u s visited cache)) v
]

not-true : (b : Bool) → b ≡ false → b ≢ true
not-true b e = ground arith

module _ (g : DepGraph) (closed : IsClosed g) where
  search_from-Decides :
      (s t : Text) (cache : Cache)
      → IsNode g s
      → IsCached g cache
      → Decides g (Reach g s t) (search_from g s t cache)
  unfolding search_from
  search_from-Decides s t cache node cached = elim (Option-cases (find s cache)) [
    | inl miss ↦
        let (visited, e, exact) = dfs_decides g s closed node in
        record {
          answer = member t visited;
          cache = assign s visited cache;
          returns = rw (miss, search_from, e);
          cached = IsCached-assign g s visited cache exact cached;
          holds = (exact t).0;
          fails = λ f r. not-true (member t visited) f ((exact t).1 ∣ r ∣₁);
        }
    | inr (visited, hit) ↦
        let exact = cached s visited hit in
        record {
          answer = member t visited;
          cache = cache;
          returns = rw (hit, search_from);
          cached = cached;
          holds = (exact t).0;
          fails = λ f r. not-true (member t visited) f ((exact t).1 ∣ r ∣₁);
        }
  ]

  -- What is known of the two nodes decides the order, but for the walk.
  happens_between-Decides :
      (s t : Text) (o p : Option EventInfo) (cache : Cache)
      → find s g ≡ o
      → find t g ≡ p
      → IsCached g cache
      → Decides g (Ordered g s t) (happens_between g s t o p cache)
  happens_between-Decides s t none p cache e f cached = record {
    answer = false;
    cache = cache;
    returns = refl;
    cached = cached;
    holds = λ h. cc;
    fails = λ _ ((i, at_s), _, _). cc;
  }
  happens_between-Decides s t (some i) none cache e f cached = record {
    answer = false;
    cache = cache;
    returns = refl;
    cached = cached;
    holds = λ h. cc;
    fails = λ _ (_, (j, at_t), _). cc;
  }
  happens_between-Decides s t (some i) (some j) cache e f cached =
      elim (Bool-cases (is_main_event i && is_main_event j)) [
        | inl main ↦ record {
          answer = true;
          cache = cache;
          returns = rw main;
          cached = cached;
          holds = λ _. ∣ ((i, e), (j, f), inl (i, j, e, f, ground arith, ground arith)) ∣₁;
          fails = λ h. cc;
        }
        | inr other ↦
            let d = search_from-Decides s t cache (i, e) cached in
            record {
              answer = d.answer;
              cache = d.cache;
              returns = rw other d.returns;
              cached = d.cached;
              holds = λ h. ∥∥₁_map (d.holds h) (λ r. ((i, e), (j, f), inr r));
              fails = λ h (_, _, o). not_ordered i j e f other (d.fails h) o;
            }
      ]
    where
      not_ordered :
          (i j : EventInfo)
          → find s g ≡ some i
          → find t g ≡ some j
          → (is_main_event i && is_main_event j) ≡ false
          → ¬ Reach g s t
          → BothMain g s t ⊎ Reach g s t
          → ⊥
      not_ordered i j e f other no_walk (inl (i', j', e', f', m, n)) =
          let one : i' ≡ i = cc in
          let two : j' ≡ j = cc in
          let m' : is_main_event i ≡ true = rw one at m in
          let n' : is_main_event j ≡ true = rw two at n in ground arith
      not_ordered i j e f other no_walk (inr r) = no_walk r

  -- On a graph whose dependents are all nodes `HappensBefore` returns, whatever searches are cached,
  -- and answers whether the first event happens before the second. The cache stays right.
  pub happens_before-Decides :
      (s t : Text) (cache : Cache)
      → IsCached g cache
      → Decides g (Ordered g s t) (happens_before g s t cache)
  unfolding happens_before get_node_info
  happens_before-Decides s t cache cached =
      happens_between-Decides s t (find s g) (find t g) cache refl refl cached

  pub has_dependency-Decides :
      (s t : Text) (cache : Cache)
      → IsCached g cache
      → Decides g (Ordered g s t ⊎ Ordered g t s) (has_dependency g s t cache)
  unfolding has_dependency
  has_dependency-Decides s t cache cached =
      let d = happens_before-Decides s t cache cached in
      elim (Bool-cases d.answer) [
        | inl first ↦ record {
          answer = true;
          cache = d.cache;
          returns = rw (d.returns, first);
          cached = d.cached;
          holds = λ _. ∥∥₁_map (d.holds first) inl;
          fails = λ h. cc;
        }
        | inr not_first ↦
            let d' = happens_before-Decides t s d.cache d.cached in
            record {
              answer = d'.answer;
              cache = d'.cache;
              returns = rw (d.returns, not_first) d'.returns;
              cached = d'.cached;
              holds = λ h. ∥∥₁_map (d'.holds h) inr;
              fails = λ h o. neither (d.fails not_first) (d'.fails h) o;
            }
      ]
    where
      neither : {P Q : Type 0} → ¬ P → ¬ Q → P ⊎ Q → ⊥
      neither np nq (inl p) = np p
      neither np nq (inr q) = nq q
