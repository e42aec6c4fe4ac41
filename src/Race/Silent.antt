-- ===== src/Race/Silent.antt =====
-- What it means that the detector prints nothing.
use fsracer.Prelude.{
  ◌≡◌, ◌≢◌, refl, true, List, [], Text, text_ord, pair_ord, ok, List-cases, inl, inr,
}
use fsracer.Collections.Map.{find}
use fsracer.Utils.{get_2_combinations}
use fsracer.Graph.Reach.{IsClosed}
use fsracer.FsAnalyzer.{EffectTable}
use fsracer.Dependency.{DepGraph}
use fsracer.Race.{RaceState, Faults}
use fsracer.Race.Order.{IsCached}
use fsracer.Race.Faults.{Any, reported, RaceAt}
use fsracer.Race.Exact.{get_faults-Reports}
use fsracer.Race.Dump.{dump_faults, detect}

dump_faults-nil : (st : RaceState) → dump_faults st ≡ [] → st.faults ≡ []
unfolding dump_faults
dump_faults-nil st h = elim (List-cases st.faults) [
  | inl no_fault ↦ no_fault
  | inr (f, fs, some_fault) ↦ let h' = rw (dump_faults, some_fault) at h in cc
]

unreported :
    (pair : Text × Text) (p : Text) (faults : Faults) → faults ≡ [] → reported pair p faults ≢ true
unfolding find
unreported pair p faults e = rw e (λ h. cc)

-- On a graph whose dependents are all nodes, `Detect` returns. If it prints nothing, no two accesses of
-- a path are a race.
pub detect-silent :
    (g : DepGraph) (table : EffectTable) (st : RaceState)
    → IsClosed g
    → IsCached g st.cache_dfs
    → (messages : List Text) × (after : RaceState) × (detect g table st ≡ ok (messages, after))
      × (messages ≡ []
          → (pair : Text × Text) (p : Text)
          → ¬ Any (λ (q, accesses). Any (RaceAt g pair p q) (get_2_combinations accesses)) table)
unfolding detect
detect-silent g table st closed cached =
    let (after, returns, _, exact) = get_faults-Reports g closed table st cached in
    (
      dump_faults after,
      after,
      rw (detect, returns) refl,
      λ silent pair p race.
          unreported pair p after.faults (dump_faults-nil after silent) ((exact pair p).1 race),
    )
