-- ===== src/Race/Whole.antt =====
-- The detector on the graph that the dependency analyzer leaves.
use fsracer.Prelude.{◌≡◌, ◌↔◌, true, Text, text_ord, ok}
use fsracer.Collections.Map.{find}
use fsracer.Utils.{get_2_combinations}
use fsracer.Trace.{Trace}
use fsracer.Dependency.{initial}
use fsracer.Dependency.Blocks
use fsracer.Dependency.Links.{BlocksLinked}
use fsracer.Dependency.Invariant.{analyze_trace-IsGood}
use fsracer.FsAnalyzer.{EffectTable}
use fsracer.Race.{RaceState, new_detector, get_faults}
use fsracer.Race.Faults.{Any, reported, RaceAt}
use fsracer.Race.Exact.{get_faults-Reports}

-- For a trace whose links lead to events that were created, a new detector on the graph of the
-- dependency analyzer returns, whatever the accesses are: no assertion fails and no search runs out.
-- Its faults name a path for two events exactly where two accesses of that path are a race in the
-- graph of the trace.
pub get_faults-analyze_trace :
    (t : Trace) (table : EffectTable)
    → BlocksLinked t.blocks initial
    → (after : RaceState) × (get_faults
          (Blocks.analyze_trace t initial).dep_graph
          table
          new_detector
        ≡ ok after)
      × ((pair : Text × Text) (p : Text)
          → (reported pair p after.faults ≡ true)
            ↔ Any
                (λ (q, accesses).
                  Any
                    (RaceAt (Blocks.analyze_trace t initial).dep_graph pair p q)
                    (get_2_combinations accesses))
                table)
unfolding find
get_faults-analyze_trace t table linked =
    let (after, returns, _, exact) =
      get_faults-Reports (Blocks.analyze_trace t initial).dep_graph
        (analyze_trace-IsGood t linked).closed table new_detector (λ s visited e. cc) in
    (after, returns, exact)
