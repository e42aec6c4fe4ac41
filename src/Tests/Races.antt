-- ===== src/Tests/Races.antt =====
-- Two accesses to a file, by events that a graph orders or does not order.
use fsracer.Prelude.{
  List, ◌≡◌, refl, ◌↔◌, Bool, true, false, [], ◌∷◌, Text, codes, text_ord, pair_ord, Result, ok,
  fail,
}
use fsracer.Utils.{get_2_combinations}
use fsracer.Operation.{EffectType, consumed, produced}
use fsracer.FilePath.{FilePath, native, native_names}
use fsracer.FsAnalyzer.{FsAccess, EffectTable}
use fsracer.Dependency.{initial}
use fsracer.Dependency.Blocks.{analyze_trace}
use fsracer.Race.{
  RaceState, new_detector, get_faults, has_conflict, happens_before, has_dependency, search_from,
  add_fault, check_pair, check_pairs, check_paths,
}
use fsracer.Race.Order.{Ordered, Decides, IsCached, happens_before-Decides}
use fsracer.Race.Faults.{Any, reported, RaceAt}
use fsracer.Race.Exact.{get_faults-Reports}
use fsracer.Race.Dump.{detect}
use fsracer.Race.Silent.{detect-silent}
use fsracer.Race.Whole.{get_faults-analyze_trace}
use fsracer.Tests.Graphs.{triangle, triangle-IsClosed, first, third}
use fsracer.Tests.Analyses
use fsracer.Tests.Analyses.{free, linked, free-linked}

unfoldable pub program : Unit {0}
unfolding Analyses.program native native_names has_conflict get_2_combinations search_from
    happens_before has_dependency add_fault check_pair check_pairs check_paths get_faults
program = tt

abbrev access : Text → EffectType → FsAccess
access id effect = record {
  event_id = id;
  effect_type = effect;
  debug_info = [];
  operation_name = codes "open";
}

abbrev file : FilePath
file = codes "/" ∷ codes "f" ∷ []

-- Accesses of the events "2" and "3".
abbrev table : EffectTable
table = (file, access (codes "2") produced ∷ access (codes "3") consumed ∷ []) ∷ []

abbrev pair : Text × Text
pair = (codes "2", codes "3")

abbrev is_race : Result RaceState → Bool
is_race (ok st) = reported pair (codes "/f") st.faults
is_race (fail _) = false

-- The link between the events is the difference between a race and none.
races :
    (is_race (get_faults (analyze_trace free initial).dep_graph table new_detector) ≡ true)
    × (is_race (get_faults (analyze_trace linked initial).dep_graph table new_detector) ≡ false)
unfolding program
races = (refl, refl)

no_searches : IsCached triangle []
unfolding program
no_searches s visited e = cc

happens_before-Decides_example :
    Decides triangle (Ordered triangle first third) (happens_before triangle first third [])
happens_before-Decides_example =
    happens_before-Decides triangle triangle-IsClosed first third [] no_searches

get_faults-Reports_example :
    (after : RaceState) × (get_faults triangle table new_detector ≡ ok after)
    × IsCached triangle after.cache_dfs
    × ((pair : Text × Text) (p : Text)
        → (reported pair p after.faults ≡ true)
          ↔ Any
              (λ (q, accesses). Any (RaceAt triangle pair p q) (get_2_combinations accesses))
              table)
get_faults-Reports_example =
    get_faults-Reports triangle triangle-IsClosed table new_detector no_searches

get_faults-analyze_trace_example :
    (after : RaceState) × (get_faults (analyze_trace free initial).dep_graph table new_detector
      ≡ ok after)
    × ((pair : Text × Text) (p : Text)
        → (reported pair p after.faults ≡ true)
          ↔ Any
              (λ (q, accesses).
                Any
                  (RaceAt (analyze_trace free initial).dep_graph pair p q)
                  (get_2_combinations accesses))
              table)
get_faults-analyze_trace_example = get_faults-analyze_trace free table free-linked

detect-silent_example :
    (messages : List Text) × (after : RaceState) × (detect triangle table new_detector
      ≡ ok (messages, after))
    × (messages ≡ []
        → (pair : Text × Text) (p : Text)
        → ¬ Any
            (λ (q, accesses). Any (RaceAt triangle pair p q) (get_2_combinations accesses))
            table)
detect-silent_example = detect-silent triangle table new_detector triangle-IsClosed no_searches
