-- ===== src/Race.antt =====
-- lib/RaceDetector.h and lib/RaceDetector.cpp: conflicting accesses of events that no walk of the
-- dependency graph orders.
pub mod Order
pub mod Faults
pub mod Check
pub mod Exact
pub mod Whole
pub mod Dump
pub mod Silent
use fsracer.Prelude.{
  ℕ, Bool, true, false, ◌&&◌, ◌||◌, not, Option, none, some, List, [], ◌∷◌, ◌++◌, Text, codes, Ord,
  text_ord, pair_ord, same, Result, ok, fail, ◌>>=◌, if◌then◌else◌,
}
use fsracer.Collections.Set.{Set, member}
use fsracer.Collections.Map.{Map, find, assign, emplace}
use fsracer.Utils.{get_2_combinations}
use fsracer.Operation.{EffectType, consumed, produced, expunged, consumes, eff_to_string}
use fsracer.Trace.{DebugInfo, Event, EventType}
use fsracer.Graph.{Graph, Node, get_node_info, dfs}
use fsracer.FilePath.{FilePath, path_ord, native}
use fsracer.Table.{Table, add_entry, get_value}
use fsracer.FsAnalyzer.{FsAccess, EffectTable}
use fsracer.Dependency.{DepGraph, EventInfo}

pub record FaultDesc : Type 0 where
  pub p : Text
  pub fs_access1 : FsAccess
  pub fs_access2 : FsAccess

-- `operator<` compares the paths alone, so a set of descriptions has one for each path.
abbrev pub FaultSet : Type 0
FaultSet = Map Text FaultDesc

abbrev pub Faults : Type 0
Faults = Map (Text × Text) FaultSet

abbrev pub Cache : Type 0
Cache = Map Text (Set Text)

-- What `GetFaults` writes: its result and the two mutable fields.
pub record RaceState : Type 0 where
  pub faults : Faults
  pub event_info : Table Text DebugInfo
  pub cache_dfs : Cache

abbrev pub new_detector : RaceState
new_detector = record { faults = []; event_info = []; cache_dfs = [] }

unfoldable pub has_conflict : FsAccess → FsAccess → Bool
unfolding consumes
has_conflict acc1 acc2 = elim acc1.effect_type [
  | consumed ↦ not (consumes acc2.effect_type)
  | produced ↦ true
  | expunged ↦ true
]

abbrev pub is_main_event : EventInfo → Bool
is_main_event info = elim info.node_obj.event_type [ EventType.main ↦ true | _ ↦ false ]

-- Looks the target up among the names that `DFS` finds from the source, which it does once.
unfoldable pub search_from : DepGraph → Text → Text → Cache → Result (Bool × Cache)
search_from g source target cache = elim (find source cache) [
  | some visited ↦ ok (member target visited, cache)
  | none ↦ dfs g source >>= λ visited. ok (member target visited, assign source visited cache)
]

abbrev pub happens_between :
    DepGraph → Text → Text → Option EventInfo → Option EventInfo → Cache → Result (Bool × Cache)
happens_between g source target none _ cache = ok (false, cache)
happens_between g source target (some _) none cache = ok (false, cache)
happens_between g source target (some i) (some j) cache =
    if is_main_event i && is_main_event j
    then ok (true, cache)
    else search_from g source target cache

unfoldable pub happens_before : DepGraph → Text → Text → Cache → Result (Bool × Cache)
unfolding search_from
happens_before g source target cache =
    happens_between g source target (get_node_info source g) (get_node_info target g) cache

-- The disjunction of the two orders: the second is not asked where the first holds.
unfoldable pub has_dependency : DepGraph → Text → Text → Cache → Result (Bool × Cache)
unfolding happens_before
has_dependency g first second cache = happens_before g first second cache >>= λ (b, cache').
    if b then ok (true, cache') else happens_before g second first cache'

abbrev pub insert_fault : FaultDesc → Option FaultSet → FaultSet
insert_fault desc none = emplace desc.p desc []
insert_fault desc (some descs) = emplace desc.p desc descs

unfoldable pub add_fault : Text × Text → FaultDesc → Faults → Faults
add_fault pair desc faults = assign pair (insert_fault desc (find pair faults)) faults

abbrev pub note_events : FsAccess → FsAccess → RaceState → RaceState
note_events first second st = record st {
  event_info =
      add_entry second.event_id second.debug_info
        (add_entry first.event_id first.debug_info st.event_info);
}

-- What is done with two accesses once their dependency is known.
abbrev pub report : FilePath → FsAccess → FsAccess → RaceState → Bool × Cache → RaceState
report p first second st (true, cache) = record st { cache_dfs = cache }
report p first second st (false, cache) = record st {
  cache_dfs = cache;
  faults =
      add_fault (first.event_id, second.event_id)
        (record { p = native p; fs_access1 = first; fs_access2 = second }) st.faults;
}

-- The body of the inner loop of `GetFaults`.
unfoldable pub check_pair : DepGraph → FilePath → FsAccess × FsAccess → RaceState → Result RaceState
unfolding has_conflict has_dependency
check_pair g p (first, second) st =
    let st' = note_events first second st in
    if same first.event_id second.event_id
    then ok st'
    else if has_conflict first second
    then (has_dependency g first.event_id second.event_id st'.cache_dfs >>= λ r.
        ok (report p first second st' r))
    else ok st'

unfoldable pub check_pairs :
    DepGraph → FilePath → List (FsAccess × FsAccess) → RaceState → Result RaceState
unfolding check_pair
check_pairs g p [] st = ok st
check_pairs g p (pair ∷ pairs) st = check_pair g p pair st >>= check_pairs g p pairs

unfoldable pub check_paths : DepGraph → EffectTable → RaceState → Result RaceState
unfolding check_pairs get_2_combinations
check_paths g [] st = ok st
check_paths g ((p, accesses) ∷ table) st =
    check_pairs g p (get_2_combinations accesses) st >>= check_paths g table

unfoldable pub get_faults : DepGraph → EffectTable → RaceState → Result RaceState
unfolding check_paths
get_faults g accesses st = check_paths g accesses (record st { faults = [] })

unfoldable pub fault_desc_to_string : FaultDesc → Text
unfolding eff_to_string
fault_desc_to_string f =
    codes "Path "
    ++ f.p
    ++ codes ":\n    "
    ++ eff_to_string f.fs_access1.effect_type
    ++ codes " by the first event (operation: "
    ++ f.fs_access1.operation_name
    ++ codes ")\n    "
    ++ eff_to_string f.fs_access2.effect_type
    ++ codes " by the second event (operation: "
    ++ f.fs_access2.operation_name
    ++ codes ")"
