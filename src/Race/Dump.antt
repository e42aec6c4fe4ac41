-- ===== src/Race/Dump.antt =====
-- lib/RaceDetector.cpp: the messages about the faults.
use fsracer.Prelude.{
  Option, none, some, List, [], ◌∷◌, ◌++◌, Text, codes, text_ord, length, Result, ok, ◌>>=◌,
}
use fsracer.Utils.{to_string}
use fsracer.Trace.{DebugInfo, debug_info_to_string}
use fsracer.Table.{Table, get_value}
use fsracer.FsAnalyzer.{EffectTable}
use fsracer.Dependency.{DepGraph}
use fsracer.Race.{FaultSet, Faults, RaceState, fault_desc_to_string, get_faults}

abbrev pub or_text : Text → Text → Text
or_text [] other = other
or_text (c ∷ str) other = c ∷ str

-- The tags of an event.
unfoldable pub tags : Option DebugInfo → Text
unfolding debug_info_to_string
tags none = codes " !main"
tags (some info) = or_text (debug_info_to_string info) (codes "empty")

unfoldable pub dump_descs : FaultSet → List Text
unfolding fault_desc_to_string
dump_descs [] = []
dump_descs ((_, desc) ∷ descs) = (codes "  - " ++ fault_desc_to_string desc) ∷ dump_descs descs

unfoldable pub dump_entries : Table Text DebugInfo → Faults → List Text
unfolding tags dump_descs
dump_entries event_info [] = []
dump_entries event_info (((first, second), descs) ∷ faults) =
    (codes "* Event: "
        ++ first
        ++ codes " (tags:"
        ++ tags (get_value first event_info)
        ++ codes ") and Event: "
        ++ second
        ++ codes " (tags:"
        ++ tags (get_value second event_info)
        ++ codes "):")
      ∷ dump_descs descs
    ++ dump_entries event_info faults

-- The messages of `DumpFaults`, none where there is no fault.
unfoldable pub dump_faults : RaceState → List Text
unfolding dump_entries
dump_faults st = elim st.faults [
  | [] ↦ []
  | _ ∷ _ ↦
      codes "Detected Data Races"
      ∷ codes "-------------------"
      ∷ (codes "Number of data races: " ++ to_string (length st.faults))
      ∷ dump_entries st.event_info st.faults
]

-- `Detect`: the messages, and the detector as it is left.
unfoldable pub detect : DepGraph → EffectTable → RaceState → Result (List Text × RaceState)
unfolding get_faults dump_faults
detect g accesses st = get_faults g accesses st >>= λ st'. ok (dump_faults st', st')
