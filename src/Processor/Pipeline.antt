-- ===== src/Processor/Pipeline.antt =====
-- lib/Processor.cpp: `AnalyzeTraces` and `DetectFaults`, and with them a run of the tool on a trace.
use fsracer.Prelude.{
  ℕ, Option, none, some, List, [], ◌∷◌, text_ord, Result, ok, fail, null_pointer, ◌>>=◌,
}
use fsracer.Trace.{Trace}
use fsracer.DumpAnalyzer.{DumpState, new_dump, dump_trace}
use fsracer.Dependency.{DepState, DepGraph, initial}
use fsracer.Dependency.Blocks
use fsracer.FsAnalyzer.{FsState, EffectTable, new_state}
use fsracer.FsAnalyzer.Blocks as FsBlocks
use fsracer.Race.{RaceState, new_detector, get_faults}
use fsracer.Processor.{CliArgs, dump_analyzer, dep_infer, fs, Slot, RaceDetector, nth, setup}

-- The state of an analyzer.
pub data Analysis : Type 0 where
  dumped : DumpState → Analysis
  inferred : DepState → Analysis
  accessed : FsState → Analysis

unfoldable pub run_analyzer : Trace → Slot → Result Analysis
unfolding dump_trace new_state
run_analyzer t slot = elim (slot.0) [
  | none ↦ fail null_pointer
  | some kind ↦ elim kind [
    | dump_analyzer ↦ ok (dumped (dump_trace t new_dump))
    | dep_infer _ ↦ ok (inferred (Blocks.analyze_trace t initial))
    | fs _ ↦ FsBlocks.analyze t new_state >>= λ st. ok (accessed st)
  ]
]

-- `AnalyzeTraces`: the analyzers run one after another.
unfoldable pub analyze_traces : Trace → List Slot → Result (List Analysis)
unfolding run_analyzer
analyze_traces t [] = ok []
analyze_traces t (slot ∷ slots) =
    let rest = analyze_traces t slots in
    run_analyzer t slot >>= λ first. rest >>= λ others. ok (first ∷ others)

-- The two `static_cast`s of a reference.
abbrev pub as_inferred : Analysis → Result DepGraph
as_inferred (inferred st) = ok st.dep_graph
as_inferred _ = fail null_pointer

abbrev pub as_accessed : Analysis → Result EffectTable
as_accessed (accessed st) = ok st.effect_table
as_accessed _ = fail null_pointer

-- `DetectFaults`
unfoldable pub detect_faults : List Analysis → Option RaceDetector → Result (Option RaceState)
detect_faults analyses none = ok none
detect_faults analyses (some detector) =
    (nth detector.dep_analyzer analyses >>= as_inferred) >>= λ g.
    (nth detector.fs_analyzer analyses >>= as_accessed) >>= λ table.
    get_faults g table new_detector >>= λ st. ok (some st)

-- The end of `main`.
unfoldable pub run : CliArgs → Option ℕ → Trace → Result (Option RaceState)
unfolding setup analyze_traces detect_faults
run args pid t = setup args pid >>= λ (analyzers, detector).
    analyze_traces t analyzers >>= λ analyses. detect_faults analyses detector
