-- ===== src/Processor.antt =====
-- lib/Processor.h and lib/Processor.cpp: the analyzers and the detector that a run sets up. The
-- options come from tools/fsracer/main.cpp.
pub mod Pipeline
pub mod Setup
pub mod Whole
use fsracer.Prelude.{
  ℕ, Bool, true, false, ◌||◌, Option, none, some, List, [], ◌∷◌, ◌++◌, Text, codes, text_ord, same,
  Result, ok, fail, out_of_range, ◌>>=◌, if◌then◌else◌,
}
use fsracer.Utils.{to_string}
use fsracer.Graph.{GraphFormat}
use fsracer.FsAnalyzer.{OutFormat}
use fsracer.Table.{Table, add_entry, get_value}

pub record CliArgs : Type 0 where
  pub analyzers : List Text
  pub fault_detector : Option Text
  pub cli_options : Table Text Text
  pub dump_trace : Bool
  pub output_trace : Option Text

-- `OutWriter`: standard output or a file.
pub data OutWriter : Type 0 where
  write_stdout : OutWriter
  write_file : Text → OutWriter

-- The classes of the analyzers, with the arguments of their constructors.
pub data Analyzer : Type 0 where
  dump_analyzer : Analyzer
  dep_infer : GraphFormat → Analyzer
  fs : OutFormat → Analyzer

-- A null pointer to an analyzer or to a writer is `none`.
abbrev pub Slot : Type 0
Slot = Option Analyzer × Option OutWriter

abbrev pub is_some : {A : Type 0} → Option A → Bool
is_some none = false
is_some (some _) = true

unfoldable pub get_graph_format : CliArgs → GraphFormat
get_graph_format args = elim (get_value (codes "dep_graph_format") args.cli_options) [
  | none ↦ GraphFormat.dot
  | some val ↦ if same val (codes "dot") then GraphFormat.dot else GraphFormat.csv
]

unfoldable pub get_fs_out_format : CliArgs → OutFormat
get_fs_out_format args = elim (get_value (codes "fs_accesses_format") args.cli_options) [
  | none ↦ OutFormat.json
  | some val ↦ if same val (codes "json") then OutFormat.json else OutFormat.csv
]

-- `filename += std::to_string(pid.value())`
abbrev pub with_pid : Text → Option ℕ → Text
with_pid filename none = filename
with_pid filename (some pid) = filename ++ to_string pid

-- The macro `INIT_OUT`: the file wins over standard output.
unfoldable pub init_out : Text → CliArgs → Option ℕ → Option OutWriter
init_out key args pid = elim (get_value (codes "output-" ++ key) args.cli_options) [
  | some filename ↦ some (write_file (with_pid filename pid))
  | none ↦ elim (get_value (codes "stdout-" ++ key) args.cli_options) [
    | some _ ↦ some write_stdout
    | none ↦ none
  ]
]

abbrev pub dumps_trace : CliArgs → Bool
dumps_trace args = args.dump_trace || is_some args.output_trace

abbrev pub trace_out : CliArgs → Option ℕ → Option OutWriter
trace_out args pid = elim args.output_trace [
  | some filename ↦ some (write_file (with_pid filename pid))
  | none ↦ if args.dump_trace then some write_stdout else none
]

-- The analyzer of a name. Any other name leaves the pointer as the last round left it.
unfoldable pub new_analyzer : CliArgs → Option ℕ → Text → Option Analyzer → Slot
unfolding get_graph_format get_fs_out_format init_out
new_analyzer args pid name last =
    if same name (codes "dep-infer")
    then (some (dep_infer (get_graph_format args)), init_out (codes "dep_graph") args pid)
    else if same name (codes "fs")
    then (some (fs (get_fs_out_format args)), init_out (codes "fs_accesses") args pid)
    else (last, none)

unfoldable pub new_analyzers : CliArgs → Option ℕ → List Text → Option Analyzer → List Slot
unfolding new_analyzer
new_analyzers args pid [] last = []
new_analyzers args pid (name ∷ names) last =
    let slot = new_analyzer args pid name last in slot ∷ new_analyzers args pid names (slot.0)

unfoldable pub init_analyzers : CliArgs → Option ℕ → List Slot
unfolding new_analyzers
init_analyzers args pid =
    let rest = new_analyzers args pid args.analyzers none in
    if dumps_trace args then (some dump_analyzer, trace_out args pid) ∷ rest else rest

abbrev pub nth : {A : Type 0} → ℕ → List A → Result A
nth i [] = fail out_of_range
nth ℕ.zero (x ∷ xs) = ok x
nth (ℕ.suc i) (x ∷ xs) = nth i xs

-- What a race detector refers to: the positions of the analyzer that is cast to the one of the
-- dependencies, and of the one that is cast to the one of the file accesses.
pub record RaceDetector : Type 0 where
  pub dep_analyzer : ℕ
  pub fs_analyzer : ℕ

unfoldable pub init_fault_detector : CliArgs → List Slot → Result (Option RaceDetector)
init_fault_detector args analyzers = elim args.fault_detector [
  | none ↦ ok none
  | some name ↦
      if same name (codes "race")
      then (let offset = (if dumps_trace args then 1 else 0) in
          nth offset analyzers >>= λ _. nth (ℕ.suc offset) analyzers >>= λ _.
          ok (some (record { dep_analyzer = offset; fs_analyzer = ℕ.suc offset })))
      else ok none
]

-- `Setup`
unfoldable pub setup : CliArgs → Option ℕ → Result (List Slot × Option RaceDetector)
unfolding init_analyzers init_fault_detector
setup args pid =
    let analyzers = init_analyzers args pid in
    init_fault_detector args analyzers >>= λ detector. ok (analyzers, detector)
