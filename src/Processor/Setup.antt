-- ===== src/Processor/Setup.antt =====
-- tools/fsracer/main.cpp, and what a run with the race detector sets up.
use fsracer.Prelude.{
  ◌≡◌, refl, Bool, ◌&&◌, Option, none, some, List, [], ◌∷◌, ◌++◌, Text, codes, text_ord, same, ok,
  if◌then◌else◌, Bool-cases, inl, inr, ℕ,
}
use fsracer.Table.{Table, add_entry}
use fsracer.Processor.{
  CliArgs, Analyzer, dep_infer, fs, RaceDetector, Slot, OutWriter, is_some, dumps_trace,
  get_graph_format, get_fs_out_format, init_out, new_analyzer, new_analyzers, init_analyzers,
  init_fault_detector, setup, nth,
}

-- The options of the command line: each is `none` where it is not given.
pub record ArgsInfo : Type 0 where
  pub dump_trace_given : Bool
  pub output_trace_arg : Option Text
  pub dump_dep_graph_given : Bool
  pub output_dep_graph_arg : Option Text
  pub dump_fs_accesses_given : Bool
  pub output_fs_accesses_arg : Option Text
  pub analyzer_arg : List Text
  pub fault_detector_arg : Option Text
  pub dep_graph_format_arg : Option Text
  pub fs_accesses_format_arg : Option Text

abbrev pub add_option : Text → Option Text → Table Text Text → Table Text Text
add_option key none options = options
add_option key (some val) options = add_entry key val options

abbrev pub flag : Bool → Option Text
flag given = if given then some (codes "true") else none

abbrev pub detector_analyzers : Option Text → List Text
detector_analyzers none = []
detector_analyzers (some name) =
    if same name (codes "race") then codes "dep-infer" ∷ codes "fs" ∷ [] else []

-- `process_args`, whose two calls of `exit` are `none`. The field `dump_trace` has no value before the
-- option is given; here it is false then.
unfoldable pub process_args : ArgsInfo → Option CliArgs
process_args info =
    if info.dump_trace_given && is_some info.output_trace_arg
    then none
    else if info.dump_dep_graph_given && is_some info.output_dep_graph_arg
    then none
    else some (record {
      analyzers = info.analyzer_arg ++ detector_analyzers info.fault_detector_arg;
      fault_detector = info.fault_detector_arg;
      cli_options = add_option (codes "output-fs_accesses") info.output_fs_accesses_arg (
          add_option (codes "stdout-fs_accesses") (flag info.dump_fs_accesses_given) (
            add_option (codes "output-dep_graph") info.output_dep_graph_arg (
              add_option (codes "stdout-dep_graph") (flag info.dump_dep_graph_given) (
                add_option (codes "fs_accesses_format") info.fs_accesses_format_arg
                  (add_option (codes "dep_graph_format") info.dep_graph_format_arg [])))));
      dump_trace = info.dump_trace_given;
      output_trace = info.output_trace_arg;
    })

-- The analyzer stands at the position.
abbrev pub IsAt : ℕ → Analyzer → List Slot → Type 0
IsAt i analyzer slots = (out : Option OutWriter) × (nth i slots ≡ ok (some analyzer, out))

abbrev race_analyzers : List Text
race_analyzers = codes "dep-infer" ∷ codes "fs" ∷ []

pub process_args_fields :
    (info : ArgsInfo) (args : CliArgs)
    → process_args info ≡ some args
    → (args.analyzers ≡ info.analyzer_arg ++ detector_analyzers info.fault_detector_arg)
      × (args.fault_detector ≡ info.fault_detector_arg)
unfolding process_args
process_args_fields info args e =
    elim (Bool-cases (info.dump_trace_given && is_some info.output_trace_arg)) [
      | inl both ↦ let e' : none ≡ some args = rw (process_args, both) at e in cc
      | inr fine ↦
          elim (Bool-cases (info.dump_dep_graph_given && is_some info.output_dep_graph_arg)) [
            | inl both ↦ let e' : none ≡ some args = rw (process_args, fine, both) at e in cc
            | inr fine' ↦ let e' = rw (process_args, fine, fine') at e in (cc, cc)
          ]
    ]

-- Every pointer to an analyzer is set.
abbrev pub AllSet : List Slot → Type 0
AllSet [] = Unit
AllSet ((pointer, _) ∷ slots) = ((analyzer : Analyzer) × (pointer ≡ some analyzer)) × AllSet slots

pub setup_race :
    (args : CliArgs) (pid : Option ℕ)
    → args.analyzers ≡ race_analyzers
    → args.fault_detector ≡ some (codes "race")
    → (analyzers : List Slot) × (detector : RaceDetector) × (setup args pid
        ≡ ok (analyzers, some detector))
      × IsAt detector.dep_analyzer (dep_infer (get_graph_format args)) analyzers
      × IsAt detector.fs_analyzer (fs (get_fs_out_format args)) analyzers
      × AllSet analyzers
unfolding setup init_analyzers init_fault_detector new_analyzers new_analyzer
setup_race args pid names race = elim (Bool-cases (dumps_trace args)) [
  | inl dumps ↦ (
    init_analyzers args pid,
    record { dep_analyzer = 1; fs_analyzer = 2 },
    rw (setup, init_fault_detector, init_analyzers, race, names, dumps) refl,
    (init_out (codes "dep_graph") args pid, rw (init_analyzers, names, dumps) refl),
    (init_out (codes "fs_accesses") args pid, rw (init_analyzers, names, dumps) refl),
    rw (init_analyzers, names, dumps) ((_, refl), ((_, refl), ((_, refl), tt))),
  )
  | inr silent ↦ (
    init_analyzers args pid,
    record { dep_analyzer = 0; fs_analyzer = 1 },
    rw (setup, init_fault_detector, init_analyzers, race, names, silent) refl,
    (init_out (codes "dep_graph") args pid, rw (init_analyzers, names, silent) refl),
    (init_out (codes "fs_accesses") args pid, rw (init_analyzers, names, silent) refl),
    rw (init_analyzers, names, silent) ((_, refl), ((_, refl), tt)),
  )
]

-- With the race detector and no analyzer named, which the modes of the command line keep apart,
-- whatever the other options are, `Setup` returns and the detector refers to an analyzer of the
-- dependencies and to one of the file accesses, as its casts take for granted.
setup-process_args :
    (info : ArgsInfo) (args : CliArgs) (pid : Option ℕ)
    → info.analyzer_arg ≡ []
    → info.fault_detector_arg ≡ some (codes "race")
    → process_args info ≡ some args
    → (analyzers : List Slot) × (detector : RaceDetector) × (setup args pid
        ≡ ok (analyzers, some detector))
      × IsAt detector.dep_analyzer (dep_infer (get_graph_format args)) analyzers
      × IsAt detector.fs_analyzer (fs (get_fs_out_format args)) analyzers
setup-process_args info args pid no_names race e =
    let (names, detector) = process_args_fields info args e in
    let (slots, d, e', dep, accesses, _) =
      setup_race args pid (rw (no_names, race) at names) (rw race at detector) in
    (slots, d, e', dep, accesses)
