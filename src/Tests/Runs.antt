-- ===== src/Tests/Runs.antt =====
-- Runs of the tool: two events write and read the same file.
use fsracer.Prelude.{
  ◌≡◌, refl, ◌↔◌, Bool, true, false, Option, none, some, [], ◌∷◌, Text, codes, text_ord, pair_ord,
  Result, ok, fail,
}
use fsracer.Utils.{get_2_combinations, starts_with, find_text, get_right_substr}
use fsracer.Operation.{EffectType, consumed, produced, hpath, at_fdcwd, make_operation}
use fsracer.Trace.{Trace, ExecOp, new_event, submit_async}
use fsracer.Dependency.{initial}
use fsracer.Dependency.Blocks
use fsracer.Dependency.Links.{BlocksLinked}
use fsracer.FsAnalyzer.{FsState, new_state, get_absolute_path, get_parent_dir, unlink_resource}
use fsracer.FsAnalyzer.Operations.{
  analyze_hpath, process_path_effect, analyze_operation, analyze_operations,
}
use fsracer.FsAnalyzer.Blocks as FsBlocks
use fsracer.FsAnalyzer.Blocks.{analyze_submit_op, analyze_expr, analyze_exec_ops, collect}
use fsracer.Race.{RaceState}
use fsracer.Race.Faults.{Any, reported, RaceAt}
use fsracer.Processor.{CliArgs}
use fsracer.Processor.Setup.{ArgsInfo, process_args}
use fsracer.Processor.Pipeline.{run, run_analyzer, analyze_traces, detect_faults}
use fsracer.Processor.Whole.{run-races}
use fsracer.Tests.Graphs.{weak}
use fsracer.Tests.Analyses
use fsracer.Tests.Analyses.{free, linked, free-linked}
use fsracer.Tests.Races
use fsracer.Tests.Files

-- With the race detector alone.
abbrev pub info : ArgsInfo
info = record {
  dump_trace_given = false;
  output_trace_arg = none;
  dump_dep_graph_given = true;
  output_dep_graph_arg = none;
  dump_fs_accesses_given = false;
  output_fs_accesses_arg = none;
  analyzer_arg = [];
  fault_detector_arg = some (codes "race");
  dep_graph_format_arg = none;
  fs_accesses_format_arg = some (codes "csv");
}

abbrev to_args : Option CliArgs → CliArgs
to_args (some args) = args
to_args none = record {
  analyzers = [];
  fault_detector = none;
  cli_options = [];
  dump_trace = false;
  output_trace = none;
}

abbrev pub args : CliArgs
args = to_args (process_args info)

unfoldable pub program : Unit {0}
unfolding Races.program Files.program Analyses.program process_args starts_with find_text
    get_right_substr get_absolute_path get_parent_dir unlink_resource process_path_effect
    analyze_hpath analyze_operation analyze_operations analyze_submit_op analyze_expr
    FsBlocks.analyze_new_event FsBlocks.analyze_exprs FsBlocks.analyze_block FsBlocks.analyze_blocks
    FsBlocks.analyze_trace FsBlocks.analyze analyze_exec_ops collect
program = tt

-- The events "2" and "3" write and read a file.
abbrev racing : Trace
racing =
    record (Analyses.trace_of (
      new_event 2 weak
      ∷ new_event 3 Analyses.weaker
      ∷ submit_async (codes "w_2") 2
      ∷ submit_async (codes "r_3") 3
      ∷ [])) { exec_ops = op (codes "w_2") produced ∷ op (codes "r_3") consumed ∷ [] }
  where
    op : Text → EffectType → ExecOp
    op id effect = record {
      id = id;
      operations = make_operation (hpath at_fdcwd (codes "f") effect) ∷ [];
    }

abbrev pub state_of : Result FsState → FsState
state_of (ok st) = st
state_of (fail _) = new_state

abbrev accesses : FsState
accesses = state_of (FsBlocks.analyze racing new_state)

racing-linked : BlocksLinked racing.blocks initial
racing-linked = ((tt, (tt, (tt, (tt, tt)))), (tt, (tt, tt)))

run-races_example :
    (after : RaceState) × (run args none racing ≡ ok (some after))
    × ((pair : Text × Text) (p : Text)
        → (reported pair p after.faults ≡ true)
          ↔ Any
              (λ (q, accesses).
                Any
                  (RaceAt (Blocks.analyze_trace racing initial).dep_graph pair p q)
                  (get_2_combinations accesses))
              accesses.effect_table)
unfolding program
run-races_example = run-races info args none racing accesses refl refl refl racing-linked refl

-- The write and the read are a race at the file below the working directory.
abbrev races_at : Text → Result (Option RaceState) → Bool
races_at p (ok (some st)) = reported (codes "2", codes "3") p st.faults
races_at p _ = false

run_found :
    (races_at (codes "/home/f") (run args none racing) ≡ true)
    × (races_at (codes "/home/g") (run args none racing) ≡ false)
unfolding program run analyze_traces run_analyzer detect_faults
run_found = (refl, refl)
