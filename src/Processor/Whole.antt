-- ===== src/Processor/Whole.antt =====
-- A run of the tool with the race detector, from the command line to the races.
use fsracer.Prelude.{
  ℕ, zero, suc, ◌≡◌, refl, sym, subst, ◌↔◌, true, Option, some, List, [], ◌∷◌, Text, codes,
  text_ord, ok,
}
use fsracer.Utils.{get_2_combinations}
use fsracer.Trace.{Trace}
use fsracer.DumpAnalyzer.{new_dump, dump_trace}
use fsracer.Dependency.{initial}
use fsracer.Dependency.Blocks
use fsracer.Dependency.Links.{BlocksLinked}
use fsracer.FilePath.{is_absolute, path_of_text}
use fsracer.FsAnalyzer.Known.{SafeExecs, SafeBlocks}
use fsracer.FsAnalyzer.Total.{analyze-returns}
use fsracer.FsAnalyzer.{FsState, new_state}
use fsracer.FsAnalyzer.Blocks as FsBlocks
use fsracer.Race.{RaceState}
use fsracer.Race.Faults.{Any, reported, RaceAt}
use fsracer.Race.Whole.{get_faults-analyze_trace}
use fsracer.Processor.{CliArgs, Analyzer, dump_analyzer, dep_infer, fs, Slot, nth}
use fsracer.Processor.Setup.{ArgsInfo, process_args, process_args_fields, setup_race, AllSet}
use fsracer.Processor.Pipeline.{
  Analysis, dumped, inferred, accessed, run_analyzer, analyze_traces, detect_faults, run,
}

module _ (t : Trace) (st : FsState) (analyzed : FsBlocks.analyze t new_state ≡ ok st) where
  run_analyzer-ok :
      (a : Analyzer) (slot : Slot) → slot.0 ≡ some a → (r : Analysis) × (run_analyzer t slot ≡ ok r)
  unfolding run_analyzer
  run_analyzer-ok dump_analyzer slot e = (dumped (dump_trace t new_dump), rw (run_analyzer, e) refl)
  run_analyzer-ok (dep_infer f) slot e =
      (inferred (Blocks.analyze_trace t initial), rw (run_analyzer, e) refl)
  run_analyzer-ok (fs f) slot e = (accessed st, rw (run_analyzer, e, analyzed) refl)

  analyze_traces-ok :
      (slots : List Slot)
      → AllSet slots
      → (rs : List Analysis) × (analyze_traces t slots ≡ ok rs)
        × ((i : ℕ) (slot : Slot) (r : Analysis)
            → nth i slots ≡ ok slot
            → run_analyzer t slot ≡ ok r
            → nth i rs ≡ ok r)
  unfolding analyze_traces
  analyze_traces-ok [] all = ([], refl, λ i slot r e. cc)
  analyze_traces-ok (slot ∷ slots) ((a, set), all) =
      let (r, e) = run_analyzer-ok a slot set in
      let (rs, e', at) = analyze_traces-ok slots all in
      (r ∷ rs, rw (e, e') refl, λ i s q. go r rs e at i s q)
    where
      go :
          (r : Analysis) (rs : List Analysis)
          → run_analyzer t slot ≡ ok r
          → ((i : ℕ) (s : Slot) (q : Analysis)
              → nth i slots ≡ ok s
              → run_analyzer t s ≡ ok q
              → nth i rs ≡ ok q)
          → (i : ℕ) (s : Slot) (q : Analysis) → nth i (slot ∷ slots) ≡ ok s
          → run_analyzer t s ≡ ok q
          → nth i (r ∷ rs) ≡ ok q
      go r rs e at zero s q here f =
          let one : slot ≡ s = cc in
          let f' : run_analyzer t slot ≡ ok q = subst (λ x. run_analyzer t x ≡ ok q) (sym one) f in
          cc
      go r rs e at (suc i) s q there f = at i s q there f

-- A run with the race detector, with no analyzer named and whatever the other options are, on a trace
-- whose links lead to events that were created and whose file accesses are analyzed without a fault:
-- it returns, and the faults of the detector name a path for two events exactly where two of those
-- accesses are a race in the graph of the trace.
pub run-races :
    (info : ArgsInfo) (args : CliArgs) (pid : Option ℕ) (t : Trace) (st : FsState)
    → info.analyzer_arg ≡ []
    → info.fault_detector_arg ≡ some (codes "race")
    → process_args info ≡ some args
    → BlocksLinked t.blocks initial
    → FsBlocks.analyze t new_state ≡ ok st
    → (after : RaceState) × (run args pid t ≡ ok (some after))
      × ((pair : Text × Text) (p : Text)
          → (reported pair p after.faults ≡ true)
            ↔ Any
                (λ (q, accesses).
                  Any
                    (RaceAt (Blocks.analyze_trace t initial).dep_graph pair p q)
                    (get_2_combinations accesses))
                st.effect_table)
unfolding run detect_faults run_analyzer
run-races info args pid t st no_names race e links analyzed =
    let (names, detector) = process_args_fields info args e in
    let (slots, d, ready, (out, dep), (out', accesses), all) =
      setup_race args pid (rw (no_names, race) at names) (rw race at detector) in
    let (rs, analyses, at) = analyze_traces-ok t st analyzed slots all in
    let (after, returns, exact) = get_faults-analyze_trace t st.effect_table links in
    let graph = at d.dep_analyzer _ (inferred (Blocks.analyze_trace t initial)) dep refl in
    let table = at d.fs_analyzer _ (accessed st) accesses (rw analyzed refl) in
    (after, rw (ready, analyses) (rw (graph, table, returns) refl), exact)

-- A run with the race detector and with no analyzer named returns without a fault on every trace whose
-- links lead to events that were created, whose working directory is absolute, whose operations are
-- safe for the file analyzer, and whose `submitOp`s are of main events or stand after the creation of
-- their event. Safe is what neither removes or renames a file, makes a hard link or closes a
-- descriptor, nor names a path that is relative, nor opens a descriptor of the root.
pub run-returns :
    (info : ArgsInfo) (args : CliArgs) (pid : Option ℕ) (t : Trace)
    → info.analyzer_arg ≡ []
    → info.fault_detector_arg ≡ some (codes "race")
    → process_args info ≡ some args
    → BlocksLinked t.blocks initial
    → is_absolute (path_of_text t.cwd) ≡ true
    → SafeExecs t.exec_ops
    → SafeBlocks t.blocks []
    → (after : RaceState) × (run args pid t ≡ ok (some after))
run-returns info args pid t no_names race e links absolute execs blocks =
    let (st, analyzed) = analyze-returns t absolute execs blocks in
    let (after, returns, _) = run-races info args pid t st no_names race e links analyzed in
    (after, returns)
