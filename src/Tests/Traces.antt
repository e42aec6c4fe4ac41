-- ===== src/Tests/Traces.antt =====
-- Traces that the analyzers take to their end: an event opens, links and writes files by their paths.
use fsracer.Prelude.{◌≡◌, refl, none, some, List, [], ◌∷◌, codes, text_ord, nat_ord, ok, pos}
use fsracer.Operation.{
  Operation, consumed, produced, hpath, hpath_sym, new_fd, symlink, nop, at_fdcwd, make_operation,
}
use fsracer.Trace.{Trace, new_event, submit_async}
use fsracer.Dependency.{initial}
use fsracer.Dependency.Links.{BlocksLinked}
use fsracer.FsAnalyzer.{FsState, new_state}
use fsracer.FsAnalyzer.Blocks as FsBlocks
use fsracer.FsAnalyzer.Known.{SafeExecs, SafeBlocks}
use fsracer.FsAnalyzer.Total.{analyze-returns}
use fsracer.Race.{RaceState}
use fsracer.Processor.Pipeline.{run}
use fsracer.Processor.Whole.{run-returns}
use fsracer.Tests.Graphs.{weak}
use fsracer.Tests.Analyses
use fsracer.Tests.Runs
use fsracer.Tests.Runs.{info, args}

abbrev operations : List Operation
operations =
    make_operation (new_fd at_fdcwd (codes "/home/f") (pos 3))
    ∷ make_operation (hpath at_fdcwd (codes "/home/f") produced)
    ∷ make_operation (symlink at_fdcwd (codes "/home/g") (codes "/home/f"))
    ∷ make_operation (hpath at_fdcwd (codes "/home/g") consumed)
    ∷ make_operation (hpath_sym at_fdcwd (codes "/home/g") consumed)
    ∷ make_operation nop
    ∷ []

abbrev writing : Trace
writing = record (Analyses.trace_of (new_event 2 weak ∷ submit_async (codes "w_2") 2 ∷ [])) {
  exec_ops = record { id = codes "w_2"; operations = operations } ∷ [];
}

writing-linked : BlocksLinked writing.blocks initial
writing-linked = ((tt, (tt, tt)), (tt, (tt, tt)))

writing-safe : SafeExecs writing.exec_ops
unfolding Runs.program
writing-safe =
    (((refl, cc), ((refl, λ e. cc), (refl, ((refl, λ e. cc), ((refl, λ e. cc), (tt, tt)))))), tt)

writing-known : SafeBlocks writing.blocks []
unfolding Runs.program
writing-known = ((tt, (refl, tt)), (tt, (tt, tt)))

analyze-returns_example : (st : FsState) × (FsBlocks.analyze writing new_state ≡ ok st)
unfolding Runs.program
analyze-returns_example = analyze-returns writing refl writing-safe writing-known

run-returns_example : (after : RaceState) × (run args none writing ≡ ok (some after))
unfolding Runs.program
run-returns_example =
    run-returns info args none writing refl refl refl writing-linked refl writing-safe writing-known
