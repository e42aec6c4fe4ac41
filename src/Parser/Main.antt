-- ===== src/Parser/Main.antt =====
-- tools/fsracer/main.cpp: the tool, with the driver of tools/fsracer/TraceGeneratorDriver.cpp that gives the lexer and
-- the parser the text of a file.
use fsracer.Prelude.{
  ◌≡◌, ap, ◌∙◌, Option, none, some, Text, Result, ok, fail, out_of_range, Fault, syntax_error,
}
use fsracer.Trace.{Trace}
use fsracer.DumpAnalyzer.{new_dump, dump_trace, dump_output}
use fsracer.Race.{RaceState}
use fsracer.Processor.{CliArgs}
use fsracer.Processor.Setup.{ArgsInfo, process_args}
use fsracer.Processor.Pipeline.{run}
use fsracer.Parser.Program.{parse}
use fsracer.Parser.Marks.{IsInt}
use fsracer.Parser.RoundTrip.{
  kept, BothOrNeither, IsPrintableTrace, parse-dump_output, parse-too_large, parse-one_sided,
}

-- How the tool ends: `main` returns, it calls `exit` with a message, or an exception or an assertion ends it.
pub data Ending (A : Type 0) : Type 0 where
  done : A → Ending A
  exited : Ending A
  crashed : Fault → Ending A

-- A fault of the parser: an error that it adds, or the exception of a number.
abbrev pub ending_of : {A : Type 0} → Result A → Ending A
ending_of (ok a) = done a
ending_of (fail fault) = crashed fault

abbrev pub parsed : Result Trace → Ending Trace
parsed (fail syntax_error) = exited
parsed r = ending_of r

-- `Start`, on the text of the file, if it is there, and the check of `HasFailed` behind it.
unfoldable pub start : Option Text → Ending Trace
unfolding parse
start none = exited
start (some str) = parsed (parse str)

-- `Setup`, `AnalyzeTraces` and `DetectFaults`, on a trace that is there.
abbrev run_on : CliArgs → Ending Trace → Ending (Option RaceState)
run_on args (done t) = ending_of (run args none t)
run_on args exited = exited
run_on args (crashed fault) = crashed fault

abbrev with_args : Option Text → Option CliArgs → Ending (Option RaceState)
with_args file none = exited
with_args file (some args) = run_on args (start file)

unfoldable pub main : ArgsInfo → Option Text → Ending (Option RaceState)
unfolding process_args start run
main info file = with_args file (process_args info)

-- On the dump of a trace that a file can hold, which has both operations and blocks or neither and a process of
-- 31 bits, the tool ends as the analysis and the detection of this trace without its main blocks that have no
-- expressions.
pub main-dump_output :
    (info : ArgsInfo) (args : CliArgs) (t : Trace)
    → process_args info ≡ some args
    → IsPrintableTrace t
    → BothOrNeither t.exec_ops (kept t.blocks)
    → IsInt t.thread_id
    → main info (some (dump_output (dump_trace t new_dump)))
      ≡ ending_of (run args none (record t { blocks = kept t.blocks }))
unfolding main start
main-dump_output info args t e h both fits =
    ap (with_args (some (dump_output (dump_trace t new_dump)))) e
    ∙ ap (λ r. run_on args (parsed r)) (parse-dump_output t h both fits)

-- On the dump of a trace that a file can hold, but for a process of more than 31 bits, the exception of its
-- number ends the tool. The trace has both operations and blocks or neither.
pub main-too_large :
    (info : ArgsInfo) (args : CliArgs) (t : Trace)
    → process_args info ≡ some args
    → IsPrintableTrace t
    → BothOrNeither t.exec_ops (kept t.blocks)
    → ¬ IsInt t.thread_id
    → main info (some (dump_output (dump_trace t new_dump))) ≡ crashed out_of_range
unfolding main start
main-too_large info args t e h both large =
    ap (with_args (some (dump_output (dump_trace t new_dump)))) e
    ∙ ap (λ r. run_on args (parsed r)) (parse-too_large t h both large)

-- On the dump of a trace that has operations alone or blocks alone, the tool exits with an error, whatever the
-- process is. The names, paths and numbers of the trace are those that a file can hold.
pub main-one_sided :
    (info : ArgsInfo) (args : CliArgs) (t : Trace)
    → process_args info ≡ some args
    → IsPrintableTrace t
    → ¬ BothOrNeither t.exec_ops (kept t.blocks)
    → main info (some (dump_output (dump_trace t new_dump))) ≡ exited
unfolding main start
main-one_sided info args t e h one =
    ap (with_args (some (dump_output (dump_trace t new_dump)))) e
    ∙ ap (λ r. run_on args (parsed r)) (parse-one_sided t h one)
