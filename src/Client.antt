-- ===== src/Client.antt =====
-- tools/drfsracer/drfsracer.cpp: the client that collects the trace of a program while it runs, and
-- analyzes it at the end.
pub mod Links
pub mod Whole
use fsracer.Prelude.{
  ℕ, Bool, true, false, Option, none, some, List, [], ◌∷◌, Text, codes, text_ord, same, map, Result,
  ok, fail, null_pointer, if◌then◌else◌,
}
use fsracer.Generator.{
  GenState, new_generator, setup, has_failed, Module, Reply, done, exited, crashed, ◌>>>◌,
}
use fsracer.Node.Wrappers.{get_wrappers, stop, Moment, step}
use fsracer.Processor.{CliArgs}
use fsracer.Processor.Setup as Options
use fsracer.Processor.Setup.{ArgsInfo}
use fsracer.Processor.Pipeline.{run}
use fsracer.Race.{RaceState}

-- The variables `trace_gen` and `module_loaded`.
pub record Client : Type 0 where
  pub trace_gen : Option GenState
  pub module_loaded : Bool

unfoldable pub init_trace_generator : Text → Option GenState
unfolding new_generator
init_trace_generator trace_gen_val =
    if same trace_gen_val (codes "node") then some new_generator else none

-- `process_args`, whose options are read as those of tools/fsracer/main.cpp.
unfoldable pub process_args : ArgsInfo → Text → Option (CliArgs × Client)
unfolding init_trace_generator Options.process_args
process_args info trace_generator_arg = elim (Options.process_args info) [
  | none ↦ none
  | some args ↦
      some (
        args,
        record { trace_gen = init_trace_generator trace_generator_arg; module_loaded = false },
      )
]

-- The process and its directory are those at the first module.
abbrev pub set_process : Bool → ℕ → Text → GenState → GenState
set_process true pid cwd st = st
set_process false pid cwd st = record st { trace = record st.trace { thread_id = pid; cwd = cwd } }

unfoldable pub module_load_event : Module → ℕ → Text → Client → Reply Client
unfolding setup get_wrappers
module_load_event m pid cwd client = elim client.trace_gen [
  | none ↦ crashed null_pointer
  | some st ↦ done (record {
    trace_gen =
        some (set_process client.module_loaded pid cwd (setup m (map (λ e. e.0) get_wrappers) st));
    module_loaded = true;
  })
]

-- What the client sees of the program.
pub data Sight : Type 0 where
  loads : Module → ℕ → Text → Sight
  calls : Moment → Sight

abbrev pub on_generator : (GenState → Reply GenState) → Client → Reply Client
on_generator f client = elim client.trace_gen [
  | none ↦ crashed null_pointer
  | some st ↦ f st >>> λ st'. done (record client { trace_gen = some st' })
]

unfoldable pub watch : Sight → Client → Reply Client
unfolding module_load_event step
watch (loads m pid cwd) client = module_load_event m pid cwd client
watch (calls moment) client = on_generator (step moment) client

unfoldable pub watch_all : List Sight → Client → Reply Client
unfolding watch
watch_all [] client = done client
watch_all (s ∷ ss) client = watch s client >>> watch_all ss

-- `event_exit`: a collection that has failed is not analyzed.
unfoldable pub event_exit : CliArgs → ℕ → Option GenState → Result (Option RaceState)
unfolding stop has_failed run
event_exit args pid none = ok none
event_exit args pid (some st) =
    let stopped = stop st in
    let analysis = run args (some pid) stopped.trace in
    if has_failed stopped then ok none else analysis

-- The exit event follows the end of the program and `dr_exit_process` alike.
abbrev pub at_exit : CliArgs → ℕ → Reply Client → Result (Option RaceState)
at_exit args pid (done client) = event_exit args pid client.trace_gen
at_exit args pid (exited st) = event_exit args pid (some st)
at_exit args pid (crashed fault) = fail fault

unfoldable pub run_client : CliArgs → ℕ → List Sight → Client → Result (Option RaceState)
unfolding watch_all event_exit
run_client args pid ss client = at_exit args pid (watch_all ss client)
