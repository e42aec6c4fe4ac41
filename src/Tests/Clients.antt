-- ===== src/Tests/Clients.antt =====
-- A program under the client: two asynchronous operations of libuv open the same file for writing.
use fsracer.Prelude.{
  ℕ, ◌+◌, ◌≡◌, refl, ◌↔◌, Bool, true, false, Option, none, some, List, [], ◌∷◌, ◌++◌, Text, codes,
  text_ord, pair_ord, map, zero, suc, Result, ok, fail, pos,
}
use fsracer.Utils.{get_2_combinations}
use fsracer.Dependency.{initial}
use fsracer.Dependency.Blocks
use fsracer.FsAnalyzer.{FsState, new_state}
use fsracer.FsAnalyzer.Blocks as FsBlocks
use fsracer.Generator.{GenState, Reply, done, exited, crashed, new_generator, has_failed, Module}
use fsracer.Generator.Emit.{Call}
use fsracer.Node.{get_exec_op}
use fsracer.Node.Hooks.{wrap_pre_start, wrap_pre_emit_init}
use fsracer.Node.Submit.{wrap_pre_uv_fs_open, wrap_pre_uv_fs_stat}
use fsracer.Node.Syscalls.{wrap_pre_uv_fs_work, wrap_pre_open, wrap_post_open, wrap_post_uv_fs_work}
use fsracer.Node.Wrappers.{Moment, begins, returns, collect}
use fsracer.Node.Sound.{Ends, IsSound}
use fsracer.Node.Sound.Collect.{collect-IsSound}
use fsracer.Client.{Client, Sight, loads, calls, process_args, watch_all, run_client}
use fsracer.Client.Whole.{run_client-races, run_client-exited}
use fsracer.Processor.{CliArgs, is_some}
use fsracer.Race.{RaceState}
use fsracer.Race.Faults.{Any, reported, RaceAt}
use fsracer.Tests.Runs
use fsracer.Tests.Runs.{info, args}

abbrev pub numbers : ℕ → ℕ → ℕ → ℕ → ℕ
numbers at_first second rest zero = at_first
numbers at_first second rest (suc zero) = second
numbers at_first second rest (suc (suc _)) = rest

abbrev pub call : ℕ → (ℕ → ℕ) → ℕ → Call
call thread num_arg async_id = record {
  thread_id = thread;
  func = 4096;
  path_arg = λ _. codes "/home/f";
  num_arg = num_arg;
  async_id = async_id;
  trigger_async_id = 1;
  result = pos 3;
}

-- The main thread creates an event and submits its operation for a request.
abbrev submits : ℕ → ℕ → List Moment
submits async_id request =
    begins (codes "node::AsyncWrap::EmitAsyncInit") (call 1 (numbers 0 0 0) async_id)
    ∷ begins (codes "uv_fs_open") (call 1 (numbers 0 request 1) 0)
    ∷ []

-- A worker thread opens the file.
abbrev works : ℕ → ℕ → List Moment
works thread request =
    let work : Call = call thread (numbers (request + 336) 1 0) 0 in
    begins (codes "uv__fs_work") work
    ∷ begins (codes "open") work
    ∷ returns (codes "open") work
    ∷ returns (codes "uv__fs_work") work
    ∷ []

abbrev moments : List Moment
moments =
    begins (codes "node::Start") (call 1 (numbers 0 0 0) 0) ∷ submits 5 1000
    ++ (submits 6 2000 ++ (works 2 1000 ++ works 3 2000))

abbrev node : Module
node = record { get_pc_by_symbol = λ _. some 4096; wrap = λ _. true }

abbrev sights : List Sight
sights = loads node 7 (codes "/home") ∷ map calls moments

collect-IsSound_example : Ends IsSound (collect moments new_generator)
collect-IsSound_example = collect-IsSound moments

unfoldable pub program : Unit {0}
unfolding Runs.program process_args watch_all run_client collect wrap_pre_start wrap_pre_emit_init
    wrap_pre_uv_fs_open wrap_pre_uv_fs_work wrap_pre_open wrap_post_open wrap_post_uv_fs_work
    get_exec_op
program = tt

abbrev no_client : Client
no_client = record { trace_gen = none; module_loaded = false }

abbrev client_of : Option (CliArgs × Client) → Client
client_of none = no_client
client_of (some (_, client)) = client

abbrev start : Client
start = client_of (process_args info (codes "node"))

abbrev reached : Reply Client → Client
reached (done client) = client
reached (exited _) = no_client
reached (crashed _) = no_client

abbrev is_done : Reply Client → Bool
is_done (done _) = true
is_done (exited _) = false
is_done (crashed _) = false

abbrev is_ok : Result FsState → Bool
is_ok (ok _) = true
is_ok (fail _) = false

abbrev last : Client
last = reached (watch_all sights start)

abbrev generator_of : Option GenState → GenState
generator_of none = new_generator
generator_of (some st) = st

abbrev gen : GenState
gen = generator_of last.trace_gen

abbrev accesses : FsState
accesses = Runs.state_of (FsBlocks.analyze gen.trace new_state)

reached-done : (r : Reply Client) → is_done r ≡ true → r ≡ done (reached r)
reached-done (done client) e = refl
reached-done (exited _) e = absurd (cc e)
reached-done (crashed _) e = absurd (cc e)

generator_of-some : (o : Option GenState) → is_some o ≡ true → o ≡ some (generator_of o)
generator_of-some none e = absurd (cc e)
generator_of-some (some st) e = refl

state_of-ok : (r : Result FsState) → is_ok r ≡ true → r ≡ ok (Runs.state_of r)
state_of-ok (ok st) e = refl
state_of-ok (fail _) e = absurd (cc e)

options : process_args info (codes "node") ≡ some (args, start)
unfolding program
options = refl

watched : watch_all sights start ≡ done last
unfolding program
watched = reached-done (watch_all sights start) refl

generated : last.trace_gen ≡ some gen
unfolding program
generated = generator_of-some last.trace_gen refl

analyzed : FsBlocks.analyze gen.trace new_state ≡ ok accesses
unfolding program
analyzed = state_of-ok (FsBlocks.analyze gen.trace new_state) refl

run_client-races_example :
    (after : RaceState) × (run_client args 7 sights start ≡ ok (some after))
    × ((pair : Text × Text) (p : Text)
        → (reported pair p after.faults ≡ true)
          ↔ Any
              (λ (q, found).
                Any
                  (RaceAt (Blocks.analyze_trace gen.trace initial).dep_graph pair p q)
                  (get_2_combinations found))
              accesses.effect_table)
run_client-races_example =
    run_client-races info args 7 sights start last gen accesses refl refl options watched generated
      analyzed

abbrev races : Text → Text → Result (Option RaceState) → Bool
races a b (ok (some st)) = reported (a, b) (codes "/home/f") st.faults
races a b _ = false

-- The two operations race.
run_client_found : races (codes "5") (codes "6") (run_client args 7 sights start) ≡ true
unfolding program
run_client_found = refl

-- A file operation before there is a block.
abbrev early : List Sight
early =
    loads node 7 (codes "/home")
    ∷ calls (begins (codes "uv_fs_stat") (call 1 (numbers 0 0 0) 0))
    ∷ []

abbrev left : Reply Client → GenState
left (done _) = new_generator
left (exited st) = st
left (crashed _) = new_generator

abbrev is_exited : Reply Client → Bool
is_exited (done _) = false
is_exited (exited _) = true
is_exited (crashed _) = false

left-exited : (r : Reply Client) → is_exited r ≡ true → r ≡ exited (left r)
left-exited (done _) e = absurd (cc e)
left-exited (exited st) e = refl
left-exited (crashed _) e = absurd (cc e)

aborted : watch_all early start ≡ exited (left (watch_all early start))
unfolding program wrap_pre_uv_fs_stat
aborted = left-exited (watch_all early start) refl

run_client-exited_example :
    (has_failed (left (watch_all early start)) ≡ true) × (run_client args 7 early start ≡ ok none)
run_client-exited_example =
    run_client-exited info args 7 early start (left (watch_all early start)) options aborted
