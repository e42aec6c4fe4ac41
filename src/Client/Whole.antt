-- ===== src/Client/Whole.antt =====
-- From the calls of a program to the races of its files.
use fsracer.Prelude.{
  ℕ, ◌≡◌, refl, ap, subst, ◌∙◌, ◌↔◌, Bool, true, false, Option, none, some, List, [], ◌∷◌, Text,
  codes, text_ord, pair_ord, map, ok, Option-cases, inl, inr,
}
use fsracer.Collections.Map.{find}
use fsracer.Utils.{get_2_combinations, ptr_to_string}
use fsracer.Dependency.{initial}
use fsracer.Dependency.Blocks
use fsracer.FsAnalyzer.{FsState, new_state}
use fsracer.FsAnalyzer.Blocks as FsBlocks
use fsracer.Generator.{
  GenState, new_generator, setup, register_func, add_func, has_failed, pop_from_store, Module, done,
  exited,
}
use fsracer.Node.{promise_set, timer_set}
use fsracer.Node.Wrappers.{get_wrappers, stop, step}
use fsracer.Node.Sound.{IsSound, Ends, Ends-bind}
use fsracer.Node.Sound.Stores.{keep_blocks, pop_from_store-Popped}
use fsracer.Node.Sound.Collect.{step-Ends, new_generator-IsSound}
use fsracer.Processor.{CliArgs}
use fsracer.Processor.Setup.{ArgsInfo}
use fsracer.Processor.Setup as Options
use fsracer.Processor.Pipeline.{run}
use fsracer.Processor.Whole.{run-races}
use fsracer.Race.{RaceState}
use fsracer.Race.Faults.{Any, reported, RaceAt}
use fsracer.Client.{
  Client, Sight, loads, calls, set_process, module_load_event, on_generator, watch, watch_all,
  event_exit, at_exit, run_client, init_trace_generator, process_args,
}
use fsracer.Client.Links.{AllChained-BlocksLinked}

-- The client has a generator, which is sound.
abbrev pub HasSound : Client → Type 0
HasSound client = (st : GenState) × (client.trace_gen ≡ some st) × IsSound st

register_func-IsSound :
    (m : Module) (name : Text) (st : GenState) → IsSound st → IsSound (register_func m name st)
unfolding register_func add_func
register_func-IsSound m name st s = by_pc (m.get_pc_by_symbol name)
  where
    by_wrap :
        (pc : ℕ) (b : Bool)
        → IsSound (elim b [ false ↦ st | true ↦ add_func (ptr_to_string pc) name st ])
    by_wrap pc false = s
    by_wrap pc true =
        keep_blocks st (add_func (ptr_to_string pc) name st) s refl refl refl refl s.fits

    by_pc :
        (pc : Option ℕ)
        → IsSound (elim pc [
          | none ↦ st
          | some towrap ↦ elim (m.wrap towrap) [
            | false ↦ st
            | true ↦ add_func (ptr_to_string towrap) name st
          ]
        ])
    by_pc none = s
    by_pc (some pc) = by_wrap pc (m.wrap pc)

setup-IsSound :
    (m : Module) (names : List Text) (st : GenState) → IsSound st → IsSound (setup m names st)
unfolding setup
setup-IsSound m [] st s = s
setup-IsSound m (name ∷ names) st s =
    setup-IsSound m names (register_func m name st) (register_func-IsSound m name st s)

set_process-IsSound :
    (loaded : Bool) (pid : ℕ) (cwd : Text) (st : GenState)
    → IsSound st
    → IsSound (set_process loaded pid cwd st)
set_process-IsSound true pid cwd st s = s
set_process-IsSound false pid cwd st s =
    keep_blocks st (set_process false pid cwd st) s refl refl refl refl s.fits

watch-Ends : (s : Sight) (client : Client) → HasSound client → Ends HasSound (watch s client)
unfolding watch module_load_event
watch-Ends (loads m pid cwd) client (st, e, s) =
    let names : List Text = map (λ entry. entry.0) get_wrappers in
    rw (module_load_event, e)
      (
        set_process client.module_loaded pid cwd (setup m names st),
        refl,
        set_process-IsSound client.module_loaded pid cwd (setup m names st)
            (setup-IsSound m names st s),
      )
watch-Ends (calls moment) client (st, e, s) =
    rw (on_generator, e)
      (Ends-bind IsSound HasSound (step moment st)
        (λ st'. done (record client { trace_gen = some st' })) (step-Ends moment st s)
        (λ st' s'. (st', refl, s')))

watch_all-Ends :
    (ss : List Sight) (client : Client) → HasSound client → Ends HasSound (watch_all ss client)
unfolding watch_all
watch_all-Ends [] client h = h
watch_all-Ends (s ∷ ss) client h =
    Ends-bind HasSound HasSound (watch s client) (watch_all ss) (watch-Ends s client h)
      (watch_all-Ends ss)

-- What is known of a generator that was stopped.
stop-IsSound : (st : GenState) → IsSound st → IsSound (stop st) × ((stop st).trace ≡ st.trace)
unfolding stop
stop-IsSound st s =
    let p = pop_from_store-Popped promise_set st s in
    let q = pop_from_store-Popped timer_set (pop_from_store promise_set st).1 p.sound in
    (q.sound, q.trace ∙ p.trace)

pop-error : (key : Text) (st : GenState) → (pop_from_store key st).1.error ≡ st.error
unfolding pop_from_store
pop-error key st = elim (Option-cases (find key st.store)) [
  | inl absent ↦ rw (pop_from_store, absent) refl
  | inr (v, found) ↦ rw (pop_from_store, found) refl
]

has_failed-stop : (st : GenState) → has_failed st ≡ true → has_failed (stop st) ≡ true
unfolding stop has_failed
has_failed-stop st failed =
    rw (has_failed, pop-error timer_set (pop_from_store promise_set st).1, pop-error promise_set st)
      failed

event_exit-run :
    (args : CliArgs) (pid : ℕ) (st : GenState)
    → IsSound st
    → event_exit args pid (some st) ≡ run args (some pid) st.trace
unfolding event_exit has_failed
event_exit-run args pid st s =
    let (stopped, trace) = stop-IsSound st s in
    rw (event_exit, has_failed, stopped.unfailed) (ap (run args (some pid)) trace)

-- What the command line of a collection from Node sets up.
process_args-node :
    (info : ArgsInfo) (args : CliArgs) (client : Client)
    → process_args info (codes "node") ≡ some (args, client)
    → (Options.process_args info ≡ some args) × HasSound client
unfolding process_args init_trace_generator
process_args-node info args client e = elim (Option-cases (Options.process_args info)) [
  | inl refused ↦ let e' = rw (process_args, refused) at e in absurd (cc e')
  | inr (args', accepted) ↦
      let new : Client = record { trace_gen = some new_generator; module_loaded = false } in
      let e' = rw (process_args, accepted) at e in
      let same_args : args' ≡ args = cc in
      let same_client : new ≡ client = cc in
      (
        accepted ∙ ap some same_args,
        subst HasSound same_client (new_generator, refl, new_generator-IsSound),
      )
]

-- The client is run with the race detector, on Node, with no analyzer named and whatever the other options
-- are. When the program ends, whatever modules it has loaded and whatever functions it has called, and
-- the collection has not been ended by an error, and the file accesses of the trace are analyzed without a
-- fault, the detector returns. Its faults name a path for two events exactly where two of those
-- accesses are a race in the graph of the trace. Nothing is asked of the links of the trace.
pub run_client-races :
    (info : ArgsInfo) (args : CliArgs) (pid : ℕ) (ss : List Sight) (client last : Client)
    (gen : GenState) (st : FsState)
    → info.analyzer_arg ≡ []
    → info.fault_detector_arg ≡ some (codes "race")
    → process_args info (codes "node") ≡ some (args, client)
    → watch_all ss client ≡ done last
    → last.trace_gen ≡ some gen
    → FsBlocks.analyze gen.trace new_state ≡ ok st
    → (after : RaceState) × (run_client args pid ss client ≡ ok (some after))
      × ((pair : Text × Text) (p : Text)
          → (reported pair p after.faults ≡ true)
            ↔ Any
                (λ (q, accesses).
                  Any
                    (RaceAt (Blocks.analyze_trace gen.trace initial).dep_graph pair p q)
                    (get_2_combinations accesses))
                st.effect_table)
unfolding run_client
run_client-races info args pid ss client last gen st no_names race e watched has analyzed =
    let (options, sound) = process_args-node info args client e in
    let ends : Ends HasSound (done last) =
      subst (Ends HasSound) watched (watch_all-Ends ss client sound) in
    let (gen', has', s') = ends in
    let one : gen' ≡ gen = cc in
    let s : IsSound gen = subst IsSound one s' in
    let (after, returns, exact) =
      run-races info args (some pid) gen.trace st no_names race options
        (AllChained-BlocksLinked gen.trace.blocks initial s.chained) analyzed in
    (
      after,
      ap (at_exit args pid) watched
          ∙ (ap (event_exit args pid) has ∙ (event_exit-run args pid gen s ∙ returns)),
      exact,
    )

-- Where a wrapper ends the collection, the generator has an error and the client analyzes nothing, whatever
-- the options are.
pub run_client-exited :
    (info : ArgsInfo) (args : CliArgs) (pid : ℕ) (ss : List Sight) (client : Client)
    (gen : GenState)
    → process_args info (codes "node") ≡ some (args, client)
    → watch_all ss client ≡ exited gen
    → (has_failed gen ≡ true) × (run_client args pid ss client ≡ ok none)
unfolding run_client event_exit
run_client-exited info args pid ss client gen e watched =
    let (_, sound) = process_args-node info args client e in
    let failed : has_failed gen ≡ true =
      subst (Ends HasSound) watched (watch_all-Ends ss client sound) in
    let still : has_failed (stop gen) ≡ true = has_failed-stop gen failed in
    (failed, ap (at_exit args pid) watched ∙ rw (event_exit, still) refl)
