-- ===== src/Node.antt =====
-- tools/drfsracer/NodeGenerator.h and tools/drfsracer/NodeGenerator.cpp: the wrappers by which the trace of
-- a Node program is collected. The children follow the file: system calls and the executions of libuv,
-- submissions to libuv, the hooks of Node, and the table of the wrappers.
pub mod Syscalls
pub mod Submit
pub mod Hooks
pub mod Wrappers
pub mod Sound
pub mod Lifecycle
pub mod Nested
use fsracer.Prelude.{
  ℕ, Bool, false, Option, none, some, [], ◌∷◌, ◌++◌, Text, codes, text_ord, nat_ord, same,
  if◌then◌else◌,
}
use fsracer.Collections.Set.{Set, member, insert}
use fsracer.Utils.{ErrType, to_string}
use fsracer.Generator.{
  GenState, Value, set_ptr, Reply, done, ◌>>>◌, as_set, get_store_value, add_to_store,
  abort_with_err,
}
use fsracer.Generator.Emit.{Call}

abbrev pub func_args : Text
func_args = codes "args/"

abbrev pub func_invocations : Text
func_invocations = codes "func_invocations/"

abbrev pub threads : Text
threads = codes "threads/"

abbrev pub operations : Text
operations = codes "operations/"

abbrev pub promise_set : Text
promise_set = codes "promises/set"

abbrev pub promise_event : Text
promise_event = codes "promises/event"

abbrev pub timer_set : Text
timer_set = codes "timers/set"

abbrev pub new_timerwrap : Text
new_timerwrap = codes "node::(anonymous namespace)::TimerWrap::New"

abbrev pub worker_offset : ℕ
worker_offset = 336

-- Where there is no current block, the collection ends with an error.
unfoldable pub check_block : Text → GenState → Reply (Unit {0})
unfolding abort_with_err
check_block msg st = elim st.current_block [
  | some _ ↦ done tt
  | none ↦
      abort_with_err ErrType.runtime
        (codes "Block points to `NULL`"
          ++ ((if same msg [] then [] else codes ": " ++ msg)
              ++ (codes ". Trace is not generated properly."
                  ++ codes " Perhaps, a wrapper to a native function is missing")))
        (codes "check_block") st
]

unfoldable pub add_to_set : ℕ → Text → GenState → Reply GenState
unfolding get_store_value add_to_store insert
add_to_set event_id key st = elim (get_store_value key st) [
  | none ↦ done st
  | some value ↦ as_set value >>> λ s. done (add_to_store key (set_ptr (insert event_id s)) st)
]

unfoldable pub has_event_id : ℕ → Text → GenState → Reply Bool
unfolding get_store_value member
has_event_id event_id key st = elim (get_store_value key st) [
  | none ↦ done false
  | some value ↦ as_set value >>> λ s. done (member event_id s)
]

-- `get_exec_op` and `get_exec_op_post`.
unfoldable pub get_exec_op : Call → GenState → Option Value
unfolding get_store_value to_string
get_exec_op c st = get_store_value (threads ++ to_string c.thread_id) st
