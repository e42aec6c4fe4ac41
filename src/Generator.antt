-- ===== src/Generator.antt =====
-- lib/TraceGenerator.h, lib/TraceGenerator.cpp, and the class of tools/drfsracer/DynamoTraceGenerator.h
-- and tools/drfsracer/DynamoTraceGenerator.cpp: what the collection of a trace keeps, and its functions.
pub mod Emit
use fsracer.Prelude.{
  ℕ, zero, suc, ◌+◌, ◌-◌, Bool, true, false, Option, none, some, List, [], ◌∷◌, ◌++◌, Text, codes,
  text_ord, Result, ok, fail, Fault, bad_optional_access, null_pointer, null_string, wrong_cast,
  dangling, empty_stack, ◌>>=◌, ℤ,
}
use fsracer.Collections.Set.{Set}
use fsracer.Collections.Map.{Map, find, assign, erase}
use fsracer.Utils.{ErrType, Error, ptr_to_string}
use fsracer.Trace.{Block, ExecOp, Trace, trace_to_string}

-- What a `void *` of the store points to. Each object of the store has one key alone, so a write
-- through its pointer is a write to the store. An execution is shared with the trace: `exec_op_ptr` is its
-- position there.
pub data Value : Type 0 where
  int_ptr : ℕ → Value
  bool_ptr : Bool → Value
  chars string_ptr : Text → Value
  set_ptr : Set ℕ → Value
  exec_op_ptr : ℕ → Value

-- The fields of `DynamoTraceGenerator`, and the error of `TraceGenerator`. The current block is shared
-- with the trace: its position there.
pub record GenState : Type 0 where
  pub trace : Trace
  pub current_block : Option ℕ
  pub event_count : ℕ
  pub sync_op_count : ℕ
  pub main_block_count : ℕ
  pub store : Map Text Value
  pub call_stack : List Text
  pub funcs : Map Text Text
  pub error : Option Error

-- What a wrapper ends in: `exited` by `dr_exit_process`.
pub data Reply {ℓ} (A : Type ℓ) : Type ℓ where
  done : A → Reply A
  exited : GenState → Reply A
  crashed : Fault → Reply A

infixl 5 ◌>>>◌
abbrev pub ◌>>>◌ {ℓ κ} : {A : Type ℓ} {B : Type κ} → Reply A → (A → Reply B) → Reply B
done a >>> rest = rest a
exited st >>> rest = exited st
crashed fault >>> rest = crashed fault

abbrev pub reply_of {ℓ} : {A : Type ℓ} → Result A → Reply A
reply_of (ok a) = done a
reply_of (fail fault) = crashed fault

-- The constructor.
unfoldable pub new_generator : GenState
new_generator = record {
  trace = record { blocks = []; exec_ops = []; thread_id = 0; cwd = [] };
  current_block = none;
  event_count = 0;
  sync_op_count = 0;
  main_block_count = 0;
  store = [];
  call_stack = [];
  funcs = [];
  error = none;
}

unfoldable pub has_failed : GenState → Bool
has_failed st = elim st.error [ none ↦ false | some _ ↦ true ]

unfoldable pub get_err : GenState → Result Error
get_err st = elim st.error [ none ↦ fail bad_optional_access | some e ↦ ok e ]

unfoldable pub add_error : ErrType → Text → Text → GenState → GenState
add_error err_type errmsg location st = record st {
  error = some (record { err_type = err_type; msg = errmsg; desc = []; location = location });
}

unfoldable pub add_to_store : Text → Value → GenState → GenState
unfolding assign
add_to_store key value st = record st { store = assign key value st.store }

unfoldable pub get_store_value : Text → GenState → Option Value
unfolding find
get_store_value key st = find key st.store

-- The value, and the state without the entry.
unfoldable pub pop_from_store : Text → GenState → Option Value × GenState
unfolding find erase
pop_from_store key st = elim (find key st.store) [
  | none ↦ (none, st)
  | some value ↦ (some value, record st { store = erase key st.store })
]

unfoldable pub delete_from_store : Text → GenState → GenState
unfolding pop_from_store
delete_from_store key st = (pop_from_store key st).1

unfoldable pub push_function : Text → GenState → GenState
push_function func_name st = record st { call_stack = func_name ∷ st.call_stack }

abbrev pub rest_of {ℓ} : {A : Type ℓ} → List A → List A
rest_of [] = []
rest_of (_ ∷ xs) = xs

unfoldable pub pop_stack : GenState → GenState
pop_stack st = record st { call_stack = rest_of st.call_stack }

unfoldable pub top_stack : GenState → Reply Text
top_stack st = elim st.call_stack [ [] ↦ crashed empty_stack | func_name ∷ _ ↦ done func_name ]

unfoldable pub add_func : Text → Text → GenState → GenState
unfolding assign
add_func addr func_name st = record st { funcs = assign addr func_name st.funcs }

unfoldable pub get_func_name : Text → GenState → Text
unfolding find
get_func_name addr st = elim (find addr st.funcs) [ none ↦ [] | some func_name ↦ func_name ]

unfoldable pub abort_with_err {ℓ} : {A : Type ℓ} → ErrType → Text → Text → GenState → Reply A
unfolding trace_to_string
abort_with_err err_type errmsg location st = exited (record st {
  error = some (record {
    err_type = err_type;
    msg = errmsg;
    desc = codes "Current Trace:\n" ++ trace_to_string st.trace;
    location = location;
  });
})

-- Where the function begins in the module, and whether DynamoRIO could wrap it there.
pub record Module : Type 0 where
  pub get_pc_by_symbol : Text → Option ℕ
  pub wrap : ℕ → Bool

unfoldable pub register_func : Module → Text → GenState → GenState
unfolding add_func ptr_to_string
register_func m func_name st = elim (m.get_pc_by_symbol func_name) [
  | none ↦ st
  | some towrap ↦ elim (m.wrap towrap) [
    | false ↦ st
    | true ↦ add_func (ptr_to_string towrap) func_name st
  ]
]

-- `Setup`, over the names of the wrappers.
unfoldable pub setup : Module → List Text → GenState → GenState
unfolding register_func
setup m [] st = st
setup m (func_name ∷ names) st = setup m names (register_func m func_name st)

abbrev pub incr_event_count : GenState → GenState
incr_event_count st = record st { event_count = st.event_count + 1 }

-- `size_t` is not below 0 here: `DecrEventCount` has no caller.
abbrev pub decr_event_count : GenState → GenState
decr_event_count st = record st { event_count = st.event_count - 1 }

abbrev pub incr_sync_op_count : GenState → GenState
incr_sync_op_count st = record st { sync_op_count = st.sync_op_count + 1 }

abbrev pub incr_main_block_count : GenState → GenState
incr_main_block_count st = record st { main_block_count = st.main_block_count + 1 }

-- A call on the object at a position, which may fail.
unfoldable pub update_at {ℓ} : {A : Type ℓ} → ℕ → (A → Result A) → List A → Result (List A)
update_at i f [] = fail dangling
update_at zero f (x ∷ xs) = f x >>= λ y. ok (y ∷ xs)
update_at (suc i) f (x ∷ xs) = let rest = update_at i f xs in rest >>= λ ys. ok (x ∷ ys)

unfoldable pub at_position {ℓ} : {A : Type ℓ} → ℕ → List A → Result A
at_position i [] = fail dangling
at_position zero (x ∷ xs) = ok x
at_position (suc i) (x ∷ xs) = at_position i xs

-- Calls on the current block.
unfoldable pub get_current_block : GenState → Reply Block
unfolding at_position
get_current_block st = elim st.current_block [
  | none ↦ crashed null_pointer
  | some i ↦ reply_of (at_position i st.trace.blocks)
]

abbrev pub put_blocks : GenState → List Block → GenState
put_blocks st blocks = record st { trace = record st.trace { blocks = blocks } }

unfoldable pub on_current_block : (Block → Result Block) → GenState → Reply GenState
unfolding update_at
on_current_block f st = elim st.current_block [
  | none ↦ crashed null_pointer
  | some i ↦ reply_of (update_at i f st.trace.blocks) >>> λ blocks. done (put_blocks st blocks)
]

abbrev pub put_exec_ops : GenState → List ExecOp → GenState
put_exec_ops st exec_ops = record st { trace = record st.trace { exec_ops = exec_ops } }

-- A call on an execution that the store points to.
unfoldable pub on_exec_op : (ExecOp → ExecOp) → Value → GenState → Reply GenState
unfolding update_at
on_exec_op f (exec_op_ptr i) st =
    reply_of (update_at i (λ e. ok (f e)) st.trace.exec_ops) >>> λ exec_ops.
    done (put_exec_ops st exec_ops)
on_exec_op f _ st = crashed wrong_cast

abbrev pub as_int : Value → Reply ℕ
as_int (int_ptr n) = done n
as_int _ = crashed wrong_cast

abbrev pub as_bool : Value → Reply Bool
as_bool (bool_ptr b) = done b
as_bool _ = crashed wrong_cast

abbrev pub as_string : Value → Reply Text
as_string (string_ptr str) = done str
as_string _ = crashed wrong_cast

-- `std::string` of a `char *`.
abbrev pub as_chars : Option Value → Reply Text
as_chars none = crashed null_string
as_chars (some (chars str)) = done str
as_chars (some _) = crashed wrong_cast

abbrev pub as_set : Value → Reply (Set ℕ)
as_set (set_ptr s) = done s
as_set _ = crashed wrong_cast
