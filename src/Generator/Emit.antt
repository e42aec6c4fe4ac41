-- ===== src/Generator/Emit.antt =====
-- `generator_utils` of tools/drfsracer/DynamoTraceGenerator.cpp: what the wrappers share.
use fsracer.Prelude.{
  ℕ, ◌+◌, ◌-◌, ◌%◌, ◌^◌, ltb, Bool, true, false, Option, none, some, [], ◌∷◌, ◌++◌, Text, text_ord,
  same, if◌then◌else◌, ℤ, pos, negsuc,
}
use fsracer.Utils.{ptr_to_string}
use fsracer.Operation.{
  Action, EffectType, make_operation, set_actual_op_name, at_fdcwd, del_fd, hpath, hpath_sym, link,
  rename, symlink,
}
use fsracer.Trace.{ExecOp, mark_last_operation_failed}
use fsracer.Generator.{
  GenState, Value, Reply, done, on_exec_op, get_func_name, push_function, pop_stack,
}

-- What a wrapper reads of the call that it wraps: the thread, the address of the function, the arguments
-- as texts and as numbers (null is 0), the two numbers in the SSE registers, and the value returned.
pub record Call : Type 0 where
  pub thread_id : ℕ
  pub func : ℕ
  pub path_arg : ℕ → Text
  pub num_arg : ℕ → ℕ
  pub async_id : ℕ
  pub trigger_async_id : ℕ
  pub result : ℤ

abbrev pub Handler : Type 0
Handler = Call → GenState → Reply GenState

unfoldable pub default_pre : Handler
unfolding ptr_to_string get_func_name push_function
default_pre c st =
    let func_name = get_func_name (ptr_to_string c.func) st in
    done (if same func_name [] then st else push_function func_name st)

unfoldable pub default_post : Handler
unfolding pop_stack
default_post c st = done (pop_stack st)

-- The function that yields the execution of the current thread, if it has one.
abbrev pub ExecOpOf : Type 0
ExecOpOf = Call → GenState → Option Value

-- The macro `CHECK_EXEC_OP`, and the call on the execution after it.
abbrev pub on_checked_exec_op : ExecOpOf → (ExecOp → ExecOp) → Handler
on_checked_exec_op get_exec_op f c st = elim (get_exec_op c st) [
  | none ↦ done st
  | some exec_op ↦ on_exec_op f exec_op st
]

unfoldable pub add_operation : Text → Action → ExecOp → ExecOp
add_operation op_name action e = record e {
  operations = e.operations ++ set_actual_op_name op_name (make_operation action) ∷ [];
}

-- An argument that is made an `int`, and that a `size_t`.
unfoldable int_to_size : ℕ → ℕ
int_to_size n = let m = n % 2 ^ 32 in if ltb m (2 ^ 31) then m else m + (2 ^ 64 - 2 ^ 32)

unfoldable pub emit_del_fd : ℕ → ExecOpOf → Text → Handler
unfolding on_exec_op add_operation int_to_size
emit_del_fd fd_pos get_exec_op op_name c =
    on_checked_exec_op get_exec_op (add_operation op_name (del_fd (int_to_size (c.num_arg fd_pos))))
      c

unfoldable pub emit_hpath : ℕ → EffectType → Bool → ExecOpOf → Text → Handler
unfolding on_exec_op add_operation
emit_hpath path_pos effect_type follow_symlink get_exec_op op_name c =
    let path = c.path_arg path_pos in
    on_checked_exec_op get_exec_op
      (add_operation op_name (
        if follow_symlink
        then hpath at_fdcwd path effect_type
        else hpath_sym at_fdcwd path effect_type))
      c

unfoldable pub emit_link : ℕ → ℕ → ExecOpOf → Text → Handler
unfolding on_exec_op add_operation
emit_link old_path_pos new_path_pos get_exec_op op_name c =
    on_checked_exec_op get_exec_op
      (add_operation op_name
        (link at_fdcwd (c.path_arg old_path_pos) at_fdcwd (c.path_arg new_path_pos)))
      c

unfoldable pub emit_rename : ℕ → ℕ → ExecOpOf → Text → Handler
unfolding on_exec_op add_operation
emit_rename old_path_pos new_path_pos get_exec_op op_name c =
    on_checked_exec_op get_exec_op
      (add_operation op_name
        (rename at_fdcwd (c.path_arg old_path_pos) at_fdcwd (c.path_arg new_path_pos)))
      c

-- The new path is where the link stands, the old one its target.
unfoldable pub emit_symlink : ℕ → ℕ → ExecOpOf → Text → Handler
unfolding on_exec_op add_operation
emit_symlink old_path_pos new_path_pos get_exec_op op_name c =
    on_checked_exec_op get_exec_op
      (add_operation op_name (symlink at_fdcwd (c.path_arg new_path_pos) (c.path_arg old_path_pos)))
      c

abbrev pub is_negative : ℤ → Bool
is_negative (pos _) = false
is_negative (negsuc _) = true

unfoldable pub mark_operation_status : ExecOpOf → Handler
unfolding on_exec_op mark_last_operation_failed
mark_operation_status get_exec_op c st =
    if is_negative c.result
    then on_checked_exec_op get_exec_op mark_last_operation_failed c st
    else done st
