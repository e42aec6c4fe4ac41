-- ===== src/Node/Syscalls.antt =====
-- tools/drfsracer/NodeGenerator.cpp: the wrappers of the system calls and of `uv__fs_work`.
use fsracer.Prelude.{
  ℕ, ◌+◌, ◌-◌, ◌%◌, ◌^◌, true, false, Option, none, some, [], ◌∷◌, ◌++◌, Text, codes, text_ord,
  ◌==◌, ◌||◌, if◌then◌else◌, length,
}
use fsracer.Utils.{to_string, ptr_to_string}
use fsracer.Operation.{
  EffectType, consumed, produced, expunged, make_operation, mark_failed, set_actual_op_name,
  at_fdcwd, new_fd, Operation,
}
use fsracer.Trace.{add_exec_op}
use fsracer.Generator.{
  Value, int_ptr, chars, exec_op_ptr, done, ◌>>>◌, as_int, as_chars, as_string, get_store_value,
  add_to_store, pop_from_store, delete_from_store, on_exec_op,
}
use fsracer.Generator.Emit.{
  Call, Handler, emit_hpath, emit_del_fd, emit_link, emit_rename, emit_symlink,
  mark_operation_status, is_negative,
}
use fsracer.Node.{func_args, func_invocations, threads, operations, worker_offset, get_exec_op}

unfoldable pub wrap_pre_access : Handler
unfolding emit_hpath
wrap_pre_access = emit_hpath 0 consumed true get_exec_op (codes "access")

unfoldable pub wrap_pre_chmod : Handler
unfolding emit_hpath
wrap_pre_chmod = emit_hpath 0 consumed true get_exec_op (codes "chmod")

unfoldable pub wrap_pre_chown : Handler
unfolding emit_hpath
wrap_pre_chown = emit_hpath 0 consumed true get_exec_op (codes "chown")

unfoldable pub wrap_pre_close : Handler
unfolding emit_del_fd
wrap_pre_close = emit_del_fd 0 get_exec_op (codes "close")

unfoldable pub wrap_post_status : Handler
unfolding mark_operation_status
wrap_post_status = mark_operation_status get_exec_op

unfoldable pub wrap_pre_lchown : Handler
unfolding emit_hpath
wrap_pre_lchown = emit_hpath 0 consumed false get_exec_op (codes "lchown")

unfoldable pub wrap_pre_lstat : Handler
unfolding emit_hpath
wrap_pre_lstat = emit_hpath 0 consumed false get_exec_op (codes "lstat")

unfoldable pub wrap_pre_link : Handler
unfolding emit_hpath emit_link
wrap_pre_link c st = emit_hpath 0 consumed false get_exec_op (codes "link") c st >>> λ st1.
    emit_hpath 1 produced false get_exec_op (codes "link") c st1 >>> λ st2.
    emit_link 0 1 get_exec_op (codes "link") c st2

unfoldable pub wrap_pre_mkdir : Handler
unfolding emit_hpath
wrap_pre_mkdir = emit_hpath 0 produced false get_exec_op (codes "mkdir")

abbrev pub open_key : Call → Text
open_key c = func_args ++ (codes "/" ++ (to_string c.thread_id ++ codes "/open"))

-- The mode is in the two low bits of the flags.
abbrev pub open_effect : ℕ → EffectType
open_effect flags = if flags % 4 == 0 then consumed else produced

unfoldable pub wrap_pre_open : Handler
unfolding emit_hpath add_to_store to_string
wrap_pre_open c st =
    emit_hpath 0 (open_effect (c.num_arg 1)) true get_exec_op (codes "open") c st >>> λ st1.
    done (add_to_store (open_key c) (chars (c.path_arg 0)) st1)

abbrev pub opened : Text → Call → Operation
opened path c =
    let op = set_actual_op_name (codes "open") (make_operation (new_fd at_fdcwd path c.result)) in
    if is_negative c.result then mark_failed op else op

unfoldable pub wrap_post_open : Handler
unfolding pop_from_store on_exec_op to_string get_exec_op
wrap_post_open c st =
    let (value, st1) = pop_from_store (open_key c) st in
    as_chars value >>> λ path. elim (get_exec_op c st1) [
      | none ↦ done st1
      | some exec_op ↦
          on_exec_op (λ e. record e { operations = e.operations ++ opened path c ∷ [] }) exec_op st1
    ]

unfoldable pub wrap_pre_readlink : Handler
unfolding emit_hpath
wrap_pre_readlink = emit_hpath 0 consumed true get_exec_op (codes "readlink")

unfoldable pub wrap_pre_realpath : Handler
unfolding emit_hpath
wrap_pre_realpath = emit_hpath 0 consumed true get_exec_op (codes "realpath")

unfoldable pub wrap_pre_rename : Handler
unfolding emit_hpath emit_rename
wrap_pre_rename c st = emit_hpath 0 expunged true get_exec_op (codes "rename") c st >>> λ st1.
    emit_hpath 1 produced true get_exec_op (codes "rename") c st1 >>> λ st2.
    emit_rename 0 1 get_exec_op (codes "rename") c st2

unfoldable pub wrap_pre_rmdir : Handler
unfolding emit_hpath
wrap_pre_rmdir = emit_hpath 0 expunged true get_exec_op (codes "rmdir")

unfoldable pub wrap_pre_stat : Handler
unfolding emit_hpath
wrap_pre_stat = emit_hpath 0 consumed true get_exec_op (codes "stat")

unfoldable pub wrap_pre_symlink : Handler
unfolding emit_symlink
wrap_pre_symlink = emit_symlink 0 1 get_exec_op (codes "symlink")

unfoldable pub wrap_pre_unlink : Handler
unfolding emit_hpath
wrap_pre_unlink = emit_hpath 0 expunged true get_exec_op (codes "unlink")

unfoldable pub wrap_pre_utime : Handler
unfolding emit_hpath
wrap_pre_utime = emit_hpath 0 consumed true get_exec_op (codes "utime")

abbrev pub work_key : Call → Text
work_key c = func_invocations ++ (to_string c.thread_id ++ codes "/uv__fs_work")

-- The request that the argument of `uv__fs_work` is a part of: a pointer of 64 bits.
abbrev pub uv_fs_t_ptr : Call → ℕ
uv_fs_t_ptr c = (c.num_arg 0 + 2 ^ 64 - worker_offset) % 2 ^ 64

-- The number of invocations of `uv__fs_work` goes up, from none to one.
unfoldable pub count_work : Handler
unfolding get_store_value add_to_store
count_work c st = elim (get_store_value (work_key c) st) [
  | none ↦ done (add_to_store (work_key c) (int_ptr 1) st)
  | some value ↦ as_int value >>> λ count. done (add_to_store (work_key c) (int_ptr (count + 1)) st)
]

-- The thread gets a new execution, which is the last of the trace.
unfoldable pub start_exec_op : Text → Handler
unfolding add_to_store add_exec_op
start_exec_op op_id c st =
    let st1 =
      add_to_store (threads ++ to_string c.thread_id) (exec_op_ptr (length st.trace.exec_ops)) st in
    done (record st1 { trace = add_exec_op (record { id = op_id; operations = [] }) st1.trace })

-- The operation that was submitted for the request starts, if there is one.
abbrev pub start_submitted : Option Value → Handler
start_submitted none c st = done st
start_submitted (some value) c st = as_string value >>> λ op_id. start_exec_op op_id c st

unfoldable pub wrap_pre_uv_fs_work : Handler
unfolding count_work start_exec_op pop_from_store ptr_to_string
wrap_pre_uv_fs_work c st = count_work c st >>> λ st1.
    let (value, st2) = pop_from_store (operations ++ ptr_to_string (uv_fs_t_ptr c)) st1 in
    start_submitted value c st2

unfoldable pub wrap_post_uv_fs_work : Handler
unfolding get_store_value delete_from_store
wrap_post_uv_fs_work c st = elim (get_store_value (work_key c) st) [
  | none ↦ done st
  | some value ↦ as_int value >>> λ count.
      if (count == 0) || (count == 1)
      then done
          (delete_from_store (threads ++ to_string c.thread_id) (delete_from_store (work_key c) st))
      else done st
]
