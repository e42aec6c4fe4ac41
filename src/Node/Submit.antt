-- ===== src/Node/Submit.antt =====
-- tools/drfsracer/NodeGenerator.cpp: `AddSubmitOp` and the wrappers of the functions of libuv that submit an
-- operation.
use fsracer.Prelude.{
  ℕ, ◌-◌, Option, none, some, [], ◌∷◌, ◌++◌, Text, codes, text_ord, ◌==◌, leb, if◌then◌else◌,
  Result, ok, ◌>>=◌,
}
use fsracer.Utils.{to_string, ptr_to_string}
use fsracer.Trace.{Construct, submit_async, submit_sync, Block, add_expr, size, set_expr_debug_info}
use fsracer.Generator.{
  Value, string_ptr, done, ◌>>>◌, as_int, add_to_store, pop_from_store, on_current_block,
  incr_sync_op_count,
}
use fsracer.Generator.Emit.{Handler}
use fsracer.Node.{func_args, operations, check_block}

abbrev pub init_key : Text
init_key = func_args ++ codes "wrap_pre_emit_init"

abbrev pub submit_construct : Option ℕ → Text → Construct
submit_construct none id = submit_sync id
submit_construct (some event_id) id = submit_async id event_id

-- The expression two before the end creates the event: it gets the debug information of an
-- asynchronous operation.
abbrev pub name_event : Option ℕ → Text → Block → Result Block
name_event none op_name b = ok b
name_event (some _) op_name b =
    if leb 2 (size b)
    then set_expr_debug_info (size b - 2) (codes "fs") b
      >>= set_expr_debug_info (size b - 2) op_name
    else ok b

unfoldable pub submit_to : Option ℕ → Text → Text → Block → Result Block
unfolding size set_expr_debug_info add_expr
submit_to event_id id op_name b = name_event event_id op_name b >>= λ b'.
    ok
      (add_expr (record { construct = submit_construct event_id id; debug_info = op_name ∷ [] }) b')

-- The part of `AddSubmitOp` after the identifier is known.
unfoldable pub submit : Option ℕ → Text → Text → Handler
unfolding check_block ptr_to_string add_to_store submit_to on_current_block
submit event_id id op_name c st = check_block (codes "Submit operation " ++ op_name) st >>> λ _.
    on_current_block (submit_to event_id id op_name)
      (add_to_store (operations ++ ptr_to_string (c.num_arg 1)) (string_ptr id) st)

-- Without a callback the operation is synchronous.
unfoldable pub submit_without_event : Text → Handler
unfolding submit to_string
submit_without_event op_name c st =
    let st1 = incr_sync_op_count st in
    submit none (codes "sync_" ++ to_string st1.sync_op_count) op_name c st1

-- The event of an asynchronous operation is the last that was created.
abbrev pub submit_last : Option Value → Text → Handler
submit_last none op_name c st = done st
submit_last (some value) op_name c st = as_int value >>> λ event_id.
    submit (some event_id) (codes "async_" ++ to_string event_id) op_name c st

unfoldable pub submit_with_event : Text → Handler
unfolding pop_from_store submit to_string
submit_with_event op_name c st =
    let (event_ptr, st1) = pop_from_store init_key st in submit_last event_ptr op_name c st1

unfoldable pub add_submit_op : Text → ℕ → Handler
unfolding submit_without_event submit_with_event
add_submit_op op_name async_pos c st =
    if c.num_arg async_pos == 0
    then submit_without_event op_name c st
    else submit_with_event op_name c st

unfoldable pub wrap_pre_uv_fs_access : Handler
unfolding add_submit_op
wrap_pre_uv_fs_access = add_submit_op (codes "node_access") 4

unfoldable pub wrap_pre_uv_fs_chmod : Handler
unfolding add_submit_op
wrap_pre_uv_fs_chmod = add_submit_op (codes "node_chmod") 4

unfoldable pub wrap_pre_uv_fs_chown : Handler
unfolding add_submit_op
wrap_pre_uv_fs_chown = add_submit_op (codes "node_chown") 5

unfoldable pub wrap_pre_uv_fs_copyfile : Handler
unfolding add_submit_op
wrap_pre_uv_fs_copyfile = add_submit_op (codes "node_copyFile") 5

unfoldable pub wrap_pre_uv_fs_close : Handler
unfolding add_submit_op
wrap_pre_uv_fs_close = add_submit_op (codes "node_close") 3

unfoldable pub wrap_pre_uv_fs_lchown : Handler
unfolding add_submit_op
wrap_pre_uv_fs_lchown = add_submit_op (codes "node_lchown") 5

unfoldable pub wrap_pre_uv_fs_lstat : Handler
unfolding add_submit_op
wrap_pre_uv_fs_lstat = add_submit_op (codes "node_lstat") 3

unfoldable pub wrap_pre_uv_fs_link : Handler
unfolding add_submit_op
wrap_pre_uv_fs_link = add_submit_op (codes "node_link") 4

unfoldable pub wrap_pre_uv_fs_mkdir : Handler
unfolding add_submit_op
wrap_pre_uv_fs_mkdir = add_submit_op (codes "node_mkdir") 4

unfoldable pub wrap_pre_uv_fs_open : Handler
unfolding add_submit_op
wrap_pre_uv_fs_open = add_submit_op (codes "node_open") 5

unfoldable pub wrap_pre_uv_fs_opendir : Handler
unfolding add_submit_op
wrap_pre_uv_fs_opendir = add_submit_op (codes "node_opendir") 3

unfoldable pub wrap_pre_uv_fs_readlink : Handler
unfolding add_submit_op
wrap_pre_uv_fs_readlink = add_submit_op (codes "node_readlink") 3

unfoldable pub wrap_pre_uv_fs_realpath : Handler
unfolding add_submit_op
wrap_pre_uv_fs_realpath = add_submit_op (codes "node_realpath") 3

unfoldable pub wrap_pre_uv_fs_rename : Handler
unfolding add_submit_op
wrap_pre_uv_fs_rename = add_submit_op (codes "node_rename") 4

unfoldable pub wrap_pre_uv_fs_rmdir : Handler
unfolding add_submit_op
wrap_pre_uv_fs_rmdir = add_submit_op (codes "node_rmdir") 3

unfoldable pub wrap_pre_uv_fs_stat : Handler
unfolding add_submit_op
wrap_pre_uv_fs_stat = add_submit_op (codes "node_stat") 3

unfoldable pub wrap_pre_uv_fs_symlink : Handler
unfolding add_submit_op
wrap_pre_uv_fs_symlink = add_submit_op (codes "node_symlink") 5

unfoldable pub wrap_pre_uv_fs_unlink : Handler
unfolding add_submit_op
wrap_pre_uv_fs_unlink = add_submit_op (codes "node_unlink") 3

unfoldable pub wrap_pre_uv_fs_utime : Handler
unfolding add_submit_op
wrap_pre_uv_fs_utime = add_submit_op (codes "node_utime") 5
