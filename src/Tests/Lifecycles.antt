-- ===== src/Tests/Lifecycles.antt =====
-- Requests to libuv, one after another and one inside another.
use fsracer.Prelude.{◌≡◌, refl, true, none, some, [], ◌∷◌, ◌++◌, codes, text_ord, arith, length}
use fsracer.Collections.Map.{find, assign}
use fsracer.Utils.{ptr_to_string, to_string}
use fsracer.Operation.{consumed}
use fsracer.Generator.{
  GenState, new_generator, int_ptr, string_ptr, exec_op_ptr, Reply, done, exited, crashed,
  on_current_block, add_to_store,
}
use fsracer.Generator.Emit.{Call, emit_hpath}
use fsracer.Node.{get_exec_op, check_block}
use fsracer.Node.Submit.{submit, submit_to}
use fsracer.Node.Syscalls.{work_key, uv_fs_t_ptr, wrap_pre_uv_fs_work, wrap_post_uv_fs_work}
use fsracer.Node.Hooks.{add_main_block}
use fsracer.Node.Lifecycle.{op_key, accessed, submit-executes}
use fsracer.Node.Nested.{wrap_post_uv_fs_work-nested}
use fsracer.Tests.Clients.{call, numbers}

-- The main block is there, and nothing else.
abbrev begun : GenState
begun = add_main_block new_generator

abbrev reached : Reply GenState → GenState
reached (done st) = st
reached (exited st) = st
reached (crashed _) = new_generator

abbrev submitter : Call
submitter = call 1 (numbers 0 1000 0) 0

abbrev worker : Call
worker = call 2 (numbers 1336 0 0) 0

abbrev submitted : GenState
submitted = reached (submit none (codes "sync_1") (codes "node_stat") submitter begun)

submit-executes_example :
    (st2 : GenState) × (st3 : GenState) × (st4 : GenState) × (wrap_pre_uv_fs_work worker submitted
      ≡ done st2)
    × (emit_hpath 0 consumed true get_exec_op (codes "stat") worker st2 ≡ done st3)
    × (wrap_post_uv_fs_work worker st3 ≡ done st4)
    × (st4.trace.exec_ops
        ≡ begun.trace.exec_ops
          ++ record {
            id = codes "sync_1";
            operations = accessed (codes "stat") (codes "/home/f") true consumed ∷ [];
          }
            ∷ [])
    × (get_exec_op worker st4 ≡ none)
unfolding submit check_block on_current_block submit_to add_to_store add_main_block new_generator
    find
submit-executes_example =
    submit-executes none (codes "sync_1") (codes "node_stat") submitter worker worker 0 consumed
      true (codes "stat") begun submitted refl refl (omega arith) refl refl

abbrev inner : Call
inner = call 2 (numbers 9336 0 0) 0

-- One request that was submitted.
abbrev waiting : GenState
waiting = record new_generator {
  store = assign (op_key (uv_fs_t_ptr worker)) (string_ptr (codes "sync_1")) [];
}

wrap_post_uv_fs_work-nested_example :
    (st1 : GenState) × (st2 : GenState) × (wrap_pre_uv_fs_work worker waiting ≡ done st1)
    × (wrap_pre_uv_fs_work inner st1 ≡ done st2)
    × (wrap_post_uv_fs_work inner st2 ≡ done st2)
    × (wrap_post_uv_fs_work worker st2 ≡ done st2)
    × (find (work_key worker) st2.store ≡ some (int_ptr 2))
    × (get_exec_op worker st2 ≡ some (exec_op_ptr (length waiting.trace.exec_ops)))
unfolding new_generator find assign ptr_to_string to_string
wrap_post_uv_fs_work-nested_example =
    wrap_post_uv_fs_work-nested worker inner (codes "sync_1") waiting refl refl refl refl
