-- ===== src/Node/Lifecycle.antt =====
-- A file operation from its submission to its end, and the invocations of `uv__fs_work` on the way.
use fsracer.Prelude.{
  ℕ, ◌+◌, ◌^◌, ◌<◌, ◌≡◌, refl, sym, ap, ◌∙◌, Bool, Option, none, some, List, [], ◌∷◌, ◌++◌, Text,
  text_ord, same_iff, arith, length, Result, ok, fail, Option-cases, inl, inr, if◌then◌else◌,
}
use fsracer.Collections.Map.{find, assign, erase, find-assign, find-erase}
use fsracer.Utils.{to_string, ptr_to_string}
use fsracer.Operation.{
  EffectType, Operation, hpath, hpath_sym, at_fdcwd, make_operation, set_actual_op_name,
}
use fsracer.Trace.{Block, ExecOp, add_exec_op}
use fsracer.Generator.{
  GenState, Value, int_ptr, string_ptr, exec_op_ptr, done, ◌>>>◌, reply_of, put_blocks, update_at,
  on_current_block, on_exec_op, add_to_store, get_store_value, pop_from_store, delete_from_store,
}
use fsracer.Generator.Emit.{Call, on_checked_exec_op, add_operation, emit_hpath}
use fsracer.Node.{threads, operations, check_block, get_exec_op}
use fsracer.Node.Submit.{submit, submit_to}
use fsracer.Node.Syscalls.{
  work_key, uv_fs_t_ptr, count_work, start_exec_op, wrap_pre_uv_fs_work, wrap_post_uv_fs_work,
}
use fsracer.Node.Sound.Syscalls.{thread_key}

abbrev pub op_key : ℕ → Text
op_key ptr = operations ++ ptr_to_string ptr

put_blocks-inv :
    (r : Result (List Block)) (st st1 : GenState)
    → (reply_of r >>> λ blocks. done (put_blocks st blocks)) ≡ done st1
    → (st1.store ≡ st.store) × (st1.trace.exec_ops ≡ st.trace.exec_ops)
put_blocks-inv (ok bs) st st1 e =
    let one : put_blocks st bs ≡ st1 = cc in
    (ap (λ s. s.store) (sym one), ap (λ s. s.trace.exec_ops) (sym one))
put_blocks-inv (fail f) st st1 e = absurd (cc e)

submit-inv :
    (event_id : Option ℕ) (id op_name : Text) (c : Call) (st st1 : GenState)
    → submit event_id id op_name c st ≡ done st1
    → (st1.store ≡ assign (op_key (c.num_arg 1)) (string_ptr id) st.store)
      × (st1.trace.exec_ops ≡ st.trace.exec_ops)
unfolding submit check_block on_current_block add_to_store
submit-inv event_id id op_name c st st1 e = elim (Option-cases st.current_block) [
  | inl nothing ↦ absurd (cc (rw (submit, check_block, nothing) at e))
  | inr (i, here) ↦
      put_blocks-inv (update_at i (submit_to event_id id op_name) st.trace.blocks)
        (add_to_store (op_key (c.num_arg 1)) (string_ptr id) st) st1
        (rw (submit, check_block, on_current_block, here) at e)
]

-- The pointer to the request is found again from the pointer to its part.
request_ptr :
    (w : Call) (ptr : ℕ) → w.num_arg 0 ≡ ptr + 336 → ptr + 336 < 2 ^ 64 → uv_fs_t_ptr w ≡ ptr
request_ptr w ptr e h = rw e (omega arith)

-- The first invocation on a thread for an operation that was submitted.
module _ (w : Call) (st : GenState) (id : Text) where
  abbrev pub begun : GenState
  begun = record st {
    store =
        assign (thread_key w) (exec_op_ptr (length st.trace.exec_ops))
          (erase (op_key (uv_fs_t_ptr w)) (assign (work_key w) (int_ptr 1) st.store));
    trace = record st.trace {
      exec_ops = st.trace.exec_ops ++ record { id = id; operations = [] } ∷ [];
    };
  }

  pub wrap_pre_uv_fs_work-begun :
      find (work_key w) st.store ≡ none
      → find (op_key (uv_fs_t_ptr w)) st.store ≡ some (string_ptr id)
      → wrap_pre_uv_fs_work w st ≡ done begun
  unfolding wrap_pre_uv_fs_work count_work get_store_value add_to_store pop_from_store start_exec_op
      add_exec_op
  wrap_pre_uv_fs_work-begun idle submitted =
      let counted = assign (work_key w) (int_ptr 1) st.store in
      let kept : find (op_key (uv_fs_t_ptr w)) counted ≡ some (string_ptr id) =
        rw (find-assign (op_key (uv_fs_t_ptr w)) (work_key w) (int_ptr 1) st.store) submitted in
      rw (wrap_pre_uv_fs_work, count_work, idle, pop_from_store, kept) refl

  pub find-begun-thread :
      find (thread_key w) begun.store ≡ some (exec_op_ptr (length st.trace.exec_ops))
  find-begun-thread =
      rw
        (
          find-assign (thread_key w) (thread_key w) (exec_op_ptr (length st.trace.exec_ops))
              (erase (op_key (uv_fs_t_ptr w)) (assign (work_key w) (int_ptr 1) st.store)),
          (same_iff (thread_key w) (thread_key w)).1 refl,
        )
        refl

  pub find-begun-work : find (work_key w) begun.store ≡ some (int_ptr 1)
  find-begun-work =
      let n : ℕ = length st.trace.exec_ops in
      let counted = assign (work_key w) (int_ptr 1) st.store in
      rw
        (
          find-assign (work_key w) (thread_key w) (exec_op_ptr n)
              (erase (op_key (uv_fs_t_ptr w)) counted),
          find-erase (work_key w) (op_key (uv_fs_t_ptr w)) counted,
          find-assign (work_key w) (work_key w) (int_ptr 1) st.store,
          (same_iff (work_key w) (work_key w)).1 refl,
        )
        refl

update_at-last :
    {A : Type 0} (f : A → A) (xs : List A) (x : A)
    → update_at (length xs) (λ y. ok (f y)) (xs ++ x ∷ []) ≡ ok (xs ++ f x ∷ [])
unfolding update_at
update_at-last f [] x = refl
update_at-last f (y ∷ xs) x = rw (update_at-last f xs x) refl

-- A call on the execution of the thread, where that is the last of the trace.
on_checked-last :
    (f : ExecOp → ExecOp) (w : Call) (st : GenState) (es : List ExecOp) (e : ExecOp)
    → find (thread_key w) st.store ≡ some (exec_op_ptr (length es))
    → st.trace.exec_ops ≡ es ++ e ∷ []
    → on_checked_exec_op get_exec_op f w st
      ≡ done (record st { trace = record st.trace { exec_ops = es ++ f e ∷ [] } })
unfolding get_exec_op get_store_value on_exec_op
on_checked-last f w st es e found trace =
    rw (on_checked_exec_op, found, trace, update_at-last f es e) refl

delete-found :
    (key : Text) (st : GenState) (v : Value)
    → find key st.store ≡ some v
    → delete_from_store key st ≡ record st { store = erase key st.store }
unfolding delete_from_store pop_from_store
delete-found key st v found = rw (delete_from_store, pop_from_store, found) refl

-- Behind the last invocation the thread has no execution and no count.
wrap_post_uv_fs_work-ends :
    (w : Call) (st : GenState) (v : Value)
    → find (work_key w) st.store ≡ some (int_ptr 1)
    → find (thread_key w) st.store ≡ some v
    → wrap_post_uv_fs_work w st
      ≡ done (record st { store = erase (thread_key w) (erase (work_key w) st.store) })
unfolding wrap_post_uv_fs_work get_store_value
wrap_post_uv_fs_work-ends w st v count found =
    let st1 : GenState = record st { store = erase (work_key w) st.store } in
    let kept : find (thread_key w) st1.store ≡ some v =
      rw (find-erase (thread_key w) (work_key w) st.store) found in
    rw (wrap_post_uv_fs_work, count)
      (ap done (
        ap (delete_from_store (thread_key w)) (delete-found (work_key w) st (int_ptr 1) count)
        ∙ delete-found (thread_key w) st1 v kept))

get_exec_op-ended :
    (w : Call) (st : GenState)
    → get_exec_op w (record st { store = erase (thread_key w) (erase (work_key w) st.store) })
      ≡ none
unfolding get_exec_op get_store_value
get_exec_op-ended w st =
    rw
      (
        find-erase (thread_key w) (thread_key w) (erase (work_key w) st.store),
        (same_iff (thread_key w) (thread_key w)).1 refl,
      )
      refl

abbrev pub accessed : Text → Text → Bool → EffectType → Operation
accessed name path follow effect =
    set_actual_op_name name (
      make_operation
        (if follow then hpath at_fdcwd path effect else hpath_sym at_fdcwd path effect))

-- An operation is submitted for a request, on any thread and with any identifier. Then a thread that has
-- no other invocation under way begins and ends the work on that request, and in between it accesses a
-- path. Each wrapper returns. The trace has one execution more, with the identifier of the submission
-- and with that access alone, and behind it the thread has no execution.
pub submit-executes :
    (event_id : Option ℕ) (id op_name : Text) (c w a : Call) (n : ℕ) (effect : EffectType)
    (follow : Bool) (name : Text) (st st1 : GenState)
    → submit event_id id op_name c st ≡ done st1
    → w.num_arg 0 ≡ c.num_arg 1 + 336
    → c.num_arg 1 + 336 < 2 ^ 64
    → find (work_key w) st.store ≡ none
    → a.thread_id ≡ w.thread_id
    → (st2 : GenState) × (st3 : GenState) × (st4 : GenState) × (wrap_pre_uv_fs_work w st1
        ≡ done st2)
      × (emit_hpath n effect follow get_exec_op name a st2 ≡ done st3)
      × (wrap_post_uv_fs_work w st3 ≡ done st4)
      × (st4.trace.exec_ops
          ≡ st.trace.exec_ops
            ++ record { id = id; operations = accessed name (a.path_arg n) follow effect ∷ [] }
              ∷ [])
      × (get_exec_op w st4 ≡ none)
unfolding emit_hpath add_operation
submit-executes event_id id op_name c w a n effect follow name st st1 submitted at small idle
      thread =
    let (store, execs) = submit-inv event_id id op_name c st st1 submitted in
    let ptr : uv_fs_t_ptr w ≡ c.num_arg 1 = request_ptr w (c.num_arg 1) at small in
    let key : op_key (c.num_arg 1) ≡ op_key (uv_fs_t_ptr w) = ap op_key (sym ptr) in
    let idle1 : find (work_key w) st1.store ≡ none =
      rw (store, find-assign (work_key w) (op_key (c.num_arg 1)) (string_ptr id) st.store) idle in
    let stored : find (op_key (uv_fs_t_ptr w)) st1.store ≡ some (string_ptr id) =
      rw
        (
          store,
          key,
          find-assign (op_key (uv_fs_t_ptr w)) (op_key (uv_fs_t_ptr w)) (string_ptr id) st.store,
          (same_iff (op_key (uv_fs_t_ptr w)) (op_key (uv_fs_t_ptr w))).1 refl,
        )
        refl in
    let st2 : GenState = begun w st1 id in
    let found : find (thread_key w) st2.store ≡ some (exec_op_ptr (length st1.trace.exec_ops)) =
      find-begun-thread w st1 id in
    let found_a : find (thread_key a) st2.store ≡ some (exec_op_ptr (length st1.trace.exec_ops)) =
      ap (λ t. find (threads ++ to_string t) st2.store) thread ∙ found in
    let f : ExecOp → ExecOp = add_operation name (
      if follow
      then hpath at_fdcwd (a.path_arg n) effect
      else hpath_sym at_fdcwd (a.path_arg n) effect) in
    let e : ExecOp = record { id = id; operations = [] } in
    let st3 : GenState = record st2 {
      trace = record st2.trace { exec_ops = st1.trace.exec_ops ++ f e ∷ [] };
    } in
    (
      st2,
      st3,
      record st3 { store = erase (thread_key w) (erase (work_key w) st3.store) },
      wrap_pre_uv_fs_work-begun w st1 id idle1 stored,
      on_checked-last f a st2 st1.trace.exec_ops e found_a refl,
      wrap_post_uv_fs_work-ends w st3 (exec_op_ptr (length st1.trace.exec_ops))
          (find-begun-work w st1 id) found,
      rw execs refl,
      get_exec_op-ended w st3,
    )
