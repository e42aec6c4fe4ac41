-- ===== src/Node/Nested.antt =====
-- Invocations of `uv__fs_work` within another on the same thread.
use fsracer.Prelude.{
  ℕ, ◌≡◌, refl, sym, ap, ◌∙◌, none, some, ◌++◌, Text, codes, text_ord, same, same_iff, length,
  Bool-cases, inl, inr,
}
use fsracer.Collections.Map.{find, assign, erase, find-assign, find-erase}
use fsracer.Utils.{to_string}
use fsracer.Generator.{
  GenState, int_ptr, string_ptr, exec_op_ptr, done, add_to_store, get_store_value, pop_from_store,
}
use fsracer.Generator.Emit.{Call}
use fsracer.Node.{func_invocations, get_exec_op}
use fsracer.Node.Syscalls.{
  work_key, uv_fs_t_ptr, count_work, wrap_pre_uv_fs_work, wrap_post_uv_fs_work,
}
use fsracer.Node.Sound.Syscalls.{thread_key}
use fsracer.Node.Lifecycle.{
  op_key, begun, wrap_pre_uv_fs_work-begun, find-begun-thread, find-begun-work,
}

abbrev twice : Call → GenState → GenState
twice w st = record st { store = assign (work_key w) (int_ptr 2) st.store }

-- An invocation inside another, for no request of its own.
pre_again :
    (w : Call) (st : GenState)
    → find (work_key w) st.store ≡ some (int_ptr 1)
    → find (op_key (uv_fs_t_ptr w)) st.store ≡ none
    → wrap_pre_uv_fs_work w st ≡ done (twice w st)
unfolding wrap_pre_uv_fs_work count_work get_store_value add_to_store pop_from_store
pre_again w st once absent =
    let still : find (op_key (uv_fs_t_ptr w)) (assign (work_key w) (int_ptr 2) st.store) ≡ none =
      rw (find-assign (op_key (uv_fs_t_ptr w)) (work_key w) (int_ptr 2) st.store) absent in
    rw (wrap_pre_uv_fs_work, count_work, once, pop_from_store, still) refl

-- With a count of two nothing is taken back.
post_again :
    (w : Call) (st : GenState)
    → find (work_key w) st.store ≡ some (int_ptr 2)
    → wrap_post_uv_fs_work w st ≡ done st
unfolding wrap_post_uv_fs_work get_store_value
post_again w st count = rw (wrap_post_uv_fs_work, count) refl

find-twice : (w : Call) (st : GenState) → find (work_key w) (twice w st).store ≡ some (int_ptr 2)
find-twice w st =
    rw
      (
        find-assign (work_key w) (work_key w) (int_ptr 2) st.store,
        (same_iff (work_key w) (work_key w)).1 refl,
      )
      refl

-- No request of the inner invocation is left behind the outer one, if there was none before.
absent-begun :
    (w w' : Call) (st : GenState) (id : Text)
    → find (op_key (uv_fs_t_ptr w')) st.store ≡ none
    → find (op_key (uv_fs_t_ptr w')) (begun w st id).store ≡ none
absent-begun w w' st id absent =
    let n : ℕ = length st.trace.exec_ops in
    let key = op_key (uv_fs_t_ptr w') in
    let counted = assign (work_key w) (int_ptr 1) st.store in
    rw
      (
        find-assign (op_key (uv_fs_t_ptr w')) (thread_key w) (exec_op_ptr n)
            (erase (op_key (uv_fs_t_ptr w)) counted),
        find-erase (op_key (uv_fs_t_ptr w')) (op_key (uv_fs_t_ptr w)) counted,
      )
      (elim (Bool-cases (same (op_key (uv_fs_t_ptr w')) (op_key (uv_fs_t_ptr w)))) [
        | inl t ↦ rw t refl
        | inr f ↦
            rw (f, find-assign (op_key (uv_fs_t_ptr w')) (work_key w) (int_ptr 1) st.store) absent
      ])

-- On a thread with no invocation under way, the work on an operation that was submitted begins, and within
-- it another invocation on the same thread, for a request that was not submitted. When both have
-- ended, the count of invocations is still two, and the thread still has the execution of the operation
-- that has ended.
pub wrap_post_uv_fs_work-nested :
    (w w' : Call) (id : Text) (st : GenState)
    → w'.thread_id ≡ w.thread_id
    → find (work_key w) st.store ≡ none
    → find (op_key (uv_fs_t_ptr w)) st.store ≡ some (string_ptr id)
    → find (op_key (uv_fs_t_ptr w')) st.store ≡ none
    → (st1 : GenState) × (st2 : GenState) × (wrap_pre_uv_fs_work w st ≡ done st1)
      × (wrap_pre_uv_fs_work w' st1 ≡ done st2)
      × (wrap_post_uv_fs_work w' st2 ≡ done st2)
      × (wrap_post_uv_fs_work w st2 ≡ done st2)
      × (find (work_key w) st2.store ≡ some (int_ptr 2))
      × (get_exec_op w st2 ≡ some (exec_op_ptr (length st.trace.exec_ops)))
unfolding get_exec_op get_store_value
wrap_post_uv_fs_work-nested w w' id st thread idle submitted absent =
    let st1 : GenState = begun w st id in
    let st2 : GenState = twice w' st1 in
    let key : work_key w' ≡ work_key w =
      ap (λ t. func_invocations ++ (to_string t ++ codes "/uv__fs_work")) thread in
    let once : find (work_key w') st1.store ≡ some (int_ptr 1) =
      ap (λ k. find k st1.store) key ∙ find-begun-work w st id in
    let count : find (work_key w') st2.store ≡ some (int_ptr 2) = find-twice w' st1 in
    let count' : find (work_key w) st2.store ≡ some (int_ptr 2) =
      ap (λ k. find k st2.store) (sym key) ∙ count in
    (
      st1,
      st2,
      wrap_pre_uv_fs_work-begun w st id idle submitted,
      pre_again w' st1 once (absent-begun w w' st id absent),
      post_again w' st2 count,
      post_again w st2 count',
      count',
      rw (find-assign (thread_key w) (work_key w') (int_ptr 2) st1.store)
          (find-begun-thread w st id),
    )
