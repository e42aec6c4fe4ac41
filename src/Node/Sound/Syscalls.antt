-- ===== src/Node/Sound/Syscalls.antt =====
-- The wrappers of the system calls and of `uv__fs_work`.
use fsracer.Prelude.{
  ℕ, ◌+◌, ◌≡◌, refl, Bool, true, false, Option, none, some, [], ◌∷◌, ◌++◌, Text, codes, text_ord,
  if◌then◌else◌, length, length-append, arith, Option-cases, Bool-cases, inl, inr, ◌==◌, ◌||◌,
}
use fsracer.Collections.Map.{find, assign}
use fsracer.Utils.{to_string, starts_with, ptr_to_string}
use fsracer.Operation.{EffectType, consumed, produced, expunged}
use fsracer.Trace.{ExecOp, mark_last_operation_failed, add_exec_op}
use fsracer.Generator.{
  GenState, Value, int_ptr, chars, exec_op_ptr, done, add_to_store, get_store_value, pop_from_store,
  delete_from_store, as_int, as_string, as_chars,
}
use fsracer.Generator.Emit.{
  Call, on_checked_exec_op, emit_hpath, emit_del_fd, emit_link, emit_rename, emit_symlink,
  mark_operation_status, is_negative,
}
use fsracer.Node.{threads, operations, get_exec_op}
use fsracer.Node.Syscalls.{
  wrap_pre_link, wrap_pre_open, wrap_post_open, wrap_pre_rename, wrap_post_status, open_key,
  open_effect, opened, work_key, uv_fs_t_ptr, count_work, start_exec_op, start_submitted,
  wrap_pre_uv_fs_work, wrap_post_uv_fs_work,
}
use fsracer.Node.Sound.{Kind, kind_at, IsSound, Fits, Ends, Ends-bind, Keeps, Keeps-then, if_Ends}
use fsracer.Node.Sound.Stores.{
  add_to_store-IsSound, pop_from_store-Popped, on_exec_op-Ends, keep_blocks, Fits-le, Fits-assign,
  as_int-Ends, as_string-Ends, as_chars-Ends,
}

abbrev pub thread_key : Call → Text
thread_key c = threads ++ to_string c.thread_id

pub kind_at-thread_key : (c : Call) → kind_at (thread_key c) ≡ Kind.execution
unfolding starts_with
kind_at-thread_key c = refl

kind_at-open_key : (c : Call) → kind_at (open_key c) ≡ Kind.path
unfolding starts_with
kind_at-open_key c = refl

pub kind_at-work_key : (c : Call) → kind_at (work_key c) ≡ Kind.number
unfolding starts_with
kind_at-work_key c = refl

pub kind_at-operations : (str : Text) → kind_at (operations ++ str) ≡ Kind.text
unfolding starts_with
kind_at-operations str = refl

on_checked_exec_op-Keeps : (f : ExecOp → ExecOp) → Keeps (on_checked_exec_op get_exec_op f)
unfolding get_exec_op get_store_value
on_checked_exec_op-Keeps f c st s = elim (Option-cases (find (thread_key c) st.store)) [
  | inl absent ↦ rw (on_checked_exec_op, absent) s
  | inr (v, found) ↦
      rw (on_checked_exec_op, found)
        (on_exec_op-Ends f (thread_key c) v st (kind_at-thread_key c) s
          (s.fits (thread_key c) v found))
]

pub emit_hpath-Keeps :
    (n : ℕ) (effect : EffectType) (follow : Bool) (name : Text)
    → Keeps (emit_hpath n effect follow get_exec_op name)
unfolding emit_hpath
emit_hpath-Keeps n effect follow name c = on_checked_exec_op-Keeps _ c

pub emit_del_fd-Keeps : (n : ℕ) (name : Text) → Keeps (emit_del_fd n get_exec_op name)
unfolding emit_del_fd
emit_del_fd-Keeps n name c = on_checked_exec_op-Keeps _ c

pub emit_symlink-Keeps : (m n : ℕ) (name : Text) → Keeps (emit_symlink m n get_exec_op name)
unfolding emit_symlink
emit_symlink-Keeps m n name c = on_checked_exec_op-Keeps _ c

pub wrap_post_status-Keeps : Keeps wrap_post_status
unfolding wrap_post_status mark_operation_status
wrap_post_status-Keeps c st s = elim (Bool-cases (is_negative c.result)) [
  | inl t ↦ rw t (on_checked_exec_op-Keeps mark_last_operation_failed c st s)
  | inr f ↦ rw f s
]

emit_link-Keeps : (m n : ℕ) (name : Text) → Keeps (emit_link m n get_exec_op name)
unfolding emit_link
emit_link-Keeps m n name c = on_checked_exec_op-Keeps _ c

emit_rename-Keeps : (m n : ℕ) (name : Text) → Keeps (emit_rename m n get_exec_op name)
unfolding emit_rename
emit_rename-Keeps m n name c = on_checked_exec_op-Keeps _ c

pub wrap_pre_link-Keeps : Keeps wrap_pre_link
unfolding wrap_pre_link
wrap_pre_link-Keeps = Keeps-then _ _ (emit_hpath-Keeps 0 consumed false (codes "link")) (
    Keeps-then _ _ (emit_hpath-Keeps 1 produced false (codes "link"))
      (emit_link-Keeps 0 1 (codes "link")))

pub wrap_pre_rename-Keeps : Keeps wrap_pre_rename
unfolding wrap_pre_rename
wrap_pre_rename-Keeps = Keeps-then _ _ (emit_hpath-Keeps 0 expunged true (codes "rename")) (
    Keeps-then _ _ (emit_hpath-Keeps 1 produced true (codes "rename"))
      (emit_rename-Keeps 0 1 (codes "rename")))

pub wrap_pre_open-Keeps : Keeps wrap_pre_open
unfolding wrap_pre_open
wrap_pre_open-Keeps c st s =
    Ends-bind IsSound IsSound
      (emit_hpath 0 (open_effect (c.num_arg 1)) true get_exec_op (codes "open") c st)
      (λ st1. done (add_to_store (open_key c) (chars (c.path_arg 0)) st1))
      (emit_hpath-Keeps 0 (open_effect (c.num_arg 1)) true (codes "open") c st s)
      (λ st1 s1.
        add_to_store-IsSound (open_key c) (chars (c.path_arg 0)) st1 s1 (kind_at-open_key c))

pub wrap_post_open-Keeps : Keeps wrap_post_open
unfolding wrap_post_open
wrap_post_open-Keeps c st s =
    let p = pop_from_store-Popped (open_key c) st s in
    let (value, st1) = pop_from_store (open_key c) st in
    Ends-bind (λ _. Unit {0}) IsSound (as_chars (pop_from_store (open_key c) st).0)
      (λ path.
        on_checked_exec_op get_exec_op
          (λ e. record e { operations = e.operations ++ opened path c ∷ [] }) c
          (pop_from_store (open_key c) st).1)
      (as_chars-Ends (length st.trace.exec_ops) (open_key c) (pop_from_store (open_key c) st).0
        (kind_at-open_key c) p.value)
      (λ path _. on_checked_exec_op-Keeps _ c (pop_from_store (open_key c) st).1 p.sound)

count_work-Keeps : Keeps count_work
unfolding count_work get_store_value
count_work-Keeps c st s = elim (Option-cases (find (work_key c) st.store)) [
  | inl absent ↦
      rw (count_work, absent)
        (add_to_store-IsSound (work_key c) (int_ptr 1) st s (kind_at-work_key c))
  | inr (v, found) ↦
      rw (count_work, found)
        (Ends-bind (λ _. Unit {0}) IsSound (as_int v)
          (λ count. done (add_to_store (work_key c) (int_ptr (count + 1)) st))
          (as_int-Ends (length st.trace.exec_ops) (work_key c) v (kind_at-work_key c)
            (s.fits (work_key c) v found))
          (λ count _.
            add_to_store-IsSound (work_key c) (int_ptr (count + 1)) st s (kind_at-work_key c)))
]

start_exec_op-Keeps : (op_id : Text) → Keeps (start_exec_op op_id)
unfolding start_exec_op add_to_store add_exec_op
start_exec_op-Keeps op_id c st s =
    let e : ExecOp = record { id = op_id; operations = [] } in
    let n : ℕ = length st.trace.exec_ops in
    let longer : length (st.trace.exec_ops ++ e ∷ []) ≡ n + 1 =
      length-append st.trace.exec_ops (e ∷ []) in
    keep_blocks st
      (record st {
        store = assign (thread_key c) (exec_op_ptr n) st.store;
        trace = record st.trace { exec_ops = st.trace.exec_ops ++ e ∷ [] };
      })
      s refl refl refl refl
      (Fits-assign (length (st.trace.exec_ops ++ e ∷ [])) (thread_key c) (exec_op_ptr n) st.store
        (λ key v found. Fits-le n _ key v (omega (arith, longer)) (s.fits key v found))
        (kind_at-thread_key c, omega (arith, longer)))

start_submitted-Ends :
    (n : ℕ) (str : Text) (value : Option Value) (c : Call) (st : GenState)
    → IsSound st
    → ((v : Value) → value ≡ some v → Fits n (operations ++ str) v)
    → Ends IsSound (start_submitted value c st)
start_submitted-Ends n str none c st s fit = s
start_submitted-Ends n str (some v) c st s fit =
    Ends-bind (λ _. Unit {0}) IsSound (as_string v) (λ op_id. start_exec_op op_id c st)
      (as_string-Ends n (operations ++ str) v (kind_at-operations str) (fit v refl))
      (λ op_id _. start_exec_op-Keeps op_id c st s)

pub wrap_pre_uv_fs_work-Keeps : Keeps wrap_pre_uv_fs_work
unfolding wrap_pre_uv_fs_work
wrap_pre_uv_fs_work-Keeps c st s =
    let str : Text = ptr_to_string (uv_fs_t_ptr c) in
    Ends-bind IsSound IsSound (count_work c st)
      (λ st1.
        start_submitted (pop_from_store (operations ++ str) st1).0 c
          (pop_from_store (operations ++ str) st1).1)
      (count_work-Keeps c st s)
      (λ st1 s1.
        let p = pop_from_store-Popped (operations ++ str) st1 s1 in
        start_submitted-Ends (length st1.trace.exec_ops) str
          (pop_from_store (operations ++ str) st1).0 c (pop_from_store (operations ++ str) st1).1
          p.sound p.value)

delete-IsSound : (key : Text) (st : GenState) → IsSound st → IsSound (delete_from_store key st)
unfolding delete_from_store
delete-IsSound key st s = (pop_from_store-Popped key st s).sound

pub wrap_post_uv_fs_work-Keeps : Keeps wrap_post_uv_fs_work
unfolding wrap_post_uv_fs_work get_store_value
wrap_post_uv_fs_work-Keeps c st s = elim (Option-cases (find (work_key c) st.store)) [
  | inl absent ↦ rw (wrap_post_uv_fs_work, absent) s
  | inr (v, found) ↦
      rw (wrap_post_uv_fs_work, found)
        (Ends-bind (λ _. Unit {0}) IsSound (as_int v)
          (λ count.
            if (count == 0) || (count == 1)
            then done (delete_from_store (thread_key c) (delete_from_store (work_key c) st))
            else done st)
          (as_int-Ends (length st.trace.exec_ops) (work_key c) v (kind_at-work_key c)
            (s.fits (work_key c) v found))
          (λ count _.
            if_Ends IsSound ((count == 0) || (count == 1)) _ _
              (delete-IsSound (thread_key c) _ (delete-IsSound (work_key c) st s)) s))
]
