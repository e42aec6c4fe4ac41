-- ===== src/Node/Sound/Collect.antt =====
-- The collection of a trace by any calls of the wrappers.
use fsracer.Prelude.{
  ◌≡◌, refl, subst, Bool, true, false, Option, none, some, List, [], ◌∷◌, Text, codes, text_ord,
  same, if◌then◌else◌, Bool-cases, Option-cases, inl, inr, arith,
}
use fsracer.Collections.Map.{Map, find, assign, find-assign}
use fsracer.Utils.{ptr_to_string}
use fsracer.Operation.{consumed, produced, expunged}
use fsracer.Generator.{GenState, new_generator, push_function, pop_stack, get_func_name}
use fsracer.Generator.Emit.{Handler, default_pre, default_post}
use fsracer.Node.Syscalls.{
  wrap_pre_access, wrap_pre_chmod, wrap_pre_chown, wrap_pre_close, wrap_pre_lchown, wrap_pre_link,
  wrap_pre_lstat, wrap_pre_mkdir, wrap_pre_open, wrap_pre_readlink, wrap_pre_realpath,
  wrap_pre_rename, wrap_pre_rmdir, wrap_pre_stat, wrap_pre_symlink, wrap_pre_unlink, wrap_pre_utime,
  wrap_pre_uv_fs_work,
}
use fsracer.Node.Submit.{
  wrap_pre_uv_fs_access, wrap_pre_uv_fs_chmod, wrap_pre_uv_fs_chown, wrap_pre_uv_fs_close,
  wrap_pre_uv_fs_copyfile, wrap_pre_uv_fs_lchown, wrap_pre_uv_fs_link, wrap_pre_uv_fs_lstat,
  wrap_pre_uv_fs_mkdir, wrap_pre_uv_fs_open, wrap_pre_uv_fs_readlink, wrap_pre_uv_fs_realpath,
  wrap_pre_uv_fs_rename, wrap_pre_uv_fs_rmdir, wrap_pre_uv_fs_stat, wrap_pre_uv_fs_symlink,
  wrap_pre_uv_fs_unlink, wrap_pre_uv_fs_utime,
}
use fsracer.Node.Hooks.{
  wrap_pre_emit_after, wrap_pre_emit_before, wrap_pre_emit_init, wrap_pre_new_async_id,
  wrap_pre_new_tick_info, wrap_pre_promise_resolve, wrap_pre_promise_wrap, wrap_pre_start,
  wrap_pre_thenable, wrap_pre_timerwrap,
}
use fsracer.Node.Wrappers.{
  Wrapper, pre_wrap, entries, assign_all, get_wrappers, Moment, begins, returns, handle, step,
  collect,
}
use fsracer.Node.Sound.{IsSound, Ends, Ends-bind, Keeps}
use fsracer.Node.Sound.Stores.{keep_blocks}
use fsracer.Node.Sound.Syscalls.{
  emit_hpath-Keeps, emit_del_fd-Keeps, emit_symlink-Keeps, wrap_post_status-Keeps,
  wrap_pre_link-Keeps, wrap_pre_rename-Keeps, wrap_pre_open-Keeps, wrap_post_open-Keeps,
  wrap_pre_uv_fs_work-Keeps, wrap_post_uv_fs_work-Keeps,
}
use fsracer.Node.Sound.Submit.{add_submit_op-Keeps}
use fsracer.Node.Sound.Hooks.{wrap_pre_emit_before-Keeps, wrap_pre_emit_after-Keeps}
use fsracer.Node.Sound.Events.{
  wrap_pre_emit_init-Keeps, wrap_pre_new_async_id-Keeps, wrap_pre_new_tick_info-Keeps,
  wrap_pre_promise_resolve-Keeps, wrap_pre_promise_wrap-Keeps, wrap_pre_start-Keeps,
  wrap_pre_thenable-Keeps, wrap_pre_timerwrap-Keeps,
}

push-IsSound : (name : Text) (st : GenState) → IsSound st → IsSound (push_function name st)
unfolding push_function
push-IsSound name st s = keep_blocks st (push_function name st) s refl refl refl refl s.fits

default_pre-Keeps : Keeps default_pre
unfolding default_pre
default_pre-Keeps c st s = by_name (same (get_func_name (ptr_to_string c.func) st) [])
  where
    by_name :
        (unknown : Bool)
        → IsSound
            (if unknown then st else push_function (get_func_name (ptr_to_string c.func) st) st)
    by_name true = s
    by_name false = push-IsSound (get_func_name (ptr_to_string c.func) st) st s

default_post-Keeps : Keeps default_post
unfolding default_post pop_stack
default_post-Keeps c st s = keep_blocks st (pop_stack st) s refl refl refl refl s.fits

pre_wrap-Keeps : (f : Handler) → Keeps f → Keeps (pre_wrap f)
unfolding pre_wrap
pre_wrap-Keeps f k c st s =
    Ends-bind IsSound IsSound (f c st) (default_pre c) (k c st s) (default_pre-Keeps c)

abbrev PostKeeps : Option Handler → Type 0
PostKeeps none = Unit
PostKeeps (some f) = Keeps f

abbrev WrapperKeeps : Wrapper → Type 0
WrapperKeeps w = Keeps w.pre × PostKeeps w.post

infixr 4 ◌&◌
-- A pair, for a row of them.
abbrev ◌&◌ : {A B : Type 0} → A → B → A × B
a & b = (a, b)

abbrev AllKeep : List (Text × Wrapper) → Type 0
AllKeep [] = Unit
AllKeep ((_, w) ∷ rest) = WrapperKeeps w × AllKeep rest

entries-AllKeep : AllKeep entries
unfolding entries wrap_pre_access wrap_pre_chmod wrap_pre_chown wrap_pre_close wrap_pre_emit_after
    wrap_pre_emit_before wrap_pre_emit_init wrap_pre_lchown wrap_pre_link wrap_pre_lstat
    wrap_pre_mkdir wrap_pre_new_async_id wrap_pre_new_tick_info wrap_pre_open
    wrap_pre_promise_resolve wrap_pre_promise_wrap wrap_pre_readlink wrap_pre_realpath
    wrap_pre_rename wrap_pre_rmdir wrap_pre_start wrap_pre_stat wrap_pre_symlink wrap_pre_thenable
    wrap_pre_timerwrap wrap_pre_unlink wrap_pre_utime wrap_pre_uv_fs_access wrap_pre_uv_fs_chmod
    wrap_pre_uv_fs_chown wrap_pre_uv_fs_close wrap_pre_uv_fs_copyfile wrap_pre_uv_fs_lchown
    wrap_pre_uv_fs_link wrap_pre_uv_fs_lstat wrap_pre_uv_fs_mkdir wrap_pre_uv_fs_open
    wrap_pre_uv_fs_readlink wrap_pre_uv_fs_realpath wrap_pre_uv_fs_rename wrap_pre_uv_fs_rmdir
    wrap_pre_uv_fs_stat wrap_pre_uv_fs_symlink wrap_pre_uv_fs_unlink wrap_pre_uv_fs_utime
    wrap_pre_uv_fs_work
entries-AllKeep =
    (emit_hpath-Keeps 0 consumed true (codes "access"), tt)
    & (emit_hpath-Keeps 0 consumed true (codes "chmod"), tt)
    & (emit_hpath-Keeps 0 consumed true (codes "chown"), tt)
    & (wrap_pre_open-Keeps, wrap_post_open-Keeps)
    & (emit_del_fd-Keeps 0 (codes "close"), wrap_post_status-Keeps)
    & (emit_hpath-Keeps 0 consumed false (codes "lchown"), tt)
    & (wrap_pre_link-Keeps, wrap_post_status-Keeps)
    & (emit_hpath-Keeps 0 consumed false (codes "lstat"), tt)
    & (emit_hpath-Keeps 0 produced false (codes "mkdir"), wrap_post_status-Keeps)
    & (emit_hpath-Keeps 0 consumed true (codes "readlink"), tt)
    & (emit_hpath-Keeps 0 consumed true (codes "realpath"), tt)
    & (wrap_pre_rename-Keeps, wrap_post_status-Keeps)
    & (emit_hpath-Keeps 0 expunged true (codes "rmdir"), wrap_post_status-Keeps)
    & (emit_hpath-Keeps 0 consumed true (codes "stat"), tt)
    & (emit_symlink-Keeps 0 1 (codes "symlink"), wrap_post_status-Keeps)
    & (emit_hpath-Keeps 0 expunged true (codes "unlink"), wrap_post_status-Keeps)
    & (emit_hpath-Keeps 0 consumed true (codes "utime"), tt)
    & (wrap_pre_uv_fs_work-Keeps, wrap_post_uv_fs_work-Keeps)
    & (add_submit_op-Keeps (codes "node_copyFile") 5, tt)
    & (add_submit_op-Keeps (codes "node_access") 4, tt)
    & (add_submit_op-Keeps (codes "node_chmod") 4, tt)
    & (add_submit_op-Keeps (codes "node_chown") 5, tt)
    & (add_submit_op-Keeps (codes "node_open") 5, tt)
    & (add_submit_op-Keeps (codes "node_close") 3, tt)
    & (add_submit_op-Keeps (codes "node_lchown") 5, tt)
    & (add_submit_op-Keeps (codes "node_link") 4, tt)
    & (add_submit_op-Keeps (codes "node_lstat") 3, tt)
    & (add_submit_op-Keeps (codes "node_mkdir") 4, tt)
    & (add_submit_op-Keeps (codes "node_readlink") 3, tt)
    & (add_submit_op-Keeps (codes "node_realpath") 3, tt)
    & (add_submit_op-Keeps (codes "node_rename") 4, tt)
    & (add_submit_op-Keeps (codes "node_rmdir") 3, tt)
    & (add_submit_op-Keeps (codes "node_stat") 3, tt)
    & (add_submit_op-Keeps (codes "node_symlink") 5, tt)
    & (add_submit_op-Keeps (codes "node_unlink") 3, tt)
    & (add_submit_op-Keeps (codes "node_utime") 5, tt)
    & (pre_wrap-Keeps wrap_pre_start wrap_pre_start-Keeps, default_post-Keeps)
    & (pre_wrap-Keeps wrap_pre_emit_before wrap_pre_emit_before-Keeps, default_post-Keeps)
    & (pre_wrap-Keeps wrap_pre_emit_after wrap_pre_emit_after-Keeps, default_post-Keeps)
    & (pre_wrap-Keeps wrap_pre_emit_init wrap_pre_emit_init-Keeps, default_post-Keeps)
    & (pre_wrap-Keeps wrap_pre_timerwrap wrap_pre_timerwrap-Keeps, default_post-Keeps)
    & (default_pre-Keeps, default_post-Keeps)
    & (pre_wrap-Keeps wrap_pre_promise_resolve wrap_pre_promise_resolve-Keeps, default_post-Keeps)
    & (pre_wrap-Keeps wrap_pre_promise_wrap wrap_pre_promise_wrap-Keeps, default_post-Keeps)
    & (pre_wrap-Keeps wrap_pre_new_async_id wrap_pre_new_async_id-Keeps, default_post-Keeps)
    & (pre_wrap-Keeps wrap_pre_new_tick_info wrap_pre_new_tick_info-Keeps, default_post-Keeps)
    & (wrap_pre_thenable-Keeps, tt)
    & tt

assign_all-Keeps :
    (es : List (Text × Wrapper)) (m : Map Text Wrapper)
    → AllKeep es
    → ((k : Text) (w : Wrapper) → find k m ≡ some w → WrapperKeeps w)
    → (k : Text) (w : Wrapper) → find k (assign_all es m) ≡ some w
    → WrapperKeeps w
unfolding assign_all
assign_all-Keeps [] m all old k w found = old k w found
assign_all-Keeps ((name, v) ∷ es) m (one, all) old k w found =
    assign_all-Keeps es (assign name v m) all
      (λ j u here. elim (Bool-cases (same j name)) [
        | inl t ↦
            let stored : some v ≡ some u = rw (find-assign j name v m, t) at here in
            let last : v ≡ u = cc in subst WrapperKeeps last one
        | inr f ↦ old j u (rw (find-assign j name v m, f) at here)
      ])
      k w found

get_wrappers-Keeps : (k : Text) (w : Wrapper) → find k get_wrappers ≡ some w → WrapperKeeps w
unfolding get_wrappers find
get_wrappers-Keeps k w found =
    assign_all-Keeps entries [] entries-AllKeep (λ j u here. absurd (cc here)) k w found

pub step-Ends : (m : Moment) (st : GenState) → IsSound st → Ends IsSound (step m st)
unfolding step
step-Ends (begins name c) st s = elim (Option-cases (find name get_wrappers)) [
  | inl absent ↦ rw (step, absent) s
  | inr (w, found) ↦ rw (step, found) ((get_wrappers-Keeps name w found).0 c st s)
]
step-Ends (returns name c) st s = elim (Option-cases (find name get_wrappers)) [
  | inl absent ↦ rw (step, absent) s
  | inr (w, found) ↦ rw (step, found) (by_post w.post (get_wrappers-Keeps name w found).1)
]
  where
    by_post : (post : Option Handler) → PostKeeps post → Ends IsSound (handle post c st)
    by_post none k = s
    by_post (some f) k = k c st s

pub new_generator-IsSound : IsSound new_generator
unfolding new_generator find
new_generator-IsSound = record {
  fits = λ key v found. absurd (cc found);
  last = λ i e. absurd (cc e);
  chained = tt;
  rising = omega arith;
  unfailed = refl;
}

collect-Ends : (ms : List Moment) (st : GenState) → IsSound st → Ends IsSound (collect ms st)
unfolding collect
collect-Ends [] st s = s
collect-Ends (m ∷ ms) st s =
    Ends-bind IsSound IsSound (step m st) (collect ms) (step-Ends m st s) (collect-Ends ms)

-- A new generator, with the wrappers called for any functions that begin and return in any order, either
-- returns, or ends with an error set, or the program has called the functions in a wrong order: it looks
-- at the top of an empty stack, or an `open` returns that has not begun. So no pointer of the store is
-- read at another type than its own, no block or execution is used that the trace does not have, no index
-- is out of range, and no member is called on a null pointer. Where it returns, it has no error, each value
-- of the store is of the kind of its key, the current block is the last of the trace, each link stands
-- right behind the creation of its target, and the numbers of the main blocks rise up to their count.
pub collect-IsSound : (ms : List Moment) → Ends IsSound (collect ms new_generator)
collect-IsSound ms = collect-Ends ms new_generator new_generator-IsSound
