-- ===== src/Node/Wrappers.antt =====
-- tools/drfsracer/NodeGenerator.cpp: the table of the wrappers, and the collection of a trace.
use fsracer.Prelude.{Option, none, some, List, [], ◌∷◌, Text, codes, text_ord}
use fsracer.Collections.Map.{Map, find, assign}
use fsracer.Generator.{GenState, Reply, done, ◌>>>◌, pop_from_store}
use fsracer.Generator.Emit.{Call, Handler, default_pre, default_post}
use fsracer.Node.{promise_set, timer_set}
use fsracer.Node.Syscalls.{
  wrap_post_open, wrap_post_status, wrap_post_uv_fs_work, wrap_pre_access, wrap_pre_chmod,
  wrap_pre_chown, wrap_pre_close, wrap_pre_lchown, wrap_pre_link, wrap_pre_lstat, wrap_pre_mkdir,
  wrap_pre_open, wrap_pre_readlink, wrap_pre_realpath, wrap_pre_rename, wrap_pre_rmdir,
  wrap_pre_stat, wrap_pre_symlink, wrap_pre_unlink, wrap_pre_utime, wrap_pre_uv_fs_work,
}
use fsracer.Node.Submit.{
  wrap_pre_uv_fs_access, wrap_pre_uv_fs_chmod, wrap_pre_uv_fs_chown, wrap_pre_uv_fs_close,
  wrap_pre_uv_fs_copyfile, wrap_pre_uv_fs_lchown, wrap_pre_uv_fs_link, wrap_pre_uv_fs_lstat,
  wrap_pre_uv_fs_mkdir, wrap_pre_uv_fs_open, wrap_pre_uv_fs_readlink, wrap_pre_uv_fs_realpath,
  wrap_pre_uv_fs_rename, wrap_pre_uv_fs_rmdir, wrap_pre_uv_fs_stat, wrap_pre_uv_fs_symlink,
  wrap_pre_uv_fs_unlink, wrap_pre_uv_fs_utime,
}
use fsracer.Node.Hooks.{
  wrap_pre_emit_after, wrap_pre_emit_before, wrap_pre_emit_init, wrap_pre_new_async_id,
  wrap_pre_new_tick_info, wrap_pre_promise_resolve, wrap_pre_promise_wrap, wrap_pre_start,
  wrap_pre_thenable, wrap_pre_timerwrap,
}

pub record Wrapper : Type 0 where
  pub pre : Handler
  pub post : Option Handler

-- `PRE_WRAP`: the function is pushed after its wrapper has run.
unfoldable pub pre_wrap : Handler → Handler
unfolding default_pre
pre_wrap f c st = f c st >>> default_pre c

abbrev pub entry : Text → Handler → Option Handler → Text × Wrapper
entry func_name pre post = (func_name, record { pre = pre; post = post })

-- The entries, in the order of their assignment.
unfoldable pub entries : List (Text × Wrapper)
unfolding pre_wrap
entries =
    entry (codes "access") wrap_pre_access none
    ∷ entry (codes "chmod") wrap_pre_chmod none
    ∷ entry (codes "chown") wrap_pre_chown none
    ∷ entry (codes "open") wrap_pre_open (some wrap_post_open)
    ∷ entry (codes "close") wrap_pre_close (some wrap_post_status)
    ∷ entry (codes "lchown") wrap_pre_lchown none
    ∷ entry (codes "link") wrap_pre_link (some wrap_post_status)
    ∷ entry (codes "lstat") wrap_pre_lstat none
    ∷ entry (codes "mkdir") wrap_pre_mkdir (some wrap_post_status)
    ∷ entry (codes "readlink") wrap_pre_readlink none
    ∷ entry (codes "realpath") wrap_pre_realpath none
    ∷ entry (codes "rename") wrap_pre_rename (some wrap_post_status)
    ∷ entry (codes "rmdir") wrap_pre_rmdir (some wrap_post_status)
    ∷ entry (codes "stat") wrap_pre_stat none
    ∷ entry (codes "symlink") wrap_pre_symlink (some wrap_post_status)
    ∷ entry (codes "unlink") wrap_pre_unlink (some wrap_post_status)
    ∷ entry (codes "utime") wrap_pre_utime none
    ∷ entry (codes "uv__fs_work") wrap_pre_uv_fs_work (some wrap_post_uv_fs_work)
    ∷ entry (codes "uv_fs_copyfile") wrap_pre_uv_fs_copyfile none
    ∷ entry (codes "uv_fs_access") wrap_pre_uv_fs_access none
    ∷ entry (codes "uv_fs_chmod") wrap_pre_uv_fs_chmod none
    ∷ entry (codes "uv_fs_chown") wrap_pre_uv_fs_chown none
    ∷ entry (codes "uv_fs_open") wrap_pre_uv_fs_open none
    ∷ entry (codes "uv_fs_close") wrap_pre_uv_fs_close none
    ∷ entry (codes "uv_fs_lchown") wrap_pre_uv_fs_lchown none
    ∷ entry (codes "uv_fs_link") wrap_pre_uv_fs_link none
    ∷ entry (codes "uv_fs_lstat") wrap_pre_uv_fs_lstat none
    ∷ entry (codes "uv_fs_mkdir") wrap_pre_uv_fs_mkdir none
    ∷ entry (codes "uv_fs_readlink") wrap_pre_uv_fs_readlink none
    ∷ entry (codes "uv_fs_realpath") wrap_pre_uv_fs_realpath none
    ∷ entry (codes "uv_fs_rename") wrap_pre_uv_fs_rename none
    ∷ entry (codes "uv_fs_rmdir") wrap_pre_uv_fs_rmdir none
    ∷ entry (codes "uv_fs_stat") wrap_pre_uv_fs_stat none
    ∷ entry (codes "uv_fs_symlink") wrap_pre_uv_fs_symlink none
    ∷ entry (codes "uv_fs_unlink") wrap_pre_uv_fs_unlink none
    ∷ entry (codes "uv_fs_utime") wrap_pre_uv_fs_utime none
    ∷ entry (codes "node::Start") (pre_wrap wrap_pre_start) (some default_post)
    ∷ entry (codes "node::Environment::AsyncHooks::push_async_ids") (pre_wrap wrap_pre_emit_before)
        (some default_post)
    ∷ entry (codes "node::Environment::AsyncHooks::pop_async_id") (pre_wrap wrap_pre_emit_after)
        (some default_post)
    ∷ entry (codes "node::AsyncWrap::EmitAsyncInit") (pre_wrap wrap_pre_emit_init)
        (some default_post)
    ∷ entry (codes "node::(anonymous namespace)::TimerWrap::Now") (pre_wrap wrap_pre_timerwrap)
        (some default_post)
    ∷ entry (codes "node::(anonymous namespace)::TimerWrap::New") default_pre (some default_post)
    ∷ entry (codes "node::AsyncWrap::EmitPromiseResolve") (pre_wrap wrap_pre_promise_resolve)
        (some default_post)
    ∷ entry (codes "node::PromiseWrap::New") (pre_wrap wrap_pre_promise_wrap) (some default_post)
    ∷ entry (codes "node::AsyncWrap::NewAsyncId") (pre_wrap wrap_pre_new_async_id)
        (some default_post)
    ∷ entry (codes "node::AsyncWrap::NewTickInfo") (pre_wrap wrap_pre_new_tick_info)
        (some default_post)
    ∷ entry (codes "v8::internal::Factory::NewPromiseResolveThenableJobTask") wrap_pre_thenable none
    ∷ []

unfoldable pub assign_all : List (Text × Wrapper) → Map Text Wrapper → Map Text Wrapper
unfolding assign
assign_all [] m = m
assign_all ((func_name, w) ∷ rest) m = assign_all rest (assign func_name w m)

unfoldable pub get_wrappers : Map Text Wrapper
unfolding assign_all entries
get_wrappers = assign_all entries []

-- `Stop` takes the two sets out of the store.
unfoldable pub stop : GenState → GenState
unfolding pop_from_store
stop st = (pop_from_store timer_set (pop_from_store promise_set st).1).1

-- What the instrumented program does to the collection: a function begins or returns.
pub data Moment : Type 0 where
  begins returns : Text → Call → Moment

abbrev pub handle : Option Handler → Handler
handle none c st = done st
handle (some f) c st = f c st

abbrev pub pre_of : Option Wrapper → Option Handler
pre_of none = none
pre_of (some w) = some w.pre

abbrev pub post_of : Option Wrapper → Option Handler
post_of none = none
post_of (some w) = w.post

-- DynamoRIO calls the wrappers of the function, if it has them.
unfoldable pub step : Moment → GenState → Reply GenState
unfolding get_wrappers find
step (begins func_name c) st = handle (pre_of (find func_name get_wrappers)) c st
step (returns func_name c) st = handle (post_of (find func_name get_wrappers)) c st

unfoldable pub collect : List Moment → GenState → Reply GenState
unfolding step
collect [] st = done st
collect (m ∷ ms) st = step m st >>> collect ms
