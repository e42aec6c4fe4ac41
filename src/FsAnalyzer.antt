-- ===== src/FsAnalyzer.antt =====
-- lib/FSAnalyzer.h and lib/FSAnalyzer.cpp: the accesses of the blocks to paths.
pub mod Operations
pub mod Blocks
pub mod Effects
pub mod History
pub mod Dump
pub mod Symlinks
pub mod Accesses
pub mod Safe
pub mod Known
pub mod Total
pub mod HardLinks
pub mod Collect
pub mod Descriptors
use fsracer.Prelude.{
  ℕ, zero, suc, Bool, true, false, Option, none, some, List, [], ◌∷◌, ◌++◌, Text, codes, Ord,
  text_ord, nat_ord, pair_ord, same, Result, ok, fail, bad_optional_access, ◌>>=◌, ◌==◌,
  if◌then◌else◌, ℤ, pos, negsuc,
}
use fsracer.Collections.Map.{Map, find}
use fsracer.Utils.{to_string, starts_with, get_right_substr}
use fsracer.Operation.{
  Operation, Action, EffectType, consumed, produced, expunged, del_fd, dup_fd, hpath, hpath_sym,
  link, rename, new_fd, new_proc, set_cwd, symlink, nop, at_fdcwd,
}
use fsracer.Trace.{
  DebugInfo, Expr, Construct, submit_op, new_event, SubmitType, ExecOp, Block, Trace,
  get_pretty_block_id,
}
use fsracer.FilePath.{FilePath, path_ord, is_absolute, parent_path, filename, join, path_of_text}
use fsracer.Table
use fsracer.Table.{Table, add_entry, get_value, pop_entry}
use fsracer.InodeTable
use fsracer.InodeTable.{
  InodeTable, InodeKey, new_table, to_inode, to_path, get_inode, open_inode, close_inode,
  add_new_entry, add_entry_for,
}

pub data OutFormat : Type 0 where
  json csv : OutFormat

pub record FsAccess : Type 0 where
  pub event_id : Text
  pub effect_type : EffectType
  pub debug_info : DebugInfo
  pub operation_name : Text

-- The accesses of the blocks, by path and event.
abbrev pub BlockAccesses : Type 0
BlockAccesses = Table (FilePath × Text) FsAccess

abbrev pub EffectTable : Type 0
EffectTable = Table FilePath (List FsAccess)

-- The fields of the analyzer. `event_info` holds the expressions, of which the debug information is
-- read.
pub record FsState : Type 0 where
  pub cwd_table : Table ℕ ℕ
  pub fd_table : Table (ℕ × ℕ) InodeKey
  pub symlink_table : Table ℕ FilePath
  pub inode_table : InodeTable
  pub effect_table : EffectTable
  pub block_accesses : BlockAccesses
  pub op_table : Table Text ExecOp
  pub event_info : Table Text Expr
  pub current_block : Option Block
  pub main_process : ℕ
  pub cwd : FilePath
  pub block_id : Text

-- The constructor.
unfoldable pub new_state : FsState
unfolding new_table
new_state = record {
  cwd_table = [];
  fd_table = [];
  symlink_table = [];
  inode_table = new_table;
  effect_table = [];
  block_accesses = [];
  op_table = [];
  event_info = [];
  current_block = none;
  main_process = 0;
  cwd = [];
  block_id = [];
}

-- What is kept of an access to a path that the same event has accessed before: `none` drops both.
abbrev pub merge : FsAccess → FsAccess → Option FsAccess
merge old fresh = elim fresh.effect_type [
  | consumed ↦ elim old.effect_type [ consumed ↦ some fresh | _ ↦ some old ]
  | produced ↦ some fresh
  | expunged ↦ elim old.effect_type [ produced ↦ none | _ ↦ some fresh ]
]

abbrev pub store_access : FilePath × Text → Option FsAccess → BlockAccesses → Result BlockAccesses
store_access key none t = Table.remove_entry key t
store_access key (some a) t = ok (add_entry key a t)

unfoldable pub add_path_effect : FilePath → FsAccess → BlockAccesses → Result BlockAccesses
unfolding Table.remove_entry
add_path_effect p access t =
    let key : FilePath × Text = (p, access.event_id) in
    elim (get_value key t) [
      | none ↦ ok (add_entry key access t)
      | some old ↦ store_access key (merge old access) t
    ]

unfoldable pub unlink_resource : ℕ → Text → FsState → Result FsState
unfolding InodeTable.remove_entry
unlink_resource inode_p basename st =
    InodeTable.remove_entry inode_p basename st.inode_table >>= λ t.
    ok (record st { inode_table = t })

unfoldable pub get_parent_dir : ℕ → FsState → Option FilePath
unfolding to_path get_inode
get_parent_dir dirfd st =
    let inode : Option ℕ =
      if dirfd == at_fdcwd
      then get_value st.main_process st.cwd_table
      else elim (get_value (st.main_process, dirfd) st.fd_table) [
        | none ↦ none
        | some (inode_p, basename) ↦ get_inode inode_p basename st.inode_table
      ] in
    elim inode [ none ↦ none | some i ↦ to_path i st.inode_table ]

unfoldable pub get_absolute_path : ℕ → FilePath → FsState → Option FilePath
unfolding get_parent_dir
get_absolute_path dirfd p st =
    if is_absolute p
    then some p
    else elim (get_parent_dir dirfd st) [ none ↦ none | some parent_p ↦ some (join parent_p p) ]
