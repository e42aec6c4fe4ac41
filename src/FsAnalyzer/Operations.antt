-- ===== src/FsAnalyzer/Operations.antt =====
-- lib/FSAnalyzer.cpp: what each file system operation does.
use fsracer.Prelude.{
  ℕ, Bool, false, Option, none, some, List, [], ◌∷◌, Text, codes, text_ord, nat_ord, pair_ord,
  Result, ok, fail, bad_optional_access, ◌>>=◌, ◌==◌, if◌then◌else◌, ℤ, pos, negsuc,
}
use fsracer.Utils.{starts_with}
use fsracer.Operation.{
  Operation, Action, EffectType, consumed, produced, expunged, del_fd, hpath, hpath_sym, link,
  rename, new_fd, symlink,
}
use fsracer.Trace.{DebugInfo}
use fsracer.FilePath.{FilePath, path_ord, parent_path, filename, path_of_text}
use fsracer.Table.{add_entry, get_value, pop_entry}
use fsracer.InodeTable.{to_inode, open_inode, close_inode, add_new_entry, add_entry_for}
use fsracer.FsAnalyzer.{FsAccess, FsState, add_path_effect, unlink_resource, get_absolute_path}

-- The debug information of the current block. A block that is not main has a `newEvent`, or `value()`
-- throws.
abbrev pub block_debug_info : FsState → Result DebugInfo
block_debug_info st =
    if starts_with st.block_id (codes "MAIN_")
    then ok (codes "main" ∷ [])
    else elim (get_value st.block_id st.event_info) [
      | none ↦ fail bad_optional_access
      | some e ↦ ok e.debug_info
    ]

abbrev pub record_access : FilePath → EffectType → DebugInfo → Text → FsState → Result FsState
record_access p effect debug name st =
    let access : FsAccess = record {
      event_id = st.block_id;
      effect_type = effect;
      debug_info = debug;
      operation_name = name;
    } in
    add_path_effect p access st.block_accesses >>= λ t. ok (record st { block_accesses = t })

-- Runs `ToInode` on the inode table of the analyzer.
abbrev pub inode_of : FilePath → FsState → Result (ℕ × FsState)
inode_of p st = to_inode p st.inode_table >>= λ (i, t). ok (i, record st { inode_table = t })

unfoldable pub process_path_effect : FilePath → EffectType → Text → FsState → Result FsState
unfolding add_path_effect unlink_resource to_inode
process_path_effect p effect name st = block_debug_info st >>= λ debug. elim effect [
  | consumed ↦ record_access p consumed debug name st
  | produced ↦ record_access p produced debug name st
  | expunged ↦ do
    (inode_p, st1) ← inode_of (parent_path p) st
    st2 ← record_access p expunged debug name st1
    unlink_resource inode_p (filename p) st2
]

unfoldable pub analyze_new_fd : ℕ → Text → ℤ → FsState → Result FsState
unfolding get_absolute_path to_inode add_new_entry open_inode
analyze_new_fd dirfd path (negsuc _) st = ok st
analyze_new_fd dirfd path (pos fd) st = elim (get_absolute_path dirfd (path_of_text path) st) [
  | none ↦ ok st
  | some p ↦ do
    (inode_p, st') ← inode_of (parent_path p) st
    let basename = filename p
    ok (record st' {
      inode_table = open_inode inode_p basename (add_new_entry inode_p basename p st'.inode_table);
      fd_table = add_entry (st'.main_process, fd) (inode_p, basename) st'.fd_table;
    })
]

unfoldable pub analyze_del_fd : ℕ → FsState → Result FsState
unfolding pop_entry close_inode
analyze_del_fd fd st = do
  ((inode_p, basename), fds) ← pop_entry (st.main_process, fd) st.fd_table
  t ← close_inode inode_p basename st.inode_table
  ok (record st { fd_table = fds; inode_table = t })

-- The target of a symbolic link, for a path that is one.
abbrev pub dereference : ℕ → FilePath → FsState → FilePath
dereference inode p st = elim (get_value inode st.symlink_table) [ none ↦ p | some target ↦ target ]

unfoldable pub analyze_hpath : ℕ → Text → EffectType → Text → FsState → Result FsState
unfolding get_absolute_path to_inode process_path_effect
analyze_hpath dirfd path effect name st = elim (get_absolute_path dirfd (path_of_text path) st) [
  | none ↦ ok st
  | some p ↦ do
    (inode, st') ← inode_of p st
    process_path_effect (dereference inode p st') effect name st'
]

unfoldable pub analyze_hpath_sym : ℕ → Text → EffectType → Text → FsState → Result FsState
unfolding get_absolute_path process_path_effect
analyze_hpath_sym dirfd path effect name st =
    elim (get_absolute_path dirfd (path_of_text path) st) [
      | none ↦ ok st
      | some p ↦ process_path_effect p effect name st
    ]

abbrev pub link_paths : FilePath → FilePath → FsState → Result FsState
link_paths old_path new_path st = do
  (inode, st1) ← inode_of old_path st
  (inode_p, st2) ← inode_of (parent_path new_path) st1
  let basename = filename new_path
  ok (record st2 { inode_table = add_entry_for inode_p basename new_path inode st2.inode_table })

-- Runs a step on two absolute paths, or does nothing if either is unknown.
abbrev pub with_paths :
    ℕ
    → Text
    → ℕ
    → Text
    → (FilePath → FilePath → FsState → Result FsState)
    → FsState
    → Result FsState
with_paths old_dirfd old_path new_dirfd new_path step st =
    elim (get_absolute_path old_dirfd (path_of_text old_path) st) [
      | none ↦ ok st
      | some p ↦ elim (get_absolute_path new_dirfd (path_of_text new_path) st) [
        | none ↦ ok st
        | some q ↦ step p q st
      ]
    ]

unfoldable pub analyze_link : ℕ → Text → ℕ → Text → FsState → Result FsState
unfolding get_absolute_path to_inode add_entry_for
analyze_link old_dirfd old_path new_dirfd new_path st =
    with_paths old_dirfd old_path new_dirfd new_path link_paths st

-- The end of `AnalyzeRename`, where the new path does not lead to the inode already.
abbrev pub move_entry : ℕ → ℕ → FilePath → FilePath → FsState → Result FsState
move_entry inode inode_p old_path new_path st = do
  let st1 = record st {
    inode_table = add_entry_for inode_p (filename new_path) new_path inode st.inode_table;
  }
  (old_p, st2) ← inode_of (parent_path old_path) st1
  unlink_resource old_p (filename old_path) st2

abbrev pub is_inode : ℕ → Option ℕ → Bool
is_inode i none = false
is_inode i (some j) = j == i

abbrev pub rename_paths : FilePath → FilePath → FsState → Result FsState
rename_paths old_path new_path st = do
  (inode, st1) ← inode_of old_path st
  (inode_p, st2) ← inode_of (parent_path new_path) st1
  if is_inode inode (get_value (inode_p, filename new_path) st2.inode_table.table)
      then ok st2
      else move_entry inode inode_p old_path new_path st2

unfoldable pub analyze_rename : ℕ → Text → ℕ → Text → FsState → Result FsState
unfolding get_absolute_path to_inode add_entry_for unlink_resource
analyze_rename old_dirfd old_path new_dirfd new_path st =
    with_paths old_dirfd old_path new_dirfd new_path rename_paths st

unfoldable pub analyze_symlink : ℕ → Text → Text → FsState → Result FsState
unfolding get_absolute_path to_inode
analyze_symlink dirfd path target st = elim (get_absolute_path dirfd (path_of_text path) st) [
  | none ↦ ok st
  | some p ↦ do
    (inode, st') ← inode_of p st
    ok (record st' { symlink_table = add_entry inode (path_of_text target) st'.symlink_table })
]

-- `Accept` of the operations. `DupFd`, `SetCwd` and `Nop` have no definition of it, and `NewProc`
-- stays abstract: no trace holds one, and none changes the state.
unfoldable pub analyze_operation : Operation → FsState → Result FsState
unfolding analyze_new_fd analyze_del_fd analyze_hpath analyze_hpath_sym analyze_link analyze_rename
    analyze_symlink
analyze_operation op st = accept op.action
  where
    accept : Action → Result FsState
    accept (new_fd dirfd path fd) = analyze_new_fd dirfd path fd st
    accept (del_fd fd) = analyze_del_fd fd st
    accept (hpath dirfd path effect) = analyze_hpath dirfd path effect op.actual_op_name st
    accept (hpath_sym dirfd path effect) = analyze_hpath_sym dirfd path effect op.actual_op_name st
    accept (link old_dirfd old_path new_dirfd new_path) =
        analyze_link old_dirfd old_path new_dirfd new_path st
    accept (rename old_dirfd old_path new_dirfd new_path) =
        analyze_rename old_dirfd old_path new_dirfd new_path st
    accept (symlink dirfd path target) = analyze_symlink dirfd path target st
    accept _ = ok st

unfoldable pub analyze_operations : List Operation → FsState → Result FsState
unfolding analyze_operation
analyze_operations [] st = ok st
analyze_operations (op ∷ ops) st = analyze_operation op st >>= analyze_operations ops
