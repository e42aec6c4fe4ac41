-- ===== src/FsAnalyzer/Safe.antt =====
-- Operations that the analyzer takes without a fault, whatever the tables hold.
use fsracer.Prelude.{
  ℕ, ◌≡◌, ◌≢◌, refl, ◌∙◌, Bool, true, List, [], ◌∷◌, Text, text_ord, nat_ord, pair_ord, Result, ok,
  ℤ, pos, negsuc,
}
use fsracer.Operation.{
  Operation, Action, EffectType, consumed, produced, expunged, del_fd, dup_fd, hpath, hpath_sym,
  link, new_fd, new_proc, nop, rename, set_cwd, symlink,
}
use fsracer.Trace.{DebugInfo}
use fsracer.FilePath.{FilePath, is_absolute, root, parent_path, filename, path_of_text}
use fsracer.Table.{add_entry}
use fsracer.InodeTable.{open_inode, add_new_entry}
use fsracer.InodeTable.ToInode.{to_inode-Leads, is_absolute-drop_last}
use fsracer.FsAnalyzer.{FsState, get_absolute_path}
use fsracer.FsAnalyzer.Effects.{add_path_effect-Updates}
use fsracer.FsAnalyzer.Accesses.{access_of}
use fsracer.FsAnalyzer.Operations.{
  analyze_new_fd, analyze_hpath, analyze_hpath_sym, analyze_symlink, analyze_operation,
  analyze_operations, process_path_effect, dereference, block_debug_info, record_access,
}

abbrev Reads : EffectType → Type 0
Reads effect = effect ≢ expunged

-- The operation names an absolute path, and removes nothing.
abbrev IsSafe : Action → Type 0
IsSafe (new_fd _ path _) = (is_absolute (path_of_text path) ≡ true) × (path_of_text path ≢ root)
IsSafe (hpath _ path effect) = (is_absolute (path_of_text path) ≡ true) × Reads effect
IsSafe (hpath_sym _ path effect) = (is_absolute (path_of_text path) ≡ true) × Reads effect
IsSafe (symlink _ path _) = is_absolute (path_of_text path) ≡ true
IsSafe (dup_fd _ _) = Unit
IsSafe (new_proc _ _) = Unit
IsSafe (set_cwd _) = Unit
IsSafe nop = Unit
IsSafe (del_fd _) = ⊥
IsSafe (link _ _ _ _) = ⊥
IsSafe (rename _ _ _ _) = ⊥

abbrev pub AllSafe : List Operation → Type 0
AllSafe [] = Unit
AllSafe (op ∷ ops) = IsSafe op.action × AllSafe ops

-- What the operations leave alone.
pub record Frame (st st' : FsState) : Type 0 where
  pub ops : st'.op_table ≡ st.op_table
  pub events : st'.event_info ≡ st.event_info
  pub block : st'.current_block ≡ st.current_block
  pub id : st'.block_id ≡ st.block_id

abbrev pub Returns : FsState → Result FsState → Type 0
Returns st r = (st' : FsState) × (r ≡ ok st') × Frame st st'

abbrev unchanged : (st : FsState) → Frame st st
unchanged st = record { ops = refl; events = refl; block = refl; id = refl }

module _ (st : FsState) (debug : DebugInfo) (known : block_debug_info st ≡ ok debug)
    (name : Text) where
  process_path_effect-Returns :
      (p : FilePath) (effect : EffectType)
      → Reads effect
      → Returns st (process_path_effect p effect name st)
  unfolding process_path_effect
  process_path_effect-Returns p effect reads =
      let (t, e, _) =
        add_path_effect-Updates p (access_of st effect debug name) st.block_accesses in
      (
        record st { block_accesses = t },
        by_effect effect reads (record st { block_accesses = t }) (rw (record_access, e) refl),
        record { ops = refl; events = refl; block = refl; id = refl },
      )
    where
      by_effect :
          (effect : EffectType)
          → Reads effect
          → (st' : FsState) → record_access p effect debug name st ≡ ok st'
          → process_path_effect p effect name st ≡ ok st'
      by_effect consumed ne st' r = rw (process_path_effect, known) r
      by_effect produced ne st' r = rw (process_path_effect, known) r
      by_effect expunged ne st' r = absurd (ne refl)

module _ (st : FsState) (debug : DebugInfo) (known : block_debug_info st ≡ ok debug) where
  analyze_hpath-Returns :
      (dirfd : ℕ) (path : Text) (effect : EffectType) (name : Text)
      → is_absolute (path_of_text path) ≡ true
      → Reads effect
      → Returns st (analyze_hpath dirfd path effect name st)
  unfolding analyze_hpath get_absolute_path
  analyze_hpath-Returns dirfd path effect name absolute reads =
      let p : FilePath = path_of_text path in
      let (i, t, e, _, _, _) = to_inode-Leads p st.inode_table absolute in
      let st1 : FsState = record st { inode_table = t } in
      let (st', r, f) =
        process_path_effect-Returns st1 debug known name (dereference i p st1) effect reads in
      (
        st',
        rw (analyze_hpath, get_absolute_path, absolute, e) r,
        record { ops = f.ops; events = f.events; block = f.block; id = f.id },
      )

  analyze_hpath_sym-Returns :
      (dirfd : ℕ) (path : Text) (effect : EffectType) (name : Text)
      → is_absolute (path_of_text path) ≡ true
      → Reads effect
      → Returns st (analyze_hpath_sym dirfd path effect name st)
  unfolding analyze_hpath_sym get_absolute_path
  analyze_hpath_sym-Returns dirfd path effect name absolute reads =
      let (st', r, f) =
        process_path_effect-Returns st debug known name (path_of_text path) effect reads in
      (st', rw (analyze_hpath_sym, get_absolute_path, absolute) r, f)

  analyze_new_fd-Returns :
      (dirfd : ℕ) (path : Text) (fd : ℤ)
      → is_absolute (path_of_text path) ≡ true
      → path_of_text path ≢ root
      → Returns st (analyze_new_fd dirfd path fd st)
  unfolding analyze_new_fd get_absolute_path
  analyze_new_fd-Returns dirfd path (negsuc n) absolute below = (st, refl, unchanged st)
  analyze_new_fd-Returns dirfd path (pos fd) absolute below =
      let p : FilePath = path_of_text path in
      let (i, t, e, _, _, _) =
        to_inode-Leads (parent_path p) st.inode_table (is_absolute-drop_last p absolute below) in
      (
        record st {
          inode_table = open_inode i (filename p) (add_new_entry i (filename p) p t);
          fd_table = add_entry (st.main_process, fd) (i, filename p) st.fd_table;
        },
        rw (analyze_new_fd, get_absolute_path, absolute, e) refl,
        record { ops = refl; events = refl; block = refl; id = refl },
      )

  analyze_symlink-Returns :
      (dirfd : ℕ) (path target : Text)
      → is_absolute (path_of_text path) ≡ true
      → Returns st (analyze_symlink dirfd path target st)
  unfolding analyze_symlink get_absolute_path
  analyze_symlink-Returns dirfd path target absolute =
      let (i, t, e, _, _, _) = to_inode-Leads (path_of_text path) st.inode_table absolute in
      (
        record st {
          inode_table = t;
          symlink_table = add_entry i (path_of_text target) st.symlink_table;
        },
        rw (analyze_symlink, get_absolute_path, absolute, e) refl,
        record { ops = refl; events = refl; block = refl; id = refl },
      )

  analyze_operation-Returns :
      (failed : Bool) (name : Text) (a : Action)
      → IsSafe a
      → Returns st
          (analyze_operation (record { failed = failed; actual_op_name = name; action = a }) st)
  unfolding analyze_operation
  analyze_operation-Returns failed name (new_fd dirfd path fd) (absolute, below) =
      analyze_new_fd-Returns dirfd path fd absolute below
  analyze_operation-Returns failed name (del_fd fd) safe = absurd safe
  analyze_operation-Returns failed name (hpath dirfd path effect) (absolute, reads) =
      analyze_hpath-Returns dirfd path effect name absolute reads
  analyze_operation-Returns failed name (hpath_sym dirfd path effect) (absolute, reads) =
      analyze_hpath_sym-Returns dirfd path effect name absolute reads
  analyze_operation-Returns failed name (link _ _ _ _) safe = absurd safe
  analyze_operation-Returns failed name (rename _ _ _ _) safe = absurd safe
  analyze_operation-Returns failed name (symlink dirfd path target) absolute =
      analyze_symlink-Returns dirfd path target absolute
  analyze_operation-Returns failed name (dup_fd _ _) safe = (st, refl, unchanged st)
  analyze_operation-Returns failed name (new_proc _ _) safe = (st, refl, unchanged st)
  analyze_operation-Returns failed name (set_cwd _) safe = (st, refl, unchanged st)
  analyze_operation-Returns failed name nop safe = (st, refl, unchanged st)

module _ (st st' : FsState) (f : Frame st st') where
  block_debug_info-Frame : block_debug_info st' ≡ block_debug_info st
  block_debug_info-Frame = rw (block_debug_info, f.id, f.events) refl

  Frame-trans : (st'' : FsState) → Frame st' st'' → Frame st st''
  Frame-trans st'' g = record {
    ops = g.ops ∙ f.ops;
    events = g.events ∙ f.events;
    block = g.block ∙ f.block;
    id = g.id ∙ f.id;
  }

-- In a block whose event is known, or that has none, the analyzer returns on operations that are
-- safe, whatever its tables hold, and keeps the block, the executions and the events.
pub analyze_operations-Returns :
    (ops : List Operation)
    → AllSafe ops
    → (st : FsState) (debug : DebugInfo) → block_debug_info st ≡ ok debug
    → Returns st (analyze_operations ops st)
unfolding analyze_operations
analyze_operations-Returns [] all st debug known = (st, refl, unchanged st)
analyze_operations-Returns (op ∷ ops) (safe, all) st debug known =
    let (st1, e, f) =
      analyze_operation-Returns st debug known op.failed op.actual_op_name op.action safe in
    let (st2, e', g) =
      analyze_operations-Returns ops all st1 debug (block_debug_info-Frame st st1 f ∙ known) in
    (st2, rw (analyze_operations, e) e', Frame-trans st st1 f st2 g)
