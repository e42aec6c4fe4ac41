-- ===== src/FsAnalyzer/Accesses.antt =====
-- `Hpath`: the access that it records, and the entry that it removes.
use fsracer.Prelude.{
  ℕ, ◌≡◌, ◌≢◌, refl, true, Option, Option-cases, inl, inr, none, some, Text, text_ord, nat_ord,
  pair_ord, ok,
}
use fsracer.Collections.Map.{find}
use fsracer.Operation.{EffectType, consumed, produced, expunged}
use fsracer.Trace.{DebugInfo}
use fsracer.FilePath.{FilePath, path_ord, is_absolute, root, parent_path, filename, path_of_text}
use fsracer.InodeTable.{InodeTable, to_inode}
use fsracer.InodeTable.ToInode.{Leads, top, below, to_inode-Leads, is_absolute-drop_last}
use fsracer.InodeTable.Removal.{remove_entry-IsMissing}
use fsracer.FsAnalyzer.{FsAccess, FsState, get_absolute_path, unlink_resource}
use fsracer.FsAnalyzer.Effects.{Updates, kept, add_path_effect-Updates}
use fsracer.FsAnalyzer.Operations.{
  analyze_hpath, process_path_effect, dereference, block_debug_info, record_access,
}

abbrev pub access_of : FsState → EffectType → DebugInfo → Text → FsAccess
access_of st effect debug name = record {
  event_id = st.block_id;
  effect_type = effect;
  debug_info = debug;
  operation_name = name;
}

-- The accesses after it have the one of the current event to the path, merged with what was there.
abbrev pub Records : FilePath → EffectType → DebugInfo → Text → FsState → FsState → Type 0
Records p effect debug name st st' =
    Updates (p, st.block_id)
      (kept (find (p, st.block_id) st.block_accesses) (access_of st effect debug name))
      st.block_accesses st'.block_accesses

record_access-Records :
    (p : FilePath) (effect : EffectType) (debug : DebugInfo) (name : Text) (st : FsState)
    → (st' : FsState) × (record_access p effect debug name st ≡ ok st')
      × Records p effect debug name st st'
      × (st'.inode_table ≡ st.inode_table)
record_access-Records p effect debug name st =
    let (t, e, u) = add_path_effect-Updates p (access_of st effect debug name) st.block_accesses in
    (record st { block_accesses = t }, rw (record_access, e) refl, u, refl)

parent_entry :
    (t : InodeTable) (p : FilePath) (i : ℕ)
    → p ≢ root
    → Leads t p i
    → (j : ℕ) × Leads t (parent_path p) j × (find (j, filename p) t.table ≡ some i)
parent_entry t p i ne top = absurd (ne refl)
parent_entry t p i ne (below {j = j} _ up e) = (j, up, e)

-- The path itself, or the target of the link that it is.
abbrev pub IsTarget : Option FilePath → FilePath → FilePath → Type 0
IsTarget none p q = q ≡ p
IsTarget (some target) p q = q ≡ target

dereference-IsTarget :
    (i : ℕ) (p : FilePath) (st : FsState)
    → IsTarget (find i st.symlink_table) p (dereference i p st)
dereference-IsTarget i p st = elim (Option-cases (find i st.symlink_table)) [
  | inl e ↦ rw (e, dereference) refl
  | inr (target, e) ↦ rw (e, dereference) refl
]

module _ (dirfd : ℕ) (path name : Text) (st : FsState) (debug : DebugInfo) where
  -- An `Hpath` that consumes or produces an absolute path returns, where the event of the block is known.
  -- It records that access of the event: to the target that the table of symbolic links has for the inode of
  -- the path, or, where it has none, to the path. What the event keeps of its accesses to that one is told
  -- by `kept`: the new access, but for a read behind a write. No other access changes.
  pub analyze_hpath-Records :
      (effect : EffectType)
      → is_absolute (path_of_text path) ≡ true
      → block_debug_info st ≡ ok debug
      → effect ≢ expunged
      → (st' : FsState) × (i : ℕ) × (t : InodeTable) × (q : FilePath) × (to_inode
            (path_of_text path)
            st.inode_table
          ≡ ok (i, t))
        × IsTarget (find i st.symlink_table) (path_of_text path) q
        × (analyze_hpath dirfd path effect name st ≡ ok st')
        × Records q effect debug name st st'
  unfolding analyze_hpath get_absolute_path process_path_effect
  analyze_hpath-Records effect absolute known ne =
      let p : FilePath = path_of_text path in
      let (i, t, e, _, _, _) = to_inode-Leads p st.inode_table absolute in
      let q = dereference i p st in
      let (st', r, u, _) =
        record_access-Records q effect debug name (record st { inode_table = t }) in
      (
        st',
        i,
        t,
        q,
        e,
        dereference-IsTarget i p st,
        rw (analyze_hpath, get_absolute_path, absolute, e) (by_effect effect ne t q st' r),
        u,
      )
    where
      by_effect :
          (effect : EffectType)
          → effect ≢ expunged
          → (t : InodeTable) (q : FilePath) (st' : FsState)
          → record_access q effect debug name (record st { inode_table = t }) ≡ ok st'
          → process_path_effect q effect name (record st { inode_table = t }) ≡ ok st'
      by_effect consumed ne t q st' r = rw (process_path_effect, known) r
      by_effect produced ne t q st' r = rw (process_path_effect, known) r
      by_effect expunged ne t q st' r = absurd (ne refl)

  -- An `Hpath` that expunges an absolute path other than "/", which is no symbolic link, returns where the
  -- event of the block is known: it records the access, and the entry that it removes is there.
  pub analyze_hpath-expunged :
      is_absolute (path_of_text path) ≡ true
      → path_of_text path ≢ root
      → block_debug_info st ≡ ok debug
      → ((i : ℕ) (t : InodeTable)
          → to_inode (path_of_text path) st.inode_table ≡ ok (i, t)
          → find i st.symlink_table ≡ none)
      → (st' : FsState) × (analyze_hpath dirfd path expunged name st ≡ ok st')
        × Records (path_of_text path) expunged debug name st st'
  unfolding analyze_hpath get_absolute_path process_path_effect unlink_resource
  analyze_hpath-expunged absolute not_root known no_link =
      let p : FilePath = path_of_text path in
      let (i, t, e, _, leads, stable) = to_inode-Leads p st.inode_table absolute in
      let (j, up, entry) = parent_entry t p i not_root leads in
      let parent = stable (parent_path p) j (is_absolute-drop_last p absolute not_root) up in
      let (st', r, u, same_table) =
        record_access-Records p expunged debug name (record st { inode_table = t }) in
      let (t', removed) = (remove_entry-IsMissing j (filename p) t).1 (λ (_, _, missing). cc) in
      (
        record st' { inode_table = t' },
        rw (analyze_hpath, get_absolute_path, absolute, e)
            (rw (dereference, no_link i t e)
              (rw (process_path_effect, known, parent, r, unlink_resource, same_table, removed)
                refl)),
        u,
      )
