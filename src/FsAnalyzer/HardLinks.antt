-- ===== src/FsAnalyzer/HardLinks.antt =====
-- `AnalyzeLink`: a second name for an inode.
use fsracer.Prelude.{
  ℕ, ◌≡◌, ◌≢◌, refl, true, ◌||◌, some, Text, text_ord, nat_ord, pair_ord, same, same_iff, ok,
}
use fsracer.Collections.Set
use fsracer.Collections.Set.{Set, member, member-insert}
use fsracer.Collections.Map.{find, find-assign}
use fsracer.FilePath.{FilePath, path_ord, is_absolute, root, parent_path, filename, path_of_text}
use fsracer.InodeTable.{InodeTable, to_paths, or_empty, get_inode, add_entry_for}
use fsracer.InodeTable.ToInode.{
  Extends, Leads, Leads-Extends, to_inode-Leads, is_absolute-drop_last,
}
use fsracer.FsAnalyzer.{FsState, get_absolute_path}
use fsracer.FsAnalyzer.Operations.{analyze_link, link_paths, with_paths}

module _ (i j : ℕ) (q : FilePath) (t : InodeTable) where
  get_inode-add_entry_for : get_inode j (filename q) (add_entry_for j (filename q) q i t) ≡ some i
  unfolding get_inode add_entry_for
  get_inode-add_entry_for =
      rw
        (
          find-assign (j, filename q) (j, filename q) i t.table,
          (same_iff {A = ℕ × Text} (j, filename q) (j, filename q)).1 refl,
        )
        refl

  to_paths-add_entry_for :
      (p : FilePath)
      → member p (to_paths i (add_entry_for j (filename q) q i t))
        ≡ (same p q || member p (to_paths i t))
  unfolding to_paths add_entry_for
  to_paths-add_entry_for p =
      rw
        (
          find-assign i i (Set.insert q (or_empty (find i t.rev_table))) t.rev_table,
          (same_iff i i).1 refl,
        )
        (member-insert p q (or_empty (find i t.rev_table)))

-- A `Link` of an absolute path under another one, which is not "/", returns. There are an inode that the
-- old path leads to and one that the parent of the new path leads to, in a table that keeps the entries
-- of before. The new name under that parent then has the inode of the old path, whose paths are those
-- that it had and the new one.
pub analyze_link-get_inode :
    (old_dirfd new_dirfd : ℕ) (old_path new_path : Text) (st : FsState)
    → is_absolute (path_of_text old_path) ≡ true
    → is_absolute (path_of_text new_path) ≡ true
    → path_of_text new_path ≢ root
    → (st' : FsState) × (t : InodeTable) × (i : ℕ) × (j : ℕ) × (analyze_link old_dirfd old_path
          new_dirfd new_path st
        ≡ ok st')
      × Extends st.inode_table t
      × Leads t (path_of_text old_path) i
      × Leads t (parent_path (path_of_text new_path)) j
      × (get_inode j (filename (path_of_text new_path)) st'.inode_table ≡ some i)
      × ((p : FilePath)
          → member p (to_paths i st'.inode_table)
            ≡ (same p (path_of_text new_path) || member p (to_paths i t)))
unfolding analyze_link get_absolute_path
analyze_link-get_inode old_dirfd new_dirfd old_path new_path st old new below =
    let p : FilePath = path_of_text old_path in
    let q : FilePath = path_of_text new_path in
    let (i, t1, e1, ext1, leads1, _) = to_inode-Leads p st.inode_table old in
    let (j, t2, e2, ext2, leads2, _) =
      to_inode-Leads (parent_path q) t1 (is_absolute-drop_last q new below) in
    (
      record st { inode_table = add_entry_for j (filename q) q i t2 },
      t2,
      i,
      j,
      rw (analyze_link, with_paths, get_absolute_path, old, new, link_paths, e1, e2) refl,
      λ key k h. ext2 key k (ext1 key k h),
      Leads-Extends t1 t2 ext2 p i leads1,
      leads2,
      get_inode-add_entry_for i j q t2,
      to_paths-add_entry_for i j q t2,
    )
