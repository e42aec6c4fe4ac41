-- ===== src/FsAnalyzer/Descriptors.antt =====
-- `NewFd` and `DelFd`: a descriptor from its opening to its closing.
use fsracer.Prelude.{
  ℕ, suc, ◌≡◌, ◌≢◌, refl, true, none, some, Text, text_ord, nat_ord, pair_ord, same_iff, ok, pos,
  length, ◌∙◌, ap,
}
use fsracer.Collections.Map
use fsracer.Collections.Map.{find, assign, erase, find-assign, erase-assign}
use fsracer.FilePath.{FilePath, is_absolute, root, parent_path, filename, path_of_text}
use fsracer.Table.{pop_entry}
use fsracer.InodeTable.{InodeKey, to_inode, open_inode, add_new_entry, add_entry_for}
use fsracer.InodeTable.ToInode.{to_inode-Leads, is_absolute-drop_last}
use fsracer.InodeTable.Opened.{to_inode_in-open, close_inode-open_inode}
use fsracer.FsAnalyzer.{FsState, get_absolute_path}
use fsracer.FsAnalyzer.Operations.{analyze_new_fd, analyze_del_fd}

-- `NewFd` of an absolute path other than "/" returns, and so does `DelFd` of the descriptor after it.
-- The descriptor is gone from the table then. If the name was not open before, the open inodes are as
-- they were before the two.
pub analyze_new_fd-analyze_del_fd :
    (dirfd fd : ℕ) (path : Text) (st : FsState)
    → is_absolute (path_of_text path) ≡ true
    → path_of_text path ≢ root
    → (st' : FsState) × (st'' : FsState) × (analyze_new_fd dirfd path (pos fd) st ≡ ok st')
      × (analyze_del_fd fd st' ≡ ok st'')
      × (st''.fd_table ≡ Map.erase (st.main_process, fd) st.fd_table)
      × (key : InodeKey) × (find (st.main_process, fd) st'.fd_table ≡ some key)
      × (find key st.inode_table.open_inodes ≡ none
          → st''.inode_table.open_inodes ≡ st.inode_table.open_inodes)
unfolding analyze_new_fd analyze_del_fd get_absolute_path pop_entry add_new_entry add_entry_for
    to_inode
analyze_new_fd-analyze_del_fd dirfd fd path st absolute below =
    let p : FilePath = path_of_text path in
    let (j, t, e, _, _, _) =
      to_inode-Leads (parent_path p) st.inode_table (is_absolute-drop_last p absolute below) in
    let kept : t.open_inodes ≡ st.inode_table.open_inodes =
      to_inode_in-open (suc (length (parent_path p))) (parent_path p) st.inode_table t j e in
    let named = add_new_entry j (filename p) p t in
    let (t', closed, as_before, _) = close_inode-open_inode j (filename p) named in
    let key : ℕ × ℕ = (st.main_process, fd) in
    let fds = assign key (j, filename p) st.fd_table in
    let found : find key fds ≡ some (j, filename p) =
      rw (find-assign key key (j, filename p) st.fd_table, (same_iff key key).1 refl) refl in
    let st' : FsState = record st {
      inode_table = open_inode j (filename p) named;
      fd_table = fds;
    } in
    (
      st',
      record st' { fd_table = erase key fds; inode_table = t' },
      rw (analyze_new_fd, get_absolute_path, absolute, e) refl,
      rw (analyze_del_fd, pop_entry, found, closed) refl,
      erase-assign key (j, filename p) st.fd_table,
      (j, filename p),
      found,
      λ absent. ap (λ s. s.open_inodes) (as_before (rw kept absent)) ∙ kept,
    )
