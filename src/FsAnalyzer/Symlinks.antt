-- ===== src/FsAnalyzer/Symlinks.antt =====
-- Symbolic links: what `Hpath` and `HpathSym` access of a path that is one.
use fsracer.Prelude.{ℕ, ◌≡◌, refl, ap, true, Text, text_ord, nat_ord, pair_ord, same_iff, ok}
use fsracer.Collections.Map.{find-assign}
use fsracer.Operation.{EffectType}
use fsracer.FilePath.{FilePath, is_absolute, path_of_text}
use fsracer.Table.{add_entry}
use fsracer.InodeTable.{to_inode}
use fsracer.InodeTable.ToInode.{to_inode-Leads}
use fsracer.FsAnalyzer.{FsState, get_absolute_path}
use fsracer.FsAnalyzer.Operations.{
  analyze_symlink, analyze_hpath, analyze_hpath_sym, process_path_effect, dereference,
}

-- A `Symlink` of an absolute path returns. From then on `Hpath` of that path accesses the target of the
-- link, and `HpathSym` accesses the path itself.
pub analyze_symlink-analyze_hpath :
    (dirfd : ℕ) (path target : Text) (st : FsState)
    → is_absolute (path_of_text path) ≡ true
    → (st' : FsState) × (analyze_symlink dirfd path target st ≡ ok st')
      × ((dirfd' : ℕ) (effect : EffectType) (name : Text)
          → (analyze_hpath dirfd' path effect name st'
              ≡ process_path_effect (path_of_text target) effect name st')
            × (analyze_hpath_sym dirfd' path effect name st'
                ≡ process_path_effect (path_of_text path) effect name st'))
unfolding analyze_symlink analyze_hpath analyze_hpath_sym get_absolute_path
analyze_symlink-analyze_hpath dirfd path target st absolute =
    let p : FilePath = path_of_text path in
    let (i, t, e, _, leads, stable) = to_inode-Leads p st.inode_table absolute in
    let again : to_inode p t ≡ ok (i, t) = stable p i absolute leads in
    let st' : FsState = record st {
      inode_table = t;
      symlink_table = add_entry i (path_of_text target) st.symlink_table;
    } in
    let followed : dereference i p st' ≡ path_of_text target =
      rw
        (dereference, find-assign i i (path_of_text target) st.symlink_table, (same_iff i i).1 refl)
        refl in
    (
      st',
      rw (analyze_symlink, get_absolute_path, absolute, e) refl,
      λ dirfd' effect name. (
        rw (analyze_hpath, get_absolute_path, absolute, again)
            (ap (λ q. process_path_effect q effect name st') followed),
        rw (analyze_hpath_sym, get_absolute_path, absolute) refl,
      ),
    )
