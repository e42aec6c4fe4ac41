-- ===== src/InodeTable/Handles.antt =====
-- Open inodes, whose entry is removed.
use fsracer.Prelude.{
  ℕ, zero, suc, ◌≡◌, refl, none, some, Text, text_ord, nat_ord, pair_ord, same_iff, Option-cases,
  inl, inr, ok, ◌>>=◌, Option, Result, ◌+◌, Bool, true, false, [], ◌∷◌, List-cases, same,
  if◌then◌else◌, arith, ap, ◌∙◌, Bool-cases,
}
use fsracer.Collections.Map.{find, assign, erase, find-assign, find-erase}
use fsracer.FilePath.{FilePath, path_ord, join}
use fsracer.Collections.Set
use fsracer.Collections.Set.{Set}
use fsracer.Table
use fsracer.Table.{pop_entry, add_entry, get_value}
use fsracer.InodeTable.{
  InodeTable, InodeKey, InodeType, linked, unlinked, to_path, to_paths, remove_entry, close_open,
  close_inode, forget_path, or_empty, drop_entry,
}

module _ (inode_p : ℕ) (basename : Text) (t : InodeTable) where
  remove_entry-linked :
      (p : FilePath) (count : ℕ)
      → to_path inode_p t ≡ some p
      → find (inode_p, basename) t.open_inodes ≡ some (linked, count)
      → remove_entry inode_p basename t
        ≡ ok (record t { open_inodes = assign (inode_p, basename) (unlinked, count) t.open_inodes })
  unfolding remove_entry
  remove_entry-linked p count h e = rw (remove_entry, h, e) refl

  pub close_inode_more :
      (type : InodeType) (count : ℕ)
      → find (inode_p, basename) t.open_inodes ≡ some (type, suc (suc count))
      → close_inode inode_p basename t
        ≡ ok (record t { open_inodes = assign (inode_p, basename) (type, suc count) t.open_inodes })
  unfolding close_inode close_open
  close_inode_more linked count e = rw (close_inode, e) refl
  close_inode_more unlinked count e = rw (close_inode, e) refl

  pub close_inode-linked :
      find (inode_p, basename) t.open_inodes ≡ some (linked, suc zero)
      → close_inode inode_p basename t
        ≡ ok (record t { open_inodes = erase (inode_p, basename) t.open_inodes })
  unfolding close_inode close_open Table.remove_entry pop_entry
  close_inode-linked e =
      rw (close_inode, e, close_open, Table.remove_entry, pop_entry)
        (rw (close_open, Table.remove_entry, pop_entry, e) refl)

  close_inode-unlinked :
      find (inode_p, basename) t.open_inodes ≡ some (unlinked, suc zero)
      → close_inode inode_p basename t
        ≡ remove_entry inode_p basename
            (record t { open_inodes = erase (inode_p, basename) t.open_inodes })
  unfolding close_inode close_open Table.remove_entry pop_entry
  close_inode-unlinked e =
      rw (close_inode, e, close_open, Table.remove_entry, pop_entry)
        (rw (close_open, Table.remove_entry, pop_entry, e) refl)

find-erase_same :
    (key : InodeKey) (m : Table.Table InodeKey (InodeType × ℕ)) → find key (erase key m) ≡ none
find-erase_same key m =
    let here = (same_iff key key).1 refl in let gone = find-erase key key m in rw (gone, here) refl

pub find-assign_same :
    (key : InodeKey) (v : InodeType × ℕ) (m : Table.Table InodeKey (InodeType × ℕ))
    → find key (assign key v m) ≡ some v
find-assign_same key v m =
    let here = (same_iff key key).1 refl in
    let found = find-assign key key v m in rw (found, here) refl

-- As many handles are closed, one after another.
unfoldable pub close_times : ℕ → ℕ → Text → InodeTable → Result InodeTable
unfolding close_inode
close_times zero inode_p basename t = ok t
close_times (suc n) inode_p basename t =
    close_inode inode_p basename t >>= close_times n inode_p basename

-- Handles of an inode that is removed, but for the last ones.
close_times-unlinked :
    (inode_p : ℕ) (basename : Text) (n m : ℕ) (t : InodeTable)
    → find (inode_p, basename) t.open_inodes ≡ some (unlinked, suc (n + m))
    → (handles : Table.Table InodeKey (InodeType × ℕ)) × (close_times n inode_p basename t
        ≡ ok (record t { open_inodes = handles }))
      × (find (inode_p, basename) handles ≡ some (unlinked, suc m))
unfolding close_times
close_times-unlinked inode_p basename zero m t e =
    (t.open_inodes, refl, e ∙ ap (λ (c : ℕ). some (unlinked, suc c)) (omega arith))
close_times-unlinked inode_p basename (suc n) m t e =
    let key : InodeKey = (inode_p, basename) in
    let e' : find key t.open_inodes ≡ some (unlinked, suc (suc (n + m))) =
      e ∙ ap (λ (c : ℕ). some (unlinked, suc c)) (omega arith) in
    let one = close_inode_more inode_p basename t unlinked (n + m) e' in
    let t1 : InodeTable = record t {
      open_inodes = assign key (unlinked, suc (n + m)) t.open_inodes;
    } in
    let (handles, r, f) =
      close_times-unlinked inode_p basename n m t1
        (find-assign_same key (unlinked, suc (n + m)) t.open_inodes) in
    (handles, rw one r, f)

-- The path leaves those of its inode.
forget_path-find :
    (i : ℕ) (q : FilePath) (rev : Table.Table ℕ (Set FilePath)) (j : ℕ)
    → or_empty (find j (forget_path i q (find i rev) rev))
      ≡ (if same j i then Set.erase q (or_empty (find i rev)) else or_empty (find j rev))
unfolding Set.erase
forget_path-find i q rev j = elim (Option-cases (find i rev)) [
  | inl e ↦ rw (forget_path, e) (unchanged e)
  | inr (paths, e) ↦ elim (List-cases (Set.erase q paths)) [
    | inl empty ↦
        rw (forget_path, e, empty)
          (ap or_empty (find-erase j i rev) ∙ moved none (find j rev) (same j i))
    | inr (r, rest, some_left) ↦
        rw (forget_path, e, some_left)
          (ap or_empty (find-assign j i (r ∷ rest) rev)
            ∙ moved (some (r ∷ rest)) (find j rev) (same j i))
  ]
]
  where
    moved :
        (new old : Option (Set FilePath)) (here : Bool)
        → or_empty (if here then new else old) ≡ (if here then or_empty new else or_empty old)
    moved new old true = refl
    moved new old false = refl

    unchanged :
        find i rev ≡ none → or_empty (find j rev) ≡ (if same j i then [] else or_empty (find j rev))
    unchanged e = elim (Bool-cases (same j i)) [
      | inl here ↦
          let at_i : j ≡ i = (same_iff j i).0 here in
          rw here (ap (λ k. or_empty (find k rev)) at_i ∙ ap or_empty e)
      | inr other ↦ rw other refl
    ]

-- The last handle of an inode that was removed.
close_inode-last :
    (inode_p : ℕ) (basename : Text) (p : FilePath) (i : ℕ) (t : InodeTable)
    → to_path inode_p t ≡ some p
    → find (inode_p, basename) t.table ≡ some i
    → find (inode_p, basename) t.open_inodes ≡ some (unlinked, suc zero)
    → close_inode inode_p basename t
      ≡ ok (record t {
        table = erase (inode_p, basename) t.table;
        rev_table = forget_path i (join p (basename ∷ [])) (find i t.rev_table) t.rev_table;
        open_inodes = erase (inode_p, basename) t.open_inodes;
      })
unfolding remove_entry drop_entry pop_entry to_path to_paths
close_inode-last inode_p basename p i t known entry e =
    let key : InodeKey = (inode_p, basename) in
    let t1 : InodeTable = record t { open_inodes = erase key t.open_inodes } in
    let closed : find key t1.open_inodes ≡ none = find-erase_same key t.open_inodes in
    close_inode-unlinked inode_p basename t e
    ∙ rw (remove_entry, known, closed, drop_entry, pop_entry, entry) refl

-- All handles of an inode that was removed.
close_times-all :
    (inode_p : ℕ) (basename : Text) (p : FilePath) (i m : ℕ) (t : InodeTable)
    → to_path inode_p t ≡ some p
    → find (inode_p, basename) t.table ≡ some i
    → find (inode_p, basename) t.open_inodes ≡ some (unlinked, suc m)
    → (t' : InodeTable) × (close_times (suc m) inode_p basename t ≡ ok t')
      × (t'.table ≡ erase (inode_p, basename) t.table)
      × (t'.rev_table ≡ forget_path i (join p (basename ∷ [])) (find i t.rev_table) t.rev_table)
      × (find (inode_p, basename) t'.open_inodes ≡ none)
unfolding close_times to_path to_paths
close_times-all inode_p basename p i zero t known entry e =
    let last = close_inode-last inode_p basename p i t known entry e in
    let t' : InodeTable = record t {
      table = erase (inode_p, basename) t.table;
      rev_table = forget_path i (join p (basename ∷ [])) (find i t.rev_table) t.rev_table;
      open_inodes = erase (inode_p, basename) t.open_inodes;
    } in
    (t', rw last refl, refl, refl, find-erase_same (inode_p, basename) t.open_inodes)
close_times-all inode_p basename p i (suc m) t known entry e =
    let key : InodeKey = (inode_p, basename) in
    let one = close_inode_more inode_p basename t unlinked m e in
    let t1 : InodeTable = record t { open_inodes = assign key (unlinked, suc m) t.open_inodes } in
    let (t', r, in_table, in_rev, gone) =
      close_times-all inode_p basename p i m t1 known entry
        (find-assign_same key (unlinked, suc m) t.open_inodes) in
    (t', rw one r, in_table, in_rev, gone)

-- `RemoveEntry` of an entry whose inode is open and was not removed yet, under a parent with one path, leaves
-- the entry and the paths as they are, and so do the `CloseInode`s behind it, as long as a handle is open. The
-- last one removes the entry, and no other, takes the path of the entry from those of its inode, and leaves no
-- handle.
pub remove_entry-close_times :
    (inode_p : ℕ) (basename : Text) (p : FilePath) (i n m : ℕ) (t : InodeTable)
    → to_path inode_p t ≡ some p
    → find (inode_p, basename) t.table ≡ some i
    → find (inode_p, basename) t.open_inodes ≡ some (linked, suc (n + m))
    → (t1 : InodeTable) × (t2 : InodeTable) × ((remove_entry inode_p basename t
          >>= close_times n inode_p basename)
        ≡ ok t1)
      × (t1.table ≡ t.table)
      × (t1.rev_table ≡ t.rev_table)
      × (find (inode_p, basename) t1.open_inodes ≡ some (unlinked, suc m))
      × (close_times (suc m) inode_p basename t1 ≡ ok t2)
      × ((k : InodeKey)
          → find k t2.table ≡ (if same k (inode_p, basename) then none else find k t.table))
      × ((j : ℕ)
          → to_paths j t2 ≡ (
              if same j i then Set.erase (join p (basename ∷ [])) (to_paths i t) else to_paths j t))
      × (find (inode_p, basename) t2.open_inodes ≡ none)
unfolding to_path to_paths
remove_entry-close_times inode_p basename p i n m t known entry e =
    let key : InodeKey = (inode_p, basename) in
    let removed = remove_entry-linked inode_p basename t p (suc (n + m)) known e in
    let waiting : InodeTable = record t {
      open_inodes = assign key (unlinked, suc (n + m)) t.open_inodes;
    } in
    let (handles, r, left) =
      close_times-unlinked inode_p basename n m waiting
        (find-assign_same key (unlinked, suc (n + m)) t.open_inodes) in
    let t1 : InodeTable = record t { open_inodes = handles } in
    let (t2, r2, in_table, in_rev, gone) =
      close_times-all inode_p basename p i m t1 known entry left in
    (
      t1,
      t2,
      rw removed r,
      refl,
      refl,
      left,
      r2,
      λ k. ap (find k) in_table ∙ find-erase k key t.table,
      λ j.
          ap (λ rev. or_empty (find j rev)) in_rev
          ∙ forget_path-find i (join p (basename ∷ [])) t.rev_table j,
      gone,
    )
