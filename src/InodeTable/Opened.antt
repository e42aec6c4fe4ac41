-- ===== src/InodeTable/Opened.antt =====
-- `ToInode` leaves the open inodes alone, and a handle that is opened and closed leaves no trace.
use fsracer.Prelude.{
  ℕ, zero, suc, ◌≡◌, refl, sym, ap, ◌∙◌, Option, none, some, [], ◌∷◌, Text, text_ord, nat_ord,
  pair_ord, same, arith, Bool-cases, Option-cases, inl, inr, Result, ok, fail, ◌>>=◌,
}
use fsracer.Collections.Map.{Map, find, assign, erase, erase-assign}
use fsracer.FilePath.{FilePath, path_ord, root, parent_path, filename}
use fsracer.InodeTable.{
  InodeTable, InodeKey, InodeType, linked, to_inode_in, inode_below, get_inode, add_new_entry,
  add_entry_for, open_inode, close_inode,
}
use fsracer.InodeTable.Handles.{close_inode-linked, close_inode_more, find-assign_same}

inode_below-open :
    (j : ℕ) (p : FilePath) (t : InodeTable) → (inode_below j p t).1.open_inodes ≡ t.open_inodes
unfolding inode_below get_inode add_new_entry add_entry_for
inode_below-open j p t = elim (Option-cases (find (j, filename p) t.table)) [
  | inl e ↦ rw (inode_below, get_inode, e) refl
  | inr (i, e) ↦ rw (inode_below, get_inode, e) refl
]

pub to_inode_in-open :
    (fuel : ℕ) (p : FilePath) (t t' : InodeTable) (i : ℕ)
    → to_inode_in fuel p t ≡ ok (i, t')
    → t'.open_inodes ≡ t.open_inodes
unfolding to_inode_in
to_inode_in-open zero p t t' i e = cc
to_inode_in-open (suc fuel) p t t' i e = elim (Bool-cases (same p root)) [
  | inl top ↦
      let e' : ◌≡◌ {A = Result (ℕ × InodeTable)} (ok (1, t)) (ok (i, t')) = rw top at e in cc
  | inr below ↦
      rest (to_inode_in fuel (parent_path p) t)
        (λ s j h. to_inode_in-open fuel (parent_path p) t s j h) (rw below at e)
]
  where
    rest :
        (r : Result (ℕ × InodeTable))
        → ((s : InodeTable) (j : ℕ) → r ≡ ok (j, s) → s.open_inodes ≡ t.open_inodes)
        → (r >>= λ (j, s). ok (inode_below j p s)) ≡ ok (i, t')
        → t'.open_inodes ≡ t.open_inodes
    rest (fail _) h f = cc
    rest (ok (j, s)) h f =
        let one : inode_below j p s ≡ (i, t') = cc in
        let last : (inode_below j p s).1.open_inodes ≡ s.open_inodes = inode_below-open j p s in
        let before : s.open_inodes ≡ t.open_inodes = h s j refl in
        let ends : t' ≡ (inode_below j p s).1 = cc in rw ends (last ∙ before)

erase_absent :
    {V : Type 0} (key : InodeKey) (m : Map InodeKey V) → find key m ≡ none → erase key m ≡ m
unfolding find erase
erase_absent key [] e = refl
erase_absent key ((k, v) ∷ m) e = elim (Bool-cases (same key k)) [
  | inl here ↦ let e' : some v ≡ none = rw here at e in cc
  | inr other ↦ rw other (ap (λ rest. (k, v) ∷ rest) (erase_absent key m (rw other at e)))
]

-- `CloseInode` after `OpenInode` returns. Where the inode was not open before, the table is as it was,
-- and where it was, it has as many handles as before and is linked.
pub close_inode-open_inode :
    (inode_p : ℕ) (basename : Text) (t : InodeTable)
    → (t' : InodeTable) × (close_inode inode_p basename (open_inode inode_p basename t) ≡ ok t')
      × (find (inode_p, basename) t.open_inodes ≡ none → t' ≡ t)
      × ((type : InodeType) (count : ℕ)
          → find (inode_p, basename) t.open_inodes ≡ some (type, suc count)
          → find (inode_p, basename) t'.open_inodes ≡ some (linked, suc count))
unfolding open_inode
close_inode-open_inode inode_p basename t = go (find key t.open_inodes) refl
  where
    key : InodeKey
    key = (inode_p, basename)

    with_handles : Map InodeKey (InodeType × ℕ) → InodeTable
    with_handles handles = record t { open_inodes = handles }

    go :
        (o : Option (InodeType × ℕ))
        → find key t.open_inodes ≡ o
        → (t' : InodeTable) × (close_inode inode_p basename (open_inode inode_p basename t) ≡ ok t')
          × (find key t.open_inodes ≡ none → t' ≡ t)
          × ((type : InodeType) (count : ℕ)
              → find key t.open_inodes ≡ some (type, suc count)
              → find key t'.open_inodes ≡ some (linked, suc count))
    go none e =
        let opened = assign key (linked, 1) t.open_inodes in
        let closed =
          close_inode-linked inode_p basename (with_handles opened)
            (find-assign_same key (linked, 1) t.open_inodes) in
        let back = erase-assign key (linked, 1) t.open_inodes ∙ erase_absent key t.open_inodes e in
        (t, rw (open_inode, e) (rw (closed, back) refl), λ _. refl, λ type count f. cc)
    go (some (type, zero)) e =
        let opened = assign key (linked, 1) t.open_inodes in
        let closed =
          close_inode-linked inode_p basename (with_handles opened)
            (find-assign_same key (linked, 1) t.open_inodes) in
        (
          with_handles (erase key opened),
          rw (open_inode, e) closed,
          λ f. cc,
          λ type' count f. ground arith,
        )
    go (some (type, suc count)) e =
        let opened = assign key (linked, suc (suc count)) t.open_inodes in
        let closed =
          close_inode_more inode_p basename (with_handles opened) linked count
            (find-assign_same key (linked, suc (suc count)) t.open_inodes) in
        (
          with_handles (assign key (linked, suc count) opened),
          rw (open_inode, e) closed,
          λ f. cc,
          λ type' count' f.
              rw (find-assign_same key (linked, suc count) opened)
                (same_count type' count' (sym e ∙ f)),
        )
      where
        same_count :
            (type' : InodeType) (count' : ℕ)
            → ◌≡◌ {A = Option (InodeType × ℕ)} (some (type, suc count)) (some (type', suc count'))
            → ◌≡◌ {A = Option (InodeType × ℕ)}
                (some (linked, suc count))
                (some (linked, suc count'))
        same_count type' count' h = ground arith
