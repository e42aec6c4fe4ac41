-- ===== src/InodeTable/Removal.antt =====
-- `RemoveEntry`: where it does nothing, waits, removes or fails.
use fsracer.Prelude.{
  ℕ, ◌≡◌, refl, ◌↔◌, Option, none, some, [], ◌∷◌, Text, text_ord, nat_ord, pair_ord, ok, fail,
  missing_return,
}
use fsracer.Collections.Map
use fsracer.Collections.Map.{find, assign}
use fsracer.FilePath.{FilePath, join}
use fsracer.Table.{pop_entry, add_entry}
use fsracer.InodeTable.{
  InodeTable, InodeKey, InodeType, linked, unlinked, to_path, remove_entry, drop_entry, forget_path,
}

-- The name is to be removed now, but the table has no entry for it.
abbrev pub IsMissing : ℕ → Text → InodeTable → Type 0
IsMissing inode_p basename t =
    ((p : FilePath) × (to_path inode_p t ≡ some p))
    × (find (inode_p, basename) t.open_inodes ≡ none)
    × (find (inode_p, basename) t.table ≡ none)

-- `RemoveEntry` returns, unless the parent has exactly one path, the inode is not open and the table
-- has no entry for the name: then, and only then, `PopEntry` ends with no `return`.
pub remove_entry-IsMissing :
    (inode_p : ℕ) (basename : Text) (t : InodeTable)
    → ((remove_entry inode_p basename t ≡ fail missing_return) ↔ IsMissing inode_p basename t)
      × (¬ IsMissing inode_p basename t
          → (t' : InodeTable) × (remove_entry inode_p basename t ≡ ok t'))
unfolding remove_entry drop_entry pop_entry
remove_entry-IsMissing inode_p basename t =
    go (to_path inode_p t) refl (find key t.open_inodes) refl (find key t.table) refl
  where
    key : InodeKey
    key = (inode_p, basename)

    Outcome : Type 0
    Outcome =
        ((remove_entry inode_p basename t ≡ fail missing_return) ↔ IsMissing inode_p basename t)
        × (¬ IsMissing inode_p basename t
            → (t' : InodeTable) × (remove_entry inode_p basename t ≡ ok t'))

    returned :
        (t' : InodeTable)
        → remove_entry inode_p basename t ≡ ok t'
        → ¬ IsMissing inode_p basename t
        → Outcome
    returned t' e not = ((λ f. cc, λ m. absurd (not m)), λ _. (t', e))

    go :
        (parent : Option FilePath)
        → to_path inode_p t ≡ parent
        → (handle : Option (InodeType × ℕ)) → find key t.open_inodes ≡ handle
        → (entry : Option ℕ) → find key t.table ≡ entry
        → Outcome
    go none e _ _ _ _ = returned t (rw (remove_entry, e) refl) (λ ((p, f), _, _). cc)
    go (some p) e (some (linked, count)) f _ _ =
        returned (record t { open_inodes = add_entry key (unlinked, count) t.open_inodes })
          (rw (remove_entry, e, f) refl) (λ (_, g, _). cc)
    go (some p) e (some (unlinked, count)) f _ _ =
        returned t (rw (remove_entry, e, f) refl) (λ (_, g, _). cc)
    go (some p) e none f (some i) g =
        let removed : InodeTable = record t {
          table = Map.erase key t.table;
          rev_table = forget_path i (join p (basename ∷ [])) (find i t.rev_table) t.rev_table;
        } in
        returned removed (rw (remove_entry, e, f, drop_entry, pop_entry, g) refl) (λ (_, _, h). cc)
    go (some p) e none f none g =
        let missing : IsMissing inode_p basename t = ((p, e), f, g) in
        (
          (λ _. missing, λ _. rw (remove_entry, e, f, drop_entry, pop_entry, g) refl),
          λ not. absurd (not missing),
        )
