-- ===== src/InodeTable.antt =====
-- lib/InodeTable.h and lib/InodeTable.cpp.
pub mod ToInode
pub mod Handles
pub mod Removal
pub mod Opened
use fsracer.Prelude.{
  ℕ, zero, suc, ◌+◌, Option, none, some, [], ◌∷◌, Text, codes, text_ord, nat_ord, pair_ord, same,
  Result, ok, fail, out_of_fuel, ◌>>=◌, if◌then◌else◌, length,
}
use fsracer.Collections.Set
use fsracer.Collections.Set.{Set}
use fsracer.Collections.Map
use fsracer.Collections.Map.{find, assign}
use fsracer.FilePath.{FilePath, path_ord, root, parent_path, filename, join}
use fsracer.Table
use fsracer.Table.{Table, add_entry, get_value, pop_entry}

abbrev pub InodeKey : Type 0
InodeKey = ℕ × Text

pub data InodeType : Type 0 where
  linked unlinked : InodeType

pub record InodeTable : Type 0 where
  pub table : Table InodeKey ℕ
  pub rev_table : Table ℕ (Set FilePath)
  pub open_inodes : Table InodeKey (InodeType × ℕ)
  pub next_inode : ℕ

abbrev pub root_inode : ℕ
root_inode = 0

abbrev pub or_empty : Option (Set FilePath) → Set FilePath
or_empty none = []
or_empty (some s) = s

unfoldable pub to_paths : ℕ → InodeTable → Set FilePath
to_paths inode t = or_empty (find inode t.rev_table)

-- `AddEntry` with a given inode.
unfoldable pub add_entry_for : ℕ → Text → FilePath → ℕ → InodeTable → InodeTable
unfolding to_paths
add_entry_for inode_p basename p inode t = record t {
  rev_table = assign inode (Set.insert p (to_paths inode t)) t.rev_table;
  table = assign (inode_p, basename) inode t.table;
}

-- `AddEntry` with a fresh inode.
unfoldable pub add_new_entry : ℕ → Text → FilePath → InodeTable → InodeTable
unfolding add_entry_for
add_new_entry inode_p basename p t =
    let t' = add_entry_for inode_p basename p t.next_inode t in
    record t' { next_inode = t.next_inode + 1 }

-- The constructor.
unfoldable pub new_table : InodeTable
unfolding add_new_entry
new_table =
    add_new_entry root_inode (codes "/") root
      (record { table = []; rev_table = []; open_inodes = []; next_inode = 1 })

abbrev pub the_only : Set FilePath → Option FilePath
the_only (p ∷ []) = some p
the_only _ = none

unfoldable pub to_path : ℕ → InodeTable → Option FilePath
unfolding to_paths
to_path inode t = the_only (to_paths inode t)

unfoldable pub get_inode : ℕ → Text → InodeTable → Option ℕ
get_inode inode_p basename t = get_value (inode_p, basename) t.table

-- The path leaves the paths of its inode, and an inode without a path leaves the table.
abbrev pub forget_path :
    ℕ → FilePath → Option (Set FilePath) → Table ℕ (Set FilePath) → Table ℕ (Set FilePath)
forget_path inode p none rev = rev
forget_path inode p (some s) rev = elim (Set.erase p s) [
  | [] ↦ Map.erase inode rev
  | q ∷ qs ↦ assign inode (q ∷ qs) rev
]

-- The inode is not open: the entry is removed now.
unfoldable pub drop_entry : InodeKey → FilePath → InodeTable → Result InodeTable
unfolding pop_entry
drop_entry key absolute_path t = pop_entry key t.table >>= λ (inode, table). ok (record t {
  table = table;
  rev_table = forget_path inode absolute_path (find inode t.rev_table) t.rev_table;
})

unfoldable pub remove_entry : ℕ → Text → InodeTable → Result InodeTable
unfolding to_path drop_entry
remove_entry inode_p basename t =
    let key : InodeKey = (inode_p, basename) in
    elim (to_path inode_p t) [
      | none ↦ ok t
      | some path_p ↦ elim (get_value key t.open_inodes) [
        | none ↦ drop_entry key (join path_p (basename ∷ [])) t
        | some (type, count) ↦ elim type [
          | linked ↦ ok (record t { open_inodes = add_entry key (unlinked, count) t.open_inodes })
          | unlinked ↦ ok t
        ]
      ]
    ]

unfoldable pub open_inode : ℕ → Text → InodeTable → InodeTable
open_inode inode_p basename t =
    let key : InodeKey = (inode_p, basename) in
    elim (get_value key t.open_inodes) [
      | none ↦ record t { open_inodes = add_entry key (linked, 1) t.open_inodes }
      | some (type, count) ↦ record t {
        open_inodes = add_entry key (linked, suc count) t.open_inodes;
      }
    ]

-- The two `switch` statements over the state of an open inode.
unfoldable pub close_open : ℕ → Text → InodeType → ℕ → InodeTable → Result InodeTable
unfolding remove_entry Table.remove_entry
close_open inode_p basename type zero t = ok t
close_open inode_p basename linked (suc zero) t =
    Table.remove_entry (inode_p, basename) t.open_inodes >>= λ handles.
    ok (record t { open_inodes = handles })
close_open inode_p basename unlinked (suc zero) t =
    Table.remove_entry (inode_p, basename) t.open_inodes >>= λ handles.
    remove_entry inode_p basename (record t { open_inodes = handles })
close_open inode_p basename type (suc (suc count)) t =
    ok (record t { open_inodes = add_entry (inode_p, basename) (type, suc count) t.open_inodes })

unfoldable pub close_inode : ℕ → Text → InodeTable → Result InodeTable
unfolding close_open
close_inode inode_p basename t = elim (get_value (inode_p, basename) t.open_inodes) [
  | none ↦ ok t
  | some (type, count) ↦ close_open inode_p basename type count t
]

-- What `ToInode` does once it has the inode of the parent.
unfoldable pub inode_below : ℕ → FilePath → InodeTable → ℕ × InodeTable
unfolding get_inode add_new_entry
inode_below inode_p path t = elim (get_inode inode_p (filename path) t) [
  | some i ↦ (i, t)
  | none ↦ (t.next_inode, add_new_entry inode_p (filename path) path t)
]

-- `ToInode`, with fuel for the calls that are open at a time.
unfoldable pub to_inode_in : ℕ → FilePath → InodeTable → Result (ℕ × InodeTable)
unfolding inode_below
to_inode_in zero path t = fail out_of_fuel
to_inode_in (suc fuel) path t =
    let parent = to_inode_in fuel (parent_path path) t in
    if same path root
    then ok (root_inode + 1, t)
    else parent >>= λ (inode_p, t'). ok (inode_below inode_p path t')

unfoldable pub to_inode : FilePath → InodeTable → Result (ℕ × InodeTable)
unfolding to_inode_in
to_inode path t = to_inode_in (suc (length path)) path t
