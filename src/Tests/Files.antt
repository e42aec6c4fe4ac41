-- ===== src/Tests/Files.antt =====
-- A table with a file that is open, and accesses to it.
use fsracer.Prelude.{
  same, if◌then◌else◌, ◌||◌, ◌++◌, pos, suc, List, Text, ℕ, ◌≡◌, refl, ◌↔◌, true, Option, none,
  some, [], ◌∷◌, codes, text_ord, nat_ord, pair_ord, Result, ok, fail, out_of_fuel, missing_return,
  ◌>>=◌,
}
use fsracer.Collections.Set
use fsracer.Collections.Set.{member}
use fsracer.Collections.Map.{find, assign, erase}
use fsracer.Operation.{at_fdcwd, EffectType, consumed, produced, expunged}
use fsracer.FilePath.{
  join, parent_path, filename, path_of_text, fields, names, FilePath, path_ord, is_absolute, trim,
}
use fsracer.Table
use fsracer.Table.{pop_entry}
use fsracer.InodeTable
use fsracer.InodeTable.{
  InodeType, linked, unlinked, InodeTable, InodeKey, new_table, to_inode, to_inode_in, inode_below,
  get_inode, add_new_entry, add_entry_for, to_path, to_paths, open_inode, close_inode, close_open,
  drop_entry,
}
use fsracer.InodeTable.Opened.{close_inode-open_inode}
use fsracer.FsAnalyzer.Blocks.{collect, or_none}
use fsracer.FsAnalyzer.Operations.{
  analyze_link, analyze_new_fd, analyze_del_fd, analyze_symlink, analyze_hpath, analyze_hpath_sym,
  process_path_effect,
}
use fsracer.FsAnalyzer.HardLinks.{analyze_link-get_inode}
use fsracer.FsAnalyzer.Symlinks.{analyze_symlink-analyze_hpath}
use fsracer.FsAnalyzer.Collect.{accesses_to, collect-accesses_to}
use fsracer.FsAnalyzer.Descriptors.{analyze_new_fd-analyze_del_fd}
use fsracer.InodeTable.ToInode.{Extends, Leads, to_inode-Leads, to_inode_in_diverges}
use fsracer.InodeTable.Handles.{close_times, remove_entry-close_times}
use fsracer.InodeTable.Removal.{IsMissing, remove_entry-IsMissing}
use fsracer.FsAnalyzer.{FsState, new_state, FsAccess, BlockAccesses, add_path_effect}
use fsracer.FsAnalyzer.Effects.{Updates, add_path_effect-produced-expunged}
use fsracer.FsAnalyzer.History.{add_all, latest_first, remains, add_all-remains}

unfoldable pub program : Unit {0}
unfolding find assign erase Set.insert Set.erase pop_entry Table.remove_entry trim new_table
    to_inode to_inode_in inode_below get_inode add_new_entry add_entry_for to_path to_paths
    open_inode close_inode close_open drop_entry InodeTable.remove_entry add_path_effect
    path_of_text fields names new_state
program = tt

abbrev pub file : FilePath
file = codes "/" ∷ codes "home" ∷ codes "f" ∷ []

abbrev pub ap_inode : Result (ℕ × InodeTable) → Option ℕ
ap_inode (ok (i, _)) = some i
ap_inode (fail _) = none

-- The inode of the file is 3, below 2 for its directory.
inodes :
    (ap_inode (to_inode file new_table) ≡ some 3)
    × (ap_inode (to_inode file new_table >>= λ r. to_inode file (r.1)) ≡ some 3)
    × (to_inode (codes "f" ∷ []) new_table ≡ fail out_of_fuel)
unfolding program
inodes = (refl, refl, refl)

-- The root directory has an open file.
abbrev handles : InodeTable
handles =
    open_inode 1 (codes "f") (add_new_entry 1 (codes "f") (codes "/" ∷ codes "f" ∷ []) new_table)

to_inode-Leads_example :
    (i : ℕ) × (t' : InodeTable) × (to_inode file handles ≡ ok (i, t'))
    × Extends handles t'
    × Leads t' file i
    × ((q : FilePath) (j : ℕ) → is_absolute q ≡ true → Leads t' q j → to_inode q t' ≡ ok (j, t'))
to_inode-Leads_example = to_inode-Leads file handles refl

to_inode_in_diverges_example : to_inode_in 9 (codes "f" ∷ []) handles ≡ fail out_of_fuel
to_inode_in_diverges_example = to_inode_in_diverges 9 (codes "f" ∷ []) handles refl

-- The file is opened once more, so that it has two handles, and then removed.
abbrev twice : InodeTable
twice = open_inode 1 (codes "f") handles

remove_entry-close_times_example :
    (t1 : InodeTable) × (t2 : InodeTable) × ((InodeTable.remove_entry 1 (codes "f") twice
        >>= close_times 1 1 (codes "f"))
      ≡ ok t1)
    × (t1.table ≡ twice.table)
    × (t1.rev_table ≡ twice.rev_table)
    × (find (1, codes "f") t1.open_inodes ≡ some (unlinked, 1))
    × (close_times 1 1 (codes "f") t1 ≡ ok t2)
    × ((k : InodeKey)
        → find k t2.table ≡ (if same k (1, codes "f") then none else find k twice.table))
    × ((j : ℕ)
        → to_paths j t2 ≡ (
            if same j 2
            then Set.erase (join (codes "/" ∷ []) (codes "f" ∷ [])) (to_paths 2 twice)
            else to_paths j twice))
    × (find (1, codes "f") t2.open_inodes ≡ none)
unfolding program
remove_entry-close_times_example =
    remove_entry-close_times 1 (codes "f") (codes "/" ∷ []) 2 1 0 twice refl refl refl

remove_entry-IsMissing_example :
    ((InodeTable.remove_entry 1 (codes "g") handles ≡ fail missing_return)
      ↔ IsMissing 1 (codes "g") handles)
    × (¬ IsMissing 1 (codes "g") handles
        → (t' : InodeTable) × (InodeTable.remove_entry 1 (codes "g") handles ≡ ok t'))
remove_entry-IsMissing_example = remove_entry-IsMissing 1 (codes "g") handles

abbrev access : EffectType → FsAccess
access effect = record {
  event_id = codes "2";
  effect_type = effect;
  debug_info = [];
  operation_name = codes "open";
}

abbrev read : BlockAccesses
read = ((file, codes "2"), access consumed) ∷ []

abbrev accesses : List (FilePath × FsAccess)
accesses =
    (file, access consumed)
    ∷ (file, access produced)
    ∷ (codes "/" ∷ [], access consumed)
    ∷ (file, access expunged)
    ∷ (file, access consumed)
    ∷ []

add_all-remains_example :
    (t : BlockAccesses) × (add_all accesses [] ≡ ok t)
    × ((k : FilePath × Text) → find k t ≡ remains (latest_first k accesses []))
add_all-remains_example = add_all-remains accesses

add_path_effect-produced-expunged_example :
    (t' : BlockAccesses) × ((add_path_effect file (access produced) read
        >>= add_path_effect file (access expunged))
      ≡ ok t')
    × Updates (file, codes "2") none read t'
add_path_effect-produced-expunged_example =
    add_path_effect-produced-expunged file (access produced) (access expunged) read refl refl refl

abbrev pub started : FsState
started = record new_state { main_process = 7; inode_table = handles }

close_inode-open_inode_example :
    (t' : InodeTable) × (close_inode 1 (codes "f") (open_inode 1 (codes "f") handles) ≡ ok t')
    × (find (1, codes "f") handles.open_inodes ≡ none → t' ≡ handles)
    × ((type : InodeType) (count : ℕ)
        → find (1, codes "f") handles.open_inodes ≡ some (type, suc count)
        → find (1, codes "f") t'.open_inodes ≡ some (linked, suc count))
close_inode-open_inode_example = close_inode-open_inode 1 (codes "f") handles

analyze_new_fd-analyze_del_fd_example :
    (st' : FsState) × (st'' : FsState) × (analyze_new_fd at_fdcwd (codes "/home/f") (pos 3) started
      ≡ ok st')
    × (analyze_del_fd 3 st' ≡ ok st'')
    × (st''.fd_table ≡ erase (7, 3) started.fd_table)
    × (key : InodeKey) × (find (7, 3) st'.fd_table ≡ some key)
    × (find key started.inode_table.open_inodes ≡ none
        → st''.inode_table.open_inodes ≡ started.inode_table.open_inodes)
unfolding program
analyze_new_fd-analyze_del_fd_example =
    analyze_new_fd-analyze_del_fd at_fdcwd 3 (codes "/home/f") started refl (λ e. cc)

analyze_symlink-analyze_hpath_example :
    (st' : FsState) × (analyze_symlink at_fdcwd (codes "/home/l") (codes "/home/f") started
      ≡ ok st')
    × ((dirfd' : ℕ) (effect : EffectType) (name : Text)
        → (analyze_hpath dirfd' (codes "/home/l") effect name st'
            ≡ process_path_effect (path_of_text (codes "/home/f")) effect name st')
          × (analyze_hpath_sym dirfd' (codes "/home/l") effect name st'
              ≡ process_path_effect (path_of_text (codes "/home/l")) effect name st'))
unfolding program
analyze_symlink-analyze_hpath_example =
    analyze_symlink-analyze_hpath at_fdcwd (codes "/home/l") (codes "/home/f") started refl

collect-accesses_to_example :
    or_none (find file (collect read [])) ≡ or_none (find file []) ++ accesses_to file read
collect-accesses_to_example = collect-accesses_to file read []

analyze_link-get_inode_example :
    (st' : FsState) × (t : InodeTable) × (i : ℕ) × (j : ℕ) × (analyze_link at_fdcwd
        (codes "/home/f")
        at_fdcwd
        (codes "/g")
        started
      ≡ ok st')
    × Extends started.inode_table t
    × Leads t (path_of_text (codes "/home/f")) i
    × Leads t (parent_path (path_of_text (codes "/g"))) j
    × (get_inode j (filename (path_of_text (codes "/g"))) st'.inode_table ≡ some i)
    × ((p : FilePath)
        → member p (to_paths i st'.inode_table)
          ≡ (same p (path_of_text (codes "/g")) || member p (to_paths i t)))
unfolding program
analyze_link-get_inode_example =
    analyze_link-get_inode at_fdcwd at_fdcwd (codes "/home/f") (codes "/g") started refl refl
      (λ e. cc)
