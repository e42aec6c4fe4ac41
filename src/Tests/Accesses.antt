-- ===== src/Tests/Accesses.antt =====
-- Accesses of the first main block.
use fsracer.Prelude.{◌≡◌, refl, ℕ, [], ◌∷◌, codes, text_ord, nat_ord, pair_ord, ok, some}
use fsracer.Utils.{starts_with}
use fsracer.Operation.{consumed, expunged, at_fdcwd}
use fsracer.Collections.Map.{find}
use fsracer.FilePath.{FilePath, path_ord, path_of_text}
use fsracer.InodeTable.{InodeTable, to_inode}
use fsracer.FsAnalyzer.{FsState}
use fsracer.FsAnalyzer.Operations.{analyze_hpath}
use fsracer.FsAnalyzer.Accesses.{Records, IsTarget, analyze_hpath-Records, analyze_hpath-expunged}
use fsracer.Tests.Files
use fsracer.Tests.Files.{started, file, ap_inode}

abbrev in_main : FsState
in_main = record started { block_id = codes "MAIN_1" }

-- The file is a symbolic link.
abbrev in_link : FsState
in_link = record in_main { symlink_table = (2, file) ∷ [] }

analyze_hpath-Records_example :
    (st' : FsState) × (i : ℕ) × (t : InodeTable) × (q : FilePath) × (to_inode
        (path_of_text (codes "/f"))
        in_link.inode_table
      ≡ ok (i, t))
    × IsTarget (find i in_link.symlink_table) (path_of_text (codes "/f")) q
    × (analyze_hpath at_fdcwd (codes "/f") consumed (codes "open") in_link ≡ ok st')
    × Records q consumed (codes "main" ∷ []) (codes "open") in_link st'
unfolding Files.program starts_with
analyze_hpath-Records_example =
    analyze_hpath-Records at_fdcwd (codes "/f") (codes "open") in_link (codes "main" ∷ []) consumed
      refl refl (λ e. cc)

-- It leads to its target.
in_link-target :
    (ap_inode (to_inode (path_of_text (codes "/f")) in_link.inode_table) ≡ some 2)
    × (find 2 in_link.symlink_table ≡ some file)
unfolding Files.program
in_link-target = (refl, refl)

analyze_hpath-expunged_example :
    (st' : FsState) × (analyze_hpath at_fdcwd (codes "/f") expunged (codes "unlink") in_main
      ≡ ok st')
    × Records (path_of_text (codes "/f")) expunged (codes "main" ∷ []) (codes "unlink") in_main st'
unfolding Files.program starts_with
analyze_hpath-expunged_example =
    analyze_hpath-expunged at_fdcwd (codes "/f") (codes "unlink") in_main (codes "main" ∷ []) refl
      (λ e. cc) refl (λ i t e. refl)
