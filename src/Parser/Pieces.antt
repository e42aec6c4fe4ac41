-- ===== src/Parser/Pieces.antt =====
-- The words of an operation in a dump.
use fsracer.Prelude.{◌≡◌, refl, Bool, true, false, List, [], ◌∷◌, codes, text_ord, ℤ, pos, negsuc}
use fsracer.Operation.{
  Action, del_fd, dup_fd, hpath, hpath_sym, link, rename, new_fd, new_proc, set_cwd, symlink, nop,
}
use fsracer.Parser.{
  hpath_word, hpathsym_word, new_fd_word, del_fd_word, rename_word, symlink_word, link_word,
}
use fsracer.Parser.Lexer.{classify}
use fsracer.Parser.Words.{
  Piece, IsRead, number_piece, number_piece-IsRead, dirfd_piece, dirfd_piece-IsRead,
}
use fsracer.Parser.Lines.{
  AllRead, IsIdentifier, identifier_piece, identifier_piece-IsRead, effect_piece,
  effect_piece-IsRead, key_piece, key_piece-IsRead,
}
use fsracer.Parser.Marks.{IsInt}

-- The operations that a trace file can hold. A `newFd` that has failed has -1 for its descriptor.
abbrev pub IsPrintable : Bool → Action → Type 0
IsPrintable failed (hpath dirfd path _) = IsInt dirfd × IsIdentifier path
IsPrintable failed (hpath_sym dirfd path _) = IsInt dirfd × IsIdentifier path
IsPrintable true (new_fd dirfd path fd) = IsInt dirfd × (IsIdentifier path × (fd ≡ negsuc 0))
IsPrintable false (new_fd dirfd path (pos fd)) = IsInt dirfd × (IsIdentifier path × IsInt fd)
IsPrintable false (new_fd _ path (negsuc _)) = ⊥
IsPrintable failed (del_fd fd) = IsInt fd
IsPrintable failed (link old_dirfd old_path new_dirfd new_path) =
    IsInt old_dirfd × (IsIdentifier old_path × (IsInt new_dirfd × IsIdentifier new_path))
IsPrintable failed (rename old_dirfd old_path new_dirfd new_path) =
    IsInt old_dirfd × (IsIdentifier old_path × (IsInt new_dirfd × IsIdentifier new_path))
IsPrintable failed (symlink dirfd path target) =
    IsInt dirfd × (IsIdentifier path × IsIdentifier target)
IsPrintable failed (dup_fd _ _) = ⊥
IsPrintable failed (new_proc _ _) = ⊥
IsPrintable failed (set_cwd _) = ⊥
IsPrintable failed nop = ⊥

abbrev pub op_key : Action → Piece
op_key (hpath _ _ _) = key_piece (codes "hpath") hpath_word
op_key (hpath_sym _ _ _) = key_piece (codes "hpathsym") hpathsym_word
op_key (new_fd _ _ _) = key_piece (codes "newFd") new_fd_word
op_key (del_fd _) = key_piece (codes "delFd") del_fd_word
op_key (link _ _ _ _) = key_piece (codes "link") link_word
op_key (rename _ _ _ _) = key_piece (codes "rename") rename_word
op_key a = key_piece (codes "symlink") symlink_word

abbrev fd_pieces : ℤ → List Piece
fd_pieces (pos fd) = number_piece fd ∷ []
fd_pieces (negsuc _) = []

abbrev pub op_pieces : Action → List Piece
op_pieces (hpath dirfd path e) = dirfd_piece dirfd ∷ identifier_piece path ∷ effect_piece e ∷ []
op_pieces (hpath_sym dirfd path e) = dirfd_piece dirfd ∷ identifier_piece path ∷ effect_piece e ∷ []
op_pieces (new_fd dirfd path fd) = dirfd_piece dirfd ∷ identifier_piece path ∷ fd_pieces fd
op_pieces (del_fd fd) = number_piece fd ∷ []
op_pieces (link old_dirfd old_path new_dirfd new_path) =
    dirfd_piece old_dirfd
    ∷ identifier_piece old_path
    ∷ dirfd_piece new_dirfd
    ∷ identifier_piece new_path
    ∷ []
op_pieces (rename old_dirfd old_path new_dirfd new_path) =
    dirfd_piece old_dirfd
    ∷ identifier_piece old_path
    ∷ dirfd_piece new_dirfd
    ∷ identifier_piece new_path
    ∷ []
op_pieces (symlink dirfd path target) =
    dirfd_piece dirfd ∷ identifier_piece path ∷ identifier_piece target ∷ []
op_pieces _ = []

pub op_key-IsRead : (a : Action) → IsRead (op_key a)
unfolding classify
op_key-IsRead (hpath _ _ _) = key_piece-IsRead (codes "hpath") hpath_word refl refl
op_key-IsRead (hpath_sym _ _ _) = key_piece-IsRead (codes "hpathsym") hpathsym_word refl refl
op_key-IsRead (new_fd _ _ _) = key_piece-IsRead (codes "newFd") new_fd_word refl refl
op_key-IsRead (del_fd _) = key_piece-IsRead (codes "delFd") del_fd_word refl refl
op_key-IsRead (link _ _ _ _) = key_piece-IsRead (codes "link") link_word refl refl
op_key-IsRead (rename _ _ _ _) = key_piece-IsRead (codes "rename") rename_word refl refl
op_key-IsRead (symlink _ _ _) = key_piece-IsRead (codes "symlink") symlink_word refl refl
op_key-IsRead (dup_fd _ _) = key_piece-IsRead (codes "symlink") symlink_word refl refl
op_key-IsRead (new_proc _ _) = key_piece-IsRead (codes "symlink") symlink_word refl refl
op_key-IsRead (set_cwd _) = key_piece-IsRead (codes "symlink") symlink_word refl refl
op_key-IsRead nop = key_piece-IsRead (codes "symlink") symlink_word refl refl

pub op_pieces-AllRead : (failed : Bool) (a : Action) → IsPrintable failed a → AllRead (op_pieces a)
op_pieces-AllRead failed (hpath dirfd path e) (n, h) =
    (dirfd_piece-IsRead dirfd, (identifier_piece-IsRead path h, (effect_piece-IsRead e, tt)))
op_pieces-AllRead failed (hpath_sym dirfd path e) (n, h) =
    (dirfd_piece-IsRead dirfd, (identifier_piece-IsRead path h, (effect_piece-IsRead e, tt)))
op_pieces-AllRead true (new_fd dirfd path (pos _)) (n, (h, e)) = absurd (cc e)
op_pieces-AllRead true (new_fd dirfd path (negsuc _)) (n, (h, e)) =
    (dirfd_piece-IsRead dirfd, (identifier_piece-IsRead path h, tt))
op_pieces-AllRead false (new_fd dirfd path (pos fd)) (n, (h, k)) =
    (dirfd_piece-IsRead dirfd, (identifier_piece-IsRead path h, (number_piece-IsRead fd, tt)))
op_pieces-AllRead false (new_fd dirfd path (negsuc _)) h = absurd h
op_pieces-AllRead failed (del_fd fd) h = (number_piece-IsRead fd, tt)
op_pieces-AllRead failed (link old_dirfd old_path new_dirfd new_path) (n, (h, (m, k))) = (
  dirfd_piece-IsRead old_dirfd,
  (
    identifier_piece-IsRead old_path h,
    (dirfd_piece-IsRead new_dirfd, (identifier_piece-IsRead new_path k, tt)),
  ),
)
op_pieces-AllRead failed (rename old_dirfd old_path new_dirfd new_path) (n, (h, (m, k))) = (
  dirfd_piece-IsRead old_dirfd,
  (
    identifier_piece-IsRead old_path h,
    (dirfd_piece-IsRead new_dirfd, (identifier_piece-IsRead new_path k, tt)),
  ),
)
op_pieces-AllRead failed (symlink dirfd path target) (n, (h, k)) = (
  dirfd_piece-IsRead dirfd,
  (identifier_piece-IsRead path h, (identifier_piece-IsRead target k, tt)),
)
op_pieces-AllRead failed (dup_fd _ _) h = absurd h
op_pieces-AllRead failed (new_proc _ _) h = absurd h
op_pieces-AllRead failed (set_cwd _) h = absurd h
op_pieces-AllRead failed nop h = absurd h
