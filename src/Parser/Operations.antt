-- ===== src/Parser/Operations.antt =====
-- The lines of a dump that print operations: their tokens.
use fsracer.Prelude.{
  ◌≡◌, refl, sym, ap, ◌∙◌, Bool, true, false, List, [], ◌∷◌, ◌++◌, map, Text, codes, text_ord, same,
  if◌then◌else◌, append_assoc, pos, negsuc,
}
use fsracer.Utils.{to_string, int_to_string}
use fsracer.Operation.{
  Operation, Action, del_fd, dup_fd, hpath, hpath_sym, link, rename, new_fd, new_proc, set_cwd,
  symlink, nop, dirfd_to_string, eff_to_string, get_op_name, arguments, operation_to_string, marks,
  ◌⊹◌,
}
use fsracer.Trace.{DebugInfo}
use fsracer.Parser.{Token}
use fsracer.Parser.Lexer.{idle, lex, classify}
use fsracer.Parser.Words.{mark_piece, IsName, starts_small}
use fsracer.Parser.Lines.{
  after_word, all_tokens, AllRead-append, after_word-append, lex-line, words3, words4, words5,
  all_tokens-append, AllNames, AllNames-AllRead, sep,
}
use fsracer.Parser.Pieces.{IsPrintable, op_key, op_pieces, op_key-IsRead, op_pieces-AllRead}

-- The marks of an operation.
abbrev pub op_meta : Operation → DebugInfo
op_meta op = op.actual_op_name ∷ (if op.failed then codes "failed" ∷ [] else [])

marks-after_word :
    (op : Operation) (end : Text)
    → IsName op.actual_op_name
    → marks op ++ end ≡ after_word (map mark_piece (op_meta op)) end
marks-after_word op end h = by_cases op.failed op.actual_op_name h.small
  where
    by_cases :
        (failed : Bool) (name : Text)
        → starts_small name ≡ true
        → ((if same name [] then [] else codes " !" ++ name)
              ++ (if failed then codes " !failed" else []))
            ++ end
          ≡ after_word (map mark_piece (name ∷ (if failed then codes "failed" ∷ [] else []))) end
    by_cases failed [] small = absurd (cc small)
    by_cases true (c ∷ name) small =
        ap (λ (x : Text). 32 ∷ 33 ∷ c ∷ x) (append_assoc name (codes " !failed") end)
    by_cases false (c ∷ name) small = ap (λ (x : Text). 32 ∷ 33 ∷ c ∷ x) (append_assoc name [] end)

op_line :
    (failed : Bool) (a : Action) (end : Text)
    → IsPrintable failed a
    → (get_op_name a ⊹ arguments failed a) ++ end ≡ (op_key a).text ++ after_word (op_pieces a) end
unfolding get_op_name arguments int_to_string dirfd_to_string eff_to_string
op_line failed (hpath dirfd path e) end h =
    words4 (codes "hpath") (dirfd_to_string dirfd) path (eff_to_string e) end
op_line failed (hpath_sym dirfd path e) end h =
    words4 (codes "hpathsym") (dirfd_to_string dirfd) path (eff_to_string e) end
op_line true (new_fd dirfd path (pos _)) end (n, (h, e)) = absurd (cc e)
op_line true (new_fd dirfd path (negsuc _)) end (n, (h, e)) =
    words3 (codes "newFd") (dirfd_to_string dirfd) path end
op_line false (new_fd dirfd path (pos fd)) end (n, (h, k)) =
    words4 (codes "newFd") (dirfd_to_string dirfd) path (to_string fd) end
op_line false (new_fd dirfd path (negsuc _)) end h = absurd h
op_line failed (del_fd fd) end h = sep (codes "delFd") (to_string fd) end
op_line failed (link old_dirfd old_path new_dirfd new_path) end h =
    words5 (codes "link") (dirfd_to_string old_dirfd) old_path (dirfd_to_string new_dirfd) new_path
      end
op_line failed (rename old_dirfd old_path new_dirfd new_path) end h =
    words5 (codes "rename") (dirfd_to_string old_dirfd) old_path (dirfd_to_string new_dirfd)
      new_path end
op_line failed (symlink dirfd path target) end h =
    words4 (codes "symlink") (dirfd_to_string dirfd) path target end
op_line failed (dup_fd _ _) end h = absurd h
op_line failed (new_proc _ _) end h = absurd h
op_line failed (set_cwd _) end h = absurd h
op_line failed nop end h = absurd h

-- Every printable operation has its arguments and its marks.
to_string-marks :
    (failed : Bool) (name : Text) (a : Action)
    → IsPrintable failed a
    → operation_to_string (record { failed = failed; actual_op_name = name; action = a })
      ≡ (get_op_name a ⊹ arguments failed a)
        ++ marks (record { failed = failed; actual_op_name = name; action = a })
unfolding operation_to_string
to_string-marks failed name (hpath _ _ _) h = refl
to_string-marks failed name (hpath_sym _ _ _) h = refl
to_string-marks failed name (new_fd _ _ _) h = refl
to_string-marks failed name (del_fd _) h = refl
to_string-marks failed name (link _ _ _ _) h = refl
to_string-marks failed name (rename _ _ _ _) h = refl
to_string-marks failed name (symlink _ _ _) h = refl
to_string-marks failed name (dup_fd _ _) h = absurd h
to_string-marks failed name (new_proc _ _) h = absurd h
to_string-marks failed name (set_cwd _) h = absurd h
to_string-marks failed name nop h = absurd h

failed-IsName : IsName (codes "failed")
unfolding classify
failed-IsName = record { small = refl; is_one = refl; token = refl }

-- An operation that a trace file can hold.
pub record IsPrintableOp (op : Operation) : Type 0 where
  pub action : IsPrintable op.failed op.action
  pub name : IsName op.actual_op_name
  pub is_no_flag : same op.actual_op_name (codes "failed") ≡ false

op_meta-AllNames : (op : Operation) → IsName op.actual_op_name → AllNames (op_meta op)
op_meta-AllNames op h = by_cases op.failed
  where
    by_cases :
        (failed : Bool)
        → AllNames (op.actual_op_name ∷ (if failed then codes "failed" ∷ [] else []))
    by_cases true = (h, (failed-IsName, tt))
    by_cases false = (h, tt)

-- The tokens of an operation, and what follows them.
abbrev pub op_tokens : Operation → List Token → List Token
op_tokens op ts =
    (op_key op.action).tokens
    ++ (all_tokens (op_pieces op.action) ++ (all_tokens (map mark_piece (op_meta op)) ++ ts))

-- The lexer reads the line of an operation.
pub lex-operation_to_string :
    (op : Operation) (rest : Text)
    → IsPrintableOp op
    → lex idle (operation_to_string op ++ 10 ∷ rest) ≡ op_tokens op (lex idle rest)
lex-operation_to_string op rest h =
    let line = op_pieces op.action ++ map mark_piece (op_meta op) in
    let printed = to_string-marks op.failed op.actual_op_name op.action h.action in
    let as_line : operation_to_string op ++ 10 ∷ rest
        ≡ (op_key op.action).text ++ after_word line (10 ∷ rest) =
      ap (λ (x : Text). x ++ 10 ∷ rest) printed
      ∙ append_assoc (get_op_name op.action ⊹ arguments op.failed op.action) (marks op) (10 ∷ rest)
      ∙ op_line op.failed op.action (marks op ++ 10 ∷ rest) h.action
      ∙ ap (λ (x : Text). (op_key op.action).text ++ after_word (op_pieces op.action) x)
          (marks-after_word op (10 ∷ rest) h.name)
      ∙ ap (λ (x : Text). (op_key op.action).text ++ x)
          (sym
            (after_word-append (op_pieces op.action) (map mark_piece (op_meta op)) (10 ∷ rest))) in
    ap (lex idle) as_line
    ∙ lex-line (op_key op.action) line rest (op_key-IsRead op.action) (
        AllRead-append (op_pieces op.action) (map mark_piece (op_meta op))
          (op_pieces-AllRead op.failed op.action h.action)
          (AllNames-AllRead (op_meta op) (op_meta-AllNames op h.name)))
    ∙ ap (λ (x : List Token). (op_key op.action).tokens ++ x)
        (all_tokens-append (op_pieces op.action) (map mark_piece (op_meta op)) (lex idle rest))
