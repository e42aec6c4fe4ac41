-- ===== src/Parser/Executions.antt =====
-- The executions of operations in a dump: the lexer and the grammar on their lines.
use fsracer.Prelude.{
  suc, ◌≤◌, ◌<◌, ◌≡◌, refl, ap, ◌∙◌, none, List, [], ◌∷◌, ◌++◌, map, Text, codes, text_ord, arith,
  length, append_assoc, ok,
}
use fsracer.Operation.{
  Operation, Action, del_fd, dup_fd, hpath, hpath_sym, link, rename, new_fd, new_proc, set_cwd,
  symlink, nop, operation_to_string,
}
use fsracer.Trace.{ExecOp, exec_op_to_string, lines}
use fsracer.Parser.Pieces.{op_key, op_pieces}
use fsracer.Parser.{Token, keyword, op_id, op_word, do_word, done_word}
use fsracer.Parser.Lexer.{idle, lex, classify}
use fsracer.Parser.Words.{mark_piece}
use fsracer.Parser.Lines.{all_tokens, lex-line, key_piece, key_piece-IsRead}
use fsracer.Parser.Marks.{NotMark, marks_of}
use fsracer.Parser.Operations.{IsPrintableOp, op_tokens, op_meta, lex-operation_to_string}
use fsracer.Parser.Actions.{parse_oper-op_tokens}
use fsracer.Parser.Expressions.{IsOpId, op_id_piece, op_id_piece-IsRead}
use fsracer.Parser.Grammar.{parse_oper}
use fsracer.Parser.Items.{tokens_of, Each, length-tokens_of, parse_all-tokens}
use fsracer.Parser.Program.{parse_all, at_done, parse_op_def}

-- The lines of a list.
module _ {A : Type 0} (print : A → Text) (tokens : A → List Token → List Token) (Good : A → Type 0)
    (reads_line : (x : A) (rest : Text)
      → Good x
      → lex idle (print x ++ 10 ∷ rest) ≡ tokens x (lex idle rest)) where
  pub lex-lines :
      (xs : List A) (rest : Text)
      → Each Good xs
      → lex idle (lines print xs ++ rest) ≡ tokens_of tokens xs (lex idle rest)
  lex-lines [] rest h = refl
  lex-lines (x ∷ xs) rest (one, h) =
      ap (lex idle) (
        append_assoc (print x ++ codes "\n") (lines print xs) rest
        ∙ append_assoc (print x) (codes "\n") (lines print xs ++ rest))
      ∙ reads_line x (lines print xs ++ rest) one
      ∙ ap (tokens x) (lex-lines xs rest h)

pub append4 : (a b c d e : Text) → (((a ++ b) ++ c) ++ d) ++ e ≡ a ++ (b ++ (c ++ (d ++ e)))
append4 a b c d e =
    append_assoc ((a ++ b) ++ c) d e
    ∙ append_assoc (a ++ b) c (d ++ e)
    ∙ append_assoc a b (c ++ (d ++ e))

pub shorter : (us ts : List Token) → length ts ≤ length (us ++ ts)
shorter [] ts = omega arith
shorter (u ∷ us) ts = let less = shorter us ts in omega arith

-- What the first token of an operation shows.
op_begins :
    (a : Action) (ts : List Token)
    → (at_done ((op_key a).tokens ++ ts) ≡ none)
      × (NotMark ((op_key a).tokens ++ ts) × (length ((op_key a).tokens ++ ts) ≡ suc (length ts)))
op_begins (hpath _ _ _) ts = (refl, (tt, refl))
op_begins (hpath_sym _ _ _) ts = (refl, (tt, refl))
op_begins (new_fd _ _ _) ts = (refl, (tt, refl))
op_begins (del_fd _) ts = (refl, (tt, refl))
op_begins (link _ _ _ _) ts = (refl, (tt, refl))
op_begins (rename _ _ _ _) ts = (refl, (tt, refl))
op_begins (symlink _ _ _) ts = (refl, (tt, refl))
op_begins (dup_fd _ _) ts = (refl, (tt, refl))
op_begins (new_proc _ _) ts = (refl, (tt, refl))
op_begins (set_cwd _) ts = (refl, (tt, refl))
op_begins nop ts = (refl, (tt, refl))

op_goes_on : (op : Operation) (ts : List Token) → at_done (op_tokens op ts) ≡ none
op_goes_on op ts =
    (op_begins op.action (all_tokens (op_pieces op.action) ++ (marks_of (op_meta op) ++ ts))).0

op_no_mark : (op : Operation) (ts : List Token) → NotMark (op_tokens op ts)
op_no_mark op ts =
    (op_begins op.action (all_tokens (op_pieces op.action) ++ (marks_of (op_meta op) ++ ts))).1.0

op_takes : (op : Operation) (ts : List Token) → length ts < length (op_tokens op ts)
op_takes op ts =
    let marks = all_tokens (map mark_piece (op_meta op)) in
    let one = (op_begins op.action (all_tokens (op_pieces op.action) ++ (marks ++ ts))).1.1 in
    let less = shorter marks ts in
    let less' = shorter (all_tokens (op_pieces op.action)) (marks ++ ts) in omega arith

-- An execution that a trace file can hold.
pub record IsPrintableExec (e : ExecOp) : Type 0 where
  pub id : IsOpId e.id
  pub operations : Each IsPrintableOp e.operations

abbrev pub exec_tokens : ExecOp → List Token → List Token
exec_tokens e ts =
    keyword op_word
    ∷ op_id e.id
    ∷ keyword do_word
    ∷ tokens_of op_tokens e.operations (keyword done_word ∷ ts)

-- The lexer reads an execution.
pub lex-exec_op_to_string :
    (e : ExecOp) (rest : Text)
    → IsPrintableExec e
    → lex idle (exec_op_to_string e ++ 10 ∷ rest) ≡ exec_tokens e (lex idle rest)
unfolding exec_op_to_string classify
lex-exec_op_to_string e rest h =
    let body = lines operation_to_string e.operations in
    let first = key_piece (codes "Operation") op_word in
    let others = op_id_piece e.id ∷ key_piece (codes "do") do_word ∷ [] in
    let end = codes "done" ++ 10 ∷ rest in
    ap (λ (x : Text). lex idle (codes "Operation " ++ x))
      (append4 e.id (codes " do\n") body (codes "done") (10 ∷ rest))
    ∙ lex-line first others (body ++ end) (key_piece-IsRead (codes "Operation") op_word refl refl)
        (op_id_piece-IsRead e.id h.id, (key_piece-IsRead (codes "do") do_word refl refl, tt))
    ∙ ap (λ (x : List Token). keyword op_word ∷ op_id e.id ∷ keyword do_word ∷ x)
        (lex-lines operation_to_string op_tokens IsPrintableOp lex-operation_to_string e.operations
            end h.operations
          ∙ ap (tokens_of op_tokens e.operations) (
              lex-line (key_piece (codes "done") done_word) [] rest
                (key_piece-IsRead (codes "done") done_word refl refl) tt))

-- An execution has a token at least, and a block too.
pub exec_takes : (e : ExecOp) (ts : List Token) → length ts < length (exec_tokens e ts)
exec_takes e ts =
    let less =
      length-tokens_of parse_oper at_done op_tokens IsPrintableOp parse_oper-op_tokens op_goes_on
        op_no_mark op_takes e.operations (keyword done_word ∷ ts) in
    omega arith

parse_ops-tokens :
    (ops : List Operation) (ts : List Token)
    → Each IsPrintableOp ops
    → parse_all parse_oper at_done (tokens_of op_tokens ops (keyword done_word ∷ ts)) ≡ ok (ops, ts)
parse_ops-tokens ops ts h =
    parse_all-tokens parse_oper at_done op_tokens IsPrintableOp parse_oper-op_tokens op_goes_on
      op_no_mark op_takes ops (keyword done_word ∷ ts) ts h tt refl

-- The parser reads an execution from its tokens.
pub parse_op_def-exec_tokens :
    (e : ExecOp) (ts : List Token)
    → IsPrintableExec e
    → parse_op_def (exec_tokens e ts) ≡ ok (e, ts)
unfolding parse_op_def
parse_op_def-exec_tokens e ts h = rw (parse_ops-tokens e.operations ts h.operations) refl
