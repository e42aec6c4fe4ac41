-- ===== src/DumpAnalyzer/Counts.antt =====
-- The dump of a trace, described without a state.
use fsracer.Prelude.{
  ℕ, ◌+◌, ◌≡◌, refl, sym, ap, ◌∙◌, true, inl, inr, List, [], ◌∷◌, ◌++◌, Text, codes, length,
  if◌then◌else◌, append-nil, append_assoc, arith, Bool-cases,
}
use fsracer.Utils.{to_string}
use fsracer.Trace.{Expr, expr_to_string, ExecOp, exec_op_to_string, Block, Trace, lines}
use fsracer.DumpAnalyzer.{
  DumpState, new_dump, write, dump_expr, dump_exprs, dump_exec_op, dump_exec_ops, begin_line,
  is_skipped, dump_block, dump_blocks, dump_trace,
}

-- The text of a block: a main block without expressions has none.
abbrev pub block_text : Block → Text
block_text b =
    if is_skipped b then [] else begin_line b ++ lines expr_to_string b.exprs ++ codes "End\n"

abbrev pub blocks_text : List Block → Text
blocks_text [] = []
blocks_text (b ∷ bs) = block_text b ++ blocks_text bs

abbrev pub entries_of_ops : List ExecOp → ℕ
entries_of_ops [] = 0
entries_of_ops (e ∷ es) = length e.operations + entries_of_ops es

abbrev pub entries_of_blocks : List Block → ℕ
entries_of_blocks [] = 0
entries_of_blocks (b ∷ bs) = length b.exprs + entries_of_blocks bs

-- The state with more text and more entries.
abbrev add : Text → ℕ → DumpState → DumpState
add str n st = record st { trace_buf = st.trace_buf ++ str; trace_count = st.trace_count + n }

with_both :
    (st : DumpState) {s t : Text} {m n : ℕ}
    → s ≡ t
    → m ≡ n
    → record st { trace_buf = s; trace_count = m } ≡ record st { trace_buf = t; trace_count = n }
with_both st e f = rw (e, f) refl

regroup : (b s n r : Text) → ((b ++ s) ++ n) ++ r ≡ b ++ ((s ++ n) ++ r)
regroup b s n r = ap (λ (x : Text). x ++ r) (append_assoc b s n) ∙ append_assoc b (s ++ n) r

dump_exprs-add :
    (es : List Expr) (st : DumpState) → dump_exprs es st ≡ add (lines expr_to_string es) 0 st
unfolding dump_exprs dump_expr
dump_exprs-add [] st = with_both st (sym (append-nil st.trace_buf)) (omega arith)
dump_exprs-add (e ∷ es) st =
    dump_exprs-add es (dump_expr e st)
    ∙ with_both st (regroup st.trace_buf (expr_to_string e) (codes "\n") (lines expr_to_string es))
        (omega arith)

dump_exec_ops-add :
    (es : List ExecOp) (st : DumpState)
    → dump_exec_ops es st ≡ add (lines exec_op_to_string es) (entries_of_ops es) st
unfolding dump_exec_ops dump_exec_op
dump_exec_ops-add [] st = with_both st (sym (append-nil st.trace_buf)) (omega arith)
dump_exec_ops-add (e ∷ es) st =
    dump_exec_ops-add es (dump_exec_op e st)
    ∙ with_both st
        (regroup st.trace_buf (exec_op_to_string e) (codes "\n") (lines exec_op_to_string es))
        (omega arith)

skipped_length : (b : Block) → is_skipped b ≡ true → length b.exprs ≡ 0
skipped_length b h = ground arith

dump_block-add :
    (b : Block) (st : DumpState) → dump_block b st ≡ add (block_text b) (length b.exprs) st
unfolding dump_block
dump_block-add b st = elim (Bool-cases (is_skipped b)) [
  | inl skipped ↦
      let none = skipped_length b skipped in
      rw (dump_block, skipped) (with_both st (sym (append-nil st.trace_buf)) (omega arith))
  | inr kept ↦
      let buf = st.trace_buf ++ begin_line b in
      let st2 = record st { trace_buf = buf; trace_count = st.trace_count + length b.exprs } in
      rw (dump_block, block_text, kept)
        (ap (write (codes "End\n")) (dump_exprs-add b.exprs st2)
          ∙ with_both st
              (regroup st.trace_buf (begin_line b) (lines expr_to_string b.exprs) (codes "End\n"))
              (omega arith))
]

dump_blocks-add :
    (bs : List Block) (st : DumpState)
    → dump_blocks bs st ≡ add (blocks_text bs) (entries_of_blocks bs) st
unfolding dump_blocks
dump_blocks-add [] st = with_both st (sym (append-nil st.trace_buf)) (omega arith)
dump_blocks-add (b ∷ bs) st =
    ap (dump_blocks bs) (dump_block-add b st)
    ∙ (dump_blocks-add bs (add (block_text b) (length b.exprs) st)
        ∙ with_both st (append_assoc st.trace_buf (block_text b) (blocks_text bs)) (omega arith))

abbrev pub preamble : Trace → Text
preamble t =
    (codes "!PID: " ++ to_string t.thread_id ++ codes "\n")
    ++ (codes "!Working Directory: " ++ t.cwd ++ codes "\n")

-- A new analyzer ends up with the text of the trace (its process and directory, its operations, and its
-- blocks but for the main ones without expressions) and with the numbers of its blocks, of its
-- submitted operations, and of its entries, which are all file operations and all expressions.
pub dump_trace-text :
    (t : Trace)
    → dump_trace t new_dump ≡ record {
      trace_buf = (preamble t ++ lines exec_op_to_string t.exec_ops) ++ blocks_text t.blocks;
      trace_count = entries_of_ops t.exec_ops + entries_of_blocks t.blocks;
      operation_count = length t.exec_ops;
      block_count = length t.blocks;
    }
unfolding dump_trace
dump_trace-text t =
    let start : DumpState = record {
      trace_buf = preamble t;
      trace_count = 0;
      operation_count = length t.exec_ops;
      block_count = 0;
    } in
    let ops = dump_exec_ops-add t.exec_ops start in
    ap (λ (s : DumpState). dump_blocks t.blocks (record s { block_count = length t.blocks })) ops
    ∙ (dump_blocks-add t.blocks
          (record (add (lines exec_op_to_string t.exec_ops) (entries_of_ops t.exec_ops) start) {
            block_count = length t.blocks;
          })
        ∙ with_both (record start { block_count = length t.blocks }) refl (omega arith))
