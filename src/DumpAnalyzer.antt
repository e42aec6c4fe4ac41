-- ===== src/DumpAnalyzer.antt =====
-- lib/Analyzer.h and lib/Analyzer.cpp: the analyzer that writes the trace.
pub mod Counts
use fsracer.Prelude.{ℕ, ◌+◌, Bool, ◌&&◌, List, [], ◌∷◌, ◌++◌, Text, codes, length, if◌then◌else◌}
use fsracer.Utils.{to_string}
use fsracer.Operation.{Action, Operation, dup_fd, new_proc, set_cwd, nop}
use fsracer.Trace.{Expr, expr_to_string, ExecOp, exec_op_to_string, Block, is_main, Trace}

-- The fields of the analyzer.
pub record DumpState : Type 0 where
  pub trace_buf : Text
  pub trace_count : ℕ
  pub operation_count : ℕ
  pub block_count : ℕ

abbrev pub new_dump : DumpState
new_dump = record { trace_buf = []; trace_count = 0; operation_count = 0; block_count = 0 }

-- `trace_buf += str`
abbrev pub write : Text → DumpState → DumpState
write str st = record st { trace_buf = st.trace_buf ++ str }

-- What the members for the four kinds of expressions do.
unfoldable pub dump_expr : Expr → DumpState → DumpState
unfolding expr_to_string
dump_expr e st = write (codes "\n") (write (expr_to_string e) st)

unfoldable pub dump_exprs : List Expr → DumpState → DumpState
unfolding dump_expr
dump_exprs [] st = st
dump_exprs (e ∷ es) st = dump_exprs es (dump_expr e st)

unfoldable pub dump_exec_op : ExecOp → DumpState → DumpState
unfolding exec_op_to_string
dump_exec_op e st =
    let st' = record st { trace_count = st.trace_count + length e.operations } in
    write (codes "\n") (write (exec_op_to_string e) st')

unfoldable pub dump_exec_ops : List ExecOp → DumpState → DumpState
unfolding dump_exec_op
dump_exec_ops [] st = st
dump_exec_ops (e ∷ es) st = dump_exec_ops es (dump_exec_op e st)

-- The line that opens a block.
unfoldable pub begin_line : Block → Text
begin_line b =
    codes "Begin "
    ++ (if is_main b then codes "MAIN " ++ to_string b.block_id else to_string b.block_id)
    ++ codes "\n"

abbrev pub is_skipped : Block → Bool
is_skipped b = elim b.exprs [ [] ↦ is_main b | _ ∷ _ ↦ Bool.false ]

unfoldable pub dump_block : Block → DumpState → DumpState
unfolding dump_exprs begin_line
dump_block b st =
    if is_skipped b
    then st
    else (let st1 = write (begin_line b) st in
        let st2 = record st1 { trace_count = st1.trace_count + length b.exprs } in
        write (codes "End\n") (dump_exprs b.exprs st2))

unfoldable pub dump_blocks : List Block → DumpState → DumpState
unfolding dump_block
dump_blocks [] st = st
dump_blocks (b ∷ bs) st = dump_blocks bs (dump_block b st)

unfoldable pub dump_trace : Trace → DumpState → DumpState
unfolding dump_exec_ops dump_blocks
dump_trace t st =
    let st1 = write (codes "!PID: " ++ to_string t.thread_id ++ codes "\n") st in
    let st2 = write (codes "!Working Directory: " ++ t.cwd ++ codes "\n") st1 in
    let st3 = dump_exec_ops t.exec_ops (record st2 { operation_count = length t.exec_ops }) in
    dump_blocks t.blocks (record st3 { block_count = length t.blocks })

-- What `DumpOutput` writes.
unfoldable pub dump_output : DumpState → Text
dump_output st =
    codes "!Blocks: "
    ++ to_string st.block_count
    ++ codes "\n!Operations: "
    ++ to_string st.operation_count
    ++ codes "\n!Entries: "
    ++ to_string st.trace_count
    ++ codes "\n"
    ++ st.trace_buf
