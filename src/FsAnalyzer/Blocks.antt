-- ===== src/FsAnalyzer/Blocks.antt =====
-- lib/FSAnalyzer.cpp: expressions, blocks and traces.
use fsracer.Prelude.{
  ℕ, Option, none, some, List, [], ◌∷◌, ◌++◌, Text, codes, text_ord, nat_ord, pair_ord, Result, ok,
  ◌>>=◌,
}
use fsracer.Utils.{to_string, get_right_substr}
use fsracer.Trace.{
  Expr, submit_op, new_event, SubmitType, ExecOp, Block, Trace, get_pretty_block_id,
}
use fsracer.FilePath.{FilePath, path_ord, path_of_text}
use fsracer.Table.{add_entry, get_value}
use fsracer.InodeTable.{to_inode}
use fsracer.FsAnalyzer.{FsAccess, EffectTable, FsState}
use fsracer.FsAnalyzer.Operations.{inode_of, analyze_operations}

-- The event that the operations of a `submitOp` belong to.
abbrev pub set_block_id : Text → SubmitType → FsState → FsState
set_block_id op_id SubmitType.sync st = record st {
  block_id = elim st.current_block [ none ↦ [] | some b ↦ get_pretty_block_id b ];
}
set_block_id op_id SubmitType.async st = record st { block_id = get_right_substr op_id (codes "_") }

unfoldable pub analyze_submit_op : Text → SubmitType → FsState → Result FsState
unfolding analyze_operations get_right_substr
analyze_submit_op op_id type st = elim (get_value op_id st.op_table) [
  | none ↦ ok st
  | some e ↦ analyze_operations e.operations (set_block_id op_id type st)
]

unfoldable pub analyze_new_event : Expr → ℕ → FsState → FsState
analyze_new_event e event_id st = record st {
  event_info = add_entry (to_string event_id) e st.event_info;
}

unfoldable pub analyze_expr : Expr → FsState → Result FsState
unfolding analyze_submit_op analyze_new_event
analyze_expr e st = elim e.construct [
  | submit_op op_id _ type ↦ analyze_submit_op op_id type st
  | new_event id _ ↦ ok (analyze_new_event e id st)
  | _ ↦ ok st
]

unfoldable pub analyze_exprs : List Expr → FsState → Result FsState
unfolding analyze_expr
analyze_exprs [] st = ok st
analyze_exprs (e ∷ es) st = analyze_expr e st >>= analyze_exprs es

unfoldable pub analyze_block : Block → FsState → Result FsState
unfolding analyze_exprs
analyze_block b st = analyze_exprs b.exprs (record st { current_block = some b })

unfoldable pub analyze_blocks : List Block → FsState → Result FsState
unfolding analyze_block
analyze_blocks [] st = ok st
analyze_blocks (b ∷ bs) st = analyze_block b st >>= analyze_blocks bs

unfoldable pub analyze_exec_ops : List ExecOp → FsState → FsState
analyze_exec_ops [] st = st
analyze_exec_ops (e ∷ es) st =
    analyze_exec_ops es (record st { op_table = add_entry e.id e st.op_table })

unfoldable pub analyze_trace : Trace → FsState → Result FsState
unfolding to_inode analyze_exec_ops analyze_blocks
analyze_trace t st = do
  let st1 = record st { main_process = t.thread_id; cwd = path_of_text t.cwd }
  (inode, st2) ← inode_of st1.cwd st1
  let st3 = record st2 { cwd_table = add_entry st2.main_process inode st2.cwd_table }
  analyze_blocks t.blocks (analyze_exec_ops t.exec_ops st3)

abbrev pub or_none : Option (List FsAccess) → List FsAccess
or_none none = []
or_none (some v) = v

-- The accesses move on to the table that the detector reads, in the order of path and event.
unfoldable pub collect : List ((FilePath × Text) × FsAccess) → EffectTable → EffectTable
collect [] effects = effects
collect (((p, _), access) ∷ rest) effects =
    collect rest (add_entry p (or_none (get_value p effects) ++ access ∷ []) effects)

unfoldable pub analyze : Trace → FsState → Result FsState
unfolding analyze_trace collect
analyze t st = do
  st' ← analyze_trace t st
  ok (record st' { effect_table = collect st'.block_accesses st'.effect_table })
