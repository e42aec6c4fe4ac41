-- ===== src/FsAnalyzer/Total.antt =====
-- lib/FSAnalyzer.cpp: the traces that the analyzer takes to their end.
use fsracer.Prelude.{
  ◌≡◌, refl, sym, subst, true, some, List, [], ◌∷◌, text_ord, nat_ord, same, ok, Bool-cases, inl,
  inr,
}
use fsracer.Collections.Map.{find, find-assign}
use fsracer.Trace.{ExecOp, Block, Trace}
use fsracer.FilePath.{is_absolute, path_of_text}
use fsracer.Table.{add_entry}
use fsracer.InodeTable.ToInode.{to_inode-Leads}
use fsracer.FsAnalyzer.{FsState, new_state}
use fsracer.FsAnalyzer.Blocks
use fsracer.FsAnalyzer.Blocks.{
  analyze_submit_op, analyze_new_event, analyze_expr, analyze_exprs, analyze_block, analyze_blocks,
  analyze_exec_ops, analyze, collect, set_block_id,
}
use fsracer.FsAnalyzer.Safe.{AllSafe}
use fsracer.FsAnalyzer.Known.{SafeBlocks, SafeExecs, SafeTable, exprs-Advances}

analyze_blocks-returns :
    (bs : List Block) (st : FsState)
    → SafeTable st.op_table
    → SafeBlocks bs st.event_info
    → (st' : FsState) × (analyze_blocks bs st ≡ ok st')
unfolding analyze_blocks analyze_block
analyze_blocks-returns [] st safe all = (st, refl)
analyze_blocks-returns (b ∷ bs) st safe (known, all) =
    let (st1, r, ops, events, _) =
      exprs-Advances b b.exprs (record st { current_block = some b }) refl safe known in
    let (st2, r') =
      analyze_blocks-returns bs st1 (subst SafeTable (sym ops) safe)
        (subst (SafeBlocks bs) (sym events) all) in
    (st2, rw (analyze_blocks, analyze_block, r) r')

analyze_exec_ops-SafeTable :
    (es : List ExecOp) (st : FsState)
    → SafeExecs es
    → SafeTable st.op_table
    → SafeTable (analyze_exec_ops es st).op_table
      × ((analyze_exec_ops es st).event_info ≡ st.event_info)
unfolding analyze_exec_ops
analyze_exec_ops-SafeTable [] st all safe = (safe, refl)
analyze_exec_ops-SafeTable (e ∷ es) st (one, all) safe =
    analyze_exec_ops-SafeTable es (record st { op_table = add_entry e.id e st.op_table }) all
      (λ id e' found. elim (Bool-cases (same id e.id)) [
        | inl t ↦
            let stored : some e ≡ some e' = rw (find-assign id e.id e st.op_table, t) at found in
            let last : e ≡ e' = cc in subst (λ x. AllSafe x.operations) last one
        | inr f ↦ safe id e' (rw (find-assign id e.id e st.op_table, f) at found)
      ])

analyze_from-returns :
    (t : Trace) (st : FsState)
    → is_absolute (path_of_text t.cwd) ≡ true
    → SafeExecs t.exec_ops
    → SafeTable st.op_table
    → SafeBlocks t.blocks st.event_info
    → (st' : FsState) × (analyze t st ≡ ok st')
unfolding analyze Blocks.analyze_trace
analyze_from-returns t st absolute execs table blocks =
    let (i, inodes, e, _, _, _) = to_inode-Leads (path_of_text t.cwd) st.inode_table absolute in
    let st1 : FsState = record st {
      main_process = t.thread_id;
      cwd = path_of_text t.cwd;
      inode_table = inodes;
      cwd_table = add_entry t.thread_id i st.cwd_table;
    } in
    let (ops, events) = analyze_exec_ops-SafeTable t.exec_ops st1 execs table in
    let (st', r) =
      analyze_blocks-returns t.blocks (analyze_exec_ops t.exec_ops st1) ops
        (subst (SafeBlocks t.blocks) (sym events) blocks) in
    (
      record st' { effect_table = collect st'.block_accesses st'.effect_table },
      rw (analyze, Blocks.analyze_trace, e, r) refl,
    )

-- A new analyzer returns on a trace whose working directory is absolute, whose operations are safe, and
-- whose `submitOp`s are of main events or stand after the creation of their event. Safe is what
-- neither removes or renames a file, makes a hard link or closes a descriptor, nor names a path that
-- is relative, nor opens a descriptor of the root.
pub analyze-returns :
    (t : Trace)
    → is_absolute (path_of_text t.cwd) ≡ true
    → SafeExecs t.exec_ops
    → SafeBlocks t.blocks []
    → (st : FsState) × (analyze t new_state ≡ ok st)
unfolding new_state find
analyze-returns t absolute execs blocks =
    analyze_from-returns t new_state absolute execs (λ id e found. cc) blocks
