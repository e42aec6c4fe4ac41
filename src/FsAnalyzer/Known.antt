-- ===== src/FsAnalyzer/Known.antt =====
-- lib/FSAnalyzer.cpp: the events of a trace that the analyzer knows, and what its expressions do.
use fsracer.Prelude.{
  ◌≡◌, refl, sym, ap, subst, ◌∙◌, Bool, true, false, Option, none, some, List, [], ◌∷◌, Text, codes,
  text_ord, nat_ord, Result, ok, Option-cases, Bool-cases, if◌then◌else◌, inl, inr,
}
use fsracer.Collections.Map.{find}
use fsracer.Utils.{to_string, starts_with, get_right_substr}
use fsracer.Trace.{
  DebugInfo, Expr, Construct, submit_op, new_event, SubmitType, ExecOp, Block, get_pretty_block_id,
}
use fsracer.Table.{Table, add_entry}
use fsracer.FsAnalyzer.{FsState}
use fsracer.FsAnalyzer.Operations.{block_debug_info}
use fsracer.FsAnalyzer.Blocks.{
  analyze_submit_op, analyze_new_event, analyze_expr, analyze_exprs, set_block_id,
}
use fsracer.FsAnalyzer.Safe.{AllSafe, analyze_operations-Returns}

abbrev is_some : {A : Type 0} → Option A → Bool
is_some none = false
is_some (some _) = true

-- The name of the event whose operations a `submitOp` of the block executes.
abbrev event_of : Block → Text → SubmitType → Text
event_of b op_id SubmitType.sync = get_pretty_block_id b
event_of b op_id SubmitType.async = get_right_substr op_id (codes "_")

-- Debug information is there for the event: it is the main one, or it has been created.
abbrev is_known : Text → Table Text Expr → Bool
is_known id events = if starts_with id (codes "MAIN_") then true else is_some (find id events)

abbrev SafeConstruct : Block → Table Text Expr → Construct → Type 0
SafeConstruct b events (submit_op op_id _ type) = is_known (event_of b op_id type) events ≡ true
SafeConstruct b events _ = Unit

abbrev events_with : Expr → Construct → Table Text Expr → Table Text Expr
events_with e (new_event id _) events = add_entry (to_string id) e events
events_with e _ events = events

abbrev pub events_after : List Expr → Table Text Expr → Table Text Expr
events_after [] events = events
events_after (e ∷ es) events = events_after es (events_with e e.construct events)

-- Each `submitOp` stands after the creation of its event.
abbrev pub SafeExprs : Block → List Expr → Table Text Expr → Type 0
SafeExprs b [] events = Unit
SafeExprs b (e ∷ es) events =
    SafeConstruct b events e.construct × SafeExprs b es (events_with e e.construct events)

abbrev pub SafeBlocks : List Block → Table Text Expr → Type 0
SafeBlocks [] events = Unit
SafeBlocks (b ∷ bs) events =
    SafeExprs b b.exprs events × SafeBlocks bs (events_after b.exprs events)

abbrev pub SafeExecs : List ExecOp → Type 0
SafeExecs [] = Unit
SafeExecs (e ∷ es) = AllSafe e.operations × SafeExecs es

-- The executions in the table are safe.
abbrev pub SafeTable : Table Text ExecOp → Type 0
SafeTable ops = (id : Text) (e : ExecOp) → find id ops ≡ some e → AllSafe e.operations

known_debug :
    (st : FsState)
    → is_known st.block_id st.event_info ≡ true
    → (debug : DebugInfo) × (block_debug_info st ≡ ok debug)
known_debug st known = elim (Bool-cases (starts_with st.block_id (codes "MAIN_"))) [
  | inl main ↦ (codes "main" ∷ [], rw (block_debug_info, main) refl)
  | inr other ↦ elim (Option-cases (find st.block_id st.event_info)) [
    | inl absent ↦ absurd (cc (rw (is_known, other, absent) at known))
    | inr (e, created) ↦ (e.debug_info, rw (block_debug_info, other, created) refl)
  ]
]

-- The step returns, with the executions and the block of the state, and with the events.
abbrev pub Advances : FsState → Table Text Expr → Result FsState → Type 0
Advances st events r =
    (st' : FsState) × (r ≡ ok st')
    × (st'.op_table ≡ st.op_table)
    × (st'.event_info ≡ events)
    × (st'.current_block ≡ st.current_block)

module _ (b : Block) where
  set_block_id-event_of :
      (op_id : Text) (type : SubmitType) (st : FsState)
      → st.current_block ≡ some b
      → set_block_id op_id type st ≡ record st { block_id = event_of b op_id type }
  set_block_id-event_of op_id SubmitType.sync st here = rw (set_block_id, here) refl
  set_block_id-event_of op_id SubmitType.async st here = refl

  submit_op-Advances :
      (op_id : Text) (type : SubmitType) (st : FsState)
      → st.current_block ≡ some b
      → SafeTable st.op_table
      → is_known (event_of b op_id type) st.event_info ≡ true
      → Advances st st.event_info (analyze_submit_op op_id type st)
  unfolding analyze_submit_op
  submit_op-Advances op_id type st here safe known = elim (Option-cases (find op_id st.op_table)) [
    | inl absent ↦ (st, rw (analyze_submit_op, absent) refl, refl, refl, refl)
    | inr (e, found) ↦
        let st1 : FsState = record st { block_id = event_of b op_id type } in
        let (debug, k) = known_debug st1 known in
        let (st', r, f) =
          analyze_operations-Returns e.operations (safe op_id e found) st1 debug k in
        (
          st',
          rw (analyze_submit_op, found, set_block_id-event_of op_id type st here) r,
          f.ops,
          f.events,
          f.block,
        )
  ]

  expr-Advances :
      (debug : DebugInfo) (c : Construct) (st : FsState)
      → st.current_block ≡ some b
      → SafeTable st.op_table
      → SafeConstruct b st.event_info c
      → let e : Expr = record { construct = c; debug_info = debug } in
        Advances st (events_with e c st.event_info) (analyze_expr e st)
  unfolding analyze_expr analyze_new_event
  expr-Advances debug (submit_op op_id _ type) st here safe known =
      submit_op-Advances op_id type st here safe known
  expr-Advances debug (new_event id event) st here safe known = (
    record st {
      event_info =
          add_entry (to_string id) (record { construct = new_event id event; debug_info = debug })
            st.event_info;
    },
    refl,
    refl,
    refl,
    refl,
  )
  expr-Advances debug (Construct.link _ _) st here safe known = (st, refl, refl, refl, refl)
  expr-Advances debug (Construct.trigger _) st here safe known = (st, refl, refl, refl, refl)

  pub exprs-Advances :
      (es : List Expr) (st : FsState)
      → st.current_block ≡ some b
      → SafeTable st.op_table
      → SafeExprs b es st.event_info
      → Advances st (events_after es st.event_info) (analyze_exprs es st)
  unfolding analyze_exprs
  exprs-Advances [] st here safe all = (st, refl, refl, refl, refl)
  exprs-Advances (e ∷ es) st here safe (known, all) =
      let (st1, r, ops, events, block) =
        expr-Advances e.debug_info e.construct st here safe known in
      let (st2, r', ops', events', block') =
        exprs-Advances es st1 (block ∙ here) (subst SafeTable (sym ops) safe)
          (subst (SafeExprs b es) (sym events) all) in
      (
        st2,
        rw (analyze_exprs, r) r',
        ops' ∙ ops,
        events' ∙ ap (events_after es) events,
        block' ∙ block,
      )
