-- ===== src/Node/Sound/Submit.antt =====
-- Submissions to libuv: what they do to the current block.
use fsracer.Prelude.{
  ℕ, zero, suc, ◌-◌, ◌<◌, ◌≡◌, refl, ap, Option, none, some, List, [], ◌∷◌, ◌++◌, Text, codes,
  text_ord, if◌then◌else◌, length, arith, ok, Bool-cases, inl, inr, ◌==◌, leb,
}
use fsracer.Utils.{to_string, starts_with, ptr_to_string}
use fsracer.Trace.{Expr, Block, debug_at, set_expr_debug_info, size, add_expr}
use fsracer.Generator.{
  GenState, Value, string_ptr, add_to_store, pop_from_store, as_int, on_current_block,
  incr_sync_op_count,
}
use fsracer.Generator.Emit.{Call}
use fsracer.Node.{operations, check_block}
use fsracer.Node.Submit.{
  init_key, submit_construct, name_event, submit_to, submit, submit_without_event, submit_last,
  submit_with_event, add_submit_op,
}
use fsracer.Node.Sound.{
  Kind, kind_at, IsSound, Fits, Follows, IsChained, created, Ends, Ends-bind, Current, Keeps,
  if_Ends, Ends-map,
}
use fsracer.Node.Sound.Stores.{
  add_to_store-IsSound, pop_from_store-Popped, keep_blocks, as_int-Ends,
}
use fsracer.Node.Sound.Blocks.{check_block-Ends, on_current_block-Ends, Changes}
use fsracer.Node.Sound.Syscalls.{kind_at-operations}

pub IsChained-add :
    (e : Expr) (before : Option ℕ) (es : List Expr)
    → ((o : Option ℕ) → Follows o e.construct)
    → IsChained before es
    → IsChained before (es ++ e ∷ [])
IsChained-add e before [] free h = (free before, tt)
IsChained-add e before (x ∷ es) free (one, all) =
    (one, IsChained-add e (created x.construct) es free all)

IsChained-debug_at :
    (i : ℕ) (debug : Text) (before : Option ℕ) (es : List Expr)
    → IsChained before es
    → IsChained before (debug_at i debug es)
IsChained-debug_at i debug before [] h = tt
IsChained-debug_at zero debug before (e ∷ es) h = h
IsChained-debug_at (suc i) debug before (e ∷ es) (one, all) =
    (one, IsChained-debug_at i debug (created e.construct) es all)

length-debug_at : (i : ℕ) (debug : Text) (es : List Expr) → length (debug_at i debug es) ≡ length es
length-debug_at i debug [] = refl
length-debug_at zero debug (e ∷ es) = refl
length-debug_at (suc i) debug (e ∷ es) = ap suc (length-debug_at i debug es)

set_expr_debug_info-ok :
    (i : ℕ) (debug : Text) (b : Block)
    → i < length b.exprs
    → set_expr_debug_info i debug b ≡ ok (record b { exprs = debug_at i debug b.exprs })
unfolding set_expr_debug_info
set_expr_debug_info-ok i debug b h = ground arith

-- The block with the expressions that are named.
abbrev named : Option ℕ → Text → Block → List Expr
named none op_name b = b.exprs
named (some _) op_name b =
    if leb 2 (length b.exprs)
    then debug_at (length b.exprs - 2) op_name (debug_at (length b.exprs - 2) (codes "fs") b.exprs)
    else b.exprs

name_event-named :
    (event_id : Option ℕ) (op_name : Text) (b : Block)
    → name_event event_id op_name b ≡ ok (record b { exprs = named event_id op_name b })
unfolding size
name_event-named none op_name b = refl
name_event-named (some _) op_name b = elim (Bool-cases (leb 2 (length b.exprs))) [
  | inl t ↦
      let i : ℕ = length b.exprs - 2 in
      let b1 : Block = record b { exprs = debug_at i (codes "fs") b.exprs } in
      let below : i < length b.exprs = ground arith in
      rw (t, set_expr_debug_info-ok i (codes "fs") b below)
        (set_expr_debug_info-ok i op_name b1 (rw (length-debug_at i (codes "fs") b.exprs) below))
  | inr f ↦ rw f refl
]

IsChained-named :
    (event_id : Option ℕ) (op_name : Text) (b : Block)
    → IsChained none b.exprs
    → IsChained none (named event_id op_name b)
IsChained-named none op_name b h = h
IsChained-named (some _) op_name b h = elim (Bool-cases (leb 2 (length b.exprs))) [
  | inl t ↦
      rw t (IsChained-debug_at _ op_name none _ (IsChained-debug_at _ (codes "fs") none b.exprs h))
  | inr f ↦ rw f h
]

submit-Follows :
    (event_id : Option ℕ) (id : Text) (o : Option ℕ) → Follows o (submit_construct event_id id)
submit-Follows none id o = tt
submit-Follows (some _) id o = tt

submit_to-Changes :
    (event_id : Option ℕ) (id op_name : Text)
    → Changes (λ _. Unit {0}) (λ _. Unit {0}) (submit_to event_id id op_name)
unfolding submit_to add_expr
submit_to-Changes event_id id op_name b chained _ =
    let e : Expr = record { construct = submit_construct event_id id; debug_info = op_name ∷ [] } in
    (
      record b { exprs = named event_id op_name b ++ e ∷ [] },
      rw (submit_to, name_event-named event_id op_name b) refl,
      IsChained-add e none (named event_id op_name b) (submit-Follows event_id id)
          (IsChained-named event_id op_name b chained),
      refl,
      refl,
      tt,
    )

submit-Keeps : (event_id : Option ℕ) (id op_name : Text) → Keeps (submit event_id id op_name)
unfolding submit add_to_store
submit-Keeps event_id id op_name c st s =
    let key : Text = operations ++ ptr_to_string (c.num_arg 1) in
    Ends-bind (λ _. Current (λ _. Unit {0}) st) IsSound
      (check_block (codes "Submit operation " ++ op_name) st)
      (λ _. on_current_block (submit_to event_id id op_name) (add_to_store key (string_ptr id) st))
      (check_block-Ends (codes "Submit operation " ++ op_name) st s)
      (λ _ here.
        Ends-map (λ st'. IsSound st' × Current (λ _. Unit {0}) st') IsSound
          (on_current_block (submit_to event_id id op_name) (add_to_store key (string_ptr id) st))
          (λ st' kept. kept.0)
          (on_current_block-Ends (λ _. Unit {0}) (λ _. Unit {0}) (submit_to event_id id op_name)
            (add_to_store key (string_ptr id) st)
            (add_to_store-IsSound key (string_ptr id) st s
              (kind_at-operations (ptr_to_string (c.num_arg 1))))
            here (submit_to-Changes event_id id op_name)))

kind_at-init_key : kind_at init_key ≡ Kind.number
unfolding starts_with
kind_at-init_key = refl

submit_value-Ends :
    (n : ℕ) (op_name : Text) (value : Option Value) (c : Call) (st : GenState)
    → IsSound st
    → ((v : Value) → value ≡ some v → Fits n init_key v)
    → Ends IsSound (submit_last value op_name c st)
submit_value-Ends n op_name none c st s fit = s
submit_value-Ends n op_name (some v) c st s fit =
    Ends-bind (λ _. Unit {0}) IsSound (as_int v)
      (λ event_id. submit (some event_id) (codes "async_" ++ to_string event_id) op_name c st)
      (as_int-Ends n init_key v kind_at-init_key (fit v refl))
      (λ event_id _.
        submit-Keeps (some event_id) (codes "async_" ++ to_string event_id) op_name c st s)

pub add_submit_op-Keeps : (op_name : Text) (n : ℕ) → Keeps (add_submit_op op_name n)
unfolding add_submit_op submit_without_event submit_with_event
add_submit_op-Keeps op_name n c st s =
    let st1 : GenState = incr_sync_op_count st in
    let p = pop_from_store-Popped init_key st s in
    if_Ends IsSound (c.num_arg n == 0) _ _
      (submit-Keeps none (codes "sync_" ++ to_string st1.sync_op_count) op_name c st1
        (keep_blocks st st1 s refl refl refl refl s.fits))
      (submit_value-Ends (length st.trace.exec_ops) op_name (pop_from_store init_key st).0 c
        (pop_from_store init_key st).1 p.sound p.value)
