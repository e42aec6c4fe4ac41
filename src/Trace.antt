-- ===== src/Trace.antt =====
-- lib/Trace.h and lib/Trace.cpp: the trace that the analyzers read. No pointer of a trace is null.
use fsracer.Prelude.{
  ℕ, zero, suc, Bool, true, false, Option, none, some, List, [], ◌∷◌, ◌++◌, Text, codes, ltb,
  if◌then◌else◌, length, Result, ok, fail, assertion,
}
use fsracer.Utils.{to_string}
use fsracer.Operation.{Operation, mark_failed, operation_to_string, ◌⊹◌}

-- The debug strings, in the order of their addition.
abbrev pub DebugInfo : Type 0
DebugInfo = List Text

abbrev pub add_debug_info : Text → DebugInfo → DebugInfo
add_debug_info debug info = info ++ debug ∷ []

unfoldable pub debug_info_to_string : DebugInfo → Text
debug_info_to_string [] = []
debug_info_to_string (debug ∷ info) = codes " !" ++ debug ++ debug_info_to_string info

pub data EventType : Type 0 where
  s m w ext main : EventType

pub record Event : Type 0 where
  pub event_type : EventType
  pub event_value : ℕ

unfoldable pub event_to_string : Event → Text
event_to_string e = print e.event_type
  where
    print : EventType → Text
    print EventType.s = codes "S " ++ to_string e.event_value
    print EventType.m = codes "M " ++ to_string e.event_value
    print EventType.w = codes "W " ++ to_string e.event_value
    print EventType.main = codes "MAIN"
    print EventType.ext = codes "EXTERNAL"

pub data SubmitType : Type 0 where
  async sync : SubmitType

-- The subclasses of `Expr`: `SubmitOp`, `NewEventExpr`, `LinkExpr`, `Trigger`.
pub data Construct : Type 0 where
  submit_op : Text → Option ℕ → SubmitType → Construct
  new_event : ℕ → Event → Construct
  link : ℕ → ℕ → Construct
  trigger : ℕ → Construct

pub record Expr : Type 0 where
  pub construct : Construct
  pub debug_info : DebugInfo

pub record ExecOp : Type 0 where
  pub id : Text
  pub operations : List Operation

pub data BlockType : Type 0 where
  reg main : BlockType

pub record Block : Type 0 where
  pub block_id : ℕ
  pub block_type : BlockType
  pub exprs : List Expr

pub record Trace : Type 0 where
  pub blocks : List Block
  pub exec_ops : List ExecOp
  pub thread_id : ℕ
  pub cwd : Text

-- The constructors of `SubmitOp`: with an event, the operation is asynchronous.
abbrev pub submit_async : Text → ℕ → Construct
submit_async op_id event_id = submit_op op_id (some event_id) async

abbrev pub submit_sync : Text → Construct
submit_sync op_id = submit_op op_id none sync

unfoldable pub expr_to_string : Expr → Text
unfolding debug_info_to_string event_to_string
expr_to_string e = print e.construct
  where
    type_str : SubmitType → Text
    type_str async = codes "ASYNC"
    type_str sync = codes "SYNC"

    print : Construct → Text
    print (submit_op op_id (some event_id) type) =
        (codes "submitOp" ⊹ op_id ⊹ to_string event_id ⊹ type_str type)
        ++ debug_info_to_string e.debug_info
    print (submit_op op_id none type) =
        (codes "submitOp" ⊹ op_id ⊹ type_str type) ++ debug_info_to_string e.debug_info
    print (new_event event_id event) =
        (codes "newEvent" ⊹ to_string event_id ⊹ event_to_string event)
        ++ debug_info_to_string e.debug_info
    print (link source target) = codes "link" ⊹ to_string source ⊹ to_string target
    print (trigger event_id) = codes "trigger" ⊹ to_string event_id

abbrev pub mark_last : List Operation → List Operation
mark_last [] = []
mark_last (op ∷ []) = mark_failed op ∷ []
mark_last (op ∷ op' ∷ ops) = op ∷ mark_last (op' ∷ ops)

unfoldable pub mark_last_operation_failed : ExecOp → ExecOp
mark_last_operation_failed e = record e { operations = mark_last e.operations }

abbrev pub lines {ℓ} : {A : Type ℓ} → (A → Text) → List A → Text
lines print [] = []
lines print (x ∷ xs) = print x ++ codes "\n" ++ lines print xs

unfoldable pub exec_op_to_string : ExecOp → Text
exec_op_to_string e =
    codes "Operation "
    ++ e.id
    ++ codes " do\n"
    ++ lines operation_to_string e.operations
    ++ codes "done"

abbrev pub is_main : Block → Bool
is_main b = elim b.block_type [ BlockType.main ↦ true | BlockType.reg ↦ false ]

unfoldable pub get_pretty_block_id : Block → Text
get_pretty_block_id b = elim b.block_type [
  | BlockType.reg ↦ to_string b.block_id
  | BlockType.main ↦ codes "MAIN_" ++ to_string b.block_id
]

abbrev pub drop_last {ℓ} : {A : Type ℓ} → List A → List A
drop_last [] = []
drop_last (x ∷ []) = []
drop_last (x ∷ x' ∷ xs) = x ∷ drop_last (x' ∷ xs)

unfoldable pub add_expr : Expr → Block → Block
add_expr e b = record b { exprs = b.exprs ++ e ∷ [] }

unfoldable pub pop_expr : Block → Block
pop_expr b = record b { exprs = drop_last b.exprs }

unfoldable pub size : Block → ℕ
size b = length b.exprs

abbrev pub debug_at : ℕ → Text → List Expr → List Expr
debug_at i debug [] = []
debug_at zero debug (e ∷ es) = record e { debug_info = add_debug_info debug e.debug_info } ∷ es
debug_at (suc i) debug (e ∷ es) = e ∷ debug_at i debug es

unfoldable pub set_expr_debug_info : ℕ → Text → Block → Result Block
set_expr_debug_info index debug b =
    if ltb index (length b.exprs)
    then ok (record b { exprs = debug_at index debug b.exprs })
    else fail assertion

unfoldable pub block_to_string : Block → Text
unfolding get_pretty_block_id
block_to_string b =
    codes "Begin "
    ++ get_pretty_block_id b
    ++ codes "\n"
    ++ lines expr_to_string b.exprs
    ++ codes "end"

unfoldable pub add_block : Block → Trace → Trace
add_block b t = record t { blocks = t.blocks ++ b ∷ [] }

unfoldable pub add_exec_op : ExecOp → Trace → Trace
add_exec_op e t = record t { exec_ops = t.exec_ops ++ e ∷ [] }

unfoldable pub pop_block : Trace → Trace
pop_block t = record t { blocks = drop_last t.blocks }

unfoldable pub trace_to_string : Trace → Text
unfolding exec_op_to_string block_to_string
trace_to_string t = lines exec_op_to_string t.exec_ops ++ lines block_to_string t.blocks
