-- ===== src/Node/Sound.antt =====
-- What holds of a collection between two calls of wrappers, and the calls that keep it.
pub mod Blocks
pub mod Stores
pub mod Syscalls
pub mod Submit
pub mod Expressions
pub mod NewBlocks
pub mod Hooks
pub mod Events
pub mod Collect
use fsracer.Prelude.{
  ℕ, zero, suc, ◌+◌, ◌≤◌, ◌<◌, ◌≡◌, refl, sym, ◌∙◌, ap, subst, Bool, true, false, Option, none,
  some, List, [], ◌∷◌, ◌++◌, Text, codes, text_ord, same, if◌then◌else◌, length, arith, Result, ok,
  fail, Fault,
}
use fsracer.Collections.Map.{find}
use fsracer.Utils.{starts_with}
use fsracer.Trace.{Expr, Construct, new_event, link, Block, BlockType}
use fsracer.Generator.{
  GenState, has_failed, Value, int_ptr, bool_ptr, chars, string_ptr, set_ptr, exec_op_ptr, Reply,
  done, exited, crashed, ◌>>>◌, at_position,
}
use fsracer.Generator.Emit.{Call, Handler}
use fsracer.Node.{promise_event}

pub data Kind : Type 0 where
  number flag path text numbers execution : Kind

-- What the store has at a key, by the key's first words.
abbrev pub kind_at : Text → Kind
kind_at key =
    if starts_with key (codes "threads/")
    then execution
    else if starts_with key (codes "operations/")
    then text
    else if starts_with key (codes "func_invocations/")
    then number
    else if starts_with key promise_event
    then flag
    else if starts_with key (codes "args/w")
    then number
    else if starts_with key (codes "args//")
    then path
    else numbers

-- The value is of the kind of its key, and points into a trace with that many executions.
abbrev pub Fits : ℕ → Text → Value → Type 0
Fits n key (int_ptr _) = kind_at key ≡ number
Fits n key (bool_ptr _) = kind_at key ≡ flag
Fits n key (chars _) = kind_at key ≡ path
Fits n key (string_ptr _) = kind_at key ≡ text
Fits n key (set_ptr _) = kind_at key ≡ numbers
Fits n key (exec_op_ptr i) = (kind_at key ≡ execution) × (i < n)

abbrev pub created : Construct → Option ℕ
created (new_event id _) = some id
created _ = none

abbrev pub Follows : Option ℕ → Construct → Type 0
Follows before (link _ target) = before ≡ some target
Follows before _ = Unit

-- Each link stands right behind the creation of its target.
abbrev pub IsChained : Option ℕ → List Expr → Type 0
IsChained before [] = Unit
IsChained before (e ∷ es) = Follows before e.construct × IsChained (created e.construct) es

abbrev pub AllChained : List Block → Type 0
AllChained [] = Unit
AllChained (b ∷ bs) = IsChained none b.exprs × AllChained bs

-- The main blocks have numbers that rise from above the first bound up to the second.
abbrev pub RisesTo : ℕ → BlockType → ℕ → ℕ → Type 0
RisesTo id BlockType.main low next = (low < id) × (next ≡ id)
RisesTo id BlockType.reg low next = next ≡ low

abbrev pub Rising : ℕ → ℕ → List Block → Type 0
Rising high low [] = low ≤ high
Rising high low (b ∷ bs) =
    (next : ℕ) × RisesTo b.block_id b.block_type low next × Rising high next bs

pub record IsSound (st : GenState) : Type 0 where
  pub fits :
      (key : Text) (v : Value) → find key st.store ≡ some v → Fits (length st.trace.exec_ops) key v
  pub last : (i : ℕ) → st.current_block ≡ some i → suc i ≡ length st.trace.blocks
  pub chained : AllChained st.trace.blocks
  pub rising : Rising st.main_block_count 0 st.trace.blocks
  pub unfailed : st.error ≡ none

-- The faults that depend on the order in which the program calls the functions.
abbrev pub IsOrderFault : Fault → Type 0
IsOrderFault Fault.empty_stack = Unit
IsOrderFault Fault.null_string = Unit
IsOrderFault _ = ⊥

-- A wrapper returns with the property, or ends the collection with an error, or has one of those faults.
abbrev pub Ends {ℓ} : {A : Type ℓ} → (A → Type 0) → Reply A → Type 0
Ends P (done a) = P a
Ends P (exited st) = has_failed st ≡ true
Ends P (crashed fault) = IsOrderFault fault

pub Ends-bind {ℓ κ} :
    {A : Type ℓ} {B : Type κ} (P : A → Type 0) (Q : B → Type 0) (m : Reply A) (f : A → Reply B)
    → Ends P m
    → ((a : A) → P a → Ends Q (f a))
    → Ends Q (m >>> f)
Ends-bind P Q (done a) f h k = k a h
Ends-bind P Q (exited st) f h k = h
Ends-bind P Q (crashed fault) f h k = h

-- There is a current block, with the property.
abbrev pub Current : (Block → Type 0) → GenState → Type 0
Current P st =
    (i : ℕ) × (b : Block) × (st.current_block ≡ some i)
    × (at_position i st.trace.blocks ≡ ok b)
    × P b

-- A wrapper that keeps what holds between two calls.
abbrev pub Keeps : Handler → Type 0
Keeps f = (c : Call) (st : GenState) → IsSound st → Ends IsSound (f c st)

pub Keeps-then : (f g : Handler) → Keeps f → Keeps g → Keeps (λ c st. f c st >>> g c)
Keeps-then f g kf kg c st s = Ends-bind IsSound IsSound (f c st) (g c) (kf c st s) (kg c)

pub if_Ends :
    {A : Type 0} (P : A → Type 0) (b : Bool) (x y : Reply A)
    → Ends P x
    → Ends P y
    → Ends P (if b then x else y)
if_Ends P true x y p q = p
if_Ends P false x y p q = q

-- What follows from a property of the state that is returned.
pub Ends-map {ℓ} :
    {A : Type ℓ} (P Q : A → Type 0) (r : Reply A) → ((a : A) → P a → Q a) → Ends P r → Ends Q r
Ends-map P Q (done a) f h = f a h
Ends-map P Q (exited st) f h = h
Ends-map P Q (crashed fault) f h = h
