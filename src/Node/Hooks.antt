-- ===== src/Node/Hooks.antt =====
-- tools/drfsracer/NodeGenerator.cpp: the hooks of Node on events, blocks and promises.
use fsracer.Prelude.{
  ℕ, Bool, true, false, not, ◌||◌, Option, none, some, [], ◌∷◌, ◌++◌, Text, codes, text_ord, ◌==◌,
  same, if◌then◌else◌, ok, length,
}
use fsracer.Utils.{to_string}
use fsracer.Trace.{
  DebugInfo, Event, EventType, event_to_string, Expr, Construct, new_event, link, trigger, Block,
  BlockType, is_main, size, add_expr, pop_expr, add_block, pop_block,
}
use fsracer.Generator.{
  GenState, Value, int_ptr, bool_ptr, set_ptr, Reply, done, ◌>>>◌, as_bool, add_to_store,
  pop_from_store, on_current_block, get_current_block, top_stack, incr_event_count,
  incr_main_block_count,
}
use fsracer.Generator.Emit.{Handler}
use fsracer.Node.{
  promise_set, promise_event, timer_set, new_timerwrap, check_block, add_to_set, has_event_id,
}
use fsracer.Node.Submit.{init_key}

abbrev pub make_expr : Construct → DebugInfo → Expr
make_expr construct debug_info = record { construct = construct; debug_info = debug_info }

-- `AddExpr` of the current block.
abbrev pub add_to_block : Construct → DebugInfo → GenState → Reply GenState
add_to_block construct debug_info =
    on_current_block (λ b. ok (add_expr (make_expr construct debug_info) b))

abbrev pub pop_from_block : GenState → Reply GenState
pop_from_block = on_current_block (λ b. ok (pop_expr b))

-- `SetCurrentBlock` and `AddBlock` of a new block.
unfoldable pub start_block : ℕ → BlockType → GenState → GenState
unfolding add_block
start_block id type st = record st {
  current_block = some (length st.trace.blocks);
  trace = add_block (record { block_id = id; block_type = type; exprs = [] }) st.trace;
}

-- The part of `wrap_pre_emit_before` behind the early returns.
unfoldable pub open_block : Handler
unfolding has_event_id start_block
open_block c st = has_event_id c.async_id promise_set st >>> λ is_promise.
    done (start_block (if is_promise then c.trigger_async_id else c.async_id) BlockType.reg st)

abbrev pub drop_block : GenState → GenState
drop_block st = record st { trace = pop_block st.trace }

-- What becomes of the current block: a regular one goes on, and an empty main block is dropped.
unfoldable pub emit_before_in : Block → Handler
unfolding open_block on_current_block add_expr size pop_block
emit_before_in b c st =
    if not (is_main b)
    then add_to_block (trigger c.async_id) [] st
    else open_block c (if size b == 0 then drop_block st else st)

unfoldable pub wrap_pre_emit_before : Handler
unfolding emit_before_in open_block get_current_block
wrap_pre_emit_before c st =
    if (c.async_id == 0) || (c.async_id == 1) then done st else elim st.current_block [
      | none ↦ open_block c st
      | some _ ↦ get_current_block st >>> λ b. emit_before_in b c st
    ]

unfoldable pub add_main_block : GenState → GenState
unfolding start_block
add_main_block st =
    let st1 = incr_main_block_count st in start_block st1.main_block_count BlockType.main st1

unfoldable pub wrap_pre_emit_after : Handler
unfolding get_current_block add_main_block has_event_id
wrap_pre_emit_after c st = elim st.current_block [
  | none ↦ done st
  | some _ ↦ get_current_block st >>> λ b.
      if b.block_id == c.async_id
      then done (add_main_block st)
      else has_event_id c.async_id promise_set st >>> λ is_promise.
          done (if is_promise then add_main_block st else st)
]

unfoldable pub add_new_event_expr : ℕ → Event → Text → Bool → GenState → Reply GenState
unfolding check_block to_string event_to_string on_current_block add_expr add_to_store
add_new_event_expr event_id event debug_info add_store st =
    check_block
      (codes "Create event " ++ (to_string event_id ++ (codes " " ++ event_to_string event))) st
    >>> λ _.
        add_to_block (new_event event_id event) (if same debug_info [] then [] else debug_info ∷ [])
          st
        >>> λ st1. done (if add_store then add_to_store init_key (int_ptr event_id) st1 else st1)

abbrev pub event_of : EventType → ℕ → Event
event_of type value = record { event_type = type; event_value = value }

-- The event of a file operation or of another resource, linked to the event that triggered it.
unfoldable pub init_resource : Handler
unfolding add_new_event_expr on_current_block add_expr
init_resource c st = add_new_event_expr c.async_id (event_of EventType.ext 0) [] true st >>> λ st1.
    add_to_block (link c.trigger_async_id c.async_id) [] st1

-- A promise has its event when it is resolved.
unfoldable pub init_promise : Bool → Handler
unfolding add_to_set
init_promise is_promise c st = if is_promise then add_to_set c.async_id promise_set st else done st

abbrev pub init_other : Option Value → Handler
init_other none c st = init_resource c st
init_other (some is_promise) c st = as_bool is_promise >>> λ b. init_promise b c st

-- The part of `wrap_pre_emit_init` behind the look at the stack. The event of a `TimerWrap` is not noted.
abbrev pub init_under : Text → Handler
init_under top_func c st =
    if same top_func new_timerwrap
    then add_new_event_expr c.async_id (event_of EventType.w 0) (codes "timerWrap") false st
    else init_other (pop_from_store promise_event st).0 c (pop_from_store promise_event st).1

unfoldable pub wrap_pre_emit_init : Handler
unfolding top_stack add_new_event_expr pop_from_store init_promise init_resource
wrap_pre_emit_init c st =
    let st1 = incr_event_count st in top_stack st1 >>> λ top_func. init_under top_func c st1

unfoldable pub wrap_pre_start : Handler
unfolding add_to_store add_main_block
wrap_pre_start c st = done (
    incr_event_count (
      add_main_block
        (add_to_store timer_set (set_ptr []) (add_to_store promise_set (set_ptr []) st))))

-- The last expression, of `NewAsyncId`, gives way to another event with the number of events.
unfoldable pub replace_event : Event → Text → GenState → Reply GenState
unfolding on_current_block pop_expr add_expr
replace_event event debug_info st =
    pop_from_block st >>> add_to_block (new_event st.event_count event) (debug_info ∷ [])

unfoldable pub wrap_pre_new_tick_info : Handler
unfolding check_block replace_event to_string
wrap_pre_new_tick_info c st =
    check_block (codes "Create newTick " ++ to_string st.event_count) st >>> λ _.
    replace_event (event_of EventType.s 0) (codes "nextTick") st

unfoldable pub wrap_pre_timerwrap : Handler
unfolding check_block replace_event add_to_set to_string
wrap_pre_timerwrap c st =
    check_block (codes "Create timerwrap " ++ to_string st.event_count) st >>> λ _.
    replace_event (event_of EventType.w 1) (codes "setTimeout") st >>> λ st1.
    add_to_set st1.event_count timer_set st1

unfoldable pub wrap_pre_promise_resolve : Handler
unfolding check_block on_current_block add_expr to_string
wrap_pre_promise_resolve c st =
    check_block (codes "Resolve promise " ++ to_string c.async_id) st >>> λ _.
    add_to_block (new_event c.async_id (event_of EventType.s 0)) (codes "promise" ∷ [])
      (incr_event_count st)

unfoldable pub wrap_pre_thenable : Handler
unfolding check_block on_current_block pop_expr
wrap_pre_thenable c st = check_block [] st >>> λ _. pop_from_block st

unfoldable pub wrap_pre_promise_wrap : Handler
unfolding add_to_store
wrap_pre_promise_wrap c st = done (add_to_store promise_event (bool_ptr true) st)

unfoldable pub wrap_pre_new_async_id : Handler
unfolding check_block on_current_block add_expr to_string
wrap_pre_new_async_id c st =
    let st1 = incr_event_count st in
    check_block (codes "Create setImmediate " ++ to_string st1.event_count) st1 >>> λ _.
    add_to_block (new_event st1.event_count (event_of EventType.w 3)) (codes "setImmediate" ∷ [])
      st1
