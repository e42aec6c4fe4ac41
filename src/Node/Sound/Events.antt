-- ===== src/Node/Sound/Events.antt =====
-- The hooks of Node that create events.
use fsracer.Prelude.{
  ℕ, ◌≡◌, refl, Bool, true, false, Option, none, some, [], ◌∷◌, ◌++◌, Text, codes, text_ord,
  nat_ord, same, if◌then◌else◌, length, ok, inl, inr, List-cases,
}
use fsracer.Utils.{to_string}
use fsracer.Trace.{DebugInfo, new_event, link, Event, EventType, event_to_string, add_expr}
use fsracer.Generator.{
  GenState, Value, int_ptr, bool_ptr, set_ptr, Reply, done, ◌>>>◌, add_to_store, pop_from_store,
  as_bool, top_stack, incr_event_count,
}
use fsracer.Generator.Emit.{Call}
use fsracer.Node.{promise_set, promise_event, timer_set, new_timerwrap, check_block, add_to_set}
use fsracer.Node.Submit.{init_key}
use fsracer.Node.Hooks.{
  make_expr, add_to_block, pop_from_block, add_new_event_expr, event_of, init_resource,
  init_promise, init_other, init_under, wrap_pre_emit_init, wrap_pre_start, replace_event,
  wrap_pre_new_tick_info, wrap_pre_timerwrap, wrap_pre_promise_resolve, wrap_pre_thenable,
  wrap_pre_promise_wrap, wrap_pre_new_async_id,
}
use fsracer.Node.Sound.{IsSound, Fits, Ends, Ends-bind, Current, Keeps, if_Ends}
use fsracer.Node.Sound.Stores.{
  add_to_store-IsSound, pop_from_store-Popped, keep_blocks, as_bool-Ends,
}
use fsracer.Node.Sound.Blocks.{on_current_block-Ends, check_block-Ends}
use fsracer.Node.Sound.Expressions.{
  Some, EndsWith, Leaves, add_event-Changes, link-Changes, add_to_block-Ends, pop_from_block-Ends,
  Leaves-IsSound, checked-Ends, add_to_set-Ends,
}
use fsracer.Node.Sound.NewBlocks.{IsSound-IsReady, add_main_block-IsSound}
use fsracer.Node.Sound.Hooks.{
  kind_at-promise_set, kind_at-timer_set, kind_at-promise_event, kind_at-init_key,
}

Current-noted :
    (id : ℕ) (st : GenState)
    → Current (EndsWith id) st
    → Current (EndsWith id) (add_to_store init_key (int_ptr id) st)
unfolding add_to_store
Current-noted id st here = here

-- The state behind a new event, with or without a note of it in the store.
add_new_event_expr-Ends :
    (id : ℕ) (event : Event) (debug : Text) (add_store : Bool) (st : GenState)
    → IsSound st
    → Ends (Leaves (EndsWith id)) (add_new_event_expr id event debug add_store st)
unfolding add_new_event_expr
add_new_event_expr-Ends id event debug add_store st s =
    Ends-bind (λ _. Current Some st) (Leaves (EndsWith id))
      (check_block (codes "Create event " ++ (to_string id ++ (codes " " ++ event_to_string event)))
        st)
      (λ _.
        add_to_block (new_event id event) (if same debug [] then [] else debug ∷ []) st >>> λ st1.
        done (if add_store then add_to_store init_key (int_ptr id) st1 else st1))
      (check_block-Ends
        (codes "Create event " ++ (to_string id ++ (codes " " ++ event_to_string event))) st s)
      (λ _ here.
        Ends-bind (Leaves (EndsWith id)) (Leaves (EndsWith id))
          (add_to_block (new_event id event) (if same debug [] then [] else debug ∷ []) st)
          (λ st1. done (if add_store then add_to_store init_key (int_ptr id) st1 else st1))
          (on_current_block-Ends Some (EndsWith id)
            (λ b. ok (
              add_expr (make_expr (new_event id event) (if same debug [] then [] else debug ∷ []))
                b))
            st s here (add_event-Changes id event (if same debug [] then [] else debug ∷ [])))
          (λ st1 kept. noted add_store st1 kept))
  where
    noted :
        (add_store : Bool) (st1 : GenState)
        → Leaves (EndsWith id) st1
        → Leaves (EndsWith id) (if add_store then add_to_store init_key (int_ptr id) st1 else st1)
    noted false st1 kept = kept
    noted true st1 (s1, here) = (
      add_to_store-IsSound init_key (int_ptr id) st1 s1 kind_at-init_key,
      Current-noted id st1 here,
    )

init_resource-Keeps : Keeps init_resource
unfolding init_resource
init_resource-Keeps c st s =
    Ends-bind (Leaves (EndsWith c.async_id)) IsSound
      (add_new_event_expr c.async_id (event_of EventType.ext 0) [] true st)
      (add_to_block (link c.trigger_async_id c.async_id) [])
      (add_new_event_expr-Ends c.async_id (event_of EventType.ext 0) [] true st s)
      (λ st1 (s1, here).
        Leaves-IsSound Some (add_to_block (link c.trigger_async_id c.async_id) [] st1) (
          on_current_block-Ends (EndsWith c.async_id) Some
            (λ b. ok (add_expr (make_expr (link c.trigger_async_id c.async_id) []) b)) st1 s1 here
            (link-Changes c.trigger_async_id c.async_id)))

init_promise-Keeps : (b : Bool) → Keeps (init_promise b)
unfolding init_promise
init_promise-Keeps true c st s = add_to_set-Ends promise_set c.async_id st kind_at-promise_set s
init_promise-Keeps false c st s = s

init_value-Ends :
    (n : ℕ) (value : Option Value) (c : Call) (st : GenState)
    → IsSound st
    → ((v : Value) → value ≡ some v → Fits n promise_event v)
    → Ends IsSound (init_other value c st)
init_value-Ends n none c st s fit = init_resource-Keeps c st s
init_value-Ends n (some v) c st s fit =
    Ends-bind (λ _. Unit {0}) IsSound (as_bool v) (λ b. init_promise b c st)
      (as_bool-Ends n promise_event v kind_at-promise_event (fit v refl))
      (λ b _. init_promise-Keeps b c st s)

incr_event_count-IsSound : (st : GenState) → IsSound st → IsSound (incr_event_count st)
incr_event_count-IsSound st s = keep_blocks st (incr_event_count st) s refl refl refl refl s.fits

top_stack-Ends : (st : GenState) → Ends (λ _. Unit {0}) (top_stack st)
unfolding top_stack
top_stack-Ends st = elim (List-cases st.call_stack) [
  | inl e ↦ rw (top_stack, e) tt
  | inr (name, rest, e) ↦ rw (top_stack, e) tt
]

pub wrap_pre_emit_init-Keeps : Keeps wrap_pre_emit_init
unfolding wrap_pre_emit_init
wrap_pre_emit_init-Keeps c st s =
    let st1 : GenState = incr_event_count st in
    let s1 : IsSound st1 = incr_event_count-IsSound st s in
    let p = pop_from_store-Popped promise_event st1 s1 in
    Ends-bind (λ _. Unit {0}) IsSound (top_stack st1) (λ top_func. init_under top_func c st1)
      (top_stack-Ends st1)
      (λ top_func _.
        if_Ends IsSound (same top_func new_timerwrap) _ _
          (Leaves-IsSound (EndsWith c.async_id)
            (add_new_event_expr c.async_id (event_of EventType.w 0) (codes "timerWrap") false st1)
            (add_new_event_expr-Ends c.async_id (event_of EventType.w 0) (codes "timerWrap") false
              st1 s1))
          (init_value-Ends (length st1.trace.exec_ops) (pop_from_store promise_event st1).0 c
            (pop_from_store promise_event st1).1 p.sound p.value))

pub wrap_pre_start-Keeps : Keeps wrap_pre_start
unfolding wrap_pre_start
wrap_pre_start-Keeps c st s =
    let st1 : GenState = add_to_store promise_set (set_ptr []) st in
    let s1 : IsSound st1 = add_to_store-IsSound promise_set (set_ptr []) st s kind_at-promise_set in
    let s2 = add_to_store-IsSound timer_set (set_ptr []) st1 s1 kind_at-timer_set in
    incr_event_count-IsSound _ (add_main_block-IsSound _ (IsSound-IsReady _ s2))

replace_event-Ends :
    (event : Event) (debug : Text) (st : GenState)
    → Leaves Some st
    → Ends (Leaves Some) (replace_event event debug st)
unfolding replace_event
replace_event-Ends event debug st kept =
    Ends-bind (Leaves Some) (Leaves Some) (pop_from_block st)
      (add_to_block (new_event st.event_count event) (debug ∷ [])) (pop_from_block-Ends st kept)
      (λ st1 kept1.
        add_to_block-Ends (new_event st.event_count event) (debug ∷ []) st1 (λ o. tt) kept1)

pub wrap_pre_new_tick_info-Keeps : Keeps wrap_pre_new_tick_info
unfolding wrap_pre_new_tick_info
wrap_pre_new_tick_info-Keeps c st s =
    checked-Ends (codes "Create newTick " ++ to_string st.event_count) st
      (replace_event (event_of EventType.s 0) (codes "nextTick") st) s
      (λ here.
        Leaves-IsSound Some _
          (replace_event-Ends (event_of EventType.s 0) (codes "nextTick") st (s, here)))

pub wrap_pre_timerwrap-Keeps : Keeps wrap_pre_timerwrap
unfolding wrap_pre_timerwrap
wrap_pre_timerwrap-Keeps c st s =
    let replaced : Reply GenState =
      replace_event (event_of EventType.w 1) (codes "setTimeout") st in
    checked-Ends (codes "Create timerwrap " ++ to_string st.event_count) st
      (replaced >>> λ st1. add_to_set st1.event_count timer_set st1) s
      (λ here.
        Ends-bind (Leaves Some) IsSound replaced (λ st1. add_to_set st1.event_count timer_set st1)
          (replace_event-Ends (event_of EventType.w 1) (codes "setTimeout") st (s, here))
          (λ st1 kept. add_to_set-Ends timer_set st1.event_count st1 kind_at-timer_set (kept.0)))

-- An event at the end of the current block, behind the check.
add_checked-Ends :
    (msg : Text) (id : ℕ) (event : Event) (debug : DebugInfo) (st st1 : GenState)
    → IsSound st1
    → (Current Some st → Current Some st1)
    → IsSound st
    → Ends IsSound (check_block msg st >>> λ _. add_to_block (new_event id event) debug st1)
add_checked-Ends msg id event debug st st1 s1 same_here s =
    checked-Ends msg st (add_to_block (new_event id event) debug st1) s (λ here.
      Leaves-IsSound Some (add_to_block (new_event id event) debug st1)
        (add_to_block-Ends (new_event id event) debug st1 (λ o. tt) (s1, same_here here)))

pub wrap_pre_promise_resolve-Keeps : Keeps wrap_pre_promise_resolve
unfolding wrap_pre_promise_resolve
wrap_pre_promise_resolve-Keeps c st s =
    add_checked-Ends (codes "Resolve promise " ++ to_string c.async_id) c.async_id
      (event_of EventType.s 0) (codes "promise" ∷ []) st (incr_event_count st)
      (incr_event_count-IsSound st s) (λ here. here) s

pub wrap_pre_new_async_id-Keeps : Keeps wrap_pre_new_async_id
unfolding wrap_pre_new_async_id
wrap_pre_new_async_id-Keeps c st s =
    let st1 : GenState = incr_event_count st in
    let s1 : IsSound st1 = incr_event_count-IsSound st s in
    add_checked-Ends (codes "Create setImmediate " ++ to_string st1.event_count) st1.event_count
      (event_of EventType.w 3) (codes "setImmediate" ∷ []) st1 st1 s1 (λ here. here) s1

pub wrap_pre_thenable-Keeps : Keeps wrap_pre_thenable
unfolding wrap_pre_thenable
wrap_pre_thenable-Keeps c st s =
    checked-Ends [] st (pop_from_block st) s
      (λ here. Leaves-IsSound Some (pop_from_block st) (pop_from_block-Ends st (s, here)))

pub wrap_pre_promise_wrap-Keeps : Keeps wrap_pre_promise_wrap
unfolding wrap_pre_promise_wrap
wrap_pre_promise_wrap-Keeps c st s =
    add_to_store-IsSound promise_event (bool_ptr true) st s kind_at-promise_event
