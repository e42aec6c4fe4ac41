-- ===== src/Node/Sound/Hooks.antt =====
-- The hooks of Node.
use fsracer.Prelude.{
  ◌≡◌, refl, Bool, true, false, not, ◌||◌, [], text_ord, nat_ord, if◌then◌else◌, Option-cases, inl,
  inr, ◌==◌,
}
use fsracer.Utils.{starts_with}
use fsracer.Trace.{trigger, Block, BlockType, size, is_main}
use fsracer.Generator.{GenState, done, get_current_block}
use fsracer.Generator.Emit.{Call}
use fsracer.Node.{promise_set, promise_event, timer_set, has_event_id}
use fsracer.Node.Submit.{init_key}
use fsracer.Node.Hooks.{
  add_to_block, start_block, open_block, drop_block, emit_before_in, wrap_pre_emit_before,
  add_main_block, wrap_pre_emit_after,
}
use fsracer.Node.Sound.{Kind, kind_at, IsSound, Ends, Ends-bind, Current, Keeps, if_Ends}
use fsracer.Node.Sound.Blocks.{IsSound-Current}
use fsracer.Node.Sound.Expressions.{
  Some, Leaves, add_to_block-Ends, Leaves-IsSound, has_event_id-Ends,
}
use fsracer.Node.Sound.NewBlocks.{
  IsReady, IsSound-IsReady, drop_block-IsReady, start_block-IsSound, add_main_block-IsSound,
}

pub kind_at-promise_set : kind_at promise_set ≡ Kind.numbers
unfolding starts_with
kind_at-promise_set = refl

pub kind_at-timer_set : kind_at timer_set ≡ Kind.numbers
unfolding starts_with
kind_at-timer_set = refl

pub kind_at-promise_event : kind_at promise_event ≡ Kind.flag
unfolding starts_with
kind_at-promise_event = refl

pub kind_at-init_key : kind_at init_key ≡ Kind.number
unfolding starts_with
kind_at-init_key = refl

open_block-Ends : (c : Call) (st : GenState) → IsReady st → Ends IsSound (open_block c st)
unfolding open_block
open_block-Ends c st s =
    Ends-bind (λ _. Unit {0}) IsSound (has_event_id c.async_id promise_set st)
      (λ p. done (start_block (if p then c.trigger_async_id else c.async_id) BlockType.reg st))
      (has_event_id-Ends promise_set c.async_id st kind_at-promise_set (s.fits promise_set))
      (λ p _. start_block-IsSound (if p then c.trigger_async_id else c.async_id) st s)

emit_before_in-Ends :
    (b : Block) (c : Call) (st : GenState) → Leaves Some st → Ends IsSound (emit_before_in b c st)
unfolding emit_before_in
emit_before_in-Ends b c st (s, here) =
    if_Ends IsSound (not (is_main b)) _ _
      (Leaves-IsSound Some (add_to_block (trigger c.async_id) [] st)
        (add_to_block-Ends (trigger c.async_id) [] st (λ o. tt) (s, here)))
      (open_block-Ends c (if size b == 0 then drop_block st else st) (ready (size b == 0)))
  where
    ready : (empty : Bool) → IsReady (if empty then drop_block st else st)
    ready true = drop_block-IsReady st s
    ready false = IsSound-IsReady st s

-- The current block is read where there is one.
get_current_block-ok :
    (st : GenState) → (here : Current Some st) → get_current_block st ≡ done (here.1)
unfolding get_current_block
get_current_block-ok st (i, b, e, at, _) = rw (get_current_block, e, at) refl

pub wrap_pre_emit_before-Keeps : Keeps wrap_pre_emit_before
unfolding wrap_pre_emit_before
wrap_pre_emit_before-Keeps c st s =
    if_Ends IsSound ((c.async_id == 0) || (c.async_id == 1)) _ _ s
      (elim (Option-cases st.current_block) [
        | inl nothing ↦ rw nothing (open_block-Ends c st (IsSound-IsReady st s))
        | inr (i, e) ↦
            let here : Current Some st = IsSound-Current st i s e in
            let read : get_current_block st ≡ done (here.1) = get_current_block-ok st here in
            rw (e, read) (emit_before_in-Ends (here.1) c st (s, here))
      ])

pub wrap_pre_emit_after-Keeps : Keeps wrap_pre_emit_after
unfolding wrap_pre_emit_after
wrap_pre_emit_after-Keeps c st s = elim (Option-cases st.current_block) [
  | inl nothing ↦ rw (wrap_pre_emit_after, nothing) s
  | inr (i, e) ↦
      let here : Current Some st = IsSound-Current st i s e in
      let read : get_current_block st ≡ done (here.1) = get_current_block-ok st here in
      let main : IsSound (add_main_block st) = add_main_block-IsSound st (IsSound-IsReady st s) in
      rw (wrap_pre_emit_after, e, read)
        (if_Ends IsSound (here.1.block_id == c.async_id) _ _ main (
          Ends-bind (λ _. Unit {0}) IsSound (has_event_id c.async_id promise_set st)
            (λ p. done (if p then add_main_block st else st))
            (has_event_id-Ends promise_set c.async_id st kind_at-promise_set (s.fits promise_set))
            (λ p _. by_flag p main)))
]
  where
    by_flag :
        (p : Bool) → IsSound (add_main_block st) → IsSound (if p then add_main_block st else st)
    by_flag true main = main
    by_flag false main = s
