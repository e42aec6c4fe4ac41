-- ===== src/Dependency/Priority.antt =====
-- The order of two events by their types and values, described apart from the analyzer.
use fsracer.Prelude.{ℕ, ◌≡◌, ltb, ◌==◌, ◌&&◌, if◌then◌else◌, arith}
use fsracer.Trace.{Event, EventType}
use fsracer.Dependency.{DepGraph, EventInfo, happens, proceed_event}

pub data Direction : Type 0 where
  old_first new_first unordered : Direction

-- Strong events come first, then medium, then weak, then external ones.
unfoldable pub rank : EventType → ℕ
rank EventType.s = 0
rank EventType.main = 0
rank EventType.m = 1
rank EventType.w = 2
rank EventType.ext = 3

-- Strong events are first come, first served. Medium ones go by their value, and by creation where
-- it is the same. No order is known between two weak or two external events, nor between a weak and
-- an external one, but that an old weak event with a value is ahead of a new external one.
unfoldable pub direction : Event → Event → Direction
unfolding rank
direction old new =
    let r_old = rank old.event_type in
    let r_new = rank new.event_type in
    if ltb 1 r_old && ltb 1 r_new
    then (if ltb r_old r_new && ltb 0 old.event_value then old_first else unordered)
    else if ltb r_new r_old
    then new_first
    else if (r_old == 1) && (r_new == 1) && ltb new.event_value old.event_value
    then new_first
    else old_first

unfoldable pub apply_direction : Direction → EventInfo → EventInfo → DepGraph → DepGraph
apply_direction old_first new old g = happens old.node_id new.node_id g
apply_direction new_first new old g = happens new.node_id old.node_id g
apply_direction unordered new old g = g

-- Between a new event and an alive one the analyzer adds the edge that the order of the two events
-- calls for, and none where no order is known.
pub proceed_event-direction :
    (new old : EventInfo) (g : DepGraph)
    → proceed_event new old g ≡ apply_direction (direction old.node_obj new.node_obj) new old g
unfolding proceed_event direction apply_direction
proceed_event-direction new old g = ground arith
