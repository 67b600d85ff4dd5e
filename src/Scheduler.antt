-- ===== src/Scheduler.antt =====
-- The cycle scheduler of scheduler.go.
pub mod Laws
pub mod Advance
mod Tests
use m68kemu.Base.{
  ℕ, zero, suc, ◌+◌, ◌-◌, ◌/◌, ◌%◌, Bool, true, false, Option, none, some, List, [], ◌∷◌, ◌++◌,
  ◌&&◌, ◌==◌, ltb, leb, if◌then◌else◌, length,
}

-- The callback of an event is known by a number.
pub record ScheduledEvent : Type 0 where
  pub at : ℕ
  pub action : ℕ

-- The slice of events is cut at eventHead: `fired` stands before it and `waiting` from it on.
-- `heard` lists the calls of AdvanceCycles, the latest first, which all listeners get alike.
pub record CycleScheduler : Type 0 where
  pub now : ℕ
  pub fired : List ScheduledEvent
  pub waiting : List ScheduledEvent
  pub listeners : ℕ
  pub heard : List (ℕ × ℕ)

unfoldable pub new_cycle_scheduler : CycleScheduler
new_cycle_scheduler = record { now = 0; fired = []; waiting = []; listeners = 0; heard = [] }

unfoldable pub reset : ℕ → CycleScheduler → CycleScheduler
reset now s = record s { now = now; fired = []; waiting = [] }

unfoldable pub add_listener : CycleScheduler → CycleScheduler
add_listener s = record s { listeners = s.listeners + 1 }

unfoldable pub all_later : ℕ → List ScheduledEvent → Bool
all_later t [] = true
all_later t (e ∷ es) = ltb t e.at && all_later t es

-- The event is put at the end and moved before the events, from the end, that are later.
unfoldable pub insert : ScheduledEvent → List ScheduledEvent → List ScheduledEvent
unfolding all_later
insert e [] = e ∷ []
insert e (x ∷ xs) = elim (all_later e.at (x ∷ xs)) [ true ↦ e ∷ x ∷ xs | false ↦ x ∷ insert e xs ]

unfoldable pub schedule : ℕ → ℕ → CycleScheduler → CycleScheduler
unfolding insert
schedule t action s = record s { waiting = insert (record { at = t; action = action }) s.waiting }

unfoldable pub schedule_after : ℕ → ℕ → CycleScheduler → CycleScheduler
unfolding schedule
schedule_after delta action s = schedule ((s.now + delta) % 0x1_0000_0000_0000_0000) action s

unfoldable pub advance_to : ℕ → CycleScheduler → CycleScheduler
advance_to target s =
    if leb target s.now
    then s
    else record s { now = target; heard = (target - s.now, target) ∷ s.heard }

abbrev pub is_empty : List ScheduledEvent → Bool
is_empty [] = true
is_empty (e ∷ es) = false

unfoldable pub compact_events : CycleScheduler → CycleScheduler
compact_events s =
    if is_empty s.fired
    then s
    else if is_empty s.waiting
    then record s { fired = [] }
    else if ltb (length s.fired) ((length s.fired + length s.waiting) / 2)
    then s
    else record s { fired = [] }

-- `run` is what a callback does, at a time, to the scheduler: it may schedule events.
module _ (run : ℕ → ℕ → CycleScheduler → CycleScheduler) where
  -- The first event fires.
  unfoldable pub fire : ScheduledEvent → List ScheduledEvent → CycleScheduler → CycleScheduler
  unfolding advance_to
  fire e rest s =
      let moved = if ltb s.now e.at then advance_to e.at s else s in
      let taken = record moved { fired = moved.fired ++ e ∷ []; waiting = rest } in
      run e.action taken.now taken

  -- The loop of Advance; `none` is more fuel needed.
  unfoldable pub drain : ℕ → ℕ → CycleScheduler → List ScheduledEvent → Option CycleScheduler
  unfolding fire
  drain fuel target s [] = some s
  drain zero target s (e ∷ rest) = if leb e.at target then none else some s
  drain (suc fuel) target s (e ∷ rest) = elim (leb e.at target) [
    | true ↦ drain fuel target (fire e rest s) (fire e rest s).waiting
    | false ↦ some s
  ]

  unfoldable pub advance : ℕ → ℕ → CycleScheduler → Option CycleScheduler
  unfolding drain advance_to compact_events
  advance fuel delta s =
      let target = (s.now + delta) % 0x1_0000_0000_0000_0000 in
      if delta == 0 then some s else elim (drain fuel target s s.waiting) [
        | none ↦ none
        | some d ↦ some (compact_events (if ltb d.now target then advance_to target d else d))
      ]
