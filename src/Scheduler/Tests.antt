-- ===== src/Scheduler/Tests.antt =====
-- The scheduler with three events.
use m68kemu.Base.{ℕ, ◌+◌, ◌*◌, ◌≡◌, refl, arith, [], ◌∷◌, some}
use mathlib.Core.Option
use m68kemu.Scheduler.{CycleScheduler, new_cycle_scheduler, schedule, advance}
use m68kemu.Scheduler.Laws.{IsSorted, schedule_lem}
use m68kemu.Scheduler.Advance.{IsAdvanced, advance_lem}

abbrev two_events : CycleScheduler
unfolding new_cycle_scheduler schedule
two_events = schedule 10 0 (schedule 20 1 new_cycle_scheduler)

two_events-IsSorted : IsSorted 0 two_events.waiting
unfolding two_events
two_events-IsSorted = (omega arith, (omega arith, tt))

schedule_lem_example : IsSorted 0 (schedule 15 2 two_events).waiting
schedule_lem_example = schedule_lem 15 2 0 two_events two_events-IsSorted (omega arith)

-- Listeners hear of the time up to the event, and of the rest.
hears :
    Option.map (λ s. s.heard) (advance (λ action now s. s) 3 12 two_events)
    ≡ some ((2, 12) ∷ (10, 10) ∷ [])
unfolding advance two_events
hears = refl

-- A callback that notes its number and the time in the number of listeners.
abbrev noted : ℕ → ℕ → ℕ → ℕ
noted action now n = n * 1000 + now * 10 + action

abbrev note : ℕ → ℕ → CycleScheduler → CycleScheduler
note action now s = record s { listeners = noted action now s.listeners }

-- The callback 0 at the time 10, then the callback 1 at the time 20.
notes_calls : Option.map (λ s. s.listeners) (advance note 3 25 two_events) ≡ some 100_201
unfolding advance two_events
notes_calls = refl

advance_lem_example : IsAdvanced noted 15 two_events (advance note 2 15 two_events)
unfolding two_events
advance_lem_example =
    advance_lem note noted (λ action now s. (refl, refl, refl)) (λ action now s. refl) 2 15 0
      two_events two_events-IsSorted (omega arith) (omega arith) (omega arith)
