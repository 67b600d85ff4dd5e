-- ===== src/Interrupts/Tests.antt =====
-- The laws of the controller at some that have requests.
use m68kemu.Base.{[], ◌∷◌, false, ◌≡◌, refl, true, none, some}
use m68kemu.Interrupts.{
  Accepted, InterruptController, new_interrupt_controller, enqueue, request, pending,
}
use m68kemu.Interrupts.Laws.{IsCached, IsReachable, start, requested, IsReachable-IsCached}
use m68kemu.Interrupts.Order.{Arrivals, IsLogged, fresh, asked, IsServed, pending_lem}
use mathlib.Core.Option

-- Level 4 with vector 0x40, then level 2 with its autovector.
abbrev first : InterruptController
unfolding new_interrupt_controller
first = enqueue 4 (record { vector = 0x40; auto_vector = false }) new_interrupt_controller

abbrev both : InterruptController
unfolding first
both = enqueue 2 (record { vector = 26; auto_vector = true }) first

both-IsReachable : IsReachable both
unfolding first both request new_interrupt_controller
both-IsReachable = requested (requested start 4 (some 0x40) refl) 2 none refl

IsReachable-IsCached_example : IsCached both
IsReachable-IsCached_example = IsReachable-IsCached both both-IsReachable

-- A second request on level 4, which waits for the first one.
abbrev again : InterruptController
unfolding both
again = enqueue 4 (record { vector = 0x41; auto_vector = false }) both

abbrev arrivals : Arrivals
arrivals =
    (4, record { vector = 0x40; auto_vector = false })
    ∷ (2, record { vector = 26; auto_vector = true })
    ∷ (4, record { vector = 0x41; auto_vector = false })
    ∷ []

again-IsLogged : IsLogged arrivals again
unfolding again first both request new_interrupt_controller
again-IsLogged = asked (asked (asked fresh 4 (some 0x40) refl) 2 none refl) 4 (some 0x41) refl

serves_older :
    Option.map (λ (acc : Accepted). acc.interrupt.vector) (pending 0x2300 again) ≡ some 0x40
unfolding again first both pending new_interrupt_controller
serves_older = refl

pending_lem_example : IsServed 3 arrivals (pending 0x2300 again)
pending_lem_example = pending_lem 0x2300 arrivals again again-IsLogged
