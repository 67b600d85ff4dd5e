-- ===== src/Scheduler/Laws.antt =====
-- The waiting events stay in the order of their times.
use m68kemu.Base.{refl, ℕ, ◌≤◌, ◌<◌, ◌≡◌, arith, Bool, true, false, List, [], ◌∷◌}
use m68kemu.Scheduler.{ScheduledEvent, CycleScheduler, all_later, insert, schedule}

-- Each event is at `low` or later, and no later than the next.
abbrev pub IsSorted : ℕ → List ScheduledEvent → Type 0
IsSorted low [] = Unit {0}
IsSorted low (e ∷ es) = (low ≤ e.at) × IsSorted e.at es

not_later :
    (t low : ℕ) (xs : List ScheduledEvent) → IsSorted low xs → t < low → all_later t xs ≡ true
unfolding all_later
not_later t low [] s h = refl
not_later t low (y ∷ ys) (p, s) h = let ih = not_later t y.at ys s (omega arith) in ground arith

-- Where the tail is not all later, the head is not later.
head_first :
    (t : ℕ) (x : ScheduledEvent) (xs : List ScheduledEvent)
    → IsSorted x.at xs
    → all_later t (x ∷ xs) ≡ false
    → x.at ≤ t
unfolding all_later
head_first t x xs s h = let n = not_later t x.at xs s in ground arith

head_later :
    (t : ℕ) (x : ScheduledEvent) (xs : List ScheduledEvent) → all_later t (x ∷ xs) ≡ true → t < x.at
unfolding all_later
head_later t x xs h = ground arith

placed :
    (b : Bool) (e x : ScheduledEvent) (low : ℕ) (xs ys : List ScheduledEvent)
    → low ≤ x.at
    → IsSorted x.at xs
    → low ≤ e.at
    → (b ≡ true → e.at < x.at)
    → (b ≡ false → IsSorted x.at ys)
    → IsSorted low (elim b [ true ↦ e ∷ x ∷ xs | false ↦ x ∷ ys ])
placed true e x low xs ys p s h f g = let k = f refl in (h, (omega arith, s))
placed false e x low xs ys p s h f g = (p, g refl)

insert-IsSorted :
    (e : ScheduledEvent) (low : ℕ) (xs : List ScheduledEvent)
    → IsSorted low xs
    → low ≤ e.at
    → IsSorted low (insert e xs)
unfolding insert
insert-IsSorted e low [] s h = (h, tt)
insert-IsSorted e low (x ∷ xs) (p, s) h =
    placed (all_later e.at (x ∷ xs)) e x low xs (insert e xs) p s h (head_later e.at x xs)
      (λ q. insert-IsSorted e x.at xs s (head_first e.at x xs s q))

-- Schedule keeps the waiting events in the order of their times, if they were in that order.
pub schedule_lem :
    (t action low : ℕ) (s : CycleScheduler)
    → IsSorted low s.waiting
    → low ≤ t
    → IsSorted low (schedule t action s).waiting
unfolding schedule
schedule_lem t action low s h k = insert-IsSorted _ low s.waiting h k
