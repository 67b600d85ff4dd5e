-- ===== src/Interrupts.antt =====
-- The interrupt controller of interrupts.go.
pub mod Laws
pub mod Order
mod Tests
use m68kemu.Base.{
  ℕ, zero, suc, ◌+◌, bit_and, Bool, true, false, Option, none, some, List, [], ◌∷◌, ◌++◌, ltb, leb,
  ◌==◌, if◌then◌else◌, ◌>>>◌, update, u8,
}
use m68kemu.Status.{sr_interrupt_mask}

pub record PendingInterrupt : Type 0 where
  pub vector : ℕ
  pub auto_vector : Bool

-- One queue for each level from 0 to 7, the oldest request first.
pub record InterruptController : Type 0 where
  pub requests : ℕ → List PendingInterrupt
  pub max_level : ℕ

abbrev pub auto_vector_base : ℕ
auto_vector_base = 24

unfoldable pub new_interrupt_controller : InterruptController
new_interrupt_controller = record { requests = λ _. []; max_level = 0 }

unfoldable pub reset : InterruptController → InterruptController
reset ic = record { requests = λ _. []; max_level = 0 }

abbrev pub enqueue : ℕ → PendingInterrupt → InterruptController → InterruptController
enqueue level p ic = record {
  requests = update ic.requests level (ic.requests level ++ p ∷ []);
  max_level = if ltb ic.max_level level then level else ic.max_level;
}

-- `none` is the error of a level above 7. A vector of `none` asks for the autovector.
unfoldable pub request : ℕ → Option ℕ → InterruptController → Option InterruptController
request level vector ic =
    if ltb 7 level then none else if level == 0 then some ic else elim vector [
      | none ↦
          some (
            enqueue level (record { vector = u8 (auto_vector_base + level); auto_vector = true })
              ic)
      | some v ↦ some (enqueue level (record { vector = v; auto_vector = false }) ic)
    ]

abbrev pub interrupt_level : ℕ → ℕ
interrupt_level sr = u8 (bit_and sr sr_interrupt_mask >>> 8)

abbrev pub is_nil {ℓ} : {A : Type ℓ} → List A → Bool
is_nil [] = true
is_nil (x ∷ xs) = false

-- The highest level up to `l` that has a request, or 0.
unfoldable pub highest : ℕ → (ℕ → List PendingInterrupt) → ℕ
highest zero requests = 0
highest (suc l) requests = if is_nil (requests (suc l)) then highest l requests else suc l

pub record Accepted : Type 0 where
  pub level : ℕ
  pub interrupt : PendingInterrupt
  pub rest : InterruptController

unfoldable pub take_first : ℕ → List PendingInterrupt → InterruptController → Option Accepted
unfolding highest
take_first level [] ic = none
take_first level (p ∷ queue) ic = some (record {
  level = level;
  interrupt = p;
  rest =
      let requests = update ic.requests level queue in
      record { requests = requests; max_level = highest 7 requests };
})

-- The loop over the levels from `l` down to 1.
unfoldable pub scan : ℕ → ℕ → InterruptController → Option Accepted
unfolding highest take_first
scan zero mask ic = none
scan (suc l) mask ic =
    if is_nil (ic.requests (suc l))
    then scan l mask ic
    else if leb (suc l) mask
    then scan l mask ic
    else take_first (suc l) (ic.requests (suc l)) ic

-- The request that is accepted under the mask of the status register, and the controller then.
unfoldable pub pending : ℕ → InterruptController → Option Accepted
unfolding scan
pending sr ic =
    if leb ic.max_level (interrupt_level sr) then none else scan 7 (interrupt_level sr) ic

unfoldable pub has_pending : ℕ → InterruptController → Bool
has_pending sr ic = ltb (interrupt_level sr) ic.max_level
