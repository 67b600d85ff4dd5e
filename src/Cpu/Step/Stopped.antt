-- ===== src/Cpu/Step/Stopped.antt =====
-- A processor that STOP has stopped.
use mathlib.Core.Path.{subst}
use m68kemu.Base.{
  ℕ, zero, suc, ◌+◌, ◌*◌, ◌<◌, ◌≤◌, ◌≡◌, ◌∙◌, sym, refl, ap, arith, past, Bool, ◌==◌, [], true,
  false, ltb, if◌then◌else◌, Bool-cases, inl, inr, Option, some, none,
}
use m68kemu.Effect.{Result, ok, err, bind-ok, ◌>>◌}
use m68kemu.Interrupts
use m68kemu.Cpu.State.{Cpu, Run}
use m68kemu.Cpu.Debug.{add_cycles}
use m68kemu.Cpu.Group0.{check_interrupts, take_pending}
use m68kemu.Cpu.Step.{
  step, run_step, run_to, reset_step_debug_state, unless_stopped, run_instructions,
}

-- Stopped, and no interrupt is acceptable.
unfoldable pub IsIdle : Cpu → Type 0
unfolding Interrupts.has_pending
IsIdle cpu = (cpu.stopped ≡ true) × (Interrupts.has_pending cpu.regs.sr cpu.interrupts ≡ false)

check_interrupts-idle : (cpu : Cpu) → IsIdle cpu → check_interrupts cpu ≡ ok tt cpu
unfolding IsIdle check_interrupts
check_interrupts-idle cpu h = λ i. if h.1 i then take_pending cpu else ok tt cpu

unless_stopped-idle :
    (idle m : Run (Unit {0})) (cpu : Cpu) → IsIdle cpu → unless_stopped idle m cpu ≡ idle cpu
unfolding IsIdle unless_stopped
unless_stopped-idle idle m cpu h =
    (λ i.
      if h.0 i then (check_interrupts >> (λ c. if c.stopped then idle c else m c)) cpu else m cpu)
    ∙ bind-ok check_interrupts _ cpu (check_interrupts-idle cpu h)
    ∙ (λ i. if h.0 i then idle cpu else m cpu)

step-idle : (cpu : Cpu) → IsIdle cpu → step cpu ≡ ok tt (reset_step_debug_state cpu)
unfolding IsIdle step reset_step_debug_state
step-idle cpu h = unless_stopped-idle _ _ (reset_step_debug_state cpu) h

-- The processor without the notes on its last step.
abbrev pub unnoted : Cpu → Cpu
unnoted cpu = record cpu {
  step_exception = none;
  step_interrupt = none;
  trace_bytes = [];
  step_bus_accesses = [];
}

-- RunInstructions on a processor that is stopped, without an acceptable interrupt, ends without an
-- error, however many instructions it is asked for, and runs none: registers, memory, cycles,
-- requests, faults, history and all else are as they were, but for the notes on the last step,
-- which are gone if it was asked for one or more.
pub run_instructions-idle :
    (count : ℕ) (cpu : Cpu)
    → IsIdle cpu
    → run_instructions count cpu ≡ ok tt (if count == 0 then cpu else unnoted cpu)
unfolding run_instructions reset_step_debug_state IsIdle
run_instructions-idle zero cpu h = refl
run_instructions-idle (suc count) cpu h =
    bind-ok step _ cpu (step-idle cpu h)
    ∙ run_instructions-idle count (unnoted cpu) h
    ∙ ap (ok tt) (same count)
  where
    twice : (b : Bool) → (if b then unnoted cpu else unnoted cpu) ≡ unnoted cpu
    twice true = refl
    twice false = refl

    same :
        (n : ℕ)
        → (if n == 0 then unnoted cpu else unnoted cpu) ≡ (if suc n == 0 then cpu else unnoted cpu)
    same n = twice (n == 0) ∙ sym (past (suc n == 0) cpu (ground arith) refl)

unfoldable pub idle_step : Cpu → Cpu
unfolding add_cycles reset_step_debug_state
idle_step cpu = add_cycles 4 (reset_step_debug_state cpu)

run_step-idle : (cpu : Cpu) → IsIdle cpu → run_step cpu ≡ ok tt (idle_step cpu)
unfolding IsIdle run_step reset_step_debug_state idle_step
run_step-idle cpu h = unless_stopped-idle _ _ (reset_step_debug_state cpu) h

-- The outcome of a run: it is over, without an error, the target is reached, and the processor
-- is still idle with the registers that it had.
pub data IsFinished (target : ℕ) (cpu : Cpu) : Option (Result Cpu (Unit {0})) → Type 0 where
  finished :
      (c : Cpu)
      → IsIdle c
      → c.regs ≡ cpu.regs
      → target ≤ c.cycles
      → IsFinished target cpu (some (ok tt c))

run_to-suc :
    (fuel target : ℕ) (cpu : Cpu)
    → IsIdle cpu
    → ltb cpu.cycles target ≡ true
    → run_to (suc fuel) target cpu ≡ run_to fuel target (idle_step cpu)
unfolding run_to
run_to-suc fuel target cpu h e = λ i. elim (e i) [
  | false ↦ some (ok tt cpu)
  | true ↦ elim (run_step-idle cpu h i) [ err x c ↦ some (err x c) | ok a c ↦ run_to fuel target c ]
]

idle_step-IsIdle : (cpu : Cpu) → IsIdle cpu → IsIdle (idle_step cpu)
unfolding idle_step IsIdle
idle_step-IsIdle cpu h = h

idle_step-cycles :
    (cpu : Cpu) → cpu.cycles + 4 < 0x1_0000_0000_0000_0000 → (idle_step cpu).cycles ≡ cpu.cycles + 4
unfolding idle_step
idle_step-cycles cpu h = omega arith

from_step :
    (target : ℕ) (cpu : Cpu) (r : Option (Result Cpu (Unit {0})))
    → IsFinished target (idle_step cpu) r
    → IsFinished target cpu r
unfolding idle_step
from_step target cpu r (finished c h e t) = finished c h e t

run_to-done :
    (fuel target : ℕ) (cpu : Cpu)
    → ltb cpu.cycles target ≡ false
    → run_to fuel target cpu ≡ some (ok tt cpu)
unfolding run_to
run_to-done zero target cpu e = λ i. if e i then none else some (ok tt cpu)
run_to-done (suc fuel) target cpu e = λ i. elim (e i) [
  | false ↦ some (ok tt cpu)
  | true ↦ elim (run_step cpu) [ err x c ↦ some (err x c) | ok a c ↦ run_to fuel target c ]
]

-- The run loop of an idle processor ends without an error at the target, with the registers and
-- the stop kept: one unit of fuel for each four cycles up to the target is enough, if the target
-- is four cycles below the end of a uint64.
pub run_to-idle :
    (fuel target : ℕ) (cpu : Cpu)
    → IsIdle cpu
    → target ≤ cpu.cycles + 4 * fuel
    → target + 4 < 0x1_0000_0000_0000_0000
    → IsFinished target cpu (run_to fuel target cpu)
run_to-idle zero target cpu h k w =
    subst (IsFinished target cpu) (sym (run_to-done zero target cpu (ground arith)))
      (finished cpu h refl (omega arith))
run_to-idle (suc fuel) target cpu h k w = elim (Bool-cases (ltb cpu.cycles target)) [
  | inr e ↦
      subst (IsFinished target cpu) (sym (run_to-done (suc fuel) target cpu e))
        (finished cpu h refl (ground arith))
  | inl e ↦
      (let c = idle_step-cycles cpu (ground arith) in
        subst (IsFinished target cpu) (sym (run_to-suc fuel target cpu h e)) (
          from_step target cpu (run_to fuel target (idle_step cpu))
            (run_to-idle fuel target (idle_step cpu) (idle_step-IsIdle cpu h) (omega arith) w)))
]
