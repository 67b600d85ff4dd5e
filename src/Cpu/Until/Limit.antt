-- ===== src/Cpu/Until/Limit.antt =====
-- RunUntil with a limit on the instructions ends.
use m68kemu.Base.{
  ℕ, zero, suc, ◌+◌, ◌<◌, ◌≤◌, ◌≡◌, refl, arith, Bool, false, Option, none, some, if_elim,
  bool_elim, option_elim,
}
use m68kemu.Effect.{result_elim}
use m68kemu.Cpu.State.{Cpu}
use m68kemu.Cpu.Step.{step}
use m68kemu.Cpu.Until.{
  RunUntilOptions, at_pc, bus_access, predicate, RunResult, no_result, Outcome, outcome,
  match_stop_at_pc, match_step_bus_access, with_reason, event_stop_reason, run_stop_reason,
  note_step, is_at_limit, limit_result, run_on, collects, set_collect, restoring, run_until,
}

-- It has ended, and has counted no more than `max` instructions.
pub data IsWithin (max : ℕ) : Option Outcome → Type 0 where
  within : (o : Outcome) → o.result.instructions ≤ max → IsWithin max (some o)

-- What runStopReason notes is not the count of instructions.
pub data IsCounted (n : ℕ) : Option RunResult → Type 0 where
  not_yet : IsCounted n none
  counted : (r : RunResult) → r.instructions ≡ n → IsCounted n (some r)

pub run_stop_reason-IsCounted :
    (options : RunUntilOptions) (r : RunResult) (cpu : Cpu)
    → IsCounted r.instructions (run_stop_reason options r cpu)
unfolding run_stop_reason
run_stop_reason-IsCounted options r cpu =
    if_elim (IsCounted r.instructions) _ _ _ (λ e. counted (with_reason predicate r) refl)
      (λ e.
        option_elim (IsCounted r.instructions) (match_stop_at_pc options.stop_at_pc cpu) _ _
          (λ f.
            option_elim (IsCounted r.instructions) (match_step_bus_access options cpu) _ _
              (λ g.
                option_elim (IsCounted r.instructions) (event_stop_reason options cpu) none
                  (λ x. some (with_reason x r)) (λ h. not_yet)
                  (λ x h. counted (with_reason x r) refl))
              (λ a g. counted (with_reason bus_access (record r { bus_access = some a })) refl))
          (λ m f. counted (with_reason at_pc (record r { pc = m })) refl))

IsCounted-within :
    (options : RunUntilOptions) (cpu : Cpu) (o : Option RunResult) (k : Option Outcome) (n : ℕ)
    → IsCounted n o
    → n ≤ options.max_instructions
    → IsWithin options.max_instructions k
    → IsWithin options.max_instructions (elim o [ some r ↦ some (outcome r none cpu) | none ↦ k ])
IsCounted-within options cpu none k n not_yet h w = w
IsCounted-within options cpu (some _) k n (counted r e) h w = within (outcome r none cpu) (rw e h)

below_limit :
    (options : RunUntilOptions) (r : RunResult)
    → 0 < options.max_instructions
    → is_at_limit options r ≡ false
    → r.instructions < options.max_instructions
unfolding is_at_limit
below_limit options r p e = ground arith

run_on-within :
    (options : RunUntilOptions) (start fuel : ℕ) (r : RunResult) (cpu : Cpu)
    → 0 < options.max_instructions
    → options.max_instructions < 0x1_0000_0000_0000_0000
    → r.instructions ≤ options.max_instructions
    → options.max_instructions < r.instructions + fuel
    → IsWithin options.max_instructions (run_on options start fuel r cpu)
unfolding run_on is_at_limit limit_result note_step
run_on-within options start zero r cpu p w h k = absurd (omega arith)
run_on-within options start (suc fuel) r cpu p w h k =
    bool_elim (IsWithin options.max_instructions) (is_at_limit options r) _ _ (λ e. within _ h)
      (λ e.
        let q = below_limit options r p e in
        result_elim (IsWithin options.max_instructions) (step cpu) _ _
          (λ u c f.
            let n = note_step options start r c in
            IsCounted-within options c _ _ n.instructions (run_stop_reason-IsCounted options n c)
              (omega arith) (run_on-within options start fuel n c p w (omega arith) (omega arith)))
          (λ x c f. within (outcome r (some x) c) h))

restoring-IsWithin :
    (max : ℕ) (b : Bool) (o : Option Outcome) → IsWithin max o → IsWithin max (restoring b o)
unfolding restoring set_collect
restoring-IsWithin max b none h = elim h [ ]
restoring-IsWithin max b (some _) (within o h) = within (record o { cpu = set_collect b o.cpu }) h

started-within :
    (options : RunUntilOptions) (cpu : Cpu) (o : Option RunResult) (k : Option Outcome)
    → IsCounted 0 o
    → IsWithin options.max_instructions k
    → IsWithin options.max_instructions
        (elim o [ some r ↦ some (outcome (record r { pc = cpu.regs.pc }) none cpu) | none ↦ k ])
started-within options cpu none k not_yet w = w
started-within options cpu (some _) k (counted r e) w =
    within (outcome (record r { pc = cpu.regs.pc }) none cpu) (rw e (omega arith))

-- RunUntil with a limit on the instructions, above 0 and below 2^64, ends, whatever the program
-- does, and counts no more instructions than the limit; one unit of fuel more than the limit is
-- enough.
pub run_until-IsWithin :
    (fuel : ℕ) (options : RunUntilOptions) (cpu : Cpu)
    → 0 < options.max_instructions
    → options.max_instructions < 0x1_0000_0000_0000_0000
    → options.max_instructions < fuel
    → IsWithin options.max_instructions (run_until fuel options cpu)
unfolding run_until set_collect
run_until-IsWithin fuel options cpu p w h =
    let c = set_collect (collects options) cpu in
    restoring-IsWithin options.max_instructions cpu.collect_step_bus _ (
      started-within options c _ _ (run_stop_reason-IsCounted options no_result c)
        (run_on-within options c.cycles fuel no_result c p w (omega arith) (omega arith)))
