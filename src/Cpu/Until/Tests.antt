-- ===== src/Cpu/Until/Tests.antt =====
-- RunUntil, run on the small program.
use m68kemu.Base.{ℕ, ◌≡◌, refl, arith, true, none, some, List, [], ◌∷◌}
use m68kemu.Cpu.Tests.{machine}
use m68kemu.Cpu.Until.{
  RunUntilOptions, at_pc, instruction_limit, Outcome, outcome, no_result, run_until,
}
use m68kemu.Cpu.Until.Reasons.{IsRun, run_until-IsRun}
use m68kemu.Cpu.Until.Limit.{IsWithin, run_until-IsWithin}
use m68kemu.Cpu.Until.Steps.{IsRestored, run_until-restoring}

abbrev stop_at : List ℕ → ℕ → RunUntilOptions
stop_at targets max = record {
  max_instructions = max;
  stop_on_exception = true;
  stop_on_illegal = true;
  stop_at_pc = targets;
  stop_on_pc_range = none;
  stop_when_pc_outside = none;
  stop_on_bus_access = some (λ a. a.write);
  stop_predicate = none;
}

abbrev run_of : ℕ → RunUntilOptions → Outcome
unfolding run_until
run_of fuel options = elim (run_until fuel options machine) [
  | some o ↦ o
  | none ↦ outcome no_result none machine
]

stops_at_target : (run_of 9 (stop_at (0x1004 ∷ []) 0)).result.reason ≡ some at_pc
unfolding run_of machine
stops_at_target = refl

counts_instructions : (run_of 9 (stop_at (0x1004 ∷ []) 0)).result.instructions ≡ 2
unfolding run_of machine
counts_instructions = refl

stops_at_limit : (run_of 9 (stop_at [] 1)).result.reason ≡ some instruction_limit
unfolding run_of machine
stops_at_limit = refl

run_until-IsWithin_example : IsWithin 2 (run_until 3 (stop_at [] 2) machine)
run_until-IsWithin_example =
    run_until-IsWithin 3 (stop_at [] 2) machine (omega arith) (omega arith) (omega arith)

run_until-IsRun_example :
    IsRun (stop_at (0x1004 ∷ []) 0) (run_until 9 (stop_at (0x1004 ∷ []) 0) machine)
run_until-IsRun_example = run_until-IsRun 9 (stop_at (0x1004 ∷ []) 0) machine

run_until-restoring_example : IsRestored (stop_at [] 1) machine (run_of 9 (stop_at [] 1))
unfolding run_of machine
run_until-restoring_example =
    run_until-restoring 9 (stop_at [] 1) machine (run_of 9 (stop_at [] 1)) refl
