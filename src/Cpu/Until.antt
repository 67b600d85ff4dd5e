-- ===== src/Cpu/Until.antt =====
-- RunUntil of cpu.go, with the conditions that stop it.
pub mod Reasons
pub mod Limit
pub mod Steps
mod Tests
use m68kemu.Base.{
  ℕ, zero, suc, ◌+◌, ◌-◌, ◌%◌, bit_and, Bool, true, false, not, Option, none, some, List, [], ◌∷◌,
  ◌&&◌, ◌||◌, ◌==◌, ltb, leb, if◌then◌else◌,
}
use mathlib.Core.Option
use m68kemu.Effect.{Result, ok, err, Error}
use m68kemu.Memory.Bus.{is_some, or_else}
use m68kemu.Cpu.State.{Cpu, Registers, BusAccessInfo, ExceptionInfo, InterruptInfo}
use m68kemu.Cpu.Group0.{refresh_debug_modes}
use m68kemu.Cpu.Step.{step}

pub record AddressRange : Type 0 where
  pub start : ℕ
  pub end : ℕ

unfoldable pub contains : AddressRange → ℕ → Bool
contains r address =
    leb (bit_and r.start 0xff_ffff) (bit_and address 0xff_ffff)
    && leb (bit_and address 0xff_ffff) (bit_and r.end 0xff_ffff)

-- A value with its Has flag is an option.
pub record RunPredicateInfo : Type 0 where
  pub registers : Registers
  pub instructions : ℕ
  pub cycles : ℕ
  pub last_exception : Option ExceptionInfo
  pub last_bus_access : Option BusAccessInfo
  pub last_interrupt : Option InterruptInfo

-- The callbacks of the embedding program answer by what they are given.
pub record RunUntilOptions : Type 0 where
  pub max_instructions : ℕ
  pub stop_on_exception : Bool
  pub stop_on_illegal : Bool
  pub stop_at_pc : List ℕ
  pub stop_on_pc_range : Option AddressRange
  pub stop_when_pc_outside : Option AddressRange
  pub stop_on_bus_access : Option (BusAccessInfo → Bool)
  pub stop_predicate : Option (RunPredicateInfo → Bool)

-- Without RunStopNone, which is `none` of an option.
pub data RunStopReason : Type 0 where
  instruction_limit at_pc pc_in_range pc_outside_range bus_access predicate exception
        illegal_opcode :
      RunStopReason

pub record RunResult : Type 0 where
  pub reason : Option RunStopReason
  pub instructions : ℕ
  pub cycles : ℕ
  pub pc : ℕ
  pub exception : Option ExceptionInfo
  pub bus_access : Option BusAccessInfo
  pub interrupt : Option InterruptInfo

abbrev pub no_result : RunResult
no_result = record {
  reason = none;
  instructions = 0;
  cycles = 0;
  pc = 0;
  exception = none;
  bus_access = none;
  interrupt = none;
}

-- What RunUntil returns, and the processor that it leaves.
pub record Outcome : Type 0 where
  pub result : RunResult
  pub error : Option Error
  pub cpu : Cpu

unfoldable pub is_illegal_exception : ℕ → Bool
is_illegal_exception vector = vector == 4 || (vector == 10 || vector == 11)

abbrev pub last : {A : Type 0} → List A → Option A
last [] = none
last (a ∷ []) = some a
last (a ∷ b ∷ rest) = last (b ∷ rest)

unfoldable pub run_predicate_info : RunResult → Cpu → RunPredicateInfo
run_predicate_info result cpu = record {
  registers = cpu.regs;
  instructions = result.instructions;
  cycles = cpu.cycles;
  last_exception = cpu.step_exception;
  last_bus_access = last cpu.step_bus_accesses;
  last_interrupt = cpu.step_interrupt;
}

unfoldable pub match_stop_at_pc : List ℕ → Cpu → Option ℕ
match_stop_at_pc [] cpu = none
match_stop_at_pc (target ∷ targets) cpu =
    if bit_and cpu.regs.pc 0xff_ffff == bit_and target 0xff_ffff
    then some (bit_and cpu.regs.pc 0xff_ffff)
    else match_stop_at_pc targets cpu

unfoldable pub first_match : (BusAccessInfo → Bool) → List BusAccessInfo → Option BusAccessInfo
first_match f [] = none
first_match f (access ∷ accesses) = if f access then some access else first_match f accesses

unfoldable pub match_step_bus_access : RunUntilOptions → Cpu → Option BusAccessInfo
unfolding first_match
match_step_bus_access options cpu = elim options.stop_on_bus_access [
  | none ↦ none
  | some f ↦ first_match f cpu.step_bus_accesses
]

-- Whether a condition that may be missing holds.
abbrev pub holds : {A : Type 0} → Option A → (A → Bool) → Bool
holds none f = false
holds (some a) f = f a

unfoldable pub pc_stop_reason : RunUntilOptions → Cpu → Option RunStopReason
unfolding contains
pc_stop_reason options cpu =
    if holds options.stop_on_pc_range (λ r. contains r cpu.regs.pc)
    then some pc_in_range
    else if holds options.stop_when_pc_outside (λ r. not (contains r cpu.regs.pc))
    then some pc_outside_range
    else none

-- The result with the reason, and with what runStopReason notes in it.
abbrev pub with_reason : RunStopReason → RunResult → RunResult
with_reason r result = record result { reason = some r }

-- The last three conditions of runStopReason.
unfoldable pub event_stop_reason : RunUntilOptions → Cpu → Option RunStopReason
unfolding is_illegal_exception pc_stop_reason
event_stop_reason options cpu =
    if options.stop_on_illegal
      && holds cpu.step_exception (λ (info : ExceptionInfo). is_illegal_exception info.vector)
    then some illegal_opcode
    else if options.stop_on_exception && is_some cpu.step_exception
    then some exception
    else pc_stop_reason options cpu

unfoldable pub run_stop_reason : RunUntilOptions → RunResult → Cpu → Option RunResult
unfolding run_predicate_info match_stop_at_pc match_step_bus_access event_stop_reason
run_stop_reason options result cpu =
    if holds options.stop_predicate (λ p. p (run_predicate_info result cpu))
    then some (with_reason predicate result)
    else elim (match_stop_at_pc options.stop_at_pc cpu) [
      | some matched ↦ some (with_reason at_pc (record result { pc = matched }))
      | none ↦ elim (match_step_bus_access options cpu) [
        | some matched ↦ some (with_reason bus_access (record result { bus_access = some matched }))
        | none ↦ Option.map (λ r. with_reason r result) (event_stop_reason options cpu)
      ]
    ]

-- The result after one more instruction; an exception, an access or an interrupt of an earlier
-- instruction stays where the last one had none.
unfoldable pub note_step : RunUntilOptions → ℕ → RunResult → Cpu → RunResult
unfolding match_step_bus_access
note_step options start result cpu = record {
  reason = result.reason;
  instructions = (result.instructions + 1) % 0x1_0000_0000_0000_0000;
  cycles = (cpu.cycles + 0x1_0000_0000_0000_0000 - start) % 0x1_0000_0000_0000_0000;
  pc = cpu.regs.pc;
  exception = or_else cpu.step_exception result.exception;
  bus_access = or_else (match_step_bus_access options cpu) result.bus_access;
  interrupt = or_else cpu.step_interrupt result.interrupt;
}

unfoldable pub is_at_limit : RunUntilOptions → RunResult → Bool
is_at_limit options result =
    ltb 0 options.max_instructions && leb options.max_instructions result.instructions

unfoldable pub limit_result : ℕ → RunResult → Cpu → RunResult
limit_result start result cpu = record result {
  reason = some instruction_limit;
  pc = cpu.regs.pc;
  cycles = (cpu.cycles + 0x1_0000_0000_0000_0000 - start) % 0x1_0000_0000_0000_0000;
}

abbrev pub outcome : RunResult → Option Error → Cpu → Outcome
outcome result e cpu = record { result = result; error = e; cpu = cpu }

-- The loop of RunUntil; `none` is more fuel needed.
module _ (options : RunUntilOptions) (start : ℕ) where
  unfoldable pub run_on : ℕ → RunResult → Cpu → Option Outcome
  unfolding is_at_limit limit_result step note_step run_stop_reason
  run_on zero result cpu = none
  run_on (suc fuel) result cpu = elim (is_at_limit options result) [
    | true ↦ some (outcome (limit_result start result cpu) none cpu)
    | false ↦ elim (step cpu) [
      | err e c ↦ some (outcome result (some e) c)
      | ok u c ↦ elim (run_stop_reason options (note_step options start result c) c) [
        | some r ↦ some (outcome r none c)
        | none ↦ run_on fuel (note_step options start result c) c
      ]
    ]
  ]

abbrev pub collects : RunUntilOptions → Bool
collects options = is_some options.stop_on_bus_access || is_some options.stop_predicate

-- `cpu.collectStepBus = b; cpu.refreshDebugModes()`
unfoldable pub set_collect : Bool → Cpu → Cpu
set_collect b cpu = refresh_debug_modes (record cpu { collect_step_bus = b })

-- The deferred function restores the collection of bus accesses.
unfoldable pub restoring : Bool → Option Outcome → Option Outcome
unfolding set_collect
restoring previous o =
    Option.map (λ (out : Outcome). record out { cpu = set_collect previous out.cpu }) o

unfoldable pub run_until : ℕ → RunUntilOptions → Cpu → Option Outcome
unfolding set_collect restoring run_stop_reason run_on
run_until fuel options cpu =
    let c = set_collect (collects options) cpu in
    restoring cpu.collect_step_bus (elim (run_stop_reason options no_result c) [
      | some r ↦ some (outcome (record r { pc = c.regs.pc }) none c)
      | none ↦ run_on options c.cycles fuel no_result c
    ])
