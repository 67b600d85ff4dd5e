-- ===== src/Cpu/Step.antt =====
-- The instruction loop of cpu.go: executeInstruction, executeNext, Step, RunCycles and
-- RunInstructions, and what the embedding program sets.
pub mod Stopped
pub mod Lines
pub mod Woken
mod Tests
use m68kemu.Base.{
  ℕ, zero, suc, ◌+◌, ◌-◌, ◌%◌, bit_and, Bool, true, false, Option, none, some, [], ◌==◌, ltb,
  if◌then◌else◌, u32,
}
use m68kemu.Effect.{◌>>=◌, ◌>>◌, pure, throw, gets, modify, Result, ok, err, on_execute, failed}
use m68kemu.Decode.Table.{opcode_table, opcode_cycle_table}
use m68kemu.Cpu.State.{
  Cpu, Run, Registers, Breakpoint, set_regs, TraceInfo, instruction, traced, pre_traced,
}
use m68kemu.Cpu.Debug.{
  add_cycles, append_history, call_hook, check_breakpoint, begin_instruction_context,
  end_instruction_context,
}
use m68kemu.Cpu.Stream.{fetch_opcode}
use m68kemu.Cpu.Exception.{opcode_exception, exception_vector_for_opcode}
use m68kemu.Cpu.Group0.{handle_fault_error, check_interrupts, refresh_debug_modes}
use m68kemu.Cpu.Dispatch.{handle}

-- consumeOpcodePC: the address of the opcode that was fetched last, once.
unfoldable pub consume_opcode_pc : Run ℕ
consume_opcode_pc cpu =
    ok (elim cpu.last_opcode_pc [ none ↦ cpu.regs.pc | some pc ↦ pc ])
      (record cpu { last_opcode_pc = none })

-- What follows m, whether it fails or not: the deferred call and the call on each way out.
unfoldable ending_context : {A : Type 0} → Result Cpu A → Result Cpu A
unfolding end_instruction_context
ending_context (ok a cpu) = ok a (end_instruction_context cpu)
ending_context (err e cpu) = err e (end_instruction_context cpu)

unfoldable pub or_fault : Bool → Result Cpu (Unit {0}) → Result Cpu (Unit {0})
unfolding handle_fault_error
or_fault current (ok a cpu) = ok a cpu
or_fault current (err e cpu) = handle_fault_error e current cpu

-- The handler of an opcode, or its exception.
unfoldable pub run_opcode : ℕ → ℕ → Run (Unit {0})
unfolding add_cycles opcode_cycle_table opcode_table opcode_exception exception_vector_for_opcode
    handle handle_fault_error or_fault
run_opcode opcode instruction_pc = do
  modify (set_regs (λ r. record r { ir = opcode }))
  modify (add_cycles (opcode_cycle_table opcode))
  elim (opcode_table opcode) [
    | none ↦ opcode_exception (exception_vector_for_opcode opcode) instruction_pc
    | some h ↦ λ cpu. or_fault true (handle h cpu)
  ]

unfoldable pub execute_instruction : ℕ → Run (Unit {0})
unfolding consume_opcode_pc begin_instruction_context end_instruction_context run_opcode
    ending_context
execute_instruction opcode = do
  instruction_pc ← consume_opcode_pc
  λ cpu. elim cpu.current_opcode_pc [
    | some pc ↦ run_opcode opcode instruction_pc cpu
    | none ↦
        ending_context
          (run_opcode opcode instruction_pc (begin_instruction_context instruction_pc cpu))
  ]

unfoldable pub send_pre_trace : ℕ → ℕ → Registers → Cpu → Cpu
send_pre_trace pc opcode before cpu =
    call_hook cpu.has_pre_trap
      (pre_traced (record {
        pc = bit_and pc 0xff_ffff;
        registers = before;
        opcode = opcode;
        cycles = cpu.cycles;
      }))
      cpu

abbrev trace_info : ℕ → Registers → ℕ → Cpu → TraceInfo
trace_info pc before delta cpu = record {
  pc = bit_and pc 0xff_ffff;
  registers = cpu.regs;
  before_registers = before;
  opcode = cpu.regs.ir;
  cycle_delta = delta;
  cycles = cpu.cycles;
}

unfoldable pub send_trace : ℕ → Registers → ℕ → Cpu → Cpu
unfolding append_history
send_trace pc before before_cycles cpu =
    if cpu.trace_instructions
    then (let delta = u32 (cpu.cycles + 0x1_0000_0000_0000_0000 - before_cycles) in
        let info = trace_info pc before delta cpu in
        let c1 = append_history (instruction info) cpu in call_hook c1.has_trap (traced info) c1)
    else cpu

-- Execution, the check for interrupts and the trace, after the opcode is fetched.
unfoldable pub after_fetch : ℕ → Registers → ℕ → ℕ → Run (Unit {0})
unfolding send_pre_trace execute_instruction check_interrupts send_trace
after_fetch pc before before_cycles opcode = do
  modify (send_pre_trace pc opcode before)
  execute_instruction opcode
  check_interrupts
  modify (send_trace pc before before_cycles)

unfoldable fetched : Result Cpu ℕ → (ℕ → Run (Unit {0})) → Result Cpu (Unit {0})
unfolding end_instruction_context handle_fault_error ending_context
fetched (err e cpu) k = handle_fault_error e false (end_instruction_context cpu)
fetched (ok opcode cpu) k = ending_context (k opcode cpu)

unfoldable pub execute_next : Run (Unit {0})
unfolding check_breakpoint begin_instruction_context end_instruction_context fetch_opcode
    after_fetch fetched
execute_next = do
  λ cpu. check_breakpoint cpu.regs.pc on_execute cpu
  pc ← gets (λ cpu. cpu.regs.pc)
  before ← gets (λ cpu. cpu.regs)
  before_cycles ← gets (λ cpu. cpu.cycles)
  modify (begin_instruction_context pc)
  λ cpu. fetched (fetch_opcode cpu) (after_fetch pc before before_cycles)

-- The reset is left out where it changes nothing.
unfoldable pub reset_step_debug_state : Cpu → Cpu
reset_step_debug_state cpu = record cpu {
  step_exception = none;
  step_interrupt = none;
  trace_bytes = [];
  step_bus_accesses = [];
}

-- A stopped processor waits for an interrupt; otherwise m is run.
unfoldable unless_stopped : Run (Unit {0}) → Run (Unit {0}) → Run (Unit {0})
unfolding check_interrupts
unless_stopped idle m cpu =
    if cpu.stopped then (do check_interrupts; λ c. if c.stopped then idle c else m c) cpu else m cpu

unfoldable pub step : Run (Unit {0})
unfolding reset_step_debug_state check_interrupts execute_next unless_stopped
step = do modify reset_step_debug_state; unless_stopped (pure tt) execute_next

-- One round of RunCycles: an instruction that leaves the cycle count as it was is an error.
unfoldable pub run_step : Run (Unit {0})
unfolding reset_step_debug_state check_interrupts execute_next add_cycles unless_stopped
run_step = do
  modify reset_step_debug_state
  before ← gets (λ cpu. cpu.cycles)
  unless_stopped (modify (add_cycles 4))
      (do execute_next; λ cpu. if cpu.cycles == before then throw failed cpu else pure tt cpu)

-- `none` is more fuel needed.
unfoldable pub run_to : ℕ → ℕ → Cpu → Option (Result Cpu (Unit {0}))
unfolding run_step
run_to zero target cpu = if ltb cpu.cycles target then none else some (ok tt cpu)
run_to (suc fuel) target cpu = elim (ltb cpu.cycles target) [
  | false ↦ some (ok tt cpu)
  | true ↦ elim (run_step cpu) [ err e c ↦ some (err e c) | ok a c ↦ run_to fuel target c ]
]

-- The target is a uint64.
unfoldable pub run_cycles : ℕ → ℕ → Cpu → Option (Result Cpu (Unit {0}))
unfolding run_to
run_cycles fuel budget cpu = run_to fuel ((cpu.cycles + budget) % 0x1_0000_0000_0000_0000) cpu

unfoldable pub run_instructions : ℕ → Run (Unit {0})
unfolding step
run_instructions zero = pure tt
run_instructions (suc count) = do step; run_instructions count

-- The setters: only whether a callback is set is kept.
unfoldable pub set_tracer : Bool → Cpu → Cpu
set_tracer set cpu = refresh_debug_modes (record cpu { has_trap = set })

unfoldable pub set_pre_tracer : Bool → Cpu → Cpu
set_pre_tracer set cpu = record cpu { has_pre_trap = set }

unfoldable pub set_exception_tracer : Bool → Cpu → Cpu
set_exception_tracer set cpu = record cpu { has_exception_trap = set }

unfoldable pub set_bus_tracer : Bool → Cpu → Cpu
set_bus_tracer set cpu = refresh_debug_modes (record cpu { has_bus_trap = set })

unfoldable pub set_interrupt_tracer : Bool → Cpu → Cpu
set_interrupt_tracer set cpu = record cpu { has_interrupt_trap = set }

unfoldable pub add_breakpoint : Breakpoint → Cpu → Cpu
add_breakpoint bp cpu = record cpu {
  breakpoints = some (λ address.
      if address == bp.address
      then some bp
      else elim cpu.breakpoints [ none ↦ none | some f ↦ f address ]);
}
