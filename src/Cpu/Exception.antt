-- ===== src/Cpu/Exception.antt =====
-- Exceptions of cpu.go: the status register, the two frames, the vectors and interrupts.
pub mod Guard
pub mod Stacks
pub mod Frame
pub mod Return
mod Tests
use m68kemu.Base.{
  ℕ, bit_and, bit_or, bit_xor, Bool, true, false, ◌||◌, ◌==◌, ◌!=◌, ltb, leb, if◌then◌else◌, add32,
  ◌<<<◌,
}
use m68kemu.Operand.{word, long}
use m68kemu.Status.{sr_supervisor}
use m68kemu.Effect.{
  ◌>>=◌, ◌>>◌, pure, throw, gets, modify, when, choose, Result, ok, err, address_error, failed,
}
use m68kemu.Cpu.State.{Cpu, Run, ExceptionInfo, group12, set_regs, set_pc}
use m68kemu.Cpu.Debug.{
  override_instruction_cycles, is_supervisor, interrupt_mask, current_opcode_address,
  dispatch_exception,
}
use m68kemu.Cpu.Access.{read_system_program}
use m68kemu.Cpu.Stream.{push_exception, set_a}

abbrev pub x_bus_error : ℕ
x_bus_error = 2

abbrev pub x_address_error : ℕ
x_address_error = 3

abbrev pub x_illegal : ℕ
x_illegal = 4

abbrev pub x_div_by_zero : ℕ
x_div_by_zero = 5

abbrev pub x_priv_violation : ℕ
x_priv_violation = 8

abbrev pub x_line_a : ℕ
x_line_a = 10

abbrev pub x_line_f : ℕ
x_line_f = 11

abbrev pub x_uninitialized_int : ℕ
x_uninitialized_int = 15

abbrev pub x_trap : ℕ
x_trap = 32

-- The other stack pointer is saved and loaded when the supervisor bit changes.
unfoldable pub set_sr : ℕ → Cpu → Cpu
set_sr value cpu =
    let changed = bit_and (bit_xor cpu.regs.sr value) sr_supervisor != 0 in
    let enters = bit_and value sr_supervisor != 0 in
    let sp = cpu.regs.a 7 in
    let switched =
      if changed
      then (if enters
          then set_a 7 cpu.regs.ssp (set_regs (λ r. record r { usp = sp }) cpu)
          else set_a 7 cpu.regs.usp (set_regs (λ r. record r { ssp = sp }) cpu))
      else cpu in
    set_regs (λ r. record r { sr = value }) switched

unfoldable pub read_vector : ℕ → Run ℕ
unfolding read_system_program
read_vector offset =
    choose (bit_and offset 1 != 0 || leb 0x400 offset) (throw (address_error offset)) (do
      address ← read_system_program long offset
      choose (address == 0) (read_system_program long (x_uninitialized_int <<< 2)) (pure address))

abbrev pub set_in_exception : Bool → Cpu → Cpu
set_in_exception b cpu = record cpu { in_exception = b }

-- `defer func() { cpu.inException = false }()`
abbrev pub leave_exception : {A : Type 0} → Result Cpu A → Result Cpu A
leave_exception (ok a cpu) = ok a (set_in_exception false cpu)
leave_exception (err e cpu) = err e (set_in_exception false cpu)

abbrev pub guarded : {A : Type 0} → Run A → Run A
guarded m cpu = leave_exception (m (set_in_exception true cpu))

unfoldable pub group12_info : ℕ → ℕ → ℕ → ℕ → ℕ → ℕ → Cpu → ExceptionInfo
unfolding interrupt_mask
group12_info vector original_sr opcode_address stacked_pc exception_pc handler cpu = record {
  vector = vector;
  pc = exception_pc;
  new_pc = handler;
  opcode = cpu.regs.ir;
  opcode_address = opcode_address;
  fault_address = 0;
  fault_valid = false;
  sr = original_sr;
  new_sr = cpu.regs.sr;
  stack_pointer = cpu.regs.a 7;
  frame = record {
    format = group12;
    stack_pointer = cpu.regs.a 7;
    status_word = 0;
    fault_address = 0;
    instruction_register = 0;
    sr = original_sr;
    pc = stacked_pc;
  };
  interrupt_mask = interrupt_mask cpu;
  is_group0 = false;
}

-- The frame of six bytes: PC (long) pushed first, then SR (word).
unfoldable pub raise_exception_with_pc : ℕ → ℕ → ℕ → ℕ → Run (Unit {0})
unfolding set_sr push_exception read_vector current_opcode_address interrupt_mask dispatch_exception
    group12_info
raise_exception_with_pc vector new_sr stacked_pc exception_pc =
    choose (ltb 255 vector) (throw failed) (do
      original_sr ← gets (λ cpu. cpu.regs.sr)
      opcode_address ← gets (current_opcode_address exception_pc)
      guarded (do
        modify (set_sr new_sr)
        push_exception long stacked_pc
        push_exception word original_sr
        handler ← read_vector (vector <<< 2)
        modify (set_pc handler)
        modify (λ cpu.
            dispatch_exception
              (group12_info vector original_sr opcode_address stacked_pc exception_pc handler cpu)
              cpu)))

unfoldable pub raise_exception : ℕ → ℕ → Run (Unit {0})
unfolding raise_exception_with_pc
raise_exception vector new_sr cpu =
    raise_exception_with_pc vector new_sr cpu.regs.pc cpu.regs.pc cpu

abbrev pub supervisor_sr : Cpu → ℕ
supervisor_sr cpu = bit_or cpu.regs.sr sr_supervisor

unfoldable pub synchronous_exception : ℕ → ℕ → ℕ → Run (Unit {0})
unfolding raise_exception_with_pc
synchronous_exception vector new_sr stacked_pc =
    raise_exception_with_pc vector new_sr stacked_pc stacked_pc

unfoldable pub trap_exception : ℕ → Run (Unit {0})
unfolding synchronous_exception current_opcode_address
trap_exception vector cpu =
    let stacked = bit_and cpu.regs.pc 0xff_ffff in
    let instruction_pc = current_opcode_address stacked cpu in
    let stacked' =
      if stacked == instruction_pc then bit_and (add32 instruction_pc 2) 0xff_ffff else stacked in
    synchronous_exception vector (supervisor_sr cpu) stacked' cpu

unfoldable pub exception : ℕ → Run (Unit {0})
unfolding raise_exception
exception vector cpu = raise_exception vector (supervisor_sr cpu) cpu

unfoldable pub exception_with_cycles : ℕ → ℕ → Run (Unit {0})
unfolding override_instruction_cycles exception
exception_with_cycles vector total = do modify (override_instruction_cycles total); exception vector

unfoldable pub opcode_exception : ℕ → ℕ → Run (Unit {0})
unfolding override_instruction_cycles raise_exception_with_pc exception_with_cycles
opcode_exception vector instruction_pc =
    choose (vector == x_line_a || vector == x_line_f)
      (do
        modify (override_instruction_cycles 34)
        λ cpu. raise_exception_with_pc vector (supervisor_sr cpu) instruction_pc instruction_pc cpu)
      (exception_with_cycles vector 34)

unfoldable pub exception_vector_for_opcode : ℕ → ℕ
exception_vector_for_opcode opcode =
    let line = bit_and opcode 0xf000 in
    if line == 0xa000 then x_line_a else if line == 0xf000 then x_line_f else x_illegal

unfoldable pub require_supervisor : Run Bool
unfolding is_supervisor exception_with_cycles
require_supervisor cpu =
    if is_supervisor cpu
    then ok true cpu
    else (do exception_with_cycles x_priv_violation 34; pure false) cpu

-- `if ok, err := cpu.requireSupervisor(); err != nil || !ok { return err }; m`
unfoldable pub privileged : Run (Unit {0}) → Run (Unit {0})
unfolding require_supervisor
privileged m = do allowed ← require_supervisor; when allowed m
