-- ===== src/Cpu/Group0.antt =====
-- Bus and address errors, interrupts, frames read back, and reset, in cpu.go.
use m68kemu.Base.{
  ℕ, bit_and, bit_or, Bool, true, false, Option, none, some, [], ltb, if◌then◌else◌, add32, sub32,
  not16, ◌<<<◌, u16,
}
use mathlib.Core.Option
use m68kemu.Operand.{word, long}
use m68kemu.Status.{sr_supervisor, sr_interrupt_mask}
use m68kemu.Effect.{
  M, ◌>>=◌, ◌>>◌, pure, throw, gets, modify, choose, ok, err, Error, address_error, bus_error,
  failed,
}
use m68kemu.Interrupts
use m68kemu.Interrupts.{Accepted}
use m68kemu.Memory.Bus
use m68kemu.Memory.Bus.{Bus}
use m68kemu.Cpu.State.{
  Cpu, Run, FaultInfo, ExceptionInfo, ExceptionStackFrame, ExceptionStackFrameFormat, group12,
  group0, set_regs, set_pc,
}
use m68kemu.Cpu.Debug.{
  add_cycles, override_instruction_cycles, interrupt_mask, current_opcode_address, status_word,
  dispatch_exception, dispatch_interrupt,
}
use m68kemu.Cpu.Access.{write_system_data, on_bus}
use m68kemu.Cpu.Stream.{set_a}
use m68kemu.Cpu.Exception.{
  set_sr, read_vector, guarded, raise_exception, supervisor_sr, x_bus_error, x_address_error,
}

unfoldable pub group0_frame : ℕ → ℕ → FaultInfo → ExceptionStackFrame
unfolding status_word
group0_frame sp original_sr f = record {
  format = group0;
  stack_pointer = sp;
  status_word = status_word f;
  fault_address = f.address;
  instruction_register = f.ir;
  sr = original_sr;
  pc = f.pc;
}

unfoldable pub group0_info : ℕ → ℕ → ℕ → ℕ → ℕ → Cpu → ExceptionInfo
unfolding status_word interrupt_mask group0_frame
group0_info vector original_sr opcode_address sp handler cpu = record {
  vector = vector;
  pc = cpu.fault.pc;
  new_pc = handler;
  opcode = cpu.fault.ir;
  opcode_address = opcode_address;
  fault_address = cpu.fault.address;
  fault_valid = cpu.fault.valid;
  sr = original_sr;
  new_sr = cpu.regs.sr;
  stack_pointer = sp;
  frame = group0_frame sp original_sr cpu.fault;
  interrupt_mask = interrupt_mask cpu;
  is_group0 = true;
}

-- The frame of fourteen bytes, written upwards from the new stack pointer.
unfoldable pub raise_group0_exception : ℕ → ℕ → Run (Unit {0})
unfolding set_sr write_system_data read_vector current_opcode_address status_word interrupt_mask
    dispatch_exception group0_info
raise_group0_exception vector new_sr = choose (ltb 255 vector) (throw failed) (do
  original_sr ← gets (λ cpu. cpu.regs.sr)
  opcode_address ← gets (λ cpu. current_opcode_address cpu.fault.pc cpu)
  guarded (do
    modify (set_sr new_sr)
    sp ← gets (λ cpu. sub32 (cpu.regs.a 7) 14)
    modify (set_a 7 sp)
    λ cpu. write_system_data word sp (status_word cpu.fault) cpu
    λ cpu. write_system_data long (add32 sp 2) cpu.fault.address cpu
    λ cpu. write_system_data word (add32 sp 6) cpu.fault.ir cpu
    write_system_data word (add32 sp 8) original_sr
    λ cpu. write_system_data long (add32 sp 10) cpu.fault.pc cpu
    handler ← read_vector (vector <<< 2)
    modify (set_pc handler)
    modify (λ cpu.
        dispatch_exception (group0_info vector original_sr opcode_address sp handler cpu) cpu)))

unfoldable pub group0_exception_for_current_instruction : ℕ → ℕ → Run (Unit {0})
unfolding override_instruction_cycles raise_group0_exception
group0_exception_for_current_instruction vector total = do
  modify (override_instruction_cycles total)
  λ cpu. raise_group0_exception vector (supervisor_sr cpu) cpu

unfoldable pub group0_exception_without_instruction : ℕ → ℕ → Run (Unit {0})
unfolding add_cycles raise_group0_exception
group0_exception_without_instruction vector total = do
  modify (add_cycles total)
  λ cpu. raise_group0_exception vector (supervisor_sr cpu) cpu

unfoldable group0_exception : Bool → ℕ → Run (Unit {0})
unfolding group0_exception_for_current_instruction group0_exception_without_instruction
group0_exception true vector = group0_exception_for_current_instruction vector 50
group0_exception false vector = group0_exception_without_instruction vector 50

unfoldable pub handle_fault_error : Error → Bool → Run (Unit {0})
unfolding group0_exception_for_current_instruction group0_exception_without_instruction
    group0_exception
handle_fault_error (bus_error a) current = group0_exception current x_bus_error
handle_fault_error (address_error a) current = group0_exception current x_address_error
handle_fault_error e current = throw e

-- The status register on entry to an interrupt handler.
unfoldable pub interrupt_sr : ℕ → ℕ → ℕ
interrupt_sr sr level =
    bit_or (bit_or (bit_and sr (not16 sr_interrupt_mask)) sr_supervisor) (u16 (level <<< 8))

unfoldable pub interrupt : ℕ → ℕ → Bool → Run (Unit {0})
unfolding interrupt_sr add_cycles raise_exception dispatch_interrupt
interrupt level vector auto_vector = do
  original_pc ← gets (λ cpu. cpu.regs.pc)
  original_sr ← gets (λ cpu. cpu.regs.sr)
  modify (add_cycles 44)
  raise_exception vector (interrupt_sr original_sr level)
  modify (λ cpu.
      dispatch_interrupt
        (record {
          level = level;
          vector = vector;
          auto_vector = auto_vector;
          pc = original_pc;
          new_pc = cpu.regs.pc;
          sr = original_sr;
          new_sr = cpu.regs.sr;
        })
        cpu)

abbrev pub accept : Accepted → Cpu → Cpu
accept acc cpu = record cpu { interrupts = acc.rest; stopped = false }

-- The controller is asked for the interrupt.
unfoldable pub take_pending : Run (Unit {0})
unfolding Interrupts.pending interrupt
take_pending cpu = elim (Interrupts.pending cpu.regs.sr cpu.interrupts) [
  | none ↦ ok tt cpu
  | some acc ↦ interrupt acc.level acc.interrupt.vector acc.interrupt.auto_vector (accept acc cpu)
]

unfoldable pub check_interrupts : Run (Unit {0})
unfolding Interrupts.has_pending take_pending
check_interrupts cpu =
    if Interrupts.has_pending cpu.regs.sr cpu.interrupts then take_pending cpu else ok tt cpu

-- A level above 7 is an error.
unfoldable pub request_interrupt : ℕ → Option ℕ → Run (Unit {0})
unfolding Interrupts.request
request_interrupt level vector cpu = elim (Interrupts.request level vector cpu.interrupts) [
  | none ↦ err failed cpu
  | some ic ↦ ok tt (record cpu { interrupts = ic })
]

unfoldable pub read_exception_stack_frame :
    ℕ → ExceptionStackFrameFormat → M Bus ExceptionStackFrame
unfolding Bus.read
read_exception_stack_frame sp group12 = do
  sr ← Bus.read word sp
  pc ← Bus.read long (add32 sp 2)
  pure (record {
    format = group12;
    stack_pointer = bit_and sp 0xff_ffff;
    status_word = 0;
    fault_address = 0;
    instruction_register = 0;
    sr = u16 sr;
    pc = pc;
  })
read_exception_stack_frame sp group0 = do
  status_word ← Bus.read word sp
  fault_address ← Bus.read long (add32 sp 2)
  ir ← Bus.read word (add32 sp 6)
  sr ← Bus.read word (add32 sp 8)
  pc ← Bus.read long (add32 sp 10)
  pure (record {
    format = group0;
    stack_pointer = bit_and sp 0xff_ffff;
    status_word = u16 status_word;
    fault_address = fault_address;
    instruction_register = u16 ir;
    sr = u16 sr;
    pc = pc;
  })

-- `none` if no exception has been taken.
unfoldable pub current_exception_frame : Run (Option ExceptionStackFrame)
unfolding read_exception_stack_frame on_bus
current_exception_frame cpu = elim cpu.last_exception [
  | none ↦ ok none cpu
  | some info ↦
      (do
        frame ← on_bus (read_exception_stack_frame info.stack_pointer info.frame.format)
        pure (some frame))
        cpu
]

abbrev pub no_fault : FaultInfo
no_fault = record {
  address = 0;
  pc = 0;
  ir = 0;
  function_code = 0;
  write = false;
  not_instruction = false;
  valid = false;
}

abbrev pub refresh_debug_modes : Cpu → Cpu
refresh_debug_modes cpu =
    let with_history = if ltb 0 cpu.history.limit then true else false in
    record cpu {
      trace_instructions = if cpu.has_trap then true else with_history;
      trace_bus =
          if cpu.has_bus_trap then true else if with_history then true else cpu.collect_step_bus;
    }

unfoldable clear_registers : Cpu → Cpu
unfolding Interrupts.reset
clear_registers cpu = record cpu {
  regs = record { d = λ _. 0; a = λ _. 0; pc = 0; sr = 0x2700; ssp = 0; usp = 0; ir = 0 };
  interrupts = Interrupts.reset cpu.interrupts;
  stopped = false;
}

abbrev clear_debug_state : Cpu → Cpu
clear_debug_state cpu = record cpu {
  cycles = 0;
  fault = no_fault;
  in_exception = false;
  last_exception = none;
  step_exception = none;
  last_interrupt = none;
  step_interrupt = none;
  last_opcode_pc = none;
  current_opcode_pc = none;
  trace_bytes = [];
  step_bus_accesses = [];
  history = record (cpu.history) { next = 0; count = 0 };
}

-- The two vectors are read from the bus itself. The scheduler starts anew.
unfoldable pub reset : Run (Unit {0})
unfolding on_bus Bus.read Interrupts.reset clear_registers
reset = do
  modify clear_registers
  ssp ← on_bus (Bus.read long 0)
  modify (set_a 7 ssp)
  modify (set_regs (λ r. record r { ssp = ssp }))
  pc ← on_bus (Bus.read long 4)
  modify (set_pc pc)
  modify clear_debug_state
  modify refresh_debug_modes
  modify (λ cpu. record cpu { scheduler = Option.map (λ _. []) cpu.scheduler })
