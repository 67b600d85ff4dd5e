-- ===== src/Cpu/Inspect.antt =====
-- What the embedding program reads of a processor, and NewCPU.
use m68kemu.Base.{ℕ, ◌&&◌, Bool, false, not, Option, none, some, [], if◌then◌else◌}
use m68kemu.Effect.{Result}
use m68kemu.Interrupts.{new_interrupt_controller}
use m68kemu.Memory.Bus
use m68kemu.Memory.Bus.{Bus}
use m68kemu.Cpu.State.{
  Cpu, Registers, FaultInfo, ExceptionInfo, InterruptInfo, HistoryEntry, instruction,
}
use m68kemu.Cpu.Debug.{interrupt_mask}
use m68kemu.Cpu.Group0
use m68kemu.Cpu.Group0.{no_fault}

pub record DebugFaultInfo : Type 0 where
  pub address : ℕ
  pub pc : ℕ
  pub opcode : ℕ
  pub function_code : ℕ
  pub write : Bool
  pub instruction_fetch : Bool
  pub valid : Bool

-- A value with its Has flag is an option.
pub record DebugState : Type 0 where
  pub registers : Registers
  pub in_exception : Bool
  pub interrupt_mask : ℕ
  pub last_fault : DebugFaultInfo
  pub last_exception : Option ExceptionInfo
  pub last_interrupt : Option InterruptInfo

unfoldable pub snapshot : FaultInfo → DebugFaultInfo
snapshot f = record {
  address = f.address;
  pc = f.pc;
  opcode = f.ir;
  function_code = f.function_code;
  write = f.write;
  instruction_fetch = not f.not_instruction && not f.write;
  valid = f.valid;
}

unfoldable pub debug_state : Cpu → DebugState
unfolding snapshot interrupt_mask
debug_state cpu = record {
  registers = cpu.regs;
  in_exception = cpu.in_exception;
  interrupt_mask = interrupt_mask cpu;
  last_fault = snapshot cpu.fault;
  last_exception = cpu.last_exception;
  last_interrupt = cpu.last_interrupt;
}

unfoldable pub registers : Cpu → Registers
registers cpu = cpu.regs

unfoldable pub cycle_count : Cpu → ℕ
cycle_count cpu = cpu.cycles

-- A scheduler that is set starts at the cycles of the processor: no call of Advance yet.
unfoldable pub set_scheduler : Bool → Cpu → Cpu
set_scheduler set cpu = record cpu { scheduler = if set then some [] else none }

unfoldable pub has_scheduler : Cpu → Bool
has_scheduler cpu = Bus.is_some cpu.scheduler

abbrev no_registers : Registers
no_registers = record { d = λ _. 0; a = λ _. 0; pc = 0; sr = 0; ssp = 0; usp = 0; ir = 0 }

abbrev no_entry : HistoryEntry
no_entry = instruction (record {
  pc = 0;
  registers = no_registers;
  before_registers = no_registers;
  opcode = 0;
  cycle_delta = 0;
  cycles = 0;
})

-- The zero value of the struct, with a bus whose wait hook counts the cycles.
unfoldable pub blank : Bus → Cpu
unfolding Bus.set_wait_hook new_interrupt_controller
blank b = record {
  regs = no_registers;
  cycles = 0;
  bus = Bus.set_wait_hook b;
  has_trap = false;
  has_pre_trap = false;
  has_exception_trap = false;
  has_bus_trap = false;
  has_interrupt_trap = false;
  hooks = [];
  scheduler = none;
  interrupts = new_interrupt_controller;
  stopped = false;
  fault = no_fault;
  in_exception = false;
  last_exception = none;
  step_exception = none;
  last_interrupt = none;
  step_interrupt = none;
  last_opcode_pc = none;
  current_opcode_pc = none;
  collect_step_bus = false;
  trace_instructions = false;
  trace_bus = false;
  trace_bytes = [];
  step_bus_accesses = [];
  breakpoints = none;
  history = record { limit = 0; slot = λ _. no_entry; next = 0; count = 0 };
}

-- NewCPU: the processor is reset, and its error is returned.
unfoldable pub new_cpu : Bus → Result Cpu (Unit {0})
unfolding blank Group0.reset
new_cpu b = Group0.reset (blank b)
