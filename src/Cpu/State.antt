-- ===== src/Cpu/State.antt =====
-- The state of the processor in cpu.go, and what its debug interface records.
use m68kemu.Base.{ℕ, Bool, Option, List}
use m68kemu.Operand.{Size}
use m68kemu.Effect.{M, Error, BreakpointType}
use m68kemu.Memory.Bus.{Bus}
use m68kemu.Interrupts.{InterruptController}
use m68kemu.Cpu.History.{Ring}

-- The arrays D and A are functions of a register number below 8. A data register is its bit
-- pattern, also where Go has an int32.
pub record Registers : Type 0 where
  pub d : ℕ → ℕ
  pub a : ℕ → ℕ
  pub pc : ℕ
  pub sr : ℕ
  pub ssp : ℕ
  pub usp : ℕ
  pub ir : ℕ

pub record FaultInfo : Type 0 where
  pub address : ℕ
  pub pc : ℕ
  pub ir : ℕ
  pub function_code : ℕ
  pub write : Bool
  pub not_instruction : Bool
  pub valid : Bool

pub record AccessContext : Type 0 where
  pub function_code : ℕ
  pub not_instruction : Bool
  pub write : Bool

pub data ExceptionStackFrameFormat : Type 0 where
  group12 group0 : ExceptionStackFrameFormat

pub record ExceptionStackFrame : Type 0 where
  pub format : ExceptionStackFrameFormat
  pub stack_pointer : ℕ
  pub status_word : ℕ
  pub fault_address : ℕ
  pub instruction_register : ℕ
  pub sr : ℕ
  pub pc : ℕ

-- FrameValid is true in every value that the code makes.
pub record ExceptionInfo : Type 0 where
  pub vector : ℕ
  pub pc : ℕ
  pub new_pc : ℕ
  pub opcode : ℕ
  pub opcode_address : ℕ
  pub fault_address : ℕ
  pub fault_valid : Bool
  pub sr : ℕ
  pub new_sr : ℕ
  pub stack_pointer : ℕ
  pub frame : ExceptionStackFrame
  pub interrupt_mask : ℕ
  pub is_group0 : Bool

pub record InterruptInfo : Type 0 where
  pub level : ℕ
  pub vector : ℕ
  pub auto_vector : Bool
  pub pc : ℕ
  pub new_pc : ℕ
  pub sr : ℕ
  pub new_sr : ℕ

pub record BusAccessInfo : Type 0 where
  pub address : ℕ
  pub size : Size
  pub value : ℕ
  pub write : Bool
  pub instruction_fetch : Bool
  pub pc : ℕ

-- TraceInfo and PreTraceInfo without the bytes and the mnemonic, which the disassembler supplies.
pub record TraceInfo : Type 0 where
  pub pc : ℕ
  pub registers : Registers
  pub before_registers : Registers
  pub opcode : ℕ
  pub cycle_delta : ℕ
  pub cycles : ℕ

pub record PreTraceInfo : Type 0 where
  pub pc : ℕ
  pub registers : Registers
  pub opcode : ℕ
  pub cycles : ℕ

pub data HistoryEntry : Type 0 where
  instruction : TraceInfo → HistoryEntry
  exception : ExceptionInfo → HistoryEntry
  interrupt : InterruptInfo → HistoryEntry
  bus_access : BusAccessInfo → HistoryEntry

-- The calls of the callbacks that the embedding program has set.
pub data HookCall : Type 0 where
  traced : TraceInfo → HookCall
  pre_traced : PreTraceInfo → HookCall
  exception_traced : ExceptionInfo → HookCall
  bus_traced : BusAccessInfo → HookCall
  interrupt_traced : InterruptInfo → HookCall

pub record BreakpointEvent : Type 0 where
  pub kind : BreakpointType
  pub address : ℕ
  pub registers : Registers

pub record Breakpoint : Type 0 where
  pub address : ℕ
  pub on_execute : Bool
  pub on_read : Bool
  pub on_write : Bool
  pub halt : Bool
  pub callback : Option (BreakpointEvent → Option Error)

-- A value with its Valid flag is an option. `bus` is a *Bus, so that busFast is set. `hooks` lists
-- the calls of callbacks, the latest first, and `scheduler` the calls of Advance since the last
-- Reset of the scheduler, if one is attached. A `none` among the breakpoints is the nil map.
pub record Cpu : Type 0 where
  pub regs : Registers
  pub cycles : ℕ
  pub bus : Bus
  pub has_trap : Bool
  pub has_pre_trap : Bool
  pub has_exception_trap : Bool
  pub has_bus_trap : Bool
  pub has_interrupt_trap : Bool
  pub hooks : List HookCall
  pub scheduler : Option (List ℕ)
  pub interrupts : InterruptController
  pub stopped : Bool
  pub fault : FaultInfo
  pub in_exception : Bool
  pub last_exception : Option ExceptionInfo
  pub step_exception : Option ExceptionInfo
  pub last_interrupt : Option InterruptInfo
  pub step_interrupt : Option InterruptInfo
  pub last_opcode_pc : Option ℕ
  pub current_opcode_pc : Option ℕ
  pub collect_step_bus : Bool
  pub trace_instructions : Bool
  pub trace_bus : Bool
  pub trace_bytes : List ℕ
  pub step_bus_accesses : List BusAccessInfo
  pub breakpoints : Option (ℕ → Option Breakpoint)
  pub history : Ring HistoryEntry

abbrev pub Run : Type 0 → Type 0
Run A = M Cpu A

abbrev pub set_regs : (Registers → Registers) → Cpu → Cpu
set_regs f c = record c { regs = f c.regs }

abbrev pub set_pc : ℕ → Cpu → Cpu
set_pc v c = set_regs (λ r. record r { pc = v }) c

abbrev pub set_sr_field : ℕ → Cpu → Cpu
set_sr_field v c = set_regs (λ r. record r { sr = v }) c
