-- ===== src/Cpu/Debug.antt =====
-- Cycle counting, faults, breakpoints and tracing in cpu.go.
pub mod Cycles
use m68kemu.Base.{
  ℕ, ◌+◌, ◌-◌, ◌%◌, bit_and, bit_or, Bool, true, not, Option, none, some, List, [], ◌∷◌, ◌++◌, ◌&&◌,
  ◌||◌, ◌==◌, ◌!=◌, leb, if◌then◌else◌, ◌>>>◌, u8,
}
use mathlib.Core.Option
use m68kemu.Operand.{Size, byte, word, long, mask}
use m68kemu.Status.{sr_supervisor, sr_interrupt_mask}
use m68kemu.Effect.{
  pure, throw, choose, Error, address_error, bus_error, breakpoint_hit, BreakpointType, on_execute,
  on_read, on_write, ok,
}
use m68kemu.Decode.Table.{opcode_cycle_table}
use m68kemu.Cpu.History
use m68kemu.Cpu.State.{
  Cpu, Run, FaultInfo, AccessContext, BusAccessInfo, ExceptionInfo, InterruptInfo, HistoryEntry,
  HookCall, exception, interrupt, bus_access, bus_traced, exception_traced, interrupt_traced,
  Breakpoint, BreakpointEvent,
}

-- Cycles are a uint64. The scheduler, if there is one, is told of every cycle added here.
unfoldable pub add_cycles : ℕ → Cpu → Cpu
add_cycles c cpu = record cpu {
  cycles = (cpu.cycles + c) % 0x1_0000_0000_0000_0000;
  scheduler = Option.map (λ calls. c ∷ calls) cpu.scheduler;
}

-- The static cycles of the current opcode are replaced by `total`; the scheduler is not told.
unfoldable pub override_instruction_cycles : ℕ → Cpu → Cpu
unfolding opcode_cycle_table
override_instruction_cycles total cpu =
    let current = opcode_cycle_table cpu.regs.ir in
    if leb current total
    then record cpu { cycles = (cpu.cycles + (total - current)) % 0x1_0000_0000_0000_0000 }
    else record cpu {
      cycles = (cpu.cycles + 0x1_0000_0000_0000_0000 - (current - total)) % 0x1_0000_0000_0000_0000;
    }

unfoldable pub is_supervisor : Cpu → Bool
is_supervisor cpu = bit_and cpu.regs.sr sr_supervisor != 0

unfoldable pub data_function_code : Cpu → ℕ
unfolding is_supervisor
data_function_code cpu = if is_supervisor cpu then 5 else 1

unfoldable pub program_function_code : Cpu → ℕ
unfolding is_supervisor
program_function_code cpu = if is_supervisor cpu then 6 else 2

unfoldable pub interrupt_mask : Cpu → ℕ
interrupt_mask cpu = u8 (bit_and cpu.regs.sr sr_interrupt_mask >>> 8)

abbrev pub context : ℕ → Bool → Bool → AccessContext
context code not_instruction write = record {
  function_code = code;
  not_instruction = not_instruction;
  write = write;
}

unfoldable pub instruction_fetch : AccessContext → Bool
instruction_fetch ctx =
    not ctx.not_instruction && not ctx.write && (ctx.function_code == 2 || ctx.function_code == 6)

unfoldable pub fault_address : ℕ → Error → ℕ
fault_address address (bus_error a) = a
fault_address address (address_error a) = a
fault_address address _ = address

unfoldable pub record_fault : ℕ → AccessContext → Cpu → Cpu
record_fault address ctx cpu = record cpu {
  fault = record {
    address = bit_and address 0xff_ffff;
    pc = cpu.regs.pc;
    ir = cpu.regs.ir;
    function_code = bit_and ctx.function_code 0x7;
    write = ctx.write;
    not_instruction = ctx.not_instruction;
    valid = true;
  };
}

-- The word of a bus or address error frame that describes the access.
unfoldable pub status_word : FaultInfo → ℕ
status_word f =
    bit_or (bit_or (if f.write then 0 else 0x10) (if f.not_instruction then 0x08 else 0))
      (bit_and f.function_code 0x7)

abbrev pub or_value {ℓ} : {A : Type ℓ} → Option A → A → A
or_value none d = d
or_value (some a) d = a

unfoldable pub current_opcode_address : ℕ → Cpu → ℕ
current_opcode_address fallback cpu = or_value cpu.current_opcode_pc (bit_and fallback 0xff_ffff)

unfoldable pub debug_pc : Cpu → ℕ
debug_pc cpu = elim cpu.current_opcode_pc [
  | some pc ↦ pc
  | none ↦ elim cpu.last_opcode_pc [
    | some pc ↦ bit_and pc 0xff_ffff
    | none ↦ bit_and cpu.regs.pc 0xff_ffff
  ]
]

-- A ring of length 0 is the nil slice.
unfoldable pub append_history : HistoryEntry → Cpu → Cpu
unfolding History.append
append_history entry cpu = record cpu { history = History.append entry cpu.history }

-- `if cb != nil { cb(info) }`
abbrev pub call_hook : Bool → HookCall → Cpu → Cpu
call_hook set call cpu = if set then record cpu { hooks = call ∷ cpu.hooks } else cpu

unfoldable pub append_trace_value : List ℕ → Size → ℕ → List ℕ
append_trace_value dst byte value = dst ++ u8 value ∷ []
append_trace_value dst word value = dst ++ u8 (value >>> 8) ∷ u8 value ∷ []
append_trace_value dst long value =
    dst ++ u8 (value >>> 24) ∷ u8 (value >>> 16) ∷ u8 (value >>> 8) ∷ u8 value ∷ []

unfoldable pub should_trace_bus_access : AccessContext → Cpu → Bool
unfolding instruction_fetch
should_trace_bus_access ctx cpu =
    if instruction_fetch ctx && not ctx.write && cpu.trace_instructions then true else cpu.trace_bus

unfoldable pub bus_access_info : Size → ℕ → ℕ → AccessContext → Cpu → BusAccessInfo
unfolding instruction_fetch debug_pc
bus_access_info size address value ctx cpu = record {
  address = bit_and address 0xff_ffff;
  size = size;
  value = bit_and value (mask size);
  write = ctx.write;
  instruction_fetch = instruction_fetch ctx;
  pc = debug_pc cpu;
}

unfoldable pub trace_bus_access : Size → ℕ → ℕ → AccessContext → Cpu → Cpu
unfolding instruction_fetch append_trace_value append_history debug_pc bus_access_info
trace_bus_access size address value ctx cpu =
    let info = bus_access_info size address value ctx cpu in
    let c1 =
      if instruction_fetch ctx && not ctx.write
      then record cpu { trace_bytes = append_trace_value cpu.trace_bytes size value }
      else cpu in
    let c2 =
      if c1.collect_step_bus
      then record c1 { step_bus_accesses = c1.step_bus_accesses ++ info ∷ [] }
      else c1 in
    let c3 = append_history (bus_access info) c2 in call_hook c3.has_bus_trap (bus_traced info) c3

-- What follows an access that went well.
unfoldable pub trace_if_wanted : Size → ℕ → ℕ → AccessContext → Cpu → Cpu
unfolding should_trace_bus_access trace_bus_access
trace_if_wanted size address value ctx cpu =
    if should_trace_bus_access ctx cpu then trace_bus_access size address value ctx cpu else cpu

unfoldable pub handle_breakpoint : Breakpoint → BreakpointType → ℕ → Run (Unit {0})
handle_breakpoint bp kind address cpu =
    let event : BreakpointEvent = record { kind = kind; address = address; registers = cpu.regs } in
    let halt = choose {S = Cpu} bp.halt (throw (breakpoint_hit address kind)) (pure tt) in
    elim bp.callback [
      | none ↦ halt cpu
      | some f ↦ elim (f event) [ none ↦ halt cpu | some e ↦ throw e cpu ]
    ]

abbrev pub watches : BreakpointType → Breakpoint → Bool
watches on_execute bp = bp.on_execute
watches on_read bp = bp.on_read
watches on_write bp = bp.on_write

abbrev pub breakpoint_at : Cpu → ℕ → Option Breakpoint
breakpoint_at cpu address = elim cpu.breakpoints [ none ↦ none | some f ↦ f address ]

-- checkExecuteBreakpoint and checkAccessBreakpoint.
unfoldable pub check_breakpoint : ℕ → BreakpointType → Run (Unit {0})
unfolding handle_breakpoint
check_breakpoint address kind cpu = elim (breakpoint_at cpu address) [
  | none ↦ ok tt cpu
  | some bp ↦ if watches kind bp then handle_breakpoint bp kind address cpu else ok tt cpu
]

unfoldable pub dispatch_exception : ExceptionInfo → Cpu → Cpu
unfolding append_history
dispatch_exception info cpu =
    let c1 = record cpu { last_exception = some info; step_exception = some info } in
    let c2 = append_history (exception info) c1 in
    call_hook c2.has_exception_trap (exception_traced info) c2

unfoldable pub dispatch_interrupt : InterruptInfo → Cpu → Cpu
unfolding append_history
dispatch_interrupt info cpu =
    let c1 = record cpu { last_interrupt = some info; step_interrupt = some info } in
    let c2 = append_history (interrupt info) c1 in
    call_hook c2.has_interrupt_trap (interrupt_traced info) c2

unfoldable pub begin_instruction_context : ℕ → Cpu → Cpu
begin_instruction_context pc cpu = record cpu { current_opcode_pc = some (bit_and pc 0xff_ffff) }

unfoldable pub end_instruction_context : Cpu → Cpu
end_instruction_context cpu = record cpu { current_opcode_pc = none }
