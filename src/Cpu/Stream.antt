-- ===== src/Cpu/Stream.antt =====
-- The instruction stream and the stack of cpu.go.
pub mod Plain
pub mod Fetch
use m68kemu.Base.{
  ℕ, bit_and, Bool, true, false, none, some, ◌&&◌, ◌||◌, ◌!=◌, ltb, leb, if◌then◌else◌, add32,
  sub32, u16, update,
}
use m68kemu.Operand.{Size, byte, word, long, bytes}
use m68kemu.Effect.{◌>>=◌, ◌>>◌, pure, gets, modify, ok, err, Error, address_error, bus_error}
use m68kemu.Memory.Ram
use m68kemu.Memory.Ram.{Ram}
use m68kemu.Memory.Bus.{fast_ram}
use m68kemu.Cpu.State.{Cpu, Run, set_regs, set_pc}
use m68kemu.Cpu.Debug.{
  program_function_code, context, fault_address, record_fault, trace_bus_access,
  should_trace_bus_access,
}
use m68kemu.Cpu.Access.{
  Fast, skip, hit, miss, fast_of, read_program, read, write, write_system_data,
}

-- readProgramFastWord and readProgramFastLong at the RAM, before the tracing. Here the alignment is
-- tested first.
unfoldable pub program_ram_read : Size → ℕ → Ram → Fast ℕ
unfolding Ram.get_bytes
program_ram_read size address r =
    if bit_and address 1 != 0
    then miss (address_error address)
    else if ltb address r.offset
    then miss (bus_error address)
    else (let idx = sub32 address r.offset in
        if leb r.size (add32 idx 1)
        then miss (bus_error address)
        else if is_long size && leb r.size (add32 idx 3)
        then miss (bus_error (bit_and (add32 address 2) 0xff_ffff))
        else fast_of (Ram.get_bytes size idx r))
  where
    is_long : Size → Bool
    is_long long = true
    is_long _ = false

unfoldable pub read_program_fast : Size → ℕ → Cpu → Fast ℕ
unfolding program_ram_read fast_ram
read_program_fast size address cpu = elim cpu.breakpoints [
  | some f ↦ skip
  | none ↦ elim (fast_ram cpu.bus) [
    | none ↦ skip
    | some r ↦ program_ram_read size (bit_and address 0xff_ffff) r
  ]
]

-- The report to the bus tracer that the fast path makes.
unfoldable pub trace_program : Size → ℕ → ℕ → Cpu → Cpu
unfolding program_function_code should_trace_bus_access trace_bus_access
trace_program size address value cpu =
    let ctx = context (program_function_code cpu) false false in
    if (cpu.trace_instructions || cpu.trace_bus) && should_trace_bus_access ctx cpu
    then trace_bus_access size (bit_and address 0xff_ffff) value ctx cpu
    else cpu

unfoldable pub record_program_fault : ℕ → Error → Cpu → Cpu
unfolding record_fault fault_address program_function_code
record_program_fault address e cpu =
    record_fault (fault_address address e) (context (program_function_code cpu) false false) cpu

-- A word or long at the PC, by the fast path or the bus; the PC stays.
unfoldable pub read_at_pc : Size → Run ℕ
unfolding read_program_fast trace_program record_program_fault read_program
read_at_pc size cpu = elim (read_program_fast size cpu.regs.pc cpu) [
  | hit v ↦ ok v (trace_program size cpu.regs.pc v cpu)
  | miss e ↦ err e (record_program_fault cpu.regs.pc e cpu)
  | skip ↦ read_program size cpu.regs.pc cpu
]

abbrev pub advance_pc : ℕ → Cpu → Cpu
advance_pc n cpu = set_pc (add32 cpu.regs.pc n) cpu

-- `if PC&1 != 0 { PC++ }`
abbrev pub make_even : Cpu → Cpu
make_even cpu = if bit_and cpu.regs.pc 1 != 0 then advance_pc 1 cpu else cpu

-- The bytes of a size other than word and long have no fast path.
unfoldable pub pop_pc : Size → Run ℕ
unfolding read_at_pc read_program
pop_pc byte = do
  v ← λ cpu. read_program byte cpu.regs.pc cpu
  modify (advance_pc 1)
  modify make_even
  pure v
pop_pc size = do v ← read_at_pc size; modify (advance_pc (bytes size)); modify make_even; pure v

unfoldable pub remember_opcode_pc : ℕ → Cpu → Cpu
remember_opcode_pc pc cpu = record cpu { last_opcode_pc = some pc }

unfoldable pub fetch_opcode : Run ℕ
unfolding read_at_pc remember_opcode_pc
fetch_opcode = do
  fetch_pc ← gets (λ cpu. cpu.regs.pc)
  opcode ← read_at_pc word
  modify (remember_opcode_pc fetch_pc)
  modify (advance_pc 2)
  pure (u16 opcode)

abbrev pub set_a : ℕ → ℕ → Cpu → Cpu
set_a i v cpu = set_regs (λ r. record r { a = update r.a i v }) cpu

abbrev pub set_d : ℕ → ℕ → Cpu → Cpu
set_d i v cpu = set_regs (λ r. record r { d = update r.d i v }) cpu

unfoldable pub push : Size → ℕ → Run (Unit {0})
unfolding write
push s value = do
  modify (λ cpu. set_a 7 (sub32 (cpu.regs.a 7) (bytes s)) cpu)
  λ cpu. write s (cpu.regs.a 7) value cpu

unfoldable pub push_exception : Size → ℕ → Run (Unit {0})
unfolding write_system_data
push_exception s value = do
  modify (λ cpu. set_a 7 (sub32 (cpu.regs.a 7) (bytes s)) cpu)
  λ cpu. write_system_data s (cpu.regs.a 7) value cpu

unfoldable pub pop : Size → Run ℕ
unfolding read
pop s = do
  res ← λ cpu. read s (cpu.regs.a 7) cpu
  modify (λ cpu. set_a 7 (add32 (cpu.regs.a 7) (bytes s)) cpu)
  pure res
