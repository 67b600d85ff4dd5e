-- ===== src/Cpu/Logical.antt =====
-- AND, OR, EOR, their immediate forms, NOT, and the bit instructions: op_bit_logical.go.
use m68kemu.Base.{
  ℕ, bit_and, bit_or, bit_xor, ◌==◌, ◌!=◌, leb, if◌then◌else◌, not32, not16, ◌<<<◌, ◌>>>◌,
}
use m68kemu.Operand.{byte, word, long, mask, operand_size_from_opmode, operand_size_from_opcode}
use m68kemu.Status.{sr_zero, update_nz_clear_vc}
use m68kemu.Effect.{◌>>=◌, ◌>>◌, pure, gets, modify, when, choose, indexed}
use m68kemu.Decode.Fields.{field_x, field_y, mode_of}
use m68kemu.Cpu.State.{Cpu, Run, set_sr_field}
use m68kemu.Cpu.Stream.{pop_pc, set_d}
use m68kemu.Cpu.Ea
use m68kemu.Cpu.Ea.{
  Modifier, resolve_src_ea, resolve_src_ea2, resolve_dst_ea, computed_address, merge_low, ix68000,
}
use m68kemu.Cpu.Arithmetic.{opmode_of, dx, immediate_operand, nz}

-- A bitwise operation on two uint32 values.
abbrev Operation : Type 0
Operation = ℕ → ℕ → ℕ

-- The body that andInstruction and orInstruction share.
unfoldable pub and_or_or : Operation → Run (Unit {0})
unfolding operand_size_from_opmode resolve_src_ea Ea.read Ea.write update_nz_clear_vc nz
and_or_or op = do
  opmode ← gets opmode_of
  size ← indexed (operand_size_from_opmode opmode)
  choose (leb 4 opmode)
      (do
        dst ← resolve_src_ea size
        dst_val ← Ea.read dst
        src ← gets (λ cpu. bit_and (dx cpu) (mask size))
        let result = bit_and (op src dst_val) (mask size)
        Ea.write dst result
        nz result size)
      (do
        src ← resolve_src_ea size
        src_val ← Ea.read src
        dst ← gets dx
        let result = bit_and (op src_val (bit_and dst (mask size))) (mask size)
        modify (λ cpu.
            set_d (field_x cpu.regs.ir) (bit_or (bit_and dst (not32 (mask size))) result) cpu)
        nz result size)

unfoldable pub and_instruction : Run (Unit {0})
unfolding and_or_or
and_instruction = and_or_or bit_and

unfoldable pub or_instruction : Run (Unit {0})
unfolding and_or_or
or_instruction = and_or_or bit_or

unfoldable pub eor_instruction : Run (Unit {0})
unfolding operand_size_from_opcode resolve_src_ea Ea.read Ea.write update_nz_clear_vc nz
eor_instruction = do
  size ← gets (λ cpu. operand_size_from_opcode cpu.regs.ir)
  dst ← resolve_src_ea size
  dst_val ← Ea.read dst
  src ← gets (λ cpu. bit_and (dx cpu) (mask size))
  let result = bit_and (bit_xor src dst_val) (mask size)
  Ea.write dst result
  nz result size

unfoldable pub logical_immediate : Operation → Run (Unit {0})
unfolding operand_size_from_opcode immediate_operand resolve_src_ea Ea.read Ea.write
    update_nz_clear_vc nz
logical_immediate op = do
  size ← gets (λ cpu. operand_size_from_opcode cpu.regs.ir)
  src_val ← immediate_operand size
  dst ← resolve_src_ea size
  dst_val ← Ea.read dst
  let result = bit_and (op src_val dst_val) (mask size)
  Ea.write dst result
  nz result size

unfoldable pub ori_immediate : Run (Unit {0})
unfolding logical_immediate
ori_immediate = logical_immediate bit_or

unfoldable pub andi_immediate : Run (Unit {0})
unfolding logical_immediate
andi_immediate = logical_immediate bit_and

unfoldable pub eori_immediate : Run (Unit {0})
unfolding logical_immediate
eori_immediate = logical_immediate bit_xor

unfoldable pub not_instruction : Run (Unit {0})
unfolding operand_size_from_opcode resolve_src_ea Ea.read Ea.write update_nz_clear_vc nz
not_instruction = do
  size ← gets (λ cpu. operand_size_from_opcode cpu.regs.ir)
  dst ← resolve_src_ea size
  value ← Ea.read dst
  let result = bit_and (not32 value) (mask size)
  Ea.write dst result
  nz result size

-- BTST, BCHG, BCLR and BSET by the number 0 to 3.
unfoldable pub change_bit : ℕ → ℕ → ℕ → ℕ
change_bit op_type m value =
    if op_type == 1
    then bit_xor value m
    else if op_type == 2
    then bit_and value (not32 m)
    else if op_type == 3
    then bit_or value m
    else value

abbrev clear_zero : Cpu → Cpu
clear_zero cpu = set_sr_field (bit_and cpu.regs.sr (not16 sr_zero)) cpu

abbrev set_zero : Cpu → Cpu
set_zero cpu = set_sr_field (bit_or cpu.regs.sr sr_zero) cpu

abbrev op_type_of : ℕ → ℕ
op_type_of ir = bit_and (bit_and (ir >>> 6) 0x7) 0x3

-- Z tells whether the bit was clear before. The operand is a long register, or a byte of memory.
unfoldable pub bit_operation : ℕ → Modifier → Run (Unit {0})
unfolding change_bit Ea.read Ea.write
bit_operation bit_number dst = do
  ir ← gets (λ cpu. cpu.regs.ir)
  modify clear_zero
  choose (mode_of ir == 0)
      (do
        let m = 1 <<< bit_and bit_number 31
        value ← gets (λ cpu. cpu.regs.d (field_y ir))
        modify (set_d (field_y ir) (change_bit (op_type_of ir) m value))
        when (bit_and value m == 0) (modify set_zero))
      (do
        value ← Ea.read dst
        let m = 1 <<< bit_and bit_number 7
        when (op_type_of ir != 0) (Ea.write dst (change_bit (op_type_of ir) m value))
        when (bit_and value m == 0) (modify set_zero))

-- The operand is resolved for a memory mode only; a data register needs none.
unfoldable bit_destination : Run Modifier
unfolding resolve_src_ea
bit_destination cpu =
    choose (mode_of cpu.regs.ir == 0) (pure (Modifier.data_register (field_y cpu.regs.ir) long))
      (resolve_src_ea byte) cpu

unfoldable pub bit_dynamic : Run (Unit {0})
unfolding resolve_src_ea bit_operation bit_destination
bit_dynamic = do number ← gets dx; dst ← bit_destination; bit_operation number dst

unfoldable pub bit_immediate : Run (Unit {0})
unfolding pop_pc resolve_src_ea bit_operation bit_destination
bit_immediate = do number ← pop_pc word; dst ← bit_destination; bit_operation number dst
