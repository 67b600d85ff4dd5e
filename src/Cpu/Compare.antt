-- ===== src/Cpu/Compare.antt =====
-- CMP, CMPA, CMPI and CMPM: op_arithmetic.go.
use m68kemu.Base.{ℕ, bit_and, if◌then◌else◌, add32, sext16}
use m68kemu.Operand.{Size, long, mask, is_word, operand_size_from_opcode, address_register_step}
use m68kemu.Status.{status_mask_nzvc, replace_status_flags}
use m68kemu.Effect.{◌>>=◌, ◌>>◌, gets, modify}
use m68kemu.Alu.Add.{sub_with_flags}
use m68kemu.Decode.Fields.{field_x, field_y}
use m68kemu.Decode.Cycles.{cmpa_operand_size}
use m68kemu.Cpu.State.{Cpu, Run}
use m68kemu.Cpu.Access
use m68kemu.Cpu.Stream.{set_a}
use m68kemu.Cpu.Ea
use m68kemu.Cpu.Ea.{
  Modifier, resolve_src_ea, resolve_src_ea2, resolve_dst_ea, computed_address, merge_low, ix68000,
}
use m68kemu.Cpu.Arithmetic.{flags, dx, immediate_operand}
use m68kemu.Cpu.Arithmetic.{ax}

-- A comparison keeps X.
unfoldable compare : ℕ → ℕ → Size → Run (Unit {0})
unfolding replace_status_flags sub_with_flags flags
compare src dst size = flags status_mask_nzvc (sub_with_flags src dst size).1

unfoldable pub cmp_instruction : Run (Unit {0})
unfolding operand_size_from_opcode resolve_src_ea Ea.read replace_status_flags sub_with_flags
    compare
cmp_instruction = do
  size ← gets (λ cpu. operand_size_from_opcode cpu.regs.ir)
  src ← resolve_src_ea size
  src_val ← Ea.read src
  dst ← gets dx
  compare src_val (bit_and dst (mask size)) size

unfoldable pub cmpa : Run (Unit {0})
unfolding cmpa_operand_size resolve_src_ea Ea.read replace_status_flags sub_with_flags compare
cmpa = do
  size ← gets (λ cpu. cmpa_operand_size cpu.regs.ir)
  src ← resolve_src_ea size
  src_val ← Ea.read src
  dst ← gets ax
  compare (if is_word size then sext16 src_val else src_val) dst long

unfoldable pub cmpi : Run (Unit {0})
unfolding operand_size_from_opcode immediate_operand resolve_src_ea Ea.read replace_status_flags
    sub_with_flags compare
cmpi = do
  size ← gets (λ cpu. operand_size_from_opcode cpu.regs.ir)
  src_val ← immediate_operand size
  dst ← resolve_src_ea size
  dst_val ← Ea.read dst
  compare src_val dst_val size

unfoldable step_register : ℕ → Size → Cpu → Cpu
unfolding address_register_step
step_register r size cpu = set_a r (add32 (cpu.regs.a r) (address_register_step r size)) cpu

-- Both addresses are taken before either register is stepped.
unfoldable pub cmpm : Run (Unit {0})
unfolding operand_size_from_opcode Access.read address_register_step replace_status_flags
    sub_with_flags compare step_register
cmpm = do
  ir ← gets (λ cpu. cpu.regs.ir)
  let size = operand_size_from_opcode ir
  src_addr ← gets (λ cpu. cpu.regs.a (field_y ir))
  dst_addr ← gets (λ cpu. cpu.regs.a (field_x ir))
  src_val ← Access.read size src_addr
  dst_val ← Access.read size dst_addr
  modify (step_register (field_y ir) size)
  modify (step_register (field_x ir) size)
  compare src_val dst_val size
