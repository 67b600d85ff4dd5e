-- ===== src/Cpu/Extend.antt =====
-- ADDX, SUBX and NEGX: op_arithmetic.go.
use m68kemu.Base.{ℕ, bit_and, Bool, ◌==◌, ◌!=◌, sub32, ◌>>>◌}
use m68kemu.Operand.{Size, operand_size_from_opcode, address_register_step}
use m68kemu.Status.{sr_zero, sr_extend, status_mask_nzvcx, replace_status_flags}
use m68kemu.Effect.{◌>>=◌, ◌>>◌, pure, gets, modify, choose}
use m68kemu.Decode.Fields.{field_x, field_y}
use m68kemu.Cpu.State.{Cpu, Run}
use m68kemu.Cpu.Access
use m68kemu.Cpu.Stream.{set_a}
use m68kemu.Cpu.Ea
use m68kemu.Cpu.Ea.{
  Modifier, resolve_src_ea, resolve_src_ea2, resolve_dst_ea, computed_address, merge_low, ix68000,
}
use m68kemu.Cpu.Arithmetic.{flags}
use m68kemu.Alu.Extend.{add_with_extend, sub_with_extend, update_extend_zero_flag}

-- The two operands: their values, and where the result goes.
pub record ExtendOperands : Type 0 where
  pub src : ℕ
  pub dst : ℕ
  pub target : Modifier

unfoldable pub step_down : ℕ → Size → Cpu → Cpu
unfolding address_register_step
step_down r size cpu = set_a r (sub32 (cpu.regs.a r) (address_register_step r size)) cpu

-- Registers if bit 3 of the opcode is clear, else two pre-decremented addresses. Both addresses
-- are computed before a register is changed, so for one register the second is not a step below
-- the first.
unfoldable pub extend_operands : Size → Run ExtendOperands
unfolding address_register_step Access.read
extend_operands size = do
  ir ← gets (λ cpu. cpu.regs.ir)
  let sr = field_y ir
  let dr = field_x ir
  choose (bit_and (ir >>> 3) 1 == 0)
      (gets (λ cpu. record {
        src = cpu.regs.d sr;
        dst = cpu.regs.d dr;
        target = Modifier.data_register dr size;
      }))
      (do
        src_addr ← gets (λ cpu. sub32 (cpu.regs.a sr) (address_register_step sr size))
        dst_addr ← gets (λ cpu. sub32 (cpu.regs.a dr) (address_register_step dr size))
        modify (set_a sr src_addr)
        modify (set_a dr dst_addr)
        src_val ← Access.read size src_addr
        dst_val ← Access.read size dst_addr
        pure (record { src = src_val; dst = dst_val; target = Modifier.memory size dst_addr }))

abbrev has_flag : ℕ → Cpu → Bool
has_flag f cpu = bit_and cpu.regs.sr f != 0

-- The end that the three share: the result is written, and Z is only ever cleared.
unfoldable finish : (ℕ × ℕ) → Size → Modifier → Bool → Run (Unit {0})
unfolding Ea.write update_extend_zero_flag replace_status_flags flags
finish (result, f) size target prev_zero = do
  Ea.write target result
  flags status_mask_nzvcx (update_extend_zero_flag f size result prev_zero)

unfoldable pub addx : Run (Unit {0})
unfolding operand_size_from_opcode extend_operands add_with_extend Ea.write update_extend_zero_flag
    replace_status_flags finish
addx = do
  size ← gets (λ cpu. operand_size_from_opcode cpu.regs.ir)
  ops ← extend_operands size
  prev_zero ← gets (has_flag sr_zero)
  extend ← gets (has_flag sr_extend)
  finish (add_with_extend ops.src ops.dst size extend) size ops.target prev_zero

unfoldable pub subx : Run (Unit {0})
unfolding operand_size_from_opcode extend_operands sub_with_extend Ea.write update_extend_zero_flag
    replace_status_flags finish
subx = do
  size ← gets (λ cpu. operand_size_from_opcode cpu.regs.ir)
  ops ← extend_operands size
  prev_zero ← gets (has_flag sr_zero)
  extend ← gets (has_flag sr_extend)
  finish (sub_with_extend ops.src ops.dst size extend) size ops.target prev_zero

unfoldable pub negx : Run (Unit {0})
unfolding operand_size_from_opcode resolve_src_ea Ea.read sub_with_extend Ea.write
    update_extend_zero_flag replace_status_flags finish
negx = do
  size ← gets (λ cpu. operand_size_from_opcode cpu.regs.ir)
  operand ← resolve_src_ea size
  value ← Ea.read operand
  prev_zero ← gets (has_flag sr_zero)
  extend ← gets (has_flag sr_extend)
  finish (sub_with_extend value 0 size extend) size operand prev_zero
