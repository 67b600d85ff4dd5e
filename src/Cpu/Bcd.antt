-- ===== src/Cpu/Bcd.antt =====
-- ABCD, SBCD and NBCD: op_arithmetic.go.
use m68kemu.Base.{
  ℕ, bit_and, bit_or, Bool, true, false, ◌&&◌, ◌==◌, ◌!=◌, if◌then◌else◌, sub32, not16, u8, ◌>>>◌,
}
use m68kemu.Operand.{byte, address_register_step}
use m68kemu.Status.{sr_zero, sr_extend}
use m68kemu.Effect.{◌>>=◌, ◌>>◌, pure, throw, gets, modify, choose, panicked}
use m68kemu.Decode.Fields.{field_x, field_y, mode_of}
use m68kemu.Cpu.State.{Cpu, Run, set_sr_field}
use m68kemu.Cpu.Access
use m68kemu.Cpu.Stream.{set_a}
use m68kemu.Cpu.Exception.{exception, x_illegal}
use m68kemu.Cpu.Ea
use m68kemu.Cpu.Ea.{
  Modifier, resolve_src_ea, resolve_src_ea2, resolve_dst_ea, computed_address, merge_low, ix68000,
}
use m68kemu.Alu.Bcd.{bcd_add, bcd_sub}

-- The values, and where the result goes: the low byte of a data register, or a byte of memory.
pub record BcdOperands : Type 0 where
  pub src : ℕ
  pub dst : ℕ
  pub target : Modifier

unfoldable pub bcd_operands : Run BcdOperands
unfolding address_register_step Access.read
bcd_operands = do
  ir ← gets (λ cpu. cpu.regs.ir)
  let sr = field_y ir
  let dr = field_x ir
  choose (bit_and (ir >>> 3) 1 == 0)
      (gets (λ cpu. record {
        src = u8 (bit_and (cpu.regs.d sr) 0xff);
        dst = u8 (bit_and (cpu.regs.d dr) 0xff);
        target = Modifier.data_register dr byte;
      }))
      (do
        src_addr ← gets (λ cpu. sub32 (cpu.regs.a sr) (address_register_step sr byte))
        dst_addr ← gets (λ cpu. sub32 (cpu.regs.a dr) (address_register_step dr byte))
        modify (set_a sr src_addr)
        modify (set_a dr dst_addr)
        src_val ← Access.read byte src_addr
        dst_val ← Access.read byte dst_addr
        pure
            (record { src = u8 src_val; dst = u8 dst_val; target = Modifier.memory byte dst_addr }))

-- The status register after updateBCDFlags.
unfoldable pub update_bcd_flags : ℕ → Bool → Bool → Bool → ℕ → ℕ
update_bcd_flags result carry prev_zero propagate_zero sr =
    let s1 = bit_and sr (not16 0x000b) in
    let s2 = if carry then bit_or s1 0x0011 else bit_and s1 (not16 sr_extend) in
    let zero = if propagate_zero then (result == 0) && prev_zero else result == 0 in
    if zero then bit_or s2 sr_zero else bit_and s2 (not16 sr_zero)

abbrev has_flag : ℕ → Cpu → Bool
has_flag f cpu = bit_and cpu.regs.sr f != 0

unfoldable finish : ℕ × Bool → Modifier → Bool → Bool → Run (Unit {0})
unfolding Ea.write update_bcd_flags
finish (result, carry) target prev_zero propagate_zero = do
  Ea.write target result
  modify
      (λ cpu. set_sr_field (update_bcd_flags result carry prev_zero propagate_zero cpu.regs.sr) cpu)

unfoldable pub abcd : Run (Unit {0})
unfolding bcd_operands bcd_add Ea.write update_bcd_flags finish
abcd = do
  ops ← bcd_operands
  prev_zero ← gets (has_flag sr_zero)
  extend ← gets (has_flag sr_extend)
  finish (bcd_add ops.src ops.dst extend) ops.target prev_zero true

unfoldable pub sbcd : Run (Unit {0})
unfolding bcd_operands bcd_sub Ea.write update_bcd_flags finish
sbcd = do
  ops ← bcd_operands
  prev_zero ← gets (has_flag sr_zero)
  extend ← gets (has_flag sr_extend)
  finish (bcd_sub ops.src ops.dst extend) ops.target prev_zero true

-- A mode other than 0 and 4 raises an illegal-instruction exception and, if that goes well, goes on
-- with the zero value of the operand, whose write function is nil: a panic.
unfoldable pub bcd_destination : Run (ℕ × Modifier)
unfolding address_register_step Access.read exception
bcd_destination = do
  ir ← gets (λ cpu. cpu.regs.ir)
  let r = field_y ir
  choose (mode_of ir == 0)
      (gets (λ cpu. (u8 (bit_and (cpu.regs.d r) 0xff), Modifier.data_register r byte)))
      (choose (mode_of ir != 4) (do exception x_illegal; throw panicked)
        (do
          addr ← gets (λ cpu. sub32 (cpu.regs.a r) (address_register_step r byte))
          modify (set_a r addr)
          value ← Access.read byte addr
          pure (u8 value, Modifier.memory byte addr)))

unfoldable pub nbcd : Run (Unit {0})
unfolding bcd_destination bcd_sub Ea.write update_bcd_flags finish
nbcd = do
  (value, target) ← bcd_destination
  prev_zero ← gets (has_flag sr_zero)
  extend ← gets (has_flag sr_extend)
  finish (bcd_sub value 0 extend) target prev_zero false
