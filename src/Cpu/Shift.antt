-- ===== src/Cpu/Shift.antt =====
-- The shift and rotate instructions: op_bit_logical.go.
use m68kemu.Base.{
  ℕ, ◌-◌, ◌*◌, bit_and, bit_or, Bool, ◌==◌, ◌!=◌, leb, if◌then◌else◌, not32, not16, ◌<<<◌, ◌>>>◌,
}
use m68kemu.Operand.{Size, byte, word, long, bytes, mask}
use m68kemu.Status.{sr_carry, sr_overflow, sr_zero, sr_negative, sr_extend, set_if}
use m68kemu.Effect.{◌>>=◌, ◌>>◌, gets, modify, when, choose}
use m68kemu.Cpu.State.{Cpu, Run, set_sr_field}
use m68kemu.Cpu.Debug.{add_cycles}
use m68kemu.Cpu.Stream.{set_d}
use m68kemu.Cpu.Ea
use m68kemu.Cpu.Ea.{
  Modifier, resolve_src_ea, resolve_src_ea2, resolve_dst_ea, computed_address, merge_low, ix68000,
}
use m68kemu.Alu.Shift.{ShiftRotateFlags, do_shift_rotate, width_mask}

-- `sr &^= flag; if c { sr |= flag }`
abbrev put_flag : Bool → ℕ → ℕ → ℕ
put_flag c flag sr = set_if c flag (bit_and sr (not16 flag))

-- The status register after updateShiftRotateFlags.
unfoldable pub update_shift_rotate_flags : ℕ → ℕ → ShiftRotateFlags → ℕ → ℕ
update_shift_rotate_flags result width f sr =
    let r = bit_and result (width_mask width) in
    let s1 = bit_and sr (not16 0x000e) in
    let s2 = set_if (r == 0) sr_zero s1 in
    let s3 = set_if (bit_and r (1 <<< (width - 1)) != 0) sr_negative s2 in
    let s4 = if f.change_carry then put_flag (f.carry_out != 0) sr_carry s3 else s3 in
    let s5 = if f.change_extend then put_flag f.extend_out sr_extend s4 else s4 in
    set_if f.overflow sr_overflow s5

abbrev has_extend : Cpu → Bool
has_extend cpu = bit_and cpu.regs.sr sr_extend != 0

unfoldable update_flags : ℕ → ℕ → ShiftRotateFlags → Run (Unit {0})
unfolding update_shift_rotate_flags
update_flags result width f =
    modify (λ cpu. set_sr_field (update_shift_rotate_flags result width f cpu.regs.sr) cpu)

unfoldable pub shift_rotate_memory : Run (Unit {0})
unfolding resolve_src_ea Ea.read Ea.write do_shift_rotate update_shift_rotate_flags update_flags
shift_rotate_memory = do
  opcode ← gets (λ cpu. cpu.regs.ir)
  let operation = bit_and (opcode >>> 9) 0x3
  let left = bit_and (opcode >>> 8) 0x1 != 0
  ea ← resolve_src_ea word
  val ← Ea.read ea
  extend ← gets has_extend
  let (result, f) = do_shift_rotate val 1 16 operation left extend
  Ea.write ea result
  update_flags result 16 f

-- The size field 3 goes to the memory form before.
abbrev size_of_field : ℕ → Size
size_of_field field = if field == 0 then byte else if field == 1 then word else long

-- The count of a register form is at most 63 and takes two cycles for each place.
unfoldable pub shift_rotate_register : Run (Unit {0})
unfolding add_cycles do_shift_rotate update_shift_rotate_flags update_flags
shift_rotate_register = do
  opcode ← gets (λ cpu. cpu.regs.ir)
  let count_field = bit_and (opcode >>> 9) 0x7
  let left = bit_and (opcode >>> 8) 0x1 == 1
  let field = bit_and (opcode >>> 3) 0x7
  let register_count = leb 4 field
  let operation = if register_count then field - 4 else field
  let register = bit_and opcode 0x7
  let size = size_of_field (bit_and (opcode >>> 6) 0x3)
  in_register ← gets (λ cpu. bit_and (cpu.regs.d count_field) 0x3f)
  let count = if register_count then in_register else if count_field == 0 then 8 else count_field
  when register_count (modify (add_cycles (count * 2)))
  old ← gets (λ cpu. cpu.regs.d register)
  extend ← gets has_extend
  let width = bytes size * 8
  let (result, f) = do_shift_rotate (bit_and old (mask size)) count width operation left extend
  modify (set_d register (bit_or (bit_and old (not32 (mask size))) result))
  update_flags result width f

unfoldable pub shift_rotate : Run (Unit {0})
unfolding shift_rotate_memory shift_rotate_register
shift_rotate cpu =
    choose (bit_and (cpu.regs.ir >>> 6) 0x3 == 3) shift_rotate_memory shift_rotate_register cpu
