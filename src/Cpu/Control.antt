-- ===== src/Cpu/Control.antt =====
-- Branches, jumps and subroutines: op_control_flow.go.
pub mod Conditions
pub mod Link
pub mod Call
mod Tests
use m68kemu.Base.{
  ℕ, ◌+◌, bit_and, bit_or, Bool, true, false, not, ◌&&◌, ◌||◌, ◌==◌, ◌!=◌, ltb, if◌then◌else◌,
  add32, not32, u8, u16, sext8, sext16, ◌>>>◌,
}
use m68kemu.Operand.{byte, word, long}
use m68kemu.Status.{
  sr_carry, sr_overflow, sr_zero, sr_negative, status_mask_nzvc, replace_status_flags,
}
use m68kemu.Effect.{◌>>=◌, ◌>>◌, pure, gets, modify, when, choose}
use m68kemu.Decode.Fields.{field_y}
use m68kemu.Decode.Cycles.{plus_ea}
use m68kemu.Cpu.State.{Cpu, Run, set_regs, set_pc, set_sr_field}
use m68kemu.Cpu.Stream.{pop_pc, push, pop, set_a, set_d}
use m68kemu.Cpu.Exception.{exception_with_cycles, privileged}
use m68kemu.Cpu.Ea
use m68kemu.Cpu.Ea.{
  Modifier, resolve_src_ea, resolve_src_ea2, resolve_dst_ea, computed_address, merge_low, ix68000,
}
use m68kemu.Cpu.Arithmetic.{flags, dx}
use m68kemu.Cpu.Exception.{require_supervisor}

-- The flags N and V, moved to the same place, are equal.
abbrev same_nv : ℕ → Bool
same_nv sr = (bit_and sr sr_negative >>> 3) == (bit_and sr sr_overflow >>> 1)

unfoldable pub condition_true : ℕ → ℕ → Bool
condition_true sr cond =
    if cond == 0x0
    then true
    else if cond == 0x1
    then false
    else if cond == 0x2
    then bit_and sr (bit_or sr_carry sr_zero) == 0
    else if cond == 0x3
    then bit_and sr (bit_or sr_carry sr_zero) != 0
    else if cond == 0x4
    then bit_and sr sr_carry == 0
    else if cond == 0x5
    then bit_and sr sr_carry != 0
    else if cond == 0x6
    then bit_and sr sr_zero == 0
    else if cond == 0x7
    then bit_and sr sr_zero != 0
    else if cond == 0x8
    then bit_and sr sr_overflow == 0
    else if cond == 0x9
    then bit_and sr sr_overflow != 0
    else if cond == 0xa
    then bit_and sr sr_negative == 0
    else if cond == 0xb
    then bit_and sr sr_negative != 0
    else if cond == 0xc
    then same_nv sr
    else if cond == 0xd
    then not (same_nv sr)
    else if cond == 0xe
    then bit_and sr sr_zero == 0 && same_nv sr
    else if cond == 0xf
    then bit_and sr sr_zero != 0 || not (same_nv sr)
    else false

abbrev condition_of : ℕ → ℕ
condition_of ir = bit_and (ir >>> 8) 0xf

-- The displacement of a branch: eight bits of the opcode or, if they are 0, the extension word.
unfoldable branch_displacement : ℕ → Run ℕ
unfolding pop_pc
branch_displacement ir =
    choose (u8 ir == 0) (do ext ← pop_pc word; pure (sext16 ext)) (pure (sext8 ir))

unfoldable pub branch : Run (Unit {0})
unfolding pop_pc push condition_true branch_displacement
branch = do
  ir ← gets (λ cpu. cpu.regs.ir)
  base_pc ← gets (λ cpu. cpu.regs.pc)
  displacement ← branch_displacement ir
  sr ← gets (λ cpu. cpu.regs.sr)
  let cond = condition_of ir
  when (cond == 0 || cond == 1 || condition_true sr cond) (do
    when (cond == 1) (λ cpu. push long cpu.regs.pc cpu)
    modify (set_pc (add32 base_pc displacement)))

abbrev with_counter : ℕ → ℕ → Cpu → Cpu
with_counter r counter cpu = set_d r (bit_or (bit_and (cpu.regs.d r) (not32 0xffff)) counter) cpu

unfoldable pub dbcc : Run (Unit {0})
unfolding pop_pc condition_true
dbcc = do
  ir ← gets (λ cpu. cpu.regs.ir)
  base_pc ← gets (λ cpu. cpu.regs.pc)
  displacement ← pop_pc word
  sr ← gets (λ cpu. cpu.regs.sr)
  when (not (condition_true sr (condition_of ir))) (do
    counter ← gets (λ cpu. u16 (u16 (cpu.regs.d (field_y ir)) + 0xffff))
    modify (with_counter (field_y ir) counter)
    when (counter != 0xffff) (modify (set_pc (add32 base_pc (sext16 displacement)))))

unfoldable pub scc : Run (Unit {0})
unfolding resolve_src_ea Ea.write condition_true
scc = do
  ir ← gets (λ cpu. cpu.regs.ir)
  dst ← resolve_src_ea byte
  sr ← gets (λ cpu. cpu.regs.sr)
  let cond = condition_of ir
  Ea.write dst (if cond == 0 || condition_true sr cond then 0xff else 0)

unfoldable pub jmp : Run (Unit {0})
unfolding resolve_src_ea computed_address
jmp = do target ← resolve_src_ea long; address ← computed_address target; modify (set_pc address)

unfoldable pub move_to_usp : Run (Unit {0})
unfolding require_supervisor privileged
move_to_usp =
    privileged
      (modify (λ cpu. set_regs (λ r. record r { usp = cpu.regs.a (field_y cpu.regs.ir) }) cpu))

unfoldable pub move_from_usp : Run (Unit {0})
unfolding require_supervisor privileged
move_from_usp = privileged (modify (λ cpu. set_a (field_y cpu.regs.ir) cpu.regs.usp cpu))

unfoldable pub link : Run (Unit {0})
unfolding pop_pc push
link = do
  r ← gets (λ cpu. field_y cpu.regs.ir)
  displacement ← pop_pc word
  λ cpu. push long (cpu.regs.a r) cpu
  modify (λ cpu. set_a r (cpu.regs.a 7) cpu)
  modify (λ cpu. set_a 7 (add32 (cpu.regs.a 7) (sext16 displacement)) cpu)

unfoldable pub unlk : Run (Unit {0})
unfolding pop
unlk = do
  r ← gets (λ cpu. field_y cpu.regs.ir)
  modify (λ cpu. set_a 7 (cpu.regs.a r) cpu)
  value ← pop long
  modify (set_a r value)

-- An int16 moved up by 2^15, which keeps the order.
abbrev biased : ℕ → ℕ
biased v = u16 (u16 v + 0x8000)

unfoldable pub chk_exception_cycles : ℕ → ℕ
unfolding plus_ea
chk_exception_cycles opcode = plus_ea 40 word opcode

abbrev raise_flag : ℕ → Cpu → Cpu
raise_flag flag cpu = set_sr_field (bit_or cpu.regs.sr flag) cpu

-- CHK of a word register against a bound, after the operand is read.
unfoldable pub check_bound : ℕ → ℕ → Run (Unit {0})
unfolding replace_status_flags exception_with_cycles chk_exception_cycles flags
check_bound value upper = do
  flags status_mask_nzvc 0
  ir ← gets (λ cpu. cpu.regs.ir)
  choose (ltb (biased value) 0x8000)
      (do modify (raise_flag sr_negative); exception_with_cycles 6 (chk_exception_cycles ir))
      (choose (ltb (biased upper) (biased value))
        (do modify (raise_flag sr_carry); exception_with_cycles 6 (chk_exception_cycles ir))
        (when (biased value == biased upper) (modify (raise_flag sr_zero))))

unfoldable pub chk : Run (Unit {0})
unfolding resolve_src_ea Ea.read check_bound
chk = do src ← resolve_src_ea word; bound ← Ea.read src; value ← gets dx; check_bound value bound

-- The target is computed before the return address is pushed.
unfoldable pub jsr : Run (Unit {0})
unfolding resolve_src_ea computed_address push
jsr = do
  target ← resolve_src_ea long
  λ cpu. push long cpu.regs.pc cpu
  address ← computed_address target
  modify (set_pc address)

unfoldable pub rts : Run (Unit {0})
unfolding pop
rts = do addr ← pop long; modify (set_pc addr)
