-- ===== src/Cpu/System.antt =====
-- The status register, exceptions, and the rest: op_system.go.
use m68kemu.Base.{
  ℕ, ◌+◌, bit_and, bit_or, bit_xor, true, ◌==◌, ◌!=◌, u16, sext8, sext16, ◌<<<◌, ◌>>>◌,
}
use m68kemu.Operand.{Size, byte, word, long}
use m68kemu.Status.{sr_overflow, update_nz_clear_vc}
use m68kemu.Effect.{◌>>=◌, ◌>>◌, pure, gets, modify, when, choose}
use m68kemu.Decode.Fields.{field_x, field_y}
use m68kemu.Cpu.State.{Cpu, Run, set_pc}
use m68kemu.Cpu.Stream.{pop_pc, pop, set_a, set_d}
use m68kemu.Cpu.Exception.{
  exception_with_cycles, set_sr, privileged, trap_exception, x_illegal, x_trap,
}
use m68kemu.Cpu.Ea
use m68kemu.Cpu.Ea.{
  Modifier, resolve_src_ea, resolve_src_ea2, resolve_dst_ea, computed_address, merge_low, ix68000,
}
use m68kemu.Cpu.Arithmetic.{nz}
use m68kemu.Cpu.Exception.{require_supervisor}
use m68kemu.Interrupts
use m68kemu.Memory.Bus

unfoldable pub movec68000 : Run (Unit {0})
unfolding exception_with_cycles
movec68000 = exception_with_cycles x_illegal 34

unfoldable pub trapv : Run (Unit {0})
unfolding exception_with_cycles
trapv = do
  sr ← gets (λ cpu. cpu.regs.sr)
  when (bit_and sr sr_overflow != 0) (exception_with_cycles 7 34)

unfoldable pub reset_instruction : Run (Unit {0})
unfolding require_supervisor Bus.reset Interrupts.reset privileged
reset_instruction = privileged (
    modify
      (λ cpu. record cpu { bus = Bus.reset cpu.bus; interrupts = Interrupts.reset cpu.interrupts }))

unfoldable pub stop : Run (Unit {0})
unfolding require_supervisor pop_pc set_sr privileged
stop = privileged (do
  new_sr ← pop_pc word
  modify (set_sr (u16 new_sr))
  modify (λ cpu. record cpu { stopped = true }))

unfoldable pub logical_ccr_op : (ℕ → ℕ → ℕ) → Run (Unit {0})
unfolding pop_pc set_sr
logical_ccr_op op = do
  imm ← pop_pc word
  current ← gets (λ cpu. cpu.regs.sr)
  let new_ccr = bit_and (op (bit_and current 0xff) (u16 imm)) 0xff
  modify (set_sr (bit_or (bit_and current 0xff00) new_ccr))

unfoldable pub logical_sr_op : (ℕ → ℕ → ℕ) → Run (Unit {0})
unfolding require_supervisor pop_pc set_sr privileged
logical_sr_op op =
    privileged (do imm ← pop_pc word; modify (λ cpu. set_sr (op cpu.regs.sr (u16 imm)) cpu))

unfoldable pub ori_to_ccr : Run (Unit {0})
unfolding logical_ccr_op
ori_to_ccr = logical_ccr_op bit_or

unfoldable pub ori_to_sr : Run (Unit {0})
unfolding logical_sr_op
ori_to_sr = logical_sr_op bit_or

unfoldable pub andi_to_ccr : Run (Unit {0})
unfolding logical_ccr_op
andi_to_ccr = logical_ccr_op bit_and

unfoldable pub andi_to_sr : Run (Unit {0})
unfolding logical_sr_op
andi_to_sr = logical_sr_op bit_and

unfoldable pub eori_to_ccr : Run (Unit {0})
unfolding logical_ccr_op
eori_to_ccr = logical_ccr_op bit_xor

unfoldable pub eori_to_sr : Run (Unit {0})
unfolding logical_sr_op
eori_to_sr = logical_sr_op bit_xor

unfoldable pub move_from_sr : Run (Unit {0})
unfolding resolve_src_ea2 Ea.write
move_from_sr = do dst ← resolve_src_ea2 word; λ cpu. Ea.write dst cpu.regs.sr cpu

unfoldable pub move_to_ccr : Run (Unit {0})
unfolding resolve_src_ea Ea.read set_sr
move_to_ccr = do
  src ← resolve_src_ea byte
  value ← Ea.read src
  modify (λ cpu. set_sr (bit_or (bit_and cpu.regs.sr 0xff00) (u16 (bit_and value 0xff))) cpu)

unfoldable pub move_to_sr : Run (Unit {0})
unfolding require_supervisor resolve_src_ea Ea.read set_sr privileged
move_to_sr =
    privileged (do src ← resolve_src_ea word; value ← Ea.read src; modify (set_sr (u16 value)))

unfoldable pub rte : Run (Unit {0})
unfolding require_supervisor pop set_sr privileged
rte =
    privileged
      (do new_sr ← pop word; pc ← pop long; modify (set_sr (u16 new_sr)); modify (set_pc pc))

unfoldable pub rtr : Run (Unit {0})
unfolding pop set_sr
rtr = do
  ccr ← pop word
  pc ← pop long
  modify (λ cpu. set_sr (bit_or (bit_and cpu.regs.sr 0xff00) (u16 (bit_and ccr 0xff))) cpu)
  modify (set_pc pc)

unfoldable pub nop : Run (Unit {0})
nop = pure tt

abbrev pub dy : Cpu → ℕ
dy cpu = cpu.regs.d (field_y cpu.regs.ir)

unfoldable pub swap_halves : ℕ → ℕ
swap_halves value = bit_or (value <<< 16) (bit_and (value >>> 16) 0xffff)

unfoldable pub swap : Run (Unit {0})
unfolding swap_halves update_nz_clear_vc nz
swap = do
  result ← gets (λ cpu. swap_halves (dy cpu))
  modify (λ cpu. set_d (field_y cpu.regs.ir) result cpu)
  nz result long

unfoldable extend_register : ℕ → Size → Run (Unit {0})
unfolding merge_low update_nz_clear_vc nz
extend_register result size = do
  modify (λ cpu. set_d (field_y cpu.regs.ir) (merge_low size (dy cpu) result) cpu)
  nz result size

unfoldable pub ext : Run (Unit {0})
unfolding merge_low update_nz_clear_vc extend_register
ext = do
  size_bits ← gets (λ cpu. bit_and (cpu.regs.ir >>> 6) 0x3)
  value ← gets dy
  choose (size_bits == 2) (extend_register (sext8 value) word)
      (when (size_bits == 3) (extend_register (sext16 value) long))

-- The registers of the two fields are swapped; the opmode says from which file each is.
unfoldable pub exg : Run (Unit {0})
exg = do
  ir ← gets (λ cpu. cpu.regs.ir)
  let rx = field_y ir
  let ry = field_x ir
  choose (bit_and ir 0x01c0 == 0x0140)
      (choose (bit_and ir 0x0008 == 0)
        (modify (λ cpu. set_d rx (cpu.regs.d ry) (set_d ry (cpu.regs.d rx) cpu)))
        (modify (λ cpu. set_a rx (cpu.regs.a ry) (set_a ry (cpu.regs.a rx) cpu))))
      (when (bit_and ir 0x01c0 == 0x0180)
        (modify (λ cpu. set_a rx (cpu.regs.d ry) (set_d ry (cpu.regs.a rx) cpu))))

unfoldable pub tas : Run (Unit {0})
unfolding resolve_src_ea Ea.read Ea.write update_nz_clear_vc nz
tas = do
  dst ← resolve_src_ea byte
  value ← Ea.read dst
  nz value byte
  Ea.write dst (bit_or value 0x80)

unfoldable pub illegal : Run (Unit {0})
unfolding exception_with_cycles
illegal = exception_with_cycles x_illegal 34

unfoldable pub trap : Run (Unit {0})
unfolding trap_exception
trap = do n ← gets (λ cpu. bit_and cpu.regs.ir 0x000f); trap_exception (x_trap + n)
