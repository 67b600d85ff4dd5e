-- ===== src/Cpu/Ea.antt =====
-- Effective addresses: ea.go. An operand keeps what its closure captures: the register, the size
-- and the address. The calls that Go answers by a panic are the error `panicked`.
use m68kemu.Base.{
  ℕ, bit_and, bit_or, ◌&&◌, ◌==◌, ◌!=◌, if◌then◌else◌, add32, sub32, not32, sext8, sext16, ◌>>>◌,
  u16,
}
use m68kemu.Operand.{Size, byte, word, long, bytes, mask, is_byte}
use m68kemu.Effect.{◌>>=◌, pure, throw, gets, modify, ok, panicked}
use m68kemu.Decode.Fields.{field_x, field_y, src_index, dst_index}
use m68kemu.Cpu.State.{Run, set_sr_field}
use m68kemu.Cpu.Access
use m68kemu.Cpu.Stream.{pop_pc, set_a, set_d}

pub data Modifier : Type 0 where
  data_register address_register : ℕ → Size → Modifier
  memory : Size → ℕ → Modifier
  immediate : ℕ → Modifier
  status_register : Modifier

-- `(*reg & ^mask) | (v & mask)`
unfoldable pub merge_low : Size → ℕ → ℕ → ℕ
merge_low size old v = bit_or (bit_and old (not32 (mask size))) (bit_and v (mask size))

unfoldable pub read : Modifier → Run ℕ
unfolding Access.read
read (data_register r size) = gets (λ cpu. bit_and (cpu.regs.d r) (mask size))
read (address_register r size) = gets (λ cpu. bit_and (cpu.regs.a r) (mask size))
read (memory size address) = Access.read size address
read (immediate v) = pure v
read status_register = gets (λ cpu. cpu.regs.sr)

-- The size of a status register operand is never set, which makes its mask that of a long.
unfoldable pub write : Modifier → ℕ → Run (Unit {0})
unfolding merge_low Access.write
write (data_register r size) v = modify (λ cpu. set_d r (merge_low size (cpu.regs.d r) v) cpu)
write (address_register r size) v = modify (λ cpu. set_a r (merge_low size (cpu.regs.a r) v) cpu)
write (memory size address) v = Access.write size address v
write (immediate w) v = throw panicked
write status_register v = modify (set_sr_field (u16 v))

unfoldable pub computed_address : Modifier → Run ℕ
computed_address (memory size address) = pure address
computed_address _ = throw panicked

-- The step of a post-increment or pre-decrement; the stack pointer stays even.
abbrev pub step_of : ℕ → Size → ℕ
step_of reg size = if is_byte size && reg == 7 then 2 else bytes size

-- The brief extension word of the indexed modes.
unfoldable pub ix68000 : ℕ → Run ℕ
unfolding pop_pc
ix68000 base = do
  ext ← pop_pc word
  let index_reg = bit_and (ext >>> 12) 0x7
  whole ←
      gets (λ cpu. if bit_and ext 0x8000 != 0 then cpu.regs.a index_reg else cpu.regs.d index_reg)
  let index = if bit_and ext 0x0800 != 0 then whole else sext16 whole
  pure (add32 (add32 base index) (sext8 ext))

abbrev pub register_indirect : Size → ℕ → Run Modifier
register_indirect size r cpu = ok (memory size (cpu.regs.a r)) cpu

-- The register is read after the extension word.
unfoldable pub displacement : Size → ℕ → Run Modifier
unfolding pop_pc
displacement size r = do
  offset ← pop_pc word
  λ cpu. ok (memory size (add32 (cpu.regs.a r) (sext16 offset))) cpu

-- The base is the PC before the extension word.
unfoldable pub pc_displacement : Size → Run Modifier
unfolding pop_pc
pc_displacement size cpu =
    (do offset ← pop_pc word; pure (memory size (add32 cpu.regs.pc (sext16 offset)))) cpu

unfoldable pub indirect_index : Size → ℕ → Run Modifier
unfolding ix68000
indirect_index size r cpu = (do address ← ix68000 (cpu.regs.a r); pure (memory size address)) cpu

unfoldable pub pc_indirect_index : Size → Run Modifier
unfolding ix68000
pc_indirect_index size cpu = (do address ← ix68000 cpu.regs.pc; pure (memory size address)) cpu

abbrev pub post_increment : Size → ℕ → Run Modifier
post_increment size r cpu =
    ok (memory size (cpu.regs.a r)) (set_a r (add32 (cpu.regs.a r) (step_of r size)) cpu)

abbrev pub pre_decrement : Size → ℕ → Run Modifier
pre_decrement size r cpu =
    let address = sub32 (cpu.regs.a r) (step_of r size) in
    ok (memory size address) (set_a r address cpu)

unfoldable pub absolute_short : Size → Run Modifier
unfolding pop_pc
absolute_short size = do address ← pop_pc word; pure (memory size (sext16 address))

unfoldable pub absolute_long : Size → Run Modifier
unfolding pop_pc
absolute_long size = do address ← pop_pc long; pure (memory size address)

-- A byte stands in the low half of an extension word.
unfoldable pub immediate_value : Size → Run Modifier
unfolding pop_pc
immediate_value byte = do value ← pop_pc word; pure (immediate (bit_and value 0xff))
immediate_value size = do value ← pop_pc size; pure (immediate value)

-- The entry of a table of effective addresses: `r` is the register that the mode names, and `last`
-- is the twelfth entry. An index beyond the twelve is a panic.
unfoldable pub init_ea : ℕ → ℕ → Run Modifier → Size → Run Modifier
unfolding displacement pc_displacement indirect_index pc_indirect_index absolute_short absolute_long
init_ea index r last size =
    if index == 0
    then pure (data_register r size)
    else if index == 1
    then pure (address_register r size)
    else if index == 2
    then register_indirect size r
    else if index == 3
    then post_increment size r
    else if index == 4
    then pre_decrement size r
    else if index == 5
    then displacement size r
    else if index == 6
    then indirect_index size r
    else if index == 7
    then absolute_short size
    else if index == 8
    then absolute_long size
    else if index == 9
    then pc_displacement size
    else if index == 10
    then pc_indirect_index size
    else if index == 11
    then last
    else throw panicked

-- eaSrc, eaSrc2 and eaDst.
unfoldable pub resolve_src_ea : Size → Run Modifier
unfolding init_ea src_index immediate_value
resolve_src_ea size cpu =
    init_ea (src_index cpu.regs.ir) (field_y cpu.regs.ir) (immediate_value size) size cpu

unfoldable pub resolve_src_ea2 : Size → Run Modifier
unfolding init_ea src_index
resolve_src_ea2 size cpu =
    init_ea (src_index cpu.regs.ir) (field_y cpu.regs.ir) (pure status_register) size cpu

unfoldable pub resolve_dst_ea : Size → Run Modifier
unfolding init_ea dst_index
resolve_dst_ea size cpu =
    init_ea (dst_index cpu.regs.ir) (field_x cpu.regs.ir) (pure status_register) size cpu
