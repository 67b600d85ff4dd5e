-- ===== src/Cpu/Move.antt =====
-- MOVE, MOVEA, MOVEQ, MOVEP, LEA and PEA: op_data_transfer.go.
use m68kemu.Base.{
  ℕ, bit_and, bit_or, Bool, ◌&&◌, ◌||◌, ◌==◌, ◌!=◌, ltb, if◌then◌else◌, add32, sext8, sext16, ◌<<<◌,
  ◌>>>◌,
}
use m68kemu.Operand.{Size, byte, word, long, mask}
use m68kemu.Status.{update_nz_clear_vc}
use m68kemu.Effect.{◌>>=◌, ◌>>◌, pure, throw, gets, modify, choose, failed}
use m68kemu.Decode.Fields.{field_y, mode_of}
use m68kemu.Cpu.State.{Run}
use m68kemu.Cpu.Access
use m68kemu.Cpu.Stream.{pop_pc, push, set_d}
use m68kemu.Cpu.Ea
use m68kemu.Cpu.Ea.{
  Modifier, resolve_src_ea, resolve_src_ea2, resolve_dst_ea, computed_address, merge_low, ix68000,
}
use m68kemu.Cpu.Arithmetic.{nz}
use m68kemu.Cpu.Arithmetic.{set_ax, set_dx}

unfoldable pub moveq : Run (Unit {0})
unfolding update_nz_clear_vc nz
moveq = do value ← gets (λ cpu. sext8 cpu.regs.ir); modify (set_dx value); nz value long

-- moveb, movew and movel differ in the size. The source is read before the destination's extension
-- words are.
unfoldable pub move : Size → Run (Unit {0})
unfolding resolve_src_ea resolve_dst_ea Ea.read Ea.write update_nz_clear_vc nz
move size = do
  src ← resolve_src_ea size
  value ← Ea.read src
  dst ← resolve_dst_ea size
  Ea.write dst value
  nz value size

unfoldable pub moveb : Run (Unit {0})
unfolding move
moveb = move byte

unfoldable pub movew : Run (Unit {0})
unfolding move
movew = move word

unfoldable pub movel : Run (Unit {0})
unfolding move
movel = move long

unfoldable pub moveaw : Run (Unit {0})
unfolding resolve_src_ea Ea.read
moveaw = do src ← resolve_src_ea word; value ← Ea.read src; modify (set_ax (sext16 value))

unfoldable pub moveal : Run (Unit {0})
unfolding resolve_src_ea Ea.read
moveal = do src ← resolve_src_ea long; value ← Ea.read src; modify (set_ax value)

-- Every second byte of memory, from `addr` on.
unfoldable pub movep_read : Size → ℕ → Run ℕ
unfolding Access.read
movep_read long addr = do
  b3 ← Access.read byte addr
  b2 ← Access.read byte (add32 addr 2)
  b1 ← Access.read byte (add32 addr 4)
  b0 ← Access.read byte (add32 addr 6)
  pure (bit_or (bit_or (bit_or (b3 <<< 24) (b2 <<< 16)) (b1 <<< 8)) b0)
movep_read size addr = do
  high ← Access.read byte addr
  low ← Access.read byte (add32 addr 2)
  pure (bit_or (high <<< 8) low)

unfoldable pub movep_write : Size → ℕ → ℕ → Run (Unit {0})
unfolding Access.write
movep_write long addr value = do
  Access.write byte addr (bit_and (value >>> 24) 0xff)
  Access.write byte (add32 addr 2) (bit_and (value >>> 16) 0xff)
  Access.write byte (add32 addr 4) (bit_and (value >>> 8) 0xff)
  Access.write byte (add32 addr 6) (bit_and value 0xff)
movep_write size addr value = do
  Access.write byte addr (bit_and (value >>> 8) 0xff)
  Access.write byte (add32 addr 2) (bit_and value 0xff)

unfoldable pub movep : Run (Unit {0})
unfolding pop_pc movep_read movep_write merge_low update_nz_clear_vc nz
movep = do
  opcode ← gets (λ cpu. cpu.regs.ir)
  let size = if bit_and opcode 0x0080 != 0 then long else word
  disp ← pop_pc word
  addr ← gets (λ cpu. add32 (cpu.regs.a (bit_and opcode 0x7)) (sext16 disp))
  let reg = bit_and (opcode >>> 9) 0x7
  choose (bit_and opcode 0x0040 != 0)
      (do
        value ← movep_read size addr
        modify (λ cpu. set_d reg (merge_low size (cpu.regs.d reg) value) cpu)
        nz value size)
      (do
        value ← gets (λ cpu. bit_and (cpu.regs.d reg) (mask size))
        movep_write size addr value
        nz value size)

-- Modes without an address are refused.
abbrev has_no_address : ℕ → Bool
has_no_address ir = ltb (mode_of ir) 2 || (mode_of ir == 7 && field_y ir == 4)

unfoldable source_address : Run ℕ
unfolding resolve_src_ea computed_address
source_address = do src ← resolve_src_ea long; computed_address src

unfoldable pub lea : Run (Unit {0})
unfolding resolve_src_ea computed_address source_address
lea cpu =
    choose (has_no_address cpu.regs.ir) (throw failed)
      (do address ← source_address; modify (set_ax address)) cpu

unfoldable pub pea : Run (Unit {0})
unfolding resolve_src_ea computed_address push source_address
pea cpu =
    choose (has_no_address cpu.regs.ir) (throw failed)
      (do address ← source_address; push long address) cpu
