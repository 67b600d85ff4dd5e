-- ===== src/Cpu/Arithmetic.antt =====
-- ADD, SUB and their quick, immediate and address forms, NEG, CLR and TST: op_arithmetic.go.
use m68kemu.Base.{ℕ, bit_and, bit_or, ◌==◌, leb, if◌then◌else◌, add32, sub32, not32, sext16, ◌>>>◌}
use m68kemu.Operand.{
  Size, word, long, mask, is_byte, is_word, operand_size_from_opmode, operand_size_from_opcode,
}
use m68kemu.Status.{status_mask_nzvcx, replace_status_flags, update_nz_clear_vc}
use m68kemu.Effect.{◌>>=◌, ◌>>◌, pure, gets, modify, choose, indexed}
use m68kemu.Alu.Add.{Flagged, add_with_flags, sub_with_flags}
use m68kemu.Decode.Fields.{field_x, field_y, mode_of}
use m68kemu.Cpu.State.{Cpu, Run, set_sr_field}
use m68kemu.Cpu.Stream.{pop_pc, set_a, set_d}
use m68kemu.Cpu.Ea
use m68kemu.Cpu.Ea.{
  Modifier, resolve_src_ea, resolve_src_ea2, resolve_dst_ea, computed_address, merge_low, ix68000,
}

-- replaceStatusFlags and updateNZClearVC on the processor.
unfoldable pub flags : ℕ → ℕ → Run (Unit {0})
unfolding replace_status_flags
flags m f = modify (λ cpu. set_sr_field (replace_status_flags cpu.regs.sr m f) cpu)

unfoldable pub nz : ℕ → Size → Run (Unit {0})
unfolding update_nz_clear_vc
nz result size = modify (λ cpu. set_sr_field (update_nz_clear_vc cpu.regs.sr result size) cpu)

abbrev pub opmode_of : Cpu → ℕ
opmode_of cpu = bit_and (cpu.regs.ir >>> 6) 0x7

-- The data register that bits 9 to 11 name.
abbrev pub dx : Cpu → ℕ
dx cpu = cpu.regs.d (field_x cpu.regs.ir)

abbrev pub set_dx : ℕ → Cpu → Cpu
set_dx v cpu = set_d (field_x cpu.regs.ir) v cpu

abbrev pub ax : Cpu → ℕ
ax cpu = cpu.regs.a (field_x cpu.regs.ir)

abbrev pub set_ax : ℕ → Cpu → Cpu
set_ax v cpu = set_a (field_x cpu.regs.ir) v cpu

-- An operation on source, destination and size, such as addWithFlags.
abbrev Operation : Type 0
Operation = ℕ → ℕ → Size → Flagged

-- The body that add and sub share: the opmode says which operand is the destination.
unfoldable pub add_or_sub : Operation → Run (Unit {0})
unfolding operand_size_from_opmode resolve_src_ea Ea.read Ea.write replace_status_flags flags
add_or_sub op = do
  opmode ← gets opmode_of
  size ← indexed (operand_size_from_opmode opmode)
  choose (leb 4 opmode)
      (do
        dst ← resolve_src_ea size
        dst_val ← Ea.read dst
        src ← gets (λ cpu. bit_and (dx cpu) (mask size))
        let (result, f) = op src dst_val size
        Ea.write dst result
        flags status_mask_nzvcx f)
      (do
        src ← resolve_src_ea size
        src_val ← Ea.read src
        dst ← gets dx
        let (result, f) = op src_val (bit_and dst (mask size)) size
        modify (set_dx (bit_or (bit_and dst (not32 (mask size))) result))
        flags status_mask_nzvcx f)

unfoldable pub add : Run (Unit {0})
unfolding add_or_sub add_with_flags
add = add_or_sub add_with_flags

unfoldable pub sub : Run (Unit {0})
unfolding add_or_sub sub_with_flags
sub = add_or_sub sub_with_flags

abbrev pub quick_of : ℕ → ℕ
quick_of ir = let q = bit_and (ir >>> 9) 0x7 in if q == 0 then 8 else q

-- An operand that is read, changed and written back, with all five flags.
unfoldable pub change : Operation → ℕ → Size → Run (Unit {0})
unfolding resolve_src_ea Ea.read Ea.write replace_status_flags flags
change op src size = do
  dst ← resolve_src_ea size
  dst_val ← Ea.read dst
  let (result, f) = op src dst_val size
  Ea.write dst result
  flags status_mask_nzvcx f

-- An address register is changed whole, and the flags stay.
unfoldable pub addq : Run (Unit {0})
unfolding operand_size_from_opcode add_with_flags resolve_src_ea Ea.read Ea.write
    replace_status_flags change
addq = do
  ir ← gets (λ cpu. cpu.regs.ir)
  choose (mode_of ir == 1)
      (modify (λ cpu. set_a (field_y ir) (add32 (cpu.regs.a (field_y ir)) (quick_of ir)) cpu))
      (change add_with_flags (quick_of ir) (operand_size_from_opcode ir))

unfoldable pub subq : Run (Unit {0})
unfolding operand_size_from_opcode sub_with_flags resolve_src_ea Ea.read Ea.write
    replace_status_flags change
subq = do
  ir ← gets (λ cpu. cpu.regs.ir)
  choose (mode_of ir == 1)
      (modify (λ cpu. set_a (field_y ir) (sub32 (cpu.regs.a (field_y ir)) (quick_of ir)) cpu))
      (change sub_with_flags (quick_of ir) (operand_size_from_opcode ir))

-- The immediate operand of a size; a byte stands in a word.
unfoldable pub immediate_operand : Size → Run ℕ
unfolding pop_pc
immediate_operand size = do
  value ← pop_pc (if is_byte size then word else size)
  pure (bit_and value (mask size))

unfoldable pub arithmetic_immediate : Operation → Run (Unit {0})
unfolding operand_size_from_opcode immediate_operand resolve_src_ea Ea.read Ea.write
    replace_status_flags change
arithmetic_immediate op = do
  size ← gets (λ cpu. operand_size_from_opcode cpu.regs.ir)
  src ← immediate_operand size
  change op src size

unfoldable pub addi : Run (Unit {0})
unfolding arithmetic_immediate add_with_flags
addi = arithmetic_immediate add_with_flags

unfoldable pub subi : Run (Unit {0})
unfolding arithmetic_immediate sub_with_flags
subi = arithmetic_immediate sub_with_flags

-- The source of ADDA and SUBA: a word is sign-extended.
unfoldable address_source : Run ℕ
unfolding resolve_src_ea Ea.read
address_source = do
  opmode ← gets opmode_of
  let size = if opmode == 7 then long else word
  src ← resolve_src_ea size
  value ← Ea.read src
  pure (if is_word size then sext16 value else value)

unfoldable pub adda : Run (Unit {0})
unfolding resolve_src_ea Ea.read address_source
adda = do value ← address_source; modify (λ cpu. set_ax (add32 (ax cpu) value) cpu)

unfoldable pub suba : Run (Unit {0})
unfolding resolve_src_ea Ea.read address_source
suba = do value ← address_source; modify (λ cpu. set_ax (sub32 (ax cpu) value) cpu)

unfoldable pub neg_instruction : Run (Unit {0})
unfolding operand_size_from_opcode resolve_src_ea Ea.read Ea.write replace_status_flags
    sub_with_flags flags
neg_instruction = do
  size ← gets (λ cpu. operand_size_from_opcode cpu.regs.ir)
  dst ← resolve_src_ea size
  value ← Ea.read dst
  let (result, f) = sub_with_flags value 0 size
  Ea.write dst result
  flags status_mask_nzvcx f

unfoldable pub clr : Run (Unit {0})
unfolding operand_size_from_opcode resolve_src_ea Ea.write update_nz_clear_vc nz
clr = do
  size ← gets (λ cpu. operand_size_from_opcode cpu.regs.ir)
  dst ← resolve_src_ea size
  Ea.write dst 0
  nz 0 size

unfoldable pub tst : Run (Unit {0})
unfolding operand_size_from_opcode resolve_src_ea Ea.read update_nz_clear_vc nz
tst = do
  size ← gets (λ cpu. operand_size_from_opcode cpu.regs.ir)
  src ← resolve_src_ea size
  value ← Ea.read src
  nz value size
