-- ===== src/Decode/Cycles.antt =====
-- The cycle calculators of ea.go and op_*.go.
use m68kemu.Base.{
  ℕ, ◌+◌, ◌*◌, bit_and, Bool, none, some, ◌&&◌, ◌==◌, ◌!=◌, ltb, leb, if◌then◌else◌, ◌>>>◌,
}
use m68kemu.Operand.{Size, byte, word, long, operand_size_from_opcode, operand_size_from_opmode}
use m68kemu.Decode.Fields.{mode_of}

abbrev pub last_row : ℕ → ℕ
last_row reg =
    if reg == 0
    then 8
    else if reg == 1
    then 12
    else if reg == 2
    then 8
    else if reg == 3
    then 10
    else 0

-- eaCycleTable[mode][reg]
abbrev pub ea_cycles : ℕ → ℕ → ℕ
ea_cycles mode reg =
    if ltb mode 2
    then 0
    else if ltb mode 4
    then 4
    else if mode == 4
    then 6
    else if mode == 5
    then 8
    else if mode == 6
    then 10
    else last_row reg

abbrev pub immediate_cycles : Size → ℕ
immediate_cycles long = 8
immediate_cycles _ = 4

unfoldable pub ea_access_cycles : ℕ → ℕ → Size → ℕ
ea_access_cycles mode reg size =
    if mode == 7 && reg == 4 then immediate_cycles size else ea_cycles mode reg

-- `base + eaAccessCycles(mode, reg, size)` for the low six bits of the opcode.
unfoldable pub plus_ea : ℕ → Size → ℕ → ℕ
unfolding ea_access_cycles
plus_ea base size opcode = base + ea_access_cycles (mode_of opcode) (bit_and opcode 0x7) size

unfoldable pub opmode_size : ℕ → Size
unfolding operand_size_from_opmode
opmode_size opmode = elim (operand_size_from_opmode opmode) [ none ↦ byte | some s ↦ s ]

-- A calculator maps an opcode to its cycles.
abbrev pub Calculator : Type 0
Calculator = ℕ → ℕ

unfoldable pub constant_cycles : ℕ → Calculator
constant_cycles c opcode = c

-- addCycleCalculator, and logicalCycleCalculator, which has the same body.
unfoldable pub add_cycles : ℕ → Bool → Calculator
unfolding plus_ea opmode_size
add_cycles opmode to_ea opcode = plus_ea (if to_ea then 8 else 4) (opmode_size opmode) opcode

unfoldable pub logical_cycles : ℕ → Bool → Calculator
unfolding plus_ea opmode_size
logical_cycles size to_ea opcode = plus_ea (if to_ea then 8 else 4) (opmode_size size) opcode

-- Size((opcode >> 6) & 3) is a number of bytes, which matters for the immediate mode only: ADDQ and
-- SUBQ are not registered with it.
unfoldable pub addq_subq_cycles : Calculator
unfolding plus_ea
addq_subq_cycles opcode = plus_ea (if mode_of opcode == 0 then 4 else 8) byte opcode

unfoldable pub arithmetic_immediate_cycles : Calculator
unfolding plus_ea operand_size_from_opcode
arithmetic_immediate_cycles opcode = plus_ea 8 (operand_size_from_opcode opcode) opcode

unfoldable pub adda_suba_cycles : Calculator
unfolding plus_ea operand_size_from_opcode
adda_suba_cycles opcode = plus_ea 8 (operand_size_from_opcode opcode) opcode

unfoldable pub cmpi_cycles : Calculator
unfolding plus_ea operand_size_from_opcode
cmpi_cycles opcode = plus_ea 8 (operand_size_from_opcode opcode) opcode

abbrev pub byte_word_or_long : Size → ℕ → ℕ → ℕ
byte_word_or_long long a b = b
byte_word_or_long _ a b = a

unfoldable pub cmpm_cycles : Calculator
unfolding operand_size_from_opcode
cmpm_cycles opcode = byte_word_or_long (operand_size_from_opcode opcode) 12 20

unfoldable pub cmpa_operand_size : ℕ → Size
cmpa_operand_size opcode = if bit_and (opcode >>> 6) 0x7 == 7 then long else word

unfoldable pub cmpa_cycles : Calculator
unfolding plus_ea cmpa_operand_size
cmpa_cycles opcode = plus_ea 8 (cmpa_operand_size opcode) opcode

unfoldable pub addx_subx_cycles : Calculator
addx_subx_cycles opcode = if bit_and (opcode >>> 3) 1 == 0 then 4 else 18

unfoldable pub abcd_cycles : Calculator
abcd_cycles opcode = if bit_and (opcode >>> 3) 1 == 0 then 6 else 18

unfoldable pub sbcd_cycles : Calculator
sbcd_cycles opcode = if bit_and (opcode >>> 3) 1 == 0 then 6 else 18

unfoldable pub nbcd_cycles : Calculator
nbcd_cycles opcode = if bit_and (opcode >>> 3) 1 == 0 then 6 else 8

unfoldable pub clr_tst_cycles : Calculator
unfolding plus_ea operand_size_from_opcode
clr_tst_cycles opcode = plus_ea 4 (operand_size_from_opcode opcode) opcode

unfoldable pub logical_immediate_cycles : Calculator
unfolding plus_ea operand_size_from_opcode
logical_immediate_cycles opcode = plus_ea 8 (operand_size_from_opcode opcode) opcode

unfoldable pub bit_cycles : Bool → ℕ → Calculator
unfolding plus_ea
bit_cycles immediate op opcode =
    if mode_of opcode == 0
    then (if op == 0 then (if immediate then 8 else 4) else if immediate then 12 else 8)
    else plus_ea (if op == 0 then (if immediate then 12 else 8) else if immediate then 16 else 12)
        byte opcode

unfoldable pub shift_memory_cycles : Calculator
unfolding plus_ea
shift_memory_cycles opcode = plus_ea 8 word opcode

unfoldable pub shift_register_cycles : Calculator
shift_register_cycles opcode =
    if leb 4 (bit_and (opcode >>> 3) 0x7)
    then 6
    else (let field = bit_and (opcode >>> 9) 0x7 in 6 + (if field == 0 then 8 else field) * 2)

unfoldable pub shift_rotate_cycles : Calculator
unfolding shift_memory_cycles shift_register_cycles
shift_rotate_cycles opcode =
    if bit_and (opcode >>> 6) 0x7 == 7
    then shift_memory_cycles opcode
    else shift_register_cycles opcode

unfoldable pub scc_cycles : Calculator
unfolding plus_ea
scc_cycles opcode = if mode_of opcode == 0 then 6 else plus_ea 8 byte opcode

unfoldable pub jmp_cycles : Calculator
unfolding plus_ea
jmp_cycles opcode = plus_ea 4 long opcode

unfoldable pub jsr_cycles : Calculator
unfolding plus_ea
jsr_cycles opcode = plus_ea 16 long opcode

unfoldable pub chk_cycles : Calculator
unfolding plus_ea
chk_cycles opcode = plus_ea 10 word opcode

unfoldable pub move_cycles : Size → Calculator
unfolding ea_access_cycles
move_cycles size opcode =
    4
    + ea_access_cycles (mode_of opcode) (bit_and opcode 0x7) size
    + ea_access_cycles (bit_and (opcode >>> 6) 0x7) (bit_and (opcode >>> 9) 0x7) size

unfoldable pub move_address_cycles : Size → Calculator
unfolding plus_ea
move_address_cycles size opcode = plus_ea 4 size opcode

unfoldable pub movep_cycles : Calculator
movep_cycles opcode = if bit_and opcode 0x0080 != 0 then 24 else 16

unfoldable pub lea_pea_cycles : ℕ → Calculator
unfolding plus_ea
lea_pea_cycles base opcode = plus_ea base long opcode

unfoldable pub move_control_cycles : Size → Calculator
unfolding plus_ea
move_control_cycles size opcode = plus_ea 12 size opcode
