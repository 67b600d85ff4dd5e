-- ===== src/Decode/Fields.antt =====
-- opcodeMetaTable of ea.go, and the addressing-mode masks of cpu.go.
use m68kemu.Base.{ℕ, ◌+◌, bit_and, Bool, true, ◌==◌, ◌!=◌, ltb, if◌then◌else◌, ◌>>>◌}
use m68kemu.Decode.EaMask

abbrev pub field_x : ℕ → ℕ
field_x ir = bit_and (ir >>> 9) 0x7

abbrev pub field_y : ℕ → ℕ
field_y ir = bit_and ir 0x7

abbrev pub mode_of : ℕ → ℕ
mode_of ir = bit_and (ir >>> 3) 0x7

-- The index of an effective address in the tables of ea.go: modes 0 to 6, then mode 7 by register.
abbrev pub ea_index : ℕ → ℕ → ℕ
ea_index mode reg = if mode == 7 then mode + reg else mode

unfoldable pub src_index : ℕ → ℕ
src_index ir = ea_index (mode_of ir) (bit_and ir 0x7)

unfoldable pub dst_index : ℕ → ℕ
dst_index ir = ea_index (bit_and (ir >>> 6) 0x7) (bit_and (ir >>> 9) 0x7)

-- The mask bit of an addressing mode, or 0 for the forms of mode 7 that do not exist.
abbrev pub ea_bit : ℕ → ℕ
ea_bit ea =
    if ltb ea 0x08
    then EaMask.data_register
    else if ltb ea 0x10
    then EaMask.address_register
    else if ltb ea 0x18
    then EaMask.indirect
    else if ltb ea 0x20
    then EaMask.post_increment
    else if ltb ea 0x28
    then EaMask.pre_decrement
    else if ltb ea 0x30
    then EaMask.displacement
    else if ltb ea 0x38
    then EaMask.index
    else if ea == 0x38
    then EaMask.absolute_short
    else if ea == 0x39
    then EaMask.absolute_long
    else if ea == 0x3a
    then EaMask.pc_displacement
    else if ea == 0x3b
    then EaMask.pc_index
    else if ea == 0x3c
    then EaMask.immediate
    else 0

-- A mask of 0 stands for an instruction without an effective address.
unfoldable pub valid_ea : ℕ → ℕ → Bool
valid_ea opcode mask = if mask == 0 then true else bit_and mask (ea_bit (bit_and opcode 0x3f)) != 0
