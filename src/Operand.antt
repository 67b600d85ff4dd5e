-- ===== src/Operand.antt =====
-- operands.go: operand sizes, and the opcode fields that select them.
use m68kemu.Base.{
  ℕ, bit_and, Bool, true, false, Option, none, some, ◌&&◌, ◌==◌, ◌!=◌, if◌then◌else◌, ◌>>>◌,
}

-- `Size` is a uint32 of which the program uses three values.
pub data Size : Type 0 where
  byte word long : Size

-- uint32(s)
abbrev pub bytes : Size → ℕ
bytes byte = 1
bytes word = 2
bytes long = 4

abbrev pub mask : Size → ℕ
mask byte = 0xff
mask word = 0xffff
mask long = 0xffff_ffff

abbrev pub sign_bit : Size → ℕ
sign_bit byte = 0x80
sign_bit word = 0x8000
sign_bit long = 0x8000_0000

unfoldable pub is_zero : Size → ℕ → Bool
is_zero s value = bit_and value (mask s) == 0

unfoldable pub is_negative : Size → ℕ → Bool
is_negative s value = bit_and value (sign_bit s) != 0

abbrev pub is_byte : Size → Bool
is_byte byte = true
is_byte _ = false

abbrev pub is_word : Size → Bool
is_word word = true
is_word _ = false

-- The table has seven entries; `none` is Go's panic at the index 7.
abbrev pub op_sizes : ℕ → Option Size
op_sizes i =
    if i == 0
    then some byte
    else if i == 1
    then some word
    else if i == 2
    then some long
    else if i == 3
    then some byte
    else if i == 4
    then some byte
    else if i == 5
    then some word
    else if i == 6
    then some long
    else none

unfoldable pub operand_size_from_opmode : ℕ → Option Size
operand_size_from_opmode opmode = op_sizes (bit_and opmode 7)

-- `opcodeMetaTable[ir].opSize`: two bits select one of the first four entries.
unfoldable pub operand_size_from_opcode : ℕ → Size
operand_size_from_opcode ir =
    let i = bit_and (ir >>> 6) 3 in if i == 1 then word else if i == 2 then long else byte

unfoldable pub address_register_step : ℕ → Size → ℕ
address_register_step reg size = if is_byte size && reg == 7 then 2 else bytes size
