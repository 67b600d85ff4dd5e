-- ===== src/Alu/Tests.antt =====
-- The arithmetic laws at concrete operands.
use m68kemu.Base.{◌≡◌, refl, arith, true, false}
use m68kemu.Operand.{byte, word, long}
use m68kemu.Alu.Add.{add_with_flags, sub_with_flags}
use m68kemu.Alu.Add.Laws.{add_with_flags_lem, sub_with_flags_lem}
use m68kemu.Alu.Extend.{add_with_extend, sub_with_extend}
use m68kemu.Alu.Extend.Laws.{add_with_extend_lem, sub_with_extend_lem, extend_results}
use m68kemu.Alu.Bcd.{bcd_add, bcd_sub}
use m68kemu.Alu.Bcd.Laws.{bcd_add_lem, bcd_sub_lem}
use m68kemu.Alu.Shift.{lsl, lsr, roxl, roxr, carries}
use m68kemu.Alu.Shift.Rotate.{roxr-roxl}
use m68kemu.Alu.Shift.{asr}
use m68kemu.Alu.Shift.Arithmetic.{asr_lem}
use m68kemu.Alu.Shift.Logical.{lsl_lem, lsr_lem, of_byte, of_word}

add_with_flags_lem_example : add_with_flags 0x17f 0x01 byte ≡ (0x80, 0x0a)
add_with_flags_lem_example = add_with_flags_lem 0x17f 0x01 byte

sub_with_flags_lem_example : sub_with_flags 0x0001 0x8000 word ≡ (0x7fff, 0x02)
sub_with_flags_lem_example = sub_with_flags_lem 0x0001 0x8000 word

extend_results_example :
    ((add_with_extend 0xff 0x01 byte true).0 ≡ 0x01)
    × ((sub_with_extend 0xff 0x01 byte true).0 ≡ 0x01)
extend_results_example = extend_results 0xff 0x01 byte true

add_with_extend_lem_example : add_with_extend 0xfffe 0x0001 word true ≡ (0x0000, 0x15)
add_with_extend_lem_example =
    add_with_extend_lem 0xfffe 0x0001 word true (omega arith) refl (omega arith)

-- The sum of the two longs is too large for a long, and yet C and X stay clear.
add_with_extend_long : add_with_extend 0xffff_ffff 0x0000_0001 long false ≡ (0, 0x04)
add_with_extend_long =
    add_with_extend_lem 0xffff_ffff 0x0000_0001 long false (omega arith) refl (omega arith)

sub_with_extend_lem_example : sub_with_extend 0x00 0x00 byte true ≡ (0xff, 0x19)
sub_with_extend_lem_example = sub_with_extend_lem 0x00 0x00 byte true refl (omega arith)

bcd_add_lem_example : bcd_add 0x58 0x67 true ≡ (0x26, true)
bcd_add_lem_example = bcd_add_lem 58 67 true (omega arith) (omega arith)

bcd_sub_lem_example : bcd_sub 0x58 0x27 true ≡ (0x68, true)
bcd_sub_lem_example = bcd_sub_lem 58 27 true (omega arith) (omega arith)

lsl_lem_example : lsl 0xb1 3 8 ≡ (0x88, carries 1 false)
lsl_lem_example = lsl_lem 0xb1 3 8 of_byte

lsr_lem_example : lsr 0x8004 3 16 ≡ (0x1000, carries 1 false)
lsr_lem_example = lsr_lem 0x8004 3 16 of_word

asr_lem_example : (asr 0x8001 2 16).0 ≡ 0xe000
asr_lem_example = asr_lem 0x8001 2 16 of_word

roxr-roxl_example :
    roxr (roxl 0x81 3 8 true).0 3 8 (roxl 0x81 3 8 true).1.extend_out ≡ (0x81, carries 1 false)
roxr-roxl_example = roxr-roxl 0x81 3 8 true of_byte
