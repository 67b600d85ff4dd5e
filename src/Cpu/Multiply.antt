-- ===== src/Cpu/Multiply.antt =====
-- MULU, MULS, DIVU and DIVS: op_arithmetic.go. A register is a bit pattern, so signed values go
-- through ℤ.
use m68kemu.Base.{
  ℕ, ◌-◌, ◌*◌, ◌/◌, ◌%◌, bit_and, bit_or, Bool, true, false, ◌||◌, ◌==◌, ◌!=◌, ltb, if◌then◌else◌,
  u16, u32, ◌<<<◌, suc,
}
use m68kemu.Operand.{word}
use m68kemu.Status.{
  sr_overflow, sr_zero, sr_negative, status_mask_nzvc, set_if, replace_status_flags,
}
use m68kemu.Effect.{◌>>=◌, ◌>>◌, gets, modify, choose}
use m68kemu.Decode.Fields.{field_x}
use m68kemu.Decode.Cycles.{plus_ea}
use m68kemu.Cpu.State.{Run}
use m68kemu.Cpu.Stream.{set_d}
use m68kemu.Cpu.Exception.{exception_with_cycles, x_div_by_zero}
use m68kemu.Cpu.Ea
use m68kemu.Cpu.Ea.{
  Modifier, resolve_src_ea, resolve_src_ea2, resolve_dst_ea, computed_address, merge_low, ix68000,
}
use m68kemu.Cpu.Arithmetic.{flags, dx}
use m68kemu.Base.Int.{ℤ, pos, negsuc, ltb_ℤ, sub_ℕ, ◌*ℤ◌}

-- divExceptionCycles
unfoldable div_exception_cycles : ℕ → ℕ
unfolding plus_ea
div_exception_cycles opcode = plus_ea 38 word opcode

-- int32(int16(x)) and int32(x) as integers.
abbrev pub int16 : ℕ → ℤ
int16 x = if ltb (u16 x) 0x8000 then pos (u16 x) else negsuc (0xffff - u16 x)

abbrev pub int32 : ℕ → ℤ
int32 x = if ltb (u32 x) 0x8000_0000 then pos (u32 x) else negsuc (0xffff_ffff - u32 x)

-- The bit pattern of an integer, cut to 32 bits.
abbrev pub pattern32 : ℤ → ℕ
pattern32 (pos n) = n % 0x1_0000_0000
pattern32 (negsuc n) = 0xffff_ffff - n % 0x1_0000_0000

-- Go's division rounds to zero, and the remainder has the sign of the dividend.
abbrev pub same_sign : ℤ → ℤ → Bool
same_sign (pos a) (pos b) = true
same_sign (negsuc a) (negsuc b) = true
same_sign _ _ = false

abbrev pub magnitude : ℤ → ℕ
magnitude (pos n) = n
magnitude (negsuc n) = suc n

abbrev pub signed_by : Bool → ℕ → ℤ
signed_by true n = pos n
signed_by false n = sub_ℕ 0 n

abbrev pub is_pos : ℤ → Bool
is_pos (pos n) = true
is_pos (negsuc n) = false

unfoldable pub quotient : ℤ → ℤ → ℤ
quotient a b = signed_by (same_sign a b) (magnitude a / magnitude b)

unfoldable pub remainder : ℤ → ℤ → ℤ
remainder a b = signed_by (is_pos a) (magnitude a % magnitude b)

-- The word operand at the source effective address.
unfoldable word_operand : Run ℕ
unfolding resolve_src_ea Ea.read
word_operand = do src ← resolve_src_ea word; Ea.read src

unfoldable div_by_zero : Run (Unit {0})
unfolding exception_with_cycles plus_ea div_exception_cycles
div_by_zero cpu = exception_with_cycles x_div_by_zero (div_exception_cycles cpu.regs.ir) cpu

-- The flags of a quotient of 16 bits.
abbrev quotient_flags : ℕ → ℕ
quotient_flags q = set_if (bit_and q 0x8000 != 0) sr_negative (set_if (q == 0) sr_zero 0)

unfoldable pub divu : Run (Unit {0})
unfolding resolve_src_ea Ea.read exception_with_cycles replace_status_flags plus_ea div_by_zero
    flags word_operand
divu = do
  divisor ← word_operand
  choose (divisor == 0) div_by_zero (do
    dividend ← gets dx
    let q = dividend / divisor
    choose (ltb 0xffff q) (flags status_mask_nzvc sr_overflow) (do
      let result = bit_or ((dividend % divisor) <<< 16) (bit_and q 0xffff)
      modify (λ cpu. set_d (field_x cpu.regs.ir) result cpu)
      flags status_mask_nzvc (quotient_flags q)))

-- The quotient is tested against 16 bits before it is cut, so that the division of -2^31 by -1,
-- whose result Go wraps to -2^31, overflows too.
unfoldable pub divs : Run (Unit {0})
unfolding resolve_src_ea Ea.read exception_with_cycles replace_status_flags quotient remainder
    plus_ea div_by_zero flags word_operand
divs = do
  divisor_raw ← word_operand
  let divisor = int16 divisor_raw
  choose (pattern32 divisor == 0) div_by_zero (do
    pattern ← gets dx
    let dividend = int32 pattern
    let q = int32 (pattern32 (quotient dividend divisor))
    choose (ltb_ℤ (pos 0x7fff) q || ltb_ℤ q (negsuc 0x7fff)) (flags status_mask_nzvc sr_overflow)
        (do
          let r = pattern32 (remainder dividend divisor)
          let result = bit_or (u16 r <<< 16) (bit_and (u16 (pattern32 q)) 0xffff)
          modify (λ cpu. set_d (field_x cpu.regs.ir) result cpu)
          flags status_mask_nzvc (quotient_flags (pattern32 q))))

abbrev product_flags : ℕ → ℕ
product_flags r = set_if (bit_and r 0x8000_0000 != 0) sr_negative (set_if (r == 0) sr_zero 0)

unfoldable pub mulu : Run (Unit {0})
unfolding resolve_src_ea Ea.read replace_status_flags flags word_operand
mulu = do
  op ← word_operand
  value ← gets dx
  let result = u32 (u16 op * u16 value)
  modify (λ cpu. set_d (field_x cpu.regs.ir) result cpu)
  flags status_mask_nzvc (product_flags result)

unfoldable pub muls : Run (Unit {0})
unfolding resolve_src_ea Ea.read replace_status_flags flags word_operand
muls = do
  op_raw ← word_operand
  value ← gets dx
  let result = pattern32 (int16 op_raw *ℤ int16 value)
  modify (λ cpu. set_d (field_x cpu.regs.ir) result cpu)
  flags status_mask_nzvc (product_flags result)
