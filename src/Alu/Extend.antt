-- ===== src/Alu/Extend.antt =====
-- addWithExtend, subWithExtend and updateExtendZeroFlag of op_arithmetic.go.
pub mod Laws
use m68kemu.Base.{
  ℕ, bit_and, bit_or, bit_xor, Bool, true, false, ◌==◌, ◌!=◌, ltb, ◌&&◌, add32, sub32, not32, not16,
}
use m68kemu.Operand.{Size, mask, sign_bit, is_zero}
use m68kemu.Status.{set_if, sr_carry, sr_overflow, sr_zero, sr_negative, sr_extend}
use m68kemu.Alu.Add.{Flagged}

abbrev pub bool_to_uint32 : Bool → ℕ
bool_to_uint32 true = 1
bool_to_uint32 false = 0

unfoldable pub add_with_extend : ℕ → ℕ → Size → Bool → Flagged
add_with_extend src dst size extend =
    let operand2 = add32 (bit_and src (mask size)) (bool_to_uint32 extend) in
    let result = add32 (bit_and dst (mask size)) operand2 in
    let masked = bit_and result (mask size) in
    let sr = set_if (masked == 0) sr_zero 0 in
    let sr = set_if (bit_and masked (sign_bit size) != 0) sr_negative sr in
    let sr =
      set_if
        (bit_and (bit_and (not32 (bit_xor dst operand2)) (bit_xor masked dst)) (sign_bit size) != 0)
        sr_overflow sr in
    let sr = set_if (bit_and result (not32 (mask size)) != 0) (bit_or sr_carry sr_extend) sr in
    (masked, sr)

unfoldable pub sub_with_extend : ℕ → ℕ → Size → Bool → Flagged
sub_with_extend src dst size extend =
    let operand2 = add32 (bit_and src (mask size)) (bool_to_uint32 extend) in
    let result = sub32 (bit_and dst (mask size)) operand2 in
    let masked = bit_and result (mask size) in
    let sr = set_if (masked == 0) sr_zero 0 in
    let sr = set_if (bit_and masked (sign_bit size) != 0) sr_negative sr in
    let sr =
      set_if (bit_and (bit_and (bit_xor dst operand2) (bit_xor dst masked)) (sign_bit size) != 0)
        sr_overflow sr in
    let sr = set_if (ltb (bit_and dst (mask size)) operand2) (bit_or sr_carry sr_extend) sr in
    (masked, sr)

-- `flags &^= srZero`, then set again if the result is zero and Z was set before.
unfoldable pub update_extend_zero_flag : ℕ → Size → ℕ → Bool → ℕ
unfolding is_zero
update_extend_zero_flag flags size result prev_zero =
    set_if (is_zero size result && prev_zero) sr_zero (bit_and flags (not16 sr_zero))
