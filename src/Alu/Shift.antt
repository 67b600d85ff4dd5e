-- ===== src/Alu/Shift.antt =====
-- The shift and rotate cores of op_bit_logical.go. A loop `for range count` recurs on the count.
pub mod Logical
pub mod Arithmetic
pub mod Rotate
use m68kemu.Base.{
  ℕ, zero, suc, ◌+◌, ◌-◌, ◌%◌, ◌^◌, ◌≡◌, refl, bit_and, bit_or, Bool, true, false, ◌==◌, ◌!=◌,
  if◌then◌else◌, ◌<<<◌, ◌>>>◌, u32,
}

pub record ShiftRotateFlags : Type 0 where
  pub carry_out : ℕ
  pub change_carry : Bool
  pub extend_out : Bool
  pub change_extend : Bool
  pub overflow : Bool

abbrev pub Shifted : Type 0
Shifted = ℕ × ShiftRotateFlags

abbrev pub b2i : Bool → ℕ
b2i true = 1
b2i false = 0

-- uint32((1 <<< width) - 1)
abbrev pub width_mask : ℕ → ℕ
width_mask width = u32 (2 ^ width - 1)

-- Carry and extend are both changed, to the last bit moved out.
abbrev pub carries : ℕ → Bool → ShiftRotateFlags
carries carry overflow = record {
  carry_out = carry;
  change_carry = true;
  extend_out = carry != 0;
  change_extend = true;
  overflow = overflow;
}

-- Extend is left alone.
abbrev pub rotates : ℕ → ShiftRotateFlags
rotates carry = record {
  carry_out = carry;
  change_carry = true;
  extend_out = false;
  change_extend = false;
  overflow = false;
}

-- The loops carry the value, the last bit moved out, and what else they compute.
unfoldable pub asl_loop : ℕ → ℕ → ℕ → ℕ → Bool → ℕ × ℕ × Bool
asl_loop zero width value carry overflow = (value, carry, overflow)
asl_loop (suc count) width value carry overflow =
    let carry' = bit_and (value >>> (width - 1)) 1 in
    let value' = bit_and (value <<< 1) (width_mask width) in
    let new_msb = bit_and (value' >>> (width - 1)) 1 in
    asl_loop count width value' carry' (if carry' != new_msb then true else overflow)

unfoldable pub asl : ℕ → ℕ → ℕ → Shifted
unfolding asl_loop
asl value count width =
    let (v, carry, overflow) = asl_loop count width (bit_and value (width_mask width)) 0 false in
    (v, carries carry overflow)

unfoldable pub asr_loop : ℕ → ℕ → ℕ → ℕ → ℕ → ℕ × ℕ
asr_loop zero width sign value carry = (value, carry)
asr_loop (suc count) width sign value carry =
    let carry' = bit_and value 1 in
    let value' = value >>> 1 in
    asr_loop count width sign (if sign != 0 then bit_or value' (1 <<< (width - 1)) else value')
      carry'

unfoldable pub asr : ℕ → ℕ → ℕ → Shifted
unfolding asr_loop
asr value count width =
    let v = bit_and value (width_mask width) in
    let (r, carry) = asr_loop count width (bit_and v (1 <<< (width - 1))) v 0 in
    (bit_and r (width_mask width), carries carry false)

unfoldable pub lsl_loop : ℕ → ℕ → ℕ → ℕ → ℕ × ℕ
lsl_loop zero width value carry = (value, carry)
lsl_loop (suc count) width value carry =
    lsl_loop count width (bit_and (value <<< 1) (width_mask width))
      (bit_and (value >>> (width - 1)) 1)

unfoldable pub lsl : ℕ → ℕ → ℕ → Shifted
unfolding lsl_loop
lsl value count width =
    let (v, carry) = lsl_loop count width (bit_and value (width_mask width)) 0 in
    (v, carries carry false)

unfoldable pub lsr_loop : ℕ → ℕ → ℕ → ℕ × ℕ
lsr_loop zero value carry = (value, carry)
lsr_loop (suc count) value carry = lsr_loop count (value >>> 1) (bit_and value 1)

unfoldable pub lsr : ℕ → ℕ → ℕ → Shifted
unfolding lsr_loop
lsr value count width =
    let (v, carry) = lsr_loop count (bit_and value (width_mask width)) 0 in (v, carries carry false)

unfoldable pub roxl_loop : ℕ → ℕ → ℕ → Bool → ℕ × Bool
roxl_loop zero width value extend = (value, extend)
roxl_loop (suc shift) width value extend =
    let carry = b2i extend in
    roxl_loop shift width (bit_and (bit_or (value <<< 1) carry) (width_mask width))
      (bit_and (value >>> (width - 1)) 1 != 0)

unfoldable pub roxl : ℕ → ℕ → ℕ → Bool → Shifted
unfolding roxl_loop
roxl value count width extend =
    let (v, x) = roxl_loop (count % (width + 1)) width (bit_and value (width_mask width)) extend in
    (v, carries (b2i x) false)

unfoldable pub roxr_loop : ℕ → ℕ → ℕ → Bool → ℕ × Bool
roxr_loop zero width value extend = (value, extend)
roxr_loop (suc shift) width value extend =
    roxr_loop shift width (bit_or (value >>> 1) (b2i extend <<< (width - 1))) (bit_and value 1 != 0)

unfoldable pub roxr : ℕ → ℕ → ℕ → Bool → Shifted
unfolding roxr_loop
roxr value count width extend =
    let (v, x) = roxr_loop (count % (width + 1)) width (bit_and value (width_mask width)) extend in
    (v, carries (b2i x) false)

unfoldable pub rol : ℕ → ℕ → ℕ → Shifted
rol value count width =
    let m = width_mask width in
    let v = bit_and value m in
    let shift = count % width in
    if shift == 0 then (v, rotates (bit_and v 1)) else (
      bit_and (bit_or (v <<< shift) (v >>> (width - shift))) m,
      rotates (bit_and (v >>> (width - shift)) 1),
    )

unfoldable pub ror : ℕ → ℕ → ℕ → Shifted
ror value count width =
    let m = width_mask width in
    let v = bit_and value m in
    let shift = count % width in
    if shift == 0 then (v, rotates (bit_and (v >>> (width - 1)) 1)) else (
      bit_and (bit_or (v >>> shift) (v <<< (width - shift))) m,
      rotates (bit_and (v >>> (shift - 1)) 1),
    )

-- The default of the switch: no flags.
abbrev pub no_flags : ShiftRotateFlags
no_flags = record {
  carry_out = 0;
  change_carry = false;
  extend_out = false;
  change_extend = false;
  overflow = false;
}

unfoldable pub do_shift_rotate : ℕ → ℕ → ℕ → ℕ → Bool → Bool → Shifted
unfolding asl asr lsl lsr roxl roxr rol ror
do_shift_rotate value count width operation left extend =
    let v = bit_and value (width_mask width) in
    if count == 0
    then (
      v,
      record {
        carry_out = if operation == 2 then b2i extend else 0;
        change_carry = true;
        extend_out = extend;
        change_extend = false;
        overflow = false;
      },
    )
    else if operation == 0
    then (if left then asl v count width else asr v count width)
    else if operation == 1
    then (if left then lsl v count width else lsr v count width)
    else if operation == 2
    then (if left then roxl v count width extend else roxr v count width extend)
    else if operation == 3
    then (if left then rol v count width else ror v count width)
    else (v, no_flags)

rotates_through_extend : (do_shift_rotate 0x81 3 8 2 true false).0 ≡ 0x0a
unfolding do_shift_rotate
rotates_through_extend = refl

shifts_sign_in : (do_shift_rotate 0x8001 2 16 0 false false).0 ≡ 0xe000
unfolding do_shift_rotate
shifts_sign_in = refl
