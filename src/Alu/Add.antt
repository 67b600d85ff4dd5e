-- ===== src/Alu/Add.antt =====
-- addWithFlags and subWithFlags of op_arithmetic.go.
pub mod Signs
pub mod Laws
use m68kemu.Base.{ℕ, ◌≡◌, refl, bit_and, bit_or, bit_xor, ◌==◌, ◌!=◌, ltb, add32, sub32, not32}
use m68kemu.Operand.{Size, mask, sign_bit}
use m68kemu.Status.{set_if, sr_carry, sr_overflow, sr_zero, sr_negative, sr_extend}

-- The result and the flags X, N, Z, V and C.
abbrev pub Flagged : Type 0
Flagged = ℕ × ℕ

unfoldable pub add_with_flags : ℕ → ℕ → Size → Flagged
add_with_flags src dst size =
    let m = mask size in
    let sign = sign_bit size in
    let s = bit_and src m in
    let d = bit_and dst m in
    let res = bit_and (add32 s d) m in
    let sr = set_if (res == 0) sr_zero 0 in
    let sr = set_if (bit_and res sign != 0) sr_negative sr in
    let sr =
      set_if (bit_and (bit_and (not32 (bit_xor d s)) (bit_xor res d)) sign != 0) sr_overflow sr in
    let sr =
      set_if (bit_and (bit_or (bit_and s d) (bit_and (bit_or s d) (not32 res))) sign != 0)
        (bit_or sr_carry sr_extend) sr in
    (res, sr)

unfoldable pub sub_with_flags : ℕ → ℕ → Size → Flagged
sub_with_flags src dst size =
    let m = mask size in
    let sign = sign_bit size in
    let s = bit_and src m in
    let d = bit_and dst m in
    let res = bit_and (sub32 d s) m in
    let sr = set_if (res == 0) sr_zero 0 in
    let sr = set_if (bit_and res sign != 0) sr_negative sr in
    let sr = set_if (bit_and (bit_and (bit_xor d s) (bit_xor d res)) sign != 0) sr_overflow sr in
    let sr = set_if (ltb d s) (bit_or sr_carry sr_extend) sr in (res, sr)

add_overflows : add_with_flags 0x7f 1 Size.byte ≡ (0x80, 0x0a)
unfolding add_with_flags
add_overflows = refl

sub_borrows : sub_with_flags 1 0 Size.word ≡ (0xffff, 0x19)
unfolding sub_with_flags
sub_borrows = refl
