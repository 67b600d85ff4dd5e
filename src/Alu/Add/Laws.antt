-- ===== src/Alu/Add/Laws.antt =====
-- addWithFlags and subWithFlags compute what the width promises.
use m68kemu.Base.{
  ℕ, ◌+◌, ◌-◌, ◌%◌, ◌<◌, ◌≡◌, refl, arith, Bool, true, false, ◌==◌, leb, ltb, bit_and, add32, sub32,
  and_mask,
}
use m68kemu.Base.Int.{◌+ℤ◌, ◌-ℤ◌}
use m68kemu.Operand.{Size, byte, word, long, sign_bit, mask}
use m68kemu.Status.{set_if}
use m68kemu.Alu.Spec.{span, signed, is_out_of_range, ccr_of, ccr}
use m68kemu.Alu.Add.{add_with_flags, sub_with_flags}
use m68kemu.Alu.Add.Signs.{negative_test, add_carry_test, add_overflow_test, sub_overflow_test}

pub and-mask : (z : Size) (x : ℕ) → bit_and x (mask z) ≡ x % span z
and-mask byte x = and_mask 8 x
and-mask word x = and_mask 16 x
and-mask long x = and_mask 32 x

-- Setting the flags one by one gives their sum.
pub set_flags :
    (z n v c : Bool) → set_if c 0x11 (set_if v 2 (set_if n 8 (set_if z 4 0))) ≡ ccr c n z v c
set_flags true true true true = refl
set_flags true true true false = refl
set_flags true true false true = refl
set_flags true true false false = refl
set_flags true false true true = refl
set_flags true false true false = refl
set_flags true false false true = refl
set_flags true false false false = refl
set_flags false true true true = refl
set_flags false true true false = refl
set_flags false true false true = refl
set_flags false true false false = refl
set_flags false false true true = refl
set_flags false false true false = refl
set_flags false false false true = refl
set_flags false false false false = refl

pub add_mod : (z : Size) (s d : ℕ) → add32 s d % span z ≡ (s + d) % span z
add_mod byte s d = omega arith
add_mod word s d = omega arith
add_mod long s d = omega arith

pub sub_mod : (z : Size) (s d : ℕ) → s < span z → sub32 d s % span z ≡ (d + span z - s) % span z
sub_mod byte s d h = omega arith
sub_mod word s d h = omega arith
sub_mod long s d h = omega arith

pub mod-lt-span : (z : Size) (x : ℕ) → x % span z < span z
mod-lt-span byte x = omega arith
mod-lt-span word x = omega arith
mod-lt-span long x = omega arith

-- addWithFlags at any width: the sum modulo the width; C and X if the sum of the operands is
-- too large for it; V if the sum of the integers that they stand for is out of range; N and Z
-- by the result.
pub add_with_flags_lem :
    (src dst : ℕ) (z : Size)
    → add_with_flags src dst z ≡ (
      (src % span z + dst % span z) % span z,
      ccr_of z
          ((src % span z + dst % span z) % span z)
          (is_out_of_range z (signed z (src % span z) +ℤ signed z (dst % span z)))
          (leb (span z) (src % span z + dst % span z)),
    )
unfolding add_with_flags
add_with_flags_lem src dst z =
    let s = src % span z in
    let d = dst % span z in
    let r = (s + d) % span z in
    rw
      (
        and-mask z src,
        and-mask z dst,
        and-mask z (add32 s d),
        add_mod z s d,
        negative_test z r (mod-lt-span z (s + d)),
        add_carry_test z s d (mod-lt-span z src) (mod-lt-span z dst),
        add_overflow_test z s d (mod-lt-span z src) (mod-lt-span z dst),
        set_flags (r == 0) (leb (sign_bit z) r) (is_out_of_range z (signed z s +ℤ signed z d))
            (leb (span z) (s + d)),
      )
      refl

-- subWithFlags at any width: the difference modulo the width; C and X if the source exceeds the
-- destination as unsigned numbers; V if the difference of the integers that they stand for is
-- out of range; N and Z by the result.
pub sub_with_flags_lem :
    (src dst : ℕ) (z : Size)
    → sub_with_flags src dst z ≡ (
      (dst % span z + span z - src % span z) % span z,
      ccr_of z
          ((dst % span z + span z - src % span z) % span z)
          (is_out_of_range z (signed z (dst % span z) -ℤ signed z (src % span z)))
          (ltb (dst % span z) (src % span z)),
    )
unfolding sub_with_flags
sub_with_flags_lem src dst z =
    let s = src % span z in
    let d = dst % span z in
    let r = sub32 d s % span z in
    rw
      (
        and-mask z src,
        and-mask z dst,
        and-mask z (sub32 d s),
        negative_test z r (mod-lt-span z (sub32 d s)),
        sub_overflow_test z s d (mod-lt-span z src) (mod-lt-span z dst),
        set_flags (r == 0) (leb (sign_bit z) r) (is_out_of_range z (signed z d -ℤ signed z s))
            (ltb d s),
        sub_mod z s d (mod-lt-span z src),
      )
      refl
