-- ===== src/Alu/Extend/Laws.antt =====
-- addWithExtend and subWithExtend against what the width promises.
use m68kemu.Base.Fields.{and_high}
use m68kemu.Alu.Add.Signs.{place}
use m68kemu.Base.Int.{◌+ℤ◌, ◌-ℤ◌, pos}
use m68kemu.Alu.Spec.{signed, is_out_of_range}
use m68kemu.Operand.{sign_bit, mask}
use m68kemu.Alu.Spec.{ccr_of}
use m68kemu.Alu.Add.Laws.{set_flags}
use m68kemu.Alu.Add.Signs.{negative_test, sign_test, top-not}
use m68kemu.Base.Fields.{xor-lt}
use m68kemu.Base.{
  bit_xor, refl, ltb, bit-and, bit-xor, bit_xor, and-zero, below, bit, min, and_mask, bit_and,
  not32, leb, ◌==◌, ◌!=◌, ◌^◌, ◌&&◌, ◌/◌, ℕ, ◌+◌, ◌-◌, ◌*◌, ◌%◌, ◌<◌, ◌≡◌, arith, Bool, true, false,
  add32, sub32,
}
use m68kemu.Operand.{Size, byte, word, long}
use m68kemu.Alu.Spec.{span, digit}
use m68kemu.Alu.Add.Laws.{and-mask, mod-lt-span}
use m68kemu.Alu.Extend.{add_with_extend, sub_with_extend, bool_to_uint32}

sum3 :
    (z : Size) (s d : ℕ) (x : Bool)
    → s < span z
    → d < span z
    → add32 d (add32 s (bool_to_uint32 x)) % span z ≡ (s + d + digit x) % span z
sum3 byte s d true p q = omega arith
sum3 byte s d false p q = omega arith
sum3 word s d true p q = omega arith
sum3 word s d false p q = omega arith
sum3 long s d true p q = omega arith
sum3 long s d false p q = omega arith

difference3 :
    (z : Size) (s d : ℕ) (x : Bool)
    → s < span z
    → d < span z
    → sub32 d (add32 s (bool_to_uint32 x)) % span z ≡ (d + 2 * span z - s - digit x) % span z
difference3 byte s d true p q = omega arith
difference3 byte s d false p q = omega arith
difference3 word s d true p q = omega arith
difference3 word s d false p q = omega arith
difference3 long s d true p q = omega arith
difference3 long s d false p q = omega arith

-- The results of ADDX and SUBX at every width: the sum and the difference of the operands and
-- the extend bit, modulo the width.
pub extend_results :
    (src dst : ℕ) (z : Size) (x : Bool)
    → ((add_with_extend src dst z x).0 ≡ (src % span z + dst % span z + digit x) % span z)
      × ((sub_with_extend src dst z x).0
          ≡ (dst % span z + 2 * span z - src % span z - digit x) % span z)
unfolding add_with_extend sub_with_extend
extend_results src dst z x =
    let s = src % span z in
    let d = dst % span z in
    (
      rw (and-mask z src, and-mask z dst, and-mask z (add32 d (add32 s (bool_to_uint32 x))))
          (sum3 z s d x (mod-lt-span z src) (mod-lt-span z dst)),
      rw (and-mask z src, and-mask z dst, and-mask z (sub32 d (add32 s (bool_to_uint32 x))))
          (difference3 z s d x (mod-lt-span z src) (mod-lt-span z dst)),
    )

top_bits : (z : Size) (x : ℕ) → bit (place z) x ≡ bit (place z) (x % span z)
top_bits byte x = omega arith
top_bits word x = omega arith
top_bits long x = omega arith

carry_test : (z : Size) (a : ℕ) → a < 2 ^ 32 → (bit_and a (not32 (mask z)) != 0) ≡ leb (span z) a
carry_test byte a h = rw (and_high 8 a 0xff_ffff, and_mask 24 (a / 2 ^ 8)) (ground arith)
carry_test word a h = rw (and_high 16 a 0xffff, and_mask 16 (a / 2 ^ 16)) (ground arith)
carry_test long a h = ground (arith, and-zero a a (below a))

overflow_digit :
    (z : Size) (s d : ℕ) (x : Bool)
    → s < span z
    → d < span z
    → (x && (s == sign_bit z - 1)) ≡ false
    → (min
          (1 - (bit (place z) d + bit (place z) (s + digit x)) % 2)
          ((bit (place z) ((s + d + digit x) % span z) + bit (place z) d) % 2)
        != 0)
      ≡ is_out_of_range z (signed z s +ℤ signed z d +ℤ pos (digit x))
overflow_digit byte s d true p q h = ground arith
overflow_digit byte s d false p q h = ground arith
overflow_digit word s d true p q h = ground arith
overflow_digit word s d false p q h = ground arith
overflow_digit long s d true p q h = ground arith
overflow_digit long s d false p q h = ground arith

borrow_overflow_digit :
    (z : Size) (s d : ℕ) (x : Bool)
    → s < span z
    → d < span z
    → (x && (s == sign_bit z - 1)) ≡ false
    → (min
          ((bit (place z) d + bit (place z) (s + digit x)) % 2)
          ((bit (place z) d + bit (place z) ((d + 2 * span z - s - digit x) % span z)) % 2)
        != 0)
      ≡ is_out_of_range z (signed z d -ℤ signed z s -ℤ pos (digit x))
borrow_overflow_digit byte s d true p q h = ground arith
borrow_overflow_digit byte s d false p q h = ground arith
borrow_overflow_digit word s d true p q h = ground arith
borrow_overflow_digit word s d false p q h = ground arith
borrow_overflow_digit long s d true p q h = ground arith
borrow_overflow_digit long s d false p q h = ground arith

operand :
    (z : Size) (s : ℕ) (x : Bool)
    → s < span z
    → s + digit x < 2 ^ 32
    → add32 s (bool_to_uint32 x) ≡ s + digit x
operand byte s true p q = omega arith
operand byte s false p q = omega arith
operand word s true p q = omega arith
operand word s false p q = omega arith
operand long s true p q = omega arith
operand long s false p q = omega arith

-- The borrow and the overflow of SUBX as the code tests them.
overflow_test :
    (z : Size) (b dst r : ℕ)
    → (bit_and (bit_and (bit_xor dst b) (bit_xor dst r)) (sign_bit z) != 0) ≡ (
        min
          ((bit (place z) (dst % span z) + bit (place z) b) % 2)
          ((bit (place z) (dst % span z) + bit (place z) r) % 2)
        != 0)
overflow_test z b dst r =
    rw
      (
        sign_test z (bit_and (bit_xor dst b) (bit_xor dst r)),
        bit-and (place z) (bit_xor dst b) (bit_xor dst r),
        bit-xor (place z) dst b,
        bit-xor (place z) dst r,
        top_bits z dst,
      )
      refl

-- subWithExtend at any width: the difference modulo the width; C and X if the source and the extend bit exceed the destination;
-- V if the difference of the three integers is out of range; N and Z by the result. Two sources
-- are left out where the extend bit is set: the greatest signed number and, for a long, the
-- greatest unsigned one.
pub sub_with_extend_lem :
    (src dst : ℕ) (z : Size) (x : Bool)
    → (x && (src % span z == sign_bit z - 1)) ≡ false
    → src % span z + digit x < 2 ^ 32
    → sub_with_extend src dst z x ≡ (
      (dst % span z + 2 * span z - src % span z - digit x) % span z,
      ccr_of z
          ((dst % span z + 2 * span z - src % span z - digit x) % span z)
          (is_out_of_range z (signed z (dst % span z) -ℤ signed z (src % span z) -ℤ pos (digit x)))
          (ltb (dst % span z) (src % span z + digit x)),
    )
unfolding sub_with_extend
sub_with_extend_lem src dst z x h k =
    let s = src % span z in
    let d = dst % span z in
    let r = (d + 2 * span z - s - digit x) % span z in
    let b = add32 s (bool_to_uint32 x) in
    rw
      (
        and-mask z src,
        and-mask z dst,
        and-mask z (sub32 d b),
        difference3 z s d x (mod-lt-span z src) (mod-lt-span z dst),
        negative_test z r (mod-lt-span z (d + 2 * span z - s - digit x)),
        overflow_test z b dst r,
        operand z s x (mod-lt-span z src) k,
        borrow_overflow_digit z s d x (mod-lt-span z src) (mod-lt-span z dst) h,
        set_flags (r == 0) (leb (sign_bit z) r)
            (is_out_of_range z (signed z d -ℤ signed z s -ℤ pos (digit x))) (ltb d (s + digit x)),
      )
      refl

add_overflow_code :
    (z : Size) (b dst r : ℕ)
    → bit_xor dst b < 2 ^ 32
    → (bit_and (bit_and (not32 (bit_xor dst b)) (bit_xor r dst)) (sign_bit z) != 0) ≡ (
        min
          (1 - (bit (place z) (dst % span z) + bit (place z) b) % 2)
          ((bit (place z) r + bit (place z) (dst % span z)) % 2)
        != 0)
add_overflow_code z b dst r h =
    rw
      (
        sign_test z (bit_and (not32 (bit_xor dst b)) (bit_xor r dst)),
        bit-and (place z) (not32 (bit_xor dst b)) (bit_xor r dst),
        top-not z (bit_xor dst b) h,
        bit-xor (place z) dst b,
        bit-xor (place z) r dst,
        top_bits z dst,
      )
      refl

sum_low :
    (z : Size) (s d : ℕ) (x : Bool)
    → s + digit x < 2 ^ 32
    → add32 d (s + digit x) ≡ (s + d + digit x) % 2 ^ 32
sum_low z s d x h = omega arith

rem_lt32 : (x : ℕ) → x % 2 ^ 32 < 2 ^ 32
rem_lt32 x = omega arith

-- addWithExtend at any width, for a destination that is a uint32: the sum modulo the width; V if the sum of the three integers is out of range; N and Z by the
-- result; C and X if the sum, as a uint32, is too large for the width, which for a long it never
-- is. Two sources are left out where the extend bit is set: the greatest signed number and, for
-- a long, the greatest unsigned one.
pub add_with_extend_lem :
    (src dst : ℕ) (z : Size) (x : Bool)
    → dst < 2 ^ 32
    → (x && (src % span z == sign_bit z - 1)) ≡ false
    → src % span z + digit x < 2 ^ 32
    → add_with_extend src dst z x ≡ (
      (src % span z + dst % span z + digit x) % span z,
      ccr_of z
          ((src % span z + dst % span z + digit x) % span z)
          (is_out_of_range z (signed z (src % span z) +ℤ signed z (dst % span z) +ℤ pos (digit x)))
          (leb (span z) ((src % span z + dst % span z + digit x) % 2 ^ 32)),
    )
unfolding add_with_extend
add_with_extend_lem src dst z x w h k =
    let s = src % span z in
    let d = dst % span z in
    let r = (s + d + digit x) % span z in
    let b = add32 s (bool_to_uint32 x) in
    rw
      (
        and-mask z src,
        and-mask z dst,
        and-mask z (add32 d b),
        sum3 z s d x (mod-lt-span z src) (mod-lt-span z dst),
        negative_test z r (mod-lt-span z (s + d + digit x)),
        operand z s x (mod-lt-span z src) k,
        sum_low z s d x k,
        carry_test z ((s + d + digit x) % 2 ^ 32) (rem_lt32 (s + d + digit x)),
        add_overflow_code z (s + digit x) dst r (xor-lt 32 dst (s + digit x) w k),
        overflow_digit z s d x (mod-lt-span z src) (mod-lt-span z dst) h,
        set_flags (r == 0) (leb (sign_bit z) r)
            (is_out_of_range z (signed z s +ℤ signed z d +ℤ pos (digit x)))
            (leb (span z) ((s + d + digit x) % 2 ^ 32)),
      )
      refl
