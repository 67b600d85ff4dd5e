-- ===== src/Alu/Add/Signs.antt =====
-- Carry, borrow and signed overflow, from the top digits of the operands and of the result.
use m68kemu.Base.{
  ℕ, ◌+◌, ◌-◌, ◌%◌, ◌<◌, ◌^◌, ◌≡◌, min, max, arith, ◌!=◌, leb, bit_and, bit_or, bit_xor, bit,
  bit-and, bit-or, bit-xor, not32, ◌∙◌, sub32,
}
use m68kemu.Base.Fields.{and_digit, xor-lt}
use m68kemu.Base.Int.{◌+ℤ◌, ◌-ℤ◌}
use m68kemu.Operand.{Size, byte, word, long, sign_bit}
use m68kemu.Alu.Spec.{span, signed, is_out_of_range}

-- The place of the top digit.
abbrev pub place : Size → ℕ
place byte = 7
place word = 15
place long = 31

abbrev pub top : Size → ℕ → ℕ
top z x = bit (place z) x

pub sign_test : (z : Size) (x : ℕ) → (bit_and x (sign_bit z) != 0) ≡ (top z x != 0)
sign_test byte x = ground (arith, and_digit 7 x)
sign_test word x = ground (arith, and_digit 15 x)
sign_test long x = ground (arith, and_digit 31 x)

pub negative_test :
    (z : Size) (x : ℕ) → x < span z → (bit_and x (sign_bit z) != 0) ≡ leb (sign_bit z) x
negative_test byte x h = sign_test byte x ∙ ground arith
negative_test word x h = sign_test word x ∙ ground arith
negative_test long x h = sign_test long x ∙ ground arith

pub top-not : (z : Size) (x : ℕ) → x < 2 ^ 32 → top z (not32 x) ≡ 1 - top z x
top-not byte x h = omega arith
top-not word x h = omega arith
top-not long x h = omega arith

-- The digit that addWithFlags tests for the carry.
add_carry_digit :
    (z : Size) (s d : ℕ)
    → s < span z
    → d < span z
    → (max (min (top z s) (top z d)) (min (max (top z s) (top z d)) (1 - top z ((s + d) % span z)))
        != 0)
      ≡ leb (span z) (s + d)
add_carry_digit byte s d hs hd = ground arith
add_carry_digit word s d hs hd = ground arith
add_carry_digit long s d hs hd = ground arith

add_overflow_digit :
    (z : Size) (s d : ℕ)
    → s < span z
    → d < span z
    → (min (1 - (top z d + top z s) % 2) ((top z ((s + d) % span z) + top z d) % 2) != 0)
      ≡ is_out_of_range z (signed z s +ℤ signed z d)
add_overflow_digit byte s d hs hd = ground arith
add_overflow_digit word s d hs hd = ground arith
add_overflow_digit long s d hs hd = ground arith

sub_overflow_digit :
    (z : Size) (s d : ℕ)
    → s < span z
    → d < span z
    → (min ((top z d + top z s) % 2) ((top z d + top z (sub32 d s % span z)) % 2) != 0)
      ≡ is_out_of_range z (signed z d -ℤ signed z s)
sub_overflow_digit byte s d hs hd = ground arith
sub_overflow_digit word s d hs hd = ground arith
sub_overflow_digit long s d hs hd = ground arith

small : (z : Size) (x : ℕ) → x % span z < 2 ^ 32
small byte x = omega arith
small word x = omega arith
small long x = omega arith

fits : (z : Size) (x : ℕ) → x < span z → x < 2 ^ 32
fits byte x h = omega arith
fits word x h = omega arith
fits long x h = omega arith

module _ (z : Size) (s d : ℕ) (hs : s < span z) (hd : d < span z) where
  pub add_carry_test :
      (bit_and (bit_or (bit_and s d) (bit_and (bit_or s d) (not32 ((s + d) % span z)))) (sign_bit z)
        != 0)
      ≡ leb (span z) (s + d)
  add_carry_test =
      rw
        (
          sign_test z (bit_or (bit_and s d) (bit_and (bit_or s d) (not32 ((s + d) % span z)))),
          bit-or (place z) (bit_and s d) (bit_and (bit_or s d) (not32 ((s + d) % span z))),
          bit-and (place z) s d,
          bit-and (place z) (bit_or s d) (not32 ((s + d) % span z)),
          bit-or (place z) s d,
          top-not z ((s + d) % span z) (small z (s + d)),
        )
        (add_carry_digit z s d hs hd)

  pub add_overflow_test :
      (bit_and (bit_and (not32 (bit_xor d s)) (bit_xor ((s + d) % span z) d)) (sign_bit z) != 0)
      ≡ is_out_of_range z (signed z s +ℤ signed z d)
  add_overflow_test =
      rw
        (
          sign_test z (bit_and (not32 (bit_xor d s)) (bit_xor ((s + d) % span z) d)),
          bit-and (place z) (not32 (bit_xor d s)) (bit_xor ((s + d) % span z) d),
          top-not z (bit_xor d s) (xor-lt 32 d s (fits z d hd) (fits z s hs)),
          bit-xor (place z) d s,
          bit-xor (place z) ((s + d) % span z) d,
        )
        (add_overflow_digit z s d hs hd)

  pub sub_overflow_test :
      (bit_and (bit_and (bit_xor d s) (bit_xor d (sub32 d s % span z))) (sign_bit z) != 0)
      ≡ is_out_of_range z (signed z d -ℤ signed z s)
  sub_overflow_test =
      rw
        (
          sign_test z (bit_and (bit_xor d s) (bit_xor d (sub32 d s % span z))),
          bit-and (place z) (bit_xor d s) (bit_xor d (sub32 d s % span z)),
          bit-xor (place z) d s,
          bit-xor (place z) d (sub32 d s % span z),
        )
        (sub_overflow_digit z s d hs hd)
