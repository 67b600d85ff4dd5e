-- ===== src/Base/Fields.antt =====
-- Masks and fields at the widths that the emulator uses, from the digit laws.
use Prim.Native.Nat.{ℕ, zero, suc, ◌+◌, ◌*◌, ◌/◌, ◌^◌, ◌≤◌, ◌<◌, bit_and, bit_or, bit_xor}
use mathlib.Core.Path.{◌≡◌, ap, ◌∙◌}
use native.Mathlib.Omega.{arith}
use native.Mathlib.Nat.{pow-suc}
use m68kemu.Base.Bits.{
  zero-xor, zero-or, zero-and, xor_digits, bit, bit-suc, and_half, or_half, and_mask, or-zero,
  high_half, below,
}

double : (m k : ℕ) → m * 2 ^ suc k ≡ m * 2 ^ k * 2
double m k = omega (arith, ap (λ (t : ℕ). m * t) (pow-suc 2 k))

half_pow : (k : ℕ) → 2 ^ suc k / 2 ≡ 2 ^ k
half_pow k = omega (arith, pow-suc 2 k)

half_even : (x y : ℕ) → x ≡ y * 2 → x / 2 ≡ y
half_even x y e = omega arith

times_one : (q : ℕ) → q * 2 ^ 0 ≡ q
times_one q = omega arith

over_one : (q : ℕ) → q / 2 ^ 0 ≡ q
over_one q = omega arith

-- A single digit.
pub and_digit : (k a : ℕ) → bit_and a (2 ^ k) ≡ bit k a * 2 ^ k
and_digit zero a = omega (arith, and_mask 1 a)
and_digit (suc k) a = rw (bit-suc k a) (
    omega (
      arith,
      and_half a (2 ^ suc k),
      pow-suc 2 k,
      ap (λ (t : ℕ). bit_and (a / 2) t) (half_pow k),
      and_digit k (a / 2),
      double (bit k (a / 2)) k,
    ))

-- `(q <<< k) | r` is a sum if `r` fits into k digits.
pub or_join : (k q r : ℕ) → r < 2 ^ k → bit_or (q * 2 ^ k) r ≡ q * 2 ^ k + r
or_join zero q zero h = rw (times_one q) (or-zero q q (below q) ∙ omega arith)
or_join zero q (suc r) h = absurd (omega arith)
or_join (suc k) q r h = omega (
  arith,
  or_half (q * 2 ^ suc k) r,
  double q k,
  ap (λ (t : ℕ). bit_or t (r / 2)) (half_even (q * 2 ^ suc k) (q * 2 ^ k) (double q k)),
  or_join k q (r / 2) (omega (arith, pow-suc 2 k)),
)

-- A mask that lies above the k low digits.
pub and_high : (k a m : ℕ) → bit_and a (m * 2 ^ k) ≡ bit_and (a / 2 ^ k) m * 2 ^ k
and_high zero a m = rw (times_one m, over_one a) (omega arith)
and_high (suc k) a m = rw (high_half k a) (
    omega (
      arith,
      and_half a (m * 2 ^ suc k),
      double m k,
      ap (λ (t : ℕ). bit_and (a / 2) t) (half_even (m * 2 ^ suc k) (m * 2 ^ k) (double m k)),
      and_high k (a / 2) m,
      double (bit_and (a / 2 / 2 ^ k) m) k,
    ))

-- Results stay within the width of the operands.
pub xor-lt : (k a b : ℕ) → a < 2 ^ k → b < 2 ^ k → bit_xor a b < 2 ^ k
xor-lt zero zero zero p q = omega (arith, zero-xor 0)
xor-lt zero (suc a) b p q = absurd (omega arith)
xor-lt zero zero (suc b) p q = absurd (omega arith)
xor-lt (suc k) a b p q = omega (
  arith,
  pow-suc 2 k,
  xor_digits a b,
  xor-lt k (a / 2) (b / 2) (omega (arith, pow-suc 2 k)) (omega (arith, pow-suc 2 k)),
)

pub or-lt : (k a b : ℕ) → a < 2 ^ k → b < 2 ^ k → bit_or a b < 2 ^ k
or-lt zero zero zero p q = omega (arith, zero-or 0)
or-lt zero (suc a) b p q = absurd (omega arith)
or-lt zero zero (suc b) p q = absurd (omega arith)
or-lt (suc k) a b p q = omega (
  arith,
  pow-suc 2 k,
  or_half a b,
  or-lt k (a / 2) (b / 2) (omega (arith, pow-suc 2 k)) (omega (arith, pow-suc 2 k)),
)

pub and-le : (k a b : ℕ) → a < 2 ^ k → bit_and a b ≤ a
and-le zero zero b p = omega (arith, zero-and b)
and-le zero (suc a) b p = absurd (omega arith)
and-le (suc k) a b p =
    omega (arith, pow-suc 2 k, and_half a b, and-le k (a / 2) (b / 2) (omega (arith, pow-suc 2 k)))
