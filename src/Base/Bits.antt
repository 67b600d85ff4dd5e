-- ===== src/Base/Bits.antt =====
-- The laws of `&`, `|` and `^` at variables: each acts on the binary digits one by one.
use Prim.Native.Nat.{
  ℕ, zero, suc, ◌+◌, ◌-◌, ◌*◌, ◌/◌, ◌%◌, ◌^◌, ◌≤◌, ◌<◌, min, max, bit_and, bit_or, bit_xor, digits,
  bit_and-bitwise, bit_or-bitwise, bit_xor-bitwise, differ,
}
use mathlib.Core.Path.{◌≡◌, refl, ap, ◌∙◌}
use native.Mathlib.Omega.{arith}
use native.Mathlib.Nat.{pow-suc, one-le-pow, div-div-eq-div-mul, mul_comm}

-- Digit k of x.
abbrev pub bit : ℕ → ℕ → ℕ
bit k x = x / 2 ^ k % 2

pub bit-lt : (k x : ℕ) → bit k x < 2
bit-lt k x = omega arith

pub bit-suc : (k x : ℕ) → bit (suc k) x ≡ bit k (x / 2)
bit-suc k x = rw (pow-suc 2 k, mul_comm (2 ^ k) 2, ← div-div-eq-div-mul x 2 (2 ^ k)) refl

module _ (z : ℕ → ℕ) (f : ℕ → ℕ → ℕ) where
  -- Any two counts of rounds that reach the end of the first number agree.
  rounds_agree : (m n a b : ℕ) → a ≤ m → a ≤ n → digits z f m a b ≡ digits z f n a b
  rounds_agree zero zero a b p q = refl
  rounds_agree zero (suc n) zero b p q = refl
  rounds_agree zero (suc n) (suc a) b p q = elim p [ ]
  rounds_agree (suc m) zero zero b p q = refl
  rounds_agree (suc m) zero (suc a) b p q = elim q [ ]
  rounds_agree (suc m) (suc n) zero b p q = refl
  rounds_agree (suc m) (suc n) (suc a) b p q =
      ap (λ (t : ℕ). t * 2 + f (suc a % 2) (b % 2))
        (rounds_agree m n (suc a / 2) (b / 2) (omega arith) (omega arith))

  lowest_digit :
      (a b : ℕ)
      → digits z f (suc a) (suc a) b
        ≡ digits z f (suc a / 2) (suc a / 2) (b / 2) * 2 + f (suc a % 2) (b % 2)
  lowest_digit a b =
      ap (λ (t : ℕ). t * 2 + f (suc a % 2) (b % 2))
        (rounds_agree a (suc a / 2) (suc a / 2) (b / 2) (omega arith) (omega arith))

pub and_half : (a b : ℕ) → bit_and a b ≡ bit_and (a / 2) (b / 2) * 2 + min (a % 2) (b % 2)
and_half zero b = omega (arith, bit_and-bitwise 0 b, bit_and-bitwise 0 (b / 2))
and_half (suc a) b =
    rw (bit_and-bitwise (suc a) b, bit_and-bitwise (suc a / 2) (b / 2))
      (lowest_digit (λ b. zero) min a b)

pub or_half : (a b : ℕ) → bit_or a b ≡ bit_or (a / 2) (b / 2) * 2 + max (a % 2) (b % 2)
or_half zero b = omega (arith, bit_or-bitwise 0 b, bit_or-bitwise 0 (b / 2))
or_half (suc a) b =
    rw (bit_or-bitwise (suc a) b, bit_or-bitwise (suc a / 2) (b / 2))
      (lowest_digit (λ b. b) max a b)

xor_half : (a b : ℕ) → bit_xor a b ≡ bit_xor (a / 2) (b / 2) * 2 + differ (a % 2) (b % 2)
xor_half zero b = omega (arith, bit_xor-bitwise 0 b, bit_xor-bitwise 0 (b / 2))
xor_half (suc a) b =
    rw (bit_xor-bitwise (suc a) b, bit_xor-bitwise (suc a / 2) (b / 2))
      (lowest_digit (λ b. b) differ a b)

-- `differ` on two digits, in a form that the arithmetic tactics read.
differ_digits : (x y : ℕ) → x < 2 → y < 2 → differ x y ≡ (x + y) % 2
differ_digits zero zero p q = refl
differ_digits zero (suc zero) p q = refl
differ_digits (suc zero) zero p q = refl
differ_digits (suc zero) (suc zero) p q = refl
differ_digits zero (suc (suc y)) p q = absurd (omega arith)
differ_digits (suc zero) (suc (suc y)) p q = absurd (omega arith)
differ_digits (suc (suc x)) y p q = absurd (omega arith)

half_of : (q d x : ℕ) → d < 2 → x ≡ q * 2 + d → x / 2 ≡ q
half_of q d x h e = omega arith

-- One round of the digit laws below: digit k + 1 of `x` is digit k of its upper part `q`.
upper_digit : (k q d x : ℕ) → d < 2 → x ≡ q * 2 + d → bit (suc k) x ≡ bit k q
upper_digit k q d x h e = rw (bit-suc k x, half_of q d x h e) refl

pub bit-and : (k a b : ℕ) → bit k (bit_and a b) ≡ min (bit k a) (bit k b)
bit-and zero a b = omega (arith, and_half a b)
bit-and (suc k) a b = omega (
  arith,
  bit-suc k a,
  bit-suc k b,
  upper_digit k (bit_and (a / 2) (b / 2)) (min (a % 2) (b % 2)) (bit_and a b) (omega arith)
      (and_half a b),
  bit-and k (a / 2) (b / 2),
)

pub bit-or : (k a b : ℕ) → bit k (bit_or a b) ≡ max (bit k a) (bit k b)
bit-or zero a b = omega (arith, or_half a b)
bit-or (suc k) a b = omega (
  arith,
  bit-suc k a,
  bit-suc k b,
  upper_digit k (bit_or (a / 2) (b / 2)) (max (a % 2) (b % 2)) (bit_or a b) (omega arith)
      (or_half a b),
  bit-or k (a / 2) (b / 2),
)

pub xor_digits : (a b : ℕ) → bit_xor a b ≡ bit_xor (a / 2) (b / 2) * 2 + (a % 2 + b % 2) % 2
xor_digits a b =
    omega (arith, xor_half a b, differ_digits (a % 2) (b % 2) (omega arith) (omega arith))

pub bit-xor : (k a b : ℕ) → bit k (bit_xor a b) ≡ (bit k a + bit k b) % 2
bit-xor zero a b = omega (arith, xor_digits a b)
bit-xor (suc k) a b = omega (
  arith,
  bit-suc k a,
  bit-suc k b,
  upper_digit k (bit_xor (a / 2) (b / 2)) ((a % 2 + b % 2) % 2) (bit_xor a b) (omega arith)
      (xor_digits a b),
  bit-xor k (a / 2) (b / 2),
)

pub zero-or : (b : ℕ) → bit_or 0 b ≡ b
zero-or b = bit_or-bitwise 0 b

pub zero-and : (b : ℕ) → bit_and 0 b ≡ 0
zero-and b = bit_and-bitwise 0 b

mod_half : (a p : ℕ) → 0 < p → (a % (p * 2)) / 2 ≡ a / 2 % p
mod_half a p h = grind arith

mod_parity : (a p : ℕ) → 0 < p → (a % (p * 2)) % 2 ≡ a % 2
mod_parity a p h = grind arith

positive : (k : ℕ) → 0 < 2 ^ k
positive k = one-le-pow k 2 (omega arith)

-- The two ways to take off k + 1 digits: one first, or k first.
module _ (k a : ℕ) where
  low_half : (a % 2 ^ suc k) / 2 ≡ a / 2 % 2 ^ k
  low_half = rw (pow-suc 2 k) (mod_half a (2 ^ k) (positive k))

  low_parity : (a % 2 ^ suc k) % 2 ≡ a % 2
  low_parity = rw (pow-suc 2 k) (mod_parity a (2 ^ k) (positive k))

  pub high_half : a / 2 ^ suc k ≡ a / 2 / 2 ^ k
  high_half = rw (pow-suc 2 k, mul_comm (2 ^ k) 2, ← div-div-eq-div-mul a 2 (2 ^ k)) refl

whole : (a : ℕ) → a / 2 ^ 0 ≡ a
whole a = omega arith

nothing : (a : ℕ) → a % 2 ^ 0 ≡ 0
nothing a = omega arith

-- From the digits above the lowest to all of them.
regroup : (k h l d x : ℕ) → x ≡ (h * 2 ^ k + l) * 2 + d → x ≡ h * 2 ^ suc k + (l * 2 + d)
regroup k h l d x e = omega (arith, ap (λ (t : ℕ). h * t) (pow-suc 2 k))

-- `&` acts on the digits from k upwards and on those below k separately.
pub and_split :
    (k a b : ℕ)
    → bit_and a b ≡ bit_and (a / 2 ^ k) (b / 2 ^ k) * 2 ^ k + bit_and (a % 2 ^ k) (b % 2 ^ k)
and_split zero a b = rw (whole a, whole b, nothing a, nothing b) (omega (arith, zero-and 0))
and_split (suc k) a b =
    rw
      (
        high_half k a,
        high_half k b,
        and_half (a % 2 ^ suc k) (b % 2 ^ suc k),
        low_half k a,
        low_half k b,
        low_parity k a,
        low_parity k b,
      )
      (regroup k _ _ _ (bit_and a b)
        (and_half a b ∙ ap (λ (t : ℕ). t * 2 + min (a % 2) (b % 2)) (and_split k (a / 2) (b / 2))))

pub or_split :
    (k a b : ℕ)
    → bit_or a b ≡ bit_or (a / 2 ^ k) (b / 2 ^ k) * 2 ^ k + bit_or (a % 2 ^ k) (b % 2 ^ k)
or_split zero a b = rw (whole a, whole b, nothing a, nothing b) (omega (arith, zero-or 0))
or_split (suc k) a b =
    rw
      (
        high_half k a,
        high_half k b,
        or_half (a % 2 ^ suc k) (b % 2 ^ suc k),
        low_half k a,
        low_half k b,
        low_parity k a,
        low_parity k b,
      )
      (regroup k _ _ _ (bit_or a b)
        (or_half a b ∙ ap (λ (t : ℕ). t * 2 + max (a % 2) (b % 2)) (or_split k (a / 2) (b / 2))))

pub and-zero : (k a : ℕ) → a < 2 ^ k → bit_and a 0 ≡ 0
and-zero zero zero h = zero-and 0
and-zero zero (suc a) h = absurd (omega arith)
and-zero (suc k) a h = omega (arith, and_half a 0, and-zero k (a / 2) (omega (arith, pow-suc 2 k)))

pub or-zero : (k a : ℕ) → a < 2 ^ k → bit_or a 0 ≡ a
or-zero zero zero h = zero-or 0
or-zero zero (suc a) h = absurd (omega arith)
or-zero (suc k) a h = omega (arith, or_half a 0, or-zero k (a / 2) (omega (arith, pow-suc 2 k)))

pub below : (n : ℕ) → n < 2 ^ n
below zero = omega arith
below (suc n) = omega (arith, below n, pow-suc 2 n)

-- A mask of the k low digits is the remainder by `2 ^ k`.
pub and_mask : (k a : ℕ) → bit_and a (2 ^ k - 1) ≡ a % 2 ^ k
and_mask zero a = omega (arith, and-zero a a (below a))
and_mask (suc k) a = omega (
  arith,
  and_half a (2 ^ suc k - 1),
  pow-suc 2 k,
  positive k,
  ap (λ (t : ℕ). bit_and (a / 2) t)
      (half_of (2 ^ k - 1) 1 (2 ^ suc k - 1) (omega arith)
        (omega (arith, pow-suc 2 k, positive k))),
  and_mask k (a / 2),
  low_half k a,
  low_parity k a,
)

pub zero-xor : (b : ℕ) → bit_xor 0 b ≡ b
zero-xor b = bit_xor-bitwise 0 b
