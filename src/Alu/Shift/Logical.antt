-- ===== src/Alu/Shift/Logical.antt =====
-- The logical shifts are division and multiplication by a power of two.
use native.Mathlib.Nat.{add-mul-mod_self_left, mod-add-div, pow-suc, mul_comm}
use m68kemu.Base.{
  ap, ◌∙◌, false, ◌<◌, ◌-◌, ◌+◌, ◌*◌, ◌<<<◌, high_half, sym, ℕ, zero, suc, ◌/◌, ◌%◌, ◌^◌, ◌≡◌, refl,
  arith, bit_and, and_mask, bit, bit-suc, ◌>>>◌,
}
use m68kemu.Alu.Shift.{lsr, lsl, lsl_loop, width_mask, carries, lsr_loop}

pub one_bit : (x : ℕ) → bit_and x 1 ≡ x % 2
one_bit x = and_mask 1 x

-- The last digit that a right shift moves out.
abbrev pub out_right : ℕ → ℕ → ℕ → ℕ
out_right zero value carry = carry
out_right (suc n) value carry = bit n value

halves : (n x : ℕ) → x / 2 ^ 1 / 2 ^ n ≡ x / 2 ^ suc n
halves n x = sym (high_half n x)

out_right-half : (n x : ℕ) → out_right n (x / 2 ^ 1) (x % 2) ≡ bit n x
out_right-half zero x = omega arith
out_right-half (suc n) x = sym (bit-suc n x)

lsr_loop_lem :
    (count value carry : ℕ)
    → lsr_loop count value carry ≡ (value / 2 ^ count, out_right count value carry)
unfolding lsr_loop
lsr_loop_lem zero value carry = ground arith
lsr_loop_lem (suc count) value carry =
    rw
      (
        one_bit value,
        lsr_loop_lem count (value >>> 1) (value % 2),
        out_right-half count value,
        halves count value,
      )
      refl

-- A width of an operand.
pub data IsWidth : ℕ → Type 0 where
  of_byte : IsWidth 8
  of_word : IsWidth 16
  of_long : IsWidth 32

pub width-mask : (w : ℕ) → IsWidth w → (x : ℕ) → bit_and x (width_mask w) ≡ x % 2 ^ w
width-mask w of_byte x = and_mask 8 x
width-mask w of_word x = and_mask 16 x
width-mask w of_long x = and_mask 32 x

-- LSR by any count: the quotient by the power of two; C and X are the last digit moved out.
pub lsr_lem :
    (value count w : ℕ)
    → IsWidth w
    → lsr value count w
      ≡ (value % 2 ^ w / 2 ^ count, carries (out_right count (value % 2 ^ w) 0) false)
unfolding lsr
lsr_lem value count w h = rw (width-mask w h value, lsr_loop_lem count (value % 2 ^ w) 0) refl

-- The top digit of the value shifted left by all places but one.
abbrev pub out_left : ℕ → ℕ → ℕ → ℕ → ℕ
out_left w zero value carry = carry
out_left w (suc n) value carry = value * 2 ^ n % 2 ^ w / 2 ^ (w - 1)

distribute : (r m q b : ℕ) → r * b + m * (q * b) ≡ (r + m * q) * b
distribute r m q b = grind arith

scaled_rem : (m a b : ℕ) → a % m * b % m ≡ a * b % m
scaled_rem m a b =
    sym (add-mul-mod_self_left (a % m * b) m (a / m * b))
    ∙ ap (λ y. y % m) (distribute (a % m) m (a / m) b ∙ ap (λ y. y * b) (mod-add-div a m))

step_rem : (w : ℕ) → IsWidth w → (x : ℕ) → (x <<< 1) % 2 ^ w ≡ x * 2 % 2 ^ w
step_rem w of_byte x = omega arith
step_rem w of_word x = omega arith
step_rem w of_long x = omega arith

twice : (x p : ℕ) → x * 2 * p ≡ x * (2 * p)
twice x p = grind arith

keep : (w : ℕ) → IsWidth w → (x : ℕ) → x < 2 ^ w → x ≡ x * 2 ^ 0 % 2 ^ w
keep w of_byte x k = omega arith
keep w of_word x k = omega arith
keep w of_long x k = omega arith

pub rem-lt : (w : ℕ) → IsWidth w → (x : ℕ) → x % 2 ^ w < 2 ^ w
rem-lt w of_byte x = omega arith
rem-lt w of_word x = omega arith
rem-lt w of_long x = omega arith

double_step :
    (w : ℕ) → IsWidth w → (n x : ℕ) → (x <<< 1) % 2 ^ w * 2 ^ n % 2 ^ w ≡ x * 2 ^ suc n % 2 ^ w
double_step w h n x =
    ap (λ y. y * 2 ^ n % 2 ^ w) (step_rem w h x)
    ∙ scaled_rem (2 ^ w) (x * 2) (2 ^ n)
    ∙ ap (λ y. y % 2 ^ w)
        (twice x (2 ^ n) ∙ ap (λ y. x * y) (sym (pow-suc 2 n ∙ mul_comm (2 ^ n) 2)))

first_out : (w : ℕ) → IsWidth w → (x : ℕ) → x / 2 ^ (w - 1) % 2 ≡ x * 2 ^ 0 % 2 ^ w / 2 ^ (w - 1)
first_out w of_byte x = omega arith
first_out w of_word x = omega arith
first_out w of_long x = omega arith

out_left-step :
    (w : ℕ)
    → IsWidth w
    → (n x : ℕ) → out_left w n ((x <<< 1) % 2 ^ w) (x / 2 ^ (w - 1) % 2) ≡ out_left w (suc n) x 0
out_left-step w h zero x = first_out w h x
out_left-step w h (suc n) x = ap (λ y. y / 2 ^ (w - 1)) (double_step w h n x)

lsl_loop_lem :
    (w : ℕ)
    → IsWidth w
    → (count x carry : ℕ) → x < 2 ^ w
    → lsl_loop count w x carry ≡ (x * 2 ^ count % 2 ^ w, out_left w count x carry)
unfolding lsl_loop
lsl_loop_lem w h zero x carry k = ap (λ y. (y, carry)) (keep w h x k)
lsl_loop_lem w h (suc count) x carry k =
    rw (width-mask w h (x <<< 1), one_bit (x >>> (w - 1)))
      (lsl_loop_lem w h count ((x <<< 1) % 2 ^ w) (x / 2 ^ (w - 1) % 2) (rem-lt w h (x <<< 1))
        ∙ (λ i. (double_step w h count x i, out_left-step w h count x i)))

-- LSL by any count: the product with the power of two, modulo the width; C and X are the last
-- digit moved out.
pub lsl_lem :
    (value count w : ℕ)
    → IsWidth w
    → lsl value count w
      ≡ (value % 2 ^ w * 2 ^ count % 2 ^ w, carries (out_left w count (value % 2 ^ w) 0) false)
unfolding lsl
lsl_lem value count w h =
    rw (width-mask w h value, lsl_loop_lem w h count (value % 2 ^ w) 0 (rem-lt w h value)) refl
