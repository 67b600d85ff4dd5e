-- ===== src/Alu/Shift/Arithmetic.antt =====
-- The arithmetic right shift is division that rounds down.
use native.Mathlib.Nat.{div-le_self}
use m68kemu.Base.{
  or_split, zero-or, or-zero, ltb→lt, ℕ, zero, suc, ◌+◌, ◌-◌, ◌/◌, ◌%◌, ◌^◌, ◌≤◌, ◌<◌, ◌≡◌, ◌∙◌,
  refl, sym, ap, arith, true, false, bit_and, bit_or, ltb, ◌!=◌, if◌then◌else◌, high_half,
  Bool-cases, inl, inr, ◌<<<◌, ◌>>>◌,
}
use m68kemu.Base.Fields.{and_digit}
use m68kemu.Alu.Shift.{asr_loop, asr, width_mask}
use m68kemu.Alu.Shift.Logical.{IsWidth, of_byte, of_word, of_long, width-mask, rem-lt}

-- The greatest number of a width.
abbrev top_of : ℕ → ℕ
top_of w = 2 ^ w - 1

-- A negative number is shifted as the complement of its complement.
abbrev pub rounded_down : ℕ → ℕ → ℕ → ℕ
rounded_down w count v =
    if ltb v (2 ^ (w - 1)) then v / 2 ^ count else 2 ^ w - 1 - (2 ^ w - 1 - v) / 2 ^ count

not_below : (a b : ℕ) → ltb a b ≡ false → b ≤ a
not_below a b h = ground arith

halves : (n x : ℕ) → x / 2 ^ 1 / 2 ^ n ≡ x / 2 ^ suc n
halves n x = sym (high_half n x)

asr_loop-positive : (count w v c : ℕ) → (asr_loop count w 0 v c).0 ≡ v / 2 ^ count
unfolding asr_loop
asr_loop-positive zero w v c = omega arith
asr_loop-positive (suc count) w v c =
    asr_loop-positive count w (v >>> 1) (bit_and v 1) ∙ halves count v

-- A top digit above a number is added to it.
pub or_top :
    (k x : ℕ)
    → x / 2 ^ k ≡ 0
    → x % 2 ^ k ≡ x
    → 2 ^ k / 2 ^ k ≡ 1
    → 2 ^ k % 2 ^ k ≡ 0
    → x < 2 ^ k
    → bit_or x (2 ^ k) ≡ 2 ^ k + x
or_top k x a b c d h = rw (or_split k x (2 ^ k), a, b, c, d, zero-or 1, or-zero k x h) (omega arith)

sign_in :
    (w : ℕ)
    → IsWidth w
    → (v : ℕ) → 2 ^ (w - 1) ≤ v
    → v < 2 ^ w
    → bit_or (v >>> 1) (1 <<< (w - 1)) ≡ top_of w - (top_of w - v) / 2 ^ 1
sign_in w of_byte v p q =
    or_top 7 (v >>> 1) (omega arith) (omega arith) refl refl (omega arith) ∙ omega arith
sign_in w of_word v p q =
    or_top 15 (v >>> 1) (omega arith) (omega arith) refl refl (omega arith) ∙ omega arith
sign_in w of_long v p q =
    or_top 31 (v >>> 1) (omega arith) (omega arith) refl refl (omega arith) ∙ omega arith

-- The complement stays below the sign's place when it is halved.
still_negative :
    (w : ℕ)
    → IsWidth w
    → (v : ℕ) → 2 ^ (w - 1) ≤ v
    → v < 2 ^ w
    → (2 ^ (w - 1) ≤ top_of w - (top_of w - v) / 2 ^ 1)
      × (top_of w - (top_of w - v) / 2 ^ 1 < 2 ^ w)
still_negative w of_byte v p q = (omega arith, omega arith)
still_negative w of_word v p q = (omega arith, omega arith)
still_negative w of_long v p q = (omega arith, omega arith)

complement_twice :
    (w : ℕ)
    → IsWidth w
    → (v : ℕ) → v < 2 ^ w
    → top_of w - (top_of w - (top_of w - v) / 2 ^ 1) ≡ (top_of w - v) / 2 ^ 1
complement_twice w of_byte v q = omega arith
complement_twice w of_word v q = omega arith
complement_twice w of_long v q = omega arith

unchanged : (w : ℕ) → IsWidth w → (v : ℕ) → v < 2 ^ w → v ≡ top_of w - (top_of w - v) / 2 ^ 0
unchanged w of_byte v q = omega arith
unchanged w of_word v q = omega arith
unchanged w of_long v q = omega arith

asr_loop-negative :
    (w : ℕ)
    → IsWidth w
    → (count sign v c : ℕ) → (sign != 0) ≡ true
    → 2 ^ (w - 1) ≤ v
    → v < 2 ^ w
    → (asr_loop count w sign v c).0 ≡ top_of w - (top_of w - v) / 2 ^ count
unfolding asr_loop
asr_loop-negative w h zero sign v c s p q = unchanged w h v q
asr_loop-negative w h (suc count) sign v c s p q =
    let next = top_of w - (top_of w - v) / 2 ^ 1 in
    ap
      (λ b.
        (asr_loop count w sign (if b then bit_or (v >>> 1) (1 <<< (w - 1)) else v >>> 1)
          (bit_and v 1)).0)
      s
    ∙ ap (λ x. (asr_loop count w sign x (bit_and v 1)).0) (sign_in w h v p q)
    ∙ asr_loop-negative w h count sign next (bit_and v 1) s (still_negative w h v p q).0
        (still_negative w h v p q).1
    ∙ ap (λ x. top_of w - x / 2 ^ count) (complement_twice w h v q)
    ∙ ap (λ x. top_of w - x) (halves count (top_of w - v))

sign_positive : (w : ℕ) → IsWidth w → (v : ℕ) → v < 2 ^ (w - 1) → bit_and v (1 <<< (w - 1)) ≡ 0
sign_positive w of_byte v p = omega (arith, and_digit 7 v)
sign_positive w of_word v p = omega (arith, and_digit 15 v)
sign_positive w of_long v p = omega (arith, and_digit 31 v)

sign_negative :
    (w : ℕ)
    → IsWidth w
    → (v : ℕ) → 2 ^ (w - 1) ≤ v
    → v < 2 ^ w
    → (bit_and v (1 <<< (w - 1)) != 0) ≡ true
sign_negative w of_byte v p q = ground (arith, and_digit 7 v)
sign_negative w of_word v p q = ground (arith, and_digit 15 v)
sign_negative w of_long v p q = ground (arith, and_digit 31 v)

-- The loop's result for a value of the width.
asr_loop_lem :
    (count w : ℕ)
    → IsWidth w
    → (v c : ℕ) → v < 2 ^ w
    → (asr_loop count w (bit_and v (1 <<< (w - 1))) v c).0 ≡ rounded_down w count v
asr_loop_lem count w h v c q = elim (Bool-cases (ltb v (2 ^ (w - 1)))) [
  | inl e ↦
      ap (λ s. (asr_loop count w s v c).0) (sign_positive w h v (ltb→lt v (2 ^ (w - 1)) e))
      ∙ asr_loop-positive count w v c
      ∙ sym (ap (λ b. if b then v / 2 ^ count else top_of w - (top_of w - v) / 2 ^ count) e)
  | inr e ↦
      asr_loop-negative w h count _ v c (sign_negative w h v (not_below v (2 ^ (w - 1)) e) q)
        (not_below v (2 ^ (w - 1)) e) q
      ∙ sym (ap (λ b. if b then v / 2 ^ count else top_of w - (top_of w - v) / 2 ^ count) e)
]

rounded_down-lt :
    (count w : ℕ)
    → IsWidth w
    → (v : ℕ) → v < 2 ^ w
    → rounded_down w count v % 2 ^ w ≡ rounded_down w count v
rounded_down-lt count w of_byte v q = let d = div-le_self v (2 ^ count) in ground arith
rounded_down-lt count w of_word v q = let d = div-le_self v (2 ^ count) in ground arith
rounded_down-lt count w of_long v q = let d = div-le_self v (2 ^ count) in ground arith

-- ASR by any count at every width: division by the power of two, rounded down, of the number that
-- the value stands for in two's complement.
pub asr_lem :
    (value count w : ℕ) → IsWidth w → (asr value count w).0 ≡ rounded_down w count (value % 2 ^ w)
unfolding asr
asr_lem value count w h =
    ap (λ v. bit_and (asr_loop count w (bit_and v (1 <<< (w - 1))) v 0).0 (width_mask w))
      (width-mask w h value)
    ∙ ap (λ x. bit_and x (width_mask w))
        (asr_loop_lem count w h (value % 2 ^ w) 0 (rem-lt w h value))
    ∙ width-mask w h (rounded_down w count (value % 2 ^ w))
    ∙ rounded_down-lt count w h (value % 2 ^ w) (rem-lt w h value)
