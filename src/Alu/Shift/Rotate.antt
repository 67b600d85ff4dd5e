-- ===== src/Alu/Shift/Rotate.antt =====
-- The rotations through the extend bit undo each other.
use mathlib.Core.Path.{subst}
use m68kemu.Base.{
  ap, ◌∙◌, true, false, ◌<◌, ◌-◌, ◌+◌, ◌*◌, ◌<<<◌, sym, ℕ, zero, suc, ◌/◌, ◌%◌, ◌^◌, ◌≡◌, refl,
  arith, bit_and, bit_or, Bool, ◌!=◌, ◌>>>◌, or-zero, Bool-cases, inl, inr,
}
use m68kemu.Base.Fields.{or_join}
use m68kemu.Alu.Shift.{roxl, roxr, roxl_loop, roxr_loop, width_mask, carries, b2i, Shifted}
use m68kemu.Alu.Shift.Arithmetic.{or_top}
use m68kemu.Alu.Shift.Logical.{IsWidth, of_byte, of_word, of_long, width-mask, rem-lt, one_bit}

-- One place to the left and to the right, of the value and the extend bit.
abbrev left : ℕ → ℕ × Bool → ℕ × Bool
left w (v, x) = (bit_and (bit_or (v <<< 1) (b2i x)) (width_mask w), bit_and (v >>> (w - 1)) 1 != 0)

abbrev right : ℕ → ℕ × Bool → ℕ × Bool
right w (v, x) = (bit_or (v >>> 1) (b2i x <<< (w - 1)), bit_and v 1 != 0)

abbrev left_loop : ℕ → ℕ → ℕ × Bool → ℕ × Bool
left_loop n w (v, x) = roxl_loop n w v x

abbrev right_loop : ℕ → ℕ → ℕ × Bool → ℕ × Bool
right_loop n w (v, x) = roxr_loop n w v x

left-below : (w : ℕ) → IsWidth w → (s : ℕ × Bool) → (left w s).0 < 2 ^ w
left-below w h (v, x) =
    rw (width-mask w h (bit_or (v <<< 1) (b2i x))) (rem-lt w h (bit_or (v <<< 1) (b2i x)))

low_digit : (v : ℕ) (x : Bool) → bit_or (v <<< 1) (b2i x) ≡ v * 2 % 0x1_0000_0000 + b2i x
low_digit v true =
    ap (λ y. bit_or y 1) {y = v % 0x8000_0000 * 2 ^ 1} (omega arith)
    ∙ or_join 1 (v % 0x8000_0000) 1 (omega arith)
    ∙ omega arith
low_digit v false =
    ap (λ y. bit_or y 0) {y = v % 0x8000_0000 * 2 ^ 1} (omega arith)
    ∙ or_join 1 (v % 0x8000_0000) 0 (omega arith)
    ∙ omega arith

-- The value after a place to the left.
left-value : (w : ℕ) → IsWidth w → (v : ℕ) (x : Bool) → (left w (v, x)).0 ≡ (v * 2 + b2i x) % 2 ^ w
left-value w h v x = width-mask w h _ ∙ ap (λ y. y % 2 ^ w) (low_digit v x) ∙ narrow w h v (b2i x)
  where
    narrow :
        (w : ℕ) → IsWidth w → (v b : ℕ) → (v * 2 % 0x1_0000_0000 + b) % 2 ^ w ≡ (v * 2 + b) % 2 ^ w
    narrow w of_byte v b = omega arith
    narrow w of_word v b = omega arith
    narrow w of_long v b = omega arith

b2i-test : (x : Bool) (n : ℕ) → n % 2 ≡ b2i x → (n % 2 != 0) ≡ x
b2i-test true n h = ground arith
b2i-test false n h = ground arith

digit_below : (x : Bool) → b2i x < 2
digit_below true = omega arith
digit_below false = omega arith

module _ (v y k n : ℕ) (kept : y ≡ v % 2 ^ k) where
  with_top :
      (v / 2 ^ k % 2 != 0) ≡ true
      → 1 * 2 ^ k % 0x1_0000_0000 ≡ n
      → bit_or y n ≡ v
      → bit_or y (b2i (v / 2 ^ k % 2 != 0) * 2 ^ k % 0x1_0000_0000) ≡ v
  with_top e f g = (λ i. bit_or y (b2i (e i) * 2 ^ k % 0x1_0000_0000)) ∙ ap (bit_or y) f ∙ g

  without_top :
      (v / 2 ^ k % 2 != 0) ≡ false
      → bit_or y 0 ≡ v
      → bit_or y (b2i (v / 2 ^ k % 2 != 0) * 2 ^ k % 0x1_0000_0000) ≡ v
  without_top e g =
      (λ i. bit_or y (b2i (e i) * 2 ^ k % 0x1_0000_0000)) ∙ ap (bit_or y) {y = 0} (omega arith) ∙ g

put_back :
    (w : ℕ)
    → IsWidth w
    → (v y : ℕ) → y ≡ v % 2 ^ (w - 1)
    → v < 2 ^ w
    → bit_or y (b2i (v / 2 ^ (w - 1) % 2 != 0) * 2 ^ (w - 1) % 0x1_0000_0000) ≡ v
put_back w of_byte v y e k = elim (Bool-cases (v / 2 ^ 7 % 2 != 0)) [
  | inl t ↦
      with_top v y 7 (2 ^ 7) e t refl
        (or_top 7 y (omega arith) (omega arith) refl refl (omega arith) ∙ ground arith)
  | inr t ↦ without_top v y 7 0 e t (or-zero 7 y (omega arith) ∙ ground arith)
]
put_back w of_word v y e k = elim (Bool-cases (v / 2 ^ 15 % 2 != 0)) [
  | inl t ↦
      with_top v y 15 (2 ^ 15) e t refl
        (or_top 15 y (omega arith) (omega arith) refl refl (omega arith) ∙ ground arith)
  | inr t ↦ without_top v y 15 0 e t (or-zero 15 y (omega arith) ∙ ground arith)
]
put_back w of_long v y e k = elim (Bool-cases (v / 2 ^ 31 % 2 != 0)) [
  | inl t ↦
      with_top v y 31 (2 ^ 31) e t refl
        (or_top 31 y (omega arith) (omega arith) refl refl (omega arith) ∙ ground arith)
  | inr t ↦ without_top v y 31 0 e t (or-zero 31 y (omega arith) ∙ ground arith)
]

-- The top digit put back above the others.
top_back :
    (w : ℕ)
    → IsWidth w
    → (v : ℕ) (x : Bool) → v < 2 ^ w
    → bit_or
        ((v * 2 + b2i x) % 2 ^ w / 2)
        (b2i (v / 2 ^ (w - 1) % 2 != 0) * 2 ^ (w - 1) % 0x1_0000_0000)
      ≡ v
top_back w h v x k = put_back w h v _ (halved w h) k
  where
    halved : (w : ℕ) → IsWidth w → (v * 2 + b2i x) % 2 ^ w / 2 ≡ v % 2 ^ (w - 1)
    halved w of_byte = let b = digit_below x in omega arith
    halved w of_word = let b = digit_below x in omega arith
    halved w of_long = let b = digit_below x in omega arith

right-left : (w : ℕ) → IsWidth w → (s : ℕ × Bool) → s.0 < 2 ^ w → right w (left w s) ≡ s
right-left w h (v, x) k =
    (λ i. (
      bit_or (left-value w h v x i >>> 1) (b2i (one_bit (v >>> (w - 1)) i != 0) <<< (w - 1)),
      bit_and (left-value w h v x i) 1 != 0,
    ))
    ∙ (λ i. (top_back w h v x k i, (one_bit ((v * 2 + b2i x) % 2 ^ w) i != 0)))
    ∙ ap (λ y. (v, y)) (b2i-test x _ (low w h))
  where
    low : (w : ℕ) → IsWidth w → (v * 2 + b2i x) % 2 ^ w % 2 ≡ b2i x
    low w of_byte = let b = digit_below x in omega arith
    low w of_word = let b = digit_below x in omega arith
    low w of_long = let b = digit_below x in omega arith

left-outside : (n w : ℕ) (s : ℕ × Bool) → left_loop n w (left w s) ≡ left w (left_loop n w s)
unfolding roxl_loop
left-outside zero w s = refl
left-outside (suc n) w s = left-outside n w (left w s)

left_loop-below : (n w : ℕ) → IsWidth w → (s : ℕ × Bool) → s.0 < 2 ^ w → (left_loop n w s).0 < 2 ^ w
unfolding roxl_loop
left_loop-below zero w h s k = k
left_loop-below (suc n) w h s k = left_loop-below n w h (left w s) (left-below w h s)

right_loop-left_loop :
    (n w : ℕ) → IsWidth w → (s : ℕ × Bool) → s.0 < 2 ^ w → right_loop n w (left_loop n w s) ≡ s
unfolding roxl_loop roxr_loop
right_loop-left_loop zero w h s k = refl
right_loop-left_loop (suc n) w h s k =
    ap (λ t. right_loop n w (right w t)) (left-outside n w s)
    ∙ ap (right_loop n w) (right-left w h (left_loop n w s) (left_loop-below n w h s k))
    ∙ right_loop-left_loop n w h s k

small-rem : (w : ℕ) → IsWidth w → (x : ℕ) → x < 2 ^ w → x % 2 ^ w ≡ x
small-rem w of_byte x k = omega arith
small-rem w of_word x k = omega arith
small-rem w of_long x k = omega arith

test-b2i : (x : Bool) → (b2i x != 0) ≡ x
test-b2i true = refl
test-b2i false = refl

-- ROXR by a count undoes ROXL by the same count, at every width: it gives the value and the
-- extend bit that were rotated, the latter in C and X.
pub roxr-roxl :
    (value count w : ℕ) (extend : Bool)
    → IsWidth w
    → roxr (roxl value count w extend).0 count w (roxl value count w extend).1.extend_out
      ≡ (value % 2 ^ w, carries (b2i extend) false)
unfolding roxl roxr
roxr-roxl value count w extend h =
    let n = count % (w + 1) in
    let s : ℕ × Bool = (bit_and value (width_mask w), extend) in
    let t = left_loop n w s in
    let k = subst (λ y. y < 2 ^ w) (sym (width-mask w h value)) (rem-lt w h value) in
    let same = width-mask w h t.0 ∙ small-rem w h t.0 (left_loop-below n w h s k) in
    (λ i. outcome (right_loop n w (same i, test-b2i t.1 i)))
    ∙ ap outcome (right_loop-left_loop n w h s k)
    ∙ (λ i. (width-mask w h value i, carries (b2i extend) false))
  where
    outcome : ℕ × Bool → Shifted
    outcome p = (p.0, carries (b2i p.1) false)
