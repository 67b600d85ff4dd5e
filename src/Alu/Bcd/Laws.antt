-- ===== src/Alu/Bcd/Laws.antt =====
-- bcdAdd and bcdSub are decimal addition and subtraction.
use m68kemu.Base.Int.{sub_ℕ, pos, ◌-ℤ◌, ltb_ℤ}
use m68kemu.Base.{
  ◌-◌, ◌<◌, if◌then◌else◌, ◌∙◌, refl, ◌-◌, ltb, ℕ, ◌+◌, ◌*◌, ◌/◌, ◌%◌, ◌<◌, ◌≡◌, arith, Bool, true,
  false, bit_and, and_mask, leb,
}
use m68kemu.Alu.Spec.{digit}
use m68kemu.Alu.Bcd.{bcd_add, bcd_sub, byte_of}

-- A number below 100 in packed decimal.
abbrev pub packed : ℕ → ℕ
packed n = 16 * (n / 10) + n % 10

low_digit : (n : ℕ) → bit_and (packed n) 0x0f ≡ n % 10
low_digit n = rw (and_mask 4 (packed n)) (omega arith)

-- The packed decimal sum: modulo 100, with the carry that says that the sum exceeds 99.
pub bcd_add_lem :
    (m n : ℕ) (x : Bool)
    → m < 100
    → n < 100
    → bcd_add (packed m) (packed n) x
      ≡ (packed ((m + n + digit x) % 100), leb 100 (m + n + digit x))
unfolding bcd_add
bcd_add_lem m n true hm hn = rw (low_digit m, low_digit n) (ground arith)
bcd_add_lem m n false hm hn = rw (low_digit m, low_digit n) (ground arith)

sub_more : (a b c : ℕ) → sub_ℕ a b -ℤ pos c ≡ sub_ℕ a (b + c)
sub_more a b c = ground arith

is_below : (a b : ℕ) → ltb_ℤ (sub_ℕ a b) (pos 0) ≡ ltb a b
is_below a b = ground arith

byte_of-sub_ℕ : (a b : ℕ) → b < a + 257 → byte_of (sub_ℕ a b) ≡ (a + 256 - b) % 256
byte_of-sub_ℕ a b h = ground arith

times_one : (c : ℕ) → c * 1 ≡ c
times_one c = omega arith

times_zero : (b c : ℕ) → b + c * 0 ≡ b
times_zero b c = omega arith

start : (a b c : ℕ) → pos a -ℤ pos b -ℤ pos c ≡ sub_ℕ a (b + c)
start a b c = ground arith

sub_if :
    (t : Bool) (a b c : ℕ)
    → (if t then sub_ℕ a b -ℤ pos c else sub_ℕ a b) ≡ sub_ℕ a (b + c * digit t)
sub_if true a b c = sub_more a b c ∙ rw (times_one c) refl
sub_if false a b c = rw (times_zero b c) refl

-- bcdSub on natural numbers: e is the extend bit, l the borrow of the low digit.
abbrev plain : ℕ → ℕ → Bool → ℕ × Bool
plain p b h = (byte_of (sub_ℕ p (b + 0x60 * digit h)), h)

bcd_sub-plain :
    (q p : ℕ) (x : Bool)
    → bcd_sub q p x ≡ (
        let b = q + digit x + 6 * digit (ltb (bit_and p 0x0f) (bit_and q 0x0f + digit x)) in
        plain p b (ltb p b))
unfolding bcd_sub
bcd_sub-plain q p true =
    rw
      (
        start (bit_and p 0x0f) (bit_and q 0x0f) 1,
        start p q 1,
        is_below (bit_and p 0x0f) (bit_and q 0x0f + 1),
        sub_if (ltb (bit_and p 0x0f) (bit_and q 0x0f + 1)) p (q + 1) 6,
        is_below p (q + 1 + 6 * digit (ltb (bit_and p 0x0f) (bit_and q 0x0f + 1))),
        sub_if (ltb p (q + 1 + 6 * digit (ltb (bit_and p 0x0f) (bit_and q 0x0f + 1)))) p
            (q + 1 + 6 * digit (ltb (bit_and p 0x0f) (bit_and q 0x0f + 1))) 0x60,
      )
      refl
bcd_sub-plain q p false =
    rw
      (
        start (bit_and p 0x0f) (bit_and q 0x0f) 0,
        start p q 0,
        is_below (bit_and p 0x0f) (bit_and q 0x0f + 0),
        sub_if (ltb (bit_and p 0x0f) (bit_and q 0x0f + 0)) p (q + 0) 6,
        is_below p (q + 0 + 6 * digit (ltb (bit_and p 0x0f) (bit_and q 0x0f + 0))),
        sub_if (ltb p (q + 0 + 6 * digit (ltb (bit_and p 0x0f) (bit_and q 0x0f + 0)))) p
            (q + 0 + 6 * digit (ltb (bit_and p 0x0f) (bit_and q 0x0f + 0))) 0x60,
      )
      refl

sub_digits :
    (m n : ℕ) (x : Bool)
    → bcd_sub (packed m) (packed n) x ≡ (
        let b = packed m + digit x + 6 * digit (ltb (n % 10) (m % 10 + digit x)) in
        plain (packed n) b (ltb (packed n) b))
sub_digits m n x = rw (bcd_sub-plain (packed m) (packed n) x, low_digit m, low_digit n) refl

finish :
    (p b : ℕ) (h : Bool)
    → b + 0x60 * digit h < p + 257
    → plain p b h ≡ ((p + 256 - (b + 0x60 * digit h)) % 256, h)
finish p b h k = rw (byte_of-sub_ℕ p (b + 0x60 * digit h) k) refl

-- The borrow of the low digit is l.
sub_case :
    (m n x : ℕ) (l : Bool)
    → m < 100
    → n < 100
    → x < 2
    → ltb (n % 10) (m % 10 + x) ≡ l
    → (let b = packed m + x + 6 * digit l in plain (packed n) b (ltb (packed n) b))
      ≡ (packed ((n + 100 - m - x) % 100), ltb n (m + x))
sub_case m n x true hm hn hx hl =
    finish (packed n) (packed m + x + 6 * 1) (ltb (packed n) (packed m + x + 6 * 1)) (ground arith)
    ∙ ground arith
sub_case m n x false hm hn hx hl =
    finish (packed n) (packed m + x + 6 * 0) (ltb (packed n) (packed m + x + 6 * 0)) (ground arith)
    ∙ ground arith

digit-lt : (x : Bool) → digit x < 2
digit-lt true = omega arith
digit-lt false = omega arith

-- The packed decimal difference: modulo 100, with the borrow that says that the source and the
-- extend bit together exceed the destination.
pub bcd_sub_lem :
    (m n : ℕ) (x : Bool)
    → m < 100
    → n < 100
    → bcd_sub (packed m) (packed n) x
      ≡ (packed ((n + 100 - m - digit x) % 100), ltb n (m + digit x))
bcd_sub_lem m n x hm hn =
    sub_digits m n x
    ∙ sub_case m n (digit x) (ltb (n % 10) (m % 10 + digit x)) hm hn (digit-lt x) refl
