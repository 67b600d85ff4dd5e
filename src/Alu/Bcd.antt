-- ===== src/Alu/Bcd.antt =====
-- bcdAdd and bcdSub of op_arithmetic.go. Go's `int` is ℤ where it may be negative.
pub mod Laws
use m68kemu.Base.{ℕ, ◌+◌, ◌-◌, ◌%◌, ◌≡◌, refl, bit_and, Bool, true, ltb, if◌then◌else◌}
use m68kemu.Base.Int.{ℤ, pos, negsuc, ◌-ℤ◌, ltb_ℤ}
use m68kemu.Alu.Extend.{bool_to_uint32}

-- byte(i) of an int.
abbrev pub byte_of : ℤ → ℕ
byte_of (pos n) = n % 0x100
byte_of (negsuc n) = 0xff - n % 0x100

-- The result byte and the carry.
unfoldable pub bcd_add : ℕ → ℕ → Bool → ℕ × Bool
bcd_add src dst extend =
    let lo = bit_and src 0x0f + bit_and dst 0x0f + bool_to_uint32 extend in
    let sum = src + dst + bool_to_uint32 extend in
    let sum = if ltb 9 lo then sum + 0x06 else sum in
    let carry = ltb 0x99 sum in let sum = if carry then sum + 0x60 else sum in (sum % 0x100, carry)

-- The result byte and the borrow.
unfoldable pub bcd_sub : ℕ → ℕ → Bool → ℕ × Bool
bcd_sub src dst extend =
    let e = if extend then 1 else 0 in
    let low = pos (bit_and dst 0x0f) -ℤ pos (bit_and src 0x0f) -ℤ pos e in
    let diff = pos dst -ℤ pos src -ℤ pos e in
    let diff = if ltb_ℤ low (pos 0) then diff -ℤ pos 0x06 else diff in
    let borrow = ltb_ℤ diff (pos 0) in
    let diff = if borrow then diff -ℤ pos 0x60 else diff in (byte_of diff, borrow)

adds_decimal : bcd_add 0x58 0x67 true ≡ (0x26, true)
unfolding bcd_add
adds_decimal = refl

subtracts_decimal : bcd_sub 0x58 0x27 true ≡ (0x68, true)
unfolding bcd_sub
subtracts_decimal = refl
