-- ===== src/Alu/Spec.antt =====
-- What the arithmetic instructions promise: results modulo the width, carries and borrows as
-- comparisons, signed overflow as a result outside the range of the width.
use m68kemu.Base.{ℕ, ◌+◌, ◌-◌, ◌*◌, Bool, true, false, ◌||◌, ◌==◌, leb, ltb, if◌then◌else◌}
use m68kemu.Base.Int.{ℤ, pos, negsuc, ltb_ℤ}
use m68kemu.Operand.{Size, sign_bit}

-- The number of values of a width.
abbrev pub span : Size → ℕ
span z = sign_bit z * 2

-- The integer that a value below `span z` stands for in two's complement.
abbrev pub signed : Size → ℕ → ℤ
signed z x = if ltb x (sign_bit z) then pos x else negsuc (span z - x - 1)

abbrev pub is_out_of_range : Size → ℤ → Bool
is_out_of_range z i = ltb_ℤ i (negsuc (sign_bit z - 1)) || ltb_ℤ (pos (sign_bit z - 1)) i

abbrev pub digit : Bool → ℕ
digit true = 1
digit false = 0

-- The five flags as they stand in the status register.
abbrev pub ccr : Bool → Bool → Bool → Bool → Bool → ℕ
ccr x n z v c = 16 * digit x + 8 * digit n + 4 * digit z + 2 * digit v + digit c

-- The flags of a sum or difference with result `r`: carry and extend are one.
abbrev pub ccr_of : Size → ℕ → Bool → Bool → ℕ
ccr_of z r v c = ccr c (leb (sign_bit z) r) (r == 0) v c
