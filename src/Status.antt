-- ===== src/Status.antt =====
-- ssr_helpers.go and the flag constants of cpu.go: the status register.
use m68kemu.Base.{ℕ, Bool, bit_and, bit_or, not16, if◌then◌else◌}
use m68kemu.Operand.{Size, is_zero, is_negative}

abbrev pub sr_carry : ℕ
sr_carry = 0x0001

abbrev pub sr_overflow : ℕ
sr_overflow = 0x0002

abbrev pub sr_zero : ℕ
sr_zero = 0x0004

abbrev pub sr_negative : ℕ
sr_negative = 0x0008

abbrev pub sr_extend : ℕ
sr_extend = 0x0010

abbrev pub sr_interrupt_mask : ℕ
sr_interrupt_mask = 0x0700

abbrev pub sr_supervisor : ℕ
sr_supervisor = 0x2000

abbrev pub status_mask_nzvc : ℕ
status_mask_nzvc = 0x000f

abbrev pub status_mask_nzvcx : ℕ
status_mask_nzvcx = 0x001f

-- `if c { sr |= flag }`
abbrev pub set_if : Bool → ℕ → ℕ → ℕ
set_if c flag sr = if c then bit_or sr flag else sr

-- The status register after replaceStatusFlags(cpu, mask, flags).
unfoldable pub replace_status_flags : ℕ → ℕ → ℕ → ℕ
replace_status_flags sr mask flags = bit_or (bit_and sr (not16 mask)) (bit_and flags mask)

unfoldable pub nz_flags : ℕ → Size → ℕ
unfolding is_zero is_negative
nz_flags result size =
    if is_zero size result
    then bit_or 0 sr_zero
    else if is_negative size result
    then bit_or 0 sr_negative
    else 0

-- The status register after updateNZClearVC(cpu, result, size).
unfoldable pub update_nz_clear_vc : ℕ → ℕ → Size → ℕ
unfolding replace_status_flags nz_flags
update_nz_clear_vc sr result size = replace_status_flags sr status_mask_nzvc (nz_flags result size)
