-- ===== src/Cpu/Exception/Stacks.antt =====
-- The two stack pointers behind A7.
use m68kemu.Base.{
  ℕ, ◌+◌, ◌%◌, ◌≡◌, arith, Bool, bit_and, bit_xor, bit, bit-xor, ◌!=◌, if◌then◌else◌,
}
use m68kemu.Base.Fields.{and_digit}
use m68kemu.Cpu.State.{Cpu}
use m68kemu.Cpu.Exception.{set_sr}

abbrev pub is_supervisor_sr : ℕ → Bool
is_supervisor_sr sr = bit_and sr 0x2000 != 0

-- The user's stack pointer, wherever it is kept.
abbrev pub user_stack : Cpu → ℕ
user_stack cpu = if is_supervisor_sr cpu.regs.sr then cpu.regs.usp else cpu.regs.a 7

abbrev pub system_stack : Cpu → ℕ
system_stack cpu = if is_supervisor_sr cpu.regs.sr then cpu.regs.a 7 else cpu.regs.ssp

pub supervisor_bit : (sr : ℕ) → is_supervisor_sr sr ≡ (bit 13 sr != 0)
supervisor_bit sr = ground (arith, and_digit 13 sr)

pub changed_bit : (a b : ℕ) → is_supervisor_sr (bit_xor a b) ≡ ((bit 13 a + bit 13 b) % 2 != 0)
changed_bit a b = ground (arith, and_digit 13 (bit_xor a b), bit-xor 13 a b)

-- Whatever value the status register gets, the user's and the system's stack pointer stay, each
-- wherever it is kept before and after, and the register has the value.
pub set_sr_lem :
    (value : ℕ) (cpu : Cpu)
    → (user_stack (set_sr value cpu) ≡ user_stack cpu)
      × (system_stack (set_sr value cpu) ≡ system_stack cpu)
      × ((set_sr value cpu).regs.sr ≡ value)
unfolding set_sr
set_sr_lem value cpu =
    let x = changed_bit cpu.regs.sr value in
    let a = supervisor_bit cpu.regs.sr in
    let b = supervisor_bit value in (ground arith, ground arith, ground arith)
