-- ===== src/Cpu/Debug/Cycles.antt =====
-- The cycles of an instruction that ends in an exception.
use mathlib.Core.Option
use m68kemu.Base.{
  ◌-◌, ◌≤◌, if◌then◌else◌, ℕ, ◌+◌, ◌%◌, ◌<◌, ◌≡◌, arith, Bool, true, false, leb, List, ◌∷◌, some,
  Bool-cases, inl, inr, ap, ◌∙◌,
}
use m68kemu.Decode.Table.{opcode_cycle_table}
use m68kemu.Cpu.State.{Cpu}
use m68kemu.Cpu.Debug.{add_cycles, override_instruction_cycles}

abbrev modulus : ℕ
modulus = 0x1_0000_0000_0000_0000

-- The two ways of overrideInstructionCycles.
unfoldable pub raised : ℕ → Cpu → Cpu
unfolding opcode_cycle_table
raised total cpu = record cpu {
  cycles = (cpu.cycles + (total - opcode_cycle_table cpu.regs.ir)) % modulus;
}

abbrev lowered : ℕ → Cpu → Cpu
unfolding opcode_cycle_table
lowered total cpu = record cpu {
  cycles = (cpu.cycles + modulus - (opcode_cycle_table cpu.regs.ir - total)) % modulus;
}

at_most : (a b : ℕ) → leb a b ≡ true → a ≤ b
at_most a b h = ground arith

above : (a b : ℕ) → leb a b ≡ false → b < a
above a b h = ground arith

later_cycles :
    (t total n : ℕ)
    → t ≤ total
    → ((n + t) % modulus + (total - t)) % modulus ≡ (n + total) % modulus
later_cycles t total n h = omega arith

earlier_cycles :
    (t total n : ℕ)
    → t < 0x1_0000_0000
    → total < t
    → ((n + t) % modulus + modulus - (t - total)) % modulus ≡ (n + total) % modulus
earlier_cycles t total n k h = omega arith

override_if :
    (b : Bool) (total : ℕ) (cpu : Cpu)
    → leb (opcode_cycle_table cpu.regs.ir) total ≡ b
    → override_instruction_cycles total cpu ≡ (if b then raised total cpu else lowered total cpu)
unfolding override_instruction_cycles raised lowered
override_if b total cpu e = λ i. if e i then raised total cpu else lowered total cpu

pub override-raised :
    (total : ℕ) (cpu : Cpu)
    → leb (opcode_cycle_table cpu.regs.ir) total ≡ true
    → override_instruction_cycles total cpu ≡ raised total cpu
override-raised total cpu e = override_if true total cpu e

-- After the static cycles of the opcode are added and then overridden, the count has grown by
-- the new total, modulo 2^64, if the table's entry is a uint32. The scheduler has been told of
-- the static cycles only.
pub override_lem :
    (total : ℕ) (cpu : Cpu) (calls : List ℕ)
    → opcode_cycle_table cpu.regs.ir < 0x1_0000_0000
    → cpu.scheduler ≡ some calls
    → (let c =
          override_instruction_cycles total (add_cycles (opcode_cycle_table cpu.regs.ir) cpu) in
        (c.cycles ≡ (cpu.cycles + total) % 0x1_0000_0000_0000_0000)
        × (c.scheduler ≡ some (opcode_cycle_table cpu.regs.ir ∷ calls)))
unfolding add_cycles raised lowered
override_lem total cpu calls h s =
    let t = opcode_cycle_table cpu.regs.ir in
    let told = ap (Option.map (λ xs. t ∷ xs)) s in
    let c = add_cycles t cpu in
    elim (Bool-cases (leb t total)) [
      | inl e ↦ (
        ap (λ x. x.cycles) (override_if true total c e)
            ∙ later_cycles t total cpu.cycles (at_most t total e),
        ap (λ x. x.scheduler) (override_if true total c e) ∙ told,
      )
      | inr e ↦ (
        ap (λ x. x.cycles) (override_if false total c e)
            ∙ earlier_cycles t total cpu.cycles h (above t total e),
        ap (λ x. x.scheduler) (override_if false total c e) ∙ told,
      )
    ]
