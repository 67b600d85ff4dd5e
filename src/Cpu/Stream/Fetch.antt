-- ===== src/Cpu/Stream/Fetch.antt =====
-- The instruction stream and a push in a RAM that nothing watches.
use mathlib.Core.Path.{subst}
use m68kemu.Base.{
  ℕ, ◌+◌, ◌-◌, ◌≤◌, ◌<◌, ◌%◌, ◌≡◌, ◌∙◌, refl, sym, ap, arith, bit_and, true, false, none, some,
  ◌!=◌, ◌||◌, ◌&&◌, ltb, leb, if◌then◌else◌, add32, sub32, past, and_mask,
}
use m68kemu.Operand.{Size, word, long}
use m68kemu.Effect.{bind-ok, IsOk, is_ok, Result, ok, err}
use m68kemu.Memory.Ram.{Ram}
use m68kemu.Memory.Ram.Laws.{IsBytes, spelled}
use m68kemu.Memory.Bus.{fast_ram}
use m68kemu.Cpu.State.{Cpu, Registers}
use m68kemu.Cpu.Debug.{
  context, data_function_code, program_function_code, should_trace_bus_access, trace_bus_access,
}
use m68kemu.Cpu.Access.{Fast, skip, hit, miss, write, read_program}
use m68kemu.Cpu.Access.Plain.{IsPlain, got, fast_ram-some, ram_stored}
use m68kemu.Cpu.Stream.{
  program_ram_read, read_program_fast, trace_program, read_at_pc, pop_pc, push, advance_pc, set_a,
  record_program_fault,
}
use m68kemu.Cpu.Stream.Plain.{IsAt, IsGood, with_sp, below, set_regs-IsAt, write_context-IsAt}

program_ram_read-hit :
    (a : ℕ) (r : Ram)
    → IsGood word a r
    → IsBytes r.cell
    → program_ram_read word a r ≡ hit (spelled word r.cell (a - r.offset))
unfolding program_ram_read
program_ram_read-hit a r (e, (p, q, w), l) b = past (bit_and a 1 != 0) _ (ground arith) (
    past (ltb a r.offset) _ (ground arith)
      (past (leb r.size (add32 (sub32 a r.offset) 1)) _ (ground arith) (got word a r (p, q, w) b)))

read_at_pc-ok :
    (r : Ram) (cpu : Cpu)
    → IsPlain r cpu
    → IsGood word cpu.regs.pc r
    → IsBytes r.cell
    → read_at_pc word cpu ≡ ok (spelled word r.cell (cpu.regs.pc - r.offset)) cpu
unfolding read_at_pc read_program_fast trace_program
read_at_pc-ok r cpu plain (e, i, l) b =
    let f = fast_ram-some r cpu.bus plain.has_ram in
    ap served (
      (λ t. elim (plain.no_breakpoints t) [
        | some g ↦ skip
        | none ↦ elim (fast_ram cpu.bus) [ none ↦ skip | some q ↦ program_ram_read word (e t) q ]
      ])
      ∙ (λ t. elim (f t) [ none ↦ skip | some q ↦ program_ram_read word cpu.regs.pc q ])
      ∙ program_ram_read-hit cpu.regs.pc r (e, i, l) b)
    ∙ (λ t. ok (spelled word r.cell (cpu.regs.pc - r.offset)) (
        if (plain.no_trace t || plain.no_bus_trace t)
          && should_trace_bus_access (context (program_function_code cpu) false false) cpu
        then trace_bus_access word (bit_and cpu.regs.pc 0xff_ffff)
            (spelled word r.cell (cpu.regs.pc - r.offset))
            (context (program_function_code cpu) false false) cpu
        else cpu))
  where
    served : Fast ℕ → Result Cpu ℕ
    served x = elim x [
      | hit v ↦ ok v (trace_program word cpu.regs.pc v cpu)
      | miss x ↦ err x (record_program_fault cpu.regs.pc x cpu)
      | skip ↦ read_program word cpu.regs.pc cpu
    ]

abbrev pub past_word : Registers → Registers
past_word g = record g { pc = add32 g.pc 2 }

-- An extension word is read, and the PC moves past it.
pub pop_pc-IsAt :
    {o : Cpu}
    → (r : Ram) (regs : Registers) (cpu : Cpu) → IsAt o r regs cpu
    → IsGood word regs.pc r
    → IsBytes r.cell
    → IsOk (λ _ c. IsAt o r (past_word regs) c) (pop_pc word cpu)
unfolding pop_pc
pop_pc-IsAt {o} r regs cpu at =
    subst
      (λ g.
        IsGood word g.pc r
        → IsBytes r.cell
        → IsOk (λ _ c. IsAt o r (past_word g) c) (pop_pc word cpu))
      at.has_regs
      (λ (e, i, l) b.
        let now : IsAt o r cpu.regs cpu = record {
          plain = at.plain;
          has_regs = refl;
          same_rest = at.same_rest;
        } in
        subst (IsOk (λ _ c. IsAt o r (past_word cpu.regs) c))
          (sym (
            bind-ok (read_at_pc word) _ cpu (read_at_pc-ok r cpu at.plain (e, i, l) b)
            ∙ ap (ok (spelled word r.cell (cpu.regs.pc - r.offset))) (
                past (bit_and (add32 cpu.regs.pc 2) 1 != 0) _
                  (let u = and_mask 1 (add32 cpu.regs.pc 2) in
                    let v = and_mask 1 cpu.regs.pc in ground arith)
                  refl)))
          (is_ok _ (advance_pc 2 cpu) (set_regs-IsAt past_word r cpu.regs cpu now)))

-- A push to a known address.
pub push-to :
    {o : Cpu}
    → (s : Size) (a v : ℕ) (r : Ram) (regs : Registers) (cpu : Cpu) → IsAt o r regs cpu
    → below s regs ≡ a
    → IsGood s a r
    → IsOk (λ _ c. IsAt o (ram_stored s a v r) (with_sp a regs) c) (push s v cpu)
unfolding push write
push-to {o} s a v r regs cpu at e =
    subst
      (λ x.
        IsGood s x r → IsOk (λ _ c. IsAt o (ram_stored s x v r) (with_sp x regs) c) (push s v cpu))
      e
      (subst
        (λ g.
          IsGood s (below s g) r
          → IsOk (λ _ c. IsAt o (ram_stored s (below s g) v r) (with_sp (below s g) g) c)
              (push s v cpu))
        at.has_regs
        (λ good.
          let sp = below s cpu.regs in
          let c = set_a 7 sp cpu in
          write_context-IsAt s sp v (context (data_function_code c) false true) r
            (with_sp sp cpu.regs) c
            (set_regs-IsAt (with_sp sp) r cpu.regs cpu
              (record { plain = at.plain; has_regs = refl; same_rest = at.same_rest }))
            good))

-- The conditions on the memory: RAM from address 0 on, with a word at the PC and an even stack
-- pointer that leaves room for a long.
pub record HasStack (r : Ram) (g : Registers) : Type 0 where
  pub offset : r.offset ≡ 0
  pub is_small : r.size ≤ 0x100_0000
  pub are_bytes : IsBytes r.cell
  pub even_pc : bit_and g.pc 1 ≡ 0
  pub has_word : g.pc + 2 ≤ r.size
  pub even : bit_and (g.a 7) 1 ≡ 0
  pub above : 4 ≤ g.a 7
  pub inside : g.a 7 ≤ r.size

pub word-IsGood : (r : Ram) (g : Registers) → HasStack r g → IsGood word g.pc r
word-IsGood r g h =
    let o = h.offset in
    let l = h.is_small in
    let w = h.has_word in
    (and_mask 24 g.pc ∙ omega arith, (omega arith, omega arith, omega arith), h.even_pc)

pub stack-IsGood : (r : Ram) (g : Registers) → HasStack r g → IsGood long (g.a 7 - 4) r
stack-IsGood r g h =
    let o = h.offset in
    let l = h.is_small in
    let a = h.above in
    let i = h.inside in
    let e = and_mask 1 (g.a 7) in
    let q = h.even in
    (
      and_mask 24 (g.a 7 - 4) ∙ omega arith,
      (omega arith, omega arith, omega arith),
      and_mask 1 (g.a 7 - 4) ∙ omega arith,
    )

pub long_value : (v n : ℕ) → n < 0x1_0000_0000 → v ≡ n % 0x1_0000_0000 → v ≡ n
long_value v n h e = omega arith
