-- ===== src/Cpu/Stream/Plain.antt =====
-- The stack in a RAM that nothing watches.
use mathlib.Core.Path.{subst}
use m68kemu.Base.{
  ℕ, ◌-◌, ◌≡◌, ◌∙◌, refl, sym, ap, bit_and, add32, sub32, update, true, false, Bool, Option, List,
}
use m68kemu.Operand.{Size, bytes}
use m68kemu.Effect.{IsOk, is_ok, bind-IsOk}
use m68kemu.Memory.Ram.{Ram}
use m68kemu.Memory.Ram.Laws.{IsInside, IsBytes, spelled}
use m68kemu.Interrupts.{InterruptController}
use m68kemu.Cpu.State.{Cpu, Registers, AccessContext, set_regs}
use m68kemu.Cpu.Debug.{context, data_function_code}
use m68kemu.Cpu.Access.{read_context, write_context, write_system_data, read}
use m68kemu.Cpu.Access.Plain.{
  HasRam, IsPlain, IsAligned, ram_stored, with_stored, with_stored-IsPlain, read_context-plain,
  write_context-plain,
}
use m68kemu.Cpu.Stream.{push_exception, pop, set_a}

-- What an access or an exception leaves alone.
abbrev pub rest_of : Cpu → Bool × InterruptController × ℕ × Option (List ℕ)
rest_of cpu = (cpu.stopped, cpu.interrupts, cpu.cycles, cpu.scheduler)

-- A processor with this RAM, that nothing watches, and with these registers; the rest is that of `o`.
pub record IsAt (o : Cpu) (r : Ram) (regs : Registers) (cpu : Cpu) : Type 0 where
  pub plain : IsPlain r cpu
  pub has_regs : cpu.regs ≡ regs
  pub same_rest : rest_of cpu ≡ rest_of o

abbrev pub with_sp : ℕ → Registers → Registers
with_sp v regs = record regs { a = update regs.a 7 v }

-- An address of 24 bits in the RAM, even where it must be.
abbrev pub IsGood : Size → ℕ → Ram → Type 0
IsGood s a r = (bit_and a 0xff_ffff ≡ a) × IsInside s a r × IsAligned s a

pub write_context-IsAt :
    {o : Cpu}
    → (s : Size) (a v : ℕ) (ctx : AccessContext) (r : Ram) (regs : Registers) (cpu : Cpu)
    → IsAt o r regs cpu
    → IsGood s a r
    → IsOk (λ _ c. IsAt o (ram_stored s a v r) regs c) (write_context s a v ctx cpu)
write_context-IsAt {o} s a v ctx r regs cpu at (e, i, l) =
    subst (IsOk (λ _ c. IsAt o (ram_stored s a v r) regs c))
      (sym (
        write_context-plain r cpu at.plain s a v ctx (subst (λ x. IsInside s x r) (sym e) i)
          (subst (IsAligned s) (sym e) l)))
      (is_ok tt (with_stored s (bit_and a 0xff_ffff) v r cpu) (
        subst (λ x. IsAt o (ram_stored s x v r) regs (with_stored s (bit_and a 0xff_ffff) v r cpu))
          e
          (record {
            plain = with_stored-IsPlain s (bit_and a 0xff_ffff) v r cpu at.plain;
            has_regs = at.has_regs;
            same_rest = at.same_rest;
          })))

pub read_context-IsAt :
    {o : Cpu}
    → (s : Size) (a : ℕ) (ctx : AccessContext) (r : Ram) (regs : Registers) (cpu : Cpu)
    → IsAt o r regs cpu
    → IsGood s a r
    → IsBytes r.cell
    → IsOk
        (λ v c. (v ≡ spelled s r.cell (a - r.offset)) × IsAt o r regs c)
        (read_context s a ctx cpu)
read_context-IsAt {o} s a ctx r regs cpu at (e, i, l) b =
    subst (IsOk (λ v c. (v ≡ spelled s r.cell (a - r.offset)) × IsAt o r regs c))
      (sym (
        read_context-plain r cpu at.plain s a ctx (subst (λ x. IsInside s x r) (sym e) i)
          (subst (IsAligned s) (sym e) l) b))
      (is_ok (spelled s r.cell (bit_and a 0xff_ffff - r.offset)) cpu
        (ap (λ x. spelled s r.cell (x - r.offset)) e, at))

pub set_regs-IsAt :
    {o : Cpu}
    → (f : Registers → Registers) (r : Ram) (regs : Registers) (cpu : Cpu) → IsAt o r regs cpu
    → IsAt o r (f regs) (set_regs f cpu)
set_regs-IsAt {o} f r regs cpu at = record {
  plain = record {
    has_ram = at.plain.has_ram;
    no_breakpoints = at.plain.no_breakpoints;
    no_trace = at.plain.no_trace;
    no_bus_trace = at.plain.no_bus_trace;
  };
  has_regs = ap f at.has_regs;
  same_rest = at.same_rest;
}

-- The stack pointer after a push.
abbrev pub below : Size → Registers → ℕ
below s regs = sub32 (regs.a 7) (bytes s)

pub push_exception-IsAt :
    {o : Cpu}
    → (s : Size) (v : ℕ) (r : Ram) (regs : Registers) (cpu : Cpu) → IsAt o r regs cpu
    → IsGood s (below s regs) r
    → IsOk
        (λ _ c. IsAt o (ram_stored s (below s regs) v r) (with_sp (below s regs) regs) c)
        (push_exception s v cpu)
unfolding push_exception write_system_data
push_exception-IsAt {o} s v r regs cpu at =
    subst
      (λ g.
        IsGood s (below s g) r
        → IsOk (λ _ c. IsAt o (ram_stored s (below s g) v r) (with_sp (below s g) g) c)
            (push_exception s v cpu))
      at.has_regs
      (λ good.
        let sp = below s cpu.regs in
        write_context-IsAt s sp v (context 5 true true) r (with_sp sp cpu.regs) (set_a 7 sp cpu)
          (set_regs-IsAt (with_sp sp) r cpu.regs cpu
            (record { plain = at.plain; has_regs = refl; same_rest = at.same_rest }))
          good)

pub pop-IsAt :
    {o : Cpu}
    → (s : Size) (r : Ram) (regs : Registers) (cpu : Cpu) → IsAt o r regs cpu
    → IsGood s (regs.a 7) r
    → IsBytes r.cell
    → IsOk
        (λ v c.
          (v ≡ spelled s r.cell (regs.a 7 - r.offset))
          × IsAt o r (with_sp (add32 (regs.a 7) (bytes s)) regs) c)
        (pop s cpu)
unfolding pop read
pop-IsAt {o} s r regs cpu at =
    subst
      (λ g.
        IsGood s (g.a 7) r
        → IsBytes r.cell
        → IsOk
            (λ v c.
              (v ≡ spelled s r.cell (g.a 7 - r.offset))
              × IsAt o r (with_sp (add32 (g.a 7) (bytes s)) g) c)
            (pop s cpu))
      at.has_regs
      (λ good b.
        bind-IsOk (λ c. read s (c.regs.a 7) c) _ cpu
          (read_context-IsAt s (cpu.regs.a 7) (context (data_function_code cpu) false false) r
            cpu.regs cpu (record { plain = at.plain; has_regs = refl; same_rest = at.same_rest })
            good b)
          (λ v c q.
            is_ok v _
              (q.0, set_regs-IsAt (λ g. with_sp (add32 (g.a 7) (bytes s)) g) r cpu.regs c q.1)))

-- What does not touch the registers, the bus, the breakpoints and the trace flags.
pub IsAt-keep :
    {o : Cpu}
    → (r : Ram) (regs : Registers) (cpu c : Cpu) → IsAt o r regs cpu
    → c.regs ≡ cpu.regs
    → c.bus ≡ cpu.bus
    → c.breakpoints ≡ cpu.breakpoints
    → c.trace_instructions ≡ cpu.trace_instructions
    → c.trace_bus ≡ cpu.trace_bus
    → rest_of c ≡ rest_of cpu
    → IsAt o r regs c
IsAt-keep {o} r regs cpu c at e b k t u w = record {
  plain = record {
    has_ram = subst (HasRam r) (sym b) at.plain.has_ram;
    no_breakpoints = k ∙ at.plain.no_breakpoints;
    no_trace = t ∙ at.plain.no_trace;
    no_bus_trace = u ∙ at.plain.no_bus_trace;
  };
  has_regs = e ∙ at.has_regs;
  same_rest = w ∙ at.same_rest;
}

-- A push to a known address, and a pop from one.
pub push_exception-to :
    {o : Cpu}
    → (s : Size) (a v : ℕ) (r : Ram) (regs : Registers) (cpu : Cpu) → IsAt o r regs cpu
    → below s regs ≡ a
    → IsGood s a r
    → IsOk (λ _ c. IsAt o (ram_stored s a v r) (with_sp a regs) c) (push_exception s v cpu)
push_exception-to {o} s a v r regs cpu at e =
    subst
      (λ x.
        IsGood s x r
        → IsOk (λ _ c. IsAt o (ram_stored s x v r) (with_sp x regs) c) (push_exception s v cpu))
      e (push_exception-IsAt s v r regs cpu at)

pub pop-from :
    {o : Cpu}
    → (s : Size) (a n : ℕ) (r : Ram) (regs : Registers) (cpu : Cpu) → IsAt o r regs cpu
    → regs.a 7 ≡ a
    → add32 a (bytes s) ≡ n
    → IsGood s a r
    → IsBytes r.cell
    → IsOk (λ v c. (v ≡ spelled s r.cell (a - r.offset)) × IsAt o r (with_sp n regs) c) (pop s cpu)
pop-from {o} s a n r regs cpu at e f good b =
    subst
      (λ x.
        IsOk (λ v c. (v ≡ spelled s r.cell (a - r.offset)) × IsAt o r (with_sp x regs) c)
          (pop s cpu))
      f
      (subst
        (λ x.
          IsGood s x r
          → IsOk
              (λ v c.
                (v ≡ spelled s r.cell (x - r.offset))
                × IsAt o r (with_sp (add32 x (bytes s)) regs) c)
              (pop s cpu))
        e (λ g. pop-IsAt s r regs cpu at g b) good)
