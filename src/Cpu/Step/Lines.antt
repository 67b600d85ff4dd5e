-- ===== src/Cpu/Step/Lines.antt =====
-- The opcodes of the lines A and F, of which cpu.go makes an exception with their own PC stacked.
use m68kemu.Base.{
  ℕ, ◌*◌, ◌/◌, ◌%◌, ◌≡◌, ◌∙◌, ap, arith, bit_and, bit_or, bit, bit-or, true, ◌==◌, ◌||◌, ◌+◌, ◌-◌,
  ◌<◌, refl, sym, taken, none, some, inl, inr, if◌then◌else◌, and_mask, Option,
}
use m68kemu.Base.Fields.{and_high}
use m68kemu.Decode.Lines.{IsLine, opcode_table-line}
use m68kemu.Decode.Registration.{Handler}
use m68kemu.Cpu.State.{Cpu, Run, Registers, set_regs}
use m68kemu.Cpu.Debug.{add_cycles, override_instruction_cycles}
use m68kemu.Cpu.Debug.Cycles.{raised, override-raised}
use m68kemu.Memory.Ram.{Ram}
use m68kemu.Effect.{◌>>◌, modify, choose, IsOk, map-IsOk}
use m68kemu.Decode.Table.{opcode_cycle_table}
use m68kemu.Cpu.Access.Plain.{IsPlain}
use m68kemu.Cpu.Exception.Stacks.{is_supervisor_sr, supervisor_bit, system_stack}
use m68kemu.Cpu.Exception.Frame.{
  sr_regs, frame_ram, handler_of, HasRoom, HasTaken, raise_exception-IsAt,
}
use m68kemu.Cpu.Exception.Return.{sr_regs-IsSwitched}
use mathlib.Core.Path.{subst}
use m68kemu.Cpu.Exception.{
  opcode_exception, exception_with_cycles, exception_vector_for_opcode, supervisor_sr,
  raise_exception_with_pc,
}
use m68kemu.Cpu.Dispatch.{handle}
use m68kemu.Cpu.Step.{run_opcode, or_fault}

-- The vector of a line.
abbrev pub line_vector : ℕ → ℕ
line_vector opcode = if opcode / 0x1000 == 10 then 10 else 11

top_bits : (opcode : ℕ) → bit_and opcode 0xf000 ≡ opcode / 0x1000 % 16 * 0x1000
top_bits opcode = and_high 12 opcode 15 ∙ ap (λ x. x * 0x1000) (and_mask 4 (opcode / 0x1000))

vector-line : (opcode : ℕ) → IsLine opcode → exception_vector_for_opcode opcode ≡ line_vector opcode
unfolding exception_vector_for_opcode
vector-line opcode l =
    let t = top_bits opcode in elim l [ inl e ↦ ground arith | inr e ↦ ground arith ]

-- No handler runs, whatever the state.
run_opcode-exception :
    (opcode pc : ℕ) (cpu : Cpu)
    → IsLine opcode
    → run_opcode opcode pc cpu
      ≡ opcode_exception
          (line_vector opcode)
          pc
          (add_cycles 0 (set_regs (λ r. record r { ir = opcode }) cpu))
unfolding run_opcode
run_opcode-exception opcode pc cpu l =
    let (h, c) = opcode_table-line opcode l in
    (λ i. chosen (h i) (add_cycles (c i) (set_regs (λ r. record r { ir = opcode }) cpu)))
    ∙ ap (λ v. opcode_exception v pc (add_cycles 0 (set_regs (λ r. record r { ir = opcode }) cpu)))
        (vector-line opcode l)
  where
    chosen : Option Handler → Run (Unit {0})
    chosen o = elim o [
      | none ↦ opcode_exception (exception_vector_for_opcode opcode) pc
      | some h ↦ λ c. or_fault true (handle h c)
    ]

-- The processor when the exception is raised: it has the opcode, and 34 cycles more.
abbrev raising : ℕ → Cpu → Cpu
unfolding add_cycles raised
raising opcode cpu = raised 34 (add_cycles 0 (set_regs (λ r. record r { ir = opcode }) cpu))

opcode_exception-raises :
    (vector opcode pc : ℕ) (cpu : Cpu)
    → (vector == 10 || vector == 11) ≡ true
    → opcode_cycle_table opcode ≡ 0
    → opcode_exception vector pc (add_cycles 0 (set_regs (λ r. record r { ir = opcode }) cpu))
      ≡ raise_exception_with_pc vector (bit_or cpu.regs.sr 0x2000) pc pc (raising opcode cpu)
unfolding opcode_exception add_cycles raising raised
opcode_exception-raises vector opcode pc cpu v t =
    let c = add_cycles 0 (set_regs (λ r. record r { ir = opcode }) cpu) in
    (λ i.
      choose (v i)
        (do
          modify (override_instruction_cycles 34)
          λ d. raise_exception_with_pc vector (supervisor_sr d) pc pc d)
        (exception_with_cycles vector 34) c)
    ∙ ap (λ d. raise_exception_with_pc vector (supervisor_sr d) pc pc d)
        (override-raised 34 c (rw t refl))

-- The exception of a line has been taken: execution goes on at the handler of its vector, in
-- supervisor mode; the address of the opcode and the status register lie on the system stack, and
-- 34 cycles have passed. The other registers and the requests are as they were.
pub record IsTrapped (vector pc : ℕ) (r : Ram) (cpu c : Cpu) : Type 0 where
  pub at_handler : c.regs.pc ≡ handler_of vector (frame_ram (system_stack cpu) pc cpu.regs.sr r)
  pub frame : IsPlain (frame_ram (system_stack cpu) pc cpu.regs.sr r) c
  pub sp : c.regs.a 7 ≡ system_stack cpu - 6
  pub sr : c.regs.sr ≡ bit_or cpu.regs.sr 0x2000
  pub same_d : c.regs.d ≡ cpu.regs.d
  pub same_a : (i : ℕ) → i < 7 → c.regs.a i ≡ cpu.regs.a i
  pub cycles : c.cycles ≡ (cpu.cycles + 34) % 0x1_0000_0000_0000_0000
  pub same_requests : c.interrupts ≡ cpu.interrupts
  pub same_stop : c.stopped ≡ cpu.stopped

trapped :
    (vector opcode pc : ℕ) (r : Ram) (cpu c : Cpu)
    → opcode_cycle_table opcode ≡ 0
    → HasTaken
        (raising opcode cpu)
        (system_stack cpu)
        (handler_of vector (frame_ram (system_stack cpu) pc cpu.regs.sr r))
        (sr_regs (bit_or cpu.regs.sr 0x2000) (raising opcode cpu).regs)
        (frame_ram (system_stack cpu) pc cpu.regs.sr r)
        c
    → IsTrapped vector pc r cpu c
unfolding raising add_cycles raised
trapped vector opcode pc r cpu c z (x, t, at) =
    let g = (raising opcode cpu).regs in
    let there = sr_regs-IsSwitched (bit_or cpu.regs.sr 0x2000) g in
    record {
      at_handler = ap (λ (y : Registers). y.pc) at.has_regs ∙ t.at_handler;
      frame = at.plain;
      sp = ap (λ (y : Registers). y.a 7) at.has_regs ∙ t.pushed;
      sr = ap (λ (y : Registers). y.sr) at.has_regs ∙ t.same_sr;
      same_d = ap (λ (y : Registers). y.d) at.has_regs ∙ t.same_d ∙ there.same_d;
      same_a = λ i k. ap (λ (y : Registers). y.a i) at.has_regs ∙ t.same_a i k ∙ there.same_a i k;
      cycles = ap (λ y. y.2) at.same_rest ∙ omega (arith, z);
      same_requests = ap (λ y. y.1) at.same_rest;
      same_stop = ap (λ y. y.0) at.same_rest;
    }

raises_supervisor : (sr : ℕ) → is_supervisor_sr (bit_or sr 0x2000) ≡ true
raises_supervisor sr =
    let a = supervisor_bit (bit_or sr 0x2000) in
    let b = bit-or 13 sr 0x2000 in let d : bit 13 0x2000 ≡ 1 = refl in ground arith

-- An opcode of line A or F takes the exception of its line, without an error: the address of the
-- opcode and the status register are stacked, and execution goes on at the handler of the vector
-- 10 or 11, in supervisor mode, 34 cycles later, with the data registers and A0 to A6 as they
-- were. The memory is a single RAM of bytes from address 0 on, of 0x400 bytes to 2^24, the system
-- stack pointer is even, at least 6 and not above the end of the RAM, and there are no breakpoints
-- and no tracing.
pub run_opcode-line :
    (opcode pc : ℕ) (r : Ram) (cpu : Cpu)
    → IsLine opcode
    → IsPlain r cpu
    → HasRoom r (system_stack cpu) (line_vector opcode)
    → IsOk (λ _ c. IsTrapped (line_vector opcode) pc r cpu c) (run_opcode opcode pc cpu)
unfolding raising add_cycles raised
run_opcode-line opcode pc r cpu l plain room =
    let vector = line_vector opcode in
    let new_sr = bit_or cpu.regs.sr 0x2000 in
    let z = (opcode_table-line opcode l).1 in
    let d = raising opcode cpu in
    let plain1 : IsPlain r d = record {
      has_ram = plain.has_ram;
      no_breakpoints = plain.no_breakpoints;
      no_trace = plain.no_trace;
      no_bus_trace = plain.no_bus_trace;
    } in
    let e : (sr_regs new_sr d.regs).a 7 ≡ system_stack cpu =
      sym (taken (is_supervisor_sr new_sr) _ (raises_supervisor cpu.regs.sr) refl)
      ∙ (sr_regs-IsSwitched new_sr d.regs).system in
    subst (IsOk (λ _ c. IsTrapped vector pc r cpu c))
      (sym (
        run_opcode-exception opcode pc cpu l
        ∙ opcode_exception-raises vector opcode pc cpu (is_line opcode) z))
      (map-IsOk _ (λ c t. trapped vector opcode pc r cpu c z t)
        (raise_exception-IsAt vector new_sr pc pc (system_stack cpu) r d plain1 e room))
  where
    is_line : (n : ℕ) → (line_vector n == 10 || line_vector n == 11) ≡ true
    is_line n = ground arith
