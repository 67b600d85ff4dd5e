-- ===== src/Cpu/Step/Woken.antt =====
-- A stopped processor goes on when an interrupt is acceptable.
use mathlib.Core.Path.{subst}
use m68kemu.Base.{
  ℕ, ◌+◌, ◌-◌, ◌%◌, ◌≡◌, ◌∙◌, refl, sym, ap, arith, bit_and, bit_or, bit, bit-or, not16, u16, ◌<<<◌,
  true, false, none, some, Option, if_elim, past, taken,
}
use m68kemu.Effect.{Result, ok, err, IsOk, is_ok, bind-IsOk, bind-ok}
use m68kemu.Interrupts
use m68kemu.Interrupts.{Accepted}
use m68kemu.Interrupts.Laws.{IsCached, has_pending_lem, is_some}
use m68kemu.Status.{sr_interrupt_mask}
use m68kemu.Memory.Ram.{Ram}
use m68kemu.Cpu.State.{Cpu, Registers, InterruptInfo}
use m68kemu.Cpu.Debug.{add_cycles, dispatch_interrupt, append_history}
use m68kemu.Cpu.Access.Plain.{IsPlain}
use m68kemu.Cpu.Stream.Plain.{IsAt, IsAt-keep}
use m68kemu.Cpu.Exception.{raise_exception}
use m68kemu.Cpu.Exception.Stacks.{is_supervisor_sr, supervisor_bit, system_stack}
use m68kemu.Cpu.Exception.Frame.{
  sr_regs, frame_ram, HasRoom, HasTaken, handler_of, raise_exception-IsAt,
}
use m68kemu.Cpu.Exception.Return.{sr_regs-IsSwitched}
use m68kemu.Cpu.Group0.{interrupt, interrupt_sr, take_pending, check_interrupts, accept}
use m68kemu.Cpu.Step.{step, execute_next, unless_stopped, reset_step_debug_state}

dispatch_interrupt-IsAt :
    {o : Cpu}
    → (info : InterruptInfo) (r : Ram) (regs : Registers) (cpu : Cpu) → IsAt o r regs cpu
    → IsAt o r regs (dispatch_interrupt info cpu)
unfolding dispatch_interrupt append_history
dispatch_interrupt-IsAt {o} info r regs cpu at =
    if_elim (IsAt o r regs) cpu.has_interrupt_trap _ _
      (λ b. IsAt-keep r regs cpu _ at refl refl refl refl refl refl)
      (λ b. IsAt-keep r regs cpu _ at refl refl refl refl refl refl)

interrupt_sr-supervisor : (sr level : ℕ) → is_supervisor_sr (interrupt_sr sr level) ≡ true
unfolding interrupt_sr
interrupt_sr-supervisor sr level =
    let low = bit_and sr (not16 sr_interrupt_mask) in
    let high = u16 (level <<< 8) in
    let a = supervisor_bit (interrupt_sr sr level) in
    let b = bit-or 13 (bit_or low 0x2000) high in
    let c = bit-or 13 low 0x2000 in let d : bit 13 0x2000 ≡ 1 = refl in ground arith

-- The processor has taken the interrupt: it runs again, at the handler of its vector, in supervisor
-- mode with the level as its mask, the PC and the status register lie on the system stack, and 44
-- cycles have passed.
pub record IsWoken (acc : Accepted) (r : Ram) (cpu c : Cpu) : Type 0 where
  pub runs : c.stopped ≡ false
  pub no_request : c.interrupts ≡ acc.rest
  pub cycles : c.cycles ≡ (cpu.cycles + 44) % 0x1_0000_0000_0000_0000
  pub sr : c.regs.sr ≡ interrupt_sr cpu.regs.sr acc.level
  pub sp : c.regs.a 7 ≡ system_stack cpu - 6
  pub at_handler :
      c.regs.pc
      ≡ handler_of acc.interrupt.vector (frame_ram (system_stack cpu) cpu.regs.pc cpu.regs.sr r)
  pub frame : IsPlain (frame_ram (system_stack cpu) cpu.regs.pc cpu.regs.sr r) c
  pub same_d : c.regs.d ≡ cpu.regs.d

module _ (acc : Accepted) (r : Ram) (cpu : Cpu) (plain : IsPlain r cpu)
    (room : HasRoom r (system_stack cpu) acc.interrupt.vector) where
  -- What raising the exception leaves is the woken processor.
  woken :
      (c : Cpu)
      → HasTaken
          (add_cycles 44 (accept acc cpu))
          (system_stack cpu)
          (handler_of acc.interrupt.vector (frame_ram (system_stack cpu) cpu.regs.pc cpu.regs.sr r))
          (sr_regs (interrupt_sr cpu.regs.sr acc.level) cpu.regs)
          (frame_ram (system_stack cpu) cpu.regs.pc cpu.regs.sr r)
          c
      → IsWoken acc r cpu c
  unfolding add_cycles
  woken c (x, t, at) = record {
    runs = ap (λ z. z.0) at.same_rest;
    no_request = ap (λ z. z.1) at.same_rest;
    cycles = ap (λ z. z.2) at.same_rest;
    sr = ap (λ (g : Registers). g.sr) at.has_regs ∙ t.same_sr;
    sp = ap (λ (g : Registers). g.a 7) at.has_regs ∙ t.pushed;
    at_handler = ap (λ (g : Registers). g.pc) at.has_regs ∙ t.at_handler;
    frame = at.plain;
    same_d =
        ap (λ (g : Registers). g.d) at.has_regs
        ∙ t.same_d
        ∙ (sr_regs-IsSwitched (interrupt_sr cpu.regs.sr acc.level) cpu.regs).same_d;
  }

  interrupt-IsWoken :
      IsOk
        (λ _ c. IsWoken acc r cpu c)
        (interrupt acc.level acc.interrupt.vector acc.interrupt.auto_vector (accept acc cpu))
  unfolding interrupt raise_exception add_cycles
  interrupt-IsWoken =
      let new_sr = interrupt_sr cpu.regs.sr acc.level in
      let c1 = add_cycles 44 (accept acc cpu) in
      let e =
        sym (taken (is_supervisor_sr new_sr) _ (interrupt_sr-supervisor cpu.regs.sr acc.level) refl)
        ∙ (sr_regs-IsSwitched new_sr cpu.regs).system in
      bind-IsOk (raise_exception acc.interrupt.vector new_sr) _ c1
        (raise_exception-IsAt acc.interrupt.vector new_sr cpu.regs.pc cpu.regs.pc (system_stack cpu)
          r c1
          (record {
            has_ram = plain.has_ram;
            no_breakpoints = plain.no_breakpoints;
            no_trace = plain.no_trace;
            no_bus_trace = plain.no_bus_trace;
          })
          e room)
        (λ u c (x, t, at). is_ok tt _ (woken _ (x, t, dispatch_interrupt-IsAt _ _ x c at)))

  check_interrupts-IsWoken :
      Interrupts.pending cpu.regs.sr cpu.interrupts ≡ some acc
      → IsCached cpu.interrupts
      → IsOk (λ _ c. IsWoken acc r cpu c) (check_interrupts cpu)
  unfolding check_interrupts take_pending
  check_interrupts-IsWoken p k =
      let h = has_pending_lem cpu.regs.sr cpu.interrupts k ∙ ap is_some p in
      subst (IsOk (λ _ c. IsWoken acc r cpu c))
        (sym (taken (Interrupts.has_pending cpu.regs.sr cpu.interrupts) _ h (ap served p)))
        interrupt-IsWoken
    where
      served : Option Accepted → Result Cpu (Unit {0})
      served o = elim o [
        | none ↦ ok tt cpu
        | some a ↦ interrupt a.level a.interrupt.vector a.interrupt.auto_vector (accept a cpu)
      ]

-- Step on a stopped processor with an acceptable request takes the interrupt and runs the next
-- instruction from the processor that has taken it: it does not stay stopped. The memory is a
-- single RAM of bytes from address 0 on, of 0x400 bytes to 2^24, the system stack pointer is
-- even, at least 6 and not above the end of the RAM, the vector is at most 255, the controller's
-- cache is right, and there are no breakpoints and no tracing.
pub step-wakes :
    (acc : Accepted) (r : Ram) (cpu : Cpu)
    → cpu.stopped ≡ true
    → IsPlain r cpu
    → HasRoom r (system_stack cpu) acc.interrupt.vector
    → Interrupts.pending cpu.regs.sr cpu.interrupts ≡ some acc
    → IsCached cpu.interrupts
    → (c : Cpu) × IsWoken acc r cpu c × (step cpu ≡ execute_next c)
unfolding step reset_step_debug_state unless_stopped
step-wakes acc r cpu s plain room p k =
    let cpu1 = reset_step_debug_state cpu in
    let plain1 : IsPlain r cpu1 = record {
      has_ram = plain.has_ram;
      no_breakpoints = plain.no_breakpoints;
      no_trace = plain.no_trace;
      no_bus_trace = plain.no_bus_trace;
    } in
    let (u, c, w, e) = outcome _ (check_interrupts-IsWoken acc r cpu1 plain1 room p k) in
    (
      c,
      record {
        runs = w.runs;
        no_request = w.no_request;
        cycles = w.cycles;
        sr = w.sr;
        sp = w.sp;
        at_handler = w.at_handler;
        frame = w.frame;
        same_d = w.same_d;
      },
      taken cpu1.stopped _ s (bind-ok check_interrupts _ cpu1 e ∙ past c.stopped _ w.runs refl),
    )
  where
    outcome :
        (m : Result Cpu (Unit {0}))
        → IsOk (λ _ c. IsWoken acc r (reset_step_debug_state cpu) c) m
        → (u : Unit {0}) × (c : Cpu) × IsWoken acc r (reset_step_debug_state cpu) c × (m ≡ ok u c)
    outcome (ok _ _) (is_ok u c w) = (u, c, w, refl)
    outcome (err x c) w = elim w [ ]
