-- ===== src/Cpu/Step/Tests.antt =====
-- A stopped processor with a request, and an opcode of line A.
use m68kemu.Base.{ℕ, ◌≤◌, ◌≡◌, refl, arith, true, false, none, some, inl}
use m68kemu.Interrupts
use m68kemu.Effect.{IsOk}
use m68kemu.Interrupts.{InterruptController, Accepted, PendingInterrupt}
use m68kemu.Interrupts.Laws.{IsCached}
use m68kemu.Memory.Bus
use m68kemu.Cpu.State.{Cpu}
use m68kemu.Cpu.Tests.{machine, memory}
use m68kemu.Cpu.Access.Plain.{IsPlain}
use m68kemu.Cpu.Exception.{set_sr}
use m68kemu.Cpu.Exception.Frame.{HasRoom}
use m68kemu.Cpu.Step.{step, execute_next, run_opcode}
use m68kemu.Cpu.Step.Woken.{IsWoken, step-wakes}
use m68kemu.Cpu.Step.Lines.{IsTrapped, run_opcode-line}

-- A request on level 5 with the autovector.
abbrev requested : InterruptController
unfolding Interrupts.request Interrupts.new_interrupt_controller
requested = elim (Interrupts.request 5 none Interrupts.new_interrupt_controller) [
  | some ic ↦ ic
  | none ↦ Interrupts.new_interrupt_controller
]

abbrev waiting : Cpu
unfolding machine set_sr
waiting = record (set_sr 0x2000 machine) { stopped = true; interrupts = requested }

abbrev served : Accepted
unfolding requested Interrupts.pending
served = elim (Interrupts.pending 0x2000 requested) [
  | some acc ↦ acc
  | none ↦ record {
    level = 0;
    interrupt = record { vector = 0; auto_vector = false };
    rest = requested;
  }
]

waiting-IsPlain : IsPlain memory waiting
unfolding waiting Bus.new_bus
waiting-IsPlain = record {
  has_ram = (refl, refl);
  no_breakpoints = refl;
  no_trace = refl;
  no_bus_trace = refl;
}

memory-HasRoom : (vector : ℕ) → vector ≤ 255 → HasRoom memory 0x4000 vector
memory-HasRoom vector v = record {
  offset = refl;
  has_vectors = omega arith;
  is_small = omega arith;
  are_bytes = λ i. ground arith;
  even = refl;
  above = omega arith;
  inside = omega arith;
  valid = v;
}

step-wakes_example : (c : Cpu) × IsWoken served memory waiting c × (step waiting ≡ execute_next c)
unfolding waiting served requested Interrupts.pending IsCached Interrupts.highest
step-wakes_example =
    step-wakes served memory waiting refl waiting-IsPlain (memory-HasRoom 29 (omega arith)) refl
      refl

machine-IsPlain : IsPlain memory machine
unfolding machine Bus.new_bus
machine-IsPlain = record {
  has_ram = (refl, refl);
  no_breakpoints = refl;
  no_trace = refl;
  no_bus_trace = refl;
}

run_opcode-line_example :
    IsOk (λ _ c. IsTrapped 10 0x1000 memory machine c) (run_opcode 0xa123 0x1000 machine)
unfolding machine
run_opcode-line_example =
    run_opcode-line 0xa123 0x1000 memory machine (inl refl) machine-IsPlain
      (memory-HasRoom 10 (omega arith))
