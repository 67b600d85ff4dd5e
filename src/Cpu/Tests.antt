-- ===== src/Cpu/Tests.antt =====
-- Small programs, run.
use m68kemu.Base.{arith, ℕ, ◌≡◌, refl, true, false, none, some, [], ◌∷◌, if◌then◌else◌, ◌==◌}
use m68kemu.Effect.{ok, state_of}
use m68kemu.Interrupts
use m68kemu.Memory.Bus
use m68kemu.Memory.Ram.{Ram}
use m68kemu.Memory.Device
use m68kemu.Cpu.State.{Cpu, Registers, HistoryEntry}
use m68kemu.Operand.{byte}
use m68kemu.Status.{replace_status_flags}
use m68kemu.Alu.Add.{sub_with_flags}
use m68kemu.Decode.Registration.{Handler}
use m68kemu.Cpu.History.{Ring, append, entries}
use m68kemu.Cpu.History.Laws.{IsRing, pushed, append_lem}
use m68kemu.Cpu.State.{set_regs}
use m68kemu.Decode.Table.{opcode_cycle_table}
use m68kemu.Cpu.Debug.Cycles.{override_lem}
use m68kemu.Cpu.Exception.{raise_exception_with_pc}
use m68kemu.Cpu.Exception.Guard.{raise_exception_lem}
use m68kemu.Cpu.Debug.{add_cycles, override_instruction_cycles, is_supervisor}
use m68kemu.Cpu.Exception.{set_sr, exception_with_cycles, x_priv_violation}
use m68kemu.Cpu.Exception.Stacks.{user_stack, system_stack, set_sr_lem}
use m68kemu.Cpu.Control.{condition_true}
use m68kemu.Cpu.Control.Conditions.{compare-conditions}
use m68kemu.Cpu.Dispatch.{handle}
use m68kemu.Cpu.Dispatch.Privilege.{stop_of, privilege_lem}
use m68kemu.Cpu.Step.Stopped.{IsIdle, IsFinished, unnoted, run_instructions-idle, run_to-idle}
use m68kemu.Cpu.Step.{run_to, run_instructions}

-- MOVEQ #5,D0; ADDQ.L #3,D0; TRAP #1 at 0x1000, with handlers at 0x2000.
abbrev pub code : ℕ → ℕ
code a =
    if a == 0x1000
    then 0x70
    else if a == 0x1001
    then 0x05
    else if a == 0x1002
    then 0x56
    else if a == 0x1003
    then 0x80
    else if a == 0x1004
    then 0x4e
    else if a == 0x1005
    then 0x41
    else if a == 0x86
    then 0x20
    else if a == 0x22
    then 0x30
    else 0

abbrev no_registers : Registers
no_registers = record { d = λ _. 0; a = λ _. 0; pc = 0; sr = 0; ssp = 0; usp = 0; ir = 0 }

abbrev pub memory : Ram
memory = record { offset = 0; size = 0x1_0000; cell = code }

unfoldable pub machine : Cpu
unfolding Bus.new_bus Interrupts.new_interrupt_controller
machine = record {
  regs = record {
    d = λ _. 0;
    a = λ i. if i == 7 then 0x4000 else 0;
    pc = 0x1000;
    sr = 0x2700;
    ssp = 0;
    usp = 0x3000;
    ir = 0;
  };
  cycles = 0;
  bus = Bus.new_bus (Device.ram memory ∷ []);
  has_trap = false;
  has_pre_trap = false;
  has_exception_trap = false;
  has_bus_trap = false;
  has_interrupt_trap = false;
  hooks = [];
  scheduler = some [];
  interrupts = Interrupts.new_interrupt_controller;
  stopped = false;
  fault = record {
    address = 0;
    pc = 0;
    ir = 0;
    function_code = 0;
    write = false;
    not_instruction = false;
    valid = false;
  };
  in_exception = false;
  last_exception = none;
  step_exception = none;
  last_interrupt = none;
  step_interrupt = none;
  last_opcode_pc = none;
  current_opcode_pc = none;
  collect_step_bus = false;
  trace_instructions = false;
  trace_bus = false;
  trace_bytes = [];
  step_bus_accesses = [];
  breakpoints = none;
  history = record {
    limit = 0;
    slot = λ _. HistoryEntry.instruction (record {
      pc = 0;
      registers = no_registers;
      before_registers = no_registers;
      opcode = 0;
      cycle_delta = 0;
      cycles = 0;
    });
    next = 0;
    count = 0;
  };
}

abbrev after : ℕ → Cpu
unfolding run_instructions machine
after n = state_of (run_instructions n machine)

adds_quickly : (after 2).regs.d 0 ≡ 8
unfolding after
adds_quickly = refl

traps_at : (after 3).regs.pc ≡ 0x2000
unfolding after
traps_at = refl

traps_frame : (after 3).regs.a 7 ≡ 0x3ffa
unfolding after
traps_frame = refl

traps_cycles : (after 3).cycles ≡ 42
unfolding after
traps_cycles = refl

compare-conditions_example :
    (let status = replace_status_flags 0x2700 0x0f (sub_with_flags 0xff 0x01 byte).1 in
      (condition_true status 0x2 ≡ false)
      × (condition_true status 0x3 ≡ true)
      × (condition_true status 0x4 ≡ false)
      × (condition_true status 0x5 ≡ true)
      × (condition_true status 0x6 ≡ true)
      × (condition_true status 0x7 ≡ false)
      × (condition_true status 0xc ≡ true)
      × (condition_true status 0xd ≡ false)
      × (condition_true status 0xe ≡ true)
      × (condition_true status 0xf ≡ false))
compare-conditions_example = compare-conditions 0x2700 0xff 0x01 byte

set_sr_lem_example :
    (user_stack (set_sr 0x0004 machine) ≡ 0x3000)
    × (system_stack (set_sr 0x0004 machine) ≡ 0x4000)
    × ((set_sr 0x0004 machine).regs.sr ≡ 0x0004)
unfolding machine
set_sr_lem_example = set_sr_lem 0x0004 machine

abbrev user_machine : Cpu
unfolding machine set_sr
user_machine = set_sr 0x0000 machine

privilege_lem_example :
    handle Handler.stop user_machine ≡ exception_with_cycles x_priv_violation 34 user_machine
unfolding user_machine is_supervisor
privilege_lem_example = privilege_lem Handler.stop user_machine stop_of refl

abbrev stopped_machine : Cpu
unfolding machine
stopped_machine = record machine { stopped = true }

stopped_machine-IsIdle : IsIdle stopped_machine
unfolding IsIdle stopped_machine Interrupts.has_pending
stopped_machine-IsIdle = (refl, refl)

run_instructions-idle_example : run_instructions 3 stopped_machine ≡ ok tt (unnoted stopped_machine)
run_instructions-idle_example = run_instructions-idle 3 stopped_machine stopped_machine-IsIdle

run_to-idle_example : IsFinished 1000 stopped_machine (run_to 250 1000 stopped_machine)
unfolding stopped_machine
run_to-idle_example =
    run_to-idle 250 1000 stopped_machine stopped_machine-IsIdle (omega arith) (omega arith)

abbrev ring : Ring ℕ
ring = record { limit = 2; slot = λ i. i; next = 1; count = 2 }

append_lem_example : IsRing (append 9 ring) × (entries (append 9 ring) ≡ pushed 2 9 (entries ring))
append_lem_example = append_lem 9 ring (omega arith, omega arith, λ h. omega arith)

raise_exception_lem_example :
    (state_of (raise_exception_with_pc 4 0x2700 0x1000 0x1000 machine)).in_exception ≡ false
raise_exception_lem_example = raise_exception_lem 4 0x2700 0x1000 0x1000 machine (omega arith)

-- The opcode of STOP, with four static cycles, that a privilege violation turns into 34.
abbrev stop_machine : Cpu
unfolding machine
stop_machine = set_regs (λ r. record r { ir = 0x4e72 }) machine

override_lem_example :
    (let c = override_instruction_cycles 34 (add_cycles 4 stop_machine) in
      (c.cycles ≡ 34) × (c.scheduler ≡ some (4 ∷ [])))
unfolding stop_machine opcode_cycle_table
override_lem_example = override_lem 34 stop_machine [] (omega arith) refl
