-- ===== src/Cpu/Exception/Tests.antt =====
-- An exception from user mode, and the return from it.
use m68kemu.Base.{refl, arith}
use m68kemu.Effect.{IsOk, ◌>>◌}
use m68kemu.Memory.Bus
use m68kemu.Cpu.State.{Cpu}
use m68kemu.Cpu.Tests.{machine, memory}
use m68kemu.Cpu.Access.Plain.{IsPlain}
use m68kemu.Cpu.Exception.{set_sr, raise_exception_with_pc}
use m68kemu.Cpu.Exception.Frame.{HasRoom}
use m68kemu.Cpu.Exception.Return.{IsReturned, raise-rte}
use m68kemu.Cpu.System.{rte}

abbrev user_machine : Cpu
unfolding machine set_sr
user_machine = set_sr 0x0000 machine

user_machine-IsPlain : IsPlain memory user_machine
unfolding user_machine Bus.new_bus
user_machine-IsPlain = record {
  has_ram = (refl, refl);
  no_breakpoints = refl;
  no_trace = refl;
  no_bus_trace = refl;
}

memory-HasRoom : HasRoom memory 0x4000 33
memory-HasRoom = record {
  offset = refl;
  has_vectors = omega arith;
  is_small = omega arith;
  are_bytes = λ i. ground arith;
  even = refl;
  above = omega arith;
  inside = omega arith;
  valid = omega arith;
}

raise-rte_example :
    IsOk
      (λ _ c. IsReturned 0x1006 user_machine c)
      ((raise_exception_with_pc 33 0x2000 0x1006 0x1006 >> rte) user_machine)
unfolding user_machine
raise-rte_example =
    raise-rte 33 0x2000 0x1006 0x1006 memory user_machine user_machine-IsPlain memory-HasRoom refl
      (omega arith) (omega arith)
