-- ===== src/Cpu/Access/Tests.antt =====
-- Reads of the small memory, on the fast path and on the bus.
use m68kemu.Base.{arith}
use m68kemu.Operand.{long}
use m68kemu.Memory.Bus
use m68kemu.Cpu.Tests.{machine, memory}
use m68kemu.Cpu.Access.{fast_ram_read}
use m68kemu.Cpu.Access.Cycle.{ram_bus}
use m68kemu.Cpu.Access.Agreement.{IsAgreed, fast_ram_read-IsAgreed}

fast_ram_read-IsAgreed_example :
    IsAgreed
      (ram_bus memory machine.bus)
      (fast_ram_read long 0x1000 (ram_bus memory machine.bus))
      (Bus.read long 0x1000 (ram_bus memory machine.bus))
fast_ram_read-IsAgreed_example =
    fast_ram_read-IsAgreed memory machine.bus 0x1000 (omega arith) (omega arith) (omega arith)
      (λ i. ground arith) long
