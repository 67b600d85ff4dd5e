-- ===== src/Cpu/Control/Tests.antt =====
-- A frame of LINK and UNLK, and a call.
use m68kemu.Base.{ℕ, refl, arith}
use m68kemu.Effect.{IsOk, ◌>>◌}
use m68kemu.Memory.Bus
use m68kemu.Cpu.State.{Cpu, set_regs}
use m68kemu.Cpu.Tests.{machine, memory}
use m68kemu.Cpu.Access.Plain.{IsPlain}
use m68kemu.Cpu.Stream.Fetch.{HasStack}
use m68kemu.Cpu.Control.{link, unlk, branch, rts}
use m68kemu.Cpu.Control.Call.{IsBehind, branch-rts}
use m68kemu.Cpu.Control.Link.{HasFrame, IsUnlinked, link-unlk}

-- The machine that runs an opcode.
abbrev at_opcode : ℕ → Cpu
unfolding machine
at_opcode opcode = set_regs (λ g. record g { ir = opcode }) machine

at_opcode-IsPlain : (opcode : ℕ) → IsPlain memory (at_opcode opcode)
unfolding at_opcode Bus.new_bus
at_opcode-IsPlain opcode = record {
  has_ram = (refl, refl);
  no_breakpoints = refl;
  no_trace = refl;
  no_bus_trace = refl;
}

at_opcode-HasStack : (opcode : ℕ) → HasStack memory (at_opcode opcode).regs
unfolding at_opcode
at_opcode-HasStack opcode = record {
  offset = refl;
  is_small = omega arith;
  are_bytes = λ i. ground arith;
  even_pc = refl;
  has_word = omega arith;
  even = refl;
  above = omega arith;
  inside = omega arith;
}

-- A LINK of A6.
link-HasFrame : HasFrame memory (at_opcode 0x4e56).regs
unfolding at_opcode
link-HasFrame = record {
  stack = at_opcode-HasStack 0x4e56;
  named = omega arith;
  in_width = omega arith;
}

link-unlk_example :
    IsOk (λ _ c. IsUnlinked (at_opcode 0x4e56) c) ((link >> unlk) (at_opcode 0x4e56))
unfolding at_opcode
link-unlk_example = link-unlk memory (at_opcode 0x4e56) (at_opcode-IsPlain 0x4e56) link-HasFrame

-- A BSR with a displacement word.
branch-rts_example :
    IsOk (λ _ c. IsBehind (at_opcode 0x6100) c) ((branch >> rts) (at_opcode 0x6100))
unfolding at_opcode
branch-rts_example =
    branch-rts memory (at_opcode 0x6100) (at_opcode-IsPlain 0x6100) (at_opcode-HasStack 0x6100) refl
