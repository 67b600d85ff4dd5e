-- ===== src/Decode/System.antt =====
-- The init functions of op_system.go.
use m68kemu.Base.{ℕ, List, [], ◌∷◌}
use m68kemu.Operand.{byte, word}
use m68kemu.Decode.Registration.{
  Handler, Registration, reg, forced, register_instruction, alterable_no_addr, with_pc,
  with_immediate,
}
use m68kemu.Decode.Cycles.{constant_cycles, clr_tst_cycles, move_control_cycles}

-- The opcodes of two registers are set whatever the tables have.
unfoldable register_exg_instruction : ℕ → ℕ → Registration
unfolding constant_cycles
register_exg_instruction base cycles = reg forced Handler.exg base 0xf1f8 0 (constant_cycles cycles)

unfoldable pub system : List Registration
unfolding constant_cycles clr_tst_cycles move_control_cycles register_exg_instruction
system =
    (let one = λ (h : Handler) (opcode cycles : ℕ).
        register_instruction h opcode 0xffff 0 (constant_cycles cycles) in
      let src = with_immediate (with_pc alterable_no_addr) in
      register_instruction Handler.swap 0x4840 0xfff8 0 (constant_cycles 4)
      ∷ register_instruction Handler.ext 0x4880 0xfff8 0 (constant_cycles 4)
      ∷ register_instruction Handler.ext 0x48c0 0xfff8 0 (constant_cycles 4)
      ∷ register_instruction Handler.tas 0x4ac0 0xffc0 alterable_no_addr clr_tst_cycles
      ∷ register_exg_instruction 0xc140 6
      ∷ register_exg_instruction 0xc148 6
      ∷ register_exg_instruction 0xc188 8
      ∷ one Handler.illegal 0x4afc 4
      ∷ one Handler.nop 0x4e71 4
      ∷ one Handler.trapv 0x4e76 4
      ∷ one Handler.reset 0x4e70 132
      ∷ one Handler.stop 0x4e72 4
      ∷ one Handler.movec 0x4e7a 4
      ∷ one Handler.movec 0x4e7b 4
      ∷ one Handler.ori_to_ccr 0x003c 20
      ∷ one Handler.ori_to_sr 0x007c 20
      ∷ one Handler.andi_to_ccr 0x023c 20
      ∷ one Handler.andi_to_sr 0x027c 20
      ∷ one Handler.eori_to_ccr 0x0a3c 20
      ∷ one Handler.eori_to_sr 0x0a7c 20
      ∷ register_instruction Handler.move_from_sr 0x40c0 0xffc0 alterable_no_addr
          (move_control_cycles word)
      ∷ register_instruction Handler.move_to_ccr 0x44c0 0xffc0 src (move_control_cycles byte)
      ∷ register_instruction Handler.move_to_sr 0x46c0 0xffc0 src (move_control_cycles word)
      ∷ one Handler.rte 0x4e73 20
      ∷ one Handler.rtr 0x4e77 20
      ∷ [])

unfoldable pub traps : List Registration
unfolding constant_cycles
traps = register_instruction Handler.trap 0x4e40 0xfff0 0 (constant_cycles 34) ∷ []
