-- ===== src/Decode/Control.antt =====
-- The init functions of op_control_flow.go.
use m68kemu.Base.{ℕ, bit_or, List, [], ◌∷◌, ◌++◌, ◌<<<◌}
use m68kemu.Decode.Registration.{
  Handler, Registration, reg, forced, register_instruction, each, alterable_no_addr, with_pc,
  control,
}
use m68kemu.Decode.Cycles.{constant_cycles, scc_cycles, jmp_cycles, jsr_cycles, chk_cycles}

unfoldable pub branches : List Registration
unfolding constant_cycles scc_cycles
branches =
    each 16 0 (λ cond.
      register_instruction Handler.branch (bit_or 0x6000 (cond <<< 8)) 0xff00 0 (constant_cycles 10)
      ∷ [])
    ++ (each 16 0 (λ cond.
          register_instruction Handler.dbcc (bit_or 0x50c8 (cond <<< 8)) 0xfff8 0
            (constant_cycles 12)
          ∷ [])
        ++ register_instruction Handler.scc 0x50c0 0xf0c0 alterable_no_addr scc_cycles ∷ [])

abbrev chk_ea_mask : ℕ
chk_ea_mask = with_pc alterable_no_addr

-- The opcodes are set whatever the tables have.
unfoldable register_move_usp : List Registration
unfolding constant_cycles
register_move_usp =
    reg forced Handler.move_to_usp 0x4e60 0xfff8 0 (constant_cycles 4)
    ∷ reg forced Handler.move_from_usp 0x4e68 0xfff8 0 (constant_cycles 4)
    ∷ []

unfoldable pub jumps : List Registration
unfolding constant_cycles jmp_cycles chk_cycles register_move_usp
jumps =
    (register_instruction Handler.jmp 0x4ec0 0xffc0 control jmp_cycles
      ∷ register_instruction Handler.link 0x4e50 0xfff8 0 (constant_cycles 16)
      ∷ register_instruction Handler.unlk 0x4e58 0xfff8 0 (constant_cycles 12)
      ∷ (register_move_usp
          ++ register_instruction Handler.chk 0x4180 0xf1c0 chk_ea_mask chk_cycles ∷ []))

unfoldable pub subroutines : List Registration
unfolding constant_cycles jsr_cycles
subroutines =
    register_instruction Handler.jsr 0x4e80 0xffc0 control jsr_cycles
    ∷ register_instruction Handler.rts 0x4e75 0xffff 0 (constant_cycles 16)
    ∷ []
