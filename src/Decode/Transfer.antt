-- ===== src/Decode/Transfer.antt =====
-- The init functions of op_data_transfer.go.
use m68kemu.Base.{ℕ, bit_or, none, List, [], ◌∷◌, ◌++◌, ◌==◌, ◌&&◌, ◌||◌, if◌then◌else◌, ◌<<<◌}
use m68kemu.Operand.{byte, word, long}
use m68kemu.Decode.Registration.{
  Handler, Registration, reg, fresh, register_instruction, each, alterable, with_pc, with_immediate,
}
use m68kemu.Decode.Cycles.{
  Calculator, constant_cycles, move_cycles, move_address_cycles, movep_cycles, lea_pea_cycles,
}

abbrev move_source_ea_mask : ℕ
move_source_ea_mask = with_immediate (with_pc alterable)

abbrev register_move_a : ℕ → Handler → Calculator → List Registration
register_move_a base h calc = each 8 0 (λ reg.
    register_instruction h (bit_or base (bit_or (reg <<< 9) (1 <<< 6))) 0xffc0 move_source_ea_mask
      calc
    ∷ [])

abbrev register_move : Handler → ℕ → Calculator → List Registration
register_move h base calc = each 8 0 (λ mode.
    if mode == 1
    then []
    else each 8 0 (λ reg.
      if mode == 7 && (reg == 2 || reg == 3 || reg == 4)
      then []
      else register_instruction h (bit_or base (bit_or (reg <<< 9) (mode <<< 6))) 0xffc0
          move_source_ea_mask calc
        ∷ []))

unfoldable pub moves : List Registration
unfolding constant_cycles move_cycles move_address_cycles
moves =
    register_move Handler.moveb 0x1000 (move_cycles byte)
    ++ (register_move Handler.movew 0x3000 (move_cycles word)
        ++ (register_move Handler.movel 0x2000 (move_cycles long)
            ++ (register_move_a 0x3000 Handler.moveaw (move_address_cycles word)
                ++ (register_move_a 0x2000 Handler.moveal (move_address_cycles long)
                    ++ register_instruction Handler.moveq 0x7000 0xf100 0 (constant_cycles 4)
                      ∷ []))))

unfoldable pub move_multiple : List Registration
unfolding constant_cycles
move_multiple =
    (let entry = λ (h : Handler) (base ea_mask bits : ℕ).
        record (reg fresh h (bit_or base (bits <<< 6)) 0xffc0 ea_mask (constant_cycles 0)) {
          calc = none;
        } in
      let both = λ (bits : ℕ).
        entry Handler.movem_to_memory 0x4800 0x02f8 bits
        ∷ entry Handler.movem_to_registers 0x4c00 0x037b bits
        ∷ [] in
      both 2 ++ both 3)

unfoldable pub move_peripheral : List Registration
unfolding movep_cycles
move_peripheral =
    register_instruction Handler.movep 0x0108 0xf1f8 0 movep_cycles
    ∷ register_instruction Handler.movep 0x0148 0xf1f8 0 movep_cycles
    ∷ register_instruction Handler.movep 0x0188 0xf1f8 0 movep_cycles
    ∷ register_instruction Handler.movep 0x01c8 0xf1f8 0 movep_cycles
    ∷ []

unfoldable pub addresses : List Registration
unfolding lea_pea_cycles
addresses =
    register_instruction Handler.lea 0x41c0 0xf1c0 0x03fb (lea_pea_cycles 4)
    ∷ register_instruction Handler.pea 0x4840 0xffc0 0x03fb (lea_pea_cycles 8)
    ∷ []
