-- ===== src/Decode/Logical.antt =====
-- The init functions of op_bit_logical.go.
use m68kemu.Base.{ℕ, ◌+◌, bit_or, true, false, List, [], ◌∷◌, ◌++◌, ◌<<<◌}
use m68kemu.Decode.Registration.{
  Handler, Registration, register_instruction, register_logical_instruction, each,
  alterable_no_addr, with_pc, with_immediate,
}
use m68kemu.Decode.Cycles.{
  logical_cycles, clr_tst_cycles, logical_immediate_cycles, bit_cycles, shift_rotate_cycles,
}

unfoldable pub logical : List Registration
unfolding logical_cycles clr_tst_cycles logical_immediate_cycles
logical =
    (let src = with_immediate (with_pc alterable_no_addr) in
      let one = λ (h : Handler) (base : ℕ).
        each 3 0 (λ opmode.
          register_logical_instruction h (bit_or base (opmode <<< 6)) 0xf1c0 src
            (logical_cycles opmode false)
          ∷ [])
        ++ each 3 4 (λ opmode.
          register_logical_instruction h (bit_or base (opmode <<< 6)) 0xf1c0 alterable_no_addr
            (logical_cycles opmode true)
          ∷ []) in
      one Handler.and 0xc000
      ++ (one Handler.or 0x8000
          ++ (each 3 0 (λ size.
                register_logical_instruction Handler.eor (bit_or 0xb100 (size <<< 6)) 0xf1c0
                  alterable_no_addr (logical_cycles size true)
                ∷ [])
              ++ (each 3 0 (λ size.
                    register_instruction Handler.ori (bit_or 0x0000 (size <<< 6)) 0xffc0
                      alterable_no_addr logical_immediate_cycles
                    ∷ register_instruction Handler.andi (bit_or 0x0200 (size <<< 6)) 0xffc0
                        alterable_no_addr logical_immediate_cycles
                    ∷ register_instruction Handler.eori (bit_or 0x0a00 (size <<< 6)) 0xffc0
                        alterable_no_addr logical_immediate_cycles
                    ∷ [])
                  ++ each 3 0 (λ size.
                    register_instruction Handler.complement (bit_or 0x4600 (size <<< 6)) 0xffc0
                      alterable_no_addr clr_tst_cycles
                    ∷ [])))))

unfoldable pub bits : List Registration
unfolding bit_cycles
bits =
    (let operand = with_pc alterable_no_addr in
      each 4 0 (λ op.
        register_instruction Handler.bit_dynamic (bit_or 0x0100 ((op + 4) <<< 6)) 0xf1c0 operand
          (bit_cycles false op)
        ∷ [])
      ++ each 4 0 (λ op.
        register_instruction Handler.bit_immediate (bit_or 0x0800 (op <<< 6)) 0xffc0 operand
          (bit_cycles true op)
        ∷ []))

unfoldable pub shift : List Registration
unfolding shift_rotate_cycles
shift = register_instruction Handler.shift_rotate 0xe000 0xf000 0 shift_rotate_cycles ∷ []
