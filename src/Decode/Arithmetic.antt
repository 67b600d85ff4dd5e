-- ===== src/Decode/Arithmetic.antt =====
-- The init functions of op_arithmetic.go.
use m68kemu.Base.{ℕ, bit_or, true, false, List, [], ◌∷◌, ◌++◌, ◌<<<◌}
use m68kemu.Decode.EaMask
use m68kemu.Decode.Registration.{
  Handler, Registration, reg, forced, register_instruction, each, alterable_no_addr, alterable,
  with_pc, with_immediate,
}
use m68kemu.Decode.Cycles.{
  Calculator, constant_cycles, add_cycles, addq_subq_cycles, arithmetic_immediate_cycles,
  adda_suba_cycles, cmpi_cycles, cmpm_cycles, cmpa_cycles, addx_subx_cycles, abcd_cycles,
  sbcd_cycles, nbcd_cycles, clr_tst_cycles,
}

unfoldable pub add_sub : List Registration
unfolding add_cycles
add_sub =
    (let src = with_immediate (with_pc alterable_no_addr) in
      let src_addr = bit_or src EaMask.address_register in
      let one = λ (h : Handler) (base : ℕ).
        register_instruction h base 0xf1c0 src (add_cycles 0 false)
        ∷ (each 2 1 (λ opmode.
              register_instruction h (bit_or base (opmode <<< 6)) 0xf1c0 src_addr
                (add_cycles opmode false)
              ∷ [])
            ++ each 3 4 (λ opmode.
              register_instruction h (bit_or base (opmode <<< 6)) 0xf1c0 alterable_no_addr
                (add_cycles opmode true)
              ∷ [])) in
      one Handler.add 0xd000 ++ one Handler.sub 0x9000)

unfoldable pub adda_to_neg : List Registration
unfolding constant_cycles addq_subq_cycles arithmetic_immediate_cycles adda_suba_cycles
    clr_tst_cycles
adda_to_neg =
    (let src = with_immediate (with_pc alterable) in
      let mul_src = with_immediate (with_pc alterable_no_addr) in
      let address = λ (opmode : ℕ).
        register_instruction Handler.adda (bit_or 0xd000 (opmode <<< 6)) 0xf1c0 src adda_suba_cycles
        ∷ register_instruction Handler.suba (bit_or 0x9000 (opmode <<< 6)) 0xf1c0 src
            adda_suba_cycles
        ∷ [] in
      let quick = λ (size : ℕ).
        register_instruction Handler.addq (bit_or 0x5000 (size <<< 6)) 0xf1c0 alterable
          addq_subq_cycles
        ∷ register_instruction Handler.subq (bit_or 0x5100 (size <<< 6)) 0xf1c0 alterable
            addq_subq_cycles
        ∷ [] in
      let immediate = λ (size : ℕ).
        register_instruction Handler.addi (bit_or 0x0600 (size <<< 6)) 0xffc0 alterable_no_addr
          arithmetic_immediate_cycles
        ∷ register_instruction Handler.subi (bit_or 0x0400 (size <<< 6)) 0xffc0 alterable_no_addr
            arithmetic_immediate_cycles
        ∷ [] in
      let negate = λ (size : ℕ).
        register_instruction Handler.neg (bit_or 0x4400 (size <<< 6)) 0xffc0 alterable_no_addr
          clr_tst_cycles
        ∷ [] in
      address 3
      ++ (address 7
          ++ (each 3 0 quick
              ++ (register_instruction Handler.divu 0x80c0 0xf1c0 mul_src (constant_cycles 140)
                  ∷ register_instruction Handler.divs 0x81c0 0xf1c0 mul_src (constant_cycles 158)
                  ∷ register_instruction Handler.mulu 0xc0c0 0xf1c0 mul_src (constant_cycles 70)
                  ∷ register_instruction Handler.muls 0xc1c0 0xf1c0 mul_src (constant_cycles 70)
                  ∷ (each 3 0 immediate ++ each 3 0 negate)))))

unfoldable pub compare : List Registration
unfolding add_cycles cmpi_cycles cmpm_cycles cmpa_cycles
compare =
    (let src = with_immediate (with_pc alterable) in
      let address = λ (opmode : ℕ).
        register_instruction Handler.cmpa (bit_or 0xb000 (opmode <<< 6)) 0xf1c0 src cmpa_cycles
        ∷ [] in
      each 3 0 (λ opmode.
        register_instruction Handler.cmp (bit_or 0xb000 (opmode <<< 6)) 0xf1c0 src
          (add_cycles opmode false)
        ∷ [])
      ++ (address 3
          ++ (address 7
              ++ (each 3 0 (λ size.
                    register_instruction Handler.cmpi (bit_or 0x0c00 (size <<< 6)) 0xffc0
                      alterable_no_addr cmpi_cycles
                    ∷ [])
                  ++ each 3 0 (λ size.
                    register_instruction Handler.cmpm (bit_or 0xb108 (size <<< 6)) 0xf1f8 0
                      cmpm_cycles
                    ∷ [])))))

-- The opcodes of two registers and a mode are set whatever the tables have.
abbrev register_extend_instruction : Handler → ℕ → Calculator → List Registration
register_extend_instruction h base calc =
    each 3 0 (λ size. reg forced h (bit_or base (size <<< 6)) 0xf1f0 0 calc ∷ [])

unfoldable pub extend : List Registration
unfolding addx_subx_cycles clr_tst_cycles
extend =
    (register_extend_instruction Handler.addx 0xd100 addx_subx_cycles
      ++ (register_extend_instruction Handler.subx 0x9100 addx_subx_cycles
          ++ each 3 0 (λ size.
            register_instruction Handler.negx (bit_or 0x4000 (size <<< 6)) 0xffc0 alterable_no_addr
              clr_tst_cycles
            ∷ [])))

unfoldable pub bcd : List Registration
unfolding abcd_cycles sbcd_cycles nbcd_cycles
bcd =
    (register_instruction Handler.abcd 0xc100 0xf1f8 0 abcd_cycles
      ∷ register_instruction Handler.abcd 0xc108 0xf1f8 0 abcd_cycles
      ∷ register_instruction Handler.sbcd 0x8100 0xf1f8 0 sbcd_cycles
      ∷ register_instruction Handler.sbcd 0x8108 0xf1f8 0 sbcd_cycles
      ∷ register_instruction Handler.nbcd 0x4800 0xfff8 0 nbcd_cycles
      ∷ register_instruction Handler.nbcd 0x4820 0xfff8 0 nbcd_cycles
      ∷ [])

unfoldable pub clear_test : List Registration
unfolding clr_tst_cycles
clear_test = each 3 0 (λ size.
    register_instruction Handler.clr (bit_or 0x4200 (size <<< 6)) 0xffc0 alterable_no_addr
      clr_tst_cycles
    ∷ register_instruction Handler.tst (bit_or 0x4a00 (size <<< 6)) 0xffc0
        (with_immediate (with_pc alterable_no_addr)) clr_tst_cycles
    ∷ [])
