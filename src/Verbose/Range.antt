-- ===== src/Verbose/Range.antt =====
-- What DisassembleMemoryRange returns.
use mathlib.Core.Path.{subst}
use m68kemu.Base.{
  ℕ, zero, suc, ◌-◌, ◌≤◌, ◌<◌, ◌≡◌, ◌∙◌, refl, arith, bit_and, true, false, Option, none, some,
  List, [], ◌∷◌, ◌==◌, leb, add32, length, if_elim, bool_elim, ltb, and_mask,
}
use m68kemu.Memory.Bus.{Bus}
use m68kemu.Verbose.{
  Decoded, found, refused, Instruction, DisassemblyLine, Outcome, fine, bad, DisassemblyError,
  line_of, decode_data, decode_instruction, disassemble_instruction, disassemble_from,
  disassemble_memory_range, peek_bytes, max_disassembly_bytes, insufficient, undecodable,
  zero_length,
}

-- A decoder that names the address it is given.
abbrev pub KeepsAddress : (List ℕ → ℕ → Decoded) → Type 0
KeepsAddress decode =
    (bytes : List ℕ) (a : ℕ) (i : Instruction) → decode bytes a ≡ found i → i.address ≡ a

-- Lines that follow one another from an address on, each with some bytes. The last one, and no
-- other, reaches the end of the range.
pub data IsCover : ℕ → ℕ → List DisassemblyLine → Type 0 where
  last_line :
      (line : DisassemblyLine) (left : ℕ)
      → 0 < length line.bytes
      → left ≤ length line.bytes
      → IsCover line.address left (line ∷ [])
  more_lines :
      (line : DisassemblyLine) (left : ℕ) (lines : List DisassemblyLine)
      → 0 < length line.bytes
      → length line.bytes < left
      → IsCover
          (bit_and (add32 line.address (length line.bytes)) 0xff_ffff)
          (left - length line.bytes)
          lines
      → IsCover line.address left (line ∷ lines)

-- A disassembly that is over; without an error its lines cover the range.
pub data IsDisassembly (start left : ℕ)
    : Option (List DisassemblyLine × Outcome (Unit {0})) → Type 0 where
  covered :
      (lines : List DisassemblyLine)
      → IsCover start left lines
      → IsDisassembly start left (some (lines, fine tt))
  failed :
      (lines : List DisassemblyLine) (e : DisassemblyError)
      → IsDisassembly start left (some (lines, bad e))

module _ (decode : List ℕ → ℕ → Decoded) (keeps : KeepsAddress decode) where
  -- A line that is found is at the address.
  data IsLineAt (a : ℕ) : Outcome DisassemblyLine → Type 0 where
    line_at : (line : DisassemblyLine) → line.address ≡ bit_and a 0xff_ffff → IsLineAt a (fine line)
    no_line : (e : DisassemblyError) → IsLineAt a (bad e)

  disassemble_instruction-IsLineAt :
      (a : ℕ) (b : Bus) → IsLineAt a (disassemble_instruction decode a b).0
  unfolding disassemble_instruction decode_instruction decode_data
  disassemble_instruction-IsLineAt a b =
      let x = bit_and a 0xff_ffff in
      let bytes = (peek_bytes max_disassembly_bytes x b).0 in
      if_elim (λ o. IsLineAt a (lined o)) (ltb (length bytes) 2) _ _ (λ c. no_line (insufficient x))
        (λ c. decoded bytes (decode bytes x) refl)
    where
      lined : Outcome Instruction → Outcome DisassemblyLine
      lined o = elim o [ fine i ↦ fine (line_of i) | bad e ↦ bad e ]

      decoded :
          (bytes : List ℕ) (m : Decoded)
          → decode bytes (bit_and a 0xff_ffff) ≡ m
          → IsLineAt a (lined (elim m [ found i ↦ fine i | refused t ↦ bad (undecodable t) ]))
      decoded bytes (found i) e = line_at (line_of i) (keeps bytes (bit_and a 0xff_ffff) i e)
      decoded bytes (refused t) e = no_line (undecodable t)

  masked : (x : ℕ) → bit_and (bit_and x 0xff_ffff) 0xff_ffff ≡ bit_and x 0xff_ffff
  masked x = and_mask 24 (bit_and x 0xff_ffff) ∙ omega (arith, and_mask 24 x)

  prepended :
      (line : DisassemblyLine) (left : ℕ)
      (rest : Option (List DisassemblyLine × Outcome (Unit {0})))
      → 0 < length line.bytes
      → length line.bytes < left
      → IsDisassembly
          (bit_and (add32 line.address (length line.bytes)) 0xff_ffff)
          (left - length line.bytes)
          rest
      → IsDisassembly line.address left
          (elim rest [ none ↦ none | some (lines, end) ↦ some (line ∷ lines, end) ])
  prepended line left none p h d = elim d [ ]
  prepended line left (some _) p h (covered lines c) =
      covered (line ∷ lines) (more_lines line left lines p h c)
  prepended line left (some _) p h (failed lines e) = failed (line ∷ lines) e

  disassemble_from-IsDisassembly :
      (fuel a left : ℕ) (b : Bus)
      → bit_and a 0xff_ffff ≡ a
      → 0 < left
      → left ≤ fuel
      → IsDisassembly a left (disassemble_from decode fuel a left b)
  unfolding disassemble_from
  disassemble_from-IsDisassembly zero a left b m p h = absurd (omega arith)
  disassemble_from-IsDisassembly (suc fuel) a left b m p h =
      go (λ x n. disassemble_from-IsDisassembly fuel x n (disassemble_instruction decode a b).1)
        (disassemble_instruction decode a b).0 (disassemble_instruction-IsLineAt a b)
    where
      b' : Bus
      b' = (disassemble_instruction decode a b).1

      answer : DisassemblyLine → ℕ → Option (List DisassemblyLine × Outcome (Unit {0}))
      answer line x = elim (leb left (length line.bytes)) [
        | true ↦ some (line ∷ [], fine tt)
        | false ↦
            elim (disassemble_from decode fuel (bit_and (add32 x (length line.bytes)) 0xff_ffff)
              (left - length line.bytes) b') [
                | none ↦ none
                | some (lines, end) ↦ some (line ∷ lines, end)
              ]
      ]

      answered :
          ((x n : ℕ)
            → bit_and x 0xff_ffff ≡ x
            → 0 < n
            → n ≤ fuel
            → IsDisassembly x n (disassemble_from decode fuel x n b'))
          → (line : DisassemblyLine) → 0 < length line.bytes
          → IsDisassembly line.address left (answer line line.address)
      answered ih line k =
          bool_elim (IsDisassembly line.address left) (leb left (length line.bytes)) _ _
            (λ c. covered (line ∷ []) (last_line line left k (ground arith)))
            (λ c. prepended line left _ k (ground arith) (
              ih (bit_and (add32 line.address (length line.bytes)) 0xff_ffff)
                (left - length line.bytes) (masked (add32 line.address (length line.bytes)))
                (ground arith) (ground arith)))

      go :
          ((x n : ℕ)
            → bit_and x 0xff_ffff ≡ x
            → 0 < n
            → n ≤ fuel
            → IsDisassembly x n (disassemble_from decode fuel x n b'))
          → (o : Outcome DisassemblyLine) → IsLineAt a o
          → IsDisassembly a left (elim o [
            | bad e ↦ some ([], bad e)
            | fine line ↦
                let size = length line.bytes in
                let next = bit_and (add32 a size) 0xff_ffff in
                elim (size == 0) [
                  | true ↦ some (line ∷ [], bad (zero_length a))
                  | false ↦ elim (leb left size) [
                    | true ↦ some (line ∷ [], fine tt)
                    | false ↦ elim (disassemble_from decode fuel next (left - size) b') [
                      | none ↦ none
                      | some (lines, end) ↦ some (line ∷ lines, end)
                    ]
                  ]
                ]
          ])
      go ih (bad _) (no_line e) = failed [] e
      go ih (fine _) (line_at line e) =
          bool_elim (IsDisassembly a left) (length line.bytes == 0) _ _
            (λ z. failed (line ∷ []) (zero_length a))
            (λ z.
              subst (λ x. IsDisassembly x left (answer line x)) (e ∙ m)
                (answered ih line (ground arith)))

  -- DisassembleMemoryRange of a range that is not empty ends, with a unit of fuel for each byte,
  -- and without an error its lines cover the range: they follow one another from its start, and
  -- only the last one reaches its end, if the decoder names the addresses that it is given.
  pub disassemble_memory_range_lem :
      (fuel start left : ℕ) (b : Bus)
      → 0 < left
      → left ≤ fuel
      → IsDisassembly
          (bit_and start 0xff_ffff)
          left
          (disassemble_memory_range decode fuel start left b)
  unfolding disassemble_memory_range
  disassemble_memory_range_lem fuel start left b p h =
      if_elim (IsDisassembly (bit_and start 0xff_ffff) left) (left == 0) _ _
        (λ z. absurd (ground arith))
        (λ z.
          disassemble_from-IsDisassembly fuel (bit_and start 0xff_ffff) left b (masked start) p h)
