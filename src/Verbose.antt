-- ===== src/Verbose.antt =====
-- Disassembly of memory in verbose.go, and the texts of cpu.go. The decoder m68kdasm is not under
-- this repository: it is a parameter.
pub mod Format
pub mod Logger
pub mod Range
mod Tests
use m68kemu.Base.{
  ℕ, zero, suc, ◌+◌, ◌-◌, bit_and, Bool, true, false, Option, none, some, List, [], ◌∷◌, ◌++◌, ◌==◌,
  ltb, leb, if◌then◌else◌, add32, ◌>>>◌, u8, u16, length,
}
use m68kemu.Operand.{byte}
use m68kemu.Effect.{Result, ok, err}
use m68kemu.Memory.Bus
use m68kemu.Memory.Bus.{Bus}

-- The codes of a text.
abbrev pub Text : Type 0
Text = List ℕ

-- What the decoder finds at the start of its data.
pub record Instruction : Type 0 where
  pub address : ℕ
  pub bytes : List ℕ
  pub assembly : Text

-- Decode of m68kdasm: an instruction, or the text of an error.
pub data Decoded : Type 0 where
  found : Instruction → Decoded
  refused : Text → Decoded

pub record DisassemblyLine : Type 0 where
  pub address : ℕ
  pub bytes : List ℕ
  pub assembly : Text

-- The errors of decodeInstruction and DisassembleMemoryRange.
pub data DisassemblyError : Type 0 where
  insufficient zero_length : ℕ → DisassemblyError
  undecodable : Text → DisassemblyError

-- A value, or an error; the bus stands beside it.
pub data Outcome (A : Type 0) : Type 0 where
  fine : A → Outcome A
  bad : DisassemblyError → Outcome A

abbrev pub max_disassembly_bytes : ℕ
max_disassembly_bytes = 16

-- The bytes from an address on, up to the first that cannot be peeked.
unfoldable pub peek_bytes : ℕ → ℕ → Bus → List ℕ × Bus
unfolding Bus.peek
peek_bytes zero address b = ([], b)
peek_bytes (suc n) address b = elim (Bus.peek byte (bit_and address 0xff_ffff) b) [
  | err e b' ↦ ([], b')
  | ok v b' ↦ let rest = peek_bytes n (address + 1) b' in (u8 v ∷ rest.0, rest.1)
]

abbrev pub line_of : Instruction → DisassemblyLine
line_of i = record { address = i.address; bytes = i.bytes; assembly = i.assembly }

module _ (decode : List ℕ → ℕ → Decoded) where
  unfoldable pub decode_data : List ℕ → ℕ → Outcome Instruction
  decode_data data' address =
      if ltb (length data') 2
      then bad (insufficient address)
      else elim (decode data' address) [ found i ↦ fine i | refused t ↦ bad (undecodable t) ]

  -- decodeInstruction on a Bus, which has Peek.
  unfoldable pub decode_instruction : ℕ → Bus → Outcome Instruction × Bus
  unfolding peek_bytes decode_data
  decode_instruction address b =
      let a = bit_and address 0xff_ffff in
      let (bytes, b') = peek_bytes max_disassembly_bytes a b in (decode_data bytes a, b')

  unfoldable pub disassemble_instruction : ℕ → Bus → Outcome DisassemblyLine × Bus
  unfolding decode_instruction
  disassemble_instruction address b =
      let (o, b') = decode_instruction address b in
      (elim o [ fine i ↦ fine (line_of i) | bad e ↦ bad e ], b')

  -- The loop of DisassembleMemoryRange, with the lines that it returns and how it ends; `none` is
  -- more fuel needed.
  unfoldable pub disassemble_from :
      ℕ → ℕ → ℕ → Bus → Option (List DisassemblyLine × Outcome (Unit {0}))
  unfolding disassemble_instruction
  disassemble_from zero address remaining b = none
  disassemble_from (suc fuel) address remaining b =
      let (o, b') = disassemble_instruction address b in
      elim o [
        | bad e ↦ some ([], bad e)
        | fine line ↦
            let size = length line.bytes in
            let next = bit_and (add32 address size) 0xff_ffff in
            elim (size == 0) [
              | true ↦ some (line ∷ [], bad (zero_length address))
              | false ↦ elim (leb remaining size) [
                | true ↦ some (line ∷ [], fine tt)
                | false ↦ elim (disassemble_from fuel next (remaining - size) b') [
                  | none ↦ none
                  | some (lines, end) ↦ some (line ∷ lines, end)
                ]
              ]
            ]
      ]

  unfoldable pub disassemble_memory_range :
      ℕ → ℕ → ℕ → Bus → Option (List DisassemblyLine × Outcome (Unit {0}))
  unfolding disassemble_from
  disassemble_memory_range fuel start len b =
      if len == 0 then some ([], fine tt) else disassemble_from fuel (bit_and start 0xff_ffff) len b

  -- traceInstructionBytes of verbose.go.
  unfoldable pub trace_instruction_bytes : ℕ → ℕ → Bus → List ℕ × Bus
  unfolding decode_instruction
  trace_instruction_bytes address opcode b =
      let (o, b') = decode_instruction address b in
      let plain = u8 (opcode >>> 8) ∷ u8 opcode ∷ [] in
      (elim o [ bad e ↦ plain | fine i ↦ if length i.bytes == 0 then plain else i.bytes ], b')

  -- The mnemonic of bytes that are known, or of the memory where they cannot be decoded.
  unfoldable pub trace_instruction_mnemonic : ℕ → List ℕ → Bus → Text × Bus
  unfolding disassemble_instruction
  trace_instruction_mnemonic address bytes b =
      let (o, b') = disassemble_instruction address b in
      let from_memory : Text × Bus = (elim o [ fine line ↦ line.assembly | bad e ↦ [] ], b') in
      if ltb (length bytes) 2
      then from_memory
      else elim (decode bytes address) [ found i ↦ (i.assembly, b) | refused t ↦ from_memory ]

  unfoldable pub trace_disassembly_line : ℕ → List ℕ → Text → Bus → Outcome DisassemblyLine × Bus
  unfolding disassemble_instruction
  trace_disassembly_line pc bytes [] b =
      if ltb (length bytes) 2 then disassemble_instruction pc b else elim (decode bytes pc) [
        | found i ↦ (fine (line_of i), b)
        | refused t ↦ disassemble_instruction pc b
      ]
  trace_disassembly_line pc bytes (c ∷ mnemonic) b =
      (fine (record { address = pc; bytes = bytes; assembly = c ∷ mnemonic }), b)
