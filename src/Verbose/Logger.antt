-- ===== src/Verbose/Logger.antt =====
-- VerboseLogger of verbose.go: the text that Trace writes.
use m68kemu.Base.{
  ℕ, bit_and, Bool, true, false, Option, none, some, List, [], ◌∷◌, ◌++◌, ◌||◌, ◌==◌, ◌!=◌, leb,
  if◌then◌else◌, length,
}
use m68kemu.Memory.Bus.{Bus}
use m68kemu.Cpu.State.{Cpu, Registers}
use m68kemu.Verbose.{
  Text, Decoded, DisassemblyLine, Outcome, fine, bad, DisassemblyError, insufficient, zero_length,
  undecodable, trace_disassembly_line, disassemble_memory_range, disassemble_instruction,
  trace_instruction_bytes,
}
use m68kemu.Verbose.Format.{
  codes, hex, dec, registers_string, disassembly_line_string, MemoryRange,
  format_memory_range_label, disassembly_string,
}

pub record VerboseLoggerOptions : Type 0 where
  pub include_registers : Bool
  pub include_cycles : Bool
  pub memory_ranges : List MemoryRange

-- What the logger uses of TraceInfo.
pub record Traced : Type 0 where
  pub pc : ℕ
  pub opcode : ℕ
  pub registers : Registers
  pub bytes : List ℕ
  pub mnemonic : Text
  pub cycle_delta : ℕ

unfoldable pub disassembly_error_string : DisassemblyError → Text
unfolding hex
disassembly_error_string (insufficient a) =
    codes "insufficient data for opcode at address " ++ hex 8 a
disassembly_error_string (zero_length a) = codes "decoded zero-length instruction at " ++ hex 8 a
disassembly_error_string (undecodable t) = t

-- `if c { text }`
abbrev pub text_if : Bool → Text → Text
text_if true t = t
text_if false t = []

-- The lines of a range, or its error, indented.
unfoldable pub range_lines : List DisassemblyLine → Text
unfolding disassembly_line_string
range_lines [] = []
range_lines (line ∷ lines) =
    codes "  " ++ (disassembly_line_string line ++ (10 ∷ range_lines lines))

unfoldable pub range_text : Option (List DisassemblyLine × Outcome (Unit {0})) → Text
unfolding range_lines disassembly_error_string
range_text none = []
range_text (some (lines, fine u)) = range_lines lines
range_text (some (lines, bad e)) =
    codes "  <error: " ++ (disassembly_error_string e ++ (62 ∷ 10 ∷ []))

module _ (decode : List ℕ → ℕ → Decoded) where
  -- The range is disassembled with a unit of fuel for each byte, which is enough.
  unfoldable pub ranges_text : List MemoryRange → Bus → Text
  unfolding format_memory_range_label disassemble_memory_range range_text
  ranges_text [] b = []
  ranges_text (r ∷ rs) b =
      codes "DISASM RANGE "
      ++ (format_memory_range_label r
          ++ (10 ∷ range_text (disassemble_memory_range decode r.length r.start r.length b)
              ++ ranges_text rs b))

  unfoldable pub line_text : Outcome DisassemblyLine → Text
  unfolding disassembly_error_string
  line_text (fine line) = 32 ∷ line.assembly
  line_text (bad e) =
      codes " <disassembly unavailable: " ++ (disassembly_error_string e ++ codes ">")

  -- The bytes of an instruction that the processor reports: those that it fetched, if it kept them.
  unfoldable pub reported_bytes : ℕ → Cpu → List ℕ
  unfolding trace_instruction_bytes
  reported_bytes pc cpu =
      if length cpu.trace_bytes == 0
      then (trace_instruction_bytes decode pc cpu.regs.ir cpu.bus).0
      else cpu.trace_bytes

  -- The String method of the processor.
  unfoldable pub cpu_string : Cpu → Text
  unfolding disassembly_string disassemble_instruction registers_string
  cpu_string cpu =
      disassembly_string cpu.regs.pc (disassemble_instruction decode cpu.regs.pc cpu.bus).0
      ++ (10 ∷ registers_string cpu.regs)

  -- `cycles` is the count of the processor, if the logger has one. Peeking leaves the bus as it is.
  unfoldable pub trace : VerboseLoggerOptions → Option ℕ → Traced → Bus → Text
  unfolding hex dec line_text trace_disassembly_line registers_string ranges_text
  trace options cycles info b =
      codes "TRACE PC "
      ++ (hex 8 (bit_and info.pc 0xff_ffff)
          ++ (text_if (info.opcode != 0 || leb 2 (length info.bytes))
                (codes " OPCODE " ++ hex 4 info.opcode)
              ++ (text_if (info.cycle_delta != 0) (codes " DELTA " ++ dec 10 info.cycle_delta)
                  ++ (elim cycles [
                    | none ↦ []
                    | some n ↦ text_if options.include_cycles (codes " CYCLES " ++ dec 20 n)
                  ]
                      ++ (line_text
                            (trace_disassembly_line decode info.pc info.bytes info.mnemonic b).0
                          ++ (10
                                ∷ text_if options.include_registers
                                    (registers_string info.registers)
                              ++ ranges_text options.memory_ranges b))))))
