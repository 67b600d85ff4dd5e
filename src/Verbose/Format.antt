-- ===== src/Verbose/Format.antt =====
-- The texts of verbose.go and of the String and Error methods of cpu.go.
use Prim.Native.Char.{code}
use Prim.Native.String.{String}
use m68kemu.Base.{
  ℕ, zero, suc, ◌+◌, ◌-◌, ◌/◌, ◌%◌, ◌≡◌, refl, bit_and, Option, none, some, List, [], ◌∷◌, ◌++◌,
  ◌==◌, ltb, if◌then◌else◌, add32, sub32, length,
}
use m68kemu.Effect.{
  Error, address_error, bus_error, breakpoint_hit, BreakpointType, on_execute, on_read, on_write,
}
use m68kemu.Cpu.State.{Registers}
use m68kemu.Cpu.Until.{
  RunStopReason, instruction_limit, at_pc, pc_in_range, pc_outside_range, bus_access, predicate,
  exception, illegal_opcode,
}
use m68kemu.Verbose.{Text, DisassemblyLine, Outcome, fine, bad}

abbrev pub codes : String → Text
codes String.[] = []
codes (String.◌∷◌ c s) = code c ∷ codes s

unfoldable pub hex_digit : ℕ → ℕ
hex_digit d = if ltb d 10 then 48 + d else 87 + d

-- `%0kx` of a number of no more than k hexadecimal digits.
unfoldable pub hex : ℕ → ℕ → Text
unfolding hex_digit
hex zero n = []
hex (suc k) n = hex k (n / 16) ++ hex_digit (n % 16) ∷ []

-- `%d` of a number of no more than `k` digits.
unfoldable pub dec : ℕ → ℕ → Text
dec zero n = []
dec (suc k) n = if ltb n 10 then (48 + n) ∷ [] else dec k (n / 10) ++ (48 + n % 10) ∷ []

abbrev pub spaces : ℕ → Text
spaces zero = []
spaces (suc n) = 32 ∷ spaces n

-- `%-ks`
unfoldable pub pad_right : ℕ → Text → Text
pad_right k t = t ++ spaces (k - length t)

unfoldable pub breakpoint_type_string : BreakpointType → Text
breakpoint_type_string on_execute = codes "execute"
breakpoint_type_string on_read = codes "read"
breakpoint_type_string on_write = codes "write"

-- The errors that have a method of the repository.
unfoldable pub error_string : Error → Option Text
unfolding hex breakpoint_type_string
error_string (address_error a) = some (codes "AddressError at " ++ hex 8 a)
error_string (bus_error a) = some (codes "BusError at " ++ hex 8 a)
error_string (breakpoint_hit a kind) = some (
    codes "breakpoint hit at "
    ++ (hex 8 a ++ (codes " (" ++ (breakpoint_type_string kind ++ codes ")"))))
error_string e = none

unfoldable pub run_stop_reason_string : Option RunStopReason → Text
run_stop_reason_string none = codes "none"
run_stop_reason_string (some instruction_limit) = codes "instruction-limit"
run_stop_reason_string (some at_pc) = codes "pc"
run_stop_reason_string (some pc_in_range) = codes "pc-in-range"
run_stop_reason_string (some pc_outside_range) = codes "pc-outside-range"
run_stop_reason_string (some bus_access) = codes "bus-access"
run_stop_reason_string (some predicate) = codes "predicate"
run_stop_reason_string (some exception) = codes "exception"
run_stop_reason_string (some illegal_opcode) = codes "illegal-opcode"

-- The eight registers of a file, from register 8 - n on.
unfoldable pub register_file : ℕ → Text → (ℕ → ℕ) → Text
unfolding hex
register_file zero name file = []
register_file (suc n) name file =
    name ++ ((48 + (7 - n)) ∷ 32 ∷ hex 8 (file (7 - n)) ++ (32 ∷ register_file n name file))

unfoldable pub registers_string : Registers → Text
unfolding hex register_file
registers_string r =
    codes "SR "
    ++ (hex 4 r.sr
        ++ (codes " PC "
            ++ (hex 8 r.pc
                ++ (codes " USP "
                    ++ (hex 8 r.usp
                        ++ (codes " SSP "
                            ++ (hex 8 r.ssp
                                ++ (codes " SP "
                                    ++ (hex 8 (r.a 7)
                                        ++ (codes " IR "
                                            ++ (hex 4 r.ir
                                                ++ (10 ∷ register_file 8 (codes "D") r.d
                                                    ++ (10 ∷ register_file 8 (codes "A") r.a
                                                        ++ 10 ∷ [])))))))))))))

-- The bytes, with a space between them.
unfoldable pub format_disassembly_bytes : List ℕ → Text
unfolding hex
format_disassembly_bytes [] = []
format_disassembly_bytes (v ∷ []) = hex 2 v
format_disassembly_bytes (v ∷ w ∷ vs) = hex 2 v ++ (32 ∷ format_disassembly_bytes (w ∷ vs))

unfoldable pub disassembly_line_string : DisassemblyLine → Text
unfolding hex format_disassembly_bytes pad_right
disassembly_line_string line =
    if length line.bytes == 0
    then hex 8 line.address ++ (codes ": " ++ line.assembly)
    else hex 8 line.address
      ++ (codes ": "
          ++ (pad_right 23 (format_disassembly_bytes line.bytes) ++ (32 ∷ line.assembly)))

-- A region of memory to disassemble.
pub record MemoryRange : Type 0 where
  pub start : ℕ
  pub length : ℕ
  pub label : Text

unfoldable pub format_memory_range_label : MemoryRange → Text
unfolding hex
format_memory_range_label r = elim r.label [
  | c ∷ label ↦ c ∷ label
  | [] ↦
      if r.length == 0
      then hex 8 (bit_and r.start 0xff_ffff)
      else hex 8 (bit_and r.start 0xff_ffff)
        ++ (45 ∷ hex 8 (bit_and (sub32 (add32 r.start r.length) 1) 0xff_ffff))
]

-- disassemblyString of the processor, for what is disassembled at the PC.
unfoldable pub disassembly_string : ℕ → Outcome DisassemblyLine → Text
unfolding hex
disassembly_string pc (fine line) = codes "DISASM " ++ (hex 8 pc ++ (codes ": " ++ line.assembly))
disassembly_string pc (bad e) = codes "DISASM " ++ (hex 8 pc ++ codes ": <unavailable>")

shows_address : hex 8 0xab12 ≡ codes "0000ab12"
unfolding hex
shows_address = refl

shows_line :
    disassembly_line_string
      (record { address = 0x1000; bytes = 0x4e ∷ 0x71 ∷ []; assembly = codes "NOP" })
    ≡ codes "00001000: 4e 71                   NOP"
unfolding disassembly_line_string
shows_line = refl
