-- ===== src/Verbose/Tests.antt =====
-- NOP instructions, and a decoder that knows only them.
use m68kemu.Base.{ℕ, sym, ap, arith, List, [], ◌∷◌}
use m68kemu.Memory.Bus.{Bus}
use m68kemu.Memory.Bus
use m68kemu.Memory.Device
use m68kemu.Memory.Ram.{Ram}
use m68kemu.Verbose.{Decoded, found, refused, disassemble_memory_range}
use m68kemu.Verbose.Range.{KeepsAddress, IsDisassembly, disassemble_memory_range_lem}

abbrev nops : Ram
nops = record { offset = 0; size = 0x100; cell = λ i. 0x4e }

abbrev bus : Bus
unfolding Bus.new_bus
bus = Bus.new_bus (Device.ram nops ∷ [])

abbrev decode_word : List ℕ → ℕ → Decoded
decode_word (h ∷ l ∷ rest) a = found (record { address = a; bytes = h ∷ l ∷ []; assembly = [] })
decode_word _ a = refused []

abbrev address_or : ℕ → Decoded → ℕ
address_or a (found i) = i.address
address_or a (refused t) = a

decode_word-KeepsAddress : KeepsAddress decode_word
decode_word-KeepsAddress [] a i h = sym (ap (address_or a) h)
decode_word-KeepsAddress (x ∷ []) a i h = sym (ap (address_or a) h)
decode_word-KeepsAddress (x ∷ y ∷ rest) a i h = sym (ap (address_or a) h)

disassemble_memory_range_lem_example :
    IsDisassembly 0x20 5 (disassemble_memory_range decode_word 5 0x20 5 bus)
disassemble_memory_range_lem_example =
    disassemble_memory_range_lem decode_word decode_word-KeepsAddress 5 0x20 5 bus (omega arith)
      (omega arith)
