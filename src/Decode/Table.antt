-- ===== src/Decode/Table.antt =====
-- opcodeTable and opcodeCycleTable, after all init functions.
use m68kemu.Base.{ℕ, ◌≡◌, refl, Option, none, some, List, ◌++◌}
use m68kemu.Decode.Registration.{Handler, Registration, Slot, enter_all}
use m68kemu.Decode.Arithmetic.{add_sub, adda_to_neg, compare, extend, bcd, clear_test}
use m68kemu.Decode.Logical.{logical, bits, shift}
use m68kemu.Decode.Control.{branches, jumps, subroutines}
use m68kemu.Decode.Transfer.{moves, move_multiple, move_peripheral, addresses}
use m68kemu.Decode.System.{system, traps}

-- Go runs the init functions file by file in the order of the files' names.
unfoldable pub registrations : List Registration
unfolding add_sub adda_to_neg compare extend bcd clear_test logical bits shift branches jumps
    subroutines moves move_multiple move_peripheral addresses system traps
registrations =
    add_sub
    ++ (adda_to_neg
        ++ (compare
            ++ (extend
                ++ (bcd
                    ++ (clear_test
                        ++ (logical
                            ++ (bits
                                ++ (shift
                                    ++ (branches
                                        ++ (jumps
                                            ++ (subroutines
                                                ++ (moves
                                                    ++ (move_multiple
                                                        ++ (move_peripheral
                                                            ++ (addresses
                                                            ++ (system ++ traps))))))))))))))))

abbrev pub free : Slot
free = record { handler = none; cycles = 0 }

abbrev pub or_free : Option Slot → Slot
or_free none = free
or_free (some s) = s

unfoldable pub opcode_slot : ℕ → Slot
unfolding registrations enter_all
opcode_slot opcode = or_free (enter_all registrations opcode free)

unfoldable pub opcode_table : ℕ → Option Handler
unfolding opcode_slot
opcode_table opcode = (opcode_slot opcode).handler

unfoldable pub opcode_cycle_table : ℕ → ℕ
unfolding opcode_slot
opcode_cycle_table opcode = (opcode_slot opcode).cycles

moveq_slot : opcode_slot 0x7005 ≡ record { handler = some Handler.moveq; cycles = 4 }
unfolding opcode_slot
moveq_slot = refl

addx_overwrites_add : opcode_table 0xd100 ≡ some Handler.addx
unfolding opcode_table
addx_overwrites_add = refl

line_a_is_free : opcode_table 0xa000 ≡ none
unfolding opcode_table
line_a_is_free = refl
