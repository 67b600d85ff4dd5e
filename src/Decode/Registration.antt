-- ===== src/Decode/Registration.antt =====
-- registerInstruction, registerLogicalInstruction and direct assignment, as entries of a list.
use m68kemu.Base.{
  ℕ, zero, suc, ◌+◌, bit_and, bit_or, Bool, true, false, Option, none, some, List, [], ◌∷◌, ◌++◌,
  ◌&&◌, ◌==◌, if◌then◌else◌, not,
}
use m68kemu.Decode.EaMask
use m68kemu.Decode.Fields.{valid_ea}
use m68kemu.Decode.Cycles.{Calculator}

-- The handlers by name.
pub data Handler : Type 0 where
  add sub adda suba addq subq addi subi divu divs mulu muls neg : Handler
  cmp cmpa cmpi cmpm addx subx negx abcd sbcd nbcd clr tst : Handler
  and or eor ori andi eori complement bit_dynamic bit_immediate shift_rotate : Handler
  branch dbcc scc jmp link unlk move_to_usp move_from_usp chk jsr rts : Handler
  moveb movew movel moveaw moveal moveq movem_to_memory movem_to_registers movep lea pea : Handler
  swap ext tas exg illegal nop trapv reset stop movec : Handler
  ori_to_ccr ori_to_sr andi_to_ccr andi_to_sr eori_to_ccr eori_to_sr : Handler
  move_from_sr move_to_ccr move_to_sr rte rtr trap : Handler

-- How a registration treats a slot: `fresh` panics if the slot is taken, `spare` skips such a slot
-- and those of ABCD, `forced` overwrites it.
pub data Policy : Type 0 where
  fresh spare forced : Policy

-- All opcodes that agree with `match` on the bits of `mask` and have a valid addressing mode.
pub record Registration : Type 0 where
  pub policy : Policy
  pub handler : Handler
  pub match : ℕ
  pub mask : ℕ
  pub ea_mask : ℕ
  pub calc : Option Calculator

abbrev pub reg : Policy → Handler → ℕ → ℕ → ℕ → Calculator → Registration
reg p h match mask ea_mask calc = record {
  policy = p;
  handler = h;
  match = match;
  mask = mask;
  ea_mask = ea_mask;
  calc = some calc;
}

abbrev pub register_instruction : Handler → ℕ → ℕ → ℕ → Calculator → Registration
register_instruction = reg fresh

abbrev pub register_logical_instruction : Handler → ℕ → ℕ → ℕ → Calculator → Registration
register_logical_instruction = reg spare

-- `for i := from; i < from+left; i++ { rs(i) }`
abbrev pub each : ℕ → ℕ → (ℕ → List Registration) → List Registration
each zero from rs = []
each (suc left) from rs = rs from ++ each left (from + 1) rs

-- Whether the loop of a registration comes to an opcode: the loop runs through the values of the
-- bits outside the mask.
unfoldable pub covers : Registration → ℕ → Bool
unfolding valid_ea
covers r opcode = bit_and opcode r.mask == r.match && valid_ea opcode r.ea_mask

pub record Slot : Type 0 where
  pub handler : Option Handler
  pub cycles : ℕ

abbrev pub is_reserved : ℕ → Bool
is_reserved opcode = bit_and opcode 0xf1f8 == 0xc100

abbrev pub taken : Slot → Bool
taken s = elim s.handler [ none ↦ false | some h ↦ true ]

abbrev pub fill : Registration → ℕ → Slot → Slot
fill r opcode s = record {
  handler = some r.handler;
  cycles = elim r.calc [ none ↦ s.cycles | some f ↦ f opcode ];
}

abbrev pub allows : Policy → ℕ → Slot → Bool
allows fresh opcode s = not (taken s)
allows spare opcode s = not (is_reserved opcode) && not (taken s)
allows forced opcode s = true

-- One registration at one slot; `none` is the panic of a second registration.
unfoldable pub enter : Registration → ℕ → Slot → Option Slot
unfolding covers
enter r opcode s =
    if not (covers r opcode)
    then some s
    else if allows r.policy opcode s
    then some (fill r opcode s)
    else elim r.policy [ fresh ↦ none | _ ↦ some s ]

unfoldable pub enter_all : List Registration → ℕ → Slot → Option Slot
unfolding enter
enter_all [] opcode s = some s
enter_all (r ∷ rs) opcode s = elim (enter r opcode s) [
  | none ↦ none
  | some s' ↦ enter_all rs opcode s'
]

-- Masks that several init functions build.
abbrev pub alterable_no_addr : ℕ
alterable_no_addr = 0x0bf8

abbrev pub alterable : ℕ
alterable = 0x0ff8

abbrev pub with_pc : ℕ → ℕ
with_pc m = bit_or m (bit_or EaMask.pc_displacement EaMask.pc_index)

abbrev pub with_immediate : ℕ → ℕ
with_immediate m = bit_or m EaMask.immediate

abbrev pub control : ℕ
control = 0x027b
