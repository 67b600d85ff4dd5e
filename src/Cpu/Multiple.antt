-- ===== src/Cpu/Multiple.antt =====
-- MOVEM: op_data_transfer.go.
use m68kemu.Base.{
  ℕ, ◌+◌, ◌-◌, ◌*◌, ◌^◌, ◌≡◌, refl, bit_and, Bool, true, false, Option, none, some, List, [], ◌∷◌,
  ◌&&◌, ◌||◌, ◌==◌, ◌!=◌, ltb, if◌then◌else◌, add32, sub32, u16, sext16, ◌<<<◌, ◌>>>◌, length, zero,
  suc,
}
use m68kemu.Operand.{Size, word, long, bytes, is_word}
use m68kemu.Effect.{◌>>=◌, ◌>>◌, pure, gets, modify, when}
use m68kemu.Decode.Fields.{mode_of}
use m68kemu.Cpu.State.{Cpu, Run}
use m68kemu.Cpu.Debug.{add_cycles}
use m68kemu.Cpu.Access
use m68kemu.Cpu.Stream.{pop_pc, set_a, set_d}
use m68kemu.Cpu.Exception.{exception, x_illegal}
use m68kemu.Cpu.Ea.{ix68000}

abbrev pub movem_size : ℕ → Option Size
movem_size opcode =
    let field = bit_and (opcode >>> 6) 0x3 in
    if field == 2 then some word else if field == 3 then some long else none

-- bits.Reverse16
abbrev reverse_bits : ℕ → ℕ → ℕ
reverse_bits zero m = 0
reverse_bits (suc n) m = bit_and m 1 * 2 ^ n + reverse_bits n (m >>> 1)

unfoldable pub reverse16 : ℕ → ℕ
reverse16 m = reverse_bits 16 m

-- The registers from `reg` on whose bit is set, `left` of them to be looked at, upwards.
unfoldable pub ascending : ℕ → ℕ → ℕ → List ℕ
ascending zero reg m = []
ascending (suc left) reg m =
    let rest = ascending left (reg + 1) m in if bit_and m (1 <<< reg) != 0 then reg ∷ rest else rest

-- The registers below `n` whose bit is set, downwards.
unfoldable pub descending : ℕ → ℕ → List ℕ
descending zero m = []
descending (suc n) m =
    let rest = descending n m in if bit_and m (1 <<< n) != 0 then n ∷ rest else rest

-- Numbers 0 to 7 are data registers, 8 to 15 address registers.
unfoldable pub movem_register_order : ℕ → Bool → List ℕ
unfolding reverse16 ascending descending
movem_register_order m false = ascending 16 0 m
movem_register_order m true = descending 16 (reverse16 m)

-- The exception of a mode that is not there is raised, and its success is the result (0, nil).
unfoldable illegal_mode : Run ℕ
unfolding exception
illegal_mode = do exception x_illegal; pure 0

unfoldable absolute_address : ℕ → Run ℕ
unfolding pop_pc exception ix68000 illegal_mode
absolute_address reg =
    if reg == 0
    then (do ext ← pop_pc word; pure (sext16 ext))
    else if reg == 1
    then pop_pc long
    else if reg == 2
    then (do ext ← pop_pc word; gets (λ cpu. add32 cpu.regs.pc (sext16 ext)))
    else if reg == 3
    then (λ cpu. ix68000 cpu.regs.pc cpu)
    else illegal_mode

-- In mode 7, register 2, the base is the PC behind the extension word.
unfoldable pub movem_read_address : ℕ → ℕ → Run ℕ
unfolding pop_pc exception ix68000 absolute_address illegal_mode
movem_read_address mode reg =
    if mode == 2 || mode == 3 || mode == 4
    then gets (λ cpu. cpu.regs.a reg)
    else if mode == 5
    then (do ext ← pop_pc word; gets (λ cpu. add32 (cpu.regs.a reg) (sext16 ext)))
    else if mode == 6
    then (λ cpu. ix68000 (cpu.regs.a reg) cpu)
    else if mode == 7
    then absolute_address reg
    else illegal_mode

abbrev load_register : Size → ℕ → ℕ → Cpu → Cpu
load_register size r value =
    let v = if is_word size then sext16 value else value in
    if ltb r 8 then set_d r v else set_a (r - 8) v

abbrev register_value : ℕ → Cpu → ℕ
register_value r cpu = if ltb r 8 then cpu.regs.d r else cpu.regs.a (r - 8)

-- The loop over the registers; the result is the address behind the last.
unfoldable pub load_all : Size → Bool → List ℕ → ℕ → Run ℕ
unfolding Access.read
load_all size down [] addr = pure addr
load_all size down (r ∷ rs) addr = do
  let at = if down then sub32 addr (bytes size) else addr
  value ← Access.read size at
  modify (load_register size r value)
  load_all size down rs (if down then at else add32 at (bytes size))

unfoldable pub store_all : Size → Bool → List ℕ → ℕ → Run ℕ
unfolding Access.write
store_all size down [] addr = pure addr
store_all size down (r ∷ rs) addr = do
  let at = if down then sub32 addr (bytes size) else addr
  value ← gets (register_value r)
  Access.write size at value
  store_all size down rs (if down then at else add32 at (bytes size))

-- The base register keeps a value that was loaded into it.
unfoldable pub movem_to_registers : Run (Unit {0})
unfolding pop_pc movem_read_address movem_register_order add_cycles load_all exception
movem_to_registers cpu = elim (movem_size cpu.regs.ir) [
  | none ↦ exception x_illegal cpu
  | some size ↦
      (do
        m ← pop_pc word
        let mode = mode_of cpu.regs.ir
        let reg = bit_and cpu.regs.ir 0x7
        addr ← movem_read_address mode reg
        let regs = movem_register_order (u16 m) false
        modify (add_cycles (12 + 4 * length regs))
        end ← load_all size (mode == 4) regs addr
        when (mode == 3 && bit_and (m >>> (8 + reg)) 1 == 0) (modify (set_a reg end)))
        cpu
]

unfoldable pub movem_to_memory : Run (Unit {0})
unfolding pop_pc movem_read_address movem_register_order add_cycles store_all exception
movem_to_memory cpu = elim (movem_size cpu.regs.ir) [
  | none ↦ exception x_illegal cpu
  | some size ↦
      (do
        m ← pop_pc word
        let mode = mode_of cpu.regs.ir
        let reg = bit_and cpu.regs.ir 0x7
        addr ← movem_read_address mode reg
        let regs = movem_register_order (u16 m) (mode == 4)
        modify (add_cycles (8 + 4 * length regs))
        end ← store_all size (mode == 4) regs addr
        when (mode == 4) (modify (set_a reg end)))
        cpu
]

orders_for_predecrement : movem_register_order 0x8001 true ≡ 15 ∷ 0 ∷ []
unfolding movem_register_order
orders_for_predecrement = refl
