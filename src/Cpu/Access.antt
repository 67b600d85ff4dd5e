-- ===== src/Cpu/Access.antt =====
-- Memory access of cpu.go: breakpoints, the fast path for a single RAM, the bus, the stack and the
-- instruction stream.
pub mod Plain
pub mod Cycle
pub mod Agreement
mod Tests
use m68kemu.Base.{
  ℕ, bit_and, true, false, Option, none, some, List, [], ◌∷◌, ◌!=◌, ltb, leb, if◌then◌else◌, add32,
  sub32, ◌>>>◌,
}
use m68kemu.Operand.{Size, byte, word, long}
use m68kemu.Effect.{
  M, ◌>>=◌, ◌>>◌, throw, gets, choose, Result, ok, err, Error, address_error, bus_error, on_read,
  on_write,
}
use m68kemu.Memory.Ram
use m68kemu.Memory.Ram.{Ram}
use m68kemu.Memory.Device.{ram}
use m68kemu.Memory.Bus
use m68kemu.Memory.Bus.{Bus, fast_ram}
use m68kemu.Cpu.State.{Cpu, Run, AccessContext}
use m68kemu.Cpu.Debug.{
  add_cycles, data_function_code, program_function_code, context, fault_address, record_fault,
  trace_if_wanted, check_breakpoint,
}

-- What the fast path reports: `skip` leaves the access to the bus.
pub data Fast (A : Type 0) : Type 0 where
  skip : Fast A
  hit : A → Fast A
  miss : Error → Fast A

abbrev pub fast_of : {A B : Type 0} → Result A B → Fast B
fast_of (ok b s) = hit b
fast_of (err e s) = miss e

-- fastRAMRead at the RAM.
unfoldable pub ram_read : Size → ℕ → Ram → Fast ℕ
unfolding Ram.get_bytes
ram_read byte address r =
    if ltb address r.offset
    then miss (bus_error address)
    else (let idx = sub32 address r.offset in
        if leb r.size idx then miss (bus_error address) else fast_of (Ram.get_bytes byte idx r))
ram_read word address r =
    if ltb address r.offset
    then miss (bus_error address)
    else (let idx = sub32 address r.offset in
        if bit_and address 1 != 0
        then miss (address_error address)
        else if leb r.size (add32 idx 1)
        then miss (bus_error address)
        else fast_of (Ram.get_bytes word idx r))
ram_read long address r =
    if ltb address r.offset
    then miss (bus_error address)
    else (let idx = sub32 address r.offset in
        if bit_and address 1 != 0
        then miss (address_error address)
        else if leb r.size (add32 idx 1)
        then miss (bus_error address)
        else if leb r.size (add32 idx 3)
        then miss (bus_error (bit_and (add32 address 2) 0xff_ffff))
        else fast_of (Ram.get_bytes long idx r))

unfoldable pub fast_ram_read : Size → ℕ → Bus → Fast ℕ
unfolding fast_ram ram_read
fast_ram_read size address b = elim (fast_ram b) [ none ↦ skip | some r ↦ ram_read size address r ]

-- The RAM after a write, and how the write ended: a long that ends outside keeps its high word.
unfoldable pub ram_write : Size → ℕ → ℕ → M Ram (Unit {0})
unfolding Ram.put_bytes
ram_write byte address value r =
    if ltb address r.offset
    then err (bus_error address) r
    else (let idx = sub32 address r.offset in
        if leb r.size idx then err (bus_error address) r else Ram.put_bytes byte idx value r)
ram_write word address value r =
    if ltb address r.offset
    then err (bus_error address) r
    else (let idx = sub32 address r.offset in
        if bit_and address 1 != 0
        then err (address_error address) r
        else if leb r.size (add32 idx 1)
        then err (bus_error address) r
        else Ram.put_bytes word idx value r)
ram_write long address value r =
    if ltb address r.offset
    then err (bus_error address) r
    else (let idx = sub32 address r.offset in
        if bit_and address 1 != 0
        then err (address_error address) r
        else if leb r.size (add32 idx 1)
        then err (bus_error address) r
        else (do
          Ram.put_bytes word idx (value >>> 16)
          choose (leb r.size (add32 idx 3))
              (throw (bus_error (bit_and (add32 address 2) 0xff_ffff)))
              (Ram.put_bytes word (add32 idx 2) value))
            r)

abbrev pub with_ram : Bus → Ram → Bus
with_ram b r = record b { devices = ram r ∷ [] }

-- A bus access from the processor: the wait states that the hook was called with are added as
-- cycles, oldest first.
unfoldable pub charge : List ℕ → Cpu → Cpu
unfolding add_cycles
charge [] cpu = cpu
charge (w ∷ ws) cpu = add_cycles w (charge ws cpu)

unfoldable pub on_bus : {A : Type 0} → M Bus A → Run A
unfolding add_cycles charge
on_bus m cpu = elim (m cpu.bus) [
  | ok a b ↦ ok a (charge b.charged (record cpu { bus = record b { charged = [] } }))
  | err e b ↦ err e (charge b.charged (record cpu { bus = record b { charged = [] } }))
]

-- recordFault on the way out of an access that failed.
unfoldable pub faults : {A : Type 0} → ℕ → AccessContext → Error → Run A
unfolding record_fault fault_address
faults address ctx e cpu = err e (record_fault (fault_address address e) ctx cpu)

unfoldable pub read_context : Size → ℕ → AccessContext → Run ℕ
unfolding check_breakpoint fast_ram_read on_bus Bus.read record_fault fault_address trace_if_wanted
    faults
read_context size address ctx = do
  let a = bit_and address 0xff_ffff
  check_breakpoint a on_read
  fast ← gets (λ cpu. fast_ram_read size a cpu.bus)
  λ cpu. elim fast [
    | hit v ↦ ok v (trace_if_wanted size a v ctx cpu)
    | miss e ↦ faults a ctx e cpu
    | skip ↦ elim (on_bus (Bus.read size a) cpu) [
      | ok v c ↦ ok v (trace_if_wanted size a v ctx c)
      | err e c ↦ faults a ctx e c
    ]
  ]

-- fastRAMWrite, on the bus that holds the RAM.
unfoldable pub fast_ram_write : Size → ℕ → ℕ → Bus → Option (Result Bus (Unit {0}))
unfolding fast_ram ram_write
fast_ram_write size address value b = elim (fast_ram b) [
  | none ↦ none
  | some r ↦ elim (ram_write size address value r) [
    | ok u r' ↦ some (ok u (with_ram b r'))
    | err e r' ↦ some (err e (with_ram b r'))
  ]
]

unfoldable pub write_context : Size → ℕ → ℕ → AccessContext → Run (Unit {0})
unfolding check_breakpoint fast_ram_write on_bus Bus.write record_fault fault_address
    trace_if_wanted faults
write_context size address value ctx = do
  let a = bit_and address 0xff_ffff
  check_breakpoint a on_write
  λ cpu. elim (fast_ram_write size a value cpu.bus) [
    | some (ok u b) ↦ ok tt (trace_if_wanted size a value ctx (record cpu { bus = b }))
    | some (err e b) ↦ faults a ctx e (record cpu { bus = b })
    | none ↦ elim (on_bus (Bus.write size a value) cpu) [
      | ok u c ↦ ok tt (trace_if_wanted size a value ctx c)
      | err e c ↦ faults a ctx e c
    ]
  ]

unfoldable pub read : Size → ℕ → Run ℕ
unfolding read_context data_function_code
read size address cpu = read_context size address (context (data_function_code cpu) false false) cpu

unfoldable pub read_program : Size → ℕ → Run ℕ
unfolding read_context program_function_code
read_program size address cpu =
    read_context size address (context (program_function_code cpu) false false) cpu

unfoldable pub read_system_program : Size → ℕ → Run ℕ
unfolding read_context
read_system_program size address = read_context size address (context 6 true false)

unfoldable pub write : Size → ℕ → ℕ → Run (Unit {0})
unfolding write_context data_function_code
write size address value cpu =
    write_context size address value (context (data_function_code cpu) false true) cpu

unfoldable pub write_system_data : Size → ℕ → ℕ → Run (Unit {0})
unfolding write_context
write_system_data size address value = write_context size address value (context 5 true true)
