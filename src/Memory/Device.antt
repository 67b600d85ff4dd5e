-- ===== src/Memory/Device.antt =====
-- The devices of bus.go: the RAM, mapped devices, and those that the embedding program supplies.
use m68kemu.Base.{
  ℕ, bit_and, Bool, false, ◌&&◌, ltb, leb, if◌then◌else◌, add32, sub32, Option, none, some, List,
  ◌∷◌,
}
use m68kemu.Operand.{Size, bytes}
use m68kemu.Effect.{M, ok, err, Error, bus_error, failed, Result}
use m68kemu.Memory.Ram
use m68kemu.Memory.Ram.{Ram}

-- What a peripheral has been asked to do so far.
pub data Access : Type 0 where
  read_at : Size → ℕ → Access
  write_at : Size → ℕ → ℕ → Access
  was_reset : Access

pub data Reply : Type 0 where
  value : ℕ → Reply
  refuse : Error → Reply

-- A device that is not under this repository: its answers are functions of its history. The
-- optional interfaces AddressRangeDevice, WaitStateDevice and PeekDevice may be missing.
pub record Peripheral : Type 0 where
  pub history : List Access
  pub claims : ℕ → Bool
  pub on_read : List Access → Size → ℕ → Reply
  pub on_write : List Access → Size → ℕ → ℕ → Option Error
  pub range : Option (ℕ × ℕ)
  pub waits : Option (Size → ℕ → ℕ)
  pub on_peek : Option (List Access → Size → ℕ → Reply)

pub data Device : Type 0 where
  ram : Ram → Device
  peripheral : Peripheral → Device
  mapped : ℕ → ℕ → Device → Device

abbrev pub in_range : ℕ → ℕ → ℕ → Bool
in_range start end address =
    leb start (bit_and address 0xff_ffff) && leb (bit_and address 0xff_ffff) end

unfoldable pub contains : Device → ℕ → Bool
unfolding Ram.contains
contains (ram r) address = Ram.contains r address
contains (peripheral p) address = p.claims address
contains (mapped start end d) address = in_range start end address

-- containsAccess of a mapped device.
unfoldable pub contains_access : ℕ → ℕ → Size → ℕ → Bool
contains_access start end size address =
    let a = bit_and address 0xff_ffff in
    let last = sub32 (add32 a (bytes size)) 1 in
    if in_range start end a then (if ltb last a then false else leb last end) else false

-- The wait states that the device adds, if it is a WaitStateDevice.
unfoldable pub wait_states : Device → Option (Size → ℕ → ℕ)
wait_states (ram r) = none
wait_states (peripheral p) = p.waits
wait_states (mapped start end d) = wait_states d

-- The range of an AddressRangeDevice.
unfoldable pub address_range : Device → Option (ℕ × ℕ)
unfolding Ram.address_range
address_range (ram r) = some (Ram.address_range r)
address_range (peripheral p) = p.range
address_range (mapped start end d) = some (start, end)

unfoldable pub map_device : ℕ → ℕ → Device → Device
map_device start end d = mapped (bit_and start 0xff_ffff) (bit_and end 0xff_ffff) d

-- A result of a part, put back into the whole.
abbrev pub within : {S T A : Type 0} → (S → T) → Result S A → Result T A
within f (ok a s) = ok a (f s)
within f (err e s) = err e (f s)

abbrev pub replied : Reply → Device → Result Device ℕ
replied (value v) d = ok v d
replied (refuse e) d = err e d

abbrev pub accepted : Option Error → Device → Result Device (Unit {0})
accepted none d = ok tt d
accepted (some e) d = err e d

abbrev pub record_access : Peripheral → Access → Device
record_access p a = peripheral (record p { history = a ∷ p.history })

unfoldable pub read : Size → ℕ → M Device ℕ
unfolding Ram.read contains_access
read s address (ram r) = within ram (Ram.read s address r)
read s address (peripheral p) =
    replied (p.on_read p.history s address) (record_access p (read_at s address))
read s address (mapped start end d) =
    if contains_access start end s address
    then within (mapped start end) (read s address d)
    else err (bus_error (bit_and address 0xff_ffff)) (mapped start end d)

unfoldable pub write : Size → ℕ → ℕ → M Device (Unit {0})
unfolding Ram.write contains_access
write s address v (ram r) = within ram (Ram.write s address v r)
write s address v (peripheral p) =
    accepted (p.on_write p.history s address v) (record_access p (write_at s address v))
write s address v (mapped start end d) =
    if contains_access start end s address
    then within (mapped start end) (write s address v d)
    else err (bus_error (bit_and address 0xff_ffff)) (mapped start end d)

-- peekDevice: reading without a side effect, where the device offers it.
unfoldable pub peek : Size → ℕ → M Device ℕ
unfolding Ram.peek contains_access
peek s address (ram r) = within ram (Ram.peek s address r)
peek s address (peripheral p) = elim p.on_peek [
  | none ↦ err failed (peripheral p)
  | some f ↦ replied (f p.history s address) (peripheral p)
]
peek s address (mapped start end d) =
    if contains_access start end s address
    then within (mapped start end) (peek s address d)
    else err (bus_error (bit_and address 0xff_ffff)) (mapped start end d)

unfoldable pub reset : Device → Device
unfolding Ram.reset
reset (ram r) = ram (Ram.reset r)
reset (peripheral p) = record_access p was_reset
reset (mapped start end d) = mapped start end (reset d)
