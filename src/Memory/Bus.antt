-- ===== src/Memory/Bus.antt =====
-- The bus of bus.go: decoding of addresses, alignment, wait states, and word cycles.
use m68kemu.Base.{
  ℕ, zero, suc, ◌+◌, ◌-◌, bit_and, bit_or, Bool, true, false, Option, none, some, List, [], ◌∷◌,
  ◌++◌, ◌&&◌, ◌||◌, not, ◌==◌, ◌!=◌, ltb, if◌then◌else◌, add32, ◌<<<◌, ◌>>>◌, max, update, map,
}
use m68kemu.Operand.{Size, byte, word, long}
use m68kemu.Effect.{M, ◌>>=◌, ◌>>◌, pure, throw, modify, choose, ok, err, address_error, bus_error}
use m68kemu.Memory.Ram.{Ram}
use m68kemu.Memory.Device
use m68kemu.Memory.Device.{Device, within, ram, peripheral, mapped}
use m68kemu.Memory.PageMap.{PageRange, add_page_range, find_page_mapped_device}

-- The fields that refreshTopology derives from `devices` are functions of it here, but for the
-- page ranges. `charged` lists the calls of the wait hook, the latest first.
pub record Bus : Type 0 where
  pub devices : List Device
  pub wait_states : ℕ
  pub has_wait_hook : Bool
  pub has_page_map : Bool
  pub page_ranges : ℕ → List PageRange
  pub charged : List ℕ

abbrev pub single_ram : List Device → Option Ram
single_ram (ram r ∷ []) = some r
single_ram _ = none

abbrev pub single_device : List Device → Option Device
single_device (d ∷ []) = some d
single_device _ = none

abbrev pub is_some {ℓ} : {A : Type ℓ} → Option A → Bool
is_some none = false
is_some (some a) = true

unfoldable pub has_wait_state_devices : List Device → Bool
unfolding Device.wait_states
has_wait_state_devices [] = false
has_wait_state_devices (d ∷ ds) = is_some (Device.wait_states d) || has_wait_state_devices ds

unfoldable pub fast_ram : Bus → Option Ram
unfolding has_wait_state_devices
fast_ram b =
    if b.wait_states != 0 || has_wait_state_devices b.devices then none else single_ram b.devices

-- The pages from `page` on, `left` of them, of a device with the range start..end.
unfoldable pub add_pages : ℕ → ℕ → ℕ → ℕ → ℕ → (ℕ → List PageRange) → ℕ → List PageRange
unfolding add_page_range
add_pages zero page start end dev pages = pages
add_pages (suc left) page start end dev pages =
    let page_start = page <<< 16 in
    let page_end = bit_or page_start 0xffff in
    let range_start = max start page_start in
    let range_end = if ltb page_end end then page_end else end in
    add_pages left (page + 1) start end dev
      (update pages page (add_page_range (pages page) range_start range_end dev))

-- The loop of refreshTopology over the devices that have a range, from index `i`.
unfoldable pub index_devices :
    List Device → ℕ → Bool → (ℕ → List PageRange) → Bool × (ℕ → List PageRange)
unfolding Device.address_range add_pages
index_devices [] i mapped? pages = (mapped?, pages)
index_devices (d ∷ ds) i mapped? pages = elim (Device.address_range d) [
  | none ↦ index_devices ds (i + 1) mapped? pages
  | some (s, e) ↦
      let start = bit_and s 0xff_ffff in
      let end = bit_and e 0xff_ffff in
      elim (ltb end start) [
        | true ↦ index_devices ds (i + 1) mapped? pages
        | false ↦
            index_devices ds (i + 1) true
              (add_pages ((end >>> 16) + 1 - (start >>> 16)) (start >>> 16) start end i pages)
      ]
]

unfoldable pub refresh_topology : Bus → Bus
unfolding index_devices
refresh_topology b =
    let (has_map, pages) = index_devices b.devices 0 false (λ _. []) in
    record b { has_page_map = has_map; page_ranges = pages }

unfoldable pub new_bus : List Device → Bus
unfolding refresh_topology
new_bus devices = refresh_topology (record {
  devices = devices;
  wait_states = 0;
  has_wait_hook = false;
  has_page_map = false;
  page_ranges = λ _. [];
  charged = [];
})

unfoldable pub add_device : Device → Bus → Bus
unfolding refresh_topology
add_device d b = refresh_topology (record b { devices = b.devices ++ d ∷ [] })

unfoldable pub set_wait_states : ℕ → Bus → Bus
set_wait_states states b = record b { wait_states = states }

unfoldable pub set_wait_hook : Bus → Bus
set_wait_hook b = record b { has_wait_hook = true }

unfoldable pub reset : Bus → Bus
unfolding Device.reset
reset b = record b { devices = map Device.reset b.devices }

-- The index of the first device that contains the address.
unfoldable pub first_containing : List Device → ℕ → ℕ → Option ℕ
unfolding Device.contains
first_containing [] i address = none
first_containing (d ∷ ds) i address =
    if Device.contains d address then some i else first_containing ds (i + 1) address

abbrev pub or_else {ℓ} : {A : Type ℓ} → Option A → Option A → Option A
or_else none o = o
or_else (some a) o = some a

unfoldable pub find_device : Bus → ℕ → Option ℕ
unfolding first_containing find_page_mapped_device
find_device b address =
    let by_page =
      find_page_mapped_device (b.page_ranges (bit_and address 0xff_ffff >>> 16)) address in
    or_else (if b.has_page_map then by_page else none) (first_containing b.devices 0 address)

-- A single device, the RAM or another, is asked itself.
unfoldable pub device_for_address : Bus → ℕ → Option ℕ
unfolding find_device Device.contains
device_for_address b address = elim (single_device b.devices) [
  | some d ↦ if Device.contains d address then some 0 else none
  | none ↦ find_device b address
]

unfoldable pub validate_alignment : ℕ → Size → M Bus (Unit {0})
validate_alignment address byte = pure tt
validate_alignment address _ =
    choose (bit_and address 1 != 0) (throw (address_error address)) (pure tt)

-- The hook is called with the bus's wait states and the device's, if there are any.
unfoldable pub wait : Size → ℕ → Device → Bus → Bus
unfolding Device.wait_states has_wait_state_devices
wait s address d b =
    let has = has_wait_state_devices b.devices in
    if not b.has_wait_hook || (b.wait_states == 0 && not has)
    then b
    else (let own : ℕ = elim (Device.wait_states d) [ none ↦ 0 | some f ↦ f s address ] in
        let states = if has then add32 b.wait_states own else b.wait_states in
        if ltb 0 states then record b { charged = states ∷ b.charged } else b)

abbrev pub device_at : List Device → ℕ → Option Device
device_at [] i = none
device_at (d ∷ ds) zero = some d
device_at (d ∷ ds) (suc i) = device_at ds i

abbrev pub set_device : List Device → ℕ → Device → List Device
set_device [] i x = []
set_device (d ∷ ds) zero x = x ∷ ds
set_device (d ∷ ds) (suc i) x = d ∷ set_device ds i x

abbrev pub put_back : Bus → ℕ → Device → Bus
put_back b i d = record b { devices = set_device b.devices i d }

-- The device that answers for an address, with its index; a bus error if there is none.
unfoldable pub select : ℕ → M Bus (ℕ × Device)
unfolding device_for_address
select address b = elim (device_for_address b address) [
  | none ↦ err (bus_error address) b
  | some i ↦ elim (device_at b.devices i) [
    | none ↦ err (bus_error address) b
    | some d ↦ ok (i, d) b
  ]
]

unfoldable pub read_cycle : Size → ℕ → M Bus ℕ
unfolding select wait Device.read
read_cycle s address = do
  (i, d) ← select address
  modify (wait s address d)
  λ b. within (put_back b i) (Device.read s address d)

unfoldable pub peek_cycle : Size → ℕ → M Bus ℕ
unfolding select Device.peek
peek_cycle s address = do
  (i, d) ← select address
  λ b. within (put_back b i) (Device.peek s address d)

unfoldable pub write_cycle : Size → ℕ → ℕ → M Bus (Unit {0})
unfolding select wait Device.write
write_cycle s address value = do
  (i, d) ← select address
  modify (wait s address d)
  λ b. within (put_back b i) (Device.write s address value d)

-- A long is two word cycles, the high word first.
unfoldable pub split_read : (Size → ℕ → M Bus ℕ) → Size → ℕ → M Bus ℕ
split_read cycle long address = do
  high ← cycle word address
  low ← cycle word (bit_and (add32 address 2) 0xff_ffff)
  pure (bit_or (high <<< 16) low)
split_read cycle s address = cycle s address

unfoldable pub read : Size → ℕ → M Bus ℕ
unfolding validate_alignment split_read read_cycle
read s address = do
  let a = bit_and address 0xff_ffff
  validate_alignment a s
  split_read read_cycle s a

unfoldable pub peek : Size → ℕ → M Bus ℕ
unfolding validate_alignment split_read peek_cycle
peek s address = do
  let a = bit_and address 0xff_ffff
  validate_alignment a s
  split_read peek_cycle s a

unfoldable pub split_write : Size → ℕ → ℕ → M Bus (Unit {0})
unfolding write_cycle
split_write long address value = do
  write_cycle word address (value >>> 16)
  write_cycle word (bit_and (add32 address 2) 0xff_ffff) value
split_write s address value = write_cycle s address value

unfoldable pub write : Size → ℕ → ℕ → M Bus (Unit {0})
unfolding validate_alignment split_write
write s address value = do
  let a = bit_and address 0xff_ffff
  validate_alignment a s
  split_write s a value
