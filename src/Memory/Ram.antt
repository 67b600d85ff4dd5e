-- ===== src/Memory/Ram.antt =====
-- The flat RAM of memory.go.
pub mod Laws
use m68kemu.Base.{
  ℕ, bit_or, Bool, ◌&&◌, ◌==◌, ltb, leb, if◌then◌else◌, ◌<<<◌, ◌>>>◌, add32, sub32, u8, update,
}
use m68kemu.Operand.{Size, byte, word, long, bytes}
use m68kemu.Effect.{M, ◌>>=◌, ◌>>◌, pure, bus_error, panicked, ok, err}

-- The slice `mem` is its length and its cells, each below 256.
pub record Ram : Type 0 where
  pub offset : ℕ
  pub size : ℕ
  pub cell : ℕ → ℕ

unfoldable pub new_ram : ℕ → ℕ → Ram
new_ram offset size = record { offset = offset; size = size; cell = λ _. 0 }

unfoldable pub contains : Ram → ℕ → Bool
contains ram address = leb ram.offset address && ltb address (add32 ram.offset ram.size)

unfoldable pub address_range : Ram → ℕ × ℕ
address_range ram =
    if ram.size == 0
    then (ram.offset, ram.offset)
    else (ram.offset, sub32 (add32 ram.offset ram.size) 1)

unfoldable pub range_check : Ram → ℕ → Size → Bool
range_check ram address s =
    leb ram.offset address && ltb (sub32 (add32 address (bytes s)) 1) (add32 ram.offset ram.size)

-- `ram.mem[i]`, read and assigned; an index out of range is a panic.
unfoldable pub get : ℕ → M Ram ℕ
get i ram = if ltb i ram.size then ok (ram.cell i) ram else err panicked ram

unfoldable pub put : ℕ → ℕ → M Ram (Unit {0})
put i v ram =
    if ltb i ram.size
    then ok tt (record ram { cell = update ram.cell i (u8 v) })
    else err panicked ram

-- The bytes of a value, most significant first.
unfoldable pub get_bytes : Size → ℕ → M Ram ℕ
unfolding get
get_bytes byte i = get i
get_bytes word i = do b1 ← get i; b0 ← get (add32 i 1); pure (bit_or (b1 <<< 8) b0)
get_bytes long i = do
  b3 ← get i
  b2 ← get (add32 i 1)
  b1 ← get (add32 i 2)
  b0 ← get (add32 i 3)
  pure (bit_or (bit_or (bit_or (b3 <<< 24) (b2 <<< 16)) (b1 <<< 8)) b0)

unfoldable pub put_bytes : Size → ℕ → ℕ → M Ram (Unit {0})
unfolding put
put_bytes byte i value = put i value
put_bytes word i value = do put i (value >>> 8); put (add32 i 1) value
put_bytes long i value = do
  put i (value >>> 24)
  put (add32 i 1) (value >>> 16)
  put (add32 i 2) (value >>> 8)
  put (add32 i 3) value

unfoldable pub read : Size → ℕ → M Ram ℕ
unfolding range_check get_bytes
read s address ram =
    if range_check ram address s
    then get_bytes s (sub32 address ram.offset) ram
    else err (bus_error address) ram

-- Peek is Read.
unfoldable pub peek : Size → ℕ → M Ram ℕ
unfolding read
peek s address = read s address

unfoldable pub write : Size → ℕ → ℕ → M Ram (Unit {0})
unfolding range_check put_bytes
write s address value ram =
    if range_check ram address s
    then put_bytes s (sub32 address ram.offset) value ram
    else err (bus_error address) ram

-- The CPU's RESET does not erase the memory.
unfoldable pub reset : Ram → Ram
reset ram = ram
