-- ===== src/Memory/Ram/Laws.antt =====
-- The RAM is a big-endian memory: what read and write do with its cells.
use m68kemu.Base.{
  true, ◌*◌, ◌/◌, ◌%◌, ◌>>>◌, u8, update, sub32, ◌-◌, ◌∙◌, ◌^◌, ℕ, ◌+◌, ◌*◌, ◌<◌, ◌≤◌, ◌≡◌, arith,
  bit_or, add32, ◌<<<◌,
}
use m68kemu.Base.Fields.{or_join}
use m68kemu.Operand.{Size, byte, word, long, bytes}
use m68kemu.Effect.{◌>>◌, bind-ok, ok}
use m68kemu.Alu.Spec.{span}
use m68kemu.Memory.Ram.{put, put_bytes, read, write, range_check, Ram, get, get_bytes}

shl8 : (x : ℕ) → x < 256 → (x <<< 8) ≡ x * 2 ^ 8
shl8 x h = omega arith

shl16 : (x : ℕ) → x < 256 → (x <<< 16) ≡ x * 2 ^ 16
shl16 x h = omega arith

shl24 : (x : ℕ) → x < 256 → (x <<< 24) ≡ x * 2 ^ 24
shl24 x h = omega arith

join2 : (a b : ℕ) → a < 256 → b < 256 → bit_or (a <<< 8) b ≡ a * 256 + b
join2 a b p q = rw (shl8 a p) (or_join 8 a b q)

regroup16 : (a b : ℕ) → a * 2 ^ 24 + b * 2 ^ 16 ≡ (a * 256 + b) * 2 ^ 16
regroup16 a b = omega arith

regroup8 : (a b : ℕ) → a * 2 ^ 16 + b * 2 ^ 8 ≡ (a * 256 + b) * 2 ^ 8
regroup8 a b = omega arith

-- The bytes a, b, c and d, the first one the most significant.
join4 :
    (a b c d : ℕ)
    → a < 256
    → b < 256
    → c < 256
    → d < 256
    → bit_or (bit_or (bit_or (a <<< 24) (b <<< 16)) (c <<< 8)) d
      ≡ ((a * 256 + b) * 256 + c) * 256 + d
join4 a b c d p q r s =
    rw
      (
        shl24 a p,
        shl16 b q,
        shl8 c r,
        or_join 24 a (b * 2 ^ 16) (omega arith),
        regroup16 a b,
        or_join 16 (a * 256 + b) (c * 2 ^ 8) (omega arith),
        regroup8 (a * 256 + b) c,
      )
      (or_join 8 ((a * 256 + b) * 256 + c) d s)

get-ok : (i : ℕ) (ram : Ram) → i < ram.size → get i ram ≡ ok (ram.cell i) ram
unfolding get
get-ok i ram h = ground arith

after : (i k : ℕ) → i + k < 0x1_0000_0000 → add32 i k ≡ i + k
after i k h = omega arith

get-after :
    (i k : ℕ) (ram : Ram)
    → i + k < ram.size
    → ram.size < 0x1_0000_0000
    → get (add32 i k) ram ≡ ok (ram.cell (i + k)) ram
get-after i k ram h w = rw (after i k (omega arith)) (get-ok (i + k) ram h)

-- The number that the cells from i on spell, the most significant byte first.
abbrev pub spelled : Size → (ℕ → ℕ) → ℕ → ℕ
spelled byte cell i = cell i
spelled word cell i = cell i * 256 + cell (i + 1)
spelled long cell i = ((cell i * 256 + cell (i + 1)) * 256 + cell (i + 2)) * 256 + cell (i + 3)

abbrev pub IsBytes : (ℕ → ℕ) → Type 0
IsBytes cell = (i : ℕ) → cell i < 256

pub get_bytes-spelled :
    (s : Size) (i : ℕ) (ram : Ram)
    → IsBytes ram.cell
    → i + bytes s ≤ ram.size
    → ram.size < 0x1_0000_0000
    → get_bytes s i ram ≡ ok (spelled s ram.cell i) ram
unfolding get_bytes
get_bytes-spelled byte i ram b h k = get-ok i ram (omega arith)
get_bytes-spelled word i ram b h k =
    bind-ok (get i) _ ram (get-ok i ram (omega arith))
    ∙ bind-ok (get (add32 i 1)) _ ram (get-after i 1 ram (omega arith) k)
    ∙ (λ t. ok (join2 (ram.cell i) (ram.cell (i + 1)) (b i) (b (i + 1)) t) ram)
get_bytes-spelled long i ram b h k =
    bind-ok (get i) _ ram (get-ok i ram (omega arith))
    ∙ bind-ok (get (add32 i 1)) _ ram (get-after i 1 ram (omega arith) k)
    ∙ bind-ok (get (add32 i 2)) _ ram (get-after i 2 ram (omega arith) k)
    ∙ bind-ok (get (add32 i 3)) _ ram (get-after i 3 ram (omega arith) k)
    ∙ (λ t.
        ok
          (join4 (ram.cell i) (ram.cell (i + 1)) (ram.cell (i + 2)) (ram.cell (i + 3)) (b i)
            (b (i + 1)) (b (i + 2)) (b (i + 3)) t)
          ram)

put-ok :
    (i v : ℕ) (ram : Ram)
    → i < ram.size
    → put i v ram ≡ ok tt (record ram { cell = update ram.cell i (u8 v) })
unfolding put
put-ok i v ram h = ground arith

put-after :
    (i k v : ℕ) (ram : Ram)
    → i + k < ram.size
    → ram.size < 0x1_0000_0000
    → put (add32 i k) v ram ≡ ok tt (record ram { cell = update ram.cell (i + k) (u8 v) })
put-after i k v ram h w = rw (after i k (omega arith)) (put-ok (i + k) v ram h)

-- The cells after a value is written from i on, the most significant byte first.
abbrev pub stored : Size → ℕ → ℕ → (ℕ → ℕ) → ℕ → ℕ
stored byte i v cell = update cell i (v % 256)
stored word i v cell = update (update cell i (v / 256 % 256)) (i + 1) (v % 256)
stored long i v cell =
    update
      (update (update (update cell i (v / 0x1_00_0000 % 256)) (i + 1) (v / 0x1_0000 % 256)) (i + 2)
        (v / 256 % 256))
      (i + 3) (v % 256)

pub put_bytes-stored :
    (s : Size) (i v : ℕ) (ram : Ram)
    → i + bytes s ≤ ram.size
    → ram.size < 0x1_0000_0000
    → put_bytes s i v ram ≡ ok tt (record ram { cell = stored s i v ram.cell })
unfolding put_bytes
put_bytes-stored byte i v ram h k = put-ok i v ram (omega arith)
put_bytes-stored word i v ram h k =
    bind-ok (put i (v >>> 8)) _ ram (put-ok i (v >>> 8) ram (omega arith))
    ∙ put-after i 1 v _ (omega arith) k
put_bytes-stored long i v ram h k =
    bind-ok (put i (v >>> 24)) _ ram (put-ok i (v >>> 24) ram (omega arith))
    ∙ bind-ok (put (add32 i 1) (v >>> 16)) _ _ (put-after i 1 (v >>> 16) _ (omega arith) k)
    ∙ bind-ok (put (add32 i 2) (v >>> 8)) _ _ (put-after i 2 (v >>> 8) _ (omega arith) k)
    ∙ put-after i 3 v _ (omega arith) k

pub spelled-stored :
    (s : Size) (i v : ℕ) (cell : ℕ → ℕ) → spelled s (stored s i v cell) i ≡ v % span s
spelled-stored byte i v cell = ground arith
spelled-stored word i v cell = ground arith
spelled-stored long i v cell = ground arith

pub stored-IsBytes :
    (s : Size) (i v : ℕ) (cell : ℕ → ℕ) → IsBytes cell → IsBytes (stored s i v cell)
stored-IsBytes byte i v cell b j = let h = b j in ground arith
stored-IsBytes word i v cell b j = let h = b j in ground arith
stored-IsBytes long i v cell b j = let h = b j in ground arith

-- The addresses that an access of a size may use.
abbrev pub IsInside : Size → ℕ → Ram → Type 0
IsInside s address ram =
    (ram.offset ≤ address)
    × (address + bytes s ≤ ram.offset + ram.size)
    × (ram.offset + ram.size < 0x1_0000_0000)

range_check-ok :
    (s : Size) (address : ℕ) (ram : Ram) → IsInside s address ram → range_check ram address s ≡ true
unfolding range_check
range_check-ok byte address ram (a, b, c) = ground arith
range_check-ok word address ram (a, b, c) = ground arith
range_check-ok long address ram (a, b, c) = ground arith

pub index :
    (s : Size) (address : ℕ) (ram : Ram)
    → IsInside s address ram
    → sub32 address ram.offset ≡ address - ram.offset
index byte address ram (a, b, c) = omega arith
index word address ram (a, b, c) = omega arith
index long address ram (a, b, c) = omega arith

-- Inside a RAM of bytes a read gives the number that the bytes from the address on spell, and changes
-- nothing.
pub read_lem :
    (s : Size) (address : ℕ) (ram : Ram)
    → IsInside s address ram
    → IsBytes ram.cell
    → read s address ram ≡ ok (spelled s ram.cell (address - ram.offset)) ram
unfolding read
read_lem s address ram (a, b, c) h =
    rw (range_check-ok s address ram (a, b, c), index s address ram (a, b, c))
      (get_bytes-spelled s (address - ram.offset) ram h (omega arith) (omega arith))

-- Inside the RAM a write puts the bytes of the value, the most significant one first.
pub write_lem :
    (s : Size) (address v : ℕ) (ram : Ram)
    → IsInside s address ram
    → write s address v ram
      ≡ ok tt (record ram { cell = stored s (address - ram.offset) v ram.cell })
unfolding write
write_lem s address v ram (a, b, c) =
    rw (range_check-ok s address ram (a, b, c), index s address ram (a, b, c))
      (put_bytes-stored s (address - ram.offset) v ram (omega arith) (omega arith))

-- What is written inside a RAM of bytes is read back, modulo the width of the access.
pub write-read :
    (s : Size) (address v : ℕ) (ram : Ram)
    → IsInside s address ram
    → IsBytes ram.cell
    → (write s address v >> read s address) ram
      ≡ ok (v % span s) (record ram { cell = stored s (address - ram.offset) v ram.cell })
write-read s address v ram h b =
    bind-ok (write s address v) _ ram (write_lem s address v ram h)
    ∙ read_lem s address _ h (stored-IsBytes s (address - ram.offset) v ram.cell b)
    ∙ (λ t.
        ok (spelled-stored s (address - ram.offset) v ram.cell t)
          (record ram { cell = stored s (address - ram.offset) v ram.cell }))
