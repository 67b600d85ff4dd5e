-- ===== src/Cpu/Access/Cycle.antt =====
-- A word or byte cycle of a bus with a single RAM.
use m68kemu.Base.{
  ℕ, ◌+◌, ◌-◌, ◌≤◌, ◌<◌, ◌≡◌, ◌∙◌, refl, ap, arith, Bool, true, false, not, ◌||◌, Option, none,
  some, [], ◌∷◌, if◌then◌else◌, Bool-cases, inl, inr, past, taken,
}
use m68kemu.Operand.{Size, bytes}
use m68kemu.Effect.{◌>>=◌, ◌>>◌, modify, Result, ok, err, bus_error}
use m68kemu.Memory.Ram
use m68kemu.Memory.Ram.{Ram}
use m68kemu.Memory.Ram.Laws.{IsInside, IsBytes, spelled, read_lem}
use m68kemu.Memory.Device
use m68kemu.Memory.Device.{ram, within}
use m68kemu.Memory.Bus
use m68kemu.Memory.Bus.{
  Bus, fast_ram, read_cycle, select, device_for_address, wait, put_back, validate_alignment,
  split_read,
}
use m68kemu.Cpu.Access.{with_ram}

-- The bus with this RAM alone and without wait states.
abbrev pub ram_bus : Ram → Bus → Bus
ram_bus r b = record b { devices = ram r ∷ []; wait_states = 0 }

abbrev index_if : Bool → Option ℕ
index_if x = if x then some 0 else none

within-within :
    {S T U A : Type 0}
    → (f : T → U) (g : S → T) (m : Result S A) → within f (within g m) ≡ within (λ q. f (g q)) m
within-within f g (ok a s) = refl
within-within f g (err e s) = refl

module _ (r : Ram) (b : Bus) (bound : r.offset + r.size < 0x1_0000_0000) where
  no_wait : (s : Size) (a : ℕ) → wait s a (ram r) (ram_bus r b) ≡ ram_bus r b
  unfolding wait Bus.has_wait_state_devices Device.wait_states
  no_wait s a = taken (not b.has_wait_hook || true) _ (or_true (not b.has_wait_hook)) refl
    where
      or_true : (x : Bool) → (x || true) ≡ true
      or_true true = refl
      or_true false = refl

  -- A cycle, by whether the RAM has the address.
  unfoldable answered : Size → ℕ → Bool → Result Bus ℕ
  unfolding wait Device.read
  answered s a has =
      (do
        (i, d) ← λ b'. elim (index_if has) [
          | none ↦ err (bus_error a) b'
          | some i ↦ elim (Bus.device_at b'.devices i) [
            | none ↦ err (bus_error a) b'
            | some d ↦ ok (i, d) b'
          ]
        ]
        modify (wait s a d)
        λ b'. within (put_back b' i) (Device.read s a d))
        (ram_bus r b)

  -- A cycle at an address that the RAM has, and at another.
  cycle-inside :
      (s : Size) (a : ℕ)
      → Ram.contains r a ≡ true
      → read_cycle s a (ram_bus r b) ≡ within (λ q. with_ram (ram_bus r b) q) (Ram.read s a r)
  unfolding answered read_cycle select device_for_address Device.contains Device.read
  cycle-inside s a h =
      ap (answered s a) h
      ∙ (λ i. within (put_back (no_wait s a i) 0) (Device.read s a (ram r)))
      ∙ within-within (put_back (ram_bus r b) 0) ram (Ram.read s a r)

  cycle-outside :
      (s : Size) (a : ℕ)
      → Ram.contains r a ≡ false
      → read_cycle s a (ram_bus r b) ≡ err (bus_error a) (ram_bus r b)
  unfolding answered read_cycle select device_for_address Device.contains
  cycle-outside s a h = ap (answered s a) h

  -- A cycle of a byte or a word.
  pub cycle-missed :
      (s : Size) (a : ℕ)
      → a + bytes s ≤ 0x100_0000
      → r.offset + r.size < a + bytes s
      → 1 ≤ bytes s
      → read_cycle s a (ram_bus r b) ≡ err (bus_error a) (ram_bus r b)
  unfolding Ram.contains Ram.read Ram.range_check
  cycle-missed s a w h o = elim (Bool-cases (Ram.contains r a)) [
    | inl e ↦
        cycle-inside s a e ∙ ap (within (λ q. with_ram (ram_bus r b) q)) (past-range s a w h o)
    | inr e ↦ cycle-outside s a e
  ]
    where
      past-range :
          (s : Size) (a : ℕ)
          → a + bytes s ≤ 0x100_0000
          → r.offset + r.size < a + bytes s
          → 1 ≤ bytes s
          → Ram.read s a r ≡ err (bus_error a) r
      past-range s a w h o = past (Ram.range_check r a s) _ (ground arith) refl

  pub cycle-hit :
      (s : Size) (a : ℕ)
      → IsInside s a r
      → 1 ≤ bytes s
      → IsBytes r.cell
      → read_cycle s a (ram_bus r b) ≡ ok (spelled s r.cell (a - r.offset)) (ram_bus r b)
  unfolding Ram.contains
  cycle-hit s a (p, q, w) o bytes_ok =
      cycle-inside s a (ground arith)
      ∙ ap (within (λ q. with_ram (ram_bus r b) q)) (read_lem s a r (p, q, w) bytes_ok)
