-- ===== src/Cpu/Access/Agreement.antt =====
-- The fast path to a single RAM reads what the bus reads.
use mathlib.Core.Path.{subst}
use m68kemu.Base.{
  ℕ, ◌+◌, ◌*◌, ◌-◌, ◌^◌, ◌≤◌, ◌<◌, ◌≡◌, ◌∙◌, refl, sym, ap, arith, bit_and, bit_or, true, ◌!=◌, ltb,
  leb, add32, sub32, Bool-cases, inl, inr, past, taken, and_mask, ◌<<<◌,
}
use m68kemu.Base.Fields.{or_join}
use m68kemu.Operand.{Size, byte, word, long}
use m68kemu.Effect.{
  M, ◌>>=◌, ◌>>◌, pure, bind-ok, choose, throw, Result, ok, err, Error, address_error, bus_error,
}
use m68kemu.Memory.Ram.{Ram}
use m68kemu.Memory.Ram.Laws.{IsInside, IsBytes, spelled}
use m68kemu.Memory.Device
use m68kemu.Memory.Device.{ram, within}
use m68kemu.Memory.Bus
use m68kemu.Memory.Bus.{
  Bus, fast_ram, read_cycle, select, device_for_address, wait, put_back, validate_alignment,
  split_read,
}
use m68kemu.Cpu.Access.{Fast, hit, miss, ram_read, fast_ram_read}
use m68kemu.Cpu.Access.Plain.{ram_read-hit}
use m68kemu.Cpu.Access.Cycle.{ram_bus, cycle-missed, cycle-hit}

-- The fast path answers as the bus does, which stays as it is.
pub data IsAgreed (b : Bus) : Fast ℕ → Result Bus ℕ → Type 0 where
  both_read : (v : ℕ) → IsAgreed b (hit v) (ok v b)
  both_fail : (e : Error) → IsAgreed b (miss e) (err e b)

IsAgreed-hit :
    {f : Fast ℕ} {m : Result Bus ℕ} → (b : Bus) (v : ℕ) → f ≡ hit v → m ≡ ok v b → IsAgreed b f m
IsAgreed-hit {f} {m} b v p q =
    subst (λ x. IsAgreed b x m) (sym p) (subst (IsAgreed b (hit v)) (sym q) (both_read v))

IsAgreed-miss :
    {f : Fast ℕ} {m : Result Bus ℕ}
    → (b : Bus) (e : Error) → f ≡ miss e
    → m ≡ err e b
    → IsAgreed b f m
IsAgreed-miss {f} {m} b e p q =
    subst (λ x. IsAgreed b x m) (sym p) (subst (IsAgreed b (miss e)) (sym q) (both_fail e))

bind-err :
    {S A B : Type 0}
    → (m : M S A) (f : A → M S B) (s : S) {e : Error} {t : S} → m s ≡ err e t
    → (m >>= f) s ≡ err e t
bind-err {S} {A} {B} m f s h = ap after h
  where
    after : Result S A → Result S B
    after m = elim m [ ok a t ↦ f a t | err e t ↦ err e t ]

joined :
    (i : ℕ) (cell : ℕ → ℕ)
    → IsBytes cell
    → bit_or (spelled word cell i <<< 16) (spelled word cell (i + 2)) ≡ spelled long cell i
joined i cell h =
    let high = spelled word cell i in
    let a = h i in
    let b = h (i + 1) in
    let c = h (i + 2) in
    let d = h (i + 2 + 1) in
    let e : high <<< 16 ≡ high * 2 ^ 16 = omega arith in
    let f : i + 2 + 1 ≡ i + 3 = omega arith in
    (λ t. bit_or (e t) (cell (i + 2) * 256 + cell (f t)))
    ∙ or_join 16 high (cell (i + 2) * 256 + cell (i + 3)) (omega (arith, h (i + 3)))
    ∙ omega arith

module _ (r : Ram) (b : Bus) (a : ℕ) (bound : r.offset + r.size < 0x1_0000_0000)
    (above : r.offset ≤ a) (inside : a + 4 ≤ 0x100_0000) (are_bytes : IsBytes r.cell) where
  byte-IsAgreed : IsAgreed (ram_bus r b) (ram_read byte a r) (read_cycle byte a (ram_bus r b))
  unfolding ram_read
  byte-IsAgreed = elim (Bool-cases (leb r.size (sub32 a r.offset))) [
    | inl e ↦
        IsAgreed-miss (ram_bus r b) (bus_error a)
          (past (ltb a r.offset) _ (ground arith) (taken (leb r.size (sub32 a r.offset)) _ e refl))
          (cycle-missed r b bound byte a (omega arith) (ground arith) (omega arith))
    | inr e ↦
        (let i : IsInside byte a r = (above, ground arith, bound) in
          IsAgreed-hit (ram_bus r b) _ (ram_read-hit byte a r i tt are_bytes)
            (cycle-hit r b bound byte a i (omega arith) are_bytes))
  ]

  -- The part after the test of the alignment.
  word-IsAgreed :
      bit_and a 1 ≡ 0 → IsAgreed (ram_bus r b) (ram_read word a r) (read_cycle word a (ram_bus r b))
  unfolding ram_read
  word-IsAgreed even = elim (Bool-cases (leb r.size (add32 (sub32 a r.offset) 1))) [
    | inl e ↦
        IsAgreed-miss (ram_bus r b) (bus_error a)
          (past (ltb a r.offset) _ (ground arith) (
            past (bit_and a 1 != 0) _ (ground arith)
              (taken (leb r.size (add32 (sub32 a r.offset) 1)) _ e refl)))
          (cycle-missed r b bound word a (omega arith) (ground arith) (omega arith))
    | inr e ↦
        (let i : IsInside word a r = (above, ground arith, bound) in
          IsAgreed-hit (ram_bus r b) _ (ram_read-hit word a r i even are_bytes)
            (cycle-hit r b bound word a i (omega arith) are_bytes))
  ]

  long-IsAgreed :
      bit_and a 1 ≡ 0
      → IsAgreed (ram_bus r b) (ram_read long a r) (split_read read_cycle long a (ram_bus r b))
  unfolding ram_read split_read
  long-IsAgreed even =
      let bus = ram_bus r b in
      let low = bit_and (add32 a 2) 0xff_ffff in
      let at_low : low ≡ a + 2 = and_mask 24 (add32 a 2) ∙ omega arith in
      elim (Bool-cases (leb r.size (add32 (sub32 a r.offset) 1))) [
        | inl e ↦
            IsAgreed-miss bus (bus_error a)
              (past (ltb a r.offset) _ (ground arith) (
                past (bit_and a 1 != 0) _ (ground arith)
                  (taken (leb r.size (add32 (sub32 a r.offset) 1)) _ e refl)))
              (bind-err (read_cycle word a) _ bus
                (cycle-missed r b bound word a (omega arith) (ground arith) (omega arith)))
        | inr e ↦
            (let high : IsInside word a r = (above, ground arith, bound) in
              let first = cycle-hit r b bound word a high (omega arith) are_bytes in
              elim (Bool-cases (leb r.size (add32 (sub32 a r.offset) 3))) [
                | inl f ↦
                    IsAgreed-miss bus (bus_error low)
                      (past (ltb a r.offset) _ (ground arith) (
                        past (bit_and a 1 != 0) _ (ground arith) (
                          past (leb r.size (add32 (sub32 a r.offset) 1)) _ e
                            (taken (leb r.size (add32 (sub32 a r.offset) 3)) _ f refl))))
                      (bind-ok (read_cycle word a) _ bus first
                        ∙ bind-err (read_cycle word low) _ bus (
                            cycle-missed r b bound word low (omega arith) (ground arith)
                              (omega arith)))
                | inr f ↦
                    (let i : IsInside long a r = (above, ground arith, bound) in
                      let second : IsInside word low r = (omega arith, ground arith, bound) in
                      IsAgreed-hit bus _ (ram_read-hit long a r i even are_bytes) (
                        bind-ok (read_cycle word a) _ bus first
                        ∙ bind-ok (read_cycle word low) _ bus
                            (cycle-hit r b bound word low second (omega arith) are_bytes)
                        ∙ ap (λ v. ok v bus)
                            (ap
                                (λ j.
                                  bit_or (spelled word r.cell (a - r.offset) <<< 16)
                                    (spelled word r.cell j))
                                {y = a - r.offset + 2} (omega arith)
                              ∙ joined (a - r.offset) r.cell are_bytes)))
              ])
      ]

  unfoldable checked : Size → ℕ → Result Bus ℕ
  unfolding validate_alignment split_read read_cycle
  checked s x = (validate_alignment x s >> split_read read_cycle s x) (ram_bus r b)

  -- An odd address ends both; for an even one the rest decides.
  aligned-IsAgreed :
      (s : Size)
      → ((bit_and a 1 != 0) ≡ true → ram_read s a r ≡ miss (address_error a))
      → (validate_alignment a s (ram_bus r b)
          ≡ choose (bit_and a 1 != 0) (throw (address_error a)) (pure tt) (ram_bus r b))
      → (bit_and a 1 ≡ 0
          → IsAgreed (ram_bus r b) (ram_read s a r) (split_read read_cycle s a (ram_bus r b)))
      → IsAgreed (ram_bus r b) (ram_read s a r) (checked s a)
  unfolding checked
  aligned-IsAgreed s odd v even =
      let bus = ram_bus r b in
      elim (Bool-cases (bit_and a 1 != 0)) [
        | inl e ↦ IsAgreed-miss bus (address_error a) (odd e) (
            bind-err (validate_alignment a s) _ bus
              (v ∙ (λ i. choose (e i) (throw (address_error a)) (pure tt) bus)))
        | inr e ↦
            subst (IsAgreed bus (ram_read s a r))
              (sym (
                bind-ok (validate_alignment a s) _ bus
                  (v ∙ (λ i. choose (e i) (throw (address_error a)) (pure tt) bus))))
              (even (ground arith))
      ]

  checked-IsAgreed : (s : Size) → IsAgreed (ram_bus r b) (ram_read s a r) (checked s a)
  unfolding checked ram_read validate_alignment split_read
  checked-IsAgreed byte = byte-IsAgreed
  checked-IsAgreed word =
      aligned-IsAgreed word
        (λ e. past (ltb a r.offset) _ (ground arith) (taken (bit_and a 1 != 0) _ e refl)) refl
        word-IsAgreed
  checked-IsAgreed long =
      aligned-IsAgreed long
        (λ e. past (ltb a r.offset) _ (ground arith) (taken (bit_and a 1 != 0) _ e refl)) refl
        long-IsAgreed

  -- For a RAM of bytes alone on a bus without wait states, which ends below 2^32, the fast path
  -- of the processor gives the value or the error that the bus gives, at every size, and the bus
  -- stays as it is, if the address is not below the RAM and at least four bytes below the end of
  -- the address space.
  pub fast_ram_read-IsAgreed :
      (s : Size)
      → IsAgreed (ram_bus r b) (fast_ram_read s a (ram_bus r b)) (Bus.read s a (ram_bus r b))
  unfolding fast_ram_read fast_ram Bus.has_wait_state_devices Device.wait_states Bus.read checked
  fast_ram_read-IsAgreed s =
      let masked : bit_and a 0xff_ffff ≡ a = and_mask 24 a ∙ omega arith in
      subst (IsAgreed (ram_bus r b) (ram_read s a r)) (sym (ap (checked s) masked))
        (checked-IsAgreed s)
