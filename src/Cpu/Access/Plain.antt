-- ===== src/Cpu/Access/Plain.antt =====
-- Accesses that succeed on a bus with a single RAM, without breakpoints and tracing.
use m68kemu.Base.{
  ℕ, ◌+◌, ◌-◌, ◌≡◌, ◌∙◌, refl, ap, arith, bit_and, Bool, true, false, not, ◌&&◌, Option, none, some,
  [], ◌∷◌, ◌!=◌, ltb, leb, if◌then◌else◌, add32, sub32, past, ◌>>>◌, ◌/◌, ◌%◌, update,
}
use m68kemu.Operand.{Size, byte, word, long}
use m68kemu.Effect.{bind-ok, choose-past, Result, ok, err, on_read, on_write, BreakpointType}
use m68kemu.Memory.Ram
use m68kemu.Memory.Ram.{Ram}
use m68kemu.Memory.Ram.Laws.{
  IsInside, IsBytes, spelled, stored, get_bytes-spelled, put_bytes-stored, index,
}
use m68kemu.Memory.Device.{ram}
use m68kemu.Memory.Bus
use m68kemu.Memory.Bus.{Bus, fast_ram}
use m68kemu.Cpu.State.{Cpu, AccessContext}
use m68kemu.Cpu.Debug.{
  trace_if_wanted, check_breakpoint, should_trace_bus_access, instruction_fetch,
}
use m68kemu.Cpu.Access.{
  Fast, skip, hit, miss, fast_of, ram_read, ram_write, fast_ram_read, fast_ram_write, with_ram,
  read_context, write_context, faults, on_bus,
}

-- One RAM, without wait states.
abbrev pub HasRam : Ram → Bus → Type 0
HasRam r b = (b.devices ≡ ram r ∷ []) × (b.wait_states ≡ 0)

-- A processor with one RAM and nothing that watches the accesses.
pub record IsPlain (r : Ram) (cpu : Cpu) : Type 0 where
  pub has_ram : HasRam r cpu.bus
  pub no_breakpoints : cpu.breakpoints ≡ none
  pub no_trace : cpu.trace_instructions ≡ false
  pub no_bus_trace : cpu.trace_bus ≡ false

-- An even address, for a word or a long.
abbrev pub IsAligned : Size → ℕ → Type 0
IsAligned byte a = Unit {0}
IsAligned word a = bit_and a 1 ≡ 0
IsAligned long a = bit_and a 1 ≡ 0

pub fast_ram-some : (r : Ram) (b : Bus) → HasRam r b → fast_ram b ≡ some r
unfolding fast_ram
fast_ram-some r b (d, w) = rw (w, d) refl

pub got :
    (s : Size) (a : ℕ) (r : Ram)
    → IsInside s a r
    → IsBytes r.cell
    → fast_of {A = Ram} {B = ℕ} (Ram.get_bytes s (sub32 a r.offset) r)
      ≡ hit (spelled s r.cell (a - r.offset))
got s a r (p, q, w) b =
    ap (λ j. fast_of (Ram.get_bytes s j r)) (index s a r (p, q, w))
    ∙ ap fast_of (get_bytes-spelled s (a - r.offset) r b (omega arith) (omega arith))

pub ram_read-hit :
    (s : Size) (a : ℕ) (r : Ram)
    → IsInside s a r
    → IsAligned s a
    → IsBytes r.cell
    → ram_read s a r ≡ hit (spelled s r.cell (a - r.offset))
unfolding ram_read
ram_read-hit byte a r (p, q, w) e b =
    past (ltb a r.offset) _ (ground arith)
      (past (leb r.size (sub32 a r.offset)) _ (ground arith) (got byte a r (p, q, w) b))
ram_read-hit word a r (p, q, w) e b = past (ltb a r.offset) _ (ground arith) (
    past (bit_and a 1 != 0) _ (ground arith)
      (past (leb r.size (add32 (sub32 a r.offset) 1)) _ (ground arith) (got word a r (p, q, w) b)))
ram_read-hit long a r (p, q, w) e b = past (ltb a r.offset) _ (ground arith) (
    past (bit_and a 1 != 0) _ (ground arith) (
      past (leb r.size (add32 (sub32 a r.offset) 1)) _ (ground arith) (
        past (leb r.size (add32 (sub32 a r.offset) 3)) _ (ground arith)
          (got long a r (p, q, w) b))))

kept :
    (s : Size) (a v : ℕ) (r : Ram)
    → IsInside s a r
    → Ram.put_bytes s (sub32 a r.offset) v r
      ≡ ok tt (record r { cell = stored s (a - r.offset) v r.cell })
kept s a v r (p, q, w) =
    ap (λ j. Ram.put_bytes s j v r) (index s a r (p, q, w))
    ∙ put_bytes-stored s (a - r.offset) v r (omega arith) (omega arith)

-- The two words of a long.
two_words :
    (i v : ℕ) (cell : ℕ → ℕ)
    → stored word (i + 2) v (stored word i (v >>> 16) cell) ≡ stored long i v cell
two_words i v cell =
    let h : (v >>> 16) / 256 % 256 ≡ v / 0x100_0000 % 256 = omega arith in
    let k : i + 2 + 1 ≡ i + 3 = omega arith in
    λ t.
      update
        (update (update (update cell i (h t)) (i + 1) (v / 0x1_0000 % 256)) (i + 2) (v / 256 % 256))
        (k t) (v % 256)

ram_write-ok :
    (s : Size) (a v : ℕ) (r : Ram)
    → IsInside s a r
    → IsAligned s a
    → ram_write s a v r ≡ ok tt (record r { cell = stored s (a - r.offset) v r.cell })
unfolding ram_write
ram_write-ok byte a v r (p, q, w) e =
    past (ltb a r.offset) _ (ground arith)
      (past (leb r.size (sub32 a r.offset)) _ (ground arith) (kept byte a v r (p, q, w)))
ram_write-ok word a v r (p, q, w) e = past (ltb a r.offset) _ (ground arith) (
    past (bit_and a 1 != 0) _ (ground arith)
      (past (leb r.size (add32 (sub32 a r.offset) 1)) _ (ground arith) (kept word a v r (p, q, w))))
ram_write-ok long a v r (p, q, w) e = past (ltb a r.offset) _ (ground arith) (
    past (bit_and a 1 != 0) _ (ground arith) (
      past (leb r.size (add32 (sub32 a r.offset) 1)) _ (ground arith) (
        bind-ok (Ram.put_bytes word (sub32 a r.offset) (v >>> 16)) _ r
          (kept word a (v >>> 16) r (p, omega arith, w))
        ∙ choose-past (leb r.size (add32 (sub32 a r.offset) 3)) _
            (Ram.put_bytes word (add32 (sub32 a r.offset) 2) v) _ (ground arith)
            (ap (λ j. Ram.put_bytes word j v half) {y = a - r.offset + 2} (omega arith)
              ∙ put_bytes-stored word (a - r.offset + 2) v half (omega arith) (omega arith)
              ∙ ap (λ c. ok tt (record r { cell = c })) (two_words (a - r.offset) v r.cell)))))
  where
    half : Ram
    half = record r { cell = stored word (a - r.offset) (v >>> 16) r.cell }

module _ (r : Ram) (cpu : Cpu) (plain : IsPlain r cpu) where
  check_breakpoint-none : (a : ℕ) (kind : BreakpointType) → check_breakpoint a kind cpu ≡ ok tt cpu
  unfolding check_breakpoint
  check_breakpoint-none a kind = rw plain.no_breakpoints refl

  unwanted : (ctx : AccessContext) → should_trace_bus_access ctx cpu ≡ false
  unfolding should_trace_bus_access
  unwanted ctx =
      (λ i.
        if instruction_fetch ctx && not ctx.write && plain.no_trace i
        then true
        else plain.no_bus_trace i)
      ∙ none_of (instruction_fetch ctx) (not ctx.write)
    where
      none_of : (a b : Bool) → (if a && b && false then true else false) ≡ false
      none_of true true = refl
      none_of true false = refl
      none_of false true = refl
      none_of false false = refl

  untraced : (s : Size) (a v : ℕ) (ctx : AccessContext) → trace_if_wanted s a v ctx cpu ≡ cpu
  unfolding trace_if_wanted
  untraced s a v ctx = past (should_trace_bus_access ctx cpu) _ (unwanted ctx) refl

-- The processor after a value is written to the RAM.
abbrev pub ram_stored : Size → ℕ → ℕ → Ram → Ram
ram_stored s a v r = record r { cell = stored s (a - r.offset) v r.cell }

abbrev pub with_stored : Size → ℕ → ℕ → Ram → Cpu → Cpu
with_stored s a v r cpu = record cpu { bus = with_ram cpu.bus (ram_stored s a v r) }

pub with_stored-IsPlain :
    (s : Size) (a v : ℕ) (r : Ram) (cpu : Cpu)
    → IsPlain r cpu
    → IsPlain (ram_stored s a v r) (with_stored s a v r cpu)
with_stored-IsPlain s a v r cpu p = record {
  has_ram = (refl, p.has_ram.1);
  no_breakpoints = p.no_breakpoints;
  no_trace = p.no_trace;
  no_bus_trace = p.no_bus_trace;
}

module _ (r : Ram) (cpu : Cpu) (plain : IsPlain r cpu) where
  -- What is read at an address of the RAM.
  pub read_context-plain :
      (s : Size) (address : ℕ) (ctx : AccessContext)
      → IsInside s (bit_and address 0xff_ffff) r
      → IsAligned s (bit_and address 0xff_ffff)
      → IsBytes r.cell
      → read_context s address ctx cpu
        ≡ ok (spelled s r.cell (bit_and address 0xff_ffff - r.offset)) cpu
  unfolding read_context fast_ram_read
  read_context-plain s address ctx h e b =
      let a = bit_and address 0xff_ffff in
      let f = fast_ram-some r cpu.bus plain.has_ram in
      bind-ok (check_breakpoint a on_read) _ cpu (check_breakpoint-none r cpu plain a on_read)
      ∙ ap served
          ((λ i. elim (f i) [ none ↦ skip | some q ↦ ram_read s a q ]) ∙ ram_read-hit s a r h e b)
      ∙ ap (ok (spelled s r.cell (a - r.offset))) (untraced r cpu plain s a _ ctx)
    where
      served : Fast ℕ → Result Cpu ℕ
      served fast = elim fast [
        | hit v ↦ ok v (trace_if_wanted s (bit_and address 0xff_ffff) v ctx cpu)
        | miss x ↦ faults (bit_and address 0xff_ffff) ctx x cpu
        | skip ↦ elim (on_bus (Bus.read s (bit_and address 0xff_ffff)) cpu) [
          | ok v c ↦ ok v (trace_if_wanted s (bit_and address 0xff_ffff) v ctx c)
          | err x c ↦ faults (bit_and address 0xff_ffff) ctx x c
        ]
      ]

  pub write_context-plain :
      (s : Size) (address v : ℕ) (ctx : AccessContext)
      → IsInside s (bit_and address 0xff_ffff) r
      → IsAligned s (bit_and address 0xff_ffff)
      → write_context s address v ctx cpu
        ≡ ok tt (with_stored s (bit_and address 0xff_ffff) v r cpu)
  unfolding write_context fast_ram_write
  write_context-plain s address v ctx h e =
      let a = bit_and address 0xff_ffff in
      let f = fast_ram-some r cpu.bus plain.has_ram in
      bind-ok (check_breakpoint a on_write) _ cpu (check_breakpoint-none r cpu plain a on_write)
      ∙ ap served (
          (λ i. elim (f i) [ none ↦ none | some q ↦ put_back (ram_write s a v q) ])
          ∙ ap put_back (ram_write-ok s a v r h e))
      ∙ ap (ok tt) (
          untraced (ram_stored s a v r) (with_stored s a v r cpu)
            (with_stored-IsPlain s a v r cpu plain) s a v ctx)
    where
      put_back : Result Ram (Unit {0}) → Option (Result Bus (Unit {0}))
      put_back m = elim m [
        | ok u q ↦ some (ok u (with_ram cpu.bus q))
        | err x q ↦ some (err x (with_ram cpu.bus q))
      ]

      served : Option (Result Bus (Unit {0})) → Result Cpu (Unit {0})
      served o = elim o [
        | some (ok u b) ↦
            ok tt (trace_if_wanted s (bit_and address 0xff_ffff) v ctx (record cpu { bus = b }))
        | some (err x b) ↦ faults (bit_and address 0xff_ffff) ctx x (record cpu { bus = b })
        | none ↦ elim (on_bus (Bus.write s (bit_and address 0xff_ffff) v) cpu) [
          | ok u c ↦ ok tt (trace_if_wanted s (bit_and address 0xff_ffff) v ctx c)
          | err x c ↦ faults (bit_and address 0xff_ffff) ctx x c
        ]
      ]
