-- ===== src/Cpu/Exception/Frame.antt =====
-- An exception that is taken in a RAM that nothing watches: the frame and the registers after it.
use mathlib.Core.Path.{subst}
use m68kemu.Base.{
  ℕ, ◌*◌, ◌-◌, ◌≤◌, ◌<◌, ◌≡◌, ◌∙◌, refl, sym, ap, arith, Bool, true, false, bit_and, bit_xor, ◌||◌,
  ◌==◌, ◌!=◌, ltb, leb, if◌then◌else◌, ◌<<<◌, update, and_mask, if_elim, past, taken,
}
use m68kemu.Operand.{word, long}
use m68kemu.Effect.{Result, ok, err, IsOk, is_ok, bind-IsOk, choose, choose_elim, pure}
use m68kemu.Memory.Ram.{Ram}
use m68kemu.Memory.Ram.Laws.{IsBytes, spelled, stored-IsBytes}
use m68kemu.Cpu.State.{Cpu, Registers, ExceptionInfo, set_regs}
use m68kemu.Cpu.Debug.{context, dispatch_exception, append_history}
use m68kemu.Cpu.Access.{read_system_program}
use m68kemu.Cpu.Access.Plain.{IsPlain, ram_stored}
use m68kemu.Cpu.Stream.{push_exception}
use m68kemu.Cpu.Stream.Plain.{
  IsAt, IsGood, with_sp, IsAt-keep, set_regs-IsAt, read_context-IsAt, push_exception-to,
}
use m68kemu.Cpu.Exception.{
  set_sr, x_uninitialized_int, set_in_exception, leave_exception, read_vector,
  raise_exception_with_pc,
}

-- setSR on the registers alone.
abbrev pub sr_regs : ℕ → Registers → Registers
sr_regs value g =
    record (if bit_and (bit_xor g.sr value) 0x2000 != 0
      then (if bit_and value 0x2000 != 0
          then record g { usp = g.a 7; a = update g.a 7 g.ssp }
          else record g { ssp = g.a 7; a = update g.a 7 g.usp })
      else g) { sr = value }

pub set_sr-IsAt :
    {o : Cpu}
    → (value : ℕ) (r : Ram) (regs : Registers) (cpu : Cpu) → IsAt o r regs cpu
    → IsAt o r (sr_regs value regs) (set_sr value cpu)
unfolding set_sr
set_sr-IsAt {o} value r regs cpu at =
    subst (λ g. IsAt o r (sr_regs value g) (set_sr value cpu)) at.has_regs
      (split (bit_and (bit_xor cpu.regs.sr value) 0x2000 != 0) (bit_and value 0x2000 != 0))
  where
    now : IsAt o r cpu.regs cpu
    now = record { plain = at.plain; has_regs = refl; same_rest = at.same_rest }

    set : Registers → Registers
    set g = record g { sr = value }

    split :
        (b e : Bool)
        → IsAt o r
            (set (
              if b
              then (if e
                  then record (cpu.regs) {
                    usp = cpu.regs.a 7;
                    a = update cpu.regs.a 7 cpu.regs.ssp;
                  }
                  else record (cpu.regs) {
                    ssp = cpu.regs.a 7;
                    a = update cpu.regs.a 7 cpu.regs.usp;
                  })
              else cpu.regs))
            (set_regs set (
              if b
              then (if e
                  then set_regs
                      (λ g. record g { a = update g.a 7 cpu.regs.ssp })
                      (set_regs (λ g. record g { usp = cpu.regs.a 7 }) cpu)
                  else set_regs
                      (λ g. record g { a = update g.a 7 cpu.regs.usp })
                      (set_regs (λ g. record g { ssp = cpu.regs.a 7 }) cpu))
              else cpu))
    split true true =
        set_regs-IsAt
          (λ g. record g { sr = value; usp = cpu.regs.a 7; a = update g.a 7 cpu.regs.ssp }) r
          cpu.regs cpu now
    split true false =
        set_regs-IsAt
          (λ g. record g { sr = value; ssp = cpu.regs.a 7; a = update g.a 7 cpu.regs.usp }) r
          cpu.regs cpu now
    split false e = set_regs-IsAt set r cpu.regs cpu now

dispatch_exception-IsAt :
    {o : Cpu}
    → (info : ExceptionInfo) (r : Ram) (regs : Registers) (cpu : Cpu) → IsAt o r regs cpu
    → IsAt o r regs (dispatch_exception info cpu)
unfolding dispatch_exception append_history
dispatch_exception-IsAt {o} info r regs cpu at =
    if_elim (IsAt o r regs) cpu.has_exception_trap _ _
      (λ b. IsAt-keep r regs cpu _ at refl refl refl refl refl refl)
      (λ b. IsAt-keep r regs cpu _ at refl refl refl refl refl refl)

vector-IsGood :
    (vector : ℕ) (r : Ram)
    → vector ≤ 255
    → r.offset ≡ 0
    → 0x400 ≤ r.size
    → r.size ≤ 0x100_0000
    → IsGood long (vector <<< 2) r
vector-IsGood vector r v o l h = (
  and_mask 24 (vector <<< 2) ∙ omega arith,
  (omega arith, omega arith, omega arith),
  and_mask 1 (vector <<< 2) ∙ omega arith,
)

-- The handler of a vector: the long at four times the vector or, if that is 0, at the vector 15.
abbrev pub handler_of : ℕ → Ram → ℕ
handler_of vector r =
    let address = spelled long r.cell (vector * 4 - r.offset) in
    if address == 0 then spelled long r.cell (60 - r.offset) else address

-- The handler is found; the state stays.
read_vector-IsAt :
    {o : Cpu}
    → (vector : ℕ) (r : Ram) (regs : Registers) (cpu : Cpu) → IsAt o r regs cpu
    → vector ≤ 255
    → r.offset ≡ 0
    → 0x400 ≤ r.size
    → r.size ≤ 0x100_0000
    → IsBytes r.cell
    → IsOk (λ v c. (v ≡ handler_of vector r) × IsAt o r regs c) (read_vector (vector <<< 2) cpu)
unfolding read_vector read_system_program
read_vector-IsAt {o} vector r regs cpu at v z l h b =
    let at_vector : (n : ℕ) (d : Cpu)
        → IsAt o r regs d
        → n ≤ 255
        → IsOk (λ x c. (x ≡ spelled long r.cell (n * 4 - r.offset)) × IsAt o r regs c)
            (read_system_program long (n <<< 2) d) =
      (λ n d a k.
        subst
          (λ i.
            IsOk (λ x c. (x ≡ spelled long r.cell (i - r.offset)) × IsAt o r regs c)
              (read_system_program long (n <<< 2) d))
          {x = n <<< 2} (omega arith)
          (read_context-IsAt long (n <<< 2) (context 6 true false) r regs d a
            (vector-IsGood n r k z l h) b)) in
    let offset = vector <<< 2 in
    let found = λ (x : ℕ). if x == 0 then spelled long r.cell (60 - r.offset) else x in
    let parity = and_mask 1 offset in
    choose_elim (IsOk (λ x c. (x ≡ handler_of vector r) × IsAt o r regs c))
      (bit_and offset 1 != 0 || leb 0x400 offset) _ _ cpu (λ e. absurd (ground arith))
      (λ e.
        bind-IsOk (read_system_program long offset) _ cpu (at_vector vector cpu at v)
          (λ address c (q, at').
            subst
              (λ n.
                IsOk (λ x d. (x ≡ n) × IsAt o r regs d)
                  (choose (address == 0) (read_system_program long (x_uninitialized_int <<< 2))
                    (pure address) c))
              (ap found q)
              (choose_elim (IsOk (λ x d. (x ≡ found address) × IsAt o r regs d)) (address == 0) _ _
                c
                (λ e'.
                  subst
                    (λ n. IsOk (λ x d. (x ≡ n) × IsAt o r regs d) (read_system_program long 60 c))
                    (sym (taken (address == 0) _ e' refl)) (at_vector 15 c at' (omega arith)))
                (λ e'. is_ok address c (sym (past (address == 0) _ e' refl), at')))))

-- The frame of six bytes below a stack pointer.
abbrev pub frame_ram : ℕ → ℕ → ℕ → Ram → Ram
frame_ram sp pc sr r = ram_stored word (sp - 6) sr (ram_stored long (sp - 4) pc r)

-- The conditions on the memory: RAM from address 0 on, with the vectors and an even stack pointer
-- that leaves room for the frame.
pub record HasRoom (r : Ram) (sp vector : ℕ) : Type 0 where
  pub offset : r.offset ≡ 0
  pub has_vectors : 0x400 ≤ r.size
  pub is_small : r.size ≤ 0x100_0000
  pub are_bytes : IsBytes r.cell
  pub even : bit_and sp 1 ≡ 0
  pub above : 6 ≤ sp
  pub inside : sp ≤ r.size
  pub valid : vector ≤ 255

pub stack-IsGood :
    (r : Ram) (sp vector : ℕ)
    → HasRoom r sp vector
    → IsGood long (sp - 4) r × IsGood word (sp - 6) r
stack-IsGood r sp vector h =
    let o = h.offset in
    let l = h.is_small in
    let a = h.above in
    let i = h.inside in
    let e = and_mask 1 sp in
    let q = h.even in
    (
      (
        and_mask 24 (sp - 4) ∙ omega arith,
        (omega arith, omega arith, omega arith),
        and_mask 1 (sp - 4) ∙ omega arith,
      ),
      (
        and_mask 24 (sp - 6) ∙ omega arith,
        (omega arith, omega arith, omega arith),
        and_mask 1 (sp - 6) ∙ omega arith,
      ),
    )

leave-IsAt :
    {o : Cpu}
    → {A : Type 0} {r : Ram} {P : Registers → Type 0} → (m : Result Cpu A)
    → IsOk (λ _ c. (g : Registers) × P g × IsAt o r g c) m
    → IsOk (λ _ c. (g : Registers) × P g × IsAt o r g c) (leave_exception m)
leave-IsAt {A} {r} (ok _ _) (is_ok a c (g, p, q)) =
    is_ok a (set_in_exception false c) (g, p, IsAt-keep r g c _ q refl refl refl refl refl refl)
leave-IsAt {o} (err e c) q = elim q [ ]

-- The registers after an exception: those that setSR gave, with the frame pushed and the PC at a
-- handler.
pub record IsTaken (sp handler : ℕ) (g x : Registers) : Type 0 where
  pub at_handler : x.pc ≡ handler
  pub same_d : x.d ≡ g.d
  pub same_sr : x.sr ≡ g.sr
  pub same_usp : x.usp ≡ g.usp
  pub pushed : x.a 7 ≡ sp - 6
  pub same_a : (i : ℕ) → i < 7 → x.a i ≡ g.a i

-- The processor after an exception.
abbrev pub HasTaken : Cpu → ℕ → ℕ → Registers → Ram → Cpu → Type 0
HasTaken o sp handler g r c = (x : Registers) × IsTaken sp handler g x × IsAt o r x c

pub raise_exception-IsAt :
    (vector new_sr stacked_pc exception_pc sp : ℕ) (r : Ram) (cpu : Cpu)
    → IsPlain r cpu
    → (sr_regs new_sr cpu.regs).a 7 ≡ sp
    → HasRoom r sp vector
    → IsOk
        (λ _ c.
          HasTaken cpu sp
            (handler_of vector (frame_ram sp stacked_pc cpu.regs.sr r))
            (sr_regs new_sr cpu.regs)
            (frame_ram sp stacked_pc cpu.regs.sr r)
            c)
        (raise_exception_with_pc vector new_sr stacked_pc exception_pc cpu)
unfolding raise_exception_with_pc
raise_exception-IsAt vector new_sr stacked_pc exception_pc sp r cpu plain e h =
    let g = sr_regs new_sr cpu.regs in
    let r1 = ram_stored long (sp - 4) stacked_pc r in
    let r2 = frame_ram sp stacked_pc cpu.regs.sr r in
    let c1 = set_sr new_sr (set_in_exception true cpu) in
    let start : IsAt cpu r cpu.regs cpu = record {
      plain = plain;
      has_regs = refl;
      same_rest = refl;
    } in
    let at1 =
      set_sr-IsAt new_sr r cpu.regs (set_in_exception true cpu)
        (IsAt-keep r cpu.regs cpu _ start refl refl refl refl refl refl) in
    let (good1, good2) = stack-IsGood r sp vector h in
    let l = h.is_small in
    let a = h.above in
    let i = h.inside in
    choose_elim (IsOk (λ _ c. HasTaken cpu sp (handler_of vector r2) g r2 c)) (ltb 255 vector) _ _
      cpu (λ b. let v = h.valid in absurd (ground arith))
      (λ b. leave-IsAt _ (
        bind-IsOk (push_exception long stacked_pc) _ c1
          (push_exception-to long (sp - 4) stacked_pc r g c1 at1 (omega arith) good1)
          (λ u c2 at2.
            bind-IsOk (push_exception word cpu.regs.sr) _ c2
              (push_exception-to word (sp - 6) cpu.regs.sr r1 (with_sp (sp - 4) g) c2 at2
                (omega arith) good2)
              (λ u c3 at3.
                bind-IsOk (read_vector (vector <<< 2)) _ c3
                  (read_vector-IsAt vector r2 (with_sp (sp - 6) (with_sp (sp - 4) g)) c3 at3 h.valid
                    h.offset h.has_vectors h.is_small
                    (stored-IsBytes word (sp - 6 - r.offset) cpu.regs.sr r1.cell
                      (stored-IsBytes long (sp - 4 - r.offset) stacked_pc r.cell h.are_bytes)))
                  (λ handler c4 (found, at4). is_ok tt _ (
                    record (with_sp (sp - 6) (with_sp (sp - 4) g)) { pc = handler },
                    record {
                      at_handler = found;
                      same_d = refl;
                      same_sr = refl;
                      same_usp = refl;
                      pushed = refl;
                      same_a = λ j k. ground arith;
                    },
                    dispatch_exception-IsAt _ r2 _ _
                        (set_regs-IsAt (λ x. record x { pc = handler }) r2 _ c4 at4),
                  ))))))
