-- ===== src/Cpu/Exception/Return.antt =====
-- RTE undoes an exception, in a RAM that nothing watches.
use mathlib.Core.Path.{subst}
use m68kemu.Base.{
  ℕ, ◌+◌, ◌-◌, ◌%◌, ◌≤◌, ◌<◌, ◌≡◌, ◌∙◌, refl, sym, ap, arith, true, bit_and, bit_xor, ◌!=◌,
  if◌then◌else◌, u16, update, if_elim, taken,
}
use m68kemu.Operand.{word, long}
use m68kemu.Effect.{Result, ok, err, IsOk, is_ok, bind-IsOk, ◌>>=◌, ◌>>◌, modify, when}
use m68kemu.Memory.Ram.{Ram}
use m68kemu.Memory.Ram.Laws.{spelled, stored, spelled-stored, stored-IsBytes}
use m68kemu.Cpu.State.{Cpu, Run, Registers, set_pc}
use m68kemu.Cpu.Debug.{is_supervisor}
use m68kemu.Cpu.Access.Plain.{IsPlain}
use m68kemu.Cpu.Stream.{pop}
use m68kemu.Cpu.Stream.Plain.{rest_of, IsAt, with_sp, set_regs-IsAt, pop-from}
use m68kemu.Cpu.Exception.{set_sr, raise_exception_with_pc, privileged, require_supervisor}
use m68kemu.Cpu.Exception.Stacks.{
  is_supervisor_sr, supervisor_bit, changed_bit, user_stack, system_stack,
}
use m68kemu.Cpu.System.{rte}
use m68kemu.Cpu.Exception.Frame.{
  sr_regs, set_sr-IsAt, frame_ram, HasRoom, stack-IsGood, IsTaken, HasTaken, raise_exception-IsAt,
}

abbrev pub user_of : Registers → ℕ
user_of g = if is_supervisor_sr g.sr then g.usp else g.a 7

abbrev pub system_of : Registers → ℕ
system_of g = if is_supervisor_sr g.sr then g.a 7 else g.ssp

-- What setSR leaves alone.
pub record IsSwitched (g x : Registers) : Type 0 where
  pub user : user_of x ≡ user_of g
  pub system : system_of x ≡ system_of g
  pub same_d : x.d ≡ g.d
  pub same_a : (i : ℕ) → i < 7 → x.a i ≡ g.a i

pub sr_regs-IsSwitched : (value : ℕ) (g : Registers) → IsSwitched g (sr_regs value g)
sr_regs-IsSwitched value g =
    let x = changed_bit g.sr value in
    let a = supervisor_bit g.sr in
    let b = supervisor_bit value in
    record {
      user = ground arith;
      system = ground arith;
      same_d =
          if_elim (λ (z : Registers). z.d ≡ g.d) (bit_and (bit_xor g.sr value) 0x2000 != 0) _ _
            (λ p.
              if_elim (λ (z : Registers). z.d ≡ g.d) (bit_and value 0x2000 != 0) _ _ (λ q. refl)
                (λ q. refl))
            (λ p. refl);
      same_a = λ i h. ground arith;
    }

spelled-above :
    (i j v : ℕ) (cell : ℕ → ℕ)
    → j ≡ i + 2
    → spelled long (stored word i v cell) j ≡ spelled long cell j
spelled-above i j v cell e = ground arith

-- The registers after the return.
record IsBack (pc : ℕ) (g z : Registers) : Type 0 where
  same_pc : z.pc ≡ pc
  same_sr : z.sr ≡ g.sr
  switched : IsSwitched g z

returned_regs-IsBack :
    {handler : ℕ}
    → (new_sr sp pc : ℕ) (g x : Registers) → is_supervisor_sr new_sr ≡ true
    → (sr_regs new_sr g).a 7 ≡ sp
    → IsTaken sp handler (sr_regs new_sr g) x
    → IsBack pc g (record (sr_regs g.sr (with_sp sp (with_sp (sp - 4) x))) { pc = pc })
returned_regs-IsBack new_sr sp pc g x h e t =
    let y = with_sp sp (with_sp (sp - 4) x) in
    let there = sr_regs-IsSwitched new_sr g in
    let back = sr_regs-IsSwitched g.sr y in
    let in_system : is_supervisor_sr x.sr ≡ true = ap is_supervisor_sr t.same_sr ∙ h in
    record {
      same_pc = refl;
      same_sr = refl;
      switched = record {
        user =
            back.user
            ∙ taken (is_supervisor_sr x.sr) _ in_system t.same_usp
            ∙ sym (taken (is_supervisor_sr new_sr) _ h refl)
            ∙ there.user;
        system =
            back.system
            ∙ taken (is_supervisor_sr x.sr) _ in_system (sym e)
            ∙ sym (taken (is_supervisor_sr new_sr) _ h refl)
            ∙ there.system;
        same_d = back.same_d ∙ t.same_d ∙ there.same_d;
        same_a = λ i k. back.same_a i k ∙ kept_a i k ∙ t.same_a i k ∙ there.same_a i k;
      };
    }
  where
    kept_a : (i : ℕ) → i < 7 → update (update x.a 7 (sp - 4)) 7 sp i ≡ x.a i
    kept_a i k = ground arith

frame-sr :
    (sp pc sr : ℕ) (r : Ram)
    → spelled word (frame_ram sp pc sr r).cell (sp - 6 - r.offset) ≡ sr % 0x1_0000
frame-sr sp pc sr r =
    spelled-stored word (sp - 6 - r.offset) sr (stored long (sp - 4 - r.offset) pc r.cell)

frame-pc :
    (sp pc sr : ℕ) (r : Ram)
    → r.offset ≡ 0
    → 6 ≤ sp
    → spelled long (frame_ram sp pc sr r).cell (sp - 4 - r.offset) ≡ pc % 0x1_0000_0000
frame-pc sp pc sr r o a =
    spelled-above (sp - 6 - r.offset) (sp - 4 - r.offset) sr
      (stored long (sp - 4 - r.offset) pc r.cell) (omega arith)
    ∙ spelled-stored long (sp - 4 - r.offset) pc r.cell

low_word : (v n : ℕ) → n < 0x1_0000 → v ≡ n % 0x1_0000 → u16 v ≡ n
low_word v n h e = omega arith

long_word : (v n : ℕ) → n < 0x1_0000_0000 → v ≡ n % 0x1_0000_0000 → v ≡ n
long_word v n h e = omega arith

-- RTE in supervisor mode.
abbrev return_body : Run (Unit {0})
unfolding pop set_sr
return_body = do new_sr ← pop word; pc ← pop long; modify (set_sr (u16 new_sr)); modify (set_pc pc)

rte-IsBack :
    {o : Cpu} {handler : ℕ}
    → (new_sr sp pc vector : ℕ) (g : Registers) (r : Ram) (cpu : Cpu)
    → is_supervisor_sr new_sr ≡ true
    → (sr_regs new_sr g).a 7 ≡ sp
    → HasRoom r sp vector
    → g.sr < 0x1_0000
    → pc < 0x1_0000_0000
    → HasTaken o sp handler (sr_regs new_sr g) (frame_ram sp pc g.sr r) cpu
    → IsOk (λ _ c. IsBack pc g c.regs × (rest_of c ≡ rest_of o)) (rte cpu)
unfolding rte privileged require_supervisor is_supervisor
rte-IsBack {o} new_sr sp pc vector g r cpu s e room ws wp (x, t, at) =
    let r2 = frame_ram sp pc g.sr r in
    let (good1, good2) = stack-IsGood r sp vector room in
    let a = room.above in
    let l = room.is_small in
    let i = room.inside in
    let bytes2 =
      stored-IsBytes word (sp - 6 - r.offset) g.sr _
        (stored-IsBytes long (sp - 4 - r.offset) pc r.cell room.are_bytes) in
    let in_system : is_supervisor cpu ≡ true =
      ap (λ (z : Registers). is_supervisor_sr z.sr) at.has_regs
      ∙ ap is_supervisor_sr t.same_sr
      ∙ s in
    bind-IsOk require_supervisor _ cpu
      (subst (IsOk (λ b c. (b ≡ true) × IsAt o r2 x c))
        (sym (taken (is_supervisor cpu) _ in_system refl)) (is_ok true cpu (refl, at)))
      (λ b c1 (p, at1).
        subst
          (λ d. IsOk (λ _ c. IsBack pc g c.regs × (rest_of c ≡ rest_of o)) (when d return_body c1))
          (sym p)
          (bind-IsOk (pop word) _ c1
            (pop-from word (sp - 6) (sp - 4) r2 x c1 at1 t.pushed (omega arith) good2 bytes2)
            (λ v c2 (q, at2).
              bind-IsOk (pop long) _ c2
                (pop-from long (sp - 4) sp r2 (with_sp (sp - 4) x) c2 at2 refl (omega arith) good1
                  bytes2)
                (λ w c3 (q', at3). is_ok tt _ (
                  let hv : u16 v ≡ g.sr = low_word v g.sr ws (q ∙ frame-sr sp pc g.sr r) in
                  let hw : w ≡ pc = long_word w pc wp (q' ∙ frame-pc sp pc g.sr r room.offset a) in
                  let y = with_sp sp (with_sp (sp - 4) x) in
                  let done =
                    set_regs-IsAt (λ z. record z { pc = w }) r2 _ _
                      (set_sr-IsAt (u16 v) r2 y c3 at3) in
                  (
                    subst (IsBack pc g)
                        (sym (done.has_regs ∙ (λ j. record (sr_regs (hv j) y) { pc = hw j })))
                        (returned_regs-IsBack new_sr sp pc g x s e t),
                    done.same_rest,
                  ))))))

-- The processor after an exception and its return: it goes on at `pc`, with the status register,
-- the data registers, the address registers, both stack pointers and the rest that it had.
pub record IsReturned (pc : ℕ) (cpu c : Cpu) : Type 0 where
  pub at_pc : c.regs.pc ≡ pc
  pub same_sr : c.regs.sr ≡ cpu.regs.sr
  pub same_d : c.regs.d ≡ cpu.regs.d
  pub same_a : (i : ℕ) → i < 7 → c.regs.a i ≡ cpu.regs.a i
  pub same_user_stack : user_stack c ≡ user_stack cpu
  pub same_system_stack : system_stack c ≡ system_stack cpu
  pub same_rest : rest_of c ≡ rest_of cpu

-- An exception that enters supervisor mode is taken without an error, and an RTE in its handler
-- undoes it: execution goes on at the stacked PC, with the status register, the data and address
-- registers, both stack pointers, the cycle count and the pending interrupts as they were. The
-- status register and the stacked PC are in their widths, the vector is at most 255, the memory
-- is a single RAM of bytes from address 0 on, of 0x400 bytes to 2^24, the system stack pointer is
-- even, at least 6 and not above the end of the RAM, and there are no breakpoints and no tracing.
pub raise-rte :
    (vector new_sr stacked_pc exception_pc : ℕ) (r : Ram) (cpu : Cpu)
    → IsPlain r cpu
    → HasRoom r (system_stack cpu) vector
    → is_supervisor_sr new_sr ≡ true
    → cpu.regs.sr < 0x1_0000
    → stacked_pc < 0x1_0000_0000
    → IsOk
        (λ _ c. IsReturned stacked_pc cpu c)
        ((raise_exception_with_pc vector new_sr stacked_pc exception_pc >> rte) cpu)
raise-rte vector new_sr stacked_pc exception_pc r cpu plain room s ws wp =
    let g = cpu.regs in
    let sp = system_stack cpu in
    let e : (sr_regs new_sr g).a 7 ≡ sp =
      sym (taken (is_supervisor_sr new_sr) _ s refl) ∙ (sr_regs-IsSwitched new_sr g).system in
    bind-IsOk (raise_exception_with_pc vector new_sr stacked_pc exception_pc) _ cpu
      (raise_exception-IsAt vector new_sr stacked_pc exception_pc sp r cpu plain e room)
      (λ u c t. returned _ (rte-IsBack new_sr sp stacked_pc vector g r c s e room ws wp t))
  where
    returned :
        (m : Result Cpu (Unit {0}))
        → IsOk (λ _ c. IsBack stacked_pc cpu.regs c.regs × (rest_of c ≡ rest_of cpu)) m
        → IsOk (λ _ c. IsReturned stacked_pc cpu c) m
    returned (ok _ _) (is_ok u c (b, w)) = is_ok u c (record {
      at_pc = b.same_pc;
      same_sr = b.same_sr;
      same_d = b.switched.same_d;
      same_a = b.switched.same_a;
      same_user_stack = b.switched.user;
      same_system_stack = b.switched.system;
      same_rest = w;
    })
    returned (err x c) b = elim b [ ]
