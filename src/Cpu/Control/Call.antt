-- ===== src/Cpu/Control/Call.antt =====
-- RTS returns behind a BSR, in a RAM that nothing watches.
use mathlib.Core.Path.{subst}
use m68kemu.Base.{
  ℕ, ◌-◌, ◌<◌, ◌≡◌, ◌∙◌, refl, sym, ap, arith, add32, sub32, update, u8, sext8, sext16, Bool, true,
  ◌==◌, if◌then◌else◌, if_elim,
}
use m68kemu.Operand.{word, long}
use m68kemu.Effect.{◌>>◌, modify, when, choose_elim, bind-IsOk, IsOk, is_ok}
use m68kemu.Memory.Ram.{Ram}
use m68kemu.Memory.Ram.Laws.{spelled-stored, stored-IsBytes}
use m68kemu.Cpu.State.{Cpu, Registers, Run, set_pc}
use m68kemu.Cpu.Access.Plain.{IsPlain, ram_stored}
use m68kemu.Cpu.Stream.{pop_pc, push, pop}
use m68kemu.Cpu.Stream.Plain.{rest_of, IsAt, with_sp, set_regs-IsAt, pop-from}
use m68kemu.Cpu.Stream.Fetch.{
  past_word, pop_pc-IsAt, push-to, HasStack, word-IsGood, stack-IsGood, long_value,
}
use m68kemu.Cpu.Control.{branch, branch_displacement, condition_of, rts}

-- The registers behind a branch and its displacement.
abbrev pub behind : Registers → Registers
behind g = if u8 g.ir == 0 then past_word g else g

same_a-behind : (g : Registers) → (behind g).a ≡ g.a
same_a-behind g = if_elim (λ (z : Registers). z.a ≡ g.a) (u8 g.ir == 0) _ _ (λ b. refl) (λ b. refl)

branch_displacement-IsAt :
    (r : Ram) (cpu : Cpu)
    → IsPlain r cpu
    → HasStack r cpu.regs
    → IsOk (λ _ c. IsAt cpu r (behind cpu.regs) c) (branch_displacement cpu.regs.ir cpu)
unfolding branch_displacement
branch_displacement-IsAt r cpu plain h =
    let g = cpu.regs in
    let now : IsAt cpu r g cpu = record { plain = plain; has_regs = refl; same_rest = refl } in
    choose_elim (IsOk (λ _ c. IsAt cpu r (behind g) c)) (u8 g.ir == 0) _ _ cpu
      (λ e.
        bind-IsOk (pop_pc word) _ cpu (pop_pc-IsAt r g cpu now (word-IsGood r g h) h.are_bytes)
          (λ ext c at.
            is_ok (sext16 ext) c
              (subst (λ b. IsAt cpu r (if b then past_word g else g) c) (sym e) at)))
      (λ e.
        is_ok (sext8 g.ir) cpu
          (subst (λ b. IsAt cpu r (if b then past_word g else g) cpu) (sym e) now))

-- The registers in a subroutine that starts at `t`.
abbrev called : ℕ → Registers → Registers
called t g = record (with_sp (g.a 7 - 4) (behind g)) { pc = t }

branch-IsAt :
    (r : Ram) (cpu : Cpu)
    → IsPlain r cpu
    → HasStack r cpu.regs
    → condition_of cpu.regs.ir ≡ 1
    → IsOk
        (λ _ c.
          (t : ℕ) × IsAt cpu
            (ram_stored long (cpu.regs.a 7 - 4) (behind cpu.regs).pc r)
            (called t cpu.regs)
            c)
        (branch cpu)
unfolding branch
branch-IsAt r cpu plain h k =
    let g = cpu.regs in
    let x = behind g in
    let sp = g.a 7 - 4 in
    let a = h.above in
    let i = h.inside in
    let l = h.is_small in
    bind-IsOk (branch_displacement g.ir) _ cpu (branch_displacement-IsAt r cpu plain h) (λ n c1 at1.
      let pushed =
        subst
          (λ v.
            IsOk (λ _ c. IsAt cpu (ram_stored long sp v r) (with_sp sp x) c)
              (push long c1.regs.pc c1))
          (ap (λ (y : Registers). y.pc) at1.has_regs)
          (push-to long sp c1.regs.pc r x c1 at1
            (ap (λ f. sub32 (f 7) 4) (same_a-behind g) ∙ omega arith) (stack-IsGood r g h)) in
      subst (λ b. IsOk (result g x sp) (when b (body (add32 g.pc n) (condition_of g.ir == 1)) c1))
        {x = true} (ground arith)
        (subst (λ b. IsOk (result g x sp) (body (add32 g.pc n) b c1)) {x = true} (ground arith)
          (bind-IsOk (λ (c : Cpu). push long c.regs.pc c) _ c1 pushed
            (λ u c2 at2. is_ok tt _ (
              add32 g.pc n,
              set_regs-IsAt (λ y. record y { pc = add32 g.pc n }) (ram_stored long sp x.pc r)
                  (with_sp sp x) c2 at2,
            )))))
  where
    body : ℕ → Bool → Run (Unit {0})
    body t b = do when b (λ c. push long c.regs.pc c); modify (set_pc t)

    result : Registers → Registers → ℕ → Unit {0} → Cpu → Type 0
    result g x sp u c = (t : ℕ) × IsAt cpu (ram_stored long sp x.pc r) (called t g) c

-- What a call and its return leave: the PC is behind the branch.
pub record IsBehind (cpu c : Cpu) : Type 0 where
  pub at_pc : c.regs.pc ≡ (behind cpu.regs).pc
  pub same_sr : c.regs.sr ≡ cpu.regs.sr
  pub same_d : c.regs.d ≡ cpu.regs.d
  pub same_a : (i : ℕ) → c.regs.a i ≡ cpu.regs.a i
  pub same_rest : rest_of c ≡ rest_of cpu

restored : (a : ℕ → ℕ) (sp i : ℕ) → update (update a 7 sp) 7 (a 7) i ≡ a i
restored a sp i = grind arith

behind-same :
    {B : Type 0} → (f : Registers → B) (g : Registers) → f (past_word g) ≡ f g → f (behind g) ≡ f g
behind-same f g e = if_elim (λ z. f z ≡ f g) (u8 g.ir == 0) _ _ (λ b. e) (λ b. refl)

below_2_32 : (r : Ram) (g : Registers) → HasStack r g → (behind g).pc < 0x1_0000_0000
below_2_32 r g h =
    let w = h.has_word in
    let l = h.is_small in
    if_elim (λ (z : Registers). z.pc < 0x1_0000_0000) (u8 g.ir == 0) _ _ (λ b. omega arith)
      (λ b. omega arith)

rts-IsBehind :
    (t : ℕ) (r : Ram) (cpu c : Cpu)
    → HasStack r cpu.regs
    → IsAt cpu (ram_stored long (cpu.regs.a 7 - 4) (behind cpu.regs).pc r) (called t cpu.regs) c
    → IsOk (λ _ d. IsBehind cpu d) (rts c)
unfolding rts
rts-IsBehind t r cpu c h at =
    let g = cpu.regs in
    let pc = (behind g).pc in
    let sp = g.a 7 - 4 in
    let above = h.above in
    let i = h.inside in
    let l = h.is_small in
    bind-IsOk (pop long) _ c
      (pop-from long sp (g.a 7) (ram_stored long sp pc r) (called t g) c at refl (omega arith)
        (stack-IsGood r g h) (stored-IsBytes long (sp - r.offset) pc r.cell h.are_bytes))
      (λ v d (e, at2). is_ok tt _ (record {
        at_pc =
            long_value v pc (below_2_32 r g h) (e ∙ spelled-stored long (sp - r.offset) pc r.cell);
        same_sr =
            ap (λ (y : Registers). y.sr) at2.has_regs
            ∙ behind-same (λ (y : Registers). y.sr) g refl;
        same_d =
            ap (λ (y : Registers). y.d) at2.has_regs ∙ behind-same (λ (y : Registers). y.d) g refl;
        same_a = λ j.
            ap (λ (y : Registers). y.a j) at2.has_regs
            ∙ ap (λ f. update (update f 7 sp) 7 (g.a 7) j) (same_a-behind g)
            ∙ restored g.a sp j;
        same_rest = at2.same_rest;
      }))

-- BSR and an RTS right after it change the PC alone, which stands behind the BSR and its
-- displacement word, if it has one: all registers are as they were, whatever the displacement, and
-- no error occurs. The memory is a single RAM of bytes from address 0 on, of no more than 2^24, with
-- a word at the even PC; the stack pointer is even, at least 4 and not above the end of the RAM, and
-- there are no breakpoints and no tracing.
pub branch-rts :
    (r : Ram) (cpu : Cpu)
    → IsPlain r cpu
    → HasStack r cpu.regs
    → condition_of cpu.regs.ir ≡ 1
    → IsOk (λ _ c. IsBehind cpu c) ((branch >> rts) cpu)
branch-rts r cpu plain h k =
    bind-IsOk branch _ cpu (branch-IsAt r cpu plain h k)
      (λ u c (t, at). rts-IsBehind t r cpu c h at)
