-- ===== src/Cpu/Control/Link.antt =====
-- UNLK undoes LINK, in a RAM that nothing watches.
use mathlib.Core.Path.{subst}
use m68kemu.Base.{ℕ, ◌+◌, ◌-◌, ◌<◌, ◌≡◌, ◌∙◌, refl, sym, ap, arith, add32, update, sext16}
use m68kemu.Operand.{word, long}
use m68kemu.Effect.{◌>>◌, bind-IsOk, IsOk, is_ok}
use m68kemu.Memory.Ram.{Ram}
use m68kemu.Memory.Ram.Laws.{spelled-stored, stored-IsBytes}
use m68kemu.Decode.Fields.{field_y}
use m68kemu.Cpu.State.{Cpu, Registers, set_regs}
use m68kemu.Cpu.Access.Plain.{IsPlain, ram_stored}
use m68kemu.Cpu.Stream.{pop_pc, push, pop, set_a}
use m68kemu.Cpu.Stream.Plain.{rest_of, IsAt, with_sp, set_regs-IsAt, pop-from}
use m68kemu.Cpu.Stream.Fetch.{
  HasStack, word-IsGood, stack-IsGood, long_value, past_word, pop_pc-IsAt, push-to,
}
use m68kemu.Cpu.Control.{link, unlk}

-- The instruction names an address register but A7.
pub record HasFrame (r : Ram) (g : Registers) : Type 0 where
  pub stack : HasStack r g
  pub named : field_y g.ir < 7
  pub in_width : g.a (field_y g.ir) < 0x1_0000_0000

-- The registers after LINK, with the displacement added to the stack pointer, and after UNLK.
abbrev linked : ℕ → ℕ → Registers → Registers
linked displacement sp g =
    let q = field_y g.ir in
    let x = with_sp sp (past_word g) in
    let y : Registers = record x { a = update x.a q (x.a 7) } in
    with_sp (add32 (y.a 7) (sext16 displacement)) y

abbrev unlinked : ℕ → ℕ → Registers → Registers
unlinked value sp x =
    let q = field_y x.ir in
    let y = with_sp sp (with_sp (x.a q) x) in record y { a = update y.a q value }

link-IsAt :
    (r : Ram) (cpu : Cpu)
    → IsPlain r cpu
    → HasFrame r cpu.regs
    → IsOk
        (λ _ c.
          (n : ℕ) × IsAt cpu
            (ram_stored long (cpu.regs.a 7 - 4) (cpu.regs.a (field_y cpu.regs.ir)) r)
            (linked n (cpu.regs.a 7 - 4) cpu.regs)
            c)
        (link cpu)
unfolding link
link-IsAt r cpu plain h =
    let g = cpu.regs in
    let q = field_y g.ir in
    let sp = g.a 7 - 4 in
    let r2 = ram_stored long sp (g.a q) r in
    let a = h.stack.above in
    let i = h.stack.inside in
    let l = h.stack.is_small in
    bind-IsOk (pop_pc word) _ cpu
      (pop_pc-IsAt r g cpu (record { plain = plain; has_regs = refl; same_rest = refl })
        (word-IsGood r g h.stack) h.stack.are_bytes)
      (λ n c1 at1.
        bind-IsOk (λ (c : Cpu). push long (c.regs.a q) c) _ c1
          (subst
            (λ v.
              IsOk (λ _ c. IsAt cpu (ram_stored long sp v r) (with_sp sp (past_word g)) c)
                (push long (c1.regs.a q) c1))
            (ap (λ (x : Registers). x.a q) at1.has_regs)
            (push-to long sp (c1.regs.a q) r (past_word g) c1 at1 (omega arith)
              (stack-IsGood r g h.stack)))
          (λ u c2 at2.
            let at3 =
              set_regs-IsAt (λ x. record x { a = update x.a q (x.a 7) }) r2
                (with_sp sp (past_word g)) c2 at2 in
            is_ok tt _ (n, set_regs-IsAt (λ x. with_sp (add32 (x.a 7) (sext16 n)) x) r2 _ _ at3)))

-- What the two leave: only the PC has moved.
pub record IsUnlinked (cpu c : Cpu) : Type 0 where
  pub at_pc : c.regs.pc ≡ cpu.regs.pc + 2
  pub same_sr : c.regs.sr ≡ cpu.regs.sr
  pub same_d : c.regs.d ≡ cpu.regs.d
  pub same_a : (i : ℕ) → c.regs.a i ≡ cpu.regs.a i
  pub same_rest : rest_of c ≡ rest_of cpu

-- Only the named register and the stack pointer are written, and both get back what they had.
untouched :
    (a : ℕ → ℕ) (q i v sp x y : ℕ)
    → q < 7
    → v ≡ a q
    → update (update (update (update (update (update a 7 sp) q sp) 7 x) 7 y) 7 (a 7)) q v i ≡ a i
untouched a q i v sp x y h e = grind arith

at_frame : (a : ℕ → ℕ) (q sp x : ℕ) → q < 7 → update (update (update a 7 sp) q sp) 7 x q ≡ sp
at_frame a q sp x h = ground arith

unlk-IsUnlinked :
    (n : ℕ) (r : Ram) (cpu c : Cpu)
    → HasFrame r cpu.regs
    → IsAt cpu
        (ram_stored long (cpu.regs.a 7 - 4) (cpu.regs.a (field_y cpu.regs.ir)) r)
        (linked n (cpu.regs.a 7 - 4) cpu.regs)
        c
    → IsOk (λ _ d. IsUnlinked cpu d) (unlk c)
unfolding unlk
unlk-IsUnlinked n r cpu c h at =
    let g = cpu.regs in
    let q = field_y g.ir in
    let sp = g.a 7 - 4 in
    let r2 = ram_stored long sp (g.a q) r in
    let x = linked n sp g in
    let a = h.stack.above in
    let i = h.stack.inside in
    let l = h.stack.is_small in
    let w = h.stack.has_word in
    let same_q : field_y c.regs.ir ≡ q = ap (λ (z : Registers). field_y z.ir) at.has_regs in
    let at1 : IsAt cpu r2 (with_sp (x.a q) x)
        (set_regs (λ z. with_sp (z.a (field_y c.regs.ir)) z) c) =
      subst (λ k. IsAt cpu r2 (with_sp (x.a q) x) (set_regs (λ z. with_sp (z.a k) z) c))
        (sym same_q) (set_regs-IsAt (λ z. with_sp (z.a q) z) r2 x c at) in
    let moved = add32 (update (update g.a 7 sp) q sp 7) (sext16 n) in
    let at_sp = at_frame g.a q sp moved h.named in
    let z = with_sp (g.a 7) (with_sp (x.a q) x) in
    bind-IsOk (pop long) _ (set_regs (λ z. with_sp (z.a (field_y c.regs.ir)) z) c)
      (pop-from long sp (g.a 7) r2 (with_sp (x.a q) x) _ at1 at_sp (omega arith)
        (stack-IsGood r g h.stack)
        (stored-IsBytes long (sp - r.offset) (g.a q) r.cell h.stack.are_bytes))
      (λ v d (e, at2).
        let value =
          long_value v (g.a q) h.in_width
            (e ∙ spelled-stored long (sp - r.offset) (g.a q) r.cell) in
        let done : (set_a (field_y c.regs.ir) v d).regs ≡ record z { a = update z.a q v } =
          (λ t. record (at2.has_regs t) { a = update (at2.has_regs t).a (same_q t) v }) in
        is_ok tt _ (record {
          at_pc = ap (λ (y : Registers). y.pc) done ∙ omega arith;
          same_sr = ap (λ (y : Registers). y.sr) done;
          same_d = ap (λ (y : Registers). y.d) done;
          same_a = λ j.
              ap (λ (y : Registers). y.a j) done
              ∙ untouched g.a q j v sp moved (x.a q) h.named value;
          same_rest = at2.same_rest;
        }))

-- LINK of an address register but A7, and UNLK of it right after, change the PC alone: the
-- register, the stack pointer and all other registers are as they were, whatever the displacement,
-- and no error occurs. The memory is a single RAM of bytes from address 0 on, of no more than 2^24,
-- with the displacement at the even PC; the stack pointer is even, at least 4 and not above the end
-- of the RAM, the register is in its width, and there are no breakpoints and no tracing.
pub link-unlk :
    (r : Ram) (cpu : Cpu)
    → IsPlain r cpu
    → HasFrame r cpu.regs
    → IsOk (λ _ c. IsUnlinked cpu c) ((link >> unlk) cpu)
link-unlk r cpu plain h =
    bind-IsOk link _ cpu (link-IsAt r cpu plain h) (λ u c (n, at). unlk-IsUnlinked n r cpu c h at)
