-- ===== src/Cpu/Until/Steps.antt =====
-- RunUntil is a sequence of steps, between two changes of what is collected.
use mathlib.Core.Path.{subst}
use mathlib.Core.Option.{some-injective, none-ne-some}
use m68kemu.Base.{
  ℕ, zero, suc, ◌+◌, ◌%◌, ◌≡◌, ◌∙◌, refl, sym, arith, Bool, true, false, Option, none, some, ◌||◌,
  ltb, if◌then◌else◌, bool_elim,
}
use m68kemu.Effect.{Error, ok, err, result_elim}
use m68kemu.Memory.Bus.{is_some}
use m68kemu.Cpu.State.{Cpu}
use m68kemu.Cpu.Step.{step}
use m68kemu.Cpu.Until.{
  RunUntilOptions, RunResult, no_result, Outcome, outcome, run_stop_reason, note_step, is_at_limit,
  limit_result, run_on, collects, set_collect, restoring, run_until,
}
use m68kemu.Cpu.Until.Limit.{IsCounted, counted, not_yet, run_stop_reason-IsCounted}

-- From `a` so many steps without an error lead to another processor.
pub data HasStepped (a : Cpu) : ℕ → Cpu → Type 0 where
  started : HasStepped a 0 a
  stepped : (n : ℕ) (b c : Cpu) → HasStepped a n b → step b ≡ ok tt c → HasStepped a (n + 1) c

-- The outcome of steps from `a`: their number is the count of instructions, and the error is that of
-- the next step.
pub data IsEnd (a : Cpu) : Outcome → Type 0 where
  stopped :
      (n : ℕ) (r : RunResult) (c : Cpu)
      → HasStepped a n c
      → r.instructions ≡ n % 0x1_0000_0000_0000_0000
      → IsEnd a (outcome r none c)
  failed :
      (n : ℕ) (r : RunResult) (b c : Cpu) (e : Error)
      → HasStepped a n b
      → step b ≡ err e c
      → r.instructions ≡ n % 0x1_0000_0000_0000_0000
      → IsEnd a (outcome r (some e) c)

data IsEndIf (a : Cpu) : Option Outcome → Type 0 where
  unfinished : IsEndIf a none
  finished : (o : Outcome) → IsEnd a o → IsEndIf a (some o)

stop-IsEndIf :
    (a c : Cpu) (n : ℕ) (o : Option RunResult) (k : Option Outcome)
    → HasStepped a n c
    → IsCounted (n % 0x1_0000_0000_0000_0000) o
    → IsEndIf a k
    → IsEndIf a (elim o [ some r ↦ some (outcome r none c) | none ↦ k ])
stop-IsEndIf a c n none k h not_yet w = w
stop-IsEndIf a c n (some _) k h (counted r e) w = finished _ (stopped n r c h e)

run_on-IsEndIf :
    (options : RunUntilOptions) (start fuel n : ℕ) (a : Cpu) (r : RunResult) (c : Cpu)
    → HasStepped a n c
    → r.instructions ≡ n % 0x1_0000_0000_0000_0000
    → IsEndIf a (run_on options start fuel r c)
unfolding run_on limit_result note_step
run_on-IsEndIf options start zero n a r c h e = unfinished
run_on-IsEndIf options start (suc fuel) n a r c h e =
    bool_elim (IsEndIf a) (is_at_limit options r) _ _
      (λ b. finished _ (stopped n (limit_result start r c) c h e))
      (λ b.
        result_elim (IsEndIf a) (step c) _ _
          (λ u d f.
            let next = note_step options start r d in
            let more : HasStepped a (n + 1) d = stepped n c d h f in
            let count : next.instructions ≡ (n + 1) % 0x1_0000_0000_0000_0000 = omega (arith, e) in
            stop-IsEndIf a d (n + 1) _ _ more
              (subst (λ k. IsCounted k (run_stop_reason options next d)) count
                (run_stop_reason-IsCounted options next d))
              (run_on-IsEndIf options start fuel (n + 1) a next d more count))
          (λ x d f. finished _ (failed n r c d x h f e)))

-- The collection of bus accesses is set, and with it the trace flags: instructions are traced for a
-- tracer or a history, and bus accesses for a tracer, a history, or the collection.
abbrev pub collecting : Bool → Cpu → Cpu
collecting b cpu =
    let has_history = ltb 0 cpu.history.limit in
    record cpu {
      collect_step_bus = b;
      trace_instructions = cpu.has_trap || has_history;
      trace_bus = cpu.has_bus_trap || (has_history || b);
    }

set_collect-collecting : (b : Bool) (cpu : Cpu) → set_collect b cpu ≡ collecting b cpu
unfolding set_collect
set_collect-collecting b cpu =
    let l = ltb 0 cpu.history.limit in
    λ i. record cpu {
      collect_step_bus = b;
      trace_instructions = either cpu.has_trap l i;
      trace_bus = any cpu.has_bus_trap l b i;
    }
  where
    either : (x l : Bool) → (if x then true else if l then true else false) ≡ (x || l)
    either true l = refl
    either false true = refl
    either false false = refl

    any :
        (x l b : Bool)
        → (if x then true else if (if l then true else false) then true else b) ≡ (x || (l || b))
    any true l b = refl
    any false true b = refl
    any false false b = refl

-- The outcome of steps from a processor that collects what the options need, with the collection and
-- the trace flags put back.
pub data IsRestored (options : RunUntilOptions) (cpu : Cpu) : Outcome → Type 0 where
  restored :
      (o : Outcome)
      → IsEnd
          (collecting (is_some options.stop_on_bus_access || is_some options.stop_predicate) cpu)
          o
      → IsRestored options cpu (record o { cpu = collecting cpu.collect_step_bus o.cpu })

restoring-IsRestored :
    (options : RunUntilOptions) (cpu : Cpu) (m : Option Outcome) (o : Outcome)
    → IsEndIf (set_collect (collects options) cpu) m
    → restoring cpu.collect_step_bus m ≡ some o
    → IsRestored options cpu o
unfolding restoring
restoring-IsRestored options cpu none o unfinished h = absurd (none-ne-some o h)
restoring-IsRestored options cpu (some _) o (finished x e) h =
    subst (IsRestored options cpu)
      ((λ i. record x { cpu = sym (set_collect-collecting cpu.collect_step_bus x.cpu) i })
        ∙ some-injective (record x { cpu = set_collect cpu.collect_step_bus x.cpu }) o h)
      (restored x (subst (λ a. IsEnd a x) (set_collect-collecting (collects options) cpu) e))

begun-IsEndIf :
    (a : Cpu) (o : Option RunResult) (k : Option Outcome)
    → IsCounted 0 o
    → IsEndIf a k
    → IsEndIf a (elim o [ some r ↦ some (outcome (record r { pc = a.regs.pc }) none a) | none ↦ k ])
begun-IsEndIf a none k not_yet w = w
begun-IsEndIf a (some _) k (counted r e) w =
    finished _ (stopped 0 (record r { pc = a.regs.pc }) a started e)

-- RunUntil is a sequence of steps from the processor that collects bus accesses if an option needs
-- them. When it has ended without an error, every step went well, and their number is the count of
-- instructions modulo 2^64; when with an error, that is the error of the next step, which is not
-- counted. On every way out the collection of bus accesses is what it was before, instructions are
-- traced exactly if there is a tracer or a history, and bus accesses exactly if there is a bus
-- tracer, a history or that collection; nothing else is changed after the last step.
pub run_until-restoring :
    (fuel : ℕ) (options : RunUntilOptions) (cpu : Cpu) (o : Outcome)
    → run_until fuel options cpu ≡ some o
    → IsRestored options cpu o
unfolding run_until
run_until-restoring fuel options cpu o =
    let a = set_collect (collects options) cpu in
    restoring-IsRestored options cpu _ o (
      begun-IsEndIf a (run_stop_reason options no_result a) _
        (run_stop_reason-IsCounted options no_result a)
        (run_on-IsEndIf options a.cycles fuel 0 a no_result a started refl))
