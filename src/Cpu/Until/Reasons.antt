-- ===== src/Cpu/Until/Reasons.antt =====
-- Why RunUntil stops, and when.
use mathlib.Core.Path.{subst}
use m68kemu.Base.{
  ℕ, zero, suc, ◌<◌, ◌≤◌, ◌≡◌, refl, arith, bit_and, Bool, true, false, not, Option, none, some,
  List, [], ◌∷◌, ◌&&◌, ◌==◌, ltb, leb, ◌⊎◌, if_elim, bool_elim, option_elim,
}
use mathlib.Core.Option
use mathlib.Core.Option.{some-injective, none-ne-some}
use m68kemu.Effect.{Error, result_elim}
use m68kemu.Memory.Bus.{is_some}
use m68kemu.Cpu.State.{Cpu, BusAccessInfo, ExceptionInfo}
use m68kemu.Cpu.Step.{step}
use m68kemu.Cpu.Until.{
  AddressRange, contains, RunPredicateInfo, RunUntilOptions, RunStopReason, instruction_limit,
  at_pc, pc_in_range, pc_outside_range, bus_access, predicate, exception, illegal_opcode, RunResult,
  no_result, Outcome, outcome, is_illegal_exception, run_predicate_info, match_stop_at_pc,
  first_match, match_step_bus_access, holds, pc_stop_reason, with_reason, event_stop_reason,
  run_stop_reason, note_step, is_at_limit, limit_result, run_on, collects, set_collect, restoring,
  run_until,
}

-- One of the elements.
pub data IsIn {A : Type 0} (a : A) : List A → Type 0 where
  here : (rest : List A) → IsIn a (a ∷ rest)
  there : (b : A) (rest : List A) → IsIn a rest → IsIn a (b ∷ rest)

-- Inside a range of 24-bit addresses, both ends included.
abbrev pub IsInside : AddressRange → ℕ → Type 0
IsInside r a =
    (bit_and r.start 0xff_ffff ≤ bit_and a 0xff_ffff)
    × (bit_and a 0xff_ffff ≤ bit_and r.end 0xff_ffff)

-- What the processor and the result show when RunUntil stops for a reason.
pub data IsReason (options : RunUntilOptions) (r : RunResult) (cpu : Cpu)
    : RunStopReason → Type 0 where
  limit :
      0 < options.max_instructions
      → options.max_instructions ≤ r.instructions
      → IsReason options r cpu instruction_limit
  predicted :
      (p : RunPredicateInfo → Bool)
      → options.stop_predicate ≡ some p
      → p (run_predicate_info r cpu) ≡ true
      → IsReason options r cpu predicate
  at_target :
      (t : ℕ)
      → IsIn t options.stop_at_pc
      → bit_and cpu.regs.pc 0xff_ffff ≡ bit_and t 0xff_ffff
      → IsReason options r cpu at_pc
  accessed :
      (f : BusAccessInfo → Bool) (a : BusAccessInfo)
      → options.stop_on_bus_access ≡ some f
      → IsIn a cpu.step_bus_accesses
      → f a ≡ true
      → r.bus_access ≡ some a
      → IsReason options r cpu bus_access
  illegal :
      (info : ExceptionInfo)
      → options.stop_on_illegal ≡ true
      → cpu.step_exception ≡ some info
      → (info.vector ≡ 4) ⊎ (info.vector ≡ 10) ⊎ (info.vector ≡ 11)
      → IsReason options r cpu illegal_opcode
  excepted :
      (info : ExceptionInfo)
      → options.stop_on_exception ≡ true
      → cpu.step_exception ≡ some info
      → IsReason options r cpu exception
  inside :
      (range : AddressRange)
      → options.stop_on_pc_range ≡ some range
      → IsInside range cpu.regs.pc
      → IsReason options r cpu pc_in_range
  outside :
      (range : AddressRange)
      → options.stop_when_pc_outside ≡ some range
      → ¬ IsInside range cpu.regs.pc
      → IsReason options r cpu pc_outside_range

-- A result that has a reason has one that is true.
pub data IsExplained (options : RunUntilOptions) (cpu : Cpu) : Option RunResult → Type 0 where
  going : IsExplained options cpu none
  stopped :
      (r : RunResult) (reason : RunStopReason)
      → r.reason ≡ some reason
      → IsReason options r cpu reason
      → IsExplained options cpu (some r)

holds-true :
    {A : Type 0}
    → (o : Option A) (f : A → Bool) → holds o f ≡ true
    → (a : A) × (o ≡ some a) × (f a ≡ true)
holds-true none f h = absurd (ground arith)
holds-true (some a) f h = (a, refl, h)

is_some-true : {A : Type 0} → (o : Option A) → is_some o ≡ true → (a : A) × (o ≡ some a)
is_some-true none h = absurd (ground arith)
is_some-true (some a) h = (a, refl)

both : (a b : Bool) → (a && b) ≡ true → (a ≡ true) × (b ≡ true)
both true b h = (refl, h)
both false b h = absurd (ground arith)

contains-IsInside : (r : AddressRange) (a : ℕ) → contains r a ≡ true → IsInside r a
unfolding contains
contains-IsInside r a h =
    let k =
      both (leb (bit_and r.start 0xff_ffff) (bit_and a 0xff_ffff))
        (leb (bit_and a 0xff_ffff) (bit_and r.end 0xff_ffff)) h in
    (ground arith, ground arith)

contains-not : (r : AddressRange) (a : ℕ) → not (contains r a) ≡ true → ¬ IsInside r a
unfolding contains
contains-not r a h k = ground arith

illegal_vectors : (v : ℕ) → is_illegal_exception v ≡ true → (v ≡ 4) ⊎ (v ≡ 10) ⊎ (v ≡ 11)
unfolding is_illegal_exception
illegal_vectors v h = ground arith

first_match-IsIn :
    (f : BusAccessInfo → Bool) (xs : List BusAccessInfo) (a : BusAccessInfo)
    → first_match f xs ≡ some a
    → IsIn a xs × (f a ≡ true)
unfolding first_match
first_match-IsIn f [] a h = absurd (none-ne-some a h)
first_match-IsIn f (x ∷ xs) a g =
    if_elim (λ o. o ≡ some a → IsIn a (x ∷ xs) × (f a ≡ true)) (f x) (some x) (first_match f xs)
      (λ e h. subst (λ y. IsIn y (x ∷ xs) × (f y ≡ true)) (some-injective x a h) (here xs, e))
      (λ e h. let (i, k) = first_match-IsIn f xs a h in (there x xs i, k)) g

match_stop_at_pc-IsIn :
    (targets : List ℕ) (cpu : Cpu) (m : ℕ)
    → match_stop_at_pc targets cpu ≡ some m
    → (t : ℕ) × IsIn t targets × (bit_and cpu.regs.pc 0xff_ffff ≡ bit_and t 0xff_ffff)
unfolding match_stop_at_pc
match_stop_at_pc-IsIn [] cpu m h = absurd (none-ne-some m h)
match_stop_at_pc-IsIn (t ∷ ts) cpu m g =
    if_elim
      (λ o.
        o ≡ some m
        → (u : ℕ) × IsIn u (t ∷ ts) × (bit_and cpu.regs.pc 0xff_ffff ≡ bit_and u 0xff_ffff))
      (bit_and cpu.regs.pc 0xff_ffff == bit_and t 0xff_ffff) _ _ (λ e h. (t, here ts, ground arith))
      (λ e h. let (u, i, k) = match_stop_at_pc-IsIn ts cpu m h in (u, there t ts i, k)) g

module _ (options : RunUntilOptions) (cpu : Cpu) where
  explained :
      (r : RunResult) (reason : RunStopReason)
      → IsReason options (with_reason reason r) cpu reason
      → IsExplained options cpu (some (with_reason reason r))
  explained r reason h = stopped (with_reason reason r) reason refl h

  pc_stop_reason-IsReason :
      (r : RunResult)
      → IsExplained options cpu (Option.map (λ x. with_reason x r) (pc_stop_reason options cpu))
  unfolding pc_stop_reason
  pc_stop_reason-IsReason r =
      if_elim (λ o. IsExplained options cpu (Option.map (λ x. with_reason x r) o)) _ _ _
        (λ e.
          let (range, o, k) = holds-true options.stop_on_pc_range (λ x. contains x cpu.regs.pc) e in
          explained r pc_in_range (inside range o (contains-IsInside range cpu.regs.pc k)))
        (λ e.
          if_elim (λ o. IsExplained options cpu (Option.map (λ x. with_reason x r) o)) _ _ _
            (λ f.
              let (range, o, k) =
                holds-true options.stop_when_pc_outside (λ x. not (contains x cpu.regs.pc)) f in
              explained r pc_outside_range (outside range o (contains-not range cpu.regs.pc k)))
            (λ f. going))

  event_stop_reason-IsReason :
      (r : RunResult)
      → IsExplained options cpu (Option.map (λ x. with_reason x r) (event_stop_reason options cpu))
  unfolding event_stop_reason
  event_stop_reason-IsReason r =
      if_elim (λ o. IsExplained options cpu (Option.map (λ x. with_reason x r) o)) _ _ _
        (λ e.
          let (s, h) = both options.stop_on_illegal _ e in
          let (info, o, k) =
            holds-true cpu.step_exception (λ (x : ExceptionInfo). is_illegal_exception x.vector)
              h in
          explained r illegal_opcode (illegal info s o (illegal_vectors info.vector k)))
        (λ e.
          if_elim (λ o. IsExplained options cpu (Option.map (λ x. with_reason x r) o)) _ _ _
            (λ f.
              let (s, h) = both options.stop_on_exception _ f in
              let (info, o) = is_some-true cpu.step_exception h in
              explained r exception (excepted info s o))
            (λ f. pc_stop_reason-IsReason r))

  match_step_bus_access-IsReason :
      (r : RunResult) (a : BusAccessInfo)
      → match_step_bus_access options cpu ≡ some a
      → IsReason options (with_reason bus_access (record r { bus_access = some a })) cpu bus_access
  unfolding match_step_bus_access
  match_step_bus_access-IsReason r a =
      option_elim
        (λ o.
          o ≡ some a
          → IsReason options (with_reason bus_access (record r { bus_access = some a })) cpu
              bus_access)
        options.stop_on_bus_access none (λ f. first_match f cpu.step_bus_accesses)
        (λ e h. absurd (none-ne-some a h))
        (λ f e h.
          let (i, k) = first_match-IsIn f cpu.step_bus_accesses a h in accessed f a e i k refl)

  run_stop_reason-IsExplained :
      (r : RunResult) → IsExplained options cpu (run_stop_reason options r cpu)
  unfolding run_stop_reason run_predicate_info
  run_stop_reason-IsExplained r =
      if_elim (IsExplained options cpu) _ _ _
        (λ e.
          let (p, o, k) = holds-true options.stop_predicate (λ f. f (run_predicate_info r cpu)) e in
          explained r predicate (predicted p o k))
        (λ e.
          option_elim (IsExplained options cpu) (match_stop_at_pc options.stop_at_pc cpu) _ _
            (λ f.
              option_elim (IsExplained options cpu) (match_step_bus_access options cpu) _ _
                (λ g. event_stop_reason-IsReason r)
                (λ a g.
                  explained (record r { bus_access = some a }) bus_access
                    (match_step_bus_access-IsReason r a g)))
            (λ m f.
              let (t, i, k) = match_stop_at_pc-IsIn options.stop_at_pc cpu m f in
              explained (record r { pc = m }) at_pc (at_target t i k)))

-- A run that ended without an error has a true reason, and one that failed has none.
pub data IsRun (options : RunUntilOptions) : Option Outcome → Type 0 where
  unfinished : IsRun options none
  ended :
      (r : RunResult) (reason : RunStopReason) (c : Cpu)
      → r.reason ≡ some reason
      → IsReason options r c reason
      → IsRun options (some (outcome r none c))
  failed :
      (r : RunResult) (e : Error) (c : Cpu)
      → r.reason ≡ none
      → IsRun options (some (outcome r (some e) c))

IsExplained-IsRun :
    (options : RunUntilOptions) (cpu : Cpu) (o : Option RunResult) (k : Option Outcome)
    → IsExplained options cpu o
    → (o ≡ none → IsRun options k)
    → IsRun options (elim o [ some r ↦ some (outcome r none cpu) | none ↦ k ])
IsExplained-IsRun options cpu none k going f = f refl
IsExplained-IsRun options cpu (some _) k (stopped r reason e h) f = ended r reason cpu e h

module _ (options : RunUntilOptions) (start : ℕ) where
  run_on-IsRun :
      (fuel : ℕ) (r : RunResult) (cpu : Cpu)
      → r.reason ≡ none
      → IsRun options (run_on options start fuel r cpu)
  unfolding run_on is_at_limit limit_result note_step
  run_on-IsRun zero r cpu n = unfinished
  run_on-IsRun (suc fuel) r cpu n =
      bool_elim (IsRun options) (is_at_limit options r) _ _
        (λ e.
          let (p, q) =
            both (ltb 0 options.max_instructions) (leb options.max_instructions r.instructions) e in
          ended (limit_result start r cpu) instruction_limit cpu refl
            (limit (ground arith) (ground arith)))
        (λ e.
          result_elim (IsRun options) (step cpu) _ _
            (λ u c f.
              IsExplained-IsRun options c _ _
                (run_stop_reason-IsExplained options c (note_step options start r c))
                (λ g. run_on-IsRun fuel (note_step options start r c) c n))
            (λ x c f. failed r x c n))

-- The reasons do not look at the PC of the result, nor at the flags of the debug interface.
IsReason-keep :
    (options : RunUntilOptions) (r : RunResult) (v : ℕ) (x y z : Bool) (cpu : Cpu)
    (reason : RunStopReason)
    → IsReason options r cpu reason
    → IsReason options
        (record r { pc = v })
        (record cpu { collect_step_bus = x; trace_instructions = y; trace_bus = z })
        reason
unfolding run_predicate_info
IsReason-keep options r v x y z cpu _ (limit p q) = limit p q
IsReason-keep options r v x y z cpu _ (predicted p o h) = predicted p o h
IsReason-keep options r v x y z cpu _ (at_target t i h) = at_target t i h
IsReason-keep options r v x y z cpu _ (accessed f a o i h k) = accessed f a o i h k
IsReason-keep options r v x y z cpu _ (illegal info s o h) = illegal info s o h
IsReason-keep options r v x y z cpu _ (excepted info s o) = excepted info s o
IsReason-keep options r v x y z cpu _ (inside range o h) = inside range o h
IsReason-keep options r v x y z cpu _ (outside range o h) = outside range o h

IsRun-restoring :
    (options : RunUntilOptions) (b : Bool) (o : Option Outcome)
    → IsRun options o
    → IsRun options (restoring b o)
unfolding restoring set_collect
IsRun-restoring options b none h = unfinished
IsRun-restoring options b (some _) (ended r reason c e h) =
    (let d = set_collect b c in
      ended r reason d e (
        IsReason-keep options r r.pc d.collect_step_bus d.trace_instructions d.trace_bus c reason
          h))
IsRun-restoring options b (some _) (failed r e c h) = failed r e (set_collect b c) h

started :
    (options : RunUntilOptions) (cpu : Cpu) (o : Option RunResult) (k : Option Outcome)
    → IsExplained options cpu o
    → (o ≡ none → IsRun options k)
    → IsRun options
        (elim o [ some r ↦ some (outcome (record r { pc = cpu.regs.pc }) none cpu) | none ↦ k ])
started options cpu none k going f = f refl
started options cpu (some _) k (stopped r reason e h) f =
    ended (record r { pc = cpu.regs.pc }) reason cpu e
      (IsReason-keep options r cpu.regs.pc cpu.collect_step_bus cpu.trace_instructions cpu.trace_bus
        cpu reason h)

-- When RunUntil has ended without an error, its reason is true of the result and of the
-- processor that it leaves; when it ends with an error, it has none.
pub run_until-IsRun :
    (fuel : ℕ) (options : RunUntilOptions) (cpu : Cpu) → IsRun options (run_until fuel options cpu)
unfolding run_until
run_until-IsRun fuel options cpu =
    let c = set_collect (collects options) cpu in
    IsRun-restoring options cpu.collect_step_bus _ (
      started options c _ _ (run_stop_reason-IsExplained options c no_result)
        (λ e. run_on-IsRun options c.cycles fuel no_result c refl))
