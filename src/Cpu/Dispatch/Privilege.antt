-- ===== src/Cpu/Dispatch/Privilege.antt =====
-- The instructions that user mode may not execute.
use m68kemu.Base.{◌∙◌, if◌then◌else◌, ◌≡◌, refl, Bool, true, false}
use m68kemu.Effect.{Result, ok, err, when}
use m68kemu.Decode.Registration.{Handler}
use m68kemu.Cpu.State.{Cpu, Run}
use m68kemu.Cpu.Debug.{is_supervisor}
use m68kemu.Cpu.Exception.{privileged, require_supervisor, exception_with_cycles, x_priv_violation}
use m68kemu.Cpu.Dispatch.{handle}

pub data IsPrivileged : Handler → Type 0 where
  reset_of : IsPrivileged Handler.reset
  stop_of : IsPrivileged Handler.stop
  rte_of : IsPrivileged Handler.rte
  move_to_sr_of : IsPrivileged Handler.move_to_sr
  move_to_usp_of : IsPrivileged Handler.move_to_usp
  move_from_usp_of : IsPrivileged Handler.move_from_usp
  ori_to_sr_of : IsPrivileged Handler.ori_to_sr
  andi_to_sr_of : IsPrivileged Handler.andi_to_sr
  eori_to_sr_of : IsPrivileged Handler.eori_to_sr

abbrev violation : Run (Unit {0})
unfolding exception_with_cycles
violation = exception_with_cycles x_priv_violation 34

-- What follows requireSupervisor.
abbrev when_allowed : Run (Unit {0}) → Result Cpu Bool → Result Cpu (Unit {0})
when_allowed m (ok allowed cpu) = when allowed m cpu
when_allowed m (err e cpu) = err e cpu

abbrev refuse : Result Cpu (Unit {0}) → Result Cpu Bool
refuse (ok a cpu) = ok false cpu
refuse (err e cpu) = err e cpu

refused : (m : Run (Unit {0})) (r : Result Cpu (Unit {0})) → when_allowed m (refuse r) ≡ r
refused m (ok tt cpu) = refl
refused m (err e cpu) = refl

privileged_lem :
    (m : Run (Unit {0})) (cpu : Cpu) → is_supervisor cpu ≡ false → privileged m cpu ≡ violation cpu
unfolding privileged require_supervisor violation
privileged_lem m cpu h =
    (λ i. when_allowed m (if h i then ok true cpu else refuse (violation cpu)))
    ∙ refused m (violation cpu)

-- In user mode RESET, STOP, RTE, the moves to SR, to USP and from USP, and the three operations on
-- SR do nothing but take the privilege violation exception, vector 8 at 34 cycles.
pub privilege_lem :
    (h : Handler) (cpu : Cpu)
    → IsPrivileged h
    → is_supervisor cpu ≡ false
    → handle h cpu ≡ exception_with_cycles x_priv_violation 34 cpu
unfolding handle
privilege_lem h cpu reset_of u = privileged_lem _ cpu u
privilege_lem h cpu stop_of u = privileged_lem _ cpu u
privilege_lem h cpu rte_of u = privileged_lem _ cpu u
privilege_lem h cpu move_to_sr_of u = privileged_lem _ cpu u
privilege_lem h cpu move_to_usp_of u = privileged_lem _ cpu u
privilege_lem h cpu move_from_usp_of u = privileged_lem _ cpu u
privilege_lem h cpu ori_to_sr_of u = privileged_lem _ cpu u
privilege_lem h cpu andi_to_sr_of u = privileged_lem _ cpu u
privilege_lem h cpu eori_to_sr_of u = privileged_lem _ cpu u
