-- ===== src/Cpu/Exception/Guard.antt =====
-- The flag that an exception is being processed.
use m68kemu.Base.{ℕ, ◌≤◌, ◌≡◌, refl, Bool, false, ltb, le→ltb}
use m68kemu.Effect.{Result, ok, err, state_of, choose}
use m68kemu.Cpu.State.{Cpu, Run}
use m68kemu.Cpu.Exception.{raise_exception_with_pc, leave_exception}

left : {A : Type 0} (r : Result Cpu A) → (state_of (leave_exception r)).in_exception ≡ false
left (ok a c) = refl
left (err e c) = refl

chosen :
    {A : Type 0} (b : Bool) (m k : Run A) (cpu : Cpu)
    → b ≡ false
    → (state_of (k cpu)).in_exception ≡ false
    → (state_of (choose b m k cpu)).in_exception ≡ false
chosen b m k cpu h p = rw h p

-- An exception with a vector below 256 is no longer being processed when raiseExceptionWithPC
-- returns, also where pushing the frame or reading the vector fails.
pub raise_exception_lem :
    (vector new_sr stacked_pc exception_pc : ℕ) (cpu : Cpu)
    → vector ≤ 255
    → (state_of (raise_exception_with_pc vector new_sr stacked_pc exception_pc cpu)).in_exception
      ≡ false
unfolding raise_exception_with_pc
raise_exception_lem vector new_sr stacked_pc exception_pc cpu h =
    chosen (ltb 255 vector) _ _ cpu (le→ltb 255 vector h) (left _)
