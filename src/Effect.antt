-- ===== src/Effect.antt =====
-- Go functions that return an error and change what they are called on: a state is passed on, and
-- is kept when the call fails. `panicked` is a run-time panic, which ends the program.
use mathlib.Core.Bool.{true≢false}
use m68kemu.Base.{◌≡◌, refl, ℕ, Bool, true, false, Option, none, some}

pub data BreakpointType : Type 0 where
  on_execute on_read on_write : BreakpointType

-- AddressError, BusError and BreakpointHit of cpu.go; `failed` is a value of fmt.Errorf, and
-- `callback_error` one that a callback of the embedding program returns.
pub data Error : Type 0 where
  address_error bus_error : ℕ → Error
  breakpoint_hit : ℕ → BreakpointType → Error
  callback_error : ℕ → Error
  failed : Error
  panicked : Error

pub data Result (S A : Type 0) : Type 0 where
  ok : A → S → Result S A
  err : Error → S → Result S A

abbrev pub M : Type 0 → Type 0 → Type 0
M S A = S → Result S A

infixl 5 ◌>>=◌ ◌>>◌
abbrev pub ◌>>=◌ : {S A B : Type 0} → M S A → (A → M S B) → M S B
◌>>=◌ m f s = elim (m s) [ ok a s' ↦ f a s' | err e s' ↦ err e s' ]

abbrev pub ◌>>◌ : {S B : Type 0} → M S (Unit {0}) → M S B → M S B
m >> k = m >>= λ _. k

abbrev pub pure : {S A : Type 0} → A → M S A
pure a s = ok a s

abbrev pub throw : {S A : Type 0} → Error → M S A
throw e s = err e s

abbrev pub gets : {S A : Type 0} → (S → A) → M S A
gets f s = ok (f s) s

abbrev pub modify : {S : Type 0} → (S → S) → M S (Unit {0})
modify f s = ok tt (f s)

-- A value that a table may lack: an index out of range is a panic.
abbrev pub indexed : {S A : Type 0} → Option A → M S A
indexed none = throw panicked
indexed (some a) = pure a

-- `if c { m }`
abbrev pub when : {S : Type 0} → Bool → M S (Unit {0}) → M S (Unit {0})
when true m = m
when false m = pure tt

abbrev pub choose : {S A : Type 0} → Bool → M S A → M S A → M S A
choose true m k = m
choose false m k = k

abbrev pub state_of : {S A : Type 0} → Result S A → S
state_of (ok a s) = s
state_of (err e s) = s

module _ {S A B : Type 0} (m : M S A) (f : A → M S B) (s : S) where
  pub bind-ok : {s' : S} {a : A} → m s ≡ ok a s' → (m >>= f) s ≡ f a s'
  bind-ok {s'} {a} e = λ i. then_run (e i)
    where
      then_run : Result S A → Result S B
      then_run (ok a t) = f a t
      then_run (err x t) = err x t

pub result_elim {ℓ ℓ'} :
    {S A : Type 0} {B : Type ℓ}
    → (P : B → Type ℓ') (m : Result S A) (f : A → S → B) (g : Error → S → B)
    → ((a : A) (s : S) → m ≡ ok a s → P (f a s))
    → ((e : Error) (s : S) → m ≡ err e s → P (g e s))
    → P (elim m [ ok a s ↦ f a s | err e s ↦ g e s ])
result_elim P (ok a s) f g h k = h a s refl
result_elim P (err e s) f g h k = k e s refl

pub choose-past :
    {S A : Type 0}
    → (b : Bool) (m k : M S A) (s : S) {r : Result S A} → b ≡ false
    → k s ≡ r
    → choose b m k s ≡ r
choose-past true m k s h e = absurd (true≢false h)
choose-past false m k s h e = e

-- A call that goes well, and what then holds of its result and the state.
pub data IsOk {S A : Type 0} (P : A → S → Type 0) : Result S A → Type 0 where
  is_ok : (a : A) (s : S) → P a s → IsOk P (ok a s)

pub map-IsOk :
    {S A : Type 0} {P Q : S → Type 0}
    → (m : Result S A) → ((s : S) → P s → Q s)
    → IsOk (λ _ s. P s) m
    → IsOk (λ _ s. Q s) m
map-IsOk (ok _ _) f (is_ok a s p) = is_ok a s (f s p)
map-IsOk (err e s) f p = elim p [ ]

pub bind-IsOk :
    {S A B : Type 0} {Q : A → S → Type 0} {P : B → S → Type 0}
    → (m : M S A) (f : A → M S B) (s : S) → IsOk Q (m s)
    → ((a : A) (t : S) → Q a t → IsOk P (f a t))
    → IsOk P ((m >>= f) s)
bind-IsOk {S} {A} {B} {Q} {P} m f s h k = after (m s) h
  where
    after : (r : Result S A) → IsOk Q r → IsOk P (elim r [ ok a t ↦ f a t | err e t ↦ err e t ])
    after (ok _ _) (is_ok a t q) = k a t q
    after (err e t) q = elim q [ ]

pub choose_elim :
    {S A : Type 0}
    → (P : Result S A → Type 0) (b : Bool) (m k : M S A) (s : S) → (b ≡ true → P (m s))
    → (b ≡ false → P (k s))
    → P (choose b m k s)
choose_elim P true m k s h g = h refl
choose_elim P false m k s h g = g refl
