-- ===== src/Base/Cases.antt =====
-- A conditional or a match of an option, by the cases of what it tests.
use mathlib.Core.Path.{◌≡◌, refl, sym}
use mathlib.Core.Bool.{Bool, true, false, true≢false}
use mathlib.Core.Option.{Option, none, some}
use m68kemu.Base.Tests.{if◌then◌else◌}

pub if_elim {ℓ ℓ'} :
    {A : Type ℓ}
    → (P : A → Type ℓ') (b : Bool) (x y : A) → (b ≡ true → P x)
    → (b ≡ false → P y)
    → P (if b then x else y)
if_elim P true x y h k = h refl
if_elim P false x y h k = k refl

pub option_elim {ℓ ℓ'} :
    {A : Type 0} {B : Type ℓ}
    → (P : B → Type ℓ') (o : Option A) (n : B) (s : A → B) → (o ≡ none → P n)
    → ((a : A) → o ≡ some a → P (s a))
    → P (elim o [ none ↦ n | some a ↦ s a ])
option_elim P none n s h k = h refl
option_elim P (some a) n s h k = k a refl

pub bool_elim {ℓ ℓ'} :
    {A : Type ℓ}
    → (P : A → Type ℓ') (b : Bool) (x y : A) → (b ≡ true → P x)
    → (b ≡ false → P y)
    → P (elim b [ true ↦ x | false ↦ y ])
bool_elim P true x y h k = h refl
bool_elim P false x y h k = k refl

-- A test that is passed over.
pub past {ℓ} :
    {A : Type ℓ} → (b : Bool) (x : A) {y v : A} → b ≡ false → y ≡ v → (if b then x else y) ≡ v
past true x h k = absurd (true≢false h)
past false x h k = k

pub taken {ℓ} :
    {A : Type ℓ} → (b : Bool) {x v : A} (y : A) → b ≡ true → x ≡ v → (if b then x else y) ≡ v
taken true y h k = k
taken false y h k = absurd (true≢false (sym h))
