-- ===== src/Interrupts/Laws.antt =====
-- The controller's cached level.
use m68kemu.Interrupts.{
  take_first, enqueue, request, pending, reset, new_interrupt_controller, Accepted,
  PendingInterrupt, InterruptController, Accepted, is_nil, highest, take_first, scan, pending,
  has_pending, interrupt_level,
}
use mathlib.Core.Path.{subst}
use m68kemu.Base.{
  none, Option, some, ◌∙◌, ==_iff, sym, ◌++◌, update, ◌<◌, if◌then◌else◌, zero, ◌==◌, Bool,
  Bool-cases, inl, inr, ◌∷◌, [], some, none, refl, true, false, ◌≡◌, List, ℕ, zero, suc, ◌≤◌, ◌≡◌,
  arith, Option, none, List, ltb, if◌then◌else◌,
}

pub highest-le : (l : ℕ) (requests : ℕ → List PendingInterrupt) → highest l requests ≤ l
unfolding highest
highest-le zero requests = omega arith
highest-le (suc l) requests = let ih = highest-le l requests in ground arith

-- The first request of level h, if h is above the mask.
unfoldable pub accepted : ℕ → ℕ → InterruptController → Option Accepted
unfolding highest take_first
accepted h mask ic = if ltb mask h then take_first h (ic.requests h) ic else none

scan_lem :
    (l mask : ℕ) (ic : InterruptController)
    → scan l mask ic ≡ accepted (highest l ic.requests) mask ic
unfolding scan highest take_first accepted
scan_lem zero mask ic = ground arith
scan_lem (suc l) mask ic =
    let ih = scan_lem l mask ic in let le = highest-le l ic.requests in ground arith

-- The cached level is the highest one that has a request.
unfoldable pub IsCached : InterruptController → Type 0
unfolding highest
IsCached ic = ic.max_level ≡ highest 7 ic.requests

pub pending-accepted :
    (sr : ℕ) (ic : InterruptController)
    → IsCached ic
    → pending sr ic ≡ accepted (highest 7 ic.requests) (interrupt_level sr) ic
unfolding pending IsCached
pending-accepted sr ic cached = let s = scan_lem 7 (interrupt_level sr) ic in ground arith

abbrev pub is_some {ℓ} : {A : Type ℓ} → Option A → Bool
is_some none = false
is_some (some a) = true

pub highest-nonempty :
    (l : ℕ) (requests : ℕ → List PendingInterrupt)
    → ltb 0 (highest l requests) ≡ true
    → is_nil (requests (highest l requests)) ≡ false
unfolding highest
highest-nonempty zero requests h = ground arith
highest-nonempty (suc l) requests h =
    let ih = highest-nonempty l requests in
    elim (Bool-cases (is_nil (requests (suc l)))) [ inl e ↦ grind arith | inr e ↦ grind arith ]

take_first-is_some :
    (h : ℕ) (queue : List PendingInterrupt) (ic : InterruptController)
    → is_nil queue ≡ false
    → is_some (take_first h queue ic) ≡ true
unfolding take_first
take_first-is_some h [] ic e = ground arith
take_first-is_some h (p ∷ queue) ic e = refl

is_some-accepted :
    (h mask : ℕ) (ic : InterruptController)
    → (ltb 0 h ≡ true → is_nil (ic.requests h) ≡ false)
    → ltb mask h ≡ is_some (accepted h mask ic)
unfolding accepted take_first
is_some-accepted h mask ic e = elim (Bool-cases (ltb mask h)) [
  | inl l ↦ rw (l, take_first-is_some h (ic.requests h) ic (e (ground arith))) refl
  | inr l ↦ rw l refl
]

-- Under a right cache the quick test that comes before an interrupt is accepted tells whether one
-- is.
pub has_pending_lem :
    (sr : ℕ) (ic : InterruptController) → IsCached ic → has_pending sr ic ≡ is_some (pending sr ic)
unfolding has_pending IsCached take_first accepted
has_pending_lem sr ic cached =
    (λ i. ltb (interrupt_level sr) (cached i))
    ∙ is_some-accepted (highest 7 ic.requests) (interrupt_level sr) ic
        (highest-nonempty 7 ic.requests)
    ∙ (λ i. is_some (sym (pending-accepted sr ic cached) i))

update-highest-below :
    (l n : ℕ) (queue : List PendingInterrupt) (requests : ℕ → List PendingInterrupt)
    → l < n
    → highest l (update requests n queue) ≡ highest l requests
unfolding highest
update-highest-below zero n queue requests h = refl
update-highest-below (suc l) n queue requests h =
    let ih = update-highest-below l n queue requests in ground arith

nonempty : (xs : List PendingInterrupt) (x : PendingInterrupt) → is_nil (xs ++ x ∷ []) ≡ false
nonempty [] x = refl
nonempty (y ∷ xs) x = refl

highest-enqueue-top :
    (l : ℕ) (p : PendingInterrupt) (requests : ℕ → List PendingInterrupt)
    → highest (suc l) (update requests (suc l) (requests (suc l) ++ p ∷ []))
      ≡ (if ltb (highest (suc l) requests) (suc l) then suc l else highest (suc l) requests)
unfolding highest
highest-enqueue-top l p requests =
    let le = highest-le l requests in let ne = nonempty (requests (suc l)) p in ground arith

highest-enqueue :
    (l n : ℕ) (p : PendingInterrupt) (requests : ℕ → List PendingInterrupt)
    → n ≤ l
    → 0 < n
    → highest l (update requests n (requests n ++ p ∷ []))
      ≡ (if ltb (highest l requests) n then n else highest l requests)
unfolding highest
highest-enqueue zero n p requests h k = ground arith
highest-enqueue (suc l) n p requests h k =
    let ih = highest-enqueue l n p requests in
    let b = update-highest-below l n (requests n ++ p ∷ []) requests in
    let le = highest-le l requests in
    elim (Bool-cases (suc l == n)) [
      | inl e ↦ rw (sym ((==_iff (suc l) n).0 e)) (highest-enqueue-top l p requests)
      | inr e ↦ ground arith
    ]

enqueue-IsCached :
    (n : ℕ) (p : PendingInterrupt) (ic : InterruptController)
    → n ≤ 7
    → 0 < n
    → IsCached ic
    → IsCached (enqueue n p ic)
unfolding IsCached
enqueue-IsCached n p ic h k cached = rw (cached, highest-enqueue 7 n p ic.requests h k) refl

-- What the processor and the devices do with the controller.
pub data IsReachable : InterruptController → Type 0 where
  start : IsReachable new_interrupt_controller
  requested :
      {ic ic' : InterruptController}
      → IsReachable ic
      → (level : ℕ) (vector : Option ℕ) → request level vector ic ≡ some ic'
      → IsReachable ic'
  accepted_at :
      {ic : InterruptController} {acc : Accepted}
      → IsReachable ic
      → (sr : ℕ) → pending sr ic ≡ some acc
      → IsReachable (acc.rest)
  cleared : {ic : InterruptController} → IsReachable ic → IsReachable (reset ic)

-- The controller of a result, if there is one, has a right cache.
unfoldable IsCachedIf : Option InterruptController → Type 0
unfolding IsCached
IsCachedIf none = Unit {0}
IsCachedIf (some ic) = IsCached ic

request_cached :
    (level : ℕ) (vector : Option ℕ) (ic : InterruptController)
    → IsCached ic
    → IsCachedIf (request level vector ic)
unfolding IsCachedIf request
request_cached level none ic cached = elim (Bool-cases (ltb 7 level)) [
  | inl e ↦ rw e tt
  | inr e ↦ elim (Bool-cases (level == 0)) [
    | inl z ↦ rw (e, z) cached
    | inr z ↦ rw (e, z) (enqueue-IsCached level _ ic (ground arith) (ground arith) cached)
  ]
]
request_cached level (some v) ic cached = elim (Bool-cases (ltb 7 level)) [
  | inl e ↦ rw e tt
  | inr e ↦ elim (Bool-cases (level == 0)) [
    | inl z ↦ rw (e, z) cached
    | inr z ↦ rw (e, z) (enqueue-IsCached level _ ic (ground arith) (ground arith) cached)
  ]
]

request-IsCached :
    (level : ℕ) (vector : Option ℕ) (ic ic' : InterruptController)
    → IsCached ic
    → request level vector ic ≡ some ic'
    → IsCached ic'
unfolding IsCachedIf
request-IsCached level vector ic ic' cached e =
    subst (λ o. IsCachedIf o) e (request_cached level vector ic cached)

unfoldable IsRestCached : Option Accepted → Type 0
unfolding IsCached
IsRestCached none = Unit {0}
IsRestCached (some acc) = IsCached acc.rest

take_first_cached :
    (level : ℕ) (queue : List PendingInterrupt) (ic : InterruptController)
    → IsRestCached (take_first level queue ic)
unfolding IsRestCached take_first
take_first_cached level [] ic = tt
take_first_cached level (p ∷ queue) ic = refl

accepted_cached : (h mask : ℕ) (ic : InterruptController) → IsRestCached (accepted h mask ic)
unfolding IsRestCached accepted take_first
accepted_cached h mask ic = elim (Bool-cases (ltb mask h)) [
  | inl e ↦ rw e (take_first_cached h (ic.requests h) ic)
  | inr e ↦ rw e tt
]

-- In every controller that requests, acceptances and resets reach from the new one, the cached
-- level is the highest one that has a request.
pub IsReachable-IsCached : (ic : InterruptController) → IsReachable ic → IsCached ic
unfolding IsRestCached new_interrupt_controller highest reset
IsReachable-IsCached ic start = refl
IsReachable-IsCached ic (requested {ic = before} r level vector e) =
    request-IsCached level vector before ic (IsReachable-IsCached before r) e
IsReachable-IsCached ic (accepted_at {ic = before} {acc = acc} r sr e) =
    subst (λ o. IsRestCached o) e
      (subst (λ o. IsRestCached o)
        (sym (pending-accepted sr before (IsReachable-IsCached before r)))
        (accepted_cached (highest 7 before.requests) (interrupt_level sr) before))
IsReachable-IsCached ic (cleared r) = refl
