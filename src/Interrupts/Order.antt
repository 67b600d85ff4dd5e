-- ===== src/Interrupts/Order.antt =====
-- The requests in the order in which they came, and the one that the controller accepts.
use mathlib.Core.Path.{subst}
use m68kemu.Base.{
  ℕ, zero, suc, ◌+◌, ◌/◌, ◌%◌, ◌≤◌, ◌<◌, ◌≡◌, ◌∙◌, refl, sym, ap, arith, true, false, Option, none,
  some, List, [], ◌∷◌, ◌++◌, ◌==◌, ltb, if◌then◌else◌, u8, and_mask, if_elim, taken, past,
  Bool-cases, inl, inr,
}
use m68kemu.Base.Fields.{and_high}
use m68kemu.Interrupts.{
  PendingInterrupt, InterruptController, Accepted, request, pending, reset, enqueue, take_first,
  highest, is_nil, interrupt_level, new_interrupt_controller,
}
use m68kemu.Interrupts.Laws.{
  IsCached, IsReachable, start, requested, accepted_at, cleared, IsReachable-IsCached, accepted,
  pending-accepted, highest-le, highest-nonempty,
}

-- The requests that wait, the oldest first, with their levels.
abbrev pub Arrivals : Type 0
Arrivals = List (ℕ × PendingInterrupt)

-- Those on a level.
abbrev pub at_level : ℕ → Arrivals → List PendingInterrupt
at_level l [] = []
at_level l ((k, p) ∷ log) = if k == l then p ∷ at_level l log else at_level l log

-- Without the oldest on a level.
abbrev pub without : ℕ → Arrivals → Arrivals
without l [] = []
without l ((k, p) ∷ log) = if k == l then log else (k, p) ∷ without l log

-- What a device asks for; the autovector of level n is 24 + n.
abbrev pub asked_for : ℕ → Option ℕ → PendingInterrupt
asked_for level none = record { vector = 24 + level; auto_vector = true }
asked_for level (some v) = record { vector = v; auto_vector = false }

-- The controllers that are reached, with the requests that wait. A request on level 0 is none.
pub data IsLogged : Arrivals → InterruptController → Type 0 where
  fresh : IsLogged [] new_interrupt_controller
  asked :
      {log : Arrivals} {ic ic' : InterruptController}
      → IsLogged log ic
      → (level : ℕ) (vector : Option ℕ) → request level vector ic ≡ some ic'
      → IsLogged (if level == 0 then log else log ++ (level, asked_for level vector) ∷ []) ic'
  served :
      {log : Arrivals} {ic : InterruptController} {acc : Accepted}
      → IsLogged log ic
      → (sr : ℕ) → pending sr ic ≡ some acc
      → IsLogged (without acc.level log) acc.rest
  emptied : {log : Arrivals} {ic : InterruptController} → IsLogged log ic → IsLogged [] (reset ic)

IsLogged-IsReachable :
    {log : Arrivals} {ic : InterruptController} → IsLogged log ic → IsReachable ic
IsLogged-IsReachable fresh = start
IsLogged-IsReachable (asked l level vector e) = requested (IsLogged-IsReachable l) level vector e
IsLogged-IsReachable (served l sr e) = accepted_at (IsLogged-IsReachable l) sr e
IsLogged-IsReachable (emptied l) = cleared (IsLogged-IsReachable l)

-- The queues are the requests that wait, by level.
abbrev Holds : Arrivals → InterruptController → Type 0
Holds log ic = (l : ℕ) → ic.requests l ≡ at_level l log

at_level-append :
    (l k : ℕ) (p : PendingInterrupt) (log : Arrivals)
    → at_level l (log ++ (k, p) ∷ [])
      ≡ (if k == l then at_level l log ++ p ∷ [] else at_level l log)
at_level-append l k p [] = ground arith
at_level-append l k p ((j, q) ∷ log) = let ih = at_level-append l k p log in ground arith

-- The request that is served under a mask: the oldest of the highest level that has one, if that
-- is above the mask; it waits no longer, and the others do.
pub data IsServed (mask : ℕ) (log : Arrivals) : Option Accepted → Type 0 where
  nothing : ((l : ℕ) → mask < l → l ≤ 7 → at_level l log ≡ []) → IsServed mask log none
  oldest :
      (acc : Accepted) (younger : List PendingInterrupt)
      → mask < acc.level
      → acc.level ≤ 7
      → at_level acc.level log ≡ acc.interrupt ∷ younger
      → ((l : ℕ) → acc.level < l → l ≤ 7 → at_level l log ≡ [])
      → ((l : ℕ) → acc.rest.requests l ≡ at_level l (without acc.level log))
      → IsServed mask log (some acc)

at_level-without :
    (l k : ℕ) (p : PendingInterrupt) (queue : List PendingInterrupt) (log : Arrivals)
    → at_level k log ≡ p ∷ queue
    → at_level l (without k log) ≡ (if k == l then queue else at_level l log)
at_level-without l k p queue [] e = absurd (grind arith)
at_level-without l k p queue ((j, q) ∷ log) e =
    let ih = at_level-without l k p queue log in grind arith

nil_of : (xs : List PendingInterrupt) → is_nil xs ≡ true → xs ≡ []
nil_of [] e = refl
nil_of (x ∷ xs) e = absurd (ground arith)

above_highest :
    (n l : ℕ) (requests : ℕ → List PendingInterrupt)
    → highest n requests < l
    → l ≤ n
    → requests l ≡ []
unfolding highest
above_highest zero l requests h k = absurd (omega arith)
above_highest (suc n) l requests h k =
    let ih = above_highest n l requests in
    let e = nil_of (requests (suc n)) in
    elim (Bool-cases (is_nil (requests (suc n)))) [
      | inl b ↦ elim (Bool-cases (l == suc n)) [ inl c ↦ grind arith | inr c ↦ ground arith ]
      | inr b ↦ absurd (ground arith)
    ]

mask_of : (sr : ℕ) → interrupt_level sr ≡ sr / 256 % 8
mask_of sr = let h = and_high 8 sr 7 in let m = and_mask 3 (sr / 256) in omega arith

module _ (mask : ℕ) (log : Arrivals) (ic : InterruptController) (holds : Holds log ic) where
  first-IsServed :
      (h : ℕ) (queue : List PendingInterrupt)
      → h ≡ highest 7 ic.requests
      → mask < h
      → ic.requests h ≡ queue
      → is_nil queue ≡ false
      → IsServed mask log (take_first h queue ic)
  unfolding take_first
  first-IsServed h [] t m e n = absurd (ground arith)
  first-IsServed h (p ∷ queue) t m e n =
      let first = sym (holds h) ∙ e in
      oldest _ queue m (rw t (highest-le 7 ic.requests)) first
        (λ l a b. sym (holds l) ∙ above_highest 7 l ic.requests (omega (arith, t)) b)
        (λ l.
          ap (λ x. if h == l then queue else x) (holds l)
          ∙ sym (at_level-without l h p queue log first))

  accepted-IsServed : IsServed mask log (accepted (highest 7 ic.requests) mask ic)
  unfolding accepted
  accepted-IsServed =
      let h = highest 7 ic.requests in
      if_elim (IsServed mask log) (ltb mask h) _ _
        (λ b.
          first-IsServed h (ic.requests h) refl (ground arith) refl
            (highest-nonempty 7 ic.requests (ground arith)))
        (λ b. nothing (λ l m k. sym (holds l) ∙ above_highest 7 l ic.requests (ground arith) k))

pending-IsServed :
    (sr : ℕ) (log : Arrivals) (ic : InterruptController)
    → Holds log ic
    → IsCached ic
    → IsServed (sr / 256 % 8) log (pending sr ic)
pending-IsServed sr log ic holds cached =
    subst (λ m. IsServed m log (pending sr ic)) (mask_of sr)
      (subst (IsServed (interrupt_level sr) log) (sym (pending-accepted sr ic cached))
        (accepted-IsServed (interrupt_level sr) log ic holds))

-- A controller that is there holds the requests.
unfoldable HoldsIf : Arrivals → Option InterruptController → Type 0
HoldsIf log none = Unit {0}
HoldsIf log (some ic) = Holds log ic

module _ (log : Arrivals) (ic : InterruptController) (holds : Holds log ic) where
  enqueue-Holds :
      (level : ℕ) (p : PendingInterrupt) → Holds (log ++ (level, p) ∷ []) (enqueue level p ic)
  enqueue-Holds level p l =
      let a = at_level-append l level p log in
      let here = holds l in let there = holds level in grind arith

  request-HoldsIf :
      (level : ℕ) (vector : Option ℕ)
      → HoldsIf
          (if level == 0 then log else log ++ (level, asked_for level vector) ∷ [])
          (request level vector ic)
  unfolding request HoldsIf
  request-HoldsIf level vector =
      let waits = if level == 0 then log else log ++ (level, asked_for level vector) ∷ [] in
      if_elim (HoldsIf waits) (ltb 7 level) _ _ (λ b. tt)
        (λ b.
          if_elim (HoldsIf waits) (level == 0) _ _
            (λ c l. holds l ∙ ap (at_level l) (sym (taken (level == 0) _ c refl)))
            (λ c.
              subst (λ waits. HoldsIf waits (queued vector)) (sym (past (level == 0) _ c refl))
                (queued-Holds vector (ground arith))))
    where
      queued : Option ℕ → Option InterruptController
      queued v = elim v [
        | none ↦ some (enqueue level (record { vector = u8 (24 + level); auto_vector = true }) ic)
        | some n ↦ some (enqueue level (record { vector = n; auto_vector = false }) ic)
      ]

      queued-Holds :
          (v : Option ℕ) → level ≤ 7 → HoldsIf (log ++ (level, asked_for level v) ∷ []) (queued v)
      queued-Holds none k =
          let e : u8 (24 + level) ≡ 24 + level = omega arith in
          subst
            (λ n.
              Holds (log ++ (level, asked_for level none) ∷ [])
                (enqueue level (record { vector = n; auto_vector = true }) ic))
            (sym e) (enqueue-Holds level (asked_for level none))
      queued-Holds (some n) k = enqueue-Holds level (asked_for level (some n))

-- What a served request leaves.
unfoldable RestHolds : Arrivals → Option Accepted → Type 0
RestHolds log none = Unit {0}
RestHolds log (some acc) = Holds (without acc.level log) acc.rest

IsServed-RestHolds :
    (mask : ℕ) (log : Arrivals) (o : Option Accepted) → IsServed mask log o → RestHolds log o
unfolding RestHolds
IsServed-RestHolds mask log none (nothing n) = tt
IsServed-RestHolds mask log (some _) (oldest acc younger m k e n w) = w

IsLogged-Holds : (log : Arrivals) (ic : InterruptController) → IsLogged log ic → Holds log ic
unfolding new_interrupt_controller reset HoldsIf RestHolds
IsLogged-Holds log ic fresh = λ l. refl
IsLogged-Holds log ic (asked {log = before} {ic = old} r level vector e) =
    subst (HoldsIf _) e (request-HoldsIf before old (IsLogged-Holds before old r) level vector)
IsLogged-Holds log ic (served {log = before} {ic = old} {acc = acc} r sr e) =
    subst (RestHolds before) e (
      IsServed-RestHolds (sr / 256 % 8) before (pending sr old) (
        pending-IsServed sr before old (IsLogged-Holds before old r)
          (IsReachable-IsCached old (IsLogged-IsReachable r))))
IsLogged-Holds log ic (emptied r) = λ l. refl

-- In every controller that requests, acceptances and resets reach, the request that is accepted is
-- the one that came first among the waiting ones of the highest level that has any, if this level
-- is above the mask in bits 8 to 10 of the status register; it waits no longer, and the others do,
-- in their order. If there is none, no level above the mask has a request.
pub pending_lem :
    (sr : ℕ) (log : Arrivals) (ic : InterruptController)
    → IsLogged log ic
    → IsServed (sr / 256 % 8) log (pending sr ic)
pending_lem sr log ic r =
    pending-IsServed sr log ic (IsLogged-Holds log ic r)
      (IsReachable-IsCached ic (IsLogged-IsReachable r))
