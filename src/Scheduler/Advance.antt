-- ===== src/Scheduler/Advance.antt =====
-- Advance calls the callbacks that are due, in order and each at its time, moves the time to its
-- target, and tells the listeners every cycle.
use mathlib.Core.Path.{subst}
use m68kemu.Base.{
  refl, sym, ap, ◌∙◌, ℕ, zero, suc, ◌+◌, ◌/◌, ◌%◌, ◌≤◌, ◌<◌, ◌≡◌, arith, Option, none, some, List,
  [], ◌∷◌, ◌++◌, ◌==◌, ltb, leb, if◌then◌else◌, length, if_elim, bool_elim,
}
use m68kemu.Scheduler.{
  ScheduledEvent, CycleScheduler, advance_to, compact_events, is_empty, fire, drain, advance,
}
use m68kemu.Scheduler.Laws.{IsSorted}

-- The events after a time.
abbrev pub later : ℕ → List ScheduledEvent → List ScheduledEvent
later t [] = []
later t (e ∷ es) = if leb e.at t then later t es else e ∷ later t es

later-all : (t low : ℕ) (es : List ScheduledEvent) → IsSorted low es → t < low → later t es ≡ es
later-all t low [] s h = refl
later-all t low (e ∷ es) (p, s) h =
    let ih = later-all t e.at es s (omega arith) in
    if_elim (λ xs. xs ≡ e ∷ es) (leb e.at t) _ _ (λ b. absurd (ground arith))
      (λ b. ap (λ xs. e ∷ xs) ih)

abbrev max_of : ℕ → ℕ → ℕ
max_of a b = if ltb a b then b else a

-- The cycles that the listeners have heard of.
abbrev pub total : List (ℕ × ℕ) → ℕ
total [] = 0
total ((delta, now) ∷ calls) = delta + total calls

-- A callback that leaves the time, the events and the calls of the listeners alone.
abbrev pub IsQuiet : (ℕ → ℕ → CycleScheduler → CycleScheduler) → Type 0
IsQuiet run =
    (action now : ℕ) (s : CycleScheduler)
    → ((run action now s).now ≡ s.now)
      × ((run action now s).waiting ≡ s.waiting)
      × ((run action now s).heard ≡ s.heard)

-- What a callback does to the number of listeners, the one part of the scheduler that Advance
-- itself leaves alone: by the callback, the time that it is given, and the number.
abbrev pub HasEffect : (ℕ → ℕ → ℕ → ℕ) → (ℕ → ℕ → CycleScheduler → CycleScheduler) → Type 0
HasEffect effect run =
    (action now : ℕ) (s : CycleScheduler)
    → (run action now s).listeners ≡ effect action now s.listeners

-- The due callbacks one after the other, each at the time of its event, or now if that is over.
abbrev pub called_for : (ℕ → ℕ → ℕ → ℕ) → ℕ → ℕ → List ScheduledEvent → ℕ → ℕ
called_for effect now target [] n = n
called_for effect now target (e ∷ es) n =
    if leb e.at target
    then called_for effect (max_of now e.at) target es (effect e.action (max_of now e.at) n)
    else called_for effect now target es n

called_for-later :
    (effect : ℕ → ℕ → ℕ → ℕ) (now target low : ℕ) (es : List ScheduledEvent) (n : ℕ)
    → IsSorted low es
    → target < low
    → called_for effect now target es n ≡ n
called_for-later effect now target low [] n s h = refl
called_for-later effect now target low (e ∷ es) n (p, s) h =
    if_elim (λ x. x ≡ n) (leb e.at target) _ _ (λ b. absurd (ground arith))
      (λ b. called_for-later effect now target e.at es n s (omega arith))

-- From `s` to `d` the time has moved, up to the target, and the listeners have heard of that.
abbrev HasMoved : ℕ → CycleScheduler → CycleScheduler → Type 0
HasMoved target s d =
    (s.now ≤ d.now) × (d.now ≤ target) × (total d.heard + s.now ≡ total s.heard + d.now)

advance_to-HasMoved :
    (target t : ℕ) (s : CycleScheduler)
    → t ≤ target
    → s.now ≤ target
    → HasMoved target s (advance_to t s)
      × ((advance_to t s).waiting ≡ s.waiting)
      × (t ≤ (advance_to t s).now)
      × ((advance_to t s).listeners ≡ s.listeners)
unfolding advance_to
advance_to-HasMoved target t s h k =
    if_elim
      (λ d.
        HasMoved target s d × (d.waiting ≡ s.waiting) × (t ≤ d.now) × (d.listeners ≡ s.listeners))
      (leb t s.now) _ _ (λ b. ((omega arith, k, refl), refl, ground arith, refl))
      (λ b. ((ground arith, h, ground arith), refl, omega arith, refl))

-- The outcome of the loop: it is over, what is due has been called, and what is not is left.
data IsDrained (effect : ℕ → ℕ → ℕ → ℕ) (target : ℕ) (s : CycleScheduler) (es : List ScheduledEvent)
    : Option CycleScheduler → Type 0 where
  drained :
      (d : CycleScheduler)
      → d.waiting ≡ later target es
      → HasMoved target s d
      → d.listeners ≡ called_for effect s.now target es s.listeners
      → IsDrained effect target s es (some d)

-- Advance by a number of cycles has ended: the time is at the target, the events that are not
-- due are left, the listeners have heard of all the cycles, and the number of listeners is what the
-- callbacks of the due events make of it, in order and each at its time.
pub data IsAdvanced (effect : ℕ → ℕ → ℕ → ℕ) (delta : ℕ) (s : CycleScheduler)
    : Option CycleScheduler → Type 0 where
  advanced :
      (d : CycleScheduler)
      → d.now ≡ s.now + delta
      → d.waiting ≡ later (s.now + delta) s.waiting
      → total d.heard ≡ total s.heard + delta
      → d.listeners ≡ called_for effect s.now (s.now + delta) s.waiting s.listeners
      → IsAdvanced effect delta s (some d)

compact_events-same :
    (s : CycleScheduler)
    → ((compact_events s).now ≡ s.now)
      × ((compact_events s).waiting ≡ s.waiting)
      × ((compact_events s).heard ≡ s.heard)
      × ((compact_events s).listeners ≡ s.listeners)
unfolding compact_events
compact_events-same s =
    if_elim Same (is_empty s.fired) _ _ (λ b. (refl, refl, refl, refl))
      (λ b.
        if_elim Same (is_empty s.waiting) _ _ (λ c. (refl, refl, refl, refl))
          (λ c.
            if_elim Same (ltb (length s.fired) ((length s.fired + length s.waiting) / 2)) _ _
              (λ d. (refl, refl, refl, refl)) (λ d. (refl, refl, refl, refl))))
  where
    Same : CycleScheduler → Type 0
    Same d =
        (d.now ≡ s.now)
        × (d.waiting ≡ s.waiting)
        × (d.heard ≡ s.heard)
        × (d.listeners ≡ s.listeners)

-- What Advance does after its loop.
finish :
    (effect : ℕ → ℕ → ℕ → ℕ) (delta target : ℕ) (s : CycleScheduler)
    → target ≡ s.now + delta
    → (m : Option CycleScheduler) → IsDrained effect target s s.waiting m
    → IsAdvanced effect delta s (elim m [
      | none ↦ none
      | some d ↦ some (compact_events (if ltb d.now target then advance_to target d else d))
    ])
unfolding compact_events
finish effect delta target s z none i = elim i [ ]
finish effect delta target s z (some _) (drained d e (q, r, t) f) =
    let c = if ltb d.now target then advance_to target d else d in
    let (n, v, h, m) = compact_events-same c in
    let ((a, b, g), y, l, k) =
      if_elim
        (λ x.
          HasMoved target d x
          × (x.waiting ≡ d.waiting)
          × (target ≤ x.now)
          × (x.listeners ≡ d.listeners))
        (ltb d.now target) (advance_to target d) d
        (λ b. advance_to-HasMoved target target d (omega arith) r)
        (λ b. ((omega arith, r, refl), refl, ground arith, refl)) in
    advanced (compact_events c) (n ∙ omega arith) (v ∙ y ∙ e ∙ ap (λ t. later t s.waiting) z)
      (ap total h ∙ omega arith)
      (m ∙ k ∙ f ∙ ap (λ t. called_for effect s.now t s.waiting s.listeners) z)

module _ (run : ℕ → ℕ → CycleScheduler → CycleScheduler) (effect : ℕ → ℕ → ℕ → ℕ)
    (quiet : IsQuiet run) (acts : HasEffect effect run) where
  -- The first event has fired: its callback has been called, at its time.
  unfoldable HasFired :
      ℕ → ScheduledEvent → List ScheduledEvent → CycleScheduler → CycleScheduler → Type 0
  HasFired target e rest s f =
      HasMoved target s f
      × (f.waiting ≡ rest)
      × (f.now ≡ max_of s.now e.at)
      × (f.listeners ≡ effect e.action (max_of s.now e.at) s.listeners)

  fire-HasFired :
      (target : ℕ) (e : ScheduledEvent) (rest : List ScheduledEvent) (s : CycleScheduler)
      → e.at ≤ target
      → s.now ≤ target
      → HasFired target e rest s (fire run e rest s)
  unfolding fire HasFired advance_to
  fire-HasFired target e rest s h k =
      let moved = if ltb s.now e.at then advance_to e.at s else s in
      let taken = record moved { fired = moved.fired ++ e ∷ []; waiting = rest } in
      let (n, w, l) = quiet e.action taken.now taken in
      let (p, q, r) =
        if_elim (HasMoved target s) (ltb s.now e.at) (advance_to e.at s) s
          (λ b. (advance_to-HasMoved target e.at s h k).0) (λ b. (omega arith, k, refl)) in
      let (at, same) = moved_to e s in
      (
        (rw n p, rw n q, rw (n, l) r),
        w,
        n ∙ at,
        acts e.action taken.now taken ∙ (λ i. effect e.action (at i) (same i)),
      )
    where
      moved_to :
          (e : ScheduledEvent) (s : CycleScheduler)
          → (let moved = if ltb s.now e.at then advance_to e.at s else s in
              (moved.now ≡ max_of s.now e.at) × (moved.listeners ≡ s.listeners))
      moved_to e s = (ground arith, ground arith)

  after :
      (target : ℕ) (s f : CycleScheduler) (x : ScheduledEvent) (es : List ScheduledEvent)
      → x.at ≤ target
      → HasFired target x es s f
      → (o : Option CycleScheduler) → IsDrained effect target f es o
      → IsDrained effect target s (x ∷ es) o
  unfolding HasFired
  after target s f x es h fired none i = elim i [ ]
  after target s f x es h ((p, q, r), w, at, made) (some _) (drained d v (p', q', r') c) =
      drained d
        (v
          ∙ if_elim (λ zs. later target es ≡ zs) (leb x.at target) _ _ (λ b. refl)
              (λ b. absurd (ground arith)))
        (omega arith, q', omega arith)
        (c
          ∙ (λ i. called_for effect (at i) target es (made i))
          ∙ if_elim
              (λ n.
                called_for effect (max_of s.now x.at) target es
                  (effect x.action (max_of s.now x.at) s.listeners)
                ≡ n)
              (leb x.at target) _ _ (λ b. refl) (λ b. absurd (ground arith)))

  drain-IsDrained :
      (fuel target low : ℕ) (s : CycleScheduler) (es : List ScheduledEvent)
      → s.waiting ≡ es
      → IsSorted low es
      → s.now ≤ target
      → length es ≤ fuel
      → IsDrained effect target s es (drain run fuel target s es)
  unfolding drain HasFired
  drain-IsDrained fuel target low s [] e o h k = drained s e (omega arith, h, refl) refl
  drain-IsDrained zero target low s (x ∷ es) e o h k = absurd (omega arith)
  drain-IsDrained (suc fuel) target low s (x ∷ es) e (p, o) h k =
      bool_elim (IsDrained effect target s (x ∷ es)) (leb x.at target) _ _
        (λ b.
          let f = fire run x es s in
          let (m, w, at, made) = fire-HasFired target x es s (ground arith) h in
          subst (λ zs. IsDrained effect target s (x ∷ es) (drain run fuel target f zs)) (sym w)
            (after target s f x es (ground arith) (m, w, at, made) _
              (drain-IsDrained fuel target x.at f es w o m.1 (omega arith))))
        (λ b.
          drained s (e ∙ sym (later-all target x.at (x ∷ es) (omega arith, o) (ground arith)))
            (omega arith, h, refl)
            (sym (
              called_for-later effect s.now target x.at (x ∷ es) s.listeners (omega arith, o)
                (ground arith))))

  -- Advance by a number of cycles above 0 ends at the time that lies so far ahead. It has called
  -- the callbacks of the events that are due by then, and no others, in order, each once and with
  -- the time of its event, or the present one if that is over: an effect of the callbacks on the
  -- number of listeners, whatever it is, has been made by these calls. The events that are later
  -- are left, and every cycle has been told to the listeners. The callbacks leave the time, the
  -- events and the calls of the listeners alone, the events are in order, and the time does not
  -- wrap; a unit of fuel for each event is enough.
  pub advance_lem :
      (fuel delta low : ℕ) (s : CycleScheduler)
      → IsSorted low s.waiting
      → 0 < delta
      → s.now + delta < 0x1_0000_0000_0000_0000
      → length s.waiting ≤ fuel
      → IsAdvanced effect delta s (advance run fuel delta s)
  unfolding advance
  advance_lem fuel delta low s o p w k =
      if_elim (IsAdvanced effect delta s) (delta == 0) _ _ (λ b. absurd (ground arith))
        (λ b. finish effect delta ((s.now + delta) % 0x1_0000_0000_0000_0000) s (omega arith) _ (
          drain-IsDrained fuel ((s.now + delta) % 0x1_0000_0000_0000_0000) low s s.waiting refl o
            (omega arith) k))
