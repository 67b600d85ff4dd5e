-- ===== src/Memory/PageMap/Order.antt =====
-- The ranges of a page stay in order, and the first device keeps its addresses.
use m68kemu.Base.{
  ℕ, ◌+◌, ◌≤◌, ◌<◌, ◌≡◌, ◌∙◌, refl, sym, ap, arith, Bool, true, false, not, ◌&&◌, Option, none,
  some, List, [], ◌∷◌, ◌++◌, ltb, leb, if◌then◌else◌, add32, if_elim, bool_elim,
}
use m68kemu.Memory.Bus.{or_else, is_some}
use m68kemu.Memory.PageMap.{
  PageRange, gap_before, remainder, uncovered, merge, add_page_range, find_page_mapped_device,
}
use m68kemu.Memory.PageMap.Laws.{is_in, covered, IsOrdered, uncovered_lem}
use m68kemu.Memory.PageMap.Search.{linear, find_page_mapped_device_lem}

IsOrdered-weaken :
    (low low' : ℕ) (rs : List PageRange) → low' ≤ low → IsOrdered low rs → IsOrdered low' rs
IsOrdered-weaken low low' [] h o = tt
IsOrdered-weaken low low' (r ∷ rs) h (p, q, w, o) = (omega arith, q, w, o)

-- No address is in a range of both lists.
abbrev AreDisjoint : List PageRange → List PageRange → Type 0
AreDisjoint xs ys = (a : ℕ) → (covered xs a && covered ys a) ≡ false

merge-IsOrdered :
    (low : ℕ) (xs ys : List PageRange)
    → IsOrdered low xs
    → IsOrdered low ys
    → AreDisjoint xs ys
    → IsOrdered low (merge xs ys)
unfolding merge
merge-IsOrdered low [] ys o o' d = o'
merge-IsOrdered low (i ∷ is) [] o o' d = o
merge-IsOrdered low (i ∷ is) (j ∷ js) (p, q, w, o) (p', q', w', o') d =
    bool_elim (IsOrdered low) (leb i.start j.start) _ _
      (λ b. (
        p,
        q,
        w,
        merge-IsOrdered (i.end + 1) is (j ∷ js) o (let k = d j.start in (ground arith, q', w', o'))
            (λ a. let k = d a in ground arith),
      ))
      (λ b. (
        p',
        q',
        w',
        merge-IsOrdered (j.end + 1) (i ∷ is) js (let k = d i.start in (ground arith, q, w, o)) o'
            (λ a. let k = d a in ground arith),
      ))

linear-uncovered : (xs : List PageRange) (a : ℕ) → covered xs a ≡ false → linear xs a ≡ none
linear-uncovered [] a h = refl
linear-uncovered (x ∷ xs) a h = let ih = linear-uncovered xs a in ground arith

linear-merge :
    (xs ys : List PageRange) (a : ℕ)
    → (covered xs a && covered ys a) ≡ false
    → linear (merge xs ys) a ≡ or_else (linear xs a) (linear ys a)
unfolding merge
linear-merge [] ys a d = refl
linear-merge (i ∷ is) [] a d = kept (linear (i ∷ is) a)
  where
    kept : (o : Option ℕ) → o ≡ or_else o none
    kept none = refl
    kept (some x) = refl
linear-merge (i ∷ is) (j ∷ js) a d =
    bool_elim (λ zs. linear zs a ≡ or_else (linear (i ∷ is) a) (linear (j ∷ js) a))
      (leb i.start j.start) _ _
      (λ b.
        let ih = linear-merge is (j ∷ js) a (ground arith) in
        first (is_in i a) (linear is a) (linear (j ∷ js) a) ih)
      (λ b.
        let ih = linear-merge (i ∷ is) js a (ground arith) in
        second (is_in j a) (linear (i ∷ is) a) (linear js a)
          (λ e. linear-uncovered (i ∷ is) a (ground arith)) ih)
  where
    first :
        (b : Bool) (u v : Option ℕ) {m : Option ℕ}
        → m ≡ or_else u v
        → (if b then some i.device else m) ≡ or_else (if b then some i.device else u) v
    first true u v h = refl
    first false u v h = h

    second :
        (b : Bool) (u v : Option ℕ) {m : Option ℕ}
        → (b ≡ true → u ≡ none)
        → m ≡ or_else u v
        → (if b then some j.device else m) ≡ or_else u (if b then some j.device else v)
    second true u v f h = rw (f refl) refl
    second false u v f h = h

-- The first range of a part that is left over, and what follows it.
gap_before-IsOrdered :
    (cursor end dev low : ℕ) (r : PageRange) (xs : List PageRange)
    → r.start < 0x100_0000
    → r.start ≤ end
    → cursor ≤ low
    → r.start ≤ low
    → IsOrdered low xs
    → IsOrdered cursor (gap_before cursor end dev r ++ xs)
unfolding gap_before
gap_before-IsOrdered cursor end dev low r xs w k h g o =
    if_elim (λ zs. IsOrdered cursor (zs ++ xs)) (ltb cursor r.start) _ _
      (λ b. (omega arith, ground arith, ground arith, IsOrdered-weaken low _ xs (ground arith) o))
      (λ b. IsOrdered-weaken low cursor xs h o)

remainder-IsOrdered :
    (cursor end dev : ℕ) → end < 0x100_0000 → IsOrdered cursor (remainder cursor end dev)
remainder-IsOrdered cursor end dev w =
    if_elim (IsOrdered cursor) (leb cursor end) _ _ (λ b. (omega arith, ground arith, w, tt))
      (λ b. tt)

no_remainder :
    (low end dev : ℕ) → end < 0x100_0000 → IsOrdered low (remainder (add32 end 1) end dev)
no_remainder low end dev w =
    if_elim (IsOrdered low) (leb (add32 end 1) end) _ _ (λ b. absurd (ground arith)) (λ b. tt)

uncovered-IsOrdered :
    (rs : List PageRange) (low cursor end dev : ℕ)
    → IsOrdered low rs
    → end < 0x100_0000
    → IsOrdered cursor (uncovered rs cursor end dev)
unfolding uncovered
uncovered-IsOrdered [] low cursor end dev o w = remainder-IsOrdered cursor end dev w
uncovered-IsOrdered (r ∷ rs) low cursor end dev (p, q, h, o) w =
    bool_elim (IsOrdered cursor) (ltb r.end cursor) _ _
      (λ b. uncovered-IsOrdered rs (r.end + 1) cursor end dev o w)
      (λ b.
        bool_elim (IsOrdered cursor) (ltb end r.start) _ _
          (λ c. remainder-IsOrdered cursor end dev w)
          (λ c.
            bool_elim (λ xs. IsOrdered cursor (gap_before cursor end dev r ++ xs)) (leb end r.end) _
              _
              (λ d.
                gap_before-IsOrdered cursor end dev (r.end + 1) r _ (omega arith) (ground arith)
                  (ground arith) (omega arith) (no_remainder (r.end + 1) end dev w))
              (λ d.
                gap_before-IsOrdered cursor end dev (add32 r.end 1) r _ (omega arith) (ground arith)
                  (ground arith) (omega arith)
                  (uncovered-IsOrdered rs (r.end + 1) (add32 r.end 1) end dev o w))))

-- All the ranges are of one device.
abbrev AreOf : ℕ → List PageRange → Type 0
AreOf dev [] = Unit {0}
AreOf dev (r ∷ rs) = (r.device ≡ dev) × AreOf dev rs

AreOf-append :
    (dev : ℕ) (xs ys : List PageRange) → AreOf dev xs → AreOf dev ys → AreOf dev (xs ++ ys)
AreOf-append dev [] ys h k = k
AreOf-append dev (x ∷ xs) ys (e, h) k = (e, AreOf-append dev xs ys h k)

gap_before-AreOf : (cursor end dev : ℕ) (r : PageRange) → AreOf dev (gap_before cursor end dev r)
unfolding gap_before
gap_before-AreOf cursor end dev r =
    if_elim (AreOf dev) (ltb cursor r.start) _ _ (λ b. (refl, tt)) (λ b. tt)

remainder-AreOf : (cursor end dev : ℕ) → AreOf dev (remainder cursor end dev)
remainder-AreOf cursor end dev =
    if_elim (AreOf dev) (leb cursor end) _ _ (λ b. (refl, tt)) (λ b. tt)

uncovered-AreOf :
    (rs : List PageRange) (cursor end dev : ℕ) → AreOf dev (uncovered rs cursor end dev)
unfolding uncovered
uncovered-AreOf [] cursor end dev = remainder-AreOf cursor end dev
uncovered-AreOf (r ∷ rs) cursor end dev =
    bool_elim (AreOf dev) (ltb r.end cursor) _ _ (λ b. uncovered-AreOf rs cursor end dev)
      (λ b.
        bool_elim (AreOf dev) (ltb end r.start) _ _ (λ c. remainder-AreOf cursor end dev)
          (λ c.
            AreOf-append dev (gap_before cursor end dev r) _ (gap_before-AreOf cursor end dev r) (
              bool_elim (AreOf dev) (leb end r.end) _ _ (λ d. remainder-AreOf (add32 end 1) end dev)
                (λ d. uncovered-AreOf rs (add32 r.end 1) end dev))))

linear-AreOf :
    (dev : ℕ) (xs : List PageRange) (a : ℕ)
    → AreOf dev xs
    → linear xs a ≡ (if covered xs a then some dev else none)
linear-AreOf dev [] a h = refl
linear-AreOf dev (x ∷ xs) a (e, h) = let ih = linear-AreOf dev xs a h in ground arith

uncovered-AreDisjoint :
    (rs : List PageRange) (low cursor end dev : ℕ)
    → IsOrdered low rs
    → end < 0x100_0000
    → AreDisjoint rs (uncovered rs cursor end dev)
uncovered-AreDisjoint rs low cursor end dev o w a =
    let h = uncovered_lem rs low cursor end dev a o w in ground arith

-- addPageRange keeps the ranges of a page in order, without an overlap and inside the 24 bits of
-- an address, if they were and the new range is below 2^24 and does not start below them.
pub add_page_range-IsOrdered :
    (existing : List PageRange) (low start end dev : ℕ)
    → IsOrdered low existing
    → low ≤ start
    → end < 0x100_0000
    → IsOrdered low (add_page_range existing start end dev)
unfolding add_page_range
add_page_range-IsOrdered existing low start end dev o h w =
    if_elim (IsOrdered low) (ltb end start) _ _ (λ b. o)
      (λ b.
        merge-IsOrdered low existing (uncovered existing start end dev) o
          (IsOrdered-weaken start low _ h (uncovered-IsOrdered existing low start end dev o w))
          (uncovered-AreDisjoint existing low start end dev o w))

is_some-linear : (xs : List PageRange) (a : ℕ) → covered xs a ≡ is_some (linear xs a)
is_some-linear [] a = refl
is_some-linear (x ∷ xs) a = let ih = is_some-linear xs a in ground arith

masked :
    (o : Option ℕ) (b : Bool) (d : ℕ)
    → or_else o (if b && not (is_some o) then some d else none)
      ≡ or_else o (if b then some d else none)
masked none true d = refl
masked none false d = refl
masked (some x) b d = refl

linear-add :
    (existing : List PageRange) (low start end dev a : ℕ)
    → IsOrdered low existing
    → end < 0x100_0000
    → linear (add_page_range existing start end dev) a
      ≡ or_else (linear existing a) (if leb start a && leb a end then some dev else none)
unfolding add_page_range
linear-add existing low start end dev a o w =
    let new = uncovered existing start end dev in
    let d = uncovered-AreDisjoint existing low start end dev o w a in
    let f = linear-AreOf dev new a (uncovered-AreOf existing start end dev) in
    let g = uncovered_lem existing low start end dev a o w in
    let n = is_some-linear existing a in
    if_elim
      (λ rs.
        linear rs a
        ≡ or_else (linear existing a) (if leb start a && leb a end then some dev else none))
      (ltb end start) _ _ (λ b. kept (linear existing a) _ (ground arith))
      (λ b.
        linear-merge existing new a d
        ∙ ap (or_else (linear existing a)) (f ∙ ap (λ c. if c then some dev else none) g)
        ∙ ap
            (λ k.
              or_else (linear existing a)
                (if (leb start a && leb a end) && not k then some dev else none))
            n
        ∙ masked (linear existing a) (leb start a && leb a end) dev)
  where
    kept : (o m : Option ℕ) → m ≡ none → o ≡ or_else o m
    kept none m e = sym e
    kept (some x) m e = refl

-- After a range below 2^24 is added to a page whose ranges are in order, the lookup finds for an
-- address the device that it found before, and the new device for an address of the new range
-- that had none; the new range does not start below the bound from which the page is in order.
pub find-add_page_range :
    (existing : List PageRange) (low start end dev a : ℕ)
    → IsOrdered low existing
    → low ≤ start
    → end < 0x100_0000
    → find_page_mapped_device (add_page_range existing start end dev) a
      ≡ or_else
          (find_page_mapped_device existing a)
          (if leb start a && leb a end then some dev else none)
find-add_page_range existing low start end dev a o h w =
    find_page_mapped_device_lem (add_page_range existing start end dev) low a
      (add_page_range-IsOrdered existing low start end dev o h w)
    ∙ linear-add existing low start end dev a o w
    ∙ ap (λ x. or_else x (if leb start a && leb a end then some dev else none))
        (sym (find_page_mapped_device_lem existing low a o))
