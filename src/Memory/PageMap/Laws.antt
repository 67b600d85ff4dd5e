-- ===== src/Memory/PageMap/Laws.antt =====
-- The ranges of a page cover what the devices claim, and the first device keeps its addresses.
use m68kemu.Base.{
  ℕ, ◌+◌, ◌≤◌, ◌<◌, ◌≡◌, ◌∙◌, refl, ap, arith, Bool, true, false, not, ◌&&◌, ◌||◌, List, [], ◌∷◌,
  ◌++◌, ltb, leb, if◌then◌else◌, add32,
}
use m68kemu.Memory.PageMap.{PageRange, gap_before, remainder, uncovered, merge, add_page_range}

abbrev pub is_in : PageRange → ℕ → Bool
is_in r a = leb r.start a && leb a r.end

-- Whether one of the ranges has an address.
abbrev pub covered : List PageRange → ℕ → Bool
covered [] a = false
covered (r ∷ rs) a = is_in r a || covered rs a

-- In order, without an overlap, from `low` on, and inside the 24 bits of an address.
abbrev pub IsOrdered : ℕ → List PageRange → Type 0
IsOrdered low [] = Unit {0}
IsOrdered low (r ∷ rs) =
    (low ≤ r.start) × (r.start ≤ r.end) × (r.end < 0x100_0000) × IsOrdered (r.end + 1) rs

covered-below :
    (low : ℕ) (rs : List PageRange) (a : ℕ) → IsOrdered low rs → a < low → covered rs a ≡ false
covered-below low [] a o h = refl
covered-below low (r ∷ rs) a (p, q, w, o) h =
    let ih = covered-below (r.end + 1) rs a o in ground arith

covered-append :
    (xs ys : List PageRange) (a : ℕ) → covered (xs ++ ys) a ≡ (covered xs a || covered ys a)
covered-append [] ys a = refl
covered-append (x ∷ xs) ys a = let ih = covered-append xs ys a in ground arith

covered-remainder :
    (cursor end dev a : ℕ) → covered (remainder cursor end dev) a ≡ (leb cursor a && leb a end)
covered-remainder cursor end dev a = ground arith

covered-gap :
    (cursor end dev a : ℕ) (r : PageRange)
    → r.start < 0x100_0000
    → r.start ≤ end
    → covered (gap_before cursor end dev r) a ≡ (leb cursor a && ltb a r.start)
unfolding gap_before
covered-gap cursor end dev a r w k = ground arith

module _ (r : PageRange) (rs : List PageRange) (cursor end dev : ℕ) where
  -- The body of the loop, by the three tests.
  unfoldable shape : Bool → Bool → Bool → List PageRange
  unfolding uncovered gap_before
  shape true before within = uncovered rs cursor end dev
  shape false true within = remainder cursor end dev
  shape false false true = gap_before cursor end dev r ++ remainder (add32 end 1) end dev
  shape false false false = gap_before cursor end dev r ++ uncovered rs (add32 r.end 1) end dev

  uncovered-shape :
      uncovered (r ∷ rs) cursor end dev ≡ shape (ltb r.end cursor) (ltb end r.start) (leb end r.end)
  unfolding uncovered shape
  uncovered-shape = split (ltb r.end cursor) (ltb end r.start) (leb end r.end)
    where
      split :
          (b c d : Bool)
          → (elim b [
            | true ↦ uncovered rs cursor end dev
            | false ↦ elim c [
              | true ↦ remainder cursor end dev
              | false ↦ gap_before cursor end dev r ++ elim d [
                | true ↦ remainder (add32 end 1) end dev
                | false ↦ uncovered rs (add32 r.end 1) end dev
              ]
            ]
          ])
            ≡ shape b c d
      split true c d = refl
      split false true d = refl
      split false false true = refl
      split false false false = refl

-- The claim for the first range, when it holds of what comes after.
abbrev Left : List PageRange → List PageRange → ℕ → ℕ → ℕ → Type 0
Left xs rs cursor end a = covered xs a ≡ ((leb cursor a && leb a end) && not (covered rs a))

shaped :
    (b c d : Bool) (r : PageRange) (rs : List PageRange) (cursor end dev a : ℕ)
    → ltb r.end cursor ≡ b
    → ltb end r.start ≡ c
    → leb end r.end ≡ d
    → r.start ≤ r.end
    → r.end < 0x100_0000
    → end < 0x100_0000
    → (a < r.end + 1 → covered rs a ≡ false)
    → (a ≤ r.start → covered rs a ≡ false)
    → Left (uncovered rs cursor end dev) rs cursor end a
    → Left (uncovered rs (add32 r.end 1) end dev) rs (add32 r.end 1) end a
    → Left (shape r rs cursor end dev b c d) (r ∷ rs) cursor end a
unfolding shape
shaped true c d r rs cursor end dev a e f g q h w b b' ih ih' = rw ih (ground arith)
shaped false true d r rs cursor end dev a e f g q h w b b' ih ih' = ground arith
shaped false false true r rs cursor end dev a e f g q h w b b' ih ih' =
    rw
      (
        covered-append (gap_before cursor end dev r) (remainder (add32 end 1) end dev) a,
        covered-gap cursor end dev a r (ground arith) (ground arith),
      )
      (ground arith)
shaped false false false r rs cursor end dev a e f g q h w b b' ih ih' =
    rw
      (
        covered-append (gap_before cursor end dev r) (uncovered rs (add32 r.end 1) end dev) a,
        covered-gap cursor end dev a r (ground arith) (ground arith),
        ih',
      )
      (ground arith)

-- What addPageRange adds for a new range: the addresses of the range that no range of the page
-- has, in a page whose ranges are in order.
pub uncovered_lem :
    (rs : List PageRange) (low cursor end dev a : ℕ)
    → IsOrdered low rs
    → end < 0x100_0000
    → covered (uncovered rs cursor end dev) a ≡ ((leb cursor a && leb a end) && not (covered rs a))
unfolding uncovered
uncovered_lem [] low cursor end dev a o w = ground arith
uncovered_lem (r ∷ rs) low cursor end dev a (p, q, h, o) w =
    let ih = uncovered_lem rs (r.end + 1) cursor end dev a o w in
    let ih' = uncovered_lem rs (r.end + 1) (add32 r.end 1) end dev a o w in
    let b = covered-below (r.end + 1) rs a o in
    ap (λ xs. covered xs a) (uncovered-shape r rs cursor end dev)
    ∙ shaped (ltb r.end cursor) (ltb end r.start) (leb end r.end) r rs cursor end dev a refl refl
        refl q h w b (λ k. b (omega arith)) ih ih'

picked :
    (b : Bool) (i j : PageRange) (xs ys : List PageRange) (u v : Bool) (a : ℕ)
    → covered xs a ≡ (u || (is_in j a || v))
    → covered ys a ≡ ((is_in i a || u) || v)
    → covered (elim b [ true ↦ i ∷ xs | false ↦ j ∷ ys ]) a ≡ ((is_in i a || u) || (is_in j a || v))
picked true i j xs ys u v a h k = rw h (ground arith)
picked false i j xs ys u v a h k = rw k (ground arith)

covered-merge :
    (xs ys : List PageRange) (a : ℕ) → covered (merge xs ys) a ≡ (covered xs a || covered ys a)
unfolding merge
covered-merge [] ys a = refl
covered-merge (i ∷ is) [] a = ground arith
covered-merge (i ∷ is) (j ∷ js) a =
    picked (leb i.start j.start) i j (merge is (j ∷ js)) (merge (i ∷ is) js) (covered is a)
      (covered js a) a (covered-merge is (j ∷ js) a) (covered-merge (i ∷ is) js a)

added :
    (b : Bool) (existing new : List PageRange) (start end a : ℕ)
    → ltb end start ≡ b
    → Left new existing start end a
    → covered (if b then existing else merge existing new) a
      ≡ (covered existing a || (leb start a && leb a end))
added true existing new start end a e h = ground arith
added false existing new start end a e h = covered-merge existing new a ∙ rw h (ground arith)

-- After a range is added to a page whose ranges are in order, the page has the addresses that it
-- had and those of the range, and no others.
pub add_page_range_lem :
    (existing : List PageRange) (low start end dev a : ℕ)
    → IsOrdered low existing
    → end < 0x100_0000
    → covered (add_page_range existing start end dev) a
      ≡ (covered existing a || (leb start a && leb a end))
unfolding add_page_range
add_page_range_lem existing low start end dev a o w =
    added (ltb end start) existing (uncovered existing start end dev) start end a refl
      (uncovered_lem existing low start end dev a o w)
