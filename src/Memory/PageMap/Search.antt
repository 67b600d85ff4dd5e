-- ===== src/Memory/PageMap/Search.antt =====
-- The binary search over the ranges of a page.
use mathlib.Core.Path.{subst}
use mathlib.Core.Option.{some-injective, some-ne-none}
use m68kemu.Base.{
  ℕ, zero, suc, ◌+◌, ◌-◌, ◌/◌, ◌≤◌, ◌<◌, ◌≡◌, ◌∙◌, refl, sym, ap, arith, Option, none, some, List,
  [], ◌∷◌, ◌++◌, ltb, if◌then◌else◌, length, bool_elim, option_elim,
}
use m68kemu.Memory.PageMap.{PageRange, range_at, search_ranges, find_page_mapped_device}
use m68kemu.Memory.PageMap.Laws.{is_in, IsOrdered}

-- The device of the first range that has an address.
abbrev pub linear : List PageRange → ℕ → Option ℕ
linear [] a = none
linear (r ∷ rs) a = if is_in r a then some r.device else linear rs a

linear-below :
    (low : ℕ) (rs : List PageRange) (a : ℕ) → IsOrdered low rs → a < low → linear rs a ≡ none
linear-below low [] a o h = refl
linear-below low (r ∷ rs) a (p, q, w, o) h =
    let ih = linear-below (r.end + 1) rs a o (omega arith) in ground arith

-- A range in an ordered list starts at the lower bound of the list or later.
start-low :
    (low : ℕ) (xs : List PageRange) (r : PageRange) (ys : List PageRange)
    → IsOrdered low (xs ++ r ∷ ys)
    → low ≤ r.start
start-low low [] r ys (p, q, w, o) = p
start-low low (x ∷ xs) r ys (p, q, w, o) = let ih = start-low (x.end + 1) xs r ys o in omega arith

module _ (r : PageRange) (ys : List PageRange) (a : ℕ) where
  linear-before :
      (low : ℕ) (xs : List PageRange)
      → IsOrdered low (xs ++ r ∷ ys)
      → a < r.start
      → linear (xs ++ r ∷ ys) a ≡ linear xs a
  linear-before low [] (p, q, w, o) h =
      let n = linear-below (r.end + 1) ys a o (omega arith) in ground arith
  linear-before low (x ∷ xs) (p, q, w, o) h =
      let ih = linear-before (x.end + 1) xs o h in λ i. if is_in x a then some x.device else ih i

  linear-after :
      (low : ℕ) (xs : List PageRange)
      → IsOrdered low (xs ++ r ∷ ys)
      → r.end < a
      → linear (xs ++ r ∷ ys) a ≡ linear ys a
  linear-after low [] (p, q, w, o) h = ground arith
  linear-after low (x ∷ xs) (p, q, w, o) h =
      let ih = linear-after (x.end + 1) xs o h in
      let s = start-low (x.end + 1) xs r ys o in let t = end-start (x.end + 1) xs o in ground arith
    where
      end-start : (low : ℕ) (xs : List PageRange) → IsOrdered low (xs ++ r ∷ ys) → r.start ≤ r.end
      end-start low [] (p, q, w, o) = q
      end-start low (x ∷ xs) (p, q, w, o) = end-start (x.end + 1) xs o

  linear-at :
      (low : ℕ) (xs : List PageRange)
      → IsOrdered low (xs ++ r ∷ ys)
      → r.start ≤ a
      → a ≤ r.end
      → linear (xs ++ r ∷ ys) a ≡ some r.device
  linear-at low [] o h k = ground arith
  linear-at low (x ∷ xs) (p, q, w, o) h k =
      let ih = linear-at (x.end + 1) xs o h k in
      let s = start-low (x.end + 1) xs r ys o in ground arith

IsOrdered-left : (low : ℕ) (xs ys : List PageRange) → IsOrdered low (xs ++ ys) → IsOrdered low xs
IsOrdered-left low [] ys o = tt
IsOrdered-left low (x ∷ xs) ys (p, q, w, o) = (p, q, w, IsOrdered-left (x.end + 1) xs ys o)

IsOrdered-right :
    (low : ℕ) (xs : List PageRange) (r : PageRange) (ys : List PageRange)
    → IsOrdered low (xs ++ r ∷ ys)
    → IsOrdered (r.end + 1) ys
IsOrdered-right low [] r ys (p, q, w, o) = o
IsOrdered-right low (x ∷ xs) r ys (p, q, w, o) = IsOrdered-right (x.end + 1) xs r ys o

range_at-append :
    (pre zs : List PageRange) (k : ℕ) → range_at (pre ++ zs) (length pre + k) ≡ range_at zs k
range_at-append [] zs k = ap (range_at zs) (omega arith)
range_at-append (p ∷ pre) zs k =
    ap (range_at (p ∷ pre ++ zs)) {y = suc (length pre + k)} (omega arith)
    ∙ range_at-append pre zs k

range_at-some :
    (ms post : List PageRange) (k : ℕ) → k < length ms → ¬ (range_at (ms ++ post) k ≡ none)
range_at-some [] post k h e = absurd (omega arith)
range_at-some (m ∷ ms) post zero h e = some-ne-none m e
range_at-some (m ∷ ms) post (suc k) h e = range_at-some ms post k (omega arith) e

-- A list around its range with index k.
split_at :
    (ms post : List PageRange) (k : ℕ) (r : PageRange)
    → k < length ms
    → range_at (ms ++ post) k ≡ some r
    → (xs : List PageRange) × (ys : List PageRange) × (ms ≡ xs ++ r ∷ ys) × (length xs ≡ k)
split_at [] post k r h e = absurd (omega arith)
split_at (m ∷ ms) post zero r h e = ([], ms, ap (λ x. x ∷ ms) (some-injective m r e), refl)
split_at (m ∷ ms) post (suc k) r h e =
    let (xs, ys, q, l) = split_at ms post k r (omega arith) e in
    (m ∷ xs, ys, ap (λ zs. m ∷ zs) q, ap suc l)

append_assoc : (xs ys zs : List PageRange) → (xs ++ ys) ++ zs ≡ xs ++ (ys ++ zs)
append_assoc [] ys zs = refl
append_assoc (x ∷ xs) ys zs = ap (λ ws. x ∷ ws) (append_assoc xs ys zs)

length-append : (xs ys : List PageRange) → length (xs ++ ys) ≡ length xs + length ys
length-append [] ys = omega arith
length-append (x ∷ xs) ys = let ih = length-append xs ys in omega arith

moved_over :
    (pre xs : List PageRange) (r : PageRange) (zs : List PageRange)
    → pre ++ (xs ++ r ∷ zs) ≡ (pre ++ (xs ++ r ∷ [])) ++ zs
moved_over pre xs r zs =
    sym (append_assoc pre (xs ++ r ∷ []) zs ∙ ap (λ z. pre ++ z) (append_assoc xs (r ∷ []) zs))

-- The part `ms` of the ranges, from lo to hi, is searched, with the fuel above its length.
search-linear :
    (fuel : ℕ) (ranges pre ms post : List PageRange) (a low lo hi : ℕ)
    → ranges ≡ pre ++ (ms ++ post)
    → lo ≡ length pre
    → hi ≡ lo + length ms
    → length ms < fuel
    → IsOrdered low ms
    → search_ranges fuel ranges a lo hi ≡ linear ms a
unfolding search_ranges
search-linear zero ranges pre ms post a low lo hi e l h f o = absurd (omega arith)
search-linear (suc fuel) ranges pre ms post a low lo hi e l h f o =
    bool_elim (λ d. d ≡ linear ms a) (ltb lo hi) _ _
      (λ t.
        option_elim (λ d. d ≡ linear ms a) (range_at ranges (lo + (hi - lo) / 2)) _ _
          (λ n. absurd (
            range_at-some ms post ((hi - lo) / 2) (ground arith)
              (sym (at_mid ((hi - lo) / 2)) ∙ n)))
          (λ r s.
            let k = (hi - lo) / 2 in
            let (xs, ys, q, n) = split_at ms post k r (ground arith) (sym (at_mid k) ∙ s) in
            let d = subst (IsOrdered low) q o in
            let len = ap length q ∙ length-append xs (r ∷ ys) in
            let whole =
              e
              ∙ ap (λ z. pre ++ (z ++ post)) q
              ∙ ap (λ z. pre ++ z) (append_assoc xs (r ∷ ys) post) in
            bool_elim (λ v. v ≡ linear ms a) (ltb a r.start) _ _
              (λ b.
                search-linear fuel ranges pre xs (r ∷ ys ++ post) a low lo (lo + k) whole l
                  (ground arith) (ground arith) (IsOrdered-left low xs (r ∷ ys) d)
                ∙ sym (ap (λ z. linear z a) q ∙ linear-before r ys a low xs d (ground arith)))
              (λ b.
                bool_elim (λ v. v ≡ linear ms a) (ltb r.end a) _ _
                  (λ c.
                    search-linear fuel ranges (pre ++ (xs ++ r ∷ [])) ys post a (r.end + 1)
                      (lo + k + 1) hi (whole ∙ moved_over pre xs r (ys ++ post)) (over xs r n)
                      (ground arith) (ground arith) (IsOrdered-right low xs r ys d)
                    ∙ sym (ap (λ z. linear z a) q ∙ linear-after r ys a low xs d (ground arith)))
                  (λ c. sym (
                    ap (λ z. linear z a) q
                    ∙ linear-at r ys a low xs d (ground arith) (ground arith))))))
      (λ t. sym (linear-empty ms (ground arith)))
  where
    over :
        (xs : List PageRange) (r : PageRange)
        → length xs ≡ (hi - lo) / 2
        → lo + (hi - lo) / 2 + 1 ≡ length (pre ++ (xs ++ r ∷ []))
    over xs r n =
        let u = length-append pre (xs ++ r ∷ []) in let v = length-append xs (r ∷ []) in omega arith

    linear-empty : (zs : List PageRange) → length zs ≡ 0 → linear zs a ≡ none
    linear-empty [] z = refl
    linear-empty (z ∷ zs) n = absurd (omega arith)

    at_mid : (k : ℕ) → range_at ranges (lo + k) ≡ range_at (ms ++ post) k
    at_mid k = rw (e, l) (range_at-append pre (ms ++ post) k)

-- The binary search finds the device of the one range that has the address, or none where no
-- range has it, if the ranges of the page are in order.
pub find_page_mapped_device_lem :
    (rs : List PageRange) (low a : ℕ)
    → IsOrdered low rs
    → find_page_mapped_device rs a ≡ linear rs a
unfolding find_page_mapped_device
find_page_mapped_device_lem rs low a o =
    search-linear (length rs + 1) rs [] rs [] a low 0 (length rs) (sym (append-nil rs)) refl
      (omega arith) (omega arith) o
  where
    append-nil : (xs : List PageRange) → xs ++ [] ≡ xs
    append-nil [] = refl
    append-nil (x ∷ xs) = ap (λ zs. x ∷ zs) (append-nil xs)
