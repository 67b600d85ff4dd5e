-- ===== src/Cpu/History/Laws.antt =====
-- The ring keeps the latest entries, in order.
use native.Mathlib.Nat.{mod-eq_of_lt, mod-eq-sub-mod}
use m68kemu.Base.{
  ℕ, zero, suc, ◌+◌, ◌-◌, ◌%◌, ◌<◌, ◌≤◌, ◌≡◌, ◌≢◌, ◌∙◌, refl, sym, ap, arith, Bool, true, false,
  Bool-cases, inl, inr, List, [], ◌∷◌, ◌++◌, ltb, ◌==◌, if◌then◌else◌, length,
}
use m68kemu.Cpu.History.{Ring, write_slot, append, collect, start_of, entries, drop}

-- A remainder of a number below twice the modulus.
wrap : (x l : ℕ) → x < l + l → x % l ≡ (if ltb x l then x else x - l)
wrap x l h = elim (Bool-cases (ltb x l)) [
  | inl e ↦ rw e (mod-eq_of_lt (ground arith))
  | inr e ↦ rw e (mod-eq-sub-mod {n = x} {m = l} (ground arith) ∙ mod-eq_of_lt (ground arith))
]

nonzero : (n : ℕ) → 0 < n → (n == 0) ≡ false
nonzero n h = ground arith

small_rem : (k l : ℕ) → k < l → (0 + (0 + k)) % l ≡ k
small_rem k l h = ap (λ x. x % l) (omega arith) ∙ mod-eq_of_lt h

-- An index of an entry on the k-th place, in the ring whose oldest entry is after `next`.
around :
    (n l k : ℕ)
    → n < l
    → suc k < l
    → ((if ltb (n + 1) l then n + 1 else n + 1 - l) + (0 + k)) % l ≡ (n + (1 + k)) % l
around n l k h p =
    rw
      (
        wrap ((if ltb (n + 1) l then n + 1 else n + 1 - l) + (0 + k)) l (ground arith),
        wrap (n + (1 + k)) l (omega arith),
      )
      (ground arith)

later : (n l k : ℕ) → n < l → suc k < l → n ≢ (n + (1 + k)) % l
later n l k h p = rw (wrap (n + (1 + k)) l (omega arith)) (ground arith)

back :
    (n l m : ℕ)
    → n < l
    → l ≡ suc m
    → n ≡ ((if ltb (n + 1) l then n + 1 else n + 1 - l) + (0 + m)) % l
back n l m h e =
    rw (wrap ((if ltb (n + 1) l then n + 1 else n + 1 - l) + (0 + m)) l (ground arith))
      (ground arith)

module _ {ℓ} {A : Type ℓ} where
  -- The next index is inside; as long as the ring is not full it is the number of entries.
  abbrev pub IsRing : Ring A → Type 0
  IsRing r = (r.next < r.limit) × (r.count ≤ r.limit) × (r.count < r.limit → r.next ≡ r.count)

  -- The list after one more entry, of which at most `limit` are kept.
  abbrev pub pushed : ℕ → A → List A → List A
  pushed limit e xs = if ltb (length xs) limit then xs ++ e ∷ [] else drop 1 xs ++ e ∷ []

  collect-length : (n start i : ℕ) (r : Ring A) → length (collect n start i r) ≡ n
  unfolding collect
  collect-length zero start i r = refl
  collect-length (suc n) start i r = ap suc (collect-length n start (i + 1) r)

  -- One entry more is collected at the end.
  collect-last :
      (n start i : ℕ) (r : Ring A)
      → collect (suc n) start i r ≡ collect n start i r ++ r.slot ((start + (i + n)) % r.limit) ∷ []
  unfolding collect
  collect-last zero start i r = ap (λ k. r.slot ((start + k) % r.limit) ∷ []) (omega arith)
  collect-last (suc n) start i r =
      ap (λ xs. r.slot ((start + i) % r.limit) ∷ xs)
        (collect-last n start (i + 1) r
          ∙ ap (λ k. collect n start (i + 1) r ++ r.slot ((start + k) % r.limit) ∷ [])
              (omega arith))

  -- Runs of slots that agree one by one are collected alike.
  collect-agree :
      (n a i b j : ℕ) (r r' : Ring A)
      → ((k : ℕ) → k < n → r.slot ((a + (i + k)) % r.limit) ≡ r'.slot ((b + (j + k)) % r'.limit))
      → collect n a i r ≡ collect n b j r'
  unfolding collect
  collect-agree zero a i b j r r' h = refl
  collect-agree (suc n) a i b j r r' h =
      let head = start a i r ∙ h 0 (omega arith) ∙ sym (start b j r') in
      let tail =
        collect-agree n a (i + 1) b (j + 1) r r'
          (λ k p. shift a i k r ∙ h (suc k) (omega arith) ∙ sym (shift b j k r')) in
      λ t. head t ∷ tail t
    where
      shift :
          (c m k : ℕ) (q : Ring A)
          → q.slot ((c + (m + 1 + k)) % q.limit) ≡ q.slot ((c + (m + suc k)) % q.limit)
      shift c m k q = ap (λ x. q.slot ((c + x) % q.limit)) (omega arith)

      start : (c m : ℕ) (q : Ring A) → q.slot ((c + m) % q.limit) ≡ q.slot ((c + (m + 0)) % q.limit)
      start c m q = ap (λ x. q.slot ((c + x) % q.limit)) (omega arith)

  -- A slot other than the next is kept.
  kept : (f : ℕ → A) (i j : ℕ) (v : A) → i ≢ j → write_slot f i v j ≡ f j
  kept f i j v h = ground arith

  -- The ring after one more entry, with the remainder worked out.
  abbrev appended : A → Ring A → Ring A
  appended e r = record r {
    slot = write_slot r.slot r.next e;
    next = if ltb (r.next + 1) r.limit then r.next + 1 else r.next + 1 - r.limit;
    count = if ltb r.count r.limit then r.count + 1 else r.count;
  }

  append-appended : (e : A) (r : Ring A) → r.next < r.limit → append e r ≡ appended e r
  unfolding append
  append-appended e r h =
      rw (nonzero r.limit (omega arith), wrap (r.next + 1) r.limit (omega arith)) refl

  appended-IsRing : (e : A) (r : Ring A) → IsRing r → IsRing (appended e r)
  appended-IsRing e r (a, b, c) = (ground arith, ground arith, ground arith)

  -- The index of the oldest entry, in a ring that is not full and in one that is.
  start_of-partial : (r : Ring A) → IsRing r → r.count < r.limit → start_of r ≡ 0
  unfolding start_of
  start_of-partial r (a, b, c) h = let q = c h in ground arith

  start_of-full : (r : Ring A) → r.next < r.limit → r.count ≡ r.limit → start_of r ≡ r.next
  unfolding start_of
  start_of-full r a h = ground arith

  entries-collect : (r : Ring A) → r.next < r.limit → entries r ≡ collect r.count (start_of r) 0 r
  unfolding entries
  entries-collect r h = rw (nonzero r.limit (omega arith)) refl

  start_of-last : (e : A) (r : Ring A) → IsRing r → r.count < r.limit → start_of (appended e r) ≡ 0
  unfolding start_of
  start_of-last e r (a, b, c) h = let q = c h in ground arith

  hit : (f : ℕ → A) (i j : ℕ) (v : A) → i ≡ j → write_slot f i v j ≡ v
  hit f i j v h = ground arith

  count_more : (e : A) (r : Ring A) → r.count < r.limit → (appended e r).count ≡ suc r.count
  count_more e r h = ground arith

  partial_lem :
      (e : A) (r : Ring A)
      → IsRing r
      → r.count < r.limit
      → entries (appended e r) ≡ entries r ++ e ∷ []
  partial_lem e r (a, b, c) h =
      let r' = appended e r in
      let agree = collect-agree r.count 0 0 0 0 r' r (λ k p.
        kept r.slot r.next ((0 + (0 + k)) % r.limit) e
          (let s = small_rem k r.limit (omega arith) in let q = c h in omega arith)) in
      let last =
        hit r.slot r.next ((0 + (0 + r.count)) % r.limit) e
          (c h ∙ sym (small_rem r.count r.limit h)) in
      entries-collect r' (appended-IsRing e r (a, b, c)).0
      ∙ ap (λ n. collect n (start_of r') 0 r') (count_more e r h)
      ∙ ap (λ m. collect (suc r.count) m 0 r') (start_of-last e r (a, b, c) h)
      ∙ collect-last r.count 0 0 r'
      ∙ (λ t. agree t ++ last t ∷ [])
      ∙ ap (λ m. collect r.count m 0 r ++ e ∷ []) (sym (start_of-partial r (a, b, c) h))
      ∙ ap (λ xs. xs ++ e ∷ []) (sym (entries-collect r a))

  drop-collect : (n a i : ℕ) (r : Ring A) → drop 1 (collect (suc n) a i r) ≡ collect n a (i + 1) r
  unfolding collect
  drop-collect n a i r = refl

  count_kept : (e : A) (r : Ring A) → r.count ≡ r.limit → (appended e r).count ≡ r.limit
  count_kept e r h = ground arith

  -- n is the number of entries that stay.
  full_lem :
      (e : A) (r : Ring A) (n : ℕ)
      → IsRing r
      → r.count ≡ r.limit
      → r.limit ≡ suc n
      → entries (appended e r) ≡ drop 1 (entries r) ++ e ∷ []
  full_lem e r n (a, b, c) h l =
      let r' = appended e r in
      let inside = (appended-IsRing e r (a, b, c)).0 in
      let agree = collect-agree n r'.next 0 r.next 1 r' r (λ k p.
        ap (write_slot r.slot r.next e) (around r.next r.limit k a (omega arith))
        ∙ kept r.slot r.next ((r.next + (1 + k)) % r.limit) e
            (later r.next r.limit k a (omega arith))) in
      let last = hit r.slot r.next ((r'.next + (0 + n)) % r.limit) e (back r.next r.limit n a l) in
      entries-collect r' inside
      ∙ ap (λ m. collect m (start_of r') 0 r') (count_kept e r h ∙ l)
      ∙ ap (λ m. collect (suc n) m 0 r') (start_of-full r' inside (count_kept e r h))
      ∙ collect-last n r'.next 0 r'
      ∙ (λ t. agree t ++ last t ∷ [])
      ∙ ap (λ xs. xs ++ e ∷ [])
          (sym (drop-collect n r.next 0 r)
            ∙ ap (λ m. drop 1 (collect m r.next 0 r)) (sym (h ∙ l))
            ∙ ap (λ m. drop 1 (collect r.count m 0 r)) (sym (start_of-full r a h))
            ∙ ap (drop 1) (sym (entries-collect r a)))

  entries-length : (r : Ring A) → r.next < r.limit → length (entries r) ≡ r.count
  entries-length r a = ap length (entries-collect r a) ∙ collect-length r.count (start_of r) 0 r

  pushed_if :
      (limit : ℕ) (e : A) (xs : List A) (b : Bool)
      → ltb (length xs) limit ≡ b
      → pushed limit e xs ≡ (if b then xs ++ e ∷ [] else drop 1 xs ++ e ∷ [])
  pushed_if limit e xs b h = rw h refl

  entries-appended :
      (e : A) (r : Ring A) → IsRing r → entries (appended e r) ≡ pushed r.limit e (entries r)
  entries-appended e r (a, b, c) =
      let l = ap (λ n. ltb n r.limit) (entries-length r a) in
      elim (Bool-cases (ltb r.count r.limit)) [
        | inl h ↦
            partial_lem e r (a, b, c) (ground arith)
            ∙ sym (pushed_if r.limit e (entries r) true (l ∙ h))
        | inr h ↦
            full_lem e r (r.limit - 1) (a, b, c) (ground arith) (omega arith)
            ∙ sym (pushed_if r.limit e (entries r) false (l ∙ h))
      ]

  -- Adding an entry to a right ring, which has at least one slot, keeps it right, and in the list of entries it puts the entry at the
  -- end; if the list has reached the limit, it loses its first entry.
  pub append_lem :
      (e : A) (r : Ring A)
      → IsRing r
      → IsRing (append e r) × (entries (append e r) ≡ pushed r.limit e (entries r))
  append_lem e r (a, b, c) =
      rw (append-appended e r a) (appended-IsRing e r (a, b, c), entries-appended e r (a, b, c))
