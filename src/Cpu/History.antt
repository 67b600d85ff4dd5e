-- ===== src/Cpu/History.antt =====
-- The rolling history of cpu.go: a ring of fixed length. Copying an entry's bytes is the identity
-- on values.
pub mod Laws
use m68kemu.Base.{
  ℕ, zero, suc, ◌+◌, ◌-◌, ◌%◌, ◌≡◌, refl, List, [], ◌∷◌, ltb, ◌==◌, if◌then◌else◌, length,
}

-- The slice (its entries by index and its length), the next index to write, and the number of
-- entries in use.
pub record Ring {ℓ} (A : Type ℓ) : Type ℓ where
  pub limit : ℕ
  pub slot : ℕ → A
  pub next : ℕ
  pub count : ℕ

module _ {ℓ} {A : Type ℓ} where
  abbrev pub write_slot : (ℕ → A) → ℕ → A → ℕ → A
  write_slot f i v j = if i == j then v else f j

  -- appendHistory
  unfoldable pub append : A → Ring A → Ring A
  append entry r = if r.limit == 0 then r else record r {
    slot = write_slot r.slot r.next entry;
    next = (r.next + 1) % r.limit;
    count = if ltb r.count r.limit then r.count + 1 else r.count;
  }

  -- The loop of History: `left` entries from the i-th after the start.
  unfoldable pub collect : ℕ → ℕ → ℕ → Ring A → List A
  collect zero start i r = []
  collect (suc left) start i r = r.slot ((start + i) % r.limit) ∷ collect left start (i + 1) r

  -- `start += len(cpu.history)` where the difference is negative.
  unfoldable pub start_of : Ring A → ℕ
  start_of r = if ltb r.next r.count then r.next + r.limit - r.count else r.next - r.count

  unfoldable pub entries : Ring A → List A
  unfolding collect start_of
  entries r = if r.limit == 0 then [] else collect r.count (start_of r) 0 r

  unfoldable pub append_all : List A → Ring A → Ring A
  unfolding append
  append_all [] r = r
  append_all (e ∷ es) r = append_all es (append e r)

  abbrev pub drop : ℕ → List A → List A
  drop zero xs = xs
  drop (suc n) [] = []
  drop (suc n) (x ∷ xs) = drop n xs

  -- SetHistoryLimit. `blank` stands for the zero value of an entry.
  unfoldable pub set_limit : A → ℕ → Ring A → Ring A
  unfolding entries append_all
  set_limit blank limit r =
      let fresh : Ring A = record { limit = limit; slot = λ _. blank; next = 0; count = 0 } in
      if limit == 0
      then fresh
      else append_all
          (if ltb limit (length (entries r))
            then drop (length (entries r) - limit) (entries r)
            else entries r)
          fresh

abbrev sample : Ring ℕ
unfolding append_all
sample =
    append_all (1 ∷ 2 ∷ 3 ∷ 4 ∷ 5 ∷ []) (record { limit = 3; slot = λ _. 0; next = 0; count = 0 })

keeps_last_three : entries sample ≡ 3 ∷ 4 ∷ 5 ∷ []
unfolding entries append_all sample
keeps_last_three = refl
