-- ===== src/Memory/PageMap.antt =====
-- The page-range index of bus.go: addPageRange and findPageMappedDevice.
pub mod Laws
pub mod Search
pub mod Order
use m68kemu.Base.{
  ℕ, zero, suc, ◌+◌, ◌-◌, ◌/◌, ◌≡◌, refl, true, false, Option, none, some, List, [], ◌∷◌, ◌++◌, ltb,
  leb, if◌then◌else◌, add32, sub32, length,
}

-- The addresses from `start` to `end`, both included, belong to the device with this index.
pub record PageRange : Type 0 where
  pub start : ℕ
  pub end : ℕ
  pub device : ℕ

abbrev pub page_range : ℕ → ℕ → ℕ → PageRange
page_range s e d = record { start = s; end = e; device = d }

unfoldable pub min_uint32 : ℕ → ℕ → ℕ
min_uint32 a b = if ltb a b then a else b

unfoldable pub gap_before : ℕ → ℕ → ℕ → PageRange → List PageRange
unfolding min_uint32
gap_before cursor end dev current =
    if ltb cursor current.start
    then page_range cursor (min_uint32 end (sub32 current.start 1)) dev ∷ []
    else []

abbrev pub remainder : ℕ → ℕ → ℕ → List PageRange
remainder cursor end dev = if leb cursor end then page_range cursor end dev ∷ [] else []

-- The loop over the existing ranges, with the parts of cursor..end that they leave uncovered.
unfoldable pub uncovered : List PageRange → ℕ → ℕ → ℕ → List PageRange
unfolding gap_before
uncovered [] cursor end dev = remainder cursor end dev
uncovered (current ∷ rest) cursor end dev = elim (ltb current.end cursor) [
  | true ↦ uncovered rest cursor end dev
  | false ↦ elim (ltb end current.start) [
    | true ↦ remainder cursor end dev
    | false ↦ gap_before cursor end dev current ++ elim (leb end current.end) [
      | true ↦ remainder (add32 end 1) end dev
      | false ↦ uncovered rest (add32 current.end 1) end dev
    ]
  ]
]

-- The merge by start, the existing range first where two starts agree.
unfoldable pub merge : List PageRange → List PageRange → List PageRange
merge [] js = js
merge (i ∷ is) [] = i ∷ is
merge (i ∷ is) (j ∷ js) = elim (leb i.start j.start) [
  | true ↦ i ∷ merge is (j ∷ js)
  | false ↦ j ∷ merge (i ∷ is) js
]

-- The list of one page after addPageRange.
unfoldable pub add_page_range : List PageRange → ℕ → ℕ → ℕ → List PageRange
unfolding uncovered merge
add_page_range existing start end dev =
    if ltb end start then existing else merge existing (uncovered existing start end dev)

abbrev pub range_at : List PageRange → ℕ → Option PageRange
range_at [] i = none
range_at (r ∷ rs) zero = some r
range_at (r ∷ rs) (suc i) = range_at rs i

-- The binary search of findPageMappedDevice between lo and hi; each round shrinks hi - lo.
unfoldable pub search_ranges : ℕ → List PageRange → ℕ → ℕ → ℕ → Option ℕ
search_ranges zero ranges address lo hi = none
search_ranges (suc fuel) ranges address lo hi = elim (ltb lo hi) [
  | false ↦ none
  | true ↦
      let mid = lo + (hi - lo) / 2 in
      elim (range_at ranges mid) [
        | none ↦ none
        | some current ↦ elim (ltb address current.start) [
          | true ↦ search_ranges fuel ranges address lo mid
          | false ↦ elim (ltb current.end address) [
            | true ↦ search_ranges fuel ranges address (mid + 1) hi
            | false ↦ some current.device
          ]
        ]
      ]
]

unfoldable pub find_page_mapped_device : List PageRange → ℕ → Option ℕ
unfolding search_ranges
find_page_mapped_device ranges address =
    search_ranges (length ranges + 1) ranges address 0 (length ranges)

abbrev two_devices : List PageRange
unfolding add_page_range
two_devices = add_page_range (add_page_range [] 0x20 0x2f 0) 0x10 0x3f 1

finds_first_device : find_page_mapped_device two_devices 0x25 ≡ some 0
unfolding find_page_mapped_device add_page_range two_devices
finds_first_device = refl

finds_gap : find_page_mapped_device two_devices 0x30 ≡ some 1
unfolding find_page_mapped_device add_page_range two_devices
finds_gap = refl
