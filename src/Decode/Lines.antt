-- ===== src/Decode/Lines.antt =====
-- The opcodes of the lines A and F have no handler.
use m68kemu.Base.{
  ℕ, ◌/◌, ◌%◌, ◌≡◌, ◌∙◌, refl, ap, arith, bit_and, Bool, true, false, not, ◌&&◌, ◌==◌, ◌!=◌, List,
  [], ◌∷◌, none, some, ◌⊎◌, inl, inr, and_mask, and_split, taken,
}
use m68kemu.Base.Fields.{and-le}
use m68kemu.Decode.Fields.{valid_ea}
use m68kemu.Decode.Registration.{Registration, Slot, covers, enter, enter_all}
use m68kemu.Decode.Table.{
  registrations, opcode_slot, opcode_table, opcode_cycle_table, free, or_free,
}

-- The registration fixes the top digit of its opcodes, to another than A and F.
abbrev keeps_off : Registration → Bool
keeps_off r = r.mask / 0x1000 == 15 && (r.match / 0x1000 != 10 && r.match / 0x1000 != 15)

abbrev all_keep_off : List Registration → Bool
all_keep_off [] = true
all_keep_off (r ∷ rs) = keeps_off r && all_keep_off rs

registrations-keep_off : all_keep_off registrations ≡ true
unfolding registrations
registrations-keep_off = refl

-- An opcode of line A or F.
abbrev pub IsLine : ℕ → Type 0
IsLine opcode = (opcode / 0x1000 ≡ 10) ⊎ (opcode / 0x1000 ≡ 15)

both : (a b c : Bool) → (a && (b && c)) ≡ true → (a ≡ true) × (b ≡ true) × (c ≡ true)
both true true true h = (refl, refl, refl)
both false b c h = absurd (ground arith)
both true false c h = absurd (ground arith)
both true true false h = absurd (ground arith)

-- The top digit of what a mask that has it leaves.
top_digit :
    (opcode mask : ℕ) → mask / 0x1000 ≡ 15 → bit_and opcode mask / 0x1000 ≡ opcode / 0x1000 % 16
top_digit opcode mask h =
    let l = and-le 12 (opcode % 0x1000) (mask % 0x1000) (omega arith) in
    let s = and_split 12 opcode mask in
    let m = ap (bit_and (opcode / 0x1000)) h ∙ and_mask 4 (opcode / 0x1000) in omega arith

covers-line :
    (r : Registration) (opcode : ℕ) → IsLine opcode → keeps_off r ≡ true → covers r opcode ≡ false
unfolding covers
covers-line r opcode l h =
    let (m, a, f) =
      both (r.mask / 0x1000 == 15) (r.match / 0x1000 != 10) (r.match / 0x1000 != 15) h in
    let d = top_digit opcode r.mask (ground arith) in
    ap (λ b. b && valid_ea opcode r.ea_mask) {y = false}
      (elim l [ inl e ↦ ground arith | inr e ↦ ground arith ])

enter-line :
    (r : Registration) (opcode : ℕ) (s : Slot)
    → IsLine opcode
    → keeps_off r ≡ true
    → enter r opcode s ≡ some s
unfolding enter
enter-line r opcode s l k = taken (not (covers r opcode)) _ (ap not (covers-line r opcode l k)) refl

enter_all-line :
    (rs : List Registration) (opcode : ℕ) (s : Slot)
    → IsLine opcode
    → all_keep_off rs ≡ true
    → enter_all rs opcode s ≡ some s
unfolding enter_all
enter_all-line [] opcode s l h = refl
enter_all-line (r ∷ rs) opcode s l h =
    let (k, ks) = apart (keeps_off r) (all_keep_off rs) h in
    (λ i. elim (enter-line r opcode s l k i) [ none ↦ none | some t ↦ enter_all rs opcode t ])
    ∙ enter_all-line rs opcode s l ks
  where
    apart : (a b : Bool) → (a && b) ≡ true → (a ≡ true) × (b ≡ true)
    apart true b e = (refl, e)
    apart false b e = absurd (ground arith)

-- No registration of the init functions gives an opcode of line A or F a handler or cycles.
pub opcode_table-line :
    (opcode : ℕ) → IsLine opcode → (opcode_table opcode ≡ none) × (opcode_cycle_table opcode ≡ 0)
unfolding opcode_table opcode_cycle_table opcode_slot
opcode_table-line opcode l =
    let e = enter_all-line registrations opcode free l registrations-keep_off in
    ((λ i. (or_free (e i)).handler), (λ i. (or_free (e i)).cycles))
