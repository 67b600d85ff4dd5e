-- ===== src/Cpu/Control/Conditions.antt =====
-- What the conditions say after a comparison.
use m68kemu.Base.Fields.{and_high}
use m68kemu.Alu.Spec.{ccr, span, signed, is_out_of_range}
use m68kemu.Operand.{Size, byte, word, long, sign_bit}
use m68kemu.Base.Int.{ltb_ℤ, ◌-ℤ◌}
use m68kemu.Alu.Add.{sub_with_flags}
use m68kemu.Alu.Add.Laws.{sub_with_flags_lem, mod-lt-span}
use m68kemu.Base.{
  ap, ◌∙◌, ◌-◌, leb, ltb, arith, and-zero, below, zero-or, ℕ, ◌+◌, ◌*◌, ◌/◌, ◌%◌, ◌<◌, ◌^◌, ◌≡◌,
  refl, arith, Bool, true, false, not, ◌==◌, ◌&&◌, ◌||◌, bit_and, if◌then◌else◌, and_split,
  or_split, and_mask,
}
use m68kemu.Status.{replace_status_flags}
use m68kemu.Alu.Spec.{digit}
use m68kemu.Cpu.Control.{condition_true}

multiple_rem : (x : ℕ) → x * 2 ^ 4 % 2 ^ 4 ≡ 0
multiple_rem x = omega arith

-- The low four digits of a status register with new flags are those of the flags.
low_flags : (sr f : ℕ) → replace_status_flags sr 0x0f f % 16 ≡ f % 16
unfolding replace_status_flags
low_flags sr f =
    rw
      (
        and_high 4 sr 0xfff,
        and_mask 4 f,
        or_split 4 (bit_and (sr / 2 ^ 4) 0xfff * 2 ^ 4) (f % 2 ^ 4),
        multiple_rem (bit_and (sr / 2 ^ 4) 0xfff),
        zero-or (f % 2 ^ 4 % 2 ^ 4),
      )
      (omega arith)

no_high : (m : ℕ) → m < 16 → m / 2 ^ 4 ≡ 0
no_high m h = omega arith

same_low : (m : ℕ) → m < 16 → m % 2 ^ 4 ≡ m
same_low m h = omega arith

-- A flag below 16 is found in the low four digits.
low_mask : (sr m : ℕ) → m < 16 → bit_and sr m ≡ bit_and (sr % 16) m
low_mask sr m h =
    rw
      (
        and_split 4 sr m,
        no_high m h,
        same_low m h,
        and-zero (sr / 2 ^ 4) (sr / 2 ^ 4) (below (sr / 2 ^ 4)),
      )
      (omega arith)

-- The sixteen conditions depend on the low four digits only.
condition_low : (sr cond : ℕ) → condition_true sr cond ≡ condition_true (sr % 16) cond
unfolding condition_true
condition_low sr cond =
    rw
      (
        low_mask sr 1 (omega arith),
        low_mask sr 2 (omega arith),
        low_mask sr 4 (omega arith),
        low_mask sr 5 (omega arith),
        low_mask sr 8 (omega arith),
      )
      refl

-- The flags of a comparison, without X.
abbrev nzvc : Bool → Bool → Bool → Bool → ℕ
nzvc n z v c = 8 * digit n + 4 * digit z + 2 * digit v + digit c

abbrev same : Bool → Bool → Bool
same true b = b
same false b = not b

-- Each condition as a statement about the four flags.
abbrev holds : Bool → Bool → Bool → Bool → ℕ → Bool
holds n z v c cond =
    if cond == 0
    then true
    else if cond == 1
    then false
    else if cond == 2
    then not c && not z
    else if cond == 3
    then c || z
    else if cond == 4
    then not c
    else if cond == 5
    then c
    else if cond == 6
    then not z
    else if cond == 7
    then z
    else if cond == 8
    then not v
    else if cond == 9
    then v
    else if cond == 10
    then not n
    else if cond == 11
    then n
    else if cond == 12
    then same n v
    else if cond == 13
    then not (same n v)
    else if cond == 14
    then not z && same n v
    else if cond == 15
    then z || not (same n v)
    else false

table_lem : (n z v c : Bool) (cond : ℕ) → condition_true (nzvc n z v c) cond ≡ holds n z v c cond
unfolding condition_true
table_lem false false false false cond = refl
table_lem false false false true cond = refl
table_lem false false true false cond = refl
table_lem false false true true cond = refl
table_lem false true false false cond = refl
table_lem false true false true cond = refl
table_lem false true true false cond = refl
table_lem false true true true cond = refl
table_lem true false false false cond = refl
table_lem true false false true cond = refl
table_lem true false true false cond = refl
table_lem true false true true cond = refl
table_lem true true false false cond = refl
table_lem true true false true cond = refl
table_lem true true true false cond = refl
table_lem true true true true cond = refl

without_x : (n z v c : Bool) → ccr c n z v c % 16 ≡ nzvc n z v c
without_x false false false false = refl
without_x false false false true = refl
without_x false false true false = refl
without_x false false true true = refl
without_x false true false false = refl
without_x false true false true = refl
without_x false true true false = refl
without_x false true true true = refl
without_x true false false false = refl
without_x true false false true = refl
without_x true false true false = refl
without_x true false true true = refl
without_x true true false false = refl
without_x true true false true = refl
without_x true true true false = refl
without_x true true true true = refl

-- A condition after new flags N, Z, V and C.
with_flags :
    (sr : ℕ) (n z v c : Bool) (cond : ℕ)
    → condition_true (replace_status_flags sr 0x0f (ccr c n z v c)) cond ≡ holds n z v c cond
with_flags sr n z v c cond =
    condition_low (replace_status_flags sr 0x0f (ccr c n z v c)) cond
    ∙ (λ i. condition_true (low_flags sr (ccr c n z v c) i) cond)
    ∙ (λ i. condition_true (without_x n z v c i) cond)
    ∙ table_lem n z v c cond

equal_test :
    (z : Size) (s d : ℕ) → s < span z → d < span z → ((d + span z - s) % span z == 0) ≡ (d == s)
equal_test byte s d p q = ground arith
equal_test word s d p q = ground arith
equal_test long s d p q = ground arith

-- N and V agree unless the destination is less than the source.
less_test :
    (z : Size) (s d : ℕ)
    → s < span z
    → d < span z
    → same
        (leb (sign_bit z) ((d + span z - s) % span z))
        (is_out_of_range z (signed z d -ℤ signed z s))
      ≡ not (ltb_ℤ (signed z d) (signed z s))
less_test byte s d p q = ground arith
less_test word s d p q = ground arith
less_test long s d p q = ground arith

greater_test :
    (z : Size) (s d : ℕ)
    → s < span z
    → d < span z
    → (not (d == s) && not (ltb_ℤ (signed z d) (signed z s))) ≡ ltb_ℤ (signed z s) (signed z d)
greater_test byte s d p q = ground arith
greater_test word s d p q = ground arith
greater_test long s d p q = ground arith

not-not : (b : Bool) → not (not b) ≡ b
not-not true = refl
not-not false = refl

not_greater : (a b c : Bool) → (not a && not b) ≡ c → (a || not (not b)) ≡ not c
not_greater true b c e = ap not e
not_greater false true c e = ap not e
not_greater false false c e = ap not e

-- A condition after CMP of s with d, by the four flags that the comparison gives.
after_compare :
    (sr src dst : ℕ) (z : Size) (cond : ℕ)
    → condition_true (replace_status_flags sr 0x0f (sub_with_flags src dst z).1) cond
      ≡ holds
          (leb (sign_bit z) ((dst % span z + span z - src % span z) % span z))
          ((dst % span z + span z - src % span z) % span z == 0)
          (is_out_of_range z (signed z (dst % span z) -ℤ signed z (src % span z)))
          (ltb (dst % span z) (src % span z))
          cond
after_compare sr src dst z cond =
    (λ i. condition_true (replace_status_flags sr 0x0f (sub_with_flags_lem src dst z i).1) cond)
    ∙ with_flags sr _ _ _ _ cond

-- After a comparison of a source with a destination, which keeps X, the conditions HI, LS, CC, CS, NE and EQ
-- compare them as unsigned numbers, and GE, LT, GT and LE as signed ones.
pub compare-conditions :
    (sr src dst : ℕ) (z : Size)
    → (let s = src % span z in
        let d = dst % span z in
        let after = replace_status_flags sr 0x0f (sub_with_flags src dst z).1 in
        (condition_true after 0x2 ≡ ltb s d)
        × (condition_true after 0x3 ≡ leb d s)
        × (condition_true after 0x4 ≡ leb s d)
        × (condition_true after 0x5 ≡ ltb d s)
        × (condition_true after 0x6 ≡ not (d == s))
        × (condition_true after 0x7 ≡ (d == s))
        × (condition_true after 0xc ≡ not (ltb_ℤ (signed z d) (signed z s)))
        × (condition_true after 0xd ≡ ltb_ℤ (signed z d) (signed z s))
        × (condition_true after 0xe ≡ ltb_ℤ (signed z s) (signed z d))
        × (condition_true after 0xf ≡ not (ltb_ℤ (signed z s) (signed z d))))
compare-conditions sr src dst z =
    let s = src % span z in
    let d = dst % span z in
    let e = equal_test z s d (mod-lt-span z src) (mod-lt-span z dst) in
    let l = less_test z s d (mod-lt-span z src) (mod-lt-span z dst) in
    (
      after_compare sr src dst z 0x2 ∙ rw e (ground arith),
      after_compare sr src dst z 0x3 ∙ rw e (ground arith),
      after_compare sr src dst z 0x4 ∙ ground arith,
      after_compare sr src dst z 0x5,
      after_compare sr src dst z 0x6 ∙ rw e refl,
      after_compare sr src dst z 0x7 ∙ e,
      after_compare sr src dst z 0xc ∙ l,
      after_compare sr src dst z 0xd ∙ ap not l ∙ not-not (ltb_ℤ (signed z d) (signed z s)),
      after_compare sr src dst z 0xe
          ∙ rw (e, l) (greater_test z s d (mod-lt-span z src) (mod-lt-span z dst)),
      after_compare sr src dst z 0xf
          ∙ rw (e, l)
              (not_greater (d == s) _ _
                (greater_test z s d (mod-lt-span z src) (mod-lt-span z dst))),
    )
