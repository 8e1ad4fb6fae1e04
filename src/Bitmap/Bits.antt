-- ===== src/Bitmap/Bits.antt =====
-- The bits of a byte, as `&`, `|` and `~` of kern/utilities/bitmap.c touch them.
use hoo.Base.{
  dec_lt, ℕ, zero, suc, ◌-◌, ◌/◌, ◌%◌, ◌^◌, ◌<◌, ◌≡◌, refl, Bool, true, false, ◌&&◌, bit_and,
  bit_or, ◌==◌, ltb, not, arith, if◌then◌else◌, ltb→lt,
}

-- Bit `k` of `x`, by division: the description that does not mention the bit operations.
abbrev pub bit_of : ℕ → ℕ → Bool
bit_of x k = x / 2 ^ k % 2 == 1

-- A test that every number below a bound passes
unfoldable pub passed : (ℕ → Bool) → ℕ → Bool
passed row zero = true
passed row (suc n) = if row n then passed row n else false

pub passed_lem : (row : ℕ → Bool) (n : ℕ) → passed row n ≡ true → (v : ℕ) → v < n → row v ≡ true
unfolding passed
passed_lem row zero all v small = absurd (omega arith)
passed_lem row (suc n) all v small =
    let last : row n ≡ true = ground arith in
    let others : passed row n ≡ true = ground arith in
    elim (dec_lt v n) [
      | yes lt ↦ passed_lem row n others v lt
      | no ge ↦ let e : v ≡ n = omega arith in rw e last
    ]

same : Bool → Bool → Bool
same a b = if a then b else not b

same_lem : (a b : Bool) → same a b ≡ true → a ≡ b
unfolding same
same_lem a b h = ground arith

test_row : ℕ → ℕ → Bool
test_row v k = same (not (bit_and v (2 ^ k) == 0)) (bit_of v k)

or_row : ℕ → ℕ → ℕ → Bool
or_row v k j =
    same (bit_of (bit_or v (2 ^ k)) j) (if k == j then true else bit_of v j)
    && ltb (bit_or v (2 ^ k)) 256

and_row : ℕ → ℕ → ℕ → Bool
and_row v k j =
    same (bit_of (bit_and v (0xffffffff - 2 ^ k)) j) (if k == j then false else bit_of v j)
    && ltb (bit_and v (0xffffffff - 2 ^ k)) 256

test_table : passed (λ v. passed (λ k. test_row v k) 8) 256 ≡ true
unfolding passed test_row same
test_table = refl

or_table : passed (λ v. passed (λ k. passed (λ j. or_row v k j) 8) 8) 256 ≡ true
unfolding passed or_row same
or_table = refl

and_table : passed (λ v. passed (λ k. passed (λ j. and_row v k j) 8) 8) 256 ≡ true
unfolding passed and_row same
and_table = refl

both : (a b : Bool) → (a && b) ≡ true → (a ≡ true) × (b ≡ true)
both a b h = ground arith

module _ (v k : ℕ) (byte : v < 256) (bit : k < 8) where
  -- `v & (1 << k)` is 0 exactly if bit `k` of the byte `v` is clear.
  pub bit_and-test : (bit_and v (2 ^ k) == 0) ≡ not (bit_of v k)
  unfolding test_row
  bit_and-test =
      let row : passed (λ j. test_row v j) 8 ≡ true =
        passed_lem (λ w. passed (λ j. test_row w j) 8) 256 test_table v byte in
      let here : test_row v k ≡ true = passed_lem (λ j. test_row v j) 8 row k bit in
      ground (arith, same_lem (not (bit_and v (2 ^ k) == 0)) (bit_of v k) here)

  module _ (j : ℕ) (inside : j < 8) where
    or_row_lem : or_row v k j ≡ true
    or_row_lem =
        let byte_row =
          passed_lem (λ w. passed (λ y. passed (λ x. or_row w y x) 8) 8) 256 or_table v byte in
        let bit_row = passed_lem (λ y. passed (λ x. or_row v y x) 8) 8 byte_row k bit in
        passed_lem (λ x. or_row v k x) 8 bit_row j inside

    and_row_lem : and_row v k j ≡ true
    and_row_lem =
        let byte_row =
          passed_lem (λ w. passed (λ y. passed (λ x. and_row w y x) 8) 8) 256 and_table v byte in
        let bit_row = passed_lem (λ y. passed (λ x. and_row v y x) 8) 8 byte_row k bit in
        passed_lem (λ x. and_row v k x) 8 bit_row j inside

    -- `v | (1 << k)` has bit `k`, and the other bits of `v`.
    pub bit_of-or : bit_of (bit_or v (2 ^ k)) j ≡ (if k == j then true else bit_of v j)
    unfolding or_row
    bit_of-or = same_lem _ _ (both _ _ or_row_lem).0

    pub bit_or-lt : bit_or v (2 ^ k) < 256
    unfolding or_row
    bit_or-lt = ltb→lt _ _ (both _ _ or_row_lem).1

    -- `v & ~(1 << k)` has the bits of `v` but `k`.
    pub bit_of-and :
        bit_of (bit_and v (0xffffffff - 2 ^ k)) j ≡ (if k == j then false else bit_of v j)
    unfolding and_row
    bit_of-and = same_lem _ _ (both _ _ and_row_lem).0

    pub bit_and-lt : bit_and v (0xffffffff - 2 ^ k) < 256
    unfolding and_row
    bit_and-lt = ltb→lt _ _ (both _ _ and_row_lem).1
