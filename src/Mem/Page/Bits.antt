-- ===== src/Mem/Page/Bits.antt =====
-- kern/page/page_stuff.h: `|` and `&` where one side has only low bits and the other none of them.
use hoo.Base.{
  ℕ, zero, suc, ◌+◌, ◌*◌, ◌/◌, ◌%◌, ◌≤◌, ◌<◌, ◌≡◌, bit_and, bit_or, refl, arith, ap, true,
  ℕ_discrete, ◌==◌, ==_iff,
}
use Prim.Native.Nat.{max, digits, bit_or-bitwise}
use hoo.Bitmap.Bits.{passed, passed_lem}

-- More fuel than the first number changes nothing in what `digits` makes of two numbers.
module _ (f : ℕ → ℕ) (g : ℕ → ℕ → ℕ) where
  digits_enough : (a b n m : ℕ) → a ≤ n → a ≤ m → digits f g n a b ≡ digits f g m a b
  digits_enough a b zero zero le le' = refl
  digits_enough zero b zero (suc m) le le' = refl
  digits_enough zero b (suc n) zero le le' = refl
  digits_enough zero b (suc n) (suc m) le le' = refl
  digits_enough (suc a) b zero m le le' = absurd (omega arith)
  digits_enough (suc a) b n zero le le' = absurd (omega arith)
  digits_enough (suc a) b (suc n) (suc m) le le' =
      omega (arith, digits_enough (suc a / 2) (b / 2) n m (omega arith) (omega arith))

bit_or_step : (a b : ℕ) → bit_or a b ≡ bit_or (a / 2) (b / 2) * 2 + max (a % 2) (b % 2)
bit_or_step zero b = omega (arith, bit_or-bitwise 0 b, bit_or-bitwise 0 (b / 2))
bit_or_step (suc a) b =
    let half : suc a / 2 ≤ a = omega arith in
    omega (
      arith,
      bit_or-bitwise (suc a) b,
      bit_or-bitwise (suc a / 2) (b / 2),
      digits_enough (λ b. b) max (suc a / 2) (b / 2) a (suc a / 2) half (omega arith),
    )

bit_or-zero : (n a : ℕ) → a ≤ n → bit_or a 0 ≡ a
bit_or-zero zero a h = let z : a ≡ 0 = omega arith in rw z refl
bit_or-zero (suc n) a h = elim (ℕ_discrete a 0) [
  | yes z ↦ rw z refl
  | no ne ↦ omega (arith, bit_or_step a 0, bit_or-zero n (a / 2) (omega arith))
]

-- `a << k`
abbrev pub shifted : ℕ → ℕ → ℕ
shifted zero a = a
shifted (suc k) a = shifted k a * 2

pub bit_or-low : (k a b : ℕ) → b < shifted k 1 → bit_or (shifted k a) b ≡ shifted k a + b
bit_or-low zero a b h =
    let z : b ≡ 0 = omega arith in rw z (omega (arith, bit_or-zero a a (omega arith)))
bit_or-low (suc k) a b h =
    let half : shifted k a * 2 / 2 ≡ shifted k a = omega arith in
    omega (
      arith,
      bit_or_step (shifted k a * 2) b,
      ap (λ t. bit_or t (b / 2)) half,
      bit_or-low k a (b / 2) (omega arith),
    )

seven_table : passed (λ v. bit_and v 7 == v % 8) 4096 ≡ true
unfolding passed
seven_table = refl

pub bit_and-seven : (v : ℕ) → v < 4096 → bit_and v 7 ≡ v % 8
bit_and-seven v small =
    (==_iff (bit_and v 7) (v % 8)).0
      (passed_lem (λ v. bit_and v 7 == v % 8) 4096 seven_table v small)
