-- ===== src/Format/Digits.antt =====
-- kern/utilities/format.c: the digits that `outputdig` prints, read back.
use hoo.Base.{
  ℕ, zero, suc, ◌+◌, ◌-◌, ◌*◌, ◌/◌, ◌%◌, ◌^◌, ◌<◌, ◌≤◌, ◌≡◌, ◌≢◌, true, false, List, [], ◌∷◌, ok,
  ◌==◌, ltb, if◌then◌else◌, length, arith, refl, ap, ◌∙◌, sym, ℕ_discrete, ==_ne, lt→ltb,
}
use native.Mathlib.Nat.{mod-lt, div-add-mod, mul-le-mul_right, mul_comm, pow-suc}
use hoo.Format.{digit_char, store_digit, digit_loop, outputdig}

-- The number that a digit stands for
abbrev pub digit_value : ℕ → ℕ
digit_value c = if ltb c 58 then c - 48 else c - 87

-- The number that a string of digits stands for, behind digits that stand for `acc`
abbrev pub value : ℕ → ℕ → List ℕ → ℕ
value base acc [] = acc
value base acc (c ∷ cs) = value base (acc * base + digit_value c) cs

value-char : (r : ℕ) → r < 36 → digit_value (digit_char r) ≡ r
value-char r h = ground arith

-- With a base of 2 or more, a division halves the number at least.
quotient-lt : (d base n : ℕ) → 2 ≤ base → d < 2 ^ suc n → d / base < 2 ^ n
quotient-lt d base n two h =
    omega (arith, div-add-mod d base, mul-le-mul_right (d / base) two, pow-suc 2 n)

pos_of_lt : (n q : ℕ) → q ≢ 0 → q < 2 ^ n → 0 < n
pos_of_lt zero q ne h = absurd (omega arith)
pos_of_lt (suc n) q ne h = omega arith

step :
    (fuel d base : ℕ) (arr : List ℕ)
    → length arr < 32
    → digit_loop (suc fuel) d base arr ≡ elim (d / base == 0) [
      | true ↦ ok (digit_char (d % base) ∷ arr)
      | false ↦ digit_loop fuel (d / base) base (digit_char (d % base) ∷ arr)
    ]
unfolding digit_loop store_digit
step fuel d base arr h = rw (lt→ltb (length arr) 32 h) refl

pub record Printed (base d : ℕ) (arr out : List ℕ) : Type 0 where
  pub means : value base 0 out ≡ value base d arr
  pub fits : length out ≤ 32
  pub some_digit : length arr < length out

-- The number without its last digit, and that digit
split_digit :
    (d base acc : ℕ)
    → acc ≡ d / base
    → d % base < 36
    → acc * base + digit_value (digit_char (d % base)) ≡ d
split_digit d base acc e h =
    ap (λ q. q * base + digit_value (digit_char (d % base))) e
    ∙ (ap (λ v. d / base * base + v) (value-char (d % base) h)
        ∙ (ap (λ p. p + d % base) (mul_comm (d / base) base) ∙ div-add-mod d base))

loop_lem :
    (fuel n d base : ℕ) (arr : List ℕ)
    → 2 ≤ base
    → base ≤ 36
    → d < 2 ^ n
    → 0 < n
    → n < fuel
    → n + length arr ≤ 32
    → (out : List ℕ) × (digit_loop fuel d base arr ≡ ok out) × Printed base d arr out
loop_lem zero n d base arr two most small pos enough room = absurd (omega arith)
loop_lem (suc fuel) zero d base arr two most small pos enough room = absurd (omega arith)
loop_lem (suc fuel) (suc n) d base arr two most small pos enough room =
    let less : d % base < 36 = omega (arith, mod-lt d (let p : 0 < base = omega arith in p)) in
    elim (ℕ_discrete (d / base) 0) [
      | yes e ↦ (
        digit_char (d % base) ∷ arr,
        step fuel d base arr (omega arith) ∙ rw e refl,
        record {
          means = ap (λ x. value base x arr) (split_digit d base 0 (sym e) less);
          fits = omega arith;
          some_digit = omega arith;
        },
      )
      | no ne ↦
          let smaller : d / base < 2 ^ n = quotient-lt d base n two small in
          let left : 0 < n = pos_of_lt n (d / base) ne smaller in
          let (out, run, p) =
            loop_lem fuel n (d / base) base (digit_char (d % base) ∷ arr) two most smaller left
              (omega arith) (omega arith) in
          (
            out,
            step fuel d base arr (omega arith) ∙ rw (==_ne (d / base) 0 ne) run,
            record {
              means =
                  p.means ∙ ap (λ x. value base x arr) (split_digit d base (d / base) refl less);
              fits = p.fits;
              some_digit = omega (arith, p.some_digit);
            },
          )
    ]

-- For a base from 2 to 36 and a 32-bit number, outputdig prints at least one digit and at most
-- 32, which fit its array, and the digits read back as the number.
pub outputdig-value :
    (d base : ℕ)
    → 2 ≤ base
    → base ≤ 36
    → d < 2 ^ 32
    → (out : List ℕ) × (outputdig d base ≡ ok out)
      × (value base 0 out ≡ d)
      × (0 < length out)
      × (length out ≤ 32)
unfolding outputdig
outputdig-value d base two most small =
    let (out, run, p) =
      loop_lem 33 32 d base [] two most small (omega arith) (omega arith) (omega arith) in
    (out, run, p.means, omega (arith, p.some_digit), p.fits)
