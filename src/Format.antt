-- ===== src/Format.antt =====
-- kern/utilities/format.c: the text of `kprintf` and `printf`, as the characters that go to
-- `outputc` and `outputstr` in order. The arguments are the 32-bit words behind `fmt` on the stack;
-- the string at an address is a function of the address.
pub mod Digits
pub mod Pieces
mod Tests
use hoo.Base.{
  ℕ, zero, suc, ◌+◌, ◌-◌, ◌/◌, ◌%◌, ◌^◌, Bool, true, false, ◌||◌, List, [], ◌∷◌, ◌++◌, Outcome, ok,
  fault, spins, ◌>>=◌, ◌==◌, ltb, if◌then◌else◌, length, drop,
}

abbrev pub digit_char : ℕ → ℕ
digit_char r = if ltb r 10 then 48 + r else 97 + (r - 10)

-- The array `__arr_dig` has 32 places; `arr` holds those that are filled, the last one first.
unfoldable pub store_digit : List ℕ → ℕ → Outcome (List ℕ)
store_digit arr c = if ltb (length arr) 32 then ok (c ∷ arr) else fault

-- The `do … while (digit)` of `outputdig`, which fills the array and prints it from its end
unfoldable pub digit_loop : ℕ → ℕ → ℕ → List ℕ → Outcome (List ℕ)
digit_loop zero digit base arr = spins
digit_loop (suc fuel) digit base arr = store_digit arr (digit_char (digit % base)) >>= λ arr'.
    elim (digit / base == 0) [ true ↦ ok arr' | false ↦ digit_loop fuel (digit / base) base arr' ]

-- `outputdig(digit, base, redirect)`
unfoldable pub outputdig : ℕ → ℕ → Outcome (List ℕ)
outputdig digit base = digit_loop 33 digit base []

-- The characters in front of the rest of the output
abbrev pub before : List ℕ → Outcome (List ℕ) → Outcome (List ℕ)
before out rest = rest >>= λ o. ok (out ++ o)

-- `VA_ARG` and a read of the word
abbrev pub arg : List ℕ → Outcome ℕ
arg [] = fault
arg (a ∷ args) = ok a

module _ (string_at : ℕ → List ℕ) where
  -- The output of one conversion
  unfoldable pub convert : ℕ → List ℕ → Outcome (List ℕ)
  convert c args =
      if c == 37
      then ok (37 ∷ [])
      else if c == 99
      then (do a ← arg args; ok (a % 2 ^ 8 ∷ []))
      else if c == 115
      then (do a ← arg args; ok (string_at a))
      else if c == 100
      then (do a ← arg args; outputdig a 10)
      else if c == 112 || c == 88 || c == 120
      then (do a ← arg args; outputdig a 16)
      else ok (37 ∷ c ∷ [])

  -- What it leaves of the arguments
  unfoldable pub args_after : ℕ → List ℕ → List ℕ
  args_after c args = if c == 37 then args else drop 1 args

  -- `format(fmt, args, redirect)`, for the characters of `fmt` before its end
  unfoldable pub format : List ℕ → List ℕ → Outcome (List ℕ)
  format [] args = ok []
  format (c ∷ []) args = if c == 37 then ok [] else ok (c ∷ [])
  format (c ∷ d ∷ fmt) args = elim (c == 37) [
    | false ↦ before (c ∷ []) (format (d ∷ fmt) args)
    | true ↦ convert d args >>= λ out. before out (format fmt (args_after d args))
  ]
