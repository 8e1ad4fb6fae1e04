-- ===== src/Format/Tests.antt =====
-- kern/utilities/format.c on small texts.
use hoo.Base.{refl, ℕ, ◌≡◌, ◌<◌, ◌≤◌, List, [], ◌∷◌, ok, arith, length}
use hoo.Format.{digit_loop, store_digit, outputdig, format}
use hoo.Format.Digits.{value, outputdig-value}
use hoo.Format.Pieces.{Piece, plain, str, dec, percent, format-texts, fmt_of, all_args, texts}

-- 2026 in decimal, 255 in hexadecimal
dec_run : outputdig 2026 10 ≡ ok (50 ∷ 48 ∷ 50 ∷ 54 ∷ [])
unfolding outputdig digit_loop store_digit
dec_run = refl

hex_run : outputdig 255 16 ≡ ok (102 ∷ 102 ∷ [])
unfolding outputdig digit_loop store_digit
hex_run = refl

outputdig-value_example :
    (out : List ℕ) × (outputdig 2026 10 ≡ ok out)
    × (value 10 0 out ≡ 2026)
    × (0 < length out)
    × (length out ≤ 32)
outputdig-value_example = outputdig-value 2026 10 (omega arith) (omega arith) (omega arith)

-- One string, "hi", at every address
abbrev hi : ℕ → List ℕ
hi a = 104 ∷ 105 ∷ []

-- "n=%d%%%s"
abbrev pieces : List Piece
pieces = plain 110 ∷ plain 61 ∷ dec 10 ∷ percent ∷ str 4096 ∷ []

format-texts_example :
    (out : List ℕ) × (format hi (fmt_of pieces) (all_args pieces) ≡ ok out)
    × (texts hi pieces ≡ ok out)
format-texts_example =
    format-texts hi pieces (omega arith, (omega arith, (omega arith, (tt, (tt, tt)))))
