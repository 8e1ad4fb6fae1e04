-- ===== src/Format/Pieces.antt =====
-- kern/utilities/format.c: `format` against a text in pieces.
use hoo.Base.{
  ℕ, ◌%◌, ◌^◌, ◌<◌, ◌≡◌, ◌≢◌, List, [], ◌∷◌, ◌++◌, ok, Outcome, ◌>>=◌, arith, refl, ap, ◌∙◌, ==_ne,
  All,
}
use hoo.Format.{format, convert, args_after, outputdig, before}
use hoo.Format.Digits.{outputdig-value}

-- A character but `%`, `%%`, `%c`, `%s`, `%d` and `%x`
pub data Piece : Type 0 where
  plain chr str dec hex : ℕ → Piece
  percent : Piece

-- The piece in the format string
abbrev pub spelled : Piece → List ℕ
spelled (plain c) = c ∷ []
spelled percent = 37 ∷ 37 ∷ []
spelled (chr c) = 37 ∷ 99 ∷ []
spelled (str a) = 37 ∷ 115 ∷ []
spelled (dec n) = 37 ∷ 100 ∷ []
spelled (hex n) = 37 ∷ 120 ∷ []

-- Its arguments
abbrev pub args_of : Piece → List ℕ
args_of (plain c) = []
args_of percent = []
args_of (chr c) = c ∷ []
args_of (str a) = a ∷ []
args_of (dec n) = n ∷ []
args_of (hex n) = n ∷ []

-- A plain character is not `%`, and a number has 32 bits.
abbrev pub IsPiece : Piece → Type 0
IsPiece (plain c) = c ≢ 37
IsPiece percent = Unit
IsPiece (chr c) = c < 2 ^ 8
IsPiece (str a) = Unit
IsPiece (dec n) = n < 2 ^ 32
IsPiece (hex n) = n < 2 ^ 32

abbrev pub fmt_of : List Piece → List ℕ
fmt_of [] = []
fmt_of (p ∷ ps) = spelled p ++ fmt_of ps

abbrev pub all_args : List Piece → List ℕ
all_args [] = []
all_args (p ∷ ps) = args_of p ++ all_args ps

module _ (string_at : ℕ → List ℕ) where
  -- What is printed for a piece
  abbrev pub text : Piece → Outcome (List ℕ)
  text (plain c) = ok (c ∷ [])
  text percent = ok (37 ∷ [])
  text (chr c) = ok (c ∷ [])
  text (str a) = ok (string_at a)
  text (dec n) = outputdig n 10
  text (hex n) = outputdig n 16

  abbrev pub texts : List Piece → Outcome (List ℕ)
  texts [] = ok []
  texts (p ∷ ps) = text p >>= λ out. before out (texts ps)

  format-plain :
      (c : ℕ) (fmt args : List ℕ)
      → c ≢ 37
      → format string_at (c ∷ fmt) args ≡ before (c ∷ []) (format string_at fmt args)
  unfolding format
  format-plain c [] args ne = rw (==_ne c 37 ne, format) refl
  format-plain c (d ∷ fmt) args ne = rw (==_ne c 37 ne, format) refl

  texts_lem :
      (ps : List Piece) → All IsPiece ps → format string_at (fmt_of ps) (all_args ps) ≡ texts ps
  unfolding format convert args_after
  texts_lem [] a = refl
  texts_lem (plain c ∷ ps) a =
      format-plain c (fmt_of ps) (all_args ps) a.0 ∙ ap (λ o. before (c ∷ []) o) (texts_lem ps a.1)
  texts_lem (percent ∷ ps) a = ap (λ o. before (37 ∷ []) o) (texts_lem ps a.1)
  texts_lem (chr c ∷ ps) a =
      let low : c % 2 ^ 8 ≡ c = omega (arith, a.0) in
      rw low (ap (λ o. before (c ∷ []) o) (texts_lem ps a.1))
  texts_lem (str t ∷ ps) a = ap (λ o. before (string_at t) o) (texts_lem ps a.1)
  texts_lem (dec n ∷ ps) a = ap (λ o. outputdig n 10 >>= λ out. before out o) (texts_lem ps a.1)
  texts_lem (hex n ∷ ps) a = ap (λ o. outputdig n 16 >>= λ out. before out o) (texts_lem ps a.1)

  text-ok : (p : Piece) → IsPiece p → (out : List ℕ) × (text p ≡ ok out)
  text-ok (plain c) a = (c ∷ [], refl)
  text-ok percent a = (37 ∷ [], refl)
  text-ok (chr c) a = (c ∷ [], refl)
  text-ok (str t) a = (string_at t, refl)
  text-ok (dec n) a =
      let (out, run, means, some_digit, fits) =
        outputdig-value n 10 (omega arith) (omega arith) a in
      (out, run)
  text-ok (hex n) a =
      let (out, run, means, some_digit, fits) =
        outputdig-value n 16 (omega arith) (omega arith) a in
      (out, run)

  texts-ok : (ps : List Piece) → All IsPiece ps → (out : List ℕ) × (texts ps ≡ ok out)
  texts-ok [] a = ([], refl)
  texts-ok (p ∷ ps) a =
      let (out, run) = text-ok p a.0 in
      let (rest, runs) = texts-ok ps a.1 in (out ++ rest, rw (run, runs) refl)

  -- For a format string made of plain characters, %%, %c, %s, %d and %x with their arguments,
  -- format prints the text of the pieces in order, to its end.
  pub format-texts :
      (ps : List Piece)
      → All IsPiece ps
      → (out : List ℕ) × (format string_at (fmt_of ps) (all_args ps) ≡ ok out) × (texts ps ≡ ok out)
  format-texts ps a = let (out, run) = texts-ok ps a in (out, texts_lem ps a ∙ run, run)
