-- ===== src/Fs/Files/Bytes.antt =====
-- kern/fs: bytes as the words of a sector and back, and lists that are equal place by place.
use hoo.Base.{
  ◌⊎◌, ℕ, zero, suc, ◌+◌, ◌*◌, ◌/◌, ◌%◌, ◌^◌, ◌<◌, ◌≤◌, ◌≡◌, List, [], ◌∷◌, ◌++◌, length, get_or,
  arith, refl, ap, ◌∙◌, ==_ne, drop, take,
}
use hoo.Fs.Blocks.{Disk, write_sector, bytes_sector}
use hoo.Fs.Volume.{word_bytes, bytes_of, words_of, write_sectors}

-- Every element is a byte.
abbrev pub Bytes : List ℕ → Type 0
Bytes l = (j : ℕ) → get_or l j 0 < 256

four :
    {a a' b b' c c' d d' : ℕ}
    → a ≡ a'
    → b ≡ b'
    → c ≡ c'
    → d ≡ d'
    → ◌≡◌ {A = List ℕ} (a ∷ b ∷ c ∷ d ∷ []) (a' ∷ b' ∷ c' ∷ d' ∷ [])
four e f g h = cc

word_bytes_of :
    (a b c d : ℕ)
    → a < 256
    → b < 256
    → c < 256
    → d < 256
    → word_bytes (a + b * 2 ^ 8 + c * 2 ^ 16 + d * 2 ^ 24) ≡ a ∷ b ∷ c ∷ d ∷ []
word_bytes_of a b c d la lb lc ld =
    let e₀ : (a + b * 2 ^ 8 + c * 2 ^ 16 + d * 2 ^ 24) % 256 ≡ a = omega arith in
    let e₁ : (a + b * 2 ^ 8 + c * 2 ^ 16 + d * 2 ^ 24) / 2 ^ 8 % 256 ≡ b = omega arith in
    let e₂ : (a + b * 2 ^ 8 + c * 2 ^ 16 + d * 2 ^ 24) / 2 ^ 16 % 256 ≡ c = omega arith in
    let e₃ : (a + b * 2 ^ 8 + c * 2 ^ 16 + d * 2 ^ 24) / 2 ^ 24 % 256 ≡ d = omega arith in
    four e₀ e₁ e₂ e₃

pub bytes_of-words_of :
    (n : ℕ) (l : List ℕ) → length l ≡ n * 4 → Bytes l → bytes_of (words_of l) ≡ l
unfolding bytes_of words_of
bytes_of-words_of n [] e h = refl
bytes_of-words_of n (a ∷ []) e h = absurd (omega arith)
bytes_of-words_of n (a ∷ b ∷ []) e h = absurd (omega arith)
bytes_of-words_of n (a ∷ b ∷ c ∷ []) e h = absurd (omega arith)
bytes_of-words_of zero (a ∷ b ∷ c ∷ d ∷ l) e h = absurd (omega arith)
bytes_of-words_of (suc n) (a ∷ b ∷ c ∷ d ∷ l) e h =
    ap (λ t. word_bytes (a + b * 2 ^ 8 + c * 2 ^ 16 + d * 2 ^ 24) ++ t)
      (bytes_of-words_of n l (omega arith) (λ j. h (suc (suc (suc (suc j))))))
    ∙ ap (λ w. w ++ l) (word_bytes_of a b c d (h 0) (h 1) (h 2) (h 3))

pub get_or-ext :
    (xs ys : List ℕ)
    → length xs ≡ length ys
    → ((j : ℕ) → j < length ys → get_or xs j 0 ≡ get_or ys j 0)
    → xs ≡ ys
get_or-ext [] [] e h = refl
get_or-ext [] (y ∷ ys) e h = absurd (omega arith)
get_or-ext (x ∷ xs) [] e h = absurd (omega arith)
get_or-ext (x ∷ xs) (y ∷ ys) e h =
    ap (λ t. t ∷ xs) (h 0 (omega arith))
    ∙ ap (λ t. y ∷ t) (get_or-ext xs ys (omega arith) (λ j lt. h (suc j) (omega arith)))

-- Writing sectors leaves the others.
pub write_sectors-outside :
    (n : ℕ) (disk : Disk) (lba : ℕ) (buff : List ℕ) (a : ℕ)
    → ((a < lba) ⊎ (lba + n ≤ a))
    → write_sectors n disk lba buff a ≡ disk a
unfolding write_sectors write_sector
write_sectors-outside zero disk lba buff a o = refl
write_sectors-outside (suc n) disk lba buff a o =
    write_sectors-outside n (write_sector disk lba (words_of (take bytes_sector buff))) (lba + 1)
      (drop bytes_sector buff) a (omega arith)
    ∙ rw (==_ne a lba (omega arith)) refl
