-- ===== src/Fs/Files/Sectors.antt =====
-- kern/fs/files.c: the sectors that `files_write` makes of its buffer, and where it writes them,
-- for a file whose blocks are there.
use hoo.Base.{
  ℕ, zero, suc, ◌+◌, ◌-◌, ◌*◌, ◌/◌, ◌%◌, ◌<◌, ◌≤◌, ◌≡◌, ◌≢◌, inl, inr, true, false, not, ◌&&◌, List,
  ok, length, get_or, arith, refl, ap, ◌∙◌, sym, ==_ne, ◌==◌, ℕ_discrete, dec_lt,
}
use mathlib.Core.Path.{subst}
use hoo.UserLib.Memory.{memmove-Moved, Moved, memset-Filled, Filled}
use hoo.Fs.Blocks.{Disk, write_sector}
use hoo.Fs.Inodes.{Fs, iblock_get}
use hoo.Fs.Volume.{bytes_of, words_of, write_block}
use hoo.Fs.Files.{fill_sector, block_for, write_loop}
use hoo.Fs.Inodes.Handle.{write_sector_self, write_sector-ne}
use hoo.Fs.Files.Bytes.{Bytes, bytes_of-words_of}

-- The part of the buffer that belongs into sector `i`
pub record Part (buf : List ℕ) (size i : ℕ) (t : List ℕ) : Type 0 where
  pub whole : length t ≡ 512
  pub bytes : Bytes t
  pub content : (j : ℕ) → j < 512 → i * 512 + j < size → get_or t j 0 ≡ get_or buf (i * 512 + j) 0

front-Moved :
    (tmp buf t : List ℕ) (s n j : ℕ)
    → Moved tmp 0 buf s n t
    → j < n
    → get_or t j 0 ≡ get_or buf (s + j) 0
front-Moved tmp buf t s n j m lt =
    ap (λ x. get_or t x 0) (let e : j ≡ 0 + j = omega arith in e) ∙ m.inside j lt

moved-Bytes :
    (tmp buf t : List ℕ) (s n : ℕ) → Moved tmp 0 buf s n t → Bytes tmp → Bytes buf → Bytes t
moved-Bytes tmp buf t s n m bt bb j = elim (dec_lt j n) [
  | yes l ↦ subst (λ x. x < 256) (sym (front-Moved tmp buf t s n j m l)) (bb (s + j))
  | no g ↦ subst (λ x. x < 256) (sym (m.outside j (inr (omega arith)))) (bt j)
]

filled-Bytes : (t t' : List ℕ) (i n : ℕ) → Filled t i 0 n t' → Bytes t → Bytes t'
filled-Bytes t t' i n f bt j = elim (dec_lt j i) [
  | yes l ↦ subst (λ x. x < 256) (sym (f.outside j (inl l))) (bt j)
  | no g ↦ elim (dec_lt j (i + n)) [
    | yes l ↦ subst (λ x. x < 256) (sym (f.inside j (omega arith) l)) (omega arith)
    | no g' ↦ subst (λ x. x < 256) (sym (f.outside j (inr (omega arith)))) (bt j)
  ]
]

module _ (buf : List ℕ) (size : ℕ) (len : length buf ≡ size) (bytes : Bytes buf)
    (ragged : size % 512 ≢ 0) where
  -- A full sector
  full_Part :
      (tmp : List ℕ) (i : ℕ)
      → length tmp ≡ 512
      → Bytes tmp
      → i < size / 512
      → (t : List ℕ) × (fill_sector tmp buf size i ≡ ok t) × Part buf size i t
  unfolding fill_sector
  full_Part tmp i tl tb lt =
      let other : (i == size / 512 && not (size % 512 == 0)) ≡ false = ground arith in
      let (t, run, m) = memmove-Moved 512 tmp 0 buf (i * 512) (omega arith) (omega arith) in
      (
        t,
        rw other run,
        record {
          whole = omega (arith, m.same_length);
          bytes = moved-Bytes tmp buf t (i * 512) 512 m tb bytes;
          content = λ j l h. front-Moved tmp buf t (i * 512) 512 j m l;
        },
      )

  last_Part :
      (tmp : List ℕ) (i : ℕ)
      → length tmp ≡ 512
      → Bytes tmp
      → i ≡ size / 512
      → (t : List ℕ) × (fill_sector tmp buf size i ≡ ok t) × Part buf size i t
  unfolding fill_sector
  last_Part tmp i tl tb e =
      let this : (i == size / 512 && not (size % 512 == 0)) ≡ true = ground arith in
      let (t, run, m) =
        memmove-Moved (size % 512) tmp 0 buf (i * 512) (omega arith) (omega arith) in
      let (t', run', f) =
        memset-Filled (512 - size % 512) t (size % 512) 0 (omega (arith, m.same_length)) in
      (
        t',
        rw (this, run) run',
        record {
          whole = omega (arith, m.same_length, f.same_length);
          bytes =
              filled-Bytes t t' (size % 512) (512 - size % 512) f
                (moved-Bytes tmp buf t (i * 512) (size % 512) m tb bytes);
          content = λ j l h.
              f.outside j (inl (omega arith))
              ∙ front-Moved tmp buf t (i * 512) (size % 512) j m (omega arith);
        },
      )

  fill_sector-Part :
      (tmp : List ℕ) (i : ℕ)
      → length tmp ≡ 512
      → Bytes tmp
      → i ≤ size / 512
      → (t : List ℕ) × (fill_sector tmp buf size i ≡ ok t) × Part buf size i t
  fill_sector-Part tmp i tl tb le = elim (ℕ_discrete i (size / 512)) [
    | yes e ↦ last_Part tmp i tl tb e
    | no ne ↦ full_Part tmp i tl tb (omega arith)
  ]

  -- The blocks of the file, `lba`, do not depend on what the disk holds.
  module _ (fs : Fs) (idx : ℕ) (lba : ℕ → ℕ) where
    abbrev pub on : Disk → Fs
    on d = record fs { disk = d }

    pub record Blocks : Type 0 where
      pub found : (i : ℕ) → i ≤ size / 512 → (d : Disk) → iblock_get (on d) idx i ≡ ok (lba i)
      pub made : (i : ℕ) → i ≤ size / 512 → lba i ≢ 0
      pub writes :
          (i : ℕ)
          → i ≤ size / 512
          → (d : Disk) (t : List ℕ)
          → write_block (on d) (lba i) t ≡ ok (on (write_sector d (lba i) (words_of t)))
      pub apart : (i j : ℕ) → i ≤ size / 512 → j ≤ size / 512 → i ≢ j → lba i ≢ lba j

    -- Block `i` of the file holds its part of the buffer.
    abbrev pub Holds : Disk → ℕ → Type 0
    Holds d i = Part buf size i (bytes_of (d (lba i)))

    pub write_loop-Holds :
        Blocks
        → (n i : ℕ) (d : Disk) (tmp : List ℕ) → i + n ≡ size / 512 + 1
        → length tmp ≡ 512
        → Bytes tmp
        → (d' : Disk) × (write_loop n (on d) idx tmp buf size i ≡ ok (on d'))
          × ((k : ℕ) → i ≤ k → k ≤ size / 512 → Holds d' k)
          × ((a : ℕ) → ((k : ℕ) → i ≤ k → k ≤ size / 512 → a ≢ lba k) → d' a ≡ d a)
    unfolding write_loop block_for
    write_loop-Holds b zero i d tmp e tl tb = (d, refl, λ k l h. absurd (omega arith), λ a f. refl)
    write_loop-Holds b (suc n) i d tmp e tl tb =
        let h : i ≤ size / 512 = omega arith in
        let (t, run, part) = fill_sector-Part tmp i tl tb h in
        let d₁ : Disk = write_sector d (lba i) (words_of t) in
        let (d', rest, holds, kept) =
          write_loop-Holds b n (i + 1) d₁ t (omega arith) part.whole part.bytes in
        let stays : d' (lba i) ≡ words_of t =
          kept (lba i) (λ k l h'. b.apart i k h h' (omega arith))
          ∙ write_sector_self d (lba i) (words_of t) in
        let held : Holds d' i =
          subst (λ s. Part buf size i s)
            (sym (ap bytes_of stays ∙ bytes_of-words_of 128 t part.whole part.bytes)) part in
        let there : (lba i == 0) ≡ false = ==_ne (lba i) 0 (b.made i h) in
        (
          d',
          rw (run, b.found i h d, there, b.writes i h d t) rest,
          λ k l h'. elim (ℕ_discrete k i) [
            | yes eq ↦ subst (λ x. Holds d' x) (sym eq) held
            | no ne ↦ holds k (omega arith) h'
          ],
          λ a f.
              kept a (λ k l h'. f k (omega arith) h')
              ∙ write_sector-ne d (lba i) (words_of t) a (f i (omega arith) h),
        )
