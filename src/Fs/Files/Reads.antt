-- ===== src/Fs/Files/Reads.antt =====
-- kern/fs/files.c: the loop of `files_read` puts the blocks of the file together.
use hoo.Base.{
  ℕ, zero, suc, ◌+◌, ◌-◌, ◌*◌, ◌/◌, ◌<◌, ◌≤◌, ◌≡◌, inl, List, ok, length, get_or, arith, refl, ap,
  ◌∙◌, sym, ◌==◌, if◌then◌else◌, dec_lt,
}
use mathlib.Core.Path.{subst}
use hoo.UserLib.{memmove}
use hoo.UserLib.Memory.{memmove-Moved, Moved}
use hoo.Fs.Inodes.{Fs, iblock_get}
use hoo.Fs.Volume.{read_block}
use hoo.Fs.Files.{read_loop}
use hoo.Fs.Files.Sectors.{Part}

-- The loop of `files_read` over blocks that hold the parts of `buf`
module _ (buf : List ℕ) (size : ℕ) (fs : Fs) (idx : ℕ) (lba : ℕ → ℕ) (sector : ℕ → List ℕ)
    (found : (i : ℕ) → i ≤ size / 512 → iblock_get fs idx i ≡ ok (lba i))
    (reads : (i : ℕ) → i ≤ size / 512 → read_block fs (lba i) ≡ ok (sector i))
    (parts : (i : ℕ) → i ≤ size / 512 → Part buf size i (sector i)) where
  -- The first `i` blocks are read.
  abbrev pub Front : List ℕ → ℕ → Type 0
  Front out i =
      (length out ≡ size) × ((m : ℕ) → m < i * 512 → m < size → get_or out m 0 ≡ get_or buf m 0)

  block-Front :
      (i cur : ℕ) (out : List ℕ)
      → i ≤ size / 512
      → cur ≤ 512
      → i * 512 + cur ≤ size
      → ((m : ℕ) → m < (i + 1) * 512 → m < size → m < i * 512 + cur)
      → Front out i
      → (b : List ℕ) × (memmove out (i * 512) (sector i) 0 cur ≡ ok b) × Front b (i + 1)
  block-Front i cur out h le fits covers f =
      let (b, run, m) =
        memmove-Moved cur out (i * 512) (sector i) 0 (omega (arith, f.0))
          (omega (arith, (parts i h).whole)) in
      (
        b,
        run,
        (
          omega (arith, m.same_length, f.0),
          λ k lt in_size. elim (dec_lt k (i * 512)) [
            | yes before ↦ m.outside k (inl before) ∙ f.1 k before in_size
            | no behind ↦ inner i cur k b h (omega arith) (covers k lt in_size) le in_size out m
          ],
        ),
      )
    where
      inner :
          (i cur k : ℕ) (b : List ℕ)
          → i ≤ size / 512
          → i * 512 ≤ k
          → k < i * 512 + cur
          → cur ≤ 512
          → k < size
          → (out : List ℕ) → Moved out (i * 512) (sector i) 0 cur b
          → get_or b k 0 ≡ get_or buf k 0
      inner i cur k b h ge lt le in_size out m =
          let e : k ≡ i * 512 + (k - i * 512) = omega arith in
          let e' : 0 + (k - i * 512) ≡ k - i * 512 = omega arith in
          ap (λ x. get_or b x 0) e
          ∙ (m.inside (k - i * 512) (omega arith)
              ∙ (ap (λ x. get_or (sector i) x 0) e'
                  ∙ ((parts i h).content (k - i * 512) (omega arith) (omega arith)
                      ∙ ap (λ x. get_or buf x 0) (sym e))))

  -- `cur_size` with `n` rounds to come
  abbrev cur : ℕ → ℕ → ℕ
  cur n i = if n == 0 then size - i * 512 else 512

  cur-le : (n i : ℕ) → i + suc n ≡ size / 512 + 1 → cur n i ≤ 512
  cur-le n i e = ground arith

  cur_fits : (n i : ℕ) → i + suc n ≡ size / 512 + 1 → i * 512 + cur n i ≤ size
  cur_fits n i e = ground arith

  cur_covers :
      (n i : ℕ)
      → i + suc n ≡ size / 512 + 1
      → (m : ℕ) → m < (i + 1) * 512
      → m < size
      → m < i * 512 + cur n i
  cur_covers n i e m lt in_size = ground arith

  pub read_loop-Front :
      (n i : ℕ) (out : List ℕ)
      → i + n ≡ size / 512 + 1
      → Front out i
      → (b : List ℕ) × (read_loop n fs idx size i out ≡ ok b) × Front b (size / 512 + 1)
  unfolding read_loop
  read_loop-Front zero i out e f =
      (out, refl, subst (λ x. Front out x) (let s : i ≡ size / 512 + 1 = omega arith in s) f)
  read_loop-Front (suc n) i out e f =
      let h : i ≤ size / 512 = omega arith in
      let (b, run, f') =
        block-Front i (cur n i) out h (cur-le n i e) (cur_fits n i e) (cur_covers n i e) f in
      let (b', rest, f'') = read_loop-Front n (i + 1) b (omega arith) f' in
      (b', rw (found i h, reads i h, run) rest, f'')
