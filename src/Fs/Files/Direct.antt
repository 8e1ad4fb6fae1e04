-- ===== src/Fs/Files/Direct.antt =====
-- kern/fs/files.c: a file whose blocks are its six direct ones, and the state behind `files_write`.
use hoo.Base.{
  [], ◌∷◌, ℕ, zero, suc, ◌+◌, ◌-◌, ◌/◌, ◌%◌, ◌^◌, ◌<◌, ◌≤◌, ◌≡◌, ◌≢◌, inr, true, false, ◌&&◌, ◌||◌,
  List, some, ok, length, get_or, set, get_elem?, arith, refl, ◌∙◌, ==_ne, ◌==◌, ltb, leb, lt→ltb,
}
use hoo.UserLib.{load-ok}
use hoo.Bitmap
use hoo.Bitmap.{Bitmap, invalid_index}
use hoo.Fs.Blocks.{Disk, write_sector, free_rw_disk}
use hoo.Fs.Inodes.{Inode, Fs, inode_at, iblock_handle, iblock_get, direct, inode_sector}
use hoo.Fs.Volume.{bytes_of, words_of, read_block, write_block, free_map_update}
use hoo.Fs.Inodes.Handle.{write_sector-ne}
use hoo.Fs.Files.Bytes.{Bytes, write_sectors-outside}
use hoo.Fs.Files.Sectors.{Blocks}

-- File `idx` has its direct blocks for `size` bytes, each in use, and they are behind the layout.
pub record Direct (fs : Fs) (idx : ℕ) (n : Inode) (size : ℕ) : Type 0 where
  pub inside : idx < 64
  pub at : get_elem? fs.inodes idx ≡ some n
  pub eight : length n.iblocks ≡ 8
  pub limit : fs.sb.inode_block_index_max ≡ 16518
  pub low : 0 < fs.sb.lba_free
  pub small : size / 512 < 6
  pub behind : (k : ℕ) → k ≤ size / 512 → fs.sb.lba_free ≤ get_or n.iblocks k 0
  pub in_use :
      (k : ℕ)
      → k ≤ size / 512
      → (bit : ℕ) × (Bitmap.test fs.free_map (get_or n.iblocks k 0 - fs.sb.lba_free) ≡ ok bit)
        × (bit ≢ 0)
  pub apart :
      (i j : ℕ)
      → i ≤ size / 512
      → j ≤ size / 512
      → i ≢ j
      → get_or n.iblocks i 0 ≢ get_or n.iblocks j 0
  pub inodes_before : fs.sb.lba_inodes + 64 ≤ fs.sb.lba_free
  pub map_before : fs.sb.lba_map_free + fs.sb.map_free_sectors ≤ fs.sb.lba_free

pub direct_get :
    (fs : Fs) (idx : ℕ) (n : Inode) (k : ℕ)
    → idx < 64
    → get_elem? fs.inodes idx ≡ some n
    → length n.iblocks ≡ 8
    → fs.sb.inode_block_index_max ≡ 16518
    → 0 < fs.sb.lba_free
    → k < 6
    → iblock_get fs idx k ≡ ok (get_or n.iblocks k 0)
unfolding iblock_get iblock_handle direct inode_at
direct_get fs idx n k inside at eight limit low lt =
    let e₁ : (idx == 0xffffffff || (ltb idx (2 ^ 31) && leb 64 idx)) ≡ false = ground arith in
    let e₂ : (k == 0xffffffff || leb fs.sb.inode_block_index_max k) ≡ false = ground arith in
    let e₃ : (ltb 0 fs.sb.lba_free && false) ≡ false = ground arith in
    let e₄ : (leb fs.sb.lba_free 0 && true) ≡ false = ground arith in
    rw (e₁, e₂, e₃, e₄, lt→ltb k 6 lt, at, load-ok n.iblocks k (omega arith)) refl

pub block-write :
    (fs : Fs) (lba bit : ℕ) (t : List ℕ)
    → fs.sb.lba_free ≤ lba
    → Bitmap.test fs.free_map (lba - fs.sb.lba_free) ≡ ok bit
    → bit ≢ 0
    → write_block fs lba t ≡ ok (record fs { disk = write_sector fs.disk lba (words_of t) })
unfolding write_block free_rw_disk
block-write fs lba bit t le test ne =
    let e : ltb lba fs.sb.lba_free ≡ false = ground arith in rw (e, test, ==_ne bit 0 ne) refl

pub block-read :
    (fs : Fs) (lba bit : ℕ)
    → fs.sb.lba_free ≤ lba
    → Bitmap.test fs.free_map (lba - fs.sb.lba_free) ≡ ok bit
    → bit ≢ 0
    → read_block fs lba ≡ ok (bytes_of (fs.disk lba))
unfolding read_block free_rw_disk
block-read fs lba bit le test ne =
    let e : ltb lba fs.sb.lba_free ≡ false = ground arith in rw (e, test, ==_ne bit 0 ne) refl

pub Direct-Blocks :
    (fs : Fs) (idx : ℕ) (n : Inode) (buf : List ℕ) (size : ℕ) (len : length buf ≡ size)
    (bytes : Bytes buf) (ragged : size % 512 ≢ 0)
    → Direct fs idx n size
    → Blocks buf size len bytes ragged fs idx (λ k. get_or n.iblocks k 0)
Direct-Blocks fs idx n buf size len bytes ragged v = record {
  found = λ i le d.
      direct_get (record fs { disk = d }) idx n i v.inside v.at v.eight v.limit v.low
        (omega (arith, v.small));
  made = λ i le e. omega (arith, v.behind i le, v.low);
  writes = λ i le d t.
      let (bit, test, ne) = v.in_use i le in
      block-write (record fs { disk = d }) (get_or n.iblocks i 0) bit t (v.behind i le) test ne;
  apart = v.apart;
}

pub get_elem?-set_self {ℓ} :
    {A : Type ℓ} (xs : List A) (i : ℕ) (a x : A)
    → get_elem? xs i ≡ some x
    → get_elem? (set xs i a) i ≡ some a
get_elem?-set_self [] i a x e = cc
get_elem?-set_self (y ∷ ys) zero a x e = refl
get_elem?-set_self (y ∷ ys) (suc i) a x e = get_elem?-set_self ys i a x e

-- The volume behind the loop of `files_write`, with the disk that the loop leaves
abbrev pub finished : Fs → ℕ → Inode → Disk → Fs
finished fs idx n d = free_map_update (record fs {
  inodes = set fs.inodes idx n;
  disk = write_sector d (fs.sb.lba_inodes + idx) (inode_sector n);
})

-- The end of `files_write` does not touch the blocks of files.
pub finished-disk :
    (fs : Fs) (idx : ℕ) (n : Inode) (d : Disk) (a : ℕ)
    → idx < 64
    → fs.sb.lba_inodes + 64 ≤ fs.sb.lba_free
    → fs.sb.lba_map_free + fs.sb.map_free_sectors ≤ fs.sb.lba_free
    → fs.sb.lba_free ≤ a
    → (finished fs idx n d).disk a ≡ d a
unfolding free_map_update
finished-disk fs idx n d a inside ib mb le =
    write_sectors-outside fs.sb.map_free_sectors
      (write_sector d (fs.sb.lba_inodes + idx) (inode_sector n)) fs.sb.lba_map_free fs.free_map.buff
      a (inr (omega arith))
    ∙ write_sector-ne d (fs.sb.lba_inodes + idx) (inode_sector n) a (omega arith)
