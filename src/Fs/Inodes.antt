-- ===== src/Fs/Inodes.antt =====
-- kern/fs/inodes.c: the inodes in memory and on disk, and the blocks of a file through the direct
-- index, the first and the second level.
pub mod Handle
pub mod Levels
pub mod FirstLevel
pub mod SecondLevel
pub mod Roundtrip
use hoo.Base.{
  ℕ, zero, suc, ◌+◌, ◌-◌, ◌*◌, ◌/◌, ◌%◌, ◌^◌, Bool, true, false, not, ◌&&◌, ◌||◌, List, [], ◌∷◌,
  ◌++◌, Outcome, ok, panic, fault, ◌>>=◌, ◌>>◌, panic_if, checked, ◌==◌, ltb, leb, if◌then◌else◌,
  replicate, length, get_elem?, set,
}
use hoo.UserLib.{load, store}
use hoo.Bitmap
use hoo.Bitmap.{Bitmap, invalid_index, scan_empty}
use hoo.Fs.Blocks.{
  SuperBlock, Disk, write_sector, zero_sector, free_allocate, free_map_setup, max_inodes,
  max_direct, items,
}

-- `inode_t`
pub record Inode : Type 0 where
  pub size : ℕ
  pub iblocks : List ℕ

-- The statics of inodes.c and free.c that the blocks of a file go through, and the disk
pub record Fs : Type 0 where
  pub sb : SuperBlock
  pub inodes : List Inode
  pub free_map : Bitmap
  pub disk : Disk

-- An inode at the start of a sector of zeros
abbrev pub inode_sector : Inode → List ℕ
inode_sector n = n.size ∷ n.iblocks ++ replicate 119 0

-- `__fs_inodes[idx]`
unfoldable pub inode_at : Fs → ℕ → Outcome Inode
inode_at fs idx = checked (get_elem? fs.inodes idx)

-- `inodes_rw_disk(idx, ATA_CMD_IO_WRITE)`
unfoldable pub write_inode : Fs → ℕ → Outcome Fs
unfolding inode_at
write_inode fs idx = do
  panic_if (idx == invalid_index) "inodes_write_to_disk(): invalid index"
  n ← inode_at fs idx
  ok (record fs { disk = write_sector fs.disk (fs.sb.lba_inodes + idx) (inode_sector n) })

-- `inode_set(idx, size, base_lba)`
unfoldable pub inode_set : Fs → ℕ → ℕ → ℕ → Outcome Fs
inode_set fs idx size base_lba = do
  panic_if (idx == invalid_index) "inode_set(): invalid inode"
  if ltb idx (length fs.inodes)
      then ok (record fs {
        inodes = set fs.inodes idx (record { size = size; iblocks = base_lba ∷ replicate 7 0 });
      })
      else fault

-- `inode->iblocks_[k] = lba; inodes_rw_disk(idx, ATA_CMD_IO_WRITE);`
unfoldable pub link : Fs → ℕ → ℕ → ℕ → Outcome Fs
unfolding inode_at write_inode store
link fs idx k lba = do
  n ← inode_at fs idx
  b ← store n.iblocks k lba
  write_inode (record fs { inodes = set fs.inodes idx (record n { iblocks = b }) }) idx

-- `level = free_allocate(); free_map_setup(level, true);`
unfoldable pub new_block : Fs → Outcome (ℕ × Fs)
unfolding free_allocate free_map_setup
new_block fs = do
  (level, m) ← free_allocate fs.sb fs.free_map
  m' ← free_map_setup fs.sb m level true
  ok (level, record fs { free_map = m' })

-- The block of the first or second level that `iblocks_[k]` names, with its buffer; for a write it
-- is made if there is none.
unfoldable pub open_inode : Fs → ℕ → ℕ → Bool → Outcome (ℕ × List ℕ × Fs)
unfolding inode_at new_block link load
open_inode fs idx k reading = do
  n ← inode_at fs idx
  level ← load n.iblocks k
  if level == 0
      then (if reading then ok (level, zero_sector, fs) else (do
        (made, fs') ← new_block fs
        fs'' ← link fs' idx k made
        ok (made, zero_sector, fs'')))
      else ok (level, fs.disk level, fs)

-- The block that word `k` of the block `level2` names, with its buffer; `buf` is the content of
-- `level2`.
unfoldable pub open_block : Fs → ℕ → List ℕ → ℕ → Bool → Outcome (ℕ × List ℕ × Fs)
unfolding new_block load store
open_block fs level2 buf k reading = do
  level ← load buf k
  if level == 0
      then (if reading then ok (level, zero_sector, fs) else (do
        (made, fs') ← new_block fs
        b ← store buf k made
        ok (made, zero_sector, record fs' { disk = write_sector fs'.disk level2 b })))
      else ok (level, fs.disk level, fs)

-- The end of each level: the word is read, or it is written to the buffer and the buffer to disk.
unfoldable pub access : Fs → ℕ → List ℕ → ℕ → ℕ → Bool → Outcome (ℕ × Fs)
unfolding load store
access fs level buf k lba reading =
    if reading
    then (do v ← load buf k; ok (v, fs))
    else (do b ← store buf k lba; ok (0, record fs { disk = write_sector fs.disk level b }))

unfoldable pub direct : Fs → ℕ → ℕ → ℕ → Bool → Outcome (ℕ × Fs)
unfolding inode_at link load
direct fs idx k lba reading =
    if reading
    then (do n ← inode_at fs idx; v ← load n.iblocks k; ok (v, fs))
    else (do fs' ← link fs idx k lba; ok (0, fs'))

unfoldable pub level1 : Fs → ℕ → ℕ → ℕ → Bool → Outcome (ℕ × Fs)
unfolding open_inode access
level1 fs idx k lba reading = do
  (level, buf, fs') ← open_inode fs idx 6 reading
  access fs' level buf k lba reading

unfoldable pub level2 : Fs → ℕ → ℕ → ℕ → Bool → Outcome (ℕ × Fs)
unfolding open_inode open_block access
level2 fs idx k lba reading = do
  (top, buf, fs') ← open_inode fs idx 7 reading
  (level, buf', fs'') ← open_block fs' top buf (k / items) reading
  access fs'' level buf' (k % items) lba reading

-- `iblock_handle(inode_idx, iblock_idx, write, read)`; `reading` says that `read` is not null.
unfoldable pub iblock_handle : Fs → ℕ → ℕ → ℕ → Bool → Outcome (ℕ × Fs)
unfolding direct level1 level2
iblock_handle fs idx k lba reading = do
  panic_if (idx == invalid_index || (ltb idx (2 ^ 31) && leb max_inodes idx))
      "iblock_handle(): invalid inode index"
  panic_if (k == invalid_index || leb fs.sb.inode_block_index_max k)
      "iblock_handle(): invalid iblock index"
  panic_if (ltb lba fs.sb.lba_free && not reading) "iblock_handle(): invalid lba"
  panic_if (leb fs.sb.lba_free lba && reading) "iblock_handle(): illegal operation"
  if ltb k 6
      then direct fs idx k lba reading
      else if ltb k 134
      then level1 fs idx (k - 6) lba reading
      else if ltb k 16518
      then level2 fs idx (k - 134) lba reading
      else panic "iblock_handle(): invalid iblock index"

-- `iblock_set(inode_idx, iblock_idx, lba)`
unfoldable pub iblock_set : Fs → ℕ → ℕ → ℕ → Outcome Fs
unfolding iblock_handle
iblock_set fs idx k lba = do (v, fs') ← iblock_handle fs idx k lba false; ok fs'

-- `iblock_get(inode_idx, iblock_idx)`
unfoldable pub iblock_get : Fs → ℕ → ℕ → Outcome ℕ
unfolding iblock_handle
iblock_get fs idx k = do (v, fs') ← iblock_handle fs idx k 0 true; ok v

-- `inode_allocate()`, over the map of inodes
unfoldable pub inode_allocate : Bitmap → Outcome (ℕ × Bitmap)
inode_allocate m = scan_empty m

-- `inode_map_setup(inode_idx, is_set)`
unfoldable pub inode_map_setup : Bitmap → ℕ → Bool → Outcome Bitmap
inode_map_setup m idx is_set = do
  panic_if (idx == invalid_index) "inode_map_update(): invalid index"
  if is_set then Bitmap.set m idx else Bitmap.clear m idx
