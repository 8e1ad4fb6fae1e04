-- ===== src/Fs/Volume.antt =====
-- kern/fs/inodes.c and kern/fs/free.c: the maps and inodes with their copies on disk, and blocks
-- as bytes. A sector on the disk is 128 words, the least significant byte of a word first.
use hoo.Base.{
  ℕ, zero, suc, ◌+◌, ◌*◌, ◌/◌, ◌%◌, ◌^◌, Bool, true, false, List, [], ◌∷◌, ◌++◌, Outcome, ok, ◌>>=◌,
  ◌>>◌, panic_if, ◌==◌, ltb, if◌then◌else◌, replicate, take, drop, get_or, set, length, fault,
}
use hoo.UserLib.{bzero}
use hoo.Bitmap
use hoo.Bitmap.{Bitmap, invalid_index}
use hoo.Fs.Blocks.{
  Disk, write_sector, zero_sector, free_allocate, free_map_setup, free_rw_disk, max_inodes,
  bytes_sector, base_map_free,
}
use hoo.Fs.Inodes.{Inode, Fs, inode_at}

abbrev pub word_bytes : ℕ → List ℕ
word_bytes w = w % 256 ∷ w / 2 ^ 8 % 256 ∷ w / 2 ^ 16 % 256 ∷ w / 2 ^ 24 % 256 ∷ []

-- The bytes of a buffer of words
unfoldable pub bytes_of : List ℕ → List ℕ
bytes_of [] = []
bytes_of (w ∷ ws) = word_bytes w ++ bytes_of ws

-- The words of a buffer of bytes
unfoldable pub words_of : List ℕ → List ℕ
words_of (a ∷ b ∷ c ∷ d ∷ bs) = (a + b * 2 ^ 8 + c * 2 ^ 16 + d * 2 ^ 24) ∷ words_of bs
words_of bs = []

-- The statics of kern/fs: those that the blocks of a file go through, and the map of inodes
pub record Volume : Type 0 where
  pub fs : Fs
  pub inode_map : Bitmap

-- `ata_driver_rw(buff, …, lba, ATA_CMD_IO_WRITE)` of `n` sectors
unfoldable pub write_sectors : ℕ → Disk → ℕ → List ℕ → Disk
unfolding write_sector words_of
write_sectors zero disk lba buff = disk
write_sectors (suc n) disk lba buff =
    write_sectors n (write_sector disk lba (words_of (take bytes_sector buff))) (lba + 1)
      (drop bytes_sector buff)

-- `ata_driver_rw(buff, …, lba, ATA_CMD_IO_READ)` of `n` sectors
unfoldable pub read_sectors : ℕ → Disk → ℕ → List ℕ
unfolding bytes_of
read_sectors zero disk lba = []
read_sectors (suc n) disk lba = bytes_of (disk lba) ++ read_sectors n disk (lba + 1)

-- `free_map_update()`
unfoldable pub free_map_update : Fs → Fs
unfolding write_sectors
free_map_update fs = record fs {
  disk = write_sectors fs.sb.map_free_sectors fs.disk fs.sb.lba_map_free fs.free_map.buff;
}

-- `inode_map_update()`
unfoldable pub inode_map_update : Volume → Volume
unfolding write_sectors
inode_map_update v = record v {
  fs = record v.fs { disk = write_sectors 1 v.fs.disk v.fs.sb.lba_map_inode v.inode_map.buff };
}

-- `free_rw_disk(buff, lba, ATA_CMD_IO_READ)`, the block as bytes
unfoldable pub read_block : Fs → ℕ → Outcome (List ℕ)
unfolding free_rw_disk bytes_of
read_block fs lba = do
  (words, disk) ← free_rw_disk fs.sb fs.free_map fs.disk zero_sector lba true
  ok (bytes_of words)

-- `free_rw_disk(buff, lba, ATA_CMD_IO_WRITE)`
unfoldable pub write_block : Fs → ℕ → List ℕ → Outcome Fs
unfolding free_rw_disk words_of
write_block fs lba buff = do
  (words, disk) ← free_rw_disk fs.sb fs.free_map fs.disk (words_of buff) lba false
  ok (record fs { disk = disk })

-- `lba = free_allocate(); free_map_setup(lba, true);`
unfoldable pub claim_block : Fs → Outcome (ℕ × Fs)
unfolding free_allocate free_map_setup
claim_block fs = do
  (lba, m) ← free_allocate fs.sb fs.free_map
  m' ← free_map_setup fs.sb m lba true
  ok (lba, record fs { free_map = m' })

-- `free_map_setup(lba, false)`
unfoldable pub give_block : Fs → ℕ → Outcome Fs
unfolding free_map_setup
give_block fs lba = do
  m ← free_map_setup fs.sb fs.free_map lba false
  ok (record fs { free_map = m })

-- `__fs_inodes[idx].size_ = size`
unfoldable pub resize : Fs → ℕ → ℕ → Outcome Fs
unfolding inode_at
resize fs idx size = do
  n ← inode_at fs idx
  ok (record fs { inodes = set fs.inodes idx (record n { size = size }) })

-- `inodes_rw_disk(idx, ATA_CMD_IO_READ)`: the first nine words of the sector
unfoldable pub read_inode : Volume → ℕ → Outcome Volume
read_inode v idx = do
  panic_if (idx == invalid_index) "inodes_write_to_disk(): invalid index"
  is_set ← Bitmap.test v.inode_map idx
  panic_if (is_set == 0) "inodes_read_from_disk(): not allow to read from an empty inode"
  let words = v.fs.disk (v.fs.sb.lba_inodes + idx)
  if ltb idx (length v.fs.inodes)
      then ok (record v {
        fs = record v.fs {
          inodes =
              set v.fs.inodes idx
                (record { size = get_or words 0 0; iblocks = take 8 (drop 1 words) });
        };
      })
      else fault

-- `for (i = 0; i < MAX_INODES; ++i)` of `setup_inode`
unfoldable pub read_inodes : ℕ → Volume → ℕ → Outcome Volume
unfolding read_inode
read_inodes zero v i = ok v
read_inodes (suc n) v i = do
  is_set ← Bitmap.test v.inode_map i
  let next = (read_inode v i >>= λ v'. read_inodes n v' (i + 1))
  let skip = read_inodes n v (i + 1)
  if is_set == 0 then skip else next

abbrev pub empty_inode : Inode
empty_inode = record { size = 0; iblocks = replicate 8 0 }

-- `setup_inode(is_new)`
unfoldable pub setup_inode : Volume → Bool → Outcome Volume
unfolding read_inodes read_sectors write_sectors bytes_of words_of
setup_inode v is_new = do
  m ← Bitmap.init max_inodes v.inode_map.buff
  b ← bzero m.buff bytes_sector
  let fs = record v.fs { inodes = replicate max_inodes empty_inode }
  if is_new
      then ok (record {
        fs = record fs { disk = write_sectors 1 fs.disk 2 b };
        inode_map = record m { buff = b };
      })
      else read_inodes max_inodes
          (record { fs = fs; inode_map = record m { buff = read_sectors 1 fs.disk 2 } }) 0

-- `setup_free_map(is_new)` over the memory that `dyn_alloc` gives
unfoldable pub setup_free_map : Fs → List ℕ → Bool → Outcome Fs
unfolding read_sectors write_sectors bytes_of words_of
setup_free_map fs memory is_new = do
  let inbytes = fs.sb.map_free_sectors * bytes_sector
  b ← bzero memory inbytes
  m ← Bitmap.init (inbytes * 8) b
  if is_new
      then ok (record fs {
        free_map = m;
        disk = write_sectors fs.sb.map_free_sectors fs.disk base_map_free m.buff;
      })
      else ok (record fs {
        free_map = record m { buff = read_sectors fs.sb.map_free_sectors fs.disk base_map_free };
      })
