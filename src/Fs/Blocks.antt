-- ===== src/Fs/Blocks.antt =====
-- kern/fs/super_block.c and kern/fs/free.c: the layout of the disk, and the blocks behind it with
-- their bitmap. A sector is 128 words; what `ata_driver_rw` transfers is in the sector at once.
use hoo.Base.{
  ℕ, zero, suc, ◌+◌, ◌-◌, ◌*◌, ◌/◌, ◌%◌, ◌^◌, Bool, List, Outcome, ok, ◌>>=◌, ◌>>◌, panic_if, ◌==◌,
  ltb, if◌then◌else◌, replicate, get_or, true, false, drop, ◌∷◌,
}
use hoo.Bitmap
use hoo.Bitmap.{Bitmap, scan_empty, invalid_index}

-- `super_block_t`
pub record SuperBlock : Type 0 where
  pub magic : ℕ
  pub lba_partition : ℕ
  pub lba_super_block : ℕ
  pub lba_map_inode : ℕ
  pub lba_inodes : ℕ
  pub lba_map_free : ℕ
  pub lba_free : ℕ
  pub map_free_sectors : ℕ
  pub inode_block_index_max : ℕ

abbrev pub max_direct : ℕ
max_direct = 6

abbrev pub max_inode_blocks : ℕ
max_inode_blocks = 8

abbrev pub max_inodes : ℕ
max_inodes = 64

abbrev pub bytes_sector : ℕ
bytes_sector = 512

-- `LBA_ITEMS_PER_SECTOR`
abbrev pub items : ℕ
items = 128

abbrev pub base_inodes : ℕ
base_inodes = 3

abbrev pub base_map_free : ℕ
base_map_free = base_inodes + max_inodes

-- `FREE_SEC_2` and `FREE_BITMAP_SEC_2`
abbrev pub free_sectors : ℕ
free_sectors = max_inodes * (max_direct + items + items * items)

abbrev pub free_bitmap_sectors : ℕ
free_bitmap_sectors = free_sectors / 8 / bytes_sector + 1

-- `for (; cnt > 0; --cnt) cube += …`
abbrev pub cubes : ℕ → ℕ
cubes zero = 0
cubes (suc cnt) = items * items + cubes cnt

-- The super block that `init_layout` and the rest of `setup_super_block` fill in
abbrev pub new_super_block : SuperBlock
new_super_block = record {
  magic = 0x1905e14d;
  lba_partition = 0;
  lba_super_block = 1;
  lba_map_inode = 2;
  lba_inodes = base_inodes;
  lba_map_free = base_map_free;
  lba_free = base_map_free + free_bitmap_sectors;
  map_free_sectors = free_bitmap_sectors;
  inode_block_index_max = max_direct + items + cubes (max_inode_blocks - max_direct - 1);
}

-- `setup_super_block()` on a device of `dev_sec` sectors that holds no file system
unfoldable pub layout : ℕ → Outcome SuperBlock
layout dev_sec = do
  panic_if (ltb dev_sec (base_map_free + free_bitmap_sectors + free_sectors))
      "init_layout(): no enough space for file system"
  ok new_super_block

abbrev pub Disk : Type 0
Disk = ℕ → List ℕ

-- `ata_driver_rw(buf, BYTES_SECTOR, lba, ATA_CMD_IO_WRITE)`
unfoldable pub write_sector : Disk → ℕ → List ℕ → Disk
write_sector disk lba buf a = if a == lba then buf else disk a

abbrev pub zero_sector : List ℕ
zero_sector = replicate 128 0

-- `free_allocate()`
unfoldable pub free_allocate : SuperBlock → Bitmap → Outcome (ℕ × Bitmap)
free_allocate sb m = do (bit, m') ← scan_empty m; ok ((sb.lba_free + bit) % 2 ^ 32, m')

-- `free_map_setup(index, is_set)`
unfoldable pub free_map_setup : SuperBlock → Bitmap → ℕ → Bool → Outcome Bitmap
free_map_setup sb m index is_set = do
  let bit : ℕ = (index + 2 ^ 32 - sb.lba_free) % 2 ^ 32
  panic_if (bit == invalid_index) "free_release(): invalid lba"
  if is_set then Bitmap.set m bit else Bitmap.clear m bit

-- `free_rw_disk(buff, base_lba, cmd)`: a sector is read, or the buffer is written.
unfoldable pub free_rw_disk :
    SuperBlock → Bitmap → Disk → List ℕ → ℕ → Bool → Outcome (List ℕ × Disk)
free_rw_disk sb m disk buff base_lba reading = do
  panic_if (ltb base_lba sb.lba_free) "free_rw_disk(): invalid lba"
  is_set ← Bitmap.test m (base_lba - sb.lba_free)
  panic_if (is_set == 0) "free_rw_disk(): not allow to read from / write to an empty block"
  ok (if reading then (disk base_lba, disk) else (buff, write_sector disk base_lba buff))

-- `memmove(&__super_block, sect, sizeof(super_block_t))`
abbrev pub super_block_of : List ℕ → SuperBlock
super_block_of s = record {
  magic = get_or s 0 0;
  lba_partition = get_or s 1 0;
  lba_super_block = get_or s 2 0;
  lba_map_inode = get_or s 3 0;
  lba_inodes = get_or s 4 0;
  lba_map_free = get_or s 5 0;
  lba_free = get_or s 6 0;
  map_free_sectors = get_or s 7 0;
  inode_block_index_max = get_or s 8 0;
}

-- The sector that was read, with the super block over its start
abbrev pub super_block_sector : SuperBlock → List ℕ → List ℕ
super_block_sector sb s =
    sb.magic
    ∷ sb.lba_partition
    ∷ sb.lba_super_block
    ∷ sb.lba_map_inode
    ∷ sb.lba_inodes
    ∷ sb.lba_map_free
    ∷ sb.lba_free
    ∷ sb.map_free_sectors
    ∷ sb.inode_block_index_max
    ∷ drop 9 s

-- `setup_super_block()`: whether the disk is a new one, `__super_block`, and the disk
unfoldable pub setup_super_block : Disk → ℕ → Outcome (Bool × SuperBlock × Disk)
unfolding layout write_sector
setup_super_block disk dev_sec = do
  let sect : List ℕ = disk 1
  if (super_block_of sect).magic == 0x1905e14d
      then ok (false, super_block_of sect, disk)
      else (do sb ← layout dev_sec; ok (true, sb, write_sector disk 1 (super_block_sector sb sect)))
