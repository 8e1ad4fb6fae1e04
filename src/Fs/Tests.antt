-- ===== src/Fs/Tests.antt =====
-- kern/fs on a small disk without files.
use hoo.Base.{
  get_or, ◌≤◌, true, ℕ, ◌≢◌, false, get_elem?, some, ◌≡◌, [], ◌∷◌, ok, refl, arith, replicate,
  length-replicate, All-replicate, length,
}
use hoo.Fs.Blocks.{
  super_block_sector, new_super_block, SuperBlock, layout, zero_sector, Disk, setup_super_block,
}
use hoo.Fs.Restart.{Held, setup_super_block-again, read_inode-write_inode, later}
use hoo.Fs.Volume.{Volume, read_inode}
use hoo.Bitmap
use hoo.Bitmap.{Bitmap}
use hoo.Fs.Layout.{Fits, layout-Fits}
use hoo.Fs.Inodes.{Fs, write_inode, iblock_set, iblock_get}
use hoo.Fs.Inodes.Handle.{no_inode}
use hoo.Fs.Inodes.FirstLevel.{IsValid}
use hoo.Fs.Inodes.SecondLevel.{get_or-replicate}
use hoo.Fs.Inodes.Roundtrip.{iblock_get-iblock_set}

layout-Fits_example : (sb : SuperBlock) × (layout 2000000 ≡ ok sb) × Fits 2000000 sb
layout-Fits_example = layout-Fits 2000000 (omega arith)

abbrev empty : Fs
empty = record {
  sb = record {
    magic = 0x1905e14d;
    lba_partition = 0;
    lba_super_block = 1;
    lba_map_inode = 2;
    lba_inodes = 3;
    lba_map_free = 67;
    lba_free = 68;
    map_free_sectors = 1;
    inode_block_index_max = 16518;
  };
  inodes = replicate 64 no_inode;
  free_map = record { len_inbits = 8; buff = 1 ∷ []; prev_free = 0 };
  disk = λ a. zero_sector;
}

empty-IsValid : IsValid empty 5
empty-IsValid = record {
  room = record {
    map = record {
      bytes = (omega arith, tt);
      room = omega arith;
      small = omega arith;
      next = omega arith;
    };
    low = omega arith;
    fits = omega arith;
  };
  inodes = record {
    amount = length-replicate 64 no_inode;
    blocks = All-replicate (λ n. length n.iblocks ≡ 8) 64 no_inode refl;
  };
  limit = refl;
  sectors = λ a. refl;
  taken = λ i free. omega arith;
  apart = λ k ne. absurd (ne (get_or-replicate 128 k 0));
}

-- Block 1000 of the file is on the second level, of which nothing is there.
iblock_get-iblock_set_example :
    (fs' : Fs) × (iblock_set empty 5 1000 70 ≡ ok fs') × (iblock_get fs' 5 1000 ≡ ok 70)
iblock_get-iblock_set_example =
    iblock_get-iblock_set empty-IsValid (omega arith) 1 2 (omega arith) (omega arith) (omega arith)
      refl refl 1000 (omega arith) 70 (omega arith)

setup_super_block-again_example :
    (sb : SuperBlock) × (disk' : Disk) × (setup_super_block (λ a. zero_sector) 2000000
      ≡ ok (true, sb, disk'))
    × (setup_super_block disk' 5 ≡ ok (false, sb, disk'))
    × Held (disk' 1) sb
    × (sb.magic ≡ 0x1905e14d)
    × (sb ≡ new_super_block)
    × (disk' 1 ≡ super_block_sector sb zero_sector)
    × ((i : ℕ) → 9 ≤ i → get_or (disk' 1) i 0 ≡ get_or zero_sector i 0)
    × ((lba : ℕ) → lba ≢ 1 → disk' lba ≡ zero_sector)
setup_super_block-again_example = setup_super_block-again (λ a. zero_sector) 2000000 5 (omega arith)

abbrev inode_five : Bitmap
inode_five = record { len_inbits = 64; buff = 32 ∷ replicate 7 0; prev_free = 6 }

five_run : Bitmap.test inode_five 5 ≡ ok 32
unfolding Bitmap.test
five_run = refl

read_inode-write_inode_example :
    (fs' : Fs) × (v' : Volume) × (write_inode empty 5 ≡ ok fs')
    × (read_inode (later fs' (replicate 64 no_inode) empty.free_map inode_five) 5 ≡ ok v')
    × (get_elem? v'.fs.inodes 5 ≡ some no_inode)
    × (v'.fs.disk ≡ fs'.disk)
read_inode-write_inode_example =
    read_inode-write_inode empty 5 no_inode refl refl (omega arith) (replicate 64 no_inode)
      empty.free_map inode_five 32 (omega arith) five_run (omega arith)
