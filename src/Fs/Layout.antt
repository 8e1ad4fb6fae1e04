-- ===== src/Fs/Layout.antt =====
-- kern/fs/super_block.c: the layout that `init_layout` finds.
use hoo.Base.{ℕ, ◌+◌, ◌*◌, ◌<◌, ◌≤◌, ◌≡◌, ok, false, arith, refl, ltb}
use hoo.Fs.Blocks.{
  new_super_block, SuperBlock, layout, free_sectors, free_bitmap_sectors, base_map_free, max_inodes,
}

-- What the file system relies on: the areas follow each other, the bitmap has a bit for every
-- block, and the blocks are on the device.
pub record Fits (dev_sec : ℕ) (sb : SuperBlock) : Type 0 where
  pub inodes_behind : sb.lba_map_inode < sb.lba_inodes
  pub map_behind : sb.lba_inodes + max_inodes ≤ sb.lba_map_free
  pub free_behind : sb.lba_map_free + sb.map_free_sectors ≤ sb.lba_free
  pub bits : free_sectors ≤ sb.map_free_sectors * 512 * 8
  pub on_device : sb.lba_free + free_sectors ≤ dev_sec
  pub index_max : sb.inode_block_index_max ≡ 6 + 128 + 128 * 128

-- On a device with room for it, init_layout finds a layout whose areas follow each other, whose
-- bitmap has a bit for every block and whose blocks are on the device, with 6 + 128 + 128 * 128
-- as the number of blocks of a file.
pub layout-Fits :
    (dev_sec : ℕ)
    → base_map_free + free_bitmap_sectors + free_sectors ≤ dev_sec
    → (sb : SuperBlock) × (layout dev_sec ≡ ok sb) × Fits dev_sec sb
unfolding layout
layout-Fits dev_sec h =
    let e : ltb dev_sec (base_map_free + free_bitmap_sectors + free_sectors) ≡ false =
      ground arith in
    (
      new_super_block,
      rw e refl,
      record {
        inodes_behind = omega arith;
        map_behind = omega arith;
        free_behind = omega arith;
        bits = omega arith;
        on_device = omega arith;
        index_max = refl;
      },
    )
