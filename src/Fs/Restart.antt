-- ===== src/Fs/Restart.antt =====
-- kern/fs: what a later start of the kernel finds on the disk.
use hoo.Base.{
  if◌then◌else◌, ==_iff, zero, suc, ◌-◌, length-set, get_elem?-eq-get_or, some, replicate, [], ◌∷◌,
  ◌++◌, not, ◌≤◌, Bool-cases, inl, inr, ℕ, ◌+◌, ◌<◌, ◌≡◌, Bool, false, List, ok, ◌==◌, ltb, refl,
  arith, length, get_or, set, ==_refl, ==_ne, lt→ltb, ◌≢◌, ap, ◌∙◌, get_or-set_self, get_elem?,
  get_elem?-eq-get_or, drop, take,
}
use hoo.Bitmap
use hoo.Bitmap.{Bitmap, invalid_index}
use hoo.Fs.Blocks.{
  SuperBlock, Disk, new_super_block, setup_super_block, super_block_of, super_block_sector,
  base_map_free, free_bitmap_sectors, free_sectors, write_sector,
}
use hoo.Fs.Inodes.{Inode, Fs, write_inode, inode_at, inode_sector}
use hoo.Fs.Volume.{Volume, read_inode}

-- The least device that `init_layout` takes
abbrev pub least_device : ℕ
least_device = base_map_free + free_bitmap_sectors + free_sectors

abbrev pub has_magic : Disk → Bool
has_magic disk = get_or (disk 1) 0 0 == 0x1905e14d

-- The words at the start of a sector are the fields of a super block.
pub record Held (sector : List ℕ) (sb : SuperBlock) : Type 0 where
  pub magic : get_or sector 0 0 ≡ sb.magic
  pub lba_partition : get_or sector 1 0 ≡ sb.lba_partition
  pub lba_super_block : get_or sector 2 0 ≡ sb.lba_super_block
  pub lba_map_inode : get_or sector 3 0 ≡ sb.lba_map_inode
  pub lba_inodes : get_or sector 4 0 ≡ sb.lba_inodes
  pub lba_map_free : get_or sector 5 0 ≡ sb.lba_map_free
  pub lba_free : get_or sector 6 0 ≡ sb.lba_free
  pub map_free_sectors : get_or sector 7 0 ≡ sb.map_free_sectors
  pub inode_block_index_max : get_or sector 8 0 ≡ sb.inode_block_index_max

super_block_of-Held : (s : List ℕ) → Held s (super_block_of s)
super_block_of-Held s = record {
  magic = refl;
  lba_partition = refl;
  lba_super_block = refl;
  lba_map_inode = refl;
  lba_inodes = refl;
  lba_map_free = refl;
  lba_free = refl;
  map_free_sectors = refl;
  inode_block_index_max = refl;
}

super_block_sector-Held : (sb : SuperBlock) (s : List ℕ) → Held (super_block_sector sb s) sb
super_block_sector-Held sb s = record {
  magic = refl;
  lba_partition = refl;
  lba_super_block = refl;
  lba_map_inode = refl;
  lba_inodes = refl;
  lba_map_free = refl;
  lba_free = refl;
  map_free_sectors = refl;
  inode_block_index_max = refl;
}

get_or-drop : (n : ℕ) (s : List ℕ) (i : ℕ) → get_or (drop n s) i 0 ≡ get_or s (n + i) 0
get_or-drop zero s i = ap (λ j. get_or s j 0) (let e : i ≡ 0 + i = omega arith in e)
get_or-drop (suc n) [] i = refl
get_or-drop (suc n) (x ∷ s) i =
    get_or-drop n s i
    ∙ ap (λ j. get_or (x ∷ s) j 0) (let e : suc (n + i) ≡ suc n + i = omega arith in e)

super_block_sector-behind :
    (sb : SuperBlock) (s : List ℕ) (i : ℕ)
    → 9 ≤ i
    → get_or (super_block_sector sb s) i 0 ≡ get_or s i 0
super_block_sector-behind sb s i past =
    let e : i ≡ suc (suc (suc (suc (suc (suc (suc (suc (suc (i - 9))))))))) = omega arith in
    ap (λ k. get_or (super_block_sector sb s) k 0) e
    ∙ (get_or-drop 9 s (i - 9)
        ∙ ap (λ k. get_or s k 0) (let back : 9 + (i - 9) ≡ i = omega arith in back))

-- On a device with room for the file system, setup_super_block takes the super block that sector
-- 1 holds, and leaves the sector as it is, if its first word is the magic number, and else makes
-- a new one: in either case the first nine words of sector 1 are then the fields of the super
-- block, with the magic number first, and its other words and all other sectors are as before; a
-- later start finds the same super block and writes nothing, whatever the size of the device.
pub setup_super_block-again :
    (disk : Disk) (dev_sec later_sec : ℕ)
    → least_device ≤ dev_sec
    → (sb : SuperBlock) × (disk' : Disk) × (setup_super_block disk dev_sec
        ≡ ok (not (has_magic disk), sb, disk'))
      × (setup_super_block disk' later_sec ≡ ok (false, sb, disk'))
      × Held (disk' 1) sb
      × (sb.magic ≡ 0x1905e14d)
      × (sb ≡ (if has_magic disk then super_block_of (disk 1) else new_super_block))
      × (disk' 1 ≡ (if has_magic disk then disk 1 else super_block_sector sb (disk 1)))
      × ((i : ℕ) → 9 ≤ i → get_or (disk' 1) i 0 ≡ get_or (disk 1) i 0)
      × ((lba : ℕ) → lba ≢ 1 → disk' lba ≡ disk lba)
unfolding setup_super_block
setup_super_block-again disk dev_sec later_sec room = elim (Bool-cases (has_magic disk)) [
  | inl old ↦ (
    super_block_of (disk 1),
    disk,
    rw (old, setup_super_block),
    rw (old, setup_super_block),
    super_block_of-Held (disk 1),
    (==_iff _ _).0 old,
    rw old refl,
    rw old refl,
    λ i past. refl,
    λ lba ne. refl,
  )
  | inr new ↦
      let fits : ltb dev_sec least_device ≡ false = ground arith in
      (
        new_super_block,
        write_sector disk 1 (super_block_sector new_super_block (disk 1)),
        rw (new, setup_super_block, fits) refl,
        refl,
        super_block_sector-Held new_super_block (disk 1),
        refl,
        rw new refl,
        rw new refl,
        λ i past. super_block_sector-behind new_super_block (disk 1) i past,
        λ lba ne. rw (==_ne lba 1 ne) refl,
      )
]

take-append {ℓ} : {A : Type ℓ} (xs ys : List A) → take (length xs) (xs ++ ys) ≡ xs
take-append [] ys = refl
take-append (x ∷ xs) ys = ap (λ t. x ∷ t) (take-append xs ys)

take_exactly {ℓ} : {A : Type ℓ} (n : ℕ) (xs ys : List A) → length xs ≡ n → take n (xs ++ ys) ≡ xs
take_exactly n xs ys e = rw (← e) (take-append xs ys)

-- What `read_inode` makes of the sector that `write_inode` has written
inode_of-sector :
    (n : Inode)
    → length n.iblocks ≡ 8
    → record { size = get_or (inode_sector n) 0 0; iblocks = take 8 (drop 1 (inode_sector n)) } ≡ n
inode_of-sector n e =
    ap (λ b. record n { iblocks = b }) (take_exactly 8 n.iblocks (replicate 119 0) e)

-- The state of a later start: the disk and the super block are those of before.
abbrev pub later : Fs → List Inode → Bitmap → Bitmap → Volume
later fs' inodes free_map inode_map = record {
  fs = record fs' { inodes = inodes; free_map = free_map };
  inode_map = inode_map;
}

module _ (fs : Fs) (idx : ℕ) (n : Inode) (kept : get_elem? fs.inodes idx ≡ some n)
    (eight : length n.iblocks ≡ 8) (valid : idx ≢ invalid_index) where
  -- An inode with eight block numbers that inodes_rw_disk writes is what a later start, whose map
  -- has its bit set, reads back into the table, and the disk stays as it is.
  pub read_inode-write_inode :
      (inodes : List Inode) (free_map inode_map : Bitmap) (bit : ℕ)
      → idx < length inodes
      → Bitmap.test inode_map idx ≡ ok bit
      → bit ≢ 0
      → (fs' : Fs) × (v' : Volume) × (write_inode fs idx ≡ ok fs')
        × (read_inode (later fs' inodes free_map inode_map) idx ≡ ok v')
        × (get_elem? v'.fs.inodes idx ≡ some n)
        × (v'.fs.disk ≡ fs'.disk)
  unfolding write_inode read_inode inode_at write_sector
  read_inode-write_inode inodes free_map inode_map bit lt is_set ne =
      let disk' : Disk = write_sector fs.disk (fs.sb.lba_inodes + idx) (inode_sector n) in
      let fs' : Fs = record fs { disk = disk' } in
      let back : disk' (fs.sb.lba_inodes + idx) ≡ inode_sector n =
        rw (==_refl (fs.sb.lba_inodes + idx)) refl in
      (
        fs',
        record (later fs' inodes free_map inode_map) {
          fs = record fs' { inodes = set inodes idx n; free_map = free_map };
        },
        rw (==_ne idx invalid_index valid, kept) refl,
        rw
            (
              ==_ne idx invalid_index valid,
              is_set,
              ==_ne bit 0 ne,
              lt→ltb idx (length inodes) lt,
              back,
            )
            (ap
              (λ m. ok (record (later fs' inodes free_map inode_map) {
                fs = record fs' { inodes = set inodes idx m; free_map = free_map };
              }))
              (inode_of-sector n eight)),
        get_elem?-eq-get_or (set inodes idx n) idx n (omega (arith, length-set inodes idx n))
            ∙ ap some (get_or-set_self inodes idx n n lt),
        refl,
      )
