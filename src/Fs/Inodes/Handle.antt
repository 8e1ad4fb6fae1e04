-- ===== src/Fs/Inodes/Handle.antt =====
-- kern/fs/inodes.c: the block that `iblock_set` stores for a file is the one that `iblock_get`
-- finds.
use hoo.Base.{
  ℕ, ◌+◌, ◌-◌, ◌%◌, ◌^◌, ◌<◌, ◌≤◌, ◌≡◌, ◌≢◌, true, false, List, ok, ◌==◌, length, get_or, set,
  arith, refl, ap, ◌∙◌, All, All-get_or, All-set, length-set, get_elem?-eq-get_or, get_or-set_self,
  ==_refl, ==_ne, replicate,
}
use hoo.UserLib.{load-ok, store-ok}
use hoo.Bitmap.Invariant
use hoo.Bitmap.Invariant.{bit}
use hoo.Bitmap.Claim.{claim-Claimed, Claimed}
use hoo.Fs.Blocks.{Disk, write_sector, free_allocate, free_map_setup}
use hoo.Fs.Inodes.{Bitmap, Fs, Inode, inode_at, write_inode, inode_sector, link, new_block, access}

-- The blocks behind the layout have 32-bit addresses, and 0 is none of them.
pub record Room (fs : Fs) : Type 0 where
  pub map : Invariant.IsValid fs.free_map
  pub low : 0 < fs.sb.lba_free
  pub fits : fs.sb.lba_free + fs.free_map.len_inbits ≤ 2 ^ 32

pub new_block-Claimed :
    {fs : Fs}
    → Room fs
    → (j : ℕ) → j < fs.free_map.len_inbits
    → bit fs.free_map j ≡ false
    → (i : ℕ) × (m : Bitmap) × (new_block fs ≡ ok (fs.sb.lba_free + i, record fs { free_map = m }))
      × Claimed fs.free_map i m
unfolding new_block free_allocate free_map_setup
new_block-Claimed {fs} r j h free =
    let (i, m₁, m₂, scanned, stored, c) = claim-Claimed r.map j h free in
    let fit : (fs.sb.lba_free + i) % 2 ^ 32 ≡ fs.sb.lba_free + i =
      omega (arith, c.inside, r.fits) in
    let back : (fs.sb.lba_free + i + 2 ^ 32 - fs.sb.lba_free) % 2 ^ 32 ≡ i =
      omega (arith, c.inside, r.fits, r.low) in
    let fine : (i == 0xffffffff) ≡ false =
      ==_ne i 0xffffffff (omega (arith, c.inside, r.map.small)) in
    (i, m₂, rw (scanned, fit, back, fine, stored) refl, c)

abbrev pub no_inode : Inode
no_inode = record { size = 0; iblocks = replicate 8 0 }

-- All inodes are in memory, each with its eight block numbers.
pub record Inodes (fs : Fs) : Type 0 where
  pub amount : length fs.inodes ≡ 64
  pub blocks : All (λ n. length n.iblocks ≡ 8) fs.inodes

abbrev pub node_of : Fs → ℕ → Inode
node_of fs idx = get_or fs.inodes idx no_inode

-- Block number `k` of an inode
abbrev pub iblock : Fs → ℕ → ℕ → ℕ
iblock fs idx k = get_or (node_of fs idx).iblocks k 0

module _ {fs : Fs} (v : Inodes fs) (idx : ℕ) (inside : idx < 64) where
  pub inode_at-ok : inode_at fs idx ≡ ok (node_of fs idx)
  unfolding inode_at
  inode_at-ok = rw (get_elem?-eq-get_or fs.inodes idx no_inode (omega (arith, v.amount)))

  pub node-length : length (node_of fs idx).iblocks ≡ 8
  node-length = All-get_or (λ n. length n.iblocks ≡ 8) fs.inodes idx no_inode v.blocks refl

-- The number `lba` is in the inode, as number `k`.
pub record Linked (fs : Fs) (idx k lba : ℕ) : Type 0 where
  pub inodes : Inodes fs
  pub names : iblock fs idx k ≡ lba

pub link-Linked :
    {fs : Fs}
    → Inodes fs
    → (idx : ℕ) → idx < 64
    → (k : ℕ) → k < 8
    → (lba : ℕ)
    → (is : List Inode) × (d : Disk) × (link fs idx k lba
        ≡ ok (record fs { inodes = is; disk = d }))
      × Linked (record fs { inodes = is; disk = d }) idx k lba
unfolding link write_inode
link-Linked {fs} v idx inside k small lba =
    let n : Inode = node_of fs idx in
    let linked : Inode = record n { iblocks = set n.iblocks k lba } in
    let is : List Inode = set fs.inodes idx linked in
    let there : get_or is idx no_inode ≡ linked =
      get_or-set_self fs.inodes idx linked no_inode (omega (arith, v.amount)) in
    let kept : length linked.iblocks ≡ 8 = length-set n.iblocks k lba ∙ node-length v idx inside in
    let now : Inodes (record fs { inodes = is }) = record {
      amount = length-set fs.inodes idx linked ∙ v.amount;
      blocks = All-set (λ n. length n.iblocks ≡ 8) fs.inodes idx linked v.blocks kept;
    } in
    let fine : (idx == 0xffffffff) ≡ false = ==_ne idx 0xffffffff (omega arith) in
    (
      is,
      write_sector fs.disk (fs.sb.lba_inodes + idx) (inode_sector linked),
      rw
          (
            inode_at-ok v idx inside,
            store-ok n.iblocks k lba (omega (arith, node-length v idx inside)),
            fine,
            inode_at-ok now idx inside,
            there,
          )
          refl,
      record {
        inodes = record { amount = now.amount; blocks = now.blocks };
        names =
            ap (λ n. get_or n.iblocks k 0) there
            ∙ get_or-set_self n.iblocks k lba 0 (omega (arith, node-length v idx inside));
      },
    )

pub write_sector_self : (d : Disk) (a : ℕ) (b : List ℕ) → write_sector d a b a ≡ b
unfolding write_sector
write_sector_self d a b = rw (==_refl a) refl

pub write_sector-ne : (d : Disk) (a : ℕ) (b : List ℕ) (c : ℕ) → c ≢ a → write_sector d a b c ≡ d c
unfolding write_sector
write_sector-ne d a b c ne = rw (==_ne c a ne) refl

module _ (fs : Fs) (level : ℕ) (buf : List ℕ) (full : length buf ≡ 128) (k : ℕ) (small : k < 128)
    (lba : ℕ) where
  pub access-write :
      access fs level buf k lba false
      ≡ ok (0, record fs { disk = write_sector fs.disk level (set buf k lba) })
  unfolding access
  access-write = rw (store-ok buf k lba (omega arith)) refl

  pub access-read : access fs level buf k lba true ≡ ok (get_or buf k 0, fs)
  unfolding access
  access-read = rw (load-ok buf k (omega arith)) refl
