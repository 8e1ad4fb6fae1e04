-- ===== src/Fs/Inodes/Levels.antt =====
-- kern/fs/inodes.c: the blocks of the first and the second level, opened for a read and for a write.
use hoo.Base.{
  ℕ, ◌+◌, ◌<◌, ◌≡◌, ◌≢◌, Bool, false, List, ok, length, get_or, set, arith, refl, ap, ◌∙◌, sym,
  length-set, get_or-set_self, ==_ne, ℕ_discrete, length-replicate,
}
use hoo.UserLib.{load-ok, store-ok}
use hoo.Bitmap.Invariant.{bit}
use hoo.Bitmap.{Bitmap}
use hoo.Bitmap.Claim.{Claimed}
use hoo.Fs.Blocks.{Disk, write_sector, zero_sector}
use hoo.Fs.Inodes.{Fs, Inode, open_inode, open_block}
use hoo.Fs.Inodes.Handle.{
  Room, new_block-Claimed, Inodes, node_of, iblock, inode_at-ok, node-length, Linked, link-Linked,
  write_sector_self,
}

module _ {fs : Fs} (v : Inodes fs) (idx : ℕ) (inside : idx < 64) (k : ℕ) (small : k < 8) where
  -- A block that is there is only read.
  pub open_inode-there :
      (reading : Bool)
      → iblock fs idx k ≢ 0
      → open_inode fs idx k reading ≡ ok (iblock fs idx k, fs.disk (iblock fs idx k), fs)
  unfolding open_inode
  open_inode-there reading ne =
      rw
        (
          inode_at-ok v idx inside,
          load-ok (node_of fs idx).iblocks k (omega (arith, node-length v idx inside)),
          ==_ne (iblock fs idx k) 0 ne,
        )
        refl

  -- A block that is not there is made for a write, and the inode names it.
  pub open_inode-made :
      Room fs
      → iblock fs idx k ≡ 0
      → (j : ℕ) → j < fs.free_map.len_inbits
      → bit fs.free_map j ≡ false
      → (i : ℕ) × (m : Bitmap) × (is : List Inode) × (d : Disk) × (open_inode fs idx k false
          ≡ ok (fs.sb.lba_free + i, zero_sector, record fs { free_map = m; inodes = is; disk = d }))
        × Claimed fs.free_map i m
        × Linked (record fs { free_map = m; inodes = is; disk = d }) idx k (fs.sb.lba_free + i)
  unfolding open_inode
  open_inode-made r none j h free =
      let (i, m, made, c) = new_block-Claimed r j h free in
      let v' : Inodes (record fs { free_map = m }) = record {
        amount = v.amount;
        blocks = v.blocks;
      } in
      let (is, d, run, l) = link-Linked v' idx inside k small (fs.sb.lba_free + i) in
      (
        i,
        m,
        is,
        d,
        rw
            (
              inode_at-ok v idx inside,
              load-ok (node_of fs idx).iblocks k (omega (arith, node-length v idx inside)),
              none,
              made,
              run,
            )
            refl,
        c,
        l,
      )

-- What a block of the second level needs: the block `top` with its buffer, whose numbers, if there
-- are any, are those on disk and name other blocks.
pub record Top (fs : Fs) (top : ℕ) (buf : List ℕ) : Type 0 where
  pub full : length buf ≡ 128
  pub on_disk : (k : ℕ) → get_or buf k 0 ≢ 0 → buf ≡ fs.disk top
  pub apart : (k : ℕ) → get_or buf k 0 ≢ 0 → get_or buf k 0 ≢ top
  pub sectors : (k : ℕ) → get_or buf k 0 ≢ 0 → length (fs.disk (get_or buf k 0)) ≡ 128
  pub taken : (i : ℕ) → bit fs.free_map i ≡ false → fs.sb.lba_free + i ≢ top

-- The block `level` is number `k` of `top`.
pub record Below (fs : Fs) (top k level : ℕ) (buf : List ℕ) : Type 0 where
  pub nonzero : level ≢ 0
  pub full : length buf ≡ 128
  pub names : get_or (fs.disk top) k 0 ≡ level
  pub sector : length (fs.disk top) ≡ 128
  pub apart : level ≢ top

pub open_block-Below :
    {fs : Fs}
    → Room fs
    → (top : ℕ) (buf : List ℕ) → Top fs top buf
    → (k : ℕ) → k < 128
    → (j : ℕ) → j < fs.free_map.len_inbits
    → bit fs.free_map j ≡ false
    → (level : ℕ) × (buf' : List ℕ) × (m : Bitmap) × (d : Disk) × (open_block fs top buf k false
        ≡ ok (level, buf', record fs { free_map = m; disk = d }))
      × Below (record fs { free_map = m; disk = d }) top k level buf'
unfolding open_block
open_block-Below {fs} r top buf t k small j h free = elim (ℕ_discrete (get_or buf k 0) 0) [
  | yes none ↦
      let (i, m, made, c) = new_block-Claimed r j h free in
      let level : ℕ = fs.sb.lba_free + i in
      let b : List ℕ = set buf k level in
      let d : Disk = write_sector fs.disk top b in
      let back : d top ≡ b = write_sector_self fs.disk top b in
      (
        level,
        zero_sector,
        m,
        d,
        rw
            (
              load-ok buf k (omega (arith, t.full)),
              none,
              made,
              store-ok buf k level (omega (arith, t.full)),
            )
            refl,
        record {
          nonzero = omega (arith, r.low);
          full = length-replicate 128 (let z : ℕ = 0 in z);
          names =
              ap (λ (s : List ℕ). get_or s k 0) back
              ∙ get_or-set_self buf k level 0 (omega (arith, t.full));
          sector = ap (λ (s : List ℕ). length s) back ∙ (length-set buf k level ∙ t.full);
          apart = t.taken i c.was_free;
        },
      )
  | no ne ↦
      let disk : buf ≡ fs.disk top = t.on_disk k ne in
      (
        get_or buf k 0,
        fs.disk (get_or buf k 0),
        fs.free_map,
        fs.disk,
        rw (load-ok buf k (omega (arith, t.full)), ==_ne (get_or buf k 0) 0 ne) refl,
        record {
          nonzero = ne;
          full = t.sectors k ne;
          names = ap (λ (s : List ℕ). get_or s k 0) (sym disk);
          sector = ap (λ (s : List ℕ). length s) (sym disk) ∙ t.full;
          apart = t.apart k ne;
        },
      )
]

-- A number of a block that is there is only read.
pub open_block-there :
    {fs : Fs}
    → (top : ℕ) (buf : List ℕ) (k : ℕ) (reading : Bool) → length buf ≡ 128
    → k < 128
    → get_or buf k 0 ≢ 0
    → open_block fs top buf k reading ≡ ok (get_or buf k 0, fs.disk (get_or buf k 0), fs)
unfolding open_block
open_block-there {fs} top buf k reading full small ne =
    rw (load-ok buf k (omega arith), ==_ne (get_or buf k 0) 0 ne) refl
