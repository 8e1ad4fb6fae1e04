-- ===== src/Fs/Inodes/FirstLevel.antt =====
-- kern/fs/inodes.c: a block that is stored in the direct index or on the first level is found there.
use hoo.Base.{
  false, ℕ, ◌+◌, ◌<◌, ◌≡◌, ◌≢◌, true, false, List, ok, length, get_or, set, arith, refl, ◌∙◌, sym,
  length-set, get_or-set_self, ℕ_discrete, length-replicate,
}
use hoo.UserLib.{load-ok}
use hoo.Bitmap.Invariant.{bit}
use hoo.Fs.Blocks.{write_sector, zero_sector}
use hoo.Fs.Inodes.{Fs, open_inode, direct, level1}
use hoo.Fs.Inodes.Handle.{
  Room, Inodes, node_of, iblock, inode_at-ok, node-length, link-Linked, write_sector_self,
  access-write, access-read,
}
use hoo.Fs.Inodes.Levels.{open_inode-there, open_inode-made}

-- The state of the disk and of one inode: `idx` has its eight numbers, the sectors are whole, and
-- the blocks that the inode's second level is made of are two different ones that are in use.
pub record IsValid (fs : Fs) (idx : ℕ) : Type 0 where
  pub room : Room fs
  pub inodes : Inodes fs
  pub limit : fs.sb.inode_block_index_max ≡ 16518
  pub sectors : (a : ℕ) → length (fs.disk a) ≡ 128
  pub taken : (i : ℕ) → bit fs.free_map i ≡ false → fs.sb.lba_free + i ≢ iblock fs idx 7
  pub apart :
      (k : ℕ)
      → get_or (fs.disk (iblock fs idx 7)) k 0 ≢ 0
      → get_or (fs.disk (iblock fs idx 7)) k 0 ≢ iblock fs idx 7

module _ {fs : Fs} {idx : ℕ} (v : IsValid fs idx) (inside : idx < 64) (lba : ℕ) where
  pub direct-roundtrip :
      (k : ℕ)
      → k < 6
      → (fs' : Fs) × (direct fs idx k lba false ≡ ok (0, fs'))
        × (direct fs' idx k 0 true ≡ ok (lba, fs'))
        × (fs'.sb ≡ fs.sb)
  unfolding direct
  direct-roundtrip k small =
      let (is, d, run, l) = link-Linked v.inodes idx inside k (omega arith) lba in
      let fs' : Fs = record fs { inodes = is; disk = d } in
      (
        fs',
        rw run refl,
        rw
            (
              inode_at-ok l.inodes idx inside,
              load-ok (node_of fs' idx).iblocks k (omega (arith, node-length l.inodes idx inside)),
              l.names,
            )
            refl,
        refl,
      )

  module _ (j : ℕ) (j_lt : j < fs.free_map.len_inbits) (free : bit fs.free_map j ≡ false) where
    -- A write through a block that the inode then names as number 6, and the read that follows
    level1-via :
        (k : ℕ)
        → k < 128
        → (level : ℕ) (buf : List ℕ) (fs₁ : Fs) → open_inode fs idx 6 false ≡ ok (level, buf, fs₁)
        → Inodes fs₁
        → level ≢ 0
        → length buf ≡ 128
        → iblock fs₁ idx 6 ≡ level
        → fs₁.sb ≡ fs.sb
        → (fs' : Fs) × (level1 fs idx k lba false ≡ ok (0, fs'))
          × (level1 fs' idx k 0 true ≡ ok (lba, fs'))
          × (fs'.sb ≡ fs.sb)
    unfolding level1
    level1-via k small level buf fs₁ run is ne full names same =
        let fs' : Fs = record fs₁ { disk = write_sector fs₁.disk level (set buf k lba) } in
        let is' : Inodes fs' = record { amount = is.amount; blocks = is.blocks } in
        let found : fs'.disk level ≡ set buf k lba =
          write_sector_self fs₁.disk level (set buf k lba) in
        let lengths : length (set buf k lba) ≡ 128 = length-set buf k lba ∙ full in
        let read : get_or (set buf k lba) k 0 ≡ lba = get_or-set_self buf k lba 0 (omega arith) in
        (
          fs',
          rw (run, access-write fs₁ level buf full k small lba) refl,
          rw
              (
                open_inode-there is' idx inside 6 (omega arith) true (λ e. ne (sym names ∙ e)),
                names,
                found,
                access-read fs' level (set buf k lba) lengths k small 0,
                read,
              )
              refl,
          same,
        )

    pub level1-roundtrip :
        (k : ℕ)
        → k < 128
        → (fs' : Fs) × (level1 fs idx k lba false ≡ ok (0, fs'))
          × (level1 fs' idx k 0 true ≡ ok (lba, fs'))
          × (fs'.sb ≡ fs.sb)
    level1-roundtrip k small = elim (ℕ_discrete (iblock fs idx 6) 0) [
      | yes none ↦
          let (i, m, is, d, run, c, l) =
            open_inode-made v.inodes idx inside 6 (omega arith) v.room none j j_lt free in
          level1-via k small (fs.sb.lba_free + i) zero_sector
            (record fs { free_map = m; inodes = is; disk = d }) run l.inodes
            (omega (arith, v.room.low)) (length-replicate 128 (let z : ℕ = 0 in z)) l.names refl
      | no ne ↦
          level1-via k small (iblock fs idx 6) (fs.disk (iblock fs idx 6)) fs
            (open_inode-there v.inodes idx inside 6 (omega arith) false ne) v.inodes ne
            (v.sectors (iblock fs idx 6)) refl refl
    ]
