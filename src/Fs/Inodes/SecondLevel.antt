-- ===== src/Fs/Inodes/SecondLevel.antt =====
-- kern/fs/inodes.c: a block that is stored on the second level is found there.
use hoo.Base.{
  zero, false, ==_ne, ◌%◌, ◌/◌, ==_refl, ap, suc, replicate, ℕ, ◌+◌, ◌<◌, ◌≡◌, ◌≢◌, true, false,
  List, ok, length, get_or, set, arith, refl, ◌∙◌, sym, length-set, get_or-set_self, ℕ_discrete,
  length-replicate,
}
use hoo.Bitmap.Claim.{Claimed}
use hoo.Bitmap.Invariant.{bit}
use hoo.Fs.Blocks.{write_sector, zero_sector}
use hoo.Fs.Inodes.{level2, Bitmap, Fs, open_inode}
use hoo.Fs.Inodes.Handle.{
  write_sector-ne, Room, Inodes, iblock, write_sector_self, access-write, access-read,
}
use hoo.Fs.Inodes.Levels.{
  open_block-there, open_block-Below, Top, open_inode-there, open_inode-made,
}
use hoo.Fs.Inodes.FirstLevel.{IsValid}

true-false : true ≡ false → ⊥
true-false e = ground arith

-- Of two free blocks one is left when one is taken.
left_over :
    {m : Bitmap} {a : ℕ} {m' : Bitmap}
    → Claimed m a m'
    → (i j : ℕ) → i < m.len_inbits
    → j < m.len_inbits
    → i ≢ j
    → bit m i ≡ false
    → bit m j ≡ false
    → (b : ℕ) × (b < m.len_inbits) × (bit m' b ≡ false)
left_over {m} {a} {m'} c i j i_lt j_lt ne free_i free_j = elim (ℕ_discrete a i) [
  | yes e ↦ (j, j_lt, c.bits j ∙ (rw (==_ne a j (λ f. ne (sym e ∙ f))) free_j))
  | no other ↦ (i, i_lt, c.bits i ∙ (rw (==_ne a i other) free_i))
]

pub get_or-replicate : (n k z : ℕ) → get_or (replicate n z) k z ≡ z
get_or-replicate zero k z = refl
get_or-replicate (suc n) zero z = refl
get_or-replicate (suc n) (suc k) z = get_or-replicate n k z

-- A block that has just been made names no other.
made-Top : (fs : Fs) (a : ℕ) → bit fs.free_map a ≡ true → Top fs (fs.sb.lba_free + a) zero_sector
made-Top fs a used = record {
  full = length-replicate 128 (let z : ℕ = 0 in z);
  on_disk = λ k ne. absurd (ne (get_or-replicate 128 k 0));
  apart = λ k ne. absurd (ne (get_or-replicate 128 k 0));
  sectors = λ k ne. absurd (ne (get_or-replicate 128 k 0));
  taken = λ i free e.
      let same : i ≡ a = omega arith in
      true-false (sym used ∙ (ap (λ t. bit fs.free_map t) (sym same) ∙ free));
}

module _ (fs : Fs) (idx : ℕ) (inside : idx < 64) (lba k : ℕ) (small : k < 16384) where
  -- The same through the block `top`, which the inode names as number 7.
  level2-via :
      (top : ℕ) (buf : List ℕ) (fs₁ : Fs)
      → open_inode fs idx 7 false ≡ ok (top, buf, fs₁)
      → Inodes fs₁
      → top ≢ 0
      → Top fs₁ top buf
      → iblock fs₁ idx 7 ≡ top
      → fs₁.sb ≡ fs.sb
      → Room fs₁
      → (j : ℕ) → j < fs₁.free_map.len_inbits
      → bit fs₁.free_map j ≡ false
      → (fs' : Fs) × (level2 fs idx k lba false ≡ ok (0, fs'))
        × (level2 fs' idx k 0 true ≡ ok (lba, fs'))
        × (fs'.sb ≡ fs.sb)
  unfolding level2
  level2-via top buf fs₁ run is ne t names same r j j_lt free =
      let (level, buf', m, d, opened, b) =
        open_block-Below r top buf t (k / 128) (omega arith) j j_lt free in
      let fs₂ : Fs = record fs₁ { free_map = m; disk = d } in
      let s : List ℕ = set buf' (k % 128) lba in
      let fs' : Fs = record fs₂ { disk = write_sector d level s } in
      let is' : Inodes fs' = record { amount = is.amount; blocks = is.blocks } in
      let at_top : fs'.disk top ≡ d top = write_sector-ne d level s top (λ e. b.apart (sym e)) in
      let word : get_or (fs'.disk top) (k / 128) 0 ≡ level =
        ap (λ (x : List ℕ). get_or x (k / 128) 0) at_top ∙ b.names in
      let full : length (fs'.disk top) ≡ 128 = ap (λ (x : List ℕ). length x) at_top ∙ b.sector in
      let found : fs'.disk level ≡ s = write_sector_self d level s in
      let lengths : length s ≡ 128 = length-set buf' (k % 128) lba ∙ b.full in
      let read : get_or s (k % 128) 0 ≡ lba =
        get_or-set_self buf' (k % 128) lba 0 (omega (arith, b.full)) in
      (
        fs',
        rw (run, opened, access-write fs₂ level buf' b.full (k % 128) (omega arith) lba) refl,
        rw
            (
              open_inode-there is' idx inside 7 (omega arith) true (λ e. ne (sym names ∙ e)),
              names,
              open_block-there {fs = fs'} top (fs'.disk top) (k / 128) true full (omega arith)
                  (λ e. b.nonzero (sym word ∙ e)),
              word,
              found,
              access-read fs' level s lengths (k % 128) (omega arith) 0,
              read,
            )
            refl,
        same,
      )

  pub level2-roundtrip :
      IsValid fs idx
      → (i j : ℕ) → i < fs.free_map.len_inbits
      → j < fs.free_map.len_inbits
      → i ≢ j
      → bit fs.free_map i ≡ false
      → bit fs.free_map j ≡ false
      → (fs' : Fs) × (level2 fs idx k lba false ≡ ok (0, fs'))
        × (level2 fs' idx k 0 true ≡ ok (lba, fs'))
        × (fs'.sb ≡ fs.sb)
  level2-roundtrip v i j i_lt j_lt ne free_i free_j = elim (ℕ_discrete (iblock fs idx 7) 0) [
    | yes none ↦
        let (a, m, is, d, run, c, l) =
          open_inode-made v.inodes idx inside 7 (omega arith) v.room none i i_lt free_i in
        let fs₁ : Fs = record fs { free_map = m; inodes = is; disk = d } in
        let r : Room fs₁ = record {
          map = c.valid;
          low = v.room.low;
          fits = omega (arith, c.same_len, v.room.fits);
        } in
        let (b, b_lt, free) = left_over c i j i_lt j_lt ne free_i free_j in
        level2-via (fs.sb.lba_free + a) zero_sector fs₁ run l.inodes (omega (arith, v.room.low))
          (made-Top fs₁ a (ap (λ t. t) (c.bits a ∙ rw (==_refl a) refl))) l.names refl r b
          (omega (arith, b_lt, c.same_len)) free
    | no there ↦
        level2-via (iblock fs idx 7) (fs.disk (iblock fs idx 7)) fs
          (open_inode-there v.inodes idx inside 7 (omega arith) false there) v.inodes there
          (record {
            full = v.sectors (iblock fs idx 7);
            on_disk = λ k ne. refl;
            apart = v.apart;
            sectors = λ k ne. v.sectors (get_or (fs.disk (iblock fs idx 7)) k 0);
            taken = v.taken;
          })
          refl refl v.room i i_lt free_i
  ]
