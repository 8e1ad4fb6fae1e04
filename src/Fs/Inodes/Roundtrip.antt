-- ===== src/Fs/Inodes/Roundtrip.antt =====
-- kern/fs/inodes.c: the block that `iblock_set` stores for a file is the one that `iblock_get`
-- finds.
use hoo.Base.{
  lt→ltb, ◌-◌, ◌≤◌, ◌^◌, if◌then◌else◌, Outcome, Bool, leb, ltb, ◌==◌, ◌&&◌, ◌||◌, false, dec_lt,
  ap, ℕ, ◌<◌, ◌≡◌, ◌≢◌, true, false, ok, arith, refl, ◌∙◌,
}
use hoo.Bitmap.Invariant.{bit}
use hoo.Fs.Blocks.{SuperBlock}
use hoo.Fs.Inodes.{iblock_handle, iblock_set, iblock_get, level2, Fs, direct, level1}
use hoo.Fs.Inodes.FirstLevel.{IsValid, direct-roundtrip, level1-roundtrip}
use hoo.Fs.Inodes.SecondLevel.{level2-roundtrip}

-- Which of the three levels a block of a file is on, as `iblock_handle` decides it
abbrev at_level : Fs → ℕ → ℕ → ℕ → Bool → Outcome (ℕ × Fs)
at_level fs idx k lba reading =
    if ltb k 6
    then direct fs idx k lba reading
    else if ltb k 134
    then level1 fs idx (k - 6) lba reading
    else level2 fs idx (k - 134) lba reading

module _ (fs : Fs) (idx k : ℕ) (inside : idx < 64) (k_lt : k < 16518)
    (limit : fs.sb.inode_block_index_max ≡ 16518) where
  handle-write :
      (lba : ℕ)
      → fs.sb.lba_free ≤ lba
      → iblock_handle fs idx k lba false ≡ at_level fs idx k lba false
  unfolding iblock_handle
  handle-write lba le =
      let e₁ : (idx == 0xffffffff || (ltb idx (2 ^ 31) && leb 64 idx)) ≡ false = ground arith in
      let e₂ : (k == 0xffffffff || leb fs.sb.inode_block_index_max k) ≡ false = ground arith in
      let e₃ : (ltb lba fs.sb.lba_free && true) ≡ false = ground arith in
      let e₄ : (leb fs.sb.lba_free lba && false) ≡ false = ground arith in
      rw (e₁, e₂, e₃, e₄, lt→ltb k 16518 k_lt) refl

  handle-read : 0 < fs.sb.lba_free → iblock_handle fs idx k 0 true ≡ at_level fs idx k 0 true
  unfolding iblock_handle
  handle-read pos =
      let e₁ : (idx == 0xffffffff || (ltb idx (2 ^ 31) && leb 64 idx)) ≡ false = ground arith in
      let e₂ : (k == 0xffffffff || leb fs.sb.inode_block_index_max k) ≡ false = ground arith in
      let e₃ : (ltb 0 fs.sb.lba_free && false) ≡ false = ground arith in
      let e₄ : (leb fs.sb.lba_free 0 && true) ≡ false = ground arith in
      rw (e₁, e₂, e₃, e₄, lt→ltb k 16518 k_lt) refl

level-roundtrip :
    {fs : Fs} {idx : ℕ}
    → IsValid fs idx
    → idx < 64
    → (i j : ℕ) → i < fs.free_map.len_inbits
    → j < fs.free_map.len_inbits
    → i ≢ j
    → bit fs.free_map i ≡ false
    → bit fs.free_map j ≡ false
    → (k : ℕ) → k < 16518
    → (lba : ℕ)
    → (fs' : Fs) × (at_level fs idx k lba false ≡ ok (0, fs'))
      × (at_level fs' idx k 0 true ≡ ok (lba, fs'))
      × (fs'.sb ≡ fs.sb)
level-roundtrip {fs} {idx} v inside i j i_lt j_lt ne free_i free_j k k_lt lba = elim (dec_lt k 6) [
  | yes low ↦
      let (fs', w, r, same) = direct-roundtrip v inside lba k low in
      (fs', rw (lt→ltb k 6 low) w, rw (lt→ltb k 6 low) r, same)
  | no high ↦
      let not_low : ltb k 6 ≡ false = ground arith in
      elim (dec_lt k 134) [
        | yes mid ↦
            let (fs', w, r, same) =
              level1-roundtrip v inside lba i i_lt free_i (k - 6) (omega arith) in
            (fs', rw (not_low, lt→ltb k 134 mid) w, rw (not_low, lt→ltb k 134 mid) r, same)
        | no far ↦
            let not_mid : ltb k 134 ≡ false = ground arith in
            let (fs', w, r, same) =
              level2-roundtrip fs idx inside lba (k - 134) (omega arith) v i j i_lt j_lt ne free_i
                free_j in
            (fs', rw (not_low, not_mid) w, rw (not_low, not_mid) r, same)
      ]
]

-- With the inode and its second level in order, every sector whole and two blocks free,
-- iblock_set of an index of a file, on whichever of the three levels, succeeds with any block
-- behind the layout, and iblock_get then returns that block.
pub iblock_get-iblock_set :
    {fs : Fs} {idx : ℕ}
    → IsValid fs idx
    → idx < 64
    → (i j : ℕ) → i < fs.free_map.len_inbits
    → j < fs.free_map.len_inbits
    → i ≢ j
    → bit fs.free_map i ≡ false
    → bit fs.free_map j ≡ false
    → (k : ℕ) → k < 16518
    → (lba : ℕ) → fs.sb.lba_free ≤ lba
    → (fs' : Fs) × (iblock_set fs idx k lba ≡ ok fs') × (iblock_get fs' idx k ≡ ok lba)
unfolding iblock_set iblock_get
iblock_get-iblock_set {fs} {idx} v inside i j i_lt j_lt ne free_i free_j k k_lt lba le =
    let (fs', w, r, same) = level-roundtrip v inside i j i_lt j_lt ne free_i free_j k k_lt lba in
    let limit : fs'.sb.inode_block_index_max ≡ 16518 =
      ap (λ (b : SuperBlock). b.inode_block_index_max) same ∙ v.limit in
    let pos : 0 < fs'.sb.lba_free =
      omega (arith, v.room.low, ap (λ (b : SuperBlock). b.lba_free) same) in
    (
      fs',
      rw (handle-write fs idx k inside k_lt v.limit lba le, w) refl,
      rw (handle-read fs' idx k inside k_lt limit pos, r) refl,
    )
