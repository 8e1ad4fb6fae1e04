-- ===== src/Mem/Page/Start.antt =====
-- kern/page/page.c: what `paging()` maps.
use hoo.Base.{
  ℕ, zero, suc, ◌+◌, ◌*◌, ◌/◌, ◌%◌, ◌^◌, ◌<◌, ◌≤◌, ◌≡◌, ◌≢◌, ◌⊎◌, inl, inr, false, ok, arith, refl,
  ◌==◌, ==_ne, ==_refl, bit_or, ap, ◌∙◌, ℕ_discrete,
}
use hoo.Mem.Page.{Paging, pd_index, pg, translate, put_word, fill_table, paging}
use hoo.Mem.Page.Map.{or-flags}

fill_table-outside :
    (n : ℕ) (ram : ℕ → ℕ) (table i a : ℕ)
    → (a < table + i * 4) ⊎ (table + (i + n) * 4 ≤ a)
    → fill_table n ram table i a ≡ ram a
unfolding fill_table
fill_table-outside zero ram table i a o = refl
fill_table-outside (suc n) ram table i a o =
    let ne : a ≢ table + i * 4 = elim o [ inl lt ↦ omega arith | inr ge ↦ omega arith ] in
    let o' : (a < table + (i + 1) * 4) ⊎ (table + (i + 1 + n) * 4 ≤ a) = elim o [
      | inl lt ↦ inl (omega arith)
      | inr ge ↦ inr (omega arith)
    ] in
    fill_table-outside n (put_word ram (table + i * 4) (bit_or (i * 4096) 7)) table (i + 1) a o'
    ∙ rw (==_ne a (table + i * 4) ne) refl

fill_table-inside :
    (n : ℕ) (ram : ℕ → ℕ) (table i j : ℕ)
    → i ≤ j
    → j < i + n
    → fill_table n ram table i (table + j * 4) ≡ j * 4096 + 7
unfolding fill_table
fill_table-inside zero ram table i j le lt = absurd (omega arith)
fill_table-inside (suc n) ram table i j le lt = elim (ℕ_discrete i j) [
  | yes e ↦
      fill_table-outside n (put_word ram (table + i * 4) (bit_or (i * 4096) 7)) table (i + 1)
        (table + j * 4) (inl (omega arith))
      ∙ rw (← e, ==_refl (table + i * 4)) (or-flags (i * 4096) 7 (omega arith) (omega arith))
  | no ne ↦
      fill_table-inside n (put_word ram (table + i * 4) (bit_or (i * 4096) 7)) table (i + 1) j
        (omega arith) (omega arith)
]

module _ (s : Paging) where
  -- The directory after the three writes of `paging()`
  abbrev boot_ram : ℕ → ℕ
  boot_ram =
      put_word
        (put_word (put_word s.ram 0x78000 (bit_or 0x79000 7)) (0x78000 + 2048) (bit_or 0x79000 7))
        (0x78000 + 4092) (bit_or 0x78000 7)

  below_table : (a w : ℕ) → a < 0x79000 → boot_ram a ≡ w → (paging s).ram a ≡ w
  unfolding paging
  below_table a w lt e = fill_table-outside 256 boot_ram 0x79000 0 a (inl (omega arith)) ∙ e

  table_entry : (j : ℕ) → j < 256 → (paging s).ram (0x79000 + j * 4) ≡ j * 4096 + 7
  unfolding paging
  table_entry j lt = fill_table-inside 256 boot_ram 0x79000 0 j (omega arith) (omega arith)

  -- An address whose directory entry leads to the table
  through_table :
      (va v : ℕ)
      → va < 0x100000
      → (paging s).ram (0x78000 + pd_index v * 4) ≡ 0x79007
      → v / 2 ^ 12 % 2 ^ 10 ≡ va / 2 ^ 12
      → v % 2 ^ 12 ≡ va % 2 ^ 12
      → translate (paging s) v ≡ ok va
  unfolding translate paging
  through_table va v lt there page off =
      let j : ℕ = va / 2 ^ 12 in
      let n : ((j * 4096 + 7) % 2 == 0) ≡ false = ground arith in
      let f : pg (j * 4096 + 7) + va % 2 ^ 12 ≡ va = omega arith in
      rw (there, page, table_entry j (omega arith), n, off) (ap ok f)

  -- After paging() every address below MM_BASE is translated into itself, and so is its address
  -- above KERN_HIGH_MAPPING, and the last entry of the directory is the directory.
  pub paging-translates :
      (va : ℕ)
      → va < 0x100000
      → (translate (paging s) va ≡ ok va)
        × (translate (paging s) (0x80000000 + va) ≡ ok va)
        × ((paging s).ram ((paging s).dir + 4092) ≡ (paging s).dir + 7)
  unfolding paging
  paging-translates va lt =
      let low : pd_index va ≡ 0 = omega arith in
      let high : pd_index (0x80000000 + va) ≡ 512 = omega arith in
      (
        through_table va va lt (rw low (below_table 0x78000 0x79007 (omega arith) refl))
            (omega arith) refl,
        through_table va (0x80000000 + va) lt
            (rw high (below_table 0x78800 0x79007 (omega arith) refl)) (omega arith) (omega arith),
        below_table 0x78ffc 0x78007 (omega arith) refl,
      )
