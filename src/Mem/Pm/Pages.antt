-- ===== src/Mem/Pm/Pages.antt =====
-- kern/mem/pm.c: the pool of physical pages that the bitmap stands for.
use hoo.Base.{
  ℕ, ◌+◌, ◌-◌, ◌*◌, ◌/◌, ◌^◌, ◌≤◌, ◌<◌, ◌≡◌, ◌≢◌, Bool, true, false, ok, panic, ◌==◌, if◌then◌else◌,
  arith, ==_ne, refl,
}
use hoo.Bitmap.Claim.{claim-Claimed, restored}
use hoo.Bitmap.Invariant
use hoo.Bitmap.Invariant.{bit, Updated, clear-Updated}
use hoo.Bitmap.Scan.{scan_empty-full}
use hoo.Mem.Pm.{Pm, mm_base, page_size, alloc_page, release_page}

-- The lock is free, and every page of the pool has a 32-bit address.
pub record IsValid (s : Pm) : Type 0 where
  pub unlocked : s.lock ≡ 0
  pub map : Invariant.IsValid s.map
  pub fits : mm_base + s.map.len_inbits * page_size ≤ 2 ^ 32

-- Whether page `i` of the pool is handed out.
abbrev pub used : Pm → ℕ → Bool
used s i = bit s.map i

abbrev pub address : ℕ → ℕ
address i = mm_base + i * page_size

-- Page `i` was free and is handed out now; no other page changes hands.
pub record Taken (s : Pm) (i : ℕ) (s' : Pm) : Type 0 where
  pub valid : IsValid s'
  pub same_len : s'.map.len_inbits ≡ s.map.len_inbits
  pub inside : i < s.map.len_inbits
  pub was_free : used s i ≡ false
  pub pages : (j : ℕ) → used s' j ≡ (if i == j then true else used s j)

-- While a page of the pool is free, phy_alloc_page returns the address of a free page, marks that
-- page and no other, and leaves the pool valid and the lock free.
pub alloc_page-Taken :
    {s : Pm}
    → IsValid s
    → (j : ℕ) → j < s.map.len_inbits
    → used s j ≡ false
    → (i : ℕ) × (s' : Pm) × (alloc_page s ≡ ok (address i, s')) × Taken s i s'
unfolding alloc_page
alloc_page-Taken {s} v j h free =
    let (i, m₁, m₂, scanned, stored, c) = claim-Claimed v.map j h free in
    (
      i,
      record { lock = 0; map = m₂ },
      ground (arith, scanned, stored, v.fits, c.inside),
      record {
        valid = record { unlocked = refl; map = c.valid; fits = omega (arith, c.same_len, v.fits) };
        same_len = c.same_len;
        inside = c.inside;
        was_free = c.was_free;
        pages = c.bits;
      },
    )

-- With every page of the pool handed out, phy_alloc_page panics.
pub alloc_page-full :
    {s : Pm}
    → IsValid s
    → ((j : ℕ) → j < s.map.len_inbits → used s j ≡ true)
    → alloc_page s ≡ panic "bitmap_scan_empty(): no more free bits"
unfolding alloc_page
alloc_page-full {s} v full = ground (arith, scan_empty-full v.map full)

-- Page `i` is free afterwards; no other page changes hands.
pub record Released (s : Pm) (i : ℕ) (s' : Pm) : Type 0 where
  pub valid : IsValid s'
  pub same_len : s'.map.len_inbits ≡ s.map.len_inbits
  pub pages : (j : ℕ) → used s' j ≡ (if i == j then false else used s j)

module _ (null : ℕ) where
  pub release_page-Released :
      {s : Pm}
      → IsValid s
      → (i : ℕ) → i < s.map.len_inbits
      → address i ≢ null
      → (s' : Pm) × (release_page null s (address i) ≡ ok s') × Released s i s'
  unfolding release_page
  release_page-Released {s} v i h ne =
      let (m, run, up) = clear-Updated v.map i h in
      let index : (address i - mm_base) / 2 ^ 12 ≡ i = omega arith in
      (
        record { lock = 0; map = m },
        ground (arith, ==_ne (address i) null ne, index, run, v.unlocked),
        record {
          valid = record {
            unlocked = refl;
            map = up.valid;
            fits = omega (arith, up.same_len, v.fits);
          };
          same_len = up.same_len;
          pages = up.bits;
        },
      )

  -- While a page is free and no page of the pool is at the null pointer, phy_alloc_page returns a
  -- page that phy_release_page takes back, and then the same pages are handed out as before.
  pub release_page-alloc_page :
      {s : Pm}
      → IsValid s
      → (j : ℕ) → j < s.map.len_inbits
      → used s j ≡ false
      → ((i : ℕ) → i < s.map.len_inbits → address i ≢ null)
      → (i : ℕ) × (s' : Pm) × (s'' : Pm) × (alloc_page s ≡ ok (address i, s'))
        × (release_page null s' (address i) ≡ ok s'')
        × ((k : ℕ) → used s'' k ≡ used s k)
  release_page-alloc_page {s} v j h free no_null =
      let (i, s', run, t) = alloc_page-Taken v j h free in
      let (s'', back, r) =
        release_page-Released t.valid i (omega (arith, t.inside, t.same_len))
          (no_null i t.inside) in
      (i, s', s'', run, back, restored i (used s) (used s') (used s'') t.was_free t.pages r.pages)
