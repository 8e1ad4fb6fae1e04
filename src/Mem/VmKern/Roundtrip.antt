-- ===== src/Mem/VmKern/Roundtrip.antt =====
-- kern/mem/vm_kern.c: the pages of the metadata area that the bitmap stands for.
use hoo.Base.{
  ℕ, ◌+◌, ◌-◌, ◌*◌, ◌/◌, ◌<◌, ◌≡◌, Bool, true, false, ok, ◌==◌, if◌then◌else◌, arith, refl, ◌∙◌,
  ltb, leb, ◌||◌,
}
use hoo.Bitmap
use hoo.Bitmap.Claim.{claim-Claimed, restored}
use hoo.Bitmap.Invariant
use hoo.Bitmap.Invariant.{bit, clear-Updated}
use hoo.Mem.VmKern
use hoo.Mem.VmKern.{VmKern, kern_metadata, pgsize, pg_mask, mb4, size_bitmap_virmm}

pub record IsValid (s : VmKern) : Type 0 where
  pub unlocked : s.lock ≡ 0
  pub map : Invariant.IsValid s.map
  pub amount : s.map.len_inbits ≡ size_bitmap_virmm * 8

abbrev pub used : VmKern → ℕ → Bool
used s i = bit s.map i

abbrev pub address : ℕ → ℕ
address i = kern_metadata + i * pgsize

pub record Taken (s : VmKern) (i : ℕ) (s' : VmKern) : Type 0 where
  pub valid : IsValid s'
  pub inside : i < size_bitmap_virmm * 8
  pub was_free : used s i ≡ false
  pub pages : (j : ℕ) → used s' j ≡ (if i == j then true else used s j)

pub alloc-Taken :
    {s : VmKern}
    → IsValid s
    → (j : ℕ) → j < size_bitmap_virmm * 8
    → used s j ≡ false
    → (i : ℕ) × (s' : VmKern) × (VmKern.alloc s ≡ ok (address i, s')) × Taken s i s'
unfolding VmKern.alloc
alloc-Taken {s} v j h free =
    let (i, m₁, m₂, scanned, stored, c) = claim-Claimed v.map j (omega (arith, v.amount)) free in
    (
      i,
      record { lock = 0; map = m₂ },
      ground (arith, scanned, stored, v.amount, v.unlocked, c.inside),
      record {
        valid = record { unlocked = refl; map = c.valid; amount = c.same_len ∙ v.amount };
        inside = omega (arith, c.inside, v.amount);
        was_free = c.was_free;
        pages = c.bits;
      },
    )

release_run :
    {s : VmKern}
    → IsValid s
    → (i : ℕ) → i < size_bitmap_virmm * 8
    → (m : Bitmap.Bitmap) → Bitmap.clear s.map i ≡ ok m
    → VmKern.release s (address i) ≡ ok (record { lock = 0; map = m })
unfolding VmKern.release
release_run {s} v i h m e =
    let index : (address i - kern_metadata) / pgsize ≡ i = omega arith in
    let inside : (ltb (address i) kern_metadata || leb (pg_mask - mb4 + pgsize) (address i))
        ≡ false =
      ground arith in
    rw (inside, index, e, v.unlocked) refl

-- While a page of the metadata area is free, vir_alloc_kern returns an address that
-- vir_release_kern takes back, and then the same pages are handed out as before.
pub release-alloc_kern :
    {s : VmKern}
    → IsValid s
    → (j : ℕ) → j < size_bitmap_virmm * 8
    → used s j ≡ false
    → (i : ℕ) × (s' : VmKern) × (s'' : VmKern) × (VmKern.alloc s ≡ ok (address i, s'))
      × (VmKern.release s' (address i) ≡ ok s'')
      × ((k : ℕ) → used s'' k ≡ used s k)
release-alloc_kern {s} v j h free =
    let (i, s', run, t) = alloc-Taken v j h free in
    let (m, cleared, up) = clear-Updated t.valid.map i (omega (arith, t.inside, t.valid.amount)) in
    (
      i,
      s',
      record { lock = 0; map = m },
      run,
      release_run t.valid i t.inside m cleared,
      restored i (used s) (used s') (bit m) t.was_free t.pages up.bits,
    )
