-- ===== src/Mem/Pm/Tests.antt =====
-- kern/mem/pm.c on a pool of sixteen pages.
use hoo.Base.{refl, ℕ, ◌<◌, ◌≡◌, true, [], ◌∷◌, ok, arith, zero, suc}
use hoo.Bitmap
use hoo.Bitmap.{Bitmap, scan_empty}
use hoo.Mem.Pm.{Pm, alloc_page, release_page}
use hoo.Mem.Pm.Pages.{IsValid, used, address, Taken, alloc_page-Taken, release_page-alloc_page}

-- Pages 9 and 11 to 15 are free.
abbrev pool : Pm
pool = record { lock = 0; map = record { len_inbits = 16; buff = 255 ∷ 5 ∷ []; prev_free = 3 } }

abbrev full_pool : Pm
full_pool = record { lock = 0; map = record { len_inbits = 2; buff = 3 ∷ []; prev_free = 1 } }

pool-IsValid : IsValid pool
pool-IsValid = record {
  unlocked = refl;
  map = record {
    bytes = (omega arith, (omega arith, tt));
    room = omega arith;
    small = omega arith;
    next = omega arith;
  };
  fits = omega arith;
}

full_pool-IsValid : IsValid full_pool
full_pool-IsValid = record {
  unlocked = refl;
  map = record {
    bytes = (omega arith, tt);
    room = omega arith;
    small = omega arith;
    next = omega arith;
  };
  fits = omega arith;
}

full_pool-full : (j : ℕ) → j < 2 → used full_pool j ≡ true
full_pool-full zero h = refl
full_pool-full (suc zero) h = refl
full_pool-full (suc (suc j)) h = absurd (omega arith)

alloc_run :
    alloc_page pool
    ≡ ok (
      0x109000,
      record pool { map = record { len_inbits = 16; buff = 255 ∷ 7 ∷ []; prev_free = 10 } },
    )
unfolding alloc_page scan_empty Bitmap.set
alloc_run = refl

alloc_page-Taken_run :
    (i : ℕ) × (s' : Pm) × (alloc_page pool ≡ ok (address i, s')) × Taken pool i s'
alloc_page-Taken_run = alloc_page-Taken pool-IsValid 12 (omega arith) refl

release_page-alloc_page_example :
    (i : ℕ) × (s' : Pm) × (s'' : Pm) × (alloc_page pool ≡ ok (address i, s'))
    × (release_page 0xc0050000 s' (address i) ≡ ok s'')
    × ((k : ℕ) → used s'' k ≡ used pool k)
release_page-alloc_page_example =
    release_page-alloc_page 0xc0050000 pool-IsValid 12 (omega arith) refl (λ i h. ground arith)
