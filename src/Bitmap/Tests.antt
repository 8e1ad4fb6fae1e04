-- ===== src/Bitmap/Tests.antt =====
-- kern/utilities/bitmap.c on a bitmap of sixteen bits.
use hoo.Base.{List, refl, ℕ, zero, suc, ◌<◌, ◌≡◌, true, false, [], ◌∷◌, ok, panic, arith}
use hoo.UserLib.Memory.{memmove-Moved, Moved}
use hoo.UserLib.{memmove}
use hoo.Bitmap
use hoo.Bitmap.{Bitmap, scan_empty, test}
use hoo.Bitmap.Invariant.{IsValid, bit, set-Updated, clear-Updated, Updated}
use hoo.Bitmap.Scan.{Found, scan_empty-Found, scan_empty-full}
use hoo.Bitmap.Setup.{init-IsValid}

-- All but 9 and 11 to 15 are in the set; the search goes on at 3.
abbrev some_free : Bitmap
some_free = record { len_inbits = 16; buff = 255 ∷ 5 ∷ []; prev_free = 3 }

abbrev none_free : Bitmap
none_free = record { len_inbits = 2; buff = 3 ∷ []; prev_free = 1 }

some_free-IsValid : IsValid some_free
some_free-IsValid = record {
  bytes = (omega arith, (omega arith, tt));
  room = omega arith;
  small = omega arith;
  next = omega arith;
}

none_free-IsValid : IsValid none_free
none_free-IsValid = record {
  bytes = (omega arith, tt);
  room = omega arith;
  small = omega arith;
  next = omega arith;
}

none_free-full : (j : ℕ) → j < 2 → bit none_free j ≡ true
none_free-full zero h = refl
none_free-full (suc zero) h = refl
none_free-full (suc (suc j)) h = absurd (omega arith)

scan_run : scan_empty some_free ≡ ok (9, record some_free { prev_free = 10 })
unfolding scan_empty
scan_run = refl

test_run : test some_free 16 ≡ panic "bitmap_test(): invalid index"
unfolding test
test_run = refl

set-Updated_example :
    (m' : Bitmap) × (Bitmap.set some_free 12 ≡ ok m') × Updated some_free 12 true m'
set-Updated_example = set-Updated some_free-IsValid 12 (omega arith)

clear-Updated_run :
    (m' : Bitmap) × (Bitmap.clear some_free 10 ≡ ok m') × Updated some_free 10 false m'
clear-Updated_run = clear-Updated some_free-IsValid 10 (omega arith)

scan_empty-Found_example :
    (b : ℕ) × (m' : Bitmap) × (scan_empty some_free ≡ ok (b, m')) × Found some_free b m'
scan_empty-Found_example = scan_empty-Found some_free-IsValid 12 (omega arith) refl

scan_empty-full_example : scan_empty none_free ≡ panic "bitmap_scan_empty(): no more free bits"
scan_empty-full_example = scan_empty-full none_free-IsValid none_free-full

init-IsValid_run :
    (m : Bitmap) × (Bitmap.init 16 (1 ∷ 2 ∷ 3 ∷ []) ≡ ok m)
    × IsValid m
    × (m.len_inbits ≡ 16)
    × ((i : ℕ) → i < 16 → bit m i ≡ false)
init-IsValid_run =
    init-IsValid 16 (1 ∷ 2 ∷ 3 ∷ []) (omega arith, (omega arith, (omega arith, tt))) refl
      (omega arith) (omega arith) (omega arith)

memmove-Moved_run :
    (b : List ℕ) × (memmove (1 ∷ 2 ∷ 3 ∷ []) 1 (7 ∷ 8 ∷ []) 0 2 ≡ ok b)
    × Moved (1 ∷ 2 ∷ 3 ∷ []) 1 (7 ∷ 8 ∷ []) 0 2 b
memmove-Moved_run = memmove-Moved 2 (1 ∷ 2 ∷ 3 ∷ []) 1 (7 ∷ 8 ∷ []) 0 (omega arith) (omega arith)
