-- ===== src/Mem/Fmtlist/Tests.antt =====
-- kern/mem/format_list.c on a page of the heap and one of the metadata area.
use hoo.Base.{ℕ, ◌≡◌, true, List, [], ◌∷◌, ok, refl, arith}
use hoo.Bitmap
use hoo.Spinlock
use hoo.Mem.VmKern
use hoo.Mem.VmKern.{VmKern}
use hoo.Mem.Fmtlist.{Fmtlist, Kernel, alloc, release, init}
use hoo.Mem.Fmtlist.Cut.{Cut, init-Cut}
use hoo.Mem.Fmtlist.Reuse.{release-alloc}

init-Cut_example : (f : Fmtlist) × (init 0xf0000000 24 ≡ ok f) × Cut 0xf0000000 24 f
init-Cut_example = init-Cut 0xf0000000 24 refl (omega arith)

-- How many vspace_t a page holds
init_run : (f : Fmtlist) × (init 0xf0000000 24 ≡ ok f) × (f.capacity ≡ 127)
unfolding init
init_run = (_, refl, refl)

abbrev kernel : Kernel
kernel = record {
  paging = record {
    pm = record { lock = 0; map = record { len_inbits = 8; buff = 1 ∷ []; prev_free = 0 } };
    ram = λ a. 0;
    dir = 0x5000;
  };
  kern = record { lock = 0; map = record { len_inbits = 8; buff = 3 ∷ []; prev_free = 2 } };
}

abbrev first : Fmtlist
first = record { page = 0x400000; type_size = 8; free = []; capacity = 254 }

abbrev second : Fmtlist
second = record { page = 0xf0001000; type_size = 8; free = 0xf0001024 ∷ []; capacity = 2 }

abbrev third : Fmtlist
third = record second { capacity = 3 }

release-alloc_run :
    (x : ℕ) × (c' : List Fmtlist) × (alloc kernel (first ∷ third ∷ []) 8 ≡ ok (x, kernel, c'))
    × (release 0x100 kernel c' x 8 ≡ ok (true, kernel, first ∷ third ∷ []))
release-alloc_run =
    release-alloc 0x100 kernel 8 (first ∷ third ∷ []) (omega arith, (omega arith, tt))
      (refl, tt, (omega arith, tt), (refl, (refl, tt), tt, tt)) (omega arith, omega arith)

-- All of the objects of this page are free, and the page behind it has one in use.
abbrev whole : Fmtlist
whole = record {
  page = 0xf0001000;
  type_size = 8;
  free = 0xf0001034 ∷ 0xf0001024 ∷ [];
  capacity = 2;
}

abbrev last : Fmtlist
last = record { page = 0x401000; type_size = 8; free = 0x401024 ∷ []; capacity = 254 }
