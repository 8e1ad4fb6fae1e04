-- ===== src/Mem/Dyn/Tests.antt =====
-- kern/dyn/dynamic.c on a heap of two managers with a page each.
use hoo.Base.{ℕ, ◌≡◌, [], ◌∷◌, some, ok, refl, arith}
use hoo.Mem.Fmtlist.{Kernel}
use hoo.Mem.Dyn.{Heap, Bucket, dyn_alloc, dyn_free, buckets_from}
use hoo.Mem.Dyn.Reuse.{dyn_free-dyn_alloc}

abbrev kernel : Kernel
kernel = record {
  paging = record {
    pm = record { lock = 0; map = record { len_inbits = 8; buff = 1 ∷ []; prev_free = 0 } };
    ram = λ a. 0;
    dir = 0x5000;
  };
  kern = record { lock = 0; map = record { len_inbits = 8; buff = 0 ∷ []; prev_free = 0 } };
}

abbrev eight : Bucket
eight = record {
  size = 8;
  chain = record { page = 0x400000; type_size = 8; free = 0x400024 ∷ []; capacity = 254 } ∷ [];
}

abbrev sixteen : Bucket
sixteen = record {
  size = 16;
  chain =
      record { page = 0x401000; type_size = 16; free = 0x401054 ∷ 0x40103c ∷ []; capacity = 169 }
      ∷ [];
}

abbrev heap : Heap
heap = record { kernel = kernel; buckets = eight ∷ sixteen ∷ []; vspaces = []; break = 0x402000 }

dyn_free-dyn_alloc_example :
    (x : ℕ) × (h' : Heap) × (dyn_alloc heap 12 ≡ ok (some x, h')) × (dyn_free 0x100 h' x ≡ ok heap)
dyn_free-dyn_alloc_example =
    dyn_free-dyn_alloc 0x100 heap 12 sixteen (eight ∷ []) [] refl (omega arith) (omega arith)
      (omega arith, (refl, tt), ((omega arith, tt), tt), tt) (omega arith, tt)
      (refl, (refl, (refl, tt)), tt, tt) (omega arith)

buckets_run :
    buckets_from 2 7 ≡ record { size = 1024; chain = [] } ∷ record { size = 2048; chain = [] } ∷ []
unfolding buckets_from
buckets_run = refl
