-- ===== src/Mem/VmKern/Tests.antt =====
-- kern/mem/vm_kern.c on an area of which nothing is handed out.
use hoo.Base.{length-replicate, All-replicate, ℕ, ◌<◌, ◌≡◌, ok, arith, refl, replicate}
use hoo.Mem.VmKern
use hoo.Mem.VmKern.{VmKern}
use hoo.Mem.VmKern.Roundtrip.{IsValid, used, address, release-alloc_kern}

abbrev area : VmKern
area = record {
  lock = 0;
  map = record { len_inbits = 64504; buff = replicate 8063 0; prev_free = 0 };
}

area-IsValid : IsValid area
area-IsValid = record {
  unlocked = refl;
  map = record {
    bytes = All-replicate (λ b. b < 256) 8063 0 (omega arith);
    room = omega (arith, length-replicate {A = ℕ} 8063 0);
    small = omega arith;
    next = omega arith;
  };
  amount = refl;
}

release-alloc_kern_run :
    (i : ℕ) × (s' : VmKern) × (s'' : VmKern) × (VmKern.alloc area ≡ ok (address i, s'))
    × (VmKern.release s' (address i) ≡ ok s'')
    × ((k : ℕ) → used s'' k ≡ used area k)
release-alloc_kern_run = release-alloc_kern area-IsValid 0 (omega arith) refl
