-- ===== src/Threads/Tests.antt =====
-- kern/hoo/thread_tid.c, kern/fs/fmngr.c and kern/hoo/thread_fmngr.c on fresh pages.
use hoo.Base.{
  All-replicate, ℕ, ◌<◌, ◌≡◌, List, ◌∷◌, false, ok, panic, ◌==◌, arith, refl, replicate, All,
}
use hoo.UserLib.{bzero, memset, store}
use hoo.Bitmap
use hoo.Bitmap.Invariant
use hoo.Bitmap.Invariant.{bit}
use hoo.Threads.Tid
use hoo.Threads.Tid.{Tids}
use hoo.Threads.Tid.Fresh
use hoo.Threads.Tid.Fresh.{used, Taken, alloc-Taken, release-alloc_tid}
use hoo.Threads.Fmngr
use hoo.Threads.Fmngr.{Fmngr, clear, init_thread, files_set, files_get}
use hoo.Threads.Fmngr.Descriptors.{clear-alloc_panics, alloc-leaves_free}

abbrev page : List ℕ
page = replicate 128 0

page-bytes : All (λ b. b < 256) page
page-bytes = All-replicate (λ b. b < 256) 128 0 (omega arith)

-- Only the thread 0 exists.
abbrev ids : Tids
ids = record {
  lock = 0;
  map = record { len_inbits = 1024; buff = 1 ∷ replicate 127 0; prev_free = 0 };
}

ids-IsValid : Fresh.IsValid ids
ids-IsValid = record {
  unlocked = refl;
  map = record {
    bytes = (omega arith, All-replicate (λ b. b < 256) 127 0 (omega arith));
    room = omega arith;
    small = omega arith;
    next = omega arith;
  };
  amount = refl;
}

ids-init : Tid.init page ≡ ok ids
unfolding Tid.init bzero memset store Bitmap.init Bitmap.set
ids-init = refl

init-used_run :
    (s : Tids) × (Tid.init page ≡ ok s)
    × Fresh.IsValid s
    × ((tid : ℕ) → tid < 1024 → used s tid ≡ (0 == tid))
init-used_run = Fresh.init-used page page-bytes (omega arith)

release-alloc_tid_run :
    (tid : ℕ) × (s' : Tids) × (s'' : Tids) × (Tid.alloc ids ≡ ok (tid, s'))
    × (Tid.release s' tid ≡ ok s'')
    × ((k : ℕ) → used s'' k ≡ used ids k)
release-alloc_tid_run = release-alloc_tid ids-IsValid 5 (omega arith) refl

-- A task with the standard descriptors and no open file.
abbrev std : Fmngr
std = record {
  fd_set = record { len_inbits = 64; buff = 7 ∷ replicate 7 0; prev_free = 0 };
  files = replicate 64 0;
}

std-IsValid : Invariant.IsValid std.fd_set
std-IsValid = record {
  bytes = (omega arith, All-replicate (λ b. b < 256) 7 0 (omega arith));
  room = omega arith;
  small = omega arith;
  next = omega arith;
}

clear-alloc_panics_run :
    (f' : Fmngr) × (clear std ≡ ok f')
    × (Fmngr.alloc f' ≡ panic "bitmap_scan_empty(): invalid parameters")
clear-alloc_panics_run = clear-alloc_panics std (omega arith)

alloc-leaves_free_example :
    (fd : ℕ) × (f' : Fmngr) × (Fmngr.alloc std ≡ ok (fd, f'))
    × (fd < 64)
    × (bit f'.fd_set fd ≡ false)
    × ((k : ℕ) → bit f'.fd_set k ≡ bit std.fd_set k)
alloc-leaves_free_example = alloc-leaves_free std std-IsValid 5 (omega arith) refl
