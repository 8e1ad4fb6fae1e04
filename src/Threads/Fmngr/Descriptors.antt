-- ===== src/Threads/Fmngr/Descriptors.antt =====
-- kern/fs/fmngr.c and kern/hoo/thread_fmngr.c: which descriptors `fmngr_alloc` hands out.
use hoo.Base.{
  ℕ, ◌<◌, ◌≤◌, ◌*◌, ◌≡◌, ◌≢◌, List, false, ok, panic, fault, arith, refl, length, ◌∙◌, ap, set,
  get_or, get_or-set_self, get_elem?-eq-get_or, length-set, ltb, replicate, ◌/◌, All,
}
use hoo.UserLib.Memory.{memset-Filled}
use hoo.UserLib.{bzero, memset}
use hoo.Bitmap
use hoo.Bitmap.{scan_empty, Bitmap, invalid_index}
use hoo.Bitmap.Invariant
use hoo.Bitmap.Invariant.{bit, set-Updated, Updated}
use hoo.Bitmap.Scan.{scan_empty-Found}
use hoo.Bitmap.Setup
use hoo.Threads.Fmngr
use hoo.Threads.Fmngr.{Fmngr, max_files_per_task, clear, init_thread, files_set, files_get}

-- After thread_fmngr_clear, which gives the set of descriptors the length 0, fmngr_alloc panics.
pub clear-alloc_panics :
    (f : Fmngr)
    → f.fd_set.len_inbits ≤ 8 * length f.fd_set.buff
    → (f' : Fmngr) × (clear f ≡ ok f')
      × (Fmngr.alloc f' ≡ panic "bitmap_scan_empty(): invalid parameters")
unfolding clear Fmngr.init Fmngr.alloc Bitmap.init bzero scan_empty memset
clear-alloc_panics f room =
    let (b, run, filled) =
      memset-Filled (f.fd_set.len_inbits / 8) f.fd_set.buff 0 0 (omega arith) in
    (
      record {
        fd_set = record { len_inbits = 0; buff = b; prev_free = 0 };
        files = replicate max_files_per_task 0;
      },
      rw run refl,
      refl,
    )

-- On a valid set with a free descriptor, fmngr_alloc returns a free one and leaves it, like every
-- other, as it was in the set.
pub alloc-leaves_free :
    (f : Fmngr)
    → Invariant.IsValid f.fd_set
    → (j : ℕ) → j < f.fd_set.len_inbits
    → bit f.fd_set j ≡ false
    → (fd : ℕ) × (f' : Fmngr) × (Fmngr.alloc f ≡ ok (fd, f'))
      × (fd < f.fd_set.len_inbits)
      × (bit f'.fd_set fd ≡ false)
      × ((k : ℕ) → bit f'.fd_set k ≡ bit f.fd_set k)
unfolding Fmngr.alloc
alloc-leaves_free f v j h free =
    let (fd, m, run, found) = scan_empty-Found v j h free in
    let same : (k : ℕ) → bit m k ≡ bit f.fd_set k = λ k. ap (λ t. bit t k) found.state in
    (fd, record f { fd_set = m }, rw run refl, found.inside, same fd ∙ found.is_clear, same)

-- A new task's set of descriptors is valid and holds 0, 1 and 2 and no other below 64.
pub init_thread-std :
    (buff files : List ℕ)
    → All (λ b. b < 256) buff
    → 8 ≤ length buff
    → (f : Fmngr) × (init_thread buff files ≡ ok f)
      × Invariant.IsValid f.fd_set
      × ((fd : ℕ) → fd < max_files_per_task → bit f.fd_set fd ≡ ltb fd 3)
unfolding init_thread
init_thread-std buff files bytes room =
    let (m, made, valid, len, empty) =
      Setup.init-IsValid 64 buff bytes refl (omega arith) (omega arith) (omega arith) in
    let (m₀, run₀, up₀) = set-Updated valid 0 (omega (arith, len)) in
    let (m₁, run₁, up₁) = set-Updated up₀.valid 1 (omega (arith, len, up₀.same_len)) in
    let (m₂, run₂, up₂) =
      set-Updated up₁.valid 2 (omega (arith, len, up₀.same_len, up₁.same_len)) in
    (
      record { fd_set = m₂; files = files },
      rw (made, run₀, run₁, run₂) refl,
      up₂.valid,
      λ fd h. up₂.bits fd ∙ rw (up₁.bits fd, up₀.bits fd, empty fd h) (ground arith),
    )

-- What fmngr_files_set stores at a descriptor below 64, other than the invalid index,
-- fmngr_files_get returns.
pub files_get-files_set :
    (f : Fmngr) (fd val : ℕ)
    → length f.files ≡ max_files_per_task
    → fd < max_files_per_task
    → val ≢ invalid_index
    → (f' : Fmngr) × (files_set f fd val ≡ ok f') × (files_get f' fd ≡ ok val)
unfolding files_set files_get
files_get-files_set f fd val len h ne =
    let stored : List ℕ = set f.files fd val in
    let read : get_or stored fd 0 ≡ val = get_or-set_self f.files fd val 0 (omega arith) in
    (
      record f { files = stored },
      ground arith,
      ground
          (arith, read, get_elem?-eq-get_or stored fd 0 (omega (arith, length-set f.files fd val))),
    )

-- The guard of `fmngr_files_set` lets the descriptor 64 through, one past the array.
pub files_set-past :
    (f : Fmngr) (val : ℕ)
    → length f.files ≡ max_files_per_task
    → val ≢ invalid_index
    → files_set f max_files_per_task val ≡ fault
unfolding files_set
files_set-past f val len ne = ground arith
