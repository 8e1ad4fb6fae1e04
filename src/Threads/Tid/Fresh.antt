-- ===== src/Threads/Tid/Fresh.antt =====
-- kern/hoo/thread_tid.c: the thread ids that are in use.
use hoo.Base.{
  ℕ, ◌<◌, ◌≤◌, ◌≡◌, Bool, List, true, false, ok, panic, ◌==◌, if◌then◌else◌, arith, refl, length,
  All, ◌∙◌,
}
use hoo.UserLib.Memory.{memset-Filled}
use hoo.UserLib.{bzero}
use hoo.Bitmap.Claim.{claim-Claimed, restored}
use hoo.Bitmap.Invariant
use hoo.Bitmap.Invariant.{bit, clear-Updated, set-Updated}
use hoo.Bitmap.Setup
use hoo.Bitmap.Scan.{scan_empty-full}
use hoo.Threads.Tid
use hoo.Threads.Tid.{Tids, max_tasks_amount, tid_hoo}

pub record IsValid (s : Tids) : Type 0 where
  pub unlocked : s.lock ≡ 0
  pub map : Invariant.IsValid s.map
  pub amount : s.map.len_inbits ≡ max_tasks_amount

-- Whether `tid` is in use.
abbrev pub used : Tids → ℕ → Bool
used s tid = bit s.map tid

-- Over pages of at least 128 bytes, whatever they hold, init_thread_tid leaves the ids valid and
-- the lock free, and of the 1024 ids only the first thread's in use.
pub init-used :
    (pages : List ℕ)
    → All (λ b. b < 256) pages
    → 128 ≤ length pages
    → (s : Tids) × (Tid.init pages ≡ ok s)
      × IsValid s
      × ((tid : ℕ) → tid < max_tasks_amount → used s tid ≡ (tid_hoo == tid))
unfolding Tid.init bzero
init-used pages bytes room =
    let (b, run, filled) = memset-Filled 4 pages 0 0 (omega arith) in
    let (m, made, valid, len, empty) =
      Setup.init-IsValid 1024 b (filled.bytes (omega arith) bytes) refl (omega arith) (omega arith)
        (omega (arith, filled.same_length)) in
    let (m', stored, up) = set-Updated valid 0 (omega (arith, len)) in
    (
      record { lock = 0; map = m' },
      rw (run, made, stored) refl,
      record { unlocked = refl; map = up.valid; amount = up.same_len ∙ len },
      λ tid h. up.bits tid ∙ rw (empty tid h) (ground arith),
    )

-- `tid` was free and is in use now; no other id changes hands.
pub record Taken (s : Tids) (tid : ℕ) (s' : Tids) : Type 0 where
  pub valid : IsValid s'
  pub inside : tid < max_tasks_amount
  pub was_free : used s tid ≡ false
  pub ids : (j : ℕ) → used s' j ≡ (if tid == j then true else used s j)

-- While a thread id is free, thread_tid_alloc returns a free id below 1024, marks it and no
-- other, and leaves the lock free.
pub alloc-Taken :
    {s : Tids}
    → IsValid s
    → (j : ℕ) → j < max_tasks_amount
    → used s j ≡ false
    → (tid : ℕ) × (s' : Tids) × (Tid.alloc s ≡ ok (tid, s')) × Taken s tid s'
unfolding Tid.alloc
alloc-Taken {s} v j h free =
    let (i, m₁, m₂, scanned, stored, c) = claim-Claimed v.map j (omega (arith, v.amount)) free in
    (
      i,
      record { lock = 0; map = m₂ },
      ground (arith, scanned, stored, v.amount, v.unlocked, c.inside),
      record {
        valid = record { unlocked = refl; map = c.valid; amount = c.same_len ∙ v.amount };
        inside = omega (arith, c.inside, v.amount);
        was_free = c.was_free;
        ids = c.bits;
      },
    )

-- With all ids in use `thread_tid_alloc` panics.
pub alloc-full :
    {s : Tids}
    → IsValid s
    → ((j : ℕ) → j < max_tasks_amount → used s j ≡ true)
    → Tid.alloc s ≡ panic "bitmap_scan_empty(): no more free bits"
unfolding Tid.alloc
alloc-full {s} v full =
    ground (arith, scan_empty-full v.map (λ j h. full j (omega (arith, v.amount))), v.unlocked)

-- While a thread id is free, thread_tid_alloc returns one that thread_tid_release takes back, and
-- then the same ids are in use as before.
pub release-alloc_tid :
    {s : Tids}
    → IsValid s
    → (j : ℕ) → j < max_tasks_amount
    → used s j ≡ false
    → (tid : ℕ) × (s' : Tids) × (s'' : Tids) × (Tid.alloc s ≡ ok (tid, s'))
      × (Tid.release s' tid ≡ ok s'')
      × ((k : ℕ) → used s'' k ≡ used s k)
unfolding Tid.release
release-alloc_tid {s} v j h free =
    let (i, s', run, t) = alloc-Taken v j h free in
    let (m, cleared, up) = clear-Updated t.valid.map i (omega (arith, t.inside, t.valid.amount)) in
    (
      i,
      s',
      record { lock = 0; map = m },
      run,
      ground (arith, cleared, t.valid.unlocked),
      restored i (used s) (used s') (bit m) t.was_free t.ids up.bits,
    )
