-- ===== src/Mem/Metadata.antt =====
-- kern/mem/metadata.c: the objects of the address spaces and of the lists, each kind from a chain
-- of pages behind a lock of its own.
use hoo.Base.{ℕ, List, [], Outcome, ok, ◌>>=◌}
use hoo.Spinlock
use hoo.Spinlock.{Spinlock}
use hoo.Mem.Fmtlist
use hoo.Mem.Fmtlist.{Fmtlist, Kernel}

-- The statics of metadata.c, with what the kernel's pages come from
pub record Metadata : Type 0 where
  pub kernel : Kernel
  pub vs : List Fmtlist
  pub node : List Fmtlist
  pub vaddr : List Fmtlist
  pub lock_vs : Spinlock
  pub lock_node : Spinlock
  pub lock_vaddr : Spinlock

-- `sizeof(vspace_t)`, `sizeof(node_t)` and `sizeof(vaddr_t)`
abbrev pub vspace_size : ℕ
vspace_size = 24

abbrev pub node_size : ℕ
node_size = 8

abbrev pub vaddr_size : ℕ
vaddr_size = 8

-- `init_metadata()`
unfoldable pub init : Metadata → Metadata
unfolding Spinlock.init
init m = record m {
  vs = [];
  node = [];
  vaddr = [];
  lock_vs = Spinlock.init;
  lock_node = Spinlock.init;
  lock_vaddr = Spinlock.init;
}

unfoldable pub vspace_alloc : Metadata → Outcome (ℕ × Metadata)
unfolding Spinlock.wait Spinlock.signal Fmtlist.alloc
vspace_alloc m = do
  held ← Spinlock.wait m.lock_vs
  (x, k, c) ← Fmtlist.alloc m.kernel m.vs vspace_size
  ok (x, record m { kernel = k; vs = c; lock_vs = Spinlock.signal held })

unfoldable pub node_alloc : Metadata → Outcome (ℕ × Metadata)
unfolding Spinlock.wait Spinlock.signal Fmtlist.alloc
node_alloc m = do
  held ← Spinlock.wait m.lock_node
  (x, k, c) ← Fmtlist.alloc m.kernel m.node node_size
  ok (x, record m { kernel = k; node = c; lock_node = Spinlock.signal held })

unfoldable pub vaddr_alloc : Metadata → Outcome (ℕ × Metadata)
unfolding Spinlock.wait Spinlock.signal Fmtlist.alloc
vaddr_alloc m = do
  held ← Spinlock.wait m.lock_vaddr
  (x, k, c) ← Fmtlist.alloc m.kernel m.vaddr vaddr_size
  ok (x, record m { kernel = k; vaddr = c; lock_vaddr = Spinlock.signal held })

-- `null` is the address that the kernel's linker chooses.
module _ (null : ℕ) where
  unfoldable pub vspace_release : Metadata → ℕ → Outcome Metadata
  unfolding Spinlock.wait Spinlock.signal Fmtlist.release
  vspace_release m vs = do
    held ← Spinlock.wait m.lock_vs
    (found, k, c) ← Fmtlist.release null m.kernel m.vs vs vspace_size
    ok (record m { kernel = k; vs = c; lock_vs = Spinlock.signal held })

  unfoldable pub node_release : Metadata → ℕ → Outcome Metadata
  unfolding Spinlock.wait Spinlock.signal Fmtlist.release
  node_release m node = do
    held ← Spinlock.wait m.lock_node
    (found, k, c) ← Fmtlist.release null m.kernel m.node node node_size
    ok (record m { kernel = k; node = c; lock_node = Spinlock.signal held })

  unfoldable pub vaddr_release : Metadata → ℕ → Outcome Metadata
  unfolding Spinlock.wait Spinlock.signal Fmtlist.release
  vaddr_release m vaddr = do
    held ← Spinlock.wait m.lock_vaddr
    (found, k, c) ← Fmtlist.release null m.kernel m.vaddr vaddr vaddr_size
    ok (record m { kernel = k; vaddr = c; lock_vaddr = Spinlock.signal held })
