-- ===== src/Mem/VmKern.antt =====
-- kern/mem/vm_kern.c: the pages of the kernel's metadata area, one bit each.
pub mod Roundtrip
mod Tests
use hoo.Base.{ℕ, ◌+◌, ◌-◌, ◌*◌, ◌/◌, ◌%◌, ◌^◌, Outcome, ok, ◌>>=◌, ◌>>◌, panic_if, ◌||◌, ltb, leb}
use hoo.Bitmap
use hoo.Bitmap.{Bitmap, scan_empty, bits_per_byte}
use hoo.Spinlock
use hoo.Spinlock.{Spinlock}

pub record VmKern : Type 0 where
  pub lock : Spinlock
  pub map : Bitmap

abbrev pub kern_metadata : ℕ
kern_metadata = 0xf0000000

abbrev pub pg_mask : ℕ
pg_mask = 0xfffff000

abbrev pub mb4 : ℕ
mb4 = 0x400000

abbrev pub pgsize : ℕ
pgsize = 4096

-- `SIZE_BITMAP_VIRMM`, in bytes
abbrev pub size_bitmap_virmm : ℕ
size_bitmap_virmm = (pg_mask - mb4 - kern_metadata) / pgsize / bits_per_byte

-- `init_kern_virmm_bitmap()`
unfoldable pub init : VmKern → Outcome VmKern
unfolding Spinlock.init
init s = do
  m ← Bitmap.init (size_bitmap_virmm * bits_per_byte) s.map.buff
  ok (record { lock = Spinlock.init; map = m })

-- `vir_alloc_kern()`
unfoldable pub alloc : VmKern → Outcome (ℕ × VmKern)
unfolding Spinlock.wait Spinlock.signal
alloc s = do
  held ← Spinlock.wait s.lock
  (i, m) ← scan_empty s.map
  m' ← Bitmap.set m i
  ok ((kern_metadata + i * pgsize) % 2 ^ 32, record { lock = Spinlock.signal held; map = m' })

-- `vir_release_kern(va)`
unfoldable pub release : VmKern → ℕ → Outcome VmKern
unfolding Spinlock.wait Spinlock.signal
release s va = do
  panic_if (ltb va kern_metadata || leb (pg_mask - mb4 + pgsize) va)
      "vir_release_kern(): not the kernel metadata"
  held ← Spinlock.wait s.lock
  m ← Bitmap.clear s.map ((va - kern_metadata) / pgsize)
  ok (record { lock = Spinlock.signal held; map = m })
