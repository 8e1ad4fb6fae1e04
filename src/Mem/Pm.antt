-- ===== src/Mem/Pm.antt =====
-- kern/mem/pm.c: physical pages, one bit each. An address is its 32-bit pattern; the pages of the
-- pool start at `MM_BASE`.
pub mod Pages
mod Tests
use hoo.Base.{
  ℕ, ◌+◌, ◌-◌, ◌*◌, ◌/◌, ◌%◌, ◌^◌, Outcome, ok, ◌>>=◌, ◌>>◌, panic_if, ◌==◌, ltb, if◌then◌else◌,
}
use hoo.Bitmap
use hoo.Bitmap.{Bitmap, scan_empty}
use hoo.Spinlock
use hoo.Spinlock.{Spinlock}

-- The statics of pm.c: the spinlock and the bitmap with its buffer.
pub record Pm : Type 0 where
  pub lock : Spinlock
  pub map : Bitmap

abbrev pub mm_base : ℕ
mm_base = 0x100000

abbrev pub page_size : ℕ
page_size = 4096

-- `init_phymm_system(mem_size)`
unfoldable pub init : Pm → ℕ → Outcome Pm
unfolding Spinlock.init
init s mem_size = do
  m ← Bitmap.init (mem_size / 2 ^ 12) s.map.buff
  ok (record { lock = Spinlock.init; map = m })

-- `phy_alloc_page()`
unfoldable pub alloc_page : Pm → Outcome (ℕ × Pm)
unfolding Spinlock.wait Spinlock.signal
alloc_page s = do
  held ← Spinlock.wait s.lock
  (i, m) ← scan_empty s.map
  m' ← Bitmap.set m i
  ok ((i * 2 ^ 12 % 2 ^ 32 + mm_base) % 2 ^ 32, record { lock = Spinlock.signal held; map = m' })

-- `phy_release_page(phy_addr)`. `null` is the address that the kernel's linker chooses.
module _ (null : ℕ) where
  unfoldable pub release_page : Pm → ℕ → Outcome Pm
  unfolding Spinlock.wait Spinlock.signal
  release_page s phy_addr = if phy_addr == null then ok s else (do
    panic_if (ltb phy_addr mm_base) "phy_release_page(): cannot release kernel physical memory"
    held ← Spinlock.wait s.lock
    m ← Bitmap.clear s.map ((phy_addr - mm_base) / 2 ^ 12)
    ok (record { lock = Spinlock.signal held; map = m }))
