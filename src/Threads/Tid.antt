-- ===== src/Threads/Tid.antt =====
-- kern/hoo/thread_tid.c: thread ids, one bit each.
pub mod Fresh
use hoo.Base.{ℕ, List, Outcome, ok, ◌>>=◌, ◌>>◌, panic_if, leb}
use hoo.Bitmap
use hoo.Bitmap.{Bitmap, scan_empty}
use hoo.Spinlock
use hoo.Spinlock.{Spinlock}
use hoo.UserLib.{bzero}

pub record Tids : Type 0 where
  pub lock : Spinlock
  pub map : Bitmap

abbrev pub max_tasks_amount : ℕ
max_tasks_amount = 1024

abbrev pub tid_hoo : ℕ
tid_hoo = 0

-- The end of `init_thread_tid`, over the pages that it has mapped; `sizeof(__bm_buff)` is the size
-- of a pointer.
unfoldable pub init : List ℕ → Outcome Tids
unfolding Spinlock.init
init pages = do
  cleared ← bzero pages 4
  m ← Bitmap.init max_tasks_amount cleared
  m' ← Bitmap.set m tid_hoo
  ok (record { lock = Spinlock.init; map = m' })

-- `thread_tid_alloc()`
unfoldable pub alloc : Tids → Outcome (ℕ × Tids)
unfolding Spinlock.wait Spinlock.signal
alloc s = do
  held ← Spinlock.wait s.lock
  (temp, m) ← scan_empty s.map
  m' ← Bitmap.set m temp
  panic_if (leb max_tasks_amount temp) "thread_tid_alloc(): thread id overflows"
  ok (temp, record { lock = Spinlock.signal held; map = m' })

-- `thread_tid_release(tid)`
unfoldable pub release : Tids → ℕ → Outcome Tids
unfolding Spinlock.wait Spinlock.signal
release s tid = do
  held ← Spinlock.wait s.lock
  m ← Bitmap.clear s.map tid
  ok (record { lock = Spinlock.signal held; map = m })
