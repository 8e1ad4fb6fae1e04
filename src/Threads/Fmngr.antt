-- ===== src/Threads/Fmngr.antt =====
-- kern/fs/fmngr.c and kern/hoo/thread_fmngr.c: the file descriptors of one task.
pub mod Descriptors
use hoo.Base.{
  Bool, ℕ, ◌/◌, ◌^◌, List, Outcome, ok, fault, ◌>>=◌, ◌>>◌, panic_if, checked, ◌&&◌, ltb, ◌==◌,
  if◌then◌else◌, length, set, get_elem?, replicate,
}
use hoo.Bitmap
use hoo.Bitmap.{Bitmap, scan_empty, bits_per_byte, invalid_index}
use hoo.UserLib.{bzero}

-- `fmngr_t`; an `fd_t` is an `int`, by its 32-bit pattern.
pub record Fmngr : Type 0 where
  pub fd_set : Bitmap
  pub files : List ℕ

abbrev pub max_files_per_task : ℕ
max_files_per_task = 64

-- `fmngr_init(fmngr)`; the array of `fd_t` is cleared as a whole.
unfoldable pub init : Fmngr → Outcome Fmngr
init f = do
  b ← bzero f.fd_set.buff (f.fd_set.len_inbits / bits_per_byte)
  m ← Bitmap.init 0 b
  ok (record { fd_set = m; files = replicate max_files_per_task 0 })

-- `fmngr_alloc(fmngr)`
unfoldable pub alloc : Fmngr → Outcome (ℕ × Fmngr)
alloc f = do (fd, m) ← scan_empty f.fd_set; ok (fd, record f { fd_set = m })

-- `fmngr_free(fmngr, fd)`
unfoldable pub free : Fmngr → ℕ → Outcome Fmngr
free f fd = do m ← Bitmap.clear f.fd_set fd; ok (record f { fd_set = m })

-- `fd > MAX_FILES_PER_TASK` on `int`s: a negative `fd` passes.
abbrev pub over_limit : ℕ → Bool
over_limit fd = ltb fd (2 ^ 31) && ltb max_files_per_task fd

-- `fmngr_files_set(fmngr, fd, val)`
unfoldable pub files_set : Fmngr → ℕ → ℕ → Outcome Fmngr
files_set f fd val = do
  panic_if (over_limit fd) "fmngr_files_set(): invalid fd"
  panic_if (val == invalid_index) "fmngr_files_set(): invalid index"
  if ltb fd (length f.files) then ok (record f { files = set f.files fd val }) else fault

-- `fmngr_files_get(fmngr, fd)`
unfoldable pub files_get : Fmngr → ℕ → Outcome ℕ
files_get f fd = do
  panic_if (over_limit fd) "fmngr_files_get(): invalid fd"
  checked (get_elem? f.files fd)

-- The round of `init_thread_fmngr` for one task, over its slices of the pages that it has mapped.
unfoldable pub init_thread : List ℕ → List ℕ → Outcome Fmngr
init_thread buff files = do
  m ← Bitmap.init max_files_per_task buff
  m₀ ← Bitmap.set m 0
  m₁ ← Bitmap.set m₀ 1
  m₂ ← Bitmap.set m₁ 2
  ok (record { fd_set = m₂; files = files })

-- `thread_fmngr_clear(tid)`, for the manager of the thread
unfoldable pub clear : Fmngr → Outcome Fmngr
clear f = init f
