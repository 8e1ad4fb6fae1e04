-- ===== src/Fs/Files.antt =====
-- kern/fs/files.c: the files that are open, and what is read from and written to them. A buffer of
-- `dyn_alloc` or of the stack is a value here.
pub mod Names
pub mod Bytes
pub mod Sectors
pub mod Reads
pub mod Direct
pub mod Roundtrip
pub mod Table
mod Tests
use hoo.Base.{
  ℕ, zero, suc, ◌+◌, ◌-◌, ◌*◌, ◌/◌, ◌%◌, ◌^◌, Bool, true, false, not, ◌&&◌, ◌||◌, List, [], ◌∷◌,
  Option, none, some, Outcome, ok, panic, fault, ◌>>=◌, ◌>>◌, panic_if, checked, ◌==◌, ltb, leb,
  if◌then◌else◌, length, get_elem?, set, take,
}
use hoo.UserLib.{memmove, memset}
use hoo.Cga.{Cga, putstr}
use hoo.Threads.Fmngr
use hoo.Threads.Fmngr.{Fmngr, files_get, files_set, over_limit}
use hoo.Fs.Blocks.{bytes_sector}
use hoo.Fs.Inodes.{Inode, Fs, inode_at, write_inode, iblock_get, iblock_set}
use hoo.Fs.Volume.{Volume, read_block, write_block, claim_block, resize, free_map_update}

-- `files_t`
pub record OpenFile : Type 0 where
  pub inode_idx : ℕ
  pub ref : ℕ

-- What the functions of files.c work on: the volume, `__fs_files`, the descriptors of the current
-- task, and the screen
pub record Files : Type 0 where
  pub volume : Volume
  pub table : List OpenFile
  pub fmngr : Fmngr
  pub cga : Cga

-- The loop of `fd_global_alloc`, from index `i` on
unfoldable pub global_alloc : List OpenFile → ℕ → Outcome ℕ
global_alloc [] i = panic "fd_global_alloc(): no free file descriptor"
global_alloc (f ∷ fs) i = let rest = global_alloc fs (i + 1) in if f.ref == 0 then ok i else rest

-- `__fs_files[index].inode_idx_ = …; ++__fs_files[index].ref_;`, `fmngr_alloc` and
-- `fmngr_files_set`: the end of `files_open`
unfoldable pub open_inode : Files → ℕ → Outcome (ℕ × Files)
unfolding global_alloc Fmngr.alloc files_set
open_inode s idx = do
  index ← global_alloc s.table 0
  f ← checked (get_elem? s.table index)
  let table = set s.table index (record { inode_idx = idx; ref = (f.ref + 1) % 2 ^ 32 })
  (fd, m) ← Fmngr.alloc s.fmngr
  m' ← files_set m fd index
  ok (fd, record s { table = table; fmngr = m' })

-- `files_close(fd)`
unfoldable pub close : Files → ℕ → Outcome Files
unfolding files_get
close s fd = do
  panic_if (over_limit fd) "files_close(): invalid fd"
  index ← files_get s.fmngr fd
  f ← checked (get_elem? s.table index)
  panic_if (f.ref == 0) "files_close(): the file was already closed"
  ok (record s { table = set s.table index (record f { ref = f.ref - 1 }) })

-- The inode that a descriptor leads to; the messages differ.
unfoldable pub inode_of : Files → ℕ → Outcome OpenFile
unfolding files_get
inode_of s fd = do index ← files_get s.fmngr fd; checked (get_elem? s.table index)

-- `files_get_size(fd)`
unfoldable pub get_size : Files → ℕ → Outcome ℕ
unfolding inode_of inode_at
get_size s fd = do
  f ← inode_of s fd
  panic_if (f.ref == 0) "files_get_size(): the file was in non-opening"
  n ← inode_at s.volume.fs f.inode_idx
  ok n.size

-- The loop of `files_read`, `n` rounds from block `i` on: `total` bytes go to `buf`.
unfoldable pub read_loop : ℕ → Fs → ℕ → ℕ → ℕ → List ℕ → Outcome (List ℕ)
unfolding iblock_get read_block memmove
read_loop zero fs idx total i buf = ok buf
read_loop (suc n) fs idx total i buf = do
  let cur_size = if n == 0 then total - i * bytes_sector else bytes_sector
  lba ← iblock_get fs idx i
  temp ← read_block fs lba
  b ← memmove buf (i * bytes_sector) temp 0 cur_size
  read_loop n fs idx total (i + 1) b

-- What `files_read` does: the bytes of a file, or as many calls of `cclbuff_get` on the keyboard's
-- buffer as it is asked for
pub data Read : Type 0 where
  from_file : List ℕ → Read
  from_keyboard : ℕ → Read

-- `files_read(fd, buf, size)`
unfoldable pub read : Files → ℕ → List ℕ → ℕ → Outcome Read
unfolding inode_of inode_at read_loop
read s fd buf size = do
  panic_if (over_limit fd) "files_read(): invalid fd"
  if fd == 0 then ok (from_keyboard size) else (do
    f ← inode_of s fd
    panic_if (f.ref == 0) "files_close(): the file was in non-opening"
    n ← inode_at s.volume.fs f.inode_idx
    let total = if ltb n.size size then n.size else size
    let filled =
        (read_loop ((total + bytes_sector) % 2 ^ 32 / bytes_sector) s.volume.fs f.inode_idx total 0
            buf
          >>= λ b. ok (from_file b))
    if n.size == 0 || size == 0 then ok (from_file buf) else filled)

-- The sector that `files_write` makes of its buffer in round `i`, in the memory of `buf_tmp`
unfoldable pub fill_sector : List ℕ → List ℕ → ℕ → ℕ → Outcome (List ℕ)
unfolding memmove memset
fill_sector tmp buf size i =
    if i == size / bytes_sector && not (size % bytes_sector == 0)
    then (do
      t ← memmove tmp 0 buf (i * bytes_sector) (size % bytes_sector)
      memset t (size % bytes_sector) 0 (bytes_sector - size % bytes_sector))
    else memmove tmp 0 buf (i * bytes_sector) bytes_sector

-- The block of the file that round `i` writes to; it is made if there is none.
unfoldable pub block_for : Fs → ℕ → ℕ → Outcome (ℕ × Fs)
unfolding iblock_get claim_block iblock_set
block_for fs idx i = do
  lba ← iblock_get fs idx i
  if lba == 0
      then (do (made, fs') ← claim_block fs; fs'' ← iblock_set fs' idx i made; ok (made, fs''))
      else ok (lba, fs)

-- The loop of `files_write`, `n` rounds from round `i` on
unfoldable pub write_loop : ℕ → Fs → ℕ → List ℕ → List ℕ → ℕ → ℕ → Outcome Fs
unfolding fill_sector block_for write_block
write_loop zero fs idx tmp buf size i = ok fs
write_loop (suc n) fs idx tmp buf size i = do
  t ← fill_sector tmp buf size i
  (lba, fs') ← block_for fs idx i
  fs'' ← write_block fs' lba t
  write_loop n fs'' idx t buf size (i + 1)

-- `files_write(fd, buf, size)`; `memory` is what `dyn_alloc` gives for a sector.
unfoldable pub write : Files → List ℕ → ℕ → List ℕ → ℕ → Outcome Files
unfolding inode_of write_loop resize write_inode free_map_update putstr
write s memory fd buf size = do
  panic_if (over_limit fd) "files_write(): invalid fd"
  if size == 0
      then ok s
      else if fd == 0
      then panic "files_write(): not allowd to write to stdin"
      else if fd == 1 || fd == 2
      then (do c ← putstr s.cga (take size buf); ok (record s { cga = c }))
      else (do
        f ← inode_of s fd
        panic_if (f.ref == 0) "files_write(): the file was in non-opening"
        fs ← write_loop (size / bytes_sector + 1) s.volume.fs f.inode_idx memory buf size 0
        fs₂ ← resize fs f.inode_idx size
        fs₃ ← write_inode fs₂ f.inode_idx
        ok (record s { volume = record s.volume { fs = free_map_update fs₃ } }))
