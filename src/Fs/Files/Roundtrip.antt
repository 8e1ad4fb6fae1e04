-- ===== src/Fs/Files/Roundtrip.antt =====
-- kern/fs/files.c: `files_read` returns what `files_write` has written, for a file within the
-- direct blocks that it has.
use hoo.Base.{
  ℕ, ◌+◌, ◌/◌, ◌%◌, ◌^◌, ◌<◌, ◌≤◌, ◌≡◌, ◌≢◌, false, ◌||◌, List, some, ok, length, get_or, get_elem?,
  arith, refl, ap, ◌∙◌, sym, ==_ne, ◌==◌, ltb, if◌then◌else◌,
}
use mathlib.Core.Path.{subst}
use hoo.Fs.Blocks.{Disk}
use hoo.Fs.Inodes.{Inode, Fs, inode_at, write_inode}
use hoo.Fs.Volume.{bytes_of, resize, free_map_update}
use hoo.Fs.Files.{Files, OpenFile, from_file, read, write, write_loop}
use hoo.Threads.Fmngr.{over_limit}
use hoo.Fs.Files.Bytes.{Bytes, get_or-ext}
use hoo.Fs.Files.Reads.{read_loop-Front}
use hoo.Fs.Files.Sectors.{Part, write_loop-Holds}
use hoo.Fs.Files.Direct.{
  Direct, direct_get, block-read, Direct-Blocks, get_elem?-set_self, finished, finished-disk,
}

file_fd :
    (fd : ℕ)
    → 3 ≤ fd
    → fd < 64
    → (over_limit fd ≡ false) × ((fd == 0) ≡ false) × ((fd == 1 || fd == 2) ≡ false)
file_fd fd ge lt = (ground arith, ground arith, ground arith)

positive : (n : ℕ) → 0 < n → n ≢ 0
positive n h = omega arith

nonzero : (size : ℕ) → size % 512 ≢ 0 → size ≢ 0
nonzero size h = omega arith

inode_valid : (idx : ℕ) → idx < 64 → (idx == 0xffffffff) ≡ false
inode_valid idx h = ground arith

-- The descriptor leads to the entry `f` of the table, which is open.
pub record Leads (s : Files) (fd : ℕ) (f : OpenFile) : Type 0 where
  pub index : ℕ
  pub descriptor : get_elem? s.fmngr.files fd ≡ some index
  pub entry : get_elem? s.table index ≡ some f
  pub opened : f.ref ≢ 0

write_run :
    (s : Files) (f : OpenFile) (n : Inode) (memory buf : List ℕ) (fd size : ℕ) (d : Disk)
    → 3 ≤ fd
    → fd < 64
    → 0 < size
    → Leads s fd f
    → Direct s.volume.fs f.inode_idx n size
    → write_loop (size / 512 + 1) s.volume.fs f.inode_idx memory buf size 0
      ≡ ok (record s.volume.fs { disk = d })
    → write s memory fd buf size
      ≡ ok (record s {
        volume = record s.volume {
          fs = finished s.volume.fs f.inode_idx (record n { size = size }) d;
        };
      })
unfolding write resize write_inode inode_at
write_run s f n memory buf fd size d ge lt pos leads v run =
    let n' : Inode = record n { size = size } in
    let (low, e₀, e₁) = file_fd fd ge lt in
    let e₂ : (size == 0) ≡ false = ==_ne size 0 (positive size pos) in
    let e₃ : (f.inode_idx == 0xffffffff) ≡ false = inode_valid f.inode_idx v.inside in
    rw
      (
        low,
        e₂,
        e₀,
        e₁,
        leads.descriptor,
        leads.entry,
        ==_ne f.ref 0 leads.opened,
        run,
        v.at,
        e₃,
        get_elem?-set_self s.volume.fs.inodes f.inode_idx n' n v.at,
      )
      refl

-- How much is read, in how many rounds
read_size :
    (n size : ℕ)
    → n ≡ size
    → size % 512 ≢ 0
    → size / 512 < 6
    → ((if ltb n size then n else size) ≡ size)
      × ((n == 0 || size == 0) ≡ false)
      × ((size + 512) % 2 ^ 32 / 512 ≡ size / 512 + 1)
read_size n size e ragged small = (ground arith, ground arith, omega arith)

-- files_read returns the bytes whose parts the blocks of the file hold.
read_run :
    (s : Files) (f : OpenFile) (n : Inode) (buf out : List ℕ) (fd size : ℕ)
    → 3 ≤ fd
    → fd < 64
    → Leads s fd f
    → Direct s.volume.fs f.inode_idx n size
    → n.size ≡ size
    → size % 512 ≢ 0
    → length buf ≡ size
    → length out ≡ size
    → ((k : ℕ)
        → k ≤ size / 512
        → Part buf size k (bytes_of (s.volume.fs.disk (get_or n.iblocks k 0))))
    → read s fd out size ≡ ok (from_file buf)
unfolding read inode_at
read_run s f n buf out fd size ge lt leads v sized ragged len room parts =
    let (low, e₀, e₁) = file_fd fd ge lt in
    let (b, loop, front) =
      read_loop-Front buf size s.volume.fs f.inode_idx (λ k. get_or n.iblocks k 0)
        (λ k. bytes_of (s.volume.fs.disk (get_or n.iblocks k 0)))
        (λ k le.
          direct_get s.volume.fs f.inode_idx n k v.inside v.at v.eight v.limit v.low
            (omega (arith, v.small)))
        (λ k le.
          let (bit, test, ne) = v.in_use k le in
          block-read s.volume.fs (get_or n.iblocks k 0) bit (v.behind k le) test ne)
        parts (size / 512 + 1) 0 out (omega arith) (room, λ m l h. absurd (omega arith)) in
    let same : b ≡ buf =
      get_or-ext b buf (front.0 ∙ sym len) (λ j l. front.1 j (omega arith) (omega arith)) in
    let (t₁, t₂, t₃) = read_size n.size size sized ragged v.small in
    rw (low, e₀, leads.descriptor, leads.entry, ==_ne f.ref 0 leads.opened, v.at, t₁, t₂, t₃, loop)
      (ap (λ x. ok (from_file x)) same)

Direct-finished :
    (fs : Fs) (idx : ℕ) (n : Inode) (size : ℕ) (d : Disk)
    → Direct fs idx n size
    → Direct (finished fs idx (record n { size = size }) d) idx (record n { size = size }) size
unfolding free_map_update
Direct-finished fs idx n size d v = record {
  inside = v.inside;
  at = get_elem?-set_self fs.inodes idx (record n { size = size }) n v.at;
  eight = v.eight;
  limit = v.limit;
  low = v.low;
  small = v.small;
  behind = v.behind;
  in_use = v.in_use;
  apart = v.apart;
  inodes_before = v.inodes_before;
  map_before = v.map_before;
}

-- An open file whose inode has its own block in use for every sector among its six direct ones
-- keeps what is written to it: files_write of a buffer of bytes whose size is not a multiple of
-- 512 succeeds, and files_read of as many bytes then returns the buffer.
pub read-write :
    (s : Files) (f : OpenFile) (n : Inode) (memory buf out : List ℕ) (fd size : ℕ)
    → 3 ≤ fd
    → fd < 64
    → Leads s fd f
    → Direct s.volume.fs f.inode_idx n size
    → size % 512 ≢ 0
    → length buf ≡ size
    → Bytes buf
    → length memory ≡ 512
    → Bytes memory
    → length out ≡ size
    → (s' : Files) × (write s memory fd buf size ≡ ok s')
      × (read s' fd out size ≡ ok (from_file buf))
read-write s f n memory buf out fd size ge lt leads v ragged len bytes whole clean room =
    let fs : Fs = s.volume.fs in
    let idx : ℕ = f.inode_idx in
    let n' : Inode = record n { size = size } in
    let blocks = Direct-Blocks fs idx n buf size len bytes ragged v in
    let (d, run, holds, kept) =
      write_loop-Holds buf size len bytes ragged fs idx (λ k. get_or n.iblocks k 0) blocks
        (size / 512 + 1) 0 fs.disk memory (omega arith) whole clean in
    let s' : Files = record s { volume = record s.volume { fs = finished fs idx n' d } } in
    (
      s',
      write_run s f n memory buf fd size d ge lt (omega arith) leads v run,
      read_run s' f n' buf out fd size ge lt
          (record {
            index = leads.index;
            descriptor = leads.descriptor;
            entry = leads.entry;
            opened = leads.opened;
          })
          (Direct-finished fs idx n size d v) refl ragged len room
          (λ k le.
            subst (λ t. Part buf size k (bytes_of t))
              (sym (
                finished-disk fs idx n' d (get_or n.iblocks k 0) v.inside v.inodes_before
                  v.map_before (v.behind k le)))
              (holds k (omega arith) le)),
    )
