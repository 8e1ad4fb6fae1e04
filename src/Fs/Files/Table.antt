-- ===== src/Fs/Files/Table.antt =====
-- kern/fs/files.c: what `files_open` enters into the tables and `files_close` takes back.
use hoo.Base.{
  ℕ, zero, suc, ◌+◌, ◌%◌, ◌^◌, ◌<◌, ◌≡◌, true, false, List, [], ◌∷◌, some, ok, ◌==◌, ltb, ◌&&◌,
  Bool-cases, inl, inr, arith, refl, ap, ◌∙◌, length, get_elem?, set, length-set, get_or-set_self,
  get_elem?-eq-get_or,
}
use hoo.Bitmap.Invariant
use hoo.Bitmap.Invariant.{bit}
use hoo.Bitmap.{invalid_index}
use hoo.Threads.Fmngr
use hoo.Threads.Fmngr.{Fmngr, files_set, files_get, over_limit}
use hoo.Bitmap.Scan.{scan_empty-Found}
use hoo.Fs.Files.{OpenFile, Files, global_alloc, open_inode, close, inode_of}

ref_of : (g f : OpenFile) → some g ≡ some f → f.ref ≡ 0 → g.ref ≡ 0
ref_of g f e z = ground arith

add_none : (i : ℕ) → i ≡ i + 0
add_none i = omega arith

add_next : (i k : ℕ) → i + 1 + k ≡ i + suc k
add_next i k = omega arith

-- The first free entry of the table
global_alloc-free :
    (table : List OpenFile) (i j : ℕ) (f : OpenFile)
    → get_elem? table j ≡ some f
    → f.ref ≡ 0
    → (k : ℕ) × (g : OpenFile) × (global_alloc table i ≡ ok (i + k))
      × (get_elem? table k ≡ some g)
      × (g.ref ≡ 0)
      × (k < length table)
unfolding global_alloc
global_alloc-free [] i j f e z = cc
global_alloc-free (g ∷ gs) i zero f e z =
    let b : g.ref ≡ 0 = ref_of g f e z in
    let free : (g.ref == 0) ≡ true = ground arith in
    (zero, g, rw free (ap ok (add_none i)), refl, b, omega arith)
global_alloc-free (g ∷ gs) i (suc j) f e z = elim (Bool-cases (g.ref == 0)) [
  | inl free ↦ (zero, g, rw free (ap ok (add_none i)), refl, ground arith, omega arith)
  | inr used ↦
      let (k, g', run, at, z', lt) = global_alloc-free gs (i + 1) j f e z in
      (suc k, g', rw (used, run) (ap ok (add_next i k)), at, z', omega arith)
]

set-set {ℓ} : {A : Type ℓ} (xs : List A) (i : ℕ) (a b : A) → set (set xs i a) i b ≡ set xs i b
set-set [] i a b = refl
set-set (x ∷ xs) zero a b = refl
set-set (x ∷ xs) (suc i) a b = ap (λ t. x ∷ t) (set-set xs i a b)

get_elem?-set_self {ℓ} :
    {A : Type ℓ} (xs : List A) (i : ℕ) (a : A) → i < length xs → get_elem? (set xs i a) i ≡ some a
get_elem?-set_self xs i a lt =
    get_elem?-eq-get_or (set xs i a) i a (omega (arith, length-set xs i a))
    ∙ ap some (get_or-set_self xs i a a lt)

-- What `open_inode` leaves: the descriptor leads to entry `index`, which is the file, opened once.
pub record Opened (s : Files) (idx index fd : ℕ) (s' : Files) : Type 0 where
  pub was_free : (g : OpenFile) × (get_elem? s.table index ≡ some g) × (g.ref ≡ 0)
  pub descriptor : get_elem? s'.fmngr.files fd ≡ some index
  pub table : s'.table ≡ set s.table index (record { inode_idx = idx; ref = 1 })
  pub volume : s'.volume ≡ s.volume
  pub room : index < length s.table
  pub low : over_limit fd ≡ false

module _ (s : Files) (idx : ℕ) (fds : Invariant.IsValid s.fmngr.fd_set)
    (sixty_four : s.fmngr.fd_set.len_inbits ≡ 64) (array : length s.fmngr.files ≡ 64)
    (small : length s.table < 2 ^ 31) where
  open_inode-Opened :
      (j i : ℕ) (f : OpenFile)
      → j < 64
      → bit s.fmngr.fd_set j ≡ false
      → get_elem? s.table i ≡ some f
      → f.ref ≡ 0
      → (fd : ℕ) × (index : ℕ) × (s' : Files) × (open_inode s idx ≡ ok (fd, s'))
        × Opened s idx index fd s'
  unfolding open_inode files_set files_get Fmngr.alloc
  open_inode-Opened j i f j_lt free e z =
      let (index, g, run, at, z', lt) = global_alloc-free s.table 0 i f e z in
      let (fd, m, got, found) = scan_empty-Found fds j (omega arith) free in
      let fd_lt : fd < 64 = omega (arith, found.inside) in
      let start : 0 + index ≡ index = omega arith in
      let one : (g.ref + 1) % 2 ^ 32 ≡ 1 = omega arith in
      let low : (ltb fd (2 ^ 31) && ltb 64 fd) ≡ false = ground arith in
      let valid : (index == invalid_index) ≡ false = ground arith in
      let room : ltb fd (length s.fmngr.files) ≡ true = ground arith in
      let files : List ℕ = set s.fmngr.files fd index in
      let here : get_elem? files fd ≡ some index =
        get_elem?-set_self s.fmngr.files fd index (omega arith) in
      (
        fd,
        index,
        record s {
          table = set s.table index (record { inode_idx = idx; ref = 1 });
          fmngr = record { fd_set = m; files = files };
        },
        rw (run, start, at, one, got, low, valid, room) refl,
        record {
          was_free = (g, at, z');
          descriptor = here;
          table = refl;
          volume = refl;
          room = lt;
          low = low;
        },
      )

-- On a valid set of 64 descriptors and a table of entries, with a descriptor of the task free and
-- an entry of the table of open files free, files_open of an inode gives a descriptor that leads
-- to the inode with one reference, in an entry that was free, and files_close of it only leaves
-- that entry without references again.
pub close-open_inode :
    (s : Files) (idx : ℕ)
    → Invariant.IsValid s.fmngr.fd_set
    → s.fmngr.fd_set.len_inbits ≡ 64
    → length s.fmngr.files ≡ 64
    → length s.table < 2 ^ 31
    → (j i : ℕ) (f : OpenFile) → j < 64
    → bit s.fmngr.fd_set j ≡ false
    → get_elem? s.table i ≡ some f
    → f.ref ≡ 0
    → (fd : ℕ) × (index : ℕ) × (s' : Files) × (s'' : Files) × (open_inode s idx ≡ ok (fd, s'))
      × (inode_of s' fd ≡ ok (record { inode_idx = idx; ref = 1 }))
      × (close s' fd ≡ ok s'')
      × (s''.table ≡ set s.table index (record { inode_idx = idx; ref = 0 }))
      × ((g : OpenFile) × (get_elem? s.table index ≡ some g) × (g.ref ≡ 0))
unfolding close inode_of
close-open_inode s idx fds sixty_four array small j i f j_lt free e z =
    let (fd, index, s', run, o) =
      open_inode-Opened s idx fds sixty_four array small j i f j_lt free e z in
    let file : OpenFile = record { inode_idx = idx; ref = 1 } in
    let entry : get_elem? s'.table index ≡ some file =
      ap (λ t. get_elem? t index) o.table ∙ get_elem?-set_self s.table index file o.room in
    (
      fd,
      index,
      s',
      record s' { table = set s'.table index (record { inode_idx = idx; ref = 0 }) },
      run,
      rw (o.low, o.descriptor, entry) refl,
      rw (o.low, o.descriptor, entry) refl,
      ap (λ t. set t index (record { inode_idx = idx; ref = 0 })) o.table
          ∙ set-set s.table index file (record { inode_idx = idx; ref = 0 }),
      o.was_free,
    )
