-- ===== src/Fs/Files/Tests.antt =====
-- kern/fs/files.c on a file of two blocks, 326 and 327, behind descriptor 3.
use hoo.Base.{
  ◌<◌, ◌-◌, get_or, ℕ, zero, suc, ◌≤◌, ◌≡◌, ◌≢◌, [], ◌∷◌, some, ok, arith, refl, replicate,
  length-replicate, All-replicate, All-get_or, get_elem?, set,
}
use hoo.Bitmap
use hoo.Bitmap.Invariant
use hoo.Bitmap.Invariant.{bit}
use hoo.UserLib.{load}
use hoo.Cga.{blank}
use hoo.Fs.Blocks.{new_super_block, zero_sector}
use hoo.Fs.Inodes.{Inode, Fs}
use hoo.Fs.Inodes.Handle.{no_inode}
use hoo.Fs.Files.{Files, OpenFile, read, write, from_file, open_inode, close, inode_of}
use hoo.Fs.Files.Bytes.{Bytes}
use hoo.Fs.Files.Direct.{Direct}
use hoo.Fs.Files.Roundtrip.{Leads, read-write}
use hoo.Fs.Files.Table.{close-open_inode}

abbrev node : Inode
node = record { size = 0; iblocks = 326 ∷ 327 ∷ replicate 6 0 }

abbrev disk_of : Fs
disk_of = record {
  sb = new_super_block;
  inodes = set (replicate 64 no_inode) 5 node;
  free_map = record { len_inbits = 8; buff = 3 ∷ []; prev_free = 0 };
  disk = λ a. zero_sector;
}

abbrev file : OpenFile
file = record { inode_idx = 5; ref = 1 }

abbrev closed : OpenFile
closed = record { inode_idx = 0; ref = 0 }

abbrev state : Files
state = record {
  volume = record {
    fs = disk_of;
    inode_map = record { len_inbits = 64; buff = 32 ∷ replicate 7 0; prev_free = 0 };
  };
  table = closed ∷ file ∷ closed ∷ [];
  fmngr = record {
    fd_set = record { len_inbits = 64; buff = 15 ∷ replicate 7 0; prev_free = 0 };
    files = 0 ∷ 0 ∷ 0 ∷ 1 ∷ replicate 60 0;
  };
  cga = record { lock = 0; attribute = 15; vm = λ i. blank; cursor = 0 };
}

state-Leads : Leads state 3 file
state-Leads = record { index = 1; descriptor = refl; entry = refl; opened = omega arith }

test_run : (Bitmap.test disk_of.free_map 0 ≡ ok 1) × (Bitmap.test disk_of.free_map 1 ≡ ok 2)
unfolding Bitmap.test load
test_run = (refl, refl)

two : (P : ℕ → Type 0) → P 0 → P 1 → (k : ℕ) → k ≤ 1 → P k
two P a b zero h = a
two P a b (suc zero) h = b
two P a b (suc (suc k)) h = absurd (omega arith)

node-Direct : Direct disk_of 5 node 600
node-Direct = record {
  inside = omega arith;
  at = refl;
  eight = refl;
  limit = refl;
  low = omega arith;
  small = omega arith;
  behind = two (λ k. 326 ≤ get_or node.iblocks k 0) (omega arith) (omega arith);
  in_use =
      two
        (λ k.
          (bit : ℕ) × (Bitmap.test disk_of.free_map (get_or node.iblocks k 0 - 326) ≡ ok bit)
          × (bit ≢ 0))
        (1, test_run.0, omega arith) (2, test_run.1, omega arith);
  apart = λ i j hi hj ne.
      two (λ x. (y : ℕ) → y ≤ 1 → x ≢ y → get_or node.iblocks x 0 ≢ get_or node.iblocks y 0)
        (two (λ y. 0 ≢ y → 326 ≢ get_or node.iblocks y 0) (λ n. absurd (n refl)) (λ n. omega arith))
        (two (λ y. 1 ≢ y → 327 ≢ get_or node.iblocks y 0) (λ n. omega arith) (λ n. absurd (n refl)))
        i hi j hj ne;
  inodes_before = omega arith;
  map_before = omega arith;
}

constant-Bytes : (n c : ℕ) → c < 256 → Bytes (replicate n c)
constant-Bytes n c lt j =
    All-get_or (λ x. x < 256) (replicate n c) j 0 (All-replicate (λ x. x < 256) n c lt)
      (omega arith)

-- 600 bytes go to two sectors and come back.
read-write_example :
    (s' : Files) × (write state (replicate 512 9) 3 (replicate 600 7) 600 ≡ ok s')
    × (read s' 3 (replicate 600 0) 600 ≡ ok (from_file (replicate 600 7)))
read-write_example =
    read-write state file node (replicate 512 9) (replicate 600 7) (replicate 600 0) 3 600
      (omega arith) (omega arith) state-Leads node-Direct (omega arith)
      (length-replicate {A = ℕ} 600 7) (constant-Bytes 600 7 (omega arith))
      (length-replicate {A = ℕ} 512 9) (constant-Bytes 512 9 (omega arith))
      (length-replicate {A = ℕ} 600 0)

descriptors-IsValid : Invariant.IsValid state.fmngr.fd_set
descriptors-IsValid = record {
  bytes = (omega arith, All-replicate (λ b. b < 256) 7 0 (omega arith));
  room = omega arith;
  small = omega arith;
  next = omega arith;
}

close-open_inode_example :
    (fd : ℕ) × (index : ℕ) × (s' : Files) × (s'' : Files) × (open_inode state 9 ≡ ok (fd, s'))
    × (inode_of s' fd ≡ ok (record { inode_idx = 9; ref = 1 }))
    × (close s' fd ≡ ok s'')
    × (s''.table ≡ set state.table index (record { inode_idx = 9; ref = 0 }))
    × ((g : OpenFile) × (get_elem? state.table index ≡ some g) × (g.ref ≡ 0))
close-open_inode_example =
    close-open_inode state 9 descriptors-IsValid refl refl (omega arith) 4 0 closed (omega arith)
      refl refl refl
