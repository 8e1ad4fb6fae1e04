-- ===== src/Fs/Dir/Tests.antt =====
-- kern/fs/dir.c on a directory of three items in block 326: itself, its parent and "ab".
use hoo.Base.{
  ◌/◌, ℕ, zero, suc, ◌≤◌, ◌<◌, ◌≡◌, inl, inr, true, Bool, List, Option, [], ◌∷◌, ok, arith, refl,
  replicate, set, Bool-cases, ◌&&◌, false, ◌||◌, ◌==◌, ℕ_discrete, sym, ◌∙◌,
}
use mathlib.Core.Path.{subst}
use hoo.Bitmap
use hoo.UserLib.{load, strcmp}
use hoo.UserLib.Strings.{Ends, chars, same, strcmp-same}
use hoo.Fs.Blocks.{new_super_block, free_rw_disk}
use hoo.Fs.Inodes.{Inode, Fs, iblock_get, iblock_handle, direct, inode_at}
use hoo.Fs.Inodes.Handle.{no_inode}
use hoo.Fs.Volume.{bytes_of, read_block}
use hoo.Fs.Dir.{DirItem, dirblock_get, find_sub}
use hoo.Fs.Dir.Find.{find_path}
use hoo.Fs.Dir.Rounds.{find_path-enough}
use hoo.Fs.Dir.Item.{FirstNamed}
use hoo.Fs.Dir.Search.{Readable, find_sub-FirstNamed, item}

abbrev name : List ℕ
name = 97 ∷ 98 ∷ 0 ∷ []

abbrev node : Inode
node = record { size = 3; iblocks = 326 ∷ replicate 7 0 }

-- The items as words: the type, the inode and the name
abbrev block : List ℕ
block =
    2
    ∷ 0
    ∷ 46
    ∷ 0
    ∷ 0
    ∷ 0
    ∷ 2
    ∷ 0
    ∷ 0x2e2e
    ∷ 0
    ∷ 0
    ∷ 0
    ∷ 1
    ∷ 5
    ∷ 0x6261
    ∷ 0
    ∷ 0
    ∷ 0
    ∷ replicate 110 0

abbrev small : Fs
small = record {
  sb = new_super_block;
  inodes = set (replicate 64 no_inode) 0 node;
  free_map = record { len_inbits = 8; buff = 1 ∷ []; prev_free = 1 };
  disk = λ a. block;
}

abbrev root : DirItem
root = record { type = 2; inode_idx = 0; name = replicate 16 0 }

get_run : iblock_get small 0 0 ≡ ok 326
unfolding iblock_get iblock_handle direct inode_at load
get_run = refl

read_run : read_block small 326 ≡ ok (bytes_of block)
unfolding read_block free_rw_disk bytes_of Bitmap.test load
read_run = refl

-- A test of `Ends`, and a test for all numbers below one
abbrev has_end : List ℕ → Bool
has_end [] = false
has_end (c ∷ s) = c == 0 || has_end s

has_end-Ends : (s : List ℕ) → has_end s ≡ true → Ends s
has_end-Ends [] h = cc
has_end-Ends (c ∷ s) h = elim (Bool-cases (c == 0)) [
  | inl z ↦ inl (ground arith)
  | inr nz ↦ inr (has_end-Ends s (sym (rw nz refl) ∙ h))
]

both : (x y : Bool) → (x && y) ≡ true → (x ≡ true) × (y ≡ true)
both true y h = (refl, h)
both false y h = absurd (ground arith)

abbrev all_below : (ℕ → Bool) → ℕ → Bool
all_below f zero = true
all_below f (suc n) = f n && all_below f n

all_below_lem : (f : ℕ → Bool) (n j : ℕ) → all_below f n ≡ true → j < n → f j ≡ true
all_below_lem f zero j h lt = absurd (omega arith)
all_below_lem f (suc n) j h lt = elim (ℕ_discrete j n) [
  | yes e ↦ subst (λ i. f i ≡ true) (sym e) ((both (f n) (all_below f n) h).0)
  | no ne ↦ all_below_lem f n j ((both (f n) (all_below f n) h).1) (omega arith)
]

names_run : (j : ℕ) → j < 21 → Ends (dirblock_get (bytes_of block) j).name
unfolding dirblock_get bytes_of
names_run j h =
    let all : all_below (λ i. has_end (dirblock_get (bytes_of block) i).name) 21 ≡ true = refl in
    has_end-Ends (dirblock_get (bytes_of block) j).name
      (all_below_lem (λ i. has_end (dirblock_get (bytes_of block) i).name) 21 j all h)

at_run : inode_at small 0 ≡ ok node
unfolding inode_at load
at_run = refl

block_run : (i : ℕ) → i ≤ 3 / 21 → iblock_get small 0 i ≡ ok 326
block_run i h = let e : i ≡ 0 = omega arith in rw e get_run

small-Readable : Readable small 0 3 (λ i. bytes_of block) (λ i. 326) name
small-Readable = record {
  ends = inr (inr (inl refl));
  block = block_run;
  made = λ i h e. omega arith;
  content = λ i h. read_run;
  names = λ i j h lt. names_run j lt;
}

find_sub-FirstNamed_example :
    (r : Option ℕ) × (find_sub small root name ≡ ok r)
    × FirstNamed (item small 0 3 (λ i. bytes_of block) (λ i. 326) name) name 0 3 r
find_sub-FirstNamed_example =
    find_sub-FirstNamed small root node (λ i. bytes_of block) (λ i. 326) name at_run small-Readable

strcmp-same_run : strcmp name (97 ∷ 0 ∷ 98 ∷ []) ≡ ok (same (chars name) (chars (97 ∷ 0 ∷ 98 ∷ [])))
strcmp-same_run = strcmp-same name (97 ∷ 0 ∷ 98 ∷ []) (inr (inr (inl refl))) (inr (inl refl))

-- Three rounds are as good as seven for "/ab".
find_path-enough_example :
    find_path 3 small (47 ∷ 97 ∷ 98 ∷ 0 ∷ []) 3 1 root (replicate 16 0)
    ≡ find_path 7 small (47 ∷ 97 ∷ 98 ∷ 0 ∷ []) 3 1 root (replicate 16 0)
find_path-enough_example =
    find_path-enough 3 7 small (47 ∷ 97 ∷ 98 ∷ 0 ∷ []) 3 1 root (replicate 16 0) (omega arith)
      (omega arith)
