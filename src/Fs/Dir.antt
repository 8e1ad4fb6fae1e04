-- ===== src/Fs/Dir.antt =====
-- kern/fs/dir.c and dir.h: directories, whose blocks hold items of 24 bytes. A buffer of
-- `dyn_alloc` or of the stack is a value here; a name is a string in its 16 bytes.
pub mod Item
pub mod Search
pub mod Find
pub mod Change
pub mod Cwd
pub mod Rounds
mod Tests
use hoo.Base.{
  ℕ, zero, suc, ◌+◌, ◌-◌, ◌*◌, ◌/◌, ◌%◌, ◌^◌, Bool, true, false, not, ◌&&◌, ◌||◌, List, [], ◌∷◌,
  ◌++◌, Option, none, some, Outcome, ok, panic, spins, ◌>>=◌, ◌>>◌, panic_if, ◌==◌, ltb, leb,
  if◌then◌else◌, replicate, take, drop, get_or,
}
use hoo.UserLib.{load, store, memmove, strlen, strcmp}
use hoo.Curdir.{separator, diritem_name_len}
use hoo.Fs.Blocks.{bytes_sector}
use hoo.Fs.Inodes.{
  Inode, Fs, inode_at, write_inode, inode_set, iblock_get, iblock_set, inode_allocate,
  inode_map_setup,
}
use hoo.Fs.Volume.{
  Volume, word_bytes, read_block, write_block, claim_block, give_block, resize, free_map_update,
  inode_map_update,
}

-- `diritem_t`
pub record DirItem : Type 0 where
  pub type : ℕ
  pub inode_idx : ℕ
  pub name : List ℕ

abbrev pub type_invalid : ℕ
type_invalid = 0

abbrev pub type_file : ℕ
type_file = 1

abbrev pub type_dir : ℕ
type_dir = 2

abbrev pub item_size : ℕ
item_size = 24

-- `MAX_DIRITEM_PER_BLOCK`
abbrev pub items_per_block : ℕ
items_per_block = bytes_sector / item_size

-- `DIR_CUR` and `DIR_PRE` with their 0, `DIRNAME_ROOT_STR`
abbrev pub dir_cur : List ℕ
dir_cur = 46 ∷ 0 ∷ []

abbrev pub dir_pre : List ℕ
dir_pre = 46 ∷ 46 ∷ 0 ∷ []

abbrev pub root_name : List ℕ
root_name = 47 ∷ 0 ∷ []

abbrev pub no_name : List ℕ
no_name = replicate diritem_name_len 0

-- An item that `bzero` has cleared
abbrev pub no_item : DirItem
no_item = record { type = 0; inode_idx = 0; name = no_name }

-- The bytes of an item, and the item that bytes hold
unfoldable pub item_bytes : DirItem → List ℕ
item_bytes d = word_bytes d.type ++ word_bytes d.inode_idx ++ d.name

abbrev pub word_at : List ℕ → ℕ → ℕ
word_at bs i =
    get_or bs i 0
    + get_or bs (i + 1) 0 * 2 ^ 8
    + get_or bs (i + 2) 0 * 2 ^ 16
    + get_or bs (i + 3) 0 * 2 ^ 24

-- `dirblock_get(db, block_index, result)`
unfoldable pub dirblock_get : List ℕ → ℕ → DirItem
dirblock_get db i = record {
  type = word_at (drop (i * item_size) db) 0;
  inode_idx = word_at (drop (i * item_size) db) 4;
  name = take diritem_name_len (drop 8 (drop (i * item_size) db));
}

-- `memmove(db->dir_ + i, item, sizeof(diritem_t))`
unfoldable pub put_item : List ℕ → ℕ → DirItem → Outcome (List ℕ)
unfolding memmove item_bytes
put_item db i item = memmove db (i * item_size) (item_bytes item) 0 item_size

-- `dirblock_set(db, block_index, item)`; `none` is a null item.
unfoldable pub dirblock_set : List ℕ → ℕ → Option DirItem → Outcome (List ℕ)
unfolding put_item
dirblock_set db i item = do
  panic_if (leb items_per_block i) "dirblock_set(): index of dirblock overflow"
  put_item db i (elim item [ none ↦ no_item | some d ↦ d ])

-- `dirblock_get_new(result, self, parent)`
unfoldable pub dirblock_get_new : List ℕ → ℕ → ℕ → Outcome (List ℕ)
unfolding put_item memmove
dirblock_get_new result self parent = do
  cur ← memmove no_name 0 dir_cur 0 1
  pre ← memmove no_name 0 dir_pre 0 2
  b ← put_item result 0 (record { type = type_dir; inode_idx = self; name = cur })
  put_item b 1 (record { type = type_dir; inode_idx = parent; name = pre })

-- The inner loop of `diritem_find_sub`, over `n` items of a block from item `j` on
unfoldable pub find_item : ℕ → List ℕ → List ℕ → ℕ → Outcome (Option ℕ)
unfolding strcmp dirblock_get
find_item zero db search j = ok none
find_item (suc n) db search j = do
  same ← strcmp search (dirblock_get db j).name
  elim same [ true ↦ ok (some j) | false ↦ find_item n db search (j + 1) ]

-- `max_diritem_number` of block `i` in a directory of `size` items
abbrev pub items_in : ℕ → ℕ → ℕ
items_in size i = if i == size / items_per_block then size % items_per_block else items_per_block

-- The outer loop, over `n` blocks from block `i` on; `none` is -1.
unfoldable pub find_loop : ℕ → Fs → ℕ → ℕ → List ℕ → ℕ → Outcome (Option ℕ)
unfolding find_item iblock_get read_block
find_loop zero fs idx size search i = ok none
find_loop (suc n) fs idx size search i = do
  lba ← iblock_get fs idx i
  let rest = find_loop n fs idx size search (i + 1)
  if lba == 0 then ok none else (do
    db ← read_block fs lba
    found ← find_item (items_in size i) db search 0
    elim found [ some j ↦ ok (some (i * items_per_block + j)) | none ↦ rest ])

-- `diritem_find_sub(di, search)`
unfoldable pub find_sub : Fs → DirItem → List ℕ → Outcome (Option ℕ)
unfolding find_loop inode_at
find_sub fs di search = do
  n ← inode_at fs di.inode_idx
  find_loop (n.size / items_per_block + 1) fs di.inode_idx n.size search 0

-- `diritem_set(dir, type, inode_idx, name)`
unfoldable pub diritem_set : DirItem → ℕ → ℕ → List ℕ → Outcome DirItem
unfolding memmove strlen
diritem_set dir type idx name = do
  len ← strlen name
  b ← memmove dir.name 0 name 0 (len + 1)
  ok (record { type = type; inode_idx = idx; name = b })

-- `is_root_dir(dir)`
unfoldable pub is_root_dir : List ℕ → Outcome Bool
unfolding strcmp
is_root_dir dir = strcmp dir root_name
