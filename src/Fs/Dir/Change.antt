-- ===== src/Fs/Dir/Change.antt =====
-- kern/fs/dir.c: items that are made, put into a directory and taken out, and the change of the
-- current directory.
use hoo.Base.{
  ◌-◌, panic_if, Bool, none, some, fault, ℕ, zero, suc, ◌+◌, ◌/◌, ◌%◌, ◌^◌, true, false, ◌&&◌, List,
  Outcome, ok, panic, ◌>>=◌, ◌==◌, ltb, leb, if◌then◌else◌, replicate,
}
use hoo.Fs.Blocks.{bytes_sector}
use hoo.Fs.Inodes.{
  Fs, inode_at, write_inode, inode_set, iblock_get, iblock_set, inode_allocate, inode_map_setup,
}
use hoo.Fs.Volume.{
  Volume, read_block, write_block, claim_block, give_block, resize, free_map_update,
  inode_map_update,
}
use hoo.Fs.Dir.{
  dirblock_set, find_sub, DirItem, no_item, type_invalid, type_file, type_dir, items_per_block,
  dirblock_get, put_item, dirblock_get_new, diritem_set,
}

abbrev pub empty_block : List ℕ
empty_block = replicate bytes_sector 0

-- The part of `diritem_create` on the kind of the item: the inode, and the block of a directory
unfoldable pub new_content : Fs → ℕ → ℕ → ℕ → ℕ → Outcome Fs
unfolding inode_set dirblock_get_new write_block free_map_update
new_content fs type idx parent free =
    if type == type_file
    then inode_set fs idx 0 free
    else if type == type_dir
    then (do
      fs' ← inode_set fs idx 2 free
      db ← dirblock_get_new empty_block idx parent
      fs'' ← write_block fs' free db
      ok (free_map_update fs''))
    else panic "diritem_create(): bug"

-- `diritem_create(type, item_name, parent_inode)`
unfoldable pub diritem_create : Volume → ℕ → List ℕ → ℕ → Outcome (DirItem × Volume)
unfolding new_content inode_allocate inode_map_setup diritem_set claim_block write_inode
    inode_map_update
diritem_create v type name parent = do
  (idx, m) ← inode_allocate v.inode_map
  m' ← inode_map_setup m idx true
  di ← diritem_set no_item type idx name
  (free, fs) ← claim_block v.fs
  fs' ← new_content fs type idx parent free
  fs'' ← write_inode fs' idx
  ok (di, inode_map_update (record { fs = fs''; inode_map = m' }))

-- The block of `diritem_push`, with its number and what is in it
unfoldable pub push_block : Fs → ℕ → ℕ → Outcome (ℕ × List ℕ × Fs)
unfolding iblock_get read_block claim_block free_map_update iblock_set write_inode
push_block fs idx i = do
  lba ← iblock_get fs idx i
  if leb fs.sb.lba_free lba
      then (do db ← read_block fs lba; ok (lba, db, fs))
      else if lba == 0
      then (do
        (made, fs') ← claim_block fs
        fs₂ ← iblock_set (free_map_update fs') idx i made
        fs₃ ← write_inode fs₂ idx
        ok (made, empty_block, fs₃))
      else panic "diritem_push(): bug"

-- `diritem_push(parent, cur)`
unfoldable pub diritem_push : Fs → DirItem → DirItem → Outcome Fs
unfolding push_block inode_at put_item resize write_block write_inode
diritem_push fs parent cur = do
  n ← inode_at fs parent.inode_idx
  (lba, db, fs') ← push_block fs parent.inode_idx (n.size / items_per_block)
  n' ← inode_at fs' parent.inode_idx
  db' ← put_item db (n'.size % items_per_block) cur
  fs₂ ← resize fs' parent.inode_idx ((n'.size + 1) % 2 ^ 32)
  fs₃ ← write_block fs₂ lba db'
  write_inode fs₃ parent.inode_idx

-- The blocks of a file, `n` of them from block `i` on
unfoldable pub give_file : ℕ → Fs → ℕ → ℕ → Outcome Fs
unfolding iblock_get give_block
give_file zero fs idx i = ok fs
give_file (suc n) fs idx i = do
  lba ← iblock_get fs idx i
  elim (lba == 0) [
    | true ↦ ok fs
    | false ↦ give_block fs lba >>= λ fs'. give_file n fs' idx (i + 1)
  ]

-- The items of a block, `n` of them from item `j` on, each removed by `remove`; block 0 starts
-- with the two items of the directory and its parent.
unfoldable pub remove_items :
    (Volume → DirItem → Outcome Volume) → ℕ → Volume → List ℕ → ℕ → ℕ → Outcome Volume
unfolding dirblock_get
remove_items remove zero v db i j = ok v
remove_items remove (suc n) v db i j = elim (i == 0 && ltb j 2) [
  | true ↦ remove_items remove n v db i (j + 1)
  | false ↦ elim ((dirblock_get db j).type == type_invalid) [
    | true ↦ ok v
    | false ↦ remove v (dirblock_get db j) >>= λ v'. remove_items remove n v' db i (j + 1)
  ]
]

unfoldable pub remove_blocks :
    (Volume → DirItem → Outcome Volume) → ℕ → Volume → ℕ → ℕ → Outcome Volume
unfolding remove_items iblock_get read_block give_block
remove_blocks remove zero v idx i = ok v
remove_blocks remove (suc n) v idx i = do
  lba ← iblock_get v.fs idx i
  elim (lba == 0) [
    | true ↦ ok v
    | false ↦ read_block v.fs lba >>= λ db. remove_items remove items_per_block v db i 0 >>= λ v'.
        give_block v'.fs lba >>= λ fs. remove_blocks remove n (record v' { fs = fs }) idx (i + 1)
  ]

-- `diritem_remove_sub(di)` through `depth` levels of directories; more of them overflow the stack.
unfoldable pub remove_sub : ℕ → Volume → DirItem → Outcome Volume
unfolding give_file remove_blocks inode_at inode_map_setup
remove_sub zero v di = fault
remove_sub (suc depth) v di = do
  n ← inode_at v.fs di.inode_idx
  let file =
      (give_file v.fs.sb.inode_block_index_max v.fs di.inode_idx 0 >>= λ fs.
      ok (record v { fs = fs }))
  let dir = remove_blocks (remove_sub depth) n.size v di.inode_idx 0
  v' ←
      (if di.type == type_file
        then file
        else if di.type == type_dir
        then dir
        else panic "diritem_remove_sub(): bug")
  m ← inode_map_setup v'.inode_map di.inode_idx false
  ok (record v' { inode_map = m })

-- `diritem_remove(parent, cur)`: whether 0 is returned
unfoldable pub diritem_remove : ℕ → Volume → DirItem → DirItem → Outcome (Bool × Volume)
unfolding find_sub iblock_get read_block dirblock_set write_block inode_at resize write_inode
    remove_sub free_map_update inode_map_update
diritem_remove depth v parent cur = do
  result ← find_sub v.fs parent cur.name
  elim result [
    | none ↦ ok (false, v)
    | some k ↦ iblock_get v.fs parent.inode_idx (k / items_per_block) >>= λ lba.
        panic_if (ltb lba v.fs.sb.lba_free) "diritem_remove(): bug" >>= λ _.
        read_block v.fs lba >>= λ db. dirblock_set db (k % items_per_block) none >>= λ db'.
        write_block v.fs lba db' >>= λ fs. inode_at fs parent.inode_idx >>= λ n.
        resize fs parent.inode_idx ((n.size + 2 ^ 32 - 1) % 2 ^ 32) >>= λ fs₂.
        write_inode fs₂ parent.inode_idx >>= λ fs₃.
        remove_sub depth (record v { fs = fs₃ }) cur >>= λ v'.
        ok (true, inode_map_update (record v' { fs = free_map_update v'.fs }))
  ]
