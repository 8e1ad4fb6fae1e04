-- ===== src/Fs/Dir/Find.antt =====
-- kern/fs/dir.c: the search for a path, and the names of a directory.
use hoo.Base.{
  ℕ, zero, suc, ◌+◌, ◌*◌, ◌/◌, ◌%◌, Bool, true, false, not, List, none, some, Outcome, ok, ◌>>=◌,
  ◌>>◌, panic_if, ◌==◌, ltb, if◌then◌else◌, drop, replicate,
}
use hoo.UserLib.{load, store, memmove, strlen}
use hoo.Curdir.{separator, diritem_name_len}
use hoo.Fs.Inodes.{Fs, iblock_get, inode_at}
use hoo.Fs.Volume.{read_block}
use hoo.Fs.Dir.{
  DirItem, no_item, no_name, items_per_block, items_in, find_sub, dirblock_get, is_root_dir,
  type_dir,
}

-- The inner loop of `diritem_find`: the name from `dir[i]` on is copied to `name_storage[j]`.
unfoldable pub copy_part : ℕ → List ℕ → ℕ → ℕ → ℕ → List ℕ → Outcome (ℕ × ℕ × List ℕ)
unfolding load store
copy_part zero dir dir_sz i j name = ok (i, j, name)
copy_part (suc n) dir dir_sz i j name =
    if ltb i dir_sz
    then (do
      c ← load dir i
      if c == separator
          then ok (i, j, name)
          else (store name j c >>= λ s. copy_part n dir dir_sz (i + 1) (j + 1) s))
    else ok (i, j, name)

-- The item that `diritem_find_sub` has found, number `k` of the directory `cur`
unfoldable pub fetch : Fs → DirItem → ℕ → Outcome DirItem
unfolding iblock_get read_block dirblock_get
fetch fs cur k = do
  lba ← iblock_get fs cur.inode_idx (k / items_per_block)
  panic_if (ltb lba fs.sb.lba_free) "diritem_find(): bug"
  db ← read_block fs lba
  ok (dirblock_get db (k % items_per_block))

-- The outer loop, from `dir[i]` on, in the directory `cur`: what is in `found` at its end. Each
-- round goes a character on, so that as many rounds as characters are enough.
unfoldable pub find_path : ℕ → Fs → List ℕ → ℕ → ℕ → DirItem → List ℕ → Outcome DirItem
unfolding copy_part find_sub fetch
find_path zero fs dir dir_sz i cur name = ok no_item
find_path (suc n) fs dir dir_sz i cur name =
    if ltb i dir_sz
    then (do
      (i', j, s) ← copy_part dir_sz dir dir_sz i 0 name
      name' ← store s j 0
      result ← find_sub fs cur name'
      elim result [
        | none ↦ ok no_item
        | some k ↦ fetch fs cur k >>= λ item.
            if ltb (i' + 1) dir_sz then find_path n fs dir dir_sz (i' + 1) item name' else ok item
      ])
    else ok no_item

-- `diritem_find(dir, found)`: whether it is found, and what is in `found`
unfoldable pub diritem_find : Fs → DirItem → List ℕ → Outcome (Bool × DirItem)
unfolding find_path is_root_dir load strlen
diritem_find fs root dir = do
  first ← load dir 0
  panic_if (not (first == separator)) "diritem_find(): not absolute path"
  is_root ← is_root_dir dir
  if is_root then ok (true, root) else (do
    dir_sz ← strlen dir
    found ← find_path dir_sz fs dir dir_sz 1 root no_name
    c ← load found.name 0
    ok (not (c == 0), found))

-- The inner loop of `diritem_traversal`: `n` names of a block go to the buffer, from `off` on.
unfoldable pub list_items : ℕ → List ℕ → ℕ → List ℕ → ℕ → Outcome (List ℕ)
unfolding memmove strlen store dirblock_get
list_items zero db j buff off = ok buff
list_items (suc n) db j buff off = do
  let item = dirblock_get db j
  b ← memmove buff off item.name 0 diritem_name_len
  len ← strlen (drop off b)
  b' ← (if item.type == type_dir then store b (off + len) separator else ok b)
  list_items n db (j + 1) b' (off + diritem_name_len)

unfoldable pub list_blocks : ℕ → Fs → ℕ → ℕ → ℕ → List ℕ → Outcome (List ℕ)
unfolding list_items iblock_get read_block
list_blocks zero fs idx size i buff = ok buff
list_blocks (suc n) fs idx size i buff = do
  lba ← iblock_get fs idx i
  elim (lba == 0) [
    | true ↦ ok buff
    | false ↦ read_block fs lba >>= λ db.
        list_items (items_in size i) db 0 buff (i * items_per_block * diritem_name_len) >>= λ b.
        list_blocks n fs idx size (i + 1) b
  ]

-- `diritem_traversal(dir)`
unfoldable pub diritem_traversal : Fs → DirItem → Outcome (List ℕ)
unfolding list_blocks inode_at
diritem_traversal fs dir = do
  n ← inode_at fs dir.inode_idx
  list_blocks (n.size / items_per_block + 1) fs dir.inode_idx n.size 0
      (replicate (diritem_name_len * n.size) 0)
