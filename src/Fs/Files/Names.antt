-- ===== src/Fs/Files/Names.antt =====
-- kern/fs/files.c: files and directories by their names. The buffer of a parent's path has 16
-- bytes.
use hoo.Base.{
  ℕ, ◌-◌, ◌^◌, Bool, true, false, not, ◌&&◌, ◌||◌, List, Option, none, some, Outcome, ok, ◌>>=◌,
  ◌>>◌, panic_if, ◌==◌, ltb, if◌then◌else◌,
}
use hoo.UserLib.{load, memmove, strlen}
use hoo.Curdir.{separator, parent_child, parent_only}
use hoo.Fs.Blocks.{max_inodes}
use hoo.Fs.Volume.{Volume}
use hoo.Fs.Dir.{DirItem, type_file, type_dir, no_name, is_root_dir}
use hoo.Fs.Dir.Find.{diritem_find}
use hoo.Fs.Dir.Change.{diritem_create, diritem_push, diritem_remove}
use hoo.Fs.Files.{Files, open_inode}

-- `bzero(parent, sizeof(parent)); memmove(parent, name, strlen(name));`
unfoldable pub path_copy : List ℕ → Outcome (List ℕ)
unfolding memmove strlen
path_copy name = do len ← strlen name; memmove no_name 0 name 0 len

-- `inode_idx_ > MAX_INODES` on `int`s
abbrev pub beyond_inodes : ℕ → Bool
beyond_inodes idx = ltb idx (2 ^ 31) && ltb max_inodes idx

-- `files_create(name)` with the root directory: whether 0 is returned
unfoldable pub create : DirItem → Volume → List ℕ → Outcome (Bool × Volume)
unfolding load strlen diritem_find path_copy parent_child diritem_create diritem_push
create root v name = do
  len ← strlen name
  last ← load name (len - 1)
  (exists, self) ← diritem_find v.fs root name
  if exists then ok (false, v) else (do
    path ← path_copy name
    (parent, cur) ← parent_child path no_name
    (found, di_parent) ← diritem_find v.fs root parent
    panic_if (not found) "files_create(): parent directory is not found"
    (di_cur, v') ←
        diritem_create v (if last == separator then type_dir else type_file) cur di_parent.inode_idx
    fs ← diritem_push v'.fs di_parent di_cur
    ok (true, record v' { fs = fs }))

-- What `files_remove` returns: 0, -1, -2 or -3
pub data Removal : Type 0 where
  removed no_parent bad_parent no_file : Removal

-- `files_remove(name)`, through `depth` levels of directories
unfoldable pub remove : ℕ → DirItem → Volume → List ℕ → Outcome (Removal × Volume)
unfolding is_root_dir path_copy parent_only diritem_find diritem_remove
remove depth root v name = do
  is_root ← is_root_dir name
  if is_root then ok (bad_parent, v) else (do
    path ← path_copy name
    parent ← parent_only path
    (found, di_parent) ← diritem_find v.fs root parent
    let look =
        (diritem_find v.fs root name >>= λ (exists, di_cur).
        if not exists
        then ok (no_file, v)
        else (diritem_remove depth v di_parent di_cur >>= λ (done, v'). ok (removed, v')))
    if not found
        then ok (no_parent, v)
        else if beyond_inodes di_parent.inode_idx || not (di_parent.type == type_dir)
        then ok (bad_parent, v)
        else look)

-- `files_open(name)`: the descriptor; `none` is -1.
unfoldable pub open_file : DirItem → Files → List ℕ → Outcome (Option ℕ × Files)
unfolding diritem_find open_inode
open_file root s name = do
  (found, self) ← diritem_find s.volume.fs root name
  if not found then ok (none, s) else (do
    panic_if (not (self.type == type_file) || beyond_inodes self.inode_idx)
        "files_open(): invalid file format"
    (fd, s') ← open_inode s self.inode_idx
    ok (some fd, s'))
