-- ===== src/Fs/Dir/Cwd.antt =====
-- kern/fs/dir.c: `dir_change` and `dir_get_current`. The path is in a page of zeros.
use hoo.Base.{
  ℕ, ◌-◌, Bool, not, List, Option, none, some, Outcome, ok, ◌>>=◌, ◌==◌, if◌then◌else◌, replicate,
}
use hoo.UserLib.{load, store, memmove, strlen, strcmp}
use hoo.Mem.Pm.{page_size}
use hoo.Curdir
use hoo.Curdir.{separator, parent_only}
use hoo.Fs.Inodes.{Fs}
use hoo.Fs.Dir.{DirItem, dir_cur, dir_pre, type_file}
use hoo.Fs.Dir.Find.{diritem_find}

-- What `dir_change` returns: 0, -1, -2 or -3
pub data Change : Type 0 where
  changed no_directory a_file too_long : Change

abbrev pub blank_page : List ℕ
blank_page = replicate page_size 0

-- `len = strlen(abs); if (abs[len - 1] != DIR_SEPARATOR) abs[len] = DIR_SEPARATOR;`
unfoldable pub end_with_separator : List ℕ → Outcome (List ℕ)
unfolding load store strlen
end_with_separator path = do
  len ← strlen path
  c ← load path (len - 1)
  if c == separator then ok path else store path len separator

-- `memmove(abs + strlen(abs), dir, strlen(dir))`
unfoldable pub append_name : List ℕ → List ℕ → Outcome (List ℕ)
unfolding memmove strlen
append_name path dir = do at ← strlen path; len ← strlen dir; memmove path at dir 0 len

-- The absolute path, from the table of the current directory; `none` where it is too long
unfoldable pub absolute : List ℕ → List ℕ → Outcome (Option (List ℕ))
unfolding Curdir.get end_with_separator append_name parent_only strcmp load
absolute table dir = do
  first ← load dir 0
  if first == separator
      then (do p ← append_name blank_page dir; p' ← end_with_separator p; ok (some p'))
      else (do
        (p, fits) ← Curdir.get table blank_page page_size
        up ← strcmp dir dir_pre
        let child = (append_name p dir >>= λ q. end_with_separator q >>= λ q'. ok (some q'))
        let parent = (parent_only p >>= λ q. ok (some q))
        if not fits then ok none else if up then parent else child)

-- The directory is looked up, and the path becomes that of the task and of its parent.
unfoldable pub enter :
    Fs → DirItem → List ℕ → ℕ → ℕ → List ℕ → List ℕ → Outcome (Change × List ℕ × List ℕ)
unfolding diritem_find Curdir.set_path
enter fs root path dirlen parent_dirlen table parent_table = do
  (found, item) ← diritem_find fs root path
  if not found
      then ok (no_directory, table, parent_table)
      else if item.type == type_file
      then ok (a_file, table, parent_table)
      else (do
        (t, fits) ← Curdir.set_path table dirlen path
        (p, fits') ← Curdir.set_path parent_table parent_dirlen path
        ok (changed, t, p))

-- `dir_change(dir)`; `none` is a null pointer. Both tables of names are returned.
unfoldable pub dir_change :
    Fs → DirItem → ℕ → ℕ → List ℕ → List ℕ → Option (List ℕ) → Outcome (Change × List ℕ × List ℕ)
unfolding absolute enter strcmp store
dir_change fs root dirlen parent_dirlen table parent_table none = do
  p ← store blank_page 0 separator
  enter fs root p dirlen parent_dirlen table parent_table
dir_change fs root dirlen parent_dirlen table parent_table (some dir) = do
  here ← strcmp dir dir_cur
  if here then ok (changed, table, parent_table) else (do
    path ← absolute table dir
    elim path [
      | none ↦ ok (too_long, table, parent_table)
      | some p ↦ enter fs root p dirlen parent_dirlen table parent_table
    ])

-- `dir_get_current(buff, bufflen)`
unfoldable pub dir_get_current : List ℕ → List ℕ → ℕ → Outcome (List ℕ × Bool)
unfolding Curdir.get
dir_get_current table buff bufflen = Curdir.get table buff bufflen
