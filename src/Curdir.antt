-- ===== src/Curdir.antt =====
-- kern/utilities/curdir.c: the current directory as a table of names of 16 bytes each, and the
-- parent of a path. A string is an object that holds its bytes up to a 0.
pub mod Separator
mod Tests
use hoo.Base.{
  [], ◌∷◌, ◌∷◌, ℕ, zero, suc, ◌+◌, ◌-◌, ◌*◌, Bool, true, false, not, ◌&&◌, List, Option, none, some,
  Outcome, ok, panic, fault, spins, ◌>>=◌, ◌>>◌, panic_if, ◌==◌, ltb, if◌then◌else◌, drop,
}
use hoo.UserLib.{load, store, bzero, memmove, strlen}

-- `curdir_t`; `none` is a `dir_` of 0.
pub record Curdir : Type 0 where
  pub dir : Option (List ℕ)
  pub dirlen : ℕ

abbrev pub diritem_name_len : ℕ
diritem_name_len = 16

abbrev pub max_open_dir : ℕ
max_open_dir = 256

-- `DIR_SEPARATOR`, `DIRNAME_ROOT_ASCII`
abbrev pub separator : ℕ
separator = 47

-- `curdir_init(curdir, dir, dirlen)`
unfoldable pub init : Option (List ℕ) → ℕ → Outcome Curdir
init none dirlen = ok (record { dir = none; dirlen = dirlen })
init (some dir) dirlen = do
  cleared ← bzero dir dirlen
  ok (record { dir = some cleared; dirlen = dirlen })

-- The loop of `curdir_get`, with the entries that are left, from entry `i` on; `acc` bytes of
-- `path` are written. The second component is the value that is returned: `none` for -1.
unfoldable pub get_loop : ℕ → List ℕ → ℕ → List ℕ → ℕ → ℕ → Outcome (List ℕ × Option ℕ)
get_loop zero dir i path pathlen acc = ok (path, some acc)
get_loop (suc n) dir i path pathlen acc = do
  first ← load dir (i * diritem_name_len)
  elim (first == 0) [
    | true ↦ ok (path, some acc)
    | false ↦ strlen (drop (i * diritem_name_len) dir) >>= λ len. elim (ltb pathlen (acc + len)) [
      | true ↦ bzero path pathlen >>= λ p. ok (p, none)
      | false ↦ memmove path acc dir (i * diritem_name_len) len >>= λ p.
          get_loop n dir (i + 1) p pathlen (acc + len)
    ]
  ]

-- `curdir_get(curdir, path, pathlen)`: the path, and whether 0 is returned
unfoldable pub get : List ℕ → List ℕ → ℕ → Outcome (List ℕ × Bool)
get dir path pathlen = do
  (p, end) ← get_loop max_open_dir dir 0 path pathlen 0
  elim end [ none ↦ ok (p, false) | some acc ↦ store p acc 0 >>= λ p'. ok (p', true) ]

-- The inner loop of `curdir_set` from `path[j]` on, writing at `w`: it ends only behind a
-- separator, so that a path without one at its end is read past its end.
unfoldable pub copy_name : List ℕ → List ℕ → ℕ → ℕ → Outcome (List ℕ × List ℕ × ℕ × ℕ)
copy_name [] dir j w = fault
copy_name (c ∷ path) dir j w = elim (c == separator) [
  | true ↦ ok (path, dir, j + 1, w)
  | false ↦ store dir w c >>= λ d. copy_name path d (j + 1) (w + 1)
]

-- The outer loop, from entry `i` on, over what is left of the path: the table, and the last `i`.
unfoldable pub set_loop : ℕ → List ℕ → List ℕ → ℕ → Outcome (List ℕ × ℕ)
set_loop zero path dir i = ok (dir, i)
set_loop (suc n) [] dir i = fault
set_loop (suc n) (c ∷ path) dir i = elim (c == 0) [
  | true ↦ ok (dir, i)
  | false ↦ copy_name (c ∷ path) dir 0 (i * diritem_name_len) >>= λ (left, d, j, w).
      store d w separator >>= λ d₁. store d₁ (w + 1) 0 >>= λ d₂. set_loop n left d₂ (i + 1)
]

-- `curdir_set(curdir, path)`: the table, and whether 0 is returned
unfoldable pub set_path : List ℕ → ℕ → List ℕ → Outcome (List ℕ × Bool)
set_path dir dirlen path = do
  cleared ← bzero dir dirlen
  (d, i) ← set_loop max_open_dir path cleared 0
  ok (d, not (i == max_open_dir))

-- `curdir_copy(dst, src)`
unfoldable pub copy : Curdir → Curdir → Outcome Curdir
copy dst src = elim dst.dir [
  | none ↦ ok dst
  | some d ↦ elim src.dir [
    | none ↦ store d 0 0 >>= λ d'. ok (record dst { dir = some d' })
    | some s ↦ memmove d 0 s 0 src.dirlen >>= λ d'. ok (record dst { dir = some d' })
  ]
]

-- The loop of `get_parent_child_filename` from index `i` down: the last separator that is not at
-- the end of the path, `last`
unfoldable pub find_separator : ℕ → List ℕ → ℕ → Outcome (Option ℕ)
find_separator zero path last = do
  c ← load path 0
  ok (if c == separator && not (0 == last) then some 0 else none)
find_separator (suc i) path last = do
  c ← load path (suc i)
  elim (c == separator && not (suc i == last)) [
    | true ↦ ok (some (suc i))
    | false ↦ find_separator i path last
  ]

-- The name behind the separator, copied to `cur`, without a separator at its end
unfoldable pub child_name : List ℕ → ℕ → ℕ → List ℕ → Outcome (List ℕ)
child_name path sep path_sz cur = do
  moved ← memmove cur 0 path (sep + 1) (path_sz - sep - 1)
  curlen ← strlen moved
  c ← load moved (curlen - 1)
  if c == separator then store moved (curlen - 1) 0 else ok moved

-- `get_parent_child_filename(path_to_parent, cur)`, with a `cur` that is given: both new objects
unfoldable pub parent_child : List ℕ → List ℕ → Outcome (List ℕ × List ℕ)
parent_child path cur = do
  first ← load path 0
  panic_if (not (first == separator)) "get_parent_child_filename(): not a absolute directory"
  path_sz ← strlen path
  found ← find_separator (path_sz - 1) path (path_sz - 1)
  elim found [
    | none ↦ store path 0 separator >>= λ p. store p 1 0 >>= λ p'. store cur 0 0 >>= λ c. ok (p', c)
    | some sep ↦ child_name path sep path_sz cur >>= λ c. store path (sep + 1) 0 >>= λ p. ok (p, c)
  ]

-- `get_parent_child_filename(path_to_parent, 0)`
unfoldable pub parent_only : List ℕ → Outcome (List ℕ)
unfolding find_separator
parent_only path = do
  first ← load path 0
  panic_if (not (first == separator)) "get_parent_child_filename(): not a absolute directory"
  path_sz ← strlen path
  found ← find_separator (path_sz - 1) path (path_sz - 1)
  elim found [
    | none ↦ store path 0 separator >>= λ p. store p 1 0
    | some sep ↦ store path (sep + 1) 0
  ]
