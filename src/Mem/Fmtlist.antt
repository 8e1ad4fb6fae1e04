-- ===== src/Mem/Fmtlist.antt =====
-- kern/mem/format_list.c: pages that are cut into objects of one size. A chain of `fmtlist_t` is
-- the list of its pages, a null pointer the empty one; the list of a page holds the addresses of
-- its free objects, each with its `node_t` of 8 bytes before it. A page of zeros, of which the
-- capacity is 0, is one that `dyn_alloc` has mapped. No object is at the null pointer, which is in
-- the image of the kernel.
pub mod Cut
pub mod Reuse
pub mod Lost
mod Tests
use hoo.Base.{
  ℕ, zero, suc, ◌+◌, ◌-◌, ◌/◌, ◌%◌, ◌^◌, Bool, true, false, not, List, [], ◌∷◌, Option, none, some,
  Outcome, ok, panic, fault, ◌>>=◌, ◌>>◌, panic_if, ◌==◌, leb, if◌then◌else◌, length,
}
use hoo.Mem.Pm
use hoo.Mem.Pm.{page_size}
use hoo.Mem.VmKern
use hoo.Mem.VmKern.{VmKern, kern_metadata}
use hoo.Mem.Page.{Paging, set_mapping, pg, all_flags}

-- `fmtlist_t`, with its address; `first_off_` is always its size.
pub record Fmtlist : Type 0 where
  pub page : ℕ
  pub type_size : ℕ
  pub free : List ℕ
  pub capacity : ℕ

-- The pages that a chain takes from and gives back to
pub record Kernel : Type 0 where
  pub paging : Paging
  pub kern : VmKern

abbrev pub node_size : ℕ
node_size = 8

-- `sizeof(fmtlist_t)`
abbrev pub first_off : ℕ
first_off = 28

-- The loop of `fmtlist_init`, `n` objects of which the first has its node at `p`
unfoldable pub objects : ℕ → ℕ → ℕ → List ℕ
objects zero p elem_sz = []
objects (suc n) p elem_sz = (p + node_size) ∷ objects n (p + elem_sz) elem_sz

-- `fmtlist_init(page_va, type_size)`; a division by 0 is a `fault`.
unfoldable pub init : ℕ → ℕ → Outcome Fmtlist
unfolding objects
init page_va type_size = do
  panic_if (not (pg page_va == page_va)) "fmtlist_init(): page size is not 4KB"
  let elem_sz = (node_size + type_size) % 2 ^ 32
  let capacity = (page_size - first_off) / elem_sz
  if elem_sz == 0
      then fault
      else ok (record {
        page = page_va;
        type_size = type_size;
        free = objects capacity (page_va + first_off) elem_sz;
        capacity = capacity;
      })

-- `list_remove(&list->list_, 1)->data_`
unfoldable pub take_first : Fmtlist → Outcome (ℕ × Fmtlist)
take_first f = elim f.free [
  | [] ↦ panic "list_remove(): invalid idx"
  | x ∷ xs ↦ ok (x, record f { free = xs })
]

-- A new page of the kernel: its address
unfoldable pub new_page : Kernel → Outcome (ℕ × Kernel)
unfolding set_mapping
new_page s = do
  (pa, pm) ← Pm.alloc_page s.paging.pm
  (va, kern) ← VmKern.alloc s.kern
  p ← set_mapping (record s.paging { pm = pm }) va pa all_flags
  ok (va, record { paging = p; kern = kern })

-- `fmtlist_alloc(fmtlist, size)`, from `list` on: the object, and the chain from `list` on
unfoldable pub alloc : Kernel → List Fmtlist → ℕ → Outcome (ℕ × Kernel × List Fmtlist)
unfolding init take_first new_page
alloc s [] size = do
  (va, s') ← new_page s
  f ← init va size
  (x, f') ← take_first f
  ok (x, s', f' ∷ [])
alloc s (f ∷ rest) size = do
  let behind = (alloc s rest size >>= λ (x, s', c). ok (x, s', f ∷ c))
  let formatted = (init f.page size >>= take_first >>= λ (x, f'). ok (x, s, f' ∷ []))
  elim f.free [
    | x ∷ xs ↦ ok (x, s, record f { free = xs } ∷ rest)
    | [] ↦ if f.capacity == 0 then formatted else behind
  ]

-- What the loop of `fmtlist_release` ends in: the chain from `list` on, and whether `*fmtlist` is
-- set to null
pub record Released : Type 0 where
  pub kernel : Kernel
  pub chain : List Fmtlist
  pub cleared : Bool

-- The page of the object, with it free, when all its objects are; `has_pre`: `pre` is not null.
unfoldable pub drop_page : Kernel → Bool → Fmtlist → List Fmtlist → Outcome Released
drop_page s has_pre f rest = do
  let chain = if has_pre then rest else f ∷ rest
  let released =
      (VmKern.release s.kern f.page >>= λ kern.
      ok (record { kernel = record s { kern = kern }; chain = chain; cleared = true }))
  if leb kern_metadata f.page
      then released
      else ok (record { kernel = s; chain = chain; cleared = false })

-- The loop, from `list` on; `none` where the object is of no page.
unfoldable pub release_loop : Kernel → Bool → List Fmtlist → ℕ → ℕ → Outcome (Option Released)
unfolding drop_page
release_loop s has_pre [] elem size = ok none
release_loop s has_pre (f ∷ rest) elem size = do
  let behind = release_loop s true rest elem size
  panic_if (not (size == f.type_size)) "fmtlist_release(): element type not match"
  let f' = record f { free = elem ∷ f.free }
  if not (f.page == pg elem)
      then (behind >>= λ r.
          ok (elim r [ none ↦ none | some r' ↦ some (record r' { chain = f ∷ r'.chain }) ]))
      else if length f'.free == f.capacity
      then (drop_page s has_pre f' rest >>= λ r. ok (some r))
      else ok (some (record { kernel = s; chain = f' ∷ rest; cleared = false }))

-- `fmtlist_release(fmtlist, elem, elem_size)`. `null` is the address that the kernel's linker
-- chooses.
module _ (null : ℕ) where
  unfoldable pub release : Kernel → List Fmtlist → ℕ → ℕ → Outcome (Bool × Kernel × List Fmtlist)
  unfolding release_loop
  release s chain elem size = if elem == null then ok (false, s, chain) else (do
    found ← release_loop s false chain elem size
    ok (elim found [
      | none ↦ (false, s, chain)
      | some r ↦ (true, r.kernel, if r.cleared then [] else r.chain)
    ]))
