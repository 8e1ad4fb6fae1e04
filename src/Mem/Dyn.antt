-- ===== src/Mem/Dyn.antt =====
-- kern/dyn/dynamic.c, kern/mem/bucket.c and kern/hoo/thread_bucket.c: the heap of a task, chains of
-- pages for objects of 8 to 1024 bytes and whole pages for larger ones.
pub mod Reuse
mod Tests
use hoo.Base.{
  length, true, not, ℕ, zero, suc, ◌+◌, ◌-◌, ◌/◌, ◌%◌, ◌^◌, List, [], ◌∷◌, Option, none, some,
  Outcome, ok, fault, ◌>>=◌, ◌>>◌, panic_if, ◌==◌, leb, if◌then◌else◌, get_elem?, set,
}
use hoo.Mem.Pm
use hoo.Mem.Pm.{page_size}
use hoo.Mem.Vm.{release_pages, Vspace, alloc_pages}
use hoo.Mem.Page.{pg, Paging, release_vpage, set_mapping, zero_words, all_flags}
use hoo.Mem.Fmtlist
use hoo.Mem.Fmtlist.{Fmtlist, Kernel}
use hoo.Threads.Tid.{max_tasks_amount}

-- `buckx_mngr_t`; the chain of managers is the list of them.
pub record Bucket : Type 0 where
  pub size : ℕ
  pub chain : List Fmtlist

abbrev pub max_bucket_size : ℕ
max_bucket_size = 8

-- `buckmngr_init(mngr, size, chain, next)`
abbrev pub buckmngr_init : ℕ → List Fmtlist → Bucket
buckmngr_init size chain = record { size = size; chain = chain }

-- `thread_buckmngr_init(buckx)`, `n` managers from manager `i` on
unfoldable pub buckets_from : ℕ → ℕ → List Bucket
buckets_from zero i = []
buckets_from (suc n) i = buckmngr_init (2 ^ (i + 3)) [] ∷ buckets_from n (i + 1)

abbrev pub new_buckets : List Bucket
unfolding buckets_from
new_buckets = buckets_from max_bucket_size 0

-- `thread_buckmngr_get(tid)` and `thread_buckmngr_clear(tid)` on the managers of all tasks
unfoldable pub buckets_get : List (List Bucket) → ℕ → Outcome (List Bucket)
buckets_get table tid = do
  panic_if (leb max_tasks_amount tid) "thread_buckmngr_get(): thread id out of range"
  elim (get_elem? table tid) [ none ↦ fault | some b ↦ ok b ]

unfoldable pub buckets_clear : List (List Bucket) → ℕ → Outcome (List (List Bucket))
unfolding buckets_get
buckets_clear table tid = do b ← buckets_get table tid; ok (set table tid new_buckets)

-- What the current task's PCB leads to
pub record Heap : Type 0 where
  pub kernel : Kernel
  pub buckets : List Bucket
  pub vspaces : List Vspace
  pub break : ℕ

-- A page of memory at `va`, which is mapped
unfoldable pub map_page : Kernel → ℕ → Outcome Kernel
unfolding set_mapping
map_page k va = do
  (pa, pm) ← Pm.alloc_page k.paging.pm
  p ← set_mapping (record k.paging { pm = pm }) va pa all_flags
  ok (record k { paging = p })

-- The page that `bzero` has cleared, as a `fmtlist_t`
abbrev pub blank : ℕ → Fmtlist
blank va = record { page = va; type_size = 0; free = []; capacity = 0 }

-- The page that a manager without a chain gets. The page of physical memory is taken first.
unfoldable pub first_page : Heap → Outcome (Fmtlist × Heap)
unfolding alloc_pages set_mapping zero_words
first_page h = do
  (pa, pm) ← Pm.alloc_page h.kernel.paging.pm
  (va, vs) ← alloc_pages h.vspaces 1 h.break
  p ← set_mapping (record h.kernel.paging { pm = pm }) va pa all_flags
  p' ← zero_words (page_size / 4) p va
  ok (blank va, record h { kernel = record h.kernel { paging = p' }; vspaces = vs })

-- The loop that maps the pages of a large object, `n` of them from `va` on
unfoldable pub map_pages : ℕ → Kernel → ℕ → Outcome Kernel
unfolding map_page
map_pages zero k va = ok k
map_pages (suc n) k va = do k' ← map_page k va; map_pages n k' (va + page_size)

unfoldable pub alloc_large : Heap → ℕ → Outcome (ℕ × Heap)
unfolding alloc_pages map_pages
alloc_large h size = do
  let pages = if leb size page_size then 1 else (size + page_size - 1) % 2 ^ 32 / page_size
  (va, vs) ← alloc_pages h.vspaces pages h.break
  k ← map_pages pages h.kernel va
  ok (va, record h { kernel = k; vspaces = vs })

-- An object of the manager `b`
unfoldable pub alloc_in : Heap → Bucket → Outcome (ℕ × Heap × Bucket)
unfolding first_page Fmtlist.alloc
alloc_in h b = do
  (chain, h') ← elim b.chain [
    | [] ↦ first_page h >>= λ (f, h'). ok (f ∷ [], h')
    | f ∷ rest ↦ ok (f ∷ rest, h)
  ]
  (x, k, c) ← Fmtlist.alloc h'.kernel chain b.size
  ok (x, record h' { kernel = k }, record b { chain = c })

-- The loop of `dyn_alloc` over the managers
unfoldable pub alloc_loop : Heap → List Bucket → ℕ → Outcome (ℕ × Heap × List Bucket)
unfolding alloc_in alloc_large
alloc_loop h [] size = do (x, h') ← alloc_large h size; ok (x, h', [])
alloc_loop h (b ∷ rest) size = do
  let behind = (alloc_loop h rest size >>= λ (x, h', c). ok (x, h', b ∷ c))
  if leb size b.size then (do (x, h', b') ← alloc_in h b; ok (x, h', b' ∷ rest)) else behind

-- `dyn_alloc(size)`; `none` is null.
unfoldable pub dyn_alloc : Heap → ℕ → Outcome (Option ℕ × Heap)
unfolding alloc_loop
dyn_alloc h size =
    if size == 0
    then ok (none, h)
    else (do (x, h', bs) ← alloc_loop h h.buckets size; ok (some x, record h' { buckets = bs }))

-- `null` is the address that the kernel's linker chooses.
module _ (null : ℕ) where
  unfoldable pub release_vpages : Paging → List ℕ → Outcome Paging
  unfolding release_vpage
  release_vpages p [] = ok p
  release_vpages p (va ∷ vas) = do p' ← release_vpage null p va; release_vpages p' vas

  -- `vir_release_pages(&cur_pcb->vmngr_, va, true)`
  unfoldable pub give_pages : Heap → ℕ → Outcome Heap
  unfolding release_pages release_vpages
  give_pages h va = do
    (pages, vs) ← release_pages h.vspaces va true
    p ← release_vpages h.kernel.paging pages
    ok (record h { kernel = record h.kernel { paging = p }; vspaces = vs })

  -- The loop of `dyn_free` over the managers, and the release of a large object behind it. The
  -- capacity of a chain that has become null is read: a `fault`.
  unfoldable pub free_loop : Heap → List Bucket → ℕ → Outcome (Heap × List Bucket)
  unfolding Fmtlist.release give_pages
  free_loop h [] ptr = do h' ← give_pages h ptr; ok (h', [])
  free_loop h (b ∷ rest) ptr = do
    (found, k, c) ← Fmtlist.release null h.kernel b.chain ptr b.size
    let h' = record h { kernel = k }
    let behind = (free_loop h' rest ptr >>= λ (h'', bs). ok (h'', record b { chain = c } ∷ bs))
    if not found then behind else (elim c [
      | [] ↦ fault
      | f ∷ fs ↦
          if f.capacity == length f.free
          then (give_pages h' (pg ptr) >>= λ h''. ok (h'', record b { chain = [] } ∷ rest))
          else ok (h', record b { chain = f ∷ fs } ∷ rest)
    ])

  -- `dyn_free(ptr)`
  unfoldable pub dyn_free : Heap → ℕ → Outcome Heap
  unfolding free_loop
  dyn_free h ptr =
      if ptr == null
      then ok h
      else (do (h', bs) ← free_loop h h.buckets ptr; ok (record h' { buckets = bs }))
