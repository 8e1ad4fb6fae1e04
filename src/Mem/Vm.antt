-- ===== src/Mem/Vm.antt =====
-- kern/mem/vm.c and kern/mem/vspace.h: the ranges of an address space. A chain of `vspace_t` is
-- the list of them, the `vmngr_` of the PCB first; the `list_` of one is the list of what is
-- allocated in it, the newest first. The objects of `vspace_alloc`, `node_alloc` and `vaddr_alloc`
-- are values here.
pub mod Cover
pub mod Fresh
pub mod First
pub mod Restore
mod Tests
use hoo.Base.{
  ℕ, zero, suc, ◌+◌, ◌-◌, ◌*◌, ◌/◌, ◌%◌, ◌^◌, Bool, true, false, ◌&&◌, List, [], ◌∷◌, ◌++◌, Option,
  none, some, Outcome, ok, panic, fault, ◌>>=◌, ◌>>◌, panic_if, ◌==◌, ltb, leb, if◌then◌else◌,
}
use hoo.Mem.Pm.{page_size}
use hoo.Mem.VmKern.{kern_metadata}

-- `vaddr_t`
pub record Vaddr : Type 0 where
  pub va : ℕ
  pub pages : ℕ

-- `vspace_t`
pub record Vspace : Type 0 where
  pub items : List Vaddr
  pub begin : ℕ
  pub end : ℕ

abbrev pub kern_high_mapping : ℕ
kern_high_mapping = 0x80000000

abbrev pub vaddr : ℕ → ℕ → Vaddr
vaddr addr n = record { va = addr; pages = n }

abbrev pub bytes : ℕ → ℕ
bytes pages = pages * page_size

-- The `else` of the loop of `vir_alloc_pages`, with `worker`, what follows it, and `last_end`: an
-- empty `worker` gets a new object behind it, and that object has no successor.
unfoldable pub place : Vspace → List Vspace → ℕ → ℕ → ℕ × List Vspace
place w rest amount last_end = elim w.items [
  | [] ↦ (
    last_end,
    record w { end = last_end }
        ∷ record {
          items = vaddr last_end amount ∷ [];
          begin = last_end;
          end = (last_end + bytes amount) % 2 ^ 32;
        }
        ∷ [],
  )
  | x ∷ xs ↦ (
    last_end,
    record w { items = vaddr last_end amount ∷ x ∷ xs; end = (w.end + bytes amount) % 2 ^ 32 }
        ∷ rest,
  )
]

-- The loop of `vir_alloc_pages`, from `worker` on
unfoldable pub alloc_loop : List Vspace → ℕ → ℕ → ℕ → Outcome (ℕ × List Vspace)
unfolding place
alloc_loop [] amount max_end last_end = ok (0, [])
alloc_loop (w ∷ []) amount max_end last_end = do
  panic_if (leb max_end ((last_end + bytes amount) % 2 ^ 32)) "vir_alloc_pages(): no enough space"
  ok (place w [] amount last_end)
alloc_loop (w ∷ next ∷ rest) amount max_end last_end =
    elim (ltb ((next.begin + 2 ^ 32 - last_end) % 2 ^ 32 / page_size) amount) [
      | true ↦ alloc_loop (next ∷ rest) amount max_end next.end >>= λ (va, vs). ok (va, w ∷ vs)
      | false ↦ ok (place w (next ∷ rest) amount last_end)
    ]

-- `vir_alloc_pages(vspace, amount, begin)`
unfoldable pub alloc_pages : List Vspace → ℕ → ℕ → Outcome (ℕ × List Vspace)
unfolding alloc_loop
alloc_pages vs amount begin = do
  panic_if (amount == 0) "vir_alloc_pages(): cannot request 0 page"
  alloc_loop vs amount (if ltb begin kern_high_mapping then kern_high_mapping else kern_metadata)
      begin

-- The search of `vir_release_pages` for an address: what is newer, what is found, what is older
unfoldable pub split_at : ℕ → List Vaddr → Option (List Vaddr × Vaddr × List Vaddr)
split_at va [] = none
split_at va (x ∷ xs) = elim (va == x.va) [
  | true ↦ some ([], x, xs)
  | false ↦ elim (split_at va xs) [
    | none ↦ none
    | some (newer, v, older) ↦ some (x ∷ newer, v, older)
  ]
]

abbrev pub oldest_va : Vaddr → List Vaddr → ℕ
oldest_va x [] = x.va
oldest_va x (y ∷ ys) = oldest_va y ys

abbrev pub with_prev : Option Vspace → List Vspace → List Vspace
with_prev none vs = vs
with_prev (some p) vs = p ∷ vs

-- `LCT_BEGIN`, `LCT_END`, `LCT_MIDDLE` and the empty list: the chain from `prev_vs` on. A write to
-- or a read of an object that is not there is a `fault`.
unfoldable pub unlink :
    Option Vspace → Vspace → List Vspace → List Vaddr → Vaddr → List Vaddr → Outcome (List Vspace)
unlink none w rest [] v [] = panic "vspace_append(): null pointer"
unlink (some p) w [] [] v [] = fault
unlink (some p) w (next ∷ rest) [] v [] = ok (record p { end = next.begin } ∷ next ∷ rest)
unlink prev w rest [] v (o ∷ os) = ok (
    with_prev prev
      (record w { items = o ∷ os; end = (w.end + 2 ^ 32 - bytes v.pages) % 2 ^ 32 } ∷ rest))
unlink prev w rest (n ∷ ns) v [] = ok (
    with_prev prev (record w { items = n ∷ ns; begin = (w.begin + bytes v.pages) % 2 ^ 32 } ∷ rest))
unlink none w rest (n ∷ ns) v (o ∷ os) = fault
unlink (some p) w rest (n ∷ ns) v (o ∷ os) = ok (
    p
    ∷ record { items = o ∷ os; begin = oldest_va o os; end = v.va }
    ∷ record w { items = n ∷ ns; begin = (v.va + bytes v.pages) % 2 ^ 32 }
    ∷ rest)

-- The addresses that go to `phy_release_vpage`, in order
unfoldable pub pages_from : ℕ → ℕ → List ℕ
pages_from va zero = []
pages_from va (suc n) = va ∷ pages_from (va + page_size) n

-- `vir_release_pages(vspace, va, rel)` from `worker_vs` on, with `prev_vs`: the pages that are
-- given back, and the chain from `prev_vs` on. `list_find` panics behind the last node.
unfoldable pub release_loop :
    Option Vspace → List Vspace → ℕ → Bool → Outcome (List ℕ × List Vspace)
unfolding split_at unlink pages_from
release_loop prev [] va rel = panic "vir_release_pages(): invalid virtual address"
release_loop prev (w ∷ rest) va rel = elim (leb w.begin va && ltb va w.end) [
  | true ↦ elim (split_at va w.items) [
    | none ↦ panic "list_find(): invalid idx"
    | some (newer, v, older) ↦ unlink prev w rest newer v older >>= λ vs.
        ok (if rel then pages_from v.va v.pages else [], vs)
  ]
  | false ↦ release_loop (some w) rest va rel >>= λ (pages, vs). ok (pages, with_prev prev vs)
]

unfoldable pub release_pages : List Vspace → ℕ → Bool → Outcome (List ℕ × List Vspace)
unfolding release_loop
release_pages vs va rel = release_loop none vs va rel

-- `release_vspace(pcb)`: the pages that it gives back of the ranges behind the head. `null` is the
-- address that the kernel's linker chooses.
module _ (null : ℕ) where
  unfoldable pub item_pages : List Vaddr → List ℕ
  unfolding pages_from
  item_pages [] = []
  item_pages (x ∷ xs) = (if x.va == null then [] else pages_from x.va x.pages) ++ item_pages xs

  unfoldable pub release_vspace : List Vspace → List ℕ
  unfolding item_pages
  release_vspace [] = []
  release_vspace (w ∷ rest) = item_pages w.items ++ release_vspace rest
