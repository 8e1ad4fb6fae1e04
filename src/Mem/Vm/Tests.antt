-- ===== src/Mem/Vm/Tests.antt =====
-- kern/mem/vm.c on the address space of the kernel with two ranges, and two pages between them.
use hoo.Base.{ℕ, ◌≡◌, true, false, List, [], ◌∷◌, ok, fault, refl, arith, if◌then◌else◌}
use hoo.Mem.Vm.{
  Vspace, vaddr, alloc_pages, release_pages, pages_from, release_vspace, release_loop, split_at,
  unlink, item_pages,
}
use hoo.Mem.Vm.Cover.{inside, covered}
use hoo.Mem.Vm.Fresh.{Allocated}
use hoo.Mem.Vm.First.{alloc_pages-Allocated, alloc_pages-drops}
use hoo.Mem.Vm.Restore.{release_pages-alloc_pages}

abbrev low : ℕ
low = 0x80400000

abbrev head : Vspace
head = record { items = []; begin = 0; end = low }

abbrev first : Vspace
first = record { items = vaddr 0x80401000 1 ∷ vaddr low 1 ∷ []; begin = low; end = 0x80402000 }

abbrev second : Vspace
second = record { items = vaddr 0x80404000 2 ∷ []; begin = 0x80404000; end = 0x80406000 }

-- Two pages fit between the ranges.
alloc_pages-Allocated_example :
    (va : ℕ) × (head' : Vspace) × (rs' : List Vspace) × (alloc_pages
        (head ∷ first ∷ second ∷ [])
        2
        low
      ≡ ok (va, head' ∷ rs'))
    × (head'.items ≡ [])
    × Allocated low 2 va (first ∷ second ∷ []) rs'
alloc_pages-Allocated_example =
    alloc_pages-Allocated head 2 low refl (omega arith) (first ∷ second ∷ []) (omega arith)
      (omega arith) (omega arith)

release_pages-alloc_pages_example :
    (va : ℕ) × (vs' : List Vspace) × (alloc_pages (head ∷ first ∷ second ∷ []) 2 low ≡ ok (va, vs'))
    × (release_pages vs' va true
        ≡ ok (if true then pages_from va 2 else [], head ∷ first ∷ second ∷ []))
release_pages-alloc_pages_example =
    release_pages-alloc_pages true head first (second ∷ []) 2 low (omega arith) (omega arith)
      (omega arith) (omega arith) (omega arith)

-- The first range is gone, so that there is room before the second.
alloc_pages-drops_example :
    (head' : Vspace) × (rs' : List Vspace) × (alloc_pages (head ∷ second ∷ []) 1 low
      ≡ ok (low, head' ∷ rs'))
    × ((a : ℕ) → covered rs' a ≡ inside low 1 a)
    × (covered (second ∷ []) second.begin ≡ true)
    × (covered rs' second.begin ≡ false)
alloc_pages-drops_example =
    alloc_pages-drops head 1 low refl (omega arith) second [] (omega arith) (omega arith)
      (omega arith)

-- The last range loses all that it has: `vspace_append` reads the object behind it.
last_run : release_pages (head ∷ second ∷ []) 0x80404000 true ≡ fault
unfolding release_pages release_loop split_at unlink
last_run = refl

-- The middle of three makes two ranges of one.
middle_run :
    release_pages
      (head
        ∷ record {
          items = vaddr 0x80402000 1 ∷ vaddr 0x80401000 1 ∷ vaddr low 1 ∷ [];
          begin = low;
          end = 0x80403000;
        }
        ∷ [])
      0x80401000
      true
    ≡ ok (
      0x80401000 ∷ [],
      head
          ∷ record { items = vaddr low 1 ∷ []; begin = low; end = 0x80401000 }
          ∷ record { items = vaddr 0x80402000 1 ∷ []; begin = 0x80402000; end = 0x80403000 }
          ∷ [],
    )
unfolding release_pages release_loop split_at unlink pages_from
middle_run = refl

vspace_run :
    release_vspace 0 (first ∷ second ∷ []) ≡ 0x80401000 ∷ low ∷ 0x80404000 ∷ 0x80405000 ∷ []
unfolding release_vspace item_pages pages_from
vspace_run = refl
