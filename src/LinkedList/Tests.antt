-- ===== src/LinkedList/Tests.antt =====
-- kern/utilities/list.c on a heap of four nodes.
use hoo.Base.{◌==◌, if◌then◌else◌, refl, ℕ, ◌≡◌, false, [], ◌∷◌, ok, arith, none, some, get_elem?}
use hoo.Heap.{Heap, node}
use hoo.Heap.Chain.{Cells, has}
use hoo.LinkedList
use hoo.LinkedList.{LinkedList}
use hoo.LinkedList.Seq.{IsList, insert-insert_at, remove-remove_at}

-- The head node 1 and the nodes 2 and 3 in the list; node 4 stands apart. The null pointer is 0.
abbrev two : Heap
two a =
    if a == 1
    then some (node 0 2)
    else if a == 2
    then some (node 20 3)
    else if a == 3
    then some (node 30 0)
    else if a == 4
    then some (node 40 9)
    else none

abbrev two_list : LinkedList
two_list = record { sentinel = 1; size = 2 }

abbrev cells : Cells
cells = (2, 20) ∷ (3, 30) ∷ []

two-IsList : IsList 0 two two_list ((2, 20) ∷ (3, 30) ∷ [])
two-IsList = record {
  chain = (refl, omega arith, refl, (refl, omega arith, refl, refl));
  size = refl;
  small = omega arith;
}

insert-insert_at_example :
    (l' : LinkedList) × (h' : Heap) × (LinkedList.insert 0 two_list 4 2 two ≡ ok (l', h'))
    × IsList 0 h' l' ((2, 20) ∷ (4, 40) ∷ (3, 30) ∷ [])
insert-insert_at_example =
    insert-insert_at 0 two two_list ((2, 20) ∷ (3, 30) ∷ []) two-IsList 4 40 9 1 (omega arith) refl
      refl refl (omega arith) (omega arith)

remove-remove_at_example :
    (d : ℕ) × (v : ℕ) × (l' : LinkedList) × (h' : Heap) × (LinkedList.remove 0 two_list 1 two
      ≡ ok ((d, l'), h'))
    × (get_elem? cells 0 ≡ some (d, v))
    × (h' d ≡ some (node v 0))
    × (has d ((3, 30) ∷ []) ≡ false)
    × IsList 0 h' l' ((3, 30) ∷ [])
remove-remove_at_example =
    remove-remove_at 0 two two_list ((2, 20) ∷ (3, 30) ∷ []) two-IsList 0 (omega arith)
