-- ===== src/LinkedList.antt =====
-- kern/utilities/list.c: a singly linked list behind a head node, by index. An `int` index is its
-- 32-bit pattern.
pub mod Seq
mod Tests
use hoo.Base.{
  ℕ, zero, suc, ◌+◌, ◌-◌, ◌%◌, ◌^◌, ◌<◌, ◌≡◌, Bool, true, false, not, ◌||◌, ◌==◌, ltb, leb,
  if◌then◌else◌,
}
use hoo.Heap.{Ptr, Node, node, Heap, Cmd, pure, ◌>>=◌, ◌>>◌, panic_if, load, store, set_next}
use hoo.Bitmap.{invalid_index}

-- `list_t`: where its `null_` node stands, and `size_`.
pub record LinkedList : Type 0 where
  pub sentinel : Ptr
  pub size : ℕ

-- `idx < 0` on an `int`
abbrev pub is_negative : ℕ → Bool
is_negative idx = leb (2 ^ 31) idx

-- `LSIDX_AFTAIL(list)`
abbrev pub after_tail : LinkedList → ℕ
after_tail l = (l.size + 1) % 2 ^ 32

-- `while (idx != 0 && idx--) p = p->next_;`
unfoldable pub walk : ℕ → Ptr → Cmd Ptr
walk zero p = pure p
walk (suc idx) p = do n ← load p; walk idx n.next

module _ (null : Ptr) where
  -- `list_init(list, cycle)`; the first argument is the address of `list->null_`.
  unfoldable pub init : Ptr → Bool → Cmd LinkedList
  unfolding store
  init p cycle = do
    store p (node null (if cycle then p else null))
    pure (record { sentinel = p; size = 0 })

  -- `list_find(list, idx)`
  unfoldable pub find : LinkedList → ℕ → Cmd Ptr
  find l idx = do
    panic_if (idx == invalid_index || is_negative idx || ltb l.size idx) "list_find(): invalid idx"
    walk idx l.sentinel

  -- `list_insert(list, node, idx)`
  unfoldable pub insert : LinkedList → Ptr → ℕ → Cmd LinkedList
  insert l n idx = do
    panic_if (n == null) "list_insert(): null pointer"
    panic_if (idx == invalid_index || is_negative idx || idx == 0 || ltb (after_tail l) idx)
        "list_insert(): invalid idx"
    f ← find l (idx - 1)
    at ← load f
    set_next n at.next
    set_next f n
    pure (record l { size = (l.size + 1) % 2 ^ 32 })

  -- `list_remove(list, idx)`; `size_` is not 0 behind the test.
  unfoldable pub remove : LinkedList → ℕ → Cmd (Ptr × LinkedList)
  remove l idx = do
    panic_if (idx == invalid_index || is_negative idx || idx == 0 || ltb l.size idx)
        "list_remove(): invalid idx"
    f ← find l (idx - 1)
    at ← load f
    removed ← load at.next
    set_next f removed.next
    set_next at.next null
    pure (at.next, record l { size = l.size - 1 })

unfoldable pub is_empty : LinkedList → Bool
is_empty l = l.size == 0
