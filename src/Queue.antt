-- ===== src/Queue.antt =====
-- kern/utilities/queue.c: a queue of nodes behind a head node. `null` is the address that the
-- kernel's linker chooses for the null pointer.
pub mod Fifo
pub mod HeadPush
mod Tests
use hoo.Base.{ℕ, ◌≡◌, Bool, true, false, not, ◌&&◌, ◌==◌, if◌then◌else◌}
use hoo.Heap.{Ptr, Node, node, Heap, Cmd, pure, ◌>>=◌, ◌>>◌, panic_if, load, store, set_next}

-- `queue_t`: where its `null_` node stands, `head_` and `tail_`.
pub record Queue : Type 0 where
  pub sentinel : Ptr
  pub head : Ptr
  pub tail : Ptr

-- `enq_mth_t`
pub data Method : Type 0 where
  tail_end head_end : Method

abbrev pub is_head : Method → Bool
is_head tail_end = false
is_head head_end = true

unfoldable pub is_empty : Queue → Bool
is_empty q = q.head == q.tail

module _ (null : Ptr) where
  -- `queue_init(q)`; the argument is the address of `q->null_`.
  unfoldable pub init : Ptr → Cmd Queue
  unfolding store
  init p = do store p (node null null); pure (record { sentinel = p; head = p; tail = p })

  -- `queue_push(q, n, mth)`
  unfoldable pub push : Queue → Ptr → Method → Cmd Queue
  unfolding is_empty
  push q n mth = do
    panic_if (n == null) "queue_push(): null pointer"
    set_next n null
    if is_head mth && not (is_empty q)
        then (do
          f ← load q.head
          s ← load f.next
          set_next n s.next
          f' ← load q.head
          set_next f'.next n
          pure q)
        else (do set_next q.tail n; pure (record q { tail = n }))

  -- `queue_pop(q)`
  unfoldable pub pop : Queue → Cmd (Ptr × Queue)
  unfolding is_empty
  pop q = if is_empty q then pure (null, q) else (do
    f ← load q.head
    d ← load f.next
    set_next q.head d.next
    set_next f.next null
    pure (f.next, if f.next == q.tail then record q { tail = q.head } else q))

  -- `queue_front(q)`
  unfoldable pub front : Queue → Cmd Ptr
  unfolding is_empty
  front q = if is_empty q then pure null else (do f ← load q.head; pure f.next)
