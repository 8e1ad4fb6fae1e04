-- ===== src/Ring.antt =====
-- kern/utilities/circular_buffer.c: the ring buffer between an interrupt handler and the tasks that
-- read from it. Its indices are `int`s that never get negative; the address of the object is the
-- resource that readers sleep on.
pub mod Fifo
mod Tests
use hoo.Base.{
  ℕ, ◌+◌, ◌%◌, Bool, true, false, Option, none, some, List, Outcome, ok, ◌>>=◌, ◌==◌, if◌then◌else◌,
}
use hoo.UserLib.{load, store}
use hoo.Spinlock
use hoo.Spinlock.{Spinlock}
use hoo.Tasks.{Tasks, Tid, Switch, wakeup, sleep_enter, sleep_leave}

-- `cclbuff_t`
pub record Ring : Type 0 where
  pub capacity : ℕ
  pub buff : List ℕ
  pub head : ℕ
  pub tail : ℕ
  pub lock : Spinlock

-- `cclbuff_alloc(capacity)`, over the memory that `dyn_alloc` has returned
unfoldable pub alloc : ℕ → List ℕ → Ring
unfolding Spinlock.init
alloc capacity buff = record {
  capacity = capacity;
  buff = buff;
  head = 0;
  tail = 0;
  lock = Spinlock.init;
}

unfoldable pub is_empty : Ring → Bool
is_empty r = r.head == r.tail

unfoldable pub is_full : Ring → Bool
is_full r = (r.head + 1) % r.capacity == r.tail

-- `cclbuff_put(cclbuff, c)`: whether there was room, and the new states.
unfoldable pub put : ℕ → Ring → ℕ → Tasks → Outcome (Bool × Ring × Tasks)
unfolding is_full
put self r c s = if is_full r then ok (false, r, s) else (do
  b ← store r.buff r.head c
  s' ← wakeup s self
  ok (true, record r { buff = b; head = (r.head + 1) % r.capacity }, s'))

-- The end of `cclbuff_get`
unfoldable pub take_char : Ring → Outcome (ℕ × Ring)
take_char r = do ch ← load r.buff r.tail; ok (ch, record r { tail = (r.tail + 1) % r.capacity })

-- What `cclbuff_get` does at first: it returns a character, or its caller sleeps.
pub data Got : Type 0 where
  char : ℕ → Ring → Got
  asleep : Ring → Tasks → Option Switch → Got

module _ (null : ℕ) where
  -- `cclbuff_get(cclbuff)` up to the switch to another task
  unfoldable pub get : ℕ → Ring → Tasks → Outcome Got
  unfolding is_empty take_char
  get self r s =
      if is_empty r
      then (do
        held ← Spinlock.wait r.lock
        (s', lock, switch) ← sleep_enter null s self held
        ok (asleep (record r { lock = lock }) s' switch))
      else (do (ch, r') ← take_char r; ok (char ch r'))

  -- The rest of `cclbuff_get` when the task `cur` runs again
  unfoldable pub get_resume : Ring → Tid → Tasks → Outcome (ℕ × Ring × Tasks)
  unfolding take_char Spinlock.signal
  get_resume r cur s = do
    (s', held) ← sleep_leave null s cur r.lock
    (ch, r') ← take_char (record r { lock = Spinlock.signal held })
    ok (ch, r', s')
