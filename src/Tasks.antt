-- ===== src/Tasks.antt =====
-- kern/sched/tasks.c: the scheduler. A task is named by a number, with its PCB in a table; the two
-- queues and the two lists are the sequences that Queue.Fifo and LinkedList.Seq show of the
-- nodes. `switch_to` (kern/sched/switch.S) hands the processor over: a routine returns the switch
-- that it ends in.
pub mod Conserve
pub mod Wakeup
pub mod Kill
pub mod Fair
pub mod Sleep
pub mod Start
mod Tests
use hoo.Base.{
  ℕ, zero, suc, ◌+◌, ◌-◌, ◌*◌, ◌/◌, ◌≡◌, Bool, true, false, not, ◌&&◌, Option, none, some, List, [],
  ◌∷◌, ◌++◌, ◌==◌, ltb, leb, if◌then◌else◌, length, get_elem?, Outcome, ok, panic, spins, ◌>>=◌,
  ◌>>◌, panic_if,
}
use hoo.Spinlock
use hoo.Spinlock.{Spinlock}

-- The fields of `pcb_t` that the scheduler reads and writes.
pub record Pcb : Type 0 where
  pub stack0 : ℕ
  pub stack3 : ℕ
  pub pgdir_pa : ℕ
  pub ticks : ℕ
  pub sleep : ℕ
  pub parent : ℕ

abbrev pub timeticks : ℕ
timeticks = 16

abbrev pub Tid : Type 0
Tid = ℕ

-- The statics of tasks.c with the PCB table, the `esp0_` of the TSS and the interrupt flag.
pub record Tasks : Type 0 where
  pub ready : List Tid
  pub running : List Tid
  pub sleeping : List Tid
  pub expired : List Tid
  pub lock : Spinlock
  pub pcbs : Tid → Pcb
  pub esp0 : ℕ
  pub intr : Bool

abbrev pub update : (Tid → Pcb) → Tid → Pcb → Tid → Pcb
update f t p u = if t == u then p else f u

-- `switch_to(cur, next)`; `cur` may be no task.
pub record Switch : Type 0 where
  pub from : Option Tid
  pub to : Tid

abbrev pub front : List Tid → Option Tid
front [] = none
front (t ∷ ts) = some t

abbrev pub rest : List Tid → List Tid
rest [] = []
rest (t ∷ ts) = ts

-- `PGUP(x, PGSIZE)`
abbrev pub page_up : ℕ → ℕ
page_up x = (x + 4095) / 4096 * 4096

-- `task_ready(task)`
unfoldable pub task_ready : Tasks → Tid → Outcome Tasks
unfolding Spinlock.wait Spinlock.signal
task_ready s t = do
  held ← Spinlock.wait s.lock
  ok (record s { ready = s.ready ++ t ∷ []; lock = Spinlock.signal held })

-- `get_current_pcb()`; PCBs are not null.
unfoldable pub current : Tasks → Outcome (Tid × Tasks)
unfolding Spinlock.wait Spinlock.signal
current s = do
  held ← Spinlock.wait s.lock
  elim (front s.running) [
    | none ↦ panic "get_current_pcb(): no current task"
    | some t ↦ ok (t, record s { lock = Spinlock.signal held })
  ]

module _ (null : ℕ) where
  -- The task that leaves the processor goes to the sleepers if it waits for a resource, else behind
  -- the ready tasks.
  unfoldable pub retire : Tasks → Option Tid → Tasks
  retire s none = s
  retire s (some cur) =
      if (s.pcbs cur).sleep == null
      then record s { ready = s.ready ++ cur ∷ [] }
      else record s { sleeping = s.sleeping ++ cur ∷ [] }

  -- The second half of `scheduler`, with the lock held and the ready queue given: its oldest task
  -- takes over.
  unfoldable pub dispatch_to : Tasks → List Tid → Tasks × Option Switch
  unfolding Spinlock.signal
  dispatch_to s [] = (record s { lock = Spinlock.signal s.lock }, none)
  dispatch_to s (next ∷ ready) =
      let s' : Tasks =
        retire (record s { ready = ready; running = rest s.running }) (front s.running) in
      (
        record s' {
          running = s'.running ++ next ∷ [];
          esp0 = page_up (s.pcbs next).stack0;
          lock = Spinlock.signal s.lock;
        },
        some (record { from = front s.running; to = next }),
      )

  unfoldable pub dispatch : Tasks → Tasks × Option Switch
  dispatch s = dispatch_to s s.ready

  -- `scheduler()`, up to the switch; what follows it runs when the task is switched to again.
  unfoldable pub scheduler : Tasks → Outcome (Tasks × Option Switch)
  unfolding Spinlock.signal
  scheduler s =
      if Spinlock.test s.lock == 0
      then (do
        held ← Spinlock.wait s.lock
        let locked : Tasks = record s { lock = held }
        elim (front s.running) [
          | none ↦ ok (dispatch locked)
          | some cur ↦
              if (s.pcbs cur).sleep == null
              then (if ltb 0 (s.pcbs cur).ticks
                  then ok (
                    record s {
                      pcbs =
                          update s.pcbs cur
                            (record (s.pcbs cur) { ticks = (s.pcbs cur).ticks - 1 });
                      lock = Spinlock.signal held;
                    },
                    none,
                  )
                  else ok (
                      dispatch (record locked {
                        pcbs = update s.pcbs cur (record (s.pcbs cur) { ticks = timeticks });
                      })))
              else ok (dispatch locked)
        ])
      else ok (s, none)

-- `list_remove(list, i)` for the node at place `i`, from 1
abbrev pub remove_from : ℕ → List Tid → List Tid
remove_from i [] = []
remove_from zero (t ∷ ts) = ts
remove_from (suc i) (t ∷ ts) = t ∷ remove_from i ts

-- The loop of `wakeup` from index `i + 1`; each round either removes a sleeper or steps on.
unfoldable pub wakeup_loop : ℕ → Tasks → ℕ → ℕ → Outcome Tasks
unfolding task_ready
wakeup_loop zero s resource i = spins
wakeup_loop (suc fuel) s resource i = elim (get_elem? s.sleeping i) [
  | none ↦ ok s
  | some t ↦ elim ((s.pcbs t).sleep == resource) [
    | true ↦ task_ready (record s { sleeping = remove_from i s.sleeping }) t >>= λ s'.
        wakeup_loop fuel s' resource i
    | false ↦ wakeup_loop fuel s resource (i + 1)
  ]
]

-- `wakeup(resource)`
unfoldable pub wakeup : Tasks → ℕ → Outcome Tasks
unfolding wakeup_loop
wakeup s resource = wakeup_loop (length s.sleeping + 1) s resource 0

-- What `kill` gives back for a process: its ring 0 stack, its ring 3 stack and its page directory.
pub record Freed : Type 0 where
  pub tid : Tid
  pub ring0 : ℕ
  pub ring3 : ℕ
  pub pgdir : ℕ

-- `PGDOWN(x, PGSIZE)`
abbrev pub page_down : ℕ → ℕ
page_down x = x / 4096 * 4096

abbrev pub zero_pcb : Pcb
zero_pcb = record { stack0 = 0; stack3 = 0; pgdir_pa = 0; ticks = 0; sleep = 0; parent = 0 }

abbrev pub freed_of : Pcb → Tid → Freed
freed_of p t = record {
  tid = t;
  ring0 = page_down p.stack0;
  ring3 = page_down (p.stack3 - 4096);
  pgdir = p.pgdir_pa;
}

-- The loop of `kill` from index `i + 1`: a process is removed, and the index steps on all the same.
unfoldable pub kill_loop : ℕ → Tasks → ℕ → Outcome (Tasks × List Freed)
kill_loop zero s i = spins
kill_loop (suc fuel) s i = elim (get_elem? s.expired i) [
  | none ↦ ok (s, [])
  | some t ↦
      kill_loop fuel
        (record s { expired = remove_from i s.expired; pcbs = update s.pcbs t zero_pcb }) (i + 1)
      >>= λ (s', freed). ok (s', freed_of (s.pcbs t) t ∷ freed)
]

-- `kill()`
unfoldable pub kill : Tasks → Outcome (Tasks × List Freed)
unfolding kill_loop
kill s = kill_loop (length s.expired + 1) s 0

-- `sleep(resource, resource_lock)` up to the switch. `null` and the resource's lock are arguments;
-- the new state of that lock is returned.
module _ (null : ℕ) where
  unfoldable pub sleep_enter : Tasks → ℕ → Spinlock → Outcome (Tasks × Spinlock × Option Switch)
  unfolding Spinlock.test Spinlock.signal current
  sleep_enter s resource resource_lock = do
    panic_if (resource == null) "sleep(): null pointer"
    panic_if (Spinlock.test resource_lock == 0) "sleep(): invalid spinlock"
    (cur, s₁) ← current (record s { intr = false })
    let asleep : Tasks = record s₁ {
      pcbs = update s₁.pcbs cur (record (s₁.pcbs cur) { sleep = resource });
    }
    let released : Spinlock = Spinlock.signal resource_lock
    (s₂, switch) ← scheduler null asleep
    ok (s₂, released, switch)

  -- The rest of `sleep` when the task `cur` runs again.
  unfoldable pub sleep_leave : Tasks → Tid → Spinlock → Outcome (Tasks × Spinlock)
  unfolding Spinlock.wait
  sleep_leave s cur resource_lock = do
    held ← Spinlock.wait resource_lock
    ok (
      record s { intr = true; pcbs = update s.pcbs cur (record (s.pcbs cur) { sleep = null }) },
      held,
    )
