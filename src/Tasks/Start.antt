-- ===== src/Tasks/Start.antt =====
-- kern/sched/tasks.c: the first task, the first stack of a new task, and `wait_child`.
use hoo.Base.{
  ℕ, ◌+◌, ◌-◌, ◌*◌, ◌≡◌, ◌<◌, List, [], ◌∷◌, Option, Outcome, ok, ◌>>=◌, false, length, arith,
}
use hoo.Spinlock
use hoo.Spinlock.{Spinlock}
use hoo.Tasks.{Tasks, Tid, Pcb, Switch, sleep_enter, sleep_leave}

-- `init_tasks_system()`, over the PCB table; the kernel's own task `hoo` is the one that runs.
unfoldable pub init_tasks_system : (Tid → Pcb) → Tid → ℕ → Tasks
unfolding Spinlock.init
init_tasks_system pcbs hoo esp0 = record {
  ready = [];
  running = hoo ∷ [];
  sleeping = [];
  expired = [];
  lock = Spinlock.init;
  pcbs = pcbs;
  esp0 = esp0;
  intr = false;
}

-- `wait_child(sl)` up to the switch to another task, for the lock `sl` at address `sl_at`
unfoldable pub wait_child : ℕ → Tasks → ℕ → Spinlock → Outcome (Tasks × Spinlock × Option Switch)
unfolding Spinlock.wait sleep_enter
wait_child null s sl_at sl = do held ← Spinlock.wait sl; sleep_enter null s sl_at held

-- The rest of `wait_child` when the task `cur` runs again
unfoldable pub wait_child_resume : ℕ → Tasks → Tid → Spinlock → Outcome (Tasks × Spinlock)
unfolding Spinlock.signal sleep_leave
wait_child_resume null s cur sl = do
  (s', held) ← sleep_leave null s cur sl
  ok (s', Spinlock.signal held)

-- The words of the two stacks of a new task, from the stack pointer up. The addresses of the
-- assembly code are arguments.
pub record Stacks : Type 0 where
  pub esp : ℕ
  pub ring0 : List ℕ
  pub ring3 : List ℕ

-- `setup_ring0_stack(r0, r3, entry)`: the thread stack, the twelve words of `istackos_t`, the five
-- of `istackcpu_t`, and three words for ring 3.
unfoldable pub setup_ring0_stack : (isr_part3 mode_ring3 died r0 r3 entry : ℕ) → Stacks
setup_ring0_stack isr_part3 mode_ring3 died r0 r3 entry =
    let workercpu : ℕ = r0 - 12 - 20 in
    record {
      esp = workercpu - 48 - 4;
      ring0 =
          isr_part3
          ∷ 0
          ∷ 0
          ∷ 0
          ∷ (workercpu - 16)
          ∷ 0
          ∷ 0
          ∷ 0
          ∷ 0
          ∷ 0x10
          ∷ 0x10
          ∷ 0x10
          ∷ 0x10
          ∷ 0
          ∷ 0
          ∷ mode_ring3
          ∷ 0x08
          ∷ 0
          ∷ (r3 - 4)
          ∷ entry
          ∷ died
          ∷ [];
      ring3 = died ∷ [];
    }

-- The words fill the stack from the stack pointer to its top.
setup_ring0_stack-full :
    (isr_part3 mode_ring3 died r0 r3 entry : ℕ)
    → 84 < r0
    → (setup_ring0_stack isr_part3 mode_ring3 died r0 r3 entry).esp
        + 4 * length (setup_ring0_stack isr_part3 mode_ring3 died r0 r3 entry).ring0
      ≡ r0
unfolding setup_ring0_stack
setup_ring0_stack-full isr_part3 mode_ring3 died r0 r3 entry h = omega arith
