-- ===== src/Tasks/Fair.antt =====
-- kern/sched/tasks.c: the time slices of `scheduler`, called at every tick of the clock
-- (`timer` of kern/intr/routine.c).
use hoo.Base.{
  panic, fault, spins, lt→ltb, ==_iff, none, some, ℕ, zero, suc, ◌+◌, ◌-◌, ◌*◌, ◌≤◌, ◌≡◌, List, [],
  ◌∷◌, ◌++◌, ok, Outcome, ◌>>=◌, arith, length, Option, ap, ◌∙◌, refl, All, ◌==◌, ltb, true, false,
}
use mathlib.Core.List.{append_assoc}
use mathlib.Core.Path.{subst}
use hoo.Spinlock.{test-free, wait-free}
use hoo.Tasks.{
  front, rest, Tasks, Pcb, Tid, Switch, scheduler, dispatch, dispatch_to, retire, update, timeticks,
  page_up,
}

module _ (null : ℕ) where
  -- `n` ticks of the clock
  unfoldable pub ticks : ℕ → Tasks → Outcome Tasks
  ticks zero s = ok s
  ticks (suc n) s = do (s', switch) ← scheduler null s; ticks n s'

  -- A task that waits for nothing, with what is left of a time slice.
  abbrev pub Awake : Pcb → Type 0
  Awake p = (p.sleep ≡ null) × (p.ticks ≤ timeticks)

  -- `c` runs, the tasks `r` are ready in this order, and the lock is free.
  pub record Turn (s : Tasks) (c : Tid) (r : List Tid) : Type 0 where
    pub running : s.running ≡ c ∷ []
    pub ready : s.ready ≡ r
    pub unlocked : s.lock ≡ 0
    pub current : Awake (s.pcbs c)
    pub awake : All (λ t. Awake (s.pcbs t)) r

  All-map :
      (f g : Tid → Pcb)
      → ((t : Tid) → Awake (f t) → Awake (g t))
      → (ts : List Tid) → All (λ t. Awake (f t)) ts
      → All (λ t. Awake (g t)) ts
  All-map f g k [] a = a
  All-map f g k (t ∷ ts) a = (k t a.0, All-map f g k ts a.1)

  All-snoc :
      (f : Tid → Pcb) (ts : List Tid) (t : Tid)
      → All (λ u. Awake (f u)) ts
      → Awake (f t)
      → All (λ u. Awake (f u)) (ts ++ t ∷ [])
  All-snoc f [] t a b = (b, tt)
  All-snoc f (x ∷ ts) t a b = (a.0, All-snoc f ts t a.1 b)

  recharge : (Tid → Pcb) → Tid → ℕ → Tid → Pcb
  recharge f c n = update f c (record (f c) { ticks = n })

  recharge-Awake :
      (f : Tid → Pcb) (c : Tid) (n : ℕ)
      → n ≤ timeticks
      → Awake (f c)
      → (t : Tid) → Awake (f t)
      → Awake (recharge f c n t)
  unfolding recharge
  recharge-Awake f c n le cur t a = ground arith

  -- A tick within the time slice takes one from it.
  tick_within :
      (s : Tasks) (c : Tid) (r : List Tid) (n : ℕ)
      → Turn s c r
      → (s.pcbs c).ticks ≡ suc n
      → (s' : Tasks) × (scheduler null s ≡ ok (s', none)) × Turn s' c r × ((s'.pcbs c).ticks ≡ n)
  unfolding scheduler recharge
  tick_within s c r n turn e =
      let left : Tid → Pcb = recharge s.pcbs c n in
      let free : (s.pcbs c).sleep == null ≡ true =
        (==_iff (s.pcbs c).sleep null).1 turn.current.0 in
      let more : ltb 0 (s.pcbs c).ticks ≡ true = lt→ltb 0 (s.pcbs c).ticks (omega arith) in
      let less : (s.pcbs c).ticks - 1 ≡ n = omega arith in
      (
        record s { pcbs = left; lock = 0 },
        rw (
          test-free s.lock turn.unlocked,
          wait-free s.lock turn.unlocked,
          ap front turn.running,
          free,
          more,
          less,
        ),
        record {
          running = turn.running;
          ready = turn.ready;
          unlocked = refl;
          current =
              recharge-Awake s.pcbs c n (omega (arith, turn.current.1)) turn.current c turn.current;
          awake =
              All-map s.pcbs left
                (recharge-Awake s.pcbs c n (omega (arith, turn.current.1)) turn.current) r
                turn.awake;
        },
        ground arith,
      )

  -- At the end of a time slice the oldest ready task takes over.
  tick_over :
      (s : Tasks) (c x : Tid) (r : List Tid)
      → Turn s c (x ∷ r)
      → (s.pcbs c).ticks ≡ 0
      → (s' : Tasks) × (sw : Option Switch) × (scheduler null s ≡ ok (s', sw))
        × Turn s' x (r ++ c ∷ [])
  unfolding scheduler recharge dispatch dispatch_to retire
  tick_over s c x r turn e =
      let left : Tid → Pcb = recharge s.pcbs c timeticks in
      let keep = recharge-Awake s.pcbs c timeticks (omega arith) turn.current in
      let free : (s.pcbs c).sleep == null ≡ true =
        (==_iff (s.pcbs c).sleep null).1 turn.current.0 in
      let spent : ltb 0 (s.pcbs c).ticks ≡ false = ground arith in
      let still : (left c).sleep == null ≡ true =
        (==_iff (left c).sleep null).1 (keep c turn.current).0 in
      (
        record s {
          ready = r ++ c ∷ [];
          running = x ∷ [];
          pcbs = left;
          lock = 0;
          esp0 = page_up (left x).stack0;
        },
        some (record { from = some c; to = x }),
        rw
            (
              test-free s.lock turn.unlocked,
              wait-free s.lock turn.unlocked,
              ap front turn.running,
              free,
              spent,
              turn.ready,
              ap front turn.running,
              ap rest turn.running,
            )
            (rw still refl),
        record {
          running = refl;
          ready = refl;
          unlocked = refl;
          current = keep x turn.awake.0;
          awake = All-snoc left r c (All-map s.pcbs left keep r turn.awake.1) (keep c turn.current);
        },
      )

  -- A whole time slice of `n` more ticks.
  slice :
      (n : ℕ) (s : Tasks) (c x : Tid) (r : List Tid)
      → Turn s c (x ∷ r)
      → (s.pcbs c).ticks ≡ n
      → (s' : Tasks) × (ticks (suc n) s ≡ ok s') × Turn s' x (r ++ c ∷ [])
  unfolding ticks
  slice zero s c x r turn e =
      let (s', sw, run, turn') = tick_over s c x r turn e in (s', rw run refl, turn')
  slice (suc n) s c x r turn e =
      let (s₁, run, turn₁, left) = tick_within s c (x ∷ r) n turn e in
      let (s₂, run₂, turn₂) = slice n s₁ c x r turn₁ left in (s₂, rw run run₂, turn₂)

  through :
      (o : Outcome (Tasks × Option Switch)) (a b : ℕ)
      → ((s : Tasks) → ticks (a + b) s ≡ (ticks a s >>= ticks b))
      → (o >>= λ (s', sw). ticks (a + b) s') ≡ ((o >>= λ (s', sw). ticks a s') >>= ticks b)
  through (ok (s, sw)) a b ih = ih s
  through (panic m) a b ih = refl
  through fault a b ih = refl
  through spins a b ih = refl

  ticks-add : (a b : ℕ) (s : Tasks) → ticks (a + b) s ≡ (ticks a s >>= ticks b)
  unfolding ticks
  ticks-add zero b s = ap (λ n. ticks n s) (omega arith)
  ticks-add (suc a) b s =
      ap (λ n. ticks n s) (let e : suc a + b ≡ suc (a + b) = omega arith in e)
      ∙ through (scheduler null s) a b (ticks-add a b)

  -- With one task running, the lock free and every task awake, a ready task runs after at most 17
  -- ticks of the clock for each ready task before it and 17 more.
  pub ready-runs :
      (xs ys : List Tid) (s : Tasks) (c t : Tid)
      → Turn s c (xs ++ t ∷ ys)
      → (k : ℕ) × (s' : Tasks) × (k ≤ (timeticks + 1) * (length xs + 1))
        × (ticks k s ≡ ok s')
        × (s'.running ≡ t ∷ [])
  ready-runs [] ys s c t turn =
      let (s', run, turn') = slice (s.pcbs c).ticks s c t ys turn refl in
      (suc (s.pcbs c).ticks, s', omega (arith, turn.current.1), run, turn'.running)
  ready-runs (x ∷ xs) ys s c t turn =
      let (s₁, run₁, turn₁) = slice (s.pcbs c).ticks s c x (xs ++ t ∷ ys) turn refl in
      let turn₂ : Turn s₁ x (xs ++ t ∷ (ys ++ c ∷ [])) =
        subst (Turn s₁ x) (append_assoc xs (t ∷ ys) (c ∷ [])) turn₁ in
      let (k, s', le, run, runs) = ready-runs xs (ys ++ c ∷ []) s₁ x t turn₂ in
      (
        suc (s.pcbs c).ticks + k,
        s',
        omega (arith, le, turn.current.1),
        ticks-add (suc (s.pcbs c).ticks) k s ∙ rw run₁ run,
        runs,
      )
