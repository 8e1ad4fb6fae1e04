-- ===== src/Ring/Tests.antt =====
-- kern/utilities/circular_buffer.c on a ring of four places.
use hoo.Base.{◌%◌, ◌+◌, refl, ℕ, zero, suc, ◌<◌, ◌≡◌, [], ◌∷◌, ok, true, false, arith, get_or}
use hoo.Tasks.{Tasks}
use hoo.Ring.{Ring, put, get, char}
use hoo.Ring.Fifo.{IsRing, put-append, put-full, get-oldest}

-- The characters 7 and 8, round the end of the buffer.
abbrev two : Ring
two = record { capacity = 4; buff = 8 ∷ 0 ∷ 0 ∷ 7 ∷ []; head = 1; tail = 3; lock = 0 }

abbrev full : Ring
full = record { capacity = 4; buff = 8 ∷ 9 ∷ 0 ∷ 7 ∷ []; head = 2; tail = 3; lock = 0 }

pair-chars : (k : ℕ) → k < 2 → get_or two.buff ((3 + k) % 4) 0 ≡ get_or (7 ∷ 8 ∷ []) k 0
pair-chars zero h = refl
pair-chars (suc zero) h = refl
pair-chars (suc (suc k)) h = absurd (omega arith)

two-IsRing : IsRing two (7 ∷ 8 ∷ [])
two-IsRing = record {
  size = refl;
  room = omega arith;
  tail = omega arith;
  head = refl;
  chars = pair-chars;
}

full-chars : (k : ℕ) → k < 3 → get_or full.buff ((3 + k) % 4) 0 ≡ get_or (7 ∷ 8 ∷ 9 ∷ []) k 0
full-chars zero h = refl
full-chars (suc zero) h = refl
full-chars (suc (suc zero)) h = refl
full-chars (suc (suc (suc k))) h = absurd (omega arith)

full-IsRing : IsRing full (7 ∷ 8 ∷ 9 ∷ [])
full-IsRing = record {
  size = refl;
  room = omega arith;
  tail = omega arith;
  head = refl;
  chars = full-chars;
}

-- Task 5 sleeps on the ring, which is at address 100.
abbrev tasks : Tasks
tasks = record {
  ready = 1 ∷ [];
  running = 0 ∷ [];
  sleeping = 5 ∷ [];
  expired = [];
  lock = 0;
  pcbs = λ t. record { stack0 = 0; stack3 = 0; pgdir_pa = 0; ticks = 1; sleep = 100; parent = 0 };
  esp0 = 0;
  intr = true;
}

put-append_example :
    (r' : Ring) × (put 100 two 9 tasks
      ≡ ok (true, r', record tasks { sleeping = []; ready = 1 ∷ 5 ∷ []; lock = 0 }))
    × IsRing r' (7 ∷ 8 ∷ 9 ∷ [])
put-append_example = put-append two-IsRing 100 9 tasks refl (omega arith)

full_run : put 100 full 9 tasks ≡ ok (false, full, tasks)
full_run = put-full full-IsRing 100 9 tasks refl

get-oldest_example : (r' : Ring) × (get 0 100 two tasks ≡ ok (char 7 r')) × IsRing r' (8 ∷ [])
get-oldest_example = get-oldest two-IsRing 0 100 tasks
