-- ===== src/Spinlock/Tests.antt =====
-- kern/utilities/spinlock.c on two flows of control: the first takes the lock, the second is behind its test.
use hoo.Base.{ℕ, ◌+◌, ◌≡◌, ◌≢◌, refl}
use hoo.Spinlock
use hoo.Spinlock.Exclusion.{
  State, Reached, moved, exclusion, outside, tested, holding, start, next, pass, win,
}

abbrev s0 : State
s0 = record { spin = Spinlock.init; phase = λ _. outside }

abbrev s1 : State
s1 = moved s0 0 tested s0.spin

abbrev s2 : State
s2 = moved s1 1 tested s1.spin

abbrev s3 : State
s3 = moved s2 0 holding (s2.spin + 1)

taken : Reached s3
unfolding Spinlock.test Spinlock.init
taken =
    next s2 s3
      (next s1 s2 (next s0 s1 (start (λ _. outside) (λ _. refl)) (pass s0 0 refl refl))
        (pass s1 1 refl refl))
      (win s2 0 refl refl)

exclusion_example :
    ((t u : ℕ) → s3.phase t ≡ holding → s3.phase u ≡ holding → t ≡ u)
    × (((u : ℕ) → s3.phase u ≢ holding) → Spinlock.test s3.spin ≡ 0)
exclusion_example = exclusion s3 taken
