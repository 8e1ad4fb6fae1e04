-- ===== src/Keyboard/Decode.antt =====
-- kern/driver/8042/8042.c: what a scan code does.
use hoo.Base.{
  ==_iff, leb, ◌-◌, ◌&&◌, ℕ, ◌+◌, ◌<◌, ◌≤◌, ◌≡◌, ◌≢◌, ◌⊎◌, Bool, true, false, not, ◌||◌, List, [],
  ◌∷◌, ◌++◌, ok, ◌>>=◌, get_or, get_elem?-eq-get_or, length, arith, refl, ◌==◌, if◌then◌else◌, ◌∙◌,
}
use hoo.Bitmap.Bits.{passed, passed_lem}
use hoo.Ring.{Ring, put}
use hoo.Ring.Fifo.{IsRing, put-append, put-full}
use hoo.Tasks.{Tasks}
use hoo.Tasks.Wakeup.{waiting, others}
use hoo.Keyboard.{
  Keyboard, keymap, is_ignored, is_upper, column, ps2_intr, make_lshift, make_rshift, make_capslock,
  break_lshift, break_rshift,
}

-- A code of a key that has a place in `keymap` and is no control key
abbrev pub IsKey : ℕ → Type 0
IsKey ch = (1 ≤ ch) × (ch ≤ 59) × (ch ≢ make_lshift) × (ch ≢ make_rshift) × (ch ≢ make_capslock)

-- The character that a key gives with shift, where it is no letter: the two characters of a key of
-- the board, without and with shift
abbrev pub marks : List (ℕ × ℕ)
marks =
    (49, 33)
    ∷ (50, 64)
    ∷ (51, 35)
    ∷ (52, 36)
    ∷ (53, 37)
    ∷ (54, 94)
    ∷ (55, 38)
    ∷ (56, 42)
    ∷ (57, 40)
    ∷ (48, 41)
    ∷ (45, 95)
    ∷ (61, 43)
    ∷ (91, 123)
    ∷ (93, 125)
    ∷ (59, 58)
    ∷ (39, 34)
    ∷ (96, 126)
    ∷ (92, 124)
    ∷ (44, 60)
    ∷ (46, 62)
    ∷ (47, 63)
    ∷ []

unfoldable pub marked : List (ℕ × ℕ) → ℕ → ℕ
marked [] c = c
marked ((plain, mark) ∷ rows) c = if c == plain then mark else marked rows c

-- What a key types of which the character is `c` with neither shift nor caps lock: a letter is a
-- capital with one or the other, and any other key has its mark with shift alone.
unfoldable pub typed : Bool → Bool → ℕ → ℕ
unfolding marked
typed shift caps c =
    if leb 97 c && leb c 122
    then (if shift || caps then c - 32 else c)
    else (if shift then marked marks c else c)

-- The character of a key
abbrev pub char_of : Keyboard → ℕ → ℕ
char_of k ch = typed k.make_shift k.make_caps (get_or keymap ch (0, 0)).0

flags : Bool → Bool → Keyboard
flags shift caps = record {
  make_shift = shift;
  make_caps = caps;
  ring = record { capacity = 0; buff = []; head = 0; tail = 0; lock = 0 };
  ring_at = 0;
}

typed_row : Bool → Bool → ℕ → Bool
typed_row shift caps ch =
    column (is_upper (flags shift caps) ch) (get_or keymap ch (0, 0))
    == typed shift caps (get_or keymap ch (0, 0)).0

typed_table : (shift caps : Bool) → passed (typed_row shift caps) 60 ≡ true
unfolding passed typed_row typed marked flags
typed_table true true = refl
typed_table true false = refl
typed_table false true = refl
typed_table false false = refl

-- The columns of `keymap` hold what the keys type.
column-char_of :
    (k : Keyboard) (ch : ℕ)
    → ch < 60
    → column (is_upper k ch) (get_or keymap ch (0, 0)) ≡ char_of k ch
unfolding typed_row flags
column-char_of k ch h =
    (==_iff _ _).0 (
      passed_lem (typed_row k.make_shift k.make_caps) 60 (typed_table k.make_shift k.make_caps) ch
        h)

ps2_intr-key :
    (k : Keyboard) (ch : ℕ) (s : Tasks)
    → IsKey ch
    → ps2_intr k ch s ≡ (
        put k.ring_at k.ring (char_of k ch) s >>= λ (stored, r, s').
        ok (record k { ring = r }, s', not stored))
unfolding ps2_intr
ps2_intr-key k ch s h =
    let e₁ : is_ignored ch ≡ false = ground arith in
    let e₂ : (ch == 42 || ch == 54) ≡ false = ground arith in
    let e₃ : (ch == 58) ≡ false = ground arith in
    let e₄ : (ch == 170 || ch == 182) ≡ false = ground arith in
    rw
      (
        e₁,
        e₂,
        e₃,
        e₄,
        get_elem?-eq-get_or keymap ch (0, 0) (omega arith),
        column-char_of k ch (omega arith),
      )
      refl

module _ {k : Keyboard} {xs : List ℕ} (is : IsRing k.ring xs) (ch : ℕ) (key : IsKey ch)
    (s : Tasks) where
  -- With room in the ring and the scheduler's lock free, the code of a key puts its character
  -- behind the others and wakes the readers up: the key's plain character, as a capital if it is
  -- a letter and shift is held or caps lock is on, and replaced by the mark above it if it is no
  -- letter and shift is held.
  pub ps2_intr-append :
      s.lock ≡ 0
      → length xs + 1 < k.ring.capacity
      → (r' : Ring) × (ps2_intr k ch s
          ≡ ok (
            record k { ring = r' },
            record s {
              sleeping = others s.pcbs k.ring_at s.sleeping;
              ready = s.ready ++ waiting s.pcbs k.ring_at s.sleeping;
              lock = 0;
            },
            false,
          ))
        × IsRing r' (xs ++ char_of k ch ∷ [])
  ps2_intr-append free room =
      let (r', run, is') = put-append is k.ring_at (char_of k ch) s free room in
      (r', ps2_intr-key k ch s key ∙ rw run refl, is')

  -- With the ring full, the character is dropped and reported.
  pub ps2_intr-full : length xs + 1 ≡ k.ring.capacity → ps2_intr k ch s ≡ ok (k, s, true)
  ps2_intr-full full =
      ps2_intr-key k ch s key ∙ rw (put-full is k.ring_at (char_of k ch) s full) refl

-- Shift counts from its make code to its break code, on whichever side; caps lock changes at every
-- make code; no other code that the handler drops changes anything.
abbrev pub control : ℕ → Bool × Bool → Bool × Bool
control ch (shift, caps) =
    if ch == make_lshift || ch == make_rshift
    then (true, caps)
    else if ch == break_lshift || ch == break_rshift
    then (false, caps)
    else if ch == make_capslock
    then (shift, not caps)
    else (shift, caps)

-- A code of no key only changes the shift and caps lock flags: shift lasts from its make code to
-- its break code, caps lock changes at every make code.
pub ps2_intr-control :
    (k : Keyboard) (ch : ℕ) (s : Tasks)
    → (ch ≡ 0) ⊎ (59 < ch) ⊎ (ch ≡ make_lshift) ⊎ (ch ≡ make_rshift) ⊎ (ch ≡ make_capslock)
    → ps2_intr k ch s
      ≡ ok (
        record k {
          make_shift = (control ch (k.make_shift, k.make_caps)).0;
          make_caps = (control ch (k.make_shift, k.make_caps)).1;
        },
        s,
        false,
      )
unfolding ps2_intr
ps2_intr-control k ch s h = ground arith
