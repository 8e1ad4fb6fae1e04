-- ===== src/Bitmap/Invariant.antt =====
-- kern/utilities/bitmap.c: the invariant of a bitmap, and what the single-bit routines do.
use hoo.Base.{
  refl, ◌-◌, bit_or, get_or-set_ne, inr, ap, ◌∙◌, get_or-set_self, ==_iff, inl, length-set,
  Bool-cases, All-set, set, ℕ, ◌*◌, ◌/◌, ◌%◌, ◌^◌, ◌≤◌, ◌<◌, ◌≡◌, ◌≢◌, Bool, true, false, not,
  bit_and, ◌==◌, if◌then◌else◌, ok, arith, length, get_or, All, All-get_or,
}
use hoo.UserLib.{load-ok, store-ok}
use hoo.Bitmap
use hoo.Bitmap.{Bitmap, test}
use hoo.Bitmap.Bits.{bit_of, bit_and-test, bit_of-or, bit_or-lt, bit_of-and, bit_and-lt}

pub record IsValid (m : Bitmap) : Type 0 where
  pub bytes : All (λ b. b < 256) m.buff
  pub room : m.len_inbits ≤ 8 * length m.buff
  pub small : m.len_inbits ≤ 2 ^ 31
  pub next : m.prev_free < m.len_inbits

abbrev pub byte_of : Bitmap → ℕ → ℕ
byte_of m i = get_or m.buff (i / 8) 0

-- Whether the number `i` is in the set.
abbrev pub bit : Bitmap → ℕ → Bool
bit m i = bit_of (byte_of m i) (i % 8)

pub byte_of-lt : {m : Bitmap} → IsValid m → (i : ℕ) → byte_of m i < 256
byte_of-lt {m} v i = All-get_or (λ b. b < 256) m.buff (i / 8) 0 v.bytes (omega arith)

pub test-ok :
    {m : Bitmap}
    → IsValid m
    → (i : ℕ) → i < m.len_inbits
    → test m i ≡ ok (bit_and (byte_of m i) (2 ^ (i % 8)))
unfolding test
test-ok {m} v i h = ground (arith, load-ok m.buff (i / 8))

pub test-bit :
    {m : Bitmap} → IsValid m → (i : ℕ) → (bit_and (byte_of m i) (2 ^ (i % 8)) == 0) ≡ not (bit m i)
test-bit {m} v i = bit_and-test (byte_of m i) (i % 8) (byte_of-lt v i) (omega arith)

-- `m'` is `m` with the membership of `i` changed to `b`, and nothing else.
pub record Updated (m : Bitmap) (i : ℕ) (b : Bool) (m' : Bitmap) : Type 0 where
  pub valid : IsValid m'
  pub same_len : m'.len_inbits ≡ m.len_inbits
  pub same_next : m'.prev_free ≡ m.prev_free
  pub bits : (j : ℕ) → bit m' j ≡ (if i == j then b else bit m j)

abbrev written : Bitmap → ℕ → ℕ → Bitmap
written m i v = record m { buff = set m.buff (i / 8) v }

module _ {m : Bitmap} (v : IsValid m) (i : ℕ) (inside : i < m.len_inbits) (w : ℕ)
    (w_lt : w < 256) where
  written-IsValid : IsValid (written m i w)
  written-IsValid = record {
    bytes = All-set (λ b. b < 256) m.buff (i / 8) w v.bytes w_lt;
    room = omega (arith, v.room, length-set m.buff (i / 8) w);
    small = v.small;
    next = v.next;
  }

  -- A byte that agrees with the old one but at bit `i % 8` changes one number only.
  written-bits :
      (b : Bool)
      → ((k : ℕ) → k < 8 → bit_of w k ≡ (if i % 8 == k then b else bit_of (byte_of m i) k))
      → (j : ℕ) → bit (written m i w) j ≡ (if i == j then b else bit m j)
  written-bits b h j = elim (Bool-cases (i / 8 == j / 8)) [
    | inl same ↦
        let e : i / 8 ≡ j / 8 = (==_iff _ _).0 same in
        let here : get_or (set m.buff (i / 8) w) (j / 8) 0 ≡ w =
          rw (← e) (get_or-set_self m.buff (i / 8) w 0 (omega (arith, v.room))) in
        let there : get_or m.buff (j / 8) 0 ≡ byte_of m i = rw e in
        rw (here, there)
          (h (j % 8) (omega arith)
            ∙ ap (λ (t : Bool). if t then b else bit_of (byte_of m i) (j % 8)) (ground arith))
    | inr other ↦
        let ne : i / 8 ≢ j / 8 = ground arith in
        let there : get_or (set m.buff (i / 8) w) (j / 8) 0 ≡ get_or m.buff (j / 8) 0 =
          get_or-set_ne m.buff (i / 8) (j / 8) w 0 ne in
        let apart : (i == j) ≡ false = ground arith in rw (there, apart)
  ]

module _ {m : Bitmap} (v : IsValid m) (i : ℕ) (inside : i < m.len_inbits) where
  -- On a valid bitmap, bitmap_set of an index inside adds that index and changes no other, and
  -- the bitmap stays valid.
  pub set-Updated : (m' : Bitmap) × (Bitmap.set m i ≡ ok m') × Updated m i true m'
  unfolding Bitmap.set
  set-Updated =
      let w = bit_or (byte_of m i) (2 ^ (i % 8)) in
      let small : w < 256 =
        bit_or-lt (byte_of m i) (i % 8) (byte_of-lt v i) (omega arith) 0 (omega arith) in
      (
        written m i w,
        ground (arith, load-ok m.buff (i / 8), store-ok m.buff (i / 8) w),
        record {
          valid = written-IsValid v i inside w small;
          same_len = refl;
          same_next = refl;
          bits =
              written-bits v i inside w small true
                (λ k h. bit_of-or (byte_of m i) (i % 8) (byte_of-lt v i) (omega arith) k h);
        },
      )

  -- On a valid bitmap, bitmap_clear of an index inside removes that index and changes no other,
  -- and the bitmap stays valid.
  pub clear-Updated : (m' : Bitmap) × (Bitmap.clear m i ≡ ok m') × Updated m i false m'
  unfolding Bitmap.clear
  clear-Updated =
      let w = bit_and (byte_of m i) (0xffffffff - 2 ^ (i % 8)) in
      let small : w < 256 =
        bit_and-lt (byte_of m i) (i % 8) (byte_of-lt v i) (omega arith) 0 (omega arith) in
      (
        written m i w,
        ground (arith, load-ok m.buff (i / 8), store-ok m.buff (i / 8) w),
        record {
          valid = written-IsValid v i inside w small;
          same_len = refl;
          same_next = refl;
          bits =
              written-bits v i inside w small false
                (λ k h. bit_of-and (byte_of m i) (i % 8) (byte_of-lt v i) (omega arith) k h);
        },
      )
