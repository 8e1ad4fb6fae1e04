-- ===== src/Bitmap/Setup.antt =====
-- kern/utilities/bitmap.c: `bitmap_init`.
use hoo.Base.{refl, ℕ, ◌*◌, ◌/◌, ◌%◌, ◌≤◌, ◌<◌, ◌^◌, ◌≡◌, false, List, ok, arith, length, All}
use hoo.UserLib.{bzero}
use hoo.UserLib.Memory.{memset-Filled}
use hoo.Bitmap
use hoo.Bitmap.Bits.{bit_of}
use hoo.Bitmap.{Bitmap}
use hoo.Bitmap.Invariant.{IsValid, bit}

zero-bits : (k : ℕ) → bit_of 0 k ≡ false
zero-bits k = ground arith

-- Over a buffer of bytes that holds the bits, for a length that is positive, a multiple of 8 and
-- at most 2 ^ 31, bitmap_init gives a valid bitmap with no bit set.
pub init-IsValid :
    (len : ℕ) (buff : List ℕ)
    → All (λ b. b < 256) buff
    → len % 8 ≡ 0
    → 0 < len
    → len ≤ 2 ^ 31
    → len ≤ 8 * length buff
    → (m : Bitmap) × (Bitmap.init len buff ≡ ok m)
      × IsValid m
      × (m.len_inbits ≡ len)
      × ((i : ℕ) → i < len → bit m i ≡ false)
unfolding Bitmap.init bzero
init-IsValid len buff bytes whole pos small room =
    let (b, run, filled) = memset-Filled (len / 8) buff 0 0 (omega arith) in
    (
      record { len_inbits = len; buff = b; prev_free = 0 },
      rw run,
      record {
        bytes = filled.bytes (omega arith) bytes;
        room = omega (arith, filled.same_length);
        small = small;
        next = pos;
      },
      refl,
      λ i h. rw (filled.inside (i / 8) (omega arith) (omega arith)) (zero-bits (i % 8)),
    )
