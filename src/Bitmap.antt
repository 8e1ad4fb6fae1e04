-- ===== src/Bitmap.antt =====
-- kern/utilities/bitmap.c: a set of small numbers, one bit each, with the place where the last
-- search stopped. An `int` index is its 32-bit pattern, so that the `uint32_t` comparison of
-- the source is the one below; the division of a negative index leaves the buffer (`fault`).
pub mod Bits
pub mod Invariant
pub mod Scan
pub mod Setup
pub mod Claim
mod Tests
use hoo.Base.{
  ℕ, zero, suc, ◌+◌, ◌-◌, ◌*◌, ◌/◌, ◌%◌, ◌^◌, ◌<◌, Bool, List, ◌||◌, bit_and, bit_or, ◌==◌, ltb,
  leb, if◌then◌else◌, Outcome, ok, panic, fault, ◌>>=◌, ◌>>◌, panic_if, true, false,
}
use hoo.UserLib.{load, store, bzero}

-- `bitmap_t`; the buffer is the list of its bytes.
pub record Bitmap : Type 0 where
  pub len_inbits : ℕ
  pub buff : List ℕ
  pub prev_free : ℕ

-- `INVALID_INDEX`, -1 as a 32-bit pattern
abbrev pub invalid_index : ℕ
invalid_index = 0xffffffff

abbrev pub bits_per_byte : ℕ
bits_per_byte = 8

-- `~(1 << bit)` as a 32-bit pattern
abbrev pub mask_not : ℕ → ℕ
mask_not bit = 0xffffffff - 2 ^ bit

unfoldable pub init : ℕ → List ℕ → Outcome Bitmap
init len buff = do
  b ← bzero buff (len / bits_per_byte)
  ok (record { len_inbits = len; buff = b; prev_free = 0 })

-- `int byte = idx / BITS_PER_BYTE`: a negative `int` is no index of the buffer.
abbrev pub byte_index : ℕ → Outcome ℕ
byte_index idx = if ltb idx (2 ^ 31) then ok (idx / bits_per_byte) else fault

-- The masked byte that the source returns as a `bool`: 0, or a number that is not 0.
unfoldable pub test : Bitmap → ℕ → Outcome ℕ
unfolding load
test m idx = do
  panic_if (idx == invalid_index || leb m.len_inbits idx) "bitmap_test(): invalid index"
  i ← byte_index idx
  v ← load m.buff i
  ok (bit_and v (2 ^ (idx % bits_per_byte)))

unfoldable pub set : Bitmap → ℕ → Outcome Bitmap
unfolding load store
set m idx = do
  panic_if (idx == invalid_index || leb m.len_inbits idx) "bitmap_set(): invalid index"
  i ← byte_index idx
  v ← load m.buff i
  b ← store m.buff i (bit_or v (2 ^ (idx % bits_per_byte)))
  ok (record m { buff = b })

unfoldable pub clear : Bitmap → ℕ → Outcome Bitmap
unfolding load store
clear m idx = do
  panic_if (idx == invalid_index || leb m.len_inbits idx) "bitmap_clear(): invalid index"
  i ← byte_index idx
  v ← load m.buff i
  b ← store m.buff i (bit_and v (mask_not (idx % bits_per_byte)))
  ok (record m { buff = b })

-- The loop of `bitmap_scan_empty`, with the rounds that are left and the bit that is tested.
unfoldable pub scan : ℕ → Bitmap → ℕ → Outcome (ℕ × Bitmap)
unfolding test
scan zero m bit = panic "bitmap_scan_empty(): no more free bits"
scan (suc n) m bit = do
  is_set ← test m bit
  let next = (bit + 1) % m.len_inbits
  elim (is_set == 0) [ true ↦ ok (bit, record m { prev_free = next }) | false ↦ scan n m next ]

unfoldable pub scan_empty : Bitmap → Outcome (ℕ × Bitmap)
unfolding scan
scan_empty m = do
  panic_if (m.prev_free == invalid_index || leb m.len_inbits m.prev_free)
      "bitmap_scan_empty(): invalid parameters"
  scan m.len_inbits m m.prev_free
