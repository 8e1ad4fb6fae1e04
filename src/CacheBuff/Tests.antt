-- ===== src/CacheBuff/Tests.antt =====
-- kern/utilities/cache_buff.c on a buffer of six bytes.
use hoo.Base.{◌≡◌, [], ◌∷◌, ok, arith, refl, fault}
use hoo.UserLib.{load, store}
use hoo.Bitmap.{invalid_index}
use hoo.CacheBuff.{CacheBuff, write, move_down, append}
use hoo.CacheBuff.Text.{Appended, write-Appended}

abbrev two : CacheBuff
two = record {
  buff = 97 ∷ 98 ∷ 0 ∷ 0 ∷ 0 ∷ 0 ∷ [];
  capacity = 6;
  curlen = 2;
  redirect = invalid_index;
}

write-Appended_run :
    (c' : CacheBuff) × (write two (99 ∷ 100 ∷ []) ≡ ok (c', [])) × Appended two (99 ∷ 100 ∷ []) c'
write-Appended_run = write-Appended two (99 ∷ 100 ∷ []) (refl, omega arith) refl (omega arith)

-- A string that is longer than the text before it makes the length negative, and the next byte
-- goes outside the buffer.
abbrev five : CacheBuff
five = record {
  buff = 97 ∷ 98 ∷ 0 ∷ 0 ∷ 0 ∷ 0 ∷ 0 ∷ 0 ∷ 0 ∷ 0 ∷ [];
  capacity = 6;
  curlen = 2;
  redirect = invalid_index;
}

write_run : write five (99 ∷ 99 ∷ 99 ∷ 99 ∷ 99 ∷ []) ≡ fault
unfolding write move_down append load store
write_run = refl
