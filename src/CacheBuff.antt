-- ===== src/CacheBuff.antt =====
-- kern/utilities/cache_buff.c: the buffer of the log, and of output that is redirected to a file.
-- The blocks that `files_write` is given are returned, in order.
pub mod Text
mod Tests
use hoo.Base.{
  ℕ, zero, suc, ◌+◌, ◌-◌, ◌*◌, ◌%◌, ◌^◌, Bool, true, false, List, [], ◌∷◌, Outcome, ok, spins,
  ◌>>=◌, ◌==◌, ltb, leb, if◌then◌else◌, take, length,
}
use hoo.UserLib.{load, store}
use hoo.Bitmap.{invalid_index}

-- `cachebuff_t`
pub record CacheBuff : Type 0 where
  pub buff : List ℕ
  pub capacity : ℕ
  pub curlen : ℕ
  pub redirect : ℕ

abbrev pub bytes_sector : ℕ
bytes_sector = 512

-- `cachebuff_set(cbuff, buff, capacity)`
unfoldable pub set_buff : List ℕ → ℕ → CacheBuff
set_buff buff capacity = record {
  buff = buff;
  capacity = capacity;
  curlen = 0;
  redirect = invalid_index;
}

-- `cachebuff_redirect(cbuff, redirect)`
unfoldable pub redirect_to : CacheBuff → ℕ → CacheBuff
redirect_to c fd = record c { redirect = fd }

-- `cachebuff_flush(cbuff)`: every round writes the first sector of the buffer.
unfoldable pub flush_loop : ℕ → CacheBuff → Outcome (CacheBuff × List (List ℕ))
flush_loop zero c = spins
flush_loop (suc fuel) c = elim (leb bytes_sector c.curlen) [
  | true ↦ flush_loop fuel (record c { curlen = c.curlen - bytes_sector }) >>= λ (c', out).
      ok (c', take bytes_sector c.buff ∷ out)
  | false ↦ ok (c, [])
]

unfoldable pub flush : CacheBuff → Outcome (CacheBuff × List (List ℕ))
flush c = flush_loop (c.curlen + 1) c

-- `memmove(buff + i, buff + j, n)` within the buffer
unfoldable pub move_down : ℕ → ℕ → ℕ → List ℕ → Outcome (List ℕ)
move_down zero i j buff = ok buff
move_down (suc n) i j buff = do v ← load buff j; b ← store buff i v; move_down n (i + 1) (j + 1) b

-- `while (len--) cbuff->buff_[cbuff->curlen_++] = *string++;`
unfoldable pub append : CacheBuff → List ℕ → Outcome CacheBuff
append c [] = ok c
append c (x ∷ xs) = do
  b ← store c.buff c.curlen x
  append (record c { buff = b; curlen = (c.curlen + 1) % 2 ^ 32 }) xs

-- `cachebuff_write(cbuff, string, len)`, for the `len` characters of the string
unfoldable pub write : CacheBuff → List ℕ → Outcome (CacheBuff × List (List ℕ))
write c str =
    if c.redirect == invalid_index
    then (if ltb c.capacity ((c.curlen + length str) % 2 ^ 32)
        then (do
          b ← move_down (length str) 0 (length str) c.buff
          let kept : CacheBuff = record c {
            buff = b;
            curlen = (c.curlen + 2 ^ 32 - length str) % 2 ^ 32;
          }
          c' ← append kept str
          ok (c', []))
        else (do c' ← append c str; ok (c', [])))
    else (do
      (c', out) ← if leb bytes_sector c.curlen then flush c else ok (c, [])
      c'' ← append c' str
      ok (c'', out))
