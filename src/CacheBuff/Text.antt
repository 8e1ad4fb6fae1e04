-- ===== src/CacheBuff/Text.antt =====
-- kern/utilities/cache_buff.c: what the buffer holds after a write.
use hoo.Base.{
  ℕ, zero, suc, ◌+◌, ◌%◌, ◌^◌, ◌<◌, ◌≤◌, ◌≡◌, true, false, List, [], ◌∷◌, ok, ◌==◌, ltb, length,
  get_or, set, arith, refl, ap, ◌∙◌, length-set, get_or-set_self, get_or-set_ne, ==_refl,
}
use hoo.UserLib.{store-ok}
use hoo.Bitmap.{invalid_index}
use hoo.CacheBuff.{CacheBuff, append, write}

-- The buffer is as large as its capacity says.
abbrev pub IsWhole : CacheBuff → Type 0
IsWhole c = (length c.buff ≡ c.capacity) × (c.capacity < 2 ^ 32)

-- The string `str` stands in the buffer of `c'` behind the text of `c`.
pub record Appended (c : CacheBuff) (str : List ℕ) (c' : CacheBuff) : Type 0 where
  pub whole : IsWhole c'
  pub length_after : c'.curlen ≡ c.curlen + length str
  pub before : (i : ℕ) → i < c.curlen → get_or c'.buff i 0 ≡ get_or c.buff i 0
  pub text : (i : ℕ) → i < length str → get_or c'.buff (c.curlen + i) 0 ≡ get_or str i 0

append-cons :
    (c : CacheBuff) (x : ℕ) (xs : List ℕ) (c' : CacheBuff)
    → c.curlen < length c.buff
    → c.curlen + 1 < 2 ^ 32
    → append (record c { buff = set c.buff c.curlen x; curlen = c.curlen + 1 }) xs ≡ ok c'
    → append c (x ∷ xs) ≡ ok c'
unfolding append
append-cons c x xs c' inside small run =
    let fit : (c.curlen + 1) % 2 ^ 32 ≡ c.curlen + 1 = omega arith in
    rw (store-ok c.buff c.curlen x inside, fit) run

append-Appended :
    (c : CacheBuff) (str : List ℕ)
    → IsWhole c
    → c.curlen + length str ≤ c.capacity
    → (c' : CacheBuff) × (append c str ≡ ok c') × Appended c str c'
unfolding append
append-Appended c [] w h = (
  c,
  refl,
  record {
    whole = w;
    length_after = omega arith;
    before = λ i lt. refl;
    text = λ i lt. absurd (omega arith);
  },
)
append-Appended c (x ∷ xs) w h =
    let b : List ℕ = set c.buff c.curlen x in
    let c₁ : CacheBuff = record c { buff = b; curlen = c.curlen + 1 } in
    let size : length b ≡ length c.buff = length-set c.buff c.curlen x in
    let (c', run, a) = append-Appended c₁ xs (size ∙ w.0, w.1) (omega arith) in
    (
      c',
      append-cons c x xs c' (omega (arith, w.0)) (omega (arith, w.1)) run,
      record {
        whole = a.whole;
        length_after = omega (arith, a.length_after);
        before =
            λ i lt. a.before i (omega arith) ∙ get_or-set_ne c.buff c.curlen i x 0 (omega arith);
        text =
            λ i lt. shifted c.buff c.curlen x xs c'.buff (omega (arith, w.0)) a.before a.text i lt;
      },
    )
  where
    shifted :
        (buff : List ℕ) (n x : ℕ) (xs buff' : List ℕ)
        → n < length buff
        → ((i : ℕ) → i < n + 1 → get_or buff' i 0 ≡ get_or (set buff n x) i 0)
        → ((i : ℕ) → i < length xs → get_or buff' (n + 1 + i) 0 ≡ get_or xs i 0)
        → (i : ℕ) → i < length (x ∷ xs)
        → get_or buff' (n + i) 0 ≡ get_or (x ∷ xs) i 0
    shifted buff n x xs buff' inside before text zero lt =
        ap (λ k. get_or buff' k 0) (let e : n + 0 ≡ n = omega arith in e)
        ∙ (before n (omega arith) ∙ get_or-set_self buff n x 0 inside)
    shifted buff n x xs buff' inside before text (suc i) lt =
        ap (λ k. get_or buff' k 0) (let e : n + suc i ≡ n + 1 + i = omega arith in e)
        ∙ text i (omega arith)

-- With no file to redirect to and room for the string, cachebuff_write appends it behind the text
-- and keeps the text.
pub write-Appended :
    (c : CacheBuff) (str : List ℕ)
    → IsWhole c
    → c.redirect ≡ invalid_index
    → c.curlen + length str ≤ c.capacity
    → (c' : CacheBuff) × (write c str ≡ ok (c', [])) × Appended c str c'
unfolding write
write-Appended c str w no_file h =
    let (c', run, a) = append-Appended c str w h in
    let e : (c.redirect == 0xffffffff) ≡ true =
      ap (λ r. r == 0xffffffff) no_file ∙ ==_refl 0xffffffff in
    let fits : ltb c.capacity ((c.curlen + length str) % 2 ^ 32) ≡ false = ground (arith, w.1) in
    (c', rw (e, fits, run) refl, a)
