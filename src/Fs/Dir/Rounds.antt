-- ===== src/Fs/Dir/Rounds.antt =====
-- kern/fs/dir.c: the rounds of the loops of `diritem_find`. Their fuel is the number of characters
-- of the path.
use hoo.Base.{
  Option, ℕ, zero, suc, ◌+◌, ◌≤◌, ◌≡◌, false, List, none, some, Outcome, ok, panic, fault, spins,
  ◌>>=◌, ◌==◌, ltb, arith, refl, Bool-cases, inl, inr,
}
use hoo.UserLib.{load, store}
use hoo.Curdir.{separator}
use hoo.Fs.Inodes.{Fs}
use hoo.Fs.Dir.{no_item, DirItem, find_sub}
use hoo.Fs.Dir.Find.{copy_part, fetch, find_path}

-- What follows a computation only has to agree on what it returns.
bind_agree {ℓ} :
    {A B : Type ℓ} (o : Outcome A) (f g : A → Outcome B)
    → ((a : A) → f a ≡ g a)
    → (o >>= f) ≡ (o >>= g)
bind_agree (ok a) f g h = h a
bind_agree (panic m) f g h = refl
bind_agree fault f g h = refl
bind_agree spins f g h = refl

chain_agree {ℓ} :
    {A B C : Type ℓ} (o : Outcome A) (k : A → Outcome B) (f g : B → Outcome C)
    → ((a : A) → (k a >>= f) ≡ (k a >>= g))
    → (o >>= k >>= f) ≡ (o >>= k >>= g)
chain_agree (ok a) k f g h = h a
chain_agree (panic m) k f g h = refl
chain_agree fault k f g h = refl
chain_agree spins k f g h = refl

option_agree :
    (r : Option ℕ) (o : Outcome DirItem) (f g : ℕ → Outcome DirItem)
    → ((k : ℕ) → f k ≡ g k)
    → elim r as (λ x. Outcome DirItem) [ none ↦ o | some k ↦ f k ]
      ≡ elim r as (λ x. Outcome DirItem) [ none ↦ o | some k ↦ g k ]
option_agree none o f g h = refl
option_agree (some k) o f g h = h k

ltb-full : (i n : ℕ) → n ≤ i → ltb i n ≡ false
ltb-full i n h = ground arith

-- `copy_part` does not go back.
copy_part-agree :
    (n : ℕ) (dir : List ℕ) (size i j : ℕ) (name : List ℕ) (f g : ℕ × ℕ × List ℕ → Outcome DirItem)
    → ((i' j' : ℕ) (s : List ℕ) → i ≤ i' → f (i', j', s) ≡ g (i', j', s))
    → (copy_part n dir size i j name >>= f) ≡ (copy_part n dir size i j name >>= g)
unfolding copy_part
copy_part-agree zero dir size i j name f g h = h i j name (omega arith)
copy_part-agree (suc n) dir size i j name f g h = elim (Bool-cases (ltb i size)) [
  | inr full ↦ rw full (h i j name (omega arith))
  | inl more ↦ rw more (
      chain_agree (load dir i) _ f g (λ c. elim (Bool-cases (c == separator)) [
        | inl cut ↦ rw (cut) (h i j name (omega arith))
        | inr char ↦ rw char (
            chain_agree (store name j c) _ f g (λ s.
              copy_part-agree n dir size (i + 1) (j + 1) s f g
                (λ i' j' s' le. h i' j' s' (omega arith))))
      ]))
]

-- The loop of diritem_find ends after at most as many rounds as the path has characters left:
-- with that many rounds or any larger number it has the same result, whatever the directories
-- hold.
pub find_path-enough :
    (n m : ℕ) (fs : Fs) (dir : List ℕ) (size i : ℕ) (cur : DirItem) (name : List ℕ)
    → size ≤ i + n
    → size ≤ i + m
    → find_path n fs dir size i cur name ≡ find_path m fs dir size i cur name
unfolding find_path
find_path-enough zero zero fs dir size i cur name h h' = refl
find_path-enough zero (suc m) fs dir size i cur name h h' = rw (ltb-full i size (omega arith)) refl
find_path-enough (suc n) zero fs dir size i cur name h h' = rw (ltb-full i size (omega arith)) refl
find_path-enough (suc n) (suc m) fs dir size i cur name h h' = elim (Bool-cases (ltb i size)) [
  | inr full ↦ rw full refl
  | inl more ↦ rw more (
      copy_part-agree size dir size i 0 name _ _ (λ i' j s le.
        bind_agree (store s j 0) _ _ (λ name'. bind_agree (find_sub fs cur name') _ _ (λ result.
          option_agree result (ok no_item) _ _ (λ k. bind_agree (fetch fs cur k) _ _ (λ item.
            elim (Bool-cases (ltb (i' + 1) size)) [
              | inr last ↦ rw last refl
              | inl behind ↦
                  rw behind (
                    find_path-enough n m fs dir size (i' + 1) item name' (omega arith)
                      (omega arith))
            ]))))))
]
