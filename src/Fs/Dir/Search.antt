-- ===== src/Fs/Dir/Search.antt =====
-- kern/fs/dir.c: `diritem_find_sub` against a search through all items of the directory, in order.
use hoo.Base.{
  ℕ, zero, suc, ◌+◌, ◌-◌, ◌*◌, ◌/◌, ◌%◌, ◌<◌, ◌≤◌, ◌≡◌, ◌≢◌, false, List, Option, none, some, ok,
  ◌==◌, arith, refl, ap, ◌∙◌, sym, ℕ_discrete, ==_ne,
}
use mathlib.Core.Path.{subst}
use hoo.UserLib.Strings.{Ends}
use hoo.Fs.Dir.Item.{
  named, FirstNamed, nowhere, found_at, after, vacuous, wider, zero_add, find_item-FirstNamed,
}
use hoo.Fs.Inodes.{Inode, Fs, inode_at, iblock_get}
use hoo.Fs.Volume.{read_block}
use hoo.Fs.Dir.{DirItem, dirblock_get, find_item, find_loop, find_sub, items_in}

-- The items of a directory whose blocks hold `db`
module _ (fs : Fs) (idx size : ℕ) (db : ℕ → List ℕ) (lba : ℕ → ℕ) (search : List ℕ) where
  abbrev pub item : ℕ → DirItem
  item k = dirblock_get (db (k / 21)) (k % 21)

  -- Every block up to the last is there, and its names are strings.
  pub record Readable : Type 0 where
    pub ends : Ends search
    pub block : (i : ℕ) → i ≤ size / 21 → iblock_get fs idx i ≡ ok (lba i)
    pub made : (i : ℕ) → i ≤ size / 21 → lba i ≢ 0
    pub content : (i : ℕ) → i ≤ size / 21 → read_block fs (lba i) ≡ ok (db i)
    pub names : (i j : ℕ) → i ≤ size / 21 → j < 21 → Ends (dirblock_get (db i) j).name

  item_at : (i j : ℕ) → j < 21 → item (i * 21 + j) ≡ dirblock_get (db i) j
  item_at i j lt =
      let a : (i * 21 + j) / 21 ≡ i = omega arith in
      let b : (i * 21 + j) % 21 ≡ j = omega arith in rw (a, b) refl

  shift_none :
      (i m : ℕ)
      → m ≤ 21
      → FirstNamed (dirblock_get (db i)) search 0 m none
      → (k : ℕ) → i * 21 ≤ k
      → k < i * 21 + m
      → named search (item k) ≡ false
  shift_none i m le (nowhere f) k l h =
      let e : i * 21 + (k - i * 21) ≡ k = omega arith in
      ap (λ x. named search (item x)) (sym e)
      ∙ (ap (named search) (item_at i (k - i * 21) (omega arith))
          ∙ f (k - i * 21) (omega arith) (omega arith))

  shift_some :
      (i m j : ℕ)
      → m ≤ 21
      → FirstNamed (dirblock_get (db i)) search 0 m (some j)
      → FirstNamed item search (i * 21) (i * 21 + m) (some (i * 21 + j))
  shift_some i m j le (found_at _ l h e f) =
      found_at (i * 21 + j) (omega arith) (omega arith)
        (ap (named search) (item_at i j (omega arith)) ∙ e)
        (λ k l' h'.
          let e' : i * 21 + (k - i * 21) ≡ k = omega arith in
          ap (λ x. named search (item x)) (sym e')
          ∙ (ap (named search) (item_at i (k - i * 21) (omega arith))
              ∙ f (k - i * 21) (omega arith) (omega arith)))

  items_in_le : (i : ℕ) → items_in size i ≤ 21
  items_in_le i = ground arith

  items_in_reach : (i : ℕ) → i ≤ size / 21 → i * 21 + items_in size i ≤ size
  items_in_reach i h = ground arith

  -- The blocks behind block `i` hold the items from `(i + 1) * 21` on, if there are more blocks.
  behind :
      (i : ℕ) (r : Option ℕ)
      → i ≤ size / 21
      → FirstNamed item search ((i + 1) * 21) size r
      → FirstNamed item search (i * 21 + items_in size i) size r
  behind i r h first = elim (ℕ_discrete i (size / 21)) [
    | yes last ↦
        vacuous item search ((i + 1) * 21) (i * 21 + items_in size i) size r (omega arith)
          (reach_last i last) first
    | no more ↦ subst (λ lo. FirstNamed item search lo size r) (sym (reach_full i more)) first
  ]
    where
      reach_last : (i : ℕ) → i ≡ size / 21 → size ≤ i * 21 + items_in size i
      reach_last i e = ground arith

      reach_full : (i : ℕ) → i ≢ size / 21 → i * 21 + items_in size i ≡ (i + 1) * 21
      reach_full i e = ground arith

  -- One round: what the block has, or else what the rest of the loop finds
  block_result :
      (n i : ℕ) (r₀ r : Option ℕ)
      → i ≤ size / 21
      → Readable
      → (lba i == 0) ≡ false
      → find_item (items_in size i) (db i) search 0 ≡ ok r₀
      → FirstNamed (dirblock_get (db i)) search 0 (0 + items_in size i) r₀
      → find_loop n fs idx size search (i + 1) ≡ ok r
      → FirstNamed item search ((i + 1) * 21) size r
      → (r' : Option ℕ) × (find_loop (suc n) fs idx size search i ≡ ok r')
        × FirstNamed item search (i * 21) size r'
  unfolding find_loop
  block_result n i none r h read made run first rest others = (
    r,
    rw (read.block i h, made, read.content i h, run) rest,
    after item search (i * 21) (i * 21 + items_in size i) size r (omega arith)
        (shift_none i (items_in size i) (items_in_le i) (
          subst (λ hi. FirstNamed (dirblock_get (db i)) search 0 hi none)
            (zero_add (items_in size i)) first))
        (behind i r h others),
  )
  block_result n i (some j) r h read made run first rest others = (
    some (i * 21 + j),
    rw (read.block i h, made, read.content i h, run) refl,
    wider item search (i * 21) (i * 21 + items_in size i) size (i * 21 + j) (items_in_reach i h) (
        shift_some i (items_in size i) j (items_in_le i) (
          subst (λ hi. FirstNamed (dirblock_get (db i)) search 0 hi (some j))
            (zero_add (items_in size i)) first)),
  )

  find_loop-FirstNamed :
      (n i : ℕ)
      → Readable
      → i + n ≡ size / 21 + 1
      → (r : Option ℕ) × (find_loop n fs idx size search i ≡ ok r)
        × FirstNamed item search (i * 21) size r
  unfolding find_loop
  find_loop-FirstNamed zero i read e = (none, refl, nowhere (λ k l h. absurd (omega arith)))
  find_loop-FirstNamed (suc n) i read e =
      let h : i ≤ size / 21 = omega arith in
      let m : ℕ = items_in size i in
      let made : (lba i == 0) ≡ false = ==_ne (lba i) 0 (read.made i h) in
      let (r₀, run, first) =
        find_item-FirstNamed (db i) search read.ends (items_in size i) 0
          (λ k l lt. read.names i k h (omega (arith, items_in_le i))) in
      let (r, rest, others) = find_loop-FirstNamed n (i + 1) read (omega arith) in
      block_result n i r₀ r h read made run first rest others

-- In a directory whose blocks can be read and hold names that end, diritem_find_sub returns the
-- first of all its items, in order over the blocks, that has the name, and -1 if there is none.
pub find_sub-FirstNamed :
    (fs : Fs) (di : DirItem) (n : Inode) (db : ℕ → List ℕ) (lba : ℕ → ℕ) (search : List ℕ)
    → inode_at fs di.inode_idx ≡ ok n
    → Readable fs di.inode_idx n.size db lba search
    → (r : Option ℕ) × (find_sub fs di search ≡ ok r)
      × FirstNamed (item fs di.inode_idx n.size db lba search) search 0 n.size r
unfolding find_sub
find_sub-FirstNamed fs di n db lba search there read =
    let (r, run, first) =
      find_loop-FirstNamed fs di.inode_idx n.size db lba search (n.size / 21 + 1) 0 read
        (omega arith) in
    (r, rw there run, first)
