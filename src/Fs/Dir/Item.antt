-- ===== src/Fs/Dir/Item.antt =====
-- kern/fs/dir.c: the search through the items of one block finds the first with the name.
use hoo.Base.{
  dec_lt, ℕ, zero, suc, ◌+◌, ◌<◌, ◌≤◌, ◌≡◌, Bool, true, false, List, Option, none, some, ok,
  Bool-cases, inl, inr, arith, refl, ap, ◌∙◌,
}
use mathlib.Core.Path.{subst}
use hoo.UserLib.Strings.{same, chars, Ends, strcmp-same}
use hoo.Fs.Dir.{DirItem, dirblock_get, find_item}

-- Whether an item has the name that is searched for
abbrev pub named : List ℕ → DirItem → Bool
named search d = same (chars search) (chars d.name)

-- The first of the items from `lo` to `hi` with the name, if there is one
pub data FirstNamed (item : ℕ → DirItem) (search : List ℕ) (lo hi : ℕ) : Option ℕ → Type 0 where
  nowhere :
      ((k : ℕ) → lo ≤ k → k < hi → named search (item k) ≡ false)
      → FirstNamed item search lo hi none
  found_at :
      (k : ℕ)
      → lo ≤ k
      → k < hi
      → named search (item k) ≡ true
      → ((i : ℕ) → lo ≤ i → i < k → named search (item i) ≡ false)
      → FirstNamed item search lo hi (some k)

module _ (item : ℕ → DirItem) (search : List ℕ) where
  -- The items from `lo` to `mid` are others.
  pub after :
      (lo mid hi : ℕ) (r : Option ℕ)
      → lo ≤ mid
      → ((k : ℕ) → lo ≤ k → k < mid → named search (item k) ≡ false)
      → FirstNamed item search mid hi r
      → FirstNamed item search lo hi r
  after lo mid hi _ le others (nowhere f) =
      nowhere
        (λ k l h. elim (dec_lt k mid) [ yes lt ↦ others k l lt | no ge ↦ f k (omega arith) h ])
  after lo mid hi _ le others (found_at k l h e f) =
      found_at k (omega arith) h e
        (λ i l' h'. elim (dec_lt i mid) [ yes lt ↦ others i l' lt | no ge ↦ f i (omega arith) h' ])

  -- Ranges that end before they begin
  pub vacuous :
      (lo mid hi : ℕ) (r : Option ℕ)
      → hi ≤ lo
      → hi ≤ mid
      → FirstNamed item search lo hi r
      → FirstNamed item search mid hi r
  vacuous lo mid hi _ a b (nowhere f) = nowhere (λ k l h. absurd (omega arith))
  vacuous lo mid hi _ a b (found_at k l h e f) = absurd (omega arith)

  -- Behind the range that has it, no more has to be searched.
  pub wider :
      (lo mid hi k : ℕ)
      → mid ≤ hi
      → FirstNamed item search lo mid (some k)
      → FirstNamed item search lo hi (some k)
  wider lo mid hi k le (found_at _ l h e f) = found_at k l (omega arith) e f

  others_of :
      (lo hi : ℕ)
      → FirstNamed item search lo hi none
      → (k : ℕ) → lo ≤ k
      → k < hi
      → named search (item k) ≡ false
  others_of lo hi (nowhere f) = f

between : (k j : ℕ) → j ≤ k → k < j + 1 → k ≡ j
between k j l h = omega arith

pub zero_add : (n : ℕ) → 0 + n ≡ n
zero_add n = omega arith

-- The items of one block
module _ (db search : List ℕ) (ends : Ends search) where
  pub find_item-FirstNamed :
      (n j : ℕ)
      → ((k : ℕ) → j ≤ k → k < j + n → Ends (dirblock_get db k).name)
      → (r : Option ℕ) × (find_item n db search j ≡ ok r)
        × FirstNamed (dirblock_get db) search j (j + n) r
  unfolding find_item
  find_item-FirstNamed zero j names = (none, refl, nowhere (λ k l h. absurd (omega arith)))
  find_item-FirstNamed (suc n) j names =
      let run =
        strcmp-same search (dirblock_get db j).name ends (names j (omega arith) (omega arith)) in
      elim (Bool-cases (named search (dirblock_get db j))) [
        | inl e ↦ (
          some j,
          rw (run, e) refl,
          found_at j (omega arith) (omega arith) e (λ i l h. absurd (omega arith)),
        )
        | inr e ↦
            let (r, rest, first) =
              find_item-FirstNamed n (j + 1) (λ k l h. names k (omega arith) (omega arith)) in
            (
              r,
              rw (run, e) rest,
              after (dirblock_get db) search j (j + 1) (j + suc n) r (omega arith)
                  (λ k l h. ap (λ x. named search (dirblock_get db x)) (between k j l h) ∙ e)
                  (subst (λ hi. FirstNamed (dirblock_get db) search (j + 1) hi r)
                    (let m : j + 1 + n ≡ j + suc n = omega arith in m) first),
            )
      ]
