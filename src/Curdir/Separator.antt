-- ===== src/Curdir/Separator.antt =====
-- kern/utilities/curdir.c: where `get_parent_child_filename` cuts a path.
use hoo.Base.{
  ℕ, zero, suc, ◌<◌, ◌≤◌, ◌≡◌, Bool, true, false, not, ◌&&◌, List, Option, none, some, ok, ◌==◌,
  length, get_or, Bool-cases, refl, arith, inl, inr, ◌∙◌, ap, ℕ_discrete,
}
use hoo.UserLib.{load-ok}
use hoo.Curdir.{find_separator, separator}

-- A separator at `k`, which is not the one at the end
abbrev pub divides : List ℕ → ℕ → ℕ → Bool
divides path last k = get_or path k 0 == separator && not (k == last)

-- The last place up to `n` that divides the path
pub data LastCut (path : List ℕ) (last n : ℕ) : Option ℕ → Type 0 where
  nowhere : ((k : ℕ) → k ≤ n → divides path last k ≡ false) → LastCut path last n none
  cut_at :
      (i : ℕ)
      → i ≤ n
      → divides path last i ≡ true
      → ((k : ℕ) → i < k → k ≤ n → divides path last k ≡ false)
      → LastCut path last n (some i)

-- A place more that does not divide the path
wider :
    (path : List ℕ) (last n : ℕ) (r : Option ℕ)
    → divides path last (suc n) ≡ false
    → LastCut path last n r
    → LastCut path last (suc n) r
wider path last n _ e (nowhere f) = nowhere (λ k le. elim (ℕ_discrete k (suc n)) [
  | yes at ↦ ap (divides path last) at ∙ e
  | no ne ↦ f k (omega arith)
])
wider path last n _ e (cut_at i le d f) = cut_at i (omega arith) d (λ k lt le'.
    elim (ℕ_discrete k (suc n)) [
      | yes at ↦ ap (divides path last) at ∙ e
      | no ne ↦ f k lt (omega arith)
    ])

zero_of : (k : ℕ) → k ≤ 0 → k ≡ 0
zero_of k h = omega arith

chosen :
    {A : Type 0} (b c : Bool) (x y : A)
    → b ≡ c
    → elim b [ true ↦ x | false ↦ y ] ≡ elim c [ true ↦ x | false ↦ y ]
chosen b c x y e = ap (λ d. elim d [ true ↦ x | false ↦ y ]) e

find_separator-stop :
    (path : List ℕ) (last n : ℕ)
    → suc n < length path
    → divides path last (suc n) ≡ true
    → find_separator (suc n) path last ≡ ok (some (suc n))
unfolding find_separator
find_separator-stop path last n h e =
    rw (load-ok path (suc n) h)
      (chosen (divides path last (suc n)) true (ok (some (suc n))) (find_separator n path last) e)

find_separator-step :
    (path : List ℕ) (last n : ℕ)
    → suc n < length path
    → divides path last (suc n) ≡ false
    → find_separator (suc n) path last ≡ find_separator n path last
unfolding find_separator
find_separator-step path last n h e =
    rw (load-ok path (suc n) h)
      (chosen (divides path last (suc n)) false (ok (some (suc n))) (find_separator n path last) e)

-- Over a path that reaches behind the index that it starts from, the loop of
-- get_parent_child_filename finds the last separator that is not at the given end of the path,
-- and -1 if there is none.
pub find_separator-LastCut :
    (path : List ℕ) (last n : ℕ)
    → n < length path
    → (r : Option ℕ) × (find_separator n path last ≡ ok r) × LastCut path last n r
unfolding find_separator
find_separator-LastCut path last zero h = elim (Bool-cases (divides path last 0)) [
  | inl e ↦ (
    some 0,
    rw (load-ok path 0 h, e) refl,
    cut_at 0 (omega arith) e (λ k lt le. absurd (omega arith)),
  )
  | inr e ↦ (
    none,
    rw (load-ok path 0 h, e) refl,
    nowhere (λ k le. ap (divides path last) (zero_of k le) ∙ e),
  )
]
find_separator-LastCut path last (suc n) h = elim (Bool-cases (divides path last (suc n))) [
  | inl e ↦ (
    some (suc n),
    find_separator-stop path last n h e,
    cut_at (suc n) (omega arith) e (λ k lt le. absurd (omega arith)),
  )
  | inr e ↦
      let (r, run, found) = find_separator-LastCut path last n (omega arith) in
      (r, find_separator-step path last n h e ∙ run, wider path last n r e found)
]
