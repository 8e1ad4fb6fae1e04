-- ===== src/Cga/Scroll.antt =====
-- kern/driver/cga/cga.c: what the loops over the video memory leave in it.
use hoo.Base.{
  ltb, if◌then◌else◌, dec_lt, lt→ltb, false, ℕ, zero, suc, ◌+◌, ◌<◌, ◌≤◌, ◌≡◌, ◌⊎◌, inl, inr, arith,
  refl, ◌∙◌, ap, ℕ_discrete, ==_refl, ==_ne,
}
use hoo.Cga.{lastline_beg, Words, poke, move_up, fill, scroll_back, blank, width}

pub poke_self : (vm : Words) (i v : ℕ) → poke vm i v i ≡ v
unfolding poke
poke_self vm i v = ground (arith, ==_refl i)

pub poke-ne : (vm : Words) (i v j : ℕ) → (j ≡ i → ⊥) → poke vm i v j ≡ vm j
unfolding poke
poke-ne vm i v j ne = ground (arith, ==_ne j i ne)

-- `fill` writes `n` blanks from `i` on, and nothing else.
pub fill-outside : (n i : ℕ) (vm : Words) (j : ℕ) → (j < i) ⊎ (i + n ≤ j) → fill n i vm j ≡ vm j
unfolding fill
fill-outside zero i vm j h = refl
fill-outside (suc n) i vm j h =
    fill-outside n (i + 1) (poke vm i blank) j (omega arith) ∙ poke-ne vm i blank j (omega arith)

pub fill-inside : (n i : ℕ) (vm : Words) (j : ℕ) → i ≤ j → j < i + n → fill n i vm j ≡ blank
unfolding fill
fill-inside zero i vm j lo hi = absurd (omega arith)
fill-inside (suc n) i vm j lo hi = elim (ℕ_discrete i j) [
  | yes e ↦
      fill-outside n (i + 1) (poke vm i blank) j (inl (omega arith))
      ∙ ap (λ k. poke vm i blank k) (omega arith)
      ∙ poke_self vm i blank
  | no ne ↦ fill-inside n (i + 1) (poke vm i blank) j (omega arith) (omega arith)
]

move_up-outside : (n i : ℕ) (vm : Words) (j : ℕ) → (j < i) ⊎ (i + n ≤ j) → move_up n i vm j ≡ vm j
unfolding move_up
move_up-outside zero i vm j h = refl
move_up-outside (suc n) i vm j h =
    move_up-outside n (i + 1) (poke vm i (vm (i + width))) j (omega arith)
    ∙ poke-ne vm i (vm (i + width)) j (omega arith)

-- The source of a word is read before it is written.
move_up-inside :
    (n i : ℕ) (vm : Words) (j : ℕ) → i ≤ j → j < i + n → move_up n i vm j ≡ vm (j + width)
unfolding move_up
move_up-inside zero i vm j lo hi = absurd (omega arith)
move_up-inside (suc n) i vm j lo hi = elim (ℕ_discrete i j) [
  | yes e ↦
      move_up-outside n (i + 1) (poke vm i (vm (i + width))) j (inl (omega arith))
      ∙ (ap (λ k. poke vm i (vm (i + width)) k) (let s : j ≡ i = omega arith in s)
          ∙ (poke_self vm i (vm (i + width)) ∙ ap (λ k. vm (k + width)) e))
  | no ne ↦
      move_up-inside n (i + 1) (poke vm i (vm (i + width))) j (omega arith) (omega arith)
      ∙ poke-ne vm i (vm (i + width)) (j + width) (omega arith)
]

-- Scrolling moves every row of the screen up by one, leaves the last row blank and changes
-- nothing behind the screen.
pub scroll_back-rows :
    (vm : Words) (i : ℕ)
    → scroll_back vm i
      ≡ (if ltb i lastline_beg then vm (i + width) else if ltb i 2000 then blank else vm i)
unfolding scroll_back
scroll_back-rows vm i = elim (dec_lt i 1920) [
  | yes lt ↦ rw (lt→ltb i 1920 lt) (
      fill-outside 80 1920 (move_up 1920 0 vm) i (inl lt)
      ∙ move_up-inside 1920 0 vm i (omega arith) lt)
  | no ge ↦
      let past : ltb i 1920 ≡ false = ground arith in
      elim (dec_lt i 2000) [
        | yes lt ↦
            rw (past, lt→ltb i 2000 lt)
              (fill-inside 80 1920 (move_up 1920 0 vm) i (omega arith) (omega arith))
        | no behind ↦
            let out : ltb i 2000 ≡ false = ground arith in
            rw (past, out)
              (fill-outside 80 1920 (move_up 1920 0 vm) i (inr (omega arith))
                ∙ move_up-outside 1920 0 vm i (inr (omega arith)))
      ]
]
