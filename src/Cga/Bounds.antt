-- ===== src/Cga/Bounds.antt =====
-- kern/driver/cga/cga.c: where the cursor goes.
use hoo.Base.{
  ℕ, ◌+◌, ◌-◌, ◌*◌, ◌/◌, ◌%◌, ◌^◌, ◌<◌, ◌≤◌, ◌≡◌, ◌≢◌, arith, refl, ◌==◌, ◌∙◌, leb, ◌&&◌, ok, panic,
  true, false, ==_ne,
}
use hoo.Cga.{
  Cga, Words, poke, scroll_back, width, lastline_beg, lastline_end, cell, print, newline, tab,
  place, putc,
}

-- The cursor stands on a cell that `cga_putc` may write, which the last of the screen is not.
abbrev pub OnScreen : Cga → Type 0
OnScreen s = s.cursor < lastline_end

place-ok :
    (s : Cga) (vm : Words) (pos : ℕ)
    → pos ≤ lastline_end
    → place s (vm, pos) ≡ ok (record s { vm = vm; cursor = pos })
unfolding place
place-ok s vm pos h = ground arith

putc-print :
    (s : Cga) (ch attr : ℕ)
    → ch ≢ 8
    → ch ≢ 9
    → ch ≢ 10
    → putc s ch attr ≡ place s (print s.vm s.cursor attr ch)
unfolding putc
putc-print s ch attr a b c = rw (==_ne ch 8 a, ==_ne ch 9 b, ==_ne ch 10 c) refl

module _ (s : Cga) (ch attr : ℕ) (a : ch ≢ 8) (b : ch ≢ 9) (c : ch ≢ 10) where
  -- A printable character goes to the cursor's cell and the cursor one on.
  pub putc-within :
      s.cursor + 1 < lastline_end
      → putc s ch attr
        ≡ ok (record s { vm = poke s.vm s.cursor (cell attr ch); cursor = s.cursor + 1 })
  unfolding print
  putc-within h =
      putc-print s ch attr a b c
      ∙ (let e : (s.cursor + 1 == 1999) ≡ false = ground arith in
          let m : (s.cursor + 1) % 2 ^ 16 ≡ s.cursor + 1 = omega arith in
          rw (e, m) (place-ok s (poke s.vm s.cursor (cell attr ch)) (s.cursor + 1) (omega arith)))

  -- Before the last cell of the screen the rows move up instead, and the cursor goes to the start
  -- of the last row.
  pub putc-before_last :
      s.cursor + 1 ≡ lastline_end
      → putc s ch attr
        ≡ ok (record s {
          vm = scroll_back (poke s.vm s.cursor (cell attr ch));
          cursor = lastline_beg;
        })
  unfolding print
  putc-before_last h =
      putc-print s ch attr a b c
      ∙ (let e : (s.cursor + 1 == 1999) ≡ true = ground arith in
          rw e (
            place-ok s (scroll_back (poke s.vm s.cursor (cell attr ch))) lastline_beg
              (omega arith)))

-- Before the last four cells of the screen a tab moves the cursor to the next multiple of four,
-- on the screen.
pub putc-tab_stop :
    (s : Cga) (attr : ℕ)
    → s.cursor < 1996
    → (s' : Cga) × (putc s 9 attr ≡ ok s') × (s'.cursor ≡ (s.cursor / 4 + 1) * 4) × OnScreen s'
unfolding putc tab
putc-tab_stop s attr h =
    let next : (s.cursor + (4 - s.cursor % 4)) % 2 ^ 16 ≡ (s.cursor / 4 + 1) * 4 = omega arith in
    (_, place-ok s _ _ (omega arith), next, omega arith)

-- In the last four cells of the screen a tab halts the machine.
pub putc-tab_halts :
    (s : Cga) (attr : ℕ) → 1996 ≤ s.cursor → s.cursor ≤ lastline_end → putc s 9 attr ≡ panic ""
unfolding putc tab place
putc-tab_halts s attr lo hi = ground arith

-- Above the last row a newline goes to the start of the next row.
pub putc-next_row :
    (s : Cga) (attr : ℕ)
    → s.cursor < lastline_beg
    → putc s 10 attr ≡ ok (record s { cursor = (s.cursor / width + 1) * width })
unfolding putc newline
putc-next_row s attr lt =
    let e : (leb 1920 s.cursor && leb s.cursor 1999) ≡ false = ground arith in
    let m : (s.cursor / 80 + 1) * 80 % 2 ^ 16 ≡ (s.cursor / 80 + 1) * 80 = omega arith in
    rw (e, m) (place-ok s s.vm ((s.cursor / 80 + 1) * 80) (omega arith))

-- In the last row the rows move up, and the cursor goes to the start of the last row.
pub putc-last_row :
    (s : Cga) (attr : ℕ)
    → OnScreen s
    → lastline_beg ≤ s.cursor
    → putc s 10 attr ≡ ok (record s { vm = scroll_back s.vm; cursor = lastline_beg })
unfolding putc newline
putc-last_row s attr on ge =
    let e : (leb 1920 s.cursor && leb s.cursor 1999) ≡ true = ground arith in
    rw e (place-ok s (scroll_back s.vm) 1920 (omega arith))
