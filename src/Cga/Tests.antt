-- ===== src/Cga/Tests.antt =====
-- kern/driver/cga/cga.c on a blank screen.
use hoo.Base.{refl, ℕ, ◌≡◌, ok, panic, arith, [], ◌∷◌}
use hoo.Cga.Paper.{Shows, sheet, strike_all, strike, feed}
use hoo.Cga.Printed.{putstr-Shows}
use hoo.Cga.{poke, Cga, Words, blank, putc, putstr, scroll_back}
use hoo.Cga.Bounds.{putc-tab_halts}
use hoo.Cga.Scroll.{scroll_back-rows}

abbrev blanks : Words
blanks i = blank

abbrev at : ℕ → Cga
at pos = record { lock = 0; attribute = 15; vm = blanks; cursor = pos }

tab_run : putc (at 1997) 9 15 ≡ panic ""
unfolding putc
tab_run = refl

putc-tab_halts_run : putc (at 1997) 9 15 ≡ panic ""
putc-tab_halts_run = putc-tab_halts (at 1997) 15 (omega arith) (omega arith)

scroll_back-rows_example : scroll_back blanks 5 ≡ blank
scroll_back-rows_example = scroll_back-rows blanks 5

putstr-Shows_example :
    (s' : Cga) × (putstr (at 1998) (72 ∷ 10 ∷ 105 ∷ []) ≡ ok s')
    × Shows s' (strike_all 15 (72 ∷ 10 ∷ 105 ∷ []) (sheet (at 1998)))
    × (s'.attribute ≡ 15)
    × (s'.lock ≡ 0)
putstr-Shows_example = putstr-Shows (at 1998) (72 ∷ 10 ∷ 105 ∷ []) refl (omega arith) (
  (omega arith, omega arith, omega arith),
  ((omega arith, omega arith, omega arith), ((omega arith, omega arith, omega arith), tt)),
)

-- The sheet after those characters: the screen two rows further down, with an `i` in its last row.
sheet_run : (strike_all 15 (72 ∷ 10 ∷ 105 ∷ []) (sheet (at 1998))).top ≡ 2
unfolding strike_all strike feed
sheet_run = refl

sheet_pos_run : (strike_all 15 (72 ∷ 10 ∷ 105 ∷ []) (sheet (at 1998))).pos ≡ 2081
unfolding strike_all strike feed
sheet_pos_run = refl

sheet_words_run : (strike_all 15 (72 ∷ 10 ∷ 105 ∷ []) (sheet (at 1998))).words 2080 ≡ 0x0f69
unfolding strike_all strike feed poke
sheet_words_run = refl
