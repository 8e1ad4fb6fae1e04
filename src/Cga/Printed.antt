-- ===== src/Cga/Printed.antt =====
-- kern/driver/cga/cga.c: a string that is printed, character by character.
use hoo.Base.{
  ℕ_discrete, dec_lt, ℕ, ◌+◌, ◌*◌, ◌/◌, ◌<◌, ◌≤◌, ◌≡◌, ◌≢◌, arith, refl, ◌==◌, ltb, lt→ltb, ok,
  List, [], ◌∷◌, All, true, false, ==_ne, ==_refl,
}
use hoo.Spinlock.{wait-free}
use hoo.Spinlock
use hoo.Cga.{
  Cga, Words, poke, scroll_back, width, lastline_beg, lastline_end, cell, putc, put_all, putstr,
}
use hoo.Cga.Bounds.{OnScreen, putc-within, putc-before_last, putc-next_row, putc-last_row}
use hoo.Cga.Paper.{
  Paper, feed, strike, strike_all, sheet, Shows, IsPlain, cell_ascii, poked, poked-behind, scrolled,
}

-- What a character comes to, when the paper is `p` after it
record Struck (s : Cga) (ch : ℕ) (p : Paper) : Type 0 where
  pub vm : Words
  pub cursor : ℕ
  pub run : putc s ch s.attribute ≡ ok (record s { vm = vm; cursor = cursor })
  pub shows : Shows (record s { vm = vm; cursor = cursor }) p

module _ {s : Cga} {p : Paper} (shows : Shows s p) where
  feed_above :
      s.cursor < lastline_beg
      → Shows (record s { cursor = (s.cursor / width + 1) * width }) (feed p)
  unfolding feed
  feed_above lt =
      let e : (p.pos / 80 == p.top + 24) ≡ false =
        ==_ne (p.pos / 80) (p.top + 24) (λ h. absurd (omega (arith, shows.place))) in
      rw e (record {
        cells = shows.cells;
        behind = shows.behind;
        place = omega (arith, shows.place);
        on = omega arith;
      })

  feed_last :
      lastline_beg ≤ s.cursor
      → Shows (record s { vm = scroll_back s.vm; cursor = lastline_beg }) (feed p)
  unfolding feed
  feed_last ge =
      let h : p.pos / 80 ≡ p.top + 24 = omega (arith, shows.place, shows.on) in
      let e : (p.pos / 80 == p.top + 24) ≡ true = rw h (==_refl (p.top + 24)) in
      rw e (record {
        cells = scrolled s.vm p.words p.top shows.cells shows.behind;
        behind = λ j far. shows.behind j (omega arith);
        place = omega (arith, h);
        on = omega arith;
      })

  struck :
      (v : ℕ) (next : ℕ)
      → next < lastline_end
      → next ≡ s.cursor + 1
      → Shows
          (record s { vm = poke s.vm s.cursor v; cursor = next })
          (record p { words = poke p.words p.pos v; pos = p.pos + 1 })
  struck v next lt e = record {
    cells = poked shows v;
    behind = poked-behind shows v;
    place = omega (arith, shows.place);
    on = lt;
  }

  struck_last :
      (v : ℕ)
      → s.cursor + 1 ≡ lastline_end
      → Shows
          (record s { vm = scroll_back (poke s.vm s.cursor v); cursor = lastline_beg })
          (feed (record p { words = poke p.words p.pos v }))
  unfolding feed
  struck_last v last =
      let h : p.pos / 80 ≡ p.top + 24 = omega (arith, shows.place) in
      let e : (p.pos / 80 == p.top + 24) ≡ true = rw h (==_refl (p.top + 24)) in
      rw e (record {
        cells =
            scrolled (poke s.vm s.cursor v) (poke p.words p.pos v) p.top (poked shows v)
              (poked-behind shows v);
        behind = λ j far. poked-behind shows v j (omega arith);
        place = omega (arith, h);
        on = omega arith;
      })

putc-feed : (s : Cga) (p : Paper) → Shows s p → Struck s 10 (feed p)
putc-feed s p shows = elim (dec_lt s.cursor 1920) [
  | yes lt ↦ record {
    vm = s.vm;
    cursor = (s.cursor / width + 1) * width;
    run = putc-next_row s s.attribute lt;
    shows = feed_above shows lt;
  }
  | no ge ↦ record {
    vm = scroll_back s.vm;
    cursor = lastline_beg;
    run = putc-last_row s s.attribute shows.on (omega arith);
    shows = feed_last shows (omega arith);
  }
]

putc-strike :
    (s : Cga) (p : Paper) (ch : ℕ)
    → Shows s p
    → IsPlain ch
    → ch ≢ 10
    → Struck s ch (strike s.attribute ch p)
unfolding strike
putc-strike s p ch shows plain c =
    let e : (ch == 10) ≡ false = ==_ne ch 10 c in
    let v : cell s.attribute ch ≡ s.attribute * 256 + ch = cell_ascii s.attribute ch plain.0 in
    elim (dec_lt (s.cursor + 1) 1999) [
      | yes lt ↦
          let l : (p.pos + 1 == p.top * 80 + 1999) ≡ false =
            ==_ne (p.pos + 1) (p.top * 80 + 1999) (λ h. absurd (omega (arith, shows.place))) in
          record {
            vm = poke s.vm s.cursor (cell s.attribute ch);
            cursor = s.cursor + 1;
            run = putc-within s ch s.attribute plain.1 plain.2 c lt;
            shows = rw (e, l, v) (struck shows (s.attribute * 256 + ch) (s.cursor + 1) lt refl);
          }
      | no ge ↦
          let last : s.cursor + 1 ≡ lastline_end = omega (arith, shows.on) in
          let h : p.pos + 1 ≡ p.top * 80 + 1999 = omega (arith, shows.place) in
          let l : (p.pos + 1 == p.top * 80 + 1999) ≡ true = rw h (==_refl (p.top * 80 + 1999)) in
          record {
            vm = scroll_back (poke s.vm s.cursor (cell s.attribute ch));
            cursor = lastline_beg;
            run = putc-before_last s ch s.attribute plain.1 plain.2 c last;
            shows = rw (e, l, v) (struck_last shows (s.attribute * 256 + ch) last);
          }
    ]

putc-Struck :
    (s : Cga) (p : Paper) (ch : ℕ) → Shows s p → IsPlain ch → Struck s ch (strike s.attribute ch p)
unfolding strike
putc-Struck s p ch shows plain = elim (ℕ_discrete ch 10) [
  | yes e ↦ rw e (putc-feed s p shows)
  | no c ↦ putc-strike s p ch shows plain c
]

put_all-Shows :
    (s : Cga) (p : Paper) (str : List ℕ)
    → Shows s p
    → All IsPlain str
    → (vm : Words) × (cursor : ℕ) × (put_all s str ≡ ok (record s { vm = vm; cursor = cursor }))
      × Shows (record s { vm = vm; cursor = cursor }) (strike_all s.attribute str p)
unfolding put_all strike_all
put_all-Shows s p [] shows a = (s.vm, s.cursor, refl, shows)
put_all-Shows s p (ch ∷ str) shows a =
    let t = putc-Struck s p ch shows a.0 in
    let (vm, cursor, run, shows') =
      put_all-Shows (record s { vm = t.vm; cursor = t.cursor }) (strike s.attribute ch p) str
        t.shows a.1 in
    (vm, cursor, rw t.run run, shows')

sheet-Shows : (s : Cga) → OnScreen s → Shows s (sheet s)
sheet-Shows s on = record {
  cells = λ j h. let e : 0 * 80 + j ≡ j = omega arith in rw (e, lt→ltb j 2000 h) refl;
  behind = λ j h. let e : ltb j 2000 ≡ false = ground arith in rw e refl;
  place = omega arith;
  on = on;
}

-- With the lock free and the cursor before the last cell of the screen, cga_putstr of ASCII
-- characters without backspaces and tabs prints them all: each goes with the color to the next
-- place of a sheet without an end, a newline and the last place but one of the screen go on to
-- the next row, and the screen then shows the 25 rows of the sheet up to the one with the next
-- place, where the cursor is, before the last cell; the color stays and the lock is given back.
pub putstr-Shows :
    (s : Cga) (str : List ℕ)
    → s.lock ≡ 0
    → OnScreen s
    → All IsPlain str
    → (s' : Cga) × (putstr s str ≡ ok s')
      × Shows s' (strike_all s.attribute str (sheet s))
      × (s'.attribute ≡ s.attribute)
      × (s'.lock ≡ 0)
unfolding putstr Spinlock.signal
putstr-Shows s str free on a =
    let s₁ : Cga = record s { lock = 1 } in
    let (vm, cursor, run, shows) = put_all-Shows s₁ (sheet s) str (sheet-Shows s₁ on) a in
    (
      record s { vm = vm; cursor = cursor; lock = 0 },
      rw (wait-free s.lock free, run) refl,
      record { cells = shows.cells; behind = shows.behind; place = shows.place; on = shows.on },
      refl,
      refl,
    )
