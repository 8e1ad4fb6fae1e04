-- ===== src/Cga/Paper.antt =====
-- kern/driver/cga/cga.c: what a string leaves on the screen, against an endless sheet of paper of
-- which the screen shows 25 rows.
use hoo.Base.{
  ℕ_discrete, dec_lt, ℕ, ◌+◌, ◌*◌, ◌/◌, ◌^◌, ◌<◌, ◌≤◌, ◌≡◌, ◌≢◌, arith, ◌==◌, ◌∙◌, ap, sym, ltb,
  lt→ltb, List, [], ◌∷◌, false, if◌then◌else◌, bit_or,
}
use hoo.Cga.{Cga, Words, poke, scroll_back, width, lastline_end, blank, cell}
use hoo.Cga.Scroll.{poke_self, poke-ne, scroll_back-rows}
use hoo.Cga.Bounds.{OnScreen}
use hoo.Mem.Page.Bits.{shifted, bit_or-low}

-- The sheet, the first row of it that is on the screen, and where the next character goes
pub record Paper : Type 0 where
  pub words : Words
  pub top : ℕ
  pub pos : ℕ

-- The end of a line: to the start of the next row, which the screen follows.
unfoldable pub feed : Paper → Paper
feed p = record p {
  top = if p.pos / width == p.top + 24 then p.top + 1 else p.top;
  pos = (p.pos / width + 1) * width;
}

-- A character, with its color before it; the last place of the screen stays free.
unfoldable pub strike : ℕ → ℕ → Paper → Paper
unfolding feed
strike attr ch p =
    if ch == 10
    then feed p
    else if p.pos + 1 == p.top * width + lastline_end
    then feed (record p { words = poke p.words p.pos (attr * 256 + ch) })
    else record p { words = poke p.words p.pos (attr * 256 + ch); pos = p.pos + 1 }

unfoldable pub strike_all : ℕ → List ℕ → Paper → Paper
strike_all attr [] p = p
strike_all attr (ch ∷ str) p = strike_all attr str (strike attr ch p)

-- The sheet with the screen on it, and nothing behind
abbrev pub sheet : Cga → Paper
sheet s = record { words = λ j. if ltb j 2000 then s.vm j else blank; top = 0; pos = s.cursor }

-- The screen shows the 25 rows from the first one on, the sheet is blank behind them, and the
-- cursor is at the next character's place.
pub record Shows (s : Cga) (p : Paper) : Type 0 where
  pub cells : (j : ℕ) → j < 2000 → s.vm j ≡ p.words (p.top * width + j)
  pub behind : (j : ℕ) → (p.top + 25) * width ≤ j → p.words j ≡ blank
  pub place : p.pos ≡ p.top * width + s.cursor
  pub on : OnScreen s

pub cell_ascii : (attr ch : ℕ) → ch < 128 → cell attr ch ≡ attr * 256 + ch
cell_ascii attr ch h =
    let e : attr * 2 ^ 8 ≡ shifted 8 attr = omega arith in
    rw (lt→ltb ch 128 h)
      (ap (λ t. bit_or t ch) e ∙ (bit_or-low 8 attr ch (omega arith) ∙ omega arith))

module _ {s : Cga} {p : Paper} (shows : Shows s p) where
  pub poked :
      (v j : ℕ) → j < 2000 → poke s.vm s.cursor v j ≡ poke p.words p.pos v (p.top * width + j)
  poked v j h = elim (ℕ_discrete j s.cursor) [
    | yes e ↦
        let e' : p.top * width + j ≡ p.pos = omega (arith, shows.place) in
        ap (λ k. poke s.vm s.cursor v k) e
        ∙ (poke_self s.vm s.cursor v
            ∙ sym (ap (λ k. poke p.words p.pos v k) e' ∙ poke_self p.words p.pos v))
    | no ne ↦
        poke-ne s.vm s.cursor v j ne
        ∙ (shows.cells j h
            ∙ sym (
                poke-ne p.words p.pos v (p.top * width + j) (λ e. ne (omega (arith, shows.place)))))
  ]

  pub poked-behind : (v j : ℕ) → (p.top + 25) * width ≤ j → poke p.words p.pos v j ≡ blank
  poked-behind v j h =
      poke-ne p.words p.pos v j (λ e. absurd (omega (arith, shows.place, shows.on)))
      ∙ shows.behind j h

-- Moving the rows up shows the next row of the sheet.
pub scrolled :
    (vm words : Words) (top : ℕ)
    → ((j : ℕ) → j < 2000 → vm j ≡ words (top * width + j))
    → ((j : ℕ) → (top + 25) * width ≤ j → words j ≡ blank)
    → (j : ℕ) → j < 2000
    → scroll_back vm j ≡ words ((top + 1) * width + j)
scrolled vm words top cells behind j h = scroll_back-rows vm j ∙ elim (dec_lt j 1920) [
  | yes lt ↦
      let e : top * width + (j + width) ≡ (top + 1) * width + j = omega arith in
      rw (lt→ltb j 1920 lt) (cells (j + width) (omega arith) ∙ ap words e)
  | no ge ↦
      let past : ltb j 1920 ≡ false = ground arith in
      rw (past, lt→ltb j 2000 h) (sym (behind ((top + 1) * width + j) (omega arith)))
]

-- A character of ASCII but no backspace and no tab
abbrev pub IsPlain : ℕ → Type 0
IsPlain ch = (ch < 128) × (ch ≢ 8) × (ch ≢ 9)
