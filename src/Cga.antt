-- ===== src/Cga.antt =====
-- kern/driver/cga/cga.c: the text screen. The video memory is a word for every `uint16_t` index;
-- the two cursor registers of the controller are the field `cursor`. To halt the machine with
-- `hlt` is a `panic` without a message.
pub mod Scroll
pub mod Bounds
pub mod Paper
pub mod Printed
mod Tests
use hoo.Base.{
  ℕ, zero, suc, ◌+◌, ◌-◌, ◌*◌, ◌/◌, ◌%◌, ◌^◌, Bool, true, false, not, ◌&&◌, ◌||◌, List, [], ◌∷◌,
  Outcome, ok, panic, spins, ◌>>=◌, ◌>>◌, panic_if, ◌==◌, ltb, leb, if◌then◌else◌, bit_or,
}
use hoo.Spinlock
use hoo.Spinlock.{Spinlock}

abbrev pub Words : Type 0
Words = ℕ → ℕ

-- The statics of cga.c, the video memory and the cursor
pub record Cga : Type 0 where
  pub lock : Spinlock
  pub attribute : ℕ
  pub vm : Words
  pub cursor : ℕ

abbrev pub width : ℕ
width = 80

abbrev pub lastline_beg : ℕ
lastline_beg = 1920

abbrev pub lastline_end : ℕ
lastline_end = 1999

-- `WHITH_CHAR`
abbrev pub blank : ℕ
blank = 0x0f20

-- `vm[i] = v`
unfoldable pub poke : Words → ℕ → ℕ → Words
poke vm i v j = if j == i then v else vm j

-- `memmove(vm, vm + beg, …)`, a word at a time from `i` on
unfoldable pub move_up : ℕ → ℕ → Words → Words
move_up zero i vm = vm
move_up (suc n) i vm = move_up n (i + 1) (poke vm i (vm (i + width)))

-- `for (…; ++i) vm[i] = WHITH_CHAR;`
unfoldable pub fill : ℕ → ℕ → Words → Words
fill zero i vm = vm
fill (suc n) i vm = fill n (i + 1) (poke vm i blank)

-- `cga_scroll_back()`
unfoldable pub scroll_back : Words → Words
scroll_back vm = fill 80 lastline_beg (move_up 1920 0 vm)

-- `cga_clear()`
unfoldable pub clear : Cga → Outcome Cga
unfolding Spinlock.signal
clear s = do
  held ← Spinlock.wait s.lock
  ok (record s { vm = fill 2000 0 s.vm; cursor = 0; lock = Spinlock.signal held })

-- `cga_set_attribute(color, bright)`, on the bytes of its arguments
unfoldable pub set_attribute : Cga → ℕ → ℕ → Cga
set_attribute s color bright = record s {
  attribute = bit_or (bright % 2 ^ 8 * 8) (color % 2 ^ 8) % 2 ^ 8;
}

-- `ch_attr | ch`: a `char` from 128 on is negative.
abbrev pub cell : ℕ → ℕ → ℕ
cell attr ch = bit_or (attr * 2 ^ 8) (if ltb ch 128 then ch else 0xff00 + ch)

-- The loop behind `\b`; an `i` that has gone round stays in the loop for ever.
unfoldable pub count_spaces : ℕ → Words → ℕ → ℕ → Outcome ℕ
count_spaces zero vm i n = spins
count_spaces (suc fuel) vm i n = elim (vm i % 2 ^ 8 == 32 || i == 0) [
  | true ↦ count_spaces fuel vm ((i + 0xffff) % 2 ^ 16) ((n + 1) % 2 ^ 16)
  | false ↦ ok n
]

-- The four branches of `cga_putc`: the new video memory and `pos`
unfoldable pub backspace : Words → ℕ → ℕ → Outcome (Words × ℕ)
backspace vm pos attr = if pos / width == 0 && pos % width == 0 then ok (vm, pos) else (do
  let vm' : Words = poke vm (pos - 1) (cell attr 32)
  spaces ← count_spaces (2 ^ 16) vm' ((pos - 1 + 0xffff) % 2 ^ 16) 0
  ok (vm', if ltb 1 spaces then (pos - 1 + 2 ^ 16 - spaces) % 2 ^ 16 else pos - 1))

unfoldable pub tab : Words → ℕ → Words × ℕ
tab vm pos = (fill (4 - pos % 4) pos vm, (pos + (4 - pos % 4)) % 2 ^ 16)

unfoldable pub newline : Words → ℕ → Words × ℕ
newline vm pos =
    if leb lastline_beg pos && leb pos lastline_end
    then (scroll_back vm, lastline_beg)
    else (vm, (pos / width + 1) * width % 2 ^ 16)

unfoldable pub print : Words → ℕ → ℕ → ℕ → Words × ℕ
print vm pos attr ch =
    if pos + 1 == lastline_end
    then (scroll_back (poke vm pos (cell attr ch)), lastline_beg)
    else (poke vm pos (cell attr ch), (pos + 1) % 2 ^ 16)

-- The end of `cga_putc`
unfoldable pub place : Cga → Words × ℕ → Outcome Cga
place s (vm, pos) = do panic_if (ltb lastline_end pos) ""; ok (record s { vm = vm; cursor = pos })

-- `cga_putc(ch, attr)`
unfoldable pub putc : Cga → ℕ → ℕ → Outcome Cga
unfolding place backspace tab newline print
putc s ch attr =
    if ch == 8
    then (backspace s.vm s.cursor attr >>= place s)
    else if ch == 9
    then place s (tab s.vm s.cursor)
    else if ch == 10
    then place s (newline s.vm s.cursor)
    else place s (print s.vm s.cursor attr ch)

unfoldable pub put_all : Cga → List ℕ → Outcome Cga
put_all s [] = ok s
put_all s (ch ∷ str) = do s' ← putc s ch s.attribute; put_all s' str

-- `cga_putstr(str, len)`, for the `len` characters of the string
unfoldable pub putstr : Cga → List ℕ → Outcome Cga
unfolding Spinlock.signal
putstr s str = do
  held ← Spinlock.wait s.lock
  s' ← put_all (record s { lock = held }) str
  ok (record s' { lock = Spinlock.signal s'.lock })
