-- ===== src/Keyboard.antt =====
-- kern/driver/8042/8042.c: the keyboard's interrupt handler. The scan code that it reads from the
-- controller's port is an argument.
pub mod Decode
mod Tests
use hoo.Base.{
  ℕ, ◌<◌, Bool, true, false, not, ◌&&◌, ◌||◌, List, [], ◌∷◌, Outcome, ok, ◌>>=◌, checked, get_elem?,
  ◌==◌, ltb, leb, if◌then◌else◌,
}
use hoo.Ring.{Ring, put}
use hoo.Tasks.{Tasks}

-- The statics of 8042.c; `kb_buff` is the ring and the address it is at.
pub record Keyboard : Type 0 where
  pub make_shift : Bool
  pub make_caps : Bool
  pub ring : Ring
  pub ring_at : ℕ

-- `keymap`: the character of a key without and with shift
abbrev pub keymap : List (ℕ × ℕ)
keymap =
    (0, 0)
    ∷ (126, 126)
    ∷ (49, 33)
    ∷ (50, 64)
    ∷ (51, 35)
    ∷ (52, 36)
    ∷ (53, 37)
    ∷ (54, 94)
    ∷ (55, 38)
    ∷ (56, 42)
    ∷ (57, 40)
    ∷ (48, 41)
    ∷ (45, 95)
    ∷ (61, 43)
    ∷ (8, 8)
    ∷ (9, 9)
    ∷ (113, 81)
    ∷ (119, 87)
    ∷ (101, 69)
    ∷ (114, 82)
    ∷ (116, 84)
    ∷ (121, 89)
    ∷ (117, 85)
    ∷ (105, 73)
    ∷ (111, 79)
    ∷ (112, 80)
    ∷ (91, 123)
    ∷ (93, 125)
    ∷ (10, 10)
    ∷ (0, 0)
    ∷ (97, 65)
    ∷ (115, 83)
    ∷ (100, 68)
    ∷ (102, 70)
    ∷ (103, 71)
    ∷ (104, 72)
    ∷ (106, 74)
    ∷ (107, 75)
    ∷ (108, 76)
    ∷ (59, 58)
    ∷ (39, 34)
    ∷ (96, 126)
    ∷ (0, 0)
    ∷ (92, 124)
    ∷ (122, 90)
    ∷ (120, 88)
    ∷ (99, 67)
    ∷ (118, 86)
    ∷ (98, 66)
    ∷ (110, 78)
    ∷ (109, 77)
    ∷ (44, 60)
    ∷ (46, 62)
    ∷ (47, 63)
    ∷ (0, 0)
    ∷ (42, 42)
    ∷ (0, 0)
    ∷ (32, 32)
    ∷ (0, 0)
    ∷ (0, 0)
    ∷ []

abbrev pub make_lshift : ℕ
make_lshift = 42

abbrev pub make_rshift : ℕ
make_rshift = 54

abbrev pub make_capslock : ℕ
make_capslock = 58

abbrev pub break_lshift : ℕ
break_lshift = 170

abbrev pub break_rshift : ℕ
break_rshift = 182

-- The codes that the handler drops at once
abbrev pub is_ignored : ℕ → Bool
is_ignored ch =
    ltb ch 1
    || (ltb 59 ch && ltb ch break_lshift)
    || (ltb break_lshift ch && ltb ch break_rshift)
    || ltb break_rshift ch

-- The keys q to p, a to l and z to m
abbrev pub is_letter : ℕ → Bool
is_letter ch = (leb 16 ch && leb ch 25) || (leb 30 ch && leb ch 38) || (leb 44 ch && leb ch 50)

-- Which column of `keymap` a key is looked up in: the second if this is true
abbrev pub is_upper : Keyboard → ℕ → Bool
is_upper k ch =
    if is_letter ch
    then (if k.make_caps then true else if k.make_shift then true else false)
    else (if k.make_shift then true else false)

abbrev pub column : Bool → ℕ × ℕ → ℕ
column upper row = if upper then row.1 else row.0

-- `ps2_intr()`: the new states, and whether it reports that the ring is full.
unfoldable pub ps2_intr : Keyboard → ℕ → Tasks → Outcome (Keyboard × Tasks × Bool)
ps2_intr k ch s =
    if is_ignored ch
    then ok (k, s, false)
    else if ch == make_lshift || ch == make_rshift
    then ok (record k { make_shift = true }, s, false)
    else if ch == make_capslock
    then ok (record k { make_caps = not k.make_caps }, s, false)
    else if ch == break_lshift || ch == break_rshift
    then ok (record k { make_shift = false }, s, false)
    else (do
      row ← checked (get_elem? keymap ch)
      (stored, r, s') ← put k.ring_at k.ring (column (is_upper k ch) row) s
      ok (record k { ring = r }, s', not stored))
