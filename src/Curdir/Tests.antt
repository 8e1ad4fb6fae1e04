-- ===== src/Curdir/Tests.antt =====
-- kern/utilities/curdir.c on the paths that its comment names.
use hoo.Base.{Option, arith, ℕ, ◌≡◌, [], ◌∷◌, List, ok, refl, replicate}
use hoo.UserLib.{load, store, memmove, strlen}
use hoo.Curdir.Separator.{LastCut, find_separator-LastCut}
use hoo.Curdir.{parent_child, find_separator, child_name}

-- "/usr/bin/" is in "/usr/", by the name "bin".
abbrev usr_bin : List ℕ
usr_bin = 47 ∷ 117 ∷ 115 ∷ 114 ∷ 47 ∷ 98 ∷ 105 ∷ 110 ∷ 47 ∷ 0 ∷ []

parent_child_run :
    parent_child usr_bin (replicate 6 0)
    ≡ ok (47 ∷ 117 ∷ 115 ∷ 114 ∷ 47 ∷ 0 ∷ 105 ∷ 110 ∷ 47 ∷ 0 ∷ [], 98 ∷ 105 ∷ 110 ∷ 0 ∷ 0 ∷ 0 ∷ [])
unfolding parent_child find_separator child_name load store memmove strlen
parent_child_run = refl

-- "/" is in itself.
root_run : parent_child (47 ∷ 0 ∷ []) (1 ∷ []) ≡ ok (47 ∷ 0 ∷ [], 0 ∷ [])
unfolding parent_child find_separator load store strlen
root_run = refl

find_separator-LastCut_run :
    (r : Option ℕ) × (find_separator 8 usr_bin 8 ≡ ok r) × LastCut usr_bin 8 8 r
find_separator-LastCut_run = find_separator-LastCut usr_bin 8 8 (omega arith)
