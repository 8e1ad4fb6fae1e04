-- ===== src/Mem/Vm/Cover.antt =====
-- kern/mem/vm.c: which addresses the ranges of an address space hold, and when they are in order.
use hoo.Base.{ℕ, ◌+◌, ◌<◌, ◌≤◌, ◌≡◌, Bool, false, ◌&&◌, ◌||◌, List, [], ◌∷◌, ltb, leb}
use hoo.Mem.Vm.{Vaddr, Vspace, bytes}

abbrev pub inside : ℕ → ℕ → ℕ → Bool
inside va n a = leb va a && ltb a (va + bytes n)

-- The addresses of the ranges
abbrev pub covered : List Vspace → ℕ → Bool
covered [] a = false
covered (w ∷ rest) a = (leb w.begin a && ltb a w.end) || covered rest a

-- What is allocated in a range fills it from its begin to its end, the newest at the end.
abbrev pub Tiles : List Vaddr → ℕ → ℕ → Type 0
Tiles [] begin end = begin ≡ end
Tiles (x ∷ xs) begin end = (x.va + bytes x.pages ≡ end) × (0 < x.pages) × Tiles xs begin x.va

-- The ranges follow each other from `lo` on, each filled and none empty.
abbrev pub Ranges : ℕ → List Vspace → Type 0
Ranges lo [] = Unit
Ranges lo (w ∷ rest) =
    (lo ≤ w.begin) × (w.begin < w.end) × Tiles w.items w.begin w.end × Ranges w.end rest

-- The end of the last range
abbrev pub top : ℕ → List Vspace → ℕ
top lo [] = lo
top lo (w ∷ rest) = top w.end rest
