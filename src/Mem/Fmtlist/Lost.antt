-- ===== src/Mem/Fmtlist/Lost.antt =====
-- kern/mem/format_list.c: what is left of a chain when a page of the metadata area behind its
-- first page gets its last object back.
use hoo.Base.{
  if◌then◌else◌, ℕ, suc, ◌≡◌, ◌≢◌, ◌≤◌, ◌<◌, ◌∙◌, ap, sym, Bool, true, false, List, [], ◌∷◌, ◌++◌,
  some, ok, refl, length, All, ◌==◌, ==_ne, ==_refl, leb, arith,
}
use mathlib.Core.Path.{subst}
use hoo.Mem.Page.{pg}
use hoo.Mem.VmKern
use hoo.Mem.VmKern.{VmKern, kern_metadata}
use hoo.Mem.Fmtlist.{Fmtlist, Kernel, alloc, release_loop, release, drop_page}
use hoo.Mem.Fmtlist.Reuse.{Chain}

-- A page whose objects are all in use
abbrev pub IsFull : Fmtlist → Type 0
IsFull f = (f.free ≡ []) × (f.capacity ≢ 0)

-- What an allocation from `chain` and the release of the object come to, where the page of the
-- object goes back and `kern` is what is left of the area.
record Cleared (s : Kernel) (size : ℕ) (chain : List Fmtlist) (x : ℕ) (c' : List Fmtlist)
    (kern : VmKern) (has_pre : Bool) : Type 0 where
  pub run : alloc s chain size ≡ ok (x, s, c')
  pub same_length : length c' ≡ length chain
  pub own : (p : ℕ) → All (λ g. g.page ≢ p) chain → pg x ≢ p
  pub behind : List Fmtlist
  pub back :
      release_loop s has_pre c' x size
      ≡ ok (some (record { kernel = record s { kern = kern }; chain = behind; cleared = true }))

module _ (s : Kernel) (size : ℕ) (kern : VmKern) (g : Fmtlist) (high : kern_metadata ≤ g.page)
    (whole : length g.free ≡ g.capacity) (given : VmKern.release s.kern g.page ≡ ok kern) where
  -- The page itself, with its first object taken and given back
  own_page :
      (has_pre : Bool) (rest : List Fmtlist) (x : ℕ) (xs : List ℕ)
      → g.free ≡ x ∷ xs
      → g.type_size ≡ size
      → pg x ≡ g.page
      → Cleared s size (g ∷ rest) x (record g { free = xs } ∷ rest) kern has_pre
  unfolding alloc release_loop drop_page
  own_page has_pre rest x xs e t p = record {
    run = rw (e, alloc) refl;
    same_length = refl;
    own = λ q a h. a.0 (sym p ∙ h);
    behind = if has_pre then rest else record g { free = x ∷ xs } ∷ rest;
    back =
        let m : (size == g.type_size) ≡ true = rw t (==_refl size) in
        let m' : (g.page == pg x) ≡ true = rw p (==_refl g.page) in
        let c : (suc (length xs) == g.capacity) ≡ true =
          rw (← whole, e) (==_refl (suc (length xs))) in
        let k : leb kern_metadata g.page ≡ true = ground arith in rw (m, m', c, k, given) refl;
  }

full_page :
    (s : Kernel) (size : ℕ) (kern : VmKern) (has_pre : Bool) (f : Fmtlist) (rest : List Fmtlist)
    (x : ℕ) (c' : List Fmtlist)
    → IsFull f
    → f.type_size ≡ size
    → All (λ g. g.page ≢ f.page) rest
    → Cleared s size rest x c' kern true
    → Cleared s size (f ∷ rest) x (f ∷ c') kern has_pre
unfolding alloc release_loop
full_page s size kern has_pre f rest x c' (e, full) t others r = record {
  run =
      rw (e, alloc, ==_ne f.capacity 0 full, r.run)
        (ap (λ l. ok (x, s, record f { free = l } ∷ c')) e);
  same_length = ap suc r.same_length;
  own = λ q a. r.own q a.1;
  behind = f ∷ r.behind;
  back =
      let m : (size == f.type_size) ≡ true = rw t (==_refl size) in
      let n : (f.page == pg x) ≡ false = ==_ne f.page (pg x) (λ h. r.own f.page others (sym h)) in
      rw (m, n, r.back) refl;
}

module _ (s : Kernel) (size : ℕ) (kern : VmKern) (g : Fmtlist) (rest : List Fmtlist)
    (high : kern_metadata ≤ g.page) (whole : length g.free ≡ g.capacity)
    (some_free : 0 < g.capacity) (given : VmKern.release s.kern g.page ≡ ok kern) where
  first_free :
      (has_pre : Bool) (free : List ℕ)
      → g.free ≡ free
      → Chain size (g ∷ rest)
      → (x : ℕ) × (c' : List Fmtlist) × Cleared s size (g ∷ rest) x c' kern has_pre
  first_free has_pre [] e c =
      let none_free : length g.free ≡ 0 = ap length e in absurd (omega arith)
  first_free has_pre (x ∷ xs) e c =
      let a : All (λ y. pg y ≡ g.page) (x ∷ xs) = subst (λ l. All (λ y. pg y ≡ g.page) l) e c.1 in
      (x, _, own_page s size kern g high whole given has_pre rest x xs e c.0 a.0)

  cleared :
      (has_pre : Bool) (before : List Fmtlist)
      → All IsFull before
      → Chain size (before ++ g ∷ rest)
      → (x : ℕ) × (c' : List Fmtlist) × Cleared s size (before ++ g ∷ rest) x c' kern has_pre
  cleared has_pre [] a c = first_free has_pre g.free refl c
  cleared has_pre (f ∷ before) a c =
      let (x, c', r) = cleared true before a.1 c.3 in
      (x, f ∷ c', full_page s size kern has_pre f (before ++ g ∷ rest) x c' a.0 c.0 c.2 r)
