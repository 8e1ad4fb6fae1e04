-- ===== src/Mem/Fmtlist/Reuse.antt =====
-- kern/mem/format_list.c: an object that is allocated and released again.
use hoo.Base.{
  ℕ, suc, ◌≡◌, ◌≢◌, Bool, true, false, List, [], ◌∷◌, some, ok, refl, length, All, ◌==◌, ==_ne,
  ==_refl, ap, sym, ◌∙◌,
}
use mathlib.Core.Path.{subst}
use hoo.Mem.Page.{pg}
use hoo.Mem.Fmtlist.{Fmtlist, Kernel, alloc, release_loop, release}

-- The pages of a chain hold objects of one size, the free ones in their own page, and differ.
abbrev pub Chain : ℕ → List Fmtlist → Type 0
Chain size [] = Unit
Chain size (f ∷ rest) =
    (f.type_size ≡ size)
    × All (λ x. pg x ≡ f.page) f.free
    × All (λ g. g.page ≢ f.page) rest
    × Chain size rest

-- A page has a free object, and the first such page has one in use as well.
abbrev pub Serves : List Fmtlist → Type 0
Serves [] = ⊥
Serves (f ∷ rest) = elim f.free [
  | [] ↦ (f.capacity ≢ 0) × Serves rest
  | x ∷ xs ↦ suc (length xs) ≢ f.capacity
]

-- What an allocation from `chain` and the release of the object come to
pub record Reused (s : Kernel) (size : ℕ) (chain : List Fmtlist) (x : ℕ) (c' : List Fmtlist)
    : Type 0 where
  pub run : alloc s chain size ≡ ok (x, s, c')
  pub own : (p : ℕ) → All (λ g. g.page ≢ p) chain → pg x ≢ p
  pub back :
      (has_pre : Bool)
      → release_loop s has_pre c' x size
        ≡ ok (some (record { kernel = s; chain = chain; cleared = false }))

serve :
    (s : Kernel) (size : ℕ) (f : Fmtlist) (rest : List Fmtlist) (x : ℕ) (xs : List ℕ)
    → f.free ≡ x ∷ xs
    → f.type_size ≡ size
    → pg x ≡ f.page
    → suc (length xs) ≢ f.capacity
    → Reused s size (f ∷ rest) x (record f { free = xs } ∷ rest)
unfolding alloc release_loop
serve s size f rest x xs e t p partial = record {
  run = rw (e, alloc) refl;
  own = λ q a h. a.0 (sym p ∙ h);
  back = λ has_pre.
      let m : (size == f.type_size) ≡ true = rw t (==_refl size) in
      let m' : (f.page == pg x) ≡ true = rw p (==_refl f.page) in
      rw (m, m', ==_ne (suc (length xs)) f.capacity partial)
        (ap
          (λ l.
            ok
              (some (record { kernel = s; chain = record f { free = l } ∷ rest; cleared = false })))
          (sym e));
}

pass :
    (s : Kernel) (size : ℕ) (f : Fmtlist) (rest : List Fmtlist) (x : ℕ) (c' : List Fmtlist)
    → f.free ≡ []
    → f.capacity ≢ 0
    → f.type_size ≡ size
    → All (λ g. g.page ≢ f.page) rest
    → Reused s size rest x c'
    → Reused s size (f ∷ rest) x (f ∷ c')
unfolding alloc release_loop
pass s size f rest x c' e full t others r = record {
  run =
      rw (e, alloc, ==_ne f.capacity 0 full, r.run)
        (ap (λ l. ok (x, s, record f { free = l } ∷ c')) e);
  own = λ q a. r.own q a.1;
  back = λ has_pre.
      let m : (size == f.type_size) ≡ true = rw t (==_refl size) in
      let ne : pg x ≢ f.page = r.own f.page others in
      let n : (f.page == pg x) ≡ false = ==_ne f.page (pg x) (λ h. ne (sym h)) in
      rw (m, n, r.back true) refl;
}

serves :
    (f : Fmtlist) (rest : List Fmtlist) (free : List ℕ)
    → f.free ≡ free
    → Serves (f ∷ rest)
    → Serves (record f { free = free } ∷ rest)
serves f rest free e h = subst (λ l. Serves (record f { free = l } ∷ rest)) e h

reuse_by :
    (s : Kernel) (size : ℕ) (f : Fmtlist) (rest : List Fmtlist) (free : List ℕ)
    → f.free ≡ free
    → Chain size (f ∷ rest)
    → Serves (f ∷ rest)
    → (Serves rest → (x : ℕ) × (c' : List Fmtlist) × Reused s size rest x c')
    → ((x : ℕ) × (c' : List Fmtlist) × Reused s size (f ∷ rest) x c')
reuse_by s size f rest [] e c h later =
    let (full, h') = serves f rest [] e h in
    let (x, c', r) = later h' in (x, f ∷ c', pass s size f rest x c' e full c.0 c.2 r)
reuse_by s size f rest (x ∷ xs) e c h later =
    let a : All (λ y. pg y ≡ f.page) (x ∷ xs) = subst (λ l. All (λ y. pg y ≡ f.page) l) e c.1 in
    (
      x,
      record f { free = xs } ∷ rest,
      serve s size f rest x xs e c.0 a.0 (serves f rest (x ∷ xs) e h),
    )

pub reuse :
    (s : Kernel) (size : ℕ) (chain : List Fmtlist)
    → Chain size chain
    → Serves chain
    → (x : ℕ) × (c' : List Fmtlist) × Reused s size chain x c'
reuse s size [] c h = absurd h
reuse s size (f ∷ rest) c h =
    reuse_by s size f rest f.free refl c h (λ h'. reuse s size rest c.3 h')

-- The object goes back to the page that it came from, and the chain is as it was.
pub release-alloc :
    (null : ℕ) (s : Kernel) (size : ℕ) (chain : List Fmtlist)
    → All (λ f. f.page ≢ pg null) chain
    → Chain size chain
    → Serves chain
    → (x : ℕ) × (c' : List Fmtlist) × (alloc s chain size ≡ ok (x, s, c'))
      × (release null s c' x size ≡ ok (true, s, chain))
unfolding release
release-alloc null s size chain apart c h =
    let (x, c', r) = reuse s size chain c h in
    let real : x ≢ null = λ e. r.own (pg null) apart (ap pg e) in
    (x, c', r.run, rw (==_ne x null real, r.back false) refl)
