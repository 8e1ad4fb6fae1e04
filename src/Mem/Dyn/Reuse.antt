-- ===== src/Mem/Dyn/Reuse.antt =====
-- kern/dyn/dynamic.c: an object of the heap that is allocated and freed again.
use hoo.Base.{
  ◌∙◌, ℕ, ◌<◌, ◌≤◌, ◌≡◌, ◌≢◌, Bool, true, false, List, [], ◌∷◌, ◌++◌, none, some, ok, arith, refl,
  length, All, ◌==◌, ==_ne, ==_refl, ap, sym, leb,
}
use mathlib.Core.Path.{subst}
use hoo.Mem.Page.{pg}
use hoo.Mem.Fmtlist
use hoo.Mem.Fmtlist.{Fmtlist, Kernel, Released, release_loop}
use hoo.Mem.Fmtlist.Reuse.{Chain, Serves, Reused, reuse}
use hoo.Mem.Dyn.{Heap, Bucket, alloc_in, alloc_loop, dyn_alloc, free_loop, dyn_free}

leb-fits : (a b : ℕ) → a ≤ b → leb a b ≡ true
leb-fits a b h = ground arith

leb-small : (a b : ℕ) → a < b → leb b a ≡ false
leb-small a b h = ground arith

-- An object of none of the pages
missed :
    (s : Kernel) (has_pre : Bool) (size x : ℕ) (chain : List Fmtlist)
    → All (λ f. f.type_size ≡ size) chain
    → All (λ f. pg x ≢ f.page) chain
    → release_loop s has_pre chain x size ≡ ok none
unfolding release_loop
missed s has_pre size x [] t a = refl
missed s has_pre size x (f ∷ rest) t a =
    let m : (size == f.type_size) ≡ true = rw t.0 (==_refl size) in
    let n : (f.page == pg x) ≡ false = ==_ne f.page (pg x) (λ h. a.0 (sym h)) in
    rw (m, n, missed s true size x rest t.1 a.1) refl

head_used_by :
    (f : Fmtlist) (fs : List Fmtlist) (free : List ℕ)
    → f.free ≡ free
    → Serves (record f { free = free } ∷ fs)
    → f.capacity ≢ length f.free
head_used_by f fs [] e served = rw e served.0
head_used_by f fs (x ∷ xs) e served = rw e (λ h. served (sym h))

-- A page that serves has an object in use.
head_used : (f : Fmtlist) (fs : List Fmtlist) → Serves (f ∷ fs) → f.capacity ≢ length f.free
head_used f fs served = head_used_by f fs f.free refl served

module _ (null : ℕ) (h : Heap) (size : ℕ) (b : Bucket) (after : List Bucket) where
  -- The managers before the one that serves: too small, and with other pages
  abbrev pub Before : List Bucket → Type 0
  Before [] = Unit
  Before (a ∷ more) =
      (a.size < size)
      × All (λ f. f.type_size ≡ a.size) a.chain
      × All (λ f. All (λ g. g.page ≢ f.page) b.chain) a.chain
      × Before more

  alloc_here :
      (x : ℕ) (c' chain : List Fmtlist)
      → b.chain ≡ chain
      → Serves b.chain
      → Reused h.kernel b.size b.chain x c'
      → alloc_in h b ≡ ok (x, h, record b { chain = c' })
  unfolding alloc_in
  alloc_here x c' [] e served r = absurd (subst Serves e served)
  alloc_here x c' (f ∷ fs) e served r =
      let run : Fmtlist.alloc h.kernel (f ∷ fs) b.size ≡ ok (x, h.kernel, c') =
        subst (λ l. Fmtlist.alloc h.kernel l b.size ≡ ok (x, h.kernel, c')) e r.run in
      rw (e, run) refl

  allocs :
      (before : List Bucket) (x : ℕ) (c' : List Fmtlist)
      → Before before
      → size ≤ b.size
      → alloc_in h b ≡ ok (x, h, record b { chain = c' })
      → alloc_loop h (before ++ b ∷ after) size
        ≡ ok (x, h, before ++ record b { chain = c' } ∷ after)
  unfolding alloc_loop
  allocs [] x c' p fits run =
      let m : leb size b.size ≡ true = leb-fits size b.size fits in rw (m, run) refl
  allocs (a ∷ more) x c' p fits run =
      let m : leb size a.size ≡ false = leb-small a.size size p.0 in
      rw (m, allocs more x c' p.3 fits run) refl

  freed_here :
      (x : ℕ) (c' chain : List Fmtlist)
      → b.chain ≡ chain
      → Serves b.chain
      → x ≢ null
      → Reused h.kernel b.size b.chain x c'
      → free_loop null h (record b { chain = c' } ∷ after) x ≡ ok (h, b ∷ after)
  unfolding free_loop Fmtlist.release
  freed_here x c' [] e served real r = absurd (subst Serves e served)
  freed_here x c' (f ∷ fs) e served real r =
      let used : f.capacity ≢ length f.free = head_used f fs (subst Serves e served) in
      rw (==_ne x null real, r.back false, e, ==_ne f.capacity (length f.free) used) refl

  away :
      (x : ℕ) (c' fs : List Fmtlist)
      → Reused h.kernel b.size b.chain x c'
      → All (λ f. All (λ g. g.page ≢ f.page) b.chain) fs
      → All (λ f. pg x ≢ f.page) fs
  away x c' [] r a = tt
  away x c' (f ∷ fs) r a = (r.own f.page a.0, away x c' fs r a.1)

  frees :
      (before : List Bucket) (x : ℕ) (c' : List Fmtlist)
      → Before before
      → Serves b.chain
      → x ≢ null
      → Reused h.kernel b.size b.chain x c'
      → free_loop null h (before ++ record b { chain = c' } ∷ after) x ≡ ok (h, before ++ b ∷ after)
  unfolding free_loop Fmtlist.release
  frees [] x c' p served real r = freed_here x c' b.chain refl served real r
  frees (a ∷ more) x c' p served real r =
      let miss : release_loop h.kernel false a.chain x a.size ≡ ok none =
        missed h.kernel false a.size x a.chain p.1 (away x c' a.chain r p.2) in
      rw (==_ne x null real, miss, frees more x c' p.3 served real r) refl

-- In a heap whose first manager that is large enough has a chain of pages in order, with a free
-- object and another in use in the page that serves, and with other pages in the chains before
-- it, dyn_alloc returns an object that dyn_free takes back, and the heap is then as it was.
pub dyn_free-dyn_alloc :
    (null : ℕ) (h : Heap) (size : ℕ) (b : Bucket) (before after : List Bucket)
    → h.buckets ≡ before ++ b ∷ after
    → 0 < size
    → size ≤ b.size
    → Before null h size b after before
    → All (λ f. f.page ≢ pg null) b.chain
    → Chain b.size b.chain
    → Serves b.chain
    → (x : ℕ) × (h' : Heap) × (dyn_alloc h size ≡ ok (some x, h')) × (dyn_free null h' x ≡ ok h)
unfolding dyn_alloc dyn_free
dyn_free-dyn_alloc null h size b before after all pos fits p apart chain served =
    let (x, c', r) = reuse h.kernel b.size b.chain chain served in
    let real : x ≢ null = λ e. r.own (pg null) apart (ap pg e) in
    let run : alloc_loop h h.buckets size ≡ ok (x, h, before ++ record b { chain = c' } ∷ after) =
      ap (λ l. alloc_loop h l size) all
      ∙ (allocs null h size b after before x c' p fits
          (alloc_here null h size b after x c' b.chain refl served r)) in
    let h' : Heap = record h { buckets = before ++ record b { chain = c' } ∷ after } in
    (
      x,
      record h { buckets = before ++ record b { chain = c' } ∷ after },
      rw (==_ne size 0 (omega arith), run) refl,
      rw (==_ne x null real, frees null h' size b after before x c' p served real r)
          (ap (λ l. ok (record h { buckets = l })) (sym all)),
    )
