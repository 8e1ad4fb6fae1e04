-- ===== src/Heap/Splice.antt =====
-- kern/utilities/node.h: one node put into a chain, and one taken out, by two writes of `next_`.
use hoo.Base.{
  refl, ◌<◌, get_elem?, ℕ, zero, suc, ◌≤◌, ◌≡◌, ◌≢◌, false, some, [], ◌∷◌, ◌==◌, arith, length,
}
use hoo.Heap.{Ptr, node, Heap, write}
use hoo.Heap.Chain.{
  remove_at, Cells, has, node_at, insert_at, Chain, Chain-write, head_of, Chain-head, has-insert_at,
  has-remove_at, Chain-out,
}

-- A node that the chain does not hold is no node of it.
pub node_at-ne :
    (k p q : ℕ) (xs : Cells) → (p == q) ≡ false → has p xs ≡ false → (node_at k q xs == p) ≡ false
node_at-ne zero p q xs ne out = ground arith
node_at-ne (suc k) p q [] ne out = ground arith
node_at-ne (suc k) p q ((r, v) ∷ xs) ne out = node_at-ne k p r xs (ground arith) (ground arith)

module _ (null : Ptr) where
  -- The heap after `n->next_ = f->next_; f->next_ = n`.
  abbrev pub spliced : Heap → Ptr → ℕ → Ptr → ℕ → Ptr → Heap
  spliced h n w f fu fq = write (write h n (node w fq)) f (node fu n)

  module _ (h : Heap) (n w : ℕ) (ne_null : n ≢ null) where
    insert_here :
        (p u : ℕ) (xs : Cells)
        → Chain null h p u xs
        → (n == p) ≡ false
        → has n xs ≡ false
        → Chain null (spliced h n w p u (head_of null xs)) p u ((n, w) ∷ xs)
    unfolding write
    insert_here p u [] c ne out = (ground arith, ne_null, ground arith, ground arith)
    insert_here p u ((q, v) ∷ xs) c ne out =
        let g = write h n (node w q) in
        (
          ground arith,
          ne_null,
          ground arith,
          (
            ground arith,
            c.1,
            ground arith,
            Chain-write null g p (node u n) q v xs
                (Chain-write null h n (node w q) q v xs c.3 (ground arith) (ground arith))
                (ground arith) (ground arith),
          ),
        )

    -- A node before the splice keeps its place.
    link_spliced :
        (f fu fq p u q v : ℕ) (ys : Cells)
        → h p ≡ some (node u q)
        → q ≢ null
        → (n == p) ≡ false
        → (f == p) ≡ false
        → has p ((q, v) ∷ ys) ≡ false
        → Chain null (spliced h n w f fu fq) q v ys
        → Chain null (spliced h n w f fu fq) p u ((q, v) ∷ ys)
    unfolding write
    link_spliced f fu fq p u q v ys at qn np fp out c = (ground arith, qn, out, c)

    -- Behind the `k`-th node, the new node stands at place `k`.
    pub Chain-insert :
        (k p u : ℕ) (xs : Cells)
        → Chain null h p u xs
        → k ≤ length xs
        → (n == p) ≡ false
        → has n xs ≡ false
        → (fu : ℕ) × (fq : Ptr) × (h (node_at k p xs) ≡ some (node fu fq))
          × Chain null (spliced h n w (node_at k p xs) fu fq) p u (insert_at k (n, w) xs)
    Chain-insert zero p u xs c le ne out =
        (u, head_of null xs, Chain-head null h p u xs c, insert_here p u xs c ne out)
    Chain-insert (suc k) p u [] c le ne out = absurd (omega arith)
    Chain-insert (suc k) p u ((q, v) ∷ xs) c le ne out =
        let (fu, fq, at, rest) =
          Chain-insert k q v xs c.3 (omega arith) (ground arith) (ground arith) in
        (
          fu,
          fq,
          at,
          link_spliced (node_at k q xs) fu fq p u q v (insert_at k (n, w) xs) c.0 c.1 (ground arith)
              (node_at-ne k p q xs (ground arith) (ground arith))
              (has-insert_at null p (suc k) (n, w) ((q, v) ∷ xs) (ground arith) c.2) rest,
        )

module _ (null : Ptr) (h : Heap) where
  -- The heap after `f->next_ = d->next_; d->next_ = null`.
  abbrev pub unlinked : Ptr → ℕ → Ptr → ℕ → Ptr → Heap
  unlinked f fu d du dq = write (write h f (node fu dq)) d (node du null)

  pub remove_here :
      (p u q v : ℕ) (xs : Cells)
      → Chain null h p u ((q, v) ∷ xs)
      → Chain null (unlinked p u q v (head_of null xs)) p u xs
  unfolding write
  remove_here p u q v [] c = ground arith
  remove_here p u q v ((r, w) ∷ xs) c =
      let g = write h p (node u r) in
      (
        ground arith,
        c.3.1,
        ground arith,
        Chain-write null g q (node v null) r w xs
            (Chain-write null h p (node u r) r w xs c.3.3 (ground arith) (ground arith))
            (ground arith) (ground arith),
      )

  -- What is known of the node at place `k` when it is out of the chain.
  pub record Removed (k p u : ℕ) (xs : Cells) (fu du dq : ℕ) : Type 0 where
    pub before : h (node_at k p xs) ≡ some (node fu (node_at (suc k) p xs))
    pub here : h (node_at (suc k) p xs) ≡ some (node du dq)
    pub cell : get_elem? xs k ≡ some (node_at (suc k) p xs, du)
    pub not_null : node_at (suc k) p xs ≢ null
    pub apart : (node_at (suc k) p xs == p) ≡ false
    pub gone : has (node_at (suc k) p xs) (remove_at k xs) ≡ false
    pub rest :
        Chain null (unlinked (node_at k p xs) fu (node_at (suc k) p xs) du dq) p u (remove_at k xs)

  Removed-step :
      (k p u q v : ℕ) (xs : Cells) (fu du dq : ℕ)
      → Chain null h p u ((q, v) ∷ xs)
      → Removed k q v xs fu du dq
      → Removed (suc k) p u ((q, v) ∷ xs) fu du dq
  unfolding write
  Removed-step k p u q v xs fu du dq c r =
      let fp : (node_at k q xs == p) ≡ false = node_at-ne k p q xs (ground arith) (ground arith) in
      let dp : (node_at (suc k) q xs == p) ≡ false =
        node_at-ne (suc k) p q xs (ground arith) (ground arith) in
      record {
        before = r.before;
        here = r.here;
        cell = r.cell;
        not_null = r.not_null;
        apart = dp;
        gone = ground (arith, r.apart, r.gone);
        rest = (ground (arith, c.0), c.1, has-remove_at p (suc k) ((q, v) ∷ xs) c.2, r.rest);
      }

  pub Chain-remove :
      (k p u : ℕ) (xs : Cells)
      → Chain null h p u xs
      → k < length xs
      → (fu : ℕ) × (du : ℕ) × (dq : ℕ) × Removed k p u xs fu du dq
  Chain-remove k p u [] c lt = absurd (omega arith)
  Chain-remove zero p u ((q, v) ∷ xs) c lt = (
    u,
    v,
    head_of null xs,
    record {
      before = c.0;
      here = Chain-head null h q v xs c.3;
      cell = refl;
      not_null = c.1;
      apart = ground arith;
      gone = Chain-out null h q v xs c.3;
      rest = remove_here p u q v xs c;
    },
  )
  Chain-remove (suc k) p u ((q, v) ∷ xs) c lt =
      let (fu, du, dq, r) = Chain-remove k q v xs c.3 (omega arith) in
      (fu, du, dq, Removed-step k p u q v xs fu du dq c r)
