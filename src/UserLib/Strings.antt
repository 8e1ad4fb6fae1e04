-- ===== src/UserLib/Strings.antt =====
-- user/lib.c: strings as objects with a 0 in them, and what `strcmp` decides.
use hoo.Base.{
  ◌⊎◌, ℕ, suc, ◌+◌, ◌≡◌, Bool, true, false, ◌&&◌, List, [], ◌∷◌, ◌++◌, ok, ◌==◌, if◌then◌else◌,
  length, length-append, get_or-append_at, Bool-cases, inl, inr, arith, refl, ap, ◌∙◌, ==_iff,
}
use mathlib.Core.List.{append_assoc}
use hoo.UserLib.{load, load-ok, strlen, strcmp, strcmp_loop}

-- The characters before the first 0
abbrev pub chars : List ℕ → List ℕ
chars [] = []
chars (c ∷ s) = if c == 0 then [] else c ∷ chars s

-- There is a 0.
abbrev pub Ends : List ℕ → Type 0
Ends [] = ⊥
Ends (c ∷ s) = (c ≡ 0) ⊎ Ends s

abbrev pub same : List ℕ → List ℕ → Bool
same [] [] = true
same [] (b ∷ t) = false
same (a ∷ s) [] = false
same (a ∷ s) (b ∷ t) = a == b && same s t

pub same-eq : (s t : List ℕ) → same s t ≡ true → s ≡ t
same-eq [] [] h = refl
same-eq [] (b ∷ t) h = cc
same-eq (a ∷ s) [] h = cc
same-eq (a ∷ s) (b ∷ t) h = ground (arith, same-eq s t)

pub same_refl : (s : List ℕ) → same s s ≡ true
same_refl [] = refl
same_refl (a ∷ s) = ground (arith, same_refl s)

behind-Ends : (c : ℕ) (s : List ℕ) → (c == 0) ≡ false → Ends (c ∷ s) → Ends s
behind-Ends c s nz (inl z) = ground arith
behind-Ends c s nz (inr e) = e

pub strlen-chars : (s : List ℕ) → Ends s → strlen s ≡ ok (length (chars s))
unfolding strlen
strlen-chars [] e = elim e [ ]
strlen-chars (c ∷ s) e = elim (Bool-cases (c == 0)) [
  | inl z ↦ rw z refl
  | inr nz ↦
      rw (nz, strlen-chars s (behind-Ends c s nz e))
        (let m : length (chars s) + 1 ≡ suc (length (chars s)) = omega arith in ap ok m)
]

-- What is behind the characters of a string
abbrev tail_of : List ℕ → List ℕ
tail_of [] = []
tail_of (c ∷ s) = if c == 0 then c ∷ s else tail_of s

chars-append : (s : List ℕ) → chars s ++ tail_of s ≡ s
chars-append [] = refl
chars-append (c ∷ s) = elim (Bool-cases (c == 0)) [
  | inl z ↦ rw z refl
  | inr nz ↦ rw nz (ap (λ t. c ∷ t) (chars-append s))
]

load_at : (p : List ℕ) (c : ℕ) (t : List ℕ) → load (p ++ c ∷ t) (length p) ≡ ok c
load_at p c t =
    load-ok (p ++ c ∷ t) (length p) (omega (arith, length-append p (c ∷ t)))
    ∙ ap ok (get_or-append_at p c t 0)

same_length : (s t : List ℕ) → (length s == length t) ≡ false → same s t ≡ false
same_length [] [] h = ground arith
same_length [] (b ∷ t) h = refl
same_length (a ∷ s) [] h = refl
same_length (a ∷ s) (b ∷ t) h = ground (arith, same_length s t)

strcmp_loop-same :
    (s t p q u v : List ℕ)
    → length p ≡ length q
    → length s ≡ length t
    → strcmp_loop (length s) (length p) (p ++ (s ++ u)) (q ++ (t ++ v)) ≡ ok (same s t)
unfolding strcmp_loop
strcmp_loop-same [] [] p q u v e l = refl
strcmp_loop-same [] (b ∷ t) p q u v e l = absurd (omega arith)
strcmp_loop-same (a ∷ s) [] p q u v e l = absurd (omega arith)
strcmp_loop-same (a ∷ s) (b ∷ t) p q u v e l =
    let la : load (p ++ a ∷ (s ++ u)) (length p) ≡ ok a = load_at p a (s ++ u) in
    let lb : load (q ++ b ∷ (t ++ v)) (length p) ≡ ok b =
      ap (load (q ++ b ∷ (t ++ v))) e ∙ load_at q b (t ++ v) in
    let rest =
      strcmp_loop-same s t (p ++ a ∷ []) (q ++ b ∷ []) u v
        (omega (arith, length-append p (a ∷ []), length-append q (b ∷ []))) (omega arith) in
    let n : length (p ++ a ∷ []) ≡ length p + 1 = omega (arith, length-append p (a ∷ [])) in
    let rest' : strcmp_loop (length s) (length p + 1) (p ++ a ∷ (s ++ u)) (q ++ b ∷ (t ++ v))
        ≡ ok (same s t) =
      rw (n, append_assoc p (a ∷ []) (s ++ u), append_assoc q (b ∷ []) (t ++ v)) at rest in
    elim (Bool-cases (a == b)) [ inl eq ↦ rw (la, lb, eq) rest' | inr ne ↦ rw (la, lb, ne) refl ]

-- On two objects with a 0 in them, strcmp returns whether their characters before the first 0 are
-- the same.
pub strcmp-same : (a b : List ℕ) → Ends a → Ends b → strcmp a b ≡ ok (same (chars a) (chars b))
unfolding strcmp
strcmp-same a b ea eb =
    rw (strlen-chars a ea, strlen-chars b eb)
      (elim (Bool-cases (length (chars a) == length (chars b))) [
        | inl eq ↦ rw eq (
            rw (chars-append a, chars-append b) at
              (strcmp_loop-same (chars a) (chars b) [] [] (tail_of a) (tail_of b) refl
                ((==_iff (length (chars a)) (length (chars b))).0 eq)))
        | inr ne ↦ rw (ne, same_length (chars a) (chars b) ne) refl
      ])
