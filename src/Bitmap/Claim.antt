-- ===== src/Bitmap/Claim.antt =====
-- kern/utilities/bitmap.c: a search followed by `bitmap_set`, as every allocator of numbers does.
use hoo.Base.{
  ==_ne, ==_refl, ℕ_discrete, Bool, ◌∙◌, ◌+◌, ap, sym, ℕ, ◌<◌, ◌≡◌, true, false, ok, ◌==◌,
  if◌then◌else◌, arith,
}
use mathlib.Core.Path.{subst}
use native.Mathlib.Nat.{mod-lt}
use hoo.Bitmap
use hoo.Bitmap.{Bitmap, scan_empty}
use hoo.Bitmap.Invariant.{IsValid, bit, set-Updated}
use hoo.Bitmap.Scan.{Found, scan_empty-Found}

-- The number that was taken was free, and nothing else changed hands.
pub record Claimed (m : Bitmap) (i : ℕ) (m' : Bitmap) : Type 0 where
  pub valid : IsValid m'
  pub same_len : m'.len_inbits ≡ m.len_inbits
  pub inside : i < m.len_inbits
  pub was_free : bit m i ≡ false
  pub bits : (j : ℕ) → bit m' j ≡ (if i == j then true else bit m j)

-- A search that succeeds leaves a valid bitmap with the same members.
pub Found-IsValid : {m : Bitmap} {b : ℕ} {m' : Bitmap} → IsValid m → Found m b m' → IsValid m'
Found-IsValid {m} {b} v f =
    subst (λ t. IsValid t) (sym f.state)
      (record {
        bytes = v.bytes;
        room = v.room;
        small = v.small;
        next = mod-lt (b + 1) (omega (arith, v.next));
      })

pub claim-Claimed :
    {m : Bitmap}
    → IsValid m
    → (j : ℕ) → j < m.len_inbits
    → bit m j ≡ false
    → (i : ℕ) × (m₁ : Bitmap) × (m₂ : Bitmap) × (scan_empty m ≡ ok (i, m₁))
      × (Bitmap.set m₁ i ≡ ok m₂)
      × Claimed m i m₂
claim-Claimed {m} v j h free =
    let (i, m₁, run, found) = scan_empty-Found v j h free in
    let same_len : m₁.len_inbits ≡ m.len_inbits = ap (λ (t : Bitmap). t.len_inbits) found.state in
    let (m₂, stored, up) =
      set-Updated (Found-IsValid v found) i (omega (arith, found.inside, same_len)) in
    (
      i,
      m₁,
      m₂,
      run,
      stored,
      record {
        valid = up.valid;
        same_len = up.same_len ∙ same_len;
        inside = found.inside;
        was_free = found.is_clear;
        bits = λ k. up.bits k ∙ ap (λ t. if i == k then true else bit t k) found.state;
      },
    )

-- To take `i` and to give it back changes nothing.
pub restored :
    (i : ℕ) (f g h : ℕ → Bool)
    → f i ≡ false
    → ((j : ℕ) → g j ≡ (if i == j then true else f j))
    → ((j : ℕ) → h j ≡ (if i == j then false else g j))
    → (k : ℕ) → h k ≡ f k
restored i f g h free taken released k = elim (ℕ_discrete i k) [
  | yes e ↦ subst (λ t. h t ≡ f t) e (released i ∙ (rw (==_refl i) (sym free)))
  | no ne ↦ released k ∙ (rw (==_ne i k ne) (taken k ∙ (rw (==_ne i k ne))))
]
