-- ===== src/Rejpeg/Rle/Used.antt =====
-- rejpeg.c: what the search for the last coefficient that is not zero finds.
use im_dedup_plus.Prelude.{ℕ, zero, suc, ◌-◌, ◌≤◌, ◌<◌, ◌≡◌, ◌≢◌, refl, ap, ap₂, sym, arith}
use im_dedup_plus.Prelude.{length, get_or, take, replicate, List, [], ◌∷◌, ◌++◌}
use native.Mathlib.Nat.{sub-zero, suc-sub-suc, zero-sub}
use im_dedup_plus.Rejpeg.Rle.{last_used}

-- The last coefficient of the list is used.
abbrev pub EndsUsed : List ℕ → Type 0
EndsUsed [] = Unit
EndsUsed (v ∷ []) = v ≢ 0
EndsUsed (v ∷ w ∷ vs) = EndsUsed (w ∷ vs)

pub last_used-le : (n : ℕ) (ptr : List ℕ) → last_used n ptr ≤ n
unfolding last_used
last_used-le zero ptr = omega arith
last_used-le (suc n) ptr = ground (arith, last_used-le n ptr)

pub zero_above : (n : ℕ) (ptr : List ℕ) (i : ℕ) → last_used n ptr ≤ i → i < n → get_or ptr i 0 ≡ 0
unfolding last_used
zero_above zero ptr i h lt = absurd (omega arith)
zero_above (suc n) ptr i h lt = ground (arith, zero_above n ptr i)

pub used_below : (n : ℕ) (ptr : List ℕ) (k : ℕ) → last_used n ptr ≡ suc k → get_or ptr k 0 ≢ 0
unfolding last_used
used_below zero ptr k e = absurd (omega arith)
used_below (suc n) ptr k e = ground (arith, used_below n ptr k)

pub EndsUsed-take :
    (ptr : List ℕ) (k : ℕ) → k < length ptr → get_or ptr k 0 ≢ 0 → EndsUsed (take (suc k) ptr)
EndsUsed-take [] k h ne = tt
EndsUsed-take (x ∷ xs) zero h ne = ne
EndsUsed-take (x ∷ []) (suc k) h ne = absurd (omega arith)
EndsUsed-take (x ∷ y ∷ ys) (suc k) h ne = EndsUsed-take (y ∷ ys) k (omega arith) ne

all_zero :
    (xs : List ℕ) → ((i : ℕ) → i < length xs → get_or xs i 0 ≡ 0) → replicate (length xs) 0 ≡ xs
all_zero [] z = refl
all_zero (x ∷ xs) z =
    ap₂ ◌∷◌ (sym (z 0 (omega arith))) (all_zero xs (λ i h. z (suc i) (omega arith)))

-- Behind the last used coefficient stand zeros only.
pub zero_tail :
    (ptr : List ℕ) (h : ℕ)
    → ((i : ℕ) → h ≤ i → i < length ptr → get_or ptr i 0 ≡ 0)
    → take h ptr ++ replicate (length ptr - h) 0 ≡ ptr
zero_tail ptr zero z = rw sub-zero (all_zero ptr (λ i h. z i (omega arith) h))
zero_tail [] (suc h) z = rw (zero-sub (suc h)) refl
zero_tail (x ∷ xs) (suc h) z =
    rw suc-sub-suc
      (ap (λ (t : List ℕ). x ∷ t) (zero_tail xs h (λ i p q. z (suc i) (omega arith) (omega arith))))
