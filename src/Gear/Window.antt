-- ===== src/Gear/Window.antt =====
-- rabin/gear.c: the bits that `gear_slide` keeps of a hash.
use native.Mathlib.Nat.{mul-add-mod_self_left, mod-add-mod, div-add-mod, mod-eq_of_lt}
use im_dedup_plus.Prelude.{
  ℕ, zero, suc, ◌+◌, ◌*◌, ◌/◌, ◌%◌, ◌^◌, ◌≤◌, ◌<◌, ◌≡◌, refl, sym, ap, subst, ◌∙◌, arith, u64,
  ◌<<<◌, twice_pow,
}
use im_dedup_plus.Prelude.{Option, none, some, ◌>>=◌, length, get_elem?, List, [], ◌∷◌}
use im_dedup_plus.Gear.{gear_table, gear_slide, gear_slides}

-- A shift moves the low bits up, and what is above them stays above them.
shifted : (j x g : ℕ) → (x * 2 + g) % 2 ^ suc j ≡ (x % 2 ^ j * 2 + g) % 2 ^ suc j
shifted j x g =
    let split : x * 2 + g ≡ 2 ^ suc j * (x / 2 ^ j) + (x % 2 ^ j * 2 + g) =
      omega (arith, div-add-mod x (2 ^ j), ap (λ (t : ℕ). t * (x / 2 ^ j)) (twice_pow j)) in
    ap (λ (t : ℕ). t % 2 ^ suc j) split
    ∙ mul-add-mod_self_left (2 ^ suc j) (x / 2 ^ j) (x % 2 ^ j * 2 + g)

pow-plus : (j k : ℕ) → 2 ^ (j + k) ≡ 2 ^ j * 2 ^ k
pow-plus zero k = omega (arith, base)
  where
    base : 2 ^ (0 + k) ≡ 2 ^ k
    base = ap (λ (n : ℕ). 2 ^ n) (omega arith)
pow-plus (suc j) k =
    omega
      (arith, pow-plus j k, twice_pow (j + k), ap (λ (t : ℕ). t * 2 ^ k) (twice_pow j), suc_plus)
  where
    suc_plus : 2 ^ (suc j + k) ≡ 2 ^ suc (j + k)
    suc_plus = ap (λ (n : ℕ). 2 ^ n) (omega arith)

-- A number of at most 64 bits has the low bits of the number it is cut from.
u64-low : (j k y : ℕ) → j + k ≡ 64 → u64 y % 2 ^ j ≡ y % 2 ^ j
u64-low j k y e =
    let width : 2 ^ 64 ≡ 2 ^ j * 2 ^ k = ap (λ (n : ℕ). 2 ^ n) (sym e) ∙ pow-plus j k in
    let split : y ≡ 2 ^ j * (2 ^ k * (y / 2 ^ 64)) + u64 y =
      omega (arith, div-add-mod y (2 ^ 64), ap (λ (t : ℕ). t * (y / 2 ^ 64)) width) in
    sym (
      ap (λ (t : ℕ). t % 2 ^ j) split
      ∙ mul-add-mod_self_left (2 ^ j) (2 ^ k * (y / 2 ^ 64)) (u64 y))

-- The hash behind a byte.
abbrev slid : ℕ → ℕ → ℕ
slid h g = u64 (u64 (h <<< 1) + g)

slid-low : (j k h g : ℕ) → suc j + k ≡ 64 → slid h g % 2 ^ suc j ≡ (h % 2 ^ j * 2 + g) % 2 ^ suc j
slid-low j k h g e =
    u64-low (suc j) k (u64 (h <<< 1) + g) e
    ∙ sym (mod-add-mod (u64 (h <<< 1)) (2 ^ suc j) g)
    ∙ ap (λ (t : ℕ). (t + g) % 2 ^ suc j) (u64-low (suc j) k (h <<< 1) e)
    ∙ mod-add-mod (h <<< 1) (2 ^ suc j) g
    ∙ shifted j h g

-- The hashes behind a byte, where it has an entry in the table.
next :
    (h h' : ℕ) (bs : List ℕ) (entry : Option ℕ)
    → ((g : ℕ) → gear_slides (slid h g) bs ≡ gear_slides (slid h' g) bs)
    → ((entry >>= λ g. some (slid h g)) >>= λ x. gear_slides x bs)
      ≡ ((entry >>= λ g. some (slid h' g)) >>= λ x. gear_slides x bs)
next h h' bs none same = refl
next h h' bs (some g) same = same g

-- Two hashes that agree in their low bits agree in one bit more behind every byte.
slides_agree :
    (k j h h' : ℕ) (bs : List ℕ)
    → j + k ≡ 64
    → h < 2 ^ 64
    → h' < 2 ^ 64
    → h % 2 ^ j ≡ h' % 2 ^ j
    → k ≤ length bs
    → gear_slides h bs ≡ gear_slides h' bs
unfolding gear_slides gear_slide
slides_agree zero j h h' bs full small small' agree long =
    let whole : j ≡ 64 = omega (arith, full) in
    ap (λ (x : ℕ). gear_slides x bs)
      (sym (mod-eq_of_lt small)
        ∙ subst (λ (n : ℕ). h % 2 ^ n ≡ h' % 2 ^ n) whole agree
        ∙ mod-eq_of_lt small')
slides_agree (suc k) j h h' [] full small small' agree long = absurd (omega (arith, long))
slides_agree (suc k) j h h' (b ∷ bs) full small small' agree long =
    next h h' bs (get_elem? gear_table b) (λ g.
      slides_agree k (suc j) (slid h g) (slid h' g) bs (omega (arith, full)) (omega arith)
        (omega arith)
        (slid-low j k h g (omega (arith, full))
          ∙ ap (λ (t : ℕ). (t * 2 + g) % 2 ^ suc j) agree
          ∙ sym (slid-low j k h' g (omega (arith, full))))
        (omega (arith, long)))

-- Behind at least 64 bytes, the hash does not depend on the number below 2^64 it started from.
pub gear_slides-window :
    (h h' : ℕ) (bs : List ℕ)
    → h < 2 ^ 64
    → h' < 2 ^ 64
    → 64 ≤ length bs
    → gear_slides h bs ≡ gear_slides h' bs
gear_slides-window h h' bs small small' long =
    slides_agree 64 0 h h' bs refl small small' (omega arith) long
