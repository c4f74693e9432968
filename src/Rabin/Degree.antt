-- ===== src/Rabin/Degree.antt =====
-- rabin/rabin.c: the degree of a polynomial, and the rounds of `mod`.
use Prim.Native.Nat.{min}
use native.Mathlib.Nat.{one-le-pow}
use im_dedup_plus.Prelude.{
  ℕ, zero, suc, ◌+◌, ◌*◌, ◌/◌, ◌%◌, ◌^◌, ◌≤◌, ◌<◌, ◌≡◌, ◌⊎◌, inl, inr, refl, ap, ◌∙◌, arith,
  bit_and, bit_xor, and_digit, xor_digit, differ-le, twice_pow,
}
use im_dedup_plus.Prelude.{true, false, ◌==◌, if◌then◌else◌, none, some}
use native.Mathlib.Decide.{dec_lt}
use im_dedup_plus.Rabin.{deg_from}

and_below : (n p : ℕ) → p < 2 ^ n → bit_and (2 ^ n) p ≡ 0
and_below zero zero h = refl
and_below zero (suc p) h = absurd (omega arith)
and_below (suc n) p h =
    let half : 2 ^ suc n / 2 ≡ 2 ^ n = omega (arith, twice_pow n) in
    let last : 2 ^ suc n % 2 ≡ 0 = omega (arith, twice_pow n) in
    omega (
      arith,
      and_digit (2 ^ suc n) p
          ∙ ap (λ (t : ℕ). bit_and t (p / 2) * 2 + min (2 ^ suc n % 2) (p % 2)) half,
      last,
      and_below n (p / 2) (omega (arith, twice_pow n)),
    )

and_top : (n p : ℕ) → 2 ^ n ≤ p → p < 2 ^ suc n → bit_and (2 ^ n) p ≡ 2 ^ n
and_top zero p h k = let one : p ≡ 1 = omega arith in rw one refl
and_top (suc n) p h k =
    let half : 2 ^ suc n / 2 ≡ 2 ^ n = omega (arith, twice_pow n) in
    let last : 2 ^ suc n % 2 ≡ 0 = omega (arith, twice_pow n) in
    omega (
      arith,
      and_digit (2 ^ suc n) p
          ∙ ap (λ (t : ℕ). bit_and t (p / 2) * 2 + min (2 ^ suc n % 2) (p % 2)) half,
      last,
      twice_pow n,
      and_top n (p / 2) (omega (arith, twice_pow n)) (omega (arith, twice_pow (suc n))),
    )

pub xor_top :
    (n a b : ℕ) → 2 ^ n ≤ a → a < 2 ^ suc n → 2 ^ n ≤ b → b < 2 ^ suc n → bit_xor a b < 2 ^ n
xor_top zero a b p q r s =
    let one : a ≡ 1 = omega arith in let one' : b ≡ 1 = omega arith in rw (one, one') (omega arith)
xor_top (suc n) a b p q r s = omega (
  arith,
  xor_digit a b,
  differ-le a b,
  xor_top n (a / 2) (b / 2) (omega (arith, twice_pow n)) (omega (arith, twice_pow (suc n)))
      (omega (arith, twice_pow n)) (omega (arith, twice_pow (suc n))),
  twice_pow n,
)

-- Where a number is below a power of two, it is 0 or it has a degree, which its highest bit says.
abbrev pub IsDegree : ℕ → ℕ → Type 0
IsDegree p d = (2 ^ d ≤ p) × (p < 2 ^ suc d)

pub deg_from-IsDegree :
    (n p : ℕ)
    → p < 2 ^ n
    → ((p ≡ 0) × (deg_from n p ≡ none))
      ⊎ ((d : ℕ) × (d < n) × (deg_from n p ≡ some d) × IsDegree p d)
unfolding deg_from
deg_from-IsDegree zero p h = inl (omega arith, refl)
deg_from-IsDegree (suc n) p h = elim (dec_lt p (2 ^ n)) [
  | yes below ↦
      let skipped : (bit_and (2 ^ n) p == 0) ≡ true = ground (arith, and_below n p below) in
      elim (deg_from-IsDegree n p below) [
        | inl (z, e) ↦ inl (z, rw (deg_from, skipped, if◌then◌else◌) e)
        | inr (d, lt, e, is) ↦
            inr (d, omega (arith, lt), rw (deg_from, skipped, if◌then◌else◌) e, is)
      ]
  | no above ↦
      let found : (bit_and (2 ^ n) p == 0) ≡ false =
        ground (arith, and_top n p (omega (arith, above)) h, one-le-pow n 2 (omega arith)) in
      inr (n, omega arith, rw (deg_from, found, if◌then◌else◌) refl, (omega (arith, above), h))
]
