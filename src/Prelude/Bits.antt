-- ===== src/Prelude/Bits.antt =====
-- `|` of disjoint fields, `^` with a mask of ones and `&` with such a mask, as arithmetic.
use Prim.Native.Nat.{ℕ, zero, suc, ◌+◌, ◌-◌, ◌*◌, ◌/◌, ◌%◌, ◌^◌, ◌≤◌, ◌<◌, min, max}
use Prim.Native.Nat.{bit_and, bit_or, bit_xor, digits, bitwise, differ}
use Prim.Native.Nat.{bit_and-bitwise, bit_or-bitwise, bit_xor-bitwise}
use mathlib.Core.Path.{◌≡◌, refl, ap, ap₂, ◌∙◌}
use mathlib.Core.Logic.{◌⊎◌, inl, inr}
use native.Mathlib.Omega.{arith}
use native.Mathlib.Nat.{pow-suc, one-le-pow}

-- One binary digit of an operation: `z` is what a zero first operand gives, `f` the digit.
module _ (z : ℕ → ℕ) (f : ℕ → ℕ → ℕ) where
  -- Two counts of digits that are both enough give the same result.
  enough_digits : (n m a b : ℕ) → a ≤ n → a ≤ m → digits z f n a b ≡ digits z f m a b
  enough_digits zero zero a b h k = refl
  enough_digits zero (suc m) zero b h k = refl
  enough_digits (suc n) zero zero b h k = refl
  enough_digits (suc n) (suc m) zero b h k = refl
  enough_digits zero (suc m) (suc a) b h k = absurd (omega arith)
  enough_digits (suc n) zero (suc a) b h k = absurd (omega arith)
  enough_digits (suc n) (suc m) (suc a) b h k =
      ap (λ (t : ℕ). t * 2 + f (suc a % 2) (b % 2))
        (enough_digits n m (suc a / 2) (b / 2) (omega arith) (omega arith))

  bitwise_digit :
      ((b : ℕ) → z b ≡ z (b / 2) * 2 + f 0 (b % 2))
      → (a b : ℕ) → bitwise z f a b ≡ bitwise z f (a / 2) (b / 2) * 2 + f (a % 2) (b % 2)
  bitwise_digit zeros zero b = zeros b
  bitwise_digit zeros (suc a) b =
      ap (λ (t : ℕ). t * 2 + f (suc a % 2) (b % 2))
        (enough_digits a (suc a / 2) (suc a / 2) (b / 2) (omega arith) (omega arith))

or_digit : (a b : ℕ) → bit_or a b ≡ bit_or (a / 2) (b / 2) * 2 + max (a % 2) (b % 2)
or_digit a b = simp (bit_or-bitwise) (bitwise_digit (λ b. b) max (λ b. omega arith) a b)

pub and_digit : (a b : ℕ) → bit_and a b ≡ bit_and (a / 2) (b / 2) * 2 + min (a % 2) (b % 2)
and_digit a b = simp (bit_and-bitwise) (bitwise_digit (λ b. 0) min (λ b. omega arith) a b)

pub xor_digit : (a b : ℕ) → bit_xor a b ≡ bit_xor (a / 2) (b / 2) * 2 + differ (a % 2) (b % 2)
xor_digit a b = simp (bit_xor-bitwise) (bitwise_digit (λ b. b) differ (λ b. omega arith) a b)

or-zero_below : (n a : ℕ) → a ≤ n → bit_or a 0 ≡ a
or-zero_below zero zero h = refl
or-zero_below zero (suc a) h = absurd (omega arith)
or-zero_below (suc n) a h = elim (ℕ_cases a) [
  | inl e ↦ rw e refl
  | inr p ↦ omega (arith, or_digit a 0, or-zero_below n (a / 2) (omega arith))
]
  where
    ℕ_cases : (a : ℕ) → (a ≡ 0) ⊎ (0 < a)
    ℕ_cases zero = inl refl
    ℕ_cases (suc a) = inr (omega arith)

and-zero_below : (n a : ℕ) → a ≤ n → bit_and a 0 ≡ 0
and-zero_below n zero h = refl
and-zero_below zero (suc a) h = absurd (omega arith)
and-zero_below (suc n) (suc a) h =
    omega (arith, and_digit (suc a) 0, and-zero_below n (suc a / 2) (omega arith))

pub twice_pow : (k : ℕ) → 2 ^ suc k ≡ 2 * 2 ^ k
twice_pow k = omega (arith, pow-suc 2 k)

shift_suc : (k q : ℕ) → q * 2 ^ suc k ≡ 2 * (q * 2 ^ k)
shift_suc k q = omega (arith, ap (λ (t : ℕ). q * t) (twice_pow k))

-- A field of `k` bits below another field: `|` is the sum.
pub or_fields : (k q r : ℕ) → r < 2 ^ k → bit_or (q * 2 ^ k) r ≡ q * 2 ^ k + r
or_fields zero q r h =
    let none_left : r ≡ 0 = omega arith in
    rw none_left (omega (arith, or-zero_below (q * 1) (q * 1) (omega arith)))
or_fields (suc k) q r h =
    let inner = or_fields k q (r / 2) (omega (arith, twice_pow k)) in
    omega (
      arith,
      or_digit (q * 2 ^ suc k) r ∙ halve (q * 2 ^ suc k) (q * 2 ^ k) r (shift_suc k q),
      inner,
      shift_suc k q,
    )
  where
    halve :
        (n m r : ℕ)
        → n ≡ 2 * m
        → bit_or (n / 2) (r / 2) * 2 + max (n % 2) (r % 2) ≡ bit_or m (r / 2) * 2 + r % 2
    halve n m r e = rw e (let half : 2 * m / 2 ≡ m = omega arith in rw half (omega arith))

-- `^` with `k` ones takes the complement in `k` bits.
pub xor_ones : (k x : ℕ) → x < 2 ^ k → bit_xor x (2 ^ k - 1) ≡ 2 ^ k - 1 - x
xor_ones zero x h = let none_left : x ≡ 0 = omega arith in rw none_left refl
xor_ones (suc k) x h =
    let half : (2 ^ suc k - 1) / 2 ≡ 2 ^ k - 1 = omega (arith, twice_pow k, one-le-pow k 2) in
    let inner = xor_ones k (x / 2) (omega (arith, twice_pow k)) in
    let last : (2 ^ suc k - 1) % 2 ≡ 1 = omega (arith, twice_pow k, one-le-pow k 2) in
    omega (
      arith,
      xor_digit x (2 ^ suc k - 1)
          ∙ ap₂ (λ (t u : ℕ). bit_xor (x / 2) t * 2 + differ (x % 2) u) half last,
      inner,
      differ_one x,
      twice_pow k,
    )
  where
    flip : (d : ℕ) → d < 2 → differ d 1 ≡ 1 - d
    flip zero h = refl
    flip (suc zero) h = refl
    flip (suc (suc d)) h = absurd (omega arith)

    differ_one : (x : ℕ) → differ (x % 2) 1 ≡ 1 - x % 2
    differ_one x = flip (x % 2) (omega arith)

and_fields : (k q r : ℕ) → r < 2 ^ k → bit_and (q * 2 ^ k + r) (2 ^ k - 1) ≡ r
and_fields zero q r h = omega (arith, and-zero_below (q * 1 + r) (q * 1 + r) (omega arith))
and_fields (suc k) q r h =
    let half : (2 ^ suc k - 1) / 2 ≡ 2 ^ k - 1 = omega (arith, twice_pow k, one-le-pow k 2) in
    let last : (2 ^ suc k - 1) % 2 ≡ 1 = omega (arith, twice_pow k, one-le-pow k 2) in
    let low : (q * 2 ^ suc k + r) / 2 ≡ q * 2 ^ k + r / 2 = omega (arith, shift_suc k q) in
    let inner = and_fields k q (r / 2) (omega (arith, twice_pow k)) in
    omega (
      arith,
      and_digit (q * 2 ^ suc k + r) (2 ^ suc k - 1)
          ∙ ap₃ (λ (t u v : ℕ). bit_and t u * 2 + min ((q * 2 ^ suc k + r) % 2) v) low half last,
      inner,
      shift_suc k q,
    )
  where
    ap₃ : (f : ℕ → ℕ → ℕ → ℕ) {a a' b b' c c' : ℕ} → a ≡ a' → b ≡ b' → c ≡ c' → f a b c ≡ f a' b' c'
    ap₃ f p q r = λ i. f (p i) (q i) (r i)

-- `&` with `k` ones is the remainder.
pub and_ones : (k x : ℕ) → bit_and x (2 ^ k - 1) ≡ x % 2 ^ k
and_ones k x =
    let split : x ≡ x / 2 ^ k * 2 ^ k + x % 2 ^ k = omega arith in
    ap (λ (t : ℕ). bit_and t (2 ^ k - 1)) split
    ∙ and_fields k (x / 2 ^ k) (x % 2 ^ k) (omega (arith, one-le-pow k 2))

pub zero-or : (x : ℕ) → bit_or 0 x ≡ x
zero-or x = bit_or-bitwise 0 x

or_comm_below : (n a b : ℕ) → a ≤ n → bit_or a b ≡ bit_or b a
or_comm_below n zero b h = omega (arith, bit_or-bitwise 0 b, or-zero_below b b (omega arith))
or_comm_below zero (suc a) b h = absurd (omega arith)
or_comm_below (suc n) (suc a) b h = omega (
  arith,
  or_digit (suc a) b,
  or_digit b (suc a),
  or_comm_below n (suc a / 2) (b / 2) (omega arith),
)

pub or_comm : (a b : ℕ) → bit_or a b ≡ bit_or b a
or_comm a b = or_comm_below a a b (omega arith)

pub differ-le : (x y : ℕ) → differ (x % 2) (y % 2) ≤ 1
differ-le x y = digits_differ (x % 2) (y % 2) (omega arith) (omega arith)
  where
    digits_differ : (a b : ℕ) → a < 2 → b < 2 → differ a b ≤ 1
    digits_differ zero zero h k = omega arith
    digits_differ zero (suc zero) h k = omega arith
    digits_differ (suc zero) zero h k = omega arith
    digits_differ (suc zero) (suc zero) h k = omega arith
    digits_differ zero (suc (suc b)) h k = absurd (omega arith)
    digits_differ (suc zero) (suc (suc b)) h k = absurd (omega arith)
    digits_differ (suc (suc a)) b h k = absurd (omega arith)

-- `^` stays below a power of two that both are below.
pub xor_below : (k a b : ℕ) → a < 2 ^ k → b < 2 ^ k → bit_xor a b < 2 ^ k
xor_below zero a b p q =
    let none_a : a ≡ 0 = omega arith in
    let none_b : b ≡ 0 = omega arith in rw (none_a, none_b) (omega arith)
xor_below (suc k) a b p q = omega (
  arith,
  xor_digit a b,
  differ-le a b,
  twice_pow k,
  xor_below k (a / 2) (b / 2) (omega (arith, twice_pow k)) (omega (arith, twice_pow k)),
)

xor_self_below : (n a : ℕ) → a ≤ n → bit_xor a a ≡ 0
xor_self_below n zero h = refl
xor_self_below zero (suc a) h = absurd (omega arith)
xor_self_below (suc n) (suc a) h = omega (
  arith,
  xor_digit (suc a) (suc a),
  xor_self_below n (suc a / 2) (omega arith),
  differ_self (suc a % 2) (omega arith),
)
  where
    differ_self : (d : ℕ) → d < 2 → differ d d ≡ 0
    differ_self zero k = refl
    differ_self (suc zero) k = refl
    differ_self (suc (suc d)) k = absurd (omega arith)

-- `^` of two numbers that differ only below a power of two.
pub xor_same_top :
    (k q s r : ℕ) → s < 2 ^ k → r < 2 ^ k → bit_xor (q * 2 ^ k + s) (q * 2 ^ k + r) < 2 ^ k
xor_same_top zero q s r h l =
    let none_s : s ≡ 0 = omega arith in
    let none_r : r ≡ 0 = omega arith in
    rw (none_s, none_r) (omega (arith, xor_self_below (q * 1 + 0) (q * 1 + 0) (omega arith)))
xor_same_top (suc k) q s r h l =
    let high : (q * 2 ^ suc k + s) / 2 ≡ q * 2 ^ k + s / 2 = omega (arith, shift_suc k q) in
    let low : (q * 2 ^ suc k + r) / 2 ≡ q * 2 ^ k + r / 2 = omega (arith, shift_suc k q) in
    let digit =
      xor_digit (q * 2 ^ suc k + s) (q * 2 ^ suc k + r)
      ∙ ap₂
          (λ (t u : ℕ).
            bit_xor t u * 2 + differ ((q * 2 ^ suc k + s) % 2) ((q * 2 ^ suc k + r) % 2))
          high low in
    omega (
      arith,
      digit,
      differ-le (q * 2 ^ suc k + s) (q * 2 ^ suc k + r),
      twice_pow k,
      xor_same_top k q (s / 2) (r / 2) (omega (arith, twice_pow k)) (omega (arith, twice_pow k)),
    )
