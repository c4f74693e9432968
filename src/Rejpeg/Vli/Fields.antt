-- ===== src/Rejpeg/Vli/Fields.antt =====
-- Arithmetic of bit fields: shifts, and a sum of two fields taken apart again.
use native.Mathlib.Nat.{pow-suc, one-le-pow}
use im_dedup_plus.Prelude.{ℕ, zero, suc, ◌+◌, ◌*◌, ◌/◌, ◌%◌, ◌^◌, ◌<◌, ◌≡◌, ap, ◌∙◌, arith}

pub pow_add : (a b : ℕ) → 2 ^ (a + b) ≡ 2 ^ a * 2 ^ b
pow_add zero b = ap (λ (n : ℕ). 2 ^ n) {x = 0 + b} {y = b} (omega arith) ∙ omega arith
pow_add (suc a) b =
    ap (λ (n : ℕ). 2 ^ n) {x = suc a + b} {y = suc (a + b)} (omega arith)
    ∙ omega (arith, pow-suc 2 (a + b), pow_add a b, ap (λ (t : ℕ). t * 2 ^ b) (pow-suc 2 a))

pub pow_sum : (a b c : ℕ) → a + b ≡ c → 2 ^ c ≡ 2 ^ a * 2 ^ b
pow_sum a b c e = rw (← e) (pow_add a b)

pub pow_pos : (a : ℕ) → 0 < 2 ^ a
pow_pos a = one-le-pow a 2 (omega arith)

pub div_fields : (q d r : ℕ) → r < d → (q * d + r) / d ≡ q
div_fields q d r h = grind arith

pub mod_fields : (q d r : ℕ) → r < d → (q * d + r) % d ≡ r
mod_fields q d r h = grind arith
