-- ===== src/Rabin/Remainder.antt =====
-- rabin/rabin.c: the loop of `mod`.
use native.Mathlib.Decide.{dec_le}
use im_dedup_plus.Prelude.{
  ℕ, zero, suc, ◌-◌, ◌*◌, ◌^◌, ◌≤◌, ◌<◌, ◌≡◌, inl, inr, refl, ap, ap₂, ◌∙◌, arith, u64, ◌<<<◌,
  bit_xor, true, false, le→leb, lt→leb, Option, none, some,
}
use im_dedup_plus.Rejpeg.Vli.Fields.{pow_sum, pow_pos}
use im_dedup_plus.Rabin.{deg, deg_ge, deg_sub, mod_loop, poly_mod}
use im_dedup_plus.Rabin.Degree.{IsDegree, deg_from-IsDegree, xor_top}

pow_mono : (a b : ℕ) → a ≤ b → 2 ^ a ≤ 2 ^ b
pow_mono a b h =
    let split : 2 ^ b ≡ 2 ^ a * 2 ^ (b - a) = pow_sum a (b - a) b (omega (arith, h)) in
    let some_power = pow_pos (b - a) in grind arith

module _ (p b : ℕ) (is : IsDegree p b) (small : b < 64) (found : deg p ≡ some b) where
  -- The polynomial moved up to a degree.
  shifted : (a : ℕ) → b ≤ a → (2 ^ a ≤ p * 2 ^ (a - b)) × (p * 2 ^ (a - b) < 2 ^ suc a)
  shifted a h =
      let low : 2 ^ a ≡ 2 ^ b * 2 ^ (a - b) = pow_sum b (a - b) a (omega (arith, h)) in
      let high : 2 ^ suc a ≡ 2 ^ suc b * 2 ^ (a - b) =
        pow_sum (suc b) (a - b) (suc a) (omega (arith, h)) in
      let some_power = pow_pos (a - b) in
      let at_least = is.0 in let below = is.1 in (grind arith, grind arith)

  -- One round takes the highest bit away.
  round_below : (a x : ℕ) → a < 64 → b ≤ a → IsDegree x a → bit_xor x (u64 (p <<< (a - b))) < 2 ^ a
  round_below a x small_a h is_x =
      let (low, high) = shifted a h in
      let bound = pow_mono (suc a) 64 (omega (arith, small_a)) in
      let kept : u64 (p <<< (a - b)) ≡ p * 2 ^ (a - b) = omega (arith, high, bound) in
      rw kept (xor_top a x (p * 2 ^ (a - b)) is_x.0 is_x.1 low high)

  -- How the loop goes on a number of some degree, or none.
  stops :
      (fuel x : ℕ) (d : Option ℕ)
      → deg x ≡ d
      → deg_ge d (some b) ≡ false
      → mod_loop (suc fuel) x p ≡ some x
  unfolding mod_loop
  stops fuel x d e f =
      let test : deg_ge (deg x) (deg p) ≡ false = ap₂ deg_ge e found ∙ f in rw (mod_loop, test) refl

  goes_on :
      (fuel x a : ℕ)
      → deg x ≡ some a
      → b ≤ a
      → mod_loop (suc fuel) x p ≡ mod_loop fuel (bit_xor x (u64 (p <<< (a - b)))) p
  unfolding mod_loop deg_ge deg_sub
  goes_on fuel x a e h =
      let test : deg_ge (deg x) (deg p) ≡ true = ap₂ deg_ge e found ∙ le→leb b a h in
      let move : deg_sub (deg x) (deg p) ≡ a - b = ap₂ deg_sub e found in
      rw (mod_loop, test) (ap (λ (k : ℕ). mod_loop fuel (bit_xor x (u64 (p <<< k))) p) move)

  pub mod_below :
      (fuel n x : ℕ)
      → n < fuel
      → x < 2 ^ n
      → x < 2 ^ 64
      → (r : ℕ) × (mod_loop fuel x p ≡ some r) × (r < 2 ^ b)
  unfolding deg_ge deg
  mod_below zero n x h lt wide = absurd (omega arith)
  mod_below (suc fuel) n x h lt wide = elim (deg_from-IsDegree 64 x wide) [
    | inl (z, e) ↦ (x, stops fuel x none e refl, omega (arith, z, pow_pos b))
    | inr (a, small_a, e, is_x) ↦ elim (dec_le b a) [
      | no less ↦ (
        x,
        stops fuel x (some a) e (lt→leb b a (omega (arith, less))),
        omega (arith, is_x.1, pow_mono (suc a) b (omega (arith, less))),
      )
      | yes ge ↦
          let x' = bit_xor x (u64 (p <<< (a - b))) in
          let below = round_below a x small_a ge is_x in
          let (r, rest, lt') =
            mod_below fuel a x' (omega (arith, h, fewer n a (omega (arith, is_x.0, lt)))) below
              (omega (arith, below, pow_mono a 64 (omega (arith, small_a)))) in
          (r, goes_on fuel x a e ge ∙ rest, lt')
    ]
  ]
    where
      fewer : (n a : ℕ) → 2 ^ a < 2 ^ n → a < n
      fewer n a h = elim (dec_le n a) [
        | yes le ↦ absurd (omega (arith, pow_mono n a le, h))
        | no above ↦ omega (arith, above)
      ]

-- By a polynomial of a degree below 64, the remainder of a 64-bit number is found within 65 rounds and
-- is below that degree.
pub poly_mod_ends :
    (p b x : ℕ)
    → IsDegree p b
    → b < 64
    → deg p ≡ some b
    → x < 2 ^ 64
    → (r : ℕ) × (poly_mod x p ≡ some r) × (r < 2 ^ b)
poly_mod_ends p b x is small found wide =
    mod_below p b is small found 65 64 x (omega arith) wide wide
