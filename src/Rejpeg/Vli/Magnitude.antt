-- ===== src/Rejpeg/Vli/Magnitude.antt =====
-- rejpeg.c: the length of a number's code, and the number back from its code.
use im_dedup_plus.Prelude.{ℕ, ◌+◌, ◌-◌, ◌*◌, ◌/◌, ◌^◌, ◌≤◌, ◌<◌, ◌≡◌, refl, ap, ◌∙◌}
use im_dedup_plus.Prelude.{arith, u8, u16, bit_and, bit_or, or_fields, xor_ones, and_ones}
use im_dedup_plus.Prelude.{le→ltb}
use im_dedup_plus.Rejpeg.Vli.{magnitude, bit_length, code_bits, value_of}
use im_dedup_plus.Rejpeg.Vli.Fields.{pow_sum, pow_pos, div_fields}
use native.Mathlib.Decide.{dec_lt}

-- Up to 4095 the length is that of the binary numeral.
pub bit_length_bounds :
    (old n : ℕ)
    → 0 < n
    → n ≤ 4095
    → (1 ≤ bit_length old n)
      × (bit_length old n ≤ 12)
      × (2 ^ (bit_length old n - 1) ≤ n)
      × (n < 2 ^ bit_length old n)
unfolding bit_length
bit_length_bounds old n pos top = ground arith

pub bit_length-lt : (n : ℕ) → bit_length 0 n < 16
unfolding bit_length
bit_length-lt n = ground arith

-- What `bitLength` held before does not matter up to 4095.
pub bit_length_old : (old n : ℕ) → n ≤ 4095 → bit_length old n ≡ bit_length 0 n
unfolding bit_length
bit_length_old old n top = ground arith

pub mask : (l : ℕ) → l ≤ 16 → 65535 / 2 ^ (16 - l) ≡ 2 ^ l - 1
mask l h =
    let top : 2 ^ 16 ≡ 2 ^ l * 2 ^ (16 - l) = pow_sum l (16 - l) 16 (omega arith) in
    let split : 65535 ≡ (2 ^ l - 1) * 2 ^ (16 - l) + (2 ^ (16 - l) - 1) =
      let up : 2 ^ l ≡ 2 ^ l - 1 + 1 = omega (arith, pow_pos l) in
      omega (arith, top, ap (λ (t : ℕ). t * 2 ^ (16 - l)) up, pow_pos (16 - l)) in
    ap (λ (t : ℕ). t / 2 ^ (16 - l)) split
    ∙ div_fields (2 ^ l - 1) (2 ^ (16 - l)) (2 ^ (16 - l) - 1) (omega (arith, pow_pos (16 - l)))

magnitude_pos : (number : ℕ) → number < 2 ^ 15 → magnitude number ≡ number
unfolding magnitude
magnitude_pos number h = ground arith

magnitude_neg : (number : ℕ) → 2 ^ 15 ≤ number → magnitude number ≡ 2 ^ 16 - number
unfolding magnitude
magnitude_neg number h = ground arith

code_pos : (number l : ℕ) → number < 2 ^ 15 → code_bits number l ≡ number
unfolding code_bits
code_pos number l h = ground arith

code_neg :
    (number l : ℕ)
    → 2 ^ 15 ≤ number
    → l ≤ 12
    → 2 ^ 16 - number < 2 ^ l
    → code_bits number l ≡ 2 ^ l - 1 - (2 ^ 16 - number)
unfolding code_bits
code_neg number l h top fits =
    let wide : 2 ^ 16 ≡ 2 ^ l * 2 ^ (16 - l) = pow_sum l (16 - l) 16 (omega arith) in
    let less : 2 ^ l * 1 ≤ 2 ^ l * 2 ^ (16 - l) = grind (arith, pow_pos (16 - l)) in
    rw (le→ltb number (2 ^ 15) h, mask l (omega arith), xor_ones l (2 ^ 16 - number) fits)
      (omega (arith, wide, less))

value_high : (bits l : ℕ) → 2 ^ (l - 1) ≤ bits → value_of bits l ≡ bits
unfolding value_of
value_high bits l h =
    let one : 0 < bits / 2 ^ (l - 1) = grind (arith, pow_pos (l - 1)) in ground (arith, one)

value_low :
    (bits l : ℕ)
    → l ≤ 12
    → bits < 2 ^ (l - 1)
    → bits < 2 ^ l
    → value_of bits l ≡ u16 (2 ^ 16 - (2 ^ l - 1 - bits))
unfolding value_of
value_low bits l top h k =
    let none_left : bits / 2 ^ (l - 1) ≡ 0 = grind (arith, pow_pos (l - 1)) in
    rw (none_left, mask l (omega arith), xor_ones l bits k) refl

module _ (number l : ℕ) (l_pos : 0 < l) (l_top : l ≤ 12) (low : 2 ^ (l - 1) ≤ magnitude number)
    (high : magnitude number < 2 ^ l) where
  -- The code has as many bits as the length says.
  pub code-lt : code_bits number l < 2 ^ l
  code-lt = elim (dec_lt number (2 ^ 15)) [
    | yes p ↦ omega (arith, code_pos number l p, magnitude_pos number p)
    | no p ↦
        let q : 2 ^ 15 ≤ number = omega arith in
        let m = magnitude_neg number q in
        omega (arith, code_neg number l q l_top (omega (arith, m)), pow_pos l)
  ]

  -- The number comes back from its code.
  pub value-code : number < 2 ^ 16 → value_of (code_bits number l) l ≡ number
  value-code word = elim (dec_lt number (2 ^ 15)) [
    | yes p ↦ rw (code_pos number l p) (value_high number l (omega (arith, magnitude_pos number p)))
    | no p ↦
        let q : 2 ^ 15 ≤ number = omega arith in
        let m = magnitude_neg number q in
        let twice : 2 ^ l ≡ 2 ^ 1 * 2 ^ (l - 1) = pow_sum 1 (l - 1) l (omega arith) in
        rw (code_neg number l q l_top (omega (arith, m))) (
          value_low (2 ^ l - 1 - (2 ^ 16 - number)) l l_top (omega (arith, m, twice))
            (omega (arith, m))
          ∙ omega (arith, m))
  ]

pub byte_fields : (run l : ℕ) → run ≤ 15 → l < 16 → u8 (bit_or (run * 2 ^ 4) l) ≡ run * 16 + l
byte_fields run l h k = omega (arith, or_fields 4 run l k)

pub byte_length : (run l : ℕ) → l < 16 → bit_and (run * 16 + l) 0x0f ≡ l
byte_length run l h = omega (arith, and_ones 4 (run * 16 + l))
