-- ===== src/Adler/Combine.antt =====
-- rabin/adler32.c: what the subtractions of `adler32_combine` amount to.
use im_dedup_plus.Prelude.{
  ℕ, ◌+◌, ◌-◌, ◌*◌, ◌%◌, ◌^◌, ◌≤◌, ◌<◌, ◌≡◌, ◌∙◌, arith, u32, ◌<<<◌, ◌>>>◌, bit_and, bit_or,
}
use im_dedup_plus.Prelude.{and_ones, or_fields, or_comm}
use im_dedup_plus.Adler.{adler32_base, reduce, adler32_combine}

-- A checksum from its two sums.
abbrev pub of_sums : ℕ → ℕ → ℕ
of_sums low high = high * 2 ^ 16 + low

low_half : (a b : ℕ) → a < 2 ^ 16 → bit_and (of_sums a b) (2 ^ 16 - 1) ≡ a
low_half a b h = and_ones 16 (of_sums a b) ∙ omega arith

high_half : (a b : ℕ) → a < 2 ^ 16 → b < 2 ^ 16 → bit_and (of_sums a b >>> 16) (2 ^ 16 - 1) ≡ b
high_half a b h k = and_ones 16 (of_sums a b >>> 16) ∙ omega arith

reduce_twice :
    (s : ℕ) → s < 3 * adler32_base → reduce adler32_base (reduce adler32_base s) ≡ s % adler32_base
unfolding reduce
reduce_twice s h = ground arith

reduce_more :
    (s : ℕ)
    → s < 4 * adler32_base
    → reduce adler32_base (reduce (adler32_base <<< 1) s) ≡ s % adler32_base
unfolding reduce
reduce_more s h = ground arith

product_fits : (r a : ℕ) → r < adler32_base → a < adler32_base → r * a < 2 ^ 32
product_fits r a h k = let most : r * a ≤ 65520 * 65520 = grind arith in omega arith

pub or_low : (low high : ℕ) → low < 2 ^ 16 → bit_or low (high * 2 ^ 16) ≡ of_sums low high
or_low low high h = or_comm low (high * 2 ^ 16) ∙ or_fields 16 high low h

-- For two checksums whose sums are reduced, and any length of the second buffer: the sums of the
-- result are the remainders of what the checksum of both buffers calls for.
pub adler32_combine-of_sums :
    (a1 b1 a2 b2 len2 : ℕ)
    → a1 < adler32_base
    → b1 < adler32_base
    → a2 < adler32_base
    → b2 < adler32_base
    → adler32_combine (of_sums a1 b1) (of_sums a2 b2) len2
      ≡ of_sums ((a1 + a2 + (adler32_base - 1)) % adler32_base) (
          (len2 % adler32_base * a1 % adler32_base + b1 + b2 + (adler32_base - len2 % adler32_base))
          % adler32_base)
unfolding adler32_combine
adler32_combine-of_sums a1 b1 a2 b2 len2 h1 k1 h2 k2 =
    let rem = len2 % adler32_base in
    let product : u32 (rem * a1) ≡ rem * a1 = omega (arith, product_fits rem a1 (omega arith) h1) in
    let sum1 : u32 (a1 + (a2 + adler32_base - 1)) ≡ a1 + a2 + (adler32_base - 1) = omega arith in
    let sum2 : u32 (rem * a1 % adler32_base + u32 (b1 + b2 + adler32_base + 2 ^ 32 - rem))
        ≡ rem * a1 % adler32_base + b1 + b2 + (adler32_base - rem) =
      omega arith in
    let low = reduce_twice (a1 + a2 + (adler32_base - 1)) (omega arith) in
    let high =
      reduce_more (rem * a1 % adler32_base + b1 + b2 + (adler32_base - rem)) (omega arith) in
    let s2 = (rem * a1 % adler32_base + b1 + b2 + (adler32_base - rem)) % adler32_base in
    let shifted : u32 (s2 <<< 16) ≡ s2 * 2 ^ 16 = omega arith in
    rw
      (
        adler32_combine,
        low_half a1 b1 (omega arith),
        low_half a2 b2 (omega arith),
        high_half a1 b1 (omega arith) (omega arith),
        high_half a2 b2 (omega arith) (omega arith),
        product,
        sum1,
        sum2,
        low,
        high,
        shifted,
      )
      (or_low ((a1 + a2 + (adler32_base - 1)) % adler32_base) s2 (omega arith))
