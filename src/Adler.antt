-- ===== src/Adler.antt =====
-- rabin/adler32.c: the checksum of a buffer, of two buffers one behind the other, and of a window that
-- moves on by a byte. An `unsigned int` is a number below 2^32.
pub mod Combine
pub mod Reference
pub mod Append
use im_dedup_plus.Prelude.{
  ℕ, zero, suc, ◌+◌, ◌-◌, ◌*◌, ◌%◌, ◌^◌, u32, ◌<<<◌, ◌>>>◌, bit_and, bit_or,
}
use im_dedup_plus.Prelude.{
  leb, ◌==◌, if◌then◌else◌, ◌>>=◌, Option, none, some, length, take, drop, List, [], ◌∷◌,
}

abbrev pub adler32_base : ℕ
adler32_base = 65521

abbrev pub adler32_nmax : ℕ
adler32_nmax = 5552

-- `adler += *buf++; sum2 += adler;` for some bytes.
unfoldable pub add_bytes : List ℕ → ℕ → ℕ → ℕ × ℕ
add_bytes [] adler sum2 = (adler, sum2)
add_bytes (b ∷ bs) adler sum2 = add_bytes bs (u32 (adler + b)) (u32 (sum2 + u32 (adler + b)))

-- The bytes of one round, and both sums reduced.
unfoldable pub add_round : List ℕ → ℕ → ℕ → ℕ × ℕ
unfolding add_bytes
add_round bs adler sum2 =
    let (a, s) = add_bytes bs adler sum2 in (a % adler32_base, s % adler32_base)

-- `while (len >= ADLER32_NMAX)` and what is left. `none` is fuel that ran out.
unfoldable pub add_rounds : ℕ → List ℕ → ℕ → ℕ → Option (ℕ × ℕ)
unfolding add_round
add_rounds zero bs adler sum2 = none
add_rounds (suc fuel) bs adler sum2 =
    let (a, s) = add_round (take adler32_nmax bs) adler sum2 in
    let rest = add_rounds fuel (drop adler32_nmax bs) a s in
    if leb adler32_nmax (length bs)
    then rest
    else if length bs == 0
    then some (adler, sum2)
    else some (add_round bs adler sum2)

-- A missing or empty buffer gives 1.
unfoldable pub adler32 : ℕ → List ℕ → Option ℕ
adler32 adler [] = some 1
adler32 adler (b ∷ bs) = do
  (a, s) ←
      add_rounds (suc (length (b ∷ bs))) (b ∷ bs) (bit_and adler (2 ^ 16 - 1))
        (bit_and (adler >>> 16) (2 ^ 16 - 1))
  some (bit_or a (u32 (s <<< 16)))

-- `if (sum >= bound) sum -= bound;`.
unfoldable pub reduce : ℕ → ℕ → ℕ
reduce bound sum = if leb bound sum then sum - bound else sum

-- `len2` is not negative.
unfoldable pub adler32_combine : ℕ → ℕ → ℕ → ℕ
adler32_combine adler1 adler2 len2 =
    let rem = len2 % adler32_base in
    let low1 = bit_and adler1 (2 ^ 16 - 1) in
    let sum1 = u32 (low1 + (bit_and adler2 (2 ^ 16 - 1) + adler32_base - 1)) in
    let sum2 = u32 (
      u32 (rem * low1) % adler32_base
      + u32 (
          bit_and (adler1 >>> 16) (2 ^ 16 - 1)
          + bit_and (adler2 >>> 16) (2 ^ 16 - 1)
          + adler32_base
          + 2 ^ 32
          - rem)) in
    bit_or (reduce adler32_base (reduce adler32_base sum1))
      (u32 (reduce adler32_base (reduce (adler32_base <<< 1) sum2) <<< 16))

-- The bytes that come in and go out; each difference is an `unsigned int`.
unfoldable pub adler32_rolling : ℕ → ℕ → ℕ → ℕ → ℕ
adler32_rolling adler inbyte outbyte window_size =
    let low = bit_and adler (2 ^ 16 - 1) in
    let high = bit_and (adler >>> 16) (2 ^ 16 - 1) in
    let sum1 = u32 (u32 (low + 2 ^ 32 - outbyte) + inbyte) % adler32_base in
    let sum2 =
      u32 (high + 2 ^ 32 - u32 (window_size * outbyte) + sum1 + 2 ^ 32 - 1) % adler32_base in
    bit_or (u32 (sum2 <<< 16)) sum1
