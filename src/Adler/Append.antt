-- ===== src/Adler/Append.antt =====
-- rabin/adler32.c: the checksum of two buffers, one behind the other, from the checksums of each.
use native.Mathlib.Nat.{add-mul-mod_self_left}
use im_dedup_plus.Prelude.{
  ℕ, ◌+◌, ◌-◌, ◌*◌, ◌/◌, ◌%◌, ◌^◌, ◌≡◌, refl, sym, ap, ap₂, ◌∙◌, arith, u32, ◌<<<◌, bit_or,
  AllBytes, append-AllBytes,
}
use im_dedup_plus.Prelude.{some, length, List, [], ◌∷◌, ◌++◌}
use im_dedup_plus.Adler.{adler32_base, adler32, adler32_combine}
use im_dedup_plus.Adler.Combine.{of_sums, or_low, adler32_combine-of_sums}
use im_dedup_plus.Adler.Reference.{plain_sums, adler32-plain_sums}

plain_sums-append :
    (xs ys : List ℕ) (a s : ℕ)
    → plain_sums (xs ++ ys) a s ≡ plain_sums ys (plain_sums xs a s).0 (plain_sums xs a s).1
plain_sums-append [] ys a s = refl
plain_sums-append (x ∷ xs) ys a s = plain_sums-append xs ys (a + x) (s + (a + x))

-- What the sums start from is added once to the first, and with every byte to the second.
plain_sums-start :
    (ys : List ℕ) (a s p q : ℕ)
    → ((plain_sums ys (a + p) (s + q)).0 ≡ (plain_sums ys p q).0 + a)
      × ((plain_sums ys (a + p) (s + q)).1 ≡ (plain_sums ys p q).1 + s + length ys * a)
plain_sums-start [] a s p q = (omega arith, omega arith)
plain_sums-start (y ∷ ys) a s p q =
    let (first, second) = plain_sums-start ys a (s + a) (p + y) (q + (p + y)) in
    let same : plain_sums ys (a + p + y) (s + q + (a + p + y))
        ≡ plain_sums ys (a + (p + y)) (s + a + (q + (p + y))) =
      ap₂ (λ (x z : ℕ). plain_sums ys x z) (omega arith) (omega arith) in
    (ap (λ (r : ℕ × ℕ). r.0) same ∙ first, ap (λ (r : ℕ × ℕ). r.1) same ∙ second ∙ omega arith)

-- The checksum of the remainders of two sums.
checksum : ℕ × ℕ → ℕ
checksum (a, s) = of_sums (a % adler32_base) (s % adler32_base)

adler32-checksum : (bs : List ℕ) → AllBytes bs → adler32 1 bs ≡ some (checksum (plain_sums bs 1 0))
unfolding checksum
adler32-checksum bs all =
    let (a, s) = plain_sums bs 1 0 in
    let fits : u32 ((s % adler32_base) <<< 16) ≡ s % adler32_base * 2 ^ 16 = omega arith in
    adler32-plain_sums bs all
    ∙ ap (λ (n : ℕ). some n)
        (ap (λ (n : ℕ). bit_or (a % adler32_base) n) fits
          ∙ or_low (a % adler32_base) (s % adler32_base) (omega arith))

spread :
    (x r y t : ℕ)
    → (65521 * x + r) * (65521 * y + t) ≡ r * t + 65521 * (x * (65521 * y + t) + r * y)
spread x r y t = grind arith

product : (n a : ℕ) → n % adler32_base * (a % adler32_base) % adler32_base ≡ n * a % adler32_base
product n a =
    let x = n / 65521 in
    let r = n % 65521 in
    let y = a / 65521 in
    let t = a % 65521 in
    let split : n * a ≡ r * t + 65521 * (x * (65521 * y + t) + r * y) =
      ap₂ (λ (u v : ℕ). u * v) (omega arith) (omega arith) ∙ spread x r y t in
    sym (
      ap (λ (u : ℕ). u % 65521) split
      ∙ add-mul-mod_self_left (r * t) 65521 (x * (65521 * y + t) + r * y))

-- For any two buffers: each has a checksum from 1 on, and `adler32_combine` makes of them, with the
-- length of the second, the checksum of both buffers behind each other.
pub adler32-append :
    (xs ys : List ℕ)
    → AllBytes xs
    → AllBytes ys
    → (c1 : ℕ) × (c2 : ℕ) × (adler32 1 xs ≡ some c1)
      × (adler32 1 ys ≡ some c2)
      × (adler32 1 (xs ++ ys) ≡ some (adler32_combine c1 c2 (length ys)))
unfolding checksum
adler32-append xs ys all all' =
    let (a1, s1) = plain_sums xs 1 0 in
    let (a2, s2) = plain_sums ys 1 0 in
    let (p, q) = plain_sums ys 0 0 in
    let (a2p, s2q) = plain_sums-start ys 1 0 0 0 in
    let (a12, s12) = plain_sums-start ys a1 s1 0 0 in
    let whole : plain_sums (xs ++ ys) 1 0 ≡ (p + a1, q + s1 + length ys * a1) =
      plain_sums-append xs ys 1 0
      ∙ ap₂ (λ (x z : ℕ). plain_sums ys x z) {x = a1} {y = a1 + 0} (omega arith) (omega arith)
      ∙ ap₂ (λ (x z : ℕ). (x, z)) a12 s12 in
    let low : (a1 % adler32_base + a2 % adler32_base + (adler32_base - 1)) % adler32_base
        ≡ (p + a1) % adler32_base =
      omega (arith, a2p) in
    let high : (length ys % adler32_base * (a1 % adler32_base) % adler32_base
            + s1 % adler32_base
            + s2 % adler32_base
            + (adler32_base - length ys % adler32_base))
          % adler32_base
        ≡ (q + s1 + length ys * a1) % adler32_base =
      omega (arith, product (length ys) a1, s2q) in
    (
      checksum (a1, s1),
      checksum (a2, s2),
      adler32-checksum xs all,
      adler32-checksum ys all',
      adler32-checksum (xs ++ ys) (append-AllBytes xs ys all all')
          ∙ ap (λ (r : ℕ × ℕ). some (checksum r)) whole
          ∙ ap (λ (n : ℕ). some n)
              (ap₂ of_sums (sym low) (sym high)
                ∙ sym (
                    adler32_combine-of_sums (a1 % adler32_base) (s1 % adler32_base)
                      (a2 % adler32_base) (s2 % adler32_base) (length ys) (omega arith)
                      (omega arith) (omega arith) (omega arith))),
    )
