-- ===== src/Adler/Reference.antt =====
-- rabin/adler32.c: `adler32` beside sums with no bound.
use native.Mathlib.Nat.{mul-le-mul_left, mul-le-mul, mod-eq_of_lt}
use im_dedup_plus.Prelude.{
  ℕ, zero, suc, ◌+◌, ◌*◌, ◌%◌, ◌^◌, ◌≤◌, ◌<◌, ◌≡◌, refl, sym, ap, ap₂, ◌∙◌, arith, u32, ◌<<<◌,
  bit_or, AllBytes,
}
use im_dedup_plus.Prelude.{
  some, ◌>>=◌, length, length-take, length-drop, take, drop, leb, leb→le, ◌==◌, if◌then◌else◌,
  false, Bool-cases, inl, inr, List, [], ◌∷◌,
}
use im_dedup_plus.Adler.{adler32_base, adler32_nmax, add_bytes, add_round, add_rounds, adler32}

-- The sums with no bound.
abbrev pub plain_sums : List ℕ → ℕ → ℕ → ℕ × ℕ
plain_sums [] a s = (a, s)
plain_sums (b ∷ bs) a s = plain_sums bs (a + b) (s + (a + b))

-- 1 + 2 + … + n.
abbrev triangle : ℕ → ℕ
triangle zero = 0
triangle (suc n) = triangle n + suc n

triangle-double : (n : ℕ) → 2 * triangle n ≡ n * suc n
triangle-double zero = refl
triangle-double (suc n) = grind (arith, triangle-double n)

-- What is left to add stays below the bound.
add_bytes-plain :
    (bs : List ℕ) (a s : ℕ)
    → AllBytes bs
    → a + 255 * length bs < 2 ^ 32
    → s + length bs * a + 255 * triangle (length bs) < 2 ^ 32
    → add_bytes bs a s ≡ plain_sums bs a s
unfolding add_bytes
add_bytes-plain [] a s all small small' = refl
add_bytes-plain (b ∷ bs) a s (byte, all) small small' =
    let n = length bs in
    let times : n * b ≤ n * 255 = mul_le n b (omega (arith, byte)) in
    let spread : suc n * a ≡ a + n * a = omega arith in
    let spread' : n * (a + b) ≡ n * a + n * b = grind arith in
    let one : u32 (a + b) ≡ a + b = omega (arith, small, byte) in
    let two : u32 (s + (a + b)) ≡ s + (a + b) = omega (arith, small', byte, spread) in
    rw (one, two)
      (add_bytes-plain bs (a + b) (s + (a + b)) all (omega (arith, small, byte))
        (omega (arith, small', times, spread, spread', byte)))
  where
    mul_le : (n b : ℕ) → b ≤ 255 → n * b ≤ n * 255
    mul_le n b h = mul-le-mul_left n h

abbrev pub reduced_sums : ℕ × ℕ → ℕ × ℕ
reduced_sums (a, s) = (a % adler32_base, s % adler32_base)

-- A round of at most `ADLER32_NMAX` bytes from reduced sums does not wrap around.
add_round-plain :
    (bs : List ℕ) (a s : ℕ)
    → AllBytes bs
    → length bs ≤ adler32_nmax
    → a < adler32_base
    → s < adler32_base
    → add_round bs a s ≡ reduced_sums (plain_sums bs a s)
unfolding add_round
add_round-plain bs a s all short la ls =
    let n = length bs in
    let area : n * suc n ≤ 5552 * 5553 = mul-le-mul {m₂ = 5553} short (omega (arith, short)) in
    let wide : n * a ≤ 5552 * 65520 = mul-le-mul {m₂ = 65520} short (omega (arith, la)) in
    ap reduced_sums (
      add_bytes-plain bs a s all (omega (arith, short, la))
        (omega (arith, area, wide, ls, triangle-double n)))

-- Only the remainders of the sums count.
plain_sums-remainders :
    (bs : List ℕ) (a a' s s' : ℕ)
    → a % adler32_base ≡ a' % adler32_base
    → s % adler32_base ≡ s' % adler32_base
    → reduced_sums (plain_sums bs a s) ≡ reduced_sums (plain_sums bs a' s')
plain_sums-remainders [] a a' s s' ea es = ap₂ (λ (x y : ℕ). (x, y)) ea es
plain_sums-remainders (b ∷ bs) a a' s s' ea es =
    let next : (a + b) % adler32_base ≡ (a' + b) % adler32_base = omega (arith, ea) in
    plain_sums-remainders bs (a + b) (a' + b) (s + (a + b)) (s' + (a' + b)) next
      (omega (arith, next, es))

plain_sums-take :
    (n : ℕ) (bs : List ℕ) (a s : ℕ)
    → plain_sums bs a s
      ≡ plain_sums (drop n bs) (plain_sums (take n bs) a s).0 (plain_sums (take n bs) a s).1
plain_sums-take zero bs a s = refl
plain_sums-take (suc n) [] a s = refl
plain_sums-take (suc n) (b ∷ bs) a s = plain_sums-take n bs (a + b) (s + (a + b))

take-AllBytes : (n : ℕ) (bs : List ℕ) → AllBytes bs → AllBytes (take n bs)
take-AllBytes zero bs all = tt
take-AllBytes (suc n) [] all = tt
take-AllBytes (suc n) (b ∷ bs) (h, all) = (h, take-AllBytes n bs all)

drop-AllBytes : (n : ℕ) (bs : List ℕ) → AllBytes bs → AllBytes (drop n bs)
drop-AllBytes zero bs all = all
drop-AllBytes (suc n) [] all = tt
drop-AllBytes (suc n) (b ∷ bs) (h, all) = drop-AllBytes n bs all

leb-lt : (a b : ℕ) → leb a b ≡ false → b < a
leb-lt a b h = ground arith

suc-zero_test : (n : ℕ) → (suc n == 0) ≡ false
suc-zero_test n = ground arith

-- What is left behind the full rounds.
left_bytes :
    (bs : List ℕ) (a s : ℕ)
    → AllBytes bs
    → length bs < adler32_nmax
    → a < adler32_base
    → s < adler32_base
    → (if length bs == 0 then some (a, s) else some (add_round bs a s))
      ≡ some (reduced_sums (plain_sums bs a s))
left_bytes [] a s all short la ls =
    ap₂ (λ (x y : ℕ). some (x, y)) (sym (mod-eq_of_lt la)) (sym (mod-eq_of_lt ls))
left_bytes (b ∷ bs) a s all short la ls =
    rw (suc-zero_test (length bs))
      (ap (λ (r : ℕ × ℕ). some r) (add_round-plain (b ∷ bs) a s all (omega (arith, short)) la ls))

add_rounds-plain :
    (fuel : ℕ) (bs : List ℕ) (a s : ℕ)
    → length bs < fuel
    → AllBytes bs
    → a < adler32_base
    → s < adler32_base
    → add_rounds fuel bs a s ≡ some (reduced_sums (plain_sums bs a s))
unfolding add_rounds
add_rounds-plain zero bs a s enough all la ls = absurd (omega (arith, enough))
add_rounds-plain (suc fuel) bs a s enough all la ls =
    elim (Bool-cases (leb adler32_nmax (length bs))) [
      | inl full ↦
          let le = leb→le adler32_nmax (length bs) full in
          let (a1, s1) = plain_sums (take adler32_nmax bs) a s in
          let round : add_round (take adler32_nmax bs) a s
              ≡ (a1 % adler32_base, s1 % adler32_base) =
            add_round-plain (take adler32_nmax bs) a s (take-AllBytes adler32_nmax bs all)
              (omega (arith, length-take adler32_nmax bs)) la ls in
          let rest =
            add_rounds-plain fuel (drop adler32_nmax bs) (a1 % adler32_base) (s1 % adler32_base)
              (omega (arith, length-drop adler32_nmax bs, le, enough))
              (drop-AllBytes adler32_nmax bs all) (omega arith) (omega arith) in
          rw (full) (
            ap (λ (r : ℕ × ℕ). add_rounds fuel (drop adler32_nmax bs) r.0 r.1) round
            ∙ rest
            ∙ ap (λ (r : ℕ × ℕ). some r)
                (plain_sums-remainders (drop adler32_nmax bs) (a1 % adler32_base) a1
                    (s1 % adler32_base) s1 (omega arith) (omega arith)
                  ∙ ap reduced_sums (sym (plain_sums-take adler32_nmax bs a s))))
      | inr part ↦ rw (part) (left_bytes bs a s all (leb-lt adler32_nmax (length bs) part) la ls)
    ]

-- From 1 on, the checksum of any bytes is found, and its halves are the remainders by 65521 of two sums
-- with no bound: of 1 and the bytes, and of the first sum behind every byte.
pub adler32-plain_sums :
    (bs : List ℕ)
    → AllBytes bs
    → (let (a, s) = plain_sums bs 1 0 in
        adler32 1 bs ≡ some (bit_or (a % adler32_base) (u32 ((s % adler32_base) <<< 16))))
unfolding adler32
adler32-plain_sums [] all = refl
adler32-plain_sums (b ∷ bs) all =
    rw
      (
        add_rounds-plain (suc (length (b ∷ bs))) (b ∷ bs) 1 0 (omega arith) all (omega arith)
            (omega arith),
        ◌>>=◌,
      )
      refl
