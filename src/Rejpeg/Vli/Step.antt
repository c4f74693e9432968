-- ===== src/Rejpeg/Vli/Step.antt =====
-- rejpeg.c: one code of `vliEncode` read back by `vliDecode`, on both branches: the code fits the
-- current word, or it runs into the next.
use native.Mathlib.Nat.{mul-div_cancel}
use im_dedup_plus.Prelude.{ℕ, ◌+◌, ◌-◌, ◌*◌, ◌/◌, ◌%◌, ◌^◌, ◌≤◌, ◌<◌, ◌≡◌, ap, ap₂, sym, ◌∙◌}
use im_dedup_plus.Prelude.{arith, u16, bit_or, or_fields, zero-or, le→leb, lt→leb, le→ltb, lt→ltb}
use im_dedup_plus.Prelude.{List, [], ◌∷◌, some}
use im_dedup_plus.Rejpeg.Vli.{Encoder, put_bits, Reader, take_bits}
use im_dedup_plus.Rejpeg.Vli.Fields.{pow_sum, pow_pos, div_fields, mod_fields}

-- The current word is filled down to its empty bits.
pub record IsFilled (s : Encoder) : Type 0 where
  pub high : ℕ
  pub filled : s.cur ≡ high * 2 ^ s.empty_bits
  pub room : s.empty_bits ≤ 16
  pub fits : high < 2 ^ (16 - s.empty_bits)

-- The reader that stands behind what the encoder has filled, where `low` is what the finished word
-- holds below.
abbrev pub reader : ℕ → ℕ → List ℕ → Reader
reader empty low ws = record { full_bits = empty; data_tmp = low * 2 ^ (16 - empty); words = ws }

bits_at : (A C bits low : ℕ) → 0 < A → low < C → (bits * C + low) * A / (A * C) ≡ bits
bits_at A C bits low pos h =
    let split : (bits * C + low) * A ≡ bits * (A * C) + low * A = omega arith in
    let less : low * A < A * C = grind arith in rw split (div_fields bits (A * C) (low * A) less)

rest_at :
    (A B C bits low : ℕ)
    → 0 < A
    → 0 < B
    → low < C
    → (bits * C + low) * A * B % (A * B * C) ≡ low * (A * B)
rest_at A B C bits low pos pos' h =
    let split : (bits * C + low) * A * B ≡ bits * (A * B * C) + low * (A * B) = omega arith in
    let ab : 0 < A * B = grind arith in
    let less : low * (A * B) < A * B * C = grind arith in
    rw split (mod_fields bits (A * B * C) (low * (A * B)) less)

-- A word filled down to `e` bits is a 16-bit word, whatever stands below.
pub below_word : (q e low : ℕ) → e ≤ 16 → q < 2 ^ (16 - e) → low < 2 ^ e → q * 2 ^ e + low < 2 ^ 16
below_word q e low le h l =
    let top : 2 ^ 16 ≡ 2 ^ (16 - e) * 2 ^ e = pow_sum (16 - e) e 16 (omega arith) in
    let step : (q + 1) * 2 ^ e ≤ 2 ^ (16 - e) * 2 ^ e = grind arith in omega (arith, top, step)

small_word : {x : ℕ} → x < 2 ^ 16 → u16 x ≡ x
small_word h = omega arith

-- A part of a 16-bit word above `k` bits.
half_word : (b k : ℕ) → k ≤ 16 → u16 (b * 2 ^ (16 - k)) ≡ b % 2 ^ k * 2 ^ (16 - k)
half_word b k h =
    let top : 2 ^ 16 ≡ 2 ^ k * 2 ^ (16 - k) = pow_sum k (16 - k) 16 (omega arith) in
    let cut : b ≡ b / 2 ^ k * 2 ^ k + b % 2 ^ k = omega arith in
    let split : b * 2 ^ (16 - k) ≡ b / 2 ^ k * (2 ^ k * 2 ^ (16 - k)) + b % 2 ^ k * 2 ^ (16 - k) =
      ap (λ (t : ℕ). t * 2 ^ (16 - k)) cut ∙ omega arith in
    let less : b % 2 ^ k * 2 ^ (16 - k) < 2 ^ k * 2 ^ (16 - k) =
      grind (arith, pow_pos k, pow_pos (16 - k)) in
    rw split (rw (← top) (mod_fields (b / 2 ^ k) (2 ^ 16) (b % 2 ^ k * 2 ^ (16 - k)) (rw top less)))

pub code_word : (b l : ℕ) → l ≤ 16 → b < 2 ^ l → b < 2 ^ 16
code_word b l h lt =
    let top : 2 ^ 16 ≡ 2 ^ l * 2 ^ (16 - l) = pow_sum l (16 - l) 16 (omega arith) in
    let wide : 2 ^ l * 1 ≤ 2 ^ l * 2 ^ (16 - l) = grind (arith, pow_pos (16 - l)) in
    omega (arith, top, wide)

module _ (s : Encoder) (bits : ℕ) (f : IsFilled s) (code : bits < 2 ^ s.bit_len) where
  -- The code fits: it goes below what is filled.
  pub put_inside :
      s.bit_len ≤ s.empty_bits
      → put_bits s bits ≡ (
        [],
        record s {
          cur = (f.high * 2 ^ s.bit_len + bits) * 2 ^ (s.empty_bits - s.bit_len);
          empty_bits = s.empty_bits - s.bit_len;
        },
      )
  unfolding put_bits
  put_inside le =
      rw (le→leb s.bit_len s.empty_bits le)
        (λ i. ([], record s { cur = word i; empty_bits = e - l }))
    where
      e : ℕ
      e = s.empty_bits

      l : ℕ
      l = s.bit_len

      top : 2 ^ e ≡ 2 ^ l * 2 ^ (e - l)
      top = pow_sum l (e - l) e (omega arith)

      below : bits * 2 ^ (e - l) < 2 ^ e
      below = rw top (grind (arith, pow_pos (e - l)))

      word : u16 (bit_or s.cur (bits * 2 ^ (e - l))) ≡ (f.high * 2 ^ l + bits) * 2 ^ (e - l)
      word =
          ap (λ (c : ℕ). u16 (bit_or c (bits * 2 ^ (e - l)))) f.filled
          ∙ ap (λ (c : ℕ). u16 c) (or_fields e f.high (bits * 2 ^ (e - l)) below)
          ∙ small_word (below_word f.high e (bits * 2 ^ (e - l)) f.room f.fits below)
          ∙ omega (arith, ap (λ (t : ℕ). f.high * t) top)

  -- It does not: the upper part ends the word, the lower begins the next.
  pub put_across :
      s.empty_bits < s.bit_len
      → s.bit_len ≤ 16
      → put_bits s bits ≡ (
        (f.high * 2 ^ s.empty_bits + bits / 2 ^ (s.bit_len - s.empty_bits)) ∷ [],
        record {
          cur = bits % 2 ^ (s.bit_len - s.empty_bits) * 2 ^ (16 - (s.bit_len - s.empty_bits));
          empty_bits = 16 - (s.bit_len - s.empty_bits);
          bit_len = s.bit_len - s.empty_bits;
        },
      )
  unfolding put_bits
  put_across lt le =
      rw (lt→leb s.bit_len s.empty_bits lt)
        (λ i. (word i ∷ [], record { cur = next i; empty_bits = 16 - k; bit_len = k }))
    where
      e : ℕ
      e = s.empty_bits

      k : ℕ
      k = s.bit_len - s.empty_bits

      below : bits / 2 ^ k < 2 ^ e
      below =
          let top : 2 ^ s.bit_len ≡ 2 ^ e * 2 ^ k = pow_sum e k s.bit_len (omega arith) in
          let cut : bits / 2 ^ k * 2 ^ k ≤ bits = omega arith in grind (arith, top, cut, pow_pos k)

      word : u16 (bit_or s.cur (bits / 2 ^ k)) ≡ f.high * 2 ^ e + bits / 2 ^ k
      word =
          ap (λ (c : ℕ). u16 (bit_or c (bits / 2 ^ k))) f.filled
          ∙ ap (λ (c : ℕ). u16 c) (or_fields e f.high (bits / 2 ^ k) below)
          ∙ small_word (below_word f.high e (bits / 2 ^ k) f.room f.fits below)

      next : u16 (bit_or 0 (bits * 2 ^ (16 - k))) ≡ bits % 2 ^ k * 2 ^ (16 - k)
      next = ap (λ (c : ℕ). u16 c) (zero-or (bits * 2 ^ (16 - k))) ∙ half_word bits k (omega arith)

pub take_inside :
    (e l bits low : ℕ) (ws : List ℕ)
    → e ≤ 16
    → l ≤ e
    → bits < 2 ^ l
    → low < 2 ^ (e - l)
    → take_bits (reader e (bits * 2 ^ (e - l) + low) ws) l ≡ some (bits, reader (e - l) low ws)
unfolding take_bits
take_inside e l bits low ws he le hb hl =
    rw (le→ltb e l le)
      (λ i. some (code i, record { full_bits = e - l; data_tmp = rest i; words = ws }))
  where
    A : ℕ
    A = 2 ^ (16 - e)

    C : ℕ
    C = 2 ^ (e - l)

    code : u16 (bit_or 0 ((bits * C + low) * A / 2 ^ (16 - l))) ≡ bits
    code =
        ap (λ (c : ℕ). u16 c) (zero-or ((bits * C + low) * A / 2 ^ (16 - l)))
        ∙ ap (λ (d : ℕ). u16 ((bits * C + low) * A / d))
            (pow_sum (16 - e) (e - l) (16 - l) (omega arith))
        ∙ ap (λ (c : ℕ). u16 c) (bits_at A C bits low (pow_pos (16 - e)) hl)
        ∙ small_word (code_word bits l (omega arith) hb)

    whole : 2 ^ 16 ≡ A * 2 ^ l * C
    whole =
        pow_sum (16 - (e - l)) (e - l) 16 (omega arith)
        ∙ ap (λ (t : ℕ). t * C) (pow_sum (16 - e) l (16 - (e - l)) (omega arith))

    rest : u16 ((bits * C + low) * A * 2 ^ l) ≡ low * 2 ^ (16 - (e - l))
    rest =
        ap (λ (d : ℕ). (bits * C + low) * A * 2 ^ l % d) whole
        ∙ rest_at A (2 ^ l) C bits low (pow_pos (16 - e)) (pow_pos l) hl
        ∙ ap (λ (t : ℕ). low * t) (sym (pow_sum (16 - e) l (16 - (e - l)) (omega arith)))

pub take_across :
    (e l bits low : ℕ) (ws : List ℕ)
    → l ≤ 16
    → e < l
    → bits < 2 ^ l
    → low < 2 ^ (16 - (l - e))
    → take_bits
        (reader e (bits / 2 ^ (l - e)) ((bits % 2 ^ (l - e) * 2 ^ (16 - (l - e)) + low) ∷ ws))
        l
      ≡ some (bits, reader (16 - (l - e)) low ws)
unfolding take_bits
take_across e l bits low ws hl lt hb hlow =
    rw (lt→ltb e l lt)
      (λ i. some (code i, record { full_bits = 16 - k; data_tmp = rest i; words = ws }))
  where
    k : ℕ
    k = l - e

    D : ℕ
    D = 2 ^ (16 - k)

    small : bits < 2 ^ 16
    small = code_word bits l hl hb

    parts : bits / 2 ^ k * 2 ^ k + bits % 2 ^ k ≡ bits
    parts = omega arith

    code :
        u16 (
          bit_or
            (u16 (bits / 2 ^ k * 2 ^ (16 - e) / 2 ^ (16 - e) * 2 ^ k))
            ((bits % 2 ^ k * D + low) / D))
        ≡ bits
    code =
        ap₂ (λ (h t : ℕ). u16 (bit_or (u16 (h * 2 ^ k)) t))
          (mul-div_cancel (bits / 2 ^ k) (pow_pos (16 - e))) (div_fields (bits % 2 ^ k) D low hlow)
        ∙ ap (λ (h : ℕ). u16 (bit_or h (bits % 2 ^ k)))
            (small_word {x = bits / 2 ^ k * 2 ^ k} (omega (arith, parts, small)))
        ∙ ap (λ (c : ℕ). u16 c)
            (or_fields k (bits / 2 ^ k) (bits % 2 ^ k) (omega (arith, pow_pos k)) ∙ parts)
        ∙ small_word small

    rest : u16 ((bits % 2 ^ k * D + low) * 2 ^ k) ≡ low * 2 ^ (16 - (16 - k))
    rest =
        let top : 2 ^ 16 ≡ D * 2 ^ k = pow_sum (16 - k) k 16 (omega arith) in
        let split : (bits % 2 ^ k * D + low) * 2 ^ k ≡ bits % 2 ^ k * (D * 2 ^ k) + low * 2 ^ k =
          omega arith in
        let less : low * 2 ^ k < D * 2 ^ k = grind (arith, pow_pos k) in
        ap₂ (λ (n d : ℕ). n % d) split top
        ∙ mod_fields (bits % 2 ^ k) (D * 2 ^ k) (low * 2 ^ k) less
        ∙ ap (λ (n : ℕ). low * 2 ^ n) {x = k} {y = 16 - (16 - k)} (omega arith)
