-- ===== src/Features/Slots.antt =====
-- 2df.c: a window slides by one column, and its value is the one that its own slots give.
use im_dedup_plus.Prelude.{
  ℕ, zero, suc, ◌+◌, ◌*◌, ◌%◌, ◌^◌, ◌<◌, ◌≡◌, refl, sym, ap, ◌∙◌, arith, u64, ◌<<<◌, bit_or,
}
use im_dedup_plus.Prelude.{or_fields}
use im_dedup_plus.Features.{push_column, push_columns, bit_per_slot}

-- The block sizes whose windows fill the 64 bits of a value.
pub data BlockSize : ℕ → Type 0 where
  two : BlockSize 2
  four : BlockSize 4
  eight : BlockSize 8

-- One slot behind a value, modulo 2^64.
one_slot :
    {size : ℕ} (b : BlockSize size) (f f' v : ℕ)
    → v < 2 ^ bit_per_slot size
    → f ≡ f' % 2 ^ 64
    → bit_or (u64 (f <<< bit_per_slot size)) v ≡ (f' * 2 ^ bit_per_slot size + v) % 2 ^ 64
unfolding bit_per_slot
one_slot two f f' v h e =
    let high : u64 (f <<< 16) ≡ f % 2 ^ 48 * 2 ^ 16 = omega arith in
    rw high (or_fields 16 (f % 2 ^ 48) v h ∙ omega (arith, e, h))
one_slot four f f' v h e =
    let high : u64 (f <<< 4) ≡ f % 2 ^ 60 * 2 ^ 4 = omega arith in
    rw high (or_fields 4 (f % 2 ^ 60) v h ∙ omega (arith, e, h))
one_slot eight f f' v h e =
    let high : u64 (f <<< 1) ≡ f % 2 ^ 63 * 2 ^ 1 = omega arith in
    rw high (or_fields 1 (f % 2 ^ 63) v h ∙ omega (arith, e, h))

expand : (f k e m : ℕ) → (f * k + e) * m ≡ f * (k * m) + e * m
expand f k e m = grind arith

module _ (slots : ℕ → ℕ → ℕ) (base : ℕ) where
  -- The value of some slots of a column, without a width, in front of which `f` stands.
  column_value : ℕ → ℕ → ℕ → ℕ → ℕ
  column_value zero i j f = f
  column_value (suc n) i j f = column_value n (i + 1) j (f * base + slots i j)

  factor : ℕ → ℕ
  factor zero = 1
  factor (suc n) = base * factor n

  column_split : (n i j f : ℕ) → column_value n i j f ≡ f * factor n + column_value n i j 0
  unfolding column_value factor
  column_split zero i j f = omega arith
  column_split (suc n) i j f =
      let a = column_split n (i + 1) j (f * base + slots i j) in
      let b = column_split n (i + 1) j (0 * base + slots i j) in grind (arith, a, b)

  module _ (size : ℕ) where
    columns_value : ℕ → ℕ → ℕ → ℕ → ℕ
    columns_value zero i j f = f
    columns_value (suc c) i j f = columns_value c i (j + 1) (column_value size i j f)

    columns_factor : ℕ → ℕ
    columns_factor zero = 1
    columns_factor (suc c) = factor size * columns_factor c

    columns_split :
        (c i j f : ℕ) → columns_value c i j f ≡ f * columns_factor c + columns_value c i j 0
    unfolding columns_value columns_factor
    columns_split zero i j f = omega arith
    columns_split (suc c) i j f =
        let a = columns_split c i (j + 1) (column_value size i j f) in
        let b = columns_split c i (j + 1) (column_value size i j 0) in
        let d = column_split size i j f in
        omega (
          arith,
          a,
          b,
          ap (λ (t : ℕ). t * columns_factor c) d,
          expand f (factor size) (column_value size i j 0) (columns_factor c),
        )

    columns_last :
        (c i j f : ℕ)
        → columns_value (suc c) i j f ≡ column_value size i (j + c) (columns_value c i j f)
    unfolding columns_value
    columns_last zero i j f = ap (λ (k : ℕ). column_value size i k f) (omega arith)
    columns_last (suc c) i j f =
        columns_last c i (j + 1) (column_value size i j f)
        ∙ ap (λ (k : ℕ). column_value size i k (columns_value (suc c) i j f)) (omega arith)

drop_whole : (q r : ℕ) → (q * 2 ^ 64 + r) % 2 ^ 64 ≡ r % 2 ^ 64
drop_whole q r = omega arith

-- The slots of a window fill a value.
whole_factor :
    (slots : ℕ → ℕ → ℕ) {size : ℕ}
    → BlockSize size
    → columns_factor slots (2 ^ bit_per_slot size) size size ≡ 2 ^ 64
unfolding columns_factor factor bit_per_slot
whole_factor slots two = refl
whole_factor slots four = refl
whole_factor slots eight = refl

-- With the slots of a window of such a size, modulo 2^64.
module _ (slots : ℕ → ℕ → ℕ) (size : ℕ) (b : BlockSize size)
    (small : (i j : ℕ) → slots i j < 2 ^ bit_per_slot size) where
  abbrev bits : ℕ
  bits = bit_per_slot size

  abbrev whole : ℕ → ℕ → ℕ → ℕ
  whole = columns_value slots (2 ^ bits) size size

  column_mod :
      (n i j f f' : ℕ)
      → f ≡ f' % 2 ^ 64
      → push_column slots bits n i j f ≡ column_value slots (2 ^ bits) n i j f' % 2 ^ 64
  unfolding push_column column_value
  column_mod zero i j f f' e = e
  column_mod (suc n) i j f f' e =
      column_mod n (i + 1) j (bit_or (u64 (f <<< bits)) (slots i j)) (f' * 2 ^ bits + slots i j)
        (one_slot b f f' (slots i j) (small i j) e)

  columns_mod :
      (c i j f f' : ℕ)
      → f ≡ f' % 2 ^ 64
      → push_columns slots bits size c i j f ≡ columns_value slots (2 ^ bits) size c i j f' % 2 ^ 64
  unfolding push_columns columns_value
  columns_mod zero i j f f' e = e
  columns_mod (suc c) i j f f' e =
      columns_mod c i (j + 1) (push_column slots bits size i j f)
        (column_value slots (2 ^ bits) size i j f') (column_mod size i j f f' e)

  full : columns_factor slots (2 ^ bits) size size ≡ 2 ^ 64
  full = whole_factor slots b

  -- The value of the window of columns from `j` on, from its own slots.
  abbrev pub fresh : ℕ → ℕ → ℕ
  fresh i j = push_columns slots bits size size i j 0

  split :
      (i j : ℕ)
      → columns_value slots (2 ^ bits) size (suc size) i j 0
        ≡ column_value slots (2 ^ bits) size i j 0 * 2 ^ 64
          + columns_value slots (2 ^ bits) size size i (j + 1) 0
  unfolding columns_value
  split i j =
      columns_split slots (2 ^ bits) size size i (j + 1) (column_value slots (2 ^ bits) size i j 0)
      ∙ ap
          (λ (m : ℕ).
            column_value slots (2 ^ bits) size i j 0 * m
            + columns_value slots (2 ^ bits) size size i (j + 1) 0)
          full

  -- When the column behind a window is put in, what is left is the value of the window one further on.
  pub push_column-fresh :
      (i j : ℕ) → push_column slots bits size i (j + size) (fresh i j) ≡ fresh i (j + 1)
  push_column-fresh i j =
      let here = columns_mod size i j 0 0 refl in
      let there = columns_mod size i (j + 1) 0 0 refl in
      let first = column_value slots (2 ^ bits) size i j 0 in
      let slid : columns_value slots (2 ^ bits) size (suc size) i j 0
          ≡ first * 2 ^ 64 + columns_value slots (2 ^ bits) size size i (j + 1) 0 =
        split i j in
      column_mod size i (j + size) (fresh i j) (columns_value slots (2 ^ bits) size size i j 0) here
      ∙ ap (λ (n : ℕ). n % 2 ^ 64) (sym (columns_last slots (2 ^ bits) size size i j 0) ∙ slid)
      ∙ drop_whole first (columns_value slots (2 ^ bits) size size i (j + 1) 0)
      ∙ sym there
