-- ===== src/Features/Windows.antt =====
-- 2df.c: what is kept of an image is the best of all its windows.
use im_dedup_plus.Prelude.{
  ℕ, zero, suc, ◌+◌, ◌*◌, ◌%◌, ◌/◌, ◌^◌, ◌<◌, ◌≡◌, inl, inr, arith, u64, ◌<<<◌, bit_and, bit_or,
  or_fields, ◌==◌, ◌&&◌, ltb, Bool-cases, if◌then◌else◌,
}
use im_dedup_plus.Prelude.{get_or, Option-cases}
use im_dedup_plus.Image.{Block, Plane, block_at}
use im_dedup_plus.Features.{bit_per_slot, add_bits, add_rows, map_at}
use im_dedup_plus.Features.Slots.{BlockSize, two, four, eight}

-- A slot has as many bits as coefficients go into it.
doubled : ℕ → ℕ → ℕ
doubled zero bound = bound
doubled (suc n) bound = doubled n (2 * bound)

add_bits-lt :
    (n k : ℕ) (b : Block) (slot bound : ℕ) → slot < bound → add_bits n k b slot < doubled n bound
unfolding add_bits doubled
add_bits-lt zero k b slot bound h = h
add_bits-lt (suc n) k b slot bound h =
    add_bits-lt n (k + 1) b
      (bit_or (u64 (slot <<< 1)) (if bit_and (get_or b k 0) 1 == 0 then 0 else 1)) (2 * bound)
      (elim (Bool-cases (bit_and (get_or b k 0) 1 == 0)) [
        | inl e ↦ rw (e, if◌then◌else◌) (one_bit slot bound 0 (omega arith) h)
        | inr e ↦ rw (e, if◌then◌else◌) (one_bit slot bound 1 (omega arith) h)
      ])
  where
    one_bit :
        (slot bound bit : ℕ) → bit < 2 → slot < bound → bit_or (u64 (slot <<< 1)) bit < 2 * bound
    one_bit slot bound bit p h =
        let high : u64 (slot <<< 1) ≡ slot % 2 ^ 63 * 2 ^ 1 = omega arith in
        rw high (omega (arith, or_fields 1 (slot % 2 ^ 63) bit p, p, h))

doubled_rows : ℕ → ℕ → ℕ → ℕ
doubled_rows step zero bound = bound
doubled_rows step (suc n) bound = doubled_rows step n (doubled step bound)

add_rows-lt :
    (step n k : ℕ) (b : Block) (slot bound : ℕ)
    → slot < bound
    → add_rows step n k b slot < doubled_rows step n bound
unfolding add_rows doubled_rows
add_rows-lt step zero k b slot bound h = h
add_rows-lt step (suc n) k b slot bound h =
    add_rows-lt step n (k + 1) b (add_bits step (k * 8) b slot) (doubled step bound)
      (add_bits-lt step (k * 8) b slot bound h)

enough_bits :
    {size : ℕ}
    → BlockSize size
    → (b : Block) → add_rows (8 / size) (8 / size) 0 b 0 < 2 ^ bit_per_slot size
unfolding doubled_rows doubled bit_per_slot
enough_bits two b = add_rows-lt 4 4 0 b 0 1 (omega arith)
enough_bits four b = add_rows-lt 2 2 0 b 0 1 (omega arith)
enough_bits eight b = add_rows-lt 1 1 0 b 0 1 (omega arith)

some_bits : {size : ℕ} → BlockSize size → 0 < 2 ^ bit_per_slot size
unfolding bit_per_slot
some_bits two = omega arith
some_bits four = omega arith
some_bits eight = omega arith

pub map_at-lt :
    (p : Plane) (size : ℕ) → BlockSize size → (i j : ℕ) → map_at p size i j < 2 ^ bit_per_slot size
unfolding map_at
map_at-lt p size b i j = elim (Bool-cases (ltb i p.height && ltb j p.width)) [
  | inr out ↦ rw (map_at, out, if◌then◌else◌) (some_bits b)
  | inl within ↦ elim (Option-cases (block_at p i j)) [
    | inl e ↦ rw (map_at, within, if◌then◌else◌, e) (some_bits b)
    | inr (block, e) ↦ rw (map_at, within, if◌then◌else◌, e) (enough_bits b block)
  ]
]
