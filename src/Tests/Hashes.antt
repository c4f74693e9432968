-- ===== src/Tests/Hashes.antt =====
-- rabin/rabin.c run on a small window, rabin/gear.c on a block, rabin/adler32.c on a few bytes.
use im_dedup_plus.Prelude.{ℕ, ◌^◌, ◌<◌, ◌≡◌, refl, arith}
use im_dedup_plus.Prelude.{
  some, ◌>>=◌, replicate, map, replicate-AllBytes, append-AllBytes, List, [], ◌∷◌, ◌++◌,
}
use im_dedup_plus.Prelude.{◌%◌, ◌<<<◌, u32, bit_or}
use im_dedup_plus.Adler.{adler32, adler32_base}
use im_dedup_plus.Prelude.{length}
use im_dedup_plus.Adler.{adler32_combine}
use im_dedup_plus.Adler.Append.{adler32-append}
use im_dedup_plus.Adler.Reference.{plain_sums, adler32-plain_sums}
use im_dedup_plus.Features.{Feature, no_feature}
use im_dedup_plus.Features.Best.{AllBestFrom}
use im_dedup_plus.Gear.{gear_slides, gear_slide_a_block}
use im_dedup_plus.Gear.Largest.{
  Halves, whole, gear_window, gear_blocks, gear_blocks-AllBestFrom, gear_bytes, gear_bytes-prefix,
}
use im_dedup_plus.Gear.Window.{gear_slides-window}
use im_dedup_plus.Rabin.{RabinT, polynomial, poly_mod, calc_tables, rabin_reset, rabin_slide_bytes}
use im_dedup_plus.Rabin.Remainder.{poly_mod_ends}
use im_dedup_plus.Rabin.Tables.{polynomial-deg}
use im_dedup_plus.Rabin.Hash.{IsHash, rabin_slide_bytes-calc_tables}

slide_bytes_example :
    (h : RabinT) × ((do
      (out_table, mod_table) ← calc_tables 3
      start ← rabin_reset 3 out_table mod_table
      rabin_slide_bytes 3 out_table mod_table start (7 ∷ 200 ∷ 0 ∷ 255 ∷ []))
      ≡ some h)
    × IsHash 3 h
slide_bytes_example =
    rabin_slide_bytes-calc_tables 3 (7 ∷ 200 ∷ 0 ∷ 255 ∷ []) (omega arith)
      (omega arith, (omega arith, (omega arith, (omega arith, tt))))

poly_mod_example : (r : ℕ) × (poly_mod 0xFFFF00000000FFFF polynomial ≡ some r) × (r < 2 ^ 53)
poly_mod_example =
    poly_mod_ends polynomial 53 0xFFFF00000000FFFF (omega arith, omega arith) (omega arith)
      polynomial-deg (omega arith)

abbrev light : List ℕ
light = replicate 64 200

abbrev dark : List ℕ
dark = replicate 64 3

window_example : gear_slides 0 (9 ∷ light) ≡ gear_slides 12345 (9 ∷ light)
window_example = gear_slides-window 0 12345 (9 ∷ light) (omega arith) (omega arith) (omega arith)

abbrev some_block : Halves
some_block = (
  light,
  dark,
  refl,
  refl,
  replicate-AllBytes 64 200 (omega arith),
  replicate-AllBytes 64 3 (omega arith),
)

abbrev lines : List (ℕ × ℕ)
lines = (3, 5) ∷ (7, 1) ∷ []

blocks_example :
    (hashes : List ℕ) × (fs : List Feature) × (map
        (λ b. gear_slide_a_block (whole b))
        (some_block ∷ [])
      ≡ map (λ h. some h) hashes)
    × (gear_blocks lines (map whole (some_block ∷ [])) (no_feature ∷ no_feature ∷ []) ≡ some fs)
    × AllBestFrom lines (map gear_window hashes) (no_feature ∷ no_feature ∷ []) fs
blocks_example = gear_blocks-AllBestFrom lines (some_block ∷ []) (no_feature ∷ no_feature ∷ [])

prefix_example : gear_bytes lines (light ++ light) ≡ gear_bytes lines (light ++ dark)
prefix_example =
    gear_bytes-prefix lines (light ++ light) (light ++ dark)
      (append-AllBytes light light (replicate-AllBytes 64 200 (omega arith))
        (replicate-AllBytes 64 200 (omega arith)))
      (append-AllBytes light dark (replicate-AllBytes 64 200 (omega arith))
        (replicate-AllBytes 64 3 (omega arith)))
      (omega arith) refl refl

plain_example :
    (let (a, s) = plain_sums (200 ∷ 0 ∷ 255 ∷ []) 1 0 in
      adler32 1 (200 ∷ 0 ∷ 255 ∷ [])
      ≡ some (bit_or (a % adler32_base) (u32 ((s % adler32_base) <<< 16))))
plain_example =
    adler32-plain_sums (200 ∷ 0 ∷ 255 ∷ []) (omega arith, (omega arith, (omega arith, tt)))

append_example :
    (c1 : ℕ) × (c2 : ℕ) × (adler32 1 light ≡ some c1)
    × (adler32 1 dark ≡ some c2)
    × (adler32 1 (light ++ dark) ≡ some (adler32_combine c1 c2 (length dark)))
append_example =
    adler32-append light dark (replicate-AllBytes 64 200 (omega arith))
      (replicate-AllBytes 64 3 (omega arith))
