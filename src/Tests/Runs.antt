-- ===== src/Tests/Runs.antt =====
-- The theorems on concrete images.
use im_dedup_plus.Prelude.{ℕ, zero, suc, ◌^◌, ◌≤◌, ◌<◌, ◌≡◌, refl, arith, true, false}
use im_dedup_plus.Prelude.{some, get_or, replicate, [], ◌∷◌, map}
use im_dedup_plus.Image.{JpegCoe, plane, img_sizes}
use im_dedup_plus.Index.{Indexer, index_compute_thread, create_block_index}
use im_dedup_plus.Index.Scan.{IsIndex, index_compute_thread-IsIndex}
use im_dedup_plus.Delta.Encode.{DedupRes, SubBlockTab, match_len, get_instructions}
use im_dedup_plus.Delta.Decode.{stored, de_dedup_a_single_img}
use im_dedup_plus.Delta.RoundTrip.{de_dedup_a_single_img-get_instructions}
use im_dedup_plus.Delta.Indexed.{de_dedup_a_single_img-create_block_index}
use im_dedup_plus.Delta.Matching.{Matches, match_found}
use im_dedup_plus.Rejpeg.Zigzag.{zigzag, de_zigzag}
use im_dedup_plus.Rejpeg.Zigzag.Inverse.{de_zigzag-zigzag}
use im_dedup_plus.Rejpeg.Rle.{entry, rle_encode, rle_decode}
use im_dedup_plus.Rejpeg.Rle.Runs.{tagged}
use im_dedup_plus.Rejpeg.Rle.RoundTrip.{IsBlock, rle_decode-rle_encode}
use im_dedup_plus.Rejpeg.Vli.{magnitude, vli_encode, vli_decode}
use im_dedup_plus.Rejpeg.Vli.Rounds.{nibble, nibble-lt, AllCodable}
use im_dedup_plus.Rejpeg.Vli.RoundTrip.{vli_decode-vli_encode}
use im_dedup_plus.Rejpeg.Codable.{IsCoefficient, IsJpegBlock, rle_encode-AllCodable}
use im_dedup_plus.Rejpeg.Packing.{DeltaIns, compress_delta_ins, block_count, decompress_delta_ins}
use im_dedup_plus.Rejpeg.Packing.RoundTrip.{decompress_delta_ins-compress_delta_ins}
use im_dedup_plus.Detect.{ImageData}
use im_dedup_plus.Prelude.{◌==◌, if◌then◌else◌}
use im_dedup_plus.Delta.Longest.{AllAtMost, best_match-AllAtMost}
use im_dedup_plus.Delta.Encode.{Match, best_match, no_match}
use im_dedup_plus.Prelude.{◌≤◌}
use im_dedup_plus.Tests.{list_table, block, base, target, base-IsImage, target-IsImage, copy_coder}

index_then_rebuild_example :
    (tab : SubBlockTab list_table) × (size : ℕ) × (create_block_index list_table (λ _. 0) base true
      ≡ some (tab, size))
    × (r : DedupRes) × (get_instructions list_table true tab base target ≡ some r)
    × (image : JpegCoe) × (de_dedup_a_single_img (stored r) base ≡ some image)
    × (image.blocks ≡ target.blocks)
    × (img_sizes image ≡ img_sizes target)
index_then_rebuild_example =
    de_dedup_a_single_img-create_block_index list_table true base target base-IsImage target-IsImage

same_place_example :
    (r : DedupRes) × (get_instructions list_table false (λ i. []) base target ≡ some r)
    × (image : JpegCoe) × (de_dedup_a_single_img (stored r) base ≡ some image)
    × (image.blocks ≡ target.blocks)
    × (img_sizes image ≡ img_sizes target)
same_place_example =
    de_dedup_a_single_img-get_instructions list_table false (λ i. []) base target base-IsImage
      target-IsImage (λ i h k. tt)

thread_example :
    (s : Indexer list_table) × (index_compute_thread list_table (plane base 0) 0 ≡ some s)
    × IsIndex list_table (plane base 0) base-IsImage.y_plane s.table
thread_example = index_compute_thread-IsIndex list_table (plane base 0) base-IsImage.y_plane

cells_zero : (n i : ℕ) → get_or (replicate {A = ℕ} n 0) i 0 ≡ 0
cells_zero zero i = refl
cells_zero (suc n) zero = refl
cells_zero (suc n) (suc i) = cells_zero n i

pub block-IsJpegBlock : (dc : ℕ) → dc ≤ 2047 → IsJpegBlock (block dc)
unfolding magnitude
block-IsJpegBlock dc h = (refl, cells)
  where
    cells : (i : ℕ) → IsCoefficient (get_or (block dc) i 0)
    cells zero = (omega arith, ground arith)
    cells (suc i) = rw (cells_zero 63 i) (omega arith, omega arith)

block-IsBlock : (dc : ℕ) → dc < 2 ^ 16 → IsBlock (block dc)
block-IsBlock dc h = (refl, cells)
  where
    cells : (i : ℕ) → get_or (block dc) i 0 < 2 ^ 16
    cells zero = h
    cells (suc i) = rw (cells_zero 63 i) (omega arith)

zigzag_example : de_zigzag (zigzag (replicate 64 7) (block 5)) ≡ block 5
zigzag_example = de_zigzag-zigzag (replicate 64 7) (block 5) refl refl

rle_example :
    rle_decode
      (map (tagged nibble nibble-lt) (rle_encode (replicate 64 7) (block 5 ∷ block 65535 ∷ [])))
    ≡ block 5 ∷ block 65535 ∷ []
rle_example =
    rle_decode-rle_encode nibble nibble-lt (replicate 64 7) refl (block 5 ∷ block 65535 ∷ [])
      (block-IsBlock 5 (omega arith), (block-IsBlock 65535 (omega arith), tt))

vli_example :
    vli_decode
      (vli_encode 0 (entry 0 5 ∷ entry 3 0 ∷ entry 1 65530 ∷ [])).0
      (vli_encode 0 (entry 0 5 ∷ entry 3 0 ∷ entry 1 65530 ∷ [])).1
    ≡ some (map (tagged nibble nibble-lt) (entry 0 5 ∷ entry 3 0 ∷ entry 1 65530 ∷ []))
unfolding magnitude
vli_example = vli_decode-vli_encode 0 (entry 0 5) (entry 3 0 ∷ entry 1 65530 ∷ []) (
  (omega arith, omega arith, omega arith),
  ((omega arith, omega arith, omega arith), ((omega arith, omega arith, omega arith), tt)),
)

codable_example : AllCodable (rle_encode (replicate 64 7) (block 5 ∷ block 8 ∷ []))
codable_example =
    rle_encode-AllCodable (replicate 64 7) (block 5 ∷ block 8 ∷ []) refl
      (block-IsJpegBlock 5 (omega arith), (block-IsJpegBlock 8 (omega arith), tt))

match_example :
    (n : ℕ) × (match_len (suc 3) true (plane base 0) (plane target 0) 0 1 0 0 0 ≡ some n)
    × Matches (plane base 0) (plane target 0) 1 0 0 0 n
match_example =
    match_found (plane base 0) (plane target 0) base-IsImage.y_plane target-IsImage.y_plane true 0 1
      (λ e. omega arith) (omega arith) 0 0 (omega arith)

some_arrays : DeltaIns
some_arrays = record {
  cpx = 1 ∷ 0 ∷ 2 ∷ 0 ∷ [];
  cpy = 0 ∷ 0 ∷ 1 ∷ 0 ∷ [];
  cpl = 2 ∷ 0 ∷ 1 ∷ 0 ∷ [];
  inl = 9 ∷ 0 ∷ [];
}

packing_example :
    decompress_delta_ins copy_coder
      (λ i. 2)
      (compress_delta_ins copy_coder some_arrays).0
      (compress_delta_ins copy_coder some_arrays).1
    ≡ some some_arrays
unfolding some_arrays block_count
packing_example =
    decompress_delta_ins-compress_delta_ins copy_coder (λ i. 2) some_arrays
      (omega arith, omega arith) (omega arith, omega arith) (omega arith, omega arith)
      (omega arith, omega arith)

features : ℕ → ℕ → ℕ → ImageData
features a b c = record {
  sfs = λ k. if k == 0 then a else if k == 1 then b else c;
  dc = λ k. 7;
  position = λ k. k;
  decd_data = 0;
}

longest_example :
    (m : Match) × (best_match
        (plane base 0)
        (plane target 0)
        0
        1
        (record { x = 1; y = 0 } ∷ record { x = 0; y = 1 } ∷ [])
        no_match
      ≡ some m)
    × (0 ≤ m.len)
    × AllAtMost
        (plane base 0)
        (plane target 0)
        base-IsImage.y_plane
        target-IsImage.y_plane
        0
        1
        (omega arith)
        (omega arith)
        m.len
        (record { x = 1; y = 0 } ∷ record { x = 0; y = 1 } ∷ [])
longest_example =
    best_match-AllAtMost (plane base 0) (plane target 0) base-IsImage.y_plane target-IsImage.y_plane
      0 1 (omega arith) (omega arith) (record { x = 1; y = 0 } ∷ record { x = 0; y = 1 } ∷ [])
      no_match (omega arith, (omega arith, tt))
