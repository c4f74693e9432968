-- ===== src/Tests/Files.antt =====
-- Small images on their way through the archive.
use im_dedup_plus.Prelude.{ℕ, ◌^◌, ◌<◌, ◌≡◌, refl, arith, u64, leb, Bool-cases, inl, inr}
use im_dedup_plus.Prelude.{some, ◌>>=◌, length, length-replicate, replicate, map, List, [], ◌∷◌}
use im_dedup_plus.Rejpeg.Container.RoundTrip.{coded_blocks}
use im_dedup_plus.Rejpeg.Packing.{DeltaIns, block_count}
use im_dedup_plus.Rejpeg.Retry.Fits.{IsWithinRatio, coded_blocks-room}
use im_dedup_plus.Rejpeg.Codable.{AllJpegBlocks}
use im_dedup_plus.Archive.Cache.{Output, write_buffer, write_cache, write_file}
use im_dedup_plus.Archive.Order.{write_file-in_order, write_cache-overtakes}
use im_dedup_plus.Archive.Record.{
  DedupRes, RejpegRes, sub_size, array_bytes, pieces, all_pieces, final_size, read_images,
}
use im_dedup_plus.Rejpeg.Bytes.{u32_bytes}
use im_dedup_plus.Archive.RoundTrip.{IsWritable, node_of, read_images-write_file}
use im_dedup_plus.Archive.Stages.{code_images, decode_images}
use im_dedup_plus.Archive.Stages.RoundTrip.{IsStorable, decoded_of, decode_images-code_images}
use im_dedup_plus.Tests.{block, copy_coder}
use im_dedup_plus.Tests.Runs.{block-IsJpegBlock}

abbrev three_pieces : List (List ℕ)
three_pieces = (1 ∷ 2 ∷ 3 ∷ []) ∷ (4 ∷ 5 ∷ []) ∷ (6 ∷ []) ∷ []

in_order_example : write_file 16 (replicate 4 9) three_pieces ≡ some (1 ∷ 2 ∷ 3 ∷ 4 ∷ 5 ∷ 6 ∷ [])
in_order_example =
    write_file-in_order 16 (replicate 4 9) three_pieces (omega arith) (omega arith)
      (omega arith, (omega arith, (omega arith, tt)))

-- Two bytes wait in a buffer of four.
abbrev waiting : Output
waiting = record {
  cache = record { buffer = 1 ∷ 2 ∷ 9 ∷ 9 ∷ []; ptr = 2; left_size = 2; size = 4 };
  file = 7 ∷ [];
}

overtakes_example :
    (write_cache (3 ∷ 4 ∷ 5 ∷ 6 ∷ 8 ∷ []) waiting >>= write_buffer)
    ≡ some (record waiting { file = 7 ∷ 3 ∷ 4 ∷ 5 ∷ 6 ∷ 8 ∷ 1 ∷ 2 ∷ [] })
overtakes_example =
    write_cache-overtakes waiting (3 ∷ 4 ∷ 5 ∷ 6 ∷ 8 ∷ [])
      (record { sized = refl; parted = refl; small = omega arith }) (omega arith)

abbrev two_blocks : List (List ℕ)
two_blocks = block 5 ∷ block 8 ∷ []

two_blocks-AllJpegBlocks : AllJpegBlocks two_blocks
two_blocks-AllJpegBlocks =
    (block-IsJpegBlock 5 (omega arith), (block-IsJpegBlock 8 (omega arith), tt))

copy-IsWithinRatio : (lens : List ℕ) → length lens < 2 ^ 20 → IsWithinRatio copy_coder lens
copy-IsWithinRatio lens h room = elim (Bool-cases (leb (length lens) room)) [
  | inl e ↦ rw e (λ some_code. omega (arith, h))
  | inr e ↦ rw e (λ some_code. absurd (omega (arith, some_code)))
]

lens-lt : length (coded_blocks (replicate 64 7) 0 two_blocks).1 < 2 ^ 20
lens-lt =
    omega (arith, (coded_blocks-room (replicate 64 7) 0 two_blocks refl two_blocks-AllJpegBlocks).1)

abbrev some_ins : DeltaIns
some_ins = record { cpx = 1 ∷ 0 ∷ []; cpy = 2 ∷ 0 ∷ []; cpl = 3 ∷ 0 ∷ []; inl = 2 ∷ 0 ∷ [] }

abbrev some_image : DedupRes
some_image = record {
  base_name = 98 ∷ 97 ∷ [];
  name = 99 ∷ [];
  img_size = λ i. 2;
  y_counter = 1;
  u_counter = 0;
  v_counter = 0;
  header = 255 ∷ 216 ∷ [];
  ffxx = 255;
  xx = 217;
  ins = some_ins;
  insert_p = two_blocks;
}

abbrev some_result : RejpegRes
some_result = record {
  dedup_res = some_image;
  rejpeg_res = 1 ∷ 2 ∷ 3 ∷ [];
  flag = 0;
  ins = some_ins;
}

some_result-IsWritable : IsWritable some_result
unfolding sub_size
some_result-IsWritable = record {
  base_chars = grind arith;
  name_chars = grind arith;
  sizes = grind arith;
}

read_example :
    (file : List ℕ) × (write_file 256 (replicate 64 0) (all_pieces (some_result ∷ some_result ∷ []))
      ≡ some file)
    × (read_images (length file) file ≡ some (map node_of (some_result ∷ some_result ∷ [])))
    × (final_size (some_result ∷ some_result ∷ []) ≡ u64 (length file))
unfolding all_pieces pieces sub_size array_bytes u32_bytes
read_example =
    read_images-write_file 256 (replicate 64 0) (some_result ∷ some_result ∷ []) (omega arith) refl
      (grind arith) (some_result-IsWritable, (some_result-IsWritable, tt))

some_image-IsStorable : IsStorable copy_coder (replicate 64 7) 0 1024 some_image
unfolding block_count
some_image-IsStorable = record {
  base_chars = grind arith;
  name_chars = grind arith;
  numbers = grind arith;
  base_fits = omega arith;
  name_fits = omega arith;
  header_fits = omega arith;
  cpx_fits = (omega arith, omega arith);
  cpy_fits = (omega arith, omega arith);
  cpl_fits = (omega arith, omega arith);
  inl_fits = (omega arith, omega arith);
  blocks = two_blocks-AllJpegBlocks;
  blocks_fit = omega arith;
  ratio = copy-IsWithinRatio (coded_blocks (replicate 64 7) 0 two_blocks).1 lens-lt;
}

through_example :
    (file : List ℕ) × ((do
      rs ← code_images copy_coder (replicate 64 7) 0 (some_image ∷ some_image ∷ [])
      write_file 4096 (replicate 1024 0) (all_pieces rs))
      ≡ some file)
    × ((do rs ← read_images (length file) file; decode_images copy_coder rs)
        ≡ some (map decoded_of (some_image ∷ some_image ∷ [])))
through_example =
    decode_images-code_images copy_coder (replicate 64 7) 0 4096 (replicate 1024 0)
      (some_image ∷ some_image ∷ []) refl (omega arith) (omega arith)
      (length-replicate {A = ℕ} 1024 0) (some_image-IsStorable, (some_image-IsStorable, tt))
