-- ===== src/Archive/Stages.antt =====
-- rejpeg.c: what `rejpeg_thread` does with an image before it is written, and `de_decode_thread` with
-- one that was read; and an image that goes through both, and through the archive.
pub mod RoundTrip
use im_dedup_plus.Prelude.{ℕ, u32, ◌<<<◌, ◌==◌, if◌then◌else◌}
use im_dedup_plus.Prelude.{Option, none, some, ◌>>=◌, ◌>>◌, guard, length, get_or, List, [], ◌∷◌}
use im_dedup_plus.Rejpeg.Container.{Fse, decode_myjpeg}
use im_dedup_plus.Rejpeg.Packing.{DeltaIns, compress_delta_ins, decompress_delta_ins}
use im_dedup_plus.Rejpeg.Retry.{Coding, coded_into, not_coded, past_end, rejpeg_a_single_img}
use im_dedup_plus.Archive.Record.{DedupRes, RejpegRes, DeRead}

-- The bytes at `rejpegRes`, as many as `rejpegSize`. Without inserted blocks the loop is not entered,
-- and the size is 0. `none`: the size is -1 in a `uint32_t` and the buffer is freed.
unfoldable pub result_bytes : ℕ → Coding → Option (List ℕ)
result_bytes inserted (coded_into buf) = some buf
result_bytes inserted past_end = none
result_bytes inserted not_coded = guard (u32 (inserted <<< 7) == 0) >> some []

-- `rejpeg_a_single_img` and `compress_delta_ins`.
unfoldable pub code_image : Fse → List ℕ → ℕ → DedupRes → Option RejpegRes
unfolding result_bytes
code_image fse tmp len0 d = do
  coding ← rejpeg_a_single_img fse tmp len0 d.insert_p
  bytes ← result_bytes (length d.insert_p) coding
  some (record {
    dedup_res = d;
    rejpeg_res = bytes;
    flag = (compress_delta_ins fse d.ins).0;
    ins = (compress_delta_ins fse d.ins).1;
  })

unfoldable pub code_images : Fse → List ℕ → ℕ → List DedupRes → Option (List RejpegRes)
unfolding code_image
code_images fse tmp len0 [] = some []
code_images fse tmp len0 (d ∷ ds) = do
  r ← code_image fse tmp len0 d
  rs ← code_images fse tmp len0 ds
  some (r ∷ rs)

-- What `in_d` and the four arrays of a node are after the loop body: the inserted blocks, none of them
-- if there are no bytes, and the instructions.
pub record Decoded : Type 0 where
  pub insert_p : List (List ℕ)
  pub ins : DeltaIns

unfoldable pub decode_image : Fse → DeRead → Option Decoded
decode_image fse r = do
  blocks ← (if get_or r.sizes 12 0 == 0 then some [] else decode_myjpeg fse r.in_d)
  ins ←
      decompress_delta_ins fse (λ i. get_or r.sizes i 0) r.flag
        (record { cpx = r.x; cpy = r.y; cpl = r.cp_l; inl = r.in_l })
  some (record { insert_p = blocks; ins = ins })

unfoldable pub decode_images : Fse → List DeRead → Option (List Decoded)
unfolding decode_image
decode_images fse [] = some []
decode_images fse (r ∷ rs) = do d ← decode_image fse r; ds ← decode_images fse rs; some (d ∷ ds)
