-- ===== src/Rejpeg/Container.antt =====
-- rejpeg.c: `recompressed_by_myjpeg` and `decode_myjpeg`, and `entropy_compress` of idedup.c.
pub mod RoundTrip
use im_dedup_plus.Prelude.{
  ℕ, ◌+◌, ◌-◌, ◌*◌, ◌^◌, ◌≤◌, ◌<◌, ◌≡◌, u32, ◌<<<◌, Bool, true, false, ◌||◌, ◌==◌, ltb,
  if◌then◌else◌, not,
}
use im_dedup_plus.Prelude.{Option, none, some, ◌>>=◌, length, List, [], ◌∷◌, ◌++◌}
use im_dedup_plus.Rejpeg.Bytes.{u32_bytes, word_bytes, read_u32, read_bytes, words_of}
use im_dedup_plus.Rejpeg.Rle.{rle_encode, rle_decode}
use im_dedup_plus.Rejpeg.Vli.{vli_encode, vli_decode}

-- What the code relies on of the vendored entropy coder. `compress` gets the size of its destination
-- and the source, and gives the result code and the bytes that it wrote; the code of a success is how
-- many bytes these are, or 0 or 1. A destination that is large enough for the source gets it back.
pub record Fse : Type 0 where
  pub compress : ℕ → List ℕ → ℕ × List ℕ
  pub is_error : ℕ → Bool
  pub decompress : ℕ → List ℕ → ℕ × List ℕ
  pub in_room :
      (cap : ℕ) (src : List ℕ) → is_error (compress cap src).0 ≡ false → (compress cap src).0 ≤ cap
  pub written :
      (cap : ℕ) (src : List ℕ)
      → is_error (compress cap src).0 ≡ false
      → 1 < (compress cap src).0
      → length (compress cap src).1 ≡ (compress cap src).0
  pub restored :
      (cap room : ℕ) (src : List ℕ)
      → is_error (compress cap src).0 ≡ false
      → 1 < (compress cap src).0
      → length src ≤ room
      → decompress room (compress cap src).1 ≡ (length src, src)

-- 0 if nothing is to be kept of what was written.
unfoldable pub entropy_compress : Fse → List ℕ → ℕ → ℕ × List ℕ
entropy_compress fse src dst_size =
    let (return_val, dst) = fse.compress dst_size src in
    if return_val == 0 || return_val == 1 || fse.is_error return_val
    then (0, dst)
    else (u32 return_val, dst)

-- The length data, with its flag and its size in front. `none` is the result -1.
unfoldable pub put_lengths : Fse → List ℕ → ℕ → Option (List ℕ)
unfolding entropy_compress
put_lengths fse lens room =
    let (len_len, dst) = entropy_compress fse lens room in
    if ltb 0 len_len
    then some (1 ∷ u32_bytes len_len ++ dst)
    else if ltb room (length lens)
    then none
    else some (0 ∷ u32_bytes (length lens) ++ lens)

-- The bytes from `buf` on up to the size that is returned; `none` is the result -1. `tmp` and `len0`
-- are what `zigzag` and `vliEncode` find in memory that is not set.
unfoldable pub put_blocks : Fse → List ℕ → ℕ → List (List ℕ) → ℕ → Option (List ℕ)
put_blocks fse tmp len0 blocks buf_size =
    let (words, lens) = vli_encode len0 (rle_encode tmp blocks) in
    let val_size = u32 (2 * length words) in
    (do
      rest ← put_lengths fse lens (u32 (buf_size + 2 ^ 32 - (4 + val_size + 5)))
      some (u32_bytes val_size ++ (word_bytes words ++ rest)))

-- How `recompressed_by_myjpeg` ends: the 32-bit pattern of the `int` that it returns, with the bytes in
-- `buf`, or with a write behind the end of `buf`.
pub data Recompressed : Type 0 where
  returned : (size : ℕ) → (buf : List ℕ) → Recompressed
  past_buffer : Recompressed

-- What is put there, if it lies in the buffer.
unfoldable pub in_buffer : ℕ → Option (List ℕ) → Recompressed
in_buffer buf_size none = returned (2 ^ 32 - 1) []
in_buffer buf_size (some buf) =
    if ltb buf_size (length buf) then past_buffer else returned (u32 (length buf)) buf

-- `vliEncode` writes the words before the size of the buffer is looked at.
unfoldable pub recompressed_by_myjpeg : Fse → List ℕ → ℕ → List (List ℕ) → ℕ → Recompressed
unfolding put_blocks in_buffer
recompressed_by_myjpeg fse tmp len0 blocks buf_size =
    let words = (vli_encode len0 (rle_encode tmp blocks)).0 in
    if ltb buf_size (4 + 2 * length words)
    then past_buffer
    else in_buffer buf_size (put_blocks fse tmp len0 blocks buf_size)

-- `size < 0`.
unfoldable pub is_negative : ℕ → Bool
is_negative size = not (ltb size (2 ^ 31))

-- The length data behind the flag. `none` is a read past the bytes.
unfoldable pub get_lengths : Fse → List ℕ → Option (List ℕ)
get_lengths fse [] = none
get_lengths fse (if_cmpd ∷ rest) = do
  (len_size, behind) ← read_u32 rest
  (len, after) ← read_bytes len_size behind
  (length_data, unused) ←
      (let (n, out) = fse.decompress (u32 (len_size <<< 10)) len in
        if if_cmpd == 0 then some (len, []) else read_bytes n out)
  some length_data

unfoldable pub decode_myjpeg : Fse → List ℕ → Option (List (List ℕ))
decode_myjpeg fse in_d = do
  (val_size, behind) ← read_u32 in_d
  (val, rest) ← read_bytes val_size behind
  lens ← get_lengths fse rest
  es ← vli_decode (words_of val) lens
  some (rle_decode es)
