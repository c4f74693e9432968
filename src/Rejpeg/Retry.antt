-- ===== src/Rejpeg/Retry.antt =====
-- rejpeg.c: `rejpeg_a_single_img`, which codes the inserted blocks into a buffer and doubles the buffer
-- until they fit.
pub mod Ends
pub mod Fits
use im_dedup_plus.Prelude.{
  ℕ, zero, suc, u32, ◌<<<◌, ◌==◌, Option, none, some, length, List, true, false,
}
use im_dedup_plus.Rejpeg.Container.{Fse, returned, past_buffer, recompressed_by_myjpeg, is_negative}

-- How the loop ends: with the bytes in `buf`, or because `bfSize` has become 0; then `buf` is `NULL` or
-- freed. Or with a write behind the end of `buf`.
pub data Coding : Type 0 where
  coded_into : List ℕ → Coding
  not_coded : Coding
  past_end : Coding

-- `for( ; bfSize>0; bfSize <<= 1)`. `none` is fuel that ran out.
unfoldable pub rejpeg_loop : ℕ → Fse → List ℕ → ℕ → List (List ℕ) → ℕ → Option Coding
unfolding recompressed_by_myjpeg is_negative
rejpeg_loop zero fse tmp len0 blocks bf_size = none
rejpeg_loop (suc fuel) fse tmp len0 blocks bf_size = elim (bf_size == 0) [
  | true ↦ some not_coded
  | false ↦ elim (recompressed_by_myjpeg fse tmp len0 blocks bf_size) [
    | past_buffer ↦ some past_end
    | returned size buf ↦ elim (is_negative size) [
      | true ↦ rejpeg_loop fuel fse tmp len0 blocks (u32 (bf_size <<< 1))
      | false ↦ some (coded_into buf)
    ]
  ]
]

-- `bfSize` begins at 128 bytes to a block.
unfoldable pub rejpeg_a_single_img : Fse → List ℕ → ℕ → List (List ℕ) → Option Coding
rejpeg_a_single_img fse tmp len0 blocks =
    rejpeg_loop 33 fse tmp len0 blocks (u32 (length blocks <<< 7))
