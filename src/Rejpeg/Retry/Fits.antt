-- ===== src/Rejpeg/Retry/Fits.antt =====
-- rejpeg.c: the buffer of `rejpeg_a_single_img` is large enough at once or after it is doubled once.
use im_dedup_plus.Prelude.{
  ℕ, suc, ◌+◌, ◌-◌, ◌*◌, ◌^◌, ◌≤◌, ◌<◌, ◌≡◌, refl, ap, ◌∙◌, arith, u32, ◌<<<◌, ◌==◌, false,
}
use im_dedup_plus.Prelude.{some, length, List, [], ◌∷◌, lt→ltb, inl, inr}
use im_dedup_plus.Rejpeg.Rle.{rle_encode}
use im_dedup_plus.Rejpeg.Rle.Count.{length-rle_encode}
use im_dedup_plus.Rejpeg.Vli.Room.{vli_encode-room}
use im_dedup_plus.Rejpeg.Codable.{AllJpegBlocks, rle_encode-AllCodable}
use im_dedup_plus.Rejpeg.Container.{
  Fse, recompressed_by_myjpeg, returned, is_negative, decode_myjpeg,
}
use im_dedup_plus.Rejpeg.Container.RoundTrip.{
  coded_blocks, back_or_none, back, recompressed-some, recompressed-none,
}
use im_dedup_plus.Rejpeg.Retry.{coded_into, rejpeg_loop, rejpeg_a_single_img}

-- What is relied on of the entropy coder's ratio: `decode_myjpeg` gives it 1024 times the compressed
-- size of the length data to decompress into.
abbrev pub IsWithinRatio : Fse → List ℕ → Type 0
IsWithinRatio fse lens =
    (room : ℕ)
    → 1 < (fse.compress room lens).0
    → length lens ≤ u32 ((fse.compress room lens).0 <<< 10)

module _ (tmp : List ℕ) (len0 : ℕ) (bs : List (List ℕ)) (t : length tmp ≡ 64)
    (all : AllJpegBlocks bs) where
  -- 96 bytes of value data to a block, and a word more; 64 length bytes to a block.
  pub coded_blocks-room :
      (2 * length (coded_blocks tmp len0 bs).0 ≤ 2 + 96 * length bs)
      × (length (coded_blocks tmp len0 bs).1 ≤ 64 * length bs)
  coded_blocks-room =
      let (words, bytes) =
        vli_encode-room len0 (rle_encode tmp bs) (rle_encode-AllCodable tmp bs t all) in
      (
        omega (arith, words, length-rle_encode tmp bs),
        omega (arith, bytes, length-rle_encode tmp bs),
      )

module _ (fuel : ℕ) (fse : Fse) (tmp : List ℕ) (len0 : ℕ) (blocks : List (List ℕ)) (bf_size : ℕ)
    (some_room : (bf_size == 0) ≡ false) where
  loop-coded :
      (buf : List ℕ)
      → length buf < 2 ^ 31
      → recompressed_by_myjpeg fse tmp len0 blocks bf_size ≡ returned (length buf) buf
      → rejpeg_loop (suc fuel) fse tmp len0 blocks bf_size ≡ some (coded_into buf)
  unfolding rejpeg_loop is_negative
  loop-coded buf small e =
      rw (rejpeg_loop, some_room, e, is_negative, lt→ltb (length buf) (2 ^ 31) small) refl

  loop-again :
      recompressed_by_myjpeg fse tmp len0 blocks bf_size ≡ returned (2 ^ 32 - 1) []
      → rejpeg_loop (suc fuel) fse tmp len0 blocks bf_size
        ≡ rejpeg_loop fuel fse tmp len0 blocks (u32 (bf_size <<< 1))
  unfolding rejpeg_loop is_negative
  loop-again e = rw (rejpeg_loop, some_room, e) refl

pub rejpeg_a_single_img-coded :
    (fse : Fse) (tmp : List ℕ) (len0 : ℕ) (b : List ℕ) (bs : List (List ℕ))
    → length tmp ≡ 64
    → AllJpegBlocks (b ∷ bs)
    → length (b ∷ bs) < 2 ^ 23
    → IsWithinRatio fse (coded_blocks tmp len0 (b ∷ bs)).1
    → (in_d : List ℕ) × (rejpeg_a_single_img fse tmp len0 (b ∷ bs) ≡ some (coded_into in_d))
      × (decode_myjpeg fse in_d ≡ some (b ∷ bs))
      × (length in_d ≤ 256 * length (b ∷ bs))
unfolding rejpeg_a_single_img
rejpeg_a_single_img-coded fse tmp len0 b bs t all few ratio =
    let n = length (b ∷ bs) in
    let room = coded_blocks-room tmp len0 (b ∷ bs) t all in
    let once : u32 (n <<< 7) ≡ 128 * n = omega (arith, few) in
    let twice : u32 ((128 * n) <<< 1) ≡ 256 * n = omega (arith, few) in
    let nz1 : (128 * n == 0) ≡ false = ground arith in
    let nz2 : (256 * n == 0) ≡ false = ground arith in
    elim (back_or_none fse tmp len0 b bs (128 * n) t all (omega (arith, few))
      (omega (arith, room.0))
      (ratio (128 * n - (9 + 2 * length (coded_blocks tmp len0 (b ∷ bs)).0)))) [
        | inr (in_d, e, d, le) ↦ (
          in_d,
          ap (λ (c : ℕ). rejpeg_loop 33 fse tmp len0 (b ∷ bs) c) once
              ∙ loop-coded 32 fse tmp len0 (b ∷ bs) (128 * n) nz1 in_d (omega (arith, le, few)) (
                  recompressed-some fse tmp len0 (b ∷ bs) (128 * n) (omega (arith, room.0)) in_d le
                    (omega (arith, few)) e),
          d,
          omega (arith, le),
        )
        | inl full ↦
            let (in_d, e, d, le) =
              back fse tmp len0 b bs (256 * n) t all (omega (arith, few)) (omega (arith, room.0))
                (ratio (256 * n - (9 + 2 * length (coded_blocks tmp len0 (b ∷ bs)).0)))
                (omega (arith, room.0, room.1)) in
            (
              in_d,
              ap (λ (c : ℕ). rejpeg_loop 33 fse tmp len0 (b ∷ bs) c) once
                  ∙ loop-again 32 fse tmp len0 (b ∷ bs) (128 * n) nz1 (
                      recompressed-none fse tmp len0 (b ∷ bs) (128 * n) (omega (arith, room.0))
                        full)
                  ∙ ap (λ (c : ℕ). rejpeg_loop 32 fse tmp len0 (b ∷ bs) c) twice
                  ∙ loop-coded 31 fse tmp len0 (b ∷ bs) (256 * n) nz2 in_d (omega (arith, le, few))
                      (recompressed-some fse tmp len0 (b ∷ bs) (256 * n) (omega (arith, room.0))
                        in_d le (omega (arith, few)) e),
              d,
              omega (arith, le),
            )
      ]
