-- ===== src/Rejpeg/Container/RoundTrip.antt =====
-- rejpeg.c: `decode_myjpeg` undoes `recompressed_by_myjpeg`.
use im_dedup_plus.Prelude.{
  ℕ, ◌+◌, ◌-◌, ◌*◌, ◌^◌, ◌≤◌, ◌<◌, ◌≡◌, refl, ap, sym, ◌∙◌, subst, arith, u32, ◌<<<◌,
}
use im_dedup_plus.Prelude.{
  true, false, ◌==◌, leb, lt→ltb, le→ltb, ltb, ltb→lt, ◌⊎◌, none, ◌||◌, Bool-cases, inl, inr,
  length, length-append,
}
use im_dedup_plus.Prelude.{some, ◌>>=◌, List, [], ◌∷◌, ◌++◌, map}
use im_dedup_plus.Rejpeg.Bytes.{u32_bytes, word_bytes, read_bytes, AllWords}
use im_dedup_plus.Rejpeg.Bytes.{
  read_u32-u32_bytes, read_all, read_bytes-append, words_of-word_bytes, length-word_bytes,
}
use im_dedup_plus.Rejpeg.Rle.{Entry, rle_encode, rle_decode}
use im_dedup_plus.Rejpeg.Rle.Runs.{tagged}
use im_dedup_plus.Rejpeg.Rle.RoundTrip.{rle_decode-rle_encode}
use im_dedup_plus.Rejpeg.Vli.{
  code_bits, bit_length, magnitude, Encoder, put_bits, vli_step, vli_loop, vli_encode, vli_decode,
}
use im_dedup_plus.Rejpeg.Vli.Rounds.{nibble, nibble-lt, AllCodable}
use im_dedup_plus.Rejpeg.Vli.RoundTrip.{vli_decode-vli_encode}
use im_dedup_plus.Rejpeg.Codable.{AllJpegBlocks, rle_encode-AllCodable, AllBlocks-AllJpegBlocks}
use im_dedup_plus.Rejpeg.Container.{
  Fse, entropy_compress, put_lengths, get_lengths, put_blocks, decode_myjpeg,
  recompressed_by_myjpeg, returned, in_buffer,
}

append-AllWords : (xs ys : List ℕ) → AllWords xs → AllWords ys → AllWords (xs ++ ys)
append-AllWords [] ys p q = q
append-AllWords (x ∷ xs) ys (h, p) q = (h, append-AllWords xs ys p q)

put_bits-AllWords : (s : Encoder) (bits : ℕ) → AllWords (put_bits s bits).0
unfolding put_bits
put_bits-AllWords s bits = elim (Bool-cases (leb s.bit_len s.empty_bits)) [
  | inl e ↦ rw (put_bits, e) tt
  | inr e ↦ rw (put_bits, e) (omega arith, tt)
]

put_bits-cur : (s : Encoder) (bits : ℕ) → (put_bits s bits).1.cur < 2 ^ 16
unfolding put_bits
put_bits-cur s bits = elim (Bool-cases (leb s.bit_len s.empty_bits)) [
  | inl e ↦ rw (put_bits, e) (omega arith)
  | inr e ↦ rw (put_bits, e) (omega arith)
]

vli_step-AllWords :
    (s : Encoder) (e : Entry)
    → s.cur < 2 ^ 16
    → AllWords (vli_step s e).0 × ((vli_step s e).2.cur < 2 ^ 16)
unfolding vli_step
vli_step-AllWords s e h =
    let len = bit_length s.bit_len (magnitude e.value) in
    elim (Bool-cases (e.value == 0)) [
      | inl z ↦ rw (vli_step, z) (tt, h)
      | inr nz ↦
          let s' : Encoder = record s { bit_len = len } in
          rw (vli_step, nz)
            (put_bits-AllWords s' (code_bits e.value len), put_bits-cur s' (code_bits e.value len))
    ]

vli_loop-AllWords : (s : Encoder) (es : List Entry) → s.cur < 2 ^ 16 → AllWords (vli_loop s es).0
unfolding vli_loop
vli_loop-AllWords s [] h = (h, tt)
vli_loop-AllWords s (e ∷ es) h =
    let (words, low) = vli_step-AllWords s e h in
    append-AllWords (vli_step s e).0 (vli_loop (vli_step s e).2 es).0 words
      (vli_loop-AllWords (vli_step s e).2 es low)

vli_encode-AllWords : (len0 : ℕ) (es : List Entry) → AllWords (vli_encode len0 es).0
unfolding vli_encode
vli_encode-AllWords len0 [] = tt
vli_encode-AllWords len0 (e ∷ es) =
    vli_loop-AllWords (record { cur = 0; empty_bits = 16; bit_len = len0 }) (e ∷ es) (omega arith)

module _ (fse : Fse) (lens : List ℕ) (room : ℕ) (small : room < 2 ^ 32) where
  -- The lengths come back, and stay in their room.
  abbrev Back : Type 0
  Back =
      (out : List ℕ) × (put_lengths fse lens room ≡ some out)
      × (get_lengths fse out ≡ some lens)
      × (length out ≤ 5 + room)

  abbrev code : ℕ
  code = (fse.compress room lens).0

  plain : ((code == 0) || (code == 1) || fse.is_error code) ≡ true → length lens ≤ room → Back
  unfolding put_lengths get_lengths u32_bytes
  plain e raw =
      let rest = u32_bytes (length lens) ++ lens in
      (
        0 ∷ rest,
        rw (put_lengths, entropy_compress, e, le→ltb room (length lens) raw) refl,
        rw
            (
              read_u32-u32_bytes (length lens) lens (omega (arith, small, raw)),
              ◌>>=◌,
              read_all (length lens) lens refl,
            )
            refl,
        omega (arith, raw),
      )

  compressed :
      ((code == 0) || (code == 1) || fse.is_error code) ≡ false
      → (1 < code → length lens ≤ u32 (code <<< 10))
      → Back
  unfolding put_lengths get_lengths u32_bytes
  compressed e fits =
      let fine : fse.is_error code ≡ false = ground arith in
      let some_code : 1 < code = ground arith in
      let kept : u32 code ≡ code = omega (arith, fse.in_room room lens fine) in
      let dst = (fse.compress room lens).1 in
      (
        1 ∷ u32_bytes code ++ dst,
        rw (put_lengths, entropy_compress, e, kept, lt→ltb 0 code (omega arith)) refl,
        rw
            (
              read_u32-u32_bytes code dst (omega (arith, fse.in_room room lens fine)),
              ◌>>=◌,
              read_all code dst (fse.written room lens fine some_code),
              ◌>>=◌,
              fse.restored room (u32 (code <<< 10)) lens fine some_code (fits some_code),
            )
            (rw (read_all (length lens) lens refl) refl),
        omega (arith, fse.in_room room lens fine, fse.written room lens fine some_code),
      )

  lengths_back : length lens ≤ room → (1 < code → length lens ≤ u32 (code <<< 10)) → Back
  lengths_back raw fits = elim (Bool-cases ((code == 0) || (code == 1) || fse.is_error code)) [
    | inl e ↦ plain e raw
    | inr e ↦ compressed e fits
  ]

  -- Too much for the room, and not compressed.
  refused :
      ((code == 0) || (code == 1) || fse.is_error code) ≡ true
      → room < length lens
      → put_lengths fse lens room ≡ none
  unfolding put_lengths
  refused e less = rw (put_lengths, entropy_compress, e, lt→ltb room (length lens) less) refl

  -- In a buffer of any size, either nothing is put, or what is put comes back.
  lengths_or_none :
      (1 < code → length lens ≤ u32 (code <<< 10)) → (put_lengths fse lens room ≡ none) ⊎ Back
  lengths_or_none fits = elim (Bool-cases ((code == 0) || (code == 1) || fse.is_error code)) [
    | inl e ↦ elim (Bool-cases (ltb room (length lens))) [
      | inl less ↦ inl (refused e (ltb→lt room (length lens) less))
      | inr enough ↦ inr (plain e (ground arith))
    ]
    | inr e ↦ inr (compressed e fits)
  ]

some_entry :
    (es : List Entry) (b : List ℕ) (bs : List (List ℕ))
    → rle_decode (map (tagged nibble nibble-lt) es) ≡ b ∷ bs
    → (e : Entry) × (es' : List Entry) × (es ≡ e ∷ es')
unfolding rle_decode
some_entry [] b bs h = ground arith
some_entry (e ∷ es) b bs h = (e, es, refl)

-- What `rleEncode` and `vliEncode` make of some blocks, `vliDecode` and `rleDecode` take back.
blocks_back :
    (tmp : List ℕ) (len0 : ℕ) (b : List ℕ) (bs : List (List ℕ))
    → length tmp ≡ 64
    → AllJpegBlocks (b ∷ bs)
    → (vli_decode
          (vli_encode len0 (rle_encode tmp (b ∷ bs))).0
          (vli_encode len0 (rle_encode tmp (b ∷ bs))).1
        >>= λ es. some (rle_decode es))
      ≡ some (b ∷ bs)
blocks_back tmp len0 b bs t all =
    let back =
      rle_decode-rle_encode nibble nibble-lt tmp t (b ∷ bs)
        (AllBlocks-AllJpegBlocks (b ∷ bs) all) in
    let (e, es, same) = some_entry (rle_encode tmp (b ∷ bs)) b bs back in
    let codable = subst AllCodable same (rle_encode-AllCodable tmp (b ∷ bs) t all) in
    let decoded =
      subst
        (λ (l : List Entry).
          vli_decode (vli_encode len0 l).0 (vli_encode len0 l).1
          ≡ some (map (tagged nibble nibble-lt) l))
        (sym same) (vli_decode-vli_encode len0 e es codable) in
    rw decoded (ap (λ (l : List (List ℕ)). some l) back)

-- The words of the value data and the length bytes of some blocks.
abbrev pub coded_blocks : List ℕ → ℕ → List (List ℕ) → List ℕ × List ℕ
coded_blocks tmp len0 bs = vli_encode len0 (rle_encode tmp bs)

-- The room that is left for the length data in a buffer.
abbrev pub room_left : ℕ → List ℕ → ℕ
room_left buf_size words = buf_size - (9 + 2 * length words)

module _ (fse : Fse) (tmp : List ℕ) (len0 : ℕ) (b : List ℕ) (bs : List (List ℕ)) (buf_size : ℕ)
    (t : length tmp ≡ 64) (all : AllJpegBlocks (b ∷ bs)) (small : buf_size < 2 ^ 32)
    (value_room : 9 + 2 * length (coded_blocks tmp len0 (b ∷ bs)).0 ≤ buf_size) where
  abbrev value_words : List ℕ
  value_words = (coded_blocks tmp len0 (b ∷ bs)).0

  abbrev length_bytes : List ℕ
  length_bytes = (coded_blocks tmp len0 (b ∷ bs)).1

  abbrev length_room : ℕ
  length_room = room_left buf_size value_words

  -- Some bytes are given that fit the buffer, and the blocks come back from them.
  abbrev BlocksBack : Type 0
  BlocksBack =
      (in_d : List ℕ) × (put_blocks fse tmp len0 (b ∷ bs) buf_size ≡ some in_d)
      × (decode_myjpeg fse in_d ≡ some (b ∷ bs))
      × (length in_d ≤ buf_size)

  val_size : u32 (2 * length value_words) ≡ 2 * length value_words
  val_size = omega (arith, value_room, small)

  left : u32 (buf_size + 2 ^ 32 - (4 + 2 * length value_words + 5)) ≡ length_room
  left = omega (arith, value_room, small)

  no_lengths :
      put_lengths fse length_bytes length_room ≡ none
      → put_blocks fse tmp len0 (b ∷ bs) buf_size ≡ none
  unfolding put_blocks
  no_lengths e = rw (put_blocks, val_size, left, e) refl

  with_lengths :
      (out : List ℕ)
      → put_lengths fse length_bytes length_room ≡ some out
      → get_lengths fse out ≡ some length_bytes
      → length out ≤ 5 + length_room
      → BlocksBack
  unfolding put_blocks decode_myjpeg u32_bytes
  with_lengths out put got le =
      let bytes : length (word_bytes value_words) ≡ 2 * length value_words =
        length-word_bytes value_words in
      let val : read_bytes (2 * length value_words) (word_bytes value_words ++ out)
          ≡ some (word_bytes value_words, out) =
        ap (λ (n : ℕ). read_bytes n (word_bytes value_words ++ out)) (sym bytes)
        ∙ read_bytes-append (word_bytes value_words) out in
      (
        u32_bytes (2 * length value_words) ++ (word_bytes value_words ++ out),
        rw (put_blocks, val_size, left, put) refl,
        rw
            (
              decode_myjpeg,
              read_u32-u32_bytes (2 * length value_words) (word_bytes value_words ++ out)
                  (omega (arith, value_room, small)),
              ◌>>=◌,
              val,
              ◌>>=◌,
              got,
              ◌>>=◌,
              words_of-word_bytes value_words (vli_encode-AllWords len0 (rle_encode tmp (b ∷ bs))),
            )
            (blocks_back tmp len0 b bs t all),
        omega (
          arith,
          value_room,
          le,
          bytes,
          length-append (u32_bytes (2 * length value_words)) (word_bytes value_words ++ out),
          length-append (word_bytes value_words) out,
        ),
      )

  module _
      (fits : (let n = (fse.compress length_room length_bytes).0 in
        1 < n → length length_bytes ≤ u32 (n <<< 10))) where
    pub back_or_none : (put_blocks fse tmp len0 (b ∷ bs) buf_size ≡ none) ⊎ BlocksBack
    back_or_none = elim (lengths_or_none fse length_bytes length_room (omega (arith, small)) fits) [
      | inl e ↦ inl (no_lengths e)
      | inr (out, put, got, le) ↦ inr (with_lengths out put got le)
    ]

    pub back : length length_bytes ≤ length_room → BlocksBack
    back raw =
        let (out, put, got, le) =
          lengths_back fse length_bytes length_room (omega (arith, small)) raw fits in
        with_lengths out put got le

module _ (fse : Fse) (tmp : List ℕ) (len0 : ℕ) (blocks : List (List ℕ)) (buf_size : ℕ)
    (value_room : 4 + 2 * length (coded_blocks tmp len0 blocks).0 ≤ buf_size) where
  pub recompressed-some :
      (in_d : List ℕ)
      → length in_d ≤ buf_size
      → buf_size < 2 ^ 32
      → put_blocks fse tmp len0 blocks buf_size ≡ some in_d
      → recompressed_by_myjpeg fse tmp len0 blocks buf_size ≡ returned (length in_d) in_d
  unfolding recompressed_by_myjpeg in_buffer
  recompressed-some in_d le small e =
      let size : u32 (length in_d) ≡ length in_d = omega (arith, le, small) in
      rw
        (
          recompressed_by_myjpeg,
          le→ltb buf_size (4 + 2 * length (coded_blocks tmp len0 blocks).0) value_room,
          e,
          in_buffer,
          le→ltb buf_size (length in_d) le,
          size,
        )
        refl

  pub recompressed-none :
      put_blocks fse tmp len0 blocks buf_size ≡ none
      → recompressed_by_myjpeg fse tmp len0 blocks buf_size ≡ returned (2 ^ 32 - 1) []
  unfolding recompressed_by_myjpeg in_buffer
  recompressed-none e =
      rw
        (
          recompressed_by_myjpeg,
          le→ltb buf_size (4 + 2 * length (coded_blocks tmp len0 blocks).0) value_room,
          e,
          in_buffer,
        )
        refl
