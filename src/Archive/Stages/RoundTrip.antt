-- ===== src/Archive/Stages/RoundTrip.antt =====
-- rejpeg.c, idedup.c: images that are coded, written, read and decoded are what they were.
use im_dedup_plus.Prelude.{
  ℕ, ◌*◌, ◌^◌, ◌≤◌, ◌<◌, ◌≡◌, refl, sym, ap, ◌∙◌, arith, ◌>>>◌, ◌==◌, false, if◌then◌else◌,
}
use im_dedup_plus.Prelude.{
  Option, none, some, ◌>>=◌, length, get_or, map, List, [], ◌∷◌, ◌++◌, length-append,
}
use im_dedup_plus.Rejpeg.Bytes.{read_u32}
use im_dedup_plus.Rejpeg.Codable.{AllJpegBlocks}
use im_dedup_plus.Rejpeg.Container.{Fse, decode_myjpeg}
use im_dedup_plus.Rejpeg.Container.RoundTrip.{coded_blocks}
use im_dedup_plus.Rejpeg.Packing.{compress_delta_ins, block_count, pack}
use im_dedup_plus.Rejpeg.Packing.RoundTrip.{decompress_delta_ins-compress_delta_ins, length-pack}
use im_dedup_plus.Rejpeg.Retry.{rejpeg_loop, rejpeg_a_single_img}
use im_dedup_plus.Rejpeg.Retry.Fits.{IsWithinRatio, rejpeg_a_single_img-coded}
use im_dedup_plus.Archive.Cache.{write_file}
use im_dedup_plus.Archive.Order.{AllFit}
use im_dedup_plus.Archive.Record.{DedupRes, RejpegRes, sub_size, pieces, all_pieces, read_images}
use im_dedup_plus.Archive.RoundTrip.{
  AllChars, AllU32, IsWritable, AllWritable, node_of, read_images-write_file, length-sub_size,
}
use im_dedup_plus.Archive.Stages.{
  result_bytes, code_image, code_images, Decoded, decode_image, decode_images,
}

-- An array of instructions that the writer's buffer holds, with at most two bytes to a block.
abbrev ArrayFits : ℕ → (ℕ → ℕ) → List ℕ → Type 0
ArrayFits size sizes array = (length array ≤ size) × (length array ≤ block_count sizes * 2)

-- An image that can be coded, and each of whose parts is no longer than `size`.
pub record IsStorable (fse : Fse) (tmp : List ℕ) (len0 size : ℕ) (d : DedupRes) : Type 0 where
  pub base_chars : AllChars d.base_name
  pub name_chars : AllChars d.name
  pub numbers : AllU32 (
      d.img_size 0
      ∷ d.img_size 1
      ∷ d.img_size 2
      ∷ d.img_size 3
      ∷ d.y_counter
      ∷ d.u_counter
      ∷ d.v_counter
      ∷ [])
  pub base_fits : length d.base_name < size
  pub name_fits : length d.name < size
  pub header_fits : length d.header ≤ size
  pub cpx_fits : ArrayFits size d.img_size d.ins.cpx
  pub cpy_fits : ArrayFits size d.img_size d.ins.cpy
  pub cpl_fits : ArrayFits size d.img_size d.ins.cpl
  pub inl_fits : ArrayFits size d.img_size d.ins.inl
  pub blocks : AllJpegBlocks d.insert_p
  pub blocks_fit : 256 * length d.insert_p ≤ size
  pub ratio : IsWithinRatio fse (coded_blocks tmp len0 d.insert_p).1

abbrev pub AllStorable : Fse → List ℕ → ℕ → ℕ → List DedupRes → Type 0
AllStorable fse tmp len0 size [] = Unit
AllStorable fse tmp len0 size (d ∷ ds) =
    IsStorable fse tmp len0 size d × AllStorable fse tmp len0 size ds

-- What is to come out of an image.
unfoldable pub decoded_of : DedupRes → Decoded
decoded_of d = record { insert_p = d.insert_p; ins = d.ins }

some_bytes :
    (fse : Fse) (in_d : List ℕ) (bs : List (List ℕ))
    → decode_myjpeg fse in_d ≡ some bs
    → (length in_d == 0) ≡ false
unfolding decode_myjpeg read_u32
some_bytes fse [] bs h = ground arith
some_bytes fse (b ∷ rest) bs h = ground arith

-- The bytes of the inserted blocks, and the blocks from them.
BlockBytes : Fse → List ℕ → ℕ → List (List ℕ) → Type 0
BlockBytes fse tmp len0 bs =
    (bytes : List ℕ) × ((rejpeg_a_single_img fse tmp len0 bs >>= result_bytes (length bs))
      ≡ some bytes)
    × ((if length bytes == 0 then some [] else decode_myjpeg fse bytes) ≡ some bs)
    × (length bytes ≤ 256 * length bs)

no_blocks :
    (fse : Fse) (tmp : List ℕ) (len0 : ℕ)
    → (rejpeg_a_single_img fse tmp len0 [] >>= result_bytes 0) ≡ some []
unfolding result_bytes rejpeg_a_single_img rejpeg_loop
no_blocks fse tmp len0 = refl

block_bytes :
    (fse : Fse) (tmp : List ℕ) (len0 : ℕ) (bs : List (List ℕ))
    → length tmp ≡ 64
    → AllJpegBlocks bs
    → length bs < 2 ^ 23
    → IsWithinRatio fse (coded_blocks tmp len0 bs).1
    → BlockBytes fse tmp len0 bs
unfolding BlockBytes result_bytes
block_bytes fse tmp len0 [] t all few ratio = ([], no_blocks fse tmp len0, refl, omega arith)
block_bytes fse tmp len0 (b ∷ bs) t all few ratio =
    let (in_d, e, d, le) = rejpeg_a_single_img-coded fse tmp len0 b bs t all few ratio in
    (in_d, rw (e, ◌>>=◌) refl, rw (some_bytes fse in_d (b ∷ bs) d, if◌then◌else◌) d, le)

bind_assoc {ℓ} :
    {A B C : Type ℓ} (m : Option A) (f : A → Option B) (g : B → Option C)
    → ((m >>= f) >>= g) ≡ (m >>= λ a. f a >>= g)
bind_assoc none f g = refl
bind_assoc (some a) f g = refl

AllU32-append : (xs ys : List ℕ) → AllU32 xs → AllU32 ys → AllU32 (xs ++ ys)
AllU32-append [] ys p q = q
AllU32-append (x ∷ xs) ys (h, p) q = (h, AllU32-append xs ys p q)

-- The coded image with these bytes for its blocks.
abbrev with_bytes : Fse → DedupRes → List ℕ → RejpegRes
with_bytes fse d bytes = record {
  dedup_res = d;
  rejpeg_res = bytes;
  flag = (compress_delta_ins fse d.ins).0;
  ins = (compress_delta_ins fse d.ins).1;
}

code_image-with_bytes :
    (fse : Fse) (tmp : List ℕ) (len0 : ℕ) (d : DedupRes) (bytes : List ℕ)
    → (rejpeg_a_single_img fse tmp len0 d.insert_p >>= result_bytes (length d.insert_p))
      ≡ some bytes
    → code_image fse tmp len0 d ≡ some (with_bytes fse d bytes)
unfolding code_image
code_image-with_bytes fse tmp len0 d bytes e =
    sym (
      bind_assoc (rejpeg_a_single_img fse tmp len0 d.insert_p) (result_bytes (length d.insert_p))
        (λ bs. some (with_bytes fse d bs)))
    ∙ ap (λ (m : Option (List ℕ)). m >>= λ bs. some (with_bytes fse d bs)) e

module _ (fse : Fse) (tmp : List ℕ) (len0 size : ℕ) (t : length tmp ≡ 64) (low : 52 ≤ size)
    (high : size < 2 ^ 31) where
  module _ (d : DedupRes) (ok : IsStorable fse tmp len0 size d) (bytes : List ℕ)
      (le : length bytes ≤ size) where
    with_bytes-IsWritable : IsWritable (with_bytes fse d bytes)
    unfolding sub_size compress_delta_ins
    with_bytes-IsWritable = record {
      base_chars = ok.base_chars;
      name_chars = ok.name_chars;
      sizes =
          AllU32-append
            (d.img_size 0
              ∷ d.img_size 1
              ∷ d.img_size 2
              ∷ d.img_size 3
              ∷ d.y_counter
              ∷ d.u_counter
              ∷ d.v_counter
              ∷ [])
            (length d.header
              ∷ length (pack fse d.ins.cpx).1
              ∷ length (pack fse d.ins.cpy).1
              ∷ length (pack fse d.ins.cpl).1
              ∷ length (pack fse d.ins.inl).1
              ∷ length bytes
              ∷ [])
            ok.numbers
            (
              omega (arith, ok.header_fits, high),
              (
                omega (arith, length-pack fse d.ins.cpx, ok.cpx_fits.0, high),
                (
                  omega (arith, length-pack fse d.ins.cpy, ok.cpy_fits.0, high),
                  (
                    omega (arith, length-pack fse d.ins.cpl, ok.cpl_fits.0, high),
                    (
                      omega (arith, length-pack fse d.ins.inl, ok.inl_fits.0, high),
                      (omega (arith, le, high), tt),
                    ),
                  ),
                ),
              ),
            );
    }

    with_bytes-AllFit : AllFit size (pieces (with_bytes fse d bytes))
    unfolding pieces compress_delta_ins
    with_bytes-AllFit = (
      omega (arith, length-append d.base_name (0 ∷ []), ok.base_fits),
      (
        omega (arith, length-append d.name (0 ∷ []), ok.name_fits),
        (
          omega (arith, length-sub_size (with_bytes fse d bytes), low),
          (
            omega (arith, low),
            (
              omega (arith, low),
              (
                ok.header_fits,
                (
                  omega (arith, low),
                  (
                    omega (arith, length-pack fse d.ins.cpx, ok.cpx_fits.0),
                    (
                      omega (arith, length-pack fse d.ins.cpy, ok.cpy_fits.0),
                      (
                        omega (arith, length-pack fse d.ins.cpl, ok.cpl_fits.0),
                        (omega (arith, length-pack fse d.ins.inl, ok.inl_fits.0), (le, tt)),
                      ),
                    ),
                  ),
                ),
              ),
            ),
          ),
        ),
      ),
    )

    with_bytes-decoded :
        (if length bytes == 0 then some [] else decode_myjpeg fse bytes) ≡ some d.insert_p
        → decode_image fse (node_of (with_bytes fse d bytes)) ≡ some (decoded_of d)
    unfolding decode_image node_of sub_size decoded_of block_count
    with_bytes-decoded back =
        rw
          (
            back,
            ◌>>=◌,
            decompress_delta_ins-compress_delta_ins fse
                (λ i. get_or (sub_size (with_bytes fse d bytes)) i 0) d.ins
                (omega (arith, ok.cpx_fits.0, high), ok.cpx_fits.1)
                (omega (arith, ok.cpy_fits.0, high), ok.cpy_fits.1)
                (omega (arith, ok.cpl_fits.0, high), ok.cpl_fits.1)
                (omega (arith, ok.inl_fits.0, high), ok.inl_fits.1),
            ◌>>=◌,
          )
          refl

  -- The coded image, which can be written, and from which the image comes back.
  Stored : DedupRes → Type 0
  Stored d =
      (r : RejpegRes) × (code_image fse tmp len0 d ≡ some r)
      × IsWritable r
      × AllFit size (pieces r)
      × (decode_image fse (node_of r) ≡ some (decoded_of d))

  code_image-Stored : (d : DedupRes) → IsStorable fse tmp len0 size d → Stored d
  unfolding Stored BlockBytes
  code_image-Stored d ok =
      let (bytes, coded, back, few) =
        block_bytes fse tmp len0 d.insert_p t ok.blocks (omega (arith, ok.blocks_fit, high))
          ok.ratio in
      let le : length bytes ≤ size = omega (arith, few, ok.blocks_fit) in
      (
        with_bytes fse d bytes,
        code_image-with_bytes fse tmp len0 d bytes coded,
        with_bytes-IsWritable d ok bytes le,
        with_bytes-AllFit d ok bytes le,
        with_bytes-decoded d ok bytes le back,
      )

  AllFit-append : (xs ys : List (List ℕ)) → AllFit size xs → AllFit size ys → AllFit size (xs ++ ys)
  AllFit-append [] ys p q = q
  AllFit-append (x ∷ xs) ys (h, p) q = (h, AllFit-append xs ys p q)

  -- The coded images.
  AllStored : List DedupRes → Type 0
  AllStored ds =
      (rs : List RejpegRes) × (code_images fse tmp len0 ds ≡ some rs)
      × AllWritable rs
      × AllFit size (all_pieces rs)
      × (decode_images fse (map node_of rs) ≡ some (map decoded_of ds))

  code_images-AllStored : (ds : List DedupRes) → AllStorable fse tmp len0 size ds → AllStored ds
  unfolding Stored AllStored code_images decode_images all_pieces
  code_images-AllStored [] all = ([], refl, tt, tt, refl)
  code_images-AllStored (d ∷ ds) (ok, all) =
      let (r, coded, writable, fit, decoded) = code_image-Stored d ok in
      let (rs, coded', writable', fit', decoded') = code_images-AllStored ds all in
      (
        r ∷ rs,
        rw (coded, ◌>>=◌, coded', ◌>>=◌) refl,
        (writable, writable'),
        AllFit-append (pieces r) (all_pieces rs) fit fit',
        rw (decoded, ◌>>=◌, decoded', ◌>>=◌) refl,
      )

-- Images whose parts fit into the buffer of the cache, of less than 2^31 bytes, with names, numbers and
-- arrays of the shape that the coder and the archive need, and whose inserted blocks are those of a JPEG
-- file, are coded, written to an archive, read from it and decoded without a fault, and each gives its
-- inserted blocks and its instructions back; the entropy coder keeps to the ratio that the decoder
-- allows for.
pub decode_images-code_images :
    (fse : Fse) (tmp : List ℕ) (len0 patch_size : ℕ) (memory : List ℕ) (ds : List DedupRes)
    → length tmp ≡ 64
    → 208 ≤ patch_size
    → patch_size < 2 ^ 33
    → length memory ≡ patch_size >>> 2
    → AllStorable fse tmp len0 (patch_size >>> 2) ds
    → (file : List ℕ) × ((do
      rs ← code_images fse tmp len0 ds
      write_file patch_size memory (all_pieces rs))
        ≡ some file)
      × ((do rs ← read_images (length file) file; decode_images fse rs) ≡ some (map decoded_of ds))
unfolding AllStored
decode_images-code_images fse tmp len0 patch_size memory ds t low high sized all =
    let (rs, coded, writable, fit, decoded) =
      code_images-AllStored fse tmp len0 (patch_size >>> 2) t (omega (arith, low))
        (omega (arith, high)) ds all in
    let (file, written, read, total) =
      read_images-write_file patch_size memory rs (omega (arith, high)) sized fit writable in
    (file, rw (coded, ◌>>=◌) written, rw (read, ◌>>=◌) decoded)
