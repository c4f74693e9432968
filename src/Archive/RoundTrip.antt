-- ===== src/Archive/RoundTrip.antt =====
-- idedup.c: the images that `de_read_thread` finds in the archive of `write_thread`.
use im_dedup_plus.Prelude.{
  ℕ, zero, suc, ◌+◌, ◌-◌, ◌*◌, ◌^◌, ◌≤◌, ◌<◌, ◌≡◌, refl, sym, ap, ◌∙◌, arith, u32, u64, ◌==◌,
  if◌then◌else◌, false, ◌>>>◌,
}
use im_dedup_plus.Prelude.{
  some, ◌>>=◌, length, map, List, [], ◌∷◌, ◌++◌, append_assoc, length-append,
}
use im_dedup_plus.Rejpeg.Bytes.{u32_bytes, read_u32-u32_bytes, read_bytes-append}
use im_dedup_plus.Archive.Record.{
  RejpegRes, DeRead, sub_size, array_bytes, pieces, all_pieces, read_string, read_array, read_byte,
  read_image, read_images, final_size_of, final_size,
}
use im_dedup_plus.Archive.Cache.{write_file}
use im_dedup_plus.Archive.Order.{concat, AllFit, write_file-in_order}

-- A character that is not the end of a string.
abbrev pub AllChars : List ℕ → Type 0
AllChars [] = Unit
AllChars (c ∷ cs) = (0 < c) × AllChars cs

abbrev pub AllU32 : List ℕ → Type 0
AllU32 [] = Unit
AllU32 (n ∷ ns) = (n < 2 ^ 32) × AllU32 ns

-- Names are strings, and the sizes fit their type.
pub record IsWritable (r : RejpegRes) : Type 0 where
  pub base_chars : AllChars r.dedup_res.base_name
  pub name_chars : AllChars r.dedup_res.name
  pub sizes : AllU32 (sub_size r)

abbrev pub AllWritable : List RejpegRes → Type 0
AllWritable [] = Unit
AllWritable (r ∷ rs) = IsWritable r × AllWritable rs

-- The node of an image.
unfoldable pub node_of : RejpegRes → DeRead
node_of r = record {
  basename_and_oriptr = r.dedup_res.base_name;
  name = r.dedup_res.name;
  sizes = sub_size r;
  ffxx = r.dedup_res.ffxx;
  xx = r.dedup_res.xx;
  header = r.dedup_res.header;
  flag = r.flag;
  x = r.ins.cpx;
  y = r.ins.cpy;
  cp_l = r.ins.cpl;
  in_l = r.ins.inl;
  in_d = r.rejpeg_res;
  mem_size = u32 (length (concat (pieces r)));
}

not-end : (c : ℕ) → 0 < c → (c == 0) ≡ false
not-end c h = ground arith

read_string-append :
    (name rest : List ℕ) → AllChars name → read_string (name ++ (0 ∷ rest)) ≡ some (name, rest)
unfolding read_string
read_string-append [] rest h = refl
read_string-append (c ∷ cs) rest (p, h) =
    rw (not-end c p, if◌then◌else◌, read_string-append cs rest h, ◌>>=◌) refl

read_array-append :
    (ns : List ℕ) (rest : List ℕ)
    → AllU32 ns
    → read_array (length ns) (array_bytes ns ++ rest) ≡ some (ns, rest)
unfolding read_array array_bytes
read_array-append [] rest h = refl
read_array-append (n ∷ ns) rest (p, h) =
    rw
      (
        append_assoc (u32_bytes n) (array_bytes ns) rest,
        read_u32-u32_bytes n (array_bytes ns ++ rest) p,
        ◌>>=◌,
        read_array-append ns rest h,
        ◌>>=◌,
      )
      refl

module _ (r : RejpegRes) (rest : List ℕ) where
  -- The bytes of an image in front of others, the way they are read.
  unfoldable layout : List ℕ
  layout =
      r.dedup_res.base_name
      ++ (0
          ∷ (r.dedup_res.name
              ++ (0
                  ∷ (array_bytes (sub_size r)
                      ++ (r.dedup_res.ffxx
                          ∷ r.dedup_res.xx
                          ∷ (r.dedup_res.header
                              ++ (r.flag
                                  ∷ (r.ins.cpx
                                      ++ (r.ins.cpy
                                          ++ (r.ins.cpl
                                              ++ (r.ins.inl ++ (r.rejpeg_res ++ rest))))))))))))

  pieces-layout : concat (pieces r) ++ rest ≡ layout
  unfolding pieces layout
  pieces-layout = simp (append_assoc)

  read_sizes :
      (ptr : List ℕ)
      → AllU32 (sub_size r)
      → read_array 13 (array_bytes (sub_size r) ++ ptr) ≡ some (sub_size r, ptr)
  unfolding sub_size
  read_sizes ptr ok = read_array-append (sub_size r) ptr ok

  read_image-layout :
      IsWritable r
      → length layout ≡ length (concat (pieces r)) + length rest
      → read_image layout ≡ some (node_of r, rest)
  unfolding read_image layout node_of read_byte sub_size
  read_image-layout ok h =
      let moved : length layout - length rest ≡ length (concat (pieces r)) = omega (arith, h) in
      rw
        (
          ok.base_chars,
          ok.name_chars,
          ok.sizes,
          read_string-append r.dedup_res.base_name,
          ◌>>=◌,
          read_string-append r.dedup_res.name,
          ◌>>=◌,
          read_sizes,
          ◌>>=◌,
          read_bytes-append r.dedup_res.header,
          ◌>>=◌,
          read_bytes-append r.ins.cpx,
          ◌>>=◌,
          read_bytes-append r.ins.cpy,
          ◌>>=◌,
          read_bytes-append r.ins.cpl,
          ◌>>=◌,
          read_bytes-append r.ins.inl,
          ◌>>=◌,
          read_bytes-append r.rejpeg_res,
          ◌>>=◌,
          moved,
        )
        refl

read_image-pieces :
    (r : RejpegRes) (rest : List ℕ)
    → IsWritable r
    → read_image (concat (pieces r) ++ rest) ≡ some (node_of r, rest)
read_image-pieces r rest ok =
    let both : length (layout r rest) ≡ length (concat (pieces r)) + length rest =
      sym (ap (λ (l : List ℕ). length l) (pieces-layout r rest))
      ∙ length-append (concat (pieces r)) rest in
    rw (pieces-layout r rest) (read_image-layout r rest ok both)

length-array_bytes : (ns : List ℕ) → length (array_bytes ns) ≡ 4 * length ns
unfolding array_bytes u32_bytes
length-array_bytes [] = omega arith
length-array_bytes (n ∷ ns) =
    omega (arith, length-append (u32_bytes n) (array_bytes ns), length-array_bytes ns)

pub length-sub_size : (r : RejpegRes) → length (array_bytes (sub_size r)) ≡ 52
unfolding sub_size
length-sub_size r = omega (arith, length-array_bytes (sub_size r))

abbrev total : List (List ℕ) → ℕ
total [] = 0
total (x ∷ xs) = length x + total xs

length-concat : (xs : List (List ℕ)) → length (concat xs) ≡ total xs
length-concat [] = refl
length-concat (x ∷ xs) = omega (arith, length-append x (concat xs), length-concat xs)

length-pieces : (r : RejpegRes) → length (concat (pieces r)) ≡ final_size_of r
unfolding pieces final_size_of
length-pieces r =
    length-concat (pieces r)
    ∙ omega (
      arith,
      length-append r.dedup_res.base_name (0 ∷ []),
      length-append r.dedup_res.name (0 ∷ []),
      length-sub_size r,
    )

length-pieces-pos : (r : RejpegRes) → 0 < length (concat (pieces r))
unfolding final_size_of
length-pieces-pos r = omega (arith, length-pieces r)

concat-append : (xs ys : List (List ℕ)) → concat (xs ++ ys) ≡ concat xs ++ concat ys
concat-append [] ys = refl
concat-append (x ∷ xs) ys =
    ap (λ (l : List ℕ). x ++ l) (concat-append xs ys) ∙ sym (append_assoc x (concat xs) (concat ys))

read_images-step :
    (fuel : ℕ) (bytes behind : List ℕ) (r : DeRead)
    → 0 < length bytes
    → read_image bytes ≡ some (r, behind)
    → read_images (suc fuel) bytes ≡ (do rest ← read_images fuel behind; some (r ∷ rest))
unfolding read_images
read_images-step fuel [] behind r h e = absurd (omega arith)
read_images-step fuel (b ∷ bs) behind r h e = rw (e, ◌>>=◌) refl

read_images-nil : (fuel : ℕ) → read_images fuel [] ≡ some []
unfolding read_images
read_images-nil zero = refl
read_images-nil (suc fuel) = refl

-- The bytes of one image, and of the images behind it.
length-all_pieces :
    (r : RejpegRes) (rs : List RejpegRes)
    → length (concat (all_pieces (r ∷ rs)))
      ≡ length (concat (pieces r)) + length (concat (all_pieces rs))
unfolding all_pieces
length-all_pieces r rs =
    ap (λ (l : List ℕ). length l) (concat-append (pieces r) (all_pieces rs))
    ∙ length-append (concat (pieces r)) (concat (all_pieces rs))

read_images-pieces :
    (fuel : ℕ) (rs : List RejpegRes)
    → AllWritable rs
    → length (concat (all_pieces rs)) ≤ fuel
    → read_images fuel (concat (all_pieces rs)) ≡ some (map node_of rs)
unfolding all_pieces
read_images-pieces fuel [] ok h = read_images-nil fuel
read_images-pieces zero (r ∷ rs) ok h =
    absurd (omega (arith, h, length-all_pieces r rs, length-pieces-pos r))
read_images-pieces (suc fuel) (r ∷ rs) (ok, oks) h =
    rw
      (
        concat-append (pieces r) (all_pieces rs),
        read_images-step fuel (concat (pieces r) ++ concat (all_pieces rs)) (concat (all_pieces rs))
            (node_of r)
            (omega (
              arith,
              length-append (concat (pieces r)) (concat (all_pieces rs)),
              length-pieces-pos r,
            ))
            (read_image-pieces r (concat (all_pieces rs)) ok),
        read_images-pieces fuel rs oks
            (omega (arith, h, length-all_pieces r rs, length-pieces-pos r)),
        ◌>>=◌,
      )
      refl

length-file : (rs : List RejpegRes) → final_size rs ≡ u64 (length (concat (all_pieces rs)))
unfolding final_size all_pieces
length-file [] = refl
length-file (r ∷ rs) = omega (arith, length-all_pieces r rs, length-pieces r, length-file rs)

-- The images of an archive, each of whose writes fits into the buffer of the cache, are read back in
-- their order, with every field as it was written, and the size that is reported is that of the file.
pub read_images-write_file :
    (patch_size : ℕ) (memory : List ℕ) (rs : List RejpegRes)
    → patch_size < 2 ^ 63
    → length memory ≡ patch_size >>> 2
    → AllFit (patch_size >>> 2) (all_pieces rs)
    → AllWritable rs
    → (file : List ℕ) × (write_file patch_size memory (all_pieces rs) ≡ some file)
      × (read_images (length file) file ≡ some (map node_of rs))
      × (final_size rs ≡ u64 (length file))
read_images-write_file patch_size memory rs small sized fits ok = (
  concat (all_pieces rs),
  write_file-in_order patch_size memory (all_pieces rs) small sized fits,
  read_images-pieces (length (concat (all_pieces rs))) rs ok (omega arith),
  length-file rs,
)
