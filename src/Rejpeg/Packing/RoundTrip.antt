-- ===== src/Rejpeg/Packing/RoundTrip.antt =====
-- rejpeg.c: `decompress_delta_ins` undoes `compress_delta_ins`.
use im_dedup_plus.Prelude.{ℕ, ◌*◌, ◌^◌, ◌≤◌, ◌<◌, ◌≡◌, refl, ap, ◌∙◌, arith, u32, bit_and}
use im_dedup_plus.Prelude.{Bool, true, false, not, ◌||◌, ◌==◌, lt→ltb, ltb, Bool-cases, inl, inr}
use im_dedup_plus.Prelude.{some, ◌>>=◌, length, List}
use im_dedup_plus.Rejpeg.Bytes.{read_all}
use im_dedup_plus.Rejpeg.Container.{Fse, entropy_compress}
use im_dedup_plus.Rejpeg.Packing.{
  DeltaIns, pack, flag_of, compress_delta_ins, block_count, unpack, decompress_delta_ins,
}

-- Each bit of the flag says whether its array is kept compressed.
flag_bits :
    (x y l n : Bool)
    → ((bit_and (flag_of x y l n) 0x08 == 0) ≡ not x)
      × ((bit_and (flag_of x y l n) 0x04 == 0) ≡ not y)
      × ((bit_and (flag_of x y l n) 0x02 == 0) ≡ not l)
      × ((bit_and (flag_of x y l n) 0x01 == 0) ≡ not n)
unfolding flag_of
flag_bits true true true true = (refl, refl, refl, refl)
flag_bits true true true false = (refl, refl, refl, refl)
flag_bits true true false true = (refl, refl, refl, refl)
flag_bits true true false false = (refl, refl, refl, refl)
flag_bits true false true true = (refl, refl, refl, refl)
flag_bits true false true false = (refl, refl, refl, refl)
flag_bits true false false true = (refl, refl, refl, refl)
flag_bits true false false false = (refl, refl, refl, refl)
flag_bits false true true true = (refl, refl, refl, refl)
flag_bits false true true false = (refl, refl, refl, refl)
flag_bits false true false true = (refl, refl, refl, refl)
flag_bits false true false false = (refl, refl, refl, refl)
flag_bits false false true true = (refl, refl, refl, refl)
flag_bits false false true false = (refl, refl, refl, refl)
flag_bits false false false true = (refl, refl, refl, refl)
flag_bits false false false false = (refl, refl, refl, refl)

module _ (fse : Fse) (size : ℕ) (src : List ℕ) (small : length src < 2 ^ 32)
    (room : length src ≤ size * 2) where
  abbrev code : ℕ
  code = (fse.compress (length src) src).0

  -- What an array is packed to is unpacked to the array, if the flag has its bit right.
  unpack-pack :
      (flag bit : ℕ)
      → (bit_and flag bit == 0) ≡ not (pack fse src).0
      → unpack fse size flag bit (pack fse src).1 ≡ some src
  unfolding unpack pack entropy_compress
  unpack-pack flag bit h = elim (Bool-cases ((code == 0) || (code == 1) || fse.is_error code)) [
    | inl e ↦ plain e h
    | inr e ↦ packed e h
  ]
    where
      plain :
          ((code == 0) || (code == 1) || fse.is_error code) ≡ true
          → (bit_and flag bit == 0) ≡ not (pack fse src).0
          → unpack fse size flag bit (pack fse src).1 ≡ some src
      plain e h =
          let p : pack fse src ≡ (false, src) = rw (pack, entropy_compress, e) refl in
          let unset : (bit_and flag bit == 0) ≡ true = h ∙ ap (λ (q : Bool × List ℕ). not q.0) p in
          rw (p, unpack, unset) refl

      packed :
          ((code == 0) || (code == 1) || fse.is_error code) ≡ false
          → (bit_and flag bit == 0) ≡ not (pack fse src).0
          → unpack fse size flag bit (pack fse src).1 ≡ some src
      packed e h =
          let fine : fse.is_error code ≡ false = ground arith in
          let some_code : 1 < code = ground arith in
          let kept : u32 code ≡ code = omega (arith, fse.in_room (length src) src fine, small) in
          let p : pack fse src ≡ (true, (fse.compress (length src) src).1) =
            rw (pack, entropy_compress, e, kept, lt→ltb 0 code (omega arith)) refl in
          let set : (bit_and flag bit == 0) ≡ false = h ∙ ap (λ (q : Bool × List ℕ). not q.0) p in
          rw
            (
              p,
              unpack,
              set,
              fse.restored (length src) (size * 2) src fine some_code room,
              read_all (length src) src refl,
            )
            refl

-- A packed array is no longer than the array.
pub length-pack : (fse : Fse) (src : List ℕ) → length (pack fse src).1 ≤ length src
unfolding pack entropy_compress
length-pack fse src = elim (Bool-cases ((code == 0) || (code == 1) || fse.is_error code)) [
  | inl e ↦ rw (pack, entropy_compress, e) (omega arith)
  | inr e ↦ elim (Bool-cases (ltb 0 (u32 code))) [
    | inr z ↦ rw (pack, entropy_compress, e, z) (omega arith)
    | inl p ↦
        rw (pack, entropy_compress, e, p)
          (omega (
            arith,
            fse.in_room (length src) src (ground arith),
            fse.written (length src) src (ground arith) (ground arith),
          ))
  ]
]
  where
    code : ℕ
    code = (fse.compress (length src) src).0

-- For four arrays that fit 32-bit sizes, each with at most two bytes to a block of the image,
-- unpacking what they were packed to, with the flag that goes with it, gives the four arrays, whichever
-- of them were kept compressed.
pub decompress_delta_ins-compress_delta_ins :
    (fse : Fse) (sizes : ℕ → ℕ) (d : DeltaIns)
    → (length d.cpx < 2 ^ 32) × (length d.cpx ≤ block_count sizes * 2)
    → (length d.cpy < 2 ^ 32) × (length d.cpy ≤ block_count sizes * 2)
    → (length d.cpl < 2 ^ 32) × (length d.cpl ≤ block_count sizes * 2)
    → (length d.inl < 2 ^ 32) × (length d.inl ≤ block_count sizes * 2)
    → decompress_delta_ins fse sizes (compress_delta_ins fse d).0 (compress_delta_ins fse d).1
      ≡ some d
unfolding decompress_delta_ins compress_delta_ins
decompress_delta_ins-compress_delta_ins fse sizes d x y l n =
    let size = block_count sizes in
    let flag =
      flag_of (pack fse d.cpx).0 (pack fse d.cpy).0 (pack fse d.cpl).0 (pack fse d.inl).0 in
    let bits =
      flag_bits (pack fse d.cpx).0 (pack fse d.cpy).0 (pack fse d.cpl).0 (pack fse d.inl).0 in
    rw
      (
        unpack-pack fse size d.cpx x.0 x.1 flag 0x08 bits.0,
        ◌>>=◌,
        unpack-pack fse size d.cpy y.0 y.1 flag 0x04 bits.1,
        ◌>>=◌,
        unpack-pack fse size d.cpl l.0 l.1 flag 0x02 bits.2,
        ◌>>=◌,
        unpack-pack fse size d.inl n.0 n.1 flag 0x01 bits.3,
      )
      refl
