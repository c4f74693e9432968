-- ===== src/Rejpeg/Packing.antt =====
-- rejpeg.c: `compress_delta_ins` and `decompress_delta_ins`, which code the arrays of instructions.
pub mod RoundTrip
use im_dedup_plus.Prelude.{
  ℕ, ◌+◌, ◌*◌, u32, bit_and, bit_or, Bool, true, false, ◌==◌, ltb, if◌then◌else◌,
}
use im_dedup_plus.Prelude.{Option, none, some, ◌>>=◌, length, List}
use im_dedup_plus.Rejpeg.Bytes.{read_bytes}
use im_dedup_plus.Rejpeg.Container.{Fse, entropy_compress}

-- The bytes of `copy_x`, `copy_y`, `copy_l` and `insert_l`.
pub record DeltaIns : Type 0 where
  pub cpx : List ℕ
  pub cpy : List ℕ
  pub cpl : List ℕ
  pub inl : List ℕ

-- One array, into a destination of its own size: whether the result is kept, and what is written.
unfoldable pub pack : Fse → List ℕ → Bool × List ℕ
pack fse src =
    let (size, dst) = entropy_compress fse src (length src) in
    if ltb 0 size then (true, dst) else (false, src)

-- `rejpeg->flag`, which begins with the first array.
unfoldable pub flag_of : Bool → Bool → Bool → Bool → ℕ
flag_of x y l n =
    bit_or (bit_or (bit_or (if x then 0x08 else 0) (if y then 0x04 else 0)) (if l then 0x02 else 0))
      (if n then 0x01 else 0)

unfoldable pub compress_delta_ins : Fse → DeltaIns → ℕ × DeltaIns
compress_delta_ins fse d =
    let (x, cpx) = pack fse d.cpx in
    let (y, cpy) = pack fse d.cpy in
    let (l, cpl) = pack fse d.cpl in
    let (n, inl) = pack fse d.inl in
    (flag_of x y l n, record { cpx = cpx; cpy = cpy; cpl = cpl; inl = inl })

-- `size`, in `uint32_t`.
unfoldable pub block_count : (ℕ → ℕ) → ℕ
block_count sizes = u32 (sizes 0 * sizes 1 + sizes 2 * sizes 3 * 2)

-- `if(readPtr->flag & bit)`; a cell has two bytes. `none` is a result longer than what was written.
unfoldable pub unpack : Fse → ℕ → ℕ → ℕ → List ℕ → Option (List ℕ)
unpack fse size flag bit src = if bit_and flag bit == 0 then some src else (do
  (bytes, unused) ← read_bytes (fse.decompress (size * 2) src).0 (fse.decompress (size * 2) src).1
  some bytes)

unfoldable pub decompress_delta_ins : Fse → (ℕ → ℕ) → ℕ → DeltaIns → Option DeltaIns
decompress_delta_ins fse sizes flag d = do
  cpx ← unpack fse (block_count sizes) flag 0x08 d.cpx
  cpy ← unpack fse (block_count sizes) flag 0x04 d.cpy
  cpl ← unpack fse (block_count sizes) flag 0x02 d.cpl
  inl ← unpack fse (block_count sizes) flag 0x01 d.inl
  some (record { cpx = cpx; cpy = cpy; cpl = cpl; inl = inl })
