-- ===== src/Archive/Record.antt =====
-- idedup.c: what `write_thread` writes of one image, and the node that `de_read_thread` makes of it.
use im_dedup_plus.Prelude.{ℕ, zero, suc, ◌+◌, ◌-◌, u32, u64, ◌==◌, if◌then◌else◌}
use im_dedup_plus.Prelude.{Option, none, some, ◌>>=◌, length, get_or, List, [], ◌∷◌, ◌++◌}
use im_dedup_plus.Rejpeg.Bytes.{u32_bytes, read_u32, read_bytes}
use im_dedup_plus.Rejpeg.Packing.{DeltaIns}

-- `dedupResult`, as far as it is coded and written. Names are their characters, without the 0 at the end, and
-- `headerSize` is how long `header` is; `ins` are the bytes of `copy_x`, `copy_y`, `copy_l` and
-- `insert_l`, and `insert_p` the inserted blocks.
pub record DedupRes : Type 0 where
  pub base_name : List ℕ
  pub name : List ℕ
  pub img_size : ℕ → ℕ
  pub y_counter : ℕ
  pub u_counter : ℕ
  pub v_counter : ℕ
  pub header : List ℕ
  pub ffxx : ℕ
  pub xx : ℕ
  pub ins : DeltaIns
  pub insert_p : List (List ℕ)

-- `rejpegResult`. Each array of `ins` is the compressed one where there is one and else the one of
-- `dedupRes`; its size field, like `rejpegSize`, is how long it is.
pub record RejpegRes : Type 0 where
  pub dedup_res : DedupRes
  pub rejpeg_res : List ℕ
  pub flag : ℕ
  pub ins : DeltaIns

-- `subSize`.
unfoldable pub sub_size : RejpegRes → List ℕ
sub_size r =
    let d = r.dedup_res in
    d.img_size 0
    ∷ d.img_size 1
    ∷ d.img_size 2
    ∷ d.img_size 3
    ∷ d.y_counter
    ∷ d.u_counter
    ∷ d.v_counter
    ∷ length d.header
    ∷ length r.ins.cpx
    ∷ length r.ins.cpy
    ∷ length r.ins.cpl
    ∷ length r.ins.inl
    ∷ length r.rejpeg_res
    ∷ []

-- The bytes of an array of `uint32_t`.
unfoldable pub array_bytes : List ℕ → List ℕ
array_bytes [] = []
array_bytes (n ∷ ns) = u32_bytes n ++ array_bytes ns

-- What is handed to `write_cache`, call by call.
unfoldable pub pieces : RejpegRes → List (List ℕ)
pieces r =
    let d = r.dedup_res in
    (d.base_name ++ 0 ∷ [])
    ∷ (d.name ++ 0 ∷ [])
    ∷ array_bytes (sub_size r)
    ∷ (d.ffxx ∷ [])
    ∷ (d.xx ∷ [])
    ∷ d.header
    ∷ (r.flag ∷ [])
    ∷ r.ins.cpx
    ∷ r.ins.cpy
    ∷ r.ins.cpl
    ∷ r.ins.inl
    ∷ r.rejpeg_res
    ∷ []

-- The calls for the images in the order of the queue.
unfoldable pub all_pieces : List RejpegRes → List (List ℕ)
all_pieces [] = []
all_pieces (r ∷ rs) = pieces r ++ all_pieces rs

-- What one image adds to `*finalSize`; `sizeof(subSize)` is 52.
unfoldable pub final_size_of : RejpegRes → ℕ
final_size_of r =
    let d = r.dedup_res in
    length d.base_name
    + 1
    + length d.name
    + 1
    + 52
    + 2
    + length d.header
    + 1
    + length r.ins.cpx
    + length r.ins.cpy
    + length r.ins.cpl
    + length r.ins.inl
    + length r.rejpeg_res

unfoldable pub final_size : List RejpegRes → ℕ
final_size [] = 0
final_size (r ∷ rs) = u64 (final_size_of r + final_size rs)

-- `de_readData`. A pointer into the archive is the bytes there, as many as its size says.
pub record DeRead : Type 0 where
  pub basename_and_oriptr : List ℕ
  pub name : List ℕ
  pub sizes : List ℕ
  pub ffxx : ℕ
  pub xx : ℕ
  pub header : List ℕ
  pub flag : ℕ
  pub x : List ℕ
  pub y : List ℕ
  pub cp_l : List ℕ
  pub in_l : List ℕ
  pub in_d : List ℕ
  pub mem_size : ℕ

-- The characters up to the 0, as `strlen` counts them, and what is behind the 0.
unfoldable pub read_string : List ℕ → Option (List ℕ × List ℕ)
read_string [] = none
read_string (c ∷ cs) =
    let rest = read_string cs in
    if c == 0 then some ([], cs) else (do (name, behind) ← rest; some (c ∷ name, behind))

unfoldable pub read_array : ℕ → List ℕ → Option (List ℕ × List ℕ)
read_array zero ptr = some ([], ptr)
read_array (suc n) ptr = do
  (a, ptr1) ← read_u32 ptr
  (rest, ptr2) ← read_array n ptr1
  some (a ∷ rest, ptr2)

unfoldable pub read_byte : List ℕ → Option (ℕ × List ℕ)
read_byte [] = none
read_byte (b ∷ ptr) = some (b, ptr)

-- `if(*data < boundary)`: the node, and where `*data` is then. `none` is an image that reaches past
-- the boundary.
unfoldable pub read_image : List ℕ → Option (DeRead × List ℕ)
read_image start = do
  (basename, ptr1) ← read_string start
  (name, ptr2) ← read_string ptr1
  (sizes, ptr3) ← read_array 13 ptr2
  (ffxx, ptr4) ← read_byte ptr3
  (xx, ptr5) ← read_byte ptr4
  (header, ptr6) ← read_bytes (get_or sizes 7 0) ptr5
  (flag, ptr7) ← read_byte ptr6
  (x, ptr8) ← read_bytes (get_or sizes 8 0) ptr7
  (y, ptr9) ← read_bytes (get_or sizes 9 0) ptr8
  (cp_l, ptr10) ← read_bytes (get_or sizes 10 0) ptr9
  (in_l, ptr11) ← read_bytes (get_or sizes 11 0) ptr10
  (in_d, behind) ← read_bytes (get_or sizes 12 0) ptr11
  some (
    record {
      basename_and_oriptr = basename;
      name = name;
      sizes = sizes;
      ffxx = ffxx;
      xx = xx;
      header = header;
      flag = flag;
      x = x;
      y = y;
      cp_l = cp_l;
      in_l = in_l;
      in_d = in_d;
      mem_size = u32 (length start - length behind);
    },
    behind,
  )

-- The images that the loop takes from the archive, first to last. The outer `none` is fuel that ran
-- out, or an image that reaches past the boundary.
unfoldable pub read_images : ℕ → List ℕ → Option (List DeRead)
read_images fuel [] = some []
read_images zero (b ∷ bs) = none
read_images (suc fuel) (b ∷ bs) = do
  (r, behind) ← read_image (b ∷ bs)
  rest ← read_images fuel behind
  some (r ∷ rest)
