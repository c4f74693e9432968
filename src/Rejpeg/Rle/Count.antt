-- ===== src/Rejpeg/Rle/Count.antt =====
-- rejpeg.c: how many entries `rleEncode` makes.
use im_dedup_plus.Prelude.{ℕ, zero, suc, ◌+◌, ◌*◌, ◌≤◌, arith}
use im_dedup_plus.Prelude.{
  ◌==◌, ltb, Bool-cases, inl, inr, length, length-append, length-take, take, get_or,
}
use im_dedup_plus.Prelude.{List, [], ◌∷◌}
use im_dedup_plus.Rejpeg.Zigzag.{zigzag}
use im_dedup_plus.Rejpeg.Rle.{
  last_used, run_out, run_next, runs, sub_dc, end_mark, encode_block, encode_blocks, rle_encode,
}

length-run_out : (z v : ℕ) → length (run_out z v) ≤ 1
unfolding run_out
length-run_out z v = elim (Bool-cases (v == 0)) [
  | inr e ↦ rw (run_out, e) (omega arith)
  | inl e ↦ elim (Bool-cases (z == 15)) [
    | inl f ↦ rw (run_out, e, f) (omega arith)
    | inr f ↦ rw (run_out, e, f) (omega arith)
  ]
]

length-runs : (z : ℕ) (vs : List ℕ) → length (runs z vs).0 ≤ length vs
unfolding runs
length-runs z [] = omega arith
length-runs z (v ∷ vs) = omega (
  arith,
  length-append (run_out z v) (runs (run_next z v) vs).0,
  length-run_out z v,
  length-runs (run_next z v) vs,
)

last_used-le : (n : ℕ) (ptr : List ℕ) → last_used n ptr ≤ n
unfolding last_used
last_used-le zero ptr = omega arith
last_used-le (suc h) ptr = elim (Bool-cases (get_or ptr h 0 == 0)) [
  | inl e ↦ rw (last_used, e) (omega (arith, last_used-le h ptr))
  | inr e ↦ rw (last_used, e) (omega arith)
]

-- The mark of the end takes the place of an unused coefficient.
with_mark : (h : ℕ) → h ≤ 64 → h + length (end_mark h) ≤ 64
unfolding end_mark
with_mark h le = elim (Bool-cases (ltb h 64)) [
  | inl e ↦ rw (end_mark, e) (ground arith)
  | inr e ↦ rw (end_mark, e) (omega (arith, le))
]

length-encode_block : (z last : ℕ) (zz : List ℕ) → length (encode_block z last zz).0 ≤ 64
unfolding encode_block
length-encode_block z last zz =
    let ptr = sub_dc last zz in
    let h = last_used 64 ptr in
    omega (
      arith,
      length-append (runs z (take h ptr)).0 (end_mark h),
      length-runs z (take h ptr),
      length-take h ptr,
      with_mark h (last_used-le 64 ptr),
    )

length-encode_blocks :
    (tmp : List ℕ) (z last : ℕ) (bs : List (List ℕ))
    → length (encode_blocks tmp z last bs) ≤ 64 * length bs
unfolding encode_blocks
length-encode_blocks tmp z last [] = omega arith
length-encode_blocks tmp z last (b ∷ bs) =
    let zz = zigzag tmp b in
    let z' = (encode_block z last zz).1 in
    omega (
      arith,
      length-append (encode_block z last zz).0 (encode_blocks tmp z' (get_or zz 0 0) bs),
      length-encode_block z last zz,
      length-encode_blocks tmp z' (get_or zz 0 0) bs,
    )

-- At most 64 entries to a block.
pub length-rle_encode :
    (tmp : List ℕ) (bs : List (List ℕ)) → length (rle_encode tmp bs) ≤ 64 * length bs
unfolding rle_encode
length-rle_encode tmp bs = length-encode_blocks tmp 0 0 bs
