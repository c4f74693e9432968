-- ===== src/Rejpeg/Codable.antt =====
-- rejpeg.c: the entries that `rleEncode` makes of the coefficients of a JPEG image suit `vliEncode`.
use im_dedup_plus.Prelude.{ℕ, zero, suc, ◌+◌, ◌-◌, ◌^◌, ◌≤◌, ◌<◌, ◌≡◌, arith, u16}
use im_dedup_plus.Prelude.{◌==◌, ltb, Bool-cases, inl, inr, length, get_or, take}
use im_dedup_plus.Prelude.{List, [], ◌∷◌, ◌++◌}
use im_dedup_plus.Rejpeg.Zigzag.{zigzag}
use im_dedup_plus.Rejpeg.Zigzag.Range.{zigzag_cell}
use im_dedup_plus.Rejpeg.Rle.{
  Entry, entry, last_used, run_out, run_next, runs, sub_dc, end_mark, encode_block, encode_blocks,
  rle_encode,
}
use im_dedup_plus.Rejpeg.Rle.RoundTrip.{AllBlocks}
use im_dedup_plus.Rejpeg.Vli.{magnitude}
use im_dedup_plus.Rejpeg.Vli.Rounds.{IsCodable, AllCodable}

-- Coefficients as a baseline JPEG file can have them.
abbrev pub IsCoefficient : ℕ → Type 0
IsCoefficient v = (v < 2 ^ 16) × (magnitude v ≤ 2047)

abbrev pub IsJpegBlock : List ℕ → Type 0
IsJpegBlock b = (length b ≡ 64) × ((i : ℕ) → IsCoefficient (get_or b i 0))

abbrev pub AllJpegBlocks : List (List ℕ) → Type 0
AllJpegBlocks [] = Unit
AllJpegBlocks (b ∷ bs) = IsJpegBlock b × AllJpegBlocks bs

-- A coefficient or a difference of two.
abbrev IsDifference : ℕ → Type 0
IsDifference v = (v < 2 ^ 16) × (magnitude v ≤ 4095)

abbrev AllDifferences : List ℕ → Type 0
AllDifferences [] = Unit
AllDifferences (v ∷ vs) = IsDifference v × AllDifferences vs

zero-IsCoefficient : IsCoefficient 0
unfolding magnitude
zero-IsCoefficient = (omega arith, omega arith)

difference : (a b : ℕ) → IsCoefficient a → IsCoefficient b → IsDifference (u16 (a + 2 ^ 16 - b))
unfolding magnitude
difference a b (a1, a2) (b1, b2) = (omega arith, ground arith)

widen : (v : ℕ) → IsCoefficient v → IsDifference v
widen v (p, q) = (p, omega arith)

all_cells : (xs : List ℕ) → ((i : ℕ) → IsCoefficient (get_or xs i 0)) → AllDifferences xs
all_cells [] h = tt
all_cells (x ∷ xs) h = (widen x (h 0), all_cells xs (λ i. h (suc i)))

sub_dc_cells :
    (last : ℕ) (xs : List ℕ)
    → IsCoefficient last
    → ((i : ℕ) → IsCoefficient (get_or xs i 0))
    → AllDifferences (sub_dc last xs)
unfolding sub_dc
sub_dc_cells last [] l h = tt
sub_dc_cells last (x ∷ xs) l h = (difference x last (h 0) l, all_cells xs (λ i. h (suc i)))

take_cells : (n : ℕ) (xs : List ℕ) → AllDifferences xs → AllDifferences (take n xs)
take_cells zero xs h = tt
take_cells (suc n) [] h = tt
take_cells (suc n) (x ∷ xs) (p, q) = (p, take_cells n xs q)

append-AllCodable : (es fs : List Entry) → AllCodable es → AllCodable fs → AllCodable (es ++ fs)
append-AllCodable [] fs p q = q
append-AllCodable (e ∷ es) fs (h, p) q = (h, append-AllCodable es fs p q)

small_entry : (r : ℕ) → r ≤ 15 → IsCodable (entry r 0)
unfolding magnitude
small_entry r h = (h, omega arith, omega arith)

run_out-AllCodable : (z v : ℕ) → z ≤ 15 → IsDifference v → AllCodable (run_out z v)
unfolding run_out
run_out-AllCodable z v h d = elim (Bool-cases (v == 0)) [
  | inr e ↦ rw (run_out, e) ((h, d.0, d.1), tt)
  | inl e ↦ elim (Bool-cases (z == 15)) [
    | inl f ↦ rw (run_out, e, f) (small_entry 15 (omega arith), tt)
    | inr f ↦ rw (run_out, e, f) tt
  ]
]

run_next-le : (z v : ℕ) → z ≤ 15 → run_next z v ≤ 15
unfolding run_next
run_next-le z v h = ground arith

runs-AllCodable :
    (z : ℕ) (vs : List ℕ)
    → z ≤ 15
    → AllDifferences vs
    → AllCodable (runs z vs).0 × ((runs z vs).1 ≤ 15)
unfolding runs
runs-AllCodable z [] h all = (tt, h)
runs-AllCodable z (v ∷ vs) h (d, all) =
    let (es, le) = runs-AllCodable (run_next z v) vs (run_next-le z v h) all in
    (append-AllCodable (run_out z v) (runs (run_next z v) vs).0 (run_out-AllCodable z v h d) es, le)

end_mark-AllCodable : (h : ℕ) → AllCodable (end_mark h)
unfolding end_mark
end_mark-AllCodable h = elim (Bool-cases (ltb h 64)) [
  | inl e ↦ rw (end_mark, e) (small_entry 0 (omega arith), tt)
  | inr e ↦ rw (end_mark, e) tt
]

encode_block-AllCodable :
    (z last : ℕ) (zz : List ℕ)
    → z ≤ 15
    → IsCoefficient last
    → ((i : ℕ) → IsCoefficient (get_or zz i 0))
    → AllCodable (encode_block z last zz).0 × ((encode_block z last zz).1 ≤ 15)
unfolding encode_block
encode_block-AllCodable z last zz h l cells =
    let ptr = sub_dc last zz in
    let n = last_used 64 ptr in
    let (es, le) =
      runs-AllCodable z (take n ptr) h (take_cells n ptr (sub_dc_cells last zz l cells)) in
    (append-AllCodable (runs z (take n ptr)).0 (end_mark n) es (end_mark-AllCodable n), le)

encode_blocks-AllCodable :
    (tmp : List ℕ) (z last : ℕ) (bs : List (List ℕ))
    → length tmp ≡ 64
    → z ≤ 15
    → IsCoefficient last
    → AllJpegBlocks bs
    → AllCodable (encode_blocks tmp z last bs)
unfolding encode_blocks
encode_blocks-AllCodable tmp z last [] t h l all = tt
encode_blocks-AllCodable tmp z last (b ∷ bs) t h l (ok, all) =
    let zz = zigzag tmp b in
    let cells = λ (i : ℕ). zigzag_cell IsCoefficient zero-IsCoefficient tmp b i t ok.0 ok.1 in
    let (es, le) = encode_block-AllCodable z last zz h l cells in
    append-AllCodable (encode_block z last zz).0 _ es (
      encode_blocks-AllCodable tmp (encode_block z last zz).1 (get_or zz 0 0) bs t le (cells 0) all)

-- For blocks of 64 coefficients of at most 2047 either way, and a buffer of 64 cells for `zigzag`,
-- every entry that `rleEncode` makes has a run of at most 15 and a number of at most 4095 either way.
pub rle_encode-AllCodable :
    (tmp : List ℕ) (bs : List (List ℕ))
    → length tmp ≡ 64
    → AllJpegBlocks bs
    → AllCodable (rle_encode tmp bs)
unfolding rle_encode
rle_encode-AllCodable tmp bs t all =
    encode_blocks-AllCodable tmp 0 0 bs t (omega arith) zero-IsCoefficient all

pub AllBlocks-AllJpegBlocks : (bs : List (List ℕ)) → AllJpegBlocks bs → AllBlocks bs
AllBlocks-AllJpegBlocks [] all = tt
AllBlocks-AllJpegBlocks (b ∷ bs) (ok, all) =
    ((ok.0, λ i. (ok.1 i).0), AllBlocks-AllJpegBlocks bs all)
