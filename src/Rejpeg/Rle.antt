-- ===== src/Rejpeg/Rle.antt =====
-- rejpeg.c: `rleEncode` and `rleDecode`. A `short` is its 16-bit pattern. The arrays `length` and
-- `value` grow together, so the result is one list of entries, what is appended in order: `len` and
-- `value` of an entry are the cells of `length` and `value`.
pub mod Used
pub mod Runs
pub mod RoundTrip
pub mod Count
use im_dedup_plus.Prelude.{ℕ, zero, suc, ◌+◌, ◌-◌, ◌^◌, u16, u32, ◌>>>◌}
use im_dedup_plus.Prelude.{◌==◌, ltb, if◌then◌else◌, length, get_or, set, take, drop, replicate}
use im_dedup_plus.Prelude.{List, [], ◌∷◌, ◌++◌}
use im_dedup_plus.Rejpeg.Zigzag.{zigzag, de_zigzag}

pub record Entry : Type 0 where
  pub len : ℕ
  pub value : ℕ

abbrev pub entry : ℕ → ℕ → Entry
entry r v = record { len = r; value = v }

-- `for(h=63;h>=0;h--) if(ptr[h]) break;` with h + 1 the first argument and the result.
unfoldable pub last_used : ℕ → List ℕ → ℕ
last_used zero ptr = 0
last_used (suc h) ptr = let below = last_used h ptr in if get_or ptr h 0 == 0 then below else suc h

-- The body of `for(j=0;j<=h;j++)`: what is appended, and `zeroCounter` after it.
unfoldable pub run_out : ℕ → ℕ → List Entry
run_out zero_counter v =
    if v == 0
    then (if zero_counter == 15 then entry 15 0 ∷ [] else [])
    else entry zero_counter v ∷ []

unfoldable pub run_next : ℕ → ℕ → ℕ
run_next zero_counter v = if v == 0 then (if zero_counter == 15 then 0 else zero_counter + 1) else 0

unfoldable pub runs : ℕ → List ℕ → List Entry × ℕ
unfolding run_out run_next
runs zero_counter [] = ([], zero_counter)
runs zero_counter (v ∷ vs) =
    let (es, z) = runs (run_next zero_counter v) vs in (run_out zero_counter v ++ es, z)

-- `ptr[0] = thisDC - lastDC`, a `short`.
unfoldable pub sub_dc : ℕ → List ℕ → List ℕ
sub_dc last_dc ptr = set ptr 0 (u16 (get_or ptr 0 0 + 2 ^ 16 - last_dc))

-- The end of a block is marked unless the last coefficient is used.
unfoldable pub end_mark : ℕ → List Entry
end_mark h = if ltb h 64 then entry 0 0 ∷ [] else []

-- The rest of the outer loop for one block, in zigzag order: the entries, and `zeroCounter`.
unfoldable pub encode_block : ℕ → ℕ → List ℕ → List Entry × ℕ
unfolding last_used runs sub_dc end_mark
encode_block zero_counter last_dc zz =
    let ptr = sub_dc last_dc zz in
    let h = last_used 64 ptr in
    let (es, z) = runs zero_counter (take h ptr) in (es ++ end_mark h, z)

-- `tmp` is what `malloc` returns in `zigzag`.
unfoldable pub encode_blocks : List ℕ → ℕ → ℕ → List (List ℕ) → List Entry
unfolding encode_block
encode_blocks tmp zero_counter last_dc [] = []
encode_blocks tmp zero_counter last_dc (b ∷ bs) =
    let zz = zigzag tmp b in
    let (es, z) = encode_block zero_counter last_dc zz in
    es ++ encode_blocks tmp z (get_or zz 0 0) bs

unfoldable pub rle_encode : List ℕ → List (List ℕ) → List Entry
unfolding encode_blocks
rle_encode tmp blocks = encode_blocks tmp 0 0 blocks

-- The state of `rleDecode`: `dct` is the zeroed buffer up to `dctPtr`, `out` the blocks behind
-- `zigzagTmp` up to `zigzagPtr`.
pub record Decoder : Type 0 where
  pub dct : List ℕ
  pub block_left : ℕ
  pub last_dc : ℕ
  pub out : List (List ℕ)

-- `dctPtr += n`: the buffer came zeroed.
abbrev pub skip : ℕ → List ℕ → List ℕ
skip n dct = dct ++ replicate n 0

-- The two branches on `lengthTmp`, up to `if(blockLeft == 0)`.
unfoldable pub place : Decoder → Entry → Decoder
place s e =
    let length_tmp = e.len >>> 4 in
    if length_tmp == 0
    then (if e.value == 0
        then record s { dct = skip s.block_left s.dct; block_left = 0 }
        else record s { dct = s.dct ++ e.value ∷ []; block_left = u32 (s.block_left + 2 ^ 32 - 1) })
    else record s {
      dct = skip length_tmp s.dct ++ e.value ∷ [];
      block_left = u32 (s.block_left + 2 ^ 32 - (length_tmp + 1));
    }

-- `if(blockLeft == 0) …`: add the DC of the block before, and order the block back.
unfoldable pub finish : Decoder → Decoder
finish s =
    if s.block_left == 0
    then (let start = length s.dct - 64 in
        let dc = u16 (get_or s.dct start 0 + s.last_dc) in
        let dct = set s.dct start dc in
        record {
          dct = dct;
          block_left = 64;
          last_dc = dc;
          out = s.out ++ de_zigzag (drop start dct) ∷ [];
        })
    else s

unfoldable pub decode_entries : Decoder → List Entry → Decoder
unfolding place finish
decode_entries s [] = s
decode_entries s (e ∷ es) = decode_entries (finish (place s e)) es

unfoldable pub rle_decode : List Entry → List (List ℕ)
unfolding decode_entries
rle_decode es =
    (decode_entries (record { dct = []; block_left = 64; last_dc = 0; out = [] }) es).out
