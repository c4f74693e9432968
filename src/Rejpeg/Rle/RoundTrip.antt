-- ===== src/Rejpeg/Rle/RoundTrip.antt =====
-- rejpeg.c: `rleDecode` undoes `rleEncode`.
use mathlib.Core.List.{map-append}
use im_dedup_plus.Prelude.{ℕ, zero, suc, ◌+◌, ◌-◌, ◌^◌, ◌≤◌, ◌<◌, ◌≡◌, refl, ap, sym, ◌∙◌, arith}
use im_dedup_plus.Prelude.{
  u16, true, ◌==◌, length, get_or, set, take, drop, replicate, length-append,
}
use im_dedup_plus.Prelude.{List, [], ◌∷◌, ◌++◌, map, append_assoc, append-nil}
use im_dedup_plus.Rejpeg.Zigzag.{zigzag, de_zigzag, zz_sequence}
use im_dedup_plus.Rejpeg.Zigzag.Inverse.{de_zigzag-zigzag, length-zigzag}
use im_dedup_plus.Rejpeg.Rle.{Entry, last_used, sub_dc, encode_block}
use im_dedup_plus.Rejpeg.Rle.{
  encode_blocks, rle_encode, Decoder, finish, decode_entries, rle_decode,
}
use im_dedup_plus.Rejpeg.Rle.Used.{
  EndsUsed, last_used-le, zero_above, used_below, EndsUsed-take, zero_tail,
}
use im_dedup_plus.Rejpeg.Rle.Runs.{
  advance, tagged, ptr_decode, decode_entries-append, runs_end_list,
}

-- 64 coefficients, each a 16-bit pattern.
abbrev pub IsBlock : List ℕ → Type 0
IsBlock b = (length b ≡ 64) × ((i : ℕ) → get_or b i 0 < 2 ^ 16)

abbrev pub AllBlocks : List (List ℕ) → Type 0
AllBlocks [] = Unit
AllBlocks (b ∷ bs) = IsBlock b × AllBlocks bs

set-append :
    (pre : List ℕ) (x v : ℕ) (xs : List ℕ) → set (pre ++ x ∷ xs) (length pre) v ≡ pre ++ v ∷ xs
set-append [] x v xs = refl
set-append (p ∷ pre) x v xs = ap (λ (t : List ℕ). p ∷ t) (set-append pre x v xs)

drop-append : (pre xs : List ℕ) → drop (length pre) (pre ++ xs) ≡ xs
drop-append [] xs = refl
drop-append (p ∷ pre) xs = drop-append pre xs

get_or-append_head :
    (pre : List ℕ) (x : ℕ) (xs : List ℕ) → get_or (pre ++ x ∷ xs) (length pre) 0 ≡ x
get_or-append_head [] x xs = refl
get_or-append_head (p ∷ pre) x xs = get_or-append_head pre x xs

-- At the end of a block its DC is restored and the block is put out.
finish_full :
    (s : Decoder) (x : ℕ) (xs : List ℕ)
    → s.block_left ≡ 64
    → length xs ≡ 63
    → finish (advance s (x ∷ xs)) ≡ record {
      dct = s.dct ++ u16 (x + s.last_dc) ∷ xs;
      block_left = 64;
      last_dc = u16 (x + s.last_dc);
      out = s.out ++ de_zigzag (u16 (x + s.last_dc) ∷ xs) ∷ [];
    }
unfolding finish
finish_full s x xs left len =
    rw (done, start)
      (rw (get_or-append_head s.dct x xs) (
        rw (set-append s.dct x (u16 (x + s.last_dc)) xs)
          (rw (drop-append s.dct (u16 (x + s.last_dc) ∷ xs)) refl)))
  where
    done : (s.block_left - length (x ∷ xs) == 0) ≡ true
    done = ground arith

    start : length (s.dct ++ x ∷ xs) - 64 ≡ length s.dct
    start = omega (arith, length-append {0} s.dct (x ∷ xs))

dc_back : (x last : ℕ) → x < 2 ^ 16 → last < 2 ^ 16 → u16 (u16 (x + 2 ^ 16 - last) + last) ≡ x
dc_back x last h k = omega arith

-- What `finish` makes of the coefficients of a block whose DC was replaced by its difference.
finish_block :
    (s : Decoder) (zz : List ℕ)
    → s.block_left ≡ 64
    → s.last_dc < 2 ^ 16
    → length zz ≡ 64
    → get_or zz 0 0 < 2 ^ 16
    → finish (advance s (sub_dc s.last_dc zz)) ≡ record {
      dct = s.dct ++ zz;
      block_left = 64;
      last_dc = get_or zz 0 0;
      out = s.out ++ de_zigzag zz ∷ [];
    }
unfolding sub_dc
finish_block s [] left small len head = absurd (omega arith)
finish_block s (x ∷ xs) left small len head =
    rw (finish_full s (u16 (x + 2 ^ 16 - s.last_dc)) xs left (omega arith))
      (rw (dc_back x s.last_dc head small) refl)

length-sub_dc : (last : ℕ) (zz : List ℕ) → length (sub_dc last zz) ≡ length zz
unfolding sub_dc
length-sub_dc last [] = refl
length-sub_dc last (x ∷ xs) = refl

module _ (last : ℕ) (zz : List ℕ) (len : length zz ≡ 64) where
  abbrev ptr : List ℕ
  ptr = sub_dc last zz

  abbrev h : ℕ
  h = last_used 64 ptr

  len_ptr : length ptr ≡ 64
  len_ptr = length-sub_dc last zz ∙ len

  h_le : h ≤ 64
  h_le = last_used-le 64 ptr

  used_ends : EndsUsed (take h ptr)
  used_ends = go h refl
    where
      go : (k : ℕ) → last_used 64 ptr ≡ k → EndsUsed (take k ptr)
      go zero e = tt
      go (suc k) e = EndsUsed-take ptr k (omega (arith, len_ptr, h_le)) (used_below 64 ptr k e)

  tail_zero : take h ptr ++ replicate (64 - h) 0 ≡ ptr
  tail_zero =
      ap (λ (n : ℕ). take h ptr ++ replicate (n - h) 0) (sym len_ptr)
      ∙ zero_tail ptr h (λ i p q. zero_above 64 ptr i p (omega (arith, len_ptr)))

  count_zero : (encode_block 0 last zz).1 ≡ 0
  unfolding encode_block
  count_zero = runs_end_list (take h ptr) used_ends

  block_decode :
      (nibble : Entry → ℕ) (small : (e : Entry) → nibble e < 16) (s : Decoder)
      → s.block_left ≡ 64
      → decode_entries s (map (tagged nibble small) (encode_block 0 last zz).0)
        ≡ finish (advance s ptr)
  unfolding encode_block
  block_decode nibble small s left =
      ptr_decode nibble small s ptr h left len_ptr h_le used_ends tail_zero

zigzag_head :
    (tmp b : List ℕ) → length tmp ≡ 64 → length b ≡ 64 → get_or (zigzag tmp b) 0 0 ≡ get_or b 0 0
unfolding de_zigzag zz_sequence
zigzag_head tmp b t len = ap (λ (l : List ℕ). get_or l 0 0) (de_zigzag-zigzag tmp b t len)

encode_cons :
    (tmp : List ℕ) (last : ℕ) (b : List ℕ) (bs : List (List ℕ))
    → length tmp ≡ 64
    → encode_blocks tmp 0 last (b ∷ bs)
      ≡ (encode_block 0 last (zigzag tmp b)).0 ++ encode_blocks tmp 0 (get_or (zigzag tmp b) 0 0) bs
unfolding encode_blocks
encode_cons tmp last b bs t =
    ap
      (λ (z : ℕ).
        (encode_block 0 last (zigzag tmp b)).0
        ++ encode_blocks tmp z (get_or (zigzag tmp b) 0 0) bs)
      (count_zero last (zigzag tmp b) (length-zigzag tmp b ∙ t))

module _ (nibble : Entry → ℕ) (small : (e : Entry) → nibble e < 16) (tmp : List ℕ)
    (t : length tmp ≡ 64) where
  blocks_decode :
      (s : Decoder) (bs : List (List ℕ))
      → s.block_left ≡ 64
      → s.last_dc < 2 ^ 16
      → AllBlocks bs
      → (decode_entries s (map (tagged nibble small) (encode_blocks tmp 0 s.last_dc bs))).out
        ≡ s.out ++ bs
  blocks_decode s [] left low all = rw none_left (sym (append-nil s.out))
    where
      none_left :
          (decode_entries s (map (tagged nibble small) (encode_blocks tmp 0 s.last_dc []))).out
          ≡ s.out
      none_left = unfold encode_blocks decode_entries in refl
  blocks_decode s (b ∷ bs) left low all =
      let zz = zigzag tmp b in
      let len = length-zigzag tmp b ∙ t in
      let head : get_or zz 0 0 < 2 ^ 16 = rw (zigzag_head tmp b t all.0.0) (all.0.1 0) in
      let s' : Decoder = record {
        dct = s.dct ++ zz;
        block_left = 64;
        last_dc = get_or zz 0 0;
        out = s.out ++ de_zigzag zz ∷ [];
      } in
      rw (encode_cons tmp s.last_dc b bs t, map-append, decode_entries-append)
        (ap
            (λ (d : Decoder).
              (decode_entries d
                (map (tagged nibble small) (encode_blocks tmp 0 (get_or zz 0 0) bs))).out)
            (block_decode s.last_dc zz len nibble small s left
              ∙ finish_block s zz left low len head)
          ∙ blocks_decode s' bs refl head all.1
          ∙ append_assoc s.out (de_zigzag zz ∷ []) bs
          ∙ ap (λ (c : List ℕ). s.out ++ c ∷ bs) (de_zigzag-zigzag tmp b t all.0.0))

  -- Whatever the low nibbles of the length bytes hold and whatever the 64 cells of `zigzag`'s buffer,
  -- `rleDecode` gives back the blocks of 64 coefficients that `rleEncode` was given, each with its DC and
  -- in the order of the image.
  pub rle_decode-rle_encode :
      (bs : List (List ℕ))
      → AllBlocks bs
      → rle_decode (map (tagged nibble small) (rle_encode tmp bs)) ≡ bs
  unfolding rle_decode rle_encode
  rle_decode-rle_encode bs all =
      blocks_decode (record { dct = []; block_left = 64; last_dc = 0; out = [] }) bs refl
        (omega arith) all
