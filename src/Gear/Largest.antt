-- ===== src/Gear/Largest.antt =====
-- 2df.c: the features of an image by the gear hash (`compute_features` with the method `_GEAR`).
use im_dedup_plus.Prelude.{
  ℕ, zero, suc, ◌+◌, ◌-◌, ◌≤◌, ◌<◌, ◌≡◌, refl, sym, ap, ◌∙◌, arith, u64, AllBytes, byte_at,
}
use im_dedup_plus.Prelude.{
  Option, none, some, ◌>>=◌, length, get_elem?, take, map, List, [], ◌∷◌, ◌++◌,
}
use im_dedup_plus.Features.{Feature, Window, no_feature, try_features}
use im_dedup_plus.Features.Best.{AllBestFrom, scan, scan-AllBestFrom}
use im_dedup_plus.Gear.{gear_slide, gear_slides, gear_slide_a_block}
use im_dedup_plus.Gear.Halves.{gear_slide-of_byte, gear_slide_a_block-halves}

-- A hash in the place of `tmpFeature`; `pos` and `dc` stay 0.
abbrev pub gear_window : ℕ → Window
gear_window hash = record { value = hash; place = 0; dc = 0 }

-- Two dimensions: the loop over the blocks, each as its bytes.
unfoldable pub gear_blocks : List (ℕ × ℕ) → List (List ℕ) → List Feature → Option (List Feature)
gear_blocks index [] fs = some fs
gear_blocks index (ptr ∷ rest) fs = do
  hash ← gear_slide_a_block ptr
  gear_blocks index rest (try_features index (gear_window hash) fs)

-- One dimension: the loop behind byte 63, which drops the result of `gear_slide`.
unfoldable pub gear_rest : List (ℕ × ℕ) → ℕ → List ℕ → ℕ → ℕ → List Feature → Option (List Feature)
gear_rest index zero bytes i hash fs = some fs
gear_rest index (suc n) bytes i hash fs = do
  b ← get_elem? bytes i
  dropped ← gear_slide hash b
  gear_rest index n bytes (i + 1) hash (try_features index (gear_window hash) fs)

-- The bytes are those of at least one block.
unfoldable pub gear_bytes : List (ℕ × ℕ) → List ℕ → Option (List Feature)
gear_bytes index bytes = do
  hash ← gear_slides 0 (take 63 bytes)
  gear_rest index (length bytes - 64) bytes 63 hash (map (λ kb. no_feature) index)

-- Blocks of two halves of 64 bytes each.
abbrev pub Halves : Type 0
Halves =
    (head : List ℕ) × (tail : List ℕ) × (length head ≡ 64)
    × (length tail ≡ 64)
    × AllBytes head
    × AllBytes tail

abbrev pub whole : Halves → List ℕ
whole (head, tail, lh, lt, bh, bt) = head ++ tail

-- For any number of blocks of two halves of 64 bytes each and any features before them: each block has
-- a hash, and what is kept for each feature is the largest of what its coefficients give of the hashes
-- and of what stood there before.
pub gear_blocks-AllBestFrom :
    (index : List (ℕ × ℕ)) (bs : List Halves) (before : List Feature)
    → (hashes : List ℕ) × (fs : List Feature) × (map (λ b. gear_slide_a_block (whole b)) bs
        ≡ map (λ h. some h) hashes)
      × (gear_blocks index (map whole bs) before ≡ some fs)
      × AllBestFrom index (map gear_window hashes) before fs
unfolding gear_blocks
gear_blocks-AllBestFrom index bs before =
    let (hashes, each, run) = hashed bs before in
    (
      hashes,
      scan index (map gear_window hashes) before,
      each,
      run,
      scan-AllBestFrom index (map gear_window hashes) before,
    )
  where
    hashed :
        (bs : List Halves) (before : List Feature)
        → (hashes : List ℕ) × (map (λ b. gear_slide_a_block (whole b)) bs
            ≡ map (λ h. some h) hashes)
          × (gear_blocks index (map whole bs) before
              ≡ some (scan index (map gear_window hashes) before))
    hashed [] before = ([], refl, refl)
    hashed ((head, tail, lh, lt, bh, bt) ∷ bs) before =
        let (a, b, ea, eb, e) = gear_slide_a_block-halves head tail lh lt bh bt in
        let (hashes, each, run) =
          hashed bs (try_features index (gear_window (u64 (a + b))) before) in
        (u64 (a + b) ∷ hashes, rw (e, each) refl, rw (e, ◌>>=◌) run)

-- The loop keeps its hash.
rounds : List (ℕ × ℕ) → ℕ → ℕ → List Feature → List Feature
rounds index zero hash fs = fs
rounds index (suc n) hash fs = rounds index n hash (try_features index (gear_window hash) fs)

gear_rest-rounds :
    (index : List (ℕ × ℕ)) (n i hash : ℕ) (bytes : List ℕ) (fs : List Feature)
    → AllBytes bytes
    → i + n < length bytes + 1
    → gear_rest index n bytes i hash fs ≡ some (rounds index n hash fs)
unfolding gear_rest rounds
gear_rest-rounds index zero i hash bytes fs all h = refl
gear_rest-rounds index (suc n) i hash bytes fs all h =
    let (b, got, small) = byte_at bytes i all (omega (arith, h)) in
    let (x, e) = gear_slide-of_byte hash b small in
    rw (got, ◌>>=◌, e, ◌>>=◌)
      (gear_rest-rounds index n (i + 1) hash bytes (try_features index (gear_window hash) fs) all
        (omega (arith, h)))

-- In one dimension, two images of the same number of bytes, at least 64, whose first 63 bytes are the
-- same have the same features: the bytes behind them do not count.
pub gear_bytes-prefix :
    (index : List (ℕ × ℕ)) (xs ys : List ℕ)
    → AllBytes xs
    → AllBytes ys
    → 64 ≤ length xs
    → length xs ≡ length ys
    → take 63 xs ≡ take 63 ys
    → gear_bytes index xs ≡ gear_bytes index ys
unfolding gear_bytes
gear_bytes-prefix index xs ys all all' long same start =
    ap (λ (hash : Option ℕ). hash >>= λ h. gear_rest index (length xs - 64) xs 63 h none_yet)
      (ap (λ (p : List ℕ). gear_slides 0 p) start)
    ∙ later (gear_slides 0 (take 63 ys))
  where
    none_yet : List Feature
    none_yet = map (λ kb. no_feature) index

    later :
        (hash : Option ℕ)
        → (hash >>= λ h. gear_rest index (length xs - 64) xs 63 h none_yet)
          ≡ (hash >>= λ h. gear_rest index (length ys - 64) ys 63 h none_yet)
    later none = refl
    later (some h) =
        gear_rest-rounds index (length xs - 64) 63 h xs none_yet all (omega (arith, long))
        ∙ ap (λ (n : ℕ). some (rounds index (n - 64) h none_yet)) same
        ∙ sym (
            gear_rest-rounds index (length ys - 64) 63 h ys none_yet all'
              (omega (arith, long, same)))
