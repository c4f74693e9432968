-- ===== src/Features/Super.antt =====
-- 2df.c: the super features add up what is kept of some features each.
use im_dedup_plus.Prelude.{
  ℕ, zero, suc, ◌+◌, ◌*◌, ◌%◌, ◌^◌, ◌<◌, ◌≡◌, arith, u16, u64, take, drop, List, [], ◌∷◌,
}
use im_dedup_plus.Image.{Plane}
use im_dedup_plus.Features.{
  Feature, no_feature, sum_features, feature_index, window_features, compute_features,
}

-- The sum of a field over the first of some features, without a width.
abbrev pub total : (Feature → ℕ) → ℕ → List Feature → ℕ
total field zero fs = 0
total field (suc n) [] = 0
total field (suc n) (f ∷ fs) = field f + total field n fs

sum_features-total :
    (n : ℕ) (fs : List Feature) (acc : Feature)
    → acc.max < 2 ^ 64
    → acc.pos < 2 ^ 64
    → acc.dc < 2 ^ 16
    → ((sum_features n fs acc).max ≡ (acc.max + total (λ f. f.max) n fs) % 2 ^ 64)
      × ((sum_features n fs acc).pos ≡ (acc.pos + total (λ f. f.pos) n fs) % 2 ^ 64)
      × ((sum_features n fs acc).dc ≡ (acc.dc + total (λ f. f.dc) n fs) % 2 ^ 16)
unfolding sum_features
sum_features-total zero fs acc m p d = (omega (arith, m), omega (arith, p), omega (arith, d))
sum_features-total (suc n) [] acc m p d = (omega (arith, m), omega (arith, p), omega (arith, d))
sum_features-total (suc n) (f ∷ fs) acc m p d =
    let next : Feature = record {
      max = u64 (acc.max + f.max);
      pos = u64 (acc.pos + f.pos);
      dc = u16 (acc.dc + f.dc);
    } in
    let (a, b, c) = sum_features-total n fs next (omega arith) (omega arith) (omega arith) in
    (omega (arith, a), omega (arith, b), omega (arith, c))

-- The features that go into one super feature.
abbrev pub features_of : Plane → ℕ → ℕ → ℕ → ℕ → List Feature
features_of p block_size sf_num fea_per_sf i =
    drop (i * fea_per_sf) (window_features p block_size (take (sf_num * fea_per_sf) feature_index))

-- A super feature, its place and its DC are the sums over its features, in the width of each.
pub compute_features-total :
    (decode_ptr : ℕ) (p : Plane) (block_size sf_num fea_per_sf i : ℕ)
    → (let image = compute_features decode_ptr p block_size sf_num fea_per_sf in
        let fs = features_of p block_size sf_num fea_per_sf i in
        (image.sfs i ≡ total (λ f. f.max) fea_per_sf fs % 2 ^ 64)
        × (image.position i ≡ total (λ f. f.pos) fea_per_sf fs % 2 ^ 64)
        × (image.dc i ≡ total (λ f. f.dc) fea_per_sf fs % 2 ^ 16))
unfolding compute_features
compute_features-total decode_ptr p block_size sf_num fea_per_sf i =
    let (a, b, c) =
      sum_features-total fea_per_sf (features_of p block_size sf_num fea_per_sf i) no_feature
        (omega arith) (omega arith) (omega arith) in
    (omega (arith, a), omega (arith, b), omega (arith, c))
