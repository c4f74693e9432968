-- ===== src/Tests/Pictures.antt =====
-- The features of a small image.
use im_dedup_plus.Prelude.{◌≡◌, arith, [], ◌∷◌}
use im_dedup_plus.Image.{plane}
use im_dedup_plus.Features.{bit_per_slot, push_column, no_feature, window_features, map_at}
use im_dedup_plus.Features.Slots.{two, fresh, push_column-fresh}
use im_dedup_plus.Features.Windows.{map_at-lt}
use im_dedup_plus.Features.Best.{AllBestFrom, image_windows, window_features-AllBestFrom}
use im_dedup_plus.Tests.{base}

slide_example :
    push_column
      (map_at (plane base 0) 2)
      (bit_per_slot 2)
      2
      0
      2
      (fresh (map_at (plane base 0) 2) 2 two (map_at-lt (plane base 0) 2 two) 0 0)
    ≡ fresh (map_at (plane base 0) 2) 2 two (map_at-lt (plane base 0) 2 two) 0 1
slide_example =
    push_column-fresh (map_at (plane base 0) 2) 2 two (map_at-lt (plane base 0) 2 two) 0 0

best_window_example :
    AllBestFrom
      ((3, 5) ∷ (7, 1) ∷ [])
      (image_windows (plane base 0) 2 two)
      (no_feature ∷ no_feature ∷ [])
      (window_features (plane base 0) 2 ((3, 5) ∷ (7, 1) ∷ []))
best_window_example =
    window_features-AllBestFrom (plane base 0) 2 two ((3, 5) ∷ (7, 1) ∷ []) (omega arith)
      (omega arith)
