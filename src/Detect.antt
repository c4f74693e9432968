-- ===== src/Detect.antt =====
-- 2df.c: the choice of a base image in `detect_a_single_img`, from the lists that the feature tables
-- hold. The node of an image is what `image->sfs`, `dc` and `position` say of it.
pub mod Best
pub mod Tables
use im_dedup_plus.Prelude.{ℕ, zero, suc, ◌+◌, Bool, true, false, ◌&&◌, ◌==◌, ltb, if◌then◌else◌}
use im_dedup_plus.Prelude.{Option, none, some, List, [], ◌∷◌, ◌++◌}

-- `imageData`: the address of the decoded image, its super features, the DC values that go with them,
-- and where they were found.
pub record ImageData : Type 0 where
  pub decd_data : ℕ
  pub sfs : ℕ → ℕ
  pub dc : ℕ → ℕ
  pub position : ℕ → ℕ

-- `matchCounter` and `flag_tmp` after the loop over `k` from some index on.
pub record Comparison : Type 0 where
  pub match_counter : ℕ
  pub flag_tmp : ℕ

unfoldable pub compare_from : ImageData → ImageData → ℕ → ℕ → Comparison → Comparison
compare_from base image zero k c = c
compare_from base image (suc n) k c = compare_from base image n (k + 1) (
    if base.sfs k == image.sfs k && base.dc k == image.dc k
    then record {
      match_counter = c.match_counter + 1;
      flag_tmp = if base.position k == image.position k then 0 else c.flag_tmp;
    }
    else c)

unfoldable pub compare_images : ℕ → ImageData → ImageData → Comparison
unfolding compare_from
compare_images sf_num base image =
    compare_from base image sf_num 0 (record { match_counter = 0; flag_tmp = 1 })

-- `bestCounter`, `bestMatch` and `fix_flag`.
pub record Choice : Type 0 where
  pub best_counter : ℕ
  pub best_match : Option ImageData
  pub fix_flag : ℕ

-- `if(matchCounter > bestCounter)`.
unfoldable pub better : ImageData → Comparison → Choice → Choice
better base c b =
    if ltb b.best_counter c.match_counter
    then record { best_counter = c.match_counter; best_match = some base; fix_flag = c.flag_tmp }
    else b

-- The loop over the list of one feature, which stops at an image with all features.
unfoldable pub scan_bases : ℕ → ImageData → List ImageData → Choice → Choice
scan_bases sf_num image [] b = b
scan_bases sf_num image (base ∷ bases) b =
    let c = compare_images sf_num base image in
    let b' = better base c b in
    let rest = scan_bases sf_num image bases b' in if c.match_counter == sf_num then b' else rest

-- The loop over the features: `bases[i]` of each, before the image itself goes in.
unfoldable pub scan_features : ℕ → ImageData → List (Option (List ImageData)) → Choice → Choice
scan_features sf_num image [] b = b
scan_features sf_num image (none ∷ tables) b = scan_features sf_num image tables b
scan_features sf_num image (some bases ∷ tables) b =
    let b' = if ltb b.best_counter sf_num then scan_bases sf_num image bases b else b in
    scan_features sf_num image tables b'

-- The base image that is chosen, and its flag, which is not set before one is chosen. `SF_NUM` is a
-- variable of the program.
unfoldable pub choose_base : ℕ → ImageData → List (Option (List ImageData)) → Choice
choose_base sf_num image tables =
    scan_features sf_num image tables (record { best_counter = 0; best_match = none; fix_flag = 0 })
