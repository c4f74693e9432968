-- ===== src/Detect/Tables.antt =====
-- 2df.c: how `detect_a_single_img` goes through the feature tables, one lock at a time, and leaves its
-- image in each of them.
pub mod Earlier
pub mod Alone
pub mod Together
use im_dedup_plus.Prelude.{ℕ, zero, suc, ◌+◌, ◌≡◌, Bool, true, false, ◌==◌, if◌then◌else◌}
use im_dedup_plus.Prelude.{Option, none, some, List, [], ◌∷◌, ◌++◌}
use im_dedup_plus.Detect.{ImageData, Choice, scan_features}

-- What the code relies on of GLib's hash table from a super feature to a list of images: a new table
-- is empty, and what was inserted last for a key is what it finds, and nothing else changes.
pub record FeatureTable : Type 1 where
  pub Table : Type 0
  pub new : Table
  pub lookup : Table → ℕ → Option (List ImageData)
  pub insert : Table → ℕ → List ImageData → Table
  pub lookup-new : (k : ℕ) → lookup new k ≡ none
  pub lookup-insert :
      (t : Table) (k j : ℕ) (images : List ImageData)
      → lookup (insert t k images) j ≡ (if k == j then some images else lookup t j)

-- `g_ptr_array_add`, to the list that is there or to a new one.
abbrev pub with_image : Option (List ImageData) → ImageData → List ImageData
with_image none image = image ∷ []
with_image (some images) image = images ++ image ∷ []

-- A thread in the loop over `i`: its image, `i`, and what it has found.
pub record Detector : Type 0 where
  pub image : ImageData
  pub feature : ℕ
  pub choice : Choice

unfoldable pub no_choice : Choice
no_choice = record { best_counter = 0; best_match = none; fix_flag = 0 }

unfoldable pub detector : ImageData → Detector
unfolding no_choice
detector image = record { image = image; feature = 0; choice = no_choice }

module _ (g : FeatureTable) where
  -- `featureT`.
  abbrev pub Tables : Type 0
  Tables = ℕ → g.Table

  unfoldable pub set_table : ℕ → g.Table → Tables → Tables
  set_table i t tables j = if j == i then t else tables j

  -- What happens under `ftMutex[i]`.
  unfoldable pub detect_feature : ℕ → Tables → Detector → Tables × Detector
  unfolding set_table
  detect_feature sf_num tables d =
      let table = tables d.feature in
      let bases = g.lookup table (d.image.sfs d.feature) in
      (
        set_table d.feature (g.insert table (d.image.sfs d.feature) (with_image bases d.image))
            tables,
        record {
          image = d.image;
          feature = d.feature + 1;
          choice = scan_features sf_num d.image (bases ∷ []) d.choice;
        },
      )

  -- Some rounds of the loop, with no other thread.
  unfoldable pub detect_features : ℕ → ℕ → Tables → Detector → Tables × Detector
  unfolding detect_feature
  detect_features sf_num zero tables d = (tables, d)
  detect_features sf_num (suc n) tables d =
      let (tables', d') = detect_feature sf_num tables d in detect_features sf_num n tables' d'

  -- The images of one thread, one after the other: what is found for each.
  unfoldable pub detect_images : ℕ → Tables → List ImageData → List Choice
  unfolding detect_features
  detect_images sf_num tables [] = []
  detect_images sf_num tables (image ∷ images) =
      let (tables', d) = detect_features sf_num sf_num tables (detector image) in
      d.choice ∷ detect_images sf_num tables' images

  -- A thread that is through does nothing.
  unfoldable pub detect_turn : ℕ → Tables → Detector → Tables × Detector
  unfolding detect_feature
  detect_turn sf_num tables d =
      if d.feature == sf_num then (tables, d) else detect_feature sf_num tables d

  -- Two threads, which take turns: `true` is a turn of the first.
  unfoldable pub take_turns :
      ℕ → List Bool → Tables → Detector → Detector → Tables × Detector × Detector
  unfolding detect_turn
  take_turns sf_num [] tables a b = (tables, a, b)
  take_turns sf_num (true ∷ turns) tables a b =
      let (tables', a') = detect_turn sf_num tables a in take_turns sf_num turns tables' a' b
  take_turns sf_num (false ∷ turns) tables a b =
      let (tables', b') = detect_turn sf_num tables b in take_turns sf_num turns tables' a b'
