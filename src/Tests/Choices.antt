-- ===== src/Tests/Choices.antt =====
-- 2df.c: three images in feature tables that are lists of their insertions.
use im_dedup_plus.Prelude.{
  ℕ, ◌≡◌, refl, arith, true, false, ◌==◌, if◌then◌else◌, Option, none, some, List, [], ◌∷◌,
}
use im_dedup_plus.Detect.{ImageData}
use im_dedup_plus.Detect.Best.{IsBest, NoneAboveIn}
use im_dedup_plus.Detect.Tables.{FeatureTable, detector, detect_features, detect_images, take_turns}
use im_dedup_plus.Detect.Tables.Alone.{
  AllEarlier, lookups, detect_images-AllEarlier, detect_features-IsBest,
}
use im_dedup_plus.Detect.Tables.Together.{AreAlike, take_turns-AreAlike}

abbrev find_images : List (ℕ × List ImageData) → ℕ → Option (List ImageData)
find_images [] j = none
find_images ((k, images) ∷ t) j = if k == j then some images else find_images t j

abbrev image_table : FeatureTable
image_table = record {
  Table = List (ℕ × List ImageData);
  new = [];
  lookup = find_images;
  insert = λ t k images. (k, images) ∷ t;
  lookup-new = λ k. refl;
  lookup-insert = λ t k j images. refl;
}

-- An image by its address and its middle feature.
abbrev picture : ℕ → ℕ → ImageData
picture address middle = record {
  decd_data = address;
  sfs = λ k. if k == 1 then middle else k;
  position = λ k. k;
  dc = λ k. 7;
}

alike_pictures : AreAlike 3 (picture 1 5) (picture 2 5)
alike_pictures = record { sfs = λ k h. refl; dc = λ k h. refl }

together_example :
    (let (tables, a, b) =
        take_turns image_table 3
          (true ∷ false ∷ false ∷ true ∷ true ∷ false ∷ [])
          (λ i. [])
          (detector (picture 1 5))
          (detector (picture 2 5)) in
      (a.choice.best_match ≡ some (picture 2 5)) × (b.choice.best_match ≡ some (picture 1 5)))
together_example =
    take_turns-AreAlike image_table 3 (λ i. []) (picture 1 5) (picture 2 5) (true ∷ false ∷ [])
      (omega arith) alike_pictures refl refl

abbrev pictures : List ImageData
pictures = picture 1 5 ∷ picture 2 5 ∷ picture 3 8 ∷ []

earlier_example :
    AllEarlier image_table 3 [] pictures (detect_images image_table 3 (λ i. []) pictures)
earlier_example = detect_images-AllEarlier image_table 3 pictures

choices_example :
    (let choice =
        (detect_features image_table 3 3
          (λ i. (i, picture 1 5 ∷ picture 3 8 ∷ []) ∷ [])
          (detector (picture 2 5))).1.choice in
      IsBest 3 (picture 2 5) choice
      × NoneAboveIn 3
          (picture 2 5)
          choice.best_counter
          (lookups image_table 3 (λ i. (i, picture 1 5 ∷ picture 3 8 ∷ []) ∷ []) (picture 2 5) 0 3))
choices_example =
    detect_features-IsBest image_table 3 (λ i. (i, picture 1 5 ∷ picture 3 8 ∷ []) ∷ [])
      (picture 2 5)
