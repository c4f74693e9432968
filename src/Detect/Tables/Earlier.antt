-- ===== src/Detect/Tables/Earlier.antt =====
-- 2df.c: the images that a search comes across are among those that were entered.
use im_dedup_plus.Prelude.{ℕ, ◌≡◌, ◌⊎◌, refl, ap, ◌∙◌, ◌==◌, ltb, Bool-cases, inl, inr}
use im_dedup_plus.Prelude.{Option, none, some, List, [], ◌∷◌, ◌++◌, append_assoc}
use im_dedup_plus.Detect.{ImageData, Choice, compare_images, better, scan_bases, scan_features}

pub scan_features-cons :
    (sf_num : ℕ) (image : ImageData) (bases : Option (List ImageData))
    (tables : List (Option (List ImageData))) (b : Choice)
    → scan_features sf_num image (bases ∷ tables) b
      ≡ scan_features sf_num image tables (scan_features sf_num image (bases ∷ []) b)
unfolding scan_features
scan_features-cons sf_num image none tables b = refl
scan_features-cons sf_num image (some bases) tables b = refl

-- An image of a list, by what is before and behind it.
abbrev pub IsIn : ImageData → List ImageData → Type 0
IsIn x images =
    (before : List ImageData) × (after : List ImageData) × (images ≡ before ++ x ∷ after)

pub IsIn-more :
    (x image : ImageData) (seen : List ImageData) → IsIn x seen → IsIn x (seen ++ image ∷ [])
IsIn-more x image seen (before, after, e) = (
  before,
  after ++ image ∷ [],
  ap (λ (l : List ImageData). l ++ (image ∷ [])) e ∙ append_assoc before (x ∷ after) (image ∷ []),
)

abbrev pub AllIn : List ImageData → List ImageData → Type 0
AllIn [] seen = Unit
AllIn (base ∷ bases) seen = IsIn base seen × AllIn bases seen

pub AllIn-more :
    (bases : List ImageData) (image : ImageData) (seen : List ImageData)
    → AllIn bases seen
    → AllIn bases (seen ++ image ∷ [])
AllIn-more [] image seen all = tt
AllIn-more (base ∷ bases) image seen (p, all) =
    (IsIn-more base image seen p, AllIn-more bases image seen all)

pub AllIn-with :
    (bases : List ImageData) (image : ImageData) (seen : List ImageData)
    → AllIn bases seen
    → IsIn image seen
    → AllIn (bases ++ image ∷ []) seen
AllIn-with [] image seen all there = (there, tt)
AllIn-with (base ∷ bases) image seen (p, all) there = (p, AllIn-with bases image seen all there)

-- No image is chosen, or one that was there.
abbrev pub IsEarlier : List ImageData → Choice → Type 0
IsEarlier seen b =
    (b.best_match ≡ none) ⊎ ((base : ImageData) × (b.best_match ≡ some base) × IsIn base seen)

module _ (sf_num : ℕ) (image : ImageData) (seen : List ImageData) where
  better-IsEarlier :
      (base : ImageData) (b : Choice)
      → IsIn base seen
      → IsEarlier seen b
      → IsEarlier seen (better base (compare_images sf_num base image) b)
  unfolding better
  better-IsEarlier base b there ok =
      elim (Bool-cases (ltb b.best_counter (compare_images sf_num base image).match_counter)) [
        | inl e ↦ rw (better, e) (inr (base, refl, there))
        | inr e ↦ rw (better, e) ok
      ]

  pub scan_bases-IsEarlier :
      (bases : List ImageData) (b : Choice)
      → AllIn bases seen
      → IsEarlier seen b
      → IsEarlier seen (scan_bases sf_num image bases b)
  unfolding scan_bases
  scan_bases-IsEarlier [] b all ok = ok
  scan_bases-IsEarlier (base ∷ bases) b (there, all) ok =
      let ok' = better-IsEarlier base b there ok in
      elim (Bool-cases ((compare_images sf_num base image).match_counter == sf_num)) [
        | inl e ↦ rw (scan_bases, e) ok'
        | inr e ↦
            rw (scan_bases, e)
              (scan_bases-IsEarlier bases (better base (compare_images sf_num base image) b) all
                ok')
      ]
