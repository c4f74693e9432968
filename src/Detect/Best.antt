-- ===== src/Detect/Best.antt =====
-- 2df.c: the chosen base image is one with the most features in common.
use im_dedup_plus.Prelude.{ℕ, zero, suc, ◌+◌, ◌≤◌, ◌<◌, ◌≡◌, refl, subst, arith}
use im_dedup_plus.Prelude.{◌&&◌, ◌==◌, ltb, if◌then◌else◌, Bool-cases, inl, inr, ◌⊎◌}
use im_dedup_plus.Prelude.{Option, none, some, List, [], ◌∷◌}
use im_dedup_plus.Detect.{
  ImageData, Comparison, compare_from, compare_images, Choice, better, scan_bases, scan_features,
  choose_base,
}

compare_from-le :
    (base image : ImageData) (n k : ℕ) (c : Comparison)
    → (compare_from base image n k c).match_counter ≤ c.match_counter + n
unfolding compare_from
compare_from-le base image zero k c = omega arith
compare_from-le base image (suc n) k c =
    elim (Bool-cases (base.sfs k == image.sfs k && base.dc k == image.dc k)) [
      | inl e ↦
          let c' : Comparison = record {
            match_counter = c.match_counter + 1;
            flag_tmp = if base.position k == image.position k then 0 else c.flag_tmp;
          } in
          rw (compare_from, e) (omega (arith, compare_from-le base image n (k + 1) c'))
      | inr e ↦ rw (compare_from, e) (omega (arith, compare_from-le base image n (k + 1) c))
    ]

module _ (sf_num : ℕ) where
  -- Features in common.
  abbrev pub common : ImageData → ImageData → ℕ
  common image base = (compare_images sf_num base image).match_counter

  common-le : (image base : ImageData) → common image base ≤ sf_num
  unfolding compare_images
  common-le image base =
      omega
        (arith, compare_from-le base image sf_num 0 (record { match_counter = 0; flag_tmp = 1 }))

  -- No image of the list has more in common with the image than `n` features.
  abbrev pub NoneAbove : ImageData → ℕ → List ImageData → Type 0
  NoneAbove image n [] = Unit
  NoneAbove image n (base ∷ bases) = (common image base ≤ n) × NoneAbove image n bases

  abbrev pub NoneAboveIn : ImageData → ℕ → List (Option (List ImageData)) → Type 0
  NoneAboveIn image n [] = Unit
  NoneAboveIn image n (none ∷ tables) = NoneAboveIn image n tables
  NoneAboveIn image n (some bases ∷ tables) = NoneAbove image n bases × NoneAboveIn image n tables

  -- The counter and the flag are those of the image that is chosen; none is chosen at 0.
  abbrev pub IsBest : ImageData → Choice → Type 0
  IsBest image b =
      ((b.best_counter ≡ 0) × (b.best_match ≡ none))
      ⊎ ((base : ImageData) × (b.best_match ≡ some base)
          × (0 < b.best_counter)
          × (b.best_counter ≡ common image base)
          × (b.fix_flag ≡ (compare_images sf_num base image).flag_tmp))

  all_below :
      (image : ImageData) (n : ℕ) (bases : List ImageData) → sf_num ≤ n → NoneAbove image n bases
  all_below image n [] h = tt
  all_below image n (base ∷ bases) h =
      (omega (arith, common-le image base), all_below image n bases h)

  weaken :
      (image : ImageData) (bases : List ImageData) (m n : ℕ)
      → m ≤ n
      → NoneAbove image m bases
      → NoneAbove image n bases
  weaken image [] m n h all = tt
  weaken image (base ∷ bases) m n h (p, all) = (omega (arith, p), weaken image bases m n h all)

  better-lem :
      (image base : ImageData) (b : Choice)
      → IsBest image b
      → IsBest image (better base (compare_images sf_num base image) b)
        × (b.best_counter ≤ (better base (compare_images sf_num base image) b).best_counter)
        × (common image base ≤ (better base (compare_images sf_num base image) b).best_counter)
  unfolding better
  better-lem image base b ok = elim (Bool-cases (ltb b.best_counter (common image base))) [
    | inl e ↦ rw (better, e) (inr (base, refl, ground arith, refl, refl), ground arith, omega arith)
    | inr e ↦ rw (better, e) (ok, omega arith, ground arith)
  ]

  -- What a scan of a list makes of a choice.
  abbrev Scanned : ImageData → List ImageData → Choice → Choice → Type 0
  Scanned image bases b b' =
      IsBest image b' × (b.best_counter ≤ b'.best_counter) × NoneAbove image b'.best_counter bases

  scan_bases-Scanned :
      (image : ImageData) (bases : List ImageData) (b : Choice)
      → IsBest image b
      → Scanned image bases b (scan_bases sf_num image bases b)
  unfolding scan_bases
  scan_bases-Scanned image [] b ok = (ok, omega arith, tt)
  scan_bases-Scanned image (base ∷ bases) b ok =
      let b1 = better base (compare_images sf_num base image) b in
      let (ok1, grows, above) = better-lem image base b ok in
      elim (Bool-cases (common image base == sf_num)) [
        | inl e ↦
            let stop : b1 ≡ scan_bases sf_num image (base ∷ bases) b = rw (scan_bases, e) refl in
            subst (Scanned image (base ∷ bases) b) stop
              (ok1, grows, (above, all_below image b1.best_counter bases (ground arith)))
        | inr e ↦
            let (ok2, grows2, above2) = scan_bases-Scanned image bases b1 ok1 in
            let go : scan_bases sf_num image bases b1 ≡ scan_bases sf_num image (base ∷ bases) b =
              rw (scan_bases, e) refl in
            subst (Scanned image (base ∷ bases) b) go
              (ok2, omega (arith, grows, grows2), (omega (arith, above, grows2), above2))
      ]

  abbrev ScannedAll : ImageData → List (Option (List ImageData)) → Choice → Choice → Type 0
  ScannedAll image tables b b' =
      IsBest image b'
      × (b.best_counter ≤ b'.best_counter)
      × NoneAboveIn image b'.best_counter tables

  scan_features-ScannedAll :
      (image : ImageData) (tables : List (Option (List ImageData))) (b : Choice)
      → IsBest image b
      → ScannedAll image tables b (scan_features sf_num image tables b)
  unfolding scan_features
  scan_features-ScannedAll image [] b ok = (ok, omega arith, tt)
  scan_features-ScannedAll image (none ∷ tables) b ok = scan_features-ScannedAll image tables b ok
  scan_features-ScannedAll image (some bases ∷ tables) b ok =
      elim (Bool-cases (ltb b.best_counter sf_num)) [
        | inl e ↦
            let b1 = scan_bases sf_num image bases b in
            let (ok1, grows1, above1) = scan_bases-Scanned image bases b ok in
            let (ok2, grows2, above2) = scan_features-ScannedAll image tables b1 ok1 in
            let go : scan_features sf_num image tables b1
                ≡ scan_features sf_num image (some bases ∷ tables) b =
              rw (scan_features, e) refl in
            subst (ScannedAll image (some bases ∷ tables) b) go
              (ok2, omega (arith, grows1, grows2), (weaken image bases _ _ grows2 above1, above2))
        | inr e ↦
            let (ok2, grows2, above2) = scan_features-ScannedAll image tables b ok in
            let go : scan_features sf_num image tables b
                ≡ scan_features sf_num image (some bases ∷ tables) b =
              rw (scan_features, e) refl in
            subst (ScannedAll image (some bases ∷ tables) b) go
              (ok2, grows2, (all_below image _ bases (ground (arith, grows2)), above2))
      ]

  -- For any lists of the feature tables: if a base image is chosen, it shares features with the image,
  -- the counter and the flag are its own, and no image in any of the lists shares more; if none is
  -- chosen, no image in the lists shares a feature.
  pub choose_base-IsBest :
      (image : ImageData) (tables : List (Option (List ImageData)))
      → IsBest image (choose_base sf_num image tables)
        × NoneAboveIn image (choose_base sf_num image tables).best_counter tables
  unfolding choose_base
  choose_base-IsBest image tables =
      let (ok, grows, above) =
        scan_features-ScannedAll image tables
          (record { best_counter = 0; best_match = none; fix_flag = 0 }) (inl (refl, refl)) in
      (ok, above)
