-- ===== src/Detect/Tables/Alone.antt =====
-- 2df.c: one thread in `detect_a_single_img`, image after image.
use im_dedup_plus.Prelude.{
  ℕ, zero, suc, ◌+◌, ◌<◌, ◌≡◌, ◌≢◌, refl, sym, ap, ap₂, subst, ◌∙◌, arith, Bool, true, false, ◌==◌,
  ltb, if◌then◌else◌, Bool-cases, inl, inr,
}
use im_dedup_plus.Prelude.{Option, none, some, some_injective, List, [], ◌∷◌, ◌++◌}
use native.Mathlib.Decide.{ℕ_discrete}
use im_dedup_plus.Detect.{ImageData, Choice, scan_features, choose_base}
use im_dedup_plus.Detect.Best.{IsBest, NoneAboveIn, choose_base-IsBest}
use im_dedup_plus.Detect.Tables.{
  FeatureTable, with_image, Detector, no_choice, detector, Tables, set_table, detect_feature,
  detect_features, detect_images,
}
use im_dedup_plus.Detect.Tables.Earlier.{
  scan_features-cons, IsIn, AllIn, AllIn-more, AllIn-with, IsEarlier, scan_bases-IsEarlier,
}

module _ (g : FeatureTable) (sf_num : ℕ) where
  -- What the tables from some feature on find for an image.
  abbrev pub lookups : Tables g → ImageData → ℕ → ℕ → List (Option (List ImageData))
  lookups tables image k zero = []
  lookups tables image k (suc n) =
      g.lookup (tables k) (image.sfs k) ∷ lookups tables image (k + 1) n

  set_table-other :
      (i j : ℕ) (t : g.Table) (tables : Tables g) → j ≢ i → set_table g i t tables j ≡ tables j
  unfolding set_table
  set_table-other i j t tables ne =
      let off : (j == i) ≡ false = ground arith in rw (set_table, off) refl

  set_table-same : (i : ℕ) (t : g.Table) (tables : Tables g) → set_table g i t tables i ≡ t
  unfolding set_table
  set_table-same i t tables = let on : (i == i) ≡ true = ground arith in rw (set_table, on) refl

  lookups-later :
      (tables : Tables g) (t : g.Table) (image : ImageData) (i k n : ℕ)
      → i < k
      → lookups (set_table g i t tables) image k n ≡ lookups tables image k n
  lookups-later tables t image i k zero h = refl
  lookups-later tables t image i k (suc n) h =
      ap₂ (λ (x : Option (List ImageData)) (l : List (Option (List ImageData))). x ∷ l)
        (ap (λ (u : g.Table). g.lookup u (image.sfs k))
          (set_table-other i k t tables (λ e. absurd (omega (arith, h, e)))))
        (lookups-later tables t image i (k + 1) n (omega (arith, h)))

  detect_features-scan :
      (n : ℕ) (tables : Tables g) (d : Detector)
      → (detect_features g sf_num n tables d).1.choice
        ≡ scan_features sf_num d.image (lookups tables d.image d.feature n) d.choice
  unfolding detect_features detect_feature scan_features
  detect_features-scan zero tables d = refl
  detect_features-scan (suc n) tables d =
      let (tables', d') = detect_feature g sf_num tables d in
      detect_features-scan n tables' d'
      ∙ ap (λ (l : List (Option (List ImageData))). scan_features sf_num d.image l d'.choice)
          (lookups-later tables _ d.image d.feature (d.feature + 1) n (omega arith))
      ∙ sym (
          scan_features-cons sf_num d.image (g.lookup (tables d.feature) (d.image.sfs d.feature))
            (lookups tables d.image (d.feature + 1) n) d.choice)

  -- The tables hold only images that were seen.
  HasSeen : Tables g → List ImageData → Type 0
  HasSeen tables seen =
      (i key : ℕ) (bases : List ImageData) → g.lookup (tables i) key ≡ some bases → AllIn bases seen

  scan-IsEarlier :
      (tables : Tables g) (image : ImageData) (seen : List ImageData) (k n : ℕ) (b : Choice)
      → HasSeen tables seen
      → IsEarlier seen b
      → IsEarlier seen (scan_features sf_num image (lookups tables image k n) b)
  unfolding HasSeen scan_features
  scan-IsEarlier tables image seen k zero b all ok = ok
  scan-IsEarlier tables image seen k (suc n) b all ok =
      subst (IsEarlier seen)
        (sym (
          scan_features-cons sf_num image (g.lookup (tables k) (image.sfs k))
            (lookups tables image (k + 1) n) b))
        (scan-IsEarlier tables image seen (k + 1) n _ all
          (one (g.lookup (tables k) (image.sfs k)) (λ bases e. all k (image.sfs k) bases e)))
    where
      one :
          (found : Option (List ImageData))
          → ((bases : List ImageData) → found ≡ some bases → AllIn bases seen)
          → IsEarlier seen (scan_features sf_num image (found ∷ []) b)
      one none known = ok
      one (some bases) known = elim (Bool-cases (ltb b.best_counter sf_num)) [
        | inl e ↦ rw (e) (scan_bases-IsEarlier sf_num image seen bases b (known bases refl) ok)
        | inr e ↦ rw (e) ok
      ]

  with_image-AllIn :
      (found : Option (List ImageData)) (image : ImageData) (seen : List ImageData)
      → IsIn image seen
      → ((bases : List ImageData) → found ≡ some bases → AllIn bases seen)
      → AllIn (with_image found image) seen
  with_image-AllIn none image seen there known = (there, tt)
  with_image-AllIn (some bases) image seen there known =
      AllIn-with bases image seen (known bases refl) there

  -- A list that goes into a table, among those that are there.
  inserted :
      (t : g.Table) (k key : ℕ) (images bases seen : List ImageData)
      → AllIn images seen
      → ((bases : List ImageData) → g.lookup t key ≡ some bases → AllIn bases seen)
      → g.lookup (g.insert t k images) key ≡ some bases
      → AllIn bases seen
  inserted t k key images bases seen all known e = elim (Bool-cases (k == key)) [
    | inl same ↦
        let new : images ≡ bases = some_injective images bases (
          ap (λ (c : Bool). if c then some images else g.lookup t key) (sym same)
          ∙ sym (g.lookup-insert t k key images)
          ∙ e) in
        subst (λ (l : List ImageData). AllIn l seen) new all
    | inr other ↦ known bases (
        ap (λ (c : Bool). if c then some images else g.lookup t key) (sym other)
        ∙ sym (g.lookup-insert t k key images)
        ∙ e)
  ]

  detect_feature-HasSeen :
      (tables : Tables g) (d : Detector) (seen : List ImageData)
      → IsIn d.image seen
      → HasSeen tables seen
      → HasSeen (detect_feature g sf_num tables d).0 seen
  unfolding HasSeen detect_feature
  detect_feature-HasSeen tables d seen there all i key bases e =
      let found = g.lookup (tables d.feature) (d.image.sfs d.feature) in
      let new = with_image found d.image in
      let t = g.insert (tables d.feature) (d.image.sfs d.feature) new in
      elim (ℕ_discrete i d.feature) [
        | yes p ↦
            inserted (tables d.feature) (d.image.sfs d.feature) key new bases seen
              (with_image-AllIn found d.image seen there
                (λ l k. all d.feature (d.image.sfs d.feature) l k))
              (λ l k. all d.feature key l k)
              (ap (λ (u : g.Table). g.lookup u key)
                  (sym (ap (set_table g d.feature t tables) p ∙ set_table-same d.feature t tables))
                ∙ e)
        | no other ↦ all i key bases (
            ap (λ (u : g.Table). g.lookup u key) (sym (set_table-other d.feature i t tables other))
            ∙ e)
      ]

  detect_features-HasSeen :
      (n : ℕ) (tables : Tables g) (d : Detector) (seen : List ImageData)
      → IsIn d.image seen
      → HasSeen tables seen
      → HasSeen (detect_features g sf_num n tables d).0 seen
  unfolding detect_features detect_feature
  detect_features-HasSeen zero tables d seen there all = all
  detect_features-HasSeen (suc n) tables d seen there all =
      let (tables', d') = detect_feature g sf_num tables d in
      detect_features-HasSeen n tables' d' seen there
        (detect_feature-HasSeen tables d seen there all)

  -- Each of the images, with what was found for it.
  abbrev pub AllEarlier : List ImageData → List ImageData → List Choice → Type 0
  AllEarlier seen [] [] = Unit
  AllEarlier seen [] (c ∷ cs) = ⊥
  AllEarlier seen (image ∷ images) [] = ⊥
  AllEarlier seen (image ∷ images) (c ∷ cs) =
      IsEarlier seen c × AllEarlier (seen ++ image ∷ []) images cs

  images-AllEarlier :
      (images seen : List ImageData) (tables : Tables g)
      → HasSeen tables seen
      → AllEarlier seen images (detect_images g sf_num tables images)
  unfolding detect_images detector no_choice HasSeen
  images-AllEarlier [] seen tables all = tt
  images-AllEarlier (image ∷ images) seen tables all =
      let (tables', d) = detect_features g sf_num sf_num tables (detector image) in
      (
        subst (IsEarlier seen) (sym (detect_features-scan sf_num tables (detector image)))
            (scan-IsEarlier tables image seen 0 sf_num no_choice all (inl refl)),
        images-AllEarlier images (seen ++ image ∷ []) tables' (
            detect_features-HasSeen sf_num tables (detector image) (seen ++ image ∷ [])
              (seen, [], refl) (λ i key bases e. AllIn-more bases image seen (all i key bases e))),
      )

  -- With one thread, from empty tables on: the base that is chosen for an image is one of the images
  -- before it.
  pub detect_images-AllEarlier :
      (images : List ImageData) → AllEarlier [] images (detect_images g sf_num (λ i. g.new) images)
  unfolding HasSeen
  detect_images-AllEarlier images =
      images-AllEarlier images [] (λ i. g.new)
        (λ i key bases e. absurd (cc (sym (g.lookup-new key) ∙ e)))

  -- A thread that no other comes between: if a base is chosen, it shares features with the image, the
  -- counter and the flag are its own, and no image shares more in the lists that the tables have
  -- under the features of the image, each under the one of its place; if none is chosen, no image in
  -- those lists shares a feature.
  pub detect_features-IsBest :
      (tables : Tables g) (image : ImageData)
      → (let choice = (detect_features g sf_num sf_num tables (detector image)).1.choice in
          IsBest sf_num image choice
          × NoneAboveIn sf_num image choice.best_counter (lookups tables image 0 sf_num))
  unfolding detector no_choice choose_base
  detect_features-IsBest tables image =
      subst
        (λ (choice : Choice).
          IsBest sf_num image choice
          × NoneAboveIn sf_num image choice.best_counter (lookups tables image 0 sf_num))
        (sym (detect_features-scan sf_num tables (detector image)))
        (choose_base-IsBest sf_num image (lookups tables image 0 sf_num))
