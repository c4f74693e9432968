-- ===== src/Detect/Tables/Together.antt =====
-- 2df.c: two threads in `detect_a_single_img` at a time.
use im_dedup_plus.Prelude.{
  ℕ, zero, suc, ◌+◌, ◌≤◌, ◌<◌, ◌≡◌, refl, sym, ap, subst, ◌∙◌, arith, Bool, true, false, ◌==◌, ltb,
  lt→ltb, le→ltb, if◌then◌else◌, ◌&&◌, Bool-cases, inl, inr,
}
use im_dedup_plus.Prelude.{Option, none, some, List, [], ◌∷◌}
use im_dedup_plus.Detect.{
  ImageData, Comparison, compare_from, compare_images, Choice, better, scan_bases, scan_features,
}
use im_dedup_plus.Detect.Tables.{
  FeatureTable, Detector, no_choice, detector, Tables, set_table, detect_feature, detect_turn,
  take_turns, with_image,
}

-- Two images whose super features are all the same, with their DC values.
pub record AreAlike (sf_num : ℕ) (a b : ImageData) : Type 0 where
  pub sfs : (k : ℕ) → k < sf_num → a.sfs k ≡ b.sfs k
  pub dc : (k : ℕ) → k < sf_num → a.dc k ≡ b.dc k

compare_from-AreAlike :
    (a b : ImageData) (sf_num n k : ℕ) (c : Comparison)
    → AreAlike sf_num a b
    → k + n ≤ sf_num
    → (compare_from a b n k c).match_counter ≡ c.match_counter + n
unfolding compare_from
compare_from-AreAlike a b sf_num zero k c alike h = omega arith
compare_from-AreAlike a b sf_num (suc n) k c alike h =
    let sf = alike.sfs k (omega (arith, h)) in
    let dc = alike.dc k (omega (arith, h)) in
    let both : (a.sfs k == b.sfs k && a.dc k == b.dc k) ≡ true = ground arith in
    let c' : Comparison = record {
      match_counter = c.match_counter + 1;
      flag_tmp = if a.position k == b.position k then 0 else c.flag_tmp;
    } in
    rw (compare_from, both)
      (compare_from-AreAlike a b sf_num n (k + 1) c' alike (omega (arith, h)) ∙ omega arith)

-- A choice with all features, of this image.
pub record HasChosen (sf_num : ℕ) (image : ImageData) (b : Choice) : Type 0 where
  pub counter : b.best_counter ≡ sf_num
  pub match : b.best_match ≡ some image

-- The first image that is alike is chosen.
scan-HasChosen :
    (sf_num : ℕ) (base image : ImageData)
    → 0 < sf_num
    → AreAlike sf_num base image
    → HasChosen sf_num base (scan_features sf_num image (some (base ∷ []) ∷ []) no_choice)
unfolding scan_features scan_bases better no_choice compare_images
scan-HasChosen sf_num base image pos alike =
    let all : (compare_images sf_num base image).match_counter ≡ sf_num =
      compare_from-AreAlike base image sf_num sf_num 0 (record { match_counter = 0; flag_tmp = 1 })
        alike (omega arith)
      ∙ omega arith in
    let more : ltb 0 (compare_images sf_num base image).match_counter ≡ true =
      lt→ltb 0 (compare_images sf_num base image).match_counter (omega (arith, all, pos)) in
    let room : ltb 0 sf_num ≡ true = lt→ltb 0 sf_num pos in
    let full : ((compare_images sf_num base image).match_counter == sf_num) ≡ true =
      ground (arith, all) in
    let found : better base (compare_images sf_num base image) no_choice ≡ record {
      best_counter = (compare_images sf_num base image).match_counter;
      best_match = some base;
      fix_flag = (compare_images sf_num base image).flag_tmp;
    } =
      rw (better, more) refl in
    rw (scan_features, room, scan_bases, full, found) (record { counter = all; match = refl })

-- A choice with all features stays.
scan-stays :
    (sf_num : ℕ) (image base : ImageData) (bases : Option (List ImageData)) (b : Choice)
    → HasChosen sf_num base b
    → scan_features sf_num image (bases ∷ []) b ≡ b
unfolding scan_features
scan-stays sf_num image base none b h = refl
scan-stays sf_num image base (some bases) b h =
    let full : ltb b.best_counter sf_num ≡ false =
      le→ltb b.best_counter sf_num (omega (arith, h.counter)) in
    rw (full) refl

module _ (g : FeatureTable) (sf_num : ℕ) where
  turn-HasChosen :
      (tables : Tables g) (d : Detector) (base : ImageData)
      → HasChosen sf_num base d.choice
      → HasChosen sf_num base (detect_turn g sf_num tables d).1.choice
  unfolding detect_turn detect_feature
  turn-HasChosen tables d base h = elim (Bool-cases (d.feature == sf_num)) [
    | inl e ↦ rw (detect_turn, e) h
    | inr e ↦
        rw (detect_turn, e)
          (subst (HasChosen sf_num base)
            (sym (
              scan-stays sf_num d.image base (g.lookup (tables d.feature) (d.image.sfs d.feature))
                d.choice h))
            h)
  ]

  -- Any further turns.
  turns-HasChosen :
      (turns : List Bool) (tables : Tables g) (a b : Detector) (x y : ImageData)
      → HasChosen sf_num x a.choice
      → HasChosen sf_num y b.choice
      → HasChosen sf_num x (take_turns g sf_num turns tables a b).1.choice
        × HasChosen sf_num y (take_turns g sf_num turns tables a b).2.choice
  unfolding take_turns
  turns-HasChosen [] tables a b x y h k = (h, k)
  turns-HasChosen (true ∷ turns) tables a b x y h k =
      let (tables', a') = detect_turn g sf_num tables a in
      turns-HasChosen turns tables' a' b x y (turn-HasChosen tables a x h) k
  turns-HasChosen (false ∷ turns) tables a b x y h k =
      let (tables', b') = detect_turn g sf_num tables b in
      turns-HasChosen turns tables' a b' x y h (turn-HasChosen tables b y k)

  -- One turn, by what the table finds.
  after_turn : Tables g → Detector → Option (List ImageData) → Tables g × Detector
  unfolding set_table
  after_turn tables d bases = (
    set_table g d.feature
        (g.insert (tables d.feature) (d.image.sfs d.feature) (with_image bases d.image)) tables,
    record {
      image = d.image;
      feature = d.feature + 1;
      choice = scan_features sf_num d.image (bases ∷ []) d.choice;
    },
  )

  turn-after_turn :
      (tables : Tables g) (d : Detector) (bases : Option (List ImageData))
      → d.feature < sf_num
      → g.lookup (tables d.feature) (d.image.sfs d.feature) ≡ bases
      → detect_turn g sf_num tables d ≡ after_turn tables d bases
  unfolding detect_turn detect_feature after_turn
  turn-after_turn tables d bases h e =
      let going : (d.feature == sf_num) ≡ false = ground arith in
      rw (detect_turn, going) (ap (after_turn tables d) e)

  found :
      (t : g.Table) (k j : ℕ) (images : List ImageData)
      → k ≡ j
      → g.lookup (g.insert t k images) j ≡ some images
  found t k j images e =
      let same : (k == j) ≡ true = ground arith in
      g.lookup-insert t k j images ∙ ap (λ (c : Bool). if c then some images else g.lookup t j) same

  -- For two images that are alike, with at least two super features, whose first two are in no table
  -- yet: where the first thread goes through the first table before the second, and the second through
  -- both before the first goes on, each image is chosen as the base of the other, whatever turns follow.
  pub take_turns-AreAlike :
      (tables : Tables g) (a b : ImageData) (turns : List Bool)
      → 2 ≤ sf_num
      → AreAlike sf_num a b
      → g.lookup (tables 0) (a.sfs 0) ≡ none
      → g.lookup (tables 1) (a.sfs 1) ≡ none
      → (let (tables', a', b') =
            take_turns g sf_num
              (true ∷ false ∷ false ∷ true ∷ turns)
              tables
              (detector a)
              (detector b) in
          (a'.choice.best_match ≡ some b) × (b'.choice.best_match ≡ some a))
  unfolding take_turns detector set_table after_turn scan_features no_choice
  take_turns-AreAlike tables a b turns several alike free0 free1 =
      let a0 = detector a in
      let b0 = detector b in
      let (t1, a1) = after_turn tables a0 none in
      let (t2, b1) = after_turn t1 b0 (some (a ∷ [])) in
      let (t3, b2) = after_turn t2 b1 none in
      let (t4, a2) = after_turn t3 a1 (some (b ∷ [])) in
      let same0 = alike.sfs 0 (omega (arith, several)) in
      let same1 = alike.sfs 1 (omega (arith, several)) in
      let turn1 = turn-after_turn tables a0 none (omega (arith, several)) free0 in
      let turn2 =
        turn-after_turn t1 b0 (some (a ∷ [])) (omega (arith, several))
          (found (tables 0) (a.sfs 0) (b.sfs 0) (a ∷ []) same0) in
      let turn3 =
        turn-after_turn t2 b1 none (omega (arith, several))
          (ap (g.lookup (tables 1)) (sym same1) ∙ free1) in
      let turn4 =
        turn-after_turn t3 a1 (some (b ∷ [])) (omega (arith, several))
          (found (tables 1) (b.sfs 1) (a.sfs 1) (b ∷ []) (sym same1)) in
      let back : AreAlike sf_num b a = record {
        sfs = λ k h. sym (alike.sfs k h);
        dc = λ k h. sym (alike.dc k h);
      } in
      let (chosen_b, chosen_a) =
        turns-HasChosen turns t4 a2 b2 b a (scan-HasChosen sf_num b a (omega (arith, several)) back)
          (scan-HasChosen sf_num a b (omega (arith, several)) alike) in
      let run =
        ap
          (λ (r : Tables g × Detector).
            take_turns g sf_num (false ∷ false ∷ true ∷ turns) r.0 r.1 b0)
          turn1
        ∙ ap (λ (r : Tables g × Detector). take_turns g sf_num (false ∷ true ∷ turns) r.0 a1 r.1)
            turn2
        ∙ ap (λ (r : Tables g × Detector). take_turns g sf_num (true ∷ turns) r.0 a1 r.1) turn3
        ∙ ap (λ (r : Tables g × Detector). take_turns g sf_num turns r.0 r.1 b2) turn4 in
      subst
        (λ (r : Tables g × Detector × Detector).
          (r.1.choice.best_match ≡ some b) × (r.2.choice.best_match ≡ some a))
        (sym run) (chosen_b.match, chosen_a.match)
