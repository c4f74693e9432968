-- ===== src/Features/Best.antt =====
-- 2df.c: what is kept of an image is the best of all its windows, each with the value of its own slots.
use im_dedup_plus.Prelude.{
  ℕ, zero, suc, ◌+◌, ◌-◌, ◌^◌, ◌≤◌, ◌<◌, ◌≡◌, ◌⊎◌, inl, inr, refl, sym, ap, ap₂, subst, ◌∙◌, arith,
  u32, ltb, Bool-cases, if◌then◌else◌, ltb→lt,
}
use im_dedup_plus.Prelude.{map, List, [], ◌∷◌, ◌++◌}
use im_dedup_plus.Image.{Plane}
use im_dedup_plus.Features.{
  bit_per_slot, map_at, Feature, Window, linear, try_feature, try_features, window, slide_row,
  slide_rows, dc_at, no_feature, window_features,
}
use im_dedup_plus.Features.Slots.{BlockSize, fresh, push_column-fresh}
use im_dedup_plus.Features.Windows.{map_at-lt}

-- The loop over `m` at one window after the other.
abbrev pub scan : List (ℕ × ℕ) → List Window → List Feature → List Feature
scan index [] fs = fs
scan index (v ∷ vs) fs = scan index vs (try_features index v fs)

scan-append :
    (index : List (ℕ × ℕ)) (vs us : List Window) (fs : List Feature)
    → scan index (vs ++ us) fs ≡ scan index us (scan index vs fs)
scan-append index [] us fs = refl
scan-append index (v ∷ vs) us fs = scan-append index vs us (try_features index v fs)

module _ (slots : ℕ → ℕ → ℕ) (dcs : ℕ → ℕ → ℕ) (size : ℕ) (b : BlockSize size)
    (small : (i j : ℕ) → slots i j < 2 ^ bit_per_slot size) where
  -- Some windows of the rows from `i` on, from column `j` on.
  abbrev pub row_windows : ℕ → ℕ → ℕ → List Window
  row_windows zero i j = []
  row_windows (suc n) i j =
      window dcs i (j + size) (fresh slots size b small i j) ∷ row_windows n i (j + 1)

  -- The windows of some rows, from row `i` on.
  abbrev pub all_windows : ℕ → ℕ → ℕ → List Window
  all_windows width zero i = []
  all_windows width (suc n) i = row_windows (width + 1 - size) i 0 ++ all_windows width n (i + 1)

  module _ (index : List (ℕ × ℕ)) where
    slide_row-scan :
        (n i j : ℕ) (fs : List Feature)
        → slide_row slots dcs index
            (bit_per_slot size)
            size
            n
            i
            (j + size)
            (fresh slots size b small i j)
            fs
          ≡ scan index (row_windows n i j) fs
    unfolding slide_row
    slide_row-scan zero i j fs = refl
    slide_row-scan (suc n) i j fs =
        let v = window dcs i (j + size) (fresh slots size b small i j) in
        let next : j + size + 1 ≡ j + 1 + size = omega arith in
        ap₂
          (λ (c f : ℕ).
            slide_row slots dcs index (bit_per_slot size) size n i c f (try_features index v fs))
          next (push_column-fresh slots size b small i j)
        ∙ slide_row-scan n i (j + 1) (try_features index v fs)

    first_row :
        (n i : ℕ) (fs : List Feature)
        → slide_row slots dcs index
            (bit_per_slot size)
            size
            n
            i
            size
            (fresh slots size b small i 0)
            fs
          ≡ scan index (row_windows n i 0) fs
    first_row n i fs =
        ap
          (λ (c : ℕ).
            slide_row slots dcs index (bit_per_slot size) size n i c (fresh slots size b small i 0)
              fs)
          (omega arith)
        ∙ slide_row-scan n i 0 fs

    slide_rows-scan :
        (width n i : ℕ) (fs : List Feature)
        → slide_rows slots dcs index (bit_per_slot size) size width n i fs
          ≡ scan index (all_windows width n i) fs
    unfolding slide_rows
    slide_rows-scan width zero i fs = refl
    slide_rows-scan width (suc n) i fs =
        ap
          (λ (l : List Feature).
            slide_rows slots dcs index (bit_per_slot size) size width n (i + 1) l)
          (first_row (width + 1 - size) i fs)
        ∙ slide_rows-scan width n (i + 1) (scan index (row_windows (width + 1 - size) i 0) fs)
        ∙ sym (
            scan-append index (row_windows (width + 1 - size) i 0) (all_windows width n (i + 1)) fs)

-- Some window gave what is kept.
abbrev pub Given : ℕ × ℕ → List Window → Feature → Type 0
Given kb [] f = ⊥
Given kb (v ∷ vs) f =
    (f ≡ record { max = linear kb v.value; pos = v.place; dc = v.dc }) ⊎ Given kb vs f

-- No window is above what is kept.
abbrev pub NoneAbove : ℕ × ℕ → List Window → Feature → Type 0
NoneAbove kb [] f = Unit
NoneAbove kb (v ∷ vs) f = (linear kb v.value ≤ f.max) × NoneAbove kb vs f

-- From `before`, the windows lead to `f`.
pub record IsBestFrom (kb : ℕ × ℕ) (vs : List Window) (before f : Feature) : Type 0 where
  pub none_above : NoneAbove kb vs f
  pub no_less : before.max ≤ f.max
  pub given : (f ≡ before) ⊎ Given kb vs f

best_here : (kb : ℕ × ℕ) (f : Feature) → IsBestFrom kb [] f f
best_here kb f = record { none_above = tt; no_less = omega arith; given = inl refl }

best_next :
    (kb : ℕ × ℕ) (v : Window) (vs : List Window) (before f : Feature)
    → IsBestFrom kb vs (try_feature kb v before) f
    → IsBestFrom kb (v ∷ vs) before f
unfolding try_feature
best_next kb v vs before f h = elim (Bool-cases (ltb before.max (linear kb v.value))) [
  | inl e ↦
      let taken : Feature = record { max = linear kb v.value; pos = v.place; dc = v.dc } in
      let step : try_feature kb v before ≡ taken = rw (e, if◌then◌else◌) refl in
      let h' = subst (λ (g : Feature). IsBestFrom kb vs g f) step h in
      record {
        none_above = (h'.no_less, h'.none_above);
        no_less = omega (arith, ltb→lt before.max (linear kb v.value) e, h'.no_less);
        given = elim h'.given [ inl same ↦ inr (inl same) | inr later ↦ inr (inr later) ];
      }
  | inr e ↦
      let step : try_feature kb v before ≡ before = rw (e, if◌then◌else◌) refl in
      let h' = subst (λ (g : Feature). IsBestFrom kb vs g f) step h in
      let below : linear kb v.value ≤ before.max = ground arith in
      record {
        none_above = (omega (arith, below, h'.no_less), h'.none_above);
        no_less = h'.no_less;
        given = elim h'.given [ inl same ↦ inl same | inr later ↦ inr (inr later) ];
      }
]

-- Each of the features, with its coefficients.
abbrev pub AllBestFrom : List (ℕ × ℕ) → List Window → List Feature → List Feature → Type 0
AllBestFrom [] vs before fs = Unit
AllBestFrom (kb ∷ index) vs [] fs = fs ≡ []
AllBestFrom (kb ∷ index) vs (g ∷ before) [] = ⊥
AllBestFrom (kb ∷ index) vs (g ∷ before) (f ∷ fs) =
    IsBestFrom kb vs g f × AllBestFrom index vs before fs

all_here : (index : List (ℕ × ℕ)) (fs : List Feature) → AllBestFrom index [] fs fs
all_here [] fs = tt
all_here (kb ∷ index) [] = refl
all_here (kb ∷ index) (f ∷ fs) = (best_here kb f, all_here index fs)

all_next :
    (index : List (ℕ × ℕ)) (v : Window) (vs : List Window) (before fs : List Feature)
    → AllBestFrom index vs (try_features index v before) fs
    → AllBestFrom index (v ∷ vs) before fs
unfolding try_features
all_next [] v vs before fs h = tt
all_next (kb ∷ index) v vs [] fs h = h
all_next (kb ∷ index) v vs (g ∷ before) [] h = h
all_next (kb ∷ index) v vs (g ∷ before) (f ∷ fs) (h, hs) =
    (best_next kb v vs g f h, all_next index v vs before fs hs)

pub scan-AllBestFrom :
    (index : List (ℕ × ℕ)) (vs : List Window) (fs : List Feature)
    → AllBestFrom index vs fs (scan index vs fs)
scan-AllBestFrom index [] fs = all_here index fs
scan-AllBestFrom index (v ∷ vs) fs =
    all_next index v vs fs (scan index vs (try_features index v fs))
      (scan-AllBestFrom index vs (try_features index v fs))

-- The windows of an image, each with the value of its own slots.
abbrev pub image_windows : Plane → (size : ℕ) → BlockSize size → List Window
image_windows p size b =
    all_windows (map_at p size) (dc_at p) size b (map_at-lt p size b) p.width (p.height + 1 - size)
      0

-- For windows of 2, 4 or 8 blocks either way and a height of at least one of them, what is kept for
-- each feature is the largest that its coefficients give of a window, or 0, with the place and the DC
-- of a window that gives it; the value of a window is the one that its own slots give.
pub window_features-AllBestFrom :
    (p : Plane) (size : ℕ) (b : BlockSize size) (index : List (ℕ × ℕ))
    → size ≤ p.height
    → p.height < 2 ^ 32
    → AllBestFrom index
        (image_windows p size b)
        (map (λ kb. no_feature) index)
        (window_features p size index)
unfolding window_features
window_features-AllBestFrom p size b index enough bounded =
    let rows : u32 (p.height + 2 ^ 32 - size) + 1 ≡ p.height + 1 - size =
      omega (arith, enough, bounded) in
    subst
      (λ (fs : List Feature).
        AllBestFrom index (image_windows p size b) (map (λ kb. no_feature) index) fs)
      (sym (
        ap
          (λ (n : ℕ).
            slide_rows (map_at p size) (dc_at p) index (bit_per_slot size) size p.width n 0
              (map (λ kb. no_feature) index))
          rows
        ∙ slide_rows-scan (map_at p size) (dc_at p) size b (map_at-lt p size b) index p.width
            (p.height + 1 - size) 0 (map (λ kb. no_feature) index)))
      (scan-AllBestFrom index (image_windows p size b) (map (λ kb. no_feature) index))
