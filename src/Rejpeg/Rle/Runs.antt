-- ===== src/Rejpeg/Rle/Runs.antt =====
-- rejpeg.c: what the decoder does with the entries of one block, whatever the low nibbles of their
-- length bytes hold.
use mathlib.Core.List.{map-append}
use native.Mathlib.Decide.{dec_lt}
use im_dedup_plus.Prelude.{ℕ, zero, suc, ◌+◌, ◌-◌, ◌*◌, ◌/◌, ◌≤◌, ◌<◌, ◌≡◌, ◌≢◌, refl}
use im_dedup_plus.Prelude.{ap, sym, ◌∙◌, arith, false, ◌⊎◌, inl, inr}
use im_dedup_plus.Prelude.{◌==◌, lt→ltb, Bool-cases, length, take}
use im_dedup_plus.Prelude.{replicate, length-append, length-replicate, length-take}
use im_dedup_plus.Prelude.{List, [], ◌∷◌, ◌++◌, map, append-nil, append_assoc}
use im_dedup_plus.Rejpeg.Rle.Used.{EndsUsed}
use im_dedup_plus.Rejpeg.Rle.{Entry, entry, run_out, run_next, runs, end_mark}
use im_dedup_plus.Rejpeg.Rle.{Decoder, place, finish}
use im_dedup_plus.Rejpeg.Rle.{decode_entries, skip}

abbrev pub advance : Decoder → List ℕ → Decoder
advance s vs = record s { dct = s.dct ++ vs; block_left = s.block_left - length vs }

pub decode_entries-append :
    (s : Decoder) (es fs : List Entry)
    → decode_entries s (es ++ fs) ≡ decode_entries (decode_entries s es) fs
unfolding decode_entries
decode_entries-append s [] fs = refl
decode_entries-append s (e ∷ es) fs = decode_entries-append (finish (place s e)) es fs

advance-advance : (s : Decoder) (a b : List ℕ) → advance (advance s a) b ≡ advance s (a ++ b)
advance-advance s a b = λ i. record s { dct = append_assoc s.dct a b i; block_left = left i }
  where
    left : s.block_left - length a - length b ≡ s.block_left - length (a ++ b)
    left = omega (arith, length-append a b)

pub finish_inside : (s : Decoder) → 0 < s.block_left → finish s ≡ s
unfolding finish
finish_inside s h = ground arith

replicate-snoc : (n : ℕ) (vs : List ℕ) → replicate n 0 ++ 0 ∷ vs ≡ replicate (suc n) 0 ++ vs
replicate-snoc zero vs = refl
replicate-snoc (suc n) vs = ap (λ (t : List ℕ). 0 ∷ t) (replicate-snoc n vs)

decoder_eq :
    (s : Decoder) {d d' : List ℕ} {l l' : ℕ}
    → d ≡ d'
    → l ≡ l'
    → record s { dct = d; block_left = l } ≡ record s { dct = d'; block_left = l' }
decoder_eq s p q = λ i. record s { dct = p i; block_left = q i }

tag_run : (r n : ℕ) → n < 16 → (r * 16 + n) / 16 ≡ r
tag_run r n h = omega arith

suc_not_zero : (r : ℕ) → (suc r == 0) ≡ false
suc_not_zero r = ground arith

runs_cons :
    (z v : ℕ) (vs : List ℕ) → (runs z (v ∷ vs)).0 ≡ run_out z v ++ (runs (run_next z v) vs).0
unfolding runs
runs_cons z v vs = refl

runs_nil : (z : ℕ) → (runs z []).0 ≡ []
unfolding runs
runs_nil z = refl

runs_cons_count : (z v : ℕ) (vs : List ℕ) → (runs z (v ∷ vs)).1 ≡ (runs (run_next z v) vs).1
unfolding runs
runs_cons_count z v vs = refl

runs_nil_count : (z : ℕ) → (runs z []).1 ≡ z
unfolding runs
runs_nil_count z = refl

-- A coefficient is written with the zeros before it, or is one more zero.
emit_cases :
    (z v : ℕ)
    → z ≤ 15
    → ((run_out z v ≡ entry z v ∷ []) × (run_next z v ≡ 0) × ((v ≢ 0) ⊎ (0 < z)))
      ⊎ ((run_out z v ≡ []) × (run_next z v ≡ suc z) × (v ≡ 0) × (suc z ≤ 15))
unfolding run_out run_next
emit_cases z v h = elim (Bool-cases (v == 0)) [
  | inr used ↦ inl (rw used refl, rw used refl, inl (ground arith))
  | inl zero_v ↦ elim (Bool-cases (z == 15)) [
    | inl full ↦ inl (ground arith, ground arith, inr (ground arith))
    | inr more ↦ inr (ground arith, ground arith, ground arith, ground arith)
  ]
]

-- No zeros are pending behind a used coefficient.
runs_end : (z v : ℕ) (vs : List ℕ) → z ≤ 15 → EndsUsed (v ∷ vs) → (runs z (v ∷ vs)).1 ≡ 0
runs_end z v [] hz used = elim (emit_cases z v hz) [
  | inl (out, next, nz) ↦ rw (runs_cons_count z v [], next) (runs_nil_count 0)
  | inr (out, next, vz, more) ↦ absurd (used vz)
]
runs_end z v (w ∷ vs) hz used = elim (emit_cases z v hz) [
  | inl (out, next, nz) ↦
      rw (runs_cons_count z v (w ∷ vs), next) (runs_end 0 w vs (omega arith) used)
  | inr (out, next, vz, more) ↦
      rw (runs_cons_count z v (w ∷ vs), next) (runs_end (suc z) w vs more used)
]

pub runs_end_list : (vs : List ℕ) → EndsUsed vs → (runs 0 vs).1 ≡ 0
runs_end_list [] used = runs_nil_count 0
runs_end_list (v ∷ vs) used = runs_end 0 v vs (omega arith) used

module _ (nibble : Entry → ℕ) (small : (e : Entry) → nibble e < 16) where
  -- The entry as its length byte reaches the decoder.
  abbrev pub tagged : Entry → Entry
  tagged e = entry (e.len * 16 + nibble e) e.value

  place-tagged :
      (s : Decoder) (r v : ℕ)
      → (v ≢ 0) ⊎ (0 < r)
      → r + 1 ≤ s.block_left
      → s.block_left ≤ 64
      → place s (tagged (entry r v)) ≡ advance s (replicate r 0 ++ v ∷ [])
  unfolding place
  place-tagged s zero v used fits top =
      rw (tag_run zero (nibble (entry zero v)) (small (entry zero v)), not_zero)
        (decoder_eq s refl (omega arith))
    where
      not_zero : (v == 0) ≡ false
      not_zero = ground arith
  place-tagged s (suc r) v used fits top =
      rw (tag_run (suc r) (nibble (entry (suc r) v)) (small (entry (suc r) v)), suc_not_zero r)
        (decoder_eq s (append_assoc s.dct (replicate (suc r) 0) (v ∷ [])) (
          omega (
            arith,
            length-append {0} (replicate (suc r) 0) (v ∷ []),
            length-replicate {A = ℕ} (suc r) 0,
          )))

  emit_decode :
      (s : Decoder) (z v : ℕ) (es : List Entry)
      → (v ≢ 0) ⊎ (0 < z)
      → z + 1 ≤ s.block_left
      → s.block_left ≤ 64
      → decode_entries s (tagged (entry z v) ∷ es)
        ≡ decode_entries (finish (advance s (replicate z 0 ++ v ∷ []))) es
  unfolding decode_entries
  emit_decode s z v es used fits top =
      ap (λ (t : Decoder). decode_entries (finish t) es) (place-tagged s z v used fits top)

  pub decode_nil : (s : Decoder) → decode_entries s [] ≡ s
  unfolding decode_entries
  decode_nil s = refl

  left_after :
      (s : Decoder) (z v : ℕ)
      → (advance s (replicate z 0 ++ v ∷ [])).block_left ≡ s.block_left - (z + 1)
  left_after s z v =
      omega (arith, length-append {0} (replicate z 0) (v ∷ []), length-replicate {A = ℕ} z 0)

  -- From `z` pending zeros on, the coefficients that are left come out as they went in.
  runs_decode :
      (s : Decoder) (z v : ℕ) (vs : List ℕ)
      → z ≤ 15
      → z + length (v ∷ vs) ≤ s.block_left
      → s.block_left ≤ 64
      → EndsUsed (v ∷ vs)
      → decode_entries s (map tagged (runs z (v ∷ vs)).0)
        ≡ finish (advance s (replicate z 0 ++ v ∷ vs))
  runs_decode s z v [] hz fits top used = elim (emit_cases z v hz) [
    | inl (out, next, nz) ↦
        rw (runs_cons z v [], out, next, runs_nil 0)
          (emit_decode s z v [] nz (omega arith) top ∙ decode_nil _)
    | inr (out, next, vz, more) ↦ absurd (used vz)
  ]
  runs_decode s z v (w ∷ vs) hz fits top used = elim (emit_cases z v hz) [
    | inl (out, next, nz) ↦
        let s' : Decoder = advance s (replicate z 0 ++ v ∷ []) in
        let left = left_after s z v in
        rw (runs_cons z v (w ∷ vs), out, next)
          (emit_decode s z v (map tagged (runs 0 (w ∷ vs)).0) nz (omega arith) top
            ∙ ap (λ (t : Decoder). decode_entries t (map tagged (runs 0 (w ∷ vs)).0))
                (finish_inside s' (omega arith))
            ∙ runs_decode s' 0 w vs (omega arith) (omega arith) (omega arith) used
            ∙ ap finish (advance-advance s (replicate z 0 ++ v ∷ []) (w ∷ vs))
            ∙ ap (λ (t : List ℕ). finish (advance s t))
                (append_assoc (replicate z 0) (v ∷ []) (w ∷ vs)))
    | inr (out, next, vz, more) ↦
        rw (runs_cons z v (w ∷ vs), out, next, vz)
          (runs_decode s (suc z) w vs more (omega arith) top used
            ∙ ap (λ (t : List ℕ). finish (advance s t)) (sym (replicate-snoc z (w ∷ vs))))
  ]

  runs_decode_list :
      (s : Decoder) (vs : List ℕ)
      → length vs ≤ s.block_left
      → 0 < s.block_left
      → s.block_left ≤ 64
      → EndsUsed vs
      → decode_entries s (map tagged (runs 0 vs).0) ≡ finish (advance s vs)
  runs_decode_list s [] fits pos top used = rw (runs_nil 0) (
      decode_nil s
      ∙ sym (finish_inside s pos)
      ∙ ap finish (decoder_eq s (sym (append-nil s.dct)) (omega arith)))
  runs_decode_list s (v ∷ vs) fits pos top used =
      runs_decode s 0 v vs (omega arith) (omega arith) top used

  place_mark :
      (s : Decoder) (n : ℕ)
      → s.block_left ≡ n
      → place s (tagged (entry 0 0)) ≡ advance s (replicate n 0)
  unfolding place
  place_mark s n e =
      rw (tag_run zero (nibble (entry 0 0)) (small (entry 0 0))) (
        decoder_eq s (ap (λ (k : ℕ). skip k s.dct) e) (omega (arith, length-replicate {A = ℕ} n 0)))

  mark_decode :
      (s : Decoder) (h : ℕ)
      → s.block_left ≡ 64 - h
      → h < 64
      → decode_entries s (map tagged (end_mark h)) ≡ finish (advance s (replicate (64 - h) 0))
  unfolding decode_entries end_mark
  mark_decode s h e lt = rw (lt→ltb h 64 lt) (ap finish (place_mark s (64 - h) e))

  -- The part up to the last used coefficient and the mark give the whole block.
  pub ptr_decode :
      (s : Decoder) (ptr : List ℕ) (h : ℕ)
      → s.block_left ≡ 64
      → length ptr ≡ 64
      → h ≤ 64
      → EndsUsed (take h ptr)
      → take h ptr ++ replicate (64 - h) 0 ≡ ptr
      → decode_entries s (map tagged ((runs 0 (take h ptr)).0 ++ end_mark h))
        ≡ finish (advance s ptr)
  ptr_decode s ptr h left len le used tail = elim (dec_lt h 64) [
    | yes lt ↦
        let s' : Decoder = advance s (take h ptr) in
        rw (map-append, decode_entries-append)
          (ap (λ (t : Decoder). decode_entries t (map tagged (end_mark h)))
              (front ∙ finish_inside s' (omega (arith, taken)))
            ∙ mark_decode s' h (omega (arith, taken)) lt
            ∙ ap finish (advance-advance s (take h ptr) (replicate (64 - h) 0))
            ∙ ap (λ (t : List ℕ). finish (advance s t)) tail)
    | no ge ↦
        let full : h ≡ 64 = omega arith in
        rw (no_mark full, append-nil)
          (front
            ∙ ap (λ (t : List ℕ). finish (advance s t))
                (sym (append-nil (take h ptr))
                  ∙ ap (λ (k : ℕ). take h ptr ++ replicate k 0) (sym (none_left full))
                  ∙ tail))
  ]
    where
      taken : length (take h ptr) ≡ h
      taken = omega (arith, length-take h ptr)

      front :
          decode_entries s (map tagged (runs 0 (take h ptr)).0) ≡ finish (advance s (take h ptr))
      front =
          runs_decode_list s (take h ptr) (omega (arith, taken)) (omega arith) (omega arith) used

      no_mark : h ≡ 64 → end_mark h ≡ []
      no_mark e = unfold end_mark in rw e refl

      none_left : h ≡ 64 → 64 - h ≡ 0
      none_left e = omega arith
