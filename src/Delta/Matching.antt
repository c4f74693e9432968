-- ===== src/Delta/Matching.antt =====
-- idelta.c: what the search for a match finds.
use native.Mathlib.Nat.{add-zero}
use im_dedup_plus.Prelude.{
  ℕ, zero, suc, ◌+◌, ◌-◌, ◌≤◌, ◌<◌, ◌≡◌, refl, ap, sym, ◌∙◌, arith, u16, sub64, sub64_one,
}
use im_dedup_plus.Prelude.{Bool, true, false, ◌&&◌, ltb, leb, Bool-cases, inl, inr, if◌then◌else◌}
use im_dedup_plus.Prelude.{some, ◌>>=◌, List, [], ◌∷◌}
use im_dedup_plus.Image.{Block, Plane, block_at, same_block, IsPlane}
use im_dedup_plus.Image.Segment.{same_block→eq, block_at-inside}
use im_dedup_plus.Index.{Digest}
use im_dedup_plus.Delta.Encode.{match_len, Match, best_match}

-- `len` blocks of the base from `(x, y)` on are those of the target from `(column, row)` on, inside
-- the row of the target.
pub record Matches (base tar : Plane) (row column y x len : ℕ) : Type 0 where
  pub in_target : column + len ≤ tar.width
  pub equal : (i : ℕ) → i < len → block_at base y (x + i) ≡ block_at tar row (column + i)

-- The places of a list lie in rows of the component.
abbrev pub AllBelow : ℕ → List Digest → Type 0
AllBelow height [] = Unit
AllBelow height (d ∷ ds) = (d.y < height) × AllBelow height ds

abbrev inside : Plane → Plane → Bool → ℕ → ℕ → Bool
inside base tar rows j k = leb j (sub64 base.width 1) && leb k (sub64 tar.width 1) && rows

inside_bounds :
    (base tar : Plane) (rows : Bool) (j k : ℕ)
    → IsPlane base
    → IsPlane tar
    → inside base tar rows j k ≡ true
    → (j < base.width) × (k < tar.width) × (rows ≡ true)
inside_bounds base tar rows j k bok tok h = ground (
  arith,
  sub64_one base.width bok.some_width bok.small_width,
  sub64_one tar.width tok.some_width tok.small_width,
  bok.some_width,
  tok.some_width,
)

module _ (base tar : Plane) (rows : Bool) (y row fuel j k len : ℕ) where
  len_outside :
      inside base tar rows j k ≡ false → match_len (suc fuel) rows base tar y row j k len ≡ some len
  unfolding match_len
  len_outside h = rw (match_len, h) refl

  module _ (within : inside base tar rows j k ≡ true) {b t : Block}
      (pb : block_at base y j ≡ some b) (pt : block_at tar row k ≡ some t) where
    len_differ :
        same_block b t ≡ false → match_len (suc fuel) rows base tar y row j k len ≡ some len
    unfolding match_len
    len_differ h = rw (match_len, within, pb, pt, ◌>>=◌, h) refl

    len_same :
        same_block b t ≡ true
        → match_len (suc fuel) rows base tar y row j k len
          ≡ match_len fuel rows base tar y row (j + 1) (k + 1) (u16 (len + 1))
    unfolding match_len
    len_same h = rw (match_len, within, pb, pt, ◌>>=◌, h) refl

module _ (base tar : Plane) (bok : IsPlane base) (tok : IsPlane tar) (rows : Bool) (y row : ℕ)
    (hy : rows ≡ true → y < base.height) (hrow : row < tar.height) where
  -- What a run of the loop from `j` and `k` on amounts to.
  abbrev Counts : ℕ → ℕ → ℕ → ℕ → Type 0
  Counts fuel j k len =
      (n : ℕ) × (match_len fuel rows base tar y row j k len ≡ some (len + n))
      × Matches base tar row k y j n

  stops :
      (fuel j k len : ℕ)
      → k ≤ tar.width
      → match_len fuel rows base tar y row j k len ≡ some len
      → Counts fuel j k len
  stops fuel j k len hk p = (
    0,
    p ∙ ap (λ (l : ℕ). some l) {x = len} {y = len + 0} (omega arith),
    record { in_target = omega arith; equal = λ i h. absurd (omega arith) },
  )

  goes_on :
      (fuel j k len : ℕ) {b t : Block}
      → len ≤ k
      → k < tar.width
      → block_at base y j ≡ some b
      → block_at tar row k ≡ some t
      → same_block b t ≡ true
      → match_len (suc fuel) rows base tar y row j k len
        ≡ match_len fuel rows base tar y row (j + 1) (k + 1) (u16 (len + 1))
      → Counts fuel (j + 1) (k + 1) (len + 1)
      → Counts (suc fuel) j k len
  goes_on fuel j k len {b} {t} hl hk pb pt same step (n, counted, matches) = (
    suc n,
    step
        ∙ ap (λ (l : ℕ). match_len fuel rows base tar y row (j + 1) (k + 1) l) {x = u16 (len + 1)}
            {y = len + 1} (omega (arith, tok.small_width))
        ∙ counted
        ∙ ap (λ (l : ℕ). some l) {x = len + 1 + n} {y = len + suc n} (omega arith),
    record { in_target = omega (arith, matches.in_target); equal = all },
  )
    where
      first : block_at base y j ≡ block_at tar row k
      first = pb ∙ ap (λ (c : Block). some c) (same_block→eq b t same) ∙ sym pt

      all : (i : ℕ) → i < suc n → block_at base y (j + i) ≡ block_at tar row (k + i)
      all zero h = rw (add-zero j, add-zero k) first
      all (suc i) h =
          ap (λ (x : ℕ). block_at base y x) {x = j + suc i} {y = j + 1 + i} (omega arith)
          ∙ matches.equal i (omega arith)
          ∙ ap (λ (x : ℕ). block_at tar row x) {x = k + 1 + i} {y = k + suc i} (omega arith)

  -- The loop ends, and what it has counted are equal blocks.
  match-Counts :
      (fuel j k len : ℕ) → tar.width - k < fuel → k ≤ tar.width → len ≤ k → Counts fuel j k len
  match-Counts zero j k len m hk hl = absurd (omega arith)
  match-Counts (suc fuel) j k len m hk hl = elim (Bool-cases (inside base tar rows j k)) [
    | inr out ↦ stops (suc fuel) j k len hk (len_outside base tar rows y row fuel j k len out)
    | inl within ↦
        let bounds = inside_bounds base tar rows j k bok tok within in
        let (b, pb) = block_at-inside base y j bok (hy bounds.2) bounds.0 in
        let (t, pt) = block_at-inside tar row k tok hrow bounds.1 in
        elim (Bool-cases (same_block b t)) [
          | inr differ ↦
              stops (suc fuel) j k len hk
                (len_differ base tar rows y row fuel j k len within pb pt differ)
          | inl same ↦
              goes_on fuel j k len hl bounds.1 pb pt same
                (len_same base tar rows y row fuel j k len within pb pt same)
                (match-Counts fuel (j + 1) (k + 1) (len + 1) (omega (arith, bounds.1))
                  (omega (arith, bounds.1)) (omega arith))
        ]
  ]

  -- For two components of which the row of the target lies in it, and that of the base too if the
  -- loop may compare at all, and from a column inside the target: the loop over equal blocks ends, and
  -- its result is a number of blocks of the base row that equal those of the target row, none of them
  -- behind the end of the target row.
  pub match_found :
      (column x : ℕ)
      → column ≤ tar.width
      → (n : ℕ) × (match_len (suc tar.width) rows base tar y row x column 0 ≡ some n)
        × Matches base tar row column y x n
  match_found column x h =
      let (n, counted, matches) =
        match-Counts (suc tar.width) x column 0 (omega arith) h (omega arith) in
      (n, counted ∙ ap (λ (l : ℕ). some l) {x = 0 + n} {y = n} (omega arith), matches)

module _ (base tar : Plane) (bok : IsPlane base) (tok : IsPlane tar) (row column : ℕ)
    (hrow : row < tar.height) (hcol : column ≤ tar.width) where
  -- A result of the search: a match at a row of the base.
  abbrev pub IsMatch : Match → Type 0
  IsMatch m = (m.y < base.height) × Matches base tar row column m.y m.x m.len

  either : (b : Bool) (m m' : Match) → IsMatch m → IsMatch m' → IsMatch (if b then m else m')
  either true m m' p q = p
  either false m m' p q = q

  -- The search through the places of a hash: the result is a match at one of them, or the first.
  pub best_match_lem :
      (ds : List Digest) (best : Match)
      → AllBelow base.height ds
      → IsMatch best
      → (m : Match) × (best_match base tar row column ds best ≡ some m) × IsMatch m
  unfolding best_match
  best_match_lem [] best all ok = (best, refl, ok)
  best_match_lem (d ∷ ds) best (below, all) ok =
      let (n, counted, matches) =
        match_found base tar bok tok true d.y row (λ _. below) hrow column d.x hcol in
      let better : Match = record { x = d.x; y = d.y; len = n } in
      let (m, found, is_match) =
        best_match_lem ds (if ltb best.len n then better else best) all
          (either (ltb best.len n) better best (below, matches) ok) in
      (m, rw counted found, is_match)
