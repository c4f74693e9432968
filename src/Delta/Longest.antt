-- ===== src/Delta/Longest.antt =====
-- idelta.c: the match that is taken is the longest of those at the places of the hash.
use im_dedup_plus.Prelude.{
  ℕ, suc, ◌≤◌, ◌<◌, ◌≡◌, refl, arith, true, if◌then◌else◌, ltb, Bool-cases, inl, inr,
}
use im_dedup_plus.Prelude.{some, ◌>>=◌, List, [], ◌∷◌}
use im_dedup_plus.Image.{Plane, IsPlane}
use im_dedup_plus.Index.{Digest}
use im_dedup_plus.Delta.Encode.{match_len, Match, best_match}
use im_dedup_plus.Delta.Matching.{AllBelow, match_found}

module _ (base tar : Plane) (bok : IsPlane base) (tok : IsPlane tar) (row column : ℕ)
    (hrow : row < tar.height) (hcol : column ≤ tar.width) where
  -- The match at each place of a list is at most `n` blocks long.
  abbrev pub AllAtMost : ℕ → List Digest → Type 0
  AllAtMost n [] = Unit
  AllAtMost n (d ∷ ds) =
      ((k : ℕ) × (match_len (suc tar.width) true base tar d.y row d.x column 0 ≡ some k) × (k ≤ n))
      × AllAtMost n ds

  longer_of :
      (best : Match) (n : ℕ) (m : Match)
      → n ≡ m.len
      → (best.len ≤ (if ltb best.len n then m else best).len)
        × (n ≤ (if ltb best.len n then m else best).len)
  longer_of best n m e = elim (Bool-cases (ltb best.len n)) [
    | inl h ↦ rw h (ground arith, ground arith)
    | inr h ↦ rw h (ground arith, ground arith)
  ]

  -- For two components, a row and a column of the target, and a list of places in rows of the base: the
  -- search ends, and its result is at least as long as the match at each place, and as the one it began
  -- with.
  pub best_match-AllAtMost :
      (ds : List Digest) (best : Match)
      → AllBelow base.height ds
      → (m : Match) × (best_match base tar row column ds best ≡ some m)
        × (best.len ≤ m.len)
        × AllAtMost m.len ds
  unfolding best_match
  best_match-AllAtMost [] best all = (best, refl, omega arith, tt)
  best_match-AllAtMost (d ∷ ds) best (below, all) =
      let (n, counted, matches) =
        match_found base tar bok tok true d.y row (λ _. below) hrow column d.x hcol in
      let here : Match = record { x = d.x; y = d.y; len = n } in
      let (m, found, grows, rest) =
        best_match-AllAtMost ds (if ltb best.len n then here else best) all in
      let longer = longer_of best n here refl in
      (
        m,
        rw (best_match, counted, ◌>>=◌, found) refl,
        omega (arith, longer.0, grows),
        ((n, counted, omega (arith, longer.1, grows)), rest),
      )
