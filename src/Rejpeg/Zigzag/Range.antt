-- ===== src/Rejpeg/Zigzag/Range.antt =====
-- rejpeg.c: the cells of a reordered block are those of the block.
use im_dedup_plus.Prelude.{ℕ, zero, suc, ◌≤◌, ◌<◌, ◌≡◌, refl, ap, ◌∙◌, subst, sym, arith}
use im_dedup_plus.Prelude.{
  Bool, true, false, ◌&&◌, not, ltb, Bool-cases, inl, inr, length, get_or, set, length-set,
}
use im_dedup_plus.Prelude.{List, [], ◌∷◌}
use im_dedup_plus.Rejpeg.Zigzag.{zz_sequence, scatter, zigzag}
use im_dedup_plus.Rejpeg.Zigzag.Inverse.{
  absent, get_or-set_self, get_or-scatter-absent, length-zigzag,
}

covers : ℕ → List ℕ → Bool
unfolding absent
covers zero zs = true
covers (suc n) zs = not (absent n zs) && covers n zs

zz_sequence-covers : covers 64 zz_sequence ≡ true
unfolding covers zz_sequence
zz_sequence-covers = refl

covered : (n : ℕ) (zs : List ℕ) (z : ℕ) → covers n zs ≡ true → z < n → absent z zs ≡ false
unfolding covers
covered zero zs z h lt = absurd (omega arith)
covered (suc n) zs z h lt = elim (Bool-cases (ltb z n)) [
  | inl e ↦ covered n zs z (ground arith) (ground arith)
  | inr e ↦ let last : z ≡ n = ground arith in rw last (ground arith)
]

module _ (P : ℕ → Type 0) (ok0 : P 0) where
  cell_beyond : (xs : List ℕ) (i : ℕ) → length xs ≤ i → P (get_or xs i 0)
  cell_beyond [] i h = ok0
  cell_beyond (x ∷ xs) zero h = absurd (omega arith)
  cell_beyond (x ∷ xs) (suc i) h = cell_beyond xs i (omega arith)

  scatter_cell :
      (zs ptr tmp : List ℕ) (z : ℕ)
      → absent z zs ≡ false
      → z < length tmp
      → length zs ≡ length ptr
      → ((i : ℕ) → P (get_or ptr i 0))
      → P (get_or (scatter zs ptr tmp) z 0)
  unfolding scatter absent
  scatter_cell [] ptr tmp z h lt e all = ground arith
  scatter_cell (y ∷ zs) [] tmp z h lt e all = absurd (omega arith)
  scatter_cell (y ∷ zs) (p ∷ ptr) tmp z h lt e all = elim (Bool-cases (absent z zs)) [
    | inr later ↦
        scatter_cell zs ptr (set tmp y p) z later (omega (arith, length-set tmp y p)) (omega arith)
          (λ i. all (suc i))
    | inl none_later ↦
        let same : y ≡ z = ground arith in
        let written : get_or (scatter zs ptr (set tmp y p)) z 0 ≡ p =
          get_or-scatter-absent zs ptr (set tmp y p) z none_later
          ∙ ap (λ (i : ℕ). get_or (set tmp i p) z 0) same
          ∙ get_or-set_self tmp z p 0 lt in
        subst P (sym written) (all 0)
  ]

  -- What holds of every cell of a block and of 0 holds of every cell of the reordered block.
  pub zigzag_cell :
      (tmp ptr : List ℕ) (i : ℕ)
      → length tmp ≡ 64
      → length ptr ≡ 64
      → ((i : ℕ) → P (get_or ptr i 0))
      → P (get_or (zigzag tmp ptr) i 0)
  unfolding zigzag
  zigzag_cell tmp ptr i t p all = elim (Bool-cases (ltb i 64)) [
    | inl e ↦
        scatter_cell zz_sequence ptr tmp i
          (covered 64 zz_sequence i zz_sequence-covers (ground arith)) (ground (arith, t))
          (sixty_four ∙ sym p) all
    | inr e ↦ cell_beyond (zigzag tmp ptr) i (ground (arith, length-zigzag tmp ptr, t))
  ]
    where
      sixty_four : length zz_sequence ≡ 64
      sixty_four = unfold zz_sequence in refl
