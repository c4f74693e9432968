-- ===== src/Rejpeg/Zigzag/Inverse.antt =====
-- rejpeg.c: `de_zigzag` undoes `zigzag`.
use im_dedup_plus.Prelude.{ℕ, zero, suc, ◌<◌, ◌≡◌, ◌≢◌, refl, ap, ap₂, ◌∙◌, arith}
use im_dedup_plus.Prelude.{Bool, true, ◌&&◌, not, ◌==◌, ltb, length, get_or, set, length-set}
use im_dedup_plus.Prelude.{List, [], ◌∷◌, map}
use im_dedup_plus.Rejpeg.Zigzag.{zz_sequence, scatter, zigzag, de_zigzag}

pub get_or-set_self : (xs : List ℕ) (i v d : ℕ) → i < length xs → get_or (set xs i v) i d ≡ v
get_or-set_self [] i v d h = absurd (omega arith)
get_or-set_self (x ∷ xs) zero v d h = refl
get_or-set_self (x ∷ xs) (suc i) v d h = get_or-set_self xs i v d (omega arith)

get_or-set_ne : (xs : List ℕ) (i j v d : ℕ) → i ≢ j → get_or (set xs i v) j d ≡ get_or xs j d
get_or-set_ne [] i j v d ne = refl
get_or-set_ne (x ∷ xs) zero zero v d ne = absurd (ne refl)
get_or-set_ne (x ∷ xs) zero (suc j) v d ne = refl
get_or-set_ne (x ∷ xs) (suc i) zero v d ne = refl
get_or-set_ne (x ∷ xs) (suc i) (suc j) v d ne = get_or-set_ne xs i j v d (λ e. ne (ap suc e))

-- Every target below `n`, and none twice.
unfoldable pub absent : ℕ → List ℕ → Bool
absent z [] = true
absent z (y ∷ ys) = not (z == y) && absent z ys

targets : ℕ → List ℕ → Bool
unfolding absent
targets n [] = true
targets n (z ∷ zs) = ltb z n && absent z zs && targets n zs

zz_sequence-targets : targets 64 zz_sequence ≡ true
unfolding targets zz_sequence
zz_sequence-targets = refl

-- A cell that is no target keeps its content.
pub get_or-scatter-absent :
    (zs ptr tmp : List ℕ) (z : ℕ)
    → absent z zs ≡ true
    → get_or (scatter zs ptr tmp) z 0 ≡ get_or tmp z 0
unfolding scatter absent
get_or-scatter-absent [] ptr tmp z h = refl
get_or-scatter-absent (y ∷ zs) [] tmp z h = refl
get_or-scatter-absent (y ∷ zs) (p ∷ ptr) tmp z h =
    get_or-scatter-absent zs ptr (set tmp y p) z (ground arith)
    ∙ get_or-set_ne tmp y z p 0 (ground arith)

gather_scatter :
    (zs ptr tmp : List ℕ)
    → targets (length tmp) zs ≡ true
    → length zs ≡ length ptr
    → map (λ z. get_or (scatter zs ptr tmp) z 0) zs ≡ ptr
unfolding scatter targets
gather_scatter [] [] tmp h e = refl
gather_scatter [] (p ∷ ptr) tmp h e = absurd (omega arith)
gather_scatter (z ∷ zs) [] tmp h e = absurd (omega arith)
gather_scatter (z ∷ zs) (p ∷ ptr) tmp h e =
    ap₂ ◌∷◌
      (get_or-scatter-absent zs ptr (set tmp z p) z (ground arith)
        ∙ get_or-set_self tmp z p 0 (ground arith))
      (gather_scatter zs ptr (set tmp z p) (rw length-set (ground arith)) (omega arith))

pub length-scatter : (zs ptr tmp : List ℕ) → length (scatter zs ptr tmp) ≡ length tmp
unfolding scatter
length-scatter [] ptr tmp = refl
length-scatter (z ∷ zs) [] tmp = refl
length-scatter (z ∷ zs) (p ∷ ptr) tmp = length-scatter zs ptr (set tmp z p) ∙ length-set tmp z p

pub length-zigzag : (tmp ptr : List ℕ) → length (zigzag tmp ptr) ≡ length tmp
unfolding zigzag
length-zigzag tmp ptr = length-scatter zz_sequence ptr tmp

-- Whatever the 64 cells that `malloc` returned hold, reordering a block of 64 coefficients and ordering it back gives the
-- block.
pub de_zigzag-zigzag :
    (tmp ptr : List ℕ) → length tmp ≡ 64 → length ptr ≡ 64 → de_zigzag (zigzag tmp ptr) ≡ ptr
unfolding zigzag de_zigzag
de_zigzag-zigzag tmp ptr t p =
    gather_scatter zz_sequence ptr tmp (rw t zz_sequence-targets)
      (sixty_four ∙ mathlib.Core.Path.sym p)
  where
    sixty_four : length zz_sequence ≡ 64
    sixty_four = unfold zz_sequence in refl
