-- ===== src/Rejpeg/Zigzag.antt =====
-- rejpeg.c: `zz_sequence`, `zigzag` and `de_zigzag`. A block is its 64 coefficients, each the bit
-- pattern of a `short`.
pub mod Inverse
pub mod Range
use im_dedup_plus.Prelude.{ℕ, List, [], ◌∷◌, map, get_or, set}

unfoldable pub zz_sequence : List ℕ
zz_sequence =
    0 ∷ 1 ∷ 5 ∷ 6 ∷ 14 ∷ 15 ∷ 27 ∷ 28 ∷ 2 ∷ 4 ∷ 7 ∷ 13 ∷ 16 ∷ 26 ∷ 29 ∷ 42 ∷ 3 ∷ 8 ∷ 12 ∷ 17 ∷ 25
    ∷ 30 ∷ 41 ∷ 43 ∷ 9 ∷ 11 ∷ 18 ∷ 24 ∷ 31 ∷ 40 ∷ 44 ∷ 53 ∷ 10 ∷ 19 ∷ 23 ∷ 32 ∷ 39 ∷ 45 ∷ 52 ∷ 54
    ∷ 20 ∷ 22 ∷ 33 ∷ 38 ∷ 46 ∷ 51 ∷ 55 ∷ 60 ∷ 21 ∷ 34 ∷ 37 ∷ 47 ∷ 50 ∷ 56 ∷ 59 ∷ 61 ∷ 35 ∷ 36 ∷ 48
    ∷ 49 ∷ 57 ∷ 58 ∷ 62 ∷ 63 ∷ []

-- `for(i=0;i<64;i++) tmp[zz_sequence[i]] = ptr[i];` from an index on.
unfoldable pub scatter : List ℕ → List ℕ → List ℕ → List ℕ
scatter [] ptr tmp = tmp
scatter (z ∷ zs) [] tmp = tmp
scatter (z ∷ zs) (p ∷ ptr) tmp = scatter zs ptr (set tmp z p)

-- `tmp` is what `malloc` returned: 64 cells of any content.
unfoldable pub zigzag : List ℕ → List ℕ → List ℕ
unfolding scatter
zigzag tmp ptr = scatter zz_sequence ptr tmp

unfoldable pub de_zigzag : List ℕ → List ℕ
de_zigzag ori = map (λ z. get_or ori z 0) zz_sequence
