-- ===== src/Delta/Decode.antt =====
-- idelta.c: the part of `de_dedup_a_single_img` that rebuilds the blocks. `none` is a read past one of
-- the arrays or outside the base image.
use im_dedup_plus.Prelude.{ℕ, zero, suc, ◌+◌, u32, ◌==◌, ltb, if◌then◌else◌}
use im_dedup_plus.Prelude.{Option, none, some, ◌>>=◌, List, [], ◌∷◌, ◌++◌}
use im_dedup_plus.Image.{Block, JpegCoe, Plane, plane, block_at}
use im_dedup_plus.Delta.Encode.{Instructions, DedupRes}

-- `insert_l`, `copy_x`, `copy_y`, `copy_l` and `inp` as they move on, `ready`, and the blocks that
-- stand behind `dataPtr` so far.
pub record Rebuilder : Type 0 where
  pub left : Instructions
  pub ready : ℕ
  pub out : List Block

-- `memcpy(dataPtr, inp, dataLen)` and the two pointers: the blocks copied and the rest.
unfoldable pub split_exact : ℕ → List Block → Option (List Block × List Block)
split_exact zero bs = some ([], bs)
split_exact (suc n) [] = none
split_exact (suc n) (b ∷ bs) = do (taken, rest) ← split_exact n bs; some (b ∷ taken, rest)

-- `for(k=0; k<cplen; k++)`: the blocks copied.
unfoldable pub copy_run : Plane → ℕ → ℕ → ℕ → Option (List Block)
copy_run base y x zero = some []
copy_run base y x (suc cplen) = do
  b ← block_at base y x
  bs ← copy_run base y (x + 1) cplen
  some (b ∷ bs)

-- `inlen` blocks that were inserted.
unfoldable pub insert_part : ℕ → Rebuilder → Option Rebuilder
insert_part inlen s = if inlen == 0 then some s else (do
  (taken, rest) ← split_exact inlen s.left.inp
  some (record {
    left = record s.left { inp = rest };
    ready = u32 (s.ready + inlen);
    out = s.out ++ taken;
  }))

-- The next copy instruction.
unfoldable pub pop_copy : Plane → Rebuilder → List ℕ → List ℕ → List ℕ → Option Rebuilder
pop_copy base s (x ∷ xs) (y ∷ ys) (l ∷ ls) = do
  bs ← copy_run base y x l
  some (record {
    left = record s.left { cpx = xs; cpy = ys; cpl = ls };
    ready = u32 (s.ready + l);
    out = s.out ++ bs;
  })
pop_copy base s (x ∷ xs) (y ∷ ys) [] = none
pop_copy base s (x ∷ xs) [] ls = none
pop_copy base s [] ys ls = none

-- `if(ready < tar_width) …`.
unfoldable pub copy_part : Plane → ℕ → Rebuilder → Option Rebuilder
copy_part base tar_width s =
    if ltb s.ready tar_width then pop_copy base s s.left.cpx s.left.cpy s.left.cpl else some s

-- `if(ready == tar_width) ready = 0;`.
unfoldable pub wrap_row : ℕ → Rebuilder → Rebuilder
wrap_row tar_width s = if s.ready == tar_width then record s { ready = 0 } else s

-- One round, behind `INSERT_L inlen = *insert_l++`.
unfoldable pub round_with : Plane → ℕ → ℕ → Rebuilder → Option Rebuilder
round_with base tar_width inlen s = do
  s' ← insert_part inlen s
  s'' ← copy_part base tar_width s'
  some (wrap_row tar_width s'')

unfoldable pub pop_insert : Plane → ℕ → Rebuilder → List ℕ → Option Rebuilder
pop_insert base tar_width s [] = none
pop_insert base tar_width s (n ∷ ns) =
    round_with base tar_width n (record s { left = record s.left { inl = ns } })

-- `for(j=0; j<decodePtr->sizes[4+i]; j++)`.
unfoldable pub rounds : Plane → ℕ → ℕ → Rebuilder → Option Rebuilder
rounds base tar_width zero s = some s
rounds base tar_width (suc n) s = do
  s' ← pop_insert base tar_width s s.left.inl
  rounds base tar_width n s'

-- One component: `ready` begins at 0.
unfoldable pub rebuild_component : Plane → ℕ → ℕ → Rebuilder → Option Rebuilder
rebuild_component base tar_width count s = rounds base tar_width count (record s { ready = 0 })

-- The parts of a `de_readData` that are used: the arrays and `sizes[0..6]`.
pub record DeReadData : Type 0 where
  pub arrays : Instructions
  pub sizes : ℕ → ℕ

-- `subSize[0..6]` of write_thread, which de_read_thread finds again as `sizes[0..6]`.
unfoldable pub sub_size : DedupRes → ℕ → ℕ
sub_size r i =
    if ltb i 4
    then r.img_size i
    else (if i == 4 then r.y_counter else if i == 5 then r.u_counter else r.v_counter)

-- What de_read_thread and the inverses of the compressions hand over of a stored result.
abbrev pub stored : DedupRes → DeReadData
stored r = record { arrays = r.instructions; sizes = sub_size r }

-- The blocks of the three components, and `imgSize` of the content: the second and the third have
-- the same size.
unfoldable pub de_dedup_a_single_img : DeReadData → JpegCoe → Option JpegCoe
de_dedup_a_single_img d base = do
  y ←
      rebuild_component (plane base 0) (d.sizes 0) (d.sizes 4)
        (record { left = d.arrays; ready = 0; out = [] })
  u ← rebuild_component (plane base 1) (d.sizes 2) (d.sizes 5) y
  v ← rebuild_component (plane base 2) (d.sizes 2) (d.sizes 6) u
  some (record {
    blocks = v.out;
    img_size = λ i. if i == 4 then d.sizes 2 else if i == 5 then d.sizes 3 else d.sizes i;
  })
