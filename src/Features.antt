-- ===== src/Features.antt =====
-- 2df.c: the features of an image by windows of its brightness (`compute_features` with the method
-- `_2DF` in two dimensions), and the super features.
pub mod Slots
pub mod Windows
pub mod Best
pub mod Super
use im_dedup_plus.Prelude.{
  ℕ, zero, suc, ◌+◌, ◌-◌, ◌*◌, ◌/◌, ◌^◌, u8, u16, u32, u64, ◌<<<◌, bit_and, bit_or,
}
use im_dedup_plus.Prelude.{
  Bool, ◌&&◌, ◌==◌, ltb, if◌then◌else◌, Option, none, some, get_or, take, drop, map, List, [], ◌∷◌,
}
use im_dedup_plus.Image.{Block, Plane, block_at}
use im_dedup_plus.Detect.{ImageData}

-- `bit_per_slot`.
unfoldable pub bit_per_slot : ℕ → ℕ
bit_per_slot block_size = u8 (if ltb block_size 8 then 64 / block_size / block_size else 1)

-- `map[i][j] = (map[i][j]<<1) | …` for some of the coefficients of a block that follow each other.
unfoldable pub add_bits : ℕ → ℕ → Block → ℕ → ℕ
add_bits zero k b slot = slot
add_bits (suc n) k b slot =
    add_bits n (k + 1) b
      (bit_or (u64 (slot <<< 1)) (if bit_and (get_or b k 0) 1 == 0 then 0 else 1))

-- The loops over `k` and `m`, `k` from some row on.
unfoldable pub add_rows : ℕ → ℕ → ℕ → Block → ℕ → ℕ
unfolding add_bits
add_rows step zero k b slot = slot
add_rows step (suc n) k b slot = add_rows step n (k + 1) b (add_bits step (k * 8) b slot)

-- `map[i][j]`, which stays 0 in the row and the column behind the image.
unfoldable pub map_at : Plane → ℕ → ℕ → ℕ → ℕ
unfolding add_rows
map_at p block_size i j =
    let step = 8 / block_size in
    if ltb i p.height && ltb j p.width
    then (elim (block_at p i j) [ none ↦ 0 | some b ↦ add_rows step step 0 b 0 ])
    else 0

-- `for(k=0; k<_block_size; k++) tmpFeature = (tmpFeature<<bit_per_slot) | map[i+k][j]`, from some
-- `k` on.
unfoldable pub push_column : (ℕ → ℕ → ℕ) → ℕ → ℕ → ℕ → ℕ → ℕ → ℕ
push_column slots bits zero i j feature = feature
push_column slots bits (suc n) i j feature =
    push_column slots bits n (i + 1) j (bit_or (u64 (feature <<< bits)) (slots i j))

-- The columns before the first window ends.
unfoldable pub push_columns : (ℕ → ℕ → ℕ) → ℕ → ℕ → ℕ → ℕ → ℕ → ℕ → ℕ
unfolding push_column
push_columns slots bits block_size zero i j feature = feature
push_columns slots bits block_size (suc n) i j feature =
    push_columns slots bits block_size n i (j + 1) (push_column slots bits block_size i j feature)

-- `max[m]`, `pos[m]` and `dc[m]`.
pub record Feature : Type 0 where
  pub max : ℕ
  pub pos : ℕ
  pub dc : ℕ

-- What stands at a window: `tmpFeature`, the place and the DC that go with it.
pub record Window : Type 0 where
  pub value : ℕ
  pub place : ℕ
  pub dc : ℕ

-- `ltFeature = k_index[m]*tmpFeature + b_index[m]`.
unfoldable pub linear : ℕ × ℕ → ℕ → ℕ
linear (k, b) value = u64 (k * value + b)

unfoldable pub try_feature : ℕ × ℕ → Window → Feature → Feature
unfolding linear
try_feature kb v f =
    if ltb f.max (linear kb v.value)
    then record { max = linear kb v.value; pos = v.place; dc = v.dc }
    else f

-- The loop over `m`; `index` is `k_index` with `b_index`.
unfoldable pub try_features : List (ℕ × ℕ) → Window → List Feature → List Feature
unfolding try_feature
try_features [] v fs = fs
try_features (kb ∷ index) v [] = []
try_features (kb ∷ index) v (f ∷ fs) = try_feature kb v f ∷ try_features index v fs

-- What the window before column `j` of the rows from `i` on has; the DC is that of the block behind the
-- window.
unfoldable pub window : (ℕ → ℕ → ℕ) → ℕ → ℕ → ℕ → Window
window dcs i j feature = record { value = feature; place = bit_or (u64 (i <<< 32)) j; dc = dcs i j }

-- `for(j=_block_size; j<=w; j++)`, from some `j` on.
unfoldable pub slide_row :
    (ℕ → ℕ → ℕ) → (ℕ → ℕ → ℕ) → List (ℕ × ℕ) → ℕ → ℕ → ℕ → ℕ → ℕ → ℕ → List Feature → List Feature
unfolding window try_features push_column
slide_row slots dcs index bits block_size zero i j feature fs = fs
slide_row slots dcs index bits block_size (suc n) i j feature fs =
    slide_row slots dcs index bits block_size n i (j + 1)
      (push_column slots bits block_size i j feature)
      (try_features index (window dcs i j feature) fs)

-- `for(i=0; i<=h-_block_size; i++)`, from some `i` on, for a width.
unfoldable pub slide_rows :
    (ℕ → ℕ → ℕ) → (ℕ → ℕ → ℕ) → List (ℕ × ℕ) → ℕ → ℕ → ℕ → ℕ → ℕ → List Feature → List Feature
unfolding slide_row push_columns
slide_rows slots dcs index bits block_size width zero i fs = fs
slide_rows slots dcs index bits block_size width (suc n) i fs =
    slide_rows slots dcs index bits block_size width n (i + 1) (
      slide_row slots dcs index bits block_size (width + 1 - block_size) i block_size
        (push_columns slots bits block_size block_size i 0 0) fs)

-- The DC of a block, or of the one behind the row.
unfoldable pub dc_at : Plane → ℕ → ℕ → ℕ
dc_at p i j = elim (block_at p i j) [ none ↦ 0 | some b ↦ get_or b 0 0 ]

abbrev pub no_feature : Feature
no_feature = record { max = 0; pos = 0; dc = 0 }

-- `max`, `pos` and `dc` after the loops, for a brightness `p`; the number of rows of windows is that of
-- a difference in `uint32_t`.
unfoldable pub window_features : Plane → ℕ → List (ℕ × ℕ) → List Feature
unfolding slide_rows map_at dc_at bit_per_slot
window_features p block_size index =
    slide_rows (map_at p block_size) (dc_at p) index (bit_per_slot block_size) block_size p.width
      (u32 (p.height + 2 ^ 32 - block_size) + 1) 0 (map (λ kb. no_feature) index)

-- `for(j=0; j<FEA_PER_SF; j++,k++)` from some `k` on: what is added up of `max`, `pos` and `dc`.
unfoldable pub sum_features : ℕ → List Feature → Feature → Feature
sum_features zero fs acc = acc
sum_features (suc n) [] acc = acc
sum_features (suc n) (f ∷ fs) acc =
    sum_features n fs (record {
      max = u64 (acc.max + f.max);
      pos = u64 (acc.pos + f.pos);
      dc = u16 (acc.dc + f.dc);
    })

-- `k_index` with `b_index`, the first of so many features.
unfoldable pub feature_index : List (ℕ × ℕ)
feature_index =
    (0x76931fac9dab2b36, 0x38667b6ed2b2fcab)
    ∷ (0xc248b87d6ae33f9a, 0x04abae8676e318b4)
    ∷ (0x62d7183a5d5789e4, 0x02a7d15b30d2d7dd)
    ∷ (0xb2d6b441e2411dc7, 0xb78650cc6af82bc3)
    ∷ (0x09e111c7e1e7acb6, 0xd7aa805b02dd9aa5)
    ∷ (0xf8cac0bb2fc4c8bc, 0x23b7374a1323ee6b)
    ∷ (0x2ae3baaab9165cc4, 0x516d1b81e5f709c2)
    ∷ (0x58e199cb89f51b13, 0xc790edaf1c3fa9b0)
    ∷ (0x5f7091a5abb0874d, 0xa1dbc6dabc2b5ed2)
    ∷ (0xf3e8cb4543a5eb93, 0x67244c458752002b)
    ∷ (0xb0441e9ca4c2b0fb, 0x106d6381fad58a7e)
    ∷ (0x3d30875cbf29abd5, 0x193657bde0fe0291)
    ∷ (0xb1acf38984b35ae8, 0x20f8379316891f82)
    ∷ (0x82809dd4cfe7abc5, 0x8b8d24a049e5b86d)
    ∷ (0xc61baa52e053b4c3, 0x855bcfed56765f9d)
    ∷ (0x643f204ef259d2e9, 0xa1ac54caeaf9257a)
    ∷ (0x8042a948aac5e884, 0xbc67b451bc70b0e5)
    ∷ (0xcb3ec7db925643fd, 0x2817dd1b704a6b41)
    ∷ (0x34fdd467e2cca406, 0x8a83fd4a9ca4c89e)
    ∷ (0x035cb2744cb90a63, 0x1a6e779f8d9e9df1)
    ∷ (0xe51c973790334394, 0x8747591e5b314c05)
    ∷ (0x7e02086541e4c48a, 0x763edcd59632423c)
    ∷ (0x99630aa9aece1538, 0xa83f14d6f073d784)
    ∷ (0x43a4b190274ebc95, 0xdb2b7001643a6760)
    ∷ (0x5f8592e30a2205a4, 0xf9f0dd6ddd0a59e2)
    ∷ (0x85846248987550aa, 0x41dc1ed720287896)
    ∷ (0xf2094ec59e7931dc, 0x286f5cc3addf6c1a)
    ∷ (0x650c7451cc61c0cb, 0xdf6ed35f477b0022)
    ∷ (0x2c46a1b3f2c349fa, 0x981e5e1fbfe1bfb8)
    ∷ (0xff763c7f8d14ddff, 0xe26b5ba93253275b)
    ∷ (0x946351744378d62c, 0xf6a44b3fa1051cdf)
    ∷ (0x59285a8d7915614f, 0xe3b3f5d2725a9a58)
    ∷ (0x5a2ac9e0d68aca62, 0x0fd5b04525b3182f)
    ∷ (0x48a9227ab8f1930e, 0xcd2b3fda124aca3c)
    ∷ (0xe38ac7a9d239c9b0, 0x901406a2b55cd8b9)
    ∷ (0x26a481e49d53161f, 0x5d48d13e379f1ccb)
    ∷ (0x9a9513fe5271c32e, 0xcdfc39fee4acc552)
    ∷ (0x9c21d156eb9f1bea, 0x3aa0bdef57e63a1f)
    ∷ (0x57f6ae4f1b1de3b7, 0x81cbaba9f45caaed)
    ∷ (0xfd9cee2d9cca7b4c, 0x48d06bfb3d168360)
    ∷ (0x242d26c31d000b7f, 0x42bed57cac84761b)
    ∷ (0x90b7fe48a131c7de, 0xfeb59a0c81304908)
    ∷ (0xbfbe58165266de56, 0xbb781e4bbdf230d2)
    ∷ (0xe1edf26939af07ec, 0xe977374b97bd0b6b)
    ∷ (0x69ab1b17d8db6214, 0x7d38b736428826a0)
    ∷ (0x3f2228b51551c3d2, 0xf2729be2290256dc)
    ∷ (0xc7de3f5072bd4d18, 0x304e875c9d4b3fb2)
    ∷ (0xc3aeb64cb9e8cba8, 0x125ae3d0cd3130d6)
    ∷ (0x1a0f3783ef9012db, 0x3764bdca939cad56)
    ∷ (0x00a903566bce3501, 0x290bfd3ea9c74cbe)
    ∷ (0xd2223908bccfe509, 0xcb32a05648982795)
    ∷ (0x5903acde8fd7ab31, 0xb2083afde0219374)
    ∷ (0x935db607ea31258f, 0x09389bfad721f43d)
    ∷ (0xe90788fdac21bd00, 0x458475badc30a38d)
    ∷ (0x235ad90b73c1e502, 0xbad72854902bd01a)
    ∷ (0xe547f90ac56b73a2, 0xcf81993a3acb4302)
    ∷ (0xa9073451a897d342, 0xf4b8eac294a96d54)
    ∷ (0xc1d23f55690bb5a1, 0x18321da9c9410111)
    ∷ (0x3392b830b514a6f5, 0x00df012104bc0103)
    ∷ (0x6aaa890d35f0ff59, 0x110018201acdf900)
    ∷ (0x763fcba8bd62469f, 0xcc490ab371f1138f)
    ∷ (0x4fdb4529602ad675, 0x9327ad39875abef4)
    ∷ (0x8f8263b034fadbc7, 0xabbb29843297f091)
    ∷ (0xf83bd098236ac562, 0x0932998100000ac0)
    ∷ []

-- The image of `compute_features`, for `SF_NUM` super features of `FEA_PER_SF` features.
unfoldable pub compute_features : ℕ → Plane → ℕ → ℕ → ℕ → ImageData
unfolding window_features sum_features feature_index
compute_features decode_ptr p block_size sf_num fea_per_sf =
    let fs = window_features p block_size (take (sf_num * fea_per_sf) feature_index) in
    let super = λ (i : ℕ). sum_features fea_per_sf (drop (i * fea_per_sf) fs) no_feature in
    record {
      decd_data = decode_ptr;
      sfs = λ i. (super i).max;
      dc = λ i. (super i).dc;
      position = λ i. (super i).pos;
    }
