-- ===== src/Image.antt =====
-- jpeg.h and the row pointers that idelta.c and index.c set up: a decoded image is its blocks, the
-- three components one behind the other, and their sizes.
pub mod Segment
use im_dedup_plus.Prelude.{
  ℕ, zero, suc, ◌+◌, ◌*◌, ◌≤◌, ◌<◌, ◌≡◌, ◌^◌, Bool, true, false, ◌&&◌, ◌==◌, ltb,
}
use im_dedup_plus.Prelude.{
  Option, none, some, ◌>>=◌, ◌>>◌, guard, get_elem?, length, List, [], ◌∷◌, map,
}

-- A block: 64 coefficients, each the 16-bit pattern of a `short`.
abbrev pub Block : Type 0
Block = List ℕ

-- `jpeg_coe`: `data` in blocks, and `imgSize[i]`.
pub record JpegCoe : Type 0 where
  pub blocks : List Block
  pub img_size : ℕ → ℕ

-- `imgSize[0..5]`.
abbrev pub img_sizes : JpegCoe → List ℕ
img_sizes image = map image.img_size (0 ∷ 1 ∷ 2 ∷ 3 ∷ 4 ∷ 5 ∷ [])

-- One component as `jbarray` shows it: `height` row pointers, `width` blocks apart.
pub record Plane : Type 0 where
  pub blocks : List Block
  pub start : ℕ
  pub width : ℕ
  pub height : ℕ

-- `ptr[i] = ptr[i-1] + width[i-1]*height[i-1]*sizeof(JBLOCK)`, in blocks.
unfoldable pub plane_start : (ℕ → ℕ) → ℕ → ℕ
plane_start size zero = 0
plane_start size (suc i) = plane_start size i + size (2 * i) * size (2 * i + 1)

abbrev pub plane : JpegCoe → ℕ → Plane
plane image i = record {
  blocks = image.blocks;
  start = plane_start image.img_size i;
  width = image.img_size (2 * i);
  height = image.img_size (2 * i + 1);
}

-- `jbarray[y][x]`; `none` is a read past the row pointers or past the data.
unfoldable pub block_at : Plane → ℕ → ℕ → Option Block
block_at p y x = guard (ltb y p.height) >> get_elem? p.blocks (p.start + y * p.width + x)

-- `memcmp(a, b, sizeof(JBLOCK)) == 0`.
unfoldable pub same_block : Block → Block → Bool
same_block [] [] = true
same_block (a ∷ as') (b ∷ bs) = a == b && same_block as' bs
same_block [] (b ∷ bs) = false
same_block (a ∷ as') [] = false

-- A component lies in the data, and its sizes fit the 16-bit coordinates of the instructions.
pub record IsPlane (p : Plane) : Type 0 where
  pub some_width : 0 < p.width
  pub small_width : p.width < 2 ^ 16
  pub some_height : 0 < p.height
  pub small_height : p.height < 2 ^ 16
  pub inside : p.start + p.height * p.width ≤ length p.blocks

-- An image of three components, the second and the third of one size.
pub record IsImage (image : JpegCoe) : Type 0 where
  pub y_plane : IsPlane (plane image 0)
  pub u_plane : IsPlane (plane image 1)
  pub v_plane : IsPlane (plane image 2)
  pub same_width : image.img_size 4 ≡ image.img_size 2
  pub same_height : image.img_size 5 ≡ image.img_size 3
  pub no_more : length image.blocks ≡ plane_start image.img_size 3
