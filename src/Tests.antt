-- ===== src/Tests.antt =====
-- Two small images, a hash table and an entropy coder to run the theorems on.
mod Runs
mod Files
mod Turns
mod Pictures
mod Hashes
mod Buffers
mod Choices
mod Pipelines
use im_dedup_plus.Prelude.{
  ℕ, zero, suc, ◌+◌, ◌≤◌, ◌<◌, ◌≡◌, refl, arith, Bool, true, false, ◌==◌, leb, if◌then◌else◌,
  Bool-cases, inl, inr,
}
use im_dedup_plus.Prelude.{Option, none, some, length, get_or, replicate, List, [], ◌∷◌, ◌++◌}
use im_dedup_plus.Image.{Block, JpegCoe, plane, plane_start, IsPlane, IsImage}
use im_dedup_plus.Index.{Digest, GHashTable}
use im_dedup_plus.Rejpeg.Container.{Fse}

-- A table as a list of its insertions, the last first.
abbrev pub table_lookup : List (ℕ × List Digest) → ℕ → Option (List Digest)
table_lookup [] j = none
table_lookup ((k, ds) ∷ t) j = if k == j then some ds else table_lookup t j

abbrev pub list_table : GHashTable
list_table = record {
  Table = List (ℕ × List Digest);
  new = [];
  lookup = table_lookup;
  insert = λ t k ds. (k, ds) ∷ t;
  lookup-new = λ k. refl;
  lookup-insert = λ t k j ds. refl;
}

abbrev pub block : ℕ → Block
block dc = dc ∷ replicate 63 0

-- Six blocks of brightness, one of each colour.
abbrev pub sizes : ℕ → ℕ
sizes i = if i == 0 then 3 else if i == 1 then 2 else 1

abbrev pub base : JpegCoe
base = record {
  blocks = block 1 ∷ block 2 ∷ block 3 ∷ block 4 ∷ block 5 ∷ block 6 ∷ block 7 ∷ block 8 ∷ [];
  img_size = sizes;
}

abbrev pub target : JpegCoe
target = record {
  blocks = block 9 ∷ block 4 ∷ block 5 ∷ block 1 ∷ block 2 ∷ block 9 ∷ block 7 ∷ block 9 ∷ [];
  img_size = sizes;
}

pub base-IsImage : IsImage base
unfolding plane_start
base-IsImage = record {
  y_plane = record {
    some_width = omega arith;
    small_width = omega arith;
    some_height = omega arith;
    small_height = omega arith;
    inside = omega arith;
  };
  u_plane = record {
    some_width = omega arith;
    small_width = omega arith;
    some_height = omega arith;
    small_height = omega arith;
    inside = omega arith;
  };
  v_plane = record {
    some_width = omega arith;
    small_width = omega arith;
    some_height = omega arith;
    small_height = omega arith;
    inside = omega arith;
  };
  same_width = refl;
  same_height = refl;
  no_more = refl;
}

pub target-IsImage : IsImage target
unfolding plane_start
target-IsImage = record {
  y_plane = record {
    some_width = omega arith;
    small_width = omega arith;
    some_height = omega arith;
    small_height = omega arith;
    inside = omega arith;
  };
  u_plane = record {
    some_width = omega arith;
    small_width = omega arith;
    some_height = omega arith;
    small_height = omega arith;
    inside = omega arith;
  };
  v_plane = record {
    some_width = omega arith;
    small_width = omega arith;
    some_height = omega arith;
    small_height = omega arith;
    inside = omega arith;
  };
  same_width = refl;
  same_height = refl;
  no_more = refl;
}

-- A coder that copies, if there is room.
abbrev pub copy_if : Bool → List ℕ → ℕ × List ℕ
copy_if true src = (length src, src)
copy_if false src = (0, [])

pub copy_if-le : (cap : ℕ) (src : List ℕ) → (copy_if (leb (length src) cap) src).0 ≤ cap
copy_if-le cap src = elim (Bool-cases (leb (length src) cap)) [
  | inl e ↦ rw e (ground arith)
  | inr e ↦ rw e (omega arith)
]

pub copy_if-kept : (b : Bool) (src : List ℕ) → 1 < (copy_if b src).0 → (copy_if b src).1 ≡ src
copy_if-kept true src h = refl
copy_if-kept false src h = absurd (omega arith)

pub copy_if-length : (b : Bool) (src : List ℕ) → length (copy_if b src).1 ≡ (copy_if b src).0
copy_if-length true src = refl
copy_if-length false src = refl

abbrev pub copy_coder : Fse
copy_coder = record {
  compress = λ cap src. copy_if (leb (length src) cap) src;
  is_error = λ n. false;
  decompress = λ room src. (length src, src);
  in_room = λ cap src ok. copy_if-le cap src;
  written = λ cap src ok h. copy_if-length (leb (length src) cap) src;
  restored = λ cap room src ok h fits. rw (copy_if-kept (leb (length src) cap) src h) refl;
}
