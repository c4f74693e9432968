-- ===== src/Delta/Indexed.antt =====
-- idelta.c with the tables of index.c: what dedup_thread does with a base image and a target, and what
-- de_dedup_thread does with the result.
use im_dedup_plus.Prelude.{
  ◌==◌, if◌then◌else◌, ℕ, zero, suc, ◌+◌, ◌≡◌, refl, arith, Bool, true, false, some, ◌>>=◌, List,
  [], ◌∷◌,
}
use im_dedup_plus.Image.{img_sizes, JpegCoe, Plane, plane, IsImage}
use im_dedup_plus.Index.{Digest, GHashTable, create_block_index}
use im_dedup_plus.Index.Places.{AllHits, AllSound}
use im_dedup_plus.Index.Scan.{index_compute_thread-IsIndex}
use im_dedup_plus.Delta.Encode.{DedupRes, SubBlockTab, get_instructions}
use im_dedup_plus.Delta.Decode.{stored, de_dedup_a_single_img}
use im_dedup_plus.Delta.Matching.{AllBelow}
use im_dedup_plus.Delta.RoundTrip.{AllPlaces, de_dedup_a_single_img-get_instructions}

AllHits→AllBelow :
    (p : Plane) (hash : ℕ) (ds : List Digest) → AllHits p hash ds → AllBelow p.height ds
AllHits→AllBelow p hash [] hits = tt
AllHits→AllBelow p hash (d ∷ ds) (hit, hits) = (hit.in_row, AllHits→AllBelow p hash ds hits)

abbrev of_three : (g : GHashTable) → g.Table → g.Table → g.Table → SubBlockTab g
of_three g y u v i = if i == 0 then y else if i == 1 then u else v

three_places :
    (g : GHashTable) (base : JpegCoe) (y u v : g.Table)
    → AllSound g (plane base 0) y
    → AllSound g (plane base 1) u
    → AllSound g (plane base 2) v
    → AllPlaces g (of_three g y u v) base
three_places g base y u v p q r zero h k = AllHits→AllBelow (plane base 0) k _ (p k)
three_places g base y u v p q r (suc zero) h k = AllHits→AllBelow (plane base 1) k _ (q k)
three_places g base y u v p q r (suc (suc zero)) h k = AllHits→AllBelow (plane base 2) k _ (r k)
three_places g base y u v p q r (suc (suc (suc i))) h k = absurd (omega arith)

-- For an image as base, and if the unset variable of each thread is 0, indexing ends and every place
-- in a table lies in its component.
create_block_index-AllPlaces :
    (g : GHashTable) (base : JpegCoe) (fix_flag : Bool)
    → IsImage base
    → (tab : SubBlockTab g) × (size : ℕ) × (create_block_index g (λ _. 0) base fix_flag
        ≡ some (tab, size))
      × AllPlaces g tab base
unfolding create_block_index
create_block_index-AllPlaces g base false ok =
    (λ i. g.new, 0, refl, λ i h k. rw (g.lookup-new k) tt)
create_block_index-AllPlaces g base true ok =
    let (y, y_made, y_index) = index_compute_thread-IsIndex g (plane base 0) ok.y_plane in
    let (u, u_made, u_index) = index_compute_thread-IsIndex g (plane base 1) ok.u_plane in
    let (v, v_made, v_index) = index_compute_thread-IsIndex g (plane base 2) ok.v_plane in
    (
      of_three g y.table u.table v.table,
      y.size + u.size + v.size,
      rw (create_block_index, y_made, ◌>>=◌, u_made, ◌>>=◌, v_made) refl,
      three_places g base y.table u.table v.table y_index.sound u_index.sound v_index.sound,
    )

-- For two images, with either way to look for matches, and if the unset variable of each index thread
-- is 0: the base image is indexed, the instructions are found, and rebuilding from them and the base
-- image ends and gives the blocks and the sizes of the target.
pub de_dedup_a_single_img-create_block_index :
    (g : GHashTable) (fix_flag : Bool) (base target : JpegCoe)
    → IsImage base
    → IsImage target
    → (tab : SubBlockTab g) × (size : ℕ) × (create_block_index g (λ _. 0) base fix_flag
        ≡ some (tab, size))
      × (r : DedupRes) × (get_instructions g fix_flag tab base target ≡ some r)
      × (image : JpegCoe) × (de_dedup_a_single_img (stored r) base ≡ some image)
      × (image.blocks ≡ target.blocks)
      × (img_sizes image ≡ img_sizes target)
de_dedup_a_single_img-create_block_index g fix_flag base target bok tok =
    let (tab, size, indexed, places) = create_block_index-AllPlaces g base fix_flag bok in
    let (r, found, image, rebuilt, same, sizes) =
      de_dedup_a_single_img-get_instructions g fix_flag tab base target bok tok places in
    (tab, size, indexed, r, found, image, rebuilt, same, sizes)
