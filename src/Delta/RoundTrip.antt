-- ===== src/Delta/RoundTrip.antt =====
-- idelta.c: `get_instructions` and the part of `de_dedup_a_single_img` that rebuilds the blocks.
use im_dedup_plus.Prelude.{ℕ, ◌+◌, ◌*◌, ◌<◌, ◌≡◌, refl, ap, ap₂, sym, ◌∙◌, arith}
use im_dedup_plus.Prelude.{
  map, Bool, ◌==◌, if◌then◌else◌, some, ◌>>=◌, length, List, [], ◌∷◌, ◌++◌, take,
}
use im_dedup_plus.Image.{img_sizes, Block, JpegCoe, plane, plane_start, IsImage}
use im_dedup_plus.Image.Segment.{segment, segment-split}
use im_dedup_plus.Index.{digests, GHashTable}
use im_dedup_plus.Delta.Encode.{
  Instructions, DedupRes, SubBlockTab, no_instructions, append_vals, get_instructions,
}
use im_dedup_plus.Delta.Decode.{rebuild_component, sub_size, stored, de_dedup_a_single_img}
use im_dedup_plus.Delta.Matching.{AllBelow}
use im_dedup_plus.Delta.Rows.{
  append_vals_assoc, append_vals-nil, rebuild_component-get_instructions_thread,
}

take-length : (bs : List Block) → take (length bs) bs ≡ bs
take-length [] = refl
take-length (b ∷ bs) = ap (λ (l : List Block). b ∷ l) (take-length bs)

three_segments :
    (bs : List Block) (i j a b c : ℕ)
    → i ≡ 0 + a
    → j ≡ 0 + (a + b)
    → a + b + c ≡ length bs
    → (segment bs 0 a ++ segment bs i b) ++ segment bs j c ≡ bs
three_segments bs i j a b c hi hj h =
    rw (hi, hj)
      (ap (λ (l : List Block). l ++ segment bs (0 + (a + b)) c) (sym (segment-split bs 0 a b))
        ∙ sym (segment-split bs 0 (a + b) c)
        ∙ ap (λ (n : ℕ). segment bs 0 n) h
        ∙ take-length bs)

-- The three components, one behind the other, are the data.
components :
    (image : JpegCoe)
    → IsImage image
    → (segment image.blocks (plane image 0).start ((plane image 0).height * (plane image 0).width)
          ++ segment image.blocks
              (plane image 1).start
              ((plane image 1).height * (plane image 1).width))
        ++ segment image.blocks
            (plane image 2).start
            ((plane image 2).height * (plane image 2).width)
      ≡ image.blocks
unfolding plane_start
components image ok =
    three_segments image.blocks (plane image 1).start (plane image 2).start
      ((plane image 0).height * (plane image 0).width)
      ((plane image 1).height * (plane image 1).width)
      ((plane image 2).height * (plane image 2).width) (grind arith) (grind arith)
      (grind (arith, ok.no_more))

-- The places that the tables hold lie in the base image.
abbrev pub AllPlaces : (g : GHashTable) → SubBlockTab g → JpegCoe → Type 0
AllPlaces g tab base =
    (i : ℕ) → i < 3 → (k : ℕ) → AllBelow (plane base i).height (digests (g.lookup (tab i) k))

module _ (base target : JpegCoe) (tok : IsImage target) (y u v : Instructions) where
  abbrev result : DedupRes
  result = record {
    instructions = append_vals (append_vals y u) v;
    y_counter = length y.inl;
    u_counter = length u.inl;
    v_counter = length v.inl;
    img_size = target.img_size;
  }

  abbrev rebuilt_size : ℕ → ℕ
  rebuilt_size i =
      if i == 4 then target.img_size 2 else if i == 5 then target.img_size 3 else sub_size result i

  same_sizes : map rebuilt_size (0 ∷ 1 ∷ 2 ∷ 3 ∷ 4 ∷ 5 ∷ []) ≡ img_sizes target
  unfolding sub_size
  same_sizes = rw (tok.same_width, tok.same_height) refl

  -- A component comes back from its instructions.
  abbrev Back : ℕ → Instructions → Type 0
  Back i r =
      (rest : Instructions) (ready : ℕ) (out : List Block)
      → rebuild_component (plane base i) (plane target i).width (length r.inl)
          (record { left = append_vals r rest; ready = ready; out = out })
        ≡ some (record {
          left = rest;
          ready = 0;
          out =
              out
              ++ segment target.blocks (plane target i).start
                  ((plane target i).height * (plane target i).width);
        })

  comes_back :
      Back 0 y
      → Back 1 u
      → Back 2 v
      → (image : JpegCoe) × (de_dedup_a_single_img (stored result) base ≡ some image)
        × (image.blocks ≡ target.blocks)
        × (img_sizes image ≡ img_sizes target)
  unfolding de_dedup_a_single_img sub_size
  comes_back y_back u_back v_back =
      let part = λ (i : ℕ).
        segment target.blocks (plane target i).start
          ((plane target i).height * (plane target i).width) in
      let first =
        ap
          (λ (a : Instructions).
            rebuild_component (plane base 0) (target.img_size 0) (length y.inl)
              (record { left = a; ready = 0; out = [] }))
          (append_vals_assoc y u v)
        ∙ y_back (append_vals u v) 0 [] in
      let second = u_back v 0 (part 0) in
      let third =
        ap₂
          (λ (w : ℕ) (a : Instructions).
            rebuild_component (plane base 2) w (length v.inl)
              (record { left = a; ready = 0; out = part 0 ++ part 1 }))
          (sym tok.same_width) (sym (append_vals-nil v))
        ∙ v_back no_instructions 0 (part 0 ++ part 1) in
      (
        record { blocks = (part 0 ++ part 1) ++ part 2; img_size = rebuilt_size },
        rw (first, ◌>>=◌, second, ◌>>=◌, third) refl,
        components target tok,
        same_sizes,
      )

-- For two images and tables whose places lie in the base image, and with either way to look for
-- matches, the instructions are found, and rebuilding from them and the base image ends and gives the
-- blocks and the sizes of the target.
pub de_dedup_a_single_img-get_instructions :
    (g : GHashTable) (fix_flag : Bool) (tab : SubBlockTab g) (base target : JpegCoe)
    → IsImage base
    → IsImage target
    → AllPlaces g tab base
    → (r : DedupRes) × (get_instructions g fix_flag tab base target ≡ some r)
      × (image : JpegCoe) × (de_dedup_a_single_img (stored r) base ≡ some image)
      × (image.blocks ≡ target.blocks)
      × (img_sizes image ≡ img_sizes target)
unfolding get_instructions
de_dedup_a_single_img-get_instructions g fix_flag tab base target bok tok places =
    let (y, y_found, y_back) =
      rebuild_component-get_instructions_thread g fix_flag (tab 0) (plane base 0) (plane target 0)
        bok.y_plane tok.y_plane (places 0 (omega arith)) in
    let (u, u_found, u_back) =
      rebuild_component-get_instructions_thread g fix_flag (tab 1) (plane base 1) (plane target 1)
        bok.u_plane tok.u_plane (places 1 (omega arith)) in
    let (v, v_found, v_back) =
      rebuild_component-get_instructions_thread g fix_flag (tab 2) (plane base 2) (plane target 2)
        bok.v_plane tok.v_plane (places 2 (omega arith)) in
    let (image, rebuilt, same, sizes) = comes_back base target tok y u v y_back u_back v_back in
    (
      result base target tok y u v,
      rw (get_instructions, y_found, ◌>>=◌, u_found, ◌>>=◌, v_found) refl,
      image,
      rebuilt,
      same,
      sizes,
    )
