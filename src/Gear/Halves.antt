-- ===== src/Gear/Halves.antt =====
-- rabin/gear.c: `gear_slide_a_block` beside `gear_slide` on each half.
use im_dedup_plus.Prelude.{
  ℕ, zero, suc, ◌+◌, ◌^◌, ◌<◌, ◌≡◌, refl, ap, ◌∙◌, arith, u64, ◌<<<◌, AllBytes, get_elem?_found,
  get_elem?-append_front, get_elem?-append_back,
}
use im_dedup_plus.Prelude.{some, ◌>>=◌, length, get_elem?, List, [], ◌∷◌, ◌++◌}
use im_dedup_plus.Gear.{gear_table, gear_slide, gear_slides, slide_halves, gear_slide_a_block}

-- Each byte has its entry.
pub gear_slide-of_byte : (h b : ℕ) → b < 2 ^ 8 → (h' : ℕ) × (gear_slide h b ≡ some h')
unfolding gear_slide
gear_slide-of_byte h b small =
    let full : length gear_table ≡ 256 = refl in
    let (g, found) = get_elem?_found gear_table b (omega (arith, full, small)) in
    (u64 (u64 (h <<< 1) + g), rw (found, ◌>>=◌) refl)

-- `cs` stands in `ptr` from `i` on.
abbrev StandsAt : List ℕ → ℕ → List ℕ → Type 0
StandsAt ptr i cs = (t : ℕ) → t < length cs → get_elem? ptr (i + t) ≡ get_elem? cs t

StandsAt-rest :
    (ptr : List ℕ) (i c : ℕ) (cs : List ℕ) → StandsAt ptr i (c ∷ cs) → StandsAt ptr (i + 1) cs
StandsAt-rest ptr i c cs at t lt =
    ap (λ (n : ℕ). get_elem? ptr n) (omega arith) ∙ at (suc t) (omega (arith, lt))

slide_halves-slides :
    (n i h1 h2 : ℕ) (ptr cs ds : List ℕ)
    → length cs ≡ n
    → length ds ≡ n
    → AllBytes cs
    → AllBytes ds
    → StandsAt ptr i cs
    → StandsAt ptr (64 + i) ds
    → (a : ℕ) × (b : ℕ) × (gear_slides h1 cs ≡ some a)
      × (gear_slides h2 ds ≡ some b)
      × (slide_halves n ptr i h1 h2 ≡ some (a, b))
unfolding gear_slides slide_halves
slide_halves-slides zero i h1 h2 ptr [] [] lc ld bc bd at at' = (h1, h2, refl, refl, refl)
slide_halves-slides zero i h1 h2 ptr [] (d ∷ ds) lc ld bc bd at at' = absurd (omega (arith, ld))
slide_halves-slides zero i h1 h2 ptr (c ∷ cs) ds lc ld bc bd at at' = absurd (omega (arith, lc))
slide_halves-slides (suc n) i h1 h2 ptr [] ds lc ld bc bd at at' = absurd (omega (arith, lc))
slide_halves-slides (suc n) i h1 h2 ptr (c ∷ cs) [] lc ld bc bd at at' = absurd (omega (arith, ld))
slide_halves-slides (suc n) i h1 h2 ptr (c ∷ cs) (d ∷ ds) lc ld (c8, bc) (d8, bd) at at' =
    let (h1', e1) = gear_slide-of_byte h1 c c8 in
    let (h2', e2) = gear_slide-of_byte h2 d d8 in
    let (a, b, sa, sb, both) =
      slide_halves-slides n (i + 1) h1' h2' ptr cs ds (omega (arith, lc)) (omega (arith, ld)) bc bd
        (StandsAt-rest ptr i c cs at)
        (λ t below.
          ap (λ (m : ℕ). get_elem? ptr m) (omega arith)
          ∙ StandsAt-rest ptr (64 + i) d ds at' t below) in
    let here : get_elem? ptr i ≡ some c =
      ap (λ (m : ℕ). get_elem? ptr m) (omega arith) ∙ at 0 (omega arith) in
    let there : get_elem? ptr (64 + i) ≡ some d =
      ap (λ (m : ℕ). get_elem? ptr m) (omega arith) ∙ at' 0 (omega arith) in
    (
      a,
      b,
      rw (e1, ◌>>=◌) sa,
      rw (e2, ◌>>=◌) sb,
      rw (here, ◌>>=◌, e1, ◌>>=◌, there, ◌>>=◌, e2, ◌>>=◌) both,
    )

-- For a block of two halves of 64 bytes each: every byte has its entry, and the hash is the sum of what
-- `gear_slide` makes of the bytes of each half, from 0 on.
pub gear_slide_a_block-halves :
    (head tail : List ℕ)
    → length head ≡ 64
    → length tail ≡ 64
    → AllBytes head
    → AllBytes tail
    → (a : ℕ) × (b : ℕ) × (gear_slides 0 head ≡ some a)
      × (gear_slides 0 tail ≡ some b)
      × (gear_slide_a_block (head ++ tail) ≡ some (u64 (a + b)))
unfolding gear_slide_a_block
gear_slide_a_block-halves head tail lh lt bh bt =
    let (a, b, ea, eb, both) =
      slide_halves-slides 64 0 0 0 (head ++ tail) head tail lh lt bh bt
        (λ t below.
          ap (λ (m : ℕ). get_elem? (head ++ tail) m) (omega arith)
          ∙ get_elem?-append_front head tail t below)
        (λ t below.
          ap (λ (m : ℕ). get_elem? (head ++ tail) m) (omega (arith, lh))
          ∙ get_elem?-append_back head tail t) in
    (a, b, ea, eb, rw (both, ◌>>=◌) refl)
