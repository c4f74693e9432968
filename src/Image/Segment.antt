-- ===== src/Image/Segment.antt =====
-- Runs of blocks in the data of an image.
use im_dedup_plus.Prelude.{ℕ, zero, suc, ◌+◌, ◌*◌, ◌≤◌, ◌<◌, ◌≡◌, refl, ap, ap₂, sym, ◌∙◌, arith}
use im_dedup_plus.Prelude.{true, lt→ltb, some}
use im_dedup_plus.Prelude.{
  get_elem?, get_or, get_elem?-eq-get_or, length, take, drop, length-take, length-drop, List, [],
  ◌∷◌, ◌++◌,
}
use im_dedup_plus.Image.{Block, Plane, block_at, same_block, IsPlane}

-- `n` blocks from index `i` on.
abbrev pub segment : List Block → ℕ → ℕ → List Block
segment bs i n = take n (drop i bs)

pub same_block→eq : (a b : Block) → same_block a b ≡ true → a ≡ b
unfolding same_block
same_block→eq [] [] h = refl
same_block→eq (a ∷ as') (b ∷ bs) h = ap₂ ◌∷◌ (ground arith) (same_block→eq as' bs (ground arith))
same_block→eq [] (b ∷ bs) h = ground arith
same_block→eq (a ∷ as') [] h = ground arith

pub length-segment : (bs : List Block) (i n : ℕ) → i + n ≤ length bs → length (segment bs i n) ≡ n
length-segment bs i n h = omega (arith, length-take {0} n (drop i bs), length-drop {0} i bs)

drop_nil : (k : ℕ) → drop {A = Block} k [] ≡ []
drop_nil zero = refl
drop_nil (suc k) = refl

take_nil : (k : ℕ) → take {A = Block} k [] ≡ []
take_nil zero = refl
take_nil (suc k) = refl

suc-add : (a b : ℕ) → suc a + b ≡ suc (a + b)
suc-add a b = omega arith

drop-drop : (bs : List Block) (i n : ℕ) → drop n (drop i bs) ≡ drop (i + n) bs
drop-drop bs zero n = ap (λ (k : ℕ). drop k bs) (omega arith)
drop-drop [] (suc i) n = drop_nil n ∙ sym (drop_nil (suc i + n))
drop-drop (b ∷ bs) (suc i) n = rw (suc-add i n) (drop-drop bs i n)

take_split : (bs : List Block) (m n : ℕ) → take (m + n) bs ≡ take m bs ++ take n (drop m bs)
take_split bs zero n = ap (λ (k : ℕ). take k bs) (omega arith)
take_split [] (suc m) n = take_nil (suc m + n) ∙ sym (take_nil n)
take_split (b ∷ bs) (suc m) n =
    rw (suc-add m n) (ap (λ (l : List Block). b ∷ l) (take_split bs m n))

pub segment-split :
    (bs : List Block) (i m n : ℕ) → segment bs i (m + n) ≡ segment bs i m ++ segment bs (i + m) n
segment-split bs i m n =
    take_split (drop i bs) m n
    ∙ ap (λ (l : List Block). segment bs i m ++ take n l) (drop-drop bs i m)

pub segment-one :
    (bs : List Block) (i : ℕ) (b : Block) → get_elem? bs i ≡ some b → segment bs i 1 ≡ b ∷ []
segment-one [] i b h = ground arith
segment-one (c ∷ bs) zero b h = ground arith
segment-one (c ∷ bs) (suc i) b h = segment-one bs i b h

-- Inside a component every read succeeds.
pub block_at-inside :
    (p : Plane) (y x : ℕ)
    → IsPlane p
    → y < p.height
    → x < p.width
    → (b : Block) × (block_at p y x ≡ some b)
unfolding block_at
block_at-inside p y x ok hy hx =
    let row : y * p.width + p.width ≤ p.height * p.width = grind arith in
    let i = p.start + y * p.width + x in
    rw (lt→ltb y p.height hy)
      (get_or p.blocks i [], get_elem?-eq-get_or p.blocks i [] (omega (arith, row, ok.inside)))

pub block_at-eq-some :
    (p : Plane) (y x : ℕ) (b : Block)
    → block_at p y x ≡ some b
    → (y < p.height) × (get_elem? p.blocks (p.start + y * p.width + x) ≡ some b)
unfolding block_at
block_at-eq-some p y x b h = ground arith
