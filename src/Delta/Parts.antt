-- ===== src/Delta/Parts.antt =====
-- idelta.c: the parts of a round of `de_dedup_a_single_img`, on arrays that hold what they read.
use native.Mathlib.Nat.{add-zero}
use im_dedup_plus.Prelude.{ℕ, zero, suc, ◌+◌, ◌*◌, ◌^◌, ◌≤◌, ◌<◌, ◌≡◌, refl, ap, ◌∙◌, arith, u32}
use im_dedup_plus.Prelude.{Option, none, some, ◌>>=◌, length, List, [], ◌∷◌, ◌++◌, append-nil}
use im_dedup_plus.Prelude.{false, ◌==◌}
use im_dedup_plus.Image.{Block, Plane, block_at, IsPlane}
use im_dedup_plus.Image.Segment.{
  segment, segment-split, segment-one, block_at-inside, block_at-eq-some,
}
use im_dedup_plus.Delta.Encode.{Instructions}
use im_dedup_plus.Delta.Decode.{Rebuilder, split_exact, copy_run, insert_part, pop_insert, rounds}

split_exact-append :
    (taken rest : List Block) → split_exact (length taken) (taken ++ rest) ≡ some (taken, rest)
unfolding split_exact
split_exact-append [] rest = refl
split_exact-append (b ∷ bs) rest = rw (split_exact-append bs rest) refl

pub suc-test : (n : ℕ) → (suc n == 0) ≡ false
suc-test n = ground arith

-- The next blocks of `inp` go to the output.
pub insert_part_lem :
    (left : Instructions) (ready : ℕ) (out taken rest : List Block)
    → ready + length taken < 2 ^ 32
    → insert_part
        (length taken)
        (record { left = record left { inp = taken ++ rest }; ready = ready; out = out })
      ≡ some (record {
        left = record left { inp = rest };
        ready = ready + length taken;
        out = out ++ taken;
      })
unfolding insert_part
insert_part_lem left ready out [] rest h = rw (add-zero ready, append-nil out) refl
insert_part_lem left ready out (b ∷ bs) rest h =
    let small : u32 (ready + suc (length bs)) ≡ ready + suc (length bs) = omega (arith, h) in
    rw (insert_part, suc-test (length bs), split_exact-append (b ∷ bs) rest, ◌>>=◌, small) refl

module _ (tar : Plane) (tok : IsPlane tar) (row : ℕ) (hrow : row < tar.height) where
  -- Blocks of the row, from `column` on.
  abbrev pub of_row : ℕ → ℕ → List Block
  of_row column n = segment tar.blocks (tar.start + row * tar.width + column) n

  pub of_row-split :
      (column m n : ℕ) → of_row column (m + n) ≡ of_row column m ++ of_row (column + m) n
  of_row-split column m n =
      let i = tar.start + row * tar.width in
      segment-split tar.blocks (i + column) m n
      ∙ ap (λ (k : ℕ). of_row column m ++ segment tar.blocks k n) {x = i + column + m}
          {y = i + (column + m)} (omega arith)

  pub of_row-one :
      (column : ℕ) (b : Block) → block_at tar row column ≡ some b → of_row column 1 ≡ b ∷ []
  of_row-one column b h =
      segment-one tar.blocks (tar.start + row * tar.width + column) b
        (block_at-eq-some tar row column b h).1

  -- A copy of blocks that are equal to those of the row.
  pub copy_run_lem :
      (base : Plane) (y x column len : ℕ)
      → column + len ≤ tar.width
      → ((i : ℕ) → i < len → block_at base y (x + i) ≡ block_at tar row (column + i))
      → copy_run base y x len ≡ some (of_row column len)
  unfolding copy_run
  copy_run_lem base y x column zero h same = refl
  copy_run_lem base y x column (suc len) h same =
      let (b, read) = block_at-inside tar row column tok hrow (omega arith) in
      let first : block_at base y x ≡ some b =
        ap (λ (k : ℕ). block_at base y k) {x = x} {y = x + 0} (omega arith)
        ∙ same 0 (omega arith)
        ∙ ap (λ (k : ℕ). block_at tar row k) {x = column + 0} {y = column} (omega arith)
        ∙ read in
      let rest = copy_run_lem base y (x + 1) (column + 1) len (omega arith) (λ i hi.
        ap (λ (k : ℕ). block_at base y k) {x = x + 1 + i} {y = x + suc i} (omega arith)
        ∙ same (suc i) (omega arith)
        ∙ ap (λ (k : ℕ). block_at tar row k) {x = column + suc i} {y = column + 1 + i}
            (omega arith)) in
      let split : of_row column (suc len) ≡ b ∷ of_row (column + 1) len =
        ap (λ (k : ℕ). of_row column k) {x = suc len} {y = 1 + len} (omega arith)
        ∙ of_row-split column 1 len
        ∙ ap (λ (l : List Block). l ++ of_row (column + 1) len) (of_row-one column b read) in
      rw (first, rest, split) refl

through :
    (base : Plane) (w m n : ℕ) (o : Option Rebuilder)
    → ((s : Rebuilder) → rounds base w (m + n) s ≡ (rounds base w m s >>= rounds base w n))
    → (o >>= rounds base w (m + n)) ≡ (o >>= rounds base w m >>= rounds base w n)
through base w m n none h = refl
through base w m n (some s) h = h s

-- The rounds of one row and those of the next.
pub rounds-append :
    (base : Plane) (w m n : ℕ) (s : Rebuilder)
    → rounds base w (m + n) s ≡ (rounds base w m s >>= rounds base w n)
unfolding rounds
rounds-append base w zero n s = ap (λ (k : ℕ). rounds base w k s) (omega arith)
rounds-append base w (suc m) n s =
    ap (λ (k : ℕ). rounds base w k s) {x = suc m + n} {y = suc (m + n)} (omega arith)
    ∙ through base w m n (pop_insert base w s s.left.inl) (rounds-append base w m n)
