-- ===== src/Delta/Columns.antt =====
-- idelta.c: the instructions of a row give the row back.
use im_dedup_plus.Prelude.{
  ℕ, zero, suc, ◌+◌, ◌-◌, ◌≤◌, ◌<◌, ◌≡◌, refl, ap, ap₂, sym, ◌∙◌, arith, u16, sub64, sub64_one,
}
use im_dedup_plus.Prelude.{some, ◌>>=◌, length, List, ◌∷◌, ◌++◌, append_assoc, append-nil}
use im_dedup_plus.Prelude.{Bool, true, false, ◌==◌, leb, inl, inr, Bool-cases}
use im_dedup_plus.Image.{Block, Plane, block_at, IsPlane}
use im_dedup_plus.Image.Segment.{block_at-inside}
use im_dedup_plus.Index.{digests, GHashTable, dc_hash}
use im_dedup_plus.Delta.Encode.{
  Instructions, Match, copy_then, insert_then, end_row, no_match, find_match, column_loop,
}
use im_dedup_plus.Delta.Decode.{rounds, pop_insert}
use im_dedup_plus.Delta.Matching.{Matches, AllBelow, match_found, best_match_lem}
use im_dedup_plus.Delta.Parts.{of_row, of_row-split, of_row-one, suc-test}
use im_dedup_plus.Delta.Row.{ready_at, ready_at-end, waiting, state, round-copy, round-end}

module _ (base tar : Plane) (tok : IsPlane tar) (row : ℕ) (hrow : row < tar.height) where
  -- The rounds of `r`, with `n` blocks from `p` on still to be inserted, complete the row.
  abbrev pub Rebuilds : ℕ → ℕ → Instructions → Type 0
  Rebuilds p n r =
      (rest : Instructions) (out : List Block)
      → rounds base tar.width (length r.inl) (
          state base tar tok row hrow (waiting base tar tok row hrow p n r rest)
            (ready_at base tar tok row hrow p) out)
        ≡ some
            (state base tar tok row hrow rest 0 (out ++ of_row tar tok row hrow p (tar.width - p)))

  end_row-Rebuilds : (p n : ℕ) → p + n ≡ tar.width → Rebuilds p n (end_row n)
  unfolding end_row rounds pop_insert
  end_row-Rebuilds p zero h rest out =
      let e : p ≡ tar.width = omega arith in
      let z : tar.width - tar.width ≡ 0 = omega arith in
      rw (e, ready_at-end base tar tok row hrow, z, append-nil out) refl
  end_row-Rebuilds p (suc n) h rest out =
      let e : tar.width - p ≡ suc n = omega arith in
      rw (end_row, suc-test n, e)
        (rw (round-end base tar tok row hrow p (suc n) rest out (omega arith) h) refl)

  -- Some blocks of the row and those behind them.
  rest_of_row :
      (p a q : ℕ) (out : List Block)
      → q ≡ p + a
      → q ≤ tar.width
      → (out ++ of_row tar tok row hrow p a) ++ of_row tar tok row hrow q (tar.width - q)
        ≡ out ++ of_row tar tok row hrow p (tar.width - p)
  rest_of_row p a q out e h =
      append_assoc out (of_row tar tok row hrow p a) (of_row tar tok row hrow q (tar.width - q))
      ∙ ap (λ (l : List Block). out ++ l)
          (ap (λ (k : ℕ). of_row tar tok row hrow p a ++ of_row tar tok row hrow k (tar.width - q))
              e
            ∙ sym (of_row-split tar tok row hrow p a (tar.width - q))
            ∙ ap (λ (k : ℕ). of_row tar tok row hrow p k) {x = a + (tar.width - q)}
                {y = tar.width - p} (omega arith))

  copy_then-Rebuilds :
      (p n : ℕ) (m : Match) (r : Instructions)
      → p + n < tar.width
      → Matches base tar row (p + n) m.y m.x m.len
      → Rebuilds (p + n + m.len) 0 r
      → Rebuilds p n (copy_then m n r)
  unfolding rounds pop_insert
  copy_then-Rebuilds p n m r h matches later rest out =
      rw (round-copy base tar tok row hrow p n m r rest out h matches) (
        later rest (out ++ of_row tar tok row hrow p (n + m.len))
        ∙ ap (λ (l : List Block). some (state base tar tok row hrow rest 0 l))
            (rest_of_row p (n + m.len) (p + n + m.len) out (omega arith) matches.in_target))

  insert_then-Rebuilds :
      (p n : ℕ) (b : Block) (r : Instructions)
      → block_at tar row (p + n) ≡ some b
      → Rebuilds p (n + 1) r
      → Rebuilds p n (insert_then b r)
  insert_then-Rebuilds p n b r read later rest out =
      let i = r.inp ++ rest.inp in
      let joined : of_row tar tok row hrow p n ++ (b ∷ i) ≡ of_row tar tok row hrow p (n + 1) ++ i =
        ap (λ (l : List Block). of_row tar tok row hrow p n ++ (l ++ i))
          (sym (of_row-one tar tok row hrow (p + n) b read))
        ∙ sym (append_assoc (of_row tar tok row hrow p n) (of_row tar tok row hrow (p + n) 1) i)
        ∙ ap (λ (l : List Block). l ++ i) (sym (of_row-split tar tok row hrow p n 1)) in
      rw joined (later rest out)

module _ (g : GHashTable) (fix_flag : Bool) (table : g.Table) (base tar : Plane)
    (bok : IsPlane base) (tok : IsPlane tar)
    (below : (k : ℕ) → AllBelow base.height (digests (g.lookup table k))) (row : ℕ)
    (hrow : row < tar.height) where
  find_match_lem :
      (flag : Bool) (column : ℕ) (t : Block)
      → column ≤ tar.width
      → (m : Match) × (find_match g flag table base tar row column t ≡ some m)
        × Matches base tar row column m.y m.x m.len
  unfolding find_match
  find_match_lem true column t h =
      let none_yet : Matches base tar row column 0 0 0 = record {
        in_target = omega (arith, h);
        equal = λ i hi. absurd (omega arith);
      } in
      let (m, found, is_match) =
        best_match_lem base tar bok tok row column hrow h (digests (g.lookup table (dc_hash t)))
          no_match (below (dc_hash t)) (bok.some_height, none_yet) in
      (m, found, is_match.1)
  find_match_lem false column t h =
      let (n, found, matches) =
        match_found base tar bok tok (leb row (sub64 base.height 1)) row row
          (λ e.
            ground (arith, sub64_one base.height bok.some_height bok.small_height, bok.some_height))
          hrow column column h in
      (record { x = column; y = row; len = n }, rw found refl, matches)

  -- The loop from `p` and `n` on ends, and its instructions complete the row.
  abbrev pub Completes : ℕ → ℕ → ℕ → Type 0
  Completes fuel p n =
      (r : Instructions) × (column_loop g fix_flag table base tar fuel row (p + n) n ≡ some r)
      × Rebuilds base tar tok row hrow p n r

  module _ (fuel p n : ℕ) (inside : p + n < tar.width)
      (more : leb (p + n) (sub64 tar.width 1) ≡ true) {t : Block}
      (read : block_at tar row (p + n) ≡ some t) (m : Match)
      (found : find_match g fix_flag table base tar row (p + n) t ≡ some m)
      (matches : Matches base tar row (p + n) m.y m.x m.len) where
    after_copy : (m.len == 0) ≡ false → Completes fuel (p + n + m.len) 0 → Completes (suc fuel) p n
    unfolding column_loop
    after_copy some_len (r, looped, later) =
        let q = p + n + m.len in
        let next : column_loop g fix_flag table base tar fuel row (u16 q) 0 ≡ some r =
          ap (λ (k : ℕ). column_loop g fix_flag table base tar fuel row k 0) {x = u16 q} {y = q + 0}
            (omega (arith, matches.in_target, tok.small_width))
          ∙ looped in
        (
          copy_then m n r,
          rw (column_loop, more, read, ◌>>=◌, found, ◌>>=◌, some_len, next) refl,
          copy_then-Rebuilds base tar tok row hrow p n m r inside matches later,
        )

    after_insert : (m.len == 0) ≡ true → Completes fuel p (n + 1) → Completes (suc fuel) p n
    unfolding column_loop
    after_insert no_len (r, looped, later) =
        let next : column_loop g fix_flag table base tar fuel row (u16 (p + n + 1)) (u16 (n + 1))
            ≡ some r =
          ap₂ (λ (k l : ℕ). column_loop g fix_flag table base tar fuel row k l)
            {x = u16 (p + n + 1)} {y = p + (n + 1)} (omega (arith, tok.small_width))
            (omega (arith, tok.small_width))
          ∙ looped in
        (
          insert_then t r,
          rw (column_loop, more, read, ◌>>=◌, found, ◌>>=◌, no_len, next) refl,
          insert_then-Rebuilds base tar tok row hrow p n t r read later,
        )

  pub column_loop-Rebuilds :
      (fuel p n : ℕ) → tar.width - (p + n) < fuel → p + n ≤ tar.width → Completes fuel p n
  unfolding column_loop
  column_loop-Rebuilds zero p n enough h = absurd (omega arith)
  column_loop-Rebuilds (suc fuel) p n enough h =
      let last = sub64_one tar.width tok.some_width tok.small_width in
      elim (Bool-cases (leb (p + n) (sub64 tar.width 1))) [
        | inr out ↦ (
          end_row n,
          rw (column_loop, out) refl,
          end_row-Rebuilds base tar tok row hrow p n (ground (arith, last, tok.some_width)),
        )
        | inl more ↦
            let inside : p + n < tar.width = ground (arith, last, tok.some_width) in
            let (t, read) = block_at-inside tar row (p + n) tok hrow inside in
            let (m, found, matches) = find_match_lem fix_flag (p + n) t h in
            elim (Bool-cases (m.len == 0)) [
              | inr some_len ↦ after_copy fuel p n inside more read m found matches some_len (
                  column_loop-Rebuilds fuel (p + n + m.len) 0
                    (ground (arith, inside, matches.in_target)) (omega (arith, matches.in_target)))
              | inl no_len ↦ after_insert fuel p n inside more read m found matches no_len (
                  column_loop-Rebuilds fuel p (n + 1) (omega (arith, inside))
                    (omega (arith, inside)))
            ]
      ]
