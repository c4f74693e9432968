-- ===== src/Delta/Rows.antt =====
-- idelta.c: the instructions of a component give the component back.
use im_dedup_plus.Prelude.{
  ℕ, zero, suc, ◌+◌, ◌-◌, ◌*◌, ◌≤◌, ◌<◌, ◌≡◌, refl, ap, ap₂, sym, ◌∙◌, subst, arith, u16, sub64,
  sub64_one,
}
use im_dedup_plus.Prelude.{some, ◌>>=◌, length, List, ◌++◌, append_assoc, append-nil, length-append}
use im_dedup_plus.Prelude.{Bool, leb, inl, inr, Bool-cases}
use im_dedup_plus.Image.{Block, Plane, IsPlane}
use im_dedup_plus.Image.Segment.{segment, segment-split}
use im_dedup_plus.Index.{digests, GHashTable}
use im_dedup_plus.Delta.Encode.{
  Instructions, no_instructions, append_vals, column_loop, row_loop, get_instructions_thread,
}
use im_dedup_plus.Delta.Decode.{Rebuilder, rounds, rebuild_component}
use im_dedup_plus.Delta.Matching.{AllBelow}
use im_dedup_plus.Delta.Parts.{of_row, rounds-append}
use im_dedup_plus.Delta.Row.{ready_at, ready_at-inside}
use im_dedup_plus.Delta.Columns.{Rebuilds, column_loop-Rebuilds}

pub append_vals_assoc :
    (a b c : Instructions) → append_vals (append_vals a b) c ≡ append_vals a (append_vals b c)
append_vals_assoc a b c = λ i. record {
  cpx = append_assoc a.cpx b.cpx c.cpx i;
  cpy = append_assoc a.cpy b.cpy c.cpy i;
  cpl = append_assoc a.cpl b.cpl c.cpl i;
  inl = append_assoc a.inl b.inl c.inl i;
  inp = append_assoc a.inp b.inp c.inp i;
}

pub append_vals-nil : (a : Instructions) → append_vals a no_instructions ≡ a
append_vals-nil a = λ i. record {
  cpx = append-nil a.cpx i;
  cpy = append-nil a.cpy i;
  cpl = append-nil a.cpl i;
  inl = append-nil a.inl i;
  inp = append-nil a.inp i;
}

module _ (g : GHashTable) (fix_flag : Bool) (table : g.Table) (base tar : Plane)
    (bok : IsPlane base) (tok : IsPlane tar)
    (below : (k : ℕ) → AllBelow base.height (digests (g.lookup table k))) where
  abbrev at : Instructions → List Block → Rebuilder
  at left out = record { left = left; ready = 0; out = out }

  -- The rows from `row` on.
  abbrev rows_from : ℕ → List Block
  rows_from row = segment tar.blocks (tar.start + row * tar.width) ((tar.height - row) * tar.width)

  rows_split :
      (row : ℕ) (hrow : row < tar.height) (out : List Block)
      → (out ++ of_row tar tok row hrow 0 (tar.width - 0)) ++ rows_from (row + 1)
        ≡ out ++ rows_from row
  rows_split row hrow out =
      let i = tar.start + row * tar.width in
      let here : i + 0 ≡ i = omega arith in
      let k = tar.height - (row + 1) in
      let one_more : (row + 1) * tar.width ≡ row * tar.width + tar.width = grind arith in
      let below_it : tar.start + (row + 1) * tar.width ≡ i + tar.width = omega (arith, one_more) in
      let rows : (tar.height - row) * tar.width ≡ tar.width + k * tar.width =
        ap (λ (h : ℕ). h * tar.width) {x = tar.height - row} {y = suc k} (omega (arith, hrow))
        ∙ grind arith in
      append_assoc out (of_row tar tok row hrow 0 (tar.width - 0)) (rows_from (row + 1))
      ∙ ap (λ (l : List Block). out ++ l)
          (ap₂
              (λ (a b : ℕ).
                segment tar.blocks a (tar.width - 0) ++ segment tar.blocks b (k * tar.width))
              here below_it
            ∙ ap
                (λ (w : ℕ).
                  segment tar.blocks i w ++ segment tar.blocks (i + tar.width) (k * tar.width))
                {x = tar.width - 0} {y = tar.width} (omega arith)
            ∙ sym (segment-split tar.blocks i tar.width (k * tar.width))
            ∙ ap (λ (n : ℕ). segment tar.blocks i n) (sym rows))

  none_left : (row : ℕ) (out : List Block) → tar.height - row ≡ 0 → out ++ rows_from row ≡ out
  none_left row out h =
      let z : (tar.height - row) * tar.width ≡ 0 =
        ap (λ (k : ℕ). k * tar.width) {x = tar.height - row} {y = 0} h ∙ omega arith in
      rw z (append-nil out)

  abbrev Completes : ℕ → Instructions → Type 0
  Completes row r =
      (rest : Instructions) (out : List Block)
      → rounds base tar.width (length r.inl) (at (append_vals r rest) out)
        ≡ some (at rest (out ++ rows_from row))

  row-Completes :
      (row : ℕ) (hrow : row < tar.height) (a b : Instructions)
      → Rebuilds base tar tok row hrow 0 0 a
      → Completes (row + 1) b
      → Completes row (append_vals a b)
  row-Completes row hrow a b first later rest out =
      let started : ready_at base tar tok row hrow 0 ≡ 0 =
        ready_at-inside base tar tok row hrow 0 tok.some_width in
      let done : rounds base tar.width (length a.inl) (at (append_vals a (append_vals b rest)) out)
          ≡ some (at (append_vals b rest) (out ++ of_row tar tok row hrow 0 (tar.width - 0))) =
        subst
          (λ (p : ℕ).
            rounds base tar.width (length a.inl)
              (record { left = append_vals a (append_vals b rest); ready = p; out = out })
            ≡ some (at (append_vals b rest) (out ++ of_row tar tok row hrow 0 (tar.width - 0))))
          started (first (append_vals b rest) out) in
      rw
        (
          append_vals_assoc a b rest,
          length-append a.inl b.inl,
          rounds-append base tar.width (length a.inl) (length b.inl)
              (at (append_vals a (append_vals b rest)) out),
          done,
          ◌>>=◌,
        )
        (later rest (out ++ of_row tar tok row hrow 0 (tar.width - 0))
          ∙ ap (λ (l : List Block). some (at rest l)) (rows_split row hrow out))

  row_loop-Completes :
      (fuel row : ℕ)
      → tar.height - row < fuel
      → row ≤ tar.height
      → (r : Instructions) × (row_loop g fix_flag table base tar fuel (sub64 tar.height 1) row
          ≡ some r)
        × Completes row r
  unfolding row_loop rounds
  row_loop-Completes zero row enough h = absurd (omega arith)
  row_loop-Completes (suc fuel) row enough h =
      let last = sub64_one tar.height tok.some_height tok.small_height in
      elim (Bool-cases (leb row (sub64 tar.height 1))) [
        | inr out ↦ (
          no_instructions,
          rw (row_loop, out) refl,
          λ rest o.
              ap (λ (l : List Block). some (at rest l))
                (sym (none_left row o (ground (arith, last, tok.some_height)))),
        )
        | inl more ↦
            let hrow : row < tar.height = ground (arith, last, tok.some_height) in
            let (a, looped, first) =
              column_loop-Rebuilds g fix_flag table base tar bok tok below row hrow (suc tar.width)
                0 0 (omega arith) (omega arith) in
            let (b, rest, later) =
              row_loop-Completes fuel (row + 1) (omega (arith, hrow)) (omega (arith, hrow)) in
            let start : column_loop g fix_flag table base tar (suc tar.width) row 0 0 ≡ some a =
              looped in
            let next : row_loop g fix_flag table base tar fuel (sub64 tar.height 1) (u16 (row + 1))
                ≡ some b =
              ap (λ (k : ℕ). row_loop g fix_flag table base tar fuel (sub64 tar.height 1) k)
                {x = u16 (row + 1)} {y = row + 1} (omega (arith, hrow, tok.small_height))
              ∙ rest in
            (
              append_vals a b,
              rw (row_loop, more, start, ◌>>=◌, next) refl,
              row-Completes row hrow a b first later,
            )
      ]

  -- Both directions of a component, one after the other.
  pub rebuild_component-get_instructions_thread :
      (r : Instructions) × (get_instructions_thread g fix_flag table base tar ≡ some r)
      × ((rest : Instructions) (ready : ℕ) (out : List Block)
          → rebuild_component base tar.width
              (length r.inl)
              (record { left = append_vals r rest; ready = ready; out = out })
            ≡ some (record {
              left = rest;
              ready = 0;
              out = out ++ segment tar.blocks tar.start (tar.height * tar.width);
            }))
  unfolding get_instructions_thread rebuild_component
  rebuild_component-get_instructions_thread =
      let (r, looped, completes) =
        row_loop-Completes (suc tar.height) 0 (omega arith) (omega arith) in
      let first_row : tar.start + 0 * tar.width ≡ tar.start = omega arith in
      let all_rows : tar.height - 0 ≡ tar.height = omega arith in
      let whole : rows_from 0 ≡ segment tar.blocks tar.start (tar.height * tar.width) =
        ap₂ (λ (i n : ℕ). segment tar.blocks i (n * tar.width)) first_row all_rows in
      (
        r,
        looped,
        λ rest ready out.
            completes rest out ∙ ap (λ (l : List Block). some (at rest (out ++ l))) whole,
      )
