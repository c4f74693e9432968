-- ===== src/Delta/Row.antt =====
-- idelta.c: the instructions of one row and the rounds that they stand for.
use im_dedup_plus.Prelude.{ℕ, ◌+◌, ◌*◌, ◌≤◌, ◌<◌, ◌≡◌, refl, ap, sym, ◌∙◌, subst, arith, u32}
use im_dedup_plus.Prelude.{some, ◌>>=◌, length, List, ◌++◌, append_assoc}
use im_dedup_plus.Prelude.{Bool, true, false, ◌==◌, lt→ltb, le→ltb, if◌then◌else◌}
use im_dedup_plus.Image.{Block, Plane, IsPlane}
use im_dedup_plus.Image.Segment.{length-segment}
use im_dedup_plus.Delta.Encode.{Instructions, Match, copy_then, no_instructions}
use im_dedup_plus.Delta.Decode.{Rebuilder, insert_part, copy_part, pop_copy, wrap_row, round_with}
use im_dedup_plus.Delta.Matching.{Matches}
use im_dedup_plus.Delta.Parts.{of_row, of_row-split, copy_run_lem, insert_part_lem}

module _ (base tar : Plane) (tok : IsPlane tar) (row : ℕ) (hrow : row < tar.height) where
  -- `ready` once `p` blocks of the row are there.
  abbrev pub ready_at : ℕ → ℕ
  ready_at p = if p == tar.width then 0 else p

  pub ready_at-inside : (p : ℕ) → p < tar.width → ready_at p ≡ p
  ready_at-inside p h = ground arith

  pub ready_at-end : ready_at tar.width ≡ 0
  ready_at-end = ground arith

  -- What the arrays hold when `n` blocks from `p` on are still to be inserted before `r`.
  abbrev pub waiting : ℕ → ℕ → Instructions → Instructions → Instructions
  waiting p n r rest = record {
    cpx = r.cpx ++ rest.cpx;
    cpy = r.cpy ++ rest.cpy;
    cpl = r.cpl ++ rest.cpl;
    inl = r.inl ++ rest.inl;
    inp = of_row tar tok row hrow p n ++ (r.inp ++ rest.inp);
  }

  abbrev pub state : Instructions → ℕ → List Block → Rebuilder
  state left ready out = record { left = left; ready = ready; out = out }

  length-of_row : (p n : ℕ) → p + n ≤ tar.width → length (of_row tar tok row hrow p n) ≡ n
  length-of_row p n h =
      let next : row * tar.width + tar.width ≤ tar.height * tar.width = grind arith in
      length-segment tar.blocks (tar.start + row * tar.width + p) n
        (omega (arith, tok.inside, next))

  insert_row :
      (p n : ℕ) (r rest : Instructions) (out : List Block)
      → p < tar.width
      → p + n ≤ tar.width
      → insert_part n (state (waiting p n r rest) (ready_at p) out)
        ≡ some (state (waiting p 0 r rest) (p + n) (out ++ of_row tar tok row hrow p n))
  insert_row p n r rest out hp h = rw (ready_at-inside p hp) (
      subst
        (λ (k : ℕ).
          insert_part k (state (waiting p n r rest) p out)
          ≡ some (state (waiting p 0 r rest) (p + k) (out ++ of_row tar tok row hrow p n)))
        (length-of_row p n h)
        (insert_part_lem (waiting p 0 r rest) p out (of_row tar tok row hrow p n)
          (r.inp ++ rest.inp) (omega (arith, length-of_row p n h, tok.small_width))))

  wrap_row_lem :
      (left : Instructions) (p : ℕ) (out : List Block)
      → wrap_row tar.width (state left p out) ≡ state left (ready_at p) out
  unfolding wrap_row
  wrap_row_lem left p out =
      elim (p == tar.width)
        as (λ (b : Bool).
          (if b then state left 0 out else state left p out)
          ≡ state left (if b then 0 else p) out) [ true ↦ refl | false ↦ refl ]

  -- A round that inserts `n` blocks and copies a match.
  pub round-copy :
      (p n : ℕ) (m : Match) (r rest : Instructions) (out : List Block)
      → p + n < tar.width
      → Matches base tar row (p + n) m.y m.x m.len
      → round_with base tar.width n (
          state
            (record (waiting p n (copy_then m n r) rest) { inl = r.inl ++ rest.inl })
            (ready_at p)
            out)
        ≡ some (
            state
              (waiting (p + n + m.len) 0 r rest)
              (ready_at (p + n + m.len))
              (out ++ of_row tar tok row hrow p (n + m.len)))
  unfolding round_with copy_part pop_copy
  round-copy p n m r rest out h matches =
      let copies =
        copy_run_lem tar tok row hrow base m.y m.x (p + n) m.len matches.in_target matches.equal in
      let small : u32 (p + n + m.len) ≡ p + n + m.len =
        omega (arith, matches.in_target, tok.small_width) in
      let inserted =
        insert_row p n (record (copy_then m n r) { inl = r.inl }) rest out (omega arith)
          (omega arith) in
      let copied : copy_part base tar.width (
            state (waiting p 0 (record (copy_then m n r) { inl = r.inl }) rest) (p + n)
              (out ++ of_row tar tok row hrow p n))
          ≡ some (
              state (waiting p 0 r rest) (p + n + m.len)
                ((out ++ of_row tar tok row hrow p n) ++ of_row tar tok row hrow (p + n) m.len)) =
        rw (copy_part, lt→ltb (p + n) tar.width h, copies, small) refl in
      let joined : (out ++ of_row tar tok row hrow p n) ++ of_row tar tok row hrow (p + n) m.len
          ≡ out ++ of_row tar tok row hrow p (n + m.len) =
        append_assoc out (of_row tar tok row hrow p n) (of_row tar tok row hrow (p + n) m.len)
        ∙ ap (λ (l : List Block). out ++ l) (sym (of_row-split tar tok row hrow p n m.len)) in
      rw (inserted, ◌>>=◌, copied, ◌>>=◌, wrap_row_lem, joined) refl

  -- The last round of a row that ends with inserted blocks.
  pub round-end :
      (p n : ℕ) (rest : Instructions) (out : List Block)
      → p < tar.width
      → p + n ≡ tar.width
      → round_with base tar.width n (state (waiting p n no_instructions rest) (ready_at p) out)
        ≡ some (state rest 0 (out ++ of_row tar tok row hrow p n))
  unfolding round_with copy_part
  round-end p n rest out hp h =
      let inserted = insert_row p n no_instructions rest out hp (omega arith) in
      let passed : copy_part base tar.width
            (state rest (p + n) (out ++ of_row tar tok row hrow p n))
          ≡ some (state rest (p + n) (out ++ of_row tar tok row hrow p n)) =
        rw (copy_part, le→ltb (p + n) tar.width (omega arith)) refl in
      rw (inserted, ◌>>=◌, passed, ◌>>=◌, wrap_row_lem, h, ready_at-end) refl
