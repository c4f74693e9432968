-- ===== src/Index/Scan.antt =====
-- index.c: the loops over an image.
use im_dedup_plus.Prelude.{
  ℕ, zero, suc, ◌+◌, ◌-◌, ◌≤◌, ◌<◌, ◌≡◌, refl, ap, sym, ◌∙◌, subst, arith, u16, sub64, sub64_one,
  ap₂, ltb,
}
use im_dedup_plus.Prelude.{true, leb, inl, inr, ◌⊎◌, Bool-cases, some, ◌>>=◌}
use im_dedup_plus.Image.{Block, Plane, block_at, IsPlane}
use im_dedup_plus.Image.Segment.{block_at-inside, block_at-eq-some}
use im_dedup_plus.Index.{
  GHashTable, dc_hash, Indexer, index_block, index_columns, index_rows, index_compute_thread,
}
use im_dedup_plus.Index.Places.{IsHit, AllSound, Found, IsKept, index_block-Gains}

some-inj : (b b' : Block) → some b ≡ some b' → b ≡ b'
some-inj b b' h = ground arith

module _ (g : GHashTable) (p : Plane) (ok : IsPlane p) where
  -- The blocks of a row from a column on are in the table.
  abbrev FoundFrom : g.Table → ℕ → ℕ → Type 0
  FoundFrom t row column =
      (x : ℕ) (b : Block)
      → column ≤ x
      → x < p.width
      → block_at p row x ≡ some b
      → Found g p t (dc_hash b)

  record Scanned (s s' : Indexer g) : Type 0 where
    sound : AllSound g p s.table → AllSound g p s'.table
    keeps : (k : ℕ) → Found g p s.table k → Found g p s'.table k

  block-IsHit :
      (row column : ℕ) (b : Block)
      → row < p.height
      → column < p.width
      → block_at p row column ≡ some b
      → IsHit p (dc_hash b) (record { x = u16 column; y = u16 row })
  block-IsHit row column b hrow hcolumn read =
      let ex : u16 column ≡ column = omega (arith, ok.small_width) in
      let ey : u16 row ≡ row = omega (arith, ok.small_height) in
      record {
        in_column = omega (arith, ok.small_width);
        in_row = omega (arith, ok.small_height);
        block = b;
        read = ap₂ (λ (y x : ℕ). block_at p y x) ey ex ∙ read;
        same_hash = refl;
      }

  first_or_later : (column x : ℕ) → column ≤ x → (column ≡ x) ⊎ (column + 1 ≤ x)
  first_or_later column x h = elim (Bool-cases (ltb column x)) [
    | inl e ↦ inr (ground arith)
    | inr e ↦ inl (ground arith)
  ]

  same_block-Found :
      (b b' : Block) (t : g.Table) (row column x : ℕ)
      → column ≡ x
      → block_at p row column ≡ some b
      → block_at p row x ≡ some b'
      → Found g p t (dc_hash b)
      → Found g p t (dc_hash b')
  same_block-Found b b' t row column x e read read' found =
      subst (λ (c : Block). Found g p t (dc_hash c))
        (some-inj b b' (sym read ∙ ap (λ (k : ℕ). block_at p row k) e ∙ read')) found

  index_columns-Scanned :
      (fuel row column : ℕ) (s : Indexer g)
      → row < p.height
      → p.width - column < fuel
      → column ≤ p.width
      → IsKept g p s
      → (s' : Indexer g) × (index_columns g p fuel 0 row column s ≡ some s')
        × Scanned s s'
        × FoundFrom s'.table row column
  unfolding index_columns
  index_columns-Scanned zero row column s hrow enough h kept = absurd (omega arith)
  index_columns-Scanned (suc fuel) row column s hrow enough h kept =
      let last = sub64_one p.width ok.some_width ok.small_width in
      elim (Bool-cases (leb column (sub64 p.width 1))) [
        | inr out ↦ (
          s,
          rw (index_columns, out) refl,
          record { sound = λ q. q; keeps = λ k q. q },
          λ x b h1 h2 r. absurd (ground (arith, last, ok.some_width)),
        )
        | inl more ↦
            let inside : column < p.width = ground (arith, last, ok.some_width) in
            let (b, read) = block_at-inside p row column ok hrow inside in
            let hit : IsHit p (dc_hash b) (record { x = u16 column; y = u16 row }) =
              block-IsHit row column b hrow inside read in
            let (gains, kept') = index_block-Gains g p s row column b hit kept in
            let (s', looped, scanned, found) =
              index_columns-Scanned fuel row (column + 1) (index_block g s row column b) hrow
                (omega (arith, inside)) (omega (arith, inside)) kept' in
            let here : block_at p (row + 0) column ≡ some b =
              ap (λ (y : ℕ). block_at p y column) {x = row + 0} {y = row} (omega arith) ∙ read in
            (
              s',
              rw (index_columns, more, here, ◌>>=◌, looped) refl,
              record {
                sound = λ q. scanned.sound (gains.sound q);
                keeps = λ k q. scanned.keeps k (gains.keeps k q);
              },
              λ x b' h1 h2 read'. elim (first_or_later column x h1) [
                | inl e ↦
                    scanned.keeps (dc_hash b')
                      (same_block-Found b b' _ row column x e read read' gains.gained)
                | inr later ↦ found x b' later h2 read'
              ],
            )
      ]

  -- What a table says of a whole component.
  pub record IsIndex (t : g.Table) : Type 0 where
    pub sound : AllSound g p t
    pub complete :
        (y x : ℕ) (b : Block) → x < p.width → block_at p y x ≡ some b → Found g p t (dc_hash b)

  index_rows-Scanned :
      (fuel row : ℕ) (s : Indexer g)
      → p.height - row < fuel
      → row ≤ p.height
      → (s' : Indexer g) × (index_rows g p fuel 0 (sub64 p.height 1) row s ≡ some s')
        × Scanned s s'
        × ((y : ℕ) → row ≤ y → y < p.height → FoundFrom s'.table y 0)
  unfolding index_rows
  index_rows-Scanned zero row s enough h = absurd (omega arith)
  index_rows-Scanned (suc fuel) row s enough h =
      let last = sub64_one p.height ok.some_height ok.small_height in
      elim (Bool-cases (leb row (sub64 p.height 1))) [
        | inr out ↦ (
          s,
          rw (index_rows, out) refl,
          record { sound = λ q. q; keeps = λ k q. q },
          λ y h1 h2. absurd (ground (arith, last, ok.some_height)),
        )
        | inl more ↦
            let inside : row < p.height = ground (arith, last, ok.some_height) in
            let begun : Indexer g = record s { tmp = 0; flag = true } in
            let (s1, looped, first, found1) =
              index_columns-Scanned (suc p.width) row 0 begun inside (omega arith) (omega arith)
                (λ h'. ground arith) in
            let (s2, rest, later, found2) =
              index_rows-Scanned fuel (row + 1) s1 (omega (arith, inside))
                (omega (arith, inside)) in
            (
              s2,
              rw (index_rows, more, looped, ◌>>=◌, rest) refl,
              record {
                sound = λ q. later.sound (first.sound q);
                keeps = λ k q. later.keeps k (first.keeps k q);
              },
              λ y h1 h2. elim (first_or_later row y h1) [
                | inl e ↦
                    subst (λ (z : ℕ). FoundFrom s2.table z 0) e
                      (λ x b h3 h4 r. later.keeps (dc_hash b) (found1 x b h3 h4 r))
                | inr after ↦ found2 y after h2
              ],
            )
      ]

  -- For a component with 16-bit sizes that lies in the data: if the unset variable is 0, the thread ends, every place in its table has the hash under which it
  -- stands, and the hash of every block of the component has a list with a place.
  pub index_compute_thread-IsIndex :
      (s : Indexer g) × (index_compute_thread g p 0 ≡ some s) × IsIndex s.table
  unfolding index_compute_thread
  index_compute_thread-IsIndex =
      let (s, looped, scanned, found) =
        index_rows-Scanned (suc p.height) 0
          (record { table = g.new; size = 0; tmp = 0; flag = true }) (omega arith) (omega arith) in
      (
        s,
        looped,
        record {
          sound = scanned.sound (λ k. rw (g.lookup-new k) tt);
          complete = λ y x b h r.
              found y (omega arith) (block_at-eq-some p y x b r).0 x b (omega arith) h r;
        },
      )
