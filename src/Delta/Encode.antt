-- ===== src/Delta/Encode.antt =====
-- idelta.c: `get_instructions_thread` and `get_instructions`, with THREAD_OPTI, FIX_OPTI and DC_HASH
-- and one sub-thread to a component. A loop's function returns what the loop appends from there on.
-- `none` is a read outside an image, or fuel that ran out.
use im_dedup_plus.Prelude.{ℕ, zero, suc, ◌+◌, u16, sub64, Bool, true, false, ◌&&◌, ◌==◌, ltb, leb}
use im_dedup_plus.Prelude.{if◌then◌else◌, Option, none, some, ◌>>=◌, length, List, [], ◌∷◌, ◌++◌}
use im_dedup_plus.Image.{Block, JpegCoe, Plane, plane, block_at, same_block}
use im_dedup_plus.Index.{Digest, GHashTable, digests, dc_hash}

-- The arrays that the thread fills: `cpx`, `cpy`, `cpl`, `inl`, and `inp`, here the blocks that its
-- pointers show.
pub record Instructions : Type 0 where
  pub cpx : List ℕ
  pub cpy : List ℕ
  pub cpl : List ℕ
  pub inl : List ℕ
  pub inp : List Block

abbrev pub no_instructions : Instructions
no_instructions = record { cpx = []; cpy = []; cpl = []; inl = []; inp = [] }

-- `g_array_append_vals` of each array.
abbrev pub append_vals : Instructions → Instructions → Instructions
append_vals a b = record {
  cpx = a.cpx ++ b.cpx;
  cpy = a.cpy ++ b.cpy;
  cpl = a.cpl ++ b.cpl;
  inl = a.inl ++ b.inl;
  inp = a.inp ++ b.inp;
}

-- The inner `for` over `j` and `k`; `len` is a COPY_L. `rows` is the condition on the row that the
-- loop of the other method has besides.
unfoldable pub match_len : ℕ → Bool → Plane → Plane → ℕ → ℕ → ℕ → ℕ → ℕ → Option ℕ
match_len zero rows base tar y row j k len = none
match_len (suc fuel) rows base tar y row j k len =
    elim (leb j (sub64 base.width 1) && leb k (sub64 tar.width 1) && rows) [
      | false ↦ some len
      | true ↦ do
        b ← block_at base y j
        t ← block_at tar row k
        elim (same_block b t) [
          | false ↦ some len
          | true ↦ match_len fuel rows base tar y row (j + 1) (k + 1) (u16 (len + 1))
        ]
    ]

-- `xmax`, `ymax` and `lenmax`.
pub record Match : Type 0 where
  pub x : ℕ
  pub y : ℕ
  pub len : ℕ

-- `while(d_item)`: the first of the longest matches.
unfoldable pub best_match : Plane → Plane → ℕ → ℕ → List Digest → Match → Option Match
best_match base tar row column [] best = some best
best_match base tar row column (d ∷ ds) best = do
  len ← match_len (suc tar.width) true base tar d.y row d.x column 0
  best_match base tar row column ds
      (if ltb best.len len then record { x = d.x; y = d.y; len = len } else best)

-- The coordinates are not set while `lenmax` is 0, and are not used then.
abbrev pub no_match : Match
no_match = record { x = 0; y = 0; len = 0 }

-- `if(in_len) g_array_append_val(inl,in_len);`
unfoldable pub end_row : ℕ → Instructions
end_row in_len =
    if in_len == 0 then no_instructions else record no_instructions { inl = in_len ∷ [] }

-- `if(lenmax) … ` and what follows it.
abbrev pub copy_then : Match → ℕ → Instructions → Instructions
copy_then m in_len r = record {
  cpx = m.x ∷ r.cpx;
  cpy = m.y ∷ r.cpy;
  cpl = m.len ∷ r.cpl;
  inl = in_len ∷ r.inl;
  inp = r.inp;
}

abbrev pub insert_then : Block → Instructions → Instructions
insert_then b r = record r { inp = b ∷ r.inp }

module _ (g : GHashTable) (fix_flag : Bool) (table : g.Table) (base tar : Plane) where
  -- The match at a block: by its hash, or the block at the same place (`fix_flag` 0).
  unfoldable pub find_match : ℕ → ℕ → Block → Option Match
  find_match row column t = elim fix_flag [
    | true ↦ best_match base tar row column (digests (g.lookup table (dc_hash t))) no_match
    | false ↦ do
      len ←
          match_len (suc tar.width) (leb row (sub64 base.height 1)) base tar row row column column 0
      some (record { x = column; y = row; len = len })
  ]

  -- `while(column <= tar_width-LBS)`; `column` and `in_len` are 16-bit.
  unfoldable pub column_loop : ℕ → ℕ → ℕ → ℕ → Option Instructions
  column_loop zero row column in_len = none
  column_loop (suc fuel) row column in_len = elim (leb column (sub64 tar.width 1)) [
    | false ↦ some (end_row in_len)
    | true ↦ do
      t ← block_at tar row column
      m ← find_match row column t
      elim (m.len == 0) [
        | false ↦ do r ← column_loop fuel row (u16 (column + m.len)) 0; some (copy_then m in_len r)
        | true ↦ do
          r ← column_loop fuel row (u16 (column + 1)) (u16 (in_len + 1))
          some (insert_then t r)
      ]
  ]

  -- `for(COPY_Y row=tar_from; row<=tar_to; row++)`.
  unfoldable pub row_loop : ℕ → ℕ → ℕ → Option Instructions
  row_loop zero tar_to row = none
  row_loop (suc fuel) tar_to row = elim (leb row tar_to) [
    | false ↦ some no_instructions
    | true ↦ do
      r ← column_loop (suc tar.width) row 0 0
      rest ← row_loop fuel tar_to (u16 (row + 1))
      some (append_vals r rest)
  ]

  -- One sub-thread to a component: `tar_from` is 0 and `tar_to` is `tar_height[i]-LBS`.
  unfoldable pub get_instructions_thread : Option Instructions
  get_instructions_thread = row_loop (suc tar.height) (sub64 tar.height 1) 0

-- What `get_instructions` and `dedup_a_single_img` leave in a `dedupRes`: the arrays of the three
-- components one behind the other, the number of insert lengths of each, and `imgSize[0..3]`.
pub record DedupRes : Type 0 where
  pub instructions : Instructions
  pub y_counter : ℕ
  pub u_counter : ℕ
  pub v_counter : ℕ
  pub img_size : ℕ → ℕ

-- `subBlockTab[i]`.
abbrev pub SubBlockTab : GHashTable → Type 0
SubBlockTab g = ℕ → g.Table

unfoldable pub get_instructions :
    (g : GHashTable) → Bool → SubBlockTab g → JpegCoe → JpegCoe → Option DedupRes
get_instructions g fix_flag tab base target = do
  y ← get_instructions_thread g fix_flag (tab 0) (plane base 0) (plane target 0)
  u ← get_instructions_thread g fix_flag (tab 1) (plane base 1) (plane target 1)
  v ← get_instructions_thread g fix_flag (tab 2) (plane base 2) (plane target 2)
  some (record {
    instructions = append_vals (append_vals y u) v;
    y_counter = length y.inl;
    u_counter = length u.inl;
    v_counter = length v.inl;
    img_size = target.img_size;
  })
