-- ===== src/Index.antt =====
-- index.c: the table from a hash to the places of the base image whose block has it.
pub mod Places
pub mod Scan
use im_dedup_plus.Prelude.{
  ℕ, zero, suc, ◌+◌, ◌*◌, ◌-◌, ◌^◌, ◌≡◌, u16, u32, sub64, ◌<<<◌, bit_and, bit_or,
}
use im_dedup_plus.Prelude.{Bool, true, false, ◌||◌, not, ◌==◌, leb, if◌then◌else◌, get_or}
use im_dedup_plus.Prelude.{Option, none, some, ◌>>=◌, List, [], ◌∷◌, ◌++◌}
use im_dedup_plus.Image.{Block, JpegCoe, Plane, plane, block_at}

-- `digest_node`: a place in a component.
pub record Digest : Type 0 where
  pub x : ℕ
  pub y : ℕ

-- What the code relies on of GLib's hash table with integer keys, here from a hash to the
-- `digest_list` that the table points to: a new table is empty, and an inserted list is what its key
-- finds from then on, and no other key.
pub record GHashTable : Type 1 where
  pub Table : Type 0
  pub new : Table
  pub lookup : Table → ℕ → Option (List Digest)
  pub insert : Table → ℕ → List Digest → Table
  pub lookup-new : (k : ℕ) → lookup new k ≡ none
  pub lookup-insert :
      (t : Table) (k j : ℕ) (ds : List Digest)
      → lookup (insert t k ds) j ≡ (if k == j then some ds else lookup t j)

-- The places of a list that may not be there.
abbrev pub digests : Option (List Digest) → List Digest
digests none = []
digests (some ds) = ds

-- The hash under DC_HASH, as C reads it: `&` binds looser than `<<`. The shift of the DC leaves the
-- `int`, which wraps.
unfoldable pub dc_hash : Block → ℕ
dc_hash b = u32 (
    bit_or
      (bit_or (bit_or (get_or b 0 0 <<< 24) (bit_and (get_or b 1 0) (0xff <<< 16)))
        (bit_and (get_or b 8 0) (0xff <<< 8)))
      (bit_and (get_or b 9 0) 0xff))

-- `sizeof(uint64_t) + sizeof(digest_list)` and `sizeof(digest_node)`.
abbrev pub list_size : ℕ
list_size = 24

abbrev pub digest_size : ℕ
digest_size = 16

module _ (g : GHashTable) where
  -- The table, `*size_part`, and the row's `tmp` and `flag`.
  pub record Indexer : Type 0 where
    pub table : g.Table
    pub size : ℕ
    pub tmp : ℕ
    pub flag : Bool

  -- A place is appended to the list of its hash, or begins one.
  unfoldable pub add_digest : Indexer → ℕ → Digest → Indexer
  add_digest s hash d = elim (g.lookup s.table hash) [
    | some ds ↦ record s {
      table = g.insert s.table hash (ds ++ d ∷ []);
      size = s.size + digest_size;
    }
    | none ↦ record s {
      table = g.insert s.table hash (d ∷ []);
      size = s.size + list_size + digest_size;
    }
  ]

  -- The body of the loop over the columns: a block with the hash of its left neighbour is left out.
  unfoldable pub index_block : Indexer → ℕ → ℕ → Block → Indexer
  index_block s row column b =
      let hash = dc_hash b in
      let d : Digest = record { x = u16 column; y = u16 row } in
      if not (hash == s.tmp) || s.flag
      then record (add_digest s hash d) { tmp = hash; flag = false }
      else record s { flag = false }

  module _ (p : Plane) where
    -- `for(column=0; column<=width-1; column++)`. `j` is the variable of that name, which the thread
    -- reads and never sets.
    unfoldable pub index_columns : ℕ → ℕ → ℕ → ℕ → Indexer → Option Indexer
    index_columns zero j row column s = none
    index_columns (suc fuel) j row column s = elim (leb column (sub64 p.width 1)) [
      | false ↦ some s
      | true ↦ do
        b ← block_at p (row + j) column
        index_columns fuel j row (column + 1) (index_block s row column b)
    ]

    -- `for(row=from; row<=to; row++)`.
    unfoldable pub index_rows : ℕ → ℕ → ℕ → ℕ → Indexer → Option Indexer
    index_rows zero j to row s = none
    index_rows (suc fuel) j to row s = elim (leb row to) [
      | false ↦ some s
      | true ↦ do
        s' ← index_columns (suc p.width) j row 0 (record s { tmp = 0; flag = true })
        index_rows fuel j to (row + 1) s'
    ]

    -- `index_compute_thread` with its one `index_sub_thread`, from row 0 to `height-LBS`.
    unfoldable pub index_compute_thread : ℕ → Option Indexer
    index_compute_thread j =
        index_rows (suc p.height) j (sub64 p.height 1) 0
          (record { table = g.new; size = 0; tmp = 0; flag = true })

  -- The three tables and `*size`. Without `fix_flag` the tables stay empty. `j` gives what the
  -- unset variable of each component's thread holds.
  unfoldable pub create_block_index : (ℕ → ℕ) → JpegCoe → Bool → Option ((ℕ → g.Table) × ℕ)
  create_block_index j base fix_flag = elim fix_flag [
    | false ↦ some (λ i. g.new, 0)
    | true ↦ do
      y ← index_compute_thread (plane base 0) (j 0)
      u ← index_compute_thread (plane base 1) (j 1)
      v ← index_compute_thread (plane base 2) (j 2)
      some (
        λ i. if i == 0 then y.table else if i == 1 then u.table else v.table,
        y.size + u.size + v.size,
      )
  ]
