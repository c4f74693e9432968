-- ===== src/Index/Places.antt =====
-- index.c: what a table says of the image while it is filled.
use im_dedup_plus.Prelude.{ℕ, ◌<◌, ◌≡◌, refl, subst, arith, u16}
use im_dedup_plus.Prelude.{true, false, ◌==◌, not, ◌||◌, inl, inr, Bool-cases, Option-cases}
use im_dedup_plus.Prelude.{Option, some, List, [], ◌∷◌, ◌++◌}
use im_dedup_plus.Image.{Block, Plane, block_at}
use im_dedup_plus.Index.{Digest, GHashTable, digests, dc_hash, Indexer, add_digest, index_block}

-- A place of the component whose block has the hash.
pub record IsHit (p : Plane) (hash : ℕ) (d : Digest) : Type 0 where
  pub in_column : d.x < p.width
  pub in_row : d.y < p.height
  pub block : Block
  pub read : block_at p d.y d.x ≡ some block
  pub same_hash : dc_hash block ≡ hash

abbrev pub AllHits : Plane → ℕ → List Digest → Type 0
AllHits p hash [] = Unit
AllHits p hash (d ∷ ds) = IsHit p hash d × AllHits p hash ds

AllHits-append :
    (p : Plane) (hash : ℕ) (ds : List Digest) (d : Digest)
    → AllHits p hash ds
    → IsHit p hash d
    → AllHits p hash (ds ++ d ∷ [])
AllHits-append p hash [] d hs h = (h, tt)
AllHits-append p hash (e ∷ ds) d (h', hs) h = (h', AllHits-append p hash ds d hs h)

module _ (g : GHashTable) (p : Plane) where
  abbrev pub Table : Type 0
  Table = g.Table

  -- Every list of the table holds places with its hash.
  abbrev pub AllSound : Table → Type 0
  AllSound t = (k : ℕ) → AllHits p k (digests (g.lookup t k))

  -- The hash has a list, and the list a place.
  abbrev pub Found : Table → ℕ → Type 0
  Found t k = (d : Digest) × (ds : List Digest) × (g.lookup t k ≡ some (d ∷ ds))

  insert-AllSound :
      (t : Table) (hash : ℕ) (ds : List Digest)
      → AllSound t
      → AllHits p hash ds
      → AllSound (g.insert t hash ds)
  insert-AllSound t hash ds sound hits k = elim (Bool-cases (hash == k)) [
    | inl e ↦
        let same : hash ≡ k = ground arith in
        rw (g.lookup-insert t hash k ds, e) (subst (λ (h : ℕ). AllHits p h ds) same hits)
    | inr e ↦ rw (g.lookup-insert t hash k ds, e) (sound k)
  ]

  insert-Found :
      (t : Table) (hash : ℕ) (d : Digest) (ds : List Digest) → Found (g.insert t hash (d ∷ ds)) hash
  insert-Found t hash d ds =
      let e : (hash == hash) ≡ true = ground arith in
      (d, ds, rw (g.lookup-insert t hash hash (d ∷ ds), e) refl)

  insert-keeps :
      (t : Table) (hash k : ℕ) (d : Digest) (ds : List Digest)
      → Found t k
      → Found (g.insert t hash (d ∷ ds)) k
  insert-keeps t hash k d ds (d', ds', h) = elim (Bool-cases (hash == k)) [
    | inl e ↦ (d, ds, rw (g.lookup-insert t hash k (d ∷ ds), e) refl)
    | inr e ↦ (d', ds', rw (g.lookup-insert t hash k (d ∷ ds), e) h)
  ]

  -- What one step may do to a table: the lists stay sound, no hash is lost, and one more is there.
  pub record Gains (s s' : Table) (hash : ℕ) : Type 0 where
    pub sound : AllSound s → AllSound s'
    pub keeps : (k : ℕ) → Found s k → Found s' k
    pub gained : Found s' hash

  inserted :
      (t : Table) (hash : ℕ) (d : Digest) (ds : List Digest)
      → (AllSound t → AllHits p hash (d ∷ ds))
      → Gains t (g.insert t hash (d ∷ ds)) hash
  inserted t hash d ds hits = record {
    sound = λ s. insert-AllSound t hash (d ∷ ds) s (hits s);
    keeps = λ k f. insert-keeps t hash k d ds f;
    gained = insert-Found t hash d ds;
  }

  pub add_digest-Gains :
      (s : Indexer g) (hash : ℕ) (d : Digest)
      → IsHit p hash d
      → Gains s.table (add_digest g s hash d).table hash
  unfolding add_digest
  add_digest-Gains s hash d hit = elim (Option-cases (g.lookup s.table hash)) [
    | inl e ↦ rw (add_digest, e) (inserted s.table hash d [] (λ _. (hit, tt)))
    | inr (ds, e) ↦ rw (add_digest, e) (longer ds e)
  ]
    where
      longer :
          (ds : List Digest)
          → g.lookup s.table hash ≡ some ds
          → Gains s.table (g.insert s.table hash (ds ++ d ∷ [])) hash
      longer [] e = inserted s.table hash d [] (λ _. (hit, tt))
      longer (d' ∷ ds) e = inserted s.table hash d' (ds ++ d ∷ []) (λ sound.
          AllHits-append p hash (d' ∷ ds) d
            (subst (λ (o : Option (List Digest)). AllHits p hash (digests o)) e (sound hash)) hit)

  -- The last hash that went in has a list.
  abbrev pub IsKept : Indexer g → Type 0
  IsKept s = s.flag ≡ false → Found s.table s.tmp

  same_hash_again :
      (s : Indexer g) (hash : ℕ)
      → IsKept s
      → (not (hash == s.tmp) || s.flag) ≡ false
      → Found s.table hash
  same_hash_again s hash kept h =
      let unset : s.flag ≡ false = ground arith in
      let same : s.tmp ≡ hash = ground arith in subst (λ (k : ℕ). Found s.table k) same (kept unset)

  pub index_block-Gains :
      (s : Indexer g) (row column : ℕ) (b : Block)
      → IsHit p (dc_hash b) (record { x = u16 column; y = u16 row })
      → IsKept s
      → Gains s.table (index_block g s row column b).table (dc_hash b)
        × IsKept (index_block g s row column b)
  unfolding index_block
  index_block-Gains s row column b hit kept =
      elim (Bool-cases (not (dc_hash b == s.tmp) || s.flag)) [
        | inl e ↦
            let gains =
              add_digest-Gains s (dc_hash b) (record { x = u16 column; y = u16 row }) hit in
            rw (index_block, e) (gains, λ _. gains.gained)
        | inr e ↦
            let again = same_hash_again s (dc_hash b) kept e in
            let unset : s.flag ≡ false = ground arith in
            rw (index_block, e)
              (record { sound = λ q. q; keeps = λ k q. q; gained = again }, λ _. kept unset)
      ]
