-- ===== src/Buffer/Spec.antt =====
-- buffer.c by what it promises: the nodes that hold their data, the least recently used first, and the
-- room that they leave.
use im_dedup_plus.Prelude.{ℕ, zero, suc, ◌+◌, ◌-◌, Bool, true, false, ◌==◌, ltb, if◌then◌else◌}
use im_dedup_plus.Prelude.{List, [], ◌∷◌, ◌++◌}
use im_dedup_plus.Buffer.Outcome.{Run, done, null_pointer, out_of_fuel, ◌>>=◌}
use im_dedup_plus.Buffer.Chain.{remove}

pub record Held : Type 0 where
  pub items : List ℕ
  pub room : ℕ

-- The node at the top: its data goes if nobody uses it, else it goes behind the others.
abbrev pub turn : (ℕ → ℕ) → (ℕ → ℕ) → ℕ → List ℕ → ℕ → Held
turn node_size link n rest room =
    if link n == 0
    then record { items = rest; room = room + node_size n }
    else record { items = rest ++ n ∷ []; room = room }

-- From the top until there is room. The last node cannot go.
unfoldable pub evict : (ℕ → ℕ) → (ℕ → ℕ → ℕ) → ℕ → ℕ → List ℕ → ℕ → Run Held
evict node_size links zero extra items room = out_of_fuel
evict node_size links (suc fuel) extra [] room =
    if ltb room extra then null_pointer else done (record { items = []; room = room })
evict node_size links (suc fuel) extra (n ∷ []) room =
    if ltb room extra then null_pointer else done (record { items = n ∷ []; room = room })
evict node_size links (suc fuel) extra (n ∷ m ∷ ns) room =
    let turned = turn node_size (links fuel) n (m ∷ ns) room in
    let rest = evict node_size links fuel extra turned.items turned.room in
    if ltb room extra then rest else done (record { items = n ∷ m ∷ ns; room = room })

-- A node whose data came back, or that is new.
unfoldable pub insert_held : (ℕ → ℕ) → (ℕ → ℕ → ℕ) → ℕ → ℕ → List ℕ → ℕ → Run Held
unfolding evict
insert_held node_size links fuel item items room = do
  h ← evict node_size links fuel (node_size item) items room
  done (record { items = h.items ++ item ∷ []; room = h.room - node_size item })

-- A node that is used again.
unfoldable pub use_again : (ℕ → ℕ) → (ℕ → ℕ → ℕ) → Bool → ℕ → ℕ → List ℕ → ℕ → Run Held
unfolding insert_held
use_again node_size links true fuel item items room =
    done (record { items = remove item items ++ item ∷ []; room = room })
use_again node_size links false fuel item items room =
    insert_held node_size links fuel item items room
