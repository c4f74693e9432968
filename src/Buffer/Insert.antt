-- ===== src/Buffer/Insert.antt =====
-- buffer.c: `insert_to_buffer` beside `insert_held`.
use im_dedup_plus.Prelude.{
  ℕ, zero, suc, ◌-◌, ◌^◌, ◌≤◌, ◌<◌, ◌≡◌, ◌⊎◌, refl, ap, ◌∙◌, arith, sub64, Bool, true, false, ltb,
  Bool-cases, inl, inr,
}
use im_dedup_plus.Prelude.{none, some, length, List, [], ◌∷◌, ◌++◌}
use im_dedup_plus.Queue.{set_next, is_some}
use im_dedup_plus.Queue.Chain.{count, set_next-same, append-IsSimple}
use im_dedup_plus.Buffer.{Buffer, link_item, insert_to_buffer, make_room}
use im_dedup_plus.Buffer.Outcome.{Run, done, null_pointer, out_of_fuel, ◌>>=◌, deref}
use im_dedup_plus.Buffer.Spec.{Held, turn, evict, insert_held}
use im_dedup_plus.Buffer.Content.{HasContent-new}
use im_dedup_plus.Buffer.Room.{IsBuffer, with_behind, with_behind-IsLinked}
use im_dedup_plus.Buffer.Evict.{Agrees, make_room-evict}

-- What holds of the nodes, where there are any.
abbrev pub Holds : (Held → Type 0) → Run Held → Type 0
Holds P (done h) = P h
Holds P null_pointer = Unit
Holds P out_of_fuel = Unit

-- Evicting ends with room, and not with nothing.
abbrev pub Ample : ℕ → List ℕ → Held → Type 0
Ample extra items h = (extra ≤ h.room) × (1 ≤ length items → 1 ≤ length h.items)

pub ltb-le : (a b : ℕ) → ltb a b ≡ false → b ≤ a
ltb-le a b h = ground arith

evict_mono :
    (extra : ℕ) (items items' : List ℕ)
    → (1 ≤ length items' → 1 ≤ length items)
    → (r : Run Held) → Holds (Ample extra items) r
    → Holds (Ample extra items') r
evict_mono extra items items' more (done h) (fits, some_left) = (fits, λ k. some_left (more k))
evict_mono extra items items' more null_pointer p = tt
evict_mono extra items items' more out_of_fuel p = tt

turn-nonempty :
    (node_size link : ℕ → ℕ) (n m : ℕ) (ns : List ℕ) (room : ℕ)
    → 1 ≤ length (turn node_size link n (m ∷ ns) room).items
turn-nonempty node_size link n m ns room = ground arith

pub evict-Ample :
    (node_size : ℕ → ℕ) (links : ℕ → ℕ → ℕ) (fuel extra : ℕ) (items : List ℕ) (room : ℕ)
    → Holds (Ample extra items) (evict node_size links fuel extra items room)
unfolding evict
evict-Ample node_size links zero extra items room = tt
evict-Ample node_size links (suc fuel) extra [] room = elim (Bool-cases (ltb room extra)) [
  | inl e ↦ rw (e) tt
  | inr e ↦ rw (e) (ltb-le room extra e, λ h. h)
]
evict-Ample node_size links (suc fuel) extra (n ∷ []) room = elim (Bool-cases (ltb room extra)) [
  | inl e ↦ rw (e) tt
  | inr e ↦ rw (e) (ltb-le room extra e, λ h. h)
]
evict-Ample node_size links (suc fuel) extra (n ∷ m ∷ ns) room =
    elim (Bool-cases (ltb room extra)) [
      | inl e ↦
          let turned = turn node_size (links fuel) n (m ∷ ns) room in
          rw (e) (
            evict_mono extra turned.items (n ∷ m ∷ ns)
              (λ h. turn-nonempty node_size (links fuel) n m ns room)
              (evict node_size links fuel extra turned.items turned.room)
              (evict-Ample node_size links fuel extra turned.items turned.room))
      | inr e ↦ rw (e) (ltb-le room extra e, λ h. h)
    ]

pub nought : (n : ℕ) → (n ≡ 0) ⊎ (1 ≤ n)
nought zero = inl refl
nought (suc n) = inr (omega arith)

module _ (node_size : ℕ → ℕ) (capacity : ℕ) where
  -- What follows on both sides.
  pub Agrees-then :
      (others others' : ℕ → Bool) (known known' : List ℕ) (P : Held → Type 0)
      (f : Buffer → Run Buffer) (g : Held → Run Held) (r : Run Buffer) (e : Run Held)
      → Agrees node_size capacity others known r e
      → Holds P e
      → ((b : Buffer) (h : Held)
          → IsBuffer node_size capacity others known h.items b
          → b.size ≡ h.room
          → P h
          → Agrees node_size capacity others' known' (f b) (g h))
      → Agrees node_size capacity others' known' (r >>= f) (e >>= g)
  Agrees-then others others' known known' P f g (done b) (done h) (q, same) p step =
      step b h q same p
  Agrees-then others others' known known' P f g (done b) null_pointer a p step = absurd a
  Agrees-then others others' known known' P f g (done b) out_of_fuel a p step = absurd a
  Agrees-then others others' known known' P f g null_pointer (done h) a p step = absurd a
  Agrees-then others others' known known' P f g null_pointer null_pointer a p step = tt
  Agrees-then others others' known known' P f g null_pointer out_of_fuel a p step = absurd a
  Agrees-then others others' known known' P f g out_of_fuel (done h) a p step = absurd a
  Agrees-then others others' known known' P f g out_of_fuel null_pointer a p step = absurd a
  Agrees-then others others' known known' P f g out_of_fuel out_of_fuel a p step = tt

  module _ (others : ℕ → Bool) (known : List ℕ) (large : (n : ℕ) → 0 < node_size n)
      (bounded : capacity < 2 ^ 64) (item : ℕ) (fresh : count item known ≡ 0)
      (there : others item ≡ true) where
    -- What follows the loop.
    after_room : Buffer → Run Buffer
    unfolding link_item
    after_room b = do
      linked ← link_item item b
      done (record linked {
        next = set_next item none linked.next;
        tail = some item;
        size = sub64 linked.size (node_size item);
      })

    absent :
        (items : List ℕ) (b : Buffer)
        → IsBuffer node_size capacity others known items b
        → count item items ≡ 0
    absent items b q = elim (nought (count item items)) [
      | inl e ↦ e
      | inr more ↦ absurd (omega (arith, fresh, q.content.listed item more))
    ]

    -- Where there is room, the item goes in.
    after_room-IsBuffer :
        (items : List ℕ) (b : Buffer)
        → node_size item ≤ b.size
        → IsBuffer node_size capacity others known items b
        → (b' : Buffer) × (after_room b ≡ done b')
          × IsBuffer node_size capacity others (item ∷ known) (items ++ item ∷ []) b'
          × (b'.size ≡ b.size - node_size item)
    unfolding after_room link_item is_some
    after_room-IsBuffer [] b fits q =
        let empty : is_some b.head ≡ false = ap is_some q.linked.chained in
        (
          record {
            head = some item;
            tail = some item;
            size = sub64 b.size (node_size item);
            next = set_next item none b.next;
            pre = set_next item none b.pre;
            filled = b.filled;
          },
          rw (empty, ◌>>=◌) refl,
          record {
            linked = record {
              chained = (refl, set_next-same item none b.next);
              back = (set_next-same item none b.pre, tt);
              last = refl;
              room = omega (arith, q.linked.room, fits, bounded);
              simple = append-IsSimple item [] q.linked.simple refl;
            };
            content = HasContent-new others known b.filled item [] there fresh q.content;
          },
          omega (arith, q.linked.room, fits, bounded),
        )
    after_room-IsBuffer (n ∷ ns) b fits q =
        let used : is_some b.head ≡ true = ap is_some q.linked.chained.0 in
        let (l, tailed, placed) =
          with_behind-IsLinked node_size capacity bounded item n ns b (absent (n ∷ ns) b q) fits
            q.linked in
        (
          with_behind node_size capacity bounded item l b,
          rw (used, tailed, ◌>>=◌, deref, ◌>>=◌) refl,
          record {
            linked = placed;
            content = HasContent-new others known b.filled item (n ∷ ns) there fresh q.content;
          },
          omega (arith, q.linked.room, fits, bounded),
        )

    -- For positive sizes and a capacity below 2^64, whatever the other threads do with the links: a node
    -- with its data that the buffer does not know
    -- goes in as `insert_held` says, or fails as it does.
    pub insert_to_buffer-insert_held :
        (links : ℕ → ℕ → ℕ) (fuel : ℕ) (items : List ℕ) (buf : Buffer)
        → IsBuffer node_size capacity others known items buf
        → Agrees node_size capacity others
            (item ∷ known)
            (insert_to_buffer node_size links fuel item buf)
            (insert_held node_size links fuel item items buf.size)
    unfolding insert_to_buffer insert_held after_room
    insert_to_buffer-insert_held links fuel items buf q =
        Agrees-then others others known (item ∷ known) (Ample (node_size item) items) after_room
          (λ h. done (record { items = h.items ++ item ∷ []; room = h.room - node_size item }))
          (make_room node_size links fuel (node_size item) buf)
          (evict node_size links fuel (node_size item) items buf.size)
          (make_room-evict node_size capacity others known large bounded links fuel (node_size item)
            items buf q)
          (evict-Ample node_size links fuel (node_size item) items buf.size)
          (λ b h k same ample.
            let (b', run, q', size) =
              after_room-IsBuffer h.items b (omega (arith, ample.0, same)) k in
            rw (run) (q', size ∙ ap (λ (x : ℕ). x - node_size item) same))
